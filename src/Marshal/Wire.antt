-- ===== src/Marshal/Wire.antt =====
-- A request or a reply from the marshall object that packs it to the unmarshall object that reads
-- it.
use mit6_824_2012spring_yfs.Prelude.{
  ℕ, ◌+◌, ◌^◌, ◌≤◌, ◌<◌, ◌≡◌, refl, true, Option, some, List, [], ◌++◌, length, length-append,
  arith, ◌>>=◌, Memory, copy, At, At-append, At-copy_below, append-nil,
}
use mit6_824_2012spring_yfs.Marshal.Headers.{ReqHeader, rpc_header_sz, sizeof_rpc_sz}
use mit6_824_2012spring_yfs.Marshal.Out.{Marshall, new_marshall, pack, pack_req_header}
use mit6_824_2012spring_yfs.Marshal.Out.Writes.{IsOpen, Written, Writes, seq-Writes}
use mit6_824_2012spring_yfs.Marshal.Out.Appends.{be32, pack-Writes}
use mit6_824_2012spring_yfs.Marshal.In.{Unmarshall, new_unmarshall, unpack_req_header, okdone}
use mit6_824_2012spring_yfs.Marshal.In.Reads.{Left, unpack_lem, past4}
use mit6_824_2012spring_yfs.Marshal.Codec.{Codec}

-- The packs of pack_req_header, from the head position on.
abbrev pack_fields : ReqHeader → Marshall → Option Marshall
pack_fields h m = pack h.xid m >>= λ m₁. pack h.proc m₁ >>= λ m₂.
    pack h.clt_nonce m₂ >>= λ m₃. pack h.srv_nonce m₃ >>= λ m₄. pack h.xid_rep m₄

abbrev field_bytes : ReqHeader → List ℕ
field_bytes h =
    be32 h.xid ++ (be32 h.proc ++ (be32 h.clt_nonce ++ (be32 h.srv_nonce ++ be32 h.xid_rep)))

fields-Writes : (h : ReqHeader) → Writes (pack_fields h) (field_bytes h)
fields-Writes h = seq-Writes _ _ _ _ (pack-Writes h.xid) (
    seq-Writes _ _ _ _ (pack-Writes h.proc) (
      seq-Writes _ _ _ _ (pack-Writes h.clt_nonce)
        (seq-Writes _ (pack h.xid_rep) _ _ (pack-Writes h.srv_nonce) (pack-Writes h.xid_rep))))

pack_req_header_lem :
    (h : ReqHeader) (m m₅ : Marshall)
    → pack_fields h (record m { ind = sizeof_rpc_sz }) ≡ some m₅
    → pack_req_header h m ≡ some (record m₅ { ind = m.ind })
unfolding pack_req_header
pack_req_header_lem h m m₅ e = ground (arith, e)

abbrev pub IsReqHeader : ReqHeader → Type 0
IsReqHeader h =
    (h.xid < 2 ^ 32)
    × (h.proc < 2 ^ 32)
    × (h.clt_nonce < 2 ^ 32)
    × (h.srv_nonce < 2 ^ 32)
    × (h.xid_rep < 2 ^ 32)

unpack_req_header_lem :
    (h : ReqHeader) (u : Unmarshall) (rest : List ℕ)
    → IsReqHeader h
    → Left (record u { ind = sizeof_rpc_sz }) (field_bytes h ++ rest)
    → (unpack_req_header u ≡ (h, record u { ind = rpc_header_sz }))
      × Left (record u { ind = rpc_header_sz }) rest
unfolding unpack_req_header
unpack_req_header_lem h u rest (hx, hp, hc, hs, hr) l =
    let u₀ : Unmarshall = record u { ind = sizeof_rpc_sz } in
    let (e₁, l₁) = unpack_lem h.xid u₀ _ hx l in
    let (e₂, l₂) = unpack_lem h.proc (past4 u₀) _ hp l₁ in
    let (e₃, l₃) = unpack_lem h.clt_nonce (past4 (past4 u₀)) _ hc l₂ in
    let (e₄, l₄) = unpack_lem h.srv_nonce (past4 (past4 (past4 u₀))) _ hs l₃ in
    let (e₅, l₅) = unpack_lem h.xid_rep (past4 (past4 (past4 (past4 u₀)))) rest hr l₄ in
    (rw (e₁, e₂, e₃, e₄, e₅), l₅)

-- The buffer that connection::writepdu sends: the size of the message goes into its first bytes.
abbrev pub framed : Marshall → Memory
framed m = copy m.buf 0 (be32 m.ind)

-- The message of a call: the arguments, then the header in front of them.
unfoldable pub write_request : {A : Type 0} → Codec A → A → ReqHeader → Marshall → Option Marshall
write_request c a h m = c.put a m >>= pack_req_header h

pub rewound-IsOpen :
    {m m₁ : Marshall} {bs : List ℕ}
    → Written m m₁ bs
    → rpc_header_sz ≤ m.capa
    → IsOpen (record m₁ { ind = sizeof_rpc_sz })
rewound-IsOpen w h = record {
  alive = (w.open_after).alive;
  some_room = (w.open_after).some_room;
  inside = omega (arith, w.grows);
}

module _ {A : Type 0} (c : Codec A) (a : A) (h : ReqHeader) (junk : Memory) where
  -- What is in the buffer of a marshalled request.
  record Message (m : Marshall) : Type 0 where
    size : m.ind ≡ rpc_header_sz + length (c.encode a)
    header : At m.buf sizeof_rpc_sz (field_bytes h)
    content : At m.buf rpc_header_sz (c.encode a)

  write_request_lem :
      c.Valid a → (m : Marshall) × (write_request c a h (new_marshall junk) ≡ some m) × Message m
  unfolding write_request
  write_request_lem v =
      let m₀ : Marshall = new_marshall junk in
      let (m₁, e₁, w₁) =
        c.put-Writes a v m₀
          (record { alive = refl; some_room = omega arith; inside = omega arith }) in
      let (m₂, e₂, w₂) =
        fields-Writes h (record m₁ { ind = sizeof_rpc_sz }) (rewound-IsOpen w₁ (omega arith)) in
      (
        record m₂ { ind = m₁.ind },
        rw e₁ (pack_req_header_lem h m₁ m₂ e₂),
        record {
          size = w₁.moved;
          header = w₂.bytes;
          content = w₂.above rpc_header_sz (c.encode a) (omega arith) w₁.bytes;
        },
      )

  Message-Left :
      (m : Marshall)
      → Message m
      → m.ind < 2 ^ 31
      → Left
          (record (new_unmarshall (framed m) m.ind) { ind = sizeof_rpc_sz })
          (field_bytes h ++ (c.encode a ++ []))
  Message-Left m k s = record {
    fine = refl;
    bytes =
        At-append (framed m) sizeof_rpc_sz (field_bytes h) _
          (At-copy_below m.buf 0 sizeof_rpc_sz (be32 m.ind) (field_bytes h) (omega arith) k.header)
          (rw append-nil (
            At-copy_below m.buf 0 rpc_header_sz (be32 m.ind) (c.encode a) (omega arith) k.content));
    to_end = omega (arith, k.size, length-append (c.encode a) []);
    small = s;
  }

  -- A request that is marshalled by the call templates of rpcc, packed by call1 and framed by the
  -- connection is read back by the server: the header by unpack_req_header, then the arguments,
  -- with nothing left over. It is so for the arguments of every codec and every header of 32-bit
  -- fields, if the message stays below 2^31 bytes, and whatever malloc left in the buffer.
  pub request_roundtrip :
      c.Valid a
      → IsReqHeader h
      → rpc_header_sz + length (c.encode a) < 2 ^ 31
      → (m : Marshall) × (write_request c a h (new_marshall junk) ≡ some m)
        × (let r = unpack_req_header (new_unmarshall (framed m) m.ind) in
            (r.0 ≡ h) × ((u : Unmarshall) × (c.get r.1 ≡ some (a, u)) × (okdone u ≡ true)))
  unfolding okdone
  request_roundtrip v hv small =
      let (m, e, k) = write_request_lem v in
      let (r, l) =
        unpack_req_header_lem h (new_unmarshall (framed m) m.ind) _ hv
          (Message-Left m k (omega (arith, k.size))) in
      let (u, g, l') = c.get-Reads a v _ [] l in
      (m, e, rw r (refl, (u, g, ground (arith, l'.fine, l'.to_end))))
