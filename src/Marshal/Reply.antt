-- ===== src/Marshal/Reply.antt =====
-- A reply from the marshall object that rpcs::dispatch packs to the unmarshall object of the caller.
use mit6_824_2012spring_yfs.Prelude.{
  ℕ, ◌+◌, ◌^◌, ◌<◌, ◌≡◌, refl, true, Option, some, List, [], ◌++◌, length, length-append, arith,
  ◌>>=◌, Memory, At, At-append, At-copy_below, append-nil, slice, At-slice, length-slice, ◌-◌,
}
use mit6_824_2012spring_yfs.Marshal.Headers.{ReplyHeader, rpc_header_sz, sizeof_rpc_sz}
use mit6_824_2012spring_yfs.Marshal.Out.{Marshall, new_marshall, pack, pack_reply_header}
use mit6_824_2012spring_yfs.Marshal.Out.Writes.{Writes, seq-Writes}
use mit6_824_2012spring_yfs.Marshal.Out.Appends.{be32, pack-Writes}
use mit6_824_2012spring_yfs.Marshal.In.{
  Unmarshall, empty_unmarshall, new_unmarshall, unpack_reply_header, take_in, take_buf, okdone,
}
use mit6_824_2012spring_yfs.Marshal.In.Reads.{Left, unpack_lem, past4}
use mit6_824_2012spring_yfs.Marshal.Codec.{Codec}
use mit6_824_2012spring_yfs.Marshal.Wire.{framed, rewound-IsOpen}

abbrev pack_fields : ReplyHeader → Marshall → Option Marshall
pack_fields h m = pack h.xid m >>= pack h.ret

abbrev field_bytes : ReplyHeader → List ℕ
field_bytes h = be32 h.xid ++ be32 h.ret

fields-Writes : (h : ReplyHeader) → Writes (pack_fields h) (field_bytes h)
fields-Writes h = seq-Writes _ (pack h.ret) _ _ (pack-Writes h.xid) (pack-Writes h.ret)

pack_reply_header_lem :
    (h : ReplyHeader) (m m₂ : Marshall)
    → pack_fields h (record m { ind = sizeof_rpc_sz }) ≡ some m₂
    → pack_reply_header h m ≡ some (record m₂ { ind = m.ind })
unfolding pack_reply_header
pack_reply_header_lem h m m₂ e = ground (arith, e)

abbrev pub IsReplyHeader : ReplyHeader → Type 0
IsReplyHeader h = (h.xid < 2 ^ 32) × (h.ret < 2 ^ 32)

unpack_reply_header_lem :
    (h : ReplyHeader) (u : Unmarshall) (rest : List ℕ)
    → IsReplyHeader h
    → Left (record u { ind = sizeof_rpc_sz }) (field_bytes h ++ rest)
    → unpack_reply_header u ≡ (h, record u { ind = rpc_header_sz })
unfolding unpack_reply_header
unpack_reply_header_lem h u rest (hx, hr) l =
    let u₀ : Unmarshall = record u { ind = sizeof_rpc_sz } in
    let (e₁, l₁) = unpack_lem h.xid u₀ _ hx l in
    let (e₂, l₂) = unpack_lem h.ret (past4 u₀) rest hr l₁ in rw (e₁, e₂) refl

-- What the caller gets of it: rpcc::got_pdu unpacks the header and takes the buffer in.
abbrev pub received : Marshall → Unmarshall
received m = record { buf = framed m; live = true; sz = m.ind; ind = rpc_header_sz; is_ok = true }

module _ {R : Type 0} (d : Codec R) (r : R) (h : ReplyHeader) (junk : Memory) where
  -- What is in the buffer of a marshalled reply.
  pub record ReplyMessage (m : Marshall) : Type 0 where
    pub size : m.ind ≡ rpc_header_sz + length (d.encode r)
    pub header : At m.buf sizeof_rpc_sz (field_bytes h)
    pub content : At m.buf rpc_header_sz (d.encode r)

  -- The result and then the header can be written.
  pub write_reply_lem :
      d.Valid r
      → (m₁ m : Marshall) × (d.put r (new_marshall junk) ≡ some m₁)
        × (pack_reply_header h m₁ ≡ some m)
        × ReplyMessage m
  write_reply_lem v =
      let m₀ : Marshall = new_marshall junk in
      let (m₁, e₁, w₁) =
        d.put-Writes r v m₀
          (record { alive = refl; some_room = omega arith; inside = omega arith }) in
      let (m₂, e₂, w₂) =
        fields-Writes h (record m₁ { ind = sizeof_rpc_sz }) (rewound-IsOpen w₁ (omega arith)) in
      (
        m₁,
        record m₂ { ind = m₁.ind },
        e₁,
        pack_reply_header_lem h m₁ m₂ e₂,
        record {
          size = w₁.moved;
          header = w₂.bytes;
          content = w₂.above rpc_header_sz (d.encode r) (omega arith) w₁.bytes;
        },
      )

  reply_Left :
      (m : Marshall) → ReplyMessage m → m.ind < 2 ^ 31 → Left (received m) (d.encode r ++ [])
  reply_Left m k s = record {
    fine = refl;
    bytes =
        rw append-nil
          (At-copy_below m.buf 0 rpc_header_sz (be32 m.ind) (d.encode r) (omega arith) k.content);
    to_end = omega (arith, k.size, length-append (d.encode r) []);
    small = s;
  }

  header_Left :
      (m : Marshall)
      → ReplyMessage m
      → m.ind < 2 ^ 31
      → Left
          (record (new_unmarshall (framed m) m.ind) { ind = sizeof_rpc_sz })
          (field_bytes h ++ slice (framed m) 12 (m.ind - 12))
  header_Left m k s = record {
    fine = refl;
    bytes =
        At-append (framed m) sizeof_rpc_sz (field_bytes h) _
          (At-copy_below m.buf 0 sizeof_rpc_sz (be32 m.ind) (field_bytes h) (omega arith) k.header)
          (At-slice (framed m) 12 (m.ind - 12));
    to_end = omega (arith, k.size, length-slice (framed m) 12 (m.ind - 12));
    small = s;
  }

  pub read_reply_lem :
      d.Valid r
      → IsReplyHeader h
      → (m : Marshall) → ReplyMessage m
      → m.ind < 2 ^ 31
      → (u : Unmarshall) × (unpack_reply_header (new_unmarshall (framed m) m.ind)
          ≡ (h, record (new_unmarshall (framed m) m.ind) { ind = rpc_header_sz }))
        × ((take_in empty_unmarshall
              (record (new_unmarshall (framed m) m.ind) { ind = rpc_header_sz })).0
            ≡ received m)
        × (d.get (received m) ≡ some (r, u))
        × (okdone u ≡ true)
  unfolding take_in take_buf okdone
  read_reply_lem v hv m k s =
      let (u, g, l) = d.get-Reads r v (received m) [] (reply_Left m k s) in
      (
        u,
        unpack_reply_header_lem h _ _ hv (header_Left m k s),
        ground (arith, k.size),
        g,
        ground (arith, l.fine, l.to_end),
      )
