-- ===== src/Marshal/Testing.antt =====
-- testmarshall of rpc/rpctest.cc (lines 79-112): a header, an int, an unsigned long long and a
-- string from a marshall object to an unmarshall object.
use mit6_824_2012spring_yfs.Prelude.{
  ℕ, ◌+◌, ◌≡◌, refl, Bool, true, false, ◌&&◌, Option, some, List, [], ◌∷◌, ◌==◌, ◌>>=◌, ◌>>◌,
  length, assert, Memory, copy, slice,
}
use mit6_824_2012spring_yfs.Marshal.Headers.{ReqHeader, rpc_header_sz}
use mit6_824_2012spring_yfs.Marshal.Out.{
  new_marshall, pack_req_header, put_int, put_ulonglong, put_string, take_buf, put_uint, rawbyte,
  rawbytes, grow, pack,
}
use mit6_824_2012spring_yfs.Marshal.In
use mit6_824_2012spring_yfs.Marshal.In.{
  Unmarshall, new_unmarshall, unpack_req_header, get_int, get_ulonglong, get_string, okdone,
}

-- memcmp of two headers
same_header : ReqHeader → ReqHeader → Bool
same_header a b =
    a.xid == b.xid
    && a.proc == b.proc
    && a.clt_nonce == b.clt_nonce
    && a.srv_nonce == b.srv_nonce
    && a.xid_rep == b.xid_rep

same_string : List ℕ → List ℕ → Bool
same_string [] [] = true
same_string (x ∷ s) (y ∷ t) = x == y && same_string s t
same_string [] (y ∷ t) = false
same_string (x ∷ s) [] = false

-- Lines 98-111, on what take_buf has given.
unmarshall_all : ReqHeader → (i l : ℕ) → (s : List ℕ) → Memory → ℕ → Option (Unit {0})
unmarshall_all rh i l s b sz = do
  assert (sz == rpc_header_sz + 4 + 8 + length s + 4)
  let (rh₁, u) = unpack_req_header (new_unmarshall b sz)
  assert (same_header rh rh₁)
  (i₁, u₁) ← get_int u
  (l₁, u₂) ← get_ulonglong u₁
  (s₁, u₃) ← get_string u₂
  assert (okdone u₃)
  assert (i₁ == i && l₁ == l && same_string s₁ s)

-- `junk` is what malloc leaves in the buffer.
testmarshall : Memory → ReqHeader → (i l : ℕ) → (s : List ℕ) → Option (Unit {0})
testmarshall junk rh i l s = do
  m ← pack_req_header rh (new_marshall junk)
  assert (m.ind == rpc_header_sz)
  m₁ ← put_int i m
  m₂ ← put_ulonglong l m₁
  m₃ ← put_string s m₂
  let ((b, sz), m₄) = take_buf m₃
  unmarshall_all rh i l s b sz

abbrev hallo : List ℕ
hallo = 104 ∷ 97 ∷ 108 ∷ 108 ∷ 111 ∷ 46 ∷ 46 ∷ 46 ∷ 46 ∷ []

testmarshall_passes :
    (junk : Memory)
    → testmarshall junk
        (record { xid = 1; proc = 2; clt_nonce = 3; srv_nonce = 4; xid_rep = 5 })
        12345
        1223344455
        hallo
      ≡ some tt
unfolding testmarshall unmarshall_all pack_req_header pack rawbyte put_int put_uint put_ulonglong
    put_string rawbytes take_buf get_int In.get_uint get_ulonglong get_string okdone
    unpack_req_header same_header same_string grow In.rawbyte In.rawbytes In.unpack copy slice
testmarshall_passes junk = refl
