-- ===== src/Marshal/Examples.antt =====
-- The theorems about the marshalling of requests at concrete inputs.
use mit6_824_2012spring_yfs.Prelude.{
  ℕ, ◌+◌, ◌^◌, ◌≤◌, ◌≡◌, ◌↔◌, none, true, some, List, [], ◌∷◌, Memory, arith, u32,
}
use mit6_824_2012spring_yfs.Marshal.Headers.{ReqHeader}
use mit6_824_2012spring_yfs.Marshal.Out.{Marshall, new_marshall}
use mit6_824_2012spring_yfs.Marshal.In.{
  Unmarshall, new_unmarshall, unpack_req_header, okdone, rawbytes,
}
use mit6_824_2012spring_yfs.Marshal.In.Overrun.{rawbytes_overrun}
use mit6_824_2012spring_yfs.Marshal.Codec.{string_codec}
use mit6_824_2012spring_yfs.Marshal.Wire.{framed, write_request, request_roundtrip}

abbrev junk : Memory
junk = λ i. 7

-- Call 5 of procedure 0x7001.
abbrev header : ReqHeader
header = record { xid = 5; proc = 28673; clt_nonce = 1111; srv_nonce = 2222; xid_rep = 4 }

abbrev hi : List ℕ
hi = 104 ∷ 105 ∷ []

request_roundtrip_example :
    (m : Marshall) × (write_request string_codec hi header (new_marshall junk) ≡ some m)
    × (let r = unpack_req_header (new_unmarshall (framed m) m.ind) in
        (r.0 ≡ header)
        × ((u : Unmarshall) × (string_codec.get r.1 ≡ some (hi, u)) × (okdone u ≡ true)))
request_roundtrip_example =
    request_roundtrip string_codec hi header junk (omega arith) (omega arith) (omega arith)

-- 24 bytes have been received, and a string claims to be 2^32 - 20 bytes long.
abbrev received : Unmarshall
received = record (new_unmarshall junk 24) { ind = 24 }

rawbytes_overrun_example :
    (rawbytes 4294967276 received ≡ none)
    ↔ ((2 ^ 32 ≤ 24 + 4294967276) × (u32 (24 + 4294967276) ≤ 24))
rawbytes_overrun_example =
    rawbytes_overrun received 4294967276 (omega arith) (omega arith) (omega arith)
