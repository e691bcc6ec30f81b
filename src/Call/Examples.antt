-- ===== src/Call/Examples.antt =====
-- Two calls at concrete arguments: of a method that adds to a counter, and of one with seven
-- arguments.
use mit6_824_2012spring_yfs.Prelude.{
  ℕ, ◌+◌, ◌≡◌, Bool, true, some, List, [], ◌∷◌, if◌then◌else◌, Memory, arith,
}
use mit6_824_2012spring_yfs.Marshal.Headers.{ReqHeader}
use mit6_824_2012spring_yfs.Marshal.Codec.{
  bool_codec, uint_codec, uchar_codec, ushort_codec, ulonglong_codec, string_codec, vector_codec,
}
use mit6_824_2012spring_yfs.Call.Stubs.{call_7}
use mit6_824_2012spring_yfs.Call.Handlers.{fn_7}
use mit6_824_2012spring_yfs.Call.Roundtrip.{delivered, call_7-delivered}

abbrev junk : Memory
junk = λ i. 7

abbrev header : ReqHeader
header = record { xid = 5; proc = 0; clt_nonce = 1111; srv_nonce = 2222; xid_rep = 4 }

-- The object is a counter; the result is its old value.
abbrev add : ℕ → ℕ → ℕ × ℕ × ℕ
add a counter = (0, counter, counter + a)

abbrev pick : Bool → ℕ → ℕ → ℕ → ℕ → List ℕ → List ℕ → ℕ → ℕ × List ℕ × ℕ
pick b u c s l t v counter = (c, if b then t else v, counter)

call_7-delivered_example :
    call_7 string_codec
      (delivered header
        (fn_7 string_codec bool_codec uint_codec uchar_codec ushort_codec ulonglong_codec
          string_codec
          (vector_codec uchar_codec)
          pick
          0)
        junk)
      3
      bool_codec
      uint_codec
      uchar_codec
      ushort_codec
      ulonglong_codec
      string_codec
      (vector_codec uchar_codec)
      true
      70000
      9
      600
      5000000000
      (104 ∷ 105 ∷ [])
      (1 ∷ 2 ∷ 3 ∷ [])
      junk
    ≡ some (9, some (104 ∷ 105 ∷ []))
call_7-delivered_example =
    call_7-delivered string_codec bool_codec uint_codec uchar_codec ushort_codec ulonglong_codec
      string_codec (vector_codec uchar_codec) pick 0 true 70000 9 600 5000000000 (104 ∷ 105 ∷ [])
      (1 ∷ 2 ∷ 3 ∷ []) header 3 junk junk
      (omega arith, omega arith, omega arith, omega arith, omega arith, omega arith)
