-- ===== src/Marshal/Out/Appends.antt =====
-- The bytes that each operator<< of marshall appends, and where the headers go.
use mit6_824_2012spring_yfs.Prelude.{
  ℕ, ◌/◌, ◌%◌, ◌^◌, ◌<◌, Bool, Option, List, [], ◌∷◌, ◌++◌, length, arith, if◌then◌else◌, ◌>>=◌,
  u32, All, subst,
}
use mit6_824_2012spring_yfs.Marshal.Out.{
  Marshall, rawbyte, rawbytes, pack, put_bool, put_uchar, put_char, put_ushort, put_short, put_uint,
  put_int, put_ulonglong, put_string, put_items, put_vector,
}
use mit6_824_2012spring_yfs.Marshal.Out.Writes.{
  Writes, rawbyte-Writes, rawbytes-Writes, nothing-Writes, seq-Writes,
}

-- Big-endian bytes.
abbrev pub be16 : ℕ → List ℕ
be16 x = (x / 2 ^ 8 % 256) ∷ (x % 256) ∷ []

abbrev pub be32 : ℕ → List ℕ
be32 x = (x / 2 ^ 24 % 256) ∷ (x / 2 ^ 16 % 256) ∷ (x / 2 ^ 8 % 256) ∷ (x % 256) ∷ []

abbrev pub be64 : ℕ → List ℕ
be64 x = be32 (u32 (x / 2 ^ 32)) ++ be32 (u32 x)

byte-Writes : (b : ℕ) → b < 256 → Writes (rawbyte b) (b ∷ [])
byte-Writes b h = subst (λ y. Writes (rawbyte b) (y ∷ [])) (omega arith) (rawbyte-Writes b)

two-Writes :
    (a b : ℕ) → a < 256 → b < 256 → Writes (λ m. rawbyte a m >>= λ m₁. rawbyte b m₁) (a ∷ b ∷ [])
two-Writes a b ha hb =
    seq-Writes (rawbyte a) (rawbyte b) (a ∷ []) (b ∷ []) (byte-Writes a ha) (byte-Writes b hb)

four-Writes :
    (a b c d : ℕ)
    → (a < 256) × (b < 256)
    → (c < 256) × (d < 256)
    → Writes
        (λ m. rawbyte a m >>= λ m₁. rawbyte b m₁ >>= λ m₂. rawbyte c m₂ >>= λ m₃. rawbyte d m₃)
        (a ∷ b ∷ c ∷ d ∷ [])
four-Writes a b c d hab hcd =
    seq-Writes (rawbyte a) (λ m₁. rawbyte b m₁ >>= λ m₂. rawbyte c m₂ >>= λ m₃. rawbyte d m₃)
      (a ∷ []) (b ∷ c ∷ d ∷ []) (byte-Writes a hab.0)
      (seq-Writes (rawbyte b) (λ m₂. rawbyte c m₂ >>= λ m₃. rawbyte d m₃) (b ∷ []) (c ∷ d ∷ [])
        (byte-Writes b hab.1) (two-Writes c d hcd.0 hcd.1))

pub pack-Writes : (x : ℕ) → Writes (pack x) (be32 x)
unfolding pack
pack-Writes x = four-Writes _ _ _ _ (omega arith) (omega arith)

pub put_uint-Writes : (x : ℕ) → Writes (put_uint x) (be32 x)
unfolding put_uint
put_uint-Writes x = four-Writes _ _ _ _ (omega arith) (omega arith)

pub put_int-Writes : (x : ℕ) → x < 2 ^ 32 → Writes (put_int x) (be32 x)
unfolding put_int
put_int-Writes x h = subst (λ y. Writes (put_uint y) (be32 x)) (omega arith) (put_uint-Writes x)

pub put_uchar-Writes : (x : ℕ) → x < 256 → Writes (put_uchar x) (x ∷ [])
unfolding put_uchar
put_uchar-Writes x h = byte-Writes x h

pub put_char-Writes : (x : ℕ) → x < 256 → Writes (put_char x) (x ∷ [])
unfolding put_char
put_char-Writes x h =
    subst (λ y. Writes (put_uchar y) (x ∷ [])) (omega arith) (put_uchar-Writes x h)

abbrev pub bool_byte : Bool → ℕ
bool_byte x = if x then 1 else 0

pub put_bool-Writes : (x : Bool) → Writes (put_bool x) (bool_byte x ∷ [])
unfolding put_bool
put_bool-Writes x = byte-Writes (bool_byte x) (ground arith)

pub put_ushort-Writes : (x : ℕ) → Writes (put_ushort x) (be16 x)
unfolding put_ushort
put_ushort-Writes x = two-Writes _ _ (omega arith) (omega arith)

pub put_short-Writes : (x : ℕ) → x < 2 ^ 16 → Writes (put_short x) (be16 x)
unfolding put_short
put_short-Writes x h =
    subst (λ y. Writes (put_ushort y) (be16 x)) (omega arith) (put_ushort-Writes x)

pub put_ulonglong-Writes : (x : ℕ) → Writes (put_ulonglong x) (be64 x)
unfolding put_ulonglong
put_ulonglong-Writes x =
    seq-Writes _ (put_uint (u32 x)) _ _ (put_uint-Writes (u32 (x / 2 ^ 32)))
      (put_uint-Writes (u32 x))

pub put_string-Writes : (s : List ℕ) → Writes (put_string s) (be32 (u32 (length s)) ++ s)
unfolding put_string
put_string-Writes s =
    seq-Writes _ (rawbytes s) _ _ (put_uint-Writes (u32 (length s))) (rawbytes-Writes s)

abbrev pub encodings : {C : Type 0} → (C → List ℕ) → List C → List ℕ
encodings encode [] = []
encodings encode (z ∷ zs) = encode z ++ encodings encode zs

module _ {C : Type 0} (put : C → Marshall → Option Marshall) (encode : C → List ℕ)
    (Valid : C → Type 0) (put-Writes : (z : C) → Valid z → Writes (put z) (encode z)) where
  put_items-Writes : (v : List C) → All Valid v → Writes (put_items put v) (encodings encode v)
  unfolding put_items
  put_items-Writes [] h = nothing-Writes
  put_items-Writes (z ∷ zs) h =
      seq-Writes (put z) (put_items put zs) _ _ (put-Writes z h.0) (put_items-Writes zs h.1)

  pub put_vector-Writes :
      (v : List C)
      → All Valid v
      → Writes (put_vector put v) (be32 (u32 (length v)) ++ encodings encode v)
  unfolding put_vector
  put_vector-Writes v h =
      seq-Writes _ (put_items put v) _ _ (put_uint-Writes (u32 (length v))) (put_items-Writes v h)
