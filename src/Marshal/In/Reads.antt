-- ===== src/Marshal/In/Reads.antt =====
-- Each operator>> of unmarshall reads back what stands at the head, and leaves what follows.
use Prim.Native.Nat.{bit_or}
use mit6_824_2012spring_yfs.Prelude.{
  ℕ, ◌+◌, ◌*◌, ◌/◌, ◌%◌, ◌^◌, ◌<◌, ◌≡◌, refl, ap, Bool, true, false, Option, some, List, [], ◌∷◌,
  ◌++◌, length, arith, At, u32, subst, All, bytes_or, bit_or_disjoint, slice, slice-At, At-left,
  At-right, length-append, append_assoc, ◌∙◌,
}
use mit6_824_2012spring_yfs.Marshal.Out.Appends.{be16, be32, be64, bool_byte, encodings}
use mit6_824_2012spring_yfs.Marshal.In.{
  Unmarshall, rawbyte, rawbytes, unpack, sign_extend, get_bool, get_uchar, get_char, get_ushort,
  get_short, get_uint, get_int, get_ulonglong, get_string, get_items, get_vector,
}

-- The bytes `bs` are all that is left to read.
pub record Left (u : Unmarshall) (bs : List ℕ) : Type 0 where
  pub fine : u.is_ok ≡ true
  pub bytes : At u.buf u.ind bs
  pub to_end : u.ind + length bs ≡ u.sz
  pub small : u.sz < 2 ^ 31

abbrev pub advance : ℕ → Unmarshall → Unmarshall
advance n u = record u { ind = u.ind + n }

-- `get` reads `a` from the bytes `bs`, whatever follows them.
abbrev pub Reads : {A : Type 0} → (Unmarshall → Option (A × Unmarshall)) → List ℕ → A → Type 0
Reads get bs a =
    (u : Unmarshall) (rest : List ℕ)
    → Left u (bs ++ rest)
    → (u' : Unmarshall) × (get u ≡ some (a, u')) × Left u' rest

Left-advance :
    (u : Unmarshall) (b : ℕ) (rest : List ℕ) → Left u (b ∷ rest) → Left (advance 1 u) rest
Left-advance u b rest l = record {
  fine = l.fine;
  bytes = (l.bytes).1;
  to_end = omega (arith, l.to_end);
  small = l.small;
}

rawbyte_lem :
    (u : Unmarshall) (b : ℕ) (rest : List ℕ)
    → Left u (b ∷ rest)
    → rawbyte u ≡ (sign_extend b, advance 1 u)
unfolding rawbyte
rawbyte_lem u b rest l = ground (arith, l.to_end, l.bytes)

-- Four bytes in a row.
abbrev word : ℕ → ℕ → ℕ → ℕ → ℕ
word a b c d =
    bit_or (bit_or (bit_or (a % 256 * 2 ^ 24) (b % 256 * 2 ^ 16)) (c % 256 * 2 ^ 8)) (d % 256)

word_lem :
    (x a b c d : ℕ)
    → x < 2 ^ 32
    → a % 256 ≡ x / 2 ^ 24 % 256
    → b % 256 ≡ x / 2 ^ 16 % 256
    → c % 256 ≡ x / 2 ^ 8 % 256
    → d % 256 ≡ x % 256
    → word a b c d ≡ x
word_lem x a b c d h ha hb hc hd = omega (
  arith,
  bytes_or (a % 256) (b % 256) (c % 256) (d % 256) (omega arith) (omega arith) (omega arith),
)

abbrev pub past4 : Unmarshall → Unmarshall
past4 u = advance 1 (advance 1 (advance 1 (advance 1 u)))

-- Reading four bytes: what `unpack`, `get_uint` and `get_int` have in common.
record Word (x : ℕ) (u : Unmarshall) (rest : List ℕ) : Type 0 where
  first : rawbyte u ≡ (sign_extend (x / 2 ^ 24 % 256), advance 1 u)
  second : rawbyte (advance 1 u) ≡ (sign_extend (x / 2 ^ 16 % 256), advance 1 (advance 1 u))
  third :
      rawbyte (advance 1 (advance 1 u))
      ≡ (sign_extend (x / 2 ^ 8 % 256), advance 1 (advance 1 (advance 1 u)))
  fourth : rawbyte (advance 1 (advance 1 (advance 1 u))) ≡ (sign_extend (x % 256), past4 u)
  left : Left (past4 u) rest
  value :
      word
        (sign_extend (x / 2 ^ 24 % 256))
        (sign_extend (x / 2 ^ 16 % 256))
        (sign_extend (x / 2 ^ 8 % 256))
        (sign_extend (x % 256))
      ≡ x

sign_extend_mod : (b : ℕ) → b < 256 → sign_extend b % 256 ≡ b
sign_extend_mod b h = ground arith

be32-Word :
    (x : ℕ) (u : Unmarshall) (rest : List ℕ) → x < 2 ^ 32 → Left u (be32 x ++ rest) → Word x u rest
be32-Word x u rest h l = record {
  first = rawbyte_lem u _ _ l;
  second = rawbyte_lem (advance 1 u) _ _ l₁;
  third = rawbyte_lem (advance 1 (advance 1 u)) _ _ l₂;
  fourth = rawbyte_lem (advance 1 (advance 1 (advance 1 u))) _ _ l₃;
  left = Left-advance (advance 1 (advance 1 (advance 1 u))) _ _ l₃;
  value =
      word_lem x _ _ _ _ h (sign_extend_mod _ (omega arith)) (sign_extend_mod _ (omega arith))
        (sign_extend_mod _ (omega arith)) (sign_extend_mod _ (omega arith));
}
  where
    l₁ : Left (advance 1 u) ((x / 2 ^ 16 % 256) ∷ (x / 2 ^ 8 % 256) ∷ (x % 256) ∷ rest)
    l₁ = Left-advance u _ _ l

    l₂ : Left (advance 1 (advance 1 u)) ((x / 2 ^ 8 % 256) ∷ (x % 256) ∷ rest)
    l₂ = Left-advance (advance 1 u) _ _ l₁

    l₃ : Left (advance 1 (advance 1 (advance 1 u))) ((x % 256) ∷ rest)
    l₃ = Left-advance (advance 1 (advance 1 u)) _ _ l₂

pub unpack_lem :
    (x : ℕ) (u : Unmarshall) (rest : List ℕ)
    → x < 2 ^ 32
    → Left u (be32 x ++ rest)
    → (unpack u ≡ (x, past4 u)) × Left (past4 u) rest
unfolding unpack
unpack_lem x u rest h l =
    let w = be32-Word x u rest h l in
    (rw (w.first, w.second, w.third, w.fourth) (ap (λ (y : ℕ). (y, past4 u)) w.value), w.left)

pub get_int-Reads : (x : ℕ) → x < 2 ^ 32 → Reads get_int (be32 x) x
unfolding get_int
get_int-Reads x h u rest l = let (e, l') = unpack_lem x u rest h l in (past4 u, rw e, l')

pub get_uint-Reads : (x : ℕ) → x < 2 ^ 32 → Reads get_uint (be32 x) x
unfolding get_uint
get_uint-Reads x h u rest l =
    let w = be32-Word x u rest h l in
    (
      past4 u,
      rw (w.first, w.second, w.third, w.fourth) (ap (λ (y : ℕ). some (y, past4 u)) w.value),
      w.left,
    )

pub get_uchar-Reads : (x : ℕ) → x < 256 → Reads get_uchar (x ∷ []) x
unfolding get_uchar
get_uchar-Reads x h u rest l = (
  advance 1 u,
  rw (rawbyte_lem u x rest l) (ground (arith, sign_extend_mod x h)),
  Left-advance u x rest l,
)

pub get_char-Reads : (x : ℕ) → x < 256 → Reads get_char (x ∷ []) x
unfolding get_char
get_char-Reads x h u rest l = (
  advance 1 u,
  rw (rawbyte_lem u x rest l) (ground (arith, sign_extend_mod x h)),
  Left-advance u x rest l,
)

pub get_bool-Reads : (x : Bool) → Reads get_bool (bool_byte x ∷ []) x
unfolding get_bool
get_bool-Reads true u rest l = (advance 1 u, rw (rawbyte_lem u 1 rest l), Left-advance u 1 rest l)
get_bool-Reads false u rest l = (advance 1 u, rw (rawbyte_lem u 0 rest l), Left-advance u 0 rest l)

half_word :
    (x : ℕ)
    → x < 2 ^ 16
    → bit_or (sign_extend (x / 2 ^ 8 % 256) % 256 * 2 ^ 8) (sign_extend (x % 256) % 256) ≡ x
half_word x h = omega (
  arith,
  sign_extend_mod (x / 2 ^ 8 % 256) (omega arith),
  sign_extend_mod (x % 256) (omega arith),
  bit_or_disjoint 8 (sign_extend (x / 2 ^ 8 % 256) % 256) (sign_extend (x % 256) % 256)
      (omega arith),
)

pub get_ushort-Reads : (x : ℕ) → x < 2 ^ 16 → Reads get_ushort (be16 x) x
unfolding get_ushort
get_ushort-Reads x h u rest l =
    let l₁ = Left-advance u _ _ l in
    (
      advance 1 (advance 1 u),
      rw (rawbyte_lem u _ _ l, rawbyte_lem (advance 1 u) _ _ l₁)
          (ap (λ (y : ℕ). some (y, advance 1 (advance 1 u))) (half_word x h)),
      Left-advance (advance 1 u) _ _ l₁,
    )

pub get_short-Reads : (x : ℕ) → x < 2 ^ 16 → Reads get_short (be16 x) x
unfolding get_short
get_short-Reads x h u rest l =
    let l₁ = Left-advance u _ _ l in
    (
      advance 1 (advance 1 u),
      rw (rawbyte_lem u _ _ l, rawbyte_lem (advance 1 u) _ _ l₁)
          (ap (λ (y : ℕ). some (y, advance 1 (advance 1 u))) (half_word x h)),
      Left-advance (advance 1 u) _ _ l₁,
    )

pub get_ulonglong-Reads : (x : ℕ) → x < 2 ^ 64 → Reads get_ulonglong (be64 x) x
unfolding get_ulonglong
get_ulonglong-Reads x h u rest l =
    let (u₁, e, l₁) = get_uint-Reads (u32 (x / 2 ^ 32)) (omega arith) u (be32 (u32 x) ++ rest) l in
    let (u₂, d, l₂) = get_uint-Reads (u32 x) (omega arith) u₁ rest l₁ in
    (
      u₂,
      rw (e, d)
          (ap (λ (y : ℕ). some (y, u₂))
            (omega (arith, bit_or_disjoint 32 (u32 (x / 2 ^ 32)) (u32 x) (omega arith)))),
      l₂,
    )

rawbytes_lem :
    (s : List ℕ) (u : Unmarshall) (rest : List ℕ)
    → Left u (s ++ rest)
    → rawbytes (length s) u
      ≡ some (slice u.buf u.ind (length s), record u { ind = u32 (u.ind + length s) })
unfolding rawbytes
rawbytes_lem s u rest l = ground (arith, length-append s rest, l.to_end, l.small)

pub rawbytes-Reads : (s : List ℕ) → Reads (rawbytes (length s)) s s
rawbytes-Reads s u rest l = (
  advance (length s) u,
  rawbytes_lem s u rest l
      ∙ rw (slice-At u.buf u.ind s (At-left u.buf u.ind s rest l.bytes)) (
          ap (λ (k : ℕ). some (s, record u { ind = k }))
            (omega (arith, length-append s rest, l.to_end, l.small))),
  record {
    fine = l.fine;
    bytes = At-right u.buf u.ind s rest l.bytes;
    to_end = omega (arith, length-append s rest, l.to_end);
    small = l.small;
  },
)

get_length-Reads : (n : ℕ) → n < 2 ^ 32 → Reads get_uint (be32 (u32 n)) n
get_length-Reads n h =
    subst (Reads get_uint (be32 (u32 n))) (omega arith) (get_uint-Reads (u32 n) (omega arith))

get_string_lem :
    (u : Unmarshall) (n : ℕ) (u₁ : Unmarshall)
    → get_uint u ≡ some (n, u₁)
    → u₁.is_ok ≡ true
    → get_string u ≡ rawbytes n u₁
unfolding get_string
get_string_lem u n u₁ e k = rw (e, k)

pub get_string-Reads :
    (s : List ℕ) → length s < 2 ^ 32 → Reads get_string (be32 (u32 (length s)) ++ s) s
get_string-Reads s h u rest l =
    let (u₁, e, l₁) = get_length-Reads (length s) h u (s ++ rest) l in
    let (u₂, d, l₂) = rawbytes-Reads s u₁ rest l₁ in
    (u₂, get_string_lem u (length s) u₁ e l₁.fine ∙ d, l₂)

module _ {C : Type 0} (get : Unmarshall → Option (C × Unmarshall)) (encode : C → List ℕ)
    (Valid : C → Type 0) (get-Reads : (z : C) → Valid z → Reads get (encode z) z) where
  get_items-Reads :
      (v : List C) → All Valid v → Reads (get_items get (length v)) (encodings encode v) v
  unfolding get_items
  get_items-Reads [] h u rest l = (u, refl, l)
  get_items-Reads (z ∷ zs) h u rest l =
      let (u₁, e, l₁) = get-Reads z h.0 u (encodings encode zs ++ rest) (rw append_assoc at l) in
      let (u₂, d, l₂) = get_items-Reads zs h.1 u₁ rest l₁ in (u₂, rw (e, d), l₂)

  pub get_vector-Reads :
      (v : List C)
      → length v < 2 ^ 32
      → All Valid v
      → Reads (get_vector get []) (be32 (u32 (length v)) ++ encodings encode v) v
  unfolding get_vector
  get_vector-Reads v n h u rest l =
      let (u₁, e, l₁) = get_length-Reads (length v) n u (encodings encode v ++ rest) l in
      let (u₂, d, l₂) = get_items-Reads v h u₁ rest l₁ in (u₂, rw (e, d), l₂)
