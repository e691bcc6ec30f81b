-- ===== src/Marshal/Codec.antt =====
-- A type with an operator<< and an operator>> that fit together, as the templates of rpc/rpc.h and
-- rpc/marshall.h ask of their parameters, and the types that have them.
use mit6_824_2012spring_yfs.Prelude.{
  ℕ, ◌^◌, ◌<◌, Bool, Option, some, List, [], ◌∷◌, ◌++◌, length, All, ◌>>=◌, u32, append_assoc,
}
use mit6_824_2012spring_yfs.Marshal.Out.{
  Marshall, put_bool, put_uchar, put_char, put_ushort, put_short, put_uint, put_int, put_ulonglong,
  put_string, put_vector,
}
use mit6_824_2012spring_yfs.Marshal.Out.Writes.{Writes, seq-Writes}
use mit6_824_2012spring_yfs.Marshal.Out.Appends.{
  be16, be32, be64, bool_byte, encodings, put_bool-Writes, put_uchar-Writes, put_char-Writes,
  put_ushort-Writes, put_short-Writes, put_uint-Writes, put_int-Writes, put_ulonglong-Writes,
  put_string-Writes, put_vector-Writes,
}
use mit6_824_2012spring_yfs.Marshal.In.{
  Unmarshall, get_bool, get_uchar, get_char, get_ushort, get_short, get_uint, get_int,
  get_ulonglong, get_string, get_vector,
}
use mit6_824_2012spring_yfs.Marshal.In.Reads.{
  Reads, get_bool-Reads, get_uchar-Reads, get_char-Reads, get_ushort-Reads, get_short-Reads,
  get_uint-Reads, get_int-Reads, get_ulonglong-Reads, get_string-Reads, get_vector-Reads,
}

pub record Codec (A : Type 0) : Type 1 where
  pub put : A → Marshall → Option Marshall
  pub get : Unmarshall → Option (A × Unmarshall)
  pub encode : A → List ℕ
  pub Valid : A → Type 0
  pub put-Writes : (a : A) → Valid a → Writes (put a) (encode a)
  pub get-Reads : (a : A) → Valid a → Reads get (encode a) a

abbrev pub bool_codec : Codec Bool
bool_codec = record {
  put = put_bool;
  get = get_bool;
  encode = λ x. bool_byte x ∷ [];
  Valid = λ x. Unit {0};
  put-Writes = λ x h. put_bool-Writes x;
  get-Reads = λ x h. get_bool-Reads x;
}

abbrev pub uint_codec : Codec ℕ
uint_codec = record {
  put = put_uint;
  get = get_uint;
  encode = be32;
  Valid = λ x. x < 2 ^ 32;
  put-Writes = λ x h. put_uint-Writes x;
  get-Reads = get_uint-Reads;
}

abbrev pub int_codec : Codec ℕ
int_codec = record {
  put = put_int;
  get = get_int;
  encode = be32;
  Valid = λ x. x < 2 ^ 32;
  put-Writes = put_int-Writes;
  get-Reads = get_int-Reads;
}

abbrev pub uchar_codec : Codec ℕ
uchar_codec = record {
  put = put_uchar;
  get = get_uchar;
  encode = λ x. x ∷ [];
  Valid = λ x. x < 256;
  put-Writes = put_uchar-Writes;
  get-Reads = get_uchar-Reads;
}

abbrev pub char_codec : Codec ℕ
char_codec = record {
  put = put_char;
  get = get_char;
  encode = λ x. x ∷ [];
  Valid = λ x. x < 256;
  put-Writes = put_char-Writes;
  get-Reads = get_char-Reads;
}

abbrev pub ushort_codec : Codec ℕ
ushort_codec = record {
  put = put_ushort;
  get = get_ushort;
  encode = be16;
  Valid = λ x. x < 2 ^ 16;
  put-Writes = λ x h. put_ushort-Writes x;
  get-Reads = get_ushort-Reads;
}

abbrev pub short_codec : Codec ℕ
short_codec = record {
  put = put_short;
  get = get_short;
  encode = be16;
  Valid = λ x. x < 2 ^ 16;
  put-Writes = put_short-Writes;
  get-Reads = get_short-Reads;
}

abbrev pub ulonglong_codec : Codec ℕ
ulonglong_codec = record {
  put = put_ulonglong;
  get = get_ulonglong;
  encode = be64;
  Valid = λ x. x < 2 ^ 64;
  put-Writes = λ x h. put_ulonglong-Writes x;
  get-Reads = get_ulonglong-Reads;
}

abbrev pub string_codec : Codec (List ℕ)
string_codec = record {
  put = put_string;
  get = get_string;
  encode = λ s. be32 (u32 (length s)) ++ s;
  Valid = λ s. length s < 2 ^ 32;
  put-Writes = λ s h. put_string-Writes s;
  get-Reads = get_string-Reads;
}

abbrev pub vector_codec : {C : Type 0} → Codec C → Codec (List C)
vector_codec c = record {
  put = put_vector c.put;
  get = get_vector c.get [];
  encode = λ v. be32 (u32 (length v)) ++ encodings c.encode v;
  Valid = λ v. (length v < 2 ^ 32) × All c.Valid v;
  put-Writes = λ v h. put_vector-Writes c.put c.encode c.Valid c.put-Writes v h.1;
  get-Reads = λ v h. get_vector-Reads c.get c.encode c.Valid c.get-Reads v h.0 h.1;
}

-- Two values in a row, as in `m << a1; m << a2` and `args >> a1; args >> a2`.
module _ {A B : Type 0} (c : Codec A) (d : Codec B) where
  unfoldable pub put_pair : A × B → Marshall → Option Marshall
  put_pair (a, b) m = c.put a m >>= d.put b

  unfoldable pub get_pair : Unmarshall → Option ((A × B) × Unmarshall)
  get_pair u = do (a, u₁) ← c.get u; (b, u₂) ← d.get u₁; some ((a, b), u₂)

  abbrev pub pair_bytes : A × B → List ℕ
  pair_bytes (a, b) = c.encode a ++ d.encode b

  abbrev pub BothValid : A × B → Type 0
  BothValid (a, b) = c.Valid a × d.Valid b

  pub put_pair-Writes : (p : A × B) → BothValid p → Writes (put_pair p) (pair_bytes p)
  unfolding put_pair
  put_pair-Writes (a, b) (va, vb) =
      seq-Writes (c.put a) (d.put b) _ _ (c.put-Writes a va) (d.put-Writes b vb)

  pub get_pair-Reads : (p : A × B) → BothValid p → Reads get_pair (pair_bytes p) p
  unfolding get_pair
  get_pair-Reads (a, b) (va, vb) u rest l =
      let (u₁, e, l₁) = c.get-Reads a va u (d.encode b ++ rest) (rw append_assoc at l) in
      let (u₂, f, l₂) = d.get-Reads b vb u₁ rest l₁ in (u₂, rw (e, f), l₂)

  abbrev pub pair_codec : Codec (A × B)
  pair_codec = record {
    put = put_pair;
    get = get_pair;
    encode = pair_bytes;
    Valid = BothValid;
    put-Writes = put_pair-Writes;
    get-Reads = get_pair-Reads;
  }
