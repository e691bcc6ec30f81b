-- ===== src/Marshal/In.antt =====
-- class unmarshall (rpc/marshall.h lines 127-208, 219-258; rpc/rpc.cc lines 819-949).
--
-- A method returns its value with the new object, or `none` where it would read outside of the
-- buffer. A char that is read is sign-extended to an unsigned int, as `rawbyte` returns it.
pub mod Reads
pub mod Overrun
use Prim.Native.Nat.{bit_or}
use mit6_824_2012spring_yfs.Prelude.{
  ℕ, zero, suc, ◌+◌, ◌-◌, ◌*◌, ◌%◌, ◌^◌, Bool, true, false, ◌&&◌, not, Option, none, some, List, [],
  ◌∷◌, ◌++◌, leb, ltb, ◌==◌, if◌then◌else◌, length, Memory, copy, slice, ◌>>=◌, u32, Map, insert,
}
use mit6_824_2012spring_yfs.Marshal.Headers.{ReqHeader, ReplyHeader, rpc_header_sz, sizeof_rpc_sz}

pub record Unmarshall : Type 0 where
  pub buf : Memory
  pub live : Bool  -- _buf is not NULL
  pub sz : ℕ
  pub ind : ℕ
  pub is_ok : Bool

-- unmarshall()
abbrev pub empty_unmarshall : Unmarshall
empty_unmarshall = record { buf = λ _. 0; live = false; sz = 0; ind = 0; is_ok = false }

-- unmarshall(char *, int)
abbrev pub new_unmarshall : Memory → ℕ → Unmarshall
new_unmarshall b n = record { buf = b; live = true; sz = n; ind = 0; is_ok = true }

-- take_content; also unmarshall(const std::string &), which calls it on an empty object.
pub take_content : List ℕ → Unmarshall → Unmarshall
take_content s u = record {
  buf = copy u.buf rpc_header_sz s;
  live = true;
  sz = length s + rpc_header_sz;
  ind = rpc_header_sz;
  is_ok = true;
}

-- take_buf: the buffer and its size go to the caller.
unfoldable pub take_buf : Unmarshall → (Memory × Bool × ℕ) × Unmarshall
take_buf u = ((u.buf, u.live, u.sz), record u { sz = 0; ind = 0; live = false })

-- take_in: `u` takes the buffer of `another`, which has none afterwards.
unfoldable pub take_in : (u another : Unmarshall) → Unmarshall × Unmarshall
unfolding take_buf
take_in u another =
    let ((b, alive, n), rest) = take_buf another in
    (
      record { buf = b; live = alive; sz = n; ind = rpc_header_sz; is_ok = leb rpc_header_sz n },
      rest,
    )

unfoldable pub okdone : Unmarshall → Bool
okdone u = u.is_ok && (u.ind == u.sz)

-- char to unsigned int
abbrev pub sign_extend : ℕ → ℕ
sign_extend c = if ltb c 128 then c else c + (2 ^ 32 - 2 ^ 8)

unfoldable pub rawbyte : Unmarshall → ℕ × Unmarshall
rawbyte u =
    if leb u.sz u.ind
    then (0, record u { is_ok = false })
    else (sign_extend (u.buf u.ind), record u { ind = u.ind + 1 })

-- The test is on unsigned ints: `_ind + n` wraps around.
unfoldable pub rawbytes : ℕ → Unmarshall → Option (List ℕ × Unmarshall)
rawbytes n u =
    if ltb u.sz (u32 (u.ind + n))
    then some ([], record u { is_ok = false })
    else if leb (u.ind + n) u.sz
    then some (slice u.buf u.ind n, record u { ind = u32 (u.ind + n) })
    else none

-- Four bytes, the highest first: unpack(int *), and operator>> to an int and to an unsigned int.
unfoldable pub unpack : Unmarshall → ℕ × Unmarshall
unpack u =
    let (a, u₁) = rawbyte u in
    let (b, u₂) = rawbyte u₁ in
    let (c, u₃) = rawbyte u₂ in
    let (d, u₄) = rawbyte u₃ in
    (bit_or (bit_or (bit_or (a % 256 * 2 ^ 24) (b % 256 * 2 ^ 16)) (c % 256 * 2 ^ 8)) (d % 256), u₄)

unfoldable pub unpack_req_header : Unmarshall → ReqHeader × Unmarshall
unpack_req_header u =
    let (x, u₁) = unpack (record u { ind = sizeof_rpc_sz }) in
    let (p, u₂) = unpack u₁ in
    let (c, u₃) = unpack u₂ in
    let (s, u₄) = unpack u₃ in
    let (r, u₅) = unpack u₄ in
    (
      record { xid = x; proc = p; clt_nonce = c; srv_nonce = s; xid_rep = r },
      record u₅ { ind = rpc_header_sz },
    )

unfoldable pub unpack_reply_header : Unmarshall → ReplyHeader × Unmarshall
unpack_reply_header u =
    let (x, u₁) = unpack (record u { ind = sizeof_rpc_sz }) in
    let (r, u₂) = unpack u₁ in (record { xid = x; ret = r }, record u₂ { ind = rpc_header_sz })

pub get_bool : Unmarshall → Option (Bool × Unmarshall)
get_bool u = let (b, u') = rawbyte u in some (not (b == 0), u')

pub get_uchar : Unmarshall → Option (ℕ × Unmarshall)
get_uchar u = let (b, u') = rawbyte u in some (b % 256, u')

-- The pattern of a char.
pub get_char : Unmarshall → Option (ℕ × Unmarshall)
get_char u = let (b, u') = rawbyte u in some (b % 256, u')

pub get_ushort : Unmarshall → Option (ℕ × Unmarshall)
get_ushort u =
    let (a, u₁) = rawbyte u in
    let (b, u₂) = rawbyte u₁ in some (bit_or (a % 256 * 2 ^ 8) (b % 256), u₂)

-- The pattern of a short.
pub get_short : Unmarshall → Option (ℕ × Unmarshall)
get_short u =
    let (a, u₁) = rawbyte u in
    let (b, u₂) = rawbyte u₁ in some (bit_or (a % 256 * 2 ^ 8) (b % 256), u₂)

unfoldable pub get_uint : Unmarshall → Option (ℕ × Unmarshall)
get_uint u =
    let (a, u₁) = rawbyte u in
    let (b, u₂) = rawbyte u₁ in
    let (c, u₃) = rawbyte u₂ in
    let (d, u₄) = rawbyte u₃ in
    some (
      bit_or (bit_or (bit_or (a % 256 * 2 ^ 24) (b % 256 * 2 ^ 16)) (c % 256 * 2 ^ 8)) (d % 256),
      u₄,
    )

-- The pattern of an int.
unfoldable pub get_int : Unmarshall → Option (ℕ × Unmarshall)
get_int u = let (x, u') = unpack u in some (x, u')

unfoldable pub get_ulonglong : Unmarshall → Option (ℕ × Unmarshall)
get_ulonglong u = do (h, u₁) ← get_uint u; (l, u₂) ← get_uint u₁; some (bit_or (h * 2 ^ 32) l, u₂)

-- The string is left as it was, here empty, where there are too few bytes.
unfoldable pub get_string : Unmarshall → Option (List ℕ × Unmarshall)
get_string u = do (n, u₁) ← get_uint u; if u₁.is_ok then rawbytes n u₁ else some ([], u₁)

module _ {C : Type 0} (get : Unmarshall → Option (C × Unmarshall)) where
  pub get_items : ℕ → Unmarshall → Option (List C × Unmarshall)
  get_items zero u = some ([], u)
  get_items (suc n) u = do (z, u₁) ← get u; (zs, u₂) ← get_items n u₁; some (z ∷ zs, u₂)

  -- The items are pushed behind those that the vector holds already.
  pub get_vector : List C → Unmarshall → Option (List C × Unmarshall)
  get_vector v u = do (n, u₁) ← get_uint u; (zs, u₂) ← get_items n u₁; some (v ++ zs, u₂)

module _ {B : Type 0} (get_a : Unmarshall → Option (ℕ × Unmarshall))
    (get_b : Unmarshall → Option (B × Unmarshall)) where
  pub get_entries : ℕ → Map B → Unmarshall → Option (Map B × Unmarshall)
  get_entries zero d u = some (d, u)
  get_entries (suc n) d u = do
    (a, u₁) ← get_a u
    (b, u₂) ← get_b u₁
    get_entries n (insert a b d) u₂

  -- The map is cleared first.
  pub get_map : Unmarshall → Option (Map B × Unmarshall)
  get_map u = do (n, u₁) ← get_uint u; get_entries n [] u₁
