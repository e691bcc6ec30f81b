-- ===== src/Marshal/Out.antt =====
-- class marshall (rpc/marshall.h lines 45-125, 210-242; rpc/rpc.cc lines 714-817).
--
-- A method returns the new object, or `none` where it would write outside of the buffer or through
-- NULL. What malloc and realloc leave in fresh memory is arbitrary: it is the memory that an object
-- starts with. They are taken to succeed, as the assertions after them demand. The sizes are C ints
-- that are taken not to overflow.
pub mod Writes
pub mod Appends
use mit6_824_2012spring_yfs.Prelude.{
  ℕ, ◌+◌, ◌-◌, ◌*◌, ◌/◌, ◌%◌, ◌^◌, Bool, true, false, ◌&&◌, Option, none, some, List, [], ◌∷◌, leb,
  ltb, if◌then◌else◌, length, Memory, update, copy, slice, ◌>>=◌, u32, Map,
}
use mit6_824_2012spring_yfs.Marshal.Headers.{
  ReqHeader, ReplyHeader, default_rpc_sz, rpc_header_sz, sizeof_rpc_sz,
}

pub record Marshall : Type 0 where
  pub buf : Memory
  pub live : Bool  -- _buf is not NULL
  pub capa : ℕ
  pub ind : ℕ

-- marshall()
abbrev pub new_marshall : Memory → Marshall
new_marshall junk = record { buf = junk; live = true; capa = default_rpc_sz; ind = rpc_header_sz }

-- The buffer after `realloc`: the bytes in it stay.
unfoldable pub grow : ℕ → Marshall → Marshall
grow capa m = record m { capa = capa }

unfoldable pub rawbyte : ℕ → Marshall → Option Marshall
unfolding grow
rawbyte x m =
    let m' = if leb m.capa m.ind then grow (m.capa * 2) m else m in
    if m.live && ltb m'.ind m'.capa
    then some (record m' { buf = update m'.buf m'.ind (x % 256); ind = m'.ind + 1 })
    else none

unfoldable pub rawbytes : List ℕ → Marshall → Option Marshall
unfolding grow
rawbytes p m =
    let n = length p in
    let m' =
      if ltb m.capa (m.ind + n)
      then grow (if ltb n m.capa then 2 * m.capa else m.capa + n) m
      else m in
    if m.live && leb (m'.ind + n) m'.capa
    then some (record m' { buf = copy m'.buf m'.ind p; ind = m'.ind + n })
    else none

pub get_content : Marshall → List ℕ
get_content m = slice m.buf rpc_header_sz (m.ind - rpc_header_sz)

-- pack(int), and operator<< of an unsigned int, which writes the same bytes
unfoldable pub pack : ℕ → Marshall → Option Marshall
pack x m = do
  m₁ ← rawbyte (x / 2 ^ 24 % 256) m
  m₂ ← rawbyte (x / 2 ^ 16 % 256) m₁
  m₃ ← rawbyte (x / 2 ^ 8 % 256) m₂
  rawbyte (x % 256) m₃

unfoldable pub pack_req_header : ReqHeader → Marshall → Option Marshall
pack_req_header h m = do
  m₁ ← pack h.xid (record m { ind = sizeof_rpc_sz })
  m₂ ← pack h.proc m₁
  m₃ ← pack h.clt_nonce m₂
  m₄ ← pack h.srv_nonce m₃
  m₅ ← pack h.xid_rep m₄
  some (record m₅ { ind = m.ind })

unfoldable pub pack_reply_header : ReplyHeader → Marshall → Option Marshall
pack_reply_header h m = do
  m₁ ← pack h.xid (record m { ind = sizeof_rpc_sz })
  m₂ ← pack h.ret m₁
  some (record m₂ { ind = m.ind })

-- take_buf: the buffer and its size go to the caller, and the object has none.
unfoldable pub take_buf : Marshall → (Memory × ℕ) × Marshall
take_buf m = ((m.buf, m.ind), record m { live = false; ind = 0 })

pub put_bool : Bool → Marshall → Option Marshall
put_bool x = rawbyte (if x then 1 else 0)

pub put_uchar : ℕ → Marshall → Option Marshall
put_uchar x = rawbyte x

-- operator<<(marshall &, char) casts to unsigned char.
pub put_char : ℕ → Marshall → Option Marshall
put_char x = put_uchar (x % 256)

pub put_ushort : ℕ → Marshall → Option Marshall
put_ushort x m = do m₁ ← rawbyte (x / 2 ^ 8 % 256) m; rawbyte (x % 256) m₁

pub put_short : ℕ → Marshall → Option Marshall
put_short x = put_ushort (x % 2 ^ 16)

unfoldable pub put_uint : ℕ → Marshall → Option Marshall
put_uint x m = do
  m₁ ← rawbyte (x / 2 ^ 24 % 256) m
  m₂ ← rawbyte (x / 2 ^ 16 % 256) m₁
  m₃ ← rawbyte (x / 2 ^ 8 % 256) m₂
  rawbyte (x % 256) m₃

unfoldable pub put_int : ℕ → Marshall → Option Marshall
put_int x = put_uint (u32 x)

unfoldable pub put_ulonglong : ℕ → Marshall → Option Marshall
put_ulonglong x m = do m₁ ← put_uint (u32 (x / 2 ^ 32)) m; put_uint (u32 x) m₁

unfoldable pub put_string : List ℕ → Marshall → Option Marshall
put_string s m = do m₁ ← put_uint (u32 (length s)) m; rawbytes s m₁

module _ {C : Type 0} (put : C → Marshall → Option Marshall) where
  pub put_items : List C → Marshall → Option Marshall
  put_items [] m = some m
  put_items (z ∷ zs) m = put z m >>= put_items zs

  pub put_vector : List C → Marshall → Option Marshall
  put_vector v m = put_uint (u32 (length v)) m >>= put_items v

module _ {B : Type 0} (put_a : ℕ → Marshall → Option Marshall)
    (put_b : B → Marshall → Option Marshall) where
  pub put_entries : Map B → Marshall → Option Marshall
  put_entries [] m = some m
  put_entries ((a, b) ∷ d) m = do m₁ ← put_a a m; m₂ ← put_b b m₁; put_entries d m₂

  pub put_map : Map B → Marshall → Option Marshall
  put_map d m = put_uint (u32 (length d)) m >>= put_entries d
