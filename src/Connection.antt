-- ===== src/Connection.antt =====
-- Class connection (rpc/connection.h), with its sending side (rpc/connection.cc lines 122-189 and
-- 221-243); `Receive` has the receiving side.
--
-- What write() takes is appended to `out`, and what read() gives to `inp`. A thread in `send` waits for the buffer to be free and
-- then for the message to be out; `send` is split there. `none` is a failed assertion or a use of
-- NULL. The random shutdown of the lossy mode is part of what write() may answer.
pub mod Whole
pub mod Run
pub mod Receive
mod Examples
use mit6_824_2012spring_yfs.Prelude.{
  ℕ, ◌+◌, ◌-◌, Bool, true, false, ◌&&◌, ◌||◌, not, Option, none, some, List, [], ◌∷◌, ◌++◌, ltb,
  ◌==◌, if◌then◌else◌, ◌>>=◌, Memory, copy, slice,
}
use mit6_824_2012spring_yfs.Marshal.Out.Appends.{be32}

-- charbuf: `solong` is `none` for -1.
pub record Charbuf : Type 0 where
  pub buf : Option Memory
  pub sz : ℕ
  pub solong : Option ℕ

pub record Connection : Type 0 where
  pub dead : Bool
  pub wpdu : Charbuf
  pub rpdu : Charbuf
  pub waiters : ℕ
  pub out : List ℕ
  pub inp : List ℕ
  pub wants_read : Bool  -- CB_RDONLY is registered
  pub wants_write : Bool  -- CB_WRONLY is registered

-- What write() answers: a number of bytes, EAGAIN, or another error.
pub data Wrote : Type 0 where
  wrote : ℕ → Wrote
  again : Wrote
  failed : Wrote

-- Lines 228-242, from the `k` bytes that are out.
unfoldable pub write_from : Wrote → ℕ → Option Memory → Connection → Option (Bool × Connection)
write_from r k none c = none
write_from r k (some b) c =
    let f = if k == 0 then copy b 0 (be32 c.wpdu.sz) else b in
    elim r [
      | wrote n ↦ some (
        true,
        record c {
          wpdu = record c.wpdu { buf = some f; solong = some (k + n) };
          out = c.out ++ slice f k n;
        },
      )
      | again ↦ some (true, record c { wpdu = record c.wpdu { buf = some f } })
      | failed ↦ some (false, record c { wpdu = record { buf = some f; sz = 0; solong = none } })
    ]

unfoldable pub writepdu : Wrote → Connection → Option (Bool × Connection)
writepdu r c = elim c.wpdu.solong [
  | none ↦ none
  | some k ↦ if k == c.wpdu.sz then some (true, c) else write_from r k c.wpdu.buf c
]

-- What `send` does next.
pub data Sending : Type 0 where
  -- It returns; the flag also says whether send_wait_ is signalled.
  returns : (ret signals : Bool) → Connection → Sending
  -- It waits on send_wait_ for the buffer.
  waits_turn : Connection → Sending
  -- It waits on send_complete_.
  waits_out : Connection → Sending

-- solong == sz
abbrev pub all_out : Charbuf → Bool
all_out w = elim w.solong [ none ↦ false | some k ↦ k == w.sz ]

-- Lines 160-165.
unfoldable pub finish : Connection → Sending
finish c =
    returns (not c.dead && all_out c.wpdu) (ltb 0 c.waiters)
      (record c { wpdu = record { buf = none; sz = 0; solong = some 0 } })

-- The loop of line 155.
unfoldable pub wait_out : Connection → Sending
wait_out c = elim c.wpdu.solong [
  | none ↦ finish c
  | some k ↦ if not c.dead && ltb k c.wpdu.sz then waits_out c else finish c
]

-- Lines 145-159.
unfoldable pub after_write : Bool → Connection → Sending
after_write ok c =
    if not ok
    then finish (record c { dead = true; wants_read = false; wants_write = false })
    else if all_out c.wpdu
    then finish c
    else wait_out (record c { wants_write = true })

abbrev pub has_buf : Option Memory → Bool
has_buf none = false
has_buf (some b) = true

-- From line 127 on; `waiters` counts this thread.
unfoldable pub take_turn : Wrote → Memory → ℕ → Connection → Option Sending
take_turn r b n c =
    if not c.dead && has_buf c.wpdu.buf
    then some (waits_turn c)
    else (let d = record c { waiters = c.waiters - 1 } in
        if c.dead
        then some (returns false false d)
        else (writepdu r (record d { wpdu = record { buf = some b; sz = n; solong = some 0 } })
            >>= λ (p : Bool × Connection). some (after_write p.0 p.1)))

unfoldable pub send : Wrote → Memory → ℕ → Connection → Option Sending
send r b n c = take_turn r b n (record c { waiters = c.waiters + 1 })

-- solong < sz
abbrev pub is_short : Charbuf → Bool
is_short w = elim w.solong [ none ↦ true | some k ↦ ltb k w.sz ]

-- Lines 179-188.
abbrev pub after_cb : Bool × Connection → Option (Bool × Connection)
after_cb (ok, c) =
    if not ok
    then some (true, record c { wants_read = false; wants_write = false; dead = true })
    else some (not (is_short c.wpdu), c)

-- The new connection, and whether send_complete_ is signalled.
unfoldable pub write_cb : Wrote → Connection → Option (Bool × Connection)
write_cb r c =
    if c.dead
    then none
    else if c.wpdu.sz == 0
    then some (false, record c { wants_write = false })
    else writepdu r c >>= after_cb
