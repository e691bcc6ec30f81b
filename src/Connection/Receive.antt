-- ===== src/Connection/Receive.antt =====
-- The receiving side of class connection: read_cb and readpdu (rpc/connection.cc lines 191-219 and
-- 245-295), and closeconn (lines 64-81).
--
-- What the socket has for a read() is a parameter, of which read() takes as much as it is asked for.
-- `none` is a failed assertion, a use of NULL, or a count that wraps around: a size field that is
-- negative makes malloc give too little space or none, and one below 4 gives read() a negative
-- count.
pub mod Frames
pub mod Buffer
pub mod Reading
pub mod Whole
mod Examples
use mit6_824_2012spring_yfs.Prelude.{
  ℕ, ◌+◌, ◌-◌, ◌*◌, ◌^◌, Bool, true, false, ◌||◌, not, Option, none, some, List, [], ◌∷◌, ◌++◌, ltb,
  ◌==◌, if◌then◌else◌, ◌>>=◌, Memory, copy, slice, take, length,
}
use mit6_824_2012spring_yfs.Call.{is_negative_int}
use mit6_824_2012spring_yfs.Connection.{Charbuf, Connection, all_out, is_short, has_buf}

-- What a read() meets: bytes to take, where none is the end of the stream, or an error, with
-- whether errno is EAGAIN.
pub data Read : Type 0 where
  ready_bytes : List ℕ → Read
  read_error : (again : Bool) → Read

-- What a call of read_cb meets: its two reads, whether errno is EAGAIN from before, what malloc
-- leaves in a buffer, and whether got_pdu consumes.
pub record Arrival : Type 0 where
  pub first : Read
  pub second : Read
  pub stale : Bool
  pub junk : Memory
  pub consumes : Bool

-- MAX_PDU
abbrev pub max_pdu : ℕ
max_pdu = 10 * 2 ^ 20

-- charbuf()
abbrev pub empty_charbuf : Charbuf
empty_charbuf = record { buf = none; sz = 0; solong = some 0 }

-- ntohl: bytes in network order as a number, behind those that make up `n`.
abbrev pub ntohl : ℕ → List ℕ → ℕ
ntohl n [] = n
ntohl n (b ∷ bs) = ntohl (n * 256 + b) bs

-- Lines 261-280, for the bytes that the first read() gives.
unfoldable pub take_size : List ℕ → Memory → Connection → Option (Bool × Connection)
take_size bs junk c =
    let sz = ntohl 0 bs in
    if not (length bs == 4)
    then some (false, c)
    else if is_negative_int sz
    then none
    else if ltb max_pdu sz
    then some (false, c)
    else if has_buf c.rpdu.buf
    then none
    else some
        (true, record c { rpdu = record { buf = some (copy junk 0 bs); sz = sz; solong = some 4 } })

-- Lines 249-280; `false` returns at once.
unfoldable pub read_size : Read → Memory → Connection → Option (Bool × Connection)
read_size (read_error again) junk c = if again then none else some (false, c)
read_size (ready_bytes bs) junk c =
    take_size (take 4 bs) junk (record c { inp = c.inp ++ take 4 bs })

-- Lines 284-292.
unfoldable pub end_read : (again : Bool) → Connection → Option (Bool × Connection)
end_read again c = if again then some (true, c) else some (false, record c { rpdu = empty_charbuf })

-- Lines 283-294, from the `k` bytes that are there.
unfoldable pub fill : Read → Bool → ℕ → Option Memory → Connection → Option (Bool × Connection)
fill r stale k none c = none
fill (read_error again) stale k (some b) c = end_read again c
fill (ready_bytes bs) stale k (some b) c =
    let new = take (c.rpdu.sz - k) bs in
    if length new == 0
    then end_read stale c
    else some (
      true,
      record c {
        rpdu = record c.rpdu { buf = some (copy b k new); solong = some (k + length new) };
        inp = c.inp ++ new;
      },
    )

-- Line 283, for the value of solong.
unfoldable pub fill_from : Option ℕ → Read → Bool → Connection → Option (Bool × Connection)
fill_from none r stale c = none
fill_from (some k) r stale c = if ltb c.rpdu.sz k then none else fill r stale k c.rpdu.buf c

unfoldable pub read_body : Read → Bool → Connection → Option (Bool × Connection)
read_body r stale c = fill_from c.rpdu.solong r stale c

unfoldable pub readpdu : Arrival → Connection → Option (Bool × Connection)
readpdu a c =
    if c.rpdu.sz == 0
    then (read_size a.first a.junk c >>= λ (p : Bool × Connection).
        if p.0 then read_body a.second a.stale p.1 else some p)
    else read_body a.second a.stale c

-- The connection after read_cb, and the message that got_pdu has consumed.
pub record Taken : Type 0 where
  pub conn : Connection
  pub message : Option (List ℕ)

-- Lines 212-218, for the buffer.
unfoldable pub hand_over : (consumes : Bool) → Option Memory → Connection → Taken
hand_over consumes none c = record { conn = c; message = none }
hand_over consumes (some f) c =
    if all_out c.rpdu
    then (if consumes
        then record {
          conn = record c { rpdu = empty_charbuf };
          message = some (slice f 0 c.rpdu.sz);
        }
        else record { conn = c; message = none })
    else record { conn = c; message = none }

-- Lines 206-218.
unfoldable pub after_read : (consumes : Bool) → Bool × Connection → Taken
after_read consumes (succ, c) =
    let d = if succ then c else record c { dead = true; wants_read = false; wants_write = false } in
    hand_over consumes d.rpdu.buf d

unfoldable pub read_cb : Arrival → Connection → Option Taken
read_cb a c =
    if c.dead
    then some (record { conn = c; message = none })
    else ((if not (has_buf c.rpdu.buf) || is_short c.rpdu then readpdu a c else some (true, c))
        >>= λ (p : Bool × Connection). some (after_read a.consumes p))

-- closeconn, where block_remove_fd takes away both callbacks; the flag says whether it is called.
unfoldable pub closeconn : Connection → Bool × Connection
closeconn c =
    if c.dead
    then (false, c)
    else (true, record c { dead = true; wants_read = false; wants_write = false })
