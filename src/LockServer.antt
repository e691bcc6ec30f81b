-- ===== src/LockServer.antt =====
-- The lock service: class lock of lock_protocol.h, and lock_server.h and lock_server.cc.
--
-- A method is split where it waits: `grant` runs up to its first wait or to its return, and `resume`
-- from a wake-up to the next wait or the return. Both run under the mutex of the server.
pub mod System
pub mod Refines
pub mod Wakeups
pub mod Methods
mod Examples
use mit6_824_2012spring_yfs.Prelude.{
  ℕ, Bool, true, false, Option, none, some, List, [], ◌==◌, if◌then◌else◌, Map, find, insert,
}

-- lock::st
pub data LockState : Type 0 where
  locked free : LockState

-- class lock; the threads that wait on cond_lock are in `System`.
pub record Lock : Type 0 where
  pub lid : ℕ
  pub clt : ℕ
  pub state : LockState

-- lock(lockid_t)
abbrev pub new_lock : ℕ → Lock
new_lock lid = record { lid = lid; clt = 0; state = free }

abbrev pub is_locked_state : LockState → Bool
is_locked_state locked = true
is_locked_state free = false

abbrev pub is_locked : Lock → Bool
is_locked l = is_locked_state l.state

abbrev pub get_owner : Lock → ℕ
get_owner l = l.clt

-- Set_Locked, with the value that it returns.
abbrev pub set_locked : ℕ → Lock → Bool × Lock
set_locked c l = if is_locked l then (false, l) else (true, record l { state = locked; clt = c })

abbrev pub set_free : Lock → Lock
set_free l = record l { state = free; clt = 0 }

-- lock_protocol::xxstatus
pub data Status : Type 0 where
  ok retry rpcerr noent ioerr : Status

-- The server; a value `none` in the map is a NULL pointer, which operator[] puts there for a missing
-- key.
pub record LockServer : Type 0 where
  pub nacquire : ℕ
  pub locks : Map (Option Lock)

-- lock_server()
abbrev pub new_lock_server : LockServer
new_lock_server = record { nacquire = 0; locks = [] }

-- How a piece of a method ends. `crash` is an access through NULL.
pub data Outcome : Type 0 where
  returns : Status → (r : ℕ) → Outcome
  waits : Outcome
  crash : Outcome

pub stat : (clt lid : ℕ) → LockServer → Outcome × LockServer
stat clt lid s = (returns ok s.nacquire, s)

abbrev put_lock : ℕ → Option Lock → LockServer → LockServer
put_lock lid l s = record s { locks = insert lid l s.locks }

-- The test of the loop in `grant`, and what follows where it fails.
pub try_lock : (clt lid : ℕ) → Option Lock → LockServer → Outcome × LockServer
try_lock clt lid none s = (crash, s)
try_lock clt lid (some l) s =
    if is_locked l
    then (waits, s)
    else (returns ok s.nacquire, put_lock lid (some (set_locked clt l).1) s)

unfoldable pub grant : (clt lid : ℕ) → LockServer → Outcome × LockServer
unfolding try_lock
grant clt lid s = elim (find lid s.locks) [
  | none ↦ (returns ok s.nacquire, put_lock lid (some (set_locked clt (new_lock lid)).1) s)
  | some p ↦ try_lock clt lid p s
]

pub resume : (clt lid : ℕ) → LockServer → Outcome × LockServer
unfolding try_lock
resume clt lid s = elim (find lid s.locks) [
  | none ↦ (crash, put_lock lid none s)
  | some p ↦ try_lock clt lid p s
]

-- `release` also says whether it signals the condition of the lock.
pub record Released : Type 0 where
  pub outcome : Outcome
  pub signals : Bool
  pub server : LockServer

pub release_lock : (clt lid : ℕ) → Option Lock → LockServer → Released
release_lock clt lid none s = record { outcome = crash; signals = false; server = s }
release_lock clt lid (some l) s =
    if is_locked l
    then (if clt == get_owner l
        then record {
          outcome = returns ok s.nacquire;
          signals = true;
          server = put_lock lid (some (set_free l)) s;
        }
        else record { outcome = returns ok s.nacquire; signals = false; server = s })
    else record { outcome = returns ok s.nacquire; signals = false; server = s }

pub release : (clt lid : ℕ) → LockServer → Released
unfolding release_lock
release clt lid s = elim (find lid s.locks) [
  | none ↦ record { outcome = crash; signals = false; server = put_lock lid none s }
  | some p ↦ release_lock clt lid p s
]
