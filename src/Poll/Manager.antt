-- ===== src/Poll/Manager.antt =====
-- class PollMgr (rpc/pollmgr.cc lines 45-126), with SelectAIO as its aio_mgr.
--
-- `block_remove_fd` waits for the loop; it is split there. A callback object is a number.
pub mod System
pub mod Watching
pub mod Silence
pub mod Removal
use mit6_824_2012spring_yfs.Prelude.{
  ℕ, Bool, true, false, ◌&&◌, ◌||◌, not, Option, none, some, ltb, ◌==◌, if◌then◌else◌, ◌>>=◌, ◌>>◌,
  assert,
}
use mit6_824_2012spring_yfs.Poll.Flags.{PollFlag, cb_rdwr}
use mit6_824_2012spring_yfs.Poll.Select.{
  SelectAio, new_select_aio, watch_fd, unwatch_fd, is_watched,
}

pub record PollMgr : Type 0 where
  pub aio : SelectAio
  pub callbacks : ℕ → Option ℕ
  pub pending_change : Bool

-- PollMgr(), where the pipe of SelectAIO has the descriptor `p`
abbrev pub new_poll_mgr : ℕ → PollMgr
new_poll_mgr p = record { aio = new_select_aio p; callbacks = λ _. none; pending_change = false }

abbrev pub max_poll_fds : ℕ
max_poll_fds = 128

abbrev pub put_callback : ℕ → Option ℕ → PollMgr → PollMgr
put_callback fd c m = record m { callbacks = λ i. if i == fd then c else m.callbacks i }

-- !callbacks_[fd] || callbacks_[fd]==ch
abbrev pub may_set : Option ℕ → ℕ → Bool
may_set none ch = true
may_set (some c) ch = c == ch

abbrev pub is_callback : Option ℕ → ℕ → Bool
is_callback none ch = false
is_callback (some c) ch = c == ch

-- `none` is a failed assertion.
pub add_callback : ℕ → PollFlag → ℕ → PollMgr → Option PollMgr
add_callback fd flag ch m =
    assert (ltb fd max_poll_fds)
    >> assert (may_set (m.callbacks fd) ch)
    >> some (put_callback fd (some ch) (record m { aio = watch_fd fd flag m.aio }))

pub del_callback : ℕ → PollFlag → PollMgr → Option PollMgr
del_callback fd flag m = do
  (unwatched, a) ← unwatch_fd fd flag m.aio
  some (if unwatched then put_callback fd none (record m { aio = a }) else record m { aio = a })

-- Up to the wait.
unfoldable pub begin_remove : ℕ → PollMgr → Option PollMgr
begin_remove fd m = do
  (_, a) ← unwatch_fd fd cb_rdwr m.aio
  some (record m { aio = a; pending_change = true })

-- After the wait.
unfoldable pub end_remove : ℕ → PollMgr → PollMgr
end_remove fd m = put_callback fd none m

pub has_callback : ℕ → PollFlag → ℕ → PollMgr → Bool
has_callback fd flag c m =
    if is_callback (m.callbacks fd) c then is_watched fd flag m.aio else false

-- Lines 97-103: changedone_c_ is signalled to all exactly if pending_change_ was set.
unfoldable pub loop_top : PollMgr → PollMgr
loop_top m = record m { pending_change = false }
