-- ===== src/Poll/Select.antt =====
-- class SelectAIO (rpc/pollmgr.cc lines 128-257).
--
-- `wakeups` counts the bytes that stand in the pipe. A descriptor is below FD_SETSIZE, and a write
-- to the pipe does not fail.
pub mod Highest
pub mod Ready
pub mod Sets
use mit6_824_2012spring_yfs.Prelude.{
  ℕ, zero, suc, ◌+◌, ◌-◌, Bool, true, false, ◌&&◌, ◌||◌, not, Option, none, some, List, [], ◌∷◌,
  ◌++◌, ltb, leb, ◌==◌, if◌then◌else◌, ◌>>=◌,
}
use mit6_824_2012spring_yfs.Poll.Flags.{
  PollFlag, cb_none, cb_rdonly, cb_wronly, cb_rdwr, reads, writes, FdSet, put_fd,
}

pub record SelectAio : Type 0 where
  pub rfds : FdSet
  pub wfds : FdSet
  pub highfds : ℕ
  pub pipe_rd : ℕ  -- pipefd_[0]
  pub wakeups : ℕ

-- SelectAIO(), where pipe() gives the descriptor `p`
unfoldable pub new_select_aio : ℕ → SelectAio
new_select_aio p = record {
  rfds = put_fd p true (λ _. false);
  wfds = λ _. false;
  highfds = p;
  pipe_rd = p;
  wakeups = 0;
}

unfoldable pub watch_fd : ℕ → PollFlag → SelectAio → SelectAio
watch_fd fd flag s = record s {
  rfds = if reads flag then put_fd fd true s.rfds else s.rfds;
  wfds = if writes flag then put_fd fd true s.wfds else s.wfds;
  highfds = if leb s.highfds fd then fd else s.highfds;
  wakeups = s.wakeups + 1;
}

pub is_watched : ℕ → PollFlag → SelectAio → Bool
is_watched fd cb_rdonly s = s.rfds fd
is_watched fd cb_wronly s = s.wfds fd
is_watched fd cb_rdwr s = s.rfds fd && s.wfds fd
is_watched fd cb_none s = s.rfds fd && s.wfds fd

-- FD_ISSET of either set
abbrev pub watched : SelectAio → ℕ → Bool
watched s fd = s.rfds fd || s.wfds fd

-- The loop of lines 200-206, from `i` on for `n` rounds.
unfoldable pub rescan : (r w : FdSet) (n i newh : ℕ) → ℕ
rescan r w zero i newh = newh
rescan r w (suc n) i newh = rescan r w n (i + 1) (if r i then i else if w i then i else newh)

-- Lines 197-209.
unfoldable pub lower : ℕ → SelectAio → SelectAio
lower fd s =
    if not (watched s fd) && (fd == s.highfds)
    then record s { highfds = rescan s.rfds s.wfds (s.highfds + 1) 0 s.pipe_rd }
    else s

unfoldable pub unwatch_fd : ℕ → PollFlag → SelectAio → Option (Bool × SelectAio)
unfolding lower
unwatch_fd fd cb_rdonly s =
    let t = lower fd (record s { rfds = put_fd fd false s.rfds }) in some (not (watched t fd), t)
unwatch_fd fd cb_wronly s =
    let t = lower fd (record s { wfds = put_fd fd false s.wfds }) in some (not (watched t fd), t)
unwatch_fd fd cb_rdwr s =
    let t = lower fd (record s { rfds = put_fd fd false s.rfds; wfds = put_fd fd false s.wfds }) in
    some (not (watched t fd), record t { wakeups = t.wakeups + 1 })
unwatch_fd fd cb_none s = none

-- What select() reports: the descriptors that can be read and written, of those that it is given;
-- or a signal that interrupts it; or another error.
pub data Selected : Type 0 where
  selected : (can_read can_write : FdSet) → Selected
  interrupted : Selected
  failed : Selected

pub record Found : Type 0 where
  pub readable : List ℕ
  pub writable : List ℕ
  pub aio : SelectAio

-- One round of the loop of lines 243-256, with the sets that select() has left.
pub collect_fd : (tr tw : FdSet) → ℕ → Found → Option Found
collect_fd tr tw fd f =
    if (fd == f.aio.pipe_rd) && tr fd
    then (if f.aio.wakeups == 0
        then none
        else some (record f { aio = record f.aio { wakeups = f.aio.wakeups - 1 } }))
    else some (record f {
      writable = if tw fd then f.writable ++ (fd ∷ []) else f.writable;
      readable = if tr fd then f.readable ++ (fd ∷ []) else f.readable;
    })

pub collect : (tr tw : FdSet) (n i : ℕ) → Found → Option Found
collect tr tw zero i f = some f
collect tr tw (suc n) i f = collect_fd tr tw i f >>= collect tr tw n (i + 1)

-- The lists are empty when wait_loop calls it.
unfoldable pub wait_ready : Selected → SelectAio → Option Found
wait_ready (selected can_read can_write) s =
    collect (λ fd. s.rfds fd && can_read fd) (λ fd. s.wfds fd && can_write fd) (s.highfds + 1) 0
      (record { readable = []; writable = []; aio = s })
wait_ready interrupted s = some (record { readable = []; writable = []; aio = s })
wait_ready failed s = none
