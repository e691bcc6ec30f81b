-- ===== src/Poll/Manager/System.antt =====
-- The loop thread and the threads that call PollMgr, as steps.
use mit6_824_2012spring_yfs.Prelude.{
  ℕ, ◌≡◌, ◌≢◌, true, false, none, some, List, [], ◌∷◌, if◌then◌else◌, ◌==◌,
}
use mit6_824_2012spring_yfs.Poll.Flags.{PollFlag, FdSet}
use mit6_824_2012spring_yfs.Poll.Select.{selected, interrupted, Found, wait_ready}
use mit6_824_2012spring_yfs.Poll.Manager.{
  PollMgr, new_poll_mgr, add_callback, del_callback, begin_remove, end_remove, loop_top,
}

-- Where a thread stands in block_remove_fd.
pub data Pc : Type 0 where
  outside : Pc
  removing : (fd : ℕ) → Pc
  woken : (fd : ℕ) → Pc

-- Where the loop thread stands: at line 97, before wait_ready, or in the loops of lines 114-124.
pub data Phase : Type 0 where
  at_top polling dispatching : Phase

pub record System : Type 0 where
  pub mgr : PollMgr
  pub phase : Phase
  -- What is left of the two vectors.
  pub readable : List ℕ
  pub writable : List ℕ
  pub pc : ℕ → Pc

abbrev pub set_pc : (ℕ → Pc) → ℕ → Pc → ℕ → Pc
set_pc pc i p j = if j == i then p else pc j

abbrev pub wake : Pc → Pc
wake outside = outside
wake (removing fd) = woken fd
wake (woken fd) = woken fd

pub data Event : Type 0 where
  read_call : (c fd : ℕ) → Event
  write_call : (c fd : ℕ) → Event
  added : (fd : ℕ) → Event
  quiet : Event

abbrev pub NoRemover : (ℕ → Pc) → ℕ → Type 0
NoRemover pc fd = (i : ℕ) → (pc i ≢ removing fd) × (pc i ≢ woken fd)

-- A removed descriptor is not added again while its removal runs, and the pipe is not removed. The
-- wait on changedone_c_ ends by the broadcast only.
pub data Step (s : System) : Event → System → Type 0 where
  add :
      (fd : ℕ) (flag : PollFlag) (ch : ℕ) {m : PollMgr}
      → NoRemover s.pc fd
      → add_callback fd flag ch s.mgr ≡ some m
      → Step s (added fd) (record s { mgr = m })
  del :
      (fd : ℕ) (flag : PollFlag) {m : PollMgr}
      → fd ≢ s.mgr.aio.pipe_rd
      → del_callback fd flag s.mgr ≡ some m
      → Step s quiet (record s { mgr = m })
  remove :
      (i fd : ℕ) {m : PollMgr}
      → fd ≢ s.mgr.aio.pipe_rd
      → s.pc i ≡ outside
      → begin_remove fd s.mgr ≡ some m
      → Step s quiet (record s { mgr = m; pc = set_pc s.pc i (removing fd) })
  removed :
      (i fd : ℕ)
      → s.pc i ≡ woken fd
      → Step s quiet (record s { mgr = end_remove fd s.mgr; pc = set_pc s.pc i outside })
  top_wakes :
      s.phase ≡ at_top
      → s.mgr.pending_change ≡ true
      → Step s quiet (record s { mgr = loop_top s.mgr; phase = polling; pc = λ i. wake (s.pc i) })
  top_quiet :
      s.phase ≡ at_top → s.mgr.pending_change ≡ false → Step s quiet (record s { phase = polling })
  poll :
      (can_read can_write : FdSet) {f : Found}
      → s.phase ≡ polling
      → (can_read s.mgr.aio.pipe_rd ≡ true → s.mgr.aio.wakeups ≢ 0)
      → wait_ready (selected can_read can_write) s.mgr.aio ≡ some f
      → Step s quiet (record s {
        mgr = record s.mgr { aio = f.aio };
        phase = dispatching;
        readable = f.readable;
        writable = f.writable;
      })
  poll_again :
      {f : Found}
      → s.phase ≡ polling
      → wait_ready interrupted s.mgr.aio ≡ some f
      → Step s quiet (record s { phase = at_top })
  call_read :
      (fd c : ℕ) {rest : List ℕ}
      → s.phase ≡ dispatching
      → s.readable ≡ fd ∷ rest
      → s.mgr.callbacks fd ≡ some c
      → Step s (read_call c fd) (record s { readable = rest })
  skip_read :
      (fd : ℕ) {rest : List ℕ}
      → s.phase ≡ dispatching
      → s.readable ≡ fd ∷ rest
      → s.mgr.callbacks fd ≡ none
      → Step s quiet (record s { readable = rest })
  call_write :
      (fd c : ℕ) {rest : List ℕ}
      → s.phase ≡ dispatching
      → s.readable ≡ []
      → s.writable ≡ fd ∷ rest
      → s.mgr.callbacks fd ≡ some c
      → Step s (write_call c fd) (record s { writable = rest })
  skip_write :
      (fd : ℕ) {rest : List ℕ}
      → s.phase ≡ dispatching
      → s.readable ≡ []
      → s.writable ≡ fd ∷ rest
      → s.mgr.callbacks fd ≡ none
      → Step s quiet (record s { writable = rest })
  round_done :
      s.phase ≡ dispatching
      → s.readable ≡ []
      → s.writable ≡ []
      → Step s quiet (record s { phase = at_top })

abbrev pub init : ℕ → System
init p = record {
  mgr = new_poll_mgr p;
  phase = at_top;
  readable = [];
  writable = [];
  pc = λ _. outside;
}

-- The events of a run, the latest first.
pub data Run (s : System) : List Event → System → Type 0 where
  start : Run s [] s
  later : {es : List Event} {e : Event} {t u : System} → Run s es t → Step t e u → Run s (e ∷ es) u
