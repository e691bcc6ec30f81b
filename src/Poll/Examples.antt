-- ===== src/Poll/Examples.antt =====
-- A poll manager with the pipe at descriptor 3, and the theorems at concrete descriptors.
use mit6_824_2012spring_yfs.Prelude.{
  ℕ, ◌≡◌, ◌≢◌, inl, refl, if◌then◌else◌, ◌-◌, Bool, true, false, not, ◌&&◌, Option, none, some, [],
  ◌∷◌, All, arith,
}
use mit6_824_2012spring_yfs.Poll.Flags.{cb_none, cb_rdonly, cb_rdwr, FdSet}
use mit6_824_2012spring_yfs.Poll.Select.{
  SelectAio, new_select_aio, watch_fd, unwatch_fd, lower, rescan, Found, selected, wait_ready,
}
use mit6_824_2012spring_yfs.Poll.Select.Highest.{
  IsTight, new_select_aio-IsTight, watch_fd-IsTight, unwatch_fd-IsTight,
}
use mit6_824_2012spring_yfs.Poll.Select.Ready.{has, wait_ready_exact}
use mit6_824_2012spring_yfs.Poll.Manager.{PollMgr, new_poll_mgr, begin_remove, loop_top, end_remove}
use mit6_824_2012spring_yfs.Poll.Manager.System.{
  System, Event, quiet, added, init, outside, removing, set_pc, wake, remove, top_wakes, removed,
  Run, start, later, polling,
}
use mit6_824_2012spring_yfs.Poll.Manager.Removal.{calls, removal_silences}
use mit6_824_2012spring_yfs.Poll.Epoll
use mit6_824_2012spring_yfs.Poll.Epoll.{EpollAio, new_epoll_aio, is_watched, max_fds}
use mit6_824_2012spring_yfs.Poll.Epoll.Status.{IsSynced}
use mit6_824_2012spring_yfs.Poll.Epoll.Sync.{epoll_keeps_sync}

abbrev watching : SelectAio
watching = watch_fd 5 cb_rdonly (new_select_aio 3)

watching-IsTight : IsTight watching
watching-IsTight = watch_fd-IsTight 5 cb_rdonly (new_select_aio 3) (new_select_aio-IsTight 3)

abbrev all_ready : FdSet
all_ready fd = true

wait_ready_exact_example :
    (f : Found) × (wait_ready (selected all_ready all_ready) watching ≡ some f)
    × (has watching.pipe_rd f.readable ≡ false)
    × (f.aio.wakeups
        ≡ (if all_ready watching.pipe_rd then watching.wakeups - 1 else watching.wakeups))
    × ((fd : ℕ)
        → fd ≢ watching.pipe_rd
        → (has fd f.readable ≡ watching.rfds fd && all_ready fd)
          × (has fd f.writable ≡ watching.wfds fd && all_ready fd))
unfolding watch_fd new_select_aio
wait_ready_exact_example =
    wait_ready_exact watching all_ready all_ready watching-IsTight (λ h. omega arith)

-- Descriptor 5 is unwatched again.
abbrev taken : Option (Bool × SelectAio) → SelectAio
taken none = new_select_aio 3
taken (some (b, a)) = a

abbrev unwatched : SelectAio
unwatched = taken (unwatch_fd 5 cb_rdonly watching)

unwatch_five : unwatch_fd 5 cb_rdonly watching ≡ some (true, unwatched)
unfolding unwatch_fd watch_fd new_select_aio lower rescan
unwatch_five = refl

five_not_pipe : 5 ≢ watching.pipe_rd
unfolding watch_fd new_select_aio
five_not_pipe = omega arith

unwatch_fd-IsTight_example : IsTight unwatched
unwatch_fd-IsTight_example =
    unwatch_fd-IsTight 5 cb_rdonly watching unwatched true five_not_pipe watching-IsTight
      unwatch_five

quiet_added : {fd : ℕ} → quiet ≢ added fd
quiet_added e = cc

rdonly_none : cb_rdonly ≢ cb_none
rdonly_none e = cc

-- Thread 1 removes descriptor 5 while the loop thread goes round.
abbrev begun : PollMgr
begun = record (new_poll_mgr 3) {
  aio = taken (unwatch_fd 5 cb_rdwr (new_select_aio 3));
  pending_change = true;
}

abbrev one_removing : System
one_removing = record (init 3) { mgr = begun; pc = set_pc (λ _. outside) 1 (removing 5) }

abbrev one_woken : System
one_woken = record one_removing {
  mgr = loop_top begun;
  phase = polling;
  pc = λ i. wake (set_pc (λ _. outside) 1 (removing 5) i);
}

abbrev one_back : System
one_back = record one_woken {
  mgr = end_remove 5 (loop_top begun);
  pc = set_pc (λ i. wake (set_pc (λ _. outside) 1 (removing 5) i)) 1 outside;
}

five_not_three : 5 ≢ (new_select_aio 3).pipe_rd
unfolding new_select_aio
five_not_three = omega arith

first_Run : Run (init 3) (quiet ∷ quiet ∷ []) one_woken
unfolding begin_remove unwatch_fd new_select_aio lower rescan loop_top
first_Run =
    later
      (later {t = init 3} {u = one_removing} start
        (remove 1 5 {m = begun} five_not_three refl refl))
      (top_wakes refl refl)

second_Run : Run one_woken (quiet ∷ []) one_back
unfolding end_remove
second_Run = later start (removed 1 5 refl)

removal_silences_example : All (λ (e : Event). calls 5 e ≡ false) (quiet ∷ [])
removal_silences_example =
    removal_silences 3 1 5 first_Run refl second_Run ((λ h. quiet_added h), tt)

new-IsSynced : IsSynced new_epoll_aio
unfolding new_epoll_aio
new-IsSynced = record { status = λ fd. inl refl; agrees = λ fd. refl }

epoll_keeps_sync_example :
    (cb_rdonly ≢ cb_none
      → (w : EpollAio) × (Epoll.watch_fd 5 cb_rdonly new_epoll_aio ≡ some w) × IsSynced w)
    × (new_epoll_aio.fdstatus 5 ≢ 0
        → (u : EpollAio) × (Epoll.unwatch_fd 5 cb_rdonly new_epoll_aio
            ≡ some (not (Epoll.is_there (u.interest 5)), u))
          × IsSynced u)
epoll_keeps_sync_example = epoll_keeps_sync new_epoll_aio 5 cb_rdonly new-IsSynced (omega arith)
