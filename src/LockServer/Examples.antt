-- ===== src/LockServer/Examples.antt =====
-- A run of the lock server with two clients, and its theorems at concrete inputs.
use mit6_824_2012spring_yfs.Prelude.{ℕ, ◌≡◌, refl, ◌⊎◌, some, [], ◌∷◌, find, insert}
use mit6_824_2012spring_yfs.LockServer.{LockServer, locked, grant, release, release_lock, try_lock}
use mit6_824_2012spring_yfs.LockServer.System.{
  idle, waiting, System, granted, silent, Reach, start, later, init, set_pc, grant_now, grant_waits,
}
use mit6_824_2012spring_yfs.LockServer.Refines.{holder, holder_after, Exclusive, mutual_exclusion}
use mit6_824_2012spring_yfs.LockServer.Wakeups.{Held, Stirs, no_lost_wakeup}
use mit6_824_2012spring_yfs.LockServer.Methods.{HasLock}

abbrev held : LockServer
held = record {
  nacquire = 0;
  locks = (3, some (record { lid = 3; clt = 11; state = locked })) ∷ [];
}

-- Client 11 gets lock 3, client 22 asks for it and waits.
abbrev contended : System
contended = record { server = held; pc = set_pc (λ _. idle) 1 (waiting 22 3) }

contended-Reach : Reach (silent ∷ granted 11 3 ∷ []) contended
unfolding grant try_lock find insert
contended-Reach =
    later {s = record { server = held; pc = λ _. idle }}
      (later {s = init} start (grant_now 0 11 3 0 refl refl)) (grant_waits 1 22 3 refl refl)

mutual_exclusion_example :
    Exclusive (silent ∷ granted 11 3 ∷ [])
    × ((l : ℕ) → holder contended.server l ≡ holder_after (silent ∷ granted 11 3 ∷ []) l)
mutual_exclusion_example = mutual_exclusion contended-Reach

no_lost_wakeup_example : Held contended 3 ⊎ Stirs contended 3
no_lost_wakeup_example = no_lost_wakeup contended-Reach 1 22 3 refl

held-HasLock : HasLock held 3
unfolding find
held-HasLock = (record { lid = 3; clt = 11; state = locked }, refl)

release_by_other : (release 22 3 held).server ≡ held
unfolding release release_lock find
release_by_other = refl
