-- ===== src/LockTester/Examples.antt =====
-- A test of the tester at a concrete run, and the checks of test1, which one thread makes alone.
use mit6_824_2012spring_yfs.Prelude.{
  ℕ, ◌≡◌, refl, Option, some, List, [], ◌∷◌, ◌>>=◌, ltb, if◌then◌else◌, ◌+◌, find,
}
use mit6_824_2012spring_yfs.LockServer.{grant, new_lock_server}
use mit6_824_2012spring_yfs.LockServer.System
use mit6_824_2012spring_yfs.LockServer.System.{grant_now, granted}
use mit6_824_2012spring_yfs.LockTester.{
  Counts, check_grant, check_release, Action, acquires, checks_grant, checks_release, releases,
  test1, test5, lock_a, use_lock, repeat,
}
use mit6_824_2012spring_yfs.LockTester.System.{Test, Reach, start, later, init, set_todo, acquired}
use mit6_824_2012spring_yfs.LockTester.Passes.{Checks, tests_pass}
use mit6_824_2012spring_yfs.LockTester.Rounds.{test5-Rounds}

-- The checks of one thread, in order.
abbrev run_checks : List Action → Counts → Option Counts
run_checks [] ct = some ct
run_checks (checks_grant l ∷ p) ct = check_grant l ct >>= run_checks p
run_checks (checks_release l ∷ p) ct = check_release l ct >>= run_checks p
run_checks (acquires c l ∷ p) ct = run_checks p ct
run_checks (releases c l ∷ p) ct = run_checks p ct

test1_passes : (ct : Counts) × (run_checks test1 (λ _. 0) ≡ some ct)
unfolding test1 check_grant check_release
test1_passes = (_, refl)

-- Thread 7 of test5 acquires the lock for client 1, whose nonce is 101.
abbrev id : ℕ → ℕ
id c = c + 100

abbrev locked : System.System
locked = record { server = (grant 101 1 new_lock_server).1; pc = λ _. System.idle }

abbrev one_holds : Test
one_holds = record (init test5) {
  server = locked;
  todo =
      set_todo test5 7
        (checks_grant lock_a ∷ checks_release lock_a ∷ releases 1 lock_a ∷ repeat 9 (use_lock 1));
}

one_holds-Reach : Reach id test5 one_holds
unfolding test5 grant find
one_holds-Reach = later start (acquired 7 1 1 refl (grant_now 0 101 1 0 refl refl))

tests_pass_example : Checks one_holds.ct (one_holds.todo 7)
tests_pass_example =
    tests_pass id (λ i. if ltb i 5 then 0 else 1) test5 test5-Rounds one_holds-Reach 7
