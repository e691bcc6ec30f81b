-- ===== src/Client/Deadlines/Examples.antt =====
-- Runs of the loop of call1, and its theorems at concrete inputs.
use mit6_824_2012spring_yfs.Prelude.{
  ℕ, ◌≤◌, ◌≡◌, ◌⊎◌, ◌≢◌, refl, false, true, none, some, List, [], ◌∷◌, All, arith, ltb,
  if◌then◌else◌,
}
use mit6_824_2012spring_yfs.Timespec.{
  Timespec, add_timespec, carry, cmp_timespec, nanos, billion, IsNormal,
}
use mit6_824_2012spring_yfs.Client.Deadlines.{
  Woke, notified, timed_out, invalid, Round, Ended, new_waiting, wait_loop, wait_done,
  next_deadline,
}
use mit6_824_2012spring_yfs.Client.Deadlines.Bounds.{IsSound, wait_loop_ends}
use mit6_824_2012spring_yfs.Client.Deadlines.Timely.{wait_loop_timely}
use mit6_824_2012spring_yfs.Client.Deadlines.Spins.{wait_loop_spins}

abbrev second : ℕ → Timespec
second s = record { sec = s; nsec = 0 }

-- A spurious wake-up, then the timeout; a time with a full second in its nanoseconds is refused.
abbrev timed_wait : Timespec → ℕ → Woke
timed_wait d j =
    if ltb d.nsec billion
    then (if ltb j 1 then notified false else timed_out false)
    else invalid false

-- No reply comes and the channel is dead; the clock is at the end of each wait of a call that
-- starts at 100 seconds with a timeout of 5 seconds.
abbrev hopeless : ℕ → Round
hopeless i = record {
  now = second (if ltb i 1 then 100 else if ltb i 2 then 101 else if ltb i 3 then 103 else 105);
  done = false;
  waits = timed_wait;
  dead = true;
}

hopeless-IsSound : (i : ℕ) → IsSound 2 (second 100) (hopeless i)
hopeless-IsSound i = record {
  later = ground arith;
  normal = ground arith;
  times_out = λ d h. (1, omega arith, ground (arith, h));
}

five_seconds : IsNormal (add_timespec (second 100) 5000)
unfolding add_timespec carry
five_seconds = omega arith

wait_loop_ends_example :
    (e : Ended) × (wait_loop 5 2 true hopeless 0 [] (new_waiting (second 100) 5000) ≡ some e)
    × (e.sends ≤ 5)
wait_loop_ends_example =
    wait_loop_ends 2 true (second 100) 5000 3 hopeless hopeless-IsSound five_seconds (omega arith)

-- It waits until 101, 103 and 105 seconds, and sends four times.
abbrev given_up : Ended
given_up = record {
  replied = false;
  sends = 4;
  deadlines = second 105 ∷ second 103 ∷ second 101 ∷ [];
}

gives_up : wait_loop 5 2 true hopeless 0 [] (new_waiting (second 100) 5000) ≡ some given_up
unfolding wait_loop wait_done next_deadline cmp_timespec add_timespec carry
gives_up = refl

first_second : (add_timespec (second 100) 5000).sec ≢ 0
unfolding add_timespec carry
first_second = omega arith

wait_loop_timely_example :
    (e : Ended) × (wait_loop 5 2 true hopeless 0 [] (new_waiting (second 100) 5000) ≡ some e)
    × All (λ d. nanos d ≤ nanos (add_timespec (second 100) 5000)) e.deadlines
    × ((e.replied ≡ true)
        ⊎ ((past : List Timespec) × (e.deadlines ≡ add_timespec (second 100) 5000 ∷ past)))
wait_loop_timely_example =
    wait_loop_timely 2 true (second 100) 5000 3 hopeless hopeless-IsSound five_seconds (omega arith)
      first_second

-- A call that starts half a second past 100 seconds, with a timeout of half a second.
abbrev half_past : Timespec
half_past = record { sec = 100; nsec = 500000000 }

abbrev stuck : ℕ → Round
stuck i = record { now = half_past; done = false; waits = timed_wait; dead = true }

full_second : ((add_timespec half_past 500).nsec ≡ billion) × ((add_timespec half_past 500).sec ≢ 0)
unfolding add_timespec carry
full_second = (refl, omega arith)

wait_loop_spins_example : wait_loop 9 9 true stuck 0 [] (new_waiting half_past 500) ≡ none
wait_loop_spins_example =
    wait_loop_spins true half_past 500 9 9 stuck full_second.0 full_second.1 (omega arith)
      (omega arith) refl (λ d j h. ground (arith, h))
