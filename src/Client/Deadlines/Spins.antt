-- ===== src/Client/Deadlines/Spins.antt =====
-- A call whose final deadline is not valid.
use mit6_824_2012spring_yfs.Prelude.{
  ℕ, zero, suc, ◌<◌, ◌≤◌, ◌≡◌, ◌≢◌, refl, Bool, false, none, [], arith, ◌==◌,
}
use mit6_824_2012spring_yfs.Timespec.{Timespec, add_timespec, nanos, billion}
use mit6_824_2012spring_yfs.Client.Deadlines.{
  Woke, invalid, Round, wait_done, to_min, new_waiting, next_deadline, wait_loop,
}
use mit6_824_2012spring_yfs.Client.Deadlines.Bounds.{next_above}

-- While pthread_cond_timedwait refuses its deadline and no reply comes, the wait does not end.
refused_forever :
    (m : ℕ) (waits : ℕ → Woke)
    → ((j : ℕ) → waits j ≡ invalid false)
    → wait_done m waits false ≡ none
unfolding wait_done
refused_forever zero waits h = refl
refused_forever (suc m) waits h =
    rw (wait_done, h 0) (refused_forever m (λ k. waits (suc k)) (λ j. h (suc j)))

module _ (retrans : Bool) (start : Timespec) (to : ℕ) where
  -- A call with a timeout below a second for which the nanoseconds of the final deadline are exactly
  -- a second never returns while no reply comes: whatever the fuel, its loop does not end. The
  -- conditions are that the final deadline is not within the first second of 1970, that the clock is
  -- not before the start of the call, and that pthread_cond_timedwait returns EINVAL for a time with
  -- that many nanoseconds.
  pub wait_loop_spins :
      (fuel m : ℕ) (env : ℕ → Round)
      → (add_timespec start to).nsec ≡ billion
      → (add_timespec start to).sec ≢ 0
      → to < to_min
      → nanos start ≤ nanos (env 0).now
      → (env 0).done ≡ false
      → ((d : Timespec) (j : ℕ) → d.nsec ≡ billion → (env 0).waits d j ≡ invalid false)
      → wait_loop fuel m retrans env 0 [] (new_waiting start to) ≡ none
  unfolding wait_loop next_deadline
  wait_loop_spins zero m env b nz h c d w = refl
  wait_loop_spins (suc fuel) m env b nz h c d w =
      let z : ((add_timespec start to).sec == 0) ≡ false = ground (arith, nz) in
      let a = next_above m retrans start to (env 0).now (new_waiting start to) c h refl in
      let r = refused_forever m ((env 0).waits (add_timespec start to)) (λ j. w _ j b) in
      simp (z, a, d, r) refl
