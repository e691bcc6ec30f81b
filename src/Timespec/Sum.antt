-- ===== src/Timespec/Sum.antt =====
-- add_timespec adds milliseconds, and what it leaves of a full second.
use mit6_824_2012spring_yfs.Prelude.{
  ℕ, zero, suc, ◌+◌, ◌-◌, ◌*◌, ◌/◌, ◌%◌, ◌≤◌, ◌<◌, ◌≡◌, ◌≢◌, ◌↔◌, refl, arith,
}
use mit6_824_2012spring_yfs.Timespec.{
  Timespec, carry, add_timespec, nanos, IsNormal, million, billion,
}

carry_lem :
    (fuel : ℕ) (t : Timespec)
    → t.nsec / billion ≤ fuel
    → (nanos (carry fuel t) ≡ nanos t) × ((carry fuel t).nsec ≤ billion)
unfolding carry
carry_lem zero t h = omega arith
carry_lem (suc fuel) t h =
    ground (arith, carry_lem fuel (record { sec = t.sec + 1; nsec = t.nsec - billion }))

-- The loop of add_timespec ends, the sum is exact, and at most one second is left in the
-- nanoseconds.
pub add_timespec_exact :
    (a : Timespec) (b : ℕ)
    → (nanos (add_timespec a b) ≡ nanos a + b * million) × ((add_timespec a b).nsec ≤ billion)
unfolding add_timespec
add_timespec_exact a b =
    let t : Timespec = record { sec = a.sec + b / 1000; nsec = a.nsec + b % 1000 * million } in
    let (same, small) = carry_lem (t.nsec / billion) t (omega arith) in (omega arith, small)

carry_small : (fuel : ℕ) (t : Timespec) → t.nsec ≤ billion → carry fuel t ≡ t
unfolding carry
carry_small zero t h = refl
carry_small (suc fuel) t h = ground arith

carry-IsNormal :
    (fuel : ℕ) (t : Timespec)
    → t.nsec / billion ≤ fuel
    → t.nsec < 2 * billion
    → IsNormal (carry fuel t) ↔ (t.nsec ≢ billion)
unfolding carry
carry-IsNormal zero t h k = (λ e. omega arith, λ e. omega arith)
carry-IsNormal (suc fuel) t h k =
    let t' : Timespec = record { sec = t.sec + 1; nsec = t.nsec - billion } in
    (λ e. ground (arith, carry_small fuel t'), λ e. ground (arith, carry_small fuel t'))

-- From a normal time the result is normal unless the nanoseconds add up to exactly one second: the
-- loop stops at a full second, which it does not carry.
pub add_timespec-IsNormal :
    (a : Timespec) (b : ℕ)
    → IsNormal a
    → IsNormal (add_timespec a b) ↔ (a.nsec + b % 1000 * million ≢ billion)
unfolding add_timespec
add_timespec-IsNormal a b h =
    carry-IsNormal _ (record { sec = a.sec + b / 1000; nsec = a.nsec + b % 1000 * million })
      (omega arith) (omega arith)
