-- ===== src/Timespec/Order.antt =====
-- cmp_timespec compares times, and diff_timespec measures between them.
use mit6_824_2012spring_yfs.Prelude.{
  ℕ, ◌+◌, ◌-◌, ◌*◌, ◌/◌, ◌≤◌, ◌<◌, ◌^◌, ◌≡◌, ◌↔◌, some, arith, ltb, if◌then◌else◌, pos, negsuc,
}
use mit6_824_2012spring_yfs.Timespec.{
  Timespec, cmp_timespec, diff_timespec, nanos, IsNormal, million,
}

-- On normal times cmp_timespec is 1, -1 or 0 exactly when its first time is later, earlier or the
-- same.
pub cmp_timespec_iff :
    (a b : Timespec)
    → IsNormal a
    → IsNormal b
    → ((cmp_timespec a b ≡ pos 1) ↔ (nanos b < nanos a))
      × ((cmp_timespec a b ≡ negsuc 0) ↔ (nanos a < nanos b))
      × ((cmp_timespec a b ≡ pos 0) ↔ (nanos a ≡ nanos b))
unfolding cmp_timespec
cmp_timespec_iff a b ha hb = (
  (λ e. ground arith, λ h. ground arith),
  (λ e. ground arith, λ h. ground arith),
  (λ e. ground arith, λ h. ground arith),
)

-- The difference where it is not negative.
abbrev millis : Timespec → Timespec → ℕ
millis end start =
    let diff = if ltb start.sec end.sec then (end.sec - start.sec) * 1000 else 0 in
    if ltb start.nsec end.nsec
    then diff + (end.nsec - start.nsec) / million
    else diff - (start.nsec - end.nsec) / million

-- From a normal start to a normal end that is not earlier and at most 2147482 seconds later (24.8
-- days), diff_timespec passes its assertion, its int does not overflow, and it is off the true
-- difference by less than a millisecond.
pub diff_timespec_close :
    (end start : Timespec)
    → IsNormal end
    → IsNormal start
    → nanos start ≤ nanos end
    → end.sec ≤ start.sec + 2147482
    → (d : ℕ) × (diff_timespec end start ≡ some d)
      × (d < 2 ^ 31)
      × (d * million < nanos end - nanos start + million)
      × (nanos end - nanos start < d * million + million)
unfolding diff_timespec
diff_timespec_close end start he hs h b =
    (millis end start, ground arith, ground arith, ground arith, ground arith)
