-- ===== src/Timespec/Examples.antt =====
-- Runs of the time functions, and their theorems at concrete inputs.
use mit6_824_2012spring_yfs.Prelude.{
  ℕ, ◌+◌, ◌-◌, ◌*◌, ◌%◌, ◌^◌, ◌≤◌, ◌<◌, ◌≡◌, ◌≢◌, ◌↔◌, refl, some, arith,
}
use mit6_824_2012spring_yfs.Timespec.{
  Timespec, add_timespec, diff_timespec, carry, nanos, IsNormal, million, billion,
}
use mit6_824_2012spring_yfs.Timespec.Order.{diff_timespec_close}
use mit6_824_2012spring_yfs.Timespec.Sum.{add_timespec_exact, add_timespec-IsNormal}

abbrev early : Timespec
early = record { sec = 7; nsec = 400000000 }

abbrev late : Timespec
late = record { sec = 9; nsec = 100000000 }

-- Half a second past 7.5 seconds is 7 seconds and a billion nanoseconds.
full_second :
    add_timespec (record { sec = 7; nsec = 500000000 }) 500 ≡ record { sec = 7; nsec = billion }
unfolding add_timespec carry
full_second = refl

difference : diff_timespec late early ≡ some 1700
unfolding diff_timespec
difference = refl

diff_timespec_close_example :
    (d : ℕ) × (diff_timespec late early ≡ some d)
    × (d < 2 ^ 31)
    × (d * million < nanos late - nanos early + million)
    × (nanos late - nanos early < d * million + million)
diff_timespec_close_example =
    diff_timespec_close late early (omega arith) (omega arith) (omega arith) (omega arith)

add_timespec_exact_example :
    (nanos (add_timespec early 1700) ≡ nanos early + 1700 * million)
    × ((add_timespec early 1700).nsec ≤ billion)
add_timespec_exact_example = add_timespec_exact early 1700

add_timespec-IsNormal_example :
    IsNormal (add_timespec early 600) ↔ (early.nsec + 600 % 1000 * million ≢ billion)
add_timespec-IsNormal_example = add_timespec-IsNormal early 600 (omega arith)
