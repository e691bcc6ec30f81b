-- ===== src/Timespec.antt =====
-- cmp_timespec, add_timespec and diff_timespec (rpc/rpc.cc lines 999-1040). A time has its seconds
-- and nanoseconds not negative, and a timeout is not negative.
pub mod Order
pub mod Sum
mod Examples
use mit6_824_2012spring_yfs.Prelude.{
  ℕ, zero, suc, ◌+◌, ◌-◌, ◌*◌, ◌/◌, ◌%◌, ◌<◌, Option, none, some, Bool, true, false, ◌||◌, not, ltb,
  ◌==◌, if◌then◌else◌, ℤ, pos, negsuc, u32, ◌^◌, ◌>>=◌, ◌>>◌, assert,
}

pub record Timespec : Type 0 where
  pub sec : ℕ
  pub nsec : ℕ

unfoldable pub cmp_timespec : Timespec → Timespec → ℤ
cmp_timespec a b =
    if ltb b.sec a.sec
    then pos 1
    else if ltb a.sec b.sec
    then negsuc 0
    else if ltb b.nsec a.nsec
    then pos 1
    else if ltb a.nsec b.nsec
    then negsuc 0
    else pos 0

abbrev pub billion : ℕ
billion = 1000000000

abbrev pub million : ℕ
million = 1000000

-- The loop of lines 1023-1026.
unfoldable pub carry : ℕ → Timespec → Timespec
carry zero t = t
carry (suc fuel) t =
    let rest = carry fuel (record { sec = t.sec + 1; nsec = t.nsec - billion }) in
    if ltb billion t.nsec then rest else t

-- A round takes a billion off, so `nsec / billion` rounds are enough.
unfoldable pub add_timespec : Timespec → ℕ → Timespec
add_timespec a b =
    let t : Timespec = record { sec = a.sec + b / 1000; nsec = a.nsec + b % 1000 * million } in
    carry (t.nsec / billion) t

-- `diff` is an int, so every assignment to it keeps the low 32 bits; a negative result is its
-- pattern.
pub diff_timespec : (end start : Timespec) → Option ℕ
diff_timespec end start = do
  let diff = u32 (if ltb start.sec end.sec then (end.sec - start.sec) * 1000 else 0)
  assert (not (diff == 0) || (end.sec == start.sec))
  some (
      if ltb start.nsec end.nsec
      then u32 (diff + (end.nsec - start.nsec) / million)
      else u32 (diff + 2 ^ 32 - u32 ((start.nsec - end.nsec) / million)))

abbrev pub nanos : Timespec → ℕ
nanos t = t.sec * billion + t.nsec

-- The nanoseconds are below a second.
abbrev pub IsNormal : Timespec → Type 0
IsNormal t = t.nsec < billion
