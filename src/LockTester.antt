-- ===== src/LockTester.antt =====
-- The tester of the lock server (lock_tester.cc): check_grant and check_release, and what each test
-- does, as the list of its actions. A client of the tester is its number in `lc`.
pub mod System
pub mod Rounds
pub mod Passes
mod Examples
use mit6_824_2012spring_yfs.Prelude.{
  ℕ, zero, suc, ◌+◌, ◌-◌, ◌%◌, ◌==◌, Option, none, some, List, [], ◌∷◌, ◌++◌, if◌then◌else◌, ltb,
}

-- ct[256], which count_mutex protects.
abbrev pub Counts : Type 0
Counts = ℕ → ℕ

-- `none` is exit(1).
pub check_grant : ℕ → Counts → Option Counts
check_grant lid ct =
    let x = lid % 256 in if ct x == 0 then some (λ i. if i == x then ct i + 1 else ct i) else none

pub check_release : ℕ → Counts → Option Counts
check_release lid ct =
    let x = lid % 256 in if ct x == 1 then some (λ i. if i == x then ct i - 1 else ct i) else none

-- What a test does.
pub data Action : Type 0 where
  acquires : (clt lid : ℕ) → Action
  checks_grant : (lid : ℕ) → Action
  checks_release : (lid : ℕ) → Action
  releases : (clt lid : ℕ) → Action

-- The locks `a` and `b`.
abbrev pub lock_a : ℕ
lock_a = 1

abbrev pub lock_b : ℕ
lock_b = 2

-- The body of the loops of the tests 2 to 5, for client `c`.
abbrev pub use_lock : ℕ → List Action
use_lock c =
    acquires c lock_a ∷ checks_grant lock_a ∷ checks_release lock_a ∷ releases c lock_a ∷ []

abbrev pub repeat : ℕ → List Action → List Action
repeat zero p = []
repeat (suc n) p = p ++ repeat n p

abbrev take_and_drop : ℕ → List Action
take_and_drop l = acquires 0 l ∷ checks_grant l ∷ releases 0 l ∷ checks_release l ∷ []

pub test1 : List Action
test1 =
    take_and_drop lock_a
    ++ take_and_drop lock_a
    ++ (acquires 0 lock_a ∷ checks_grant lock_a ∷ [])
    ++ take_and_drop lock_b
    ++ (releases 0 lock_a ∷ checks_release lock_a ∷ [])

-- The thread with number `i` of each test.
pub test2 : ℕ → List Action
test2 i = use_lock i

pub test3 : ℕ → List Action
test3 i = repeat 10 (use_lock i)

pub test4 : ℕ → List Action
test4 i = repeat 10 (use_lock 0)

pub test5 : ℕ → List Action
test5 i = repeat 10 (use_lock (if ltb i 5 then 0 else 1))
