-- ===== src/LockTester/Rounds.antt =====
-- What the threads of the tests 2 to 5 have to do: rounds of acquire, the checks, and release.
use mit6_824_2012spring_yfs.Prelude.{
  ℕ, zero, suc, ◌≡◌, refl, Bool, true, false, List, [], ◌∷◌, ◌++◌, ltb, if◌then◌else◌,
}
use mit6_824_2012spring_yfs.LockTester.{
  Action, acquires, checks_grant, checks_release, releases, lock_a, use_lock, repeat, test5,
}

-- Where a thread stands in a round: without the lock, with it, after check_grant, and after
-- check_release.
pub data Place : Type 0 where
  out held counted uncounted : Place

abbrev pub has_lock : Place → Bool
has_lock out = false
has_lock held = true
has_lock counted = true
has_lock uncounted = true

-- What a thread of client `c` has to do is rounds of use_lock, from its place on.
pub data Rounds (c : ℕ) : Place → List Action → Type 0 where
  ended : Rounds c out []
  starts : {p : List Action} → Rounds c held p → Rounds c out (acquires c lock_a ∷ p)
  counts : {p : List Action} → Rounds c counted p → Rounds c held (checks_grant lock_a ∷ p)
  uncounts : {p : List Action} → Rounds c uncounted p → Rounds c counted (checks_release lock_a ∷ p)
  ends : {p : List Action} → Rounds c out p → Rounds c uncounted (releases c lock_a ∷ p)

pub Rounds-acquires :
    {c d l : ℕ} {q : Place} {p : List Action}
    → Rounds c q (acquires d l ∷ p)
    → (q ≡ out) × (d ≡ c) × (l ≡ lock_a) × Rounds c held p
Rounds-acquires (starts r) = (refl, refl, refl, r)

pub Rounds-checks_grant :
    {c l : ℕ} {q : Place} {p : List Action}
    → Rounds c q (checks_grant l ∷ p)
    → (q ≡ held) × (l ≡ lock_a) × Rounds c counted p
Rounds-checks_grant (counts r) = (refl, refl, r)

pub Rounds-checks_release :
    {c l : ℕ} {q : Place} {p : List Action}
    → Rounds c q (checks_release l ∷ p)
    → (q ≡ counted) × (l ≡ lock_a) × Rounds c uncounted p
Rounds-checks_release (uncounts r) = (refl, refl, r)

pub Rounds-releases :
    {c d l : ℕ} {q : Place} {p : List Action}
    → Rounds c q (releases d l ∷ p)
    → (q ≡ uncounted) × (d ≡ c) × (l ≡ lock_a) × Rounds c out p
Rounds-releases (ends r) = (refl, refl, refl, r)

-- Each of the tests 2 to 5 gives its threads such rounds.
use_lock-Rounds : (c : ℕ) (p : List Action) → Rounds c out p → Rounds c out (use_lock c ++ p)
use_lock-Rounds c p r = starts (counts (uncounts (ends r)))

pub repeat-Rounds : (c n : ℕ) → Rounds c out (repeat n (use_lock c))
repeat-Rounds c zero = ended
repeat-Rounds c (suc n) = use_lock-Rounds c (repeat n (use_lock c)) (repeat-Rounds c n)

pub test5-Rounds : (i : ℕ) → Rounds (if ltb i 5 then 0 else 1) out (test5 i)
unfolding test5
test5-Rounds i = repeat-Rounds (if ltb i 5 then 0 else 1) 10
