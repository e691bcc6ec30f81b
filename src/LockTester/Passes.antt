-- ===== src/LockTester/Passes.antt =====
-- The checks of the tests 2 to 5 never fail, in any interleaving of their threads.
use mit6_824_2012spring_yfs.Prelude.{
  ℕ, ◌+◌, ◌-◌, ◌≡◌, ◌⊎◌, inl, inr, refl, sym, ◌∙◌, ap, subst, true, none, some, List, [], ◌∷◌, ◌==◌,
  if◌then◌else◌, arith, Bool-cases, ==_iff,
}
use mit6_824_2012spring_yfs.LockServer.Refines.{holder, Step-Spec}
use mit6_824_2012spring_yfs.LockServer.System
use mit6_824_2012spring_yfs.LockServer.System.{granted, released, silent}
use mit6_824_2012spring_yfs.LockTester.{
  Counts, check_grant, check_release, Action, acquires, checks_grant, checks_release, releases,
  lock_a,
}
use mit6_824_2012spring_yfs.LockTester.Rounds.{
  Place, out, held, counted, uncounted, has_lock, Rounds, Rounds-acquires, Rounds-checks_grant,
  Rounds-checks_release, Rounds-releases,
}
use mit6_824_2012spring_yfs.LockTester.System.{
  Test, set_todo, Step, acquired, grant_checked, release_checked, heard, unheard, inside, init,
  Reach, start, later,
}

-- At most one thread has the lock, for the client that holds it, and the count is that of the
-- threads between the two checks.
record Orderly (id : ℕ → ℕ) (client : ℕ → ℕ) (s : Test) : Type 0 where
  place : ℕ → Place
  on : (i : ℕ) → Rounds (client i) (place i) (s.todo i)
  alone : (i j : ℕ) → has_lock (place i) ≡ true → has_lock (place j) ≡ true → i ≡ j
  owns : (i : ℕ) → has_lock (place i) ≡ true → holder s.server.server lock_a ≡ some (id (client i))
  count : (s.ct lock_a ≡ 0) ⊎ ((i : ℕ) × (place i ≡ counted))
  one : (i : ℕ) → place i ≡ counted → s.ct lock_a ≡ 1

abbrev put : (ℕ → Place) → ℕ → Place → ℕ → Place
put place i q j = if j == i then q else place j

Rounds-put :
    (client : ℕ → ℕ) (place : ℕ → Place) (todo : ℕ → List Action) (i : ℕ) (q : Place)
    (p : List Action)
    → ((j : ℕ) → Rounds (client j) (place j) (todo j))
    → Rounds (client i) q p
    → (j : ℕ) → Rounds (client j) (put place i q j) (set_todo todo i p j)
Rounds-put client place todo i q p v r j = elim (Bool-cases (j == i)) [
  | inl e ↦ simp e (subst (λ k. Rounds (client k) q p) (sym ((==_iff j i).0 e)) r)
  | inr e ↦ simp e (v j)
]

counts_same : {f g : Counts} → some f ≡ some g → f ≡ g
counts_same e = cc

no_counts : {f : Counts} → none ≡ some f → ⊥
no_counts e = cc

check_grant_lem :
    (l : ℕ) (ct ct' : Counts)
    → l ≡ lock_a
    → check_grant l ct ≡ some ct'
    → (ct lock_a ≡ 0) × (ct' lock_a ≡ 1)
unfolding check_grant
check_grant_lem l ct ct' y e =
    let e' : check_grant lock_a ct ≡ some ct' = subst (λ k. check_grant k ct ≡ some ct') y e in
    elim (Bool-cases (ct lock_a == 0)) [
      | inl z ↦
          let k = ap (λ f. f lock_a) (counts_same (simp z at e')) in
          ((==_iff (ct lock_a) 0).0 z, ground (arith, k, z))
      | inr z ↦ absurd (no_counts (simp z at e'))
    ]

check_release_lem :
    (l : ℕ) (ct ct' : Counts)
    → l ≡ lock_a
    → check_release l ct ≡ some ct'
    → (ct lock_a ≡ 1) × (ct' lock_a ≡ 0)
unfolding check_release
check_release_lem l ct ct' y e =
    let e' : check_release lock_a ct ≡ some ct' = subst (λ k. check_release k ct ≡ some ct') y e in
    elim (Bool-cases (ct lock_a == 1)) [
      | inl z ↦
          let k = ap (λ f. f lock_a) (counts_same (simp z at e')) in
          ((==_iff (ct lock_a) 1).0 z, ground (arith, k, z))
      | inr z ↦ absurd (no_counts (simp z at e'))
    ]

-- A thread that has the lock gives it back, or goes on with it: the counts of the others are as
-- before.
acquired-Orderly :
    (id client : ℕ → ℕ) (s : Test) (i c l : ℕ) {p : List Action} {t : System.System}
    → s.todo i ≡ acquires c l ∷ p
    → System.Step s.server (granted (id c) l) t
    → Orderly id client s
    → Orderly id client (record s { server = t; todo = set_todo s.todo i p })
acquired-Orderly id client s i c l {p} e st v =
    let (q, k, y, r) = Rounds-acquires (subst (Rounds (client i) (v.place i)) e (v.on i)) in
    let (free, new) = Step-Spec st in
    record {
      place = put v.place i held;
      on = Rounds-put client v.place s.todo i held p v.on r;
      alone = λ j m a b. ground (arith, a, b, free, y, v.owns j, v.owns m);
      owns = λ j a. ground (arith, a, free, new lock_a, y, k, v.owns j);
      count = elim v.count [
        | inl z ↦ inl z
        | inr (m, z) ↦ absurd (ground (arith, z, free, y, v.owns m))
      ];
      one = λ j a. ground (arith, a, free, y, v.owns j);
    }

grant_checked-Orderly :
    (id client : ℕ → ℕ) (s : Test) (i l : ℕ) {p : List Action} {ct : Counts}
    → s.todo i ≡ checks_grant l ∷ p
    → check_grant l s.ct ≡ some ct
    → Orderly id client s
    → Orderly id client (record s { ct = ct; todo = set_todo s.todo i p })
grant_checked-Orderly id client s i l {p} {ct} e f v =
    let (q, y, r) = Rounds-checks_grant (subst (Rounds (client i) (v.place i)) e (v.on i)) in
    let (before, after) = check_grant_lem l s.ct ct y f in
    record {
      place = put v.place i counted;
      on = Rounds-put client v.place s.todo i counted p v.on r;
      alone = λ j m a b. v.alone j m (ground (arith, a, q)) (ground (arith, b, q));
      owns = λ j a. v.owns j (ground (arith, a, q));
      count = inr (i, ground arith);
      one = λ j a. after;
    }

release_checked-Orderly :
    (id client : ℕ → ℕ) (s : Test) (i l : ℕ) {p : List Action} {ct : Counts}
    → s.todo i ≡ checks_release l ∷ p
    → check_release l s.ct ≡ some ct
    → Orderly id client s
    → Orderly id client (record s { ct = ct; todo = set_todo s.todo i p })
release_checked-Orderly id client s i l {p} {ct} e f v =
    let (q, y, r) = Rounds-checks_release (subst (Rounds (client i) (v.place i)) e (v.on i)) in
    let (before, after) = check_release_lem l s.ct ct y f in
    record {
      place = put v.place i uncounted;
      on = Rounds-put client v.place s.todo i uncounted p v.on r;
      alone = λ j m a b. v.alone j m (ground (arith, a, q)) (ground (arith, b, q));
      owns = λ j a. v.owns j (ground (arith, a, q));
      count = inl after;
      one = λ j a. absurd (ground (arith, a, q, v.alone i j));
    }

-- The lock is given back, or the thread believes so.
leaves-Orderly :
    (id client : ℕ → ℕ) (s : Test) (i c l : ℕ) {p : List Action} (t : System.System)
    → s.todo i ≡ releases c l ∷ p
    → Orderly id client s
    → Orderly id client (record s { server = t; todo = set_todo s.todo i p })
leaves-Orderly id client s i c l {p} t e v =
    let (q, k, y, r) = Rounds-releases (subst (Rounds (client i) (v.place i)) e (v.on i)) in
    record {
      place = put v.place i out;
      on = Rounds-put client v.place s.todo i out p v.on r;
      alone = λ j m a b. v.alone j m (ground (arith, a)) (ground (arith, b));
      owns = λ j a. absurd (ground (arith, a, q, v.alone i j));
      count = elim v.count [
        | inl z ↦ inl z
        | inr (m, z) ↦ absurd (ground (arith, z, q, v.alone i m))
      ];
      one = λ j a. absurd (ground (arith, a, q, v.alone i j));
    }

Step-Orderly :
    (id client : ℕ → ℕ) {s t : Test} → Step id s t → Orderly id client s → Orderly id client t
Step-Orderly id client {s} (acquired i c l e st) v = acquired-Orderly id client s i c l e st v
Step-Orderly id client {s} (grant_checked i l e f) v = grant_checked-Orderly id client s i l e f v
Step-Orderly id client {s} (release_checked i l e f) v =
    release_checked-Orderly id client s i l e f v
Step-Orderly id client {s} (heard i c l {p} {t} e st) v = leaves-Orderly id client s i c l t e v
Step-Orderly id client {s} (unheard i c l {p} {t} e st) v = leaves-Orderly id client s i c l t e v
Step-Orderly id client {s} (inside st) v = record {
  place = v.place;
  on = v.on;
  alone = v.alone;
  owns = λ j a. Step-Spec st lock_a ∙ v.owns j a;
  count = v.count;
  one = v.one;
}

init-Orderly :
    (id client : ℕ → ℕ) (todo : ℕ → List Action)
    → ((i : ℕ) → Rounds (client i) out (todo i))
    → Orderly id client (init todo)
init-Orderly id client todo h = record {
  place = λ i. out;
  on = h;
  alone = λ i j a b. absurd (ground (arith, a));
  owns = λ i a. absurd (ground (arith, a));
  count = inl refl;
  one = λ i a. absurd (ground (arith, a));
}

Reach-Orderly :
    (id client : ℕ → ℕ) (todo : ℕ → List Action) {s : Test}
    → ((i : ℕ) → Rounds (client i) out (todo i))
    → Reach id todo s
    → Orderly id client s
Reach-Orderly id client todo h start = init-Orderly id client todo h
Reach-Orderly id client todo h (later r st) =
    Step-Orderly id client st (Reach-Orderly id client todo h r)

-- What a test may do next that could fail.
abbrev pub Checks : Counts → List Action → Type 0
Checks ct [] = Unit {0}
Checks ct (checks_grant l ∷ p) = (ct' : Counts) × (check_grant l ct ≡ some ct')
Checks ct (checks_release l ∷ p) = (ct' : Counts) × (check_release l ct ≡ some ct')
Checks ct (acquires c l ∷ p) = Unit {0}
Checks ct (releases c l ∷ p) = Unit {0}

check_passes :
    (id client : ℕ → ℕ) (s : Test) (i : ℕ) (p : List Action)
    → Orderly id client s
    → s.todo i ≡ p
    → Checks s.ct p
unfolding check_grant check_release
check_passes id client s i [] v e = tt
check_passes id client s i (acquires c l ∷ p) v e = tt
check_passes id client s i (releases c l ∷ p) v e = tt
check_passes id client s i (checks_grant l ∷ p) v e =
    let (q, y, r) = Rounds-checks_grant (subst (Rounds (client i) (v.place i)) e (v.on i)) in
    let z : (s.ct lock_a == 0) ≡ true = elim v.count [
      | inl z ↦ ground (arith, z)
      | inr (m, z) ↦ absurd (ground (arith, z, q, v.alone i m))
    ] in
    subst (λ k. (ct' : Counts) × (check_grant k s.ct ≡ some ct')) (sym y)
      (λ j. if j == lock_a then s.ct j + 1 else s.ct j, simp z refl)
check_passes id client s i (checks_release l ∷ p) v e =
    let (q, y, r) = Rounds-checks_release (subst (Rounds (client i) (v.place i)) e (v.on i)) in
    let z : (s.ct lock_a == 1) ≡ true = ground (arith, v.one i q) in
    subst (λ k. (ct' : Counts) × (check_release k s.ct ≡ some ct')) (sym y)
      (λ j. if j == lock_a then s.ct j - 1 else s.ct j, simp z refl)

-- If every thread uses the lock in rounds, for a client of its own or a shared one, as in the tests
-- 2 to 5, then in every interleaving of the threads and of the lock server no check of the tester
-- fails: the server grants the lock to one thread at a time.
pub tests_pass :
    (id client : ℕ → ℕ) (todo : ℕ → List Action) {s : Test}
    → ((i : ℕ) → Rounds (client i) out (todo i))
    → Reach id todo s
    → (i : ℕ) → Checks s.ct (s.todo i)
tests_pass id client todo {s} h r i =
    check_passes id client s i (s.todo i) (Reach-Orderly id client todo h r) refl
