-- ===== src/Client/Deadlines/Timely.antt =====
-- A call gives up no earlier than its final deadline.
use mit6_824_2012spring_yfs.Prelude.{
  some_same, ℕ, zero, suc, ◌*◌, ◌^◌, ◌<◌, ◌≤◌, ◌≡◌, ◌≢◌, ◌⊎◌, inl, inr, refl, Bool, true, false,
  some, List, [], ◌∷◌, All, ◌==◌, ap, sym, subst, ◌∙◌, arith, Bool-cases, if◌then◌else◌,
}
use mit6_824_2012spring_yfs.Timespec.{Timespec, cmp_timespec, add_timespec, nanos, IsNormal}
use mit6_824_2012spring_yfs.Timespec.Sum.{add_timespec_exact}
use mit6_824_2012spring_yfs.Client.Deadlines.{
  Round, Waiting, to_min, new_waiting, is_above, next_deadline, Ended, wait_loop,
}
use mit6_824_2012spring_yfs.Client.Deadlines.Bounds.{
  is_above_lem, after_round, final, loop_waits, waited_cases, IsSound, wait_loop_ends, loop_last,
  loop_replied, loop_rest,
}

module _ (m : ℕ) (retrans : Bool) (start : Timespec) (to : ℕ) where
  -- The deadlines so far are not past the final one, and the latest is the final one if it has been
  -- reached.
  record Kept (ds : List Timespec) (w : Waiting) : Type 0 where
    below : All (λ d. nanos d ≤ nanos (final m retrans start to)) ds
    mode :
        (w.finaldeadline ≡ (final m retrans start to))
        ⊎ ((w.finaldeadline.sec ≡ 0)
            × ((past : List Timespec) × (ds ≡ (final m retrans start to) ∷ past)))

  Kept-round :
      (r : Round) (ds : List Timespec) (w : Waiting)
      → w.finaldeadline ≡ (final m retrans start to)
      → Kept ds w
      → Kept ((next_deadline r.now w).0 ∷ ds) ((after_round m retrans start to) r w)
  unfolding next_deadline
  Kept-round r ds w f v =
      elim (Bool-cases (is_above (cmp_timespec (add_timespec r.now w.curr_to) w.finaldeadline))) [
        | inl e ↦ simp e (record {
          below = (rw f (omega arith), v.below);
          mode = inr (refl, (ds, ap (λ d. d ∷ ds) f));
        })
        | inr e ↦ simp e (record {
          below = (
            (is_above_lem (add_timespec r.now w.curr_to) (final m retrans start to)
                  (add_timespec_exact r.now w.curr_to).1 (add_timespec_exact start to).1).0
                (subst (λ z. is_above (cmp_timespec (add_timespec r.now w.curr_to) z) ≡ false) f e),
            v.below,
          );
          mode = inl f;
        })
      ]

  -- What the loop says when it ends.
  abbrev IsTimely : Ended → Type 0
  IsTimely e =
      All (λ d. nanos d ≤ nanos (final m retrans start to)) e.deadlines
      × ((e.replied ≡ true)
          ⊎ ((past : List Timespec) × (e.deadlines ≡ (final m retrans start to) ∷ past)))

  no_fuel :
      (env : ℕ → Round) (n : ℕ) (ds : List Timespec) (w : Waiting) (e : Ended)
      → wait_loop zero m retrans env n ds w ≡ some e
      → ⊥
  unfolding wait_loop
  no_fuel env n ds w e q = cc

  loop-IsTimely :
      (fuel : ℕ) (env : ℕ → Round) (n : ℕ) (ds : List Timespec) (w : Waiting) (e : Ended)
      → (final m retrans start to).sec ≢ 0
      → Kept ds w
      → wait_loop fuel m retrans env n ds w ≡ some e
      → IsTimely e
  loop-IsTimely zero env n ds w e nz v q = absurd (no_fuel env n ds w e q)
  loop-IsTimely (suc fuel) env n ds w e nz v q = elim v.mode [
    | inr (z, (past, p)) ↦
        subst IsTimely (some_same (sym ((loop_last m retrans start to) fuel env n ds w z) ∙ q))
          (v.below, inr (past, p))
    | inl f ↦
        let z : (w.finaldeadline.sec == 0) ≡ false = rw f (ground (arith, nz)) in
        let k = Kept-round (env 0) ds w f v in
        elim (waited_cases m retrans start to (env 0) w
          (loop_waits m retrans start to fuel env n ds w e z q)) [
            | inl r ↦
                subst IsTimely
                  (some_same (sym ((loop_replied m retrans start to) fuel env n ds w z r) ∙ q))
                  (k.below, inl refl)
            | inr r ↦
                loop-IsTimely fuel (λ i. env (suc i)) (if w.transmit then suc n else n)
                  ((next_deadline (env 0).now w).0 ∷ ds)
                  ((after_round m retrans start to) (env 0) w) e nz k
                  (sym ((loop_rest m retrans start to) fuel env n ds w z r) ∙ q)
          ]
  ]

  -- A call ends, and no deadline that it waits for is later than its final one, the start plus the
  -- timeout; without a reply it has waited for that one. The conditions are those of wait_loop_ends,
  -- and that the final deadline is not within the first second of 1970, which the code takes for a
  -- deadline that has been used.
  pub wait_loop_timely :
      (k : ℕ) (env : ℕ → Round)
      → ((i : ℕ) → IsSound m start (env i))
      → IsNormal (add_timespec start to)
      → to < to_min * 2 ^ k
      → (add_timespec start to).sec ≢ 0
      → (e : Ended) × (wait_loop (suc (suc k)) m retrans env 0 [] (new_waiting start to) ≡ some e)
        × All (λ d. nanos d ≤ nanos (add_timespec start to)) e.deadlines
        × ((e.replied ≡ true)
            ⊎ ((past : List Timespec) × (e.deadlines ≡ add_timespec start to ∷ past)))
  wait_loop_timely k env c b h nz =
      let (e, q, _) = wait_loop_ends m retrans start to k env c b h in
      let (x, y) =
        loop-IsTimely (suc (suc k)) env 0 [] (new_waiting start to) e nz
          (record { below = tt; mode = inl refl }) q in
      (e, q, x, y)
