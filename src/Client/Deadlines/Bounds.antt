-- ===== src/Client/Deadlines/Bounds.antt =====
-- The loop of call1 ends.
use native.Mathlib.Nat.{pow-succ', mul_assoc}
use mit6_824_2012spring_yfs.Prelude.{
  ℕ, zero, suc, ◌+◌, ◌*◌, ◌%◌, ◌^◌, ◌≤◌, ◌<◌, ◌≡◌, ◌⊎◌, inl, inr, refl, Bool, true, false, ◌&&◌,
  Option, some, List, [], ◌∷◌, ◌==◌, ap, sym, ◌∙◌, arith, Bool-cases, bind-some, ==_iff,
  if◌then◌else◌,
}
use mit6_824_2012spring_yfs.Timespec.{
  Timespec, cmp_timespec, add_timespec, nanos, billion, IsNormal,
}
use mit6_824_2012spring_yfs.Timespec.Sum.{add_timespec_exact, add_timespec-IsNormal}
use mit6_824_2012spring_yfs.Client.Deadlines.{
  Woke, notified, timed_out, invalid, Round, wait_done, Waiting, to_min, new_waiting, is_above,
  next_deadline, Ended, wait_loop,
}

-- The test of line 243 compares the times, also where a full second is left in the nanoseconds.
pub is_above_lem :
    (a b : Timespec)
    → a.nsec ≤ billion
    → b.nsec ≤ billion
    → (is_above (cmp_timespec a b) ≡ false → nanos a ≤ nanos b)
      × (nanos b < nanos a → is_above (cmp_timespec a b) ≡ true)
unfolding cmp_timespec
is_above_lem a b x y = (λ e. ground (arith, e), λ l. ground arith)

doubled : (c k : ℕ) → c * 2 ^ suc k ≡ c * 2 * 2 ^ k
doubled c k = ap (λ p. c * p) (pow-succ' 2 k) ∙ sym (mul_assoc c 2 (2 ^ k))

-- pthread_cond_timedwait comes to its deadline, if the deadline is valid, and returns ETIMEDOUT among
-- the first `m` times.
abbrev pub is_timeout : Woke → Bool
is_timeout (notified d) = false
is_timeout (timed_out d) = true
is_timeout (invalid d) = false

abbrev pub TimesOut : ℕ → Round → Type 0
TimesOut m r =
    (deadline : Timespec)
    → IsNormal deadline
    → (j : ℕ) × (j < m) × (is_timeout (r.waits deadline j) ≡ true)

-- The clock is not before the start of the call.
pub record IsSound (m : ℕ) (start : Timespec) (r : Round) : Type 0 where
  pub later : nanos start ≤ nanos r.now
  pub normal : IsNormal r.now
  pub times_out : TimesOut m r

first_ends :
    (m : ℕ) (waits : ℕ → Woke) (x : Woke)
    → waits 0 ≡ x
    → is_timeout (waits 0) ≡ true
    → (b : Bool) × (wait_done (suc m) waits false ≡ some b)
unfolding wait_done
first_ends m waits (timed_out d) e t = (d, rw (wait_done, e) refl)
first_ends m waits (notified d) e t = absurd (let y = sym (ap is_timeout e) ∙ t in cc)
first_ends m waits (invalid d) e t = absurd (let y = sym (ap is_timeout e) ∙ t in cc)

later_ends :
    (m : ℕ) (waits : ℕ → Woke) (x : Woke)
    → waits 0 ≡ x
    → ((d : Bool) → (b : Bool) × (wait_done m (λ k. waits (suc k)) d ≡ some b))
    → (b : Bool) × (wait_done (suc m) waits false ≡ some b)
unfolding wait_done
later_ends m waits (timed_out d) e h = (d, rw (wait_done, e) refl)
later_ends m waits (notified d) e h = ((h d).0, rw (wait_done, e) ((h d).1))
later_ends m waits (invalid d) e h = ((h d).0, rw (wait_done, e) ((h d).1))

wait_ends :
    (m : ℕ) (waits : ℕ → Woke) (done : Bool) (j : ℕ)
    → j < m
    → is_timeout (waits j) ≡ true
    → (b : Bool) × (wait_done m waits done ≡ some b)
unfolding wait_done
wait_ends zero waits done j l t = absurd (omega (arith, l))
wait_ends (suc m) waits true j l t = (true, refl)
wait_ends (suc m) waits false zero l t = first_ends m waits (waits 0) refl t
wait_ends (suc m) waits false (suc j) l t =
    later_ends m waits (waits 0) refl
      (λ d. wait_ends m (λ k. waits (suc k)) d j (omega (arith, l)) t)

module _ (m : ℕ) (retrans : Bool) (start : Timespec) (to : ℕ) where
  abbrev pub final : Timespec
  final = add_timespec start to

  -- From the round on in which curr_to exceeds the timeout, the deadline is the final one.
  pub next_above :
      (now : Timespec) (w : Waiting)
      → nanos start ≤ nanos now
      → to < w.curr_to
      → w.finaldeadline ≡ final
      → is_above (cmp_timespec (add_timespec now w.curr_to) w.finaldeadline) ≡ true
  next_above now w l c e =
      let (x, y) = add_timespec_exact now w.curr_to in
      let (x', y') = add_timespec_exact start to in
      rw e ((is_above_lem (add_timespec now w.curr_to) final y y').1 (omega arith))

  -- What the wait of a round answers.
  abbrev pub waited : Round → Waiting → Option Bool
  waited r w = wait_done m (r.waits (next_deadline r.now w).0) r.done

  -- What is left of the loop after a round in which no reply came.
  abbrev rest : ℕ → (ℕ → Round) → ℕ → List Timespec → Waiting → Option Ended
  rest fuel env n ds w =
      let (deadline, left) = next_deadline (env zero).now w in
      wait_loop fuel m retrans (λ k. env (suc k)) (if w.transmit then suc n else n) (deadline ∷ ds)
        (record {
          curr_to = w.curr_to * 2;
          finaldeadline = left;
          transmit = retrans && (env zero).dead;
        })

  pub loop_last :
      (fuel : ℕ) (env : ℕ → Round) (n : ℕ) (ds : List Timespec) (w : Waiting)
      → w.finaldeadline.sec ≡ 0
      → wait_loop (suc fuel) m retrans env n ds w
        ≡ some (record { replied = false; sends = if w.transmit then suc n else n; deadlines = ds })
  unfolding wait_loop
  loop_last fuel env n ds w z = simp z refl

  pub loop_waits :
      (fuel : ℕ) (env : ℕ → Round) (n : ℕ) (ds : List Timespec) (w : Waiting) (e : Ended)
      → (w.finaldeadline.sec == 0) ≡ false
      → wait_loop (suc fuel) m retrans env n ds w ≡ some e
      → (b : Bool) × (waited (env 0) w ≡ some b)
  unfolding wait_loop
  loop_waits fuel env n ds w e z q =
      let (b, r, x) = bind-some (waited (env 0) w) _ e (simp z at q) in (b, r)

  pub loop_replied :
      (fuel : ℕ) (env : ℕ → Round) (n : ℕ) (ds : List Timespec) (w : Waiting)
      → (w.finaldeadline.sec == 0) ≡ false
      → waited (env 0) w ≡ some true
      → wait_loop (suc fuel) m retrans env n ds w
        ≡ some (record {
          replied = true;
          sends = if w.transmit then suc n else n;
          deadlines = (next_deadline (env 0).now w).0 ∷ ds;
        })
  unfolding wait_loop
  loop_replied fuel env n ds w z r = simp (z, r) refl

  pub loop_rest :
      (fuel : ℕ) (env : ℕ → Round) (n : ℕ) (ds : List Timespec) (w : Waiting)
      → (w.finaldeadline.sec == 0) ≡ false
      → waited (env 0) w ≡ some false
      → wait_loop (suc fuel) m retrans env n ds w ≡ rest fuel env n ds w
  unfolding wait_loop
  loop_rest fuel env n ds w z r = simp (z, r) refl

  next_left :
      (now : Timespec) (w : Waiting)
      → ((next_deadline now w).1 ≡ w.finaldeadline) ⊎ ((next_deadline now w).1.sec ≡ 0)
  unfolding next_deadline
  next_left now w =
      elim (Bool-cases (is_above (cmp_timespec (add_timespec now w.curr_to) w.finaldeadline))) [
        | inl e ↦ inr (simp e refl)
        | inr e ↦ inl (simp e refl)
      ]

  next_over :
      (now : Timespec) (w : Waiting)
      → nanos start ≤ nanos now
      → to < w.curr_to
      → w.finaldeadline ≡ final
      → (next_deadline now w).1.sec ≡ 0
  unfolding next_deadline
  next_over now w l c e = simp (next_above now w l c e) refl

  -- The variables after a round in which no reply came.
  abbrev pub after_round : Round → Waiting → Waiting
  after_round r w = record {
    curr_to = w.curr_to * 2;
    finaldeadline = (next_deadline r.now w).1;
    transmit = retrans && r.dead;
  }

  abbrev IsOver : ℕ → ℕ → Option Ended → Type 0
  IsOver n k o = (e : Ended) × (o ≡ some e) × (e.sends ≤ n + k + 2)

  pub waited_cases :
      (r : Round) (w : Waiting)
      → (b : Bool) × (waited r w ≡ some b)
      → (waited r w ≡ some true) ⊎ (waited r w ≡ some false)
  waited_cases r w (true, e) = inl e
  waited_cases r w (false, e) = inr e

  -- A round has a valid deadline, so that its wait ends.
  next-IsNormal :
      (now : Timespec) (w : Waiting)
      → IsNormal now
      → IsNormal final
      → w.curr_to % 1000 ≡ 0
      → w.finaldeadline ≡ final
      → IsNormal (next_deadline now w).0
  unfolding next_deadline
  next-IsNormal now w a b c f =
      elim (Bool-cases (is_above (cmp_timespec (add_timespec now w.curr_to) w.finaldeadline))) [
        | inl e ↦ simp e (rw f b)
        | inr e ↦ simp e ((add_timespec-IsNormal now w.curr_to a).1 (omega (arith, a, c)))
      ]

  waited_ends :
      (r : Round) (w : Waiting)
      → IsSound m start r
      → IsNormal final
      → w.curr_to % 1000 ≡ 0
      → w.finaldeadline ≡ final
      → (b : Bool) × (waited r w ≡ some b)
  waited_ends r w v b c f =
      let (j, l, t) =
        v.times_out (next_deadline r.now w).0 (next-IsNormal r.now w v.normal b c f) in
      wait_ends m (r.waits (next_deadline r.now w).0) r.done j l t

  -- The loop ends in its next round or two, or goes on.
  first_round :
      (k : ℕ) (env : ℕ → Round) (n : ℕ) (ds : List Timespec) (w : Waiting)
      → (w.finaldeadline ≡ final) ⊎ (w.finaldeadline.sec ≡ 0)
      → (w.finaldeadline ≡ final → (b : Bool) × (waited (env 0) w ≡ some b))
      → IsOver n k (wait_loop (suc (suc k)) m retrans env n ds w)
        ⊎ ((w.finaldeadline ≡ final)
            × (wait_loop (suc (suc k)) m retrans env n ds w ≡ rest (suc k) env n ds w))
  first_round k env n ds w (inr z) q = inl (_, loop_last (suc k) env n ds w z, ground arith)
  first_round k env n ds w (inl f) q = elim (Bool-cases (w.finaldeadline.sec == 0)) [
    | inl z ↦ inl (_, loop_last (suc k) env n ds w ((==_iff _ 0).0 z), ground arith)
    | inr z ↦ elim (waited_cases (env 0) w (q f)) [
      | inl r ↦ inl (_, loop_replied (suc k) env n ds w z r, ground arith)
      | inr r ↦ inr (f, loop_rest (suc k) env n ds w z r)
    ]
  ]

  loop-IsOver :
      (k : ℕ) (env : ℕ → Round) (n : ℕ) (ds : List Timespec) (w : Waiting)
      → ((i : ℕ) → IsSound m start (env i))
      → IsNormal final
      → w.curr_to % 1000 ≡ 0
      → to < w.curr_to * 2 ^ k
      → (w.finaldeadline ≡ final) ⊎ (w.finaldeadline.sec ≡ 0)
      → IsOver n k (wait_loop (suc (suc k)) m retrans env n ds w)
  loop-IsOver zero env n ds w c b x h o =
      elim (first_round 0 env n ds w o (waited_ends (env 0) w (c 0) b x)) [
        | inl e ↦ e
        | inr (f, q) ↦
            let l = next_over (env 0).now w (c 0).later (omega (arith, h)) f in
            (_, q ∙ loop_last 0 (λ i. env (suc i)) _ _ (after_round (env 0) w) l, ground arith)
      ]
  loop-IsOver (suc k) env n ds w c b x h o =
      elim (first_round (suc k) env n ds w o (waited_ends (env 0) w (c 0) b x)) [
        | inl e ↦ e
        | inr (f, q) ↦
            let (e, p, s) =
              loop-IsOver k (λ i. env (suc i)) (if w.transmit then suc n else n)
                ((next_deadline (env 0).now w).0 ∷ ds) (after_round (env 0) w) (λ i. c (suc i)) b
                (omega (arith, x)) (rw (← doubled w.curr_to k) h)
                (elim (next_left (env 0).now w) [ inl g ↦ inl (g ∙ f) | inr g ↦ inr g ]) in
            (e, q ∙ p, ground (arith, s))
      ]

  -- The loop of call1 ends: if the timeout is below 2^k seconds, at most k + 2 rounds are needed, with
  -- at most `m` waits each, whether replies come or channels die, and it tries to send the request at
  -- most k + 2 times. The conditions are that the clock gives normal times that do not fall behind
  -- the start of the call, that the final deadline is normal too, so that pthread_cond_timedwait does
  -- not refuse it, and that for a normal deadline pthread_cond_timedwait returns ETIMEDOUT among its
  -- first `m` answers.
  pub wait_loop_ends :
      (k : ℕ) (env : ℕ → Round)
      → ((i : ℕ) → IsSound m start (env i))
      → IsNormal (add_timespec start to)
      → to < to_min * 2 ^ k
      → (e : Ended) × (wait_loop (suc (suc k)) m retrans env 0 [] (new_waiting start to) ≡ some e)
        × (e.sends ≤ k + 2)
  wait_loop_ends k env c b h =
      let (e, p, s) =
        loop-IsOver k env 0 [] (new_waiting start to) c b (omega arith) h (inl refl) in
      (e, p, omega (arith, s))
