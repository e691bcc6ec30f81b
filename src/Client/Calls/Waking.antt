-- ===== src/Client/Calls/Waking.antt =====
-- The wait of rpcc::cancel on destroy_wait_c_ (rpc/rpc.cc lines 181-184), which call1 signals (lines
-- 281-283): the steps of System with the threads that are awake in `cancel`.
--
-- One thread at a time cancels: the code signals one thread only, so that a second one would be left
-- to sleep.
use mit6_824_2012spring_yfs.Prelude.{
  ℕ, ◌+◌, ◌*◌, ◌^◌, ◌≤◌, ◌<◌, ◌≡◌, ◌≢◌, ◌⊎◌, inl, inr, refl, sym, ◌∙◌, ap, Bool, true, false, List,
  [], ◌∷◌, ◌==◌, if◌then◌else◌, Bool-cases, ==_iff, arith, length,
}
use mit6_824_2012spring_yfs.Marshal.Headers.{ReqHeader}
use mit6_824_2012spring_yfs.Client.Calls.{Rpcc, Caller, end_call, begin_cancel, wait_empty}
use mit6_824_2012spring_yfs.Client.Calls.System.{
  Pc, outside, calling, cancelling, System, Event, returned, cancelled, quiet, Step, begin_refused,
  begin, transmit, arrive, end, cancel, cancel_again, bound, init, Run, start, later, calls_started,
  AnswersSent, in_cancel, set_pc,
}
use mit6_824_2012spring_yfs.Client.Calls.Counted.{
  Run-Counted, begin_call_lem, calls_started-cons, AnswersSent-tail,
}
use mit6_824_2012spring_yfs.Client.Calls.Pending.{
  Run-Pending, got_pdu-calls, wait_empty-calls, end_bind-calls,
}
use mit6_824_2012spring_yfs.Client.Calls.Shut.{Shut, Run-Shut, wait_empty-lem}
use mit6_824_2012spring_yfs.Client.Calls.Cancelling.{return_count, Step-shrinks, first_done}

-- What the threads outside of `cancel` do besides returning from call1.
abbrev pub IsOther : {s t : System} {e : Event} → Step s e t → Type 0
IsOther (begin_refused i proc junk u m p q) = Unit {0}
IsOther (begin i proc junk u m p q) = Unit {0}
IsOther (transmit i p) = Unit {0}
IsOther (arrive b n) = Unit {0}
IsOther (end i p) = ⊥
IsOther (cancel i p) = ⊥
IsOther (cancel_again i p) = ⊥
IsOther (bound i ret r p) = Unit {0}

abbrev pub set_awake : (ℕ → Bool) → ℕ → Bool → ℕ → Bool
set_awake a i b j = if j == i then b else a j

-- pthread_cond_signal wakes thread `k`.
abbrev pub signal : Bool → ℕ → (ℕ → Bool) → ℕ → Bool
signal b k a = if b then set_awake a k true else a

-- Who waits in `cancel` goes on only when it is awake.
pub data Turn (s : System) (a : ℕ → Bool) : Event → System → (ℕ → Bool) → Type 0 where
  other : {e : Event} {t : System} (st : Step s e t) → IsOther st → Turn s a e t a
  -- A call returns; if any thread sleeps, then `k` does.
  ends :
      (i k : ℕ) {h : ReqHeader}
      → s.pc i ≡ calling h
      → ((j : ℕ) → s.pc j ≡ cancelling → s.pc k ≡ cancelling)
      → Turn s a
          (returned (s.client.callers i).xid (end_call i s.client).0 (s.client.callers i).un)
          (record { client = (end_call i s.client).2; pc = set_pc s.pc i outside })
          (signal (end_call i s.client).1 k a)
  cancels :
      (i : ℕ)
      → s.pc i ≡ outside
      → ((j : ℕ) → s.pc j ≢ cancelling)
      → Turn s a cancelled
          (record {
            client = (begin_cancel s.client).1;
            pc = set_pc s.pc i (in_cancel (begin_cancel s.client).0);
          })
          (set_awake a i false)
  goes_on :
      (i : ℕ)
      → s.pc i ≡ cancelling
      → a i ≡ true
      → Turn s a quiet
          (record {
            client = (wait_empty s.client).1;
            pc = set_pc s.pc i (in_cancel (wait_empty s.client).0);
          })
          (set_awake a i false)

-- A run from a state in which all threads are outside of `cancel`; a spurious wake-up is no event.
pub data Turns (s : System) : List Event → System → (ℕ → Bool) → Type 0 where
  begins : Turns s [] s (λ _. false)
  then_turn :
      {es : List Event} {e : Event} {t u : System} {a b : ℕ → Bool}
      → Turns s es t a
      → Turn t a e u b
      → Turns s (e ∷ es) u b
  spurious :
      (i : ℕ) {es : List Event} {t : System} {a : ℕ → Bool}
      → Turns s es t a
      → t.pc i ≡ cancelling
      → Turns s es t (set_awake a i true)

Turn-Step :
    {s : System} {a : ℕ → Bool} {e : Event} {t : System} {b : ℕ → Bool}
    → Turn s a e t b
    → Step s e t
Turn-Step (other st x) = st
Turn-Step (ends i k p q) = end i p
Turn-Step (cancels i p q) = cancel i p
Turn-Step (goes_on i p q) = cancel_again i p

Turns-Run : {s : System} {es : List Event} {t : System} {a : ℕ → Bool} → Turns s es t a → Run s es t
Turns-Run begins = start
Turns-Run (then_turn r x) = later (Turns-Run r) (Turn-Step x)
Turns-Run (spurious i r p) = Turns-Run r

-- Who sleeps in `cancel` has a pending call to wait for, and only one thread is there.
record Watched (s : System) (a : ℕ → Bool) : Type 0 where
  pending : (i : ℕ) → s.pc i ≡ cancelling → a i ≡ false → s.client.calls ≢ []
  single : (i j : ℕ) → s.pc i ≡ cancelling → s.pc j ≡ cancelling → i ≡ j

-- Steps that leave the pending calls and the threads in `cancel` as they are.
Watched-keep :
    {s t : System} (a : ℕ → Bool)
    → t.client.calls ≡ s.client.calls
    → ((i : ℕ) → t.pc i ≡ cancelling → s.pc i ≡ cancelling)
    → Watched s a
    → Watched t a
Watched-keep a e k v = record {
  pending = λ i p n. rw e (v.pending i (k i p) n);
  single = λ i j p q. v.single i j (k i p) (k j q);
}

set_pc_calling :
    (pc : ℕ → Pc) (i : ℕ) (h : ReqHeader) (j : ℕ)
    → set_pc pc i (calling h) j ≡ cancelling
    → pc j ≡ cancelling
set_pc_calling pc i h j e = ground (arith, e)

set_pc_outside : (pc : ℕ → Pc) (i j : ℕ) → set_pc pc i outside j ≡ cancelling → pc j ≡ cancelling
set_pc_outside pc i j e = ground (arith, e)

other-Watched :
    {s : System} {e : Event} {t : System} (a : ℕ → Bool) (st : Step s e t)
    → IsOther st
    → Shut s
    → Watched s a
    → Watched t a
other-Watched a (begin_refused i proc junk u m p q) x h v = v
other-Watched {s} a (begin i proc junk u m p q) x h v = record {
  pending = λ j y n. absurd (
      ground (
        arith,
        h.waiting j (set_pc_calling s.pc i _ j y),
        (begin_call_lem i proc junk u m s.client q).2,
      ));
  single = λ j k y z. v.single j k (set_pc_calling s.pc i _ j y) (set_pc_calling s.pc i _ k z);
}
other-Watched a (transmit i p) x h v = v
other-Watched {s} a (arrive b n) x h v = Watched-keep a (got_pdu-calls b n s.client) (λ i p. p) v
other-Watched a (end i p) x h v = absurd x
other-Watched a (cancel i p) x h v = absurd x
other-Watched a (cancel_again i p) x h v = absurd x
other-Watched {s} a (bound i ret r p) x h v =
    Watched-keep a (end_bind-calls ret r s.client) (λ i p. p) v

-- Whoever waits in `cancel` has a pending call to wait for.
wait_empty-nonempty : (s : Rpcc) → (wait_empty s).0 ≡ true → (wait_empty s).1.calls ≢ []
wait_empty-nonempty s e n = elim (wait_empty-lem s) [
  | inl (c, k) ↦ (let x = sym (ap (λ z. z.0) k) ∙ e in cc)
  | inr (c, k, q) ↦ c (sym (wait_empty-calls s) ∙ n)
]

begin_cancel-nonempty : (s : Rpcc) → (begin_cancel s).0 ≡ true → (begin_cancel s).1.calls ≢ []
unfolding begin_cancel
begin_cancel-nonempty s e n = wait_empty-nonempty _ e n

in_cancel_cases :
    (pc : ℕ → Pc) (i : ℕ) (b : Bool) (j : ℕ)
    → set_pc pc i (in_cancel b) j ≡ cancelling
    → ((j ≡ i) × (b ≡ true)) ⊎ (pc j ≡ cancelling)
in_cancel_cases pc i true j e = ground (arith, e)
in_cancel_cases pc i false j e = inr (ground (arith, e))

in_cancel_back :
    (pc : ℕ → Pc) (i : ℕ) (b : Bool) (j : ℕ)
    → j ≡ i
    → set_pc pc i (in_cancel b) j ≡ cancelling
    → b ≡ true
in_cancel_back pc i true j k e = refl
in_cancel_back pc i false j k e = absurd (ground (arith, k, e))

rests :
    (s : System) (a : ℕ → Bool) (i : ℕ) (b : Bool) (x : Rpcc)
    → (b ≡ true → x.calls ≢ [])
    → ((j : ℕ) → s.pc j ≡ cancelling → j ≡ i)
    → Watched (record { client = x; pc = set_pc s.pc i (in_cancel b) }) (set_awake a i false)
rests s a i b x f k =
    let only : (j : ℕ) → set_pc s.pc i (in_cancel b) j ≡ cancelling → (j ≡ i) × (b ≡ true) = λ j y.
      elim (in_cancel_cases s.pc i b j y) [
        | inl z ↦ z
        | inr z ↦ (k j z, in_cancel_back s.pc i b j (k j z) y)
      ] in
    record {
      pending = λ j y n. f (only j y).1;
      single = λ j l y z. (only j y).0 ∙ sym ((only l z).0);
    }

Turn-Watched :
    {s : System} {a : ℕ → Bool} {e : Event} {t : System} {b : ℕ → Bool}
    → Turn s a e t b
    → Shut s
    → Watched s a
    → Watched t b
unfolding end_call
Turn-Watched {a = a} (other st x) h v = other-Watched a st x h v
Turn-Watched {s} {a} (ends i k p q) h v = record {
  pending = λ j y n.
      let z = set_pc_outside s.pc i j y in
      let w = h.waiting j z in let e = v.single k j (q j z) z in absurd (ground (arith, n, w, e));
  single = λ j l y z. v.single j l (set_pc_outside s.pc i j y) (set_pc_outside s.pc i l z);
}
Turn-Watched {s} {a} (cancels i p q) h v =
    rests s a i (begin_cancel s.client).0 (begin_cancel s.client).1 (begin_cancel-nonempty s.client)
      (λ j y. absurd (q j y))
Turn-Watched {s} {a} (goes_on i p q) h v =
    rests s a i (wait_empty s.client).0 (wait_empty s.client).1 (wait_empty-nonempty s.client)
      (λ j y. v.single j i y p)

Turns-Watched :
    (r : Bool) (random : ℕ) (stack : ℕ → Caller) {es : List Event} {s : System} {a : ℕ → Bool}
    → Turns (init r random stack) es s a
    → calls_started es + 1 < 2 ^ 32
    → AnswersSent es
    → Watched s a
Turns-Watched r random stack begins n x = record {
  pending = λ i p m. absurd cc;
  single = λ i j p q. absurd cc;
}
Turns-Watched r random stack (then_turn {es} {e} w st) n x =
    let n' : calls_started es + 1 < 2 ^ 32 = omega (arith, n, calls_started-cons e es) in
    let x' = AnswersSent-tail e es x in
    Turn-Watched st (Run-Shut r random stack (Turns-Run w) n' x')
      (Turns-Watched r random stack w n' x')
Turns-Watched r random stack (spurious i {a = a} w p) n x =
    let v = Turns-Watched r random stack w n x in
    record { pending = λ j y m. v.pending j y (ground (arith, m)); single = v.single }

-- How far a thread is from its return from `cancel`: the pending calls, and whether it is awake.
abbrev pub rank : ℕ → System → (ℕ → Bool) → ℕ
rank i s a = 2 * length s.client.calls + (if a i then 1 else 0)

-- A turn that lets thread `i` return from `cancel`, or brings it nearer to that.
abbrev pub Advances : ℕ → System → (ℕ → Bool) → Type 0
Advances i s a =
    (e : Event) × (t : System) × (b : ℕ → Bool) × Turn s a e t b
    × ((t.pc i ≡ outside) ⊎ (rank i t b < rank i s a))

-- A thread that is awake looks at the map again.
awake-Advances :
    (i : ℕ) (s : System) (a : ℕ → Bool) → s.pc i ≡ cancelling → a i ≡ true → Advances i s a
awake-Advances i s a p w = (
  quiet,
  _,
  set_awake a i false,
  goes_on i p w,
  elim (wait_empty-lem s.client) [
    | inl (c, k) ↦ inl (rw (ap (λ (z : Bool × Rpcc). z.0) k, (==_iff i i).1 refl) refl)
    | inr (c, k, q) ↦ inr (rw (wait_empty-calls s.client) (ground (arith, w)))
  ],
)

module _ (r : Bool) (random : ℕ) (stack : ℕ → Caller) where
  shrinks :
      {es : List Event} {s t : System} {e : Event} {a : ℕ → Bool}
      → Turns (init r random stack) es s a
      → calls_started es + 1 < 2 ^ 32
      → AnswersSent es
      → s.client.destroy_wait ≡ true
      → Step s e t
      → return_count e + length t.client.calls ≤ length s.client.calls
  shrinks {es} w n x d st =
      (Step-shrinks es st (Run-Counted r random stack (Turns-Run w) n x)
        (Run-Pending r random stack (Turns-Run w) n x) d).1

  asleep-Advances :
      {es : List Event} {s : System} {a : ℕ → Bool} (i : ℕ)
      → Turns (init r random stack) es s a
      → calls_started es + 1 < 2 ^ 32
      → AnswersSent es
      → s.pc i ≡ cancelling
      → a i ≡ false
      → Advances i s a
  asleep-Advances {es} {s} {a} i w n x p z =
      let y = Turns-Run w in
      let h = Run-Shut r random stack y n x in
      let v = Turns-Watched r random stack w n x in
      let (j, g, q, d) =
        first_done s (Run-Pending r random stack y n x) h (h.waiting i p) (v.pending i p z) in
      let l = shrinks w n x (h.waiting i p) (end j q) in
      (_, _, _, ends j i q (λ k m. p), inr (ground (arith, l, z)))

  -- While a thread waits in `cancel`, no step of any thread takes it farther from its return: no call
  -- begins, and a thread that looks at the map and sleeps again was awake before. Only a spurious
  -- wake-up, which is no step here, adds one to its distance. The conditions are those of
  -- cancel_progresses.
  pub cancel_recedes_never :
      {es : List Event} {s : System} {a : ℕ → Bool} {e : Event} {t : System} {b : ℕ → Bool} (i : ℕ)
      → Turns (init r random stack) es s a
      → calls_started es + 1 < 2 ^ 32
      → AnswersSent es
      → s.pc i ≡ cancelling
      → Turn s a e t b
      → rank i t b ≤ rank i s a
  cancel_recedes_never i w n x p (other st o) =
      let h = Run-Shut r random stack (Turns-Run w) n x in
      let l = shrinks w n x (h.waiting i p) st in omega (arith, l)
  cancel_recedes_never i w n x p (ends j k q m) =
      let h = Run-Shut r random stack (Turns-Run w) n x in
      let l = shrinks w n x (h.waiting i p) (end j q) in ground (arith, l)
  cancel_recedes_never i w n x p (cancels j q m) = absurd (m i p)
  cancel_recedes_never {s = s} {a} i w n x p (goes_on j q m) =
      rw (wait_empty-calls s.client) (ground arith)

  -- Once a thread waits in `cancel`, it will return: at every moment some thread that is awake can
  -- take a step that lets it return or brings it nearer to that, by its own look at the map or by the
  -- return of a pending call, whose signal wakes it. Its distance is twice the number of pending
  -- calls, and one if it is awake. The conditions are those of calls_return_justly, and that one
  -- thread at a time cancels.
  pub cancel_progresses :
      {es : List Event} {s : System} {a : ℕ → Bool} (i : ℕ)
      → Turns (init r random stack) es s a
      → calls_started es + 1 < 2 ^ 32
      → AnswersSent es
      → s.pc i ≡ cancelling
      → Advances i s a
  cancel_progresses {a = a} i w n x p = elim (Bool-cases (a i)) [
    | inl y ↦ awake-Advances i _ a p y
    | inr z ↦ asleep-Advances i w n x p z
  ]
