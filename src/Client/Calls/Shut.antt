-- ===== src/Client/Calls/Shut.antt =====
-- What holds of the pending calls once a thread waits in rpcc::cancel.
use mit6_824_2012spring_yfs.Prelude.{
  ℕ, ◌+◌, ◌^◌, ◌≤◌, ◌<◌, ◌≡◌, ◌≢◌, ◌⊎◌, inl, inr, refl, sym, ◌∙◌, ap, ==_iff, Bool, true, false,
  Option, none, some, List, [], ◌∷◌, ◌==◌, Bool-cases, Map, Memory, arith, find, erase, length,
  subst,
}
use mit6_824_2012spring_yfs.Marshal.Headers.{ReqHeader, ReplyHeader}
use mit6_824_2012spring_yfs.Marshal.In.{Unmarshall}
use mit6_824_2012spring_yfs.Call.{code, cancel_failure}
use mit6_824_2012spring_yfs.Client.Calls.{
  Rpcc, Caller, end_call, got_pdu, begin_cancel, wait_empty, end_bind, answer_call, take_reply,
  cancel_callers, set_caller,
}
use mit6_824_2012spring_yfs.Client.Calls.System.{
  Pc, outside, calling, cancelling, System, Event, Step, begin_refused, begin, transmit, arrive,
  end, cancel, cancel_again, bound, init, Run, start, later, calls_started, AnswersSent, reply_in,
  in_cancel, set_pc,
}
use mit6_824_2012spring_yfs.Client.Calls.Counted.{
  calls_started-cons, AnswersSent-tail, begin_call_lem, in_cancel-calling, not_calling,
}
use mit6_824_2012spring_yfs.Client.Calls.Pending.{Pending, Run-Pending}
use mit6_824_2012spring_yfs.Client.Calls.Callers.{
  cancel_caller, set_caller-cases, got_pdu-callers, wait_empty-callers, answer_done,
  end_bind-callers,
}

cancel_callers-kept :
    (m : Map ℕ) (f : ℕ → Caller) (i : ℕ)
    → (f i).done ≡ true
    → (f i).intret ≡ code cancel_failure
    → ((cancel_callers m f i).done ≡ true) × ((cancel_callers m f i).intret ≡ code cancel_failure)
unfolding cancel_callers
cancel_callers-kept [] f i d r = (d, r)
cancel_callers-kept ((x, j) ∷ m) f i d r = elim (set_caller-cases j (cancel_caller (f j)) f i) [
  | inl (e, k) ↦
      cancel_callers-kept m _ i (ap (λ (z : Caller). z.done) k) (ap (λ (z : Caller). z.intret) k)
  | inr k ↦
      cancel_callers-kept m _ i (ap (λ (z : Caller). z.done) k ∙ d)
        (ap (λ (z : Caller). z.intret) k ∙ r)
]

-- `cancel` reaches every caller in the map.
cancel_callers-find :
    (m : Map ℕ) (f : ℕ → Caller) (x i : ℕ)
    → find x m ≡ some i
    → ((cancel_callers m f i).done ≡ true) × ((cancel_callers m f i).intret ≡ code cancel_failure)
unfolding cancel_callers find
cancel_callers-find [] f x i e = absurd cc
cancel_callers-find ((y, j) ∷ m) f x i e = elim (Bool-cases (y == x)) [
  | inl k ↦
      let p : j ≡ i = ground (arith, e, k) in
      let g = set_caller j (cancel_caller (f j)) f in
      let here : g j ≡ cancel_caller (f j) = simp ((==_iff j j).1 refl) refl in
      subst
        (λ z.
          ((cancel_callers m g z).done ≡ true)
          × ((cancel_callers m g z).intret ≡ code cancel_failure))
        p
        (cancel_callers-kept m g j (ap (λ (z : Caller). z.done) here)
          (ap (λ (z : Caller). z.intret) here))
  | inr k ↦ cancel_callers-find m _ x i (ground (arith, e, k))
]

-- Once a thread waits in `cancel`, every pending call is done, with the result cancel_failure.
pub record Shut (s : System) : Type 0 where
  pub finished :
      (i : ℕ) (h : ReqHeader)
      → s.client.destroy_wait ≡ true
      → s.pc i ≡ calling h
      → (s.client.callers i).done ≡ true
  pub failing :
      (i : ℕ) (h : ReqHeader)
      → s.client.destroy_wait ≡ true
      → s.pc i ≡ calling h
      → (s.client.callers i).intret ≡ code cancel_failure
  pub waiting : (i : ℕ) → s.pc i ≡ cancelling → s.client.destroy_wait ≡ true

got_pdu-done :
    (b : Memory) (n : ℕ) (s : Rpcc) (i : ℕ)
    → (s.callers i).done ≡ true
    → ((got_pdu b n s).callers i).done ≡ true
got_pdu-done b n s i d = elim (got_pdu-callers b n s i) [
  | inl c ↦ ap (λ (z : Caller). z.done) c ∙ d
  | inr (f, c) ↦
      ap (λ (z : Caller). z.done) (c ∙ answer_done (reply_in b n).0 (reply_in b n).1 _ d) ∙ d
]

-- A reply does not change the result of a caller that is done.
got_pdu-intret :
    (b : Memory) (n : ℕ) (s : Rpcc) (i : ℕ)
    → (s.callers i).done ≡ true
    → ((got_pdu b n s).callers i).intret ≡ (s.callers i).intret
got_pdu-intret b n s i d = elim (got_pdu-callers b n s i) [
  | inl c ↦ ap (λ (z : Caller). z.intret) c
  | inr (f, c) ↦
      ap (λ (z : Caller). z.intret) (c ∙ answer_done (reply_in b n).0 (reply_in b n).1 _ d)
]

answer_call-destroy_wait :
    (o : Option ℕ) (h : ReplyHeader) (u : Unmarshall) (s : Rpcc)
    → (answer_call o h u s).destroy_wait ≡ s.destroy_wait
answer_call-destroy_wait none h u s = refl
answer_call-destroy_wait (some i) h u s = refl

pub got_pdu-destroy_wait :
    (b : Memory) (n : ℕ) (s : Rpcc) → (got_pdu b n s).destroy_wait ≡ s.destroy_wait
unfolding got_pdu take_reply
got_pdu-destroy_wait b n s = elim (Bool-cases (reply_in b n).1.is_ok) [
  | inl e ↦ simp (e, answer_call-destroy_wait) refl
  | inr e ↦ simp e refl
]

pub end_bind-destroy_wait :
    (ret r : ℕ) (s : Rpcc) → (end_bind ret r s).1.destroy_wait ≡ s.destroy_wait
unfolding end_bind
end_bind-destroy_wait ret r s = ground arith

-- The second loop of `cancel` leaves the flag as it is, or waits with it set.
pub wait_empty-lem :
    (s : Rpcc)
    → ((s.calls ≡ []) × (wait_empty s ≡ (false, s)))
      ⊎ ((s.calls ≢ []) × ((wait_empty s).0 ≡ true) × ((wait_empty s).1.destroy_wait ≡ true))
unfolding wait_empty
wait_empty-lem s = ground arith

in_cancel-cancelling : (b : Bool) → in_cancel b ≡ cancelling → b ≡ true
in_cancel-cancelling true e = refl
in_cancel-cancelling false e = absurd cc

-- Where a thread that went into `cancel`, or back to its wait, stands.
set_pc-cancelling :
    (pc : ℕ → Pc) (i : ℕ) (b : Bool) (j : ℕ)
    → set_pc pc i (in_cancel b) j ≡ cancelling
    → (pc j ≡ cancelling) ⊎ (b ≡ true)
set_pc-cancelling pc i b j e = elim (Bool-cases (j == i)) [
  | inl k ↦ inr (in_cancel-cancelling b (ground (arith, e, k)))
  | inr k ↦ inl (ground (arith, e, k))
]

pub wait_empty-shut :
    (s : Rpcc)
    → (s.destroy_wait ≡ true) ⊎ ((wait_empty s).0 ≡ true)
    → (wait_empty s).1.destroy_wait ≡ true
unfolding wait_empty
wait_empty-shut s h = ground (arith, h)

pub begin_cancel-done :
    (s : Rpcc) (x i : ℕ)
    → find x s.calls ≡ some i
    → (((begin_cancel s).1.callers i).done ≡ true)
      × (((begin_cancel s).1.callers i).intret ≡ code cancel_failure)
unfolding begin_cancel
begin_cancel-done s x i f =
    rw (wait_empty-callers (record s { callers = cancel_callers s.calls s.callers }))
      (cancel_callers-find s.calls s.callers x i f)

pub begin_cancel-shut :
    (s : Rpcc)
    → (s.destroy_wait ≡ true) ⊎ ((begin_cancel s).0 ≡ true)
    → (begin_cancel s).1.destroy_wait ≡ true
unfolding begin_cancel
begin_cancel-shut s h = wait_empty-shut _ h

Step-Shut : {s t : System} {e : Event} → Step s e t → Pending s → Shut s → Shut t
unfolding end_call
Step-Shut (begin_refused i proc junk u m p q) d v = v
Step-Shut {s} (begin i proc junk u m p q) d v =
    let (eh, et, ed) = begin_call_lem i proc junk u m s.client q in
    rw (et, eh)
      (record {
        finished = λ j h w e. absurd (ground (arith, w, ed));
        failing = λ j h w e. absurd (ground (arith, w, ed));
        waiting = λ j e. v.waiting j (ground (arith, e));
      })
Step-Shut (transmit i p) d v = v
Step-Shut {s} (arrive b n) d v = record {
  finished = λ i h w e.
      got_pdu-done b n s.client i (v.finished i h (sym (got_pdu-destroy_wait b n s.client) ∙ w) e);
  failing = λ i h w e.
      (let w' = sym (got_pdu-destroy_wait b n s.client) ∙ w in
        got_pdu-intret b n s.client i (v.finished i h w' e) ∙ v.failing i h w' e);
  waiting = λ i e. got_pdu-destroy_wait b n s.client ∙ v.waiting i e;
}
Step-Shut {s} (end i p) d v = record {
  finished = λ j h w e. v.finished j h w (not_calling s.pc i outside h j (λ z. cc) e);
  failing = λ j h w e. v.failing j h w (not_calling s.pc i outside h j (λ z. cc) e);
  waiting = λ j e. v.waiting j (ground (arith, e));
}
Step-Shut {s} (cancel i p) d v = record {
  finished = λ j h w e.
      (begin_cancel-done s.client h.xid j
        (d.entry j h (not_calling s.pc i _ h j (in_cancel-calling _ h) e))).0;
  failing = λ j h w e.
      (begin_cancel-done s.client h.xid j
        (d.entry j h (not_calling s.pc i _ h j (in_cancel-calling _ h) e))).1;
  waiting = λ j e.
      begin_cancel-shut s.client
        (elim (set_pc-cancelling s.pc i _ j e) [ inl a ↦ inl (v.waiting j a) | inr a ↦ inr a ]);
}
Step-Shut {s} (cancel_again i p) d v = record {
  finished = λ j h w e.
      ap (λ f. (f j).done) (wait_empty-callers s.client)
      ∙ v.finished j h (v.waiting i p) (not_calling s.pc i _ h j (in_cancel-calling _ h) e);
  failing = λ j h w e.
      ap (λ f. (f j).intret) (wait_empty-callers s.client)
      ∙ v.failing j h (v.waiting i p) (not_calling s.pc i _ h j (in_cancel-calling _ h) e);
  waiting = λ j e. wait_empty-shut s.client (inl (v.waiting i p));
}
Step-Shut {s} (bound i ret r p) d v = record {
  finished = λ j h w e.
      ap (λ f. (f j).done) (end_bind-callers ret r s.client)
      ∙ v.finished j h (sym (end_bind-destroy_wait ret r s.client) ∙ w) e;
  failing = λ j h w e.
      ap (λ f. (f j).intret) (end_bind-callers ret r s.client)
      ∙ v.failing j h (sym (end_bind-destroy_wait ret r s.client) ∙ w) e;
  waiting = λ j e. end_bind-destroy_wait ret r s.client ∙ v.waiting j e;
}

pub Run-Shut :
    (r : Bool) (random : ℕ) (stack : ℕ → Caller) {es : List Event} {s : System}
    → Run (init r random stack) es s
    → calls_started es + 1 < 2 ^ 32
    → AnswersSent es
    → Shut s
Run-Shut r random stack start n a = record {
  finished = λ i h w e. absurd cc;
  failing = λ i h w e. absurd cc;
  waiting = λ i e. absurd cc;
}
Run-Shut r random stack (later {es} {e} w st) n a =
    let n' : calls_started es + 1 < 2 ^ 32 = omega (arith, n, calls_started-cons e es) in
    let a' = AnswersSent-tail e es a in
    Step-Shut st (Run-Pending r random stack w n' a') (Run-Shut r random stack w n' a')

pub erase-length : (k : ℕ) (m : Map ℕ) → length (erase k m) ≤ length m
unfolding erase
erase-length k [] = omega arith
erase-length k ((j, v) ∷ m) = ground (arith, erase-length k m)

pub erase-length_less :
    (k i : ℕ) (m : Map ℕ) → find k m ≡ some i → length (erase k m) + 1 ≤ length m
unfolding erase find
erase-length_less k i [] e = absurd cc
erase-length_less k i ((j, v) ∷ m) e = ground (arith, e, erase-length k m, erase-length_less k i m)
