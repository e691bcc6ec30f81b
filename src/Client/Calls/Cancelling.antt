-- ===== src/Client/Calls/Cancelling.antt =====
-- What the pending calls of a client return after rpcc::cancel, and that no call begins then.
use mit6_824_2012spring_yfs.Prelude.{
  ℕ, ◌+◌, ◌^◌, ◌≤◌, ◌<◌, ◌≡◌, ◌≢◌, inl, inr, refl, ◌∙◌, Bool, true, some, List, [], ◌∷◌, ◌++◌, All,
  Map, arith, find, length,
}
use mit6_824_2012spring_yfs.Marshal.Headers.{ReqHeader}
use mit6_824_2012spring_yfs.Call.{code, cancel_failure}
use mit6_824_2012spring_yfs.Client.Calls.{Rpcc, Caller, end_call, begin_cancel, cancel_callers}
use mit6_824_2012spring_yfs.Client.Calls.System.{
  calling, System, Event, started, failed, sent, arrived, returned, cancelled, quiet, Step,
  begin_refused, begin, transmit, arrive, end, cancel, cancel_again, bound, init, Run, start, later,
  outside, set_pc, in_cancel, calls_started, AnswersSent,
}
use mit6_824_2012spring_yfs.Client.Calls.Counted.{
  Counted, Run-Counted, begin_call_lem, calls_started-cons, AnswersSent-tail,
}
use mit6_824_2012spring_yfs.Client.Calls.Pending.{
  Pending, Run-Pending, got_pdu-calls, wait_empty-calls, begin_cancel-calls, end_bind-calls,
}
use mit6_824_2012spring_yfs.Client.Calls.Shut.{
  Shut, Run-Shut, wait_empty-lem, begin_cancel-shut, got_pdu-destroy_wait, end_bind-destroy_wait,
  wait_empty-shut, erase-length_less,
}

abbrev pub return_count : Event → ℕ
return_count (returned x r u) = 1
return_count (started h) = 0
return_count (failed c) = 0
return_count (sent h) = 0
return_count (arrived h u) = 0
return_count cancelled = 0
return_count quiet = 0

pub Step-shrinks :
    {s t : System} {e : Event} (es : List Event)
    → Step s e t
    → Counted es s
    → Pending s
    → s.client.destroy_wait ≡ true
    → (t.client.destroy_wait ≡ true)
      × (return_count e + length t.client.calls ≤ length s.client.calls)
unfolding end_call
Step-shrinks es (begin_refused i proc junk u m p q) c d w = (w, omega arith)
Step-shrinks {s} es (begin i proc junk u m p q) c d w =
    absurd (ground (arith, w, (begin_call_lem i proc junk u m s.client q).2))
Step-shrinks es (transmit i p) c d w = (w, omega arith)
Step-shrinks {s} es (arrive b n) c d w =
    (got_pdu-destroy_wait b n s.client ∙ w, rw (got_pdu-calls b n s.client) (omega arith))
Step-shrinks {s} es (end i {h} p) c d w = (
  w,
  omega (
    arith,
    erase-length_less (s.client.callers i).xid i s.client.calls
        (rw (c.callers i h p) (d.entry i h p)),
  ),
)
Step-shrinks {s} es (cancel i p) c d w =
    (begin_cancel-shut s.client (inl w), rw (begin_cancel-calls s.client) (omega arith))
Step-shrinks {s} es (cancel_again i p) c d w =
    (wait_empty-shut s.client (inl w), rw (wait_empty-calls s.client) (omega arith))
Step-shrinks {s} es (bound i ret r p) c d w =
    (end_bind-destroy_wait ret r s.client ∙ w, rw (end_bind-calls ret r s.client) (omega arith))

find_first : (m : Map ℕ) → m ≢ [] → (x : ℕ) × (i : ℕ) × (find x m ≡ some i)
unfolding find
find_first [] n = absurd (n refl)
find_first ((x, i) ∷ m) n = (x, i, ground arith)

find-not_empty : (x i : ℕ) (m : Map ℕ) → find x m ≡ some i → m ≢ []
unfolding find
find-not_empty x i m e k = absurd (ground (arith, e, k))

-- The first pending call is done, so its thread returns.
pub first_done :
    (s : System)
    → Pending s
    → Shut s
    → s.client.destroy_wait ≡ true
    → s.client.calls ≢ []
    → (i : ℕ) × (h : ReqHeader) × (s.pc i ≡ calling h) × ((s.client.callers i).done ≡ true)
first_done s d v w n =
    let (x, i, f) = find_first s.client.calls n in
    let (h, p, q) = d.owner x i f in (i, h, p, v.finished i h w p)

begin_cancel-waits : (s : Rpcc) → s.calls ≢ [] → (begin_cancel s).0 ≡ true
unfolding begin_cancel
begin_cancel-waits s n =
    elim (wait_empty-lem (record s { callers = cancel_callers s.calls s.callers })) [
      | inl (e, k) ↦ absurd (n e)
      | inr (e, k, q) ↦ k
    ]

-- A run goes on.
run-append :
    {a : System} {es : List Event} {s : System} {fs : List Event} {t : System}
    → Run a es s
    → Run s fs t
    → Run a (fs ++ es) t
run-append w start = w
run-append w (later r st) = later (run-append w r) st

-- Of the events only a call that returns cancel_failure is left, and no call begins.
abbrev pub FailsOnly : Event → Type 0
FailsOnly (returned x ret u) = ret ≡ code cancel_failure
FailsOnly (started h) = ⊥
FailsOnly (failed c) = Unit {0}
FailsOnly (sent h) = Unit {0}
FailsOnly (arrived h u) = Unit {0}
FailsOnly cancelled = Unit {0}
FailsOnly quiet = Unit {0}

Step-FailsOnly :
    {s t : System} {e : Event} → Step s e t → Shut s → s.client.destroy_wait ≡ true → FailsOnly e
unfolding end_call
Step-FailsOnly (begin_refused i proc junk u m p q) v w = tt
Step-FailsOnly {s} (begin i proc junk u m p q) v w =
    ground (arith, w, (begin_call_lem i proc junk u m s.client q).2)
Step-FailsOnly (transmit i p) v w = tt
Step-FailsOnly (arrive b n) v w = tt
Step-FailsOnly {s} (end i {h} p) v w = simp (v.finished i h w p) (v.failing i h w p)
Step-FailsOnly (cancel i p) v w = tt
Step-FailsOnly (cancel_again i p) v w = tt
Step-FailsOnly (bound i ret r p) v w = tt

append_started :
    (fs es : List Event) → calls_started (fs ++ es) + 1 < 2 ^ 32 → calls_started es + 1 < 2 ^ 32
append_started [] es n = n
append_started (f ∷ fs) es n =
    append_started fs es (omega (arith, n, calls_started-cons f (fs ++ es)))

append_sent : (fs es : List Event) → AnswersSent (fs ++ es) → AnswersSent es
append_sent [] es a = a
append_sent (f ∷ fs) es a = append_sent fs es (AnswersSent-tail f (fs ++ es) a)

module _ (r : Bool) (random : ℕ) (stack : ℕ → Caller) where
  shut_run :
      {es : List Event} {s : System} {fs : List Event} {t : System}
      → Run (init r random stack) es s
      → s.client.destroy_wait ≡ true
      → Run s fs t
      → calls_started (fs ++ es) + 1 < 2 ^ 32
      → AnswersSent (fs ++ es)
      → All FailsOnly fs × (t.client.destroy_wait ≡ true)
  shut_run w d start n a = (tt, d)
  shut_run {es} w d (later {es = fs} {e} x st) n a =
      let n' : calls_started (fs ++ es) + 1 < 2 ^ 32 =
        omega (arith, n, calls_started-cons e (fs ++ es)) in
      let a' = AnswersSent-tail e (fs ++ es) a in
      let (f, k) = shut_run w d x n' a' in
      let y = run-append w x in
      (
        (Step-FailsOnly st (Run-Shut r random stack y n' a') k, f),
        (Step-shrinks (fs ++ es) st (Run-Counted r random stack y n' a')
            (Run-Pending r random stack y n' a') k).0,
      )

  -- The state after thread `k` has called `cancel`, up to its first wait.
  abbrev pub after_cancel : ℕ → System → System
  after_cancel k s = record {
    client = (begin_cancel s.client).1;
    pc = set_pc s.pc k (in_cancel (begin_cancel s.client).0);
  }

  -- Where a thread calls `cancel` while a call is pending, then in whatever happens after that, late
  -- replies included, every call that returns gives cancel_failure, also one whose reply had arrived
  -- before, and no call begins. The conditions are those of calls_return_justly.
  pub cancel_fails_pending :
      {es : List Event} {s : System} {fs : List Event} {t : System} (i k : ℕ) (h : ReqHeader)
      → Run (init r random stack) es s
      → s.pc i ≡ calling h
      → s.pc k ≡ outside
      → Run (after_cancel k s) fs t
      → calls_started (fs ++ (cancelled ∷ es)) + 1 < 2 ^ 32
      → AnswersSent (fs ++ (cancelled ∷ es))
      → All FailsOnly fs
  cancel_fails_pending {es} {s} {fs} i k h w p o x n a =
      let n' = append_started fs (cancelled ∷ es) n in
      let a' = append_sent fs (cancelled ∷ es) a in
      let f = (Run-Pending r random stack w n' a').entry i h p in
      let b = begin_cancel-waits s.client (find-not_empty h.xid i s.client.calls f) in
      (shut_run (later w (cancel k o)) (begin_cancel-shut s.client (inr b)) x n a).0
