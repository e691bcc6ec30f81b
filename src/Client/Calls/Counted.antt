-- ===== src/Client/Calls/Counted.antt =====
-- The xids that a client has used, in any run: the counter, the window and the pending calls.
use mit6_824_2012spring_yfs.Prelude.{
  ℕ, ◌+◌, ◌^◌, ◌≤◌, ◌<◌, ◌≡◌, inl, inr, refl, Bool, true, false, Option, none, some, Bool-cases,
  Map, ◌≢◌, sym, ap, u32, ◌∙◌, List, [], ◌∷◌, All, All-mono, arith, find, Memory,
}
use mit6_824_2012spring_yfs.Marshal.Headers.{ReqHeader, ReplyHeader}
use mit6_824_2012spring_yfs.Marshal.Out.{Marshall}
use mit6_824_2012spring_yfs.Marshal.In.{Unmarshall}
use mit6_824_2012spring_yfs.Client.XidWindow.{front, update_xid_rep}
use mit6_824_2012spring_yfs.Client.XidWindow.Update.{update_xid_rep-All}
use mit6_824_2012spring_yfs.Client.Calls.{
  Rpcc, begun, begin_call, end_call, got_pdu, begin_cancel, wait_empty, end_bind, answer_call,
  Caller, take_reply, cancel_callers, new_header, add_call,
}
use mit6_824_2012spring_yfs.Client.Calls.System.{
  Pc, outside, calling, System, Event, started, sent, arrived, returned, failed, cancelled, quiet,
  Step, begin_refused, begin, transmit, arrive, end, cancel, cancel_again, bound, init, Run, start,
  later, calls_started, was_sent, AnswersSent, reply_in, in_cancel, set_pc,
}

-- What the first block of call1 does where it does not fail.
pub begin_call_lem :
    (i proc junk : ℕ) (u : Unmarshall) (m : Marshall) (s : Rpcc) {h : ReqHeader}
    {q : Option Marshall} {t : Rpcc}
    → begin_call i proc junk u m s ≡ begun h q t
    → (h ≡ new_header proc s) × (t ≡ add_call i junk u s) × (s.destroy_wait ≡ false)
unfolding begin_call
begin_call_lem i proc junk u m s e = ground (arith, e)

-- The xid counter and the window, beside what has been sent.
pub record Counted (es : List Event) (s : System) : Type 0 where
  pub count : s.client.xid ≡ calls_started es + 1
  pub window : All (λ x. x < s.client.xid) s.client.xid_rep_window
  pub pending :
      (i : ℕ) (h : ReqHeader) → s.pc i ≡ calling h → h.xid_rep < h.xid × h.xid < s.client.xid
  pub callers : (i : ℕ) (h : ReqHeader) → s.pc i ≡ calling h → (s.client.callers i).xid ≡ h.xid
  pub past : (x : ℕ) → was_sent x es ≡ true → x < s.client.xid

-- A piece of a method that adds no call: it keeps the xids, and a bound on the window.
record Alike (s t : Rpcc) : Type 0 where
  xid : t.xid ≡ s.xid
  window : All (λ x. x < s.xid) s.xid_rep_window → All (λ x. x < s.xid) t.xid_rep_window
  callers : (i : ℕ) → (t.callers i).xid ≡ (s.callers i).xid

answer_call-Alike :
    (o : Option ℕ) (h : ReplyHeader) (u : Unmarshall) (s : Rpcc) → Alike s (answer_call o h u s)
answer_call-Alike none h u s = record { xid = refl; window = λ a. a; callers = λ i. refl }
answer_call-Alike (some j) h u s = record {
  xid = refl;
  window = λ a. a;
  callers = λ i. ground arith;
}

take_reply-Alike :
    (h : ReplyHeader) (u : Unmarshall) (s : Rpcc) → h.xid < s.xid → Alike s (take_reply h u s)
unfolding take_reply
take_reply-Alike h u s l = elim (Bool-cases u.is_ok) [
  | inl e ↦
      let d : Rpcc = record s { xid_rep_window = update_xid_rep h.xid s.xid_rep_window } in
      let a = answer_call-Alike (find h.xid s.calls) h u d in
      simp e (record {
        xid = a.xid;
        window = λ w. a.window (update_xid_rep-All (λ x. x < s.xid) h.xid s.xid_rep_window l w);
        callers = a.callers;
      })
  | inr e ↦ simp e (record { xid = refl; window = λ a. a; callers = λ i. refl })
]

got_pdu-Alike :
    (b : Memory) (n : ℕ) (s : Rpcc) → (reply_in b n).0.xid < s.xid → Alike s (got_pdu b n s)
unfolding got_pdu
got_pdu-Alike b n s l = take_reply-Alike (reply_in b n).0 (reply_in b n).1 s l

end_call-Alike : (i : ℕ) (s : Rpcc) → (s.callers i).xid < s.xid → Alike s (end_call i s).2
unfolding end_call
end_call-Alike i s l = record {
  xid = refl;
  window = update_xid_rep-All (λ x. x < s.xid) (s.callers i).xid s.xid_rep_window l;
  callers = λ j. refl;
}

cancel_callers-xid : (m : Map ℕ) (f : ℕ → Caller) (i : ℕ) → (cancel_callers m f i).xid ≡ (f i).xid
unfolding cancel_callers
cancel_callers-xid [] f i = refl
cancel_callers-xid ((x, j) ∷ m) f i = cancel_callers-xid m _ i ∙ ground arith

wait_empty-Alike : (s : Rpcc) → Alike s (wait_empty s).1
unfolding wait_empty
wait_empty-Alike s = record {
  xid = ground arith;
  window = λ a. ground (arith, a);
  callers = λ i. ground arith;
}

begin_cancel-Alike : (s : Rpcc) → Alike s (begin_cancel s).1
unfolding begin_cancel
begin_cancel-Alike s =
    let a = wait_empty-Alike (record s { callers = cancel_callers s.calls s.callers }) in
    record {
      xid = a.xid;
      window = a.window;
      callers = λ i. a.callers i ∙ cancel_callers-xid s.calls s.callers i;
    }

end_bind-Alike : (ret r : ℕ) (s : Rpcc) → Alike s (end_bind ret r s).1
unfolding end_bind
end_bind-Alike ret r s = record {
  xid = ground arith;
  window = λ a. ground (arith, a);
  callers = λ i. ground arith;
}

-- A step that adds no call keeps the counts.
Counted-keep :
    {es fs : List Event} {s t : System}
    → Alike s.client t.client
    → calls_started fs ≡ calls_started es
    → ((i : ℕ) (h : ReqHeader) → t.pc i ≡ calling h → s.pc i ≡ calling h)
    → ((x : ℕ) → was_sent x fs ≡ true → x < s.client.xid)
    → Counted es s
    → Counted fs t
Counted-keep {es} {fs} {s} {t} a n p q v = record {
  count = a.xid ∙ v.count ∙ ap (λ k. k + 1) (sym n);
  window = rw a.xid (a.window v.window);
  pending = λ i h e. rw a.xid (v.pending i h (p i h e));
  callers = λ i h e. a.callers i ∙ v.callers i h (p i h e);
  past = λ x e. rw a.xid (q x e);
}

same : (s : Rpcc) → Alike s s
same s = record { xid = refl; window = λ a. a; callers = λ i. refl }

pub not_calling :
    (pc : ℕ → Pc) (i : ℕ) (p : Pc) (h : ReqHeader) (j : ℕ)
    → p ≢ calling h
    → set_pc pc i p j ≡ calling h
    → pc j ≡ calling h
not_calling pc i p h j n e = ground (arith, e, n)

pub in_cancel-calling : (b : Bool) (h : ReqHeader) → in_cancel b ≢ calling h
in_cancel-calling true h e = cc
in_cancel-calling false h e = cc

front-below : (x : ℕ) (w : List ℕ) → 0 < x → All (λ y. y < x) w → front w < x
front-below x [] p a = p
front-below x (y ∷ w) p a = a.0

pub calls_started-cons : (e : Event) (es : List Event) → calls_started es ≤ calls_started (e ∷ es)
calls_started-cons (started h) es = omega arith
calls_started-cons (failed c) es = omega arith
calls_started-cons (sent h) es = omega arith
calls_started-cons (arrived h u) es = omega arith
calls_started-cons (returned x r u) es = omega arith
calls_started-cons cancelled es = omega arith
calls_started-cons quiet es = omega arith

pub AnswersSent-tail : (e : Event) (es : List Event) → AnswersSent (e ∷ es) → AnswersSent es
AnswersSent-tail (started h) es a = a
AnswersSent-tail (failed c) es a = a
AnswersSent-tail (sent h) es a = a
AnswersSent-tail (arrived h u) es a = a.1
AnswersSent-tail (returned x r u) es a = a
AnswersSent-tail cancelled es a = a
AnswersSent-tail quiet es a = a

Step-Counted :
    {es : List Event} {s t : System} {e : Event}
    → Step s e t
    → calls_started (e ∷ es) + 1 < 2 ^ 32
    → AnswersSent (e ∷ es)
    → Counted es s
    → Counted (e ∷ es) t
Step-Counted {es} {s} (begin_refused i proc junk u m p q) n k v =
    Counted-keep (same s.client) refl (λ j g x. x) v.past v
Step-Counted {es} {s} (begin i proc junk u m {h} {t} p q) n k v =
    let (eh, et, ed) = begin_call_lem i proc junk u m s.client q in
    let x : u32 (s.client.xid + 1) ≡ s.client.xid + 1 = omega (arith, v.count, n) in
    let f = front-below s.client.xid s.client.xid_rep_window (omega (arith, v.count)) v.window in
    rw (et, eh)
      (record {
        count = x ∙ omega (arith, v.count);
        window = rw x (All-mono _ _ s.client.xid_rep_window (λ y l. omega arith) v.window);
        pending = λ j g e. ground (arith, e, v.pending j g, f, x);
        callers = λ j g e. ground (arith, e, v.callers j g);
        past = λ y e. rw x (omega (arith, v.past y e));
      })
Step-Counted {es} {s} (transmit i {h} p) n k v =
    Counted-keep (same s.client) refl (λ j g x. x)
      (λ x e. ground (arith, e, v.past x, v.pending i h p)) v
Step-Counted {es} {s} (arrive b n') n k v =
    Counted-keep (got_pdu-Alike b n' s.client (v.past _ k.0)) refl (λ j g x. x) v.past v
Step-Counted {es} {s} (end i {h} p) n k v =
    Counted-keep (end_call-Alike i s.client (rw (v.callers i h p) ((v.pending i h p).1))) refl
      (λ j g x. not_calling s.pc i outside g j (λ z. cc) x) v.past v
Step-Counted {es} {s} (cancel i p) n k v =
    Counted-keep (begin_cancel-Alike s.client) refl
      (λ j g x. not_calling s.pc i _ g j (in_cancel-calling _ g) x) v.past v
Step-Counted {es} {s} (cancel_again i p) n k v =
    Counted-keep (wait_empty-Alike s.client) refl
      (λ j g x. not_calling s.pc i _ g j (in_cancel-calling _ g) x) v.past v
Step-Counted {es} {s} (bound i ret r p) n k v =
    Counted-keep (end_bind-Alike ret r s.client) refl (λ j g x. x) v.past v

init-Counted :
    (retrans : Bool) (random : ℕ) (stack : ℕ → Caller) → Counted [] (init retrans random stack)
init-Counted retrans random stack = record {
  count = refl;
  window = (omega arith, tt);
  pending = λ i h e. absurd cc;
  callers = λ i h e. absurd cc;
  past = λ x e. absurd cc;
}

pub Run-Counted :
    (r : Bool) (random : ℕ) (stack : ℕ → Caller) {es : List Event} {s : System}
    → Run (init r random stack) es s
    → calls_started es + 1 < 2 ^ 32
    → AnswersSent es
    → Counted es s
Run-Counted r random stack start n a = init-Counted r random stack
Run-Counted r random stack (later {es} {e} w st) n a = Step-Counted st n a (
    Run-Counted r random stack w (omega (arith, n, calls_started-cons e es))
      (AnswersSent-tail e es a))
