-- ===== src/Client/Calls/Pending.antt =====
-- The map of the pending calls, in any run: it has the threads in call1, each under its own xid.
use mit6_824_2012spring_yfs.Prelude.{
  ℕ, ◌+◌, ◌^◌, ◌<◌, ◌≡◌, ◌≢◌, ◌↔◌, inl, inr, refl, sym, ◌∙◌, Bool, Option, none, some, List, ◌==◌,
  Bool-cases, Memory, arith, find, find-insert, find-erase,
}
use mit6_824_2012spring_yfs.Marshal.Headers.{ReqHeader, ReplyHeader}
use mit6_824_2012spring_yfs.Marshal.In.{Unmarshall}
use mit6_824_2012spring_yfs.Client.Calls.{
  Rpcc, Caller, end_call, got_pdu, begin_cancel, wait_empty, end_bind, answer_call, take_reply,
  add_call, new_header,
}
use mit6_824_2012spring_yfs.Client.Calls.System.{
  Pc, outside, calling, System, Event, Step, begin_refused, begin, transmit, arrive, end, cancel,
  cancel_again, bound, init, Run, start, later, calls_started, AnswersSent, reply_in, set_pc,
}
use mit6_824_2012spring_yfs.Client.Calls.Counted.{
  Counted, Run-Counted, calls_started-cons, AnswersSent-tail, begin_call_lem, in_cancel-calling,
}

-- The map and the threads agree.
pub record Pending (s : System) : Type 0 where
  pub entry : (i : ℕ) (h : ReqHeader) → s.pc i ≡ calling h → find h.xid s.client.calls ≡ some i
  pub owner :
      (x i : ℕ)
      → find x s.client.calls ≡ some i
      → (h : ReqHeader) × (s.pc i ≡ calling h) × (h.xid ≡ x)

answer_call-calls :
    (o : Option ℕ) (h : ReplyHeader) (u : Unmarshall) (s : Rpcc)
    → (answer_call o h u s).calls ≡ s.calls
answer_call-calls none h u s = refl
answer_call-calls (some i) h u s = refl

pub got_pdu-calls : (b : Memory) (n : ℕ) (s : Rpcc) → (got_pdu b n s).calls ≡ s.calls
unfolding got_pdu take_reply
got_pdu-calls b n s = elim (Bool-cases (reply_in b n).1.is_ok) [
  | inl e ↦ simp (e, answer_call-calls) refl
  | inr e ↦ simp e refl
]

pub wait_empty-calls : (s : Rpcc) → (wait_empty s).1.calls ≡ s.calls
unfolding wait_empty
wait_empty-calls s = ground arith

pub begin_cancel-calls : (s : Rpcc) → (begin_cancel s).1.calls ≡ s.calls
unfolding begin_cancel
begin_cancel-calls s = wait_empty-calls _

pub end_bind-calls : (ret r : ℕ) (s : Rpcc) → (end_bind ret r s).1.calls ≡ s.calls
unfolding end_bind
end_bind-calls ret r s = ground arith

Pending-keep :
    {s t : System}
    → t.client.calls ≡ s.client.calls
    → ((i : ℕ) (h : ReqHeader) → (t.pc i ≡ calling h) ↔ (s.pc i ≡ calling h))
    → Pending s
    → Pending t
Pending-keep e k v = record {
  entry = λ i h p. rw e (v.entry i h ((k i h).0 p));
  owner = λ x i f. let (h, p, q) = v.owner x i (rw⁻¹ e f) in (h, (k i h).1 p, q);
}

-- A thread that is in no call changes its place.
pub same_calling :
    (pc : ℕ → Pc) (i : ℕ) (p : Pc) (h : ReqHeader) (j : ℕ)
    → pc i ≢ calling h
    → p ≢ calling h
    → (set_pc pc i p j ≡ calling h) ↔ (pc j ≡ calling h)
same_calling pc i p h j m n = (λ e. ground (arith, e, n), λ e. ground (arith, e, m))

Pending-begin :
    (i proc junk : ℕ) (u : Unmarshall) (s : System)
    → s.pc i ≡ outside
    → ((j : ℕ) (h : ReqHeader) → s.pc j ≡ calling h → h.xid < s.client.xid)
    → Pending s
    → Pending (record {
      client = add_call i junk u s.client;
      pc = set_pc s.pc i (calling (new_header proc s.client));
    })
Pending-begin i proc junk u s p l v = record {
  entry = λ j h e.
      rw (find-insert s.client.xid h.xid i s.client.calls) (ground (arith, e, v.entry j h, l j h));
  owner = λ x j f.
      let g = sym (find-insert s.client.xid x i s.client.calls) ∙ f in
      elim (Bool-cases (s.client.xid == x)) [
        | inl e ↦ (new_header proc s.client, ground (arith, e, g), ground (arith, e))
        | inr e ↦ let (h, a, b) = v.owner x j (ground (arith, e, g)) in (h, ground (arith, a, p), b)
      ];
}

Pending-end :
    (i : ℕ) (s : System) (h : ReqHeader)
    → s.pc i ≡ calling h
    → (s.client.callers i).xid ≡ h.xid
    → Pending s
    → Pending (record { client = (end_call i s.client).2; pc = set_pc s.pc i outside })
unfolding end_call
Pending-end i s h p q v = record {
  entry = λ j g e.
      rw (find-erase (s.client.callers i).xid g.xid s.client.calls)
        (ground (arith, e, p, q, v.entry j g, v.entry i h));
  owner = λ x j f.
      let k = sym (find-erase (s.client.callers i).xid x s.client.calls) ∙ f in
      elim (Bool-cases (h.xid == x)) [
        | inl e ↦ absurd (ground (arith, e, q, k))
        | inr e ↦
            let (g, a, b) = v.owner x j (ground (arith, e, q, k)) in
            (g, ground (arith, a, b, e, p), b)
      ];
}

pub Step-Pending :
    {es : List Event} {s t : System} {e : Event} → Step s e t → Counted es s → Pending s → Pending t
Step-Pending (begin_refused i proc junk u m p q) c v = v
Step-Pending {es} {s} (begin i proc junk u m p q) c v =
    let (eh, et, ed) = begin_call_lem i proc junk u m s.client q in
    rw (et, eh) (Pending-begin i proc junk u s p (λ j h e. (c.pending j h e).1) v)
Step-Pending (transmit i p) c v = v
Step-Pending {es} {s} (arrive b n) c v =
    Pending-keep (got_pdu-calls b n s.client) (λ i h. (λ e. e, λ e. e)) v
Step-Pending {es} {s} (end i {h} p) c v = Pending-end i s h p (c.callers i h p) v
Step-Pending {es} {s} (cancel i p) c v =
    Pending-keep (begin_cancel-calls s.client)
      (λ j h. same_calling s.pc i _ h j (λ e. ground (arith, e, p)) (in_cancel-calling _ h)) v
Step-Pending {es} {s} (cancel_again i p) c v =
    Pending-keep (wait_empty-calls s.client)
      (λ j h. same_calling s.pc i _ h j (λ e. ground (arith, e, p)) (in_cancel-calling _ h)) v
Step-Pending {es} {s} (bound i ret r p) c v =
    Pending-keep (end_bind-calls ret r s.client) (λ j h. (λ e. e, λ e. e)) v

init-Pending : (r : Bool) (random : ℕ) (stack : ℕ → Caller) → Pending (init r random stack)
unfolding find
init-Pending r random stack = record { entry = λ i h e. absurd cc; owner = λ x i e. absurd cc }

pub Run-Pending :
    (r : Bool) (random : ℕ) (stack : ℕ → Caller) {es : List Event} {s : System}
    → Run (init r random stack) es s
    → calls_started es + 1 < 2 ^ 32
    → AnswersSent es
    → Pending s
Run-Pending r random stack start n a = init-Pending r random stack
Run-Pending r random stack (later {es} {e} w st) n a =
    let n' : calls_started es + 1 < 2 ^ 32 = omega (arith, n, calls_started-cons e es) in
    let a' = AnswersSent-tail e es a in
    Step-Pending st (Run-Counted r random stack w n' a') (Run-Pending r random stack w n' a')

-- The requests of two threads whose calls are pending at the same time have different xids. The
-- conditions are that the client makes fewer than 2^32 - 1 calls and that each reply that arrives
-- has the xid of a request that has been sent.
pub pending_apart :
    (r : Bool) (random : ℕ) (stack : ℕ → Caller) {es : List Event} {s : System}
    → Run (init r random stack) es s
    → calls_started es + 1 < 2 ^ 32
    → AnswersSent es
    → (i j : ℕ) (g h : ReqHeader) → s.pc i ≡ calling g
    → s.pc j ≡ calling h
    → i ≢ j
    → g.xid ≢ h.xid
pending_apart r random stack w n a i j g h p q d e =
    let v = Run-Pending r random stack w n a in ground (arith, v.entry i g p, v.entry j h q, e, d)
