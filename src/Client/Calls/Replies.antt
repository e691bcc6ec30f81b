-- ===== src/Client/Calls/Replies.antt =====
-- What a call returns: a reply that has arrived for it, or a failure of its own.
use mit6_824_2012spring_yfs.Prelude.{
  subst, ap, ℕ, ◌+◌, ◌^◌, ◌<◌, ◌≡◌, ◌⊎◌, inl, inr, refl, sym, ◌∙◌, Bool, true, false, List, [], ◌∷◌,
  ◌==◌, Bool-cases, arith,
}
use mit6_824_2012spring_yfs.Marshal.Headers.{ReqHeader, ReplyHeader}
use mit6_824_2012spring_yfs.Marshal.In.{Unmarshall, empty_unmarshall, take_in}
use mit6_824_2012spring_yfs.Call.{code, cancel_failure, timeout_failure}
use mit6_824_2012spring_yfs.Client.Calls.{
  Rpcc, Caller, new_caller, end_call, answer_caller, set_caller,
}
use mit6_824_2012spring_yfs.Client.Calls.System.{
  outside, calling, System, Event, started, failed, sent, arrived, returned, cancelled, quiet, Step,
  begin_refused, begin, transmit, arrive, end, cancel, cancel_again, bound, init, Run, start, later,
  calls_started, AnswersSent, reply_in,
}
use mit6_824_2012spring_yfs.Client.Calls.Counted.{
  Counted, Run-Counted, calls_started-cons, AnswersSent-tail, begin_call_lem, in_cancel-calling,
  not_calling,
}
use mit6_824_2012spring_yfs.Client.Calls.Pending.{Pending, Run-Pending}
use mit6_824_2012spring_yfs.Client.Calls.Callers.{
  answer_done, answer_not_done, set_caller-cases, got_pdu-callers, wait_empty-callers,
  end_bind-callers, begin_cancel-callers,
}

-- A reply has arrived with this xid, this int and, behind the header, this content.
abbrev pub HasArrived : (xid ret : ℕ) → Unmarshall → List Event → Type 0
HasArrived x r u [] = ⊥
HasArrived x r u (arrived h v ∷ es) =
    ((h.xid ≡ x) × (h.ret ≡ r) × ((take_in empty_unmarshall v).0 ≡ u)) ⊎ HasArrived x r u es
HasArrived x r u (started h ∷ es) = HasArrived x r u es
HasArrived x r u (failed c ∷ es) = HasArrived x r u es
HasArrived x r u (sent h ∷ es) = HasArrived x r u es
HasArrived x r u (returned y q v ∷ es) = HasArrived x r u es
HasArrived x r u (cancelled ∷ es) = HasArrived x r u es
HasArrived x r u (quiet ∷ es) = HasArrived x r u es

abbrev pub was_cancelled : List Event → Bool
was_cancelled [] = false
was_cancelled (cancelled ∷ es) = true
was_cancelled (started h ∷ es) = was_cancelled es
was_cancelled (failed c ∷ es) = was_cancelled es
was_cancelled (sent h ∷ es) = was_cancelled es
was_cancelled (arrived h v ∷ es) = was_cancelled es
was_cancelled (returned y q v ∷ es) = was_cancelled es
was_cancelled (quiet ∷ es) = was_cancelled es

HasArrived-cons :
    (x r : ℕ) (u : Unmarshall) (e : Event) (es : List Event)
    → HasArrived x r u es
    → HasArrived x r u (e ∷ es)
HasArrived-cons x r u (started h) es k = k
HasArrived-cons x r u (failed c) es k = k
HasArrived-cons x r u (sent h) es k = k
HasArrived-cons x r u (arrived h v) es k = inr k
HasArrived-cons x r u (returned y q v) es k = k
HasArrived-cons x r u cancelled es k = k
HasArrived-cons x r u quiet es k = k

was_cancelled-cons :
    (e : Event) (es : List Event) → was_cancelled es ≡ true → was_cancelled (e ∷ es) ≡ true
was_cancelled-cons (started h) es k = k
was_cancelled-cons (failed c) es k = k
was_cancelled-cons (sent h) es k = k
was_cancelled-cons (arrived h u) es k = k
was_cancelled-cons (returned x r u) es k = k
was_cancelled-cons cancelled es k = refl
was_cancelled-cons quiet es k = k

-- Where the result of a caller comes from, if it is done.
abbrev Explained : List Event → Caller → Type 0
Explained es ca =
    (ca.done ≡ false)
    ⊎ ((ca.intret ≡ code cancel_failure) × (was_cancelled es ≡ true))
    ⊎ HasArrived ca.xid ca.intret ca.un es

Explained-cons :
    (e : Event) (es : List Event) (ca : Caller) → Explained es ca → Explained (e ∷ es) ca
Explained-cons e es ca (inl a) = inl a
Explained-cons e es ca (inr (inl (a, b))) = inr (inl (a, was_cancelled-cons e es b))
Explained-cons e es ca (inr (inr a)) = inr (inr (HasArrived-cons _ _ _ e es a))

-- Every pending caller is explained.
abbrev Replied : List Event → System → Type 0
Replied es s = (i : ℕ) (h : ReqHeader) → s.pc i ≡ calling h → Explained es (s.client.callers i)

answer_caller-Explained :
    (h : ReplyHeader) (u : Unmarshall) (es : List Event) (ca : Caller)
    → h.xid ≡ ca.xid
    → Explained es ca
    → Explained (arrived h u ∷ es) (answer_caller h u ca)
unfolding take_in
answer_caller-Explained h u es ca e x = elim (Bool-cases ca.done) [
  | inl d ↦
      subst (Explained (arrived h u ∷ es)) (sym (answer_done h u ca d))
        (Explained-cons (arrived h u) es ca x)
  | inr d ↦
      subst (Explained (arrived h u ∷ es)) (sym (answer_not_done h u ca d))
        (inr (inr (inl (e, refl, refl))))
]

Explained-keep :
    (es : List Event) (e : Event) {a b : Caller} → b ≡ a → Explained es a → Explained (e ∷ es) b
Explained-keep es e {a} k x = subst (Explained (e ∷ es)) (sym k) (Explained-cons e es a x)

Step-Replied :
    {es : List Event} {s t : System} {e : Event}
    → Step s e t
    → Counted es s
    → Pending s
    → Replied es s
    → Replied (e ∷ es) t
unfolding end_call
Step-Replied {es} {s} {t} {e} (begin_refused i proc junk u m p q) n d v j h x =
    Explained-keep es e refl (v j h x)
Step-Replied {es} {s} {t} {e} (begin i proc junk u m {h} p q) n d v j g x =
    let (eh, et, ed) = begin_call_lem i proc junk u m s.client q in
    let ca = new_caller s.client.xid u junk in
    let k : t.client.callers j ≡ set_caller i ca s.client.callers j =
      ap (λ (z : Rpcc). z.callers j) et in
    elim (set_caller-cases i ca s.client.callers j) [
      | inl (f, y) ↦ inl (ap (λ (z : Caller). z.done) (k ∙ y))
      | inr y ↦ elim (Bool-cases (j == i)) [
        | inl f ↦ inl (ground (arith, k, f))
        | inr f ↦ Explained-keep es e (k ∙ y) (v j g (ground (arith, x, f)))
      ]
    ]
Step-Replied {es} {s} {t} {e} (transmit i p) n d v j h x = Explained-keep es e refl (v j h x)
Step-Replied {es} {s} {t} {e} (arrive b k) n d v i h x = elim (got_pdu-callers b k s.client i) [
  | inl c ↦ Explained-keep es e c (v i h x)
  | inr (f, c) ↦
      let (g, a, y) = d.owner (reply_in b k).0.xid i f in
      subst (Explained (e ∷ es)) (sym c) (
        answer_caller-Explained (reply_in b k).0 (reply_in b k).1 es _
          (ground (arith, n.callers i g a, a, y)) (v i h x))
]
Step-Replied {es} {s} {t} {e} (end i p) n d v j h x =
    Explained-keep es e refl (v j h (not_calling s.pc i outside h j (λ z. cc) x))
Step-Replied {es} {s} {t} {e} (cancel i p) n d v j h x =
    let q = not_calling s.pc i _ h j (in_cancel-calling _ h) x in
    elim (begin_cancel-callers s.client j) [
      | inl c ↦ Explained-keep es e c (v j h q)
      | inr c ↦ subst (Explained (e ∷ es)) (sym c) (inr (inl (refl, refl)))
    ]
Step-Replied {es} {s} {t} {e} (cancel_again i p) n d v j h x =
    Explained-keep es e (ap (λ f. f j) (wait_empty-callers s.client))
      (v j h (not_calling s.pc i _ h j (in_cancel-calling _ h) x))
Step-Replied {es} {s} {t} {e} (bound i ret r p) n d v j h x =
    Explained-keep es e (ap (λ f. f j) (end_bind-callers ret r s.client)) (v j h x)

pub Run-Replied :
    (r : Bool) (random : ℕ) (stack : ℕ → Caller) {es : List Event} {s : System}
    → Run (init r random stack) es s
    → calls_started es + 1 < 2 ^ 32
    → AnswersSent es
    → Replied es s
Run-Replied r random stack start n a = λ i h e. absurd cc
Run-Replied r random stack (later {es} {e} w st) n a =
    let n' : calls_started es + 1 < 2 ^ 32 = omega (arith, n, calls_started-cons e es) in
    let a' = AnswersSent-tail e es a in
    Step-Replied st (Run-Counted r random stack w n' a') (Run-Pending r random stack w n' a')
      (Run-Replied r random stack w n' a')

-- Where the result of a call may come from.
abbrev pub Justified : (xid ret : ℕ) → Unmarshall → List Event → Type 0
Justified x ret u es =
    (ret ≡ code timeout_failure)
    ⊎ ((ret ≡ code cancel_failure) × (was_cancelled es ≡ true))
    ⊎ HasArrived x ret u es

end_call-Justified :
    (i : ℕ) (s : Rpcc) (es : List Event)
    → Explained es (s.callers i)
    → Justified (s.callers i).xid (end_call i s).0 (s.callers i).un es
unfolding end_call
end_call-Justified i s es x = elim (Bool-cases (s.callers i).done) [
  | inl d ↦ elim x [
    | inl a ↦ absurd (ground (arith, a, d))
    | inr (inl a) ↦ simp d (inr (inl a))
    | inr (inr a) ↦ simp d (inr (inr a))
  ]
  | inr d ↦ inl (simp d refl)
]

-- What a return says, after the events `es`.
abbrev pub ReturnsJustly : Event → List Event → Type 0
ReturnsJustly (returned x r u) es = Justified x r u es
ReturnsJustly (started h) es = Unit {0}
ReturnsJustly (failed c) es = Unit {0}
ReturnsJustly (sent h) es = Unit {0}
ReturnsJustly (arrived h u) es = Unit {0}
ReturnsJustly cancelled es = Unit {0}
ReturnsJustly quiet es = Unit {0}

abbrev pub AllReturnJustly : List Event → Type 0
AllReturnJustly [] = Unit {0}
AllReturnJustly (e ∷ es) = ReturnsJustly e es × AllReturnJustly es

Step-ReturnsJustly :
    (es : List Event) {s t : System} {e : Event} → Step s e t → Replied es s → ReturnsJustly e es
Step-ReturnsJustly es (begin_refused i proc junk u m p q) v = tt
Step-ReturnsJustly es (begin i proc junk u m p q) v = tt
Step-ReturnsJustly es (transmit i p) v = tt
Step-ReturnsJustly es (arrive b n) v = tt
Step-ReturnsJustly es {s} (end i {h} p) v = end_call-Justified i s.client es (v i h p)
Step-ReturnsJustly es (cancel i p) v = tt
Step-ReturnsJustly es (cancel_again i p) v = tt
Step-ReturnsJustly es (bound i ret r p) v = tt

-- Every call that returns gives timeout_failure, or cancel_failure after `cancel` was called, or
-- the int and the content of a reply that arrived before with the xid of this call. The conditions
-- are that the client makes fewer than 2^32 - 1 calls and that each reply that arrives has the xid
-- of a request that has been sent.
pub calls_return_justly :
    (r : Bool) (random : ℕ) (stack : ℕ → Caller) {es : List Event} {s : System}
    → Run (init r random stack) es s
    → calls_started es + 1 < 2 ^ 32
    → AnswersSent es
    → AllReturnJustly es
calls_return_justly r random stack start n a = tt
calls_return_justly r random stack (later {es} {e} w st) n a =
    let n' : calls_started es + 1 < 2 ^ 32 = omega (arith, n, calls_started-cons e es) in
    let a' = AnswersSent-tail e es a in
    (
      Step-ReturnsJustly es st (Run-Replied r random stack w n' a'),
      calls_return_justly r random stack w n' a',
    )
