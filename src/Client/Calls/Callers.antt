-- ===== src/Client/Calls/Callers.antt =====
-- What the methods of rpcc do to the callers of the pending calls.
use mit6_824_2012spring_yfs.Prelude.{
  ap, ==_iff, ℕ, ◌≡◌, ◌⊎◌, inl, inr, refl, sym, ◌∙◌, true, false, Option, none, some, [], ◌∷◌, ◌==◌,
  Bool-cases, Map, Memory, arith, find,
}
use mit6_824_2012spring_yfs.Marshal.Headers.{ReplyHeader}
use mit6_824_2012spring_yfs.Marshal.In.{Unmarshall, take_in}
use mit6_824_2012spring_yfs.Call.{code, cancel_failure}
use mit6_824_2012spring_yfs.Client.Calls.{
  Rpcc, Caller, got_pdu, begin_cancel, wait_empty, end_bind, answer_call, take_reply, answer_caller,
  cancel_callers, set_caller,
}
use mit6_824_2012spring_yfs.Client.Calls.System.{reply_in}

pub answer_done :
    (h : ReplyHeader) (u : Unmarshall) (ca : Caller) → ca.done ≡ true → answer_caller h u ca ≡ ca
answer_done h u ca d = simp d refl

pub answer_not_done :
    (h : ReplyHeader) (u : Unmarshall) (ca : Caller)
    → ca.done ≡ false
    → answer_caller h u ca ≡ record ca { un = (take_in ca.un u).0; intret = h.ret; done = true }
answer_not_done h u ca d = simp d refl

pub set_caller-cases :
    (j : ℕ) (ca : Caller) (f : ℕ → Caller) (i : ℕ)
    → ((i ≡ j) × (set_caller j ca f i ≡ ca)) ⊎ (set_caller j ca f i ≡ f i)
set_caller-cases j ca f i = elim (Bool-cases (i == j)) [
  | inl e ↦ inl ((==_iff i j).0 e, simp e refl)
  | inr e ↦ inr (simp e refl)
]

-- The callers after a reply: the one that it is for has it, and the others are as before.
pub answer_call-callers :
    (o : Option ℕ) (h : ReplyHeader) (u : Unmarshall) (s : Rpcc) (i : ℕ)
    → ((answer_call o h u s).callers i ≡ s.callers i)
      ⊎ ((o ≡ some i) × ((answer_call o h u s).callers i ≡ answer_caller h u (s.callers i)))
answer_call-callers none h u s i = inl refl
answer_call-callers (some j) h u s i =
    elim (set_caller-cases j (answer_caller h u (s.callers j)) s.callers i) [
      | inl (e, k) ↦ inr (ap some (sym e), k ∙ ap (λ z. answer_caller h u (s.callers z)) (sym e))
      | inr k ↦ inl k
    ]

pub got_pdu-callers :
    (b : Memory) (n : ℕ) (s : Rpcc) (i : ℕ)
    → let (h, u) = reply_in b n in
      ((got_pdu b n s).callers i ≡ s.callers i)
      ⊎ ((find h.xid s.calls ≡ some i)
          × ((got_pdu b n s).callers i ≡ answer_caller h u (s.callers i)))
unfolding got_pdu take_reply
got_pdu-callers b n s i = elim (Bool-cases (reply_in b n).1.is_ok) [
  | inl e ↦ simp e (answer_call-callers _ (reply_in b n).0 (reply_in b n).1 _ i)
  | inr e ↦ simp e (inl refl)
]

-- What `cancel` makes of a caller.
abbrev pub cancel_caller : Caller → Caller
cancel_caller ca = record ca { done = true; intret = code cancel_failure }

pub cancel_callers-lem :
    (m : Map ℕ) (f : ℕ → Caller) (i : ℕ)
    → (cancel_callers m f i ≡ f i) ⊎ (cancel_callers m f i ≡ cancel_caller (f i))
unfolding cancel_callers
cancel_callers-lem [] f i = inl refl
cancel_callers-lem ((x, j) ∷ m) f i =
    let g = set_caller j (cancel_caller (f j)) f in
    elim (set_caller-cases j (cancel_caller (f j)) f i) [
      | inl (e, k) ↦
          let q : g i ≡ cancel_caller (f i) = k ∙ ap (λ z. cancel_caller (f z)) (sym e) in
          inr (elim (cancel_callers-lem m g i) [ inl c ↦ c ∙ q | inr c ↦ c ∙ ap cancel_caller q ])
      | inr k ↦ elim (cancel_callers-lem m g i) [
        | inl c ↦ inl (c ∙ k)
        | inr c ↦ inr (c ∙ ap cancel_caller k)
      ]
    ]

pub wait_empty-callers : (s : Rpcc) → (wait_empty s).1.callers ≡ s.callers
unfolding wait_empty
wait_empty-callers s = ground arith

pub end_bind-callers : (ret r : ℕ) (s : Rpcc) → (end_bind ret r s).1.callers ≡ s.callers
unfolding end_bind
end_bind-callers ret r s = ground arith

pub begin_cancel-callers :
    (s : Rpcc) (i : ℕ)
    → ((begin_cancel s).1.callers i ≡ s.callers i)
      ⊎ ((begin_cancel s).1.callers i ≡ cancel_caller (s.callers i))
unfolding begin_cancel
begin_cancel-callers s i =
    rw (wait_empty-callers (record s { callers = cancel_callers s.calls s.callers }))
      (cancel_callers-lem s.calls s.callers i)
