-- ===== src/Server/Window/Retained.antt =====
-- A reply stays in the window, and is given for every retransmission, until it is acknowledged.
use mit6_824_2012spring_yfs.Prelude.{
  ℕ, ◌≤◌, ◌≡◌, ◌≢◌, refl, ◌∙◌, some, List, [], ◌∷◌, ◌==◌, if◌then◌else◌, arith, All, Bool-cases,
  ==_iff, inl, inr,
}
use mit6_824_2012spring_yfs.Server.Window.{
  inprogress, done, Window, Verdict, Reply, new_reply, scan, insert_reply, set_reply,
  checkduplicate_and_update, replies,
}
use mit6_824_2012spring_yfs.Server.Window.Spec.{
  Increasing, live, lookup_reply, judge, judge_request, scan-judge_request,
}
use mit6_824_2012spring_yfs.Server.Window.Order.{after}
use mit6_824_2012spring_yfs.Server.Window.AtMostOnce.{
  Event, request, reply, step, run, Ordered, step-Ordered, replies-request, replies-reply,
}

-- The client `c` has not acknowledged its request `x`, and no second reply to it is recorded.
abbrev pub Spares : ℕ → ℕ → Event → Type 0
Spares c x (request d y rep) = d ≡ c → rep ≤ x
Spares c x (reply d y b n) = d ≡ c → y ≢ x

lookup-live :
    (x rep : ℕ) (ws : List Reply) → rep ≤ x → lookup_reply x (live rep ws) ≡ lookup_reply x ws
unfolding lookup_reply live
lookup-live x rep [] h = refl
lookup-live x rep (r ∷ rs) h = ground (arith, lookup-live x rep rs h)

lookup-insert_ne :
    (x : ℕ) (n : Reply) (ws : List Reply)
    → n.xid ≢ x
    → lookup_reply x (insert_reply n ws) ≡ lookup_reply x ws
unfolding lookup_reply insert_reply
lookup-insert_ne x n [] h = ground arith
lookup-insert_ne x n (r ∷ rs) h = ground (arith, lookup-insert_ne x n rs h)

lookup-set_ne :
    (x y b n : ℕ) (ws : List Reply)
    → y ≢ x
    → lookup_reply x (set_reply y b n ws) ≡ lookup_reply x ws
unfolding lookup_reply set_reply
lookup-set_ne x y b n [] h = refl
lookup-set_ne x y b n (r ∷ rs) h = ground (arith, lookup-set_ne x y b n rs h)

judge_keeps :
    (x y : ℕ) (ws : List Reply) (fs : List ℕ) (r : Reply)
    → lookup_reply x ws ≡ some r
    → lookup_reply x (after y (judge y ws fs (lookup_reply y ws))) ≡ some r
unfolding lookup_reply insert_reply
judge_keeps x y [] fs r e = cc
judge_keeps x y (h ∷ rs) fs r e = ground (arith, lookup-insert_ne x (new_reply y) (h ∷ rs))

request_keeps :
    (x y rep : ℕ) (ws : List Reply) (r : Reply)
    → Increasing 0 ws
    → rep ≤ x
    → lookup_reply x ws ≡ some r
    → lookup_reply x (after y (scan y rep [] ws [])) ≡ some r
unfolding judge_request
request_keeps x y rep ws r i h e =
    rw (scan-judge_request y rep 0 ws i)
      (judge_keeps x y (live rep ws) _ r (lookup-live x rep ws h ∙ e))

step_keeps :
    (c x : ℕ) (e : Event) (w : Window) (r : Reply)
    → Ordered w
    → Spares c x e
    → lookup_reply x (replies c w) ≡ some r
    → lookup_reply x (replies c (step e w)) ≡ some r
step_keeps c x (request d y rep) w r o s k = elim (Bool-cases (d == c)) [
  | inl same ↦
      let e : d ≡ c = (==_iff d c).0 same in
      rw (replies-request c d y rep w, same)
        (request_keeps x y rep (replies d w) r (o d) (s e) (rw e k))
  | inr other ↦ rw (replies-request c d y rep w, other) k
]
step_keeps c x (reply d y b n) w r o s k = elim (Bool-cases (d == c)) [
  | inl same ↦
      let e : d ≡ c = (==_iff d c).0 same in
      rw (replies-reply c d y b n w, same) (lookup-set_ne x y b n (replies d w) (s e) ∙ rw e k)
  | inr other ↦ rw (replies-reply c d y b n w, other) k
]

run_keeps :
    (c x : ℕ) (es : List Event) (w : Window) (r : Reply)
    → Ordered w
    → All (Spares c x) es
    → lookup_reply x (replies c w) ≡ some r
    → Ordered (run es w) × (lookup_reply x (replies c (run es w)) ≡ some r)
unfolding run
run_keeps c x [] w r o s k = (o, k)
run_keeps c x (e ∷ es) w r o s k =
    run_keeps c x es (step e w) r (step-Ordered e w o) s.1 (step_keeps c x e w r o s.0 k)

-- What a duplicate is answered from the reply that the window holds.
unfoldable pub answer : Reply → Verdict
answer r =
    if r.cb_present
    then record { stat = done; b = r.buf; sz = r.sz }
    else record { stat = inprogress; b = 0; sz = 0 }

pub verdict_known :
    (c x rep : ℕ) (w : Window) (r : Reply)
    → Increasing 0 (replies c w)
    → rep ≤ x
    → lookup_reply x (replies c w) ≡ some r
    → (checkduplicate_and_update c x rep w).0 ≡ answer r
unfolding checkduplicate_and_update judge_request answer
verdict_known c x rep w r i h k =
    rw (scan-judge_request x rep 0 (replies c w) i, lookup-live x rep (replies c w) h, k)
      (ground arith)

-- While the window of client `c` holds a reply for its request `x`, and whatever requests and
-- replies of any clients follow in which `c` acknowledges nothing beyond `x` and no other reply to
-- `x` is recorded, a retransmission of `x` is answered from that reply: `done` with its buffer and
-- size if the handler has finished, `inprogress` if not.
pub retransmission_answered :
    (c x rep : ℕ) (es : List Event) (w : Window) (r : Reply)
    → Ordered w
    → All (Spares c x) es
    → rep ≤ x
    → lookup_reply x (replies c w) ≡ some r
    → (checkduplicate_and_update c x rep (run es w)).0 ≡ answer r
retransmission_answered c x rep es w r o s h k =
    let (o', k') = run_keeps c x es w r o s k in verdict_known c x rep (run es w) r (o' c) h k'
