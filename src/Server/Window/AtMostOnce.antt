-- ===== src/Server/Window/AtMostOnce.antt =====
-- At-most-once: over any history of requests and replies, of any clients, a request is new once.
use mit6_824_2012spring_yfs.Prelude.{
  ℕ, ◌+◌, ◌≤◌, ◌<◌, ◌≡◌, inl, inr, refl, Bool, true, false, List, [], ◌∷◌, ◌==◌, if◌then◌else◌,
  arith, find, Bool-cases, ==_iff, All, ◌&&◌,
}
use mit6_824_2012spring_yfs.Server.Window.{
  Window, bufs, Reply, scan, insert_reply, set_reply, checkduplicate_and_update, add_reply, replies,
}
use mit6_824_2012spring_yfs.Server.Window.Spec.{
  Increasing, live, acked, lookup_reply, judge, judge_request, scan-judge_request,
}
use mit6_824_2012spring_yfs.Server.Window.Order.{
  after, released, finish-put_replies, replies-put_replies, after-Increasing, set_reply-Increasing,
}
use mit6_824_2012spring_yfs.Server.Window.Blocks.{
  blocks, is_new, live-blocks, blocks-set_reply, judge_blocked, after-blocks, after-blocks_self,
}

-- One use of the window by rpcs::dispatch.
pub data Event : Type 0 where
  request : (clt xid xid_rep : ℕ) → Event
  reply : (clt xid b sz : ℕ) → Event

unfoldable pub step : Event → Window → Window
step (request c x rep) w = (checkduplicate_and_update c x rep w).1
step (reply c x b n) w = add_reply c x b n w

unfoldable pub run : List Event → Window → Window
run [] w = w
run (e ∷ es) w = run es (step e w)

-- Is this event a request of client `c` with this xid that is found to be new?
unfoldable pub executes : (c x : ℕ) → Event → Window → Bool
executes c x (request d y rep) w =
    (c == d) && ((x == y) && is_new (checkduplicate_and_update d y rep w).0.stat)
executes c x (reply d y b n) w = false

unfoldable pub executions : (c x : ℕ) → List Event → Window → ℕ
executions c x [] w = 0
executions c x (e ∷ es) w = (if executes c x e w then 1 else 0) + executions c x es (step e w)

-- A client acknowledges no reply beyond the request that it sends.
abbrev pub IsPlausible : Event → Type 0
IsPlausible (request c x rep) = rep ≤ x
IsPlausible (reply c x b n) = Unit {0}

abbrev pub empty_window : Window
empty_window = record { reply_window = []; freed = [] }

abbrev pub Ordered : Window → Type 0
Ordered w = (c : ℕ) → Increasing 0 (replies c w)

pub replies-request :
    (c d x rep : ℕ) (w : Window)
    → replies c (step (request d x rep) w)
      ≡ (if d == c then after x (scan x rep [] (replies d w) []) else replies c w)
unfolding step checkduplicate_and_update
replies-request c d x rep w =
    let s = scan x rep [] (replies d w) [] in
    rw (finish-put_replies d x w s) (replies-put_replies c d (after x s) (released s) w)

pub replies-reply :
    (c d x b n : ℕ) (w : Window)
    → replies c (step (reply d x b n) w)
      ≡ (if d == c then set_reply x b n (replies d w) else replies c w)
unfolding step add_reply
replies-reply c d x b n w = replies-put_replies c d _ [] w

pub step-Ordered : (e : Event) (w : Window) → Ordered w → Ordered (step e w)
step-Ordered (request d x rep) w o c = elim (Bool-cases (d == c)) [
  | inl same ↦ rw (replies-request c d x rep w, same) (after-Increasing x rep (replies d w) (o d))
  | inr other ↦ rw (replies-request c d x rep w, other) (o c)
]
step-Ordered (reply d x b n) w o c = elim (Bool-cases (d == c)) [
  | inl same ↦ rw (replies-reply c d x b n w, same) (set_reply-Increasing x b n 0 _ (o d))
  | inr other ↦ rw (replies-reply c d x b n w, other) (o c)
]

abbrev Barred : (c x : ℕ) → Window → Type 0
Barred c x w = blocks x (replies c w) ≡ true

after_nothing :
    (x y : ℕ) (fs : List ℕ) → x < y → blocks x (after y (judge y [] fs (lookup_reply y []))) ≡ true
unfolding lookup_reply insert_reply
after_nothing x y fs h = ground arith

request-blocks :
    (x y rep : ℕ) (ws : List Reply)
    → Increasing 0 ws
    → rep ≤ y
    → blocks x ws ≡ true
    → blocks x (after y (scan y rep [] ws [])) ≡ true
unfolding judge_request
request-blocks x y rep ws i h b =
    rw (scan-judge_request y rep 0 ws i) (elim (live-blocks x rep 0 ws i b) [
      | inl kept ↦ after-blocks x y (live rep ws) _ kept
      | inr (gone, none_left) ↦
          rw (none_left) (after_nothing x y (bufs (acked rep ws)) (omega arith))
    ])

step-Barred :
    (c x : ℕ) (e : Event) (w : Window)
    → Ordered w
    → IsPlausible e
    → Barred c x w
    → Barred c x (step e w)
step-Barred c x (request d y rep) w o p b = elim (Bool-cases (d == c)) [
  | inl same ↦
      rw (replies-request c d y rep w, same)
        (request-blocks x y rep (replies d w) (o d) p (rw ((==_iff d c).0 same) b))
  | inr other ↦ rw (replies-request c d y rep w, other) b
]
step-Barred c x (reply d y b' n) w o p b = elim (Bool-cases (d == c)) [
  | inl same ↦
      rw (replies-reply c d y b' n w, same, blocks-set_reply x y b' n (replies d w))
        (rw ((==_iff d c).0 same) b)
  | inr other ↦ rw (replies-reply c d y b' n w, other) b
]

verdict_blocked :
    (d x rep : ℕ) (w : Window)
    → Increasing 0 (replies d w)
    → rep ≤ x
    → blocks x (replies d w) ≡ true
    → is_new (checkduplicate_and_update d x rep w).0.stat ≡ false
unfolding checkduplicate_and_update judge_request
verdict_blocked d x rep w i h b =
    rw (scan-judge_request x rep 0 (replies d w) i) (elim (live-blocks x rep 0 (replies d w) i b) [
      | inl kept ↦ judge_blocked d x w (live rep (replies d w)) _ kept
      | inr (gone, none_left) ↦ absurd (omega arith)
    ])

executes-Barred-false :
    (c x : ℕ) (e : Event) (w : Window)
    → Ordered w
    → IsPlausible e
    → Barred c x w
    → executes c x e w ≡ false
unfolding executes
executes-Barred-false c x (request d y rep) w o p b =
    ground (
      arith,
      λ (same : c ≡ d) (it : x ≡ y). verdict_blocked d y rep w (o d) p (rw (← same, ← it) b),
    )
executes-Barred-false c x (reply d y b' n) w o p b = refl

executions-Barred :
    (c x : ℕ) (es : List Event) (w : Window)
    → Ordered w
    → All IsPlausible es
    → Barred c x w
    → executions c x es w ≡ 0
unfolding executions
executions-Barred c x [] w o p b = refl
executions-Barred c x (e ∷ es) w o p b = rw (executes-Barred-false c x e w o p.0 b) (
    omega (
      arith,
      executions-Barred c x es (step e w) (step-Ordered e w o) p.1 (step-Barred c x e w o p.0 b),
    ))

executes-Barred :
    (c x : ℕ) (e : Event) (w : Window) → Ordered w → executes c x e w ≡ true → Barred c x (step e w)
unfolding executes judge_request
executes-Barred c x (request d y rep) w o h =
    let k : (c ≡ d) × (x ≡ y) = ground arith in
    rw (k.0, k.1, replies-request d d y rep w, (==_iff d d).1 refl)
      (rw (scan-judge_request y rep 0 (replies d w) (o d))
        (after-blocks_self y (live rep (replies d w)) _))
executes-Barred c x (reply d y b' n) w o h = cc

executions-le_one :
    (c x : ℕ) (es : List Event) (w : Window)
    → Ordered w
    → All IsPlausible es
    → executions c x es w ≤ 1
unfolding executions
executions-le_one c x [] w o p = omega arith
executions-le_one c x (e ∷ es) w o p = elim (Bool-cases (executes c x e w)) [
  | inl first ↦ rw first (
      omega (
        arith,
        executions-Barred c x es (step e w) (step-Ordered e w o) p.1
            (executes-Barred c x e w o first),
      ))
  | inr not_yet ↦
      rw not_yet (omega (arith, executions-le_one c x es (step e w) (step-Ordered e w o) p.1))
]

-- From an empty window, over any history of requests and replies of any clients in which no client
-- acknowledges a reply beyond the xid that it sends, no request of a client is found new twice.
pub at_most_once :
    (c x : ℕ) (es : List Event) → All IsPlausible es → executions c x es empty_window ≤ 1
unfolding find
at_most_once c x es p = executions-le_one c x es empty_window (λ _. tt) p
