-- ===== src/Client/Channel.antt =====
-- rpcc::get_refconn (rpc/rpc.cc lines 299-315), and what call1 and ~rpcc do with the connections that
-- it hands out (lines 137-139, 293-294).
--
-- A connection is the number of its address; `refs` are the reference counts. What isdead and
-- connect_to_dst answer are parameters. `none` is the assertion of decref that a count does not fall
-- below 0.
mod Examples
use mit6_824_2012spring_yfs.Prelude.{
  ℕ, ◌+◌, ◌≤◌, ◌-◌, ◌≡◌, ◌⊎◌, ◌∙◌, ap, inl, inr, refl, Bool, true, false, Option, none, some, ◌==◌,
  ◌>>=◌, if◌then◌else◌, arith, ltb, Bool-cases, ==_iff,
}

pub record Channel : Type 0 where
  pub chan : Option ℕ
  pub refs : ℕ → ℕ

abbrev pub incref : ℕ → Channel → Channel
incref c s = record s { refs = λ i. if i == c then s.refs i + 1 else s.refs i }

abbrev pub decref : ℕ → Channel → Option Channel
decref c s =
    if s.refs c == 0
    then none
    else some (record s { refs = λ i. if i == c then s.refs i - 1 else s.refs i })

-- `if(p) p->decref();`
abbrev pub drop_ref : Option ℕ → Channel → Option Channel
drop_ref none s = some s
drop_ref (some c) s = decref c s

-- chan_ = connect_to_dst(...), which gives NULL or a new connection with one reference.
abbrev pub set_chan : Option ℕ → Channel → Channel
set_chan none s = record s { chan = none }
set_chan (some c) s = record { chan = some c; refs = λ i. if i == c then 1 else s.refs i }

abbrev pub is_lost : (ℕ → Bool) → Option ℕ → Bool
is_lost dead none = true
is_lost dead (some c) = dead c

-- Lines 308-314: what *ch is afterwards.
abbrev pub hand_out : (chan ch : Option ℕ) → Channel → Option (Option ℕ × Channel)
hand_out none ch s = some (ch, s)
hand_out (some c) ch s = drop_ref ch s >>= λ t. some (some c, incref c t)

-- `ch` is what *ch is before.
pub get_refconn : (ℕ → Bool) → (connected ch : Option ℕ) → Channel → Option (Option ℕ × Channel)
get_refconn dead connected ch s =
    if is_lost dead s.chan
    then (drop_ref s.chan s >>= λ t. hand_out connected ch (set_chan connected t))
    else hand_out s.chan ch s

-- How many references to `c` a pointer is.
abbrev pub holds : Option ℕ → ℕ → ℕ
holds none c = 0
holds (some d) c = if d == c then 1 else 0

-- The count of every connection is the number of references to it: those of chan_, of the thread
-- in get_refconn, and of the others.
abbrev pub Balanced : (others : ℕ → ℕ) → Option ℕ → Channel → Type 0
Balanced others ch s = (c : ℕ) → s.refs c ≡ holds s.chan c + holds ch c + others c

-- A connection that connect_to_dst returns is new.
abbrev pub IsNew : Option ℕ → Channel → Type 0
IsNew none s = Unit {0}
IsNew (some c) s = s.refs c ≡ 0

-- What a pointer is set to, if `o` is not NULL.
abbrev pub or_else : Option ℕ → Option ℕ → Option ℕ
or_else none d = d
or_else (some c) d = some c

drop_ref_lem :
    (p : Option ℕ) (s : Channel) (rest : ℕ → ℕ)
    → ((c : ℕ) → s.refs c ≡ holds p c + rest c)
    → (t : Channel) × (drop_ref p s ≡ some t) × (t.chan ≡ s.chan) × ((c : ℕ) → t.refs c ≡ rest c)
drop_ref_lem none s rest b = (s, refl, refl, λ c. omega (arith, b c))
drop_ref_lem (some d) s rest b =
    let z : (s.refs d == 0) ≡ false = ground (arith, b d) in
    (
      record s { refs = λ i. if i == d then s.refs i - 1 else s.refs i },
      simp z refl,
      refl,
      λ c. ground (arith, b c),
    )

hand_out_lem :
    (chan ch : Option ℕ) (s : Channel) (others : ℕ → ℕ)
    → s.chan ≡ chan
    → Balanced others ch s
    → (ch' : Option ℕ) × (t : Channel) × (hand_out chan ch s ≡ some (ch', t))
      × Balanced others ch' t
      × (t.chan ≡ chan)
      × (ch' ≡ or_else chan ch)
hand_out_lem none ch s others e b = (ch, s, refl, b, e, refl)
hand_out_lem (some d) ch s others e b =
    let (t, q, k, r) =
      drop_ref_lem ch s (λ c. holds s.chan c + others c) (λ c. omega (arith, b c)) in
    (
      some d,
      incref d t,
      rw q refl,
      λ c. ground (arith, r c, ap (λ o. holds o c) (k ∙ e), ap (λ o. holds o c) e),
      k ∙ e,
      refl,
    )

set_chan-Balanced :
    (connected ch : Option ℕ) (s : Channel) (others : ℕ → ℕ)
    → IsNew connected s
    → ((c : ℕ) → s.refs c ≡ holds ch c + others c)
    → Balanced others ch (set_chan connected s) × ((set_chan connected s).chan ≡ connected)
set_chan-Balanced none ch s others n b = (λ c. omega (arith, b c), refl)
set_chan-Balanced (some d) ch s others n b = (λ c. ground (arith, b c, n), refl)

connected-IsNew :
    (connected : Option ℕ) (s u : Channel)
    → IsNew connected s
    → ((c : ℕ) → u.refs c ≤ s.refs c)
    → IsNew connected u
connected-IsNew none s u n b = tt
connected-IsNew (some d) s u n b = omega (arith, b d)

-- After get_refconn every count is still the number of references, and no assertion of decref has
-- failed. If the channel is lost, it is replaced by the new connection, which the thread gets; if
-- connecting fails, the thread keeps what it had. The condition is that a new connection has no
-- references before.
pub get_refconn_balances :
    (dead : ℕ → Bool) (connected ch : Option ℕ) (s : Channel) (others : ℕ → ℕ)
    → IsNew connected s
    → Balanced others ch s
    → (ch' : Option ℕ) × (t : Channel) × (get_refconn dead connected ch s ≡ some (ch', t))
      × Balanced others ch' t
      × (t.chan ≡ (if is_lost dead s.chan then connected else s.chan))
      × (ch' ≡ or_else (if is_lost dead s.chan then connected else s.chan) ch)
unfolding get_refconn
get_refconn_balances dead connected ch s others n b = elim (Bool-cases (is_lost dead s.chan)) [
  | inl l ↦
      let (u, q, k, r) =
        drop_ref_lem s.chan s (λ c. holds ch c + others c) (λ c. omega (arith, b c)) in
      let (v, w) =
        set_chan-Balanced connected ch u others
          (connected-IsNew connected s u n (λ c. omega (arith, b c, r c))) r in
      let (ch', t, p, x, y, z) = hand_out_lem connected ch (set_chan connected u) others w v in
      (ch', t, simp (l, q) p, x, y ∙ simp l refl, z ∙ simp l refl)
  | inr l ↦ simp l (hand_out_lem s.chan ch s others refl b)
]
