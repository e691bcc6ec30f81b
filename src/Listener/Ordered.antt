-- ===== src/Listener/Ordered.antt =====
-- The steps of the threads keep the connections of a tcpsconn in order.
use mit6_824_2012spring_yfs.Prelude.{
  ℕ, ◌+◌, ◌≡◌, ◌∙◌, refl, sym, ap, Bool, true, false, Option, none, some, [], ◌∷◌, ◌==◌, Map,
  insert, arith, subst, Bool-cases, bind-some, some_same, ==_iff, inl, inr, some_pair,
}
use mit6_824_2012spring_yfs.Listener.{
  Conn, World, put_object, put_is_open, new_conn, decref, incref, close_conn, closeconn, is_garbage,
  collect_garbage, Tcpsconn, new_tcpsconn, process_accept, Waited, interrupted, failed, ready,
  accept_round, after_accept,
}
use mit6_824_2012spring_yfs.Listener.System.{
  more, Step, IsNew, waits, takes, dies, drops, Run, start, later, has, IsOwned, is_kept, IsOrdered,
  Owned-map, Owned-find,
}
use mit6_824_2012spring_yfs.Listener.Entries.{Owned-fresh, has-insert, Owned-insert, Apart-insert}

put-IsOrdered :
    (s : Tcpsconn) (g h : ℕ → ℕ) (a : ℕ) (c d : Conn)
    → IsOrdered s g
    → s.world.objects a ≡ some c
    → d.fd ≡ c.fd
    → d.refno ≡ h a + 1
    → ((i : ℕ) → (i == a) ≡ false → h i ≡ g i)
    → IsOrdered (record s { world = put_object a (some d) s.world }) h
put-IsOrdered s g h a c d v e f r k = record {
  owned =
      Owned-map g h s.world _ s.conns
        (λ j b y o. elim (Bool-cases (b == a)) [
          | inl t ↦
              let x = some_same (sym o.1 ∙ ap s.world.objects ((==_iff b a).0 t) ∙ e) in
              (
                d,
                rw t refl,
                f ∙ sym (ap (λ (z : Conn). z.fd) x) ∙ o.2,
                r ∙ ap (λ z. h z + 1) (sym ((==_iff b a).0 t)),
                o.4,
              )
          | inr n ↦ (o.0, rw n o.1, o.2, o.3 ∙ ap (λ z. z + 1) (sym (k b n)), o.4)
        ])
        v.owned;
  apart = v.apart;
  kept = λ i. elim (Bool-cases (i == a)) [
    | inl t ↦
        rw t (sym (ap is_kept e) ∙ v.kept a ∙ ap (λ z. has z s.conns) (sym ((==_iff i a).0 t)))
    | inr n ↦ rw n (v.kept i)
  ];
  safe = λ i z. elim (Bool-cases (i == a)) [
    | inl t ↦ (let y : some d ≡ none = simp t at z in absurd cc)
    | inr n ↦ k i n ∙ v.safe i (simp n at z)
  ];
}

collect_garbage-same : (l : Map ℕ) (v w : World) → collect_garbage l v ≡ some w → v ≡ w
unfolding collect_garbage
collect_garbage-same [] v w e = some_same e
collect_garbage-same ((k, a) ∷ l) v w e =
    let (c, x, y) = bind-some (v.objects a) _ w e in
    elim (Bool-cases (is_garbage c)) [
      | inl t ↦ (let z : none ≡ some w = simp t at y in absurd cc)
      | inr n ↦ collect_garbage-same l v w (simp n at y)
    ]

decref-keeps :
    (a : ℕ) (c : Conn) (w : World) (n : ℕ)
    → w.objects a ≡ some c
    → c.refno ≡ n + 2
    → decref a w ≡ some (put_object a (some (record c { refno = n + 1 })) w)
unfolding decref
decref-keeps a c w n e r = rw (e, r) (ground arith)

-- The count of a connection that is there.
pub refno_lem :
    (s : Tcpsconn) (g : ℕ → ℕ) (a : ℕ) (c : Conn)
    → IsOrdered s g
    → s.world.objects a ≡ some c
    → c.refno ≡ g a + 1
refno_lem s g a c v x =
    let (k, o) = Owned-find g s.world s.conns a (sym (v.kept a) ∙ ap is_kept x) v.owned in
    ap (λ (z : Conn). z.refno) (some_same (sym x ∙ o.1)) ∙ o.3

drop_from-keeps :
    (s : Tcpsconn) (g h : ℕ → ℕ) (a : ℕ) (x : Option Conn)
    → IsOrdered s g
    → g ≡ more a h
    → s.world.objects a ≡ x
    → (w : World) × (decref a s.world ≡ some w) × IsOrdered (record s { world = w }) h
drop_from-keeps s g h a none v e x = absurd (ground (arith, v.safe a x, ap (λ z. z a) e))
drop_from-keeps s g h a (some c) v e x =
    let n : c.refno ≡ h a + 2 = ground (arith, refno_lem s g a c v x, ap (λ z. z a) e) in
    (
      _,
      decref-keeps a c s.world (h a) x n,
      put-IsOrdered s g h a c (record c { refno = h a + 1 }) v x refl refl
          (λ i n. ground (arith, n, ap (λ z. z i) e)),
    )

-- While the connections are in order, who has a reference to one can give it back.
pub drop-keeps :
    (s : Tcpsconn) (g h : ℕ → ℕ) (a : ℕ)
    → IsOrdered s g
    → g ≡ more a h
    → (w : World) × (decref a s.world ≡ some w) × IsOrdered (record s { world = w }) h
drop-keeps s g h a v e = drop_from-keeps s g h a (s.world.objects a) v e refl

accept-IsOrdered :
    (s : Tcpsconn) (g : ℕ → ℕ) (k a : ℕ)
    → IsOrdered s g
    → s.world.is_open k ≡ false
    → s.world.objects a ≡ none
    → IsOrdered
        (record {
          conns = insert k a s.conns;
          world = put_is_open k true (put_object a (some (new_conn k)) s.world);
        })
        g
accept-IsOrdered s g k a v n f =
    let w = put_is_open k true (put_object a (some (new_conn k)) s.world) in
    let z = Owned-fresh g s.world s.conns k n v.owned in
    let m : has a s.conns ≡ false = sym (v.kept a) ∙ ap is_kept f in
    let ka : IsOwned g w k a = (
      new_conn k,
      rw ((==_iff a a).1 refl) refl,
      refl,
      rw (v.safe a f) refl,
      rw ((==_iff k k).1 refl) refl,
    ) in
    record {
      owned = Owned-insert g w k a s.conns z ka (
          Owned-map g g s.world w s.conns
            (λ j b y o. (o.0, ground (arith, o.1, m, y), o.2, o.3, ground (arith, o.4))) v.owned);
      apart = Apart-insert k a s.conns z m v.apart;
      kept = λ b. rw (has-insert k a b s.conns z) (ground (arith, v.kept b));
      safe = λ b e. v.safe b (ground (arith, e, f));
    }

process_accept-IsOrdered :
    (s t : Tcpsconn) (g : ℕ → ℕ) (k a : ℕ)
    → IsOrdered s g
    → s.world.is_open k ≡ false
    → s.world.objects a ≡ none
    → process_accept k a s ≡ some t
    → IsOrdered t g
unfolding process_accept
process_accept-IsOrdered s t g k a v n f e =
    let (w, x, y) = bind-some (collect_garbage s.conns _) _ t e in
    let z = collect_garbage-same s.conns _ w x in
    subst (λ q. IsOrdered q g)
      (ap (λ q. record { conns = insert k a s.conns; world = q }) z ∙ some_same y)
      (accept-IsOrdered s g k a v n f)

round-IsOrdered :
    (s t : Tcpsconn) (g : ℕ → ℕ) (r : Waited) (x : Option ℕ) (a : ℕ) (go : Bool)
    → IsOrdered s g
    → IsNew x s
    → s.world.objects a ≡ none
    → accept_round r x a s ≡ some (go, t)
    → IsOrdered t g
unfolding accept_round after_accept
round-IsOrdered s t g interrupted x a go v n f e = subst (λ q. IsOrdered q g) ((some_pair e).1) v
round-IsOrdered s t g failed x a go v n f e = absurd cc
round-IsOrdered s t g (ready true b) x a go v n f e = subst (λ q. IsOrdered q g) ((some_pair e).1) v
round-IsOrdered s t g (ready false false) x a go v n f e = absurd cc
round-IsOrdered s t g (ready false true) none a go v n f e =
    subst (λ q. IsOrdered q g) ((some_pair e).1) v
round-IsOrdered s t g (ready false true) (some k) a go v n f e =
    let (u, x, y) = bind-some (process_accept k a s) _ (go, t) e in
    subst (λ q. IsOrdered q g) ((some_pair y).1) (process_accept-IsOrdered s u g k a v n f x)

close_conn-IsOrdered :
    (s : Tcpsconn) (g : ℕ → ℕ) (a : ℕ) (c : Conn)
    → IsOrdered s g
    → s.world.objects a ≡ some c
    → IsOrdered (record s { world = close_conn a c s.world }) g
close_conn-IsOrdered s g a c v x = elim (Bool-cases c.dead) [
  | inl y ↦ rw y v
  | inr n ↦ rw n (
      put-IsOrdered s g g a c (record c { dead = true }) v x refl (refno_lem s g a c v x)
        (λ i m. refl))
]

Step-IsOrdered : {s t : Tcpsconn} {g h : ℕ → ℕ} → IsOrdered s g → Step s g t h → IsOrdered t h
unfolding incref closeconn
Step-IsOrdered {s} {t} {g} {h} v (waits r k a go n f e) = round-IsOrdered s t g r k a go v n f e
Step-IsOrdered {s} {t} {g} {h} v (takes a e) =
    let (c, x, y) = bind-some (s.world.objects a) _ _ e in
    let r = refno_lem s g a c v x in
    subst (λ z. IsOrdered (record s { world = z }) (more a g)) (some_same y)
      (put-IsOrdered s g (more a g) a c (record c { refno = c.refno + 1 }) v x refl
        (rw ((==_iff a a).1 refl, r) refl) (λ i n. rw n refl))
Step-IsOrdered {s} {t} {g} {h} v (dies a e) =
    let (c, x, y) = bind-some (s.world.objects a) _ _ e in
    subst (λ z. IsOrdered (record s { world = z }) g) (some_same y)
      (close_conn-IsOrdered s g a c v x)
Step-IsOrdered {s} {t} {g} {h} v (drops a k e) =
    let (w, x, y) = drop-keeps s g h a v k in
    subst (λ z. IsOrdered (record s { world = z }) h) (some_same (sym x ∙ e)) y

pub Run-IsOrdered :
    {s : Tcpsconn} {g : ℕ → ℕ} {t : Tcpsconn} {h : ℕ → ℕ}
    → IsOrdered s g
    → Run s g t h
    → IsOrdered t h
Run-IsOrdered v start = v
Run-IsOrdered v (later r x) = Step-IsOrdered (Run-IsOrdered v r) x

pub new_tcpsconn-IsOrdered : IsOrdered new_tcpsconn (λ _. 0)
unfolding new_tcpsconn
new_tcpsconn-IsOrdered = record { owned = tt; apart = tt; kept = λ a. refl; safe = λ a e. refl }
