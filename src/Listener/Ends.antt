-- ===== src/Listener/Ends.antt =====
-- The destructor of tcpsconn after any run of its threads, and the loop of process_accept.
use mit6_824_2012spring_yfs.Prelude.{
  ℕ, ◌+◌, ◌≡◌, ◌∙◌, refl, sym, ap, Bool, true, false, Option, none, some, [], ◌∷◌, ◌==◌,
  if◌then◌else◌, ◌>>=◌, Map, arith, subst, Bool-cases, ==_iff, inl, inr, or_false,
}
use mit6_824_2012spring_yfs.Listener.{
  Conn, World, put_object, put_is_open, delete_conn, decref, close_conn, closeconn, new_conn,
  is_garbage, collect_garbage, Tcpsconn, new_tcpsconn, process_accept, close_all, end_tcpsconn,
}
use mit6_824_2012spring_yfs.Listener.System.{Run, has, Owned, Apart, is_kept}
use mit6_824_2012spring_yfs.Listener.Ordered.{Run-IsOrdered, new_tcpsconn-IsOrdered, refno_lem}

-- What the destructor leaves of a connection that others have `n` references to.
abbrev pub left : ℕ → Option Conn → Option Conn
left n none = none
left n (some c) = if n == 0 then none else some (record c { dead = true; refno = n })

abbrev IsCounted : (held : ℕ → ℕ) → World → ℕ → Type 0
IsCounted held w a = (c : Conn) × (w.objects a ≡ some c) × (c.refno ≡ held a + 1)

abbrev Counted : (held : ℕ → ℕ) → World → Map ℕ → Type 0
Counted held w [] = Unit {0}
Counted held w ((k, a) ∷ l) = IsCounted held w a × Counted held w l

Owned-Counted : (h : ℕ → ℕ) (w : World) (l : Map ℕ) → Owned h w l → Counted h w l
Owned-Counted h w [] o = tt
Owned-Counted h w ((k, a) ∷ l) o = ((o.0.0, o.0.1, o.0.3), Owned-Counted h w l o.1)

abbrev AgreeBut : ℕ → World → World → Type 0
AgreeBut a w u = (b : ℕ) → (b == a) ≡ false → u.objects b ≡ w.objects b

Counted-AgreeBut :
    (h : ℕ → ℕ) (a : ℕ) (w u : World) (l : Map ℕ)
    → AgreeBut a w u
    → has a l ≡ false
    → Counted h w l
    → Counted h u l
Counted-AgreeBut h a w u [] f n o = tt
Counted-AgreeBut h a w u ((k, b) ∷ l) f n o =
    let (x, y) = or_false (b == a) (has a l) n in
    ((o.0.0, f b x ∙ o.0.1, o.0.2), Counted-AgreeBut h a w u l f y o.1)

drop_dead :
    (a n : ℕ) (c : Conn) (w : World)
    → w.objects a ≡ some c
    → c.dead ≡ true
    → c.refno ≡ n + 1
    → (u : World) × (decref a w ≡ some u) × (u.objects a ≡ left n (some c)) × AgreeBut a w u
unfolding decref
drop_dead a n c w e d r = elim (Bool-cases (n == 0)) [
  | inl z ↦
      let q : c.refno ≡ 1 = ground (arith, r, z) in
      (delete_conn a c w, rw (e, q, d) refl, rw (z, (==_iff a a).1 refl) refl, λ b x. rw x refl)
  | inr z ↦ (
    put_object a (some (record c { dead = true; refno = n })) w,
    rw (e, r, d) (ground (arith, z, d)),
    rw (z, (==_iff a a).1 refl) refl,
    λ b x. rw x refl,
  )
]

close_conn-dead :
    (a : ℕ) (c : Conn) (w : World)
    → w.objects a ≡ some c
    → ((close_conn a c w).objects a ≡ some (record c { dead = true }))
      × AgreeBut a w (close_conn a c w)
close_conn-dead a c w e = elim (Bool-cases c.dead) [
  | inl y ↦ rw y (e ∙ ap (λ z. some (record c { dead = z })) y, λ b n. refl)
  | inr n ↦ rw (n, (==_iff a a).1 refl) (refl, λ b m. rw m refl)
]

-- One round of the loop.
close_one-left :
    (h : ℕ → ℕ) (w : World) (a : ℕ)
    → IsCounted h w a
    → (v u : World) × (closeconn a w ≡ some v)
      × (decref a v ≡ some u)
      × (u.objects a ≡ left (h a) (w.objects a))
      × AgreeBut a w u
unfolding closeconn
close_one-left h w a (c, e, r) =
    let d : Conn = record c { dead = true } in
    let v = close_conn a c w in
    let (s, f) = close_conn-dead a c w e in
    let (u, x, y, z) = drop_dead a (h a) d v s refl r in
    (v, u, rw e refl, x, rw e y, λ b n. z b n ∙ f b n)

close_all-left :
    (h : ℕ → ℕ) (w : World) (l : Map ℕ)
    → Counted h w l
    → Apart l
    → (u : World) × (close_all l w ≡ some u)
      × ((b : ℕ) → u.objects b ≡ (if has b l then left (h b) (w.objects b) else w.objects b))
unfolding close_all
close_all-left h w [] o p = (w, refl, λ b. refl)
close_all-left h w ((k, a) ∷ l) o p =
    let (v, u, x, y, z, q) = close_one-left h w a o.0 in
    let (t, e, f) = close_all-left h u l (Counted-AgreeBut h a w u l q p.0 o.1) p.1 in
    (
      t,
      rw (x, y) e,
      λ b. elim (Bool-cases (a == b)) [
        | inl m ↦
            let g = (==_iff a b).0 m in
            rw m (
              f b
              ∙ subst
                  (λ i.
                    (if has i l then left (h i) (u.objects i) else u.objects i)
                    ≡ left (h i) (w.objects i))
                  g (rw (p.0) z))
        | inr n ↦ rw n (f b ∙ rw (q b (ground (arith, n))) refl)
      ],
    )

kept_left :
    (n : ℕ) (x : Option Conn) (y : Bool) → is_kept x ≡ y → (if y then left n x else x) ≡ left n x
kept_left n none y e = rw (sym e) refl
kept_left n (some c) y e = rw (sym e) refl

-- After any run of the accept thread and of the threads that use the connections, the destructor
-- ends without a fault, and every connection is dead then. It is deleted if no one else has a
-- reference to it, and otherwise left with exactly the references of the others.
pub listener_ends :
    {t : Tcpsconn} {h : ℕ → ℕ}
    → Run new_tcpsconn (λ _. 0) t h
    → (u : World) × (end_tcpsconn t ≡ some u)
      × ((a : ℕ) → u.objects a ≡ left (h a) (t.world.objects a))
unfolding end_tcpsconn
listener_ends {t} {h} r =
    let v = Run-IsOrdered new_tcpsconn-IsOrdered r in
    let (u, e, f) =
      close_all-left h t.world t.conns (Owned-Counted h t.world t.conns v.owned) v.apart in
    (u, e, λ a. f a ∙ kept_left (h a) (t.world.objects a) (has a t.conns) (v.kept a))

fails : Conn → Option World
fails c = if is_garbage c then none else none

no_way : (x : Option Conn) → (x >>= fails) ≡ none
unfolding fails
no_way none = refl
no_way (some c) = ground arith

garbage_found :
    (l : Map ℕ) (a : ℕ) (c : Conn) (w : World)
    → has a l ≡ true
    → w.objects a ≡ some c
    → is_garbage c ≡ true
    → collect_garbage l w ≡ none
unfolding collect_garbage fails
garbage_found [] a c w h e g = absurd cc
garbage_found ((k, b) ∷ l) a c w h e g = elim (Bool-cases (b == a)) [
  | inl t ↦ let x : w.objects b ≡ some c = ap w.objects ((==_iff b a).0 t) ∙ e in rw (x, g) refl
  | inr n ↦ rw (garbage_found l a c w (simp n at h) e g) (no_way (w.objects b))
]

-- After any run, once some connection is dead and only conns_ refers to it, process_accept goes on
-- with an iterator that it has erased.
pub accept_with_garbage :
    {t : Tcpsconn} {h : ℕ → ℕ} (k a b : ℕ) (c : Conn)
    → Run new_tcpsconn (λ _. 0) t h
    → t.world.objects a ≡ none
    → t.world.objects b ≡ some c
    → c.dead ≡ true
    → h b ≡ 0
    → process_accept k a t ≡ none
unfolding process_accept
accept_with_garbage {t} {h} k a b c r f e d z =
    let v = Run-IsOrdered new_tcpsconn-IsOrdered r in
    let n : c.refno ≡ 1 = refno_lem t h b c v e ∙ ap (λ i. i + 1) z in
    let w = put_is_open k true (put_object a (some (new_conn k)) t.world) in
    let x : w.objects b ≡ some c = elim (Bool-cases (b == a)) [
      | inl y ↦
          (let q : none ≡ some c = sym f ∙ ap t.world.objects (sym ((==_iff b a).0 y)) ∙ e in
            absurd cc)
      | inr y ↦ rw y e
    ] in
    let g = garbage_found t.conns b c w (sym (v.kept b) ∙ ap is_kept e) x (rw (d, n) refl) in
    rw g refl
