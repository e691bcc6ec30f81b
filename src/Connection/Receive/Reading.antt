-- ===== src/Connection/Receive/Reading.antt =====
-- What readpdu leaves in the buffer: the bytes that have been read behind the last message.
use mit6_824_2012spring_yfs.Prelude.{
  some_pair, ℕ, ◌≡◌, ◌⊎◌, inl, inr, sym, ap, ◌∙◌, Bool, true, false, some, List, ◌++◌,
  if◌then◌else◌, ◌==◌, append_assoc, append-nil, arith, bind-some,
}
use mit6_824_2012spring_yfs.Connection.{Charbuf, Connection}
use mit6_824_2012spring_yfs.Connection.Receive.{
  Arrival, empty_charbuf, read_size, read_body, readpdu,
}
use mit6_824_2012spring_yfs.Connection.Receive.Buffer.{
  Free, Reading, Filled, read_size_lem, read_body_lem, Sized-body,
}

-- What readpdu does to a connection that has read `before` and a part of a message.
abbrev pub ReadOn : List ℕ → (c d : Connection) → Bool → Type 0
ReadOn before c d ok =
    (d.dead ≡ c.dead)
    × (((ok ≡ true) × Reading before d)
        ⊎ ((ok ≡ false) × (d.rpdu ≡ empty_charbuf) × ((x : List ℕ) × (d.inp ≡ before ++ x))))

Filled-ReadOn :
    (before rest : List ℕ) (c d : Connection) (ok : Bool)
    → c.inp ≡ before ++ rest
    → Filled rest c d ok
    → ReadOn before c d ok
Filled-ReadOn before rest c d ok i (dd, new, j, k) =
    let p : d.inp ≡ before ++ (rest ++ new) =
      j ∙ ap (λ (z : List ℕ). z ++ new) i ∙ append_assoc before rest new in
    (
      dd,
      elim k [
        | inl (o, e) ↦ inr (o, e, (rest ++ new, p))
        | inr (o, b) ↦ inl (o, record { rest = rest ++ new; inp = p; state = inl b })
      ],
    )

after_size :
    (a : Arrival) (before rest : List ℕ) (c c' d : Connection) (ok' ok : Bool)
    → c.inp ≡ before ++ rest
    → Free rest c
    → read_size a.first a.junk c ≡ some (ok', c')
    → (if ok' then read_body a.second a.stale c' else some (ok', c')) ≡ some (ok, d)
    → ReadOn before c d ok
after_size a before rest c c' d ok' ok i s q r =
    let (dd, new, j, k) = read_size_lem a.first a.junk c c' ok' q in
    let here : c'.inp ≡ before ++ new =
      j
      ∙ ap (λ (z : List ℕ). z ++ new)
          (i ∙ ap (λ (z : List ℕ). before ++ z) s.nothing ∙ append-nil before) in
    elim k [
      | inl (o, e) ↦
          let (x, y) = some_pair (simp o at r) in
          (
            ap (λ (w : Connection). w.dead) (sym y) ∙ dd,
            inr (
              sym x,
              ap (λ (w : Connection). w.rpdu) (sym y) ∙ e ∙ s.rpdu,
              (new, ap (λ (w : Connection). w.inp) (sym y) ∙ here),
            ),
          )
      | inr (o, z) ↦
          let b : read_body a.second a.stale c' ≡ some (ok, d) = simp o at r in
          let busy = Sized-body a.second a.stale new c' d ok z b in
          let (w, t) =
            Filled-ReadOn before new c' d ok here
              (read_body_lem a.second a.stale new c' d ok busy b) in
          (w ∙ dd, t)
    ]

pub readpdu_lem :
    (a : Arrival) (before : List ℕ) (c d : Connection) (ok : Bool)
    → Reading before c
    → readpdu a c ≡ some (ok, d)
    → ReadOn before c d ok
unfolding readpdu
readpdu_lem a before c d ok v e = elim v.state [
  | inl b ↦
      let z : (c.rpdu.sz == 0) ≡ false = ground (arith, b.le, b.has_size) in
      Filled-ReadOn before v.rest c d ok v.inp
        (read_body_lem a.second a.stale v.rest c d ok b (simp z at e))
  | inr s ↦
      let z : (c.rpdu.sz == 0) ≡ true = ap (λ (x : Charbuf). x.sz == 0) s.rpdu in
      let ((ok', c'), q, r) = bind-some (read_size a.first a.junk c) _ (ok, d) (simp z at e) in
      after_size a before v.rest c c' d ok' ok v.inp s q r
]
