-- ===== src/Connection/Whole.antt =====
-- A message goes out whole and in order, in however many pieces write() takes it.
use mit6_824_2012spring_yfs.Prelude.{
  ℕ, zero, suc, ◌+◌, ◌-◌, ◌≤◌, ◌≡◌, ◌≢◌, ◌⊎◌, inl, inr, refl, sym, ap, ◌∙◌, subst, Bool, true,
  false, Option, none, some, List, [], ◌∷◌, ◌++◌, length, take, drop, append_assoc, ◌==◌,
  if◌then◌else◌, ◌>>=◌, bind-some, Memory, copy, slice, At, At-append, At-left, At-right, At-copy,
  At-copy_below, arith, ℕ_discrete,
}
use mit6_824_2012spring_yfs.Marshal.Out.Appends.{be32}
use mit6_824_2012spring_yfs.Connection.{
  Connection, Wrote, wrote, again, failed, write_from, writepdu, returns, finish, write_cb,
  after_cb,
}

slice-take :
    (f : Memory) (i k m : ℕ) (xs : List ℕ)
    → At f i xs
    → k + m ≤ length xs
    → slice f (i + k) m ≡ take m (drop k xs)
unfolding slice
slice-take f i k zero xs a h = refl
slice-take f i zero (suc m) [] a h = absurd (omega (arith, h))
slice-take f i zero (suc m) (x ∷ xs) (a, as') h =
    let ih = slice-take f (i + 1) zero m xs as' (omega (arith, h)) in ground (arith, a, ih)
slice-take f i (suc k) (suc m) [] a h = absurd (omega (arith, h))
slice-take f i (suc k) (suc m) (x ∷ xs) (a, as') h =
    subst (λ j. slice f j (suc m) ≡ take (suc m) (drop k xs)) (omega arith)
      (slice-take f (i + 1) k (suc m) xs as' (omega (arith, h)))

abbrev no_bytes : List ℕ
no_bytes = []

pass_if : {A : Type 0} (b : Bool) (x y : A) → b ≡ false → (if b then x else y) ≡ y
pass_if true x y e = cc
pass_if false x y e = refl

option_same : {A : Type 0} {x y : A} → some x ≡ some y → x ≡ y
option_same e = cc

take-nil : (n : ℕ) → take n no_bytes ≡ no_bytes
take-nil zero = refl
take-nil (suc n) = refl

take-add : (k m : ℕ) (xs : List ℕ) → take (k + m) xs ≡ take k xs ++ take m (drop k xs)
take-add zero m xs = let e : zero + m ≡ m = omega arith in ap (λ (j : ℕ). take j xs) e
take-add (suc k) zero [] = take-nil (suc k + zero)
take-add (suc k) (suc m) [] = take-nil (suc k + suc m)
take-add (suc k) m (x ∷ xs) =
    let e : suc k + m ≡ suc (k + m) = omega arith in
    ap (λ (j : ℕ). take j (x ∷ xs)) e ∙ ap (λ (l : List ℕ). x ∷ l) (take-add k m xs)

pub take-all : (xs : List ℕ) → take (length xs) xs ≡ xs
take-all [] = refl
take-all (x ∷ xs) = ap (λ (l : List ℕ). x ∷ l) (take-all xs)

-- write() takes no more than it is given.
abbrev pub Takes : Wrote → ℕ → Type 0
Takes (wrote m) left = m ≤ left
Takes again left = Unit {0}
Takes failed left = Unit {0}

-- The message is `b` with its size in front, followed by `rest`.
module _ (n : ℕ) (rest : List ℕ) where
  abbrev pub message : List ℕ
  message = be32 n ++ rest

  -- While the message is being sent: the first `k` bytes are out.
  pub record Partly (before : List ℕ) (c : Connection) : Type 0 where
    pub f : Memory
    pub k : ℕ
    pub alive : c.dead ≡ false
    pub sz : c.wpdu.sz ≡ n
    pub buf : c.wpdu.buf ≡ some f
    pub solong : c.wpdu.solong ≡ some k
    pub le : k ≤ n
    pub body : At f 4 rest
    pub head : (k ≡ 0) ⊎ (At f 0 (be32 n))
    pub out : c.out ≡ before ++ take k message

  -- After the connection has died.
  pub record Broken (before : List ℕ) (c : Connection) : Type 0 where
    pub k : ℕ
    pub gone : c.dead ≡ true
    pub out : c.out ≡ before ++ take k message

  -- The buffer that is written from, with the size in it.
  framed_body :
      (f : Memory) (k : ℕ)
      → At f 4 rest
      → (k ≡ 0) ⊎ (At f 0 (be32 n))
      → At (if k == 0 then copy f 0 (be32 n) else f) 0 message
  framed_body f zero b h =
      At-append (copy f 0 (be32 n)) 0 (be32 n) rest (At-copy f 0 (be32 n))
        (At-copy_below f 0 4 (be32 n) rest (omega arith) b)
  framed_body f (suc k) b (inl e) = absurd (ground (arith, e))
  framed_body f (suc k) b (inr h) =
      let e : (suc k == 0) ≡ false = ground arith in
      subst (λ (z : Bool). At (if z then copy f 0 (be32 n) else f) 0 message) (sym e)
        (At-append f 0 (be32 n) rest h b)

  writepdu_full :
      (before : List ℕ) (r : Wrote) (c : Connection) (v : Partly before c)
      → v.k ≡ n
      → writepdu r c ≡ some (true, c)
  unfolding writepdu
  writepdu_full before r c v e = ground (arith, e, v.solong, v.sz)

  pub writepdu_rest :
      (before : List ℕ) (r : Wrote) (c : Connection) (v : Partly before c)
      → v.k ≢ n
      → writepdu r c ≡ write_from r v.k (some v.f) c
  unfolding writepdu
  writepdu_rest before r c v e =
      ground (arith, e, v.solong, v.sz, ap (λ (b : Option Memory). write_from r v.k b c) v.buf)

  -- The buffer after an attempt.
  abbrev framed : Memory → ℕ → ℕ → Memory
  framed f k size = if k == 0 then copy f 0 (be32 size) else f

  pub write_more :
      (before : List ℕ) (r : Wrote) (c : Connection)
      → length message ≡ n
      → (v : Partly before c) → v.k ≢ n
      → Takes r (n - v.k)
      → (ok : Bool) × (d : Connection) × (write_from r v.k (some v.f) c ≡ some (ok, d))
        × (((ok ≡ true) × Partly before d) ⊎ ((ok ≡ false) × (d.out ≡ before ++ take v.k message)))
  unfolding write_from
  write_more before (wrote m) c len v ne t =
      let f = framed v.f v.k c.wpdu.sz in
      let a : At f 0 message =
        subst (λ z. At (framed v.f v.k z) 0 message) (sym v.sz)
          (framed_body v.f v.k v.body v.head) in
      let b : slice f (0 + v.k) m ≡ take m (drop v.k message) =
        slice-take f 0 v.k m message a (omega (arith, v.le, t, len)) in
      let b' : slice f v.k m ≡ take m (drop v.k message) =
        subst (λ j. slice f j m ≡ take m (drop v.k message)) (omega arith) b in
      (
        true,
        record c {
          wpdu = record c.wpdu { buf = some f; solong = some (v.k + m) };
          out = c.out ++ slice f v.k m;
        },
        refl,
        inl (
          refl,
          record {
            f = f;
            k = v.k + m;
            alive = v.alive;
            sz = v.sz;
            buf = refl;
            solong = refl;
            le = omega (arith, v.le, t);
            body = At-right f 0 (be32 n) rest a;
            head = inr (At-left f 0 (be32 n) rest a);
            out =
                ap (λ (l : List ℕ). l ++ slice f v.k m) v.out
                ∙ append_assoc before (take v.k message) (slice f v.k m)
                ∙ ap (λ (l : List ℕ). before ++ (take v.k message ++ l)) b'
                ∙ ap (λ (l : List ℕ). before ++ l) (sym (take-add v.k m message));
          },
        ),
      )
  write_more before again c len v ne t =
      let f = framed v.f v.k c.wpdu.sz in
      let a : At f 0 message =
        subst (λ z. At (framed v.f v.k z) 0 message) (sym v.sz)
          (framed_body v.f v.k v.body v.head) in
      (
        true,
        record c { wpdu = record c.wpdu { buf = some f } },
        refl,
        inl (
          refl,
          record {
            f = f;
            k = v.k;
            alive = v.alive;
            sz = v.sz;
            buf = refl;
            solong = v.solong;
            le = v.le;
            body = At-right f 0 (be32 n) rest a;
            head = inr (At-left f 0 (be32 n) rest a);
            out = v.out;
          },
        ),
      )
  write_more before failed c len v ne t =
      let f = framed v.f v.k c.wpdu.sz in
      (
        false,
        record c { wpdu = record { buf = some f; sz = 0; solong = none } },
        refl,
        inr (refl, v.out),
      )

  write_cb_alive :
      (before : List ℕ) (r : Wrote) (c : Connection)
      → length message ≡ n
      → Partly before c
      → write_cb r c ≡ (writepdu r c >>= after_cb)
  unfolding write_cb
  write_cb_alive before r c len v =
      pass_if c.dead _ _ v.alive ∙ pass_if (c.wpdu.sz == 0) _ _ (ground (arith, v.sz, len))

  -- A callback of the poll manager while the message is being sent.
  pub write_cb_step :
      (before : List ℕ) (r : Wrote) (c d : Connection) (s : Bool)
      → length message ≡ n
      → (v : Partly before c) → Takes r (n - v.k)
      → write_cb r c ≡ some (s, d)
      → Partly before d ⊎ Broken before d
  write_cb_step before r c d s len v t e =
      let (p, e₁, k₁) =
        bind-some (writepdu r c) after_cb (s, d) (sym (write_cb_alive before r c len v) ∙ e) in
      elim (ℕ_discrete v.k n) [
        | yes full ↦
            let q : (true, c) ≡ p = option_same (sym (writepdu_full before r c v full) ∙ e₁) in
            inl (subst (Partly before) (ground (arith, q, k₁)) v)
        | no more ↦
            let (ok, d', w, x) = write_more before r c len v more t in
            let q : (ok, d') ≡ p =
              option_same (sym w ∙ sym (writepdu_rest before r c v more) ∙ e₁) in
            elim x [
              | inl (y, u) ↦ inl (subst (Partly before) (ground (arith, q, y, k₁)) u)
              | inr (z, o) ↦
                  let g : d ≡ record d' { wants_read = false; wants_write = false; dead = true } =
                    ground (arith, q, z, k₁) in
                  inr (record {
                    k = v.k;
                    gone = ap (λ (y : Connection). y.dead) g;
                    out = ap (λ (y : Connection). y.out) g ∙ o;
                  })
            ]
      ]

  pub finish_lem :
      (before : List ℕ) (c g : Connection) (ret s : Bool)
      → length message ≡ n
      → Partly before c ⊎ Broken before c
      → finish c ≡ returns ret s g
      → ((ret ≡ false) ⊎ (g.out ≡ before ++ message))
        × ((k : ℕ) × (g.out ≡ before ++ take k message))
  unfolding finish
  finish_lem before c g ret s len (inl v) e =
      let o : g.out ≡ c.out = ground (arith, e) in
      let a : (ret ≡ false) ⊎ (v.k ≡ n) = ground (arith, e, v.solong, v.sz) in
      (
        elim a [
          | inl z ↦ inl z
          | inr y ↦ inr (
              o
              ∙ v.out
              ∙ ap (λ (l : List ℕ). before ++ l)
                  (subst (λ j. take j message ≡ message) (len ∙ sym y) (take-all message)))
        ],
        (v.k, o ∙ v.out),
      )
  finish_lem before c g ret s len (inr v) e =
      let o : g.out ≡ c.out = ground (arith, e) in
      (inl (ground (arith, e, v.gone)), (v.k, o ∙ v.out))
