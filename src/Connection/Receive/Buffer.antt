-- ===== src/Connection/Receive/Buffer.antt =====
-- The buffer of a message that is being read, across the two reads of readpdu.
use mit6_824_2012spring_yfs.Prelude.{
  ℕ, zero, suc, ◌+◌, ◌-◌, ◌≤◌, ◌≡◌, ◌⊎◌, inl, inr, refl, sym, ap, ◌∙◌, subst, Bool, true, false,
  none, some, List, [], ◌∷◌, ◌++◌, length, ltb, ◌==◌, take, append-nil, Memory, copy, At, At-append,
  At-copy, At-copy_above, arith, Bool-cases, ==_iff, length-append, some_pair,
}
use mit6_824_2012spring_yfs.Call.{is_negative_int}
use mit6_824_2012spring_yfs.Connection.{Connection, has_buf}
use mit6_824_2012spring_yfs.Connection.Whole.{take-all}
use mit6_824_2012spring_yfs.Connection.Receive.{
  Read, ready_bytes, read_error, empty_charbuf, ntohl, take_size, read_size, end_read, fill,
  fill_from, read_body, max_pdu,
}
use mit6_824_2012spring_yfs.Connection.Receive.Frames.{take_front}

-- A message of which the bytes `rest` are there.
pub record Busy (rest : List ℕ) (c : Connection) : Type 0 where
  pub f : Memory
  pub buf : c.rpdu.buf ≡ some f
  pub body : At f 0 rest
  pub solong : c.rpdu.solong ≡ some (length rest)
  pub has_size : 4 ≤ length rest
  pub le : length rest ≤ c.rpdu.sz
  pub size : ntohl 0 (take 4 rest) ≡ c.rpdu.sz

-- No message is being read.
pub record Free (rest : List ℕ) (c : Connection) : Type 0 where
  pub rpdu : c.rpdu ≡ empty_charbuf
  pub nothing : rest ≡ []

-- The bytes read so far are `before` and what is in the buffer.
pub record Reading (before : List ℕ) (c : Connection) : Type 0 where
  pub rest : List ℕ
  pub inp : c.inp ≡ before ++ rest
  pub state : Busy rest c ⊎ Free rest c

-- The size has been read into a new buffer, and no byte of the message behind it; then sz may
-- still be below 4.
pub record Sized (rest : List ℕ) (c : Connection) : Type 0 where
  pub f : Memory
  pub buf : c.rpdu.buf ≡ some f
  pub body : At f 0 rest
  pub solong : c.rpdu.solong ≡ some 4
  pub len : length rest ≡ 4
  pub size : ntohl 0 rest ≡ c.rpdu.sz

pub no_some : {A : Type 0} {a : A} → none ≡ some a → ⊥
no_some e = cc

take_size_lem :
    (bs : List ℕ) (junk : Memory) (c d : Connection) (ok : Bool)
    → take_size bs junk c ≡ some (ok, d)
    → ((ok ≡ false) × (d ≡ c)) ⊎ ((ok ≡ true) × Sized bs d × (d.inp ≡ c.inp) × (d.dead ≡ c.dead))
unfolding take_size
take_size_lem bs junk c d ok e = elim (Bool-cases (length bs == 4)) [
  | inr n ↦ let (p, q) = some_pair (simp n at e) in inl (sym p, sym q)
  | inl n ↦ elim (Bool-cases (is_negative_int (ntohl 0 bs))) [
    | inl z ↦ absurd (no_some (simp (n, z) at e))
    | inr z ↦ elim (Bool-cases (ltb max_pdu (ntohl 0 bs))) [
      | inl l ↦ let (p, q) = some_pair (simp (n, z, l) at e) in inl (sym p, sym q)
      | inr l ↦ elim (Bool-cases (has_buf c.rpdu.buf)) [
        | inl b ↦ absurd (no_some (simp (n, z, l, b) at e))
        | inr b ↦
            let (p, q) = some_pair (simp (n, z, l, b) at e) in
            inr (
              sym p,
              subst (Sized bs) q (record {
                f = copy junk 0 bs;
                buf = refl;
                body = At-copy junk 0 bs;
                solong = refl;
                len = (==_iff (length bs) 4).0 n;
                size = refl;
              }),
              ap (λ (x : Connection). x.inp) (sym q),
              ap (λ (x : Connection). x.dead) (sym q),
            )
      ]
    ]
  ]
]

pub read_size_lem :
    (r : Read) (junk : Memory) (c d : Connection) (ok : Bool)
    → read_size r junk c ≡ some (ok, d)
    → (d.dead ≡ c.dead)
      × (new : List ℕ) × (d.inp ≡ c.inp ++ new)
      × (((ok ≡ false) × (d.rpdu ≡ c.rpdu)) ⊎ ((ok ≡ true) × Sized new d))
unfolding read_size
read_size_lem (read_error true) junk c d ok e = absurd (no_some e)
read_size_lem (read_error false) junk c d ok e =
    let (p, q) = some_pair e in
    (
      ap (λ (x : Connection). x.dead) (sym q),
      [],
      ap (λ (x : Connection). x.inp) (sym q) ∙ sym (append-nil c.inp),
      inl (sym p, ap (λ (x : Connection). x.rpdu) (sym q)),
    )
read_size_lem (ready_bytes bs) junk c d ok e =
    let c' : Connection = record c { inp = c.inp ++ take 4 bs } in
    elim (take_size_lem (take 4 bs) junk c' d ok e) [
      | inl (p, q) ↦ (
        ap (λ (x : Connection). x.dead) q,
        take 4 bs,
        ap (λ (x : Connection). x.inp) q,
        inl (p, ap (λ (x : Connection). x.rpdu) q),
      )
      | inr (p, s, i, d) ↦ (d, take 4 bs, i, inr (p, s))
    ]

-- A read into the buffer: it fails, or adds bytes.
abbrev pub Filled : List ℕ → (c d : Connection) → Bool → Type 0
Filled rest c d ok =
    (d.dead ≡ c.dead)
    × (new : List ℕ) × (d.inp ≡ c.inp ++ new)
    × (((ok ≡ false) × (d.rpdu ≡ empty_charbuf)) ⊎ ((ok ≡ true) × Busy (rest ++ new) d))

Busy-nil : (rest : List ℕ) (c : Connection) → Busy rest c → Busy (rest ++ []) c
Busy-nil rest c b = subst (λ z. Busy z c) (sym (append-nil rest)) b

end_read_lem :
    (again : Bool) (rest : List ℕ) (c d : Connection) (ok : Bool)
    → Busy rest c
    → end_read again c ≡ some (ok, d)
    → Filled rest c d ok
unfolding end_read
end_read_lem true rest c d ok b e =
    let (p, q) = some_pair e in
    (
      ap (λ (x : Connection). x.dead) (sym q),
      [],
      ap (λ (x : Connection). x.inp) (sym q) ∙ sym (append-nil c.inp),
      inr (sym p, subst (Busy (rest ++ [])) q (Busy-nil rest c b)),
    )
end_read_lem false rest c d ok b e =
    let (p, q) = some_pair e in
    (
      ap (λ (x : Connection). x.dead) (sym q),
      [],
      ap (λ (x : Connection). x.inp) (sym q) ∙ sym (append-nil c.inp),
      inl (sym p, ap (λ (x : Connection). x.rpdu) (sym q)),
    )

length-take_le : (n : ℕ) (xs : List ℕ) → length (take n xs) ≤ n
length-take_le zero xs = omega arith
length-take_le (suc n) [] = omega arith
length-take_le (suc n) (x ∷ xs) = omega (arith, length-take_le n xs)

-- The connection after bytes have come into the buffer.
abbrev with_bytes : Memory → List ℕ → List ℕ → Connection → Connection
with_bytes f rest new c = record c {
  rpdu = record c.rpdu {
    buf = some (copy f (length rest) new);
    solong = some (length rest + length new);
  };
  inp = c.inp ++ new;
}

Busy-bytes :
    (f : Memory) (rest new : List ℕ) (c : Connection)
    → At f 0 rest
    → Busy rest c
    → length new ≤ c.rpdu.sz - length rest
    → Busy (rest ++ new) (with_bytes f rest new c)
Busy-bytes f rest new c a b l = record {
  f = copy f (length rest) new;
  buf = refl;
  body = At-append _ 0 rest new (At-copy_above f (length rest) 0 new rest (omega arith) a) (
      subst (λ j. At (copy f (length rest) new) j new) (omega arith) (At-copy f (length rest) new));
  solong = ap some (sym (length-append rest new));
  has_size = omega (arith, b.has_size, length-append rest new);
  le = omega (arith, b.le, l, length-append rest new);
  size = ap (ntohl 0) (take_front 4 rest new b.has_size) ∙ b.size;
}

fill_lem :
    (r : Read) (stale : Bool) (f : Memory) (rest : List ℕ) (c d : Connection) (ok : Bool)
    → At f 0 rest
    → Busy rest c
    → fill r stale (length rest) (some f) c ≡ some (ok, d)
    → Filled rest c d ok
unfolding fill
fill_lem (read_error again) stale f rest c d ok a b e = end_read_lem again rest c d ok b e
fill_lem (ready_bytes bs) stale f rest c d ok a b e =
    let new = take (c.rpdu.sz - length rest) bs in
    elim (Bool-cases (length new == 0)) [
      | inl z ↦ end_read_lem stale rest c d ok b (simp z at e)
      | inr z ↦
          let (p, q) = some_pair (simp z at e) in
          (
            ap (λ (x : Connection). x.dead) (sym q),
            new,
            ap (λ (x : Connection). x.inp) (sym q),
            inr (
              sym p,
              subst (Busy (rest ++ new)) q (Busy-bytes f rest new c a b (length-take_le _ bs)),
            ),
          )
    ]

pub read_body_lem :
    (r : Read) (stale : Bool) (rest : List ℕ) (c d : Connection) (ok : Bool)
    → Busy rest c
    → read_body r stale c ≡ some (ok, d)
    → Filled rest c d ok
unfolding read_body fill_from
read_body_lem r stale rest c d ok b e =
    let z : ltb c.rpdu.sz (length rest) ≡ false = ground (arith, b.le) in
    let from : fill_from (some (length rest)) r stale c ≡ some (ok, d) =
      ap (λ o. fill_from o r stale c) (sym b.solong) ∙ e in
    let here : fill r stale (length rest) c.rpdu.buf c ≡ some (ok, d) = simp z at from in
    fill_lem r stale b.f rest c d ok b.body b
      (ap (λ o. fill r stale (length rest) o c) (sym b.buf) ∙ here)

-- Behind a size of four bytes the buffer is in order, or the size is below 4 and the next read
-- faults.
pub Sized-body :
    (r : Read) (stale : Bool) (rest : List ℕ) (c d : Connection) (ok : Bool)
    → Sized rest c
    → read_body r stale c ≡ some (ok, d)
    → Busy rest c
unfolding read_body fill_from
Sized-body r stale rest c d ok s e =
    let from : fill_from (some 4) r stale c ≡ some (ok, d) =
      ap (λ o. fill_from o r stale c) (sym s.solong) ∙ e in
    elim (Bool-cases (ltb c.rpdu.sz 4)) [
      | inl z ↦ absurd (no_some (simp z at from))
      | inr z ↦ record {
        f = s.f;
        buf = s.buf;
        body = s.body;
        solong = s.solong ∙ ap some (sym s.len);
        has_size = omega (arith, s.len);
        le = ground (arith, z, s.len);
        size = ap (ntohl 0) (ap (λ n. take n rest) (sym s.len) ∙ take-all rest) ∙ s.size;
      }
    ]
