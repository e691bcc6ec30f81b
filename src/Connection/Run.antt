-- ===== src/Connection/Run.antt =====
-- A whole `send`, with the callbacks of the poll manager and the other threads in between.
use mit6_824_2012spring_yfs.Prelude.{
  ℕ, ◌+◌, ◌-◌, ◌≡◌, ◌≢◌, ◌⊎◌, inl, inr, refl, sym, ◌∙◌, subst, Bool, true, false, none, some, List,
  ◌++◌, length, take, append-nil, Memory, At, arith, Bool-cases,
}
use mit6_824_2012spring_yfs.Connection.{
  Charbuf, Connection, Wrote, writepdu, Sending, returns, waits_out, all_out, finish, wait_out,
  after_write, take_turn, send, write_cb,
}
use mit6_824_2012spring_yfs.Connection.Whole.{
  message, Partly, Broken, Takes, write_more, writepdu_rest, write_cb_step, finish_lem,
}

-- solong, where it is not -1
abbrev pub progress : Charbuf → ℕ
progress w = elim w.solong [ none ↦ 0 | some k ↦ k ]

-- What may happen to a connection while a thread waits on send_complete_: the poll manager calls
-- write_cb, another thread comes to wait for its turn, or the connection dies.
pub data Later (c : Connection) : Connection → Type 0 where
  stay : Later c c
  ready :
      {d : Connection} (r : Wrote) (s : Bool) {e : Connection}
      → Later c d
      → Takes r (d.wpdu.sz - progress d.wpdu)
      → write_cb r d ≡ some (s, e)
      → Later c e
  joins : {d : Connection} → Later c d → Later c (record d { waiters = d.waiters + 1 })
  dies :
      {d : Connection}
      → Later c d
      → Later c (record d { dead = true; wants_read = false; wants_write = false })

-- A call of `send` that returns: at once, or after a wait.
pub data Sends (b : Memory) (n : ℕ) (c : Connection) : Bool → Connection → Type 0 where
  at_once :
      (r : Wrote) (ret s : Bool) {g : Connection}
      → Takes r n
      → send r b n c ≡ some (returns ret s g)
      → Sends b n c ret g
  waited :
      (r : Wrote) (ret s : Bool) {d e g : Connection}
      → Takes r n
      → send r b n c ≡ some (waits_out d)
      → Later d e
      → wait_out e ≡ returns ret s g
      → Sends b n c ret g

module _ (n : ℕ) (rest : List ℕ) (before : List ℕ) where
  -- The message is on its way, or the connection is dead.
  abbrev Going : Connection → Type 0
  Going c = Partly n rest before c ⊎ Broken n rest before c

  write_cb_dead :
      (r : Wrote) (c d : Connection) (s : Bool) → c.dead ≡ true → write_cb r c ≡ some (s, d) → ⊥
  unfolding write_cb
  write_cb_dead r c d s h e = ground (arith, h, e)

  Later-Going :
      (c : Connection) {d : Connection}
      → length (message n rest) ≡ n
      → Later c d
      → Going c
      → Going d
  Later-Going c len stay v = v
  Later-Going c len (ready {d} r s {e} l t w) v = elim (Later-Going c len l v) [
    | inl u ↦
        let k : d.wpdu.sz - progress d.wpdu ≡ n - u.k = ground (arith, u.sz, u.solong) in
        write_cb_step n rest before r d e s len u (subst (Takes r) k t) w
    | inr u ↦ absurd (write_cb_dead r d e s u.gone w)
  ]
  Later-Going c len (joins {d} l) v = elim (Later-Going c len l v) [
    | inl u ↦ inl (record {
      f = u.f;
      k = u.k;
      alive = u.alive;
      sz = u.sz;
      buf = u.buf;
      solong = u.solong;
      le = u.le;
      body = u.body;
      head = u.head;
      out = u.out;
    })
    | inr u ↦ inr (record { k = u.k; gone = u.gone; out = u.out })
  ]
  Later-Going c len (dies {d} l) v = elim (Later-Going c len l v) [
    | inl u ↦ inr (record { k = u.k; gone = refl; out = u.out })
    | inr u ↦ inr (record { k = u.k; gone = refl; out = u.out })
  ]

  -- What a call of `send` has given to write() when it returns.
  abbrev pub Result : Bool → Connection → Type 0
  Result ret g =
      ((ret ≡ false) ⊎ (g.out ≡ before ++ message n rest))
      × ((k : ℕ) × (g.out ≡ before ++ take k (message n rest)))

  wait_out_lem :
      (c g : Connection) (ret s : Bool)
      → length (message n rest) ≡ n
      → Going c
      → wait_out c ≡ returns ret s g
      → Result ret g
  unfolding wait_out
  wait_out_lem c g ret s len v e =
      let p : finish c ≡ returns ret s g = ground (arith, e) in
      finish_lem n rest before c g ret s len v p

  after_write_lem :
      (ok : Bool) (d g : Connection) (ret s : Bool)
      → length (message n rest) ≡ n
      → ((ok ≡ true) × Partly n rest before d)
        ⊎ ((ok ≡ false) × ((k : ℕ) × (d.out ≡ before ++ take k (message n rest))))
      → after_write ok d ≡ returns ret s g
      → Result ret g
  unfolding after_write
  after_write_lem ok d g ret s len (inr (z, (k, o))) e =
      finish_lem n rest before (record d { dead = true; wants_read = false; wants_write = false }) g
        ret s len (inr (record { k = k; gone = refl; out = o })) (ground (arith, e, z))
  after_write_lem ok d g ret s len (inl (y, v)) e = elim (Bool-cases (all_out d.wpdu)) [
    | inl a ↦ finish_lem n rest before d g ret s len (inl v) (ground (arith, e, y, a))
    | inr a ↦
        wait_out_lem (record d { wants_write = true }) g ret s len
          (inl (record {
            f = v.f;
            k = v.k;
            alive = v.alive;
            sz = v.sz;
            buf = v.buf;
            solong = v.solong;
            le = v.le;
            body = v.body;
            head = v.head;
            out = v.out;
          }))
          (ground (arith, e, y, a))
  ]

  after_write_waits :
      (ok : Bool) (d e : Connection)
      → ((ok ≡ true) × Partly n rest before d)
        ⊎ ((ok ≡ false) × ((k : ℕ) × (d.out ≡ before ++ take k (message n rest))))
      → after_write ok d ≡ waits_out e
      → Going e
  unfolding after_write wait_out finish
  after_write_waits ok d e (inr (z, o)) h = absurd (ground (arith, h, z))
  after_write_waits ok d e (inl (y, v)) h =
      let p : record d { wants_write = true } ≡ e = ground (arith, h, y, v.solong) in
      subst Going p (
        inl (record {
          f = v.f;
          k = v.k;
          alive = v.alive;
          sz = v.sz;
          buf = v.buf;
          solong = v.solong;
          le = v.le;
          body = v.body;
          head = v.head;
          out = v.out;
        }))

-- The first attempt of a thread whose turn it is.
first_attempt :
    (n : ℕ) (rest : List ℕ) (b : Memory) (r : Wrote) (c : Connection) (x : Sending)
    → length (message n rest) ≡ n
    → At b 4 rest
    → c.dead ≡ false
    → c.wpdu.buf ≡ none
    → Takes r n
    → send r b n c ≡ some x
    → (ok : Bool) × (d : Connection) × (x ≡ after_write ok d)
      × (((ok ≡ true) × Partly n rest c.out d)
          ⊎ ((ok ≡ false) × ((k : ℕ) × (d.out ≡ c.out ++ take k (message n rest)))))
unfolding send take_turn
first_attempt n rest b r c x len body alive free t e =
    let d₀ : Connection = record c {
      waiters = c.waiters + 1 - 1;
      wpdu = record { buf = some b; sz = n; solong = some 0 };
    } in
    let v : Partly n rest c.out d₀ = record {
      f = b;
      k = 0;
      alive = alive;
      sz = refl;
      buf = refl;
      solong = refl;
      le = omega arith;
      body = body;
      head = inl refl;
      out = sym (append-nil c.out);
    } in
    let ne : 0 ≢ n = omega (arith, len) in
    let (ok, d, w, y) = write_more n rest c.out r d₀ len v ne (subst (Takes r) (omega arith) t) in
    let w' : writepdu r d₀ ≡ some (ok, d) = writepdu_rest n rest c.out r d₀ v ne ∙ w in
    (
      ok,
      d,
      ground (arith, e, alive, free, w'),
      elim y [ inl g ↦ inl g | inr (z, o) ↦ inr (z, (0, o)) ],
    )

-- A message that is given to `send` while no other is being sent goes out in order, in however many
-- pieces write() takes it and whatever happens in between: when `send` returns, what it has given
-- to write() is a first part of the message with its size in front, and if it returns true, then
-- it is all of it, exactly once. The condition is that write() takes no more than it is given.
pub send_whole :
    (n : ℕ) (rest : List ℕ) (b : Memory) (c : Connection) (ret : Bool) (g : Connection)
    → length (message n rest) ≡ n
    → At b 4 rest
    → c.dead ≡ false
    → c.wpdu.buf ≡ none
    → Sends b n c ret g
    → ((ret ≡ false) ⊎ (g.out ≡ c.out ++ message n rest))
      × ((k : ℕ) × (g.out ≡ c.out ++ take k (message n rest)))
send_whole n rest b c ret g len body alive free (at_once r _ s t e) =
    let (ok, d, p, y) = first_attempt n rest b r c (returns ret s g) len body alive free t e in
    after_write_lem n rest c.out ok d g ret s len y (sym p)
send_whole n rest b c ret g len body alive free (waited r _ s {d} {e} t q l w) =
    let (ok, d', p, y) = first_attempt n rest b r c (waits_out d) len body alive free t q in
    let v = after_write_waits n rest c.out ok d' d y (sym p) in
    wait_out_lem n rest c.out e g ret s len (Later-Going n rest c.out d len l v) w
