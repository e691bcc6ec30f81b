-- ===== src/Connection/Receive/Whole.antt =====
-- The messages that a connection hands over, against the bytes that it reads.
use mit6_824_2012spring_yfs.Prelude.{
  some_same, some_pair, ℕ, ◌+◌, ◌^◌, ◌<◌, ◌≡◌, ◌⊎◌, inl, inr, refl, sym, ap, ◌∙◌, subst, Bool, true,
  false, ◌||◌, not, Option, none, some, List, [], ◌∷◌, ◌++◌, length, All, All-append, append_assoc,
  append-nil, slice, slice-At, arith, Bool-cases, bind-some, map, if◌then◌else◌,
}
use mit6_824_2012spring_yfs.Connection.{Charbuf, Connection, has_buf, all_out, is_short}
use mit6_824_2012spring_yfs.Connection.Whole.{message}
use mit6_824_2012spring_yfs.Connection.Receive.{
  Arrival, empty_charbuf, readpdu, Taken, hand_over, after_read, read_cb, closeconn,
}
use mit6_824_2012spring_yfs.Connection.Receive.Frames.{
  concat, concat-append, IsFrame, frames_first, message-IsFrame,
}
use mit6_824_2012spring_yfs.Connection.Receive.Buffer.{Busy, Reading}
use mit6_824_2012spring_yfs.Connection.Receive.Reading.{ReadOn, readpdu_lem}

abbrev pub messages : Option (List ℕ) → List (List ℕ)
messages none = []
messages (some m) = m ∷ []

-- Handing over takes a whole message off the bytes, or nothing.
abbrev Handed : List ℕ → Connection → Taken → Type 0
Handed before c t =
    (t.conn.dead ≡ c.dead)
    × All IsFrame (messages t.message)
    × Reading (before ++ concat (messages t.message)) t.conn

keeps :
    (before : List ℕ) (c : Connection)
    → Reading before c
    → Handed before c (record { conn = c; message = none })
keeps before c v = (refl, tt, subst (λ z. Reading z c) (sym (append-nil before)) v)

hand_over-Busy :
    (consumes : Bool) (before rest : List ℕ) (c : Connection)
    → c.inp ≡ before ++ rest
    → (b : Busy rest c) → Handed before c (hand_over consumes (some b.f) c)
unfolding hand_over
hand_over-Busy consumes before rest c i b = elim (Bool-cases (all_out c.rpdu)) [
  | inr z ↦ simp z (keeps before c (record { rest = rest; inp = i; state = inl b }))
  | inl z ↦ elim (Bool-cases consumes) [
    | inr n ↦ simp (z, n) (keeps before c (record { rest = rest; inp = i; state = inl b }))
    | inl y ↦
        let n : length rest ≡ c.rpdu.sz = ground (arith, z, b.solong) in
        let m : slice b.f 0 c.rpdu.sz ≡ rest =
          ap (slice b.f 0) (sym n) ∙ slice-At b.f 0 rest b.body in
        simp (z, y, m)
          (
            refl,
            (record { size = b.size ∙ sym n; has_size = b.has_size }, tt),
            record {
              rest = [];
              inp =
                  i ∙ ap (λ (z : List ℕ). before ++ z) (sym (append-nil rest)) ∙ sym (append-nil _);
              state = inr (record { rpdu = refl; nothing = refl });
            },
          )
  ]
]

after_read-ok :
    (consumes : Bool) (before : List ℕ) (c : Connection)
    → Reading before c
    → Handed before c (after_read consumes (true, c))
unfolding after_read hand_over
after_read-ok consumes before c v = elim v.state [
  | inl b ↦
      subst (λ o. Handed before c (hand_over consumes o c)) (sym b.buf)
        (hand_over-Busy consumes before v.rest c v.inp b)
  | inr f ↦
      subst (λ (o : Charbuf). Handed before c (hand_over consumes o.buf c)) (sym f.rpdu)
        (keeps before c v)
]

-- A connection that lives has read whole messages and a part of one. One that is dead has read at
-- least the messages.
abbrev pub Tracked : List (List ℕ) → Connection → Type 0
Tracked ms c =
    All IsFrame ms
    × (((c.dead ≡ false) × Reading (concat ms) c)
        ⊎ ((c.dead ≡ true) × ((x : List ℕ) × (c.inp ≡ concat ms ++ x))))

after_read-failed :
    (consumes : Bool) (ms : List (List ℕ)) (d : Connection)
    → All IsFrame ms
    → d.rpdu ≡ empty_charbuf
    → ((x : List ℕ) × (d.inp ≡ concat ms ++ x))
    → let t = after_read consumes (false, d) in Tracked (ms ++ messages t.message) t.conn
unfolding after_read hand_over
after_read-failed consumes ms d f e x =
    let c : Connection = record d { dead = true; wants_read = false; wants_write = false } in
    subst
      (λ (o : Charbuf).
        let t = hand_over consumes o.buf c in Tracked (ms ++ messages t.message) t.conn)
      (sym e) (subst (λ (z : List (List ℕ)). Tracked z c) (sym (append-nil ms)) (f, inr (refl, x)))

Handed-Tracked :
    (ms : List (List ℕ)) (c : Connection) (t : Taken)
    → All IsFrame ms
    → c.dead ≡ false
    → Handed (concat ms) c t
    → Tracked (ms ++ messages t.message) t.conn
Handed-Tracked ms c t f a (d, g, r) = (
  All-append IsFrame ms (messages t.message) f g,
  inl (d ∙ a, subst (λ z. Reading z t.conn) (sym (concat-append ms (messages t.message))) r),
)

after_read-Tracked :
    (consumes : Bool) (ms : List (List ℕ)) (c d : Connection) (ok : Bool)
    → All IsFrame ms
    → c.dead ≡ false
    → ReadOn (concat ms) c d ok
    → let t = after_read consumes (ok, d) in Tracked (ms ++ messages t.message) t.conn
after_read-Tracked consumes ms c d ok f a (e, inl (o, v)) = rw o (
    Handed-Tracked ms d (after_read consumes (true, d)) f (e ∙ a)
      (after_read-ok consumes (concat ms) d v))
after_read-Tracked consumes ms c d ok f a (e, inr (o, z, x)) =
    rw o (after_read-failed consumes ms d f z x)

first_part :
    (a : Arrival) (before : List ℕ) (c d : Connection) (ok : Bool)
    → Reading before c
    → (if not (has_buf c.rpdu.buf) || is_short c.rpdu then readpdu a c else some (true, c))
      ≡ some (ok, d)
    → ReadOn before c d ok
first_part a before c d ok v e = elim (Bool-cases (not (has_buf c.rpdu.buf) || is_short c.rpdu)) [
  | inl z ↦ readpdu_lem a before c d ok v (simp z at e)
  | inr z ↦
      let (p, q) = some_pair (simp z at e) in
      (ap (λ (x : Connection). x.dead) (sym q), inl (sym p, subst (Reading before) q v))
]

read_cb-Tracked :
    (a : Arrival) (ms : List (List ℕ)) (c : Connection) (t : Taken)
    → Tracked ms c
    → read_cb a c ≡ some t
    → Tracked (ms ++ messages t.message) t.conn
unfolding read_cb
read_cb-Tracked a ms c t (f, inr (d, x)) e =
    subst (λ (t : Taken). Tracked (ms ++ messages t.message) t.conn) (some_same (simp d at e))
      (subst (λ (z : List (List ℕ)). Tracked z c) (sym (append-nil ms)) (f, inr (d, x)))
read_cb-Tracked a ms c t (f, inl (d, v)) e =
    let ((ok, c'), p, q) =
      bind-some
        (if not (has_buf c.rpdu.buf) || is_short c.rpdu then readpdu a c else some (true, c)) _ t
        (simp d at e) in
    subst (λ (t : Taken). Tracked (ms ++ messages t.message) t.conn) (some_same q)
      (after_read-Tracked a.consumes ms c c' ok f d (first_part a (concat ms) c c' ok v p))

-- A connection from its construction on, with the messages that have been consumed. Between two
-- calls of read_cb it may die: closeconn is called, or the sending side fails.
pub data Receives : List (List ℕ) → Connection → Type 0 where
  opened : {c : Connection} → c.dead ≡ false → c.rpdu ≡ empty_charbuf → c.inp ≡ [] → Receives [] c
  reads :
      {ms : List (List ℕ)} {c : Connection} (a : Arrival) {t : Taken}
      → Receives ms c
      → read_cb a c ≡ some t
      → Receives (ms ++ messages t.message) t.conn
  closes : {ms : List (List ℕ)} {c : Connection} → Receives ms c → Receives ms (closeconn c).1

closeconn-Tracked :
    (ms : List (List ℕ)) (c : Connection) → Tracked ms c → Tracked ms (closeconn c).1
unfolding closeconn
closeconn-Tracked ms c (f, inl (d, v)) = simp d (f, inr (refl, (v.rest, v.inp)))
closeconn-Tracked ms c (f, inr (d, x)) = simp d (f, inr (refl, x))

Receives-Tracked : {ms : List (List ℕ)} {c : Connection} → Receives ms c → Tracked ms c
Receives-Tracked (opened {c} d e i) =
    (tt, inl (d, record { rest = []; inp = i; state = inr (record { rpdu = e; nothing = refl }) }))
Receives-Tracked (reads {ms} {c} a {t} r e) = read_cb-Tracked a ms c t (Receives-Tracked r) e
Receives-Tracked (closes {ms} {c} r) = closeconn-Tracked ms c (Receives-Tracked r)

Tracked-inp :
    (ms : List (List ℕ)) (c : Connection) → Tracked ms c → (x : List ℕ) × (c.inp ≡ concat ms ++ x)
Tracked-inp ms c (f, inl (d, v)) = (v.rest, v.inp)
Tracked-inp ms c (f, inr (d, x)) = x

-- What connection::send puts on the wire for a message with these bytes behind its size.
abbrev pub on_wire : List ℕ → List ℕ
on_wire bs = message (length bs + 4) bs

on_wire-IsFrame :
    (bodies : List (List ℕ))
    → All (λ bs. length bs + 4 < 2 ^ 32) bodies
    → All IsFrame (map on_wire bodies)
on_wire-IsFrame [] h = tt
on_wire-IsFrame (bs ∷ bodies) h = (message-IsFrame bs h.0, on_wire-IsFrame bodies h.1)

-- If the bytes that the other side sends are messages with their sizes in front, then whatever
-- pieces read() gives them in, and whether the connection dies or got_pdu refuses a message for a
-- time: the messages that have been consumed are the first of those that were sent, each whole,
-- once and in order, and what has not been consumed is still to come. The condition is that a size
-- is below 2^32.
pub receive_whole :
    (ms bodies : List (List ℕ)) (c : Connection) (future : List ℕ)
    → All (λ bs. length bs + 4 < 2 ^ 32) bodies
    → Receives ms c
    → c.inp ++ future ≡ concat (map on_wire bodies)
    → (later : List (List ℕ)) × (map on_wire bodies ≡ ms ++ later)
      × ((x : List ℕ) × (c.inp ≡ concat ms ++ x) × (concat later ≡ x ++ future))
receive_whole ms bodies c future h r e =
    let v = Receives-Tracked r in
    let (x, i) = Tracked-inp ms c v in
    let (later, p, q) =
      frames_first ms (map on_wire bodies) (x ++ future) v.0 (on_wire-IsFrame bodies h)
        (sym (append_assoc (concat ms) x future) ∙ ap (λ (z : List ℕ). z ++ future) (sym i) ∙ e) in
    (later, p, (x, i, q))
