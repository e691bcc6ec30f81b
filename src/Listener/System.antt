-- ===== src/Listener/System.antt =====
-- The accept thread with the threads that use the connections. `held` are the references that
-- others than conns_ have to a connection.
use mit6_824_2012spring_yfs.Prelude.{
  ℕ, ◌+◌, ◌≡◌, Bool, true, false, ◌||◌, Option, none, some, [], ◌∷◌, ◌==◌, if◌then◌else◌, Map,
  arith, subst, Bool-cases, ==_iff, inl, inr, or_true,
}
use mit6_824_2012spring_yfs.Listener.{
  Conn, World, decref, incref, closeconn, Tcpsconn, Waited, accept_round,
}

abbrev pub more : ℕ → (ℕ → ℕ) → ℕ → ℕ
more a held i = if i == a then held i + 1 else held i

abbrev pub IsNew : Option ℕ → Tcpsconn → Type 0
IsNew none s = Unit {0}
IsNew (some k) s = s.world.is_open k ≡ false

pub data Step (s : Tcpsconn) (held : ℕ → ℕ) : Tcpsconn → (ℕ → ℕ) → Type 0 where
  -- accept() gives a descriptor that was not open, and `new` an address that is free.
  waits :
      (r : Waited) (k : Option ℕ) (a : ℕ) (goes_on : Bool) {t : Tcpsconn}
      → IsNew k s
      → s.world.objects a ≡ none
      → accept_round r k a s ≡ some (goes_on, t)
      → Step s held t held
  takes :
      (a : ℕ) {w : World}
      → incref a s.world ≡ some w
      → Step s held (record s { world = w }) (more a held)
  dies :
      (a : ℕ) {w : World} → closeconn a s.world ≡ some w → Step s held (record s { world = w }) held
  -- Who has a reference gives it back.
  drops :
      (a : ℕ) {h : ℕ → ℕ} {w : World}
      → held ≡ more a h
      → decref a s.world ≡ some w
      → Step s held (record s { world = w }) h

pub data Run (s : Tcpsconn) (held : ℕ → ℕ) : Tcpsconn → (ℕ → ℕ) → Type 0 where
  start : Run s held s held
  later : {t u : Tcpsconn} {g h : ℕ → ℕ} → Run s held t g → Step t g u h → Run s held u h

abbrev pub has : ℕ → Map ℕ → Bool
has b [] = false
has b ((k, a) ∷ l) = (a == b) || has b l

-- conns_ has one reference to the connection `a`, whose descriptor is `k` and open.
abbrev pub IsOwned : (held : ℕ → ℕ) → World → (k a : ℕ) → Type 0
IsOwned held w k a =
    (c : Conn) × (w.objects a ≡ some c) × (c.fd ≡ k) × (c.refno ≡ held a + 1) × (w.is_open k ≡ true)

abbrev pub Owned : (held : ℕ → ℕ) → World → Map ℕ → Type 0
Owned held w [] = Unit {0}
Owned held w ((k, a) ∷ l) = IsOwned held w k a × Owned held w l

abbrev pub Apart : Map ℕ → Type 0
Apart [] = Unit {0}
Apart ((k, a) ∷ l) = (has a l ≡ false) × Apart l

abbrev pub is_kept : Option Conn → Bool
is_kept none = false
is_kept (some c) = true

pub record IsOrdered (s : Tcpsconn) (held : ℕ → ℕ) : Type 0 where
  pub owned : Owned held s.world s.conns
  pub apart : Apart s.conns
  -- Every connection that is there is in conns_.
  pub kept : (a : ℕ) → is_kept (s.world.objects a) ≡ has a s.conns
  -- Nobody has a reference to a connection that is not there.
  pub safe : (a : ℕ) → s.world.objects a ≡ none → held a ≡ 0

pub Owned-map :
    (g h : ℕ → ℕ) (v w : World) (l : Map ℕ)
    → ((k a : ℕ) → has a l ≡ true → IsOwned g v k a → IsOwned h w k a)
    → Owned g v l
    → Owned h w l
Owned-map g h v w [] f o = o
Owned-map g h v w ((k, a) ∷ l) f o = (
  f k a (ground arith) o.0,
  Owned-map g h v w l (λ j b y. f j b (or_true (a == b) (has b l) y)) o.1,
)

-- What conns_ says of a connection in it.
pub Owned-find :
    (h : ℕ → ℕ) (w : World) (l : Map ℕ) (a : ℕ)
    → has a l ≡ true
    → Owned h w l
    → (k : ℕ) × IsOwned h w k a
Owned-find h w [] a y o = absurd cc
Owned-find h w ((k, b) ∷ l) a y o = elim (Bool-cases (b == a)) [
  | inl e ↦ (k, subst (λ z. IsOwned h w k z) ((==_iff b a).0 e) o.0)
  | inr n ↦ Owned-find h w l a (simp n at y) o.1
]
