-- ===== src/Listener/Entries.antt =====
-- What conns_ says of its connections when another is put into it.
use mit6_824_2012spring_yfs.Prelude.{
  ℕ, ◌≡◌, ◌∙◌, refl, false, ◌||◌, none, [], ◌∷◌, ◌==◌, Map, insert, find, arith, ltb, Bool-cases,
  ==_iff, inl, inr, or_false,
}
use mit6_824_2012spring_yfs.Listener.{World}
use mit6_824_2012spring_yfs.Listener.System.{has, IsOwned, Owned, Apart}

-- A descriptor that is not open is no key.
pub Owned-fresh :
    (h : ℕ → ℕ) (w : World) (l : Map ℕ) (k : ℕ)
    → w.is_open k ≡ false
    → Owned h w l
    → find k l ≡ none
unfolding find
Owned-fresh h w [] k n o = refl
Owned-fresh h w ((j, a) ∷ l) k n o = elim (Bool-cases (j == k)) [
  | inl t ↦ (let q = (==_iff j k).0 t in absurd cc)
  | inr f ↦ rw f (Owned-fresh h w l k n o.1)
]

find-tail :
    (j a k : ℕ) (l : Map ℕ) → find k ((j, a) ∷ l) ≡ none → ((j == k) ≡ false) × (find k l ≡ none)
unfolding find
find-tail j a k l e = ground arith

pub has-insert :
    (k a b : ℕ) (l : Map ℕ) → find k l ≡ none → has b (insert k a l) ≡ ((a == b) || has b l)
unfolding insert
has-insert k a b [] e = refl
has-insert k a b ((j, c) ∷ l) e =
    let (n, t) = find-tail j c k l e in ground (arith, n, has-insert k a b l t)

pub Owned-insert :
    (h : ℕ → ℕ) (w : World) (k a : ℕ) (l : Map ℕ)
    → find k l ≡ none
    → IsOwned h w k a
    → Owned h w l
    → Owned h w (insert k a l)
unfolding insert
Owned-insert h w k a [] e o p = (o, p)
Owned-insert h w k a ((j, c) ∷ l) e o p =
    let (n, t) = find-tail j c k l e in
    elim (Bool-cases (ltb k j)) [
      | inl y ↦ rw y (o, p)
      | inr z ↦ rw (z, n) (p.0, Owned-insert h w k a l t o p.1)
    ]

pub Apart-insert :
    (k a : ℕ) (l : Map ℕ) → find k l ≡ none → has a l ≡ false → Apart l → Apart (insert k a l)
unfolding insert
Apart-insert k a [] e h p = (refl, p)
Apart-insert k a ((j, c) ∷ l) e h p =
    let (n, t) = find-tail j c k l e in
    elim (Bool-cases (ltb k j)) [
      | inl y ↦ rw y (h, p)
      | inr z ↦
          rw (z, n)
            (
              has-insert k a c l t ∙ ground (arith, h, p.0),
              Apart-insert k a l t ((or_false (c == a) (has a l) h).1) p.1,
            )
    ]
