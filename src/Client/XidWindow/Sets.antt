-- ===== src/Client/XidWindow/Sets.antt =====
-- The set of xids that a window stands for, and the order of the window.
use mit6_824_2012spring_yfs.Prelude.{
  ℕ, ◌+◌, ◌≤◌, ◌≡◌, refl, ◌⊎◌, Bool, true, false, ◌||◌, List, [], ◌∷◌, leb, ◌==◌, arith, IsU32,
}
use mit6_824_2012spring_yfs.Client.XidWindow.{front, insert_xid, pop_while}

abbrev pub mem : ℕ → List ℕ → Bool
mem n [] = false
mem n (a ∷ rest) = (n == a) || mem n rest

-- Has the reply to `n` been received, as far as the window knows?
abbrev pub received : ℕ → List ℕ → Bool
received n w = leb n (front w) || mem n w

abbrev pub Ascending : ℕ → List ℕ → Type 0
Ascending lo [] = Unit {0}
Ascending lo (a ∷ rest) = (lo ≤ a) × Ascending a rest

pub Ascending-mono : {lo hi : ℕ} (w : List ℕ) → lo ≤ hi → Ascending hi w → Ascending lo w
Ascending-mono [] h i = tt
Ascending-mono (a ∷ rest) h i = (omega arith, i.1)

pub mem-Ascending : (n lo : ℕ) (w : List ℕ) → Ascending lo w → mem n w ≡ true → lo ≤ n
mem-Ascending n lo [] i h = cc
mem-Ascending n lo (a ∷ rest) i h = ground (arith, mem-Ascending n a rest i.1)

pub mem-insert_xid : (n x : ℕ) (w : List ℕ) → mem n (insert_xid x w) ≡ (n == x) || mem n w
unfolding insert_xid
mem-insert_xid n x [] = refl
mem-insert_xid n x (a ∷ rest) = ground (arith, mem-insert_xid n x rest)

pub insert_xid-Ascending :
    (x lo : ℕ) (w : List ℕ) → Ascending lo w → lo ≤ x → Ascending lo (insert_xid x w)
unfolding insert_xid
insert_xid-Ascending x lo [] i h = (h, tt)
insert_xid-Ascending x lo (a ∷ rest) i h = ground (arith, insert_xid-Ascending x a rest i.1)

module _ (a : ℕ) (fits : IsU32 a) where
  pub pop_while-Ascending : (lo : ℕ) (w : List ℕ) → Ascending lo w → Ascending lo (pop_while a w)
  unfolding pop_while
  pop_while-Ascending lo [] i = tt
  pop_while-Ascending lo (f ∷ w) i =
      ground (arith, pop_while-Ascending lo w (Ascending-mono w i.0 i.1))

  -- What the iterator points at stays.
  pub mem-pop_while_self : (w : List ℕ) → mem a w ≡ true → mem a (pop_while a w) ≡ true
  unfolding pop_while
  mem-pop_while_self [] h = h
  mem-pop_while_self (f ∷ w) h = ground (arith, mem-pop_while_self w)

  pub mem-pop_while : (n : ℕ) (w : List ℕ) → mem n (pop_while a w) ≡ true → mem n w ≡ true
  unfolding pop_while
  mem-pop_while n [] h = h
  mem-pop_while n (f ∷ w) h = ground (arith, mem-pop_while n w)

  -- So does all from there on.
  pub mem-pop_while_above :
      (n lo : ℕ) (w : List ℕ)
      → Ascending lo w
      → mem a w ≡ true
      → a ≤ n
      → mem n w ≡ true
      → mem n (pop_while a w) ≡ true
  unfolding pop_while
  mem-pop_while_above n lo [] i ha le h = h
  mem-pop_while_above n lo (f ∷ w) i ha le h =
      ground (arith, mem-Ascending a f w i.1, mem-pop_while_above n f w i.1)

  pop_received :
      (n f : ℕ) (w : List ℕ)
      → Ascending f w
      → mem a w ≡ true
      → f + 1 ≡ a
      → received n w ≡ received n (f ∷ w)
  pop_received n f [] i h e = cc
  pop_received n f (g ∷ w) i h e = ground (arith, mem-Ascending a g w i.1)

  -- Popping loses no xid: each is below the new front.
  pub received-pop_while :
      (n lo : ℕ) (w : List ℕ)
      → Ascending lo w
      → mem a w ≡ true
      → received n (pop_while a w) ≡ received n w
  unfolding pop_while
  received-pop_while n lo [] i h = cc
  received-pop_while n lo (f ∷ w) i h =
      ground (arith, mem-Ascending a f w i.1, received-pop_while n f w i.1, pop_received n f w i.1)

  front_step :
      (f : ℕ) (w : List ℕ)
      → Ascending f w
      → mem a w ≡ true
      → f + 1 ≡ a
      → (front w ≡ f) ⊎ (front w ≡ a)
  front_step f [] i h e = cc
  front_step f (g ∷ w) i h e = ground (arith, mem-Ascending a g w i.1)

  -- The inner loop ends with a front that `a` does not follow, and the front is as before or `a`.
  pub front-pop_while :
      (lo : ℕ) (w : List ℕ)
      → Ascending lo w
      → mem a w ≡ true
      → (front (pop_while a w) + 1 ≡ a → ⊥)
        × ((front (pop_while a w) ≡ front w) ⊎ (front (pop_while a w) ≡ a))
  unfolding pop_while
  front-pop_while lo [] i h = cc
  front-pop_while lo (f ∷ w) i h =
      ground (arith, mem-Ascending a f w i.1, front_step f w i.1, front-pop_while f w i.1)
