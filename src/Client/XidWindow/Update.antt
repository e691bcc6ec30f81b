-- ===== src/Client/XidWindow/Update.antt =====
-- update_xid_rep adds one xid to the set that the window stands for, and makes the front as large
-- as it can be.
use mit6_824_2012spring_yfs.Prelude.{
  ℕ, ◌+◌, ◌≤◌, ◌<◌, ◌≡◌, ◌≢◌, refl, ◌∙◌, ◌⊎◌, inl, inr, true, false, ◌||◌, List, [], ◌∷◌, leb, ◌==◌,
  arith, IsU32, All, dec_lt, Bool-cases,
}
use mit6_824_2012spring_yfs.Client.XidWindow.{
  front, insert_xid, pop_while, compress_loop, compress, update_xid_rep,
}
use mit6_824_2012spring_yfs.Client.XidWindow.Sets.{
  mem, received, Ascending, mem-Ascending, mem-insert_xid, insert_xid-Ascending,
  pop_while-Ascending, mem-pop_while, mem-pop_while_self, mem-pop_while_above, received-pop_while,
  front-pop_while,
}

-- A window is not empty, is in order, holds 32-bit xids, and its front cannot be moved up: the
-- next xid has not been received.
pub record IsWindow (w : List ℕ) : Type 0 where
  pub not_empty : w ≢ []
  pub order : Ascending 0 w
  pub fits : All IsU32 w
  pub maximal : mem (front w + 1) w ≡ false

-- The state of the outer loop: the iterator has passed over all up to `p` and is at `ahead`.
record Loop (p : ℕ) (w ahead : List ℕ) : Type 0 where
  order : Ascending 0 w
  rest : Ascending p ahead
  fits : All IsU32 ahead
  inside : (n : ℕ) → mem n ahead ≡ true → mem n w ≡ true
  passed : (n : ℕ) → mem n w ≡ true → (n ≤ p) ⊎ (mem n ahead ≡ true)
  ready : mem (front w + 1) w ≡ true → mem (front w + 1) ahead ≡ true

mem_head : (a : ℕ) (rest : List ℕ) → mem a (a ∷ rest) ≡ true
mem_head a rest = ground arith

Loop-step : (p a : ℕ) (w ahead : List ℕ) → Loop p w (a ∷ ahead) → Loop a (pop_while a w) ahead
Loop-step p a w ahead l = record {
  order = pop_while-Ascending a (l.fits).0 0 w l.order;
  rest = (l.rest).1;
  fits = (l.fits).1;
  inside = λ n h.
      mem-pop_while_above a (l.fits).0 n 0 w l.order here (mem-Ascending n a ahead (l.rest).1 h)
        (l.inside n (ground arith));
  passed = λ n h. ground (arith, l.passed n, mem-pop_while a (l.fits).0 n w h, l.rest);
  ready = λ h. ground (
    arith,
    front-pop_while a (l.fits).0 0 w l.order here,
    mem-pop_while a (l.fits).0 (front (pop_while a w) + 1) w h,
    l.passed (front (pop_while a w) + 1),
  );
}
  where
    here : mem a w ≡ true
    here = l.inside a (mem_head a ahead)

pop_while-All : (P : ℕ → Type 0) (a : ℕ) (w : List ℕ) → All P w → All P (pop_while a w)
unfolding pop_while
pop_while-All P a [] h = h
pop_while-All P a (f ∷ w) h = ground (arith, pop_while-All P a w h.1)

insert_xid-All : (P : ℕ → Type 0) (x : ℕ) (w : List ℕ) → P x → All P w → All P (insert_xid x w)
unfolding insert_xid
insert_xid-All P x [] p h = (p, tt)
insert_xid-All P x (a ∷ w) p h = ground (arith, insert_xid-All P x w p h.1)

-- The outer loop loses no xid, and ends with a front that nothing in the window follows.
compress_loop-received :
    (p : ℕ) (w ahead : List ℕ) (n : ℕ)
    → Loop p w ahead
    → received n (compress_loop w ahead) ≡ received n w
unfolding compress_loop
compress_loop-received p w [] n l = refl
compress_loop-received p w (a ∷ ahead) n l =
    compress_loop-received a (pop_while a w) ahead n (Loop-step p a w ahead l)
    ∙ received-pop_while a (l.fits).0 n 0 w l.order (l.inside a (mem_head a ahead))

compress_loop-maximal :
    (p : ℕ) (w ahead : List ℕ)
    → Loop p w ahead
    → let v = compress_loop w ahead in mem (front v + 1) v ≡ false
unfolding compress_loop
compress_loop-maximal p w [] l = ground (arith, l.ready)
compress_loop-maximal p w (a ∷ ahead) l =
    compress_loop-maximal a (pop_while a w) ahead (Loop-step p a w ahead l)

compress_loop-Ascending :
    (p : ℕ) (w ahead : List ℕ) → Loop p w ahead → Ascending 0 (compress_loop w ahead)
unfolding compress_loop
compress_loop-Ascending p w [] l = l.order
compress_loop-Ascending p w (a ∷ ahead) l =
    compress_loop-Ascending a (pop_while a w) ahead (Loop-step p a w ahead l)

compress_loop-fits : (P : ℕ → Type 0) (w ahead : List ℕ) → All P w → All P (compress_loop w ahead)
unfolding compress_loop
compress_loop-fits P w [] h = h
compress_loop-fits P w (a ∷ ahead) h =
    compress_loop-fits P (pop_while a w) ahead (pop_while-All P a w h)

compress_loop-not_empty :
    (p : ℕ) (w ahead : List ℕ) → Loop p w ahead → w ≢ [] → compress_loop w ahead ≢ []
unfolding compress_loop
compress_loop-not_empty p w [] l h = h
compress_loop-not_empty p w (a ∷ ahead) l h =
    compress_loop-not_empty a (pop_while a w) ahead (Loop-step p a w ahead l)
      λ e. ground (arith, mem-pop_while_self a (l.fits).0 w (l.inside a (mem_head a ahead)), e)

-- Where `compress` starts from: the front, and the rest with a new xid in it.
Loop-start :
    (f x : ℕ) (rest : List ℕ)
    → IsWindow (f ∷ rest)
    → f < x
    → IsU32 x
    → Loop f (f ∷ insert_xid x rest) (insert_xid x rest)
Loop-start f x rest v h u = record {
  order = (omega arith, inserted);
  rest = inserted;
  fits = insert_xid-All IsU32 x rest u (v.fits).1;
  inside = λ n k. ground arith;
  passed = λ n k. ground arith;
  ready = λ k. ground arith;
}
  where
    inserted : Ascending f (insert_xid x rest)
    inserted = insert_xid-Ascending x f rest (v.order).1 (omega arith)

insert_above : (f x : ℕ) (rest : List ℕ) → f < x → insert_xid x (f ∷ rest) ≡ f ∷ insert_xid x rest
unfolding insert_xid
insert_above f x rest h = ground arith

update_above :
    (f x : ℕ) (rest : List ℕ)
    → f < x
    → update_xid_rep x (f ∷ rest) ≡ compress_loop (f ∷ insert_xid x rest) (insert_xid x rest)
unfolding update_xid_rep compress
update_above f x rest h = rw (insert_above f x rest h) (ground arith)

update_below : (f x : ℕ) (rest : List ℕ) → x ≤ f → update_xid_rep x (f ∷ rest) ≡ f ∷ rest
unfolding update_xid_rep
update_below f x rest h = ground arith

-- update_xid_rep adds its xid to the set of received xids, and nothing else, also when it is given
-- a xid for the second time.
pub received-update_xid_rep :
    (x n : ℕ) (w : List ℕ)
    → IsWindow w
    → IsU32 x
    → received n (update_xid_rep x w) ≡ (n == x) || received n w
received-update_xid_rep x n [] v u = absurd (v.not_empty refl)
received-update_xid_rep x n (f ∷ rest) v u = elim (dec_lt f x) [
  | yes above ↦ rw (update_above f x rest above) (
      compress_loop-received f _ (insert_xid x rest) n (Loop-start f x rest v above u)
      ∙ ground (arith, mem-insert_xid n x rest))
  | no below ↦ rw (update_below f x rest (omega arith)) (ground arith)
]

-- update_xid_rep keeps a window well formed. In particular its front afterwards is the largest xid
-- up to which every reply has been received.
pub update_xid_rep-IsWindow :
    (x : ℕ) (w : List ℕ) → IsWindow w → IsU32 x → IsWindow (update_xid_rep x w)
update_xid_rep-IsWindow x [] v u = absurd (v.not_empty refl)
update_xid_rep-IsWindow x (f ∷ rest) v u = elim (dec_lt f x) [
  | yes above ↦ rw (update_above f x rest above) (looped above (Loop-start f x rest v above u))
  | no below ↦ rw (update_below f x rest (omega arith)) v
]
  where
    looped :
        f < x
        → Loop f (f ∷ insert_xid x rest) (insert_xid x rest)
        → IsWindow (compress_loop (f ∷ insert_xid x rest) (insert_xid x rest))
    looped above l = record {
      not_empty = compress_loop-not_empty f _ _ l (λ e. cc);
      order = compress_loop-Ascending f _ _ l;
      fits =
          compress_loop-fits IsU32 _ (insert_xid x rest)
            ((v.fits).0, insert_xid-All IsU32 x rest u (v.fits).1);
      maximal = compress_loop-maximal f _ _ l;
    }

compress-All : (P : ℕ → Type 0) (w : List ℕ) → All P w → All P (compress w)
unfolding compress
compress-All P [] h = h
compress-All P (f ∷ rest) h = compress_loop-fits P (f ∷ rest) rest h

-- What holds of the xids in the window and of the new one, holds of the new window.
pub update_xid_rep-All :
    (P : ℕ → Type 0) (x : ℕ) (w : List ℕ) → P x → All P w → All P (update_xid_rep x w)
unfolding update_xid_rep
update_xid_rep-All P x w p h = elim (Bool-cases (leb x (front w))) [
  | inl old ↦ rw old h
  | inr young ↦ rw young (compress-All P (insert_xid x w) (insert_xid-All P x w p h))
]
