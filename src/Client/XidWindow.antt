-- ===== src/Client/XidWindow.antt =====
-- xid_rep_window_ of rpcc and update_xid_rep (rpc/rpc.cc lines 358-382). The list holds the xids of
-- received replies in ascending order; all xids up to its front have been received.
pub mod Sets
pub mod Update
mod Examples
use mit6_824_2012spring_yfs.Prelude.{
  ℕ, ◌+◌, Bool, true, false, List, [], ◌∷◌, leb, ltb, ◌==◌, if◌then◌else◌, u32,
}

-- front(); the list is never empty.
abbrev pub front : List ℕ → ℕ
front [] = 0
front (f ∷ rest) = f

-- Lines 368-374: before the first larger xid, or at the end.
pub insert_xid : ℕ → List ℕ → List ℕ
insert_xid x [] = x ∷ []
insert_xid x (a ∷ rest) = if ltb x a then x ∷ a ∷ rest else a ∷ insert_xid x rest

-- Lines 379-380: the inner loop, where the iterator points at `a`.
pub pop_while : ℕ → List ℕ → List ℕ
pop_while a [] = []
pop_while a (f ∷ rest) =
    let popped = pop_while a rest in if u32 (f + 1) == a then popped else f ∷ rest

-- Lines 377-381: the iterator passes over `ahead`, and the front of the list is popped meanwhile.
pub compress_loop : (window ahead : List ℕ) → List ℕ
compress_loop w [] = w
compress_loop w (a ∷ ahead) = compress_loop (pop_while a w) ahead

pub compress : List ℕ → List ℕ
compress [] = []
compress (f ∷ rest) = compress_loop (f ∷ rest) rest

pub update_xid_rep : ℕ → List ℕ → List ℕ
update_xid_rep x w = if leb x (front w) then w else compress (insert_xid x w)
