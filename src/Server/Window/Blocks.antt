-- ===== src/Server/Window/Blocks.antt =====
-- Which xids a window bars from being new: those that it holds, and those below its first reply.
use mit6_824_2012spring_yfs.Prelude.{
  ℕ, ◌+◌, ◌≤◌, ◌<◌, ◌≡◌, ◌⊎◌, inr, refl, Bool, true, false, Option, none, some, List, [], ◌∷◌, ltb,
  ◌==◌, if◌then◌else◌, arith,
}
use mit6_824_2012spring_yfs.Server.Window.{
  RpcState, new, Window, finish, Reply, new_reply, insert_reply, set_reply,
}
use mit6_824_2012spring_yfs.Server.Window.Spec.{Increasing, live, lookup_reply, judge}
use mit6_824_2012spring_yfs.Server.Window.Order.{after}

abbrev pub is_some {ℓ} : {A : Type ℓ} → Option A → Bool
is_some none = false
is_some (some a) = true

abbrev pub blocks : ℕ → List Reply → Bool
blocks x [] = false
blocks x (r ∷ rs) = if ltb x r.xid then true else is_some (lookup_reply x (r ∷ rs))

blocks_found : (x : ℕ) (ws : List Reply) → is_some (lookup_reply x ws) ≡ true → blocks x ws ≡ true
unfolding lookup_reply
blocks_found x [] h = h
blocks_found x (r ∷ rs) h = ground arith

lookup-Increasing :
    (x lo : ℕ) (ws : List Reply) → Increasing lo ws → is_some (lookup_reply x ws) ≡ true → lo ≤ x
unfolding lookup_reply
lookup-Increasing x lo [] i h = cc
lookup-Increasing x lo (r ∷ rs) i h = ground (arith, lookup-Increasing x (r.xid + 1) rs i.1)

blocks_below :
    (x rep lo : ℕ) (ws : List Reply)
    → Increasing lo ws
    → x < lo
    → (blocks x (live rep ws) ≡ true) ⊎ (live rep ws ≡ [])
unfolding live
blocks_below x rep lo [] i h = inr refl
blocks_below x rep lo (r ∷ rs) i h = ground (arith, blocks_below x rep (r.xid + 1) rs i.1)

-- Dropping acknowledged replies unbars an xid only if it was acknowledged and nothing is left.
pub live-blocks :
    (x rep lo : ℕ) (ws : List Reply)
    → Increasing lo ws
    → blocks x ws ≡ true
    → (blocks x (live rep ws) ≡ true) ⊎ ((x < rep) × (live rep ws ≡ []))
unfolding live lookup_reply
live-blocks x rep lo [] i h = cc
live-blocks x rep lo (r ∷ rs) i h = ground (
  arith,
  blocks_below x rep (r.xid + 1) rs i.1,
  blocks_found x rs,
  live-blocks x rep (r.xid + 1) rs i.1,
)

is_some-insert_reply :
    (x : ℕ) (n : Reply) (ws : List Reply)
    → is_some (lookup_reply x (insert_reply n ws))
      ≡ (if n.xid == x then true else is_some (lookup_reply x ws))
unfolding insert_reply lookup_reply
is_some-insert_reply x n [] = ground arith
is_some-insert_reply x n (r ∷ rs) = ground (arith, is_some-insert_reply x n rs)

is_some-set_reply :
    (x xid b sz : ℕ) (ws : List Reply)
    → is_some (lookup_reply x (set_reply xid b sz ws)) ≡ is_some (lookup_reply x ws)
unfolding set_reply lookup_reply
is_some-set_reply x xid b n [] = refl
is_some-set_reply x xid b n (r ∷ rs) = ground (arith, is_some-set_reply x xid b n rs)

pub blocks-set_reply :
    (x xid b sz : ℕ) (ws : List Reply) → blocks x (set_reply xid b sz ws) ≡ blocks x ws
unfolding set_reply lookup_reply
blocks-set_reply x xid b n [] = refl
blocks-set_reply x xid b n (r ∷ rs) = ground (arith, is_some-set_reply x xid b n rs)

abbrev pub is_new : RpcState → Bool
is_new new = true
is_new _ = false

-- A barred xid is not new.
pub judge_blocked :
    (c x : ℕ) (w : Window) (ws : List Reply) (fs : List ℕ)
    → blocks x ws ≡ true
    → is_new (finish c x w (judge x ws fs (lookup_reply x ws))).0.stat ≡ false
unfolding lookup_reply
judge_blocked c x w [] fs h = cc
judge_blocked c x w (r ∷ rs) fs h = ground arith

-- What a request was judged to be, it is barred afterwards.
pub after-blocks_self :
    (x : ℕ) (ws : List Reply) (fs : List ℕ)
    → blocks x (after x (judge x ws fs (lookup_reply x ws))) ≡ true
unfolding lookup_reply insert_reply
after-blocks_self x [] fs = ground arith
after-blocks_self x (r ∷ rs) fs = ground (arith, is_some-insert_reply x (new_reply x) rs)

-- A request keeps barred what is barred.
pub after-blocks :
    (x y : ℕ) (ws : List Reply) (fs : List ℕ)
    → blocks x ws ≡ true
    → blocks x (after y (judge y ws fs (lookup_reply y ws))) ≡ true
unfolding lookup_reply insert_reply
after-blocks x y [] fs h = cc
after-blocks x y (r ∷ rs) fs h = ground (arith, is_some-insert_reply x (new_reply y) rs)
