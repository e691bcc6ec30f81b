-- ===== src/Server/Window/Spec.antt =====
-- What checkduplicate_and_update computes on a window in order of xid, without its loop.
use mit6_824_2012spring_yfs.Prelude.{
  ℕ, ◌+◌, ◌≤◌, ◌<◌, ◌≡◌, refl, ◌∙◌, true, Option, none, some, List, [], ◌∷◌, ◌++◌, append-nil,
  append_assoc, ltb, ◌==◌, if◌then◌else◌, inl, inr, arith, Bool-cases,
}
use mit6_824_2012spring_yfs.Server.Window.{
  inprogress, done, forgotten, Reply, Scan, stop, pass, scan, bufs,
}

-- Strictly increasing xids, all of them above or at `lo`.
abbrev pub Increasing : ℕ → List Reply → Type 0
Increasing lo [] = Unit {0}
Increasing lo (r ∷ rs) = (lo ≤ r.xid) × Increasing (r.xid + 1) rs

pub Increasing-mono : {lo hi : ℕ} (ws : List Reply) → lo ≤ hi → Increasing hi ws → Increasing lo ws
Increasing-mono [] h i = tt
Increasing-mono (r ∷ rs) h i = (omega arith, i.1)

-- The replies that the client has not acknowledged, and those that it has.
unfoldable pub live : ℕ → List Reply → List Reply
live xid_rep [] = []
live xid_rep (r ∷ rs) = let rest = live xid_rep rs in if ltb r.xid xid_rep then rest else r ∷ rs

unfoldable pub acked : ℕ → List Reply → List Reply
acked xid_rep [] = []
acked xid_rep (r ∷ rs) = let rest = acked xid_rep rs in if ltb r.xid xid_rep then r ∷ rest else []

unfoldable pub lookup_reply : ℕ → List Reply → Option Reply
lookup_reply xid [] = none
lookup_reply xid (r ∷ rs) = let rest = lookup_reply xid rs in if r.xid == xid then some r else rest

-- The verdict on a request that the window holds no reply for.
abbrev pub unknown : ℕ → List Reply → List ℕ → List Reply → Scan
unknown xid ws fs [] = pass ws fs
unknown xid ws fs (r ∷ rs) = if ltb xid r.xid then stop forgotten 0 0 ws fs else pass ws fs

abbrev pub known : Reply → List Reply → List ℕ → Scan
known r ws fs = if r.cb_present then stop done r.buf r.sz ws fs else stop inprogress 0 0 ws fs

abbrev pub judge : ℕ → List Reply → List ℕ → Option Reply → Scan
judge xid ws fs none = unknown xid ws fs ws
judge xid ws fs (some r) = known r ws fs

-- The acknowledged replies are dropped. Then a request with a reply in the window is done or in
-- progress, one older than the whole window is forgotten, and any other is new.
unfoldable pub judge_request : ℕ → ℕ → List Reply → Scan
judge_request xid xid_rep ws =
    judge xid (live xid_rep ws) (bufs (acked xid_rep ws)) (lookup_reply xid (live xid_rep ws))

lookup_above :
    (xid lo : ℕ) (rs : List Reply) → Increasing lo rs → xid < lo → lookup_reply xid rs ≡ none
unfolding lookup_reply
lookup_above xid lo [] i h = refl
lookup_above xid lo (r ∷ rs) i h = ground (arith, lookup_above xid (r.xid + 1) rs i.1)

-- Behind a first reply `f` that stays, the loop only looks for `xid`.
scan_behind :
    (xid xid_rep : ℕ) (f : Reply) (kept rest : List Reply) (fs : List ℕ)
    → Increasing xid_rep rest
    → f.xid ≤ xid
    → scan xid xid_rep (f ∷ kept) rest fs
      ≡ judge xid (f ∷ (kept ++ rest)) fs (lookup_reply xid rest)
unfolding scan lookup_reply
scan_behind xid rep f kept [] fs i h = ground (arith, append-nil kept)
scan_behind xid rep f kept (r ∷ rest) fs i h = ground (
  arith,
  scan_behind xid rep f (kept ++ (r ∷ [])) rest fs (Increasing-mono rest (omega arith) i.1) h,
  append_assoc kept (r ∷ []) rest,
)

scan_live :
    (xid xid_rep : ℕ) (ws : List Reply) (fs : List ℕ)
    → Increasing xid_rep ws
    → scan xid xid_rep [] ws fs ≡ judge xid ws fs (lookup_reply xid ws)
unfolding scan lookup_reply
scan_live xid rep [] fs i = refl
scan_live xid rep (r ∷ rs) fs i = ground (
  arith,
  lookup_above xid (r.xid + 1) rs i.1,
  scan_behind xid rep r [] rs fs (Increasing-mono rs (omega arith) i.1),
)

scan_acked :
    (xid xid_rep : ℕ) (kept : List Reply) (r : Reply) (rest : List Reply) (fs : List ℕ)
    → ltb r.xid xid_rep ≡ true
    → scan xid xid_rep kept (r ∷ rest) fs ≡ scan xid xid_rep kept rest (fs ++ (r.buf ∷ []))
unfolding scan
scan_acked xid rep kept r rest fs h = ground arith

scan_trim :
    (xid xid_rep lo : ℕ) (ws : List Reply) (fs : List ℕ)
    → Increasing lo ws
    → scan xid xid_rep [] ws fs
      ≡ judge xid
          (live xid_rep ws)
          (fs ++ bufs (acked xid_rep ws))
          (lookup_reply xid (live xid_rep ws))
unfolding live acked
scan_trim xid rep lo [] fs i = rw (append-nil fs) (scan_live xid rep [] fs tt)
scan_trim xid rep lo (r ∷ rs) fs i = elim (Bool-cases (ltb r.xid rep)) [
  | inl old ↦
      rw (old, scan_acked xid rep [] r rs fs old)
        (scan_trim xid rep (r.xid + 1) rs _ i.1 ∙ rw append_assoc refl)
  | inr young ↦ rw (young, append-nil fs) (scan_live xid rep (r ∷ rs) fs (ground arith, i.1))
]

-- On a window in order the loop of checkduplicate_and_update is `judge_request`.
pub scan-judge_request :
    (xid xid_rep lo : ℕ) (ws : List Reply)
    → Increasing lo ws
    → scan xid xid_rep [] ws [] ≡ judge_request xid xid_rep ws
unfolding judge_request
scan-judge_request xid rep lo ws i = scan_trim xid rep lo ws [] i
