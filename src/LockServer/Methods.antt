-- ===== src/LockServer/Methods.antt =====
-- What single methods of the lock server do on every branch.
use mit6_824_2012spring_yfs.Prelude.{
  ℕ, ◌≡◌, ◌↔◌, refl, true, false, Option, none, some, List, find, arith, Option-cases, inl, inr, ap,
  ◌∙◌,
}
use mit6_824_2012spring_yfs.LockServer.{
  Lock, LockServer, returns, crash, ok, grant, resume, release, stat, try_lock, release_lock,
  put_lock,
}
use mit6_824_2012spring_yfs.LockServer.System.{
  System, Step, Reach, Event, start, later, grant_now, grant_waits, wake, resume_granted,
  resume_waits, release_wakes, release_alone, release_refused,
}
use mit6_824_2012spring_yfs.LockServer.Refines.{holder, release_found}

-- The map holds a lock for the key, not NULL and not nothing.
abbrev pub HasLock : LockServer → ℕ → Type 0
HasLock s l = (k : Lock) × (find l s.locks ≡ some (some k))

release_lock_frees :
    (c l : ℕ) (k : Lock) (s : LockServer)
    → find l s.locks ≡ some (some k)
    → ((release_lock c l (some k) s).outcome ≡ returns ok s.nacquire)
      × (((release_lock c l (some k) s).signals ≡ true) ↔ (holder s l ≡ some c))
unfolding release_lock
release_lock_frees c l k s e = (ground arith, (λ h. ground (arith, e), λ h. ground (arith, e)))

-- `release` of a lock that the server has returns OK to any client, and frees the lock and signals
-- exactly if the client holds it.
pub release_owner_only :
    (c l : ℕ) (s : LockServer)
    → HasLock s l
    → ((release c l s).outcome ≡ returns ok s.nacquire)
      × (((release c l s).signals ≡ true) ↔ (holder s l ≡ some c))
release_owner_only c l s (k, e) = rw (release_found c l (some k) s e) (release_lock_frees c l k s e)

release_missing :
    (c l : ℕ) (s : LockServer)
    → find l s.locks ≡ none
    → release c l s ≡ record { outcome = crash; signals = false; server = put_lock l none s }
unfolding release
release_missing c l s e = rw (e, release)

try_lock-nacquire :
    (c l : ℕ) (p : Option Lock) (s : LockServer) → (try_lock c l p s).1.nacquire ≡ s.nacquire
unfolding try_lock
try_lock-nacquire c l none s = refl
try_lock-nacquire c l (some k) s = ground arith

grant-nacquire : (c l : ℕ) (s : LockServer) → (grant c l s).1.nacquire ≡ s.nacquire
unfolding grant
grant-nacquire c l s = elim (Option-cases (find l s.locks)) [
  | inl e ↦ rw (e, grant)
  | inr (p, e) ↦ rw (e, grant) (try_lock-nacquire c l p s)
]

resume-nacquire : (c l : ℕ) (s : LockServer) → (resume c l s).1.nacquire ≡ s.nacquire
unfolding resume
resume-nacquire c l s = elim (Option-cases (find l s.locks)) [
  | inl e ↦ rw (e, resume)
  | inr (p, e) ↦ rw (e, resume) (try_lock-nacquire c l p s)
]

release_lock-nacquire :
    (c l : ℕ) (p : Option Lock) (s : LockServer)
    → (release_lock c l p s).server.nacquire ≡ s.nacquire
unfolding release_lock
release_lock-nacquire c l none s = refl
release_lock-nacquire c l (some k) s = ground arith

release-nacquire : (c l : ℕ) (s : LockServer) → (release c l s).server.nacquire ≡ s.nacquire
release-nacquire c l s = elim (Option-cases (find l s.locks)) [
  | inl e ↦ rw (release_missing c l s e)
  | inr (p, e) ↦ rw (release_found c l p s e) (release_lock-nacquire c l p s)
]

Step-nacquire : {s t : System} {e : Event} → Step s e t → t.server.nacquire ≡ s.server.nacquire
Step-nacquire {s} (grant_now i c l r p h) = ground (arith, h, grant-nacquire c l s.server)
Step-nacquire {s} (grant_waits i c l p h) = ground (arith, h, grant-nacquire c l s.server)
Step-nacquire (wake i c l p) = refl
Step-nacquire {s} (resume_granted i c l r p h) = ground (arith, h, resume-nacquire c l s.server)
Step-nacquire {s} (resume_waits i c l p h) = ground (arith, h, resume-nacquire c l s.server)
Step-nacquire {s} (release_wakes i j c b l r p o g q) = release-nacquire c l s.server
Step-nacquire {s} (release_alone i c l r p o g q) = release-nacquire c l s.server
Step-nacquire {s} (release_refused i c l r p o g) = release-nacquire c l s.server

Reach-nacquire : {es : List Event} {s : System} → Reach es s → s.server.nacquire ≡ 0
Reach-nacquire start = refl
Reach-nacquire (later r st) = Step-nacquire st ∙ Reach-nacquire r

-- In every run of any number of threads `stat` answers OK with a count of 0, however many grants
-- there have been.
pub stat_zero :
    {es : List Event} {s : System} (c l : ℕ)
    → Reach es s
    → stat c l s.server ≡ (returns ok 0, s.server)
unfolding stat
stat_zero {s = s} c l r = ap (λ (n : ℕ). (returns ok n, s.server)) (Reach-nacquire r)
