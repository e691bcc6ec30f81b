-- ===== src/LockServer/Refines.antt =====
-- The lock server implements locks: a specification that knows only who holds which lock.
use mit6_824_2012spring_yfs.Prelude.{
  ℕ, ◌≡◌, refl, inl, inr, true, false, Option, none, some, List, [], ◌∷◌, ◌==◌, if◌then◌else◌, find,
  find-insert, arith, Option-cases, ◌∙◌, ap, sym,
}
use mit6_824_2012spring_yfs.LockServer.{
  Lock, locked, LockServer, returns, waits, ok, set_free, is_locked, put_lock, try_lock, grant,
  resume, release_lock, release,
}
use mit6_824_2012spring_yfs.LockServer.System.{
  Event, granted, released, silent, Step, System, Reach, start, later, grant_now, grant_waits, wake,
  resume_granted, resume_waits, release_wakes, release_alone, release_refused,
}

abbrev pub Holders : Type 0
Holders = ℕ → Option ℕ

abbrev pub owner : Option (Option Lock) → Option ℕ
owner none = none
owner (some none) = none
owner (some (some l)) = if is_locked l then some l.clt else none

-- Who holds a lock, as the server has it.
abbrev pub holder : LockServer → Holders
holder s l = owner (find l s.locks)

-- The specification: only a free lock is granted, only its holder releases it, and no other lock is
-- touched.
abbrev pub Spec : Holders → Event → Holders → Type 0
Spec h (granted c l) h' = (h l ≡ none) × ((j : ℕ) → h' j ≡ (if l == j then some c else h j))
Spec h (released c l) h' = (h l ≡ some c) × ((j : ℕ) → h' j ≡ (if l == j then none else h j))
Spec h silent h' = (j : ℕ) → h' j ≡ h j

holder-put_lock :
    (l j : ℕ) (p : Option Lock) (s : LockServer)
    → holder (put_lock l p s) j ≡ (if l == j then owner (some p) else holder s j)
holder-put_lock l j p s = rw (find-insert l j p s.locks) (ground arith)

try_lock-Spec :
    (c l r : ℕ) (p : Option Lock) (s t : LockServer)
    → find l s.locks ≡ some p
    → try_lock c l p s ≡ (returns ok r, t)
    → Spec (holder s) (granted c l) (holder t)
unfolding try_lock
try_lock-Spec c l r none s t e h = cc
try_lock-Spec c l r (some k) s t e h = (
  ground (arith, e),
  λ j. ground (arith, holder-put_lock l j (some (record k { state = locked; clt = c })) s),
)

pub grant-Spec :
    (c l r : ℕ) (s t : LockServer)
    → grant c l s ≡ (returns ok r, t)
    → Spec (holder s) (granted c l) (holder t)
unfolding grant
grant-Spec c l r s t h = elim (Option-cases (find l s.locks)) [
  | inl e ↦ (
    ground (arith, e),
    λ j.
        ground
          (arith, e, holder-put_lock l j (some (record { lid = l; state = locked; clt = c })) s),
  )
  | inr (p, e) ↦ try_lock-Spec c l r p s t e (rw (e, grant) at h)
]

pub resume-Spec :
    (c l r : ℕ) (s t : LockServer)
    → resume c l s ≡ (returns ok r, t)
    → Spec (holder s) (granted c l) (holder t)
unfolding resume
resume-Spec c l r s t h = elim (Option-cases (find l s.locks)) [
  | inl e ↦ ground (arith, e)
  | inr (p, e) ↦ try_lock-Spec c l r p s t e (rw (e, resume) at h)
]

-- A thread waits only for a lock that is held, and changes nothing.
abbrev pub Waits : LockServer → LockServer → ℕ → Type 0
Waits s t l = (t ≡ s) × ((c : ℕ) × (holder s l ≡ some c))

try_lock-Waits :
    (c l : ℕ) (p : Option Lock) (s t : LockServer)
    → find l s.locks ≡ some p
    → try_lock c l p s ≡ (waits, t)
    → Waits s t l
unfolding try_lock
try_lock-Waits c l none s t e h = cc
try_lock-Waits c l (some k) s t e h = (ground arith, (k.clt, ground (arith, e)))

pub grant-Waits : (c l : ℕ) (s t : LockServer) → grant c l s ≡ (waits, t) → Waits s t l
unfolding grant
grant-Waits c l s t h = elim (Option-cases (find l s.locks)) [
  | inl e ↦ absurd (ground (arith, e))
  | inr (p, e) ↦ try_lock-Waits c l p s t e (rw (e, grant) at h)
]

pub resume-Waits : (c l : ℕ) (s t : LockServer) → resume c l s ≡ (waits, t) → Waits s t l
unfolding resume
resume-Waits c l s t h = elim (Option-cases (find l s.locks)) [
  | inl e ↦ absurd (ground (arith, e))
  | inr (p, e) ↦ try_lock-Waits c l p s t e (rw (e, resume) at h)
]

release_lock-Spec :
    (c l r : ℕ) (p : Option Lock) (s : LockServer)
    → find l s.locks ≡ some p
    → (release_lock c l p s).signals ≡ true
    → Spec (holder s) (released c l) (holder (release_lock c l p s).server)
unfolding release_lock
release_lock-Spec c l r none s e h = cc
release_lock-Spec c l r (some k) s e h =
    (ground (arith, e), λ j. ground (arith, holder-put_lock l j (some (set_free k)) s))

pub release_found :
    (c l : ℕ) (p : Option Lock) (s : LockServer)
    → find l s.locks ≡ some p
    → release c l s ≡ release_lock c l p s
unfolding release
release_found c l p s e = rw (e, release)

-- `release` signals only where it frees the lock of its caller.
pub release-Spec :
    (c l r : ℕ) (s : LockServer)
    → (release c l s).signals ≡ true
    → Spec (holder s) (released c l) (holder (release c l s).server)
unfolding release
release-Spec c l r s h = elim (Option-cases (find l s.locks)) [
  | inl e ↦ absurd (ground (arith, e))
  | inr (p, e) ↦
      rw (release_found c l p s e)
        (release_lock-Spec c l r p s e (rw (release_found c l p s e) at h))
]

release_lock_refused :
    (c l r : ℕ) (p : Option Lock) (s : LockServer)
    → (release_lock c l p s).outcome ≡ returns ok r
    → (release_lock c l p s).signals ≡ false
    → (release_lock c l p s).server ≡ s
unfolding release_lock
release_lock_refused c l r none s h k = cc
release_lock_refused c l r (some q) s h k = ground arith

pub release_refused_same :
    (c l r : ℕ) (s : LockServer)
    → (release c l s).outcome ≡ returns ok r
    → (release c l s).signals ≡ false
    → (release c l s).server ≡ s
unfolding release
release_refused_same c l r s h k = elim (Option-cases (find l s.locks)) [
  | inl e ↦ absurd (ground (arith, e))
  | inr (p, e) ↦
      let q = release_found c l p s e in
      rw q (release_lock_refused c l r p s (rw q at h) (rw q at k))
]

-- Every step of any thread is a step of the specification.
pub Step-Spec : {s t : System} {e : Event} → Step s e t → Spec (holder s.server) e (holder t.server)
Step-Spec {s} (grant_now i c l r {t} p h) = grant-Spec c l r s.server t h
Step-Spec {s} (grant_waits i c l {t} p h) =
    λ j. ap (λ (x : LockServer). holder x j) (grant-Waits c l s.server t h).0
Step-Spec (wake i c l p) = λ j. refl
Step-Spec {s} (resume_granted i c l r {t} p h) = resume-Spec c l r s.server t h
Step-Spec {s} (resume_waits i c l {t} p h) =
    λ j. ap (λ (x : LockServer). holder x j) (resume-Waits c l s.server t h).0
Step-Spec {s} (release_wakes i k c d l r p o g w) = release-Spec c l r s.server g
Step-Spec {s} (release_alone i c l r p o g w) = release-Spec c l r s.server g
Step-Spec {s} (release_refused i c l r p o g) =
    λ j. ap (λ (x : LockServer). holder x j) (release_refused_same c l r s.server o g)

-- The holder of each lock after a history, whose latest event comes first.
pub holder_after : List Event → Holders
holder_after [] j = none
holder_after (granted c l ∷ es) j = if l == j then some c else holder_after es j
holder_after (released c l ∷ es) j = if l == j then none else holder_after es j
holder_after (silent ∷ es) j = holder_after es j

-- In the history every grant is of a lock that was free, and every release is by the holder.
abbrev pub Exclusive : List Event → Type 0
Exclusive [] = Unit {0}
Exclusive (granted c l ∷ es) = (holder_after es l ≡ none) × Exclusive es
Exclusive (released c l ∷ es) = (holder_after es l ≡ some c) × Exclusive es
Exclusive (silent ∷ es) = Exclusive es

Spec-Exclusive :
    (h h' : Holders) (e : Event) (es : List Event)
    → Spec h e h'
    → Exclusive es
    → ((j : ℕ) → h j ≡ holder_after es j)
    → Exclusive (e ∷ es) × ((j : ℕ) → h' j ≡ holder_after (e ∷ es) j)
unfolding holder_after
Spec-Exclusive h h' (granted c l) es p x v = ((sym (v l) ∙ p.0, x), λ j. ground (arith, p.1 j, v j))
Spec-Exclusive h h' (released c l) es p x v =
    ((sym (v l) ∙ p.0, x), λ j. ground (arith, p.1 j, v j))
Spec-Exclusive h h' silent es p x v = (x, λ j. p j ∙ v j)

-- In every run of any number of threads, from the empty server and in any interleaving: a lock is
-- granted only while no client holds it, it is released only by the client that holds it, and the
-- server knows the holder of each lock.
pub mutual_exclusion :
    {es : List Event} {s : System}
    → Reach es s
    → Exclusive es × ((l : ℕ) → holder s.server l ≡ holder_after es l)
unfolding holder_after find
mutual_exclusion start = (tt, λ l. refl)
mutual_exclusion (later {es} {e} {s} {t} r st) =
    let (x, v) = mutual_exclusion r in
    Spec-Exclusive (holder s.server) (holder t.server) e es (Step-Spec st) x v
