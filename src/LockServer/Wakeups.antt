-- ===== src/LockServer/Wakeups.antt =====
-- No wake-up is lost: who waits for a lock has a holder to wait for, or a woken thread before it.
use mit6_824_2012spring_yfs.Prelude.{
  ℕ, ◌≡◌, ◌≢◌, ◌⊎◌, inl, inr, Option, some, List, ◌==◌, if◌then◌else◌, arith, Bool-cases, ==_iff,
}
use mit6_824_2012spring_yfs.LockServer.{LockServer}
use mit6_824_2012spring_yfs.LockServer.System.{
  Pc, idle, waiting, woken, Event, Step, System, Reach, start, later, grant_now, grant_waits, wake,
  resume_granted, resume_waits, release_wakes, release_alone, release_refused, set_pc, granted,
  released,
}
use mit6_824_2012spring_yfs.LockServer.Refines.{
  holder, Spec, grant-Spec, grant-Waits, resume-Waits, resume-Spec, release-Spec,
  release_refused_same,
}

abbrev pub Held : System → ℕ → Type 0
Held s l = (c : ℕ) × (holder s.server l ≡ some c)

abbrev pub Stirs : System → ℕ → Type 0
Stirs s l = (j : ℕ) × (d : ℕ) × (s.pc j ≡ woken d l)

abbrev pub IsAwake : System → Type 0
IsAwake s = (i c l : ℕ) → s.pc i ≡ waiting c l → Held s l ⊎ Stirs s l

-- A thread that becomes idle, or waits for a lock that is held, or is woken, strands no other.
grant_keeps :
    (s t : System) (c l k : ℕ)
    → Spec (holder s.server) (granted c l) (holder t.server)
    → Held s k
    → Held t k
grant_keeps s t c l k sp (d, h) = (if l == k then c else d, ground (arith, sp.1 k))

Held-other :
    (s : System) (h' : ℕ → Option ℕ) (c l k : ℕ)
    → Spec (holder s.server) (released c l) h'
    → l ≢ k
    → Held s k
    → (d : ℕ) × (h' k ≡ some d)
Held-other s h' c l k sp ne (d, h) = (d, ground (arith, sp.1 k))

Held-same :
    (s : System) (t : LockServer) (k : ℕ)
    → t ≡ s.server
    → Held s k
    → (c : ℕ) × (holder t k ≡ some c)
Held-same s t k e (d, h) = (d, rw e h)

-- A thread that was woken stays so, if another one moves.
Stirs-other :
    (s : System) (i : ℕ) (p : Pc) (k : ℕ)
    → ((d : ℕ) → s.pc i ≢ woken d k)
    → Stirs s k
    → (j : ℕ) × (d : ℕ) × (set_pc s.pc i p j ≡ woken d k)
Stirs-other s i p k ne (j, d, h) = (
  j,
  d,
  elim (Bool-cases (i == j)) [
    | inl same ↦ absurd (ne d (rw ((==_iff i j).0 same) h))
    | inr other ↦ rw other h
  ],
)

-- A thread that waits after thread `i` has moved is `i`, or waited before.
waiting_before :
    (s : System) (i : ℕ) (p : Pc) (k d m : ℕ)
    → set_pc s.pc i p k ≡ waiting d m
    → (p ≡ waiting d m) ⊎ (s.pc k ≡ waiting d m)
waiting_before s i p k d m w = ground arith

-- Thread `i`, which was woken for lock `l`, moves on while the lock is held.
woken_moves :
    (s : System) (t : LockServer) (i c l : ℕ) (p : Pc) (m : ℕ)
    → s.pc i ≡ woken c l
    → (b : ℕ) → holder t l ≡ some b
    → Stirs s m
    → ((d : ℕ) × (holder t m ≡ some d)) ⊎ ((j : ℕ) × (d : ℕ) × (set_pc s.pc i p j ≡ woken d m))
woken_moves s t i c l p m q b h (j, d, e) = elim (Bool-cases (i == j)) [
  | inl same ↦ inl (b, ground arith)
  | inr other ↦ inr (j, d, rw other e)
]

pub Step-IsAwake : {s t : System} {e : Event} → Step s e t → IsAwake s → IsAwake t
Step-IsAwake {s} (grant_now i c l r {t} p h) v k d m w = elim (v k d m w) [
  | inl held ↦
      inl (grant_keeps s (record s { server = t }) c l m (grant-Spec c l r s.server t h) held)
  | inr stirs ↦ inr stirs
]
Step-IsAwake {s} (grant_waits i c l {t} p h) v k d m w =
    let (same, held_now) = grant-Waits c l s.server t h in
    elim (waiting_before s i (waiting c l) k d m w) [
      | inl new ↦ inl (Held-same s t m same (held_now.0, ground (arith, held_now.1)))
      | inr old ↦ elim (v k d m old) [
        | inl held ↦ inl (Held-same s t m same held)
        | inr stirs ↦ inr (Stirs-other s i (waiting c l) m (λ b q. cc) stirs)
      ]
    ]
Step-IsAwake {s} {t} (wake i c l p) v k d m w = elim (waiting_before s i (woken c l) k d m w) [
  | inl new ↦ cc
  | inr old ↦ elim (v k d m old) [
    | inl held ↦ inl held
    | inr stirs ↦ inr (Stirs-other s i (woken c l) m (λ b q. cc) stirs)
  ]
]
Step-IsAwake {s} (resume_granted i c l r {t} p h) v k d m w =
    let sp = resume-Spec c l r s.server t h in
    elim (waiting_before s i idle k d m w) [
      | inl new ↦ cc
      | inr old ↦ elim (v k d m old) [
        | inl held ↦ inl (grant_keeps s (record s { server = t }) c l m sp held)
        | inr stirs ↦ woken_moves s t i c l idle m p c (ground (arith, sp.1 l)) stirs
      ]
    ]
Step-IsAwake {s} (resume_waits i c l {t} p h) v k d m w =
    let (same, held_now) = resume-Waits c l s.server t h in
    elim (waiting_before s i (waiting c l) k d m w) [
      | inl new ↦ inl (Held-same s t m same (held_now.0, ground (arith, held_now.1)))
      | inr old ↦ elim (v k d m old) [
        | inl held ↦ inl (Held-same s t m same held)
        | inr stirs ↦ woken_moves s t i c l (waiting c l) m p held_now.0 (rw same held_now.1) stirs
      ]
    ]
Step-IsAwake {s} {t} (release_wakes i j c b l r p o g q) v k d m w =
    let sp = release-Spec c l r s.server g in
    elim (Bool-cases (l == m)) [
      | inl same ↦ inr (j, b, ground (arith, same))
      | inr other ↦ elim (waiting_before s j (woken b l) k d m w) [
        | inl new ↦ cc
        | inr old ↦ elim (v k d m old) [
          | inl held ↦ inl (Held-other s _ c l m sp (ground (arith, other)) held)
          | inr stirs ↦ inr (Stirs-other s j (woken b l) m (λ a e. cc) stirs)
        ]
      ]
    ]
Step-IsAwake {s} {t} (release_alone i c l r p o g q) v k d m w = elim (v k d m w) [
  | inl held ↦ inl (Held-other s _ c l m (release-Spec c l r s.server g) (λ e. q k d (rw e w)) held)
  | inr stirs ↦ inr stirs
]
Step-IsAwake {s} {t} (release_refused i c l r p o g) v k d m w = elim (v k d m w) [
  | inl held ↦ inl (Held-same s _ m (release_refused_same c l r s.server o g) held)
  | inr stirs ↦ inr stirs
]

-- In every run of any number of threads, a thread that waits for a lock waits for one that some
-- client holds, or another thread has been woken for that lock and has yet to try it.
pub no_lost_wakeup :
    {es : List Event} {s : System}
    → Reach es s
    → (i c l : ℕ) → s.pc i ≡ waiting c l
    → Held s l ⊎ Stirs s l
no_lost_wakeup start i c l w = cc
no_lost_wakeup (later r st) i c l w = Step-IsAwake st (no_lost_wakeup r) i c l w
