-- ===== src/Poll/Manager/Silence.antt =====
-- What the steps do to a descriptor that block_remove_fd has unwatched.
use mit6_824_2012spring_yfs.Prelude.{
  ℕ, ◌≡◌, ◌≢◌, ◌⊎◌, inl, inr, ap, true, false, some, List, [], ◌∷◌, ◌==◌, arith, subst, Bool-cases,
}
use mit6_824_2012spring_yfs.Poll.Flags.{FdSet}
use mit6_824_2012spring_yfs.Poll.Select.{SelectAio, selected, Found, wait_ready, watched}
use mit6_824_2012spring_yfs.Poll.Select.Highest.{IsTight}
use mit6_824_2012spring_yfs.Poll.Select.Ready.{has, wait_ready_exact}
use mit6_824_2012spring_yfs.Poll.Select.Sets.{unwatch_both}
use mit6_824_2012spring_yfs.Poll.Manager.Watching.{Step-Moves, Moves-watched, begin_remove-aio}
use mit6_824_2012spring_yfs.Poll.Manager.System.{
  Pc, outside, removing, woken, at_top, dispatching, System, wake, Event, added, Step, add, del,
  remove, removed, top_wakes, top_quiet, poll, poll_again, call_read, skip_read, call_write,
  skip_write, round_done,
}

-- A descriptor that is neither watched nor waiting to be dispatched.
pub record IsSilent (fd : ℕ) (s : System) : Type 0 where
  pub unwatched : watched s.mgr.aio fd ≡ false
  pub unread : has fd s.readable ≡ false
  pub unwritten : has fd s.writable ≡ false

pub record IsOrderly (p : ℕ) (s : System) : Type 0 where
  pub tight : IsTight s.mgr.aio
  pub pipe : s.mgr.aio.pipe_rd ≡ p
  pub idle : (s.phase ≡ dispatching) ⊎ ((s.readable ≡ []) × (s.writable ≡ []))
  pub gone : (i fd : ℕ) → s.pc i ≡ removing fd → (watched s.mgr.aio fd ≡ false) × (fd ≢ p)
  pub over : (i fd : ℕ) → s.pc i ≡ woken fd → IsSilent fd s × (fd ≢ p)

has-tail : (fd x : ℕ) (l rest : List ℕ) → l ≡ x ∷ rest → has fd l ≡ false → has fd rest ≡ false
has-tail fd x l rest e h = ground (arith, e, h)

-- What wait_ready finds is watched.
unwatched_unfound :
    (r w : FdSet) (a : SelectAio) (f : Found) (fd : ℕ)
    → IsTight a
    → (r a.pipe_rd ≡ true → a.wakeups ≢ 0)
    → wait_ready (selected r w) a ≡ some f
    → fd ≢ a.pipe_rd
    → watched a fd ≡ false
    → (has fd f.readable ≡ false) × (has fd f.writable ≡ false)
unwatched_unfound r w a f fd v k e n h =
    let (g, e', _, _, x) = wait_ready_exact a r w v k in
    let (x₁, x₂) = x fd n in
    let p : g ≡ f = cc in
    (
      ground (arith, x₁, h, ap (λ (y : Found). y.readable) p),
      ground (arith, x₂, h, ap (λ (y : Found). y.writable) p),
    )

Step-lists :
    (fd : ℕ) {s t : System} {e : Event}
    → Step s e t
    → IsTight s.mgr.aio
    → fd ≢ s.mgr.aio.pipe_rd
    → IsSilent fd s
    → (has fd t.readable ≡ false) × (has fd t.writable ≡ false)
Step-lists fd {s} (add x flag ch m p) v np h = (h.unread, h.unwritten)
Step-lists fd {s} (del x flag m p) v np h = (h.unread, h.unwritten)
Step-lists fd {s} (remove i x m o p) v np h = (h.unread, h.unwritten)
Step-lists fd {s} (removed i x p) v np h = (h.unread, h.unwritten)
Step-lists fd {s} (top_wakes p q) v np h = (h.unread, h.unwritten)
Step-lists fd {s} (top_quiet p q) v np h = (h.unread, h.unwritten)
Step-lists fd {s} (poll r w {f} p k q) v np h =
    unwatched_unfound r w s.mgr.aio f fd v k q np h.unwatched
Step-lists fd {s} (poll_again p q) v np h = (h.unread, h.unwritten)
Step-lists fd {s} (call_read x c {rest} p q r) v np h =
    (has-tail fd x s.readable rest q h.unread, h.unwritten)
Step-lists fd {s} (skip_read x {rest} p q r) v np h =
    (has-tail fd x s.readable rest q h.unread, h.unwritten)
Step-lists fd {s} (call_write x c {rest} p q r k) v np h =
    (h.unread, has-tail fd x s.writable rest r h.unwritten)
Step-lists fd {s} (skip_write x {rest} p q r k) v np h =
    (h.unread, has-tail fd x s.writable rest r h.unwritten)
Step-lists fd {s} (round_done p q r) v np h = (h.unread, h.unwritten)

-- A silent descriptor stays silent until it is added.
pub Step-IsSilent :
    (fd : ℕ) {s t : System} {e : Event}
    → Step s e t
    → e ≢ added fd
    → IsTight s.mgr.aio
    → fd ≢ s.mgr.aio.pipe_rd
    → IsSilent fd s
    → IsSilent fd t
Step-IsSilent fd {s} {t} st n v np h =
    let w = Moves-watched fd (Step-Moves st) n h.unwatched in
    let (r, q) = Step-lists fd st v np h in record { unwatched = w; unread = r; unwritten = q }

-- Where a thread stands in block_remove_fd after a step, and where it stood before.
woken_before : (p : Pc) (fd : ℕ) → wake p ≡ woken fd → (p ≡ removing fd) ⊎ (p ≡ woken fd)
woken_before outside fd e = cc
woken_before (removing x) fd e = inl (ground (arith, e))
woken_before (woken x) fd e = inr e

wake_removing : (p : Pc) (fd : ℕ) → wake p ≡ removing fd → ⊥
wake_removing outside fd e = cc
wake_removing (removing x) fd e = cc
wake_removing (woken x) fd e = cc

pub Step-removing :
    {s t : System} {e : Event} (i fd : ℕ)
    → Step s e t
    → t.pc i ≡ removing fd
    → (s.pc i ≡ removing fd) ⊎ ((watched t.mgr.aio fd ≡ false) × (fd ≢ s.mgr.aio.pipe_rd))
Step-removing i fd (add x flag ch m p) h = inl h
Step-removing i fd (del x flag m p) h = inl h
Step-removing {s} i fd (remove j x {m} n o p) h =
    let (u, q) = begin_remove-aio x s.mgr m p in
    elim (Bool-cases (i == j)) [
      | inl y ↦
          let e : x ≡ fd = ground (arith, h, y) in
          inr (
            subst (λ z. watched m.aio z ≡ false) e (unwatch_both x s.mgr.aio m.aio u q),
            ground (arith, e, n),
          )
      | inr z ↦ inl (ground (arith, h, z))
    ]
Step-removing i fd (removed j x p) h = inl (ground (arith, h))
Step-removing {s} i fd (top_wakes p q) h = absurd (wake_removing (s.pc i) fd h)
Step-removing i fd (top_quiet p q) h = inl h
Step-removing i fd (poll r w p k q) h = inl h
Step-removing i fd (poll_again p q) h = inl h
Step-removing i fd (call_read x c p q r) h = inl h
Step-removing i fd (skip_read x p q r) h = inl h
Step-removing i fd (call_write x c p q r k) h = inl h
Step-removing i fd (skip_write x p q r k) h = inl h
Step-removing i fd (round_done p q r) h = inl h

pub Step-woken :
    {s t : System} {e : Event} (i fd : ℕ)
    → Step s e t
    → t.pc i ≡ woken fd
    → (s.pc i ≡ woken fd) ⊎ ((s.pc i ≡ removing fd) × (s.phase ≡ at_top))
Step-woken i fd (add x flag ch m p) h = inl h
Step-woken i fd (del x flag m p) h = inl h
Step-woken i fd (remove j x n o p) h = inl (ground (arith, h))
Step-woken i fd (removed j x p) h = inl (ground (arith, h))
Step-woken {s} i fd (top_wakes p q) h = elim (woken_before (s.pc i) fd h) [
  | inl r ↦ inr (r, p)
  | inr w ↦ inl w
]
Step-woken i fd (top_quiet p q) h = inl h
Step-woken i fd (poll r w p k q) h = inl h
Step-woken i fd (poll_again p q) h = inl h
Step-woken i fd (call_read x c p q r) h = inl h
Step-woken i fd (skip_read x p q r) h = inl h
Step-woken i fd (call_write x c p q r k) h = inl h
Step-woken i fd (skip_write x p q r k) h = inl h
Step-woken i fd (round_done p q r) h = inl h
