-- ===== src/LockServer/System.antt =====
-- Any number of dispatch threads that run the methods of one lock server, interleaved in any order.
use mit6_824_2012spring_yfs.Prelude.{ℕ, ◌≡◌, ◌≢◌, true, false, ◌==◌, if◌then◌else◌, List, [], ◌∷◌}
use mit6_824_2012spring_yfs.LockServer.{
  LockServer, new_lock_server, returns, waits, ok, grant, resume, release,
}

-- Where a thread stands. `waiting` is in pthread_cond_wait; `woken` has left it and wants the mutex.
pub data Pc : Type 0 where
  idle : Pc
  waiting : (clt lid : ℕ) → Pc
  woken : (clt lid : ℕ) → Pc

pub record System : Type 0 where
  pub server : LockServer
  pub pc : ℕ → Pc

abbrev pub set_pc : (ℕ → Pc) → ℕ → Pc → ℕ → Pc
set_pc pc i p j = if i == j then p else pc j

-- What a step lets a client see.
pub data Event : Type 0 where
  granted : (clt lid : ℕ) → Event
  released : (clt lid : ℕ) → Event
  silent : Event

-- Nobody waits for the lock.
abbrev pub NoWaiter : (ℕ → Pc) → ℕ → Type 0
NoWaiter pc lid = (i c : ℕ) → pc i ≢ waiting c lid

-- One piece of a method, or a wake-up. pthread_cond_signal wakes one waiter if there is one, and
-- pthread_cond_wait may also return for no reason. A crash ends the program, and has no step.
pub data Step (s : System) : Event → System → Type 0 where
  grant_now :
      (i c l r : ℕ) {t : LockServer}
      → s.pc i ≡ idle
      → grant c l s.server ≡ (returns ok r, t)
      → Step s (granted c l) (record s { server = t })
  grant_waits :
      (i c l : ℕ) {t : LockServer}
      → s.pc i ≡ idle
      → grant c l s.server ≡ (waits, t)
      → Step s silent (record { server = t; pc = set_pc s.pc i (waiting c l) })
  wake :
      (i c l : ℕ)
      → s.pc i ≡ waiting c l
      → Step s silent (record s { pc = set_pc s.pc i (woken c l) })
  resume_granted :
      (i c l r : ℕ) {t : LockServer}
      → s.pc i ≡ woken c l
      → resume c l s.server ≡ (returns ok r, t)
      → Step s (granted c l) (record { server = t; pc = set_pc s.pc i idle })
  resume_waits :
      (i c l : ℕ) {t : LockServer}
      → s.pc i ≡ woken c l
      → resume c l s.server ≡ (waits, t)
      → Step s silent (record { server = t; pc = set_pc s.pc i (waiting c l) })
  release_wakes :
      (i j c d l r : ℕ)
      → s.pc i ≡ idle
      → (release c l s.server).outcome ≡ returns ok r
      → (release c l s.server).signals ≡ true
      → s.pc j ≡ waiting d l
      → Step s
          (released c l)
          (record { server = (release c l s.server).server; pc = set_pc s.pc j (woken d l) })
  release_alone :
      (i c l r : ℕ)
      → s.pc i ≡ idle
      → (release c l s.server).outcome ≡ returns ok r
      → (release c l s.server).signals ≡ true
      → NoWaiter s.pc l
      → Step s (released c l) (record s { server = (release c l s.server).server })
  release_refused :
      (i c l r : ℕ)
      → s.pc i ≡ idle
      → (release c l s.server).outcome ≡ returns ok r
      → (release c l s.server).signals ≡ false
      → Step s silent (record s { server = (release c l s.server).server })

abbrev pub init : System
init = record { server = new_lock_server; pc = λ _. idle }

-- The states that are reached, with the events so far, the latest first.
pub data Reach : List Event → System → Type 0 where
  start : Reach [] init
  later : {es : List Event} {e : Event} {s t : System} → Reach es s → Step s e t → Reach (e ∷ es) t
