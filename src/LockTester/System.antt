-- ===== src/LockTester/System.antt =====
-- The threads of a test beside the lock server that they call. The lock server is that of
-- LockServer.System; `id` gives the nonce of a client. A call of the tester ends when the server has
-- granted or released; what the network does to it is not seen here.
use mit6_824_2012spring_yfs.Prelude.{ℕ, ◌≡◌, ◌==◌, if◌then◌else◌, some, List, ◌∷◌}
use mit6_824_2012spring_yfs.LockServer.System
use mit6_824_2012spring_yfs.LockServer.System.{granted, released, silent}
use mit6_824_2012spring_yfs.LockTester.{
  Counts, check_grant, check_release, Action, acquires, checks_grant, checks_release, releases,
}

-- `todo` is what each thread has still to do.
pub record Test : Type 0 where
  pub server : System.System
  pub ct : Counts
  pub todo : ℕ → List Action

abbrev pub set_todo : (ℕ → List Action) → ℕ → List Action → ℕ → List Action
set_todo todo i p j = if j == i then p else todo j

-- A release whose thread gets its reply although the server did nothing is `unheard`. A check that
-- fails ends the program, and has no step.
pub data Step (id : ℕ → ℕ) (s : Test) : Test → Type 0 where
  acquired :
      (i c l : ℕ) {p : List Action} {t : System.System}
      → s.todo i ≡ acquires c l ∷ p
      → System.Step s.server (granted (id c) l) t
      → Step id s (record s { server = t; todo = set_todo s.todo i p })
  grant_checked :
      (i l : ℕ) {p : List Action} {ct : Counts}
      → s.todo i ≡ checks_grant l ∷ p
      → check_grant l s.ct ≡ some ct
      → Step id s (record s { ct = ct; todo = set_todo s.todo i p })
  release_checked :
      (i l : ℕ) {p : List Action} {ct : Counts}
      → s.todo i ≡ checks_release l ∷ p
      → check_release l s.ct ≡ some ct
      → Step id s (record s { ct = ct; todo = set_todo s.todo i p })
  heard :
      (i c l : ℕ) {p : List Action} {t : System.System}
      → s.todo i ≡ releases c l ∷ p
      → System.Step s.server (released (id c) l) t
      → Step id s (record s { server = t; todo = set_todo s.todo i p })
  unheard :
      (i c l : ℕ) {p : List Action} {t : System.System}
      → s.todo i ≡ releases c l ∷ p
      → System.Step s.server silent t
      → Step id s (record s { server = t; todo = set_todo s.todo i p })
  inside : {t : System.System} → System.Step s.server silent t → Step id s (record s { server = t })

-- The threads at the start of a test, with a new server.
abbrev pub init : (ℕ → List Action) → Test
init todo = record { server = System.init; ct = λ _. 0; todo = todo }

pub data Reach (id : ℕ → ℕ) (todo : ℕ → List Action) : Test → Type 0 where
  start : Reach id todo (init todo)
  later : {s t : Test} → Reach id todo s → Step id s t → Reach id todo t
