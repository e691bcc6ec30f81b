-- ===== src/Client/Deadlines.antt =====
-- The loop of rpcc::call1 (rpc/rpc.cc lines 216-270): when a call sends its request, how long it
-- waits, and when it gives up. The times are those of class Timespec.
--
-- A round is one turn of the loop. What it meets is a parameter: the clock, what
-- pthread_cond_timedwait answers for a deadline, and whether the channel is dead after the wait.
-- curr_to does not overflow, since it stays below twice the timeout, or below to_min.
pub mod Bounds
pub mod Timely
pub mod Spins
mod Examples
use mit6_824_2012spring_yfs.Prelude.{
  ℕ, zero, suc, ◌+◌, ◌*◌, ◌==◌, Bool, true, false, ◌&&◌, Option, none, some, if◌then◌else◌, ℤ, pos,
  negsuc, ltb, List, [], ◌∷◌, ◌>>=◌,
}
use mit6_824_2012spring_yfs.Timespec.{Timespec, cmp_timespec, add_timespec}

-- What pthread_cond_timedwait returns, with ca.done as it is then: 0, also after a spurious wake-up,
-- ETIMEDOUT, or EINVAL.
pub data Woke : Type 0 where
  notified : (done : Bool) → Woke
  timed_out : (done : Bool) → Woke
  invalid : (done : Bool) → Woke

-- What a round meets. `waits` has the answers of its calls of pthread_cond_timedwait.
pub record Round : Type 0 where
  pub now : Timespec
  pub done : Bool  -- ca.done before the first wait
  pub waits : (deadline : Timespec) → ℕ → Woke
  pub dead : Bool  -- !ch || ch->isdead()

-- Lines 248-261: whether the reply is there after the wait. Only ETIMEDOUT ends it without one.
unfoldable pub wait_done : (fuel : ℕ) → (ℕ → Woke) → (done : Bool) → Option Bool
wait_done fuel waits true = some true
wait_done zero waits false = none
wait_done (suc fuel) waits false = elim (waits zero) [
  | notified d ↦ wait_done fuel (λ k. waits (suc k)) d
  | timed_out d ↦ some d
  | invalid d ↦ wait_done fuel (λ k. waits (suc k)) d
]

-- The local variables of the loop; tv_sec of `finaldeadline` is 0 once it has been used.
pub record Waiting : Type 0 where
  pub curr_to : ℕ
  pub finaldeadline : Timespec
  pub transmit : Bool

-- to_min
abbrev pub to_min : ℕ
to_min = 1000

-- Lines 218-222.
abbrev pub new_waiting : Timespec → ℕ → Waiting
new_waiting now to = record {
  curr_to = to_min;
  finaldeadline = add_timespec now to;
  transmit = true;
}

abbrev pub is_above : ℤ → Bool
is_above (pos n) = ltb 0 n
is_above (negsuc n) = false

-- Lines 242-246: the deadline of this round, and the final deadline from now on.
pub next_deadline : Timespec → Waiting → Timespec × Timespec
next_deadline now w =
    let next = add_timespec now w.curr_to in
    if is_above (cmp_timespec next w.finaldeadline)
    then (w.finaldeadline, record w.finaldeadline { sec = 0 })
    else (next, w.finaldeadline)

-- How the loop ends: with the number of times that line 227 asked for a channel to send the request
-- on, and the deadlines of its waits, the latest first.
pub record Ended : Type 0 where
  pub replied : Bool
  pub sends : ℕ
  pub deadlines : List Timespec

-- Lines 225-270, from the sends and the deadlines so far. `m` is the fuel of each wait.
pub wait_loop :
    (fuel m : ℕ) (retrans : Bool) → (ℕ → Round) → ℕ → List Timespec → Waiting → Option Ended
wait_loop zero m retrans env n ds w = none
wait_loop (suc fuel) m retrans env n ds w =
    let r = env zero in
    let n' = if w.transmit then suc n else n in
    let (deadline, final) = next_deadline r.now w in
    let rest =
      wait_loop fuel m retrans (λ k. env (suc k)) n' (deadline ∷ ds)
        (record { curr_to = w.curr_to * 2; finaldeadline = final; transmit = retrans && r.dead }) in
    if w.finaldeadline.sec == 0
    then some (record { replied = false; sends = n'; deadlines = ds })
    else (wait_done m (r.waits deadline) r.done >>= λ replied.
        if replied
        then some (record { replied = true; sends = n'; deadlines = deadline ∷ ds })
        else rest)
