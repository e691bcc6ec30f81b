-- ===== src/ThrPool.antt =====
-- The bounded queue of rpc/fifo.h and the thread pool of rpc/thr_pool.h and rpc/thr_pool.cc.
--
-- Each method of fifo runs under its mutex and is split where it waits, as in the lock server: a
-- result `waits` leaves the queue as it is, and the method starts over after a wake-up.
pub mod Queue
pub mod Workers
mod Examples
use mit6_824_2012spring_yfs.Prelude.{
  ℕ, ◌*◌, Bool, true, false, ◌||◌, ◌&&◌, Option, none, some, List, [], ◌∷◌, ◌++◌, ltb, ◌==◌, not,
  if◌then◌else◌, length,
}

pub record Fifo (T : Type 0) : Type 0 where
  pub q : List T
  pub max : ℕ  -- max_, where 0 is no limit

pub data Enq (T : Type 0) : Type 0 where
  -- The element is in the queue, and non_empty_c_ is signalled.
  enqueued : Fifo T → Enq T
  -- The queue is full: `enq` waits on has_space_c_.
  enq_waits : Enq T
  -- The queue is full and the call does not block.
  refused : Enq T

pub data Deq (T : Type 0) : Type 0 where
  -- The first element, the rest, and whether has_space_c_ is signalled.
  dequeued : T → Fifo T → (signals : Bool) → Deq T
  -- The queue is empty: `deq` waits on non_empty_c_.
  deq_waits : Deq T

module _ {T : Type 0} where
  -- fifo(int)
  pub new_fifo : ℕ → Fifo T
  new_fifo limit = record { q = []; max = limit }

  -- size() has the type bool.
  pub size : Fifo T → Bool
  size f = not (length f.q == 0)

  abbrev pub has_space : Fifo T → Bool
  has_space f = (f.max == 0) || ltb (length f.q) f.max

  unfoldable pub enq : T → Bool → Fifo T → Enq T
  enq e blocking f =
      if has_space f
      then enqueued (record f { q = f.q ++ (e ∷ []) })
      else if blocking
      then enq_waits
      else refused

  unfoldable pub deq_from : List T → ℕ → Deq T
  deq_from [] max = deq_waits
  deq_from (e ∷ rest) max =
      dequeued e (record { q = rest; max = max }) (not (max == 0) && ltb (length rest) max)

  unfoldable pub deq : Fifo T → Deq T
  unfolding deq_from
  deq f = deq_from f.q f.max

-- job_t: a function and its argument, or the poison pill, whose function is NULL.
pub data Job : Type 0 where
  job : (f a : ℕ) → Job
  poison : Job

pub record ThrPool : Type 0 where
  pub nthreads : ℕ
  pub blockadd : Bool
  pub jobq : Fifo Job

-- ThrPool(int, bool)
pub new_thr_pool : ℕ → Bool → ThrPool
unfolding new_fifo
new_thr_pool sz blocking = record { nthreads = sz; blockadd = blocking; jobq = new_fifo (100 * sz) }

pub add_job : (f a : ℕ) → ThrPool → Enq Job
add_job f a p = enq (job f a) p.blockadd p.jobq

-- takeJob: what the worker does with the job that it takes; false tells it to exit.
pub is_job : Job → Bool
is_job (job f a) = true
is_job poison = false
