-- ===== src/ThrPool/Examples.antt =====
-- A queue of two elements and a pool of one thread, and the theorems about them at these inputs.
use mit6_824_2012spring_yfs.Prelude.{
  ℕ, false, ◌+◌, ◌*◌, ◌≤◌, ◌≡◌, ◌⊎◌, inr, refl, true, List, [], ◌∷◌, ◌++◌, arith,
}
use mit6_824_2012spring_yfs.ThrPool.{
  Fifo, dequeued, enq, deq, deq_from, new_fifo, job, poison, ThrPool, is_job,
}
use mit6_824_2012spring_yfs.ThrPool.Queue.{
  IsBounded, Call, put, got, puts, gets, History, none_yet, and_then, all_put, all_got, fifo_order,
}
use mit6_824_2012spring_yfs.ThrPool.Workers.{
  Shutdown, shutdown, pill, pill_waits, take_job, Reach, here, next, IsRunning, Goes, Finished,
  shutdown_completes,
}

abbrev two : Fifo ℕ
two = record { q = 5 ∷ 6 ∷ []; max = 2 }

abbrev one_left : Fifo ℕ
one_left = record { q = 6 ∷ []; max = 2 }

abbrev calls : List (Call ℕ)
calls = got 5 ∷ put 6 ∷ put 5 ∷ []

two-History : History 2 calls one_left
unfolding enq deq deq_from new_fifo
two-History =
    and_then (and_then (and_then none_yet (puts 5 true refl)) (puts 6 true refl)) (gets 5 true refl)

fifo_order_example :
    (all_put calls ≡ all_got calls ++ (6 ∷ [])) × IsBounded one_left × (one_left.max ≡ 2)
fifo_order_example = fifo_order 2 two-History

two-deq : deq two ≡ dequeued 5 one_left true
unfolding deq deq_from
two-deq = refl

-- A pool whose queue is full when its destructor is called.
abbrev tiny : ThrPool
tiny = record { nthreads = 1; blockadd = true; jobq = record { q = job 8 9 ∷ []; max = 1 } }

-- The destructor has slept until the worker took the job, and has put its pill.
abbrev after_pill : Shutdown
after_pill = record {
  jobq = record { q = poison ∷ []; max = 1 };
  pills = 0;
  sleeps = false;
  workers = 1;
  asleep = 0;
  started = job 8 9 ∷ [];
}

tiny-Reach : Reach (shutdown 0 tiny) 3 0 after_pill
unfolding enq deq deq_from is_job
tiny-Reach =
    next (next (next here (pill_waits refl refl refl)) (take_job (job 8 9) true refl refl refl))
      (pill {g = record { q = poison ∷ []; max = 1 }} refl refl refl)

tiny-IsRunning : IsRunning 0 tiny
unfolding is_job
tiny-IsRunning = record {
  some_worker = omega arith;
  real = (refl, tt);
  bounded = inr (omega arith);
  among = omega arith;
  woken = λ z. absurd (z refl);
}

shutdown_completes_example :
    (3 ≤ 5 * 1 + 2 * 1 + 1 + 2 * 0) × (Finished (job 8 9 ∷ []) after_pill ⊎ Goes after_pill)
shutdown_completes_example = shutdown_completes 0 tiny tiny-IsRunning tiny-Reach
