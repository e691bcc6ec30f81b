-- ===== src/ThrPool/Workers.antt =====
-- How a pool is shut down: ~ThrPool (rpc/thr_pool.cc lines 33-48) puts one poison pill for each
-- worker behind the jobs, and do_worker (lines 6-18) takes jobs until it takes a pill.
--
-- A job comes to an end in the step in which it is taken. Who waits on a condition variable of the
-- queue sleeps until it is signalled or wakes up spuriously.
use mit6_824_2012spring_yfs.Prelude.{
  ℕ, zero, suc, ◌+◌, ◌-◌, ◌*◌, ◌==◌, ◌≢◌, if◌then◌else◌, ◌≤◌, ◌<◌, ◌≡◌, ◌⊎◌, inl, inr, refl, Bool,
  true, false, List, [], ◌∷◌, ◌++◌, length, length-append, replicate, arith, ◌∙◌, ap, append_assoc,
  subst, sym, Bool-cases, append-nil,
}
use mit6_824_2012spring_yfs.ThrPool.{
  Fifo, enqueued, enq_waits, dequeued, deq_waits, enq, deq, deq_from, has_space, Job, poison,
  is_job, ThrPool,
}
use mit6_824_2012spring_yfs.ThrPool.Queue.{IsBounded, enq_lem, deq_lem, deq_cons}

-- While the destructor runs: the queue, the pills that it has still to put there, whether it sleeps
-- on has_space_c_, the workers that are awake, those that sleep on non_empty_c_, and the jobs that
-- have been started.
pub record Shutdown : Type 0 where
  pub jobq : Fifo Job
  pub pills : ℕ
  pub sleeps : Bool
  pub workers : ℕ
  pub asleep : ℕ
  pub started : List Job

-- When the destructor is called, one pill for each worker is still to come. `sleepers` of the workers
-- sleep.
abbrev pub shutdown : (sleepers : ℕ) → ThrPool → Shutdown
shutdown sleepers p = record {
  jobq = p.jobq;
  pills = p.nthreads;
  sleeps = false;
  workers = p.nthreads - sleepers;
  asleep = sleepers;
  started = [];
}

-- pthread_cond_signal of non_empty_c_ wakes a worker, if one sleeps.
abbrev pub signal_non_empty : Shutdown → Shutdown
signal_non_empty s =
    if s.asleep == 0 then s else record s { asleep = s.asleep - 1; workers = s.workers + 1 }

-- The signal of has_space_c_, where `deq` gives it.
abbrev pub signal_has_space : Bool → Shutdown → Shutdown
signal_has_space b s = if b then record s { sleeps = false } else s

-- A step, and whether it is a spurious wake-up. A job is run in the step in which it is taken.
pub data Step (s : Shutdown) : (spurious : Bool) → Shutdown → Type 0 where
  -- The destructor puts a pill.
  pill :
      {k : ℕ} {g : Fifo Job}
      → s.sleeps ≡ false
      → s.pills ≡ suc k
      → enq poison true s.jobq ≡ enqueued g
      → Step s false (signal_non_empty (record s { jobq = g; pills = k }))
  -- The queue is full, and the destructor goes to sleep.
  pill_waits :
      {k : ℕ}
      → s.sleeps ≡ false
      → s.pills ≡ suc k
      → enq poison true s.jobq ≡ enq_waits
      → Step s false (record s { sleeps = true })
  -- A worker takes a job and runs it.
  take_job :
      (j : Job) (b : Bool) {k : ℕ} {g : Fifo Job}
      → s.workers ≡ suc k
      → deq s.jobq ≡ dequeued j g b
      → is_job j ≡ true
      → Step s false (signal_has_space b (record s { jobq = g; started = s.started ++ (j ∷ []) }))
  -- A worker takes a pill and exits.
  take_pill :
      (j : Job) (b : Bool) {k : ℕ} {g : Fifo Job}
      → s.workers ≡ suc k
      → deq s.jobq ≡ dequeued j g b
      → is_job j ≡ false
      → Step s false (signal_has_space b (record s { jobq = g; workers = k }))
  -- The queue is empty, and a worker goes to sleep.
  take_waits :
      {k : ℕ}
      → s.workers ≡ suc k
      → deq s.jobq ≡ deq_waits
      → Step s false (record s { workers = k; asleep = s.asleep + 1 })
  spurious_pill : s.sleeps ≡ true → Step s true (record s { sleeps = false })
  spurious_take :
      {k : ℕ} → s.asleep ≡ suc k → Step s true (record s { asleep = k; workers = s.workers + 1 })

-- `n` steps, of which `w` are spurious wake-ups.
pub data Reach (s : Shutdown) : (n w : ℕ) → Shutdown → Type 0 where
  here : Reach s zero zero s
  next :
      {n w : ℕ} {t u : Shutdown} {b : Bool}
      → Reach s n w t
      → Step t b u
      → Reach s (suc n) (if b then suc w else w) u

-- No job in a list is a pill.
abbrev pub AllJobs : List Job → Type 0
AllJobs [] = Unit {0}
AllJobs (j ∷ js) = (is_job j ≡ true) × AllJobs js

-- How many steps the threads can still take, if none wakes up without a signal.
abbrev pub effort : Shutdown → ℕ
effort s = 4 * s.pills + 2 * length s.jobq.q + s.workers + (if s.sleeps then 0 else 1)

-- What is in the queue: the jobs `js` that are left, and behind them `k` pills.
record IsOrderly (total : ℕ) (jobs : List Job) (n w : ℕ) (s : Shutdown) : Type 0 where
  js : List Job
  k : ℕ
  queue : s.jobq.q ≡ js ++ replicate k poison
  real : AllJobs js
  all : s.started ++ js ≡ jobs
  enough : k + s.pills ≡ s.workers + s.asleep
  last : s.workers + s.asleep ≡ 0 → js ≡ []
  bounded : IsBounded s.jobq
  -- While a worker sleeps, there is one awake for each element of the queue.
  woken : s.asleep ≢ 0 → length s.jobq.q ≤ s.workers
  -- The destructor sleeps only while there is no space.
  full : s.sleeps ≡ true → has_space s.jobq ≡ false
  count : n + effort s ≤ total + 2 * w

replicate-snoc : (k : ℕ) → replicate k poison ++ (poison ∷ []) ≡ replicate (suc k) poison
replicate-snoc zero = refl
replicate-snoc (suc k) = ap (λ (l : List Job). poison ∷ l) (replicate-snoc k)

head_job :
    (js : List Job) (k : ℕ) (j : Job) (rest : List Job)
    → j ∷ rest ≡ js ++ replicate k poison
    → AllJobs js
    → is_job j ≡ true
    → (js' : List Job) × (js ≡ j ∷ js') × (rest ≡ js' ++ replicate k poison)
unfolding is_job
head_job [] zero j rest e r t = cc
head_job [] (suc k) j rest e r t = ground (arith, e)
head_job (x ∷ js) k j rest e r t = (js, ground arith, ground arith)

head_pill :
    (js : List Job) (k : ℕ) (j : Job) (rest : List Job)
    → j ∷ rest ≡ js ++ replicate k poison
    → AllJobs js
    → is_job j ≡ false
    → (k' : ℕ) × (js ≡ []) × (k ≡ suc k') × (rest ≡ replicate k' poison)
unfolding is_job
head_pill [] zero j rest e r t = cc
head_pill [] (suc k) j rest e r t = (k, refl, refl, ground arith)
head_pill (x ∷ js) k j rest e (xj, r) t = ground (arith, e, xj)

pill_waits-full : (s : Shutdown) → enq poison true s.jobq ≡ enq_waits → has_space s.jobq ≡ false
unfolding enq
pill_waits-full s e = ground (arith, e)

deq_waits-empty : (q : List Job) (m : ℕ) → deq_from q m ≡ deq_waits → q ≡ []
unfolding deq_from
deq_waits-empty [] m e = refl
deq_waits-empty (x ∷ q) m e = cc

-- Whoever takes an element while there is no space signals has_space_c_.
deq_signals :
    (s : Shutdown) (j : Job) (g : Fifo Job) (b : Bool)
    → IsBounded s.jobq
    → has_space s.jobq ≡ false
    → deq s.jobq ≡ dequeued j g b
    → b ≡ true
deq_signals s j g b i h e =
    let (q, m, c) = deq_lem s.jobq j g b e in ground (arith, i, h, c, ap length q)

-- After an element is taken, the signal of has_space_c_ keeps the rest in order.
signal_has_space-IsOrderly :
    {total : ℕ} {jobs : List Job} {n w : ℕ} (b : Bool) (s : Shutdown)
    → (s.sleeps ≡ true → b ≡ true)
    → IsOrderly total jobs (suc n) w (record s { sleeps = false })
    → n + 1 + effort s ≤ total + 2 * w
    → IsOrderly total jobs (suc n) w (signal_has_space b s)
signal_has_space-IsOrderly true s f v c = v
signal_has_space-IsOrderly false s f v c = record {
  js = v.js;
  k = v.k;
  queue = v.queue;
  real = v.real;
  all = v.all;
  enough = v.enough;
  last = v.last;
  bounded = v.bounded;
  woken = v.woken;
  full = λ e. absurd (let h = f e in cc);
  count = omega (arith, c);
}

Step-IsOrderly :
    {total : ℕ} {jobs : List Job} {n w : ℕ} {b : Bool} {s t : Shutdown}
    → Step s b t
    → IsOrderly total jobs n w s
    → IsOrderly total jobs (suc n) (if b then suc w else w) t
unfolding deq
Step-IsOrderly {s = s} (pill {k} {g} sl p e) v =
    let (q, m, i) = enq_lem poison true s.jobq g e v.bounded in
    let l = length-append s.jobq.q (poison ∷ []) in
    let u : s.jobq.q ++ (poison ∷ []) ≡ v.js ++ replicate (suc v.k) poison =
      rw (v.queue, append_assoc v.js (replicate v.k poison) (poison ∷ []), replicate-snoc v.k)
        refl in
    elim (Bool-cases (s.asleep == 0)) [
      | inl z ↦ rw z (record {
        js = v.js;
        k = suc v.k;
        queue = q ∙ u;
        real = v.real;
        all = v.all;
        enough = omega (arith, p, v.enough);
        last = v.last;
        bounded = i;
        woken = λ a. ground (arith, a, z);
        full = λ f. ground (arith, f, sl);
        count = ground (arith, v.count, ap length q, l, p);
      })
      | inr z ↦ rw z (record {
        js = v.js;
        k = suc v.k;
        queue = q ∙ u;
        real = v.real;
        all = v.all;
        enough = ground (arith, p, v.enough, z);
        last = λ a. ground (arith, a);
        bounded = i;
        woken = λ a. ground (arith, z, v.woken, ap length q, l);
        full = λ f. ground (arith, f, sl);
        count = ground (arith, v.count, ap length q, l, p);
      })
    ]
Step-IsOrderly {s = s} (pill_waits sl p e) v = record {
  js = v.js;
  k = v.k;
  queue = v.queue;
  real = v.real;
  all = v.all;
  enough = v.enough;
  last = v.last;
  bounded = v.bounded;
  woken = v.woken;
  full = λ f. pill_waits-full s e;
  count = ground (arith, v.count, sl);
}
Step-IsOrderly {s = s} (take_job j b {k} {g} p e t) v =
    let (q, m, _) = deq_lem s.jobq j g b e in
    let (js', h, r) = head_job v.js v.k j g.q (sym q ∙ v.queue) v.real t in
    signal_has_space-IsOrderly b _ (λ f. deq_signals s j g b v.bounded (v.full f) e)
      (record {
        js = js';
        k = v.k;
        queue = r;
        real = (subst AllJobs h v.real).1;
        all =
            append_assoc s.started (j ∷ []) js'
            ∙ ap (λ (l : List Job). s.started ++ l) (sym h)
            ∙ v.all;
        enough = v.enough;
        last = λ z. ground (arith, p, z);
        bounded = ground (arith, v.bounded, m, ap length q);
        woken = λ z. omega (arith, v.woken z, ap length q);
        full = λ f. absurd cc;
        count = ground (arith, v.count, ap length q);
      })
      (ground (arith, v.count, ap length q))
Step-IsOrderly {s = s} (take_pill j b {k} {g} p e t) v =
    let (q, m, _) = deq_lem s.jobq j g b e in
    let (k', h, h', r) = head_pill v.js v.k j g.q (sym q ∙ v.queue) v.real t in
    signal_has_space-IsOrderly b _ (λ f. deq_signals s j g b v.bounded (v.full f) e)
      (record {
        js = [];
        k = k';
        queue = r;
        real = tt;
        all = ap (λ (l : List Job). s.started ++ l) (sym h) ∙ v.all;
        enough = omega (arith, v.enough, h', p);
        last = λ z. refl;
        bounded = ground (arith, v.bounded, m, ap length q);
        woken = λ z. omega (arith, v.woken z, ap length q, p);
        full = λ f. absurd cc;
        count = ground (arith, v.count, ap length q, p);
      })
      (ground (arith, v.count, ap length q, p))
Step-IsOrderly {s = s} (take_waits {k} p e) v =
    let z = deq_waits-empty s.jobq.q s.jobq.max e in
    record {
      js = v.js;
      k = v.k;
      queue = v.queue;
      real = v.real;
      all = v.all;
      enough = omega (arith, v.enough, p);
      last = λ a. v.last (omega (arith, a, p));
      bounded = v.bounded;
      woken = λ a. ground (arith, ap length z);
      full = v.full;
      count = ground (arith, v.count, p);
    }
Step-IsOrderly {s = s} (spurious_pill sl) v = record {
  js = v.js;
  k = v.k;
  queue = v.queue;
  real = v.real;
  all = v.all;
  enough = v.enough;
  last = v.last;
  bounded = v.bounded;
  woken = v.woken;
  full = λ f. absurd cc;
  count = ground (arith, v.count, sl);
}
Step-IsOrderly {s = s} (spurious_take {k} a) v = record {
  js = v.js;
  k = v.k;
  queue = v.queue;
  real = v.real;
  all = v.all;
  enough = omega (arith, v.enough, a);
  last = λ z. v.last (omega (arith, z, a));
  bounded = v.bounded;
  woken = λ z. ground (arith, v.woken, a);
  full = v.full;
  count = ground (arith, v.count, a);
}

Reach-IsOrderly :
    {total : ℕ} {jobs : List Job} {s : Shutdown} {n w : ℕ} {t : Shutdown}
    → Reach s n w t
    → IsOrderly total jobs zero zero s
    → IsOrderly total jobs n w t
Reach-IsOrderly here v = v
Reach-IsOrderly (next r st) v = Step-IsOrderly st (Reach-IsOrderly r v)

-- How the threads of a pool stand when its destructor is called.
pub record IsRunning (sleepers : ℕ) (p : ThrPool) : Type 0 where
  pub some_worker : 0 < p.nthreads
  pub real : AllJobs p.jobq.q
  pub bounded : IsBounded p.jobq
  pub among : sleepers ≤ p.nthreads
  -- While a worker sleeps, there is one awake for each job.
  pub woken : sleepers ≢ 0 → length p.jobq.q ≤ p.nthreads - sleepers

abbrev total_effort : ThrPool → ℕ
total_effort p = 5 * p.nthreads + 2 * length p.jobq.q + 1

start :
    (sleepers : ℕ) (p : ThrPool)
    → IsRunning sleepers p
    → IsOrderly (total_effort p) p.jobq.q zero zero (shutdown sleepers p)
start sleepers p r = record {
  js = p.jobq.q;
  k = zero;
  queue = sym (append-nil p.jobq.q);
  real = r.real;
  all = refl;
  enough = omega (arith, r.among);
  last = λ z. absurd (omega (arith, r.some_worker, r.among, z));
  bounded = r.bounded;
  woken = r.woken;
  full = λ e. absurd cc;
  count = omega (arith, r.among);
}

empty_orderly : (js : List Job) (k : ℕ) → [] ≡ js ++ replicate k poison → (js ≡ []) × (k ≡ 0)
empty_orderly [] zero e = (refl, refl)
empty_orderly [] (suc k) e = cc
empty_orderly (x ∷ js) k e = cc

-- A step that is not a spurious wake-up.
abbrev pub Goes : Shutdown → Type 0
Goes s = (t : Shutdown) × Step s false t

-- A worker that is awake can take whatever is first in the queue.
take_first :
    (s : Shutdown) (x : Job) (q : List Job) (k : ℕ) → s.jobq.q ≡ x ∷ q → s.workers ≡ suc k → Goes s
take_first s x q k e w =
    let (g, b, d) = deq_cons s.jobq x q e in
    elim (Bool-cases (is_job x)) [
      | inl y ↦ (_, take_job x b w d y)
      | inr n ↦ (_, take_pill x b w d n)
    ]

-- All jobs are done, all workers are gone, and the destructor has put all its pills.
abbrev pub Finished : List Job → Shutdown → Type 0
Finished jobs s =
    (s.pills ≡ 0) × (s.workers ≡ 0) × (s.asleep ≡ 0) × (s.jobq.q ≡ []) × (s.started ≡ jobs)

put_pill : (s : Shutdown) (k : ℕ) → s.sleeps ≡ false → s.pills ≡ suc k → Goes s
unfolding enq
put_pill s k n p = elim (Bool-cases (has_space s.jobq)) [
  | inl e ↦ (_, pill {g = record s.jobq { q = s.jobq.q ++ (poison ∷ []) }} n p (rw e refl))
  | inr e ↦ (_, pill_waits n p (rw e refl))
]

-- The destructor does not sleep while the queue is empty.
awake :
    {total : ℕ} {jobs : List Job} {n w : ℕ} (s : Shutdown)
    → IsOrderly total jobs n w s
    → s.jobq.q ≡ []
    → s.sleeps ≡ false
awake s v e = elim (Bool-cases s.sleeps) [
  | inl y ↦ absurd (ground (arith, v.full y, ap length e))
  | inr n ↦ n
]

deq_empty : (s : Shutdown) → s.jobq.q ≡ [] → deq s.jobq ≡ deq_waits
unfolding deq deq_from
deq_empty s e = rw e refl

progress :
    {total : ℕ} {jobs : List Job} {n w : ℕ} (s : Shutdown) (q : List Job) (p k : ℕ)
    → IsOrderly total jobs n w s
    → s.jobq.q ≡ q
    → s.pills ≡ p
    → s.workers ≡ k
    → Finished jobs s ⊎ Goes s
progress s (x ∷ q) p (suc k) v e f g = inr (take_first s x q k e g)
progress s (x ∷ q) p zero v e f g = absurd (elim (Bool-cases (s.asleep == 0)) [
  | inl a ↦
      let h : v.js ≡ [] = v.last (ground (arith, g, a)) in
      let z : v.k ≡ 0 = ground (arith, v.enough, g, a) in ground (arith, e, v.queue, h, z)
  | inr a ↦ ground (arith, v.woken, ap length e, g, a)
])
progress s [] (suc p) k v e f g = inr (put_pill s p (awake s v e) f)
progress s [] zero (suc k) v e f g = inr (_, take_waits g (deq_empty s e))
progress s [] zero zero v e f g =
    let (h, z) = empty_orderly v.js v.k (sym e ∙ v.queue) in
    inl (
      f,
      g,
      omega (arith, v.enough, z, f, g),
      e,
      sym (append-nil s.started) ∙ ap (λ (l : List Job). s.started ++ l) (sym h) ∙ v.all,
    )

-- If the jobs end, the destructor of a pool that has a worker lets every job run and then ends: in
-- whatever state it and the workers are, either all jobs that were in the queue have been started
-- in their order, the pills are put, the queue is empty and no worker is left, or a thread that is
-- awake can take a step; and there are no more steps than five for each worker, two for each job,
-- one, and two for each spurious wake-up. So no thread is left asleep on has_space_c_ or non_empty_c_.
-- The conditions are on the moment at which the destructor is called: the queue is within its limit
-- and has no pill in it, and no wake-up is outstanding, so that while some worker sleeps, as many are
-- awake as there are jobs.
pub shutdown_completes :
    (sleepers : ℕ) (p : ThrPool) {n w : ℕ} {s : Shutdown}
    → IsRunning sleepers p
    → Reach (shutdown sleepers p) n w s
    → (n ≤ 5 * p.nthreads + 2 * length p.jobq.q + 1 + 2 * w) × (Finished p.jobq.q s ⊎ Goes s)
shutdown_completes sleepers p {n} {w} {s} h r =
    let v = Reach-IsOrderly r (start sleepers p h) in
    (omega (arith, v.count), progress s s.jobq.q s.pills s.workers v refl refl refl)
