-- ===== src/ThrPool/Queue.antt =====
-- fifo is a queue: first in, first out, within its limit.
use mit6_824_2012spring_yfs.Prelude.{
  ℕ, ◌≤◌, ◌≡◌, ◌≢◌, ◌⊎◌, refl, Bool, true, List, [], ◌∷◌, ◌++◌, length, length-append, arith, ltb,
  ◌==◌, not, ◌&&◌, append_assoc, ◌∙◌, ap,
}
use mit6_824_2012spring_yfs.ThrPool.{Fifo, enqueued, dequeued, enq, deq, deq_from, new_fifo}

-- The queue is within its limit, if it has one.
abbrev pub IsBounded : {T : Type 0} → Fifo T → Type 0
IsBounded f = (f.max ≡ 0) ⊎ (length f.q ≤ f.max)

-- A call of `enq` or `deq` that returns, with what goes in or comes out.
pub data Call (T : Type 0) : Type 0 where
  put : T → Call T
  got : T → Call T

pub data Runs {T : Type 0} (f : Fifo T) : Call T → Fifo T → Type 0 where
  puts : (e : T) (b : Bool) {g : Fifo T} → enq e b f ≡ enqueued g → Runs f (put e) g
  gets : (e : T) (s : Bool) {g : Fifo T} → deq f ≡ dequeued e g s → Runs f (got e) g

-- The calls of all threads in the order in which they run, the latest first.
pub data History {T : Type 0} (limit : ℕ) : List (Call T) → Fifo T → Type 0 where
  none_yet : History limit [] (new_fifo limit)
  and_then :
      {cs : List (Call T)} {c : Call T} {f g : Fifo T}
      → History limit cs f
      → Runs f c g
      → History limit (c ∷ cs) g

-- What went in and what came out, in order.
abbrev pub all_put : {T : Type 0} → List (Call T) → List T
all_put [] = []
all_put (put e ∷ cs) = all_put cs ++ (e ∷ [])
all_put (got e ∷ cs) = all_put cs

abbrev pub all_got : {T : Type 0} → List (Call T) → List T
all_got [] = []
all_got (put e ∷ cs) = all_got cs
all_got (got e ∷ cs) = all_got cs ++ (e ∷ [])

module _ {T : Type 0} where
  pub enq_lem :
      (e : T) (b : Bool) (f g : Fifo T)
      → enq e b f ≡ enqueued g
      → IsBounded f
      → (g.q ≡ f.q ++ (e ∷ [])) × (g.max ≡ f.max) × IsBounded g
  unfolding enq
  enq_lem e b f g h i = ground (arith, h, length-append f.q (e ∷ []))

  pub enq_empty :
      (e : T) (b : Bool) (f : Fifo T)
      → f.q ≡ []
      → enq e b f ≡ enqueued (record f { q = f.q ++ (e ∷ []) })
  unfolding enq
  enq_empty e b f h = ground (arith, ap length h)

  deq_from_lem :
      (q : List T) (max : ℕ) (e : T) (g : Fifo T) (s : Bool)
      → deq_from q max ≡ dequeued e g s
      → (q ≡ e ∷ g.q) × (g.max ≡ max) × (s ≡ not (max == 0) && ltb (length g.q) max)
  unfolding deq_from
  deq_from_lem [] max e g s h = cc
  deq_from_lem (x ∷ q) max e g s h = ground arith

  pub deq_lem :
      (f : Fifo T) (e : T) (g : Fifo T) (s : Bool)
      → deq f ≡ dequeued e g s
      → (f.q ≡ e ∷ g.q) × (g.max ≡ f.max) × (s ≡ not (f.max == 0) && ltb (length g.q) f.max)
  unfolding deq
  deq_lem f e g s h = deq_from_lem f.q f.max e g s h

  pub deq_cons :
      (f : Fifo T) (x : T) (rest : List T)
      → f.q ≡ x ∷ rest
      → (g : Fifo T) × (b : Bool) × (deq f ≡ dequeued x g b)
  unfolding deq deq_from
  deq_cons f x rest e =
      (record { q = rest; max = f.max }, not (f.max == 0) && ltb (length rest) f.max, rw e refl)

  -- In every run of any number of threads what came out, followed by what is still in the queue,
  -- is what went in, in the same order, and a limited queue never holds more than its limit.
  pub fifo_order :
      (limit : ℕ) {cs : List (Call T)} {f : Fifo T}
      → History limit cs f
      → (all_put cs ≡ all_got cs ++ f.q) × IsBounded f × (f.max ≡ limit)
  unfolding new_fifo
  fifo_order limit none_yet = ground arith
  fifo_order limit (and_then {cs} {f = f} {g} h (puts e b k)) =
      let (p, i, m) = fifo_order limit h in
      let (q, m', i') = enq_lem e b f g k i in
      (rw (p, q) (append_assoc (all_got cs) f.q (e ∷ [])), i', m' ∙ m)
  fifo_order limit (and_then {cs} {f = f} {g} h (gets e s k)) =
      let (p, i, m) = fifo_order limit h in
      let (q, m', _) = deq_lem f e g s k in
      (
        rw (append_assoc (all_got cs) (e ∷ []) g.q) (p ∙ ap (λ (y : List T). all_got cs ++ y) q),
        ground (arith, i, m', ap length q),
        m' ∙ m,
      )

  -- Whoever takes an element out of a limited queue that is within its limit signals has_space_c_,
  -- and then there is room for an element, whether its caller blocks or not.
  pub deq_makes_room :
      (f g : Fifo T) (e x : T) (s b : Bool)
      → IsBounded f
      → f.max ≢ 0
      → deq f ≡ dequeued e g s
      → (s ≡ true) × (enq x b g ≡ enqueued (record g { q = g.q ++ (x ∷ []) }))
  unfolding enq
  deq_makes_room f g e x s b i m h =
      let (q, m', s') = deq_lem f e g s h in ground (arith, q, m', s')
