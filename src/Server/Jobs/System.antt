-- ===== src/Server/Jobs/System.antt =====
-- Messages that arrive and workers that take them, in any order, and who holds the references to
-- connections. A job is taken and run in one step.
use mit6_824_2012spring_yfs.Prelude.{
  ℕ, ◌+◌, ◌≡◌, ◌∙◌, inl, inr, refl, sym, ap, Bool, true, false, not, some, List, [], ◌∷◌, ◌++◌,
  ◌==◌, if◌then◌else◌, Memory, arith, Bool-cases, bind-some, subst, some_same, some_pair,
}
use mit6_824_2012spring_yfs.ThrPool.{
  Fifo, Enq, enqueued, enq_waits, refused, enq, dequeued, deq, deq_from,
}
use mit6_824_2012spring_yfs.Server.Dispatch.{Env, incref, decref, dispatch}
use mit6_824_2012spring_yfs.Server.Dispatch.Balance.{
  held, KeysFrom, is_old, decref_lem, dispatch_balances,
}
use mit6_824_2012spring_yfs.Server.Dispatch.Keys.{dispatch-KeysFrom}
use mit6_824_2012spring_yfs.Server.Jobs.{
  Djob, Server, set_reachable, after_add, got_pdu, work_on, work,
}

-- The jobs in the queue for connection `i`.
abbrev pub queued : ℕ → List Djob → ℕ
queued i [] = 0
queued i (j ∷ js) = (if i == j.conn then 1 else 0) + queued i js

abbrev pub occurs : ℕ → List ℕ → ℕ
occurs i [] = 0
occurs i (c ∷ cs) = (if i == c then 1 else 0) + occurs i cs

queued-append : (i : ℕ) (xs ys : List Djob) → queued i (xs ++ ys) ≡ queued i xs + queued i ys
queued-append i [] ys = omega arith
queued-append i (x ∷ xs) ys = omega (arith, queued-append i xs ys)

enq_lem : (e : Djob) (f g : Fifo Djob) → enq e false f ≡ enqueued g → g.q ≡ f.q ++ (e ∷ [])
unfolding enq
enq_lem e f g h = ground (arith, h)

deq_lem :
    (q : List Djob) (max : ℕ) (j : Djob) (g : Fifo Djob) (s : Bool)
    → deq_from q max ≡ dequeued j g s
    → q ≡ j ∷ g.q
unfolding deq_from
deq_lem [] max j g s h = absurd cc
deq_lem (e ∷ q) max j g s h =
    let a : e ≡ j = cc in
    let b : record { q = q; max = max } ≡ g = cc in
    ap (λ (z : Djob). z ∷ q) a ∙ ap (λ (z : Fifo Djob). j ∷ z.q) b

occurs-append : (i : ℕ) (xs ys : List ℕ) → occurs i (xs ++ ys) ≡ occurs i xs + occurs i ys
occurs-append i [] ys = omega arith
occurs-append i (x ∷ xs) ys = omega (arith, occurs-append i xs ys)

then_if : {A : Type 0} (b : Bool) (x y : A) → b ≡ true → (if b then x else y) ≡ x
then_if true x y e = refl
then_if false x y e = absurd cc

else_if : {A : Type 0} (b : Bool) (x y : A) → b ≡ false → (if b then x else y) ≡ y
else_if true x y e = absurd cc
else_if false x y e = refl

module _ {S : Type 0} where
  -- A step, with the connections whose reference it leaks: those of requests to another instance of
  -- the server. `still` is what got_pdu finds in reachable_ at its second test. A worker that takes a
  -- job which has been deleted finds it as it was.
  pub data Step (s : Server S) : List ℕ → Server S → Type 0 where
    arrives :
        (still : Bool) (c : ℕ) (b : Memory) (n : ℕ) (ok : Bool) {t : Server S}
        → got_pdu still c b n s ≡ some (ok, t)
        → Step s [] t
    turns : (r : Bool) → Step s [] (set_reachable r s)
    works :
        (env : Env) (j : Djob) (q : Fifo Djob) (signals : Bool) {t : Server S}
        → deq s.jobq ≡ dequeued j q signals
        → work env s ≡ some t
        → Step s (if is_old j.buf j.sz s.rpcs then j.conn ∷ [] else []) t

  pub data Run (s : Server S) : List ℕ → Server S → Type 0 where
    start : Run s [] s
    later : {ls ks : List ℕ} {t u : Server S} → Run s ls t → Step t ks u → Run s (ks ++ ls) u

  abbrev Accounts : Server S → List ℕ → Server S → ℕ → Type 0
  Accounts s ls t i =
      t.rpcs.refs i + held i s.rpcs.conns + queued i s.jobq.q + queued i t.dropped
      ≡ s.rpcs.refs i + held i t.rpcs.conns + queued i t.jobq.q + queued i s.dropped + occurs i ls

  -- What got_pdu and its end keep.
  abbrev Kept : Server S → Server S → ℕ → Type 0
  Kept s t i = Accounts s [] t i × (t.rpcs.conns ≡ s.rpcs.conns)

  after_add-Accounts :
      (s t : Server S) (still : Bool) (j : Djob) (o : Enq Djob) (ok : Bool) (i : ℕ)
      → enq j false s.jobq ≡ o
      → after_add still j o (record s { rpcs = incref j.conn s.rpcs }) ≡ some (ok, t)
      → Kept s t i
  unfolding after_add incref
  after_add-Accounts s t true j (enqueued q) ok i h e =
      subst (λ u. Kept s u i) ((some_pair e).1)
        (rw (enq_lem j s.jobq q h) (ground (arith, queued-append i s.jobq.q (j ∷ []))), refl)
  after_add-Accounts s t false j (enqueued q) ok i h e =
      let (r, d, k) = bind-some (decref j.conn (incref j.conn s.rpcs)) _ (ok, t) e in
      let (x, y) = decref_lem j.conn (incref j.conn s.rpcs) r i d in
      subst (λ u. Kept s u i) ((some_pair k).1)
        (
          rw (enq_lem j s.jobq q h) (
              ground (
                arith,
                x,
                ap (held i) y,
                queued-append i s.jobq.q (j ∷ []),
                queued-append i s.dropped (j ∷ []),
              )),
          y,
        )
  after_add-Accounts s t still j enq_waits ok i h e = absurd cc
  after_add-Accounts s t still j refused ok i h e =
      let (r, d, k) = bind-some (decref j.conn (incref j.conn s.rpcs)) _ (ok, t) e in
      let (x, y) = decref_lem j.conn (incref j.conn s.rpcs) r i d in
      subst (λ u. Kept s u i) ((some_pair k).1) (ground (arith, x, ap (held i) y), y)

  got_pdu-Accounts :
      (s t : Server S) (still : Bool) (c : ℕ) (b : Memory) (n : ℕ) (ok : Bool) (i : ℕ)
      → got_pdu still c b n s ≡ some (ok, t)
      → Kept s t i
  unfolding got_pdu
  got_pdu-Accounts s t still c b n ok i e = elim (Bool-cases s.reachable) [
    | inl y ↦
        let j : Djob = record { conn = c; buf = b; sz = n } in
        after_add-Accounts s t still j (enq j false s.jobq) ok i refl
          (sym (else_if (not s.reachable) _ _ (ap not y)) ∙ e)
    | inr z ↦ subst (λ u. Kept s u i) ((some_pair (simp z at e)).1) (omega arith, refl)
  ]

  work-Accounts :
      (env : Env) (s t : Server S) (j : Djob) (q : Fifo Djob) (signals : Bool) (i : ℕ)
      → KeysFrom 0 s.rpcs.conns
      → deq s.jobq ≡ dequeued j q signals
      → work env s ≡ some t
      → Accounts s (if is_old j.buf j.sz s.rpcs then j.conn ∷ [] else []) t i
        × KeysFrom 0 t.rpcs.conns
  unfolding work work_on deq
  work-Accounts env s t j q signals i o d e =
      let e' : work_on env (dequeued j q signals) s ≡ some t =
        ap (λ x. work_on env x s) (sym d) ∙ e in
      let (r, k, p) = bind-some (dispatch env j.conn j.buf j.sz s.rpcs) _ t e' in
      let x = dispatch_balances env j.conn j.buf j.sz s.rpcs r i o k in
      let l = deq_lem s.jobq.q s.jobq.max j q signals d in
      subst
        (λ (u : Server S).
          Accounts s (if is_old j.buf j.sz s.rpcs then j.conn ∷ [] else []) u i
          × KeysFrom 0 u.rpcs.conns)
        (some_same p)
        (ground (arith, x, ap (queued i) l), dispatch-KeysFrom env j.conn j.buf j.sz s.rpcs r o k)

  Step-Accounts :
      {s t : Server S} {ls : List ℕ}
      → Step s ls t
      → KeysFrom 0 s.rpcs.conns
      → ((i : ℕ) → Accounts s ls t i) × KeysFrom 0 t.rpcs.conns
  Step-Accounts {s} {t} (arrives still c b n ok e) o = (
    λ i. (got_pdu-Accounts s t still c b n ok i e).0,
    subst (KeysFrom 0) (sym (got_pdu-Accounts s t still c b n ok 0 e).1) o,
  )
  Step-Accounts {s} (turns r) o = (λ i. omega arith, o)
  Step-Accounts {s} {t} (works env j q signals d e) o = (
    λ i. (work-Accounts env s t j q signals i o d e).0,
    (work-Accounts env s t j q signals 0 o d e).1,
  )

  Run-Accounts :
      {s t : Server S} {ls : List ℕ}
      → Run s ls t
      → KeysFrom 0 s.rpcs.conns
      → ((i : ℕ) → Accounts s ls t i) × KeysFrom 0 t.rpcs.conns
  Run-Accounts start o = (λ i. omega arith, o)
  Run-Accounts (later {ls} {ks} r st) o =
      let (x, p) = Run-Accounts r o in
      let (y, q) = Step-Accounts st p in (λ i. omega (arith, x i, y i, occurs-append i ks ls), q)

  -- Over any run of messages that arrive and workers that take them, with the queue full or not, and
  -- with reachable_ on or off or turned in the middle of got_pdu: the references to a connection grow
  -- with the clients that it is the latest connection of, the jobs for it that are queued, and the
  -- requests to another instance of the server that came over it, whose reference is never given
  -- back; and they are fewer by one for each job for it that got_pdu has deleted while it was in the
  -- queue. The condition is that the map of connections is in order at the start.
  pub references_accounted :
      {s t : Server S} {ls : List ℕ} (i : ℕ)
      → Run s ls t
      → KeysFrom 0 s.rpcs.conns
      → t.rpcs.refs i + held i s.rpcs.conns + queued i s.jobq.q + queued i t.dropped
        ≡ s.rpcs.refs i + held i t.rpcs.conns + queued i t.jobq.q + queued i s.dropped + occurs i ls
  references_accounted i r o = (Run-Accounts r o).0 i
