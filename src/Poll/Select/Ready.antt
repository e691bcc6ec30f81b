-- ===== src/Poll/Select/Ready.antt =====
-- What wait_ready reports.
use mit6_824_2012spring_yfs.Prelude.{
  ℕ, zero, suc, ◌+◌, ◌-◌, ◌<◌, ◌≡◌, ◌≢◌, ◌⊎◌, inl, inr, refl, Bool, true, false, ◌&&◌, ◌||◌, not,
  some, List, [], ◌∷◌, ◌++◌, ltb, leb, ◌==◌, if◌then◌else◌, arith, Bool-cases, bind-some,
}
use mit6_824_2012spring_yfs.Poll.Flags.{FdSet}
use mit6_824_2012spring_yfs.Poll.Select.{
  SelectAio, Selected, selected, interrupted, failed, Found, collect_fd, collect, wait_ready,
}
use mit6_824_2012spring_yfs.Poll.Select.Highest.{IsTight}

abbrev pub has : ℕ → List ℕ → Bool
has fd [] = false
has fd (x ∷ l) = (x == fd) || has fd l

has-snoc : (fd x : ℕ) (l : List ℕ) → has fd (l ++ (x ∷ [])) ≡ has fd l || (x == fd)
has-snoc fd x [] = ground arith
has-snoc fd x (y ∷ l) = ground (arith, has-snoc fd x l)

module _ (tr tw : FdSet) where
  -- What some rounds have added, those of the descriptors `i` up to `i + n`.
  record Added (n i : ℕ) (f g : Found) : Type 0 where
    same_pipe : g.aio.pipe_rd ≡ f.aio.pipe_rd
    reads :
        (fd : ℕ)
        → has fd g.readable
          ≡ has fd f.readable
            || (leb i fd && (ltb fd (i + n) && (tr fd && not (fd == f.aio.pipe_rd))))
    writes :
        (fd : ℕ)
        → fd ≢ f.aio.pipe_rd
        → has fd g.writable ≡ has fd f.writable || (leb i fd && (ltb fd (i + n) && tw fd))
    drained : g.aio.wakeups ≡ (
        if leb i f.aio.pipe_rd && (ltb f.aio.pipe_rd (i + n) && tr f.aio.pipe_rd)
        then f.aio.wakeups - 1
        else f.aio.wakeups)

  -- There is a byte in the pipe, if it is still to be read.
  abbrev Fed : ℕ → Found → Type 0
  Fed i f = tr f.aio.pipe_rd ≡ true → (f.aio.pipe_rd < i) ⊎ (f.aio.wakeups ≢ 0)

  collect_fd_lem :
      (i : ℕ) (f : Found)
      → Fed i f
      → (g : Found) × (collect_fd tr tw i f ≡ some g) × Added 1 i f g × Fed (i + 1) g
  unfolding collect_fd
  collect_fd_lem i f fed = elim (Bool-cases ((i == f.aio.pipe_rd) && tr i)) [
    | inl y ↦
        let g : Found = record f { aio = record f.aio { wakeups = f.aio.wakeups - 1 } } in
        (
          g,
          ground (arith, y, fed),
          record {
            same_pipe = refl;
            reads = λ fd. ground (arith, y);
            writes = λ fd n. ground (arith, y, n);
            drained = ground (arith, y);
          },
          λ t. inl (ground (arith, y)),
        )
    | inr n ↦
        let g : Found = record f {
          writable = if tw i then f.writable ++ (i ∷ []) else f.writable;
          readable = if tr i then f.readable ++ (i ∷ []) else f.readable;
        } in
        (
          g,
          rw n refl,
          record {
            same_pipe = refl;
            reads = λ fd. ground (arith, n, has-snoc fd i f.readable);
            writes = λ fd m. ground (arith, n, m, has-snoc fd i f.writable);
            drained = ground (arith, n);
          },
          λ t. ground (arith, n, fed, t),
        )
  ]

  Added-join : (n i : ℕ) (f g h : Found) → Added 1 i f g → Added n (i + 1) g h → Added (suc n) i f h
  Added-join n i f g h a b = record {
    same_pipe = ground (arith, a.same_pipe, b.same_pipe);
    reads = λ fd. ground (arith, a.reads fd, b.reads fd, a.same_pipe);
    writes = λ fd m. ground (arith, a.writes fd m, b.writes fd (ground (arith, m, a.same_pipe)));
    drained = ground (arith, a.drained, b.drained, a.same_pipe);
  }

  collect_lem :
      (n i : ℕ) (f : Found) → Fed i f → (g : Found) × (collect tr tw n i f ≡ some g) × Added n i f g
  unfolding collect
  collect_lem zero i f fed = (
    f,
    refl,
    record {
      same_pipe = refl;
      reads = λ fd. ground arith;
      writes = λ fd m. ground arith;
      drained = ground arith;
    },
  )
  collect_lem (suc n) i f fed =
      let (g, e, a, fed') = collect_fd_lem i f fed in
      let (h, e', b) = collect_lem n (i + 1) g fed' in (h, rw e e', Added-join n i f g h a b)

-- When select() returns, wait_ready reports for every descriptor but the pipe exactly what is both
-- watched and ready, for reading and for writing, and it never reports the pipe as readable; it
-- takes exactly one byte out of the pipe if the pipe is ready, and none otherwise. No watched descriptor is missed for being above highfds_. The
-- condition is the invariant of highfds_, and that the pipe is reported as readable only when there
-- is a byte in it.
pub wait_ready_exact :
    (s : SelectAio) (can_read can_write : FdSet)
    → IsTight s
    → (can_read s.pipe_rd ≡ true → s.wakeups ≢ 0)
    → (f : Found) × (wait_ready (selected can_read can_write) s ≡ some f)
      × (has s.pipe_rd f.readable ≡ false)
      × (f.aio.wakeups ≡ (if can_read s.pipe_rd then s.wakeups - 1 else s.wakeups))
      × ((fd : ℕ)
          → fd ≢ s.pipe_rd
          → (has fd f.readable ≡ s.rfds fd && can_read fd)
            × (has fd f.writable ≡ s.wfds fd && can_write fd))
unfolding wait_ready
wait_ready_exact s can_read can_write v fed =
    let (f, e, a) =
      collect_lem (λ fd. s.rfds fd && can_read fd) (λ fd. s.wfds fd && can_write fd) (s.highfds + 1)
        0 (record { readable = []; writable = []; aio = s }) (λ t. inr (fed (ground (arith, t)))) in
    (
      f,
      e,
      ground (arith, a.reads s.pipe_rd),
      ground (arith, a.drained, v.bound s.pipe_rd, v.pipe),
      λ fd n.
          (ground (arith, a.reads fd, n, v.bound fd), ground (arith, a.writes fd n, v.bound fd)),
    )

collect_keeps :
    (tr tw : FdSet) (n i : ℕ) (f g : Found)
    → collect tr tw n i f ≡ some g
    → g.aio ≡ record f.aio { wakeups = g.aio.wakeups }
unfolding collect collect_fd
collect_keeps tr tw zero i f g e = ground (arith, e)
collect_keeps tr tw (suc n) i f g e =
    let (h, p, q) = bind-some (collect_fd tr tw i f) (collect tr tw n (i + 1)) g e in
    let k = collect_keeps tr tw n (i + 1) h g q in ground (arith, p, k)

-- wait_ready changes nothing but what is in the pipe.
pub wait_ready_keeps :
    (x : Selected) (s : SelectAio) (f : Found)
    → wait_ready x s ≡ some f
    → f.aio ≡ record s { wakeups = f.aio.wakeups }
unfolding wait_ready
wait_ready_keeps (selected r w) s f e = collect_keeps _ _ (s.highfds + 1) 0 _ f e
wait_ready_keeps interrupted s f e = ground (arith, e)
wait_ready_keeps failed s f e = cc
