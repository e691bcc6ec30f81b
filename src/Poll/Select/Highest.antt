-- ===== src/Poll/Select/Highest.antt =====
-- highfds_ is always the highest descriptor that is watched.
use mit6_824_2012spring_yfs.Prelude.{
  ℕ, zero, suc, ◌+◌, ◌≤◌, ◌<◌, ◌≡◌, ◌≢◌, ◌⊎◌, inl, inr, Bool, true, false, ◌&&◌, ◌||◌, not, some,
  ◌==◌, if◌then◌else◌, arith, dec_lt, Bool-cases, subst,
}
use mit6_824_2012spring_yfs.Poll.Flags.{
  PollFlag, cb_none, cb_rdonly, cb_wronly, cb_rdwr, FdSet, put_fd,
}
use mit6_824_2012spring_yfs.Poll.Select.{
  SelectAio, new_select_aio, watch_fd, unwatch_fd, watched, rescan, lower,
}

-- The invariant: the pipe is watched, and the highest watched descriptor is highfds_.
pub record IsTight (s : SelectAio) : Type 0 where
  pub pipe : s.rfds s.pipe_rd ≡ true
  pub top : watched s s.highfds ≡ true
  pub bound : (fd : ℕ) → watched s fd ≡ true → fd ≤ s.highfds

module _ (r w : FdSet) where
  abbrev is_set : ℕ → Bool
  is_set i = r i || w i

  -- The loop ends at a set descriptor if it starts with one, and at the last one of its rounds.
  rescan_set : (n i newh : ℕ) → is_set newh ≡ true → is_set (rescan r w n i newh) ≡ true
  unfolding rescan
  rescan_set zero i newh h = h
  rescan_set (suc n) i newh h =
      rescan_set n (i + 1) (if r i then i else if w i then i else newh) (ground (arith, h))

  rescan_start : (n i newh : ℕ) → newh ≤ i → newh ≤ rescan r w n i newh
  unfolding rescan
  rescan_start zero i newh h = omega arith
  rescan_start (suc n) i newh h =
      let k = if r i then i else if w i then i else newh in
      ground (arith, h, rescan_start n (i + 1) k (ground (arith, h)))

  rescan_last :
      (n i newh fd : ℕ) → is_set fd ≡ true → i ≤ fd → fd < i + n → fd ≤ rescan r w n i newh
  unfolding rescan
  rescan_last zero i newh fd h a b = omega (arith, a, b)
  rescan_last (suc n) i newh fd h a b =
      let k = if r i then i else if w i then i else newh in
      elim (dec_lt i fd) [
        | yes p ↦ rescan_last n (i + 1) k fd h (omega (arith, p)) (omega (arith, b))
        | no p ↦
            let e : fd ≡ i = omega (arith, p, a) in
            let e' : k ≡ fd = ground (arith, h, e) in
            rw e' (rescan_start n (i + 1) fd (omega (arith, e)))
      ]

option_snd : {A B : Type 0} {p q : A × B} → some p ≡ some q → p.1 ≡ q.1
option_snd e = cc

pub new_select_aio-IsTight : (p : ℕ) → IsTight (new_select_aio p)
unfolding new_select_aio
new_select_aio-IsTight p = record {
  pipe = ground arith;
  top = ground arith;
  bound = λ fd h. ground (arith, h);
}

pub watch_fd-IsTight :
    (fd : ℕ) (flag : PollFlag) (s : SelectAio) → IsTight s → IsTight (watch_fd fd flag s)
unfolding watch_fd
watch_fd-IsTight fd cb_none s v = record {
  pipe = ground (arith, v.pipe);
  top = ground (arith, v.top);
  bound = λ i h. ground (arith, v.bound i, h);
}
watch_fd-IsTight fd cb_rdonly s v = record {
  pipe = ground (arith, v.pipe);
  top = ground (arith, v.top);
  bound = λ i h. ground (arith, v.bound i, h);
}
watch_fd-IsTight fd cb_wronly s v = record {
  pipe = ground (arith, v.pipe);
  top = ground (arith, v.top);
  bound = λ i h. ground (arith, v.bound i, h);
}
watch_fd-IsTight fd cb_rdwr s v = record {
  pipe = ground (arith, v.pipe);
  top = ground (arith, v.top);
  bound = λ i h. ground (arith, v.bound i, h);
}

-- After a removal: what was bounded stays so if the lowered highfds_ is the last set descriptor.
lower-IsTight :
    (fd : ℕ) (s : SelectAio)
    → s.rfds s.pipe_rd ≡ true
    → (watched s s.highfds ≡ true) ⊎ (fd ≡ s.highfds)
    → ((i : ℕ) → watched s i ≡ true → i ≤ s.highfds)
    → IsTight (lower fd s)
unfolding lower
lower-IsTight fd s p t b =
    let h = rescan_set s.rfds s.wfds (s.highfds + 1) 0 s.pipe_rd (ground (arith, p)) in
    elim (Bool-cases (not (watched s fd) && (fd == s.highfds))) [
      | inl y ↦ rw y (record {
        pipe = p;
        top = h;
        bound = λ i e.
            rescan_last s.rfds s.wfds (s.highfds + 1) 0 s.pipe_rd i e (omega arith)
              (omega (arith, b i e));
      })
      | inr n ↦ rw n (record { pipe = p; top = ground (arith, n, t); bound = b })
    ]

-- unwatch_fd on a descriptor other than the pipe keeps the invariant that the pipe is watched and
-- that highfds_ is the highest descriptor that is watched, for every flag with which it returns.
pub unwatch_fd-IsTight :
    (fd : ℕ) (flag : PollFlag) (s t : SelectAio) (b : Bool)
    → fd ≢ s.pipe_rd
    → IsTight s
    → unwatch_fd fd flag s ≡ some (b, t)
    → IsTight t
unfolding unwatch_fd
unwatch_fd-IsTight fd cb_none s t b n v e = cc
unwatch_fd-IsTight fd cb_rdonly s t b n v e =
    let u : SelectAio = record s { rfds = put_fd fd false s.rfds } in
    let k =
      lower-IsTight fd u (ground (arith, n, v.pipe)) (ground (arith, v.top))
        (λ i h. ground (arith, v.bound i, h)) in
    subst IsTight (option_snd e) k
unwatch_fd-IsTight fd cb_wronly s t b n v e =
    let u : SelectAio = record s { wfds = put_fd fd false s.wfds } in
    let k =
      lower-IsTight fd u v.pipe (ground (arith, v.top)) (λ i h. ground (arith, v.bound i, h)) in
    subst IsTight (option_snd e) k
unwatch_fd-IsTight fd cb_rdwr s t b n v e =
    let u : SelectAio = record s { rfds = put_fd fd false s.rfds; wfds = put_fd fd false s.wfds } in
    let k =
      lower-IsTight fd u (ground (arith, n, v.pipe)) (ground (arith, v.top))
        (λ i h. ground (arith, v.bound i, h)) in
    subst IsTight (option_snd e) (record { pipe = k.pipe; top = k.top; bound = k.bound })
