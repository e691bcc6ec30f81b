-- ===== src/Poll/Select/Sets.antt =====
-- What watch_fd and unwatch_fd do to the sets, as seen at one descriptor.
use mit6_824_2012spring_yfs.Prelude.{ℕ, ◌≡◌, ◌≢◌, refl, Bool, false, some, arith}
use mit6_824_2012spring_yfs.Poll.Flags.{PollFlag, cb_none, cb_rdonly, cb_wronly, cb_rdwr, put_fd}
use mit6_824_2012spring_yfs.Poll.Select.{
  SelectAio, new_select_aio, watch_fd, unwatch_fd, watched, lower,
}

lower_sets :
    (fd : ℕ) (s : SelectAio) (i : ℕ)
    → (watched (lower fd s) i ≡ watched s i) × ((lower fd s).pipe_rd ≡ s.pipe_rd)
unfolding lower
lower_sets fd s i = ground arith

pub watch_other :
    (fd i : ℕ) (flag : PollFlag) (s : SelectAio)
    → fd ≢ i
    → (watched (watch_fd fd flag s) i ≡ watched s i)
unfolding watch_fd
watch_other fd i cb_none s n = ground (arith, n)
watch_other fd i cb_rdonly s n = ground (arith, n)
watch_other fd i cb_wronly s n = ground (arith, n)
watch_other fd i cb_rdwr s n = ground (arith, n)

pub unwatch_less :
    (fd i : ℕ) (flag : PollFlag) (s t : SelectAio) (u : Bool)
    → unwatch_fd fd flag s ≡ some (u, t)
    → (watched s i ≡ false → watched t i ≡ false) × (t.pipe_rd ≡ s.pipe_rd)
unfolding unwatch_fd
unwatch_less fd i cb_none s t u e = cc
unwatch_less fd i cb_rdonly s t u e =
    let k = lower_sets fd (record s { rfds = put_fd fd false s.rfds }) i in
    (λ h. ground (arith, e, k, h), ground (arith, e, k))
unwatch_less fd i cb_wronly s t u e =
    let k = lower_sets fd (record s { wfds = put_fd fd false s.wfds }) i in
    (λ h. ground (arith, e, k, h), ground (arith, e, k))
unwatch_less fd i cb_rdwr s t u e =
    let k =
      lower_sets fd (record s { rfds = put_fd fd false s.rfds; wfds = put_fd fd false s.wfds }) i in
    (λ h. ground (arith, e, k, h), ground (arith, e, k))

-- After block_remove_fd has unwatched a descriptor it is in neither set.
pub unwatch_both :
    (fd : ℕ) (s t : SelectAio) (u : Bool)
    → unwatch_fd fd cb_rdwr s ≡ some (u, t)
    → watched t fd ≡ false
unfolding unwatch_fd
unwatch_both fd s t u e =
    let k =
      lower_sets fd (record s { rfds = put_fd fd false s.rfds; wfds = put_fd fd false s.wfds })
        fd in
    ground (arith, e, k)

pub watch_fd-pipe_rd :
    (fd : ℕ) (flag : PollFlag) (s : SelectAio) → (watch_fd fd flag s).pipe_rd ≡ s.pipe_rd
unfolding watch_fd
watch_fd-pipe_rd fd flag s = refl

pub new_select_aio-pipe_rd : (p : ℕ) → (new_select_aio p).pipe_rd ≡ p
unfolding new_select_aio
new_select_aio-pipe_rd p = refl
