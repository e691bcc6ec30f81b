-- ===== src/Poll/Epoll.antt =====
-- class EPollAIO (rpc/pollmgr.cc lines 261-358), the other aio_mgr, which PollMgr does not use.
--
-- The interest list of the kernel is `interest`: what the last EPOLL_CTL_ADD or EPOLL_CTL_MOD has
-- given for a descriptor. `none` is a failed assertion: epoll_ctl fails for an ADD of a descriptor
-- that is there, and for a MOD or DEL of one that is not.
pub mod Status
pub mod Sync
use Prim.Native.Nat.{bit_or, bit_and}
use mit6_824_2012spring_yfs.Prelude.{
  ℕ, ◌+◌, ◌-◌, ◌^◌, ◌≡◌, ◌⊎◌, inl, inr, ◌<◌, refl, Bool, true, false, not, Option, none, some, ltb,
  ◌==◌, ◌&&◌, if◌then◌else◌, ◌>>=◌, ◌>>◌, assert, arith, List, [], ◌∷◌, ◌++◌,
}
use mit6_824_2012spring_yfs.Poll.Flags.{PollFlag, cb_none, cb_rdonly, cb_wronly, cb_rdwr}

-- The values of the flags.
abbrev pub flag_bits : PollFlag → ℕ
flag_bits cb_none = 0
flag_bits cb_rdonly = 1
flag_bits cb_wronly = 16
flag_bits cb_rdwr = 17

-- ~x of a 32-bit int
abbrev pub complement : ℕ → ℕ
complement x = 2 ^ 32 - 1 - x

-- CB_MASK
abbrev pub cb_mask : ℕ
cb_mask = 4294967278

-- The events: EPOLLIN and EPOLLOUT, with EPOLLET always set.
pub record Interest : Type 0 where
  pub epollin : Bool
  pub epollout : Bool

pub record EpollAio : Type 0 where
  pub fdstatus : ℕ → ℕ
  pub interest : ℕ → Option Interest

unfoldable pub new_epoll_aio : EpollAio
new_epoll_aio = record { fdstatus = λ _. 0; interest = λ _. none }

abbrev pub max_fds : ℕ
max_fds = 128

abbrev pub is_there : Option Interest → Bool
is_there none = false
is_there (some x) = true

abbrev pub is_rdwr : PollFlag → Bool
is_rdwr cb_rdwr = true
is_rdwr cb_none = false
is_rdwr cb_rdonly = false
is_rdwr cb_wronly = false

abbrev pub events : ℕ → Interest
events st = record { epollin = not (bit_and st 1 == 0); epollout = not (bit_and st 16 == 0) }

abbrev pub put_status : ℕ → ℕ → Option Interest → EpollAio → EpollAio
put_status fd st x e = record {
  fdstatus = λ i. if i == fd then st else e.fdstatus i;
  interest = λ i. if i == fd then x else e.interest i;
}

-- EPOLL_CTL_MOD if the status was set, else EPOLL_CTL_ADD.
pub watch_fd : ℕ → PollFlag → EpollAio → Option EpollAio
watch_fd fd flag e =
    let st = bit_or (e.fdstatus fd) (flag_bits flag) in
    assert (ltb fd max_fds)
    >> assert (if is_there (e.interest fd) then not (e.fdstatus fd == 0) else e.fdstatus fd == 0)
    >> assert (if is_rdwr flag then (events st).epollin && (events st).epollout else true)
    >> some (put_status fd st (some (events st)) e)

-- EPOLL_CTL_MOD if a flag is left, else EPOLL_CTL_DEL.
pub unwatch_fd : ℕ → PollFlag → EpollAio → Option (Bool × EpollAio)
unwatch_fd fd flag e =
    let st = bit_and (e.fdstatus fd) (complement (flag_bits flag)) in
    assert (ltb fd max_fds)
    >> assert (is_there (e.interest fd))
    >> assert (if is_rdwr flag then st == 0 else true)
    >> some (st == 0, put_status fd st (if st == 0 then none else some (events st)) e)

pub is_watched : ℕ → PollFlag → EpollAio → Bool
is_watched fd flag e = bit_and (e.fdstatus fd) cb_mask == flag_bits flag

-- An event that epoll_wait reports.
pub record EpollEvent : Type 0 where
  pub fd : ℕ
  pub reported : Interest

-- The loop over the events; `readable` and `writable` are at the front of the pair. Where epoll_wait
-- fails, nfds is -1 and the list is empty.
abbrev pub wait_ready : List EpollEvent → List ℕ × List ℕ → List ℕ × List ℕ
wait_ready [] p = p
wait_ready (e ∷ es) p = wait_ready es (
  if e.reported.epollin then p.0 ++ (e.fd ∷ []) else p.0,
  if e.reported.epollout then p.1 ++ (e.fd ∷ []) else p.1,
)
