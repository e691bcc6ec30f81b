-- ===== src/Poll/Epoll/Sync.antt =====
-- The operations of EPollAIO succeed and keep its status and the kernel's list in agreement.
use Prim.Native.Nat.{bit_or, bit_and}
use mit6_824_2012spring_yfs.Prelude.{
  ℕ, ◌≡◌, ◌≢◌, inl, inr, ◌<◌, refl, true, not, ◌&&◌, Option, some, ltb, ◌==◌, if◌then◌else◌, arith,
  sym, Bool-cases,
}
use mit6_824_2012spring_yfs.Poll.Flags.{PollFlag, cb_none, cb_rdonly, cb_wronly, cb_rdwr}
use mit6_824_2012spring_yfs.Poll.Epoll.{
  flag_bits, complement, Interest, EpollAio, max_fds, events, watch_fd, unwatch_fd, put_status,
  is_there, is_rdwr,
}
use mit6_824_2012spring_yfs.Poll.Epoll.Status.{
  IsStatus, IsSynced, interest_of, bit_or-IsStatus, bit_and-IsStatus,
}

some_interest :
    (st : ℕ) (flag : PollFlag)
    → IsStatus st
    → flag ≢ cb_none
    → interest_of (bit_or st (flag_bits flag)) ≡ some (events (bit_or st (flag_bits flag)))
some_interest st cb_none h n = absurd (n refl)
some_interest st cb_rdonly (inl e) n = rw e refl
some_interest st cb_rdonly (inr (inl e)) n = rw e refl
some_interest st cb_rdonly (inr (inr (inl e))) n = rw e refl
some_interest st cb_rdonly (inr (inr (inr e))) n = rw e refl
some_interest st cb_wronly (inl e) n = rw e refl
some_interest st cb_wronly (inr (inl e)) n = rw e refl
some_interest st cb_wronly (inr (inr (inl e))) n = rw e refl
some_interest st cb_wronly (inr (inr (inr e))) n = rw e refl
some_interest st cb_rdwr (inl e) n = rw e refl
some_interest st cb_rdwr (inr (inl e)) n = rw e refl
some_interest st cb_rdwr (inr (inr (inl e))) n = rw e refl
some_interest st cb_rdwr (inr (inr (inr e))) n = rw e refl

watch_check :
    (st : ℕ) (flag : PollFlag)
    → IsStatus st
    → (if is_rdwr flag
        then (events (bit_or st (flag_bits flag))).epollin
          && (events (bit_or st (flag_bits flag))).epollout
        else true)
      ≡ true
watch_check st cb_none h = refl
watch_check st cb_rdonly h = refl
watch_check st cb_wronly h = refl
watch_check st cb_rdwr (inl e) = rw e refl
watch_check st cb_rdwr (inr (inl e)) = rw e refl
watch_check st cb_rdwr (inr (inr (inl e))) = rw e refl
watch_check st cb_rdwr (inr (inr (inr e))) = rw e refl

unwatch_check :
    (st : ℕ) (flag : PollFlag)
    → IsStatus st
    → (if is_rdwr flag then bit_and st (complement (flag_bits flag)) == 0 else true) ≡ true
unwatch_check st cb_none h = refl
unwatch_check st cb_rdonly h = refl
unwatch_check st cb_wronly h = refl
unwatch_check st cb_rdwr (inl e) = rw e refl
unwatch_check st cb_rdwr (inr (inl e)) = rw e refl
unwatch_check st cb_rdwr (inr (inr (inl e))) = rw e refl
unwatch_check st cb_rdwr (inr (inr (inr e))) = rw e refl

there_check : (st : ℕ) → (if is_there (interest_of st) then not (st == 0) else st == 0) ≡ true
there_check st = ground arith

put_status-IsSynced :
    (fd st : ℕ) (x : Option Interest) (e : EpollAio)
    → IsSynced e
    → IsStatus st
    → x ≡ interest_of st
    → IsSynced (put_status fd st x e)
put_status-IsSynced fd st x e v h k = record {
  status = λ i. elim (Bool-cases (i == fd)) [ inl y ↦ rw y h | inr n ↦ rw n (v.status i) ];
  agrees = λ i. elim (Bool-cases (i == fd)) [ inl y ↦ rw y k | inr n ↦ rw n (v.agrees i) ];
}

-- While the status of EPollAIO agrees with the interest list of the kernel, watch_fd with a flag
-- other than CB_NONE succeeds for every descriptor below MAX_POLL_FDS: it never adds a descriptor
-- that is there or modifies one that is not. So does unwatch_fd for one that is watched. Both keep
-- the agreement, and unwatch_fd says whether the descriptor has left the list.
pub epoll_keeps_sync :
    (e : EpollAio) (fd : ℕ) (flag : PollFlag)
    → IsSynced e
    → fd < max_fds
    → (flag ≢ cb_none → (w : EpollAio) × (watch_fd fd flag e ≡ some w) × IsSynced w)
      × (e.fdstatus fd ≢ 0
          → (u : EpollAio) × (unwatch_fd fd flag e ≡ some (not (is_there (u.interest fd)), u))
            × IsSynced u)
unfolding watch_fd unwatch_fd
epoll_keeps_sync e fd flag v b =
    let st = e.fdstatus fd in
    let h = v.status fd in
    let o = bit_or st (flag_bits flag) in
    let a = bit_and st (complement (flag_bits flag)) in
    let lt : ltb fd max_fds ≡ true = ground (arith, b) in
    (
      λ n. (
        put_status fd o (some (events o)) e,
        rw (lt, v.agrees fd, there_check st, watch_check st flag h) refl,
        put_status-IsSynced fd o _ e v (bit_or-IsStatus st flag h)
            (sym (some_interest st flag h n)),
      ),
      λ n. (
        put_status fd a (interest_of a) e,
        rw (lt, v.agrees fd, unwatch_check st flag h) (ground (arith, n)),
        put_status-IsSynced fd a _ e v (bit_and-IsStatus st flag h) refl,
      ),
    )
