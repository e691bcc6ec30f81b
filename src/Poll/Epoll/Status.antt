-- ===== src/Poll/Epoll/Status.antt =====
-- The status of EPollAIO and the interest list of the kernel agree; and is_watched.
use Prim.Native.Nat.{bit_or, bit_and}
use mit6_824_2012spring_yfs.Prelude.{
  ℕ, ◌≡◌, ◌≢◌, ◌⊎◌, inl, inr, refl, false, Option, none, some, ◌==◌, if◌then◌else◌,
}
use mit6_824_2012spring_yfs.Poll.Flags.{PollFlag, cb_none, cb_rdonly, cb_wronly, cb_rdwr}
use mit6_824_2012spring_yfs.Poll.Epoll.{
  flag_bits, complement, cb_mask, Interest, EpollAio, events, is_watched,
}

-- A status that the flags can make.
abbrev pub IsStatus : ℕ → Type 0
IsStatus st = (st ≡ 0) ⊎ ((st ≡ 1) ⊎ ((st ≡ 16) ⊎ (st ≡ 17)))

-- What the kernel is to report for a status.
abbrev pub interest_of : ℕ → Option Interest
interest_of st = if st == 0 then none else some (events st)

pub record IsSynced (e : EpollAio) : Type 0 where
  pub status : (fd : ℕ) → IsStatus (e.fdstatus fd)
  pub agrees : (fd : ℕ) → e.interest fd ≡ interest_of (e.fdstatus fd)

pub bit_or-IsStatus :
    (st : ℕ) (flag : PollFlag) → IsStatus st → IsStatus (bit_or st (flag_bits flag))
bit_or-IsStatus st cb_none (inl e) = inl (rw e refl)
bit_or-IsStatus st cb_none (inr (inl e)) = inr (inl (rw e refl))
bit_or-IsStatus st cb_none (inr (inr (inl e))) = inr (inr (inl (rw e refl)))
bit_or-IsStatus st cb_none (inr (inr (inr e))) = inr (inr (inr (rw e refl)))
bit_or-IsStatus st cb_rdonly (inl e) = inr (inl (rw e refl))
bit_or-IsStatus st cb_rdonly (inr (inl e)) = inr (inl (rw e refl))
bit_or-IsStatus st cb_rdonly (inr (inr (inl e))) = inr (inr (inr (rw e refl)))
bit_or-IsStatus st cb_rdonly (inr (inr (inr e))) = inr (inr (inr (rw e refl)))
bit_or-IsStatus st cb_wronly (inl e) = inr (inr (inl (rw e refl)))
bit_or-IsStatus st cb_wronly (inr (inl e)) = inr (inr (inr (rw e refl)))
bit_or-IsStatus st cb_wronly (inr (inr (inl e))) = inr (inr (inl (rw e refl)))
bit_or-IsStatus st cb_wronly (inr (inr (inr e))) = inr (inr (inr (rw e refl)))
bit_or-IsStatus st cb_rdwr (inl e) = inr (inr (inr (rw e refl)))
bit_or-IsStatus st cb_rdwr (inr (inl e)) = inr (inr (inr (rw e refl)))
bit_or-IsStatus st cb_rdwr (inr (inr (inl e))) = inr (inr (inr (rw e refl)))
bit_or-IsStatus st cb_rdwr (inr (inr (inr e))) = inr (inr (inr (rw e refl)))

pub bit_and-IsStatus :
    (st : ℕ) (flag : PollFlag) → IsStatus st → IsStatus (bit_and st (complement (flag_bits flag)))
bit_and-IsStatus st cb_none (inl e) = inl (rw e refl)
bit_and-IsStatus st cb_none (inr (inl e)) = inr (inl (rw e refl))
bit_and-IsStatus st cb_none (inr (inr (inl e))) = inr (inr (inl (rw e refl)))
bit_and-IsStatus st cb_none (inr (inr (inr e))) = inr (inr (inr (rw e refl)))
bit_and-IsStatus st cb_rdonly (inl e) = inl (rw e refl)
bit_and-IsStatus st cb_rdonly (inr (inl e)) = inl (rw e refl)
bit_and-IsStatus st cb_rdonly (inr (inr (inl e))) = inr (inr (inl (rw e refl)))
bit_and-IsStatus st cb_rdonly (inr (inr (inr e))) = inr (inr (inl (rw e refl)))
bit_and-IsStatus st cb_wronly (inl e) = inl (rw e refl)
bit_and-IsStatus st cb_wronly (inr (inl e)) = inr (inl (rw e refl))
bit_and-IsStatus st cb_wronly (inr (inr (inl e))) = inl (rw e refl)
bit_and-IsStatus st cb_wronly (inr (inr (inr e))) = inr (inl (rw e refl))
bit_and-IsStatus st cb_rdwr (inl e) = inl (rw e refl)
bit_and-IsStatus st cb_rdwr (inr (inl e)) = inl (rw e refl)
bit_and-IsStatus st cb_rdwr (inr (inr (inl e))) = inl (rw e refl)
bit_and-IsStatus st cb_rdwr (inr (inr (inr e))) = inl (rw e refl)

masked : (st : ℕ) → IsStatus st → bit_and st cb_mask ≡ 0
masked st (inl e) = rw e refl
masked st (inr (inl e)) = rw e refl
masked st (inr (inr (inl e))) = rw e refl
masked st (inr (inr (inr e))) = rw e refl

-- is_watched of EPollAIO says false for every flag but CB_NONE, whatever is watched: CB_MASK is the
-- complement of the flags, where the flags are meant.
pub epoll_never_watched :
    (e : EpollAio) (fd : ℕ) (flag : PollFlag)
    → IsSynced e
    → flag ≢ cb_none
    → is_watched fd flag e ≡ false
unfolding is_watched
epoll_never_watched e fd cb_none v n = absurd (n refl)
epoll_never_watched e fd cb_rdonly v n = rw (masked (e.fdstatus fd) (v.status fd)) refl
epoll_never_watched e fd cb_wronly v n = rw (masked (e.fdstatus fd) (v.status fd)) refl
epoll_never_watched e fd cb_rdwr v n = rw (masked (e.fdstatus fd) (v.status fd)) refl
