-- ===== src/Poll/Flags.antt =====
-- The flags of rpc/pollmgr.h (lines 13-19), and sets of file descriptors.
use mit6_824_2012spring_yfs.Prelude.{ℕ, Bool, true, false, ◌==◌, if◌then◌else◌}

pub data PollFlag : Type 0 where
  cb_none cb_rdonly cb_wronly cb_rdwr : PollFlag

-- Does the flag name reading, or writing? A flag other than CB_RDONLY and CB_WRONLY is taken for
-- CB_RDWR by `watch_fd` and `is_watched`.
abbrev pub reads : PollFlag → Bool
reads cb_wronly = false
reads cb_rdonly = true
reads cb_rdwr = true
reads cb_none = true

abbrev pub writes : PollFlag → Bool
writes cb_rdonly = false
writes cb_wronly = true
writes cb_rdwr = true
writes cb_none = true

-- fd_set with FD_SET and FD_CLR
abbrev pub FdSet : Type 0
FdSet = ℕ → Bool

abbrev pub put_fd : ℕ → Bool → FdSet → FdSet
put_fd fd b s i = if i == fd then b else s i
