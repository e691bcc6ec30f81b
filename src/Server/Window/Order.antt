-- ===== src/Server/Window/Order.antt =====
-- The window stays in order of xid under checkduplicate_and_update and add_reply.
use mit6_824_2012spring_yfs.Prelude.{
  ℕ, ◌+◌, ◌≤◌, ◌≡◌, refl, none, List, [], ◌∷◌, ◌==◌, if◌then◌else◌, arith, find-insert,
}
use mit6_824_2012spring_yfs.Server.Window.{
  Reply, new_reply, Scan, stop, pass, scan, insert_reply, set_reply, Window, finish, put_replies,
  replies,
}
use mit6_824_2012spring_yfs.Server.Window.Spec.{
  Increasing, Increasing-mono, live, lookup_reply, judge, judge_request, scan-judge_request,
}

-- The list that checkduplicate_and_update leaves.
abbrev pub after : ℕ → Scan → List Reply
after xid (stop s b n ws fs) = ws
after xid (pass ws fs) = insert_reply (new_reply xid) ws

-- The buffers that it frees.
abbrev pub released : Scan → List ℕ
released (stop s b n ws fs) = fs
released (pass ws fs) = fs

pub finish-put_replies :
    (c x : ℕ) (w : Window) (s : Scan)
    → (finish c x w s).1 ≡ put_replies c (after x s) (released s) w
finish-put_replies c x w (stop s b n ws fs) = refl
finish-put_replies c x w (pass ws fs) = refl

pub replies-put_replies :
    (c d : ℕ) (rs : List Reply) (fs : List ℕ) (w : Window)
    → replies c (put_replies d rs fs w) ≡ (if d == c then rs else replies c w)
replies-put_replies c d rs fs w = rw (find-insert d c rs w.reply_window) (ground arith)

pub live-Increasing :
    (rep lo : ℕ) (ws : List Reply) → Increasing lo ws → Increasing lo (live rep ws)
unfolding live
live-Increasing rep lo [] i = tt
live-Increasing rep lo (r ∷ rs) i = ground (
  arith,
  Increasing-mono {lo = lo} {hi = r.xid + 1} (live rep rs),
  live-Increasing rep (r.xid + 1) rs i.1,
)

pub insert_reply-Increasing :
    (n : Reply) (lo : ℕ) (ws : List Reply)
    → Increasing lo ws
    → lo ≤ n.xid
    → lookup_reply n.xid ws ≡ none
    → Increasing lo (insert_reply n ws)
unfolding insert_reply lookup_reply
insert_reply-Increasing n lo [] i h e = (h, tt)
insert_reply-Increasing n lo (r ∷ rs) i h e =
    ground (arith, insert_reply-Increasing n (r.xid + 1) rs i.1)

pub set_reply-Increasing :
    (xid b sz lo : ℕ) (ws : List Reply) → Increasing lo ws → Increasing lo (set_reply xid b sz ws)
unfolding set_reply
set_reply-Increasing xid b n lo [] i = tt
set_reply-Increasing xid b n lo (r ∷ rs) i =
    ground (arith, set_reply-Increasing xid b n (r.xid + 1) rs i.1)

pub judge-Increasing :
    (xid : ℕ) (ws : List Reply) (fs : List ℕ)
    → Increasing 0 ws
    → Increasing 0 (after xid (judge xid ws fs (lookup_reply xid ws)))
unfolding lookup_reply
judge-Increasing xid [] fs i = ground (arith, insert_reply-Increasing (new_reply xid) 0 [] tt)
judge-Increasing xid (r ∷ rs) fs i =
    ground (arith, insert_reply-Increasing (new_reply xid) 0 (r ∷ rs) i)

-- Whatever the request, the loop leaves a window in order.
pub after-Increasing :
    (xid rep : ℕ) (ws : List Reply)
    → Increasing 0 ws
    → Increasing 0 (after xid (scan xid rep [] ws []))
unfolding judge_request
after-Increasing xid rep ws i =
    rw (scan-judge_request xid rep 0 ws i)
      (judge-Increasing xid (live rep ws) _ (live-Increasing rep 0 ws i))
