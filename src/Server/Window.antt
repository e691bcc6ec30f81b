-- ===== src/Server/Window.antt =====
-- The reply window of rpcs: reply_t, checkduplicate_and_update, add_reply and free_reply_window
-- (rpc/rpc.h lines 251-283, rpc/rpc.cc lines 612-703).
--
-- A buffer is the number of its address, and 0 is NULL. `free` is recorded by appending its argument
-- to `freed`, so that a statement can say which buffers are released and how often.
pub mod Spec
pub mod Order
pub mod Blocks
pub mod AtMostOnce
pub mod Retained
pub mod Recorded
pub mod Overtaken
mod Examples
use mit6_824_2012spring_yfs.Prelude.{
  ℕ, ◌≡◌, Bool, true, false, Option, none, some, List, [], ◌∷◌, ◌++◌, ltb, ◌==◌, if◌then◌else◌, Map,
  find, insert, get_or,
}

-- rpcstate_t
pub data RpcState : Type 0 where
  new inprogress done forgotten : RpcState

-- reply_t
pub record Reply : Type 0 where
  pub xid : ℕ
  pub cb_present : Bool
  pub buf : ℕ
  pub sz : ℕ

-- reply_t(unsigned int _xid)
abbrev pub new_reply : ℕ → Reply
new_reply x = record { xid = x; cb_present = false; buf = 0; sz = 0 }

-- What rpcs keeps under reply_window_m_, with the trace of the buffers given to `free`.
pub record Window : Type 0 where
  pub reply_window : Map (List Reply)
  pub freed : List ℕ

-- reply_window_[clt_nonce], where a missing key is created with an empty list
abbrev pub replies : ℕ → Window → List Reply
replies clt w = get_or (find clt w.reply_window) []

abbrev pub put_replies : ℕ → List Reply → List ℕ → Window → Window
put_replies clt rs fs w = record w {
  reply_window = insert clt rs w.reply_window;
  freed = w.freed ++ fs;
}

-- Where the loop over the window stops: with a verdict on a known or old request, or at the end.
pub data Scan : Type 0 where
  stop : RpcState → (b sz : ℕ) → (ws : List Reply) (fs : List ℕ) → Scan
  pass : (ws : List Reply) (fs : List ℕ) → Scan

-- front().xid
abbrev front_xid : List Reply → ℕ
front_xid [] = 0
front_xid (r ∷ rs) = r.xid

-- The loop of lines 627-647. `kept` are the replies before the iterator, the list those from it on.
unfoldable pub scan : (xid xid_rep : ℕ) (kept rest : List Reply) (fs : List ℕ) → Scan
scan xid xid_rep kept [] fs = pass kept fs
scan xid xid_rep kept (r ∷ rest) fs =
    let trimmed = scan xid xid_rep kept rest (fs ++ (r.buf ∷ [])) in
    let next = scan xid xid_rep (kept ++ (r ∷ [])) rest fs in
    if ltb r.xid xid_rep
    then trimmed
    else if r.xid == xid
    then (if r.cb_present
        then stop done r.buf r.sz (kept ++ (r ∷ rest)) fs
        else stop inprogress 0 0 (kept ++ (r ∷ rest)) fs)
    else if ltb xid (front_xid (kept ++ (r ∷ rest)))
    then stop forgotten 0 0 (kept ++ (r ∷ rest)) fs
    else next

-- Lines 650-659: before the first reply with a larger xid, or at the end.
unfoldable pub insert_reply : Reply → List Reply → List Reply
insert_reply n [] = n ∷ []
insert_reply n (r ∷ rs) = if ltb n.xid r.xid then n ∷ r ∷ rs else r ∷ insert_reply n rs

-- What checkduplicate_and_update returns: the verdict, and *b and *sz for `done`.
pub record Verdict : Type 0 where
  pub stat : RpcState
  pub b : ℕ
  pub sz : ℕ

abbrev finish : ℕ → ℕ → Window → Scan → Verdict × Window
finish clt xid w (stop s b n ws fs) = (record { stat = s; b = b; sz = n }, put_replies clt ws fs w)
finish clt xid w (pass ws fs) =
    (record { stat = new; b = 0; sz = 0 }, put_replies clt (insert_reply (new_reply xid) ws) fs w)

unfoldable pub checkduplicate_and_update : (clt_nonce xid xid_rep : ℕ) → Window → Verdict × Window
checkduplicate_and_update clt xid xid_rep w =
    finish clt xid w (scan xid xid_rep [] (replies clt w) [])

-- The loop of add_reply.
unfoldable pub set_reply : (xid b sz : ℕ) → List Reply → List Reply
set_reply xid b n [] = []
set_reply xid b n (r ∷ rs) =
    if r.xid == xid
    then record r { buf = b; sz = n; cb_present = true } ∷ rs
    else r ∷ set_reply xid b n rs

unfoldable pub add_reply : (clt_nonce xid b sz : ℕ) → Window → Window
add_reply clt xid b n w = put_replies clt (set_reply xid b n (replies clt w)) [] w

abbrev pub bufs : List Reply → List ℕ
bufs [] = []
bufs (r ∷ rs) = r.buf ∷ bufs rs

abbrev pub all_bufs : Map (List Reply) → List ℕ
all_bufs [] = []
all_bufs ((c, rs) ∷ m) = bufs rs ++ all_bufs m

pub free_reply_window : Window → Window
free_reply_window w = record { reply_window = []; freed = w.freed ++ all_bufs w.reply_window }
