-- ===== src/Server/Dispatch.antt =====
-- rpcs::dispatch and what it calls, reg1, updatestat, rpcbind (rpc/rpc.cc lines 434-470, 472-610,
-- 706-712), and connection::compare (rpc/connection.cc lines 108-120).
--
-- `S` is the state of the objects whose methods are registered. A connection is a number; `refs` are
-- the reference counts, `sent` what is given to connection::send, and `heap` the buffers of the
-- replies that the window keeps. Whether a connection is dead when `dispatch` asks is a parameter,
-- and so are the creation times and what malloc leaves in a buffer. `none` is a failed assertion, a
-- use of NULL or a read outside of a buffer.
pub mod Balance
pub mod Keys
pub mod Duplicates
mod Examples
use mit6_824_2012spring_yfs.Prelude.{
  ℕ, ◌+◌, ◌-◌, ◌≡◌, Bool, true, false, ◌&&◌, ◌||◌, not, Option, none, some, List, [], ◌∷◌, ◌++◌,
  ltb, leb, ◌==◌, if◌then◌else◌, ◌>>=◌, ◌>>◌, assert, Map, find, insert, get_or, Memory, ℤ, pos,
  negsuc, is_negative,
}
use mit6_824_2012spring_yfs.Marshal.Headers.{ReqHeader, ReplyHeader}
use mit6_824_2012spring_yfs.Marshal.Out.{Marshall, new_marshall, pack_reply_header}
use mit6_824_2012spring_yfs.Marshal.In.{Unmarshall, new_unmarshall, unpack_req_header}
use mit6_824_2012spring_yfs.Call.{
  code, is_negative_int, unmarshal_args_failure, atmostonce_failure, oldsrv_failure,
}
use mit6_824_2012spring_yfs.Call.Handlers.{Handled}
use mit6_824_2012spring_yfs.Server.Window.{
  RpcState, new, inprogress, done, forgotten, Window, Verdict, checkduplicate_and_update, add_reply,
}

-- struct timeval
pub record Timeval : Type 0 where
  pub sec : ℕ
  pub usec : ℕ

-- connection::compare
pub compare_time : Timeval → Timeval → ℤ
compare_time a b =
    if ltb b.sec a.sec
    then pos 1
    else if ltb a.sec b.sec
    then negsuc 0
    else if ltb b.usec a.usec
    then pos 1
    else if ltb a.usec b.usec
    then negsuc 0
    else pos 0

pub record Sent : Type 0 where
  pub conn : ℕ
  pub buf : Memory
  pub sz : ℕ

pub record Rpcs (S : Type 0) : Type 0 where
  pub nonce : ℕ
  pub counting : ℕ
  pub curr_counts : ℕ
  pub counts : Map ℕ
  pub procs : Map (S → Unmarshall → Marshall → Handled S)
  pub window : Window
  pub conns : Map ℕ
  pub object : S
  pub heap : ℕ → Memory
  pub fresh : ℕ  -- the next free buffer
  pub refs : ℕ → ℕ
  pub sent : List Sent

-- What a call of `dispatch` meets.
pub record Env : Type 0 where
  pub dead : ℕ → Bool
  pub created : ℕ → Timeval
  pub junk : Memory

module _ {S : Type 0} where
  pub reg1 : ℕ → (S → Unmarshall → Marshall → Handled S) → Rpcs S → Option (Rpcs S)
  reg1 proc f s = elim (find proc s.procs) [
    | none ↦ some (record s { procs = insert proc f s.procs })
    | some g ↦ none
  ]

  -- Without the statistics that it prints. The counter is set again when it falls to 0.
  unfoldable pub updatestat : ℕ → Rpcs S → Rpcs S
  updatestat proc s = record s {
    counts = insert proc (get_or (find proc s.counts) 0 + 1) s.counts;
    curr_counts = if s.curr_counts - 1 == 0 then s.counting else s.curr_counts - 1;
  }

  pub rpcbind : ℕ → Rpcs S → ℕ × ℕ × Rpcs S
  rpcbind a s = (0, s.nonce, s)

  unfoldable pub incref : ℕ → Rpcs S → Rpcs S
  incref c s = record s { refs = λ i. if i == c then s.refs i + 1 else s.refs i }

  -- The assertion is that the count does not fall below 0.
  unfoldable pub decref : ℕ → Rpcs S → Option (Rpcs S)
  decref c s =
      if s.refs c == 0
      then none
      else some (record s { refs = λ i. if i == c then s.refs i - 1 else s.refs i })

  unfoldable pub send : ℕ → Memory → ℕ → Rpcs S → Rpcs S
  send c b n s = record s { sent = s.sent ++ (record { conn = c; buf = b; sz = n } ∷ []) }

  -- Lines 539-549: the latest connection of a client.
  unfoldable pub save_conn : Env → ℕ → ℕ → Rpcs S → Option (Rpcs S)
  save_conn env clt c s = elim (find clt s.conns) [
    | none ↦ some (record (incref c s) { conns = insert clt c s.conns })
    | some old ↦
        if is_negative (compare_time (env.created old) (env.created c))
        then (decref old s >>= λ t. some (record (incref c t) { conns = insert clt c s.conns }))
        else some s
  ]

  -- Lines 581-588. A client that has no connection there gets NULL.
  unfoldable pub latest_conn : Env → ℕ → ℕ → Rpcs S → Option (ℕ × Rpcs S)
  latest_conn env clt c s =
      if env.dead c
      then elim (find clt s.conns) [
        | none ↦ none
        | some l ↦ if l == c then some (c, s) else (decref c s >>= λ t. some (l, incref l t))
      ]
      else some (c, s)

  -- Lines 575-577, with a new buffer for the reply.
  unfoldable pub keep_reply : (clt xid : ℕ) → Marshall → Rpcs S → Rpcs S
  keep_reply clt xid rep s = record s {
    heap = λ i. if i == s.fresh then rep.buf else s.heap i;
    fresh = s.fresh + 1;
    window = if ltb 0 clt then add_reply clt xid s.fresh rep.ind s.window else s.window;
  }

  abbrev pub with_stat : ℕ → Rpcs S → Rpcs S
  with_stat proc s = if s.counting == 0 then s else updatestat proc s

  -- The case NEW.
  unfoldable pub run_new :
      Env
      → ReqHeader
      → (S → Unmarshall → Marshall → Handled S)
      → ℕ
      → Unmarshall
      → Rpcs S
      → Option (Rpcs S)
  run_new env h f c req s = do
    (ret, m, obj) ← f s.object req (new_marshall env.junk)
    _ ← assert (not (is_negative_int ret) || (ret == code unmarshal_args_failure))
    rep ← pack_reply_header (record { xid = h.xid; ret = ret }) m
    (l, t) ←
        latest_conn env h.clt_nonce c
          (keep_reply h.clt_nonce h.xid rep (record (with_stat h.proc s) { object = obj }))
    decref l (send l rep.buf rep.ind t)

  -- A reply that has only a header.
  unfoldable pub send_failure : Env → ReqHeader → ℕ → ℕ → Rpcs S → Option (Rpcs S)
  send_failure env h ret c s =
      pack_reply_header (record { xid = h.xid; ret = ret }) (new_marshall env.junk)
      >>= λ (rep : Marshall). some (send c rep.buf rep.ind s)

  -- The switch.
  unfoldable pub by_state :
      Env
      → ReqHeader
      → (S → Unmarshall → Marshall → Handled S)
      → ℕ
      → Unmarshall
      → Verdict
      → Rpcs S
      → Option (Rpcs S)
  by_state env h f c req v s = elim v.stat [
    | new ↦ run_new env h f c req s
    | inprogress ↦ decref c s
    | done ↦ decref c (send c (s.heap v.b) v.sz s)
    | forgotten ↦ send_failure env h (code atmostonce_failure) c s >>= decref c
  ]

  -- Lines 525-609, for the handler `f` of the procedure.
  unfoldable pub serve :
      Env
      → ReqHeader
      → (S → Unmarshall → Marshall → Handled S)
      → ℕ
      → Unmarshall
      → Rpcs S
      → Option (Rpcs S)
  serve env h f c req s =
      if h.clt_nonce == 0
      then run_new env h f c req s
      else (save_conn env h.clt_nonce c s >>= λ (t : Rpcs S).
          let (v, w) = checkduplicate_and_update h.clt_nonce h.xid h.xid_rep t.window in
          by_state env h f c req v (record t { window = w }))

  -- `c`, `b` and `n` are the connection, the buffer and the size of the job.
  unfoldable pub dispatch : Env → (c : ℕ) → (b : Memory) → (n : ℕ) → Rpcs S → Option (Rpcs S)
  dispatch env c b n s =
      let (h, req) = unpack_req_header (new_unmarshall b n) in
      if not req.is_ok
      then decref c s
      else if not (h.srv_nonce == 0) && not (h.srv_nonce == s.nonce)
      then send_failure env h (code oldsrv_failure) c s
      else elim (find h.proc s.procs) [ none ↦ decref c s | some f ↦ serve env h f c req s ]
