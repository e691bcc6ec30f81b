-- ===== src/Server/Jobs.antt =====
-- The jobs of rpcs: its constructor and destructor and got_pdu (rpc/rpc.h lines 315-333, rpc/rpc.cc
-- lines 385-432), with the queue of the thread pool between got_pdu and `dispatch`.
--
-- A job is the value that djob_t holds; `delete j` takes away the object, and `dropped` has the jobs
-- that are deleted although they are in the queue. Registration is reg1 of Server.Dispatch.
pub mod System
mod Examples
use mit6_824_2012spring_yfs.Prelude.{
  ℕ, ◌*◌, ◌+◌, Bool, true, false, not, Option, none, some, List, [], ◌∷◌, ◌++◌, if◌then◌else◌,
  ◌>>=◌, Memory, Map,
}
use mit6_824_2012spring_yfs.Marshal.Out.{Marshall}
use mit6_824_2012spring_yfs.Marshal.In.{Unmarshall}
use mit6_824_2012spring_yfs.Call.Handlers.{Handled}
use mit6_824_2012spring_yfs.ThrPool.{
  Fifo, new_fifo, Enq, enqueued, enq_waits, refused, enq, Deq, dequeued, deq_waits, deq,
}
use mit6_824_2012spring_yfs.Server.Window.{free_reply_window}
use mit6_824_2012spring_yfs.Server.Dispatch.{Rpcs, Env, reg1, incref, decref, dispatch}

-- djob_t
pub record Djob : Type 0 where
  pub conn : ℕ
  pub buf : Memory
  pub sz : ℕ

-- rpcs with dispatchpool_, of which the queue is kept, and reachable_.
pub record Server (S : Type 0) : Type 0 where
  pub rpcs : Rpcs S
  pub jobq : Fifo Djob
  pub reachable : Bool
  pub dropped : List Djob

-- The size of ThrPool(10, false).
abbrev pub pool_size : ℕ
pool_size = 10

module _ {S : Type 0} where
  -- rpcs(unsigned int, int), where `random` is what random() returns, `bind` the handler of rpcbind,
  -- and `refs` and `heap` the memory as it is.
  pub new_rpcs :
      (random counts : ℕ)
      → (S → Unmarshall → Marshall → Handled S)
      → S
      → (ℕ → Memory)
      → (ℕ → ℕ)
      → Option (Server S)
  new_rpcs random counts bind object heap refs =
      reg1 1 bind (record {
        nonce = random;
        counting = counts;
        curr_counts = counts;
        counts = [];
        procs = [];
        window = record { reply_window = []; freed = [] };
        conns = [];
        object = object;
        heap = heap;
        fresh = 1;
        refs = refs;
        sent = [];
      })
      >>= λ (r : Rpcs S).
          some
            (record { rpcs = r; jobq = new_fifo (100 * pool_size); reachable = true; dropped = [] })

  -- ~rpcs(), from free_reply_window on.
  pub end_rpcs : Server S → Server S
  end_rpcs s = record s { rpcs = record s.rpcs { window = free_reply_window s.rpcs.window } }

  -- set_reachable
  abbrev pub set_reachable : Bool → Server S → Server S
  set_reachable r s = record s { reachable = r }

  -- Lines 426-431, for what addObjJob answers. `still` is reachable_ at line 427.
  pub after_add : (still : Bool) → Djob → Enq Djob → Server S → Option (Bool × Server S)
  after_add still j (enqueued q) s =
      if still
      then some (true, record s { jobq = q })
      else (decref j.conn s.rpcs >>= λ (r : Rpcs S).
          some (true, record s { rpcs = r; jobq = q; dropped = s.dropped ++ (j ∷ []) }))
  after_add still j enq_waits s = none
  after_add still j refused s =
      decref j.conn s.rpcs >>= λ (r : Rpcs S). some (false, record s { rpcs = r })

  -- got_pdu: whether the message is consumed.
  pub got_pdu : (still : Bool) (c : ℕ) (b : Memory) (n : ℕ) → Server S → Option (Bool × Server S)
  got_pdu still c b n s =
      if not s.reachable
      then some (true, s)
      else (let j : Djob = record { conn = c; buf = b; sz = n } in
          after_add still j (enq j false s.jobq) (record s { rpcs = incref c s.rpcs }))

  -- What a worker does: takeJob and `dispatch`. `none` is a fault, or that it waits for a job.
  pub work_on : Env → Deq Djob → Server S → Option (Server S)
  work_on env deq_waits s = none
  work_on env (dequeued j q signals) s = dispatch env j.conn j.buf j.sz s.rpcs >>= λ (r : Rpcs S).
      some (record s { rpcs = r; jobq = q })

  pub work : Env → Server S → Option (Server S)
  work env s = work_on env (deq s.jobq) s
