-- ===== src/Client/Calls.antt =====
-- The calls that class rpcc has under way (rpc/rpc.h lines 37-71, rpc/rpc.cc lines 80-85, 101-129,
-- 146-215, 272-297, 321-356): the constructor, bind, cancel, the first and the last block
-- of call1, and got_pdu.
--
-- A caller stands on the stack of the thread that runs call1, and its address is the number of the
-- thread: `callers` is that memory, and `calls` maps an xid to an address. Each definition runs under
-- the mutexes that the code holds there. xid_ is an unsigned int that wraps around.
pub mod System
pub mod Counted
pub mod Plausible
pub mod Pending
pub mod Callers
pub mod Replies
pub mod Shut
pub mod Cancelling
pub mod Waking
mod Examples
use mit6_824_2012spring_yfs.Prelude.{
  ℕ, ◌+◌, Bool, true, false, ◌&&◌, ◌||◌, not, Option, none, some, List, [], ◌∷◌, ◌==◌,
  if◌then◌else◌, u32, Map, find, insert, erase, Memory,
}
use mit6_824_2012spring_yfs.Marshal.Headers.{ReqHeader, ReplyHeader}
use mit6_824_2012spring_yfs.Marshal.Out.{Marshall, pack_req_header}
use mit6_824_2012spring_yfs.Marshal.In.{Unmarshall, new_unmarshall, unpack_reply_header, take_in}
use mit6_824_2012spring_yfs.Call.{RpcConst, code, bind_failure, cancel_failure, timeout_failure}
use mit6_824_2012spring_yfs.Client.XidWindow.{front, update_xid_rep}

-- rpcc::caller
pub record Caller : Type 0 where
  pub xid : ℕ
  pub un : Unmarshall
  pub intret : ℕ
  pub done : Bool

-- caller(unsigned int, unmarshall *), where `junk` is what the stack holds for intret.
abbrev pub new_caller : ℕ → Unmarshall → ℕ → Caller
new_caller x u junk = record { xid = x; un = u; intret = junk; done = false }

pub record Rpcc : Type 0 where
  pub clt_nonce : ℕ
  pub srv_nonce : ℕ
  pub bind_done : Bool
  pub xid : ℕ
  pub destroy_wait : Bool
  pub calls : Map ℕ
  pub xid_rep_window : List ℕ
  pub callers : ℕ → Caller

-- rpcc(sockaddr_in, bool), where `random` is what random() returns.
abbrev pub new_rpcc : (retrans : Bool) (random : ℕ) → (ℕ → Caller) → Rpcc
new_rpcc retrans random stack = record {
  clt_nonce = if retrans then random else 0;
  srv_nonce = 0;
  bind_done = false;
  xid = 1;
  destroy_wait = false;
  calls = [];
  xid_rep_window = 0 ∷ [];
  callers = stack;
}

-- rpc_const::bind
abbrev pub bind_proc : ℕ
bind_proc = 1

-- What `bind` does when its call returns `ret` with `r`.
pub end_bind : (ret r : ℕ) → Rpcc → ℕ × Rpcc
end_bind ret r s = (ret, if ret == 0 then record s { bind_done = true; srv_nonce = r } else s)

abbrev pub set_caller : ℕ → Caller → (ℕ → Caller) → ℕ → Caller
set_caller i ca m j = if j == i then ca else m j

-- The first block of call1: it returns a failure, or it has written the header into the request. A
-- request of `none` is a failed assertion.
pub data Begun : Type 0 where
  refused : RpcConst → Begun
  begun : ReqHeader → (req : Option Marshall) → Rpcc → Begun

-- Lines 210-211.
abbrev pub new_header : ℕ → Rpcc → ReqHeader
new_header proc s = record {
  xid = s.xid;
  proc = proc;
  clt_nonce = s.clt_nonce;
  srv_nonce = s.srv_nonce;
  xid_rep = front s.xid_rep_window;
}

-- Lines 207-208, for the caller of line 193.
abbrev pub add_call : (i junk : ℕ) → Unmarshall → Rpcc → Rpcc
add_call i junk rep s = record s {
  xid = u32 (s.xid + 1);
  calls = insert s.xid i s.calls;
  callers = set_caller i (new_caller s.xid rep junk) s.callers;
}

pub begin_call : (i proc junk : ℕ) → Unmarshall → Marshall → Rpcc → Begun
begin_call i proc junk rep req s =
    if not (proc == bind_proc) && not s.bind_done || (proc == bind_proc) && s.bind_done
    then refused bind_failure
    else if s.destroy_wait
    then refused cancel_failure
    else (let h = new_header proc s in begun h (pack_req_header h req) (add_call i junk rep s))

-- The last blocks of call1: what it returns, whether destroy_wait_c_ is signalled, and the state.
pub end_call : ℕ → Rpcc → ℕ × Bool × Rpcc
end_call i s =
    let ca = s.callers i in
    (
      if ca.done then ca.intret else code timeout_failure,
      s.destroy_wait,
      record s {
        calls = erase ca.xid s.calls;
        xid_rep_window = update_xid_rep ca.xid s.xid_rep_window;
      },
    )

-- Lines 345-353: a caller that is done keeps its reply.
abbrev pub answer_caller : ReplyHeader → Unmarshall → Caller → Caller
answer_caller h rep ca =
    if ca.done then ca else record ca { un = (take_in ca.un rep).0; intret = h.ret; done = true }

-- Lines 338-355, for what `find` answers.
abbrev pub answer_call : Option ℕ → ReplyHeader → Unmarshall → Rpcc → Rpcc
answer_call none h rep s = s
answer_call (some i) h rep s = record s {
  callers = set_caller i (answer_caller h rep (s.callers i)) s.callers;
}

-- Lines 330-355.
pub take_reply : ReplyHeader → Unmarshall → Rpcc → Rpcc
take_reply h rep s =
    if not rep.is_ok
    then s
    else answer_call (find h.xid s.calls) h rep
        (record s { xid_rep_window = update_xid_rep h.xid s.xid_rep_window })

-- got_pdu, for `n` bytes in `b`.
pub got_pdu : (b : Memory) (n : ℕ) → Rpcc → Rpcc
got_pdu b n s = let (h, rep) = unpack_reply_header (new_unmarshall b n) in take_reply h rep s

-- The loop of `cancel` over the pending calls.
pub cancel_callers : Map ℕ → (ℕ → Caller) → ℕ → Caller
cancel_callers [] m = m
cancel_callers ((x, i) ∷ rest) m =
    cancel_callers rest
      (set_caller i (record (m i) { done = true; intret = code cancel_failure }) m)

abbrev pub is_empty : Map ℕ → Bool
is_empty [] = true
is_empty (e ∷ m) = false

-- The test of the second loop of `cancel`: whether it waits on destroy_wait_c_.
pub wait_empty : Rpcc → Bool × Rpcc
wait_empty s = if is_empty s.calls then (false, s) else (true, record s { destroy_wait = true })

-- `cancel` up to its first wait or its return.
pub begin_cancel : Rpcc → Bool × Rpcc
begin_cancel s = wait_empty (record s { callers = cancel_callers s.calls s.callers })
