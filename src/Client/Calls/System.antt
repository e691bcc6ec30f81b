-- ===== src/Client/Calls/System.antt =====
-- The threads that use one rpcc: callers in call1, the thread that delivers replies, and threads in
-- bind and cancel, as steps. What the network delivers is arbitrary.
use mit6_824_2012spring_yfs.Prelude.{
  ℕ, ◌+◌, ◌≡◌, Bool, true, false, ◌||◌, List, [], ◌∷◌, ◌==◌, if◌then◌else◌, Memory, Option,
}
use mit6_824_2012spring_yfs.Marshal.Headers.{ReqHeader, ReplyHeader}
use mit6_824_2012spring_yfs.Marshal.Out.{Marshall}
use mit6_824_2012spring_yfs.Marshal.In.{Unmarshall, new_unmarshall, unpack_reply_header}
use mit6_824_2012spring_yfs.Call.{RpcConst}
use mit6_824_2012spring_yfs.Client.Calls.{
  Rpcc, new_rpcc, Caller, refused, begun, begin_call, end_call, got_pdu, begin_cancel, wait_empty,
  end_bind,
}

-- Where a thread stands: not in a method, in the loop of call1 with a request, or in `cancel`.
pub data Pc : Type 0 where
  outside : Pc
  calling : ReqHeader → Pc
  cancelling : Pc

pub record System : Type 0 where
  pub client : Rpcc
  pub pc : ℕ → Pc

abbrev pub set_pc : (ℕ → Pc) → ℕ → Pc → ℕ → Pc
set_pc pc i p j = if j == i then p else pc j

-- `returned` has the xid of a call, the int that call1 returns, and the reply that it leaves.
pub data Event : Type 0 where
  started : ReqHeader → Event
  failed : RpcConst → Event
  sent : ReqHeader → Event
  arrived : ReplyHeader → Unmarshall → Event
  returned : (xid ret : ℕ) → Unmarshall → Event
  cancelled : Event
  quiet : Event

abbrev pub in_cancel : Bool → Pc
in_cancel waits = if waits then cancelling else outside

-- The header of a reply, and what follows it.
abbrev pub reply_in : Memory → ℕ → ReplyHeader × Unmarshall
reply_in b n = unpack_reply_header (new_unmarshall b n)

-- A request may be sent many times, and a call may return at any time. bind_done_ may be set by any
-- thread that is in no call.
pub data Step (s : System) : Event → System → Type 0 where
  begin_refused :
      (i proc junk : ℕ) (u : Unmarshall) (m : Marshall) {c : RpcConst}
      → s.pc i ≡ outside
      → begin_call i proc junk u m s.client ≡ refused c
      → Step s (failed c) s
  begin :
      (i proc junk : ℕ) (u : Unmarshall) (m : Marshall) {h : ReqHeader} {t : Rpcc}
      {q : Option Marshall}
      → s.pc i ≡ outside
      → begin_call i proc junk u m s.client ≡ begun h q t
      → Step s (started h) (record { client = t; pc = set_pc s.pc i (calling h) })
  transmit : (i : ℕ) {h : ReqHeader} → s.pc i ≡ calling h → Step s (sent h) s
  arrive :
      (b : Memory) (n : ℕ)
      → Step s
          (arrived (reply_in b n).0 (reply_in b n).1)
          (record s { client = got_pdu b n s.client })
  end :
      (i : ℕ) {h : ReqHeader}
      → s.pc i ≡ calling h
      → Step s
          (returned (s.client.callers i).xid (end_call i s.client).0 (s.client.callers i).un)
          (record { client = (end_call i s.client).2; pc = set_pc s.pc i outside })
  cancel :
      (i : ℕ)
      → s.pc i ≡ outside
      → Step s cancelled (record {
        client = (begin_cancel s.client).1;
        pc = set_pc s.pc i (in_cancel (begin_cancel s.client).0);
      })
  cancel_again :
      (i : ℕ)
      → s.pc i ≡ cancelling
      → Step s quiet (record {
        client = (wait_empty s.client).1;
        pc = set_pc s.pc i (in_cancel (wait_empty s.client).0);
      })
  bound :
      (i ret r : ℕ)
      → s.pc i ≡ outside
      → Step s quiet (record s { client = (end_bind ret r s.client).1 })

abbrev pub init : Bool → ℕ → (ℕ → Caller) → System
init retrans random stack = record { client = new_rpcc retrans random stack; pc = λ _. outside }

-- A run, with its events, the latest first.
pub data Run (s : System) : List Event → System → Type 0 where
  start : Run s [] s
  later : {es : List Event} {e : Event} {t u : System} → Run s es t → Step t e u → Run s (e ∷ es) u

abbrev pub calls_started : List Event → ℕ
calls_started [] = 0
calls_started (started h ∷ es) = calls_started es + 1
calls_started (failed c ∷ es) = calls_started es
calls_started (sent h ∷ es) = calls_started es
calls_started (arrived h u ∷ es) = calls_started es
calls_started (returned x r u ∷ es) = calls_started es
calls_started (cancelled ∷ es) = calls_started es
calls_started (quiet ∷ es) = calls_started es

-- Has a request with this xid been sent?
abbrev pub was_sent : ℕ → List Event → Bool
was_sent x [] = false
was_sent x (sent h ∷ es) = (h.xid == x) || was_sent x es
was_sent x (started h ∷ es) = was_sent x es
was_sent x (failed c ∷ es) = was_sent x es
was_sent x (arrived h u ∷ es) = was_sent x es
was_sent x (returned y r u ∷ es) = was_sent x es
was_sent x (cancelled ∷ es) = was_sent x es
was_sent x (quiet ∷ es) = was_sent x es

-- Every reply that arrives has the xid of a request that has been sent.
abbrev pub AnswersSent : List Event → Type 0
AnswersSent [] = Unit {0}
AnswersSent (arrived h u ∷ es) = (was_sent h.xid es ≡ true) × AnswersSent es
AnswersSent (started h ∷ es) = AnswersSent es
AnswersSent (failed c ∷ es) = AnswersSent es
AnswersSent (sent h ∷ es) = AnswersSent es
AnswersSent (returned x r u ∷ es) = AnswersSent es
AnswersSent (cancelled ∷ es) = AnswersSent es
AnswersSent (quiet ∷ es) = AnswersSent es
