-- ===== src/Client/Calls/Examples.antt =====
-- Runs of a client, and its theorems at concrete inputs.
use mit6_824_2012spring_yfs.Prelude.{
  ℕ, ◌≤◌, ◌≡◌, ◌≢◌, refl, true, false, Bool, [], ◌∷◌, All, arith, Memory, ◌==◌, if◌then◌else◌, find,
  insert, erase,
}
use mit6_824_2012spring_yfs.Marshal.Headers.{ReqHeader}
use mit6_824_2012spring_yfs.Marshal.Out.{new_marshall}
use mit6_824_2012spring_yfs.Marshal.In.{empty_unmarshall, unpack_reply_header, unpack, rawbyte}
use mit6_824_2012spring_yfs.Server.Window.AtMostOnce.{request, executions, empty_window}
use mit6_824_2012spring_yfs.Client.Calls.{
  Caller, Rpcc, new_caller, new_rpcc, begin_call, add_call, new_header, end_call, got_pdu,
  begin_cancel, wait_empty, end_bind, take_reply,
}
use mit6_824_2012spring_yfs.Client.Calls.System.{
  System, Event, cancelling, Run, init, start, later, begin, transmit, arrive, end, bound, quiet,
  cancel, sent, started, arrived, returned, cancelled, calling, set_pc, outside, in_cancel,
  reply_in, AnswersSent,
}
use mit6_824_2012spring_yfs.Client.Calls.Plausible.{Fair, sent_below, sends, clients_at_most_once}
use mit6_824_2012spring_yfs.Client.Calls.Pending.{pending_apart}
use mit6_824_2012spring_yfs.Client.Calls.Replies.{AllReturnJustly, calls_return_justly}
use mit6_824_2012spring_yfs.Client.Calls.Cancelling.{FailsOnly, cancel_fails_pending}
use mit6_824_2012spring_yfs.Client.Calls.Waking.{
  set_awake, Turns, begins, then_turn, other, cancels, rank, Advances, cancel_progresses,
  cancel_recedes_never,
}

abbrev stack : ℕ → Caller
stack i = new_caller 0 empty_unmarshall 0

abbrev fresh : Rpcc
fresh = new_rpcc true 7 stack

-- The header of the call that binds, and the client while it is pending.
abbrev binds : ReqHeader
binds = new_header 1 fresh

abbrev binding : System
binding = record {
  client = add_call 0 0 empty_unmarshall fresh;
  pc = set_pc (λ _. outside) 0 (calling binds);
}

bind_sent : Run (init true 7 stack) (sent binds ∷ started binds ∷ []) binding
unfolding begin_call
bind_sent =
    later (later start (begin 0 1 0 empty_unmarshall (new_marshall (λ _. 0)) refl refl))
      (transmit 0 refl)

sent_below_example : All Fair (sent binds ∷ started binds ∷ [])
sent_below_example = sent_below true 7 stack bind_sent (omega arith) tt

-- A client that is bound, with the calls of threads 0 and 1.
abbrev ready : Rpcc
ready = (end_bind 0 99 fresh).1

abbrev calls_two : Rpcc
calls_two = add_call 1 0 empty_unmarshall (add_call 0 0 empty_unmarshall ready)

abbrev both_call : System
both_call = record {
  client = calls_two;
  pc =
      set_pc (set_pc (λ _. outside) 0 (calling (new_header 28673 ready))) 1
        (calling (new_header 28673 (add_call 0 0 empty_unmarshall ready)));
}

two_pending :
    Run
      (init true 7 stack)
      (started (new_header 28673 (add_call 0 0 empty_unmarshall ready))
        ∷ started (new_header 28673 ready)
        ∷ quiet
        ∷ [])
      both_call
unfolding begin_call end_bind
two_pending =
    later
      (later (later start (bound 5 0 99 refl))
        (begin 0 28673 0 empty_unmarshall (new_marshall (λ _. 0)) refl refl))
      (begin 1 28673 0 empty_unmarshall (new_marshall (λ _. 0)) refl refl)

pending_apart_example : ready.xid ≢ (add_call 0 0 empty_unmarshall ready).xid
pending_apart_example =
    pending_apart true 7 stack two_pending (omega arith) tt 0 1 _ _ refl refl (omega arith)

-- The reply 0 to the request with xid 1.
abbrev reply_bytes : Memory
reply_bytes i = if i == 7 then 1 else 0

bind_answered :
    Run
      (init true 7 stack)
      (arrived (reply_in reply_bytes 24).0 (reply_in reply_bytes 24).1
        ∷ sent binds
        ∷ started binds
        ∷ [])
      (record binding { client = got_pdu reply_bytes 24 binding.client })
bind_answered = later bind_sent (arrive reply_bytes 24)

answers : AnswersSent (
    arrived (reply_in reply_bytes 24).0 (reply_in reply_bytes 24).1
    ∷ sent binds
    ∷ started binds
    ∷ [])
unfolding unpack_reply_header unpack rawbyte
answers = (refl, tt)

abbrev answered : System
answered = record binding { client = got_pdu reply_bytes 24 binding.client }

calls_return_justly_example : AllReturnJustly (
    returned
      (answered.client.callers 0).xid
      (end_call 0 answered.client).0
      (answered.client.callers 0).un
    ∷ arrived (reply_in reply_bytes 24).0 (reply_in reply_bytes 24).1
    ∷ sent binds
    ∷ started binds
    ∷ [])
calls_return_justly_example =
    calls_return_justly true 7 stack (later bind_answered (end 0 refl)) (omega arith) answers

bind_returns :
    ((answered.client.callers 0).xid ≡ 1)
    × ((end_call 0 answered.client).0 ≡ 0)
    × ((end_call 0 answered.client).2.calls ≡ [])
unfolding unpack_reply_header unpack rawbyte end_call got_pdu take_reply find insert erase
bind_returns = (refl, refl, refl)

-- Thread 3 cancels while the call of thread 0 is pending.
abbrev closing : System
closing = record {
  client = (begin_cancel binding.client).1;
  pc = set_pc binding.pc 3 (in_cancel (begin_cancel binding.client).0);
}

bind_cancelled : Run (init true 7 stack) (cancelled ∷ sent binds ∷ started binds ∷ []) closing
bind_cancelled = later bind_sent (cancel 3 refl)

-- The reply to the pending call arrives after that, and the call returns.
abbrev late : System
late = record closing { client = got_pdu reply_bytes 24 closing.client }

abbrev late_return : Event
late_return =
    returned (late.client.callers 0).xid (end_call 0 late.client).0 (late.client.callers 0).un

abbrev late_reply : Event
late_reply = arrived (reply_in reply_bytes 24).0 (reply_in reply_bytes 24).1

late_Run :
    Run closing
      (late_return ∷ late_reply ∷ [])
      (record { client = (end_call 0 late.client).2; pc = set_pc late.pc 0 outside })
late_Run = later (later start (arrive reply_bytes 24)) (end 0 refl)

late_answers : AnswersSent (late_return ∷ late_reply ∷ cancelled ∷ sent binds ∷ started binds ∷ [])
unfolding unpack_reply_header unpack rawbyte
late_answers = (refl, tt)

cancel_fails_pending_example : All FailsOnly (late_return ∷ late_reply ∷ [])
cancel_fails_pending_example =
    cancel_fails_pending true 7 stack 0 3 binds bind_sent refl refl late_Run (omega arith)
      late_answers

abbrev nobody_awake : ℕ → Bool
nobody_awake = set_awake (λ _. false) 3 false

nobody_cancels : (j : ℕ) → binding.pc j ≢ cancelling
nobody_cancels j h = ground (arith, h)

closing-Turns :
    Turns (init true 7 stack) (cancelled ∷ sent binds ∷ started binds ∷ []) closing nobody_awake
unfolding begin_call
closing-Turns =
    then_turn
      (then_turn
        (then_turn begins
          (other (begin 0 1 0 empty_unmarshall (new_marshall (λ _. 0)) refl refl) tt))
        (other (transmit 0 refl) tt))
      (cancels 3 refl (λ j h. nobody_cancels j h))

closing-waits : closing.pc 3 ≡ cancelling
unfolding begin_cancel wait_empty insert
closing-waits = refl

cancel_progresses_example : Advances 3 closing nobody_awake
cancel_progresses_example =
    cancel_progresses true 7 stack 3 closing-Turns (omega arith) tt closing-waits

cancel_recedes_never_example :
    rank 3 (record closing { client = got_pdu reply_bytes 24 closing.client }) nobody_awake
    ≤ rank 3 closing nobody_awake
cancel_recedes_never_example =
    cancel_recedes_never true 7 stack 3 closing-Turns (omega arith) tt closing-waits
      (other (arrive reply_bytes 24) tt)

clients_at_most_once_example : executions 7 1 (request 7 1 0 ∷ request 7 1 0 ∷ []) empty_window ≤ 1
clients_at_most_once_example = clients_at_most_once 7 1 (request 7 1 0 ∷ request 7 1 0 ∷ []) (
  sends true 7 stack bind_sent (omega arith) tt,
  (sends true 7 stack bind_sent (omega arith) tt, tt),
)
