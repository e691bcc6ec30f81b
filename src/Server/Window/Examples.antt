-- ===== src/Server/Window/Examples.antt =====
-- Runs of the reply window, and its theorems at concrete inputs.
use mit6_824_2012spring_yfs.Prelude.{◌≤◌, ◌≡◌, refl, true, List, [], ◌∷◌, arith, find, insert}
use mit6_824_2012spring_yfs.Server.Window.{
  forgotten, new, Window, Reply, scan, insert_reply, set_reply, checkduplicate_and_update,
  add_reply, replies, new_reply,
}
use mit6_824_2012spring_yfs.Server.Window.Spec.{judge_request, scan-judge_request, lookup_reply}
use mit6_824_2012spring_yfs.Server.Window.AtMostOnce.{
  Event, request, reply, step, run, executions, executes, empty_window, Ordered, at_most_once,
}
use mit6_824_2012spring_yfs.Server.Window.Retained.{answer, retransmission_answered}
use mit6_824_2012spring_yfs.Server.Window.Overtaken.{overtaken_forgotten}

-- Client 7 binds with xid 1, then sends 2 and 3, and acknowledges 1.
abbrev bound : List Event
bound = request 7 1 0 ∷ reply 7 1 100 28 ∷ request 7 3 1 ∷ request 7 2 1 ∷ reply 7 2 200 28 ∷ []

bound-replies :
    replies 7 (run bound empty_window)
    ≡ record { xid = 1; cb_present = true; buf = 100; sz = 28 }
      ∷ record { xid = 2; cb_present = true; buf = 200; sz = 28 }
      ∷ new_reply 3
      ∷ []
unfolding run step checkduplicate_and_update add_reply scan insert_reply set_reply find insert
bound-replies = refl

abbrev window_1_2 : List Reply
window_1_2 = record { xid = 1; cb_present = true; buf = 100; sz = 28 } ∷ new_reply 2 ∷ []

scan-judge_request_example : scan 3 2 [] window_1_2 [] ≡ judge_request 3 2 window_1_2
scan-judge_request_example = scan-judge_request 3 2 0 window_1_2 (omega arith)

at_most_once_example :
    executions 7 1 (request 7 1 0 ∷ request 7 1 0 ∷ request 7 3 2 ∷ request 7 1 0 ∷ []) empty_window
    ≤ 1
at_most_once_example =
    at_most_once 7 1 (request 7 1 0 ∷ request 7 1 0 ∷ request 7 3 2 ∷ request 7 1 0 ∷ [])
      (omega arith)

one_execution :
    executions 7 1 (request 7 1 0 ∷ request 7 1 0 ∷ request 7 3 2 ∷ request 7 1 0 ∷ []) empty_window
    ≡ 1
unfolding executions executes step checkduplicate_and_update scan insert_reply find insert
one_execution = refl

abbrev answered : Window
answered = record {
  reply_window = (7, record { xid = 1; cb_present = true; buf = 100; sz = 28 } ∷ []) ∷ [];
  freed = [];
}

answered-Ordered : Ordered answered
unfolding find
answered-Ordered c = ground arith

retransmission_answered_example :
    (checkduplicate_and_update 7 1 0 (run (request 7 2 1 ∷ request 7 3 1 ∷ []) answered)).0
    ≡ answer (record { xid = 1; cb_present = true; buf = 100; sz = 28 })
unfolding lookup_reply find
retransmission_answered_example =
    retransmission_answered 7 1 0 (request 7 2 1 ∷ request 7 3 1 ∷ []) answered
      (record { xid = 1; cb_present = true; buf = 100; sz = 28 }) answered-Ordered
      (λ _. omega arith, (λ _. omega arith, tt)) (omega arith) refl

overtaken_forgotten_example :
    ((checkduplicate_and_update 7 3 1 empty_window).0.stat ≡ new)
    × ((checkduplicate_and_update 7 2 1 (step (request 7 3 1) empty_window)).0.stat ≡ forgotten)
    × (executions 7 2 (request 7 3 1 ∷ request 7 2 1 ∷ []) empty_window ≡ 0)
unfolding find
overtaken_forgotten_example =
    overtaken_forgotten 7 2 3 1 1 empty_window refl (omega arith) (omega arith)
