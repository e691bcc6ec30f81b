-- ===== src/Client/Calls/Plausible.antt =====
-- A client acknowledges no reply beyond the request that it sends, and what follows from that for
-- the server.
use mit6_824_2012spring_yfs.Prelude.{ℕ, ◌+◌, ◌^◌, ◌≤◌, ◌<◌, Bool, List, ◌∷◌, All, All-mono, arith}
use mit6_824_2012spring_yfs.Marshal.Headers.{ReqHeader}
use mit6_824_2012spring_yfs.Server.Window.AtMostOnce.{
  request, reply, executions, empty_window, IsPlausible, at_most_once,
}
use mit6_824_2012spring_yfs.Server.Window.AtMostOnce
use mit6_824_2012spring_yfs.Client.Calls.{Caller}
use mit6_824_2012spring_yfs.Client.Calls.System.{
  System, Event, started, sent, arrived, returned, failed, cancelled, quiet, Step, init, Run, start,
  later, calls_started, AnswersSent, begin, begin_refused, transmit, arrive, end, cancel,
  cancel_again, bound,
}
use mit6_824_2012spring_yfs.Client.Calls.Counted.{
  Counted, Run-Counted, calls_started-cons, AnswersSent-tail,
}

-- What a header that is sent looks like.
abbrev pub Fair : Event → Type 0
Fair (sent h) = h.xid_rep < h.xid
Fair (started h) = Unit {0}
Fair (failed c) = Unit {0}
Fair (arrived h u) = Unit {0}
Fair (returned x r u) = Unit {0}
Fair cancelled = Unit {0}
Fair quiet = Unit {0}

Step-Fair : (es : List Event) {s t : System} {e : Event} → Step s e t → Counted es s → Fair e
Step-Fair es (begin_refused i proc junk u m p q) v = tt
Step-Fair es (begin i proc junk u m p q) v = tt
Step-Fair es (transmit i {h} p) v = (v.pending i h p).0
Step-Fair es (arrive b n) v = tt
Step-Fair es (end i p) v = tt
Step-Fair es (cancel i p) v = tt
Step-Fair es (cancel_again i p) v = tt
Step-Fair es (bound i ret r p) v = tt

-- Every request that a client sends acknowledges replies below its own xid only, whatever happens
-- and however often it is sent. The conditions are that the client makes fewer than 2^32 - 1 calls
-- and that each reply that arrives has the xid of a request that has been sent.
pub sent_below :
    (r : Bool) (random : ℕ) (stack : ℕ → Caller) {es : List Event} {s : System}
    → Run (init r random stack) es s
    → calls_started es + 1 < 2 ^ 32
    → AnswersSent es
    → All Fair es
sent_below r random stack start n a = tt
sent_below r random stack (later {es} {e} w st) n a =
    let n' : calls_started es + 1 < 2 ^ 32 = omega (arith, n, calls_started-cons e es) in
    let a' = AnswersSent-tail e es a in
    (Step-Fair es st (Run-Counted r random stack w n' a'), sent_below r random stack w n' a')

-- A client whose latest event is to send a request with these numbers.
pub data Sends : (clt_nonce xid xid_rep : ℕ) → Type 0 where
  sends :
      (r : Bool) (random : ℕ) (stack : ℕ → Caller) {es : List Event} {s : System} {h : ReqHeader}
      → Run (init r random stack) (sent h ∷ es) s
      → calls_started es + 1 < 2 ^ 32
      → AnswersSent es
      → Sends h.clt_nonce h.xid h.xid_rep

-- A request that reaches the server has been sent by a client.
abbrev pub IsFromClient : AtMostOnce.Event → Type 0
IsFromClient (request c x rep) = Sends c x rep
IsFromClient (reply c x b n) = Unit {0}

Sends-plausible : {c x rep : ℕ} → Sends c x rep → rep ≤ x
Sends-plausible (sends r random stack w n a) = omega (arith, (sent_below r random stack w n a).0)

IsFromClient-IsPlausible : (e : AtMostOnce.Event) → IsFromClient e → IsPlausible e
IsFromClient-IsPlausible (request c x rep) h = Sends-plausible h
IsFromClient-IsPlausible (reply c x b n) h = tt

-- Clients and server together: whatever requests of clients reach the server, in any order and any
-- number of times, and whenever the server answers, no request of a client is found new twice. The
-- clients are as in sent_below.
pub clients_at_most_once :
    (c x : ℕ) (es : List AtMostOnce.Event)
    → All IsFromClient es
    → executions c x es empty_window ≤ 1
clients_at_most_once c x es h =
    at_most_once c x es (All-mono IsFromClient IsPlausible es IsFromClient-IsPlausible h)
