-- ===== src/Server/Jobs/Examples.antt =====
-- A message that arrives and is dispatched, and the race of got_pdu, at concrete inputs.
use mit6_824_2012spring_yfs.Prelude.{
  ℕ, ◌+◌, ◌-◌, ◌≡◌, refl, true, false, some, [], ◌∷◌, ◌++◌, Memory, ◌==◌, if◌then◌else◌, find,
}
use mit6_824_2012spring_yfs.Marshal.In.{unpack_req_header, unpack, rawbyte}
use mit6_824_2012spring_yfs.ThrPool.{enq, deq, deq_from, dequeued}
use mit6_824_2012spring_yfs.Server.Dispatch.{Rpcs, Env, dispatch, incref, decref}
use mit6_824_2012spring_yfs.Server.Dispatch.Balance.{held, is_old}
use mit6_824_2012spring_yfs.Server.Jobs.{Djob, Server, got_pdu, after_add, work, work_on}
use mit6_824_2012spring_yfs.Server.Jobs.System.{
  queued, occurs, Run, start, later, arrives, works, references_accounted,
}

abbrev rpcs_idle : Rpcs ℕ
rpcs_idle = record {
  nonce = 9;
  counting = 0;
  curr_counts = 0;
  counts = [];
  procs = [];
  window = record { reply_window = []; freed = [] };
  conns = [];
  object = 0;
  heap = λ _ _. 0;
  fresh = 1;
  refs = λ i. 1;
  sent = [];
}

abbrev idle : Server ℕ
idle = record {
  rpcs = rpcs_idle;
  jobq = record { q = []; max = 1000 };
  reachable = true;
  dropped = [];
}

-- A request for the unknown procedure 0.
abbrev message : Memory
message i = 0

abbrev request : Djob
request = record { conn = 5; buf = message; sz = 24 }

abbrev busy : Server ℕ
busy = record idle {
  rpcs = record rpcs_idle { refs = λ i. if i == 5 then 2 else 1 };
  jobq = record { q = request ∷ []; max = 1000 };
}

abbrev env : Env
env = record { dead = λ i. false; created = λ i. record { sec = 0; usec = 0 }; junk = λ i. 0 }

arrived : got_pdu true 5 message 24 idle ≡ some (true, busy)
unfolding got_pdu after_add enq incref
arrived = refl

abbrev finished : Server ℕ
finished = record idle {
  rpcs = record rpcs_idle {
    refs = λ i. if i == 5 then (if i == 5 then 2 else 1) - 1 else if i == 5 then 2 else 1;
  };
}

worked : work env busy ≡ some finished
unfolding work work_on deq deq_from dispatch decref unpack_req_header unpack rawbyte find
worked = refl

taken : deq busy.jobq ≡ dequeued request (record { q = []; max = 1000 }) true
unfolding deq deq_from
taken = refl

one_message : Run idle ((if is_old message 24 busy.rpcs then 5 ∷ [] else []) ++ ([] ++ [])) finished
one_message =
    later (later start (arrives true 5 message 24 true arrived))
      (works env request (record { q = []; max = 1000 }) true taken worked)

references_accounted_example :
    finished.rpcs.refs 5 + held 5 idle.rpcs.conns + queued 5 idle.jobq.q + queued 5 finished.dropped
    ≡ idle.rpcs.refs 5
      + held 5 finished.rpcs.conns
      + queued 5 finished.jobq.q
      + queued 5 idle.dropped
      + occurs 5 ((if is_old message 24 busy.rpcs then 5 ∷ [] else []) ++ ([] ++ []))
references_accounted_example = references_accounted 5 one_message tt

-- reachable_ is turned off between the two tests of got_pdu: the job is in the queue and deleted.
abbrev raced : Server ℕ
raced = record idle {
  rpcs = record rpcs_idle {
    refs = λ i. if i == 5 then (if i == 5 then 2 else 1) - 1 else if i == 5 then 2 else 1;
  };
  jobq = record { q = request ∷ []; max = 1000 };
  dropped = request ∷ [];
}

turned_off : got_pdu false 5 message 24 idle ≡ some (true, raced)
unfolding got_pdu after_add enq incref decref
turned_off = refl
