-- ===== src/Lib.antt =====
-- Verification of the RPC library and the lock service of YFS (C++).
--
-- The RPC library (rpc/) lets a client object rpcc call procedures of a server object rpcs, at most
-- once each, over TCP connections that may fail. rpcc::call (rpc/rpc.h) marshals the arguments,
-- rpcc::call1 (rpc/rpc.cc) gives the request an xid, remembers the caller, sends, and sends again on
-- a new connection until the reply comes or the time is up. rpcs::got_pdu queues a request for a pool
-- of threads, which run rpcs::dispatch: the reply window decides whether a request is new, in
-- progress, answered or forgotten, and a new one goes to its handler. A request carries the xid up to
-- which the client has all replies, which the client keeps in its own window, and the server frees
-- the replies up to there. The lock server (lock_server.cc) is such a server: its handlers run in the
-- threads of the pool and wait on condition variables.
--
-- Files and the code that they model:
--   Prelude            names and lemmas that all files share: Boolean tests, lists and maps over
--                      native numbers, 32-bit words, byte memories, faults as Option
--   Server/Window      rpcs::checkduplicate_and_update, add_reply, free_reply_window (rpc/rpc.cc):
--                      the state is the map of reply lists with the list of freed buffers.
--                      Spec, Order, Blocks, AtMostOnce, Retained and Overtaken hold the proofs
--   Client/XidWindow   rpcc::update_xid_rep (rpc/rpc.cc) on the list xid_rep_window_
--   Marshal/Out        class marshall and the operators << (rpc/marshall.h, rpc/rpc.cc): a buffer is a
--                      function from positions to bytes, with capacity and head position
--   Marshal/In         class unmarshall and the operators >>
--   Marshal/Codec      an operator << and an operator >> that fit together, as a record of operations
--                      and laws, with its instances
--   Marshal/Wire       a request from call to dispatch
--   Marshal/Testing    testmarshall (rpc/rpctest.cc)
--   Timespec           cmp_timespec, add_timespec, diff_timespec (rpc/rpc.cc)
--   LockServer         class lock (lock_protocol.h) and class lock_server (lock_server.cc); System is
--                      the step relation of the server's threads
--   ThrPool            class fifo (rpc/fifo.h) and class ThrPool (rpc/thr_pool.h, rpc/thr_pool.cc);
--                      Workers is the step relation of the shutdown, with its
--                      condition variables
--   Call               the templates rpcc::call and the handlers of rpcs::reg (rpc/rpc.h): Stubs and
--                      Handlers, with Pairs that reduce several arguments to one, and Roundtrip
--   Marshal/Reply      a reply from dispatch to the caller
--   Poll               class SelectAIO (Select), PollMgr (Manager) and EPollAIO (Epoll) of rpc/pollmgr.h and
--                      rpc/pollmgr.cc: Select/Highest and Select/Ready are about highfds_ and
--                      wait_ready, Manager/System is the step relation of the loop and its users, and
--                      Manager/Removal is about block_remove_fd
--   Connection         the sending side of class connection (rpc/connection.cc): Whole is about one
--                      attempt to write, Run about a call of send with what happens meanwhile
--   Server/Dispatch    rpcs::dispatch and what it calls (rpc/rpc.cc): Balance is about the reference
--                      counts of connections, Duplicates about a request that comes twice
--   Client/Calls       rpcc::bind, cancel, got_pdu and the first and last block of call1 (rpc/rpc.cc):
--                      System is the step relation of the threads that use one client, Counted, Pending,
--                      Callers and Shut hold its invariants, Plausible joins client and server window,
--                      Replies is about what a call returns, Cancelling and Waking
--                      about cancel
--   Client/Deadlines   the loop of rpcc::call1, with its deadlines and retransmissions:
--                      Bounds and Timely say when it ends, Spins when it does not
--   Client/Channel     rpcc::get_refconn, with the reference counts of connections
--   Connection/Receive the receiving side (rpc/connection.cc): Frames is about streams of messages,
--                      Reading about the buffer, Whole about a run of read_cb
--   Server/Jobs        the constructor of rpcs and got_pdu (rpc/rpc.cc), with the queue of the pool:
--                      System has messages and workers in any order
--   LockClient         class lock_client (lock_client.cc): Delivered joins it to the lock server
--   LockTester         the checks and tests of lock_tester.cc: System has its threads beside the lock
--                      server, Rounds what they do, Passes that no check fails
--   Listener           class tcpsconn and the life of its connections (rpc/connection.cc): System is
--                      the step relation of its threads, Ordered its invariant, Ends the destructor
--
-- How the code is modelled. A block that runs under a mutex is one function of the state; a method
-- that waits on a condition variable is split there, and the threads are steps of a relation, with
-- spurious wake-ups except in block_remove_fd. Numbers are natural numbers, and machine words are kept
-- in range by an explicit remainder (u32); an int that may be negative is its 32-bit pattern. A dereference of NULL, a read
-- outside of a buffer and a failed assertion are the value none or crash. free appends to a list of
-- freed buffers. std::map is an association list with unique keys, and a missing key is inserted as
-- operator[] does.
--
-- Bounds and fuel. The loops of the windows recur on the lists that they walk over; add_timespec runs
-- its carry loop on fuel, and so does the loop of call1, for whose k + 2 rounds a timeout below 2^k
-- seconds is enough, with as many waits in a round as pthread_cond_timedwait takes to come to its
-- deadline; theorems show both.
--
-- Not modelled: the system calls on sockets and threads, logging, gettime, the main programs, the
-- clients of rpctest, and the destructors that only free memory.
pub mod Prelude
pub mod Marshal
pub mod Timespec
pub mod LockServer
pub mod ThrPool
pub mod Server
pub mod Client
pub mod Call
pub mod Poll
pub mod Connection
pub mod LockTester
pub mod LockClient
pub mod Listener
