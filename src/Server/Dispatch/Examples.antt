-- ===== src/Server/Dispatch/Examples.antt =====
-- A server with one procedure, a message of 24 bytes for it, and the theorems about `dispatch` there.
use mit6_824_2012spring_yfs.Prelude.{
  ℕ, ◌+◌, ◌≡◌, refl, false, Option, none, some, [], ◌∷◌, ◌++◌, ◌==◌, if◌then◌else◌, find, insert,
  Memory, arith,
}
use mit6_824_2012spring_yfs.Marshal.Out.{
  Marshall, pack, pack_reply_header, rawbyte as put_rawbyte, grow,
}
use mit6_824_2012spring_yfs.Marshal.In.{
  Unmarshall, new_unmarshall, unpack_req_header, unpack, rawbyte,
}
use mit6_824_2012spring_yfs.Call.Handlers.{Handled}
use mit6_824_2012spring_yfs.Server.Window.{
  new, checkduplicate_and_update, scan, insert_reply, set_reply, add_reply,
}
use mit6_824_2012spring_yfs.Server.Window.AtMostOnce.{Ordered, empty_window}
use mit6_824_2012spring_yfs.Server.Dispatch.{
  Rpcs, Env, Sent, dispatch, serve, save_conn, by_state, run_new, keep_reply, latest_conn, send,
  decref, incref, compare_time,
}
use mit6_824_2012spring_yfs.Server.Dispatch.Balance.{held, is_old, dispatch_balances}
use mit6_824_2012spring_yfs.Server.Dispatch.Duplicates.{IsServed, dispatch_twice}

-- xid 5, procedure 3, client 17, server 9, xid_rep 4
abbrev message : Memory
message i =
    if i == 7
    then 5
    else if i == 11
    then 3
    else if i == 15
    then 17
    else if i == 19
    then 9
    else if i == 23
    then 4
    else 0

abbrev count : ℕ → Unmarshall → Marshall → Handled ℕ
count object args ret = some (0, ret, object + 1)

abbrev server : Rpcs ℕ
server = record {
  nonce = 9;
  counting = 0;
  curr_counts = 0;
  counts = [];
  procs = (3, count) ∷ [];
  window = empty_window;
  conns = [];
  object = 40;
  heap = λ i j. 0;
  fresh = 1;
  refs = λ i. 2;
  sent = [];
}

abbrev env : Env
env = record { dead = λ c. false; created = λ c. record { sec = 0; usec = 0 }; junk = λ i. 7 }

abbrev or_server : Option (Rpcs ℕ) → Rpcs ℕ
or_server none = server
or_server (some s) = s

abbrev after_one : Rpcs ℕ
after_one = or_server (dispatch env 1 message 24 server)

abbrev after_two : Rpcs ℕ
after_two = or_server (dispatch env 2 message 24 after_one)

first_dispatch : dispatch env 1 message 24 server ≡ some after_one
unfolding dispatch serve save_conn by_state run_new keep_reply latest_conn send decref incref
    unpack_req_header unpack rawbyte pack_reply_header pack put_rawbyte grow
    checkduplicate_and_update scan insert_reply find insert
first_dispatch = refl

second_dispatch : dispatch env 2 message 24 after_one ≡ some after_two
unfolding dispatch serve save_conn by_state run_new keep_reply latest_conn send decref incref
    unpack_req_header unpack rawbyte pack_reply_header pack put_rawbyte grow
    checkduplicate_and_update scan insert_reply set_reply add_reply find insert compare_time
second_dispatch = refl

message-IsServed : IsServed message 24 count server
unfolding unpack_req_header unpack rawbyte find
message-IsServed = record { well_formed = refl; current = refl; known = refl }

-- What the header says.
message_header :
    (let h = (unpack_req_header (new_unmarshall message 24)).0 in
      (h.clt_nonce ≡ 17) × (h.xid_rep ≡ 4) × (h.xid ≡ 5))
unfolding unpack_req_header unpack rawbyte
message_header = (refl, refl, refl)

message_new :
    (let h = (unpack_req_header (new_unmarshall message 24)).0 in
      (checkduplicate_and_update h.clt_nonce h.xid h.xid_rep empty_window).0.stat ≡ new)
unfolding unpack_req_header unpack rawbyte checkduplicate_and_update scan insert_reply find
message_new = refl

empty-Ordered : Ordered empty_window
unfolding find
empty-Ordered c = tt

dispatch_balances_example :
    after_one.refs 1 + (if is_old message 24 server then 0 else 1) + held 1 server.conns
    ≡ server.refs 1 + held 1 after_one.conns
dispatch_balances_example = dispatch_balances env 1 message 24 server after_one 1 tt first_dispatch

dispatch_twice_example :
    (after_two.object ≡ after_one.object)
    × ((x : Sent) × (after_one.sent ≡ server.sent ++ (x ∷ []))
        × (after_two.sent ≡ after_one.sent ++ (record x { conn = 2 } ∷ [])))
dispatch_twice_example =
    dispatch_twice env env 1 2 message 24 count server after_one after_two
      (
        message-IsServed,
        ground (arith, message_header),
        omega (arith, message_header),
        empty-Ordered,
        message_new,
      )
      first_dispatch second_dispatch
