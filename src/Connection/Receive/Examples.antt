-- ===== src/Connection/Receive/Examples.antt =====
-- A message of six bytes that comes in three reads.
use mit6_824_2012spring_yfs.Prelude.{
  ℕ, ◌≡◌, refl, true, false, none, some, List, [], ◌∷◌, ◌++◌, Memory, copy, slice, map, arith,
}
use mit6_824_2012spring_yfs.Connection.{Connection}
use mit6_824_2012spring_yfs.Connection.Receive.{
  Arrival, ready_bytes, empty_charbuf, take_size, read_size, end_read, fill, fill_from, read_body,
  readpdu, hand_over, after_read, read_cb,
}
use mit6_824_2012spring_yfs.Connection.Receive.Frames.{concat}
use mit6_824_2012spring_yfs.Connection.Receive.Whole.{
  Receives, opened, reads, on_wire, receive_whole,
}

abbrev fresh : Connection
fresh = record {
  dead = false;
  wpdu = empty_charbuf;
  rpdu = empty_charbuf;
  waiters = 0;
  out = [];
  inp = [];
  wants_read = true;
  wants_write = false;
}

abbrev junk : Memory
junk i = 99

-- The size and one byte come first, then the last byte.
abbrev first_arrival : Arrival
first_arrival = record {
  first = ready_bytes (0 ∷ 0 ∷ 0 ∷ 6 ∷ 64 ∷ []);
  second = ready_bytes (64 ∷ []);
  stale = false;
  junk = junk;
  consumes = true;
}

abbrev second_arrival : Arrival
second_arrival = record first_arrival { second = ready_bytes (65 ∷ []) }

abbrev partial : Connection
partial = record fresh {
  rpdu = record {
    buf = some (copy (copy junk 0 (0 ∷ 0 ∷ 0 ∷ 6 ∷ [])) 4 (64 ∷ []));
    sz = 6;
    solong = some 5;
  };
  inp = 0 ∷ 0 ∷ 0 ∷ 6 ∷ 64 ∷ [];
}

abbrev received : Connection
received = record fresh { inp = 0 ∷ 0 ∷ 0 ∷ 6 ∷ 64 ∷ 65 ∷ [] }

abbrev six : List ℕ
six = 0 ∷ 0 ∷ 0 ∷ 6 ∷ 64 ∷ 65 ∷ []

first_read : read_cb first_arrival fresh ≡ some (record { conn = partial; message = none })
unfolding read_cb readpdu read_size take_size read_body fill_from fill end_read after_read hand_over
    copy
first_read = refl

second_read : read_cb second_arrival partial ≡ some (record { conn = received; message = some six })
unfolding read_cb readpdu read_size take_size read_body fill_from fill end_read after_read hand_over
    copy slice
second_read = refl

six_received : Receives (six ∷ []) received
six_received =
    reads second_arrival (reads first_arrival (opened refl refl refl) first_read) second_read

receive_whole_example :
    (later : List (List ℕ)) × (map on_wire ((64 ∷ 65 ∷ []) ∷ []) ≡ (six ∷ []) ++ later)
    × ((x : List ℕ) × (received.inp ≡ concat (six ∷ []) ++ x) × (concat later ≡ x ++ []))
receive_whole_example =
    receive_whole (six ∷ []) ((64 ∷ 65 ∷ []) ∷ []) received [] (omega arith) six_received refl
