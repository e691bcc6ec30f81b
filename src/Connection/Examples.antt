-- ===== src/Connection/Examples.antt =====
-- A message of six bytes that goes out in two pieces.
use mit6_824_2012spring_yfs.Prelude.{
  ℕ, ◌+◌, ◌≡◌, ◌⊎◌, refl, true, false, none, some, [], ◌∷◌, ◌++◌, take, Memory, copy, slice, arith,
}
use mit6_824_2012spring_yfs.Connection.{
  Connection, wrote, send, take_turn, writepdu, write_from, after_write, wait_out, finish, write_cb,
}
use mit6_824_2012spring_yfs.Connection.Whole.{message}
use mit6_824_2012spring_yfs.Connection.Run.{Sends, waited, stay, ready, send_whole}

abbrev fresh : Connection
fresh = record {
  dead = false;
  wpdu = record { buf = none; sz = 0; solong = some 0 };
  rpdu = record { buf = none; sz = 0; solong = some 0 };
  waiters = 0;
  out = [];
  inp = [];
  wants_read = true;
  wants_write = false;
}

abbrev body : Memory
body i = i + 60

abbrev framed : Memory
framed = copy body 0 (0 ∷ 0 ∷ 0 ∷ 6 ∷ [])

abbrev half : Connection
half = record fresh {
  wpdu = record { buf = some framed; sz = 6; solong = some 4 };
  out = 0 ∷ 0 ∷ 0 ∷ 6 ∷ [];
  wants_write = true;
}

abbrev full : Connection
full = record half {
  wpdu = record { buf = some framed; sz = 6; solong = some 6 };
  out = 0 ∷ 0 ∷ 0 ∷ 6 ∷ 64 ∷ 65 ∷ [];
}

abbrev idle : Connection
idle = record full { wpdu = record { buf = none; sz = 0; solong = some 0 } }

two_pieces : Sends body 6 fresh true idle
unfolding send take_turn writepdu write_from after_write wait_out finish write_cb copy slice
two_pieces =
    waited (wrote 4) true false {d = half} {e = full} (omega arith) refl
      (ready (wrote 2) true {e = full} stay (omega arith) refl) refl

send_whole_example :
    ((true ≡ false) ⊎ (idle.out ≡ fresh.out ++ message 6 (64 ∷ 65 ∷ [])))
    × ((k : ℕ) × (idle.out ≡ fresh.out ++ take k (message 6 (64 ∷ 65 ∷ []))))
send_whole_example =
    send_whole 6 (64 ∷ 65 ∷ []) body fresh true idle (omega arith) (omega arith) refl refl
      two_pieces
