-- ===== src/Listener/Examples.antt =====
-- A server that has accepted two connections, one of which is dead.
use mit6_824_2012spring_yfs.Prelude.{ℕ, ◌≡◌, refl, true, false, none, some, [], ◌∷◌, insert}
use mit6_824_2012spring_yfs.Listener.{
  World, put_object, put_is_open, new_conn, decref, closeconn, incref, Tcpsconn, new_tcpsconn,
  process_accept, accept_round, after_accept, ready, collect_garbage, end_tcpsconn, close_all,
}
use mit6_824_2012spring_yfs.Listener.System.{Run, start, later, waits, takes, dies, more}
use mit6_824_2012spring_yfs.Listener.Ends.{left, listener_ends, accept_with_garbage}

abbrev nobody : ℕ → ℕ
nobody i = 0

abbrev empty : World
empty = record { objects = λ i. none; is_open = λ i. false }

abbrev with_one : Tcpsconn
with_one = record {
  conns = (7, 100) ∷ [];
  world = put_is_open 7 true (put_object 100 (some (new_conn 7)) empty);
}

abbrev with_two : Tcpsconn
with_two = record {
  conns = (7, 100) ∷ (8, 200) ∷ [];
  world = put_is_open 8 true (put_object 200 (some (new_conn 8)) with_one.world);
}

-- A thread has taken a reference to the second.
abbrev taken : Tcpsconn
taken = record with_two {
  world = put_object 200 (some (record { fd = 8; dead = false; refno = 2 })) with_two.world;
}

-- The first is dead.
abbrev one_dead : Tcpsconn
one_dead = record taken {
  world = put_object 100 (some (record { fd = 7; dead = true; refno = 1 })) taken.world;
}

served : Run new_tcpsconn nobody one_dead (more 200 nobody)
unfolding accept_round after_accept process_accept new_tcpsconn collect_garbage insert incref
    closeconn
served =
    later
      (later
        (later (later start (waits (ready false true) (some 7) 100 true refl refl refl))
          (waits (ready false true) (some 8) 200 true refl refl refl))
        (takes 200 refl))
      (dies 100 refl)

listener_ends_example :
    (u : World) × (end_tcpsconn one_dead ≡ some u)
    × ((a : ℕ) → u.objects a ≡ left (more 200 nobody a) (one_dead.world.objects a))
listener_ends_example = listener_ends served

-- After it the first is deleted and the second is left, dead, with one reference.
ended :
    (u : World) × (end_tcpsconn one_dead ≡ some u)
    × (u.objects 100 ≡ none)
    × (u.objects 200 ≡ some (record { fd = 8; dead = true; refno = 1 }))
unfolding end_tcpsconn close_all closeconn decref
ended = (_, refl, refl, refl)

accept_with_garbage_example : process_accept 9 300 one_dead ≡ none
accept_with_garbage_example =
    accept_with_garbage 9 300 100 (record { fd = 7; dead = true; refno = 1 }) served refl refl refl
      refl
