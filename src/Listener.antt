-- ===== src/Listener.antt =====
-- Class tcpsconn (rpc/connection.cc lines 343-419) and the life of the connections
-- that it makes (lines 19-106).
--
-- A connection is the number of its address; `objects` are the connections that are not deleted, and
-- `is_open` the descriptors that are open. conns_ is the map from descriptors to addresses. What
-- accept() gives is a parameter, and so is the address that `new` finds. `none` is a failed
-- assertion, a use of a deleted connection, or a use of an iterator that has become invalid. The
-- buffers of a connection are left out, and of closeconn what it asks of PollMgr.
pub mod System
pub mod Entries
pub mod Ordered
pub mod Ends
mod Examples
use mit6_824_2012spring_yfs.Prelude.{
  ℕ, ◌+◌, ◌-◌, Bool, true, false, ◌&&◌, Option, none, some, List, [], ◌∷◌, ◌==◌, if◌then◌else◌,
  ◌>>=◌, Map, insert,
}

pub record Conn : Type 0 where
  pub fd : ℕ
  pub dead : Bool
  pub refno : ℕ

pub record World : Type 0 where
  pub objects : ℕ → Option Conn
  pub is_open : ℕ → Bool

abbrev pub put_object : ℕ → Option Conn → World → World
put_object a x w = record w { objects = λ i. if i == a then x else w.objects i }

abbrev pub put_is_open : ℕ → Bool → World → World
put_is_open k x w = record w { is_open = λ i. if i == k then x else w.is_open i }

-- The constructor, on the descriptor `k`.
abbrev pub new_conn : ℕ → Conn
new_conn k = record { fd = k; dead = false; refno = 1 }

-- `delete this`, whose destructor closes the descriptor.
abbrev pub delete_conn : ℕ → Conn → World → World
delete_conn a c w = put_is_open c.fd false (put_object a none w)

abbrev pub decref_conn : ℕ → Conn → World → Option World
decref_conn a c w =
    if c.refno == 0
    then none
    else if c.refno == 1 && c.dead
    then some (delete_conn a c w)
    else some (put_object a (some (record c { refno = c.refno - 1 })) w)

unfoldable pub decref : ℕ → World → Option World
decref a w = w.objects a >>= λ c. decref_conn a c w

unfoldable pub incref : ℕ → World → Option World
incref a w = w.objects a >>= λ c. some (put_object a (some (record c { refno = c.refno + 1 })) w)

abbrev pub close_conn : ℕ → Conn → World → World
close_conn a c w = if c.dead then w else put_object a (some (record c { dead = true })) w

unfoldable pub closeconn : ℕ → World → Option World
closeconn a w = w.objects a >>= λ c. some (close_conn a c w)

-- isdead() && ref() == 1
abbrev pub is_garbage : Conn → Bool
is_garbage c = c.dead && c.refno == 1

-- The loop that looks for garbage. After erase(i) its i++ is not defined.
unfoldable pub collect_garbage : Map ℕ → World → Option World
collect_garbage [] w = some w
collect_garbage ((k, a) ∷ l) w =
    let rest = collect_garbage l w in w.objects a >>= λ c. if is_garbage c then none else rest

pub record Tcpsconn : Type 0 where
  pub conns : Map ℕ
  pub world : World

unfoldable pub new_tcpsconn : Tcpsconn
new_tcpsconn = record { conns = []; world = record { objects = λ _. none; is_open = λ _. false } }

-- accept() has given the descriptor `k`, and the new connection is at `a`.
unfoldable pub process_accept : ℕ → ℕ → Tcpsconn → Option Tcpsconn
process_accept k a s =
    collect_garbage s.conns (put_is_open k true (put_object a (some (new_conn k)) s.world)) >>= λ w.
    some (record { conns = insert k a s.conns; world = w })

-- What select() answers to accept_conn: an interruption, a failure, or which of the pipe and the
-- socket can be read.
pub data Waited : Type 0 where
  interrupted : Waited
  failed : Waited
  ready : (pipe tcp : Bool) → Waited

-- Where accept() fails, the thread ends.
unfoldable pub after_accept : Option ℕ → ℕ → Tcpsconn → Option (Bool × Tcpsconn)
after_accept none a s = some (false, s)
after_accept (some k) a s = process_accept k a s >>= λ t. some (true, t)

-- A round of the loop of accept_conn; the flag says whether the loop goes on.
unfoldable pub accept_round : Waited → Option ℕ → ℕ → Tcpsconn → Option (Bool × Tcpsconn)
accept_round interrupted k a s = some (true, s)
accept_round failed k a s = none
accept_round (ready pipe tcp) k a s =
    if pipe then some (false, s) else if tcp then after_accept k a s else none

-- The loop of the destructor.
unfoldable pub close_all : Map ℕ → World → Option World
close_all [] w = some w
close_all ((k, a) ∷ l) w = closeconn a w >>= λ v. decref a v >>= λ u. close_all l u

-- The destructor, after the accept thread has been stopped through the pipe and joined.
unfoldable pub end_tcpsconn : Tcpsconn → Option World
end_tcpsconn s = close_all s.conns s.world
