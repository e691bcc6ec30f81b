-- ===== src/Poll/Manager/Watching.antt =====
-- What the steps do to the sets of SelectAIO.
use mit6_824_2012spring_yfs.Prelude.{
  ℕ, ◌≡◌, ◌≢◌, refl, sym, ap, ◌∙◌, Bool, false, some, arith, subst, bind-some,
}
use mit6_824_2012spring_yfs.Poll.Flags.{PollFlag, cb_rdwr}
use mit6_824_2012spring_yfs.Poll.Select.{SelectAio, selected, watch_fd, unwatch_fd, watched}
use mit6_824_2012spring_yfs.Poll.Select.Sets.{watch_other, watch_fd-pipe_rd, unwatch_less}
use mit6_824_2012spring_yfs.Poll.Select.Highest.{IsTight, watch_fd-IsTight, unwatch_fd-IsTight}
use mit6_824_2012spring_yfs.Poll.Select.Ready.{wait_ready_keeps}
use mit6_824_2012spring_yfs.Poll.Manager.{
  PollMgr, add_callback, del_callback, begin_remove, end_remove, loop_top,
}
use mit6_824_2012spring_yfs.Poll.Manager.System.{
  System, Event, added, Step, add, del, remove, removed, top_wakes, top_quiet, poll, poll_again,
  call_read, skip_read, call_write, skip_write, round_done,
}

-- What one step may do to the sets: nothing, watch one more descriptor, watch one less, or read the
-- pipe.
pub data Moves (a : SelectAio) : Event → SelectAio → Type 0 where
  same : {e : Event} → Moves a e a
  more : (fd : ℕ) (flag : PollFlag) → Moves a (added fd) (watch_fd fd flag a)
  less :
      {e : Event} (fd : ℕ) (flag : PollFlag) (u : Bool) {b : SelectAio}
      → fd ≢ a.pipe_rd
      → unwatch_fd fd flag a ≡ some (u, b)
      → Moves a e b
  drained : {e : Event} {b : SelectAio} (n : ℕ) → b ≡ record a { wakeups = n } → Moves a e b

add_callback-aio :
    (fd : ℕ) (flag : PollFlag) (ch : ℕ) (m n : PollMgr)
    → add_callback fd flag ch m ≡ some n
    → n.aio ≡ watch_fd fd flag m.aio
unfolding add_callback
add_callback-aio fd flag ch m n e = ground (arith, e)

del_callback-aio :
    (fd : ℕ) (flag : PollFlag) (m n : PollMgr)
    → del_callback fd flag m ≡ some n
    → (u : Bool) × (unwatch_fd fd flag m.aio ≡ some (u, n.aio))
unfolding del_callback
del_callback-aio fd flag m n e =
    let ((u, a), p, q) = bind-some (unwatch_fd fd flag m.aio) _ n e in
    (u, p ∙ ap (λ (x : SelectAio). some (u, x)) (ground (arith, q)))

pub begin_remove-aio :
    (fd : ℕ) (m n : PollMgr)
    → begin_remove fd m ≡ some n
    → (u : Bool) × (unwatch_fd fd cb_rdwr m.aio ≡ some (u, n.aio))
unfolding begin_remove
begin_remove-aio fd m n e =
    let ((u, a), p, q) = bind-some (unwatch_fd fd cb_rdwr m.aio) _ n e in
    (u, p ∙ ap (λ (x : SelectAio). some (u, x)) (ground (arith, q)))

pub Step-Moves : {s t : System} {e : Event} → Step s e t → Moves s.mgr.aio e t.mgr.aio
unfolding end_remove loop_top
Step-Moves {s} (add fd flag ch {m} n p) =
    subst (Moves s.mgr.aio (added fd)) (sym (add_callback-aio fd flag ch s.mgr m p)) (more fd flag)
Step-Moves {s} (del fd flag {m} n p) =
    let (u, q) = del_callback-aio fd flag s.mgr m p in less fd flag u n q
Step-Moves {s} (remove i fd {m} n o p) =
    let (u, q) = begin_remove-aio fd s.mgr m p in less fd cb_rdwr u n q
Step-Moves (removed i fd p) = same
Step-Moves (top_wakes p q) = same
Step-Moves (top_quiet p q) = same
Step-Moves {s} (poll r w {f} p k q) =
    drained f.aio.wakeups (wait_ready_keeps (selected r w) s.mgr.aio f q)
Step-Moves (poll_again p q) = same
Step-Moves (call_read fd c p q r) = same
Step-Moves (skip_read fd p q r) = same
Step-Moves (call_write fd c p q r k) = same
Step-Moves (skip_write fd p q r k) = same
Step-Moves (round_done p q r) = same

pub Moves-IsTight : {a b : SelectAio} {e : Event} → Moves a e b → IsTight a → IsTight b
Moves-IsTight same v = v
Moves-IsTight (more fd flag) v = watch_fd-IsTight fd flag _ v
Moves-IsTight {a} {b} (less fd flag u n p) v = unwatch_fd-IsTight fd flag a b u n v p
Moves-IsTight (drained n p) v =
    subst IsTight (sym p) (record { pipe = v.pipe; top = v.top; bound = v.bound })

-- A descriptor that is not watched stays so until it is added.
pub Moves-watched :
    (i : ℕ) {a b : SelectAio} {e : Event}
    → Moves a e b
    → e ≢ added i
    → watched a i ≡ false
    → watched b i ≡ false
Moves-watched i same n h = h
Moves-watched i {a} (more fd flag) n h = watch_other fd i flag a (λ p. n (ap added p)) ∙ h
Moves-watched i {a} {b} (less fd flag u k p) n h = (unwatch_less fd i flag a b u p).0 h
Moves-watched i (drained k p) n h = ground (arith, p, h)

pub Moves-pipe : {a b : SelectAio} {e : Event} → Moves a e b → b.pipe_rd ≡ a.pipe_rd
Moves-pipe same = refl
Moves-pipe {a} (more fd flag) = watch_fd-pipe_rd fd flag a
Moves-pipe {a} {b} (less fd flag u k p) = (unwatch_less fd 0 flag a b u p).1
Moves-pipe (drained k p) = ground (arith, p)
