-- ===== src/Poll/Manager/Removal.antt =====
-- The guarantee of block_remove_fd: after its return no callback for the descriptor is called.
use mit6_824_2012spring_yfs.Prelude.{
  ℕ, ◌≡◌, ◌≢◌, ◌⊎◌, inl, inr, refl, sym, ◌∙◌, All, Bool, false, List, [], ◌==◌, arith, subst,
}
use mit6_824_2012spring_yfs.Poll.Select.Highest.{new_select_aio-IsTight}
use mit6_824_2012spring_yfs.Poll.Select.Sets.{new_select_aio-pipe_rd}
use mit6_824_2012spring_yfs.Poll.Manager.Watching.{
  Step-Moves, Moves-IsTight, Moves-watched, Moves-pipe,
}
use mit6_824_2012spring_yfs.Poll.Manager.System.{
  woken, dispatching, System, Event, read_call, write_call, added, quiet, NoRemover, Step, init,
  Run, add, del, remove, removed, top_wakes, top_quiet, poll, poll_again, call_read, skip_read,
  call_write, skip_write, round_done, start, later,
}
use mit6_824_2012spring_yfs.Poll.Manager.Silence.{
  IsSilent, IsOrderly, Step-IsSilent, Step-removing, Step-woken,
}

added_fd : {x y : ℕ} → added x ≡ added y → x ≡ y
added_fd e = cc

Step-added : {s t : System} {e : Event} (fd : ℕ) → Step s e t → e ≡ added fd → NoRemover s.pc fd
Step-added {s} fd (add x flag ch m p) h = subst (NoRemover s.pc) (added_fd h) m
Step-added fd (del x flag m p) h = absurd (ground (arith, h))
Step-added fd (remove j x m o p) h = absurd (ground (arith, h))
Step-added fd (removed j x p) h = absurd (ground (arith, h))
Step-added fd (top_wakes p q) h = absurd (ground (arith, h))
Step-added fd (top_quiet p q) h = absurd (ground (arith, h))
Step-added fd (poll r w p k q) h = absurd (ground (arith, h))
Step-added fd (poll_again p q) h = absurd (ground (arith, h))
Step-added fd (call_read x c p q r) h = absurd (ground (arith, h))
Step-added fd (skip_read x p q r) h = absurd (ground (arith, h))
Step-added fd (call_write x c p q r k) h = absurd (ground (arith, h))
Step-added fd (skip_write x p q r k) h = absurd (ground (arith, h))
Step-added fd (round_done p q r) h = absurd (ground (arith, h))

abbrev Idle : System → Type 0
Idle s = (s.phase ≡ dispatching) ⊎ ((s.readable ≡ []) × (s.writable ≡ []))

Step-Idle : {s t : System} {e : Event} → Step s e t → Idle s → Idle t
Step-Idle (add x flag ch m p) h = h
Step-Idle (del x flag m p) h = h
Step-Idle (remove j x m o p) h = h
Step-Idle (removed j x p) h = h
Step-Idle (top_wakes p q) h = inr (ground (arith, h, p))
Step-Idle (top_quiet p q) h = inr (ground (arith, h, p))
Step-Idle (poll r w p k q) h = inl refl
Step-Idle (poll_again p q) h = inr (ground (arith, h, p))
Step-Idle (call_read x c p q r) h = inl p
Step-Idle (skip_read x p q r) h = inl p
Step-Idle (call_write x c p q r k) h = inl p
Step-Idle (skip_write x p q r k) h = inl p
Step-Idle (round_done p q r) h = inr (q, r)

Step-IsOrderly : (p : ℕ) {s t : System} {e : Event} → Step s e t → IsOrderly p s → IsOrderly p t
Step-IsOrderly p {s} {t} {e} st v = record {
  tight = Moves-IsTight (Step-Moves st) v.tight;
  pipe = Moves-pipe (Step-Moves st) ∙ v.pipe;
  idle = Step-Idle st v.idle;
  gone = λ i fd h. elim (Step-removing i fd st h) [
    | inl r ↦ (
      Moves-watched fd (Step-Moves st) (λ a. (Step-added fd st a i).0 r) (v.gone i fd r).0,
      (v.gone i fd r).1,
    )
    | inr k ↦ (k.0, λ z. k.1 (z ∙ sym v.pipe))
  ];
  over = λ i fd h. elim (Step-woken i fd st h) [
    | inl w ↦ (
      Step-IsSilent fd st (λ a. (Step-added fd st a i).1 w) v.tight
          (λ z. (v.over i fd w).1 (z ∙ v.pipe)) (v.over i fd w).0,
      (v.over i fd w).1,
    )
    | inr (r, top) ↦
        let (l, k) : (s.readable ≡ []) × (s.writable ≡ []) = ground (arith, v.idle, top) in
        (
          Step-IsSilent fd st (λ a. (Step-added fd st a i).0 r) v.tight
              (λ z. (v.gone i fd r).1 (z ∙ v.pipe))
              (record { unwatched = (v.gone i fd r).0; unread = rw l refl; unwritten = rw k refl }),
          (v.gone i fd r).1,
        )
  ];
}

new_pipe : (p : ℕ) → (init p).mgr.aio.pipe_rd ≡ p
new_pipe p = new_select_aio-pipe_rd p

init-IsOrderly : (p : ℕ) → IsOrderly p (init p)
init-IsOrderly p = record {
  tight = new_select_aio-IsTight p;
  pipe = new_pipe p;
  idle = inr (refl, refl);
  gone = λ i fd h. absurd (ground (arith, h));
  over = λ i fd h. absurd (ground (arith, h));
}

Run-IsOrderly :
    (p : ℕ) {s : System} {es : List Event} {t : System} → Run s es t → IsOrderly p s → IsOrderly p t
Run-IsOrderly p start v = v
Run-IsOrderly p (later r st) v = Step-IsOrderly p st (Run-IsOrderly p r v)

-- Does an event call a callback for this descriptor?
abbrev pub calls : ℕ → Event → Bool
calls fd (read_call c x) = x == fd
calls fd (write_call c x) = x == fd
calls fd (added x) = false
calls fd quiet = false

Step-calls : {s t : System} {e : Event} (fd : ℕ) → Step s e t → IsSilent fd s → calls fd e ≡ false
Step-calls fd (add x flag ch m p) h = refl
Step-calls fd (del x flag m p) h = refl
Step-calls fd (remove j x m o p) h = refl
Step-calls fd (removed j x p) h = refl
Step-calls fd (top_wakes p q) h = refl
Step-calls fd (top_quiet p q) h = refl
Step-calls fd (poll r w p k q) h = refl
Step-calls fd (poll_again p q) h = refl
Step-calls fd (call_read x c p q r) h = ground (arith, h.unread, q)
Step-calls fd (skip_read x p q r) h = refl
Step-calls fd (call_write x c p q r k) h = ground (arith, h.unwritten, r)
Step-calls fd (skip_write x p q r k) h = refl
Step-calls fd (round_done p q r) h = refl

Run-IsSilent :
    (p fd : ℕ) {s : System} {es : List Event} {t : System}
    → Run s es t
    → IsOrderly p s
    → fd ≢ p
    → IsSilent fd s
    → All (λ e. e ≢ added fd) es
    → IsSilent fd t × All (λ e. calls fd e ≡ false) es
Run-IsSilent p fd start v n h a = (h, tt)
Run-IsSilent p fd (later r st) v n h (a, as') =
    let w = Run-IsOrderly p r v in
    let (k, c) = Run-IsSilent p fd r v n h as' in
    (Step-IsSilent fd st a w.tight (λ z. n (z ∙ w.pipe)) k, (Step-calls fd st k, c))

-- From the moment at which the wait of block_remove_fd in any thread is over, no callback for its
-- descriptor is called in any further run, as long as the descriptor is not added again; also none
-- that a poll before the removal has found ready. It is so in every system of threads that add,
-- delete and remove descriptors in any order, from a new PollMgr on, in which no descriptor is added
-- while its removal runs and the wait ends by the broadcast of the loop only.
pub removal_silences :
    (p : ℕ) {es : List Event} {s : System} (i fd : ℕ) {later_es : List Event} {t : System}
    → Run (init p) es s
    → s.pc i ≡ woken fd
    → Run s later_es t
    → All (λ e. e ≢ added fd) later_es
    → All (λ e. calls fd e ≡ false) later_es
removal_silences p i fd r w l a =
    let v = Run-IsOrderly p r (init-IsOrderly p) in
    let (h, n) = v.over i fd w in (Run-IsSilent p fd l v n h a).1
