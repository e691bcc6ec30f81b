-- ===== src/Server/Window/Overtaken.antt =====
-- A request that a later one overtakes on an empty window is forgotten before it was ever seen.
use mit6_824_2012spring_yfs.Prelude.{ℕ, ◌≤◌, ◌<◌, ◌≡◌, refl, [], ◌∷◌, arith, ==_iff}
use mit6_824_2012spring_yfs.Server.Window.{
  forgotten, new, Window, scan, replies, checkduplicate_and_update, insert_reply, new_reply,
}
use mit6_824_2012spring_yfs.Server.Window.AtMostOnce.{
  request, step, replies-request, executions, executes,
}

after_overtaking :
    (c y rep' : ℕ) (w : Window)
    → replies c w ≡ []
    → replies c (step (request c y rep') w) ≡ new_reply y ∷ []
after_overtaking c y rep' w e =
    rw (replies-request c c y rep' w, (==_iff c c).1 refl, e) (unfold scan insert_reply in refl)

overtaken_verdict :
    (c x y rep : ℕ) (w : Window)
    → replies c w ≡ new_reply y ∷ []
    → x < y
    → rep ≤ x
    → (checkduplicate_and_update c x rep w).0.stat ≡ forgotten
unfolding checkduplicate_and_update scan
overtaken_verdict c x y rep w e h p = rw e (ground arith)

first_verdict :
    (c y rep' : ℕ) (w : Window)
    → replies c w ≡ []
    → (checkduplicate_and_update c y rep' w).0.stat ≡ new
unfolding checkduplicate_and_update scan
first_verdict c y rep' w e = rw e refl

-- Two requests of a client whose window is empty arrive in the wrong order: the one with the larger
-- xid `y` is new, and the one with the smaller xid `x`, which no request has carried before, is
-- then answered `forgotten` and not executed. The condition is that the second request acknowledges
-- no reply beyond its own xid.
pub overtaken_forgotten :
    (c x y rep rep' : ℕ) (w : Window)
    → replies c w ≡ []
    → x < y
    → rep ≤ x
    → ((checkduplicate_and_update c y rep' w).0.stat ≡ new)
      × ((checkduplicate_and_update c x rep (step (request c y rep') w)).0.stat ≡ forgotten)
      × (executions c x (request c y rep' ∷ request c x rep ∷ []) w ≡ 0)
unfolding executions executes
overtaken_forgotten c x y rep rep' w e h p =
    let v = overtaken_verdict c x y rep _ (after_overtaking c y rep' w e) h p in
    (first_verdict c y rep' w e, v, ground (arith, v))
