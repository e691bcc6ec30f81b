-- ===== src/Server/Window/Recorded.antt =====
-- The reply to a request that was new is found in the window after add_reply.
use mit6_824_2012spring_yfs.Prelude.{
  ℕ, ◌≡◌, ◌∙◌, refl, true, Option, none, some, List, [], ◌∷◌, arith, ==_iff,
}
use mit6_824_2012spring_yfs.Server.Window.{
  Window, Reply, new_reply, new, scan, finish, insert_reply, set_reply, checkduplicate_and_update,
  add_reply, replies,
}
use mit6_824_2012spring_yfs.Server.Window.Spec.{
  live, lookup_reply, judge, judge_request, scan-judge_request,
}
use mit6_824_2012spring_yfs.Server.Window.Order.{after}
use mit6_824_2012spring_yfs.Server.Window.AtMostOnce.{Ordered, step, replies-request, replies-reply}

lookup-insert_self :
    (x : ℕ) (ws : List Reply)
    → lookup_reply x ws ≡ none
    → lookup_reply x (insert_reply (new_reply x) ws) ≡ some (new_reply x)
unfolding lookup_reply insert_reply
lookup-insert_self x [] h = ground arith
lookup-insert_self x (r ∷ rs) h = ground (arith, h, lookup-insert_self x rs)

lookup-set_self :
    (x b n : ℕ) (r : Reply) (ws : List Reply)
    → lookup_reply x ws ≡ some r
    → lookup_reply x (set_reply x b n ws) ≡ some (record r { buf = b; sz = n; cb_present = true })
unfolding lookup_reply set_reply
lookup-set_self x b n r [] h = cc
lookup-set_self x b n r (q ∷ qs) h = ground (arith, h, lookup-set_self x b n r qs)

request-replies :
    (c x rep : ℕ) (w : Window)
    → replies c (checkduplicate_and_update c x rep w).1 ≡ after x (scan x rep [] (replies c w) [])
unfolding step
request-replies c x rep w = replies-request c c x rep w ∙ rw ((==_iff c c).1 refl) refl

reply-replies :
    (c x b n : ℕ) (w : Window) → replies c (add_reply c x b n w) ≡ set_reply x b n (replies c w)
unfolding step
reply-replies c x b n w = replies-reply c c x b n w ∙ rw ((==_iff c c).1 refl) refl

-- A request that is new is in the window afterwards, without a reply.
judge_new :
    (x rep : ℕ) (ws : List Reply) (o : Option Reply)
    → lookup_reply x ws ≡ o
    → (clt : ℕ) (w : Window) (fs : List ℕ) → (finish clt x w (judge x ws fs o)).0.stat ≡ new
    → lookup_reply x (after x (judge x ws fs o)) ≡ some (new_reply x)
judge_new x rep ws (some r) h clt w fs e = ground (arith, e)
judge_new x rep [] none h clt w fs e = lookup-insert_self x [] h
judge_new x rep (r ∷ rs) none h clt w fs e = ground (arith, e, lookup-insert_self x (r ∷ rs) h)

new_pending :
    (clt x rep : ℕ) (w : Window)
    → Ordered w
    → (checkduplicate_and_update clt x rep w).0.stat ≡ new
    → lookup_reply x (replies clt (checkduplicate_and_update clt x rep w).1) ≡ some (new_reply x)
unfolding checkduplicate_and_update judge_request
new_pending clt x rep w o e =
    let j = scan-judge_request x rep 0 (replies clt w) (o clt) in
    rw (request-replies clt x rep w, j)
      (judge_new x rep (live rep (replies clt w)) _ refl clt w _ (rw j at e))

pub new_recorded :
    (clt x rep b n : ℕ) (w : Window)
    → Ordered w
    → (checkduplicate_and_update clt x rep w).0.stat ≡ new
    → lookup_reply x (replies clt (add_reply clt x b n (checkduplicate_and_update clt x rep w).1))
      ≡ some (record { xid = x; buf = b; sz = n; cb_present = true })
new_recorded clt x rep b n w o e =
    rw (reply-replies clt x b n (checkduplicate_and_update clt x rep w).1)
      (lookup-set_self x b n (new_reply x) _ (new_pending clt x rep w o e))
