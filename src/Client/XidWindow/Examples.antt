-- ===== src/Client/XidWindow/Examples.antt =====
-- Runs of update_xid_rep, and its theorems at concrete inputs.
use mit6_824_2012spring_yfs.Prelude.{ℕ, ◌≡◌, refl, ◌||◌, List, [], ◌∷◌, ◌==◌, arith}
use mit6_824_2012spring_yfs.Client.XidWindow.{
  update_xid_rep, insert_xid, compress, compress_loop, pop_while,
}
use mit6_824_2012spring_yfs.Client.XidWindow.Sets.{received}
use mit6_824_2012spring_yfs.Client.XidWindow.Update.{
  IsWindow, received-update_xid_rep, update_xid_rep-IsWindow,
}

-- Replies 2, 3, 3 and 1 arrive in this order.
out_of_order :
    update_xid_rep 1 (update_xid_rep 3 (update_xid_rep 3 (update_xid_rep 2 (0 ∷ [])))) ≡ 3 ∷ 3 ∷ []
unfolding update_xid_rep insert_xid compress compress_loop pop_while
out_of_order = refl

abbrev gap : List ℕ
gap = 0 ∷ 2 ∷ 3 ∷ 3 ∷ []

gap-IsWindow : IsWindow gap
gap-IsWindow = record {
  not_empty = λ e. cc;
  order = omega arith;
  fits = omega arith;
  maximal = refl;
}

received-update_xid_rep_example : received 3 (update_xid_rep 1 gap) ≡ (3 == 1) || received 3 gap
received-update_xid_rep_example = received-update_xid_rep 1 3 gap gap-IsWindow (omega arith)

update_xid_rep-IsWindow_example : IsWindow (update_xid_rep 1 gap)
update_xid_rep-IsWindow_example = update_xid_rep-IsWindow 1 gap gap-IsWindow (omega arith)
