-- ===== src/Client/Channel/Examples.antt =====
-- get_refconn at a concrete input.
use mit6_824_2012spring_yfs.Prelude.{ℕ, ◌≡◌, refl, Option, some, ◌==◌, if◌then◌else◌, arith}
use mit6_824_2012spring_yfs.Client.Channel.{Channel, get_refconn, Balanced, get_refconn_balances}

-- Connection 3 is the channel of the client and of two calls, and has died.
abbrev lost : Channel
lost = record { chan = some 3; refs = λ i. if i == 3 then 3 else 0 }

abbrev others : ℕ → ℕ
others i = if i == 3 then 1 else 0

get_refconn_balances_example :
    (ch' : Option ℕ) × (t : Channel) × (get_refconn (λ i. i == 3) (some 4) (some 3) lost
      ≡ some (ch', t))
    × Balanced others ch' t
    × (t.chan ≡ some 4)
    × (ch' ≡ some 4)
get_refconn_balances_example =
    get_refconn_balances (λ i. i == 3) (some 4) (some 3) lost others refl (λ c. ground arith)
