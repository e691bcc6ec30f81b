-- ===== src/Call/Stubs/Pairs.antt =====
-- A call with several arguments is a call with their pair.
use mit6_824_2012spring_yfs.Prelude.{ℕ, ◌≡◌, ◌∙◌, Option, ◌>>=◌, Memory, bind_assoc, bind_ext}
use mit6_824_2012spring_yfs.Marshal.Out.{Marshall, new_marshall}
use mit6_824_2012spring_yfs.Marshal.Codec.{Codec, pair_codec, put_pair}
use mit6_824_2012spring_yfs.Call.Stubs.{
  Call1, call_m, call_1, call_2, call_3, call_4, call_5, call_6, call_7,
}

-- The marshalling of several arguments, one after the other, is that of their pair.

put_2-pair :
    {A₁ A₂ C : Type 0} (c₁ : Codec A₁) (c₂ : Codec A₂) (a₁ : A₁) (a₂ : A₂) (m : Marshall)
    (k : Marshall → Option C)
    → ((pair_codec c₁ c₂).put (a₁, a₂) m >>= k)
      ≡ (c₁.put a₁ m >>= λ (m₁ : Marshall). c₂.put a₂ m₁ >>= λ (m₂ : Marshall). k m₂)
unfolding put_pair
put_2-pair c₁ c₂ a₁ a₂ m k = bind_assoc (c₁.put a₁ m) (c₂.put a₂) k

put_3-pair :
    {A₁ A₂ A₃ C : Type 0} (c₁ : Codec A₁) (c₂ : Codec A₂) (c₃ : Codec A₃) (a₁ : A₁) (a₂ : A₂)
    (a₃ : A₃) (m : Marshall) (k : Marshall → Option C)
    → ((pair_codec c₁ (pair_codec c₂ c₃)).put (a₁, (a₂, a₃)) m >>= k) ≡ (
        c₁.put a₁ m >>= λ (m₁ : Marshall).
        c₂.put a₂ m₁ >>= λ (m₂ : Marshall). c₃.put a₃ m₂ >>= λ (m₃ : Marshall). k m₃)
unfolding put_pair
put_3-pair c₁ c₂ c₃ a₁ a₂ a₃ m k =
    bind_assoc (c₁.put a₁ m) ((pair_codec c₂ c₃).put (a₂, a₃)) k
    ∙ bind_ext (c₁.put a₁ m) _ _ (λ m₁. put_2-pair c₂ c₃ a₂ a₃ m₁ k)

put_4-pair :
    {A₁ A₂ A₃ A₄ C : Type 0} (c₁ : Codec A₁) (c₂ : Codec A₂) (c₃ : Codec A₃) (c₄ : Codec A₄)
    (a₁ : A₁) (a₂ : A₂) (a₃ : A₃) (a₄ : A₄) (m : Marshall) (k : Marshall → Option C)
    → ((pair_codec c₁ (pair_codec c₂ (pair_codec c₃ c₄))).put (a₁, (a₂, (a₃, a₄))) m >>= k) ≡ (
        c₁.put a₁ m >>= λ (m₁ : Marshall). c₂.put a₂ m₁ >>= λ (m₂ : Marshall).
        c₃.put a₃ m₂ >>= λ (m₃ : Marshall). c₄.put a₄ m₃ >>= λ (m₄ : Marshall). k m₄)
unfolding put_pair
put_4-pair c₁ c₂ c₃ c₄ a₁ a₂ a₃ a₄ m k =
    bind_assoc (c₁.put a₁ m) ((pair_codec c₂ (pair_codec c₃ c₄)).put (a₂, (a₃, a₄))) k
    ∙ bind_ext (c₁.put a₁ m) _ _ (λ m₁. put_3-pair c₂ c₃ c₄ a₂ a₃ a₄ m₁ k)

put_5-pair :
    {A₁ A₂ A₃ A₄ A₅ C : Type 0} (c₁ : Codec A₁) (c₂ : Codec A₂) (c₃ : Codec A₃) (c₄ : Codec A₄)
    (c₅ : Codec A₅) (a₁ : A₁) (a₂ : A₂) (a₃ : A₃) (a₄ : A₄) (a₅ : A₅) (m : Marshall)
    (k : Marshall → Option C)
    → ((pair_codec c₁ (pair_codec c₂ (pair_codec c₃ (pair_codec c₄ c₅)))).put
          (a₁, (a₂, (a₃, (a₄, a₅))))
          m
        >>= k)
      ≡ (c₁.put a₁ m >>= λ (m₁ : Marshall). c₂.put a₂ m₁ >>= λ (m₂ : Marshall).
          c₃.put a₃ m₂ >>= λ (m₃ : Marshall).
          c₄.put a₄ m₃ >>= λ (m₄ : Marshall). c₅.put a₅ m₄ >>= λ (m₅ : Marshall). k m₅)
unfolding put_pair
put_5-pair c₁ c₂ c₃ c₄ c₅ a₁ a₂ a₃ a₄ a₅ m k =
    bind_assoc (c₁.put a₁ m)
      ((pair_codec c₂ (pair_codec c₃ (pair_codec c₄ c₅))).put (a₂, (a₃, (a₄, a₅)))) k
    ∙ bind_ext (c₁.put a₁ m) _ _ (λ m₁. put_4-pair c₂ c₃ c₄ c₅ a₂ a₃ a₄ a₅ m₁ k)

put_6-pair :
    {A₁ A₂ A₃ A₄ A₅ A₆ C : Type 0} (c₁ : Codec A₁) (c₂ : Codec A₂) (c₃ : Codec A₃) (c₄ : Codec A₄)
    (c₅ : Codec A₅) (c₆ : Codec A₆) (a₁ : A₁) (a₂ : A₂) (a₃ : A₃) (a₄ : A₄) (a₅ : A₅) (a₆ : A₆)
    (m : Marshall) (k : Marshall → Option C)
    → ((pair_codec c₁ (pair_codec c₂ (pair_codec c₃ (pair_codec c₄ (pair_codec c₅ c₆))))).put
          (a₁, (a₂, (a₃, (a₄, (a₅, a₆)))))
          m
        >>= k)
      ≡ (c₁.put a₁ m >>= λ (m₁ : Marshall). c₂.put a₂ m₁ >>= λ (m₂ : Marshall).
          c₃.put a₃ m₂ >>= λ (m₃ : Marshall). c₄.put a₄ m₃ >>= λ (m₄ : Marshall).
          c₅.put a₅ m₄ >>= λ (m₅ : Marshall). c₆.put a₆ m₅ >>= λ (m₆ : Marshall). k m₆)
unfolding put_pair
put_6-pair c₁ c₂ c₃ c₄ c₅ c₆ a₁ a₂ a₃ a₄ a₅ a₆ m k =
    bind_assoc (c₁.put a₁ m)
      ((pair_codec c₂ (pair_codec c₃ (pair_codec c₄ (pair_codec c₅ c₆)))).put
        (a₂, (a₃, (a₄, (a₅, a₆)))))
      k
    ∙ bind_ext (c₁.put a₁ m) _ _ (λ m₁. put_5-pair c₂ c₃ c₄ c₅ c₆ a₂ a₃ a₄ a₅ a₆ m₁ k)

put_7-pair :
    {A₁ A₂ A₃ A₄ A₅ A₆ A₇ C : Type 0} (c₁ : Codec A₁) (c₂ : Codec A₂) (c₃ : Codec A₃)
    (c₄ : Codec A₄) (c₅ : Codec A₅) (c₆ : Codec A₆) (c₇ : Codec A₇) (a₁ : A₁) (a₂ : A₂) (a₃ : A₃)
    (a₄ : A₄) (a₅ : A₅) (a₆ : A₆) (a₇ : A₇) (m : Marshall) (k : Marshall → Option C)
    → ((pair_codec c₁
            (pair_codec c₂ (pair_codec c₃ (pair_codec c₄ (pair_codec c₅ (pair_codec c₆ c₇)))))).put
          (a₁, (a₂, (a₃, (a₄, (a₅, (a₆, a₇))))))
          m
        >>= k)
      ≡ (c₁.put a₁ m >>= λ (m₁ : Marshall). c₂.put a₂ m₁ >>= λ (m₂ : Marshall).
          c₃.put a₃ m₂ >>= λ (m₃ : Marshall). c₄.put a₄ m₃ >>= λ (m₄ : Marshall).
          c₅.put a₅ m₄ >>= λ (m₅ : Marshall).
          c₆.put a₆ m₅ >>= λ (m₆ : Marshall). c₇.put a₇ m₆ >>= λ (m₇ : Marshall). k m₇)
unfolding put_pair
put_7-pair c₁ c₂ c₃ c₄ c₅ c₆ c₇ a₁ a₂ a₃ a₄ a₅ a₆ a₇ m k =
    bind_assoc (c₁.put a₁ m)
      ((pair_codec c₂ (pair_codec c₃ (pair_codec c₄ (pair_codec c₅ (pair_codec c₆ c₇))))).put
        (a₂, (a₃, (a₄, (a₅, (a₆, a₇))))))
      k
    ∙ bind_ext (c₁.put a₁ m) _ _ (λ m₁. put_6-pair c₂ c₃ c₄ c₅ c₆ c₇ a₂ a₃ a₄ a₅ a₆ a₇ m₁ k)

-- A call with 2 arguments is a call with their pair.
pub call_2-pair :
    {R A₁ A₂ : Type 0} (d : Codec R) (call1 : Call1) (proc : ℕ) (c₁ : Codec A₁) (c₂ : Codec A₂)
    (a₁ : A₁) (a₂ : A₂) (junk : Memory)
    → call_1 d call1 proc (pair_codec c₁ c₂) (a₁, a₂) junk ≡ call_2 d call1 proc c₁ c₂ a₁ a₂ junk
unfolding call_1 call_2
call_2-pair d call1 proc c₁ c₂ a₁ a₂ junk =
    put_2-pair c₁ c₂ a₁ a₂ (new_marshall junk) (call_m d call1 proc)

-- A call with 3 arguments is a call with their pair.
pub call_3-pair :
    {R A₁ A₂ A₃ : Type 0} (d : Codec R) (call1 : Call1) (proc : ℕ) (c₁ : Codec A₁) (c₂ : Codec A₂)
    (c₃ : Codec A₃) (a₁ : A₁) (a₂ : A₂) (a₃ : A₃) (junk : Memory)
    → call_1 d call1 proc (pair_codec c₁ (pair_codec c₂ c₃)) (a₁, (a₂, a₃)) junk
      ≡ call_3 d call1 proc c₁ c₂ c₃ a₁ a₂ a₃ junk
unfolding call_1 call_3
call_3-pair d call1 proc c₁ c₂ c₃ a₁ a₂ a₃ junk =
    put_3-pair c₁ c₂ c₃ a₁ a₂ a₃ (new_marshall junk) (call_m d call1 proc)

-- A call with 4 arguments is a call with their pair.
pub call_4-pair :
    {R A₁ A₂ A₃ A₄ : Type 0} (d : Codec R) (call1 : Call1) (proc : ℕ) (c₁ : Codec A₁)
    (c₂ : Codec A₂) (c₃ : Codec A₃) (c₄ : Codec A₄) (a₁ : A₁) (a₂ : A₂) (a₃ : A₃) (a₄ : A₄)
    (junk : Memory)
    → call_1 d call1 proc
        (pair_codec c₁ (pair_codec c₂ (pair_codec c₃ c₄)))
        (a₁, (a₂, (a₃, a₄)))
        junk
      ≡ call_4 d call1 proc c₁ c₂ c₃ c₄ a₁ a₂ a₃ a₄ junk
unfolding call_1 call_4
call_4-pair d call1 proc c₁ c₂ c₃ c₄ a₁ a₂ a₃ a₄ junk =
    put_4-pair c₁ c₂ c₃ c₄ a₁ a₂ a₃ a₄ (new_marshall junk) (call_m d call1 proc)

-- A call with 5 arguments is a call with their pair.
pub call_5-pair :
    {R A₁ A₂ A₃ A₄ A₅ : Type 0} (d : Codec R) (call1 : Call1) (proc : ℕ) (c₁ : Codec A₁)
    (c₂ : Codec A₂) (c₃ : Codec A₃) (c₄ : Codec A₄) (c₅ : Codec A₅) (a₁ : A₁) (a₂ : A₂) (a₃ : A₃)
    (a₄ : A₄) (a₅ : A₅) (junk : Memory)
    → call_1 d call1 proc
        (pair_codec c₁ (pair_codec c₂ (pair_codec c₃ (pair_codec c₄ c₅))))
        (a₁, (a₂, (a₃, (a₄, a₅))))
        junk
      ≡ call_5 d call1 proc c₁ c₂ c₃ c₄ c₅ a₁ a₂ a₃ a₄ a₅ junk
unfolding call_1 call_5
call_5-pair d call1 proc c₁ c₂ c₃ c₄ c₅ a₁ a₂ a₃ a₄ a₅ junk =
    put_5-pair c₁ c₂ c₃ c₄ c₅ a₁ a₂ a₃ a₄ a₅ (new_marshall junk) (call_m d call1 proc)

-- A call with 6 arguments is a call with their pair.
pub call_6-pair :
    {R A₁ A₂ A₃ A₄ A₅ A₆ : Type 0} (d : Codec R) (call1 : Call1) (proc : ℕ) (c₁ : Codec A₁)
    (c₂ : Codec A₂) (c₃ : Codec A₃) (c₄ : Codec A₄) (c₅ : Codec A₅) (c₆ : Codec A₆) (a₁ : A₁)
    (a₂ : A₂) (a₃ : A₃) (a₄ : A₄) (a₅ : A₅) (a₆ : A₆) (junk : Memory)
    → call_1 d call1 proc
        (pair_codec c₁ (pair_codec c₂ (pair_codec c₃ (pair_codec c₄ (pair_codec c₅ c₆)))))
        (a₁, (a₂, (a₃, (a₄, (a₅, a₆)))))
        junk
      ≡ call_6 d call1 proc c₁ c₂ c₃ c₄ c₅ c₆ a₁ a₂ a₃ a₄ a₅ a₆ junk
unfolding call_1 call_6
call_6-pair d call1 proc c₁ c₂ c₃ c₄ c₅ c₆ a₁ a₂ a₃ a₄ a₅ a₆ junk =
    put_6-pair c₁ c₂ c₃ c₄ c₅ c₆ a₁ a₂ a₃ a₄ a₅ a₆ (new_marshall junk) (call_m d call1 proc)

-- A call with seven arguments sends and returns what a call with one argument does that is the
-- nested pair of the seven.
pub call_7-pair :
    {R A₁ A₂ A₃ A₄ A₅ A₆ A₇ : Type 0} (d : Codec R) (call1 : Call1) (proc : ℕ) (c₁ : Codec A₁)
    (c₂ : Codec A₂) (c₃ : Codec A₃) (c₄ : Codec A₄) (c₅ : Codec A₅) (c₆ : Codec A₆) (c₇ : Codec A₇)
    (a₁ : A₁) (a₂ : A₂) (a₃ : A₃) (a₄ : A₄) (a₅ : A₅) (a₆ : A₆) (a₇ : A₇) (junk : Memory)
    → call_1 d call1 proc
        (pair_codec c₁
          (pair_codec c₂ (pair_codec c₃ (pair_codec c₄ (pair_codec c₅ (pair_codec c₆ c₇))))))
        (a₁, (a₂, (a₃, (a₄, (a₅, (a₆, a₇))))))
        junk
      ≡ call_7 d call1 proc c₁ c₂ c₃ c₄ c₅ c₆ c₇ a₁ a₂ a₃ a₄ a₅ a₆ a₇ junk
unfolding call_1 call_7
call_7-pair d call1 proc c₁ c₂ c₃ c₄ c₅ c₆ c₇ a₁ a₂ a₃ a₄ a₅ a₆ a₇ junk =
    put_7-pair c₁ c₂ c₃ c₄ c₅ c₆ c₇ a₁ a₂ a₃ a₄ a₅ a₆ a₇ (new_marshall junk) (call_m d call1 proc)
