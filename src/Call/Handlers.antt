-- ===== src/Call/Handlers.antt =====
-- The handler classes of the templates rpcs::reg (rpc/rpc.h lines 365-605). A method of the server
-- object is a function of its arguments and of the state of the object.
pub mod Pairs
use mit6_824_2012spring_yfs.Prelude.{
  ℕ, Bool, true, false, not, Option, none, some, if◌then◌else◌, ◌>>=◌, Memory,
}
use mit6_824_2012spring_yfs.Marshal.Out.{Marshall, new_marshall}
use mit6_824_2012spring_yfs.Marshal.In.{Unmarshall, okdone}
use mit6_824_2012spring_yfs.Marshal.Codec.{Codec}
use mit6_824_2012spring_yfs.Call.{
  code, unmarshal_args_failure, unmarshal_reply_failure, is_negative_int,
}

-- What a handler returns: the int, the reply with the result, and the object.
abbrev pub Handled : Type 0 → Type 0
Handled S = Option (ℕ × Marshall × S)

-- The last lines of each `fn`: the arguments must have been read to their end before the method
-- runs.
module _ {S R : Type 0} (d : Codec R) where
  unfoldable pub answer : (S → ℕ × R × S) → S → Unmarshall → Marshall → Handled S
  answer method sob args ret =
      let (b, r, sob') = method sob in
      if not (okdone args)
      then some (code unmarshal_args_failure, ret, sob)
      else (d.put r ret >>= λ m. some (b, m, sob'))

  unfoldable pub fn_1 :
      {A₁ : Type 0} → Codec A₁ → (A₁ → S → ℕ × R × S) → S → Unmarshall → Marshall → Handled S
  unfolding answer
  fn_1 c₁ meth sob args ret = do (a₁, u₁) ← c₁.get args; answer (meth a₁) sob u₁ ret

  unfoldable pub fn_2 :
      {A₁ A₂ : Type 0}
      → Codec A₁
      → Codec A₂
      → (A₁ → A₂ → S → ℕ × R × S)
      → S
      → Unmarshall
      → Marshall
      → Handled S
  unfolding answer
  fn_2 c₁ c₂ meth sob args ret = do
    (a₁, u₁) ← c₁.get args
    (a₂, u₂) ← c₂.get u₁
    answer (meth a₁ a₂) sob u₂ ret

  unfoldable pub fn_3 :
      {A₁ A₂ A₃ : Type 0}
      → Codec A₁
      → Codec A₂
      → Codec A₃
      → (A₁ → A₂ → A₃ → S → ℕ × R × S)
      → S
      → Unmarshall
      → Marshall
      → Handled S
  unfolding answer
  fn_3 c₁ c₂ c₃ meth sob args ret = do
    (a₁, u₁) ← c₁.get args
    (a₂, u₂) ← c₂.get u₁
    (a₃, u₃) ← c₃.get u₂
    answer (meth a₁ a₂ a₃) sob u₃ ret

  unfoldable pub fn_4 :
      {A₁ A₂ A₃ A₄ : Type 0}
      → Codec A₁
      → Codec A₂
      → Codec A₃
      → Codec A₄
      → (A₁ → A₂ → A₃ → A₄ → S → ℕ × R × S)
      → S
      → Unmarshall
      → Marshall
      → Handled S
  unfolding answer
  fn_4 c₁ c₂ c₃ c₄ meth sob args ret = do
    (a₁, u₁) ← c₁.get args
    (a₂, u₂) ← c₂.get u₁
    (a₃, u₃) ← c₃.get u₂
    (a₄, u₄) ← c₄.get u₃
    answer (meth a₁ a₂ a₃ a₄) sob u₄ ret

  unfoldable pub fn_5 :
      {A₁ A₂ A₃ A₄ A₅ : Type 0}
      → Codec A₁
      → Codec A₂
      → Codec A₃
      → Codec A₄
      → Codec A₅
      → (A₁ → A₂ → A₃ → A₄ → A₅ → S → ℕ × R × S)
      → S
      → Unmarshall
      → Marshall
      → Handled S
  unfolding answer
  fn_5 c₁ c₂ c₃ c₄ c₅ meth sob args ret = do
    (a₁, u₁) ← c₁.get args
    (a₂, u₂) ← c₂.get u₁
    (a₃, u₃) ← c₃.get u₂
    (a₄, u₄) ← c₄.get u₃
    (a₅, u₅) ← c₅.get u₄
    answer (meth a₁ a₂ a₃ a₄ a₅) sob u₅ ret

  unfoldable pub fn_6 :
      {A₁ A₂ A₃ A₄ A₅ A₆ : Type 0}
      → Codec A₁
      → Codec A₂
      → Codec A₃
      → Codec A₄
      → Codec A₅
      → Codec A₆
      → (A₁ → A₂ → A₃ → A₄ → A₅ → A₆ → S → ℕ × R × S)
      → S
      → Unmarshall
      → Marshall
      → Handled S
  unfolding answer
  fn_6 c₁ c₂ c₃ c₄ c₅ c₆ meth sob args ret = do
    (a₁, u₁) ← c₁.get args
    (a₂, u₂) ← c₂.get u₁
    (a₃, u₃) ← c₃.get u₂
    (a₄, u₄) ← c₄.get u₃
    (a₅, u₅) ← c₅.get u₄
    (a₆, u₆) ← c₆.get u₅
    answer (meth a₁ a₂ a₃ a₄ a₅ a₆) sob u₆ ret

  unfoldable pub fn_7 :
      {A₁ A₂ A₃ A₄ A₅ A₆ A₇ : Type 0}
      → Codec A₁
      → Codec A₂
      → Codec A₃
      → Codec A₄
      → Codec A₅
      → Codec A₆
      → Codec A₇
      → (A₁ → A₂ → A₃ → A₄ → A₅ → A₆ → A₇ → S → ℕ × R × S)
      → S
      → Unmarshall
      → Marshall
      → Handled S
  unfolding answer
  fn_7 c₁ c₂ c₃ c₄ c₅ c₆ c₇ meth sob args ret = do
    (a₁, u₁) ← c₁.get args
    (a₂, u₂) ← c₂.get u₁
    (a₃, u₃) ← c₃.get u₂
    (a₄, u₄) ← c₄.get u₃
    (a₅, u₅) ← c₅.get u₄
    (a₆, u₆) ← c₆.get u₅
    (a₇, u₇) ← c₇.get u₆
    answer (meth a₁ a₂ a₃ a₄ a₅ a₆ a₇) sob u₇ ret
