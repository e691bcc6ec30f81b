-- ===== src/Call/Stubs.antt =====
-- The templates rpcc::call_m and rpcc::call (rpc/rpc.h lines 131-236). `call1` is what call_m
-- calls; `none` is a fault of a read or a write.
pub mod Pairs
use mit6_824_2012spring_yfs.Prelude.{
  ℕ, Bool, true, false, not, Option, none, some, if◌then◌else◌, ◌>>=◌, Memory,
}
use mit6_824_2012spring_yfs.Marshal.Out.{Marshall, new_marshall}
use mit6_824_2012spring_yfs.Marshal.In.{Unmarshall, okdone}
use mit6_824_2012spring_yfs.Marshal.Codec.{Codec}
use mit6_824_2012spring_yfs.Call.{
  code, unmarshal_args_failure, unmarshal_reply_failure, is_negative_int,
}

-- call1: it takes a procedure and a request, and returns an int and the reply.
abbrev pub Call1 : Type 0
Call1 = ℕ → Marshall → Option (ℕ × Unmarshall)

-- The last lines of each template `call`: the int that it returns, and what it leaves in `r`.
module _ {R : Type 0} (d : Codec R) (call1 : Call1) (proc : ℕ) where
  unfoldable pub read_reply : ℕ × Unmarshall → Option (ℕ × Option R)
  read_reply (intret, u) =
      if is_negative_int intret
      then some (intret, none)
      else (d.get u >>= λ p.
          some (if okdone p.1 then intret else code unmarshal_reply_failure, some p.0))

  unfoldable pub call_m : Marshall → Option (ℕ × Option R)
  unfolding read_reply
  call_m req = call1 proc req >>= read_reply

  unfoldable pub call_0 : Memory → Option (ℕ × Option R)
  unfolding call_m
  call_0 junk = call_m (new_marshall junk)

  unfoldable pub call_1 : {A₁ : Type 0} → Codec A₁ → A₁ → Memory → Option (ℕ × Option R)
  unfolding call_m
  call_1 c₁ a₁ junk = do m₁ ← c₁.put a₁ (new_marshall junk); call_m m₁

  unfoldable pub call_2 :
      {A₁ A₂ : Type 0} → Codec A₁ → Codec A₂ → A₁ → A₂ → Memory → Option (ℕ × Option R)
  unfolding call_m
  call_2 c₁ c₂ a₁ a₂ junk = do m₁ ← c₁.put a₁ (new_marshall junk); m₂ ← c₂.put a₂ m₁; call_m m₂

  unfoldable pub call_3 :
      {A₁ A₂ A₃ : Type 0}
      → Codec A₁
      → Codec A₂
      → Codec A₃
      → A₁
      → A₂
      → A₃
      → Memory
      → Option (ℕ × Option R)
  unfolding call_m
  call_3 c₁ c₂ c₃ a₁ a₂ a₃ junk = do
    m₁ ← c₁.put a₁ (new_marshall junk)
    m₂ ← c₂.put a₂ m₁
    m₃ ← c₃.put a₃ m₂
    call_m m₃

  unfoldable pub call_4 :
      {A₁ A₂ A₃ A₄ : Type 0}
      → Codec A₁
      → Codec A₂
      → Codec A₃
      → Codec A₄
      → A₁
      → A₂
      → A₃
      → A₄
      → Memory
      → Option (ℕ × Option R)
  unfolding call_m
  call_4 c₁ c₂ c₃ c₄ a₁ a₂ a₃ a₄ junk = do
    m₁ ← c₁.put a₁ (new_marshall junk)
    m₂ ← c₂.put a₂ m₁
    m₃ ← c₃.put a₃ m₂
    m₄ ← c₄.put a₄ m₃
    call_m m₄

  unfoldable pub call_5 :
      {A₁ A₂ A₃ A₄ A₅ : Type 0}
      → Codec A₁
      → Codec A₂
      → Codec A₃
      → Codec A₄
      → Codec A₅
      → A₁
      → A₂
      → A₃
      → A₄
      → A₅
      → Memory
      → Option (ℕ × Option R)
  unfolding call_m
  call_5 c₁ c₂ c₃ c₄ c₅ a₁ a₂ a₃ a₄ a₅ junk = do
    m₁ ← c₁.put a₁ (new_marshall junk)
    m₂ ← c₂.put a₂ m₁
    m₃ ← c₃.put a₃ m₂
    m₄ ← c₄.put a₄ m₃
    m₅ ← c₅.put a₅ m₄
    call_m m₅

  unfoldable pub call_6 :
      {A₁ A₂ A₃ A₄ A₅ A₆ : Type 0}
      → Codec A₁
      → Codec A₂
      → Codec A₃
      → Codec A₄
      → Codec A₅
      → Codec A₆
      → A₁
      → A₂
      → A₃
      → A₄
      → A₅
      → A₆
      → Memory
      → Option (ℕ × Option R)
  unfolding call_m
  call_6 c₁ c₂ c₃ c₄ c₅ c₆ a₁ a₂ a₃ a₄ a₅ a₆ junk = do
    m₁ ← c₁.put a₁ (new_marshall junk)
    m₂ ← c₂.put a₂ m₁
    m₃ ← c₃.put a₃ m₂
    m₄ ← c₄.put a₄ m₃
    m₅ ← c₅.put a₅ m₄
    m₆ ← c₆.put a₆ m₅
    call_m m₆

  unfoldable pub call_7 :
      {A₁ A₂ A₃ A₄ A₅ A₆ A₇ : Type 0}
      → Codec A₁
      → Codec A₂
      → Codec A₃
      → Codec A₄
      → Codec A₅
      → Codec A₆
      → Codec A₇
      → A₁
      → A₂
      → A₃
      → A₄
      → A₅
      → A₆
      → A₇
      → Memory
      → Option (ℕ × Option R)
  unfolding call_m
  call_7 c₁ c₂ c₃ c₄ c₅ c₆ c₇ a₁ a₂ a₃ a₄ a₅ a₆ a₇ junk = do
    m₁ ← c₁.put a₁ (new_marshall junk)
    m₂ ← c₂.put a₂ m₁
    m₃ ← c₃.put a₃ m₂
    m₄ ← c₄.put a₄ m₃
    m₅ ← c₅.put a₅ m₄
    m₆ ← c₆.put a₆ m₅
    m₇ ← c₇.put a₇ m₆
    call_m m₇
