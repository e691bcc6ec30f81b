-- ===== src/Prelude.antt =====
-- The names that all modules share: those of the libraries, passed on, and those of its children
-- (Boolean tests, lists over the native numbers, maps with numbers for keys, machine words).
mod Tests
mod Lists
mod Maps
mod Words
mod Bits
mod Bytes
mod Faults
pub use Tests.*
pub use Lists.*
unfoldable pub use Maps.*
unfoldable pub use native.Mathlib.Decide.{dec_lt, dec_le, ℕ_discrete}
pub use Words.*
pub use Bits.*
unfoldable pub use Bytes.*
pub use Faults.*
pub use Prim.Native.Nat.{ℕ, zero, suc, ◌+◌, ◌-◌, ◌*◌, ◌/◌, ◌%◌, ◌^◌, ◌≤◌, ◌<◌}
pub use mathlib.Core.Path.{◌≡◌, refl, sym, ap, ◌∙◌, subst, fun_ext}
pub use mathlib.Core.Logic.{◌≢◌, ◌↔◌, ◌⊎◌, inl, inr}
pub use mathlib.Core.Bool.{Bool, true, false, ◌&&◌, ◌||◌, not}
pub use mathlib.Core.Option.{Option, none, some}
pub use mathlib.Core.List.{List, [], ◌∷◌, ◌++◌, map, append-nil, append_assoc}
pub use native.Mathlib.Omega.{arith}
