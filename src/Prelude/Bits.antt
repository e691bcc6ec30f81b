-- ===== src/Prelude/Bits.antt =====
-- `|` of numbers with no bits in common is their sum.
use Prim.Native.Nat.{
  ℕ, zero, suc, ◌+◌, ◌*◌, ◌/◌, ◌%◌, ◌^◌, ◌≤◌, ◌<◌, max, bit_or, digits, bit_or-bitwise,
}
use mathlib.Core.Path.{◌≡◌, refl, ap}
use native.Mathlib.Nat.{pow-suc, le_refl}
use native.Mathlib.Omega.{arith}

-- The recursion that `bit_or` stands for, on any fuel that is enough for its first argument.
or_digits : ℕ → ℕ → ℕ → ℕ
or_digits n a b = digits (λ y. y) max n a b

or_digits_fuel : (n k a b : ℕ) → a ≤ n → a ≤ k → or_digits n a b ≡ or_digits k a b
unfolding or_digits
or_digits_fuel zero zero a b p q = refl
or_digits_fuel zero (suc k) zero b p q = refl
or_digits_fuel zero (suc k) (suc a) b p q = absurd (omega arith)
or_digits_fuel (suc n) zero zero b p q = refl
or_digits_fuel (suc n) zero (suc a) b p q = absurd (omega arith)
or_digits_fuel (suc n) (suc k) zero b p q = refl
or_digits_fuel (suc n) (suc k) (suc a) b p q =
    rw (or_digits_fuel n k (suc a / 2) (b / 2) (omega arith) (omega arith))

bit_or_low : (a b : ℕ) → bit_or a b ≡ bit_or (a / 2) (b / 2) * 2 + max (a % 2) (b % 2)
unfolding or_digits
bit_or_low zero b = simp bit_or-bitwise (omega arith)
bit_or_low (suc a) b =
    simp bit_or-bitwise
      (omega (arith, or_digits_fuel a (suc a / 2) (suc a / 2) (b / 2) (omega arith) (le_refl _)))

bit_or-zero : (n a : ℕ) → a ≤ n → bit_or a 0 ≡ a
bit_or-zero n zero h = refl
bit_or-zero zero (suc a) h = absurd (omega arith)
bit_or-zero (suc n) (suc a) h =
    omega (arith, bit_or_low (suc a) 0, bit_or-zero n (suc a / 2) (omega arith))

pub bit_or_disjoint : (k q r : ℕ) → r < 2 ^ k → bit_or (q * 2 ^ k) r ≡ q * 2 ^ k + r
bit_or_disjoint zero q r h = ground (arith, bit_or-zero q q (le_refl q))
bit_or_disjoint (suc k) q r h = ground (
  arith,
  bit_or_low (q * 2 ^ suc k) r,
  ap (λ (t : ℕ). q * t) (pow-suc 2 k),
  bit_or_disjoint k q (r / 2) (omega arith),
)

-- The four bytes of a 32-bit number, put together by shifts and `|`.
pub bytes_or :
    (a b c d : ℕ)
    → b < 256
    → c < 256
    → d < 256
    → bit_or (bit_or (bit_or (a * 2 ^ 24) (b * 2 ^ 16)) (c * 2 ^ 8)) d
      ≡ a * 2 ^ 24 + b * 2 ^ 16 + c * 2 ^ 8 + d
bytes_or a b c d hb hc hd = ground (
  arith,
  bit_or_disjoint 24 a (b * 2 ^ 16),
  bit_or_disjoint 16 (a * 2 ^ 8 + b) (c * 2 ^ 8),
  bit_or_disjoint 8 (a * 2 ^ 16 + b * 2 ^ 8 + c) d,
)
