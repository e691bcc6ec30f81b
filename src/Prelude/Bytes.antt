-- ===== src/Prelude/Bytes.antt =====
-- A block of memory as a function from offsets to bytes, and the bytes that stand in it.
use Prim.Native.Nat.{ℕ, zero, suc, ◌+◌, ◌<◌, ◌≤◌}
use mathlib.Core.Path.{◌≡◌, refl, subst, ap}
use mathlib.Core.List.{List, [], ◌∷◌, ◌++◌}
use native.Mathlib.Omega.{arith}
use native.Mathlib.Nat.{add-zero}
use mit6_824_2012spring_yfs.Prelude.Tests.{◌==◌, if◌then◌else◌}
use mit6_824_2012spring_yfs.Prelude.Lists.{length}

abbrev pub Memory : Type 0
Memory = ℕ → ℕ

abbrev pub update : Memory → ℕ → ℕ → Memory
update f i x j = if i == j then x else f j

-- memcpy to offset `i`
unfoldable pub copy : Memory → ℕ → List ℕ → Memory
copy f i [] = f
copy f i (x ∷ xs) = copy (update f i x) (i + 1) xs

-- std::string(buf + i, n)
unfoldable pub slice : Memory → ℕ → ℕ → List ℕ
slice f i zero = []
slice f i (suc n) = f i ∷ slice f (i + 1) n

-- The bytes `bs` stand at offset `i`.
abbrev pub At : Memory → ℕ → List ℕ → Type 0
At f i [] = Unit {0}
At f i (b ∷ bs) = (f i ≡ b) × At f (i + 1) bs

pub At-append :
    (f : Memory) (i : ℕ) (xs ys : List ℕ) → At f i xs → At f (i + length xs) ys → At f i (xs ++ ys)
At-append f i [] ys h k = rw (add-zero i) at k
At-append f i (x ∷ xs) ys h k =
    (h.0, At-append f (i + 1) xs ys h.1 (subst (λ j. At f j ys) (omega arith) k))

pub At-left : (f : Memory) (i : ℕ) (xs ys : List ℕ) → At f i (xs ++ ys) → At f i xs
At-left f i [] ys h = tt
At-left f i (x ∷ xs) ys h = (h.0, At-left f (i + 1) xs ys h.1)

pub At-right : (f : Memory) (i : ℕ) (xs ys : List ℕ) → At f i (xs ++ ys) → At f (i + length xs) ys
At-right f i [] ys h = subst (λ j. At f j ys) (omega arith) h
At-right f i (x ∷ xs) ys h = subst (λ j. At f j ys) (omega arith) (At-right f (i + 1) xs ys h.1)

-- A write outside of the bytes leaves them.
pub At-update_below :
    (f : Memory) (j x i : ℕ) (bs : List ℕ) → j < i → At f i bs → At (update f j x) i bs
At-update_below f j x i [] h a = tt
At-update_below f j x i (b ∷ bs) h a =
    (ground (arith, a.0), At-update_below f j x (i + 1) bs (omega arith) a.1)

pub At-update_above :
    (f : Memory) (j x i : ℕ) (bs : List ℕ) → i + length bs ≤ j → At f i bs → At (update f j x) i bs
At-update_above f j x i [] h a = tt
At-update_above f j x i (b ∷ bs) h a =
    (ground (arith, a.0), At-update_above f j x (i + 1) bs (omega arith) a.1)

pub At-copy_above :
    (f : Memory) (j i : ℕ) (xs bs : List ℕ) → i + length bs ≤ j → At f i bs → At (copy f j xs) i bs
unfolding copy
At-copy_above f j i [] bs h a = a
At-copy_above f j i (x ∷ xs) bs h a =
    At-copy_above (update f j x) (j + 1) i xs bs (omega arith) (At-update_above f j x i bs h a)

pub At-copy_below :
    (f : Memory) (j i : ℕ) (xs bs : List ℕ) → j + length xs ≤ i → At f i bs → At (copy f j xs) i bs
unfolding copy
At-copy_below f j i [] bs h a = a
At-copy_below f j i (x ∷ xs) bs h a =
    At-copy_below (update f j x) (j + 1) i xs bs (omega arith)
      (At-update_below f j x i bs (omega arith) a)

pub At-copy : (f : Memory) (i : ℕ) (xs : List ℕ) → At (copy f i xs) i xs
unfolding copy
At-copy f i [] = tt
At-copy f i (x ∷ xs) = (
  (At-copy_above (update f i x) (i + 1) i xs (x ∷ []) (omega arith) (ground arith, tt)).0,
  At-copy (update f i x) (i + 1) xs,
)

pub slice-At : (f : Memory) (i : ℕ) (bs : List ℕ) → At f i bs → slice f i (length bs) ≡ bs
unfolding slice
slice-At f i [] h = refl
slice-At f i (b ∷ bs) h = rw (slice-At f (i + 1) bs h.1, h.0)

pub At-slice : (f : Memory) (i n : ℕ) → At f i (slice f i n)
unfolding slice
At-slice f i zero = tt
At-slice f i (suc n) = (refl, At-slice f (i + 1) n)

pub length-slice : (f : Memory) (i n : ℕ) → length (slice f i n) ≡ n
unfolding slice
length-slice f i zero = refl
length-slice f i (suc n) = ap suc (length-slice f (i + 1) n)
