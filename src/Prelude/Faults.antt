-- ===== src/Prelude/Faults.antt =====
-- Chains of steps that may fault: `none` is an access outside of a buffer or through NULL, or an
-- assertion that fails.
use mathlib.Core.Option.{Option, none, some}
use mathlib.Core.Bool.{Bool, true, false}
use mathlib.Core.Path.{◌≡◌, refl, ap}

infixl 5 ◌>>=◌ ◌>>◌
abbrev pub ◌>>=◌ {ℓ κ} : {A : Type ℓ} {B : Type κ} → Option A → (A → Option B) → Option B
none >>= f = none
some a >>= f = f a

abbrev pub ◌>>◌ {ℓ} : {B : Type ℓ} → Option (Unit {0}) → Option B → Option B
m >> k = m >>= λ _. k

abbrev pub assert : Bool → Option (Unit {0})
assert true = some tt
assert false = none

pub bind_assoc :
    {A B C : Type 0} (x : Option A) (f : A → Option B) (g : B → Option C)
    → ((x >>= f) >>= g) ≡ (x >>= λ (a : A). f a >>= g)
bind_assoc none f g = refl
bind_assoc (some a) f g = refl

pub bind_ext :
    {A B : Type 0} (x : Option A) (f g : A → Option B)
    → ((a : A) → f a ≡ g a)
    → (x >>= f) ≡ (x >>= g)
bind_ext none f g h = refl
bind_ext (some a) f g h = h a

pub bind-some :
    {A B : Type 0} (x : Option A) (f : A → Option B) (b : B)
    → (x >>= f) ≡ some b
    → (a : A) × (x ≡ some a) × (f a ≡ some b)
bind-some none f b e = cc
bind-some (some a) f b e = (a, refl, e)

pub some_same : {A : Type 0} {x y : A} → some x ≡ some y → x ≡ y
some_same e = cc

pub some_pair :
    {A B : Type 0} {a x : A} {b y : B}
    → ◌≡◌ {A = Option (A × B)} (some (a, b)) (some (x, y))
    → (a ≡ x) × (b ≡ y)
some_pair {A} {B} e = (ap (λ (p : A × B). p.0) (some_same e), ap (λ (p : A × B). p.1) (some_same e))
