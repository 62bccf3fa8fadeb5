-- ===== src/Prelude/Outcome.antt =====
-- `ASSERT` of threads/utility.h: a failed one stops the whole program (`abort`). `wild` is an
-- access outside an array or an `int` that overflows, after which C++ promises nothing.
use mathlib.Core.Bool.{Bool, true, false}
use mathlib.Core.Path.{◌≡◌, refl}
use Prim.Native.Nat.{ℕ, ◌+◌, ◌<◌}
use nachos_3_4_lab.Prelude.Tests.{ltb, if◌then◌else◌, lt→ltb}

pub data Outcome {ℓ} (A : Type ℓ) : Type ℓ where
  ok : A → Outcome A
  abort : Outcome A
  wild : Outcome A

infixl 5 ◌>>=◌ ◌>>◌
abbrev pub ◌>>=◌ {ℓ κ} : {A : Type ℓ} {B : Type κ} → Outcome A → (A → Outcome B) → Outcome B
ok a >>= f = f a
abort >>= f = abort
wild >>= f = wild

abbrev pub ◌>>◌ {ℓ} : {B : Type ℓ} → Outcome (Unit {0}) → Outcome B → Outcome B
m >> k = m >>= λ _. k

abbrev pub assert : Bool → Outcome (Unit {0})
assert true = ok tt
assert false = abort

-- The sum of two numbers that are not negative, as an `int`.
unfoldable pub int_sum : ℕ → ℕ → Outcome ℕ
int_sum a b = if ltb (a + b) 0x8000_0000 then ok (a + b) else wild

pub int_sum_fits : (a b : ℕ) → a + b < 0x8000_0000 → int_sum a b ≡ ok (a + b)
unfolding int_sum
int_sum_fits a b fits = rw (lt→ltb (a + b) 0x8000_0000 fits) refl

-- An index that an array access needs to be in range.
abbrev pub in_array : Bool → Outcome (Unit {0})
in_array true = ok tt
in_array false = wild

-- A chain that succeeds, taken apart at its first step.
pub bind_inverse {ℓ κ} :
    {A : Type ℓ} {B : Type κ} (m : Outcome A) (f : A → Outcome B) (b : B)
    → (m >>= f) ≡ ok b
    → (a : A) × (m ≡ ok a) × (f a ≡ ok b)
bind_inverse (ok a) f b e = (a, refl, e)
bind_inverse abort f b e = cc
bind_inverse wild f b e = cc
