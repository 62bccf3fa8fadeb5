-- ===== src/Prelude/Bits.antt =====
-- Single bits of a machine word: what `|= 1 << k`, `&= ~(1 << k)` and `& (1 << k)` do to it.
use Prim.Native.Nat.{
  ℕ, zero, suc, ◌+◌, ◌-◌, ◌*◌, ◌/◌, ◌%◌, ◌^◌, ◌≤◌, ◌<◌, min, max, bit_and, bit_or, digits,
  bit_and-bitwise, bit_or-bitwise,
}
use mathlib.Core.Path.{◌≡◌, refl, ap}
use mathlib.Core.Bool.{Bool, true, false}
use native.Mathlib.Omega.{arith}
use native.Mathlib.Nat.{pow-suc}
use nachos_3_4_lab.Prelude.Tests.{◌==◌, if◌then◌else◌}

-- Bit `k` of a word.
abbrev pub bit_at : ℕ → ℕ → Bool
bit_at w zero = w % 2 == 1
bit_at w (suc k) = bit_at (w / 2) k

-- Rounds to spare do not change what a digitwise operation comes to.
spare_rounds :
    (rest : ℕ → ℕ) (op : ℕ → ℕ → ℕ) (n m x y : ℕ)
    → x ≤ n
    → n ≤ m
    → digits rest op m x y ≡ digits rest op n x y
spare_rounds rest op zero zero zero y h g = refl
spare_rounds rest op (suc n) zero zero y h g = refl
spare_rounds rest op n zero (suc x) y h g = absurd (omega arith)
spare_rounds rest op zero (suc m) zero y h g = refl
spare_rounds rest op zero (suc m) (suc x) y h g = elim h [ ]
spare_rounds rest op (suc n) (suc m) zero y h g = refl
spare_rounds rest op (suc n) (suc m) (suc x) y h g =
    ap (λ d. d * 2 + op (suc x % 2) (y % 2))
      (spare_rounds rest op n m (suc x / 2) (y / 2) (omega arith) (omega arith))

-- One digit of `|` and of `&`.
pub bit_or_step : (x y : ℕ) → bit_or x y ≡ bit_or (x / 2) (y / 2) * 2 + max (x % 2) (y % 2)
bit_or_step zero y = omega (arith, bit_or-bitwise 0 y, bit_or-bitwise 0 (y / 2))
bit_or_step (suc x) y =
    let h : suc x / 2 ≤ x = omega arith in
    omega (
      arith,
      bit_or-bitwise (suc x) y,
      bit_or-bitwise (suc x / 2) (y / 2),
      spare_rounds (λ b. b) max (suc x / 2) x (suc x / 2) (y / 2) (omega arith) h,
    )

pub bit_and_step : (x y : ℕ) → bit_and x y ≡ bit_and (x / 2) (y / 2) * 2 + min (x % 2) (y % 2)
bit_and_step zero y = omega (arith, bit_and-bitwise 0 y, bit_and-bitwise 0 (y / 2))
bit_and_step (suc x) y =
    let h : suc x / 2 ≤ x = omega arith in
    omega (
      arith,
      bit_and-bitwise (suc x) y,
      bit_and-bitwise (suc x / 2) (y / 2),
      spare_rounds (λ b. 0) min (suc x / 2) x (suc x / 2) (y / 2) (omega arith) h,
    )

-- A word with nothing added, and with nothing kept, by the halves of the word.
module _ (P : ℕ → Type 0) (base : P 0) (step : (x : ℕ) → P (suc x / 2) → P (suc x)) where
  by_halves_below : (bound x : ℕ) → x ≤ bound → P x
  by_halves_below bound zero h = base
  by_halves_below zero (suc x) h = elim h [ ]
  by_halves_below (suc bound) (suc x) h = step x (by_halves_below bound (suc x / 2) (omega arith))

  pub by_halves : (x : ℕ) → P x
  by_halves x = by_halves_below x x (omega arith)

pub bit_or-zero : (x : ℕ) → bit_or x 0 ≡ x
bit_or-zero =
    by_halves (λ x. bit_or x 0 ≡ x) refl λ x half. omega (arith, bit_or_step (suc x) 0, half)

pub bit_or_self : (x : ℕ) → bit_or x x ≡ x
bit_or_self =
    by_halves (λ x. bit_or x x ≡ x) refl λ x half. ground (arith, bit_or_step (suc x) (suc x), half)

pub bit_and-zero : (x : ℕ) → bit_and x 0 ≡ 0
bit_and-zero =
    by_halves (λ x. bit_and x 0 ≡ 0) refl λ x half. omega (arith, bit_and_step (suc x) 0, half)

-- `w & (1 << k)` is `1 << k` if the bit is set, and 0 if not.
pub bit_and-two_pow : (k w : ℕ) → bit_and w (2 ^ k) ≡ (if bit_at w k then 2 ^ k else 0)
bit_and-two_pow zero w = ground (arith, bit_and_step w 1, bit_and-zero (w / 2))
bit_and-two_pow (suc k) w =
    ground (arith, bit_and_step w (2 ^ suc k), pow-suc 2 k, bit_and-two_pow k (w / 2))

-- `w | 1 << k` sets bit `k` and leaves every other bit.
pub bit_at-bit_or :
    (k j w : ℕ) → bit_at (bit_or w (2 ^ k)) j ≡ (if k == j then true else bit_at w j)
bit_at-bit_or zero zero w = ground (arith, bit_or_step w 1, bit_or-zero (w / 2))
bit_at-bit_or zero (suc j) w =
    let half : bit_or w 1 / 2 ≡ w / 2 = omega (arith, bit_or_step w 1, bit_or-zero (w / 2)) in
    rw half (ground arith)
bit_at-bit_or (suc k) zero w = ground (arith, bit_or_step w (2 ^ suc k), pow-suc 2 k)
bit_at-bit_or (suc k) (suc j) w =
    let half : bit_or w (2 ^ suc k) / 2 ≡ bit_or (w / 2) (2 ^ k) =
      ground (arith, bit_or_step w (2 ^ suc k), pow-suc 2 k) in
    rw half (ground (arith, bit_at-bit_or k j (w / 2)))

pub two_pow_lt : (k n : ℕ) → k < n → 2 ^ k + 1 ≤ 2 ^ n
two_pow_lt k zero h = elim h [ ]
two_pow_lt zero (suc zero) h = omega arith
two_pow_lt zero (suc (suc n)) h =
    omega (arith, pow-suc 2 (suc n), two_pow_lt zero (suc n) (omega arith))
two_pow_lt (suc k) (suc n) h = omega (arith, pow-suc 2 k, pow-suc 2 n, two_pow_lt k n (omega arith))

pub two_pow_pos : (n : ℕ) → 1 ≤ 2 ^ n
two_pow_pos zero = omega arith
two_pow_pos (suc n) = omega (arith, pow-suc 2 n, two_pow_pos n)

bit_at-ones : (n j w : ℕ) → j < n → bit_at (bit_and w (2 ^ n - 1)) j ≡ bit_at w j
bit_at-ones zero j w h = elim h [ ]
bit_at-ones (suc n) zero w h =
    ground (arith, bit_and_step w (2 ^ suc n - 1), pow-suc 2 n, two_pow_pos n)
bit_at-ones (suc n) (suc j) w h =
    let low : (2 ^ suc n - 1) / 2 ≡ 2 ^ n - 1 = omega (arith, pow-suc 2 n, two_pow_pos n) in
    let half : bit_and w (2 ^ suc n - 1) / 2 ≡ bit_and (w / 2) (2 ^ n - 1) =
      ground (arith, bit_and_step w (2 ^ suc n - 1), low) in
    rw half (bit_at-ones n j (w / 2) (omega arith))

-- `w & ~(1 << k)`, in words of `n` bits, clears bit `k` and leaves every other bit.
pub bit_at-bit_and_not :
    (n k j w : ℕ)
    → k < n
    → j < n
    → bit_at (bit_and w (2 ^ n - 1 - 2 ^ k)) j ≡ (if k == j then false else bit_at w j)
bit_at-bit_and_not zero k j w hk hj = elim hj [ ]
bit_at-bit_and_not (suc n) zero zero w hk hj =
    ground (arith, bit_and_step w (2 ^ suc n - 1 - 2 ^ 0), pow-suc 2 n, two_pow_pos n)
bit_at-bit_and_not (suc n) zero (suc j) w hk hj =
    let low : (2 ^ suc n - 1 - 2 ^ 0) / 2 ≡ 2 ^ n - 1 = omega (arith, pow-suc 2 n, two_pow_pos n) in
    let half : bit_and w (2 ^ suc n - 1 - 2 ^ 0) / 2 ≡ bit_and (w / 2) (2 ^ n - 1) =
      ground (arith, bit_and_step w (2 ^ suc n - 1 - 2 ^ 0), low) in
    rw half (ground (arith, bit_at-ones n j (w / 2) (omega arith)))
bit_at-bit_and_not (suc n) (suc k) zero w hk hj = ground (
  arith,
  bit_and_step w (2 ^ suc n - 1 - 2 ^ suc k),
  pow-suc 2 n,
  pow-suc 2 k,
  two_pow_lt k n (omega arith),
)
bit_at-bit_and_not (suc n) (suc k) (suc j) w hk hj =
    let low : (2 ^ suc n - 1 - 2 ^ suc k) / 2 ≡ 2 ^ n - 1 - 2 ^ k =
      omega (arith, pow-suc 2 n, pow-suc 2 k, two_pow_lt k n (omega arith)) in
    let half : bit_and w (2 ^ suc n - 1 - 2 ^ suc k) / 2 ≡ bit_and (w / 2) (2 ^ n - 1 - 2 ^ k) =
      ground (arith, bit_and_step w (2 ^ suc n - 1 - 2 ^ suc k), low) in
    rw half (ground (arith, bit_at-bit_and_not n k j (w / 2) (omega arith) (omega arith)))

-- The low bits that an alignment check looks at.
pub bit_and_odd : (x : ℕ) → bit_and x 1 ≡ x % 2
bit_and_odd x = ground (arith, bit_and-zero (x / 2), bit_and_step x 1)

pub bit_and_three : (x : ℕ) → bit_and x 3 ≡ x % 4
bit_and_three x = ground (arith, bit_and_odd (x / 2), bit_and_step x 3)

-- Neither takes a word past its width.
pub bit_or_bound : (k n w : ℕ) → k < n → w < 2 ^ n → bit_or w (2 ^ k) < 2 ^ n
bit_or_bound k zero w h lt = elim h [ ]
bit_or_bound zero (suc n) w h lt = omega (arith, bit_or_step w 1, bit_or-zero (w / 2), pow-suc 2 n)
bit_or_bound (suc k) (suc n) w h lt =
    let even : 2 ^ suc k / 2 ≡ 2 ^ k = omega (arith, pow-suc 2 k) in
    let half : bit_or (w / 2) (2 ^ suc k / 2) ≡ bit_or (w / 2) (2 ^ k) = rw even refl in
    let below : bit_or (w / 2) (2 ^ k) < 2 ^ n =
      bit_or_bound k n (w / 2) (omega arith) (omega (arith, pow-suc 2 n)) in
    omega (arith, bit_or_step w (2 ^ suc k), pow-suc 2 k, pow-suc 2 n, half, below)

pub bit_and_le : (x y : ℕ) → bit_and x y ≤ x
bit_and_le =
    by_halves (λ x. (y : ℕ) → bit_and x y ≤ x)
      (λ y. omega (arith, bit_and_step 0 y, bit_and-bitwise 0 (y / 2)))
      λ x half y. omega (arith, bit_and_step (suc x) y, half (y / 2))
