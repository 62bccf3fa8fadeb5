-- ===== src/Machine/Mult/Product.antt =====
-- `Mult` computes the product.
use native.Mathlib.Nat.{pow-suc}
use nachos_3_4_lab.Prelude.{
  differ, ℕ, zero, suc, ◌+◌, ◌-◌, ◌*◌, ◌/◌, ◌%◌, ◌^◌, ◌<◌, ◌≤◌, ◌≡◌, refl, ap, ◌∙◌, sym, Bool, true,
  false, ◌||◌, ltb, ◌==◌, if◌then◌else◌, arith, Bool-cases, inl, inr, ◌≢◌, ◌⊎◌,
}
use nachos_3_4_lab.Machine.Mult.{
  Sum, half_int, add_in, double_hi, double_lo, mult_loop, negate, negative, magnitude, complement,
  nothing, mult,
}

abbrev pub word : ℕ
word = 2 ^ 32

-- The number that two words stand for.
abbrev pub value : Sum → ℕ
value s = s.hi * 2 ^ 32 + s.lo

abbrev pub Fits : Sum → Type 0
Fits s = (s.lo < 2 ^ 32) × (s.hi < 2 ^ 32)

add_in-value :
    (b_lo b_hi : ℕ) (s : Sum)
    → b_lo < 2 ^ 32
    → b_hi < 2 ^ 32
    → Fits s
    → Fits (add_in b_lo b_hi s)
      × ((c : ℕ) × (value (add_in b_lo b_hi s) + c * 2 ^ 64 ≡ value s + (b_hi * 2 ^ 32 + b_lo)))
unfolding add_in
add_in-value b_lo b_hi s h k f = (
  (omega arith, omega arith),
  (
    (if ltb ((s.lo + b_lo) % 2 ^ 32) b_lo
        then (s.hi + 1 + b_hi) / 2 ^ 32
        else (s.hi + b_hi) / 2 ^ 32),
    ground arith,
  ),
)

double-value :
    (b_lo b_hi : ℕ)
    → b_lo < 2 ^ 32
    → b_hi < 2 ^ 32
    → (double_lo b_lo < 2 ^ 32)
      × (double_hi b_lo b_hi < 2 ^ 32)
      × ((c : ℕ) × (double_hi b_lo b_hi * 2 ^ 32 + double_lo b_lo + c * 2 ^ 64
            ≡ 2 * (b_hi * 2 ^ 32 + b_lo)))
unfolding double_lo double_hi
double-value b_lo b_hi h k = (omega arith, ground arith, (b_hi / 2 ^ 31, ground arith))

-- The bits of `a` that the loop still reads.
bits_left : ℕ → ℕ → ℕ
bits_left zero a = 0
bits_left (suc n) a = a % 2 + 2 * bits_left n (half_int a)

half_int-zero : half_int 0 ≡ 0
unfolding half_int
half_int-zero = refl

bits_left-zero : (n : ℕ) → bits_left n 0 ≡ 0
unfolding bits_left
bits_left-zero zero = refl
bits_left-zero (suc n) = rw half_int-zero (omega (arith, bits_left-zero n))

half_int-one : (a : ℕ) → a < 2 ^ 32 → a / 2 ≡ 0 → half_int a ≡ 0
unfolding half_int
half_int-one a h e = ground arith

half_int-lt : (a : ℕ) → a < 2 ^ 32 → half_int a < 2 ^ 32
unfolding half_int
half_int-lt a h = ground arith

half_int_high : (a : ℕ) → ltb a (2 ^ 31) ≡ false → half_int a ≡ a / 2 + 2 ^ 31
unfolding half_int
half_int_high a h = rw h

-- One round added to what the later rounds come to.
round_sum :
    (r c₁ c₂ c₃ t s s' b b' : ℕ)
    → s' + c₁ * 2 ^ 64 ≡ s
    → b' + c₃ * 2 ^ 64 ≡ 2 * b
    → r + c₂ * 2 ^ 64 ≡ s' + t * b'
    → r + (c₁ + c₂ + t * c₃) * 2 ^ 64 ≡ s + 2 * t * b
round_sum r c₁ c₂ c₃ t s s' b b' e d h = omega (arith, ap (λ (x : ℕ). t * x) d)

times_one : (x b : ℕ) → x ≡ 1 → x * b ≡ b
times_one x b e = rw e (omega arith)

times_zero : (x b : ℕ) → x ≡ 0 → x * b ≡ 0
times_zero x b e = rw e (omega arith)

mult_loop-value :
    (n a b_lo b_hi : ℕ) (s : Sum)
    → a < 2 ^ 32
    → b_lo < 2 ^ 32
    → b_hi < 2 ^ 32
    → Fits s
    → Fits (mult_loop n a b_lo b_hi s)
      × ((c : ℕ) × (value (mult_loop n a b_lo b_hi s) + c * 2 ^ 64
            ≡ value s + bits_left n a * (b_hi * 2 ^ 32 + b_lo)))
unfolding mult_loop bits_left
mult_loop-value zero a b_lo b_hi s small h k f = (f, (0, omega arith))
mult_loop-value (suc n) a b_lo b_hi s small h k f = elim (Bool-cases (a % 2 == 1)) [
  | inl odd ↦
      let (fits, (c₁, sum)) = add_in-value b_lo b_hi s h k f in
      elim (Bool-cases (a / 2 == 0)) [
        | inl last ↦
            let none_left : bits_left n (half_int a) ≡ 0 =
              rw (half_int-one a small (ground arith)) (bits_left-zero n) in
            rw (odd, last, none_left) (fits, (c₁, ground arith))
        | inr more ↦
            let (lo_fits, hi_fits, (c₃, twice)) = double-value b_lo b_hi h k in
            let (done, (c₂, later)) =
              mult_loop-value n (half_int a) (double_lo b_lo) (double_hi b_lo b_hi)
                (add_in b_lo b_hi s) (half_int-lt a small) lo_fits hi_fits fits in
            rw (odd, more)
              (
                done,
                (
                  c₁ + c₂ + bits_left n (half_int a) * c₃,
                  omega (
                    arith,
                    round_sum
                        (value (
                          mult_loop n (half_int a) (double_lo b_lo) (double_hi b_lo b_hi)
                            (add_in b_lo b_hi s)))
                        c₁ c₂ c₃ (bits_left n (half_int a)) (value s + (b_hi * 2 ^ 32 + b_lo))
                        (value (add_in b_lo b_hi s)) (b_hi * 2 ^ 32 + b_lo)
                        (double_hi b_lo b_hi * 2 ^ 32 + double_lo b_lo) sum twice later,
                    times_one (a % 2) (b_hi * 2 ^ 32 + b_lo) (ground arith),
                  ),
                ),
              )
      ]
  | inr even ↦
      let (lo_fits, hi_fits, (c₃, twice)) = double-value b_lo b_hi h k in
      let (done, (c₂, later)) =
        mult_loop-value n (half_int a) (double_lo b_lo) (double_hi b_lo b_hi) s
          (half_int-lt a small) lo_fits hi_fits f in
      rw even (
        done,
        (
          0 + c₂ + bits_left n (half_int a) * c₃,
          omega (
            arith,
            round_sum (value (mult_loop n (half_int a) (double_lo b_lo) (double_hi b_lo b_hi) s)) 0
                c₂ c₃ (bits_left n (half_int a)) (value s) (value s) (b_hi * 2 ^ 32 + b_lo)
                (double_hi b_lo b_hi * 2 ^ 32 + double_lo b_lo) (omega arith) twice later,
            times_zero (a % 2) (b_hi * 2 ^ 32 + b_lo) (ground arith),
          ),
        ),
      )
]

two_pow_add : (n k : ℕ) → 2 ^ (n + k) ≡ 2 ^ n * 2 ^ k
two_pow_add zero k = let e : 0 + k ≡ k = omega arith in rw e (omega arith)
two_pow_add (suc n) k =
    let e : suc n + k ≡ suc (n + k) = omega arith in
    rw (e, pow-suc 2 (n + k), pow-suc 2 n, two_pow_add n k) (omega arith)

bits_left-eq : (n j x a : ℕ) → a ≡ x + j * 2 ^ n → x < 2 ^ n → n ≤ 32 → bits_left n a ≡ x
unfolding bits_left
bits_left-eq zero j x a e h small = omega arith
bits_left-eq (suc n) j x a e h small =
    let split : 2 ^ 31 ≡ 2 ^ n * 2 ^ (31 - n) =
      let back : n + (31 - n) ≡ 31 = omega arith in rw (← two_pow_add n (31 - n), back) in
    let twice : j * 2 ^ suc n ≡ 2 * (j * 2 ^ n) =
      omega (arith, ap (λ (t : ℕ). j * t) (pow-suc 2 n)) in
    let half : x / 2 < 2 ^ n = omega (arith, pow-suc 2 n) in
    elim (Bool-cases (ltb a (2 ^ 31))) [
      | inl low ↦
          let shifted : half_int a ≡ x / 2 + j * 2 ^ n = unfold half_int in ground (arith) in
          omega (arith, bits_left-eq n j (x / 2) (half_int a) shifted half (omega arith))
      | inr high ↦
          let shifted : half_int a ≡ x / 2 + (j + 2 ^ (31 - n)) * 2 ^ n =
            rw (half_int_high a high) (omega arith) in
          omega (
            arith,
            bits_left-eq n (j + 2 ^ (31 - n)) (x / 2) (half_int a) shifted half (omega arith),
          )
    ]

bits_left_all : (a : ℕ) → a < 2 ^ 32 → bits_left 32 a ≡ a
bits_left_all a h = bits_left-eq 32 0 a a (omega arith) h (omega arith)

product_lt : (a b : ℕ) → a < 2 ^ 32 → b < 2 ^ 32 → a * b < 2 ^ 64
product_lt a b h k = grind arith

-- The loop's 64 bits are the product of its two numbers.
mult_loop-product :
    (a b : ℕ)
    → a < 2 ^ 32
    → b < 2 ^ 32
    → Fits (mult_loop 32 a b 0 nothing) × (value (mult_loop 32 a b 0 nothing) ≡ a * b)
mult_loop-product a b h k =
    let (fits, (c, sum)) =
      mult_loop-value 32 a b 0 nothing h k (omega arith) (omega arith, omega arith) in
    (fits, exact (mult_loop 32 a b 0 nothing) c fits sum)
  where
    exact :
        (r : Sum) (c : ℕ)
        → Fits r
        → value r + c * 2 ^ 64 ≡ value nothing + bits_left 32 a * (0 * 2 ^ 32 + b)
        → value r ≡ a * b
    exact r c f e =
        let e' : value r + c * 2 ^ 64 ≡ a * b = e ∙ rw (bits_left_all a h) (omega arith) in
        omega (arith, product_lt a b h k)

-- A 32-bit pattern's distance from 0, whatever its sign.
magnitude-lt : (a : ℕ) → a < 2 ^ 32 → magnitude a < 2 ^ 32
unfolding negate
magnitude-lt a h = ground arith

complement-value :
    (s : Sum)
    → Fits s
    → 0 < value s
    → Fits (complement s) × (value (complement s) + value s ≡ 2 ^ 64)
unfolding complement
complement-value s f pos = ground arith

-- Whether the signs of two patterns differ.
abbrev pub opposite : ℕ → ℕ → Bool
opposite a b = differ (negative a) (negative b)

zero_product : (x y : ℕ) → (x ≡ 0) ⊎ (y ≡ 0) → x * y ≡ 0
zero_product x y (inl e) = rw e (omega arith)
zero_product x y (inr e) = rw e (omega arith)

one_zero : (a b : ℕ) → (a == 0 || b == 0) ≡ true → (a ≡ 0) ⊎ (b ≡ 0)
one_zero a b h = elim (Bool-cases (a == 0)) [
  | inl first ↦ inl (ground arith)
  | inr second ↦ inr (ground arith)
]

magnitudes_zero : (a b : ℕ) → (a ≡ 0) ⊎ (b ≡ 0) → magnitude a * magnitude b ≡ 0
magnitudes_zero a b (inl e) = zero_product (magnitude a) (magnitude b) (inl (rw e))
magnitudes_zero a b (inr e) = zero_product (magnitude a) (magnitude b) (inr (rw e))

product_pos : (x y : ℕ) → 0 < x → 0 < y → 0 < x * y
product_pos x y h k = grind arith

magnitude_pos : (a : ℕ) → a < 2 ^ 32 → a ≢ 0 → 0 < magnitude a
unfolding negate
magnitude_pos a h e = ground arith

-- `MULTU` of two 32-bit patterns: its two words are their product.
pub mult_unsigned :
    (a b : ℕ) → a < 2 ^ 32 → b < 2 ^ 32 → Fits (mult a b false) × (value (mult a b false) ≡ a * b)
unfolding mult
mult_unsigned a b h k = elim (Bool-cases (a == 0 || b == 0)) [
  | inl zero_one ↦
      rw zero_one ((omega arith, omega arith), sym (zero_product a b (one_zero a b zero_one)))
  | inr both ↦ rw both (mult_loop-product a b h k)
]

-- `MULT` of two 32-bit patterns: its two words are, in two's complement, the product of the two
-- signed numbers, for all signs, the lowest number included.
pub mult_signed :
    (a b : ℕ)
    → a < 2 ^ 32
    → b < 2 ^ 32
    → Fits (mult a b true)
      × (value (mult a b true) ≡ (
          if opposite a b
          then (2 ^ 64 - magnitude a * magnitude b) % 2 ^ 64
          else magnitude a * magnitude b))
unfolding mult
mult_signed a b h k = elim (Bool-cases (a == 0 || b == 0)) [
  | inl zero_one ↦
      rw zero_one
        ((omega arith, omega arith), ground (arith, magnitudes_zero a b (one_zero a b zero_one)))
  | inr both ↦
      let (fits, product) =
        mult_loop-product (magnitude a) (magnitude b) (magnitude-lt a h) (magnitude-lt b k) in
      let pos : 0 < magnitude a * magnitude b =
        product_pos (magnitude a) (magnitude b) (magnitude_pos a h (ground arith))
          (magnitude_pos b k (ground arith)) in
      let (fits', turned) =
        complement-value (mult_loop 32 (magnitude a) (magnitude b) 0 nothing) fits (omega arith) in
      elim (Bool-cases (opposite a b)) [
        | inl minus ↦
            rw (both, minus)
              (
                fits',
                omega (
                  arith,
                  product_lt (magnitude a) (magnitude b) (magnitude-lt a h) (magnitude-lt b k),
                ),
              )
        | inr plus ↦ rw (both, plus) (fits, product)
      ]
]
