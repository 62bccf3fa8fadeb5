-- ===== src/Machine/Alu/Signed.antt =====
-- The register instructions against arithmetic on signed numbers.
use nachos_3_4_lab.Prelude.{
  ◌&&◌, ℕ, zero, suc, ◌+◌, ◌-◌, ◌*◌, ◌/◌, ◌%◌, ◌^◌, ◌<◌, ◌≤◌, ◌≡◌, refl, arith, ltb, leb,
  if◌then◌else◌,
}
use native.Mathlib.Nat.{pow-suc}
use nachos_3_4_lab.Prelude.Bits.{bit_or_self, two_pow_pos}
use nachos_3_4_lab.Machine.Alu.{
  add, addi, sub, or_, slt, slti, srl, Result, to_rd, to_rt, overflowed, flag, shift_right,
  add_checked, addi_checked, sub_checked, alu,
}

-- The signed number of a pattern, moved up by 2 ^ 31.
abbrev pub biased : ℕ → ℕ
biased a = (a + 2 ^ 31) % 2 ^ 32

-- What an exact result comes to: `z` stands for the signed number `z - 2 ^ 32`, which is written if
-- it is an `int`, and else is an overflow.
abbrev pub exactly : (ℕ → Result) → ℕ → Result
exactly dest z = if leb (2 ^ 31) z && ltb z (2 ^ 32 + 2 ^ 31) then dest (z % 2 ^ 32) else overflowed

-- On 32-bit patterns `ADD`, `ADDI` and `SUB` write the exact signed sum or difference when it is an
-- `int`, and raise overflow when it is none.
pub add_sub-exactly :
    (s t extra : ℕ)
    → s < 2 ^ 32
    → t < 2 ^ 32
    → extra < 2 ^ 32
    → (alu add s t extra ≡ exactly to_rd (biased s + biased t))
      × (alu addi s t extra ≡ exactly to_rt (biased s + biased extra))
      × (alu sub s t extra ≡ exactly to_rd (biased s + 2 ^ 32 - biased t))
unfolding alu add_checked addi_checked sub_checked
add_sub-exactly s t extra h k g = (ground arith, ground arith, ground arith)

-- On 32-bit patterns `SLT` and `SLTI` write 1 exactly if the first signed number is less than the
-- second, and else 0.
pub slt-biased :
    (s t extra : ℕ)
    → s < 2 ^ 32
    → t < 2 ^ 32
    → extra < 2 ^ 32
    → (alu slt s t extra ≡ to_rd (flag (ltb (biased s) (biased t))))
      × (alu slti s t extra ≡ to_rt (flag (ltb (biased s) (biased extra))))
unfolding alu
slt-biased s t extra h k g = (ground arith, ground arith)

-- `OR` writes the number in `rs`, whatever `rt` holds.
pub or-rs : (s t extra : ℕ) → alu or_ s t extra ≡ to_rd s
unfolding alu
or-rs s t extra = rw (bit_or_self s) refl

quotient_half : (d t : ℕ) → 2 ≤ d → t / d * 2 ≤ t
quotient_half d t h = grind arith

double_power : (k t : ℕ) → 1 ≤ k → t < 2 ^ 32 → t / 2 ^ k < 2 ^ 31
double_power zero t h g = absurd (omega arith)
double_power (suc k) t h g =
    grind (arith, quotient_half (2 ^ suc k) t (omega (arith, pow-suc 2 k, two_pow_pos k)))

quotient_below : (k t n : ℕ) → t < n → 1 ≤ n → t / 2 ^ k < n
quotient_below k t n h g = omega (arith, two_pow_pos k)

-- `SRL` by at least one place of a 32-bit pattern with the sign bit writes a number with the sign
-- bit, while the pattern divided by the power of two is one without.
pub srl-negative :
    (s t extra : ℕ)
    → 2 ^ 31 ≤ t
    → t < 2 ^ 32
    → 1 ≤ extra
    → (r : ℕ) × (alu srl s t extra ≡ to_rd r) × (2 ^ 31 ≤ r) × (t / 2 ^ extra < 2 ^ 31)
unfolding alu shift_right
srl-negative s t extra h g k = (
  2 ^ 32 - 1 - (2 ^ 32 - 1 - t) / 2 ^ extra,
  ground arith,
  omega (arith, quotient_below extra (2 ^ 32 - 1 - t) (2 ^ 31) (omega arith) (omega arith)),
  double_power extra t k g,
)
