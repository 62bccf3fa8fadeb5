-- ===== src/Machine/Mult.antt =====
-- `Mult` of machine/mipssim.cc: a 64-bit product by shifting and adding. Every `int` and
-- `unsigned int` is its 32-bit pattern.
pub mod Product
use nachos_3_4_lab.Prelude.{
  differ, ℕ, zero, suc, ◌+◌, ◌-◌, ◌*◌, ◌/◌, ◌%◌, ◌^◌, Bool, true, false, not, ◌&&◌, ◌||◌, ltb, leb,
  ◌==◌, if◌then◌else◌,
}

-- `x >> 1` of an `int`: the sign bit stays.
unfoldable pub half_int : ℕ → ℕ
half_int a = if ltb a (2 ^ 31) then a / 2 else a / 2 + 2 ^ 31

-- The variables of the loop.
pub record Sum : Type 0 where
  pub lo : ℕ
  pub hi : ℕ

-- `lo += bLo; if (lo < bLo) hi += 1; hi += bHi;`
unfoldable pub add_in : (b_lo b_hi : ℕ) → Sum → Sum
add_in b_lo b_hi s =
    let lo = (s.lo + b_lo) % 2 ^ 32 in
    let hi = (if ltb lo b_lo then (s.hi + 1) % 2 ^ 32 else s.hi) in
    record { lo = lo; hi = (hi + b_hi) % 2 ^ 32 }

-- `bHi <<= 1; if (bLo & 0x80000000) bHi |= 1;` and `bLo <<= 1`. The low bit of `bHi` is 0 then.
unfoldable pub double_hi : (b_lo b_hi : ℕ) → ℕ
double_hi b_lo b_hi = b_hi * 2 % 2 ^ 32 + (if leb (2 ^ 31) b_lo then 1 else 0)

unfoldable pub double_lo : ℕ → ℕ
double_lo b_lo = b_lo * 2 % 2 ^ 32

-- The loop. `a & 1` is `a % 2`, and `(a & 0xfffffffe) == 0` is `a / 2 == 0`.
pub mult_loop : ℕ → (a b_lo b_hi : ℕ) → Sum → Sum
mult_loop zero a b_lo b_hi s = s
mult_loop (suc n) a b_lo b_hi s =
    let s' = (if a % 2 == 1 then add_in b_lo b_hi s else s) in
    let more = mult_loop n (half_int a) (double_lo b_lo) (double_hi b_lo b_hi) s' in
    if a % 2 == 1 && a / 2 == 0 then s' else more

-- `-x` of an `int`, and whether it is negative.
unfoldable pub negate : ℕ → ℕ
negate a = (2 ^ 32 - a) % 2 ^ 32

abbrev pub negative : ℕ → Bool
negative a = leb (2 ^ 31) a

abbrev pub magnitude : ℕ → ℕ
magnitude a = if negative a then negate a else a

-- `hi = ~hi; lo = ~lo; lo++; if (lo == 0) hi++;`
unfoldable pub complement : Sum → Sum
complement s =
    let lo = (2 ^ 32 - 1 - s.lo + 1) % 2 ^ 32 in
    record {
      lo = lo;
      hi = (if lo == 0 then (2 ^ 32 - 1 - s.hi + 1) % 2 ^ 32 else 2 ^ 32 - 1 - s.hi);
    }

abbrev pub nothing : Sum
nothing = record { lo = 0; hi = 0 }

-- `Mult`
pub mult : (a b : ℕ) → Bool → Sum
unfolding mult_loop
mult a b signed_arith =
    if a == 0 || b == 0
    then nothing
    else if not signed_arith
    then mult_loop 32 a b 0 nothing
    else if differ (negative a) (negative b)
    then complement (mult_loop 32 (magnitude a) (magnitude b) 0 nothing)
    else mult_loop 32 (magnitude a) (magnitude b) 0 nothing
