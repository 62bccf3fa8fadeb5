-- ===== src/Machine/Alu.antt =====
-- The register instructions of `Machine::OneInstruction` (machine/mipssim.cc): what each computes
-- from `registers[rs]`, `registers[rt]` and `extra`, all as 32-bit patterns.
pub mod Signed
use Prim.Native.Nat.{bit_xor}
use nachos_3_4_lab.Prelude.{
  differ, ℕ, ◌+◌, ◌-◌, ◌*◌, ◌/◌, ◌%◌, ◌^◌, bit_and, bit_or, Bool, true, false, not, ◌&&◌, ltb, leb,
  ◌==◌, if◌then◌else◌,
}
use nachos_3_4_lab.Machine.Mult.{Sum, negative, negate, magnitude, mult}

-- The instructions that compute from registers.
pub data AluOp : Type 0 where
  add addi addiu addu and_ andi div divu lui mult_ multu nor or_ ori : AluOp
  sll sllv slt slti sltiu sltu sra srav srl srlv sub subu xor_ xori : AluOp

-- Where the result goes, or the exception instead of one, or the quotient that is no `int`.
pub data Result : Type 0 where
  to_rd : ℕ → Result
  to_rt : ℕ → Result
  to_hi_lo : (hi lo : ℕ) → Result
  overflowed : Result
  undefined : Result

abbrev pub add32 : ℕ → ℕ → ℕ
add32 a b = (a + b) % 2 ^ 32

abbrev pub sub32 : ℕ → ℕ → ℕ
sub32 a b = (a + 2 ^ 32 - b) % 2 ^ 32

-- `((x ^ y) & SIGN_BIT) != 0`
abbrev pub signs_differ : ℕ → ℕ → Bool
signs_differ x y = differ (negative x) (negative y)

-- `x >> s` of an `int`: the sign fills in.
unfoldable pub shift_right : ℕ → ℕ → ℕ
shift_right x s = if negative x then 2 ^ 32 - 1 - (2 ^ 32 - 1 - x) / 2 ^ s else x / 2 ^ s

abbrev pub shift_left : ℕ → ℕ → ℕ
shift_left x s = x * 2 ^ s % 2 ^ 32

-- `x < y` of two `int`s.
abbrev pub less_signed : ℕ → ℕ → Bool
less_signed x y = if differ (negative x) (negative y) then negative x else ltb x y

-- `x / y` and `x % y` of two `int`s, `y` not 0: towards 0, the remainder with the sign of `x`.
unfoldable pub div_signed : ℕ → ℕ → ℕ
div_signed x y =
    let q = magnitude x / magnitude y in
    if differ (negative x) (negative y) then negate q else q % 2 ^ 32

unfoldable pub mod_signed : ℕ → ℕ → ℕ
mod_signed x y = let r = magnitude x % magnitude y in if negative x then negate r else r

abbrev pub flag : Bool → ℕ
flag b = if b then 1 else 0

-- `OP_ADD` and `OP_ADDI` with its two tests, and `OP_SUB`.
unfoldable pub add_checked : ℕ → ℕ → Bool
add_checked s t = not (signs_differ s t) && signs_differ s (add32 s t)

unfoldable pub addi_checked : ℕ → ℕ → Bool
addi_checked s extra = not (signs_differ s extra) && signs_differ extra (add32 s extra)

unfoldable pub sub_checked : ℕ → ℕ → Bool
sub_checked s t = signs_differ s t && signs_differ s (sub32 s t)

abbrev pub hi_lo : Sum → Result
hi_lo p = to_hi_lo p.hi p.lo

unfoldable pub alu : AluOp → (s t extra : ℕ) → Result
alu add s t extra = if add_checked s t then overflowed else to_rd (add32 s t)
alu addi s t extra = if addi_checked s extra then overflowed else to_rt (add32 s extra)
alu addiu s t extra = to_rt (add32 s extra)
alu addu s t extra = to_rd (add32 s t)
alu and_ s t extra = to_rd (bit_and s t)
alu andi s t extra = to_rt (bit_and s (bit_and extra 0xffff))
alu div s t extra =
    if t == 0
    then to_hi_lo 0 0
    else if s == 2 ^ 31 && t == 2 ^ 32 - 1
    then undefined
    else to_hi_lo (mod_signed s t) (div_signed s t)
alu divu s t extra = if t == 0 then to_hi_lo 0 0 else to_hi_lo (s % t) (s / t)
alu lui s t extra = to_rt (shift_left extra 16)
alu mult_ s t extra = hi_lo (mult s t true)
alu multu s t extra = hi_lo (mult s t false)
alu nor s t extra = to_rd (2 ^ 32 - 1 - bit_or s t)
alu or_ s t extra = to_rd (bit_or s s)
alu ori s t extra = to_rt (bit_or s (bit_and extra 0xffff))
alu sll s t extra = to_rd (shift_left t extra)
alu sllv s t extra = to_rd (shift_left t (bit_and s 0x1f))
alu slt s t extra = to_rd (flag (less_signed s t))
alu slti s t extra = to_rt (flag (less_signed s extra))
alu sltiu s t extra = to_rt (flag (ltb s extra))
alu sltu s t extra = to_rd (flag (ltb s t))
alu sra s t extra = to_rd (shift_right t extra)
alu srav s t extra = to_rd (shift_right t (bit_and s 0x1f))
alu srl s t extra = to_rd (shift_right t extra)
alu srlv s t extra = to_rd (shift_right t (bit_and s 0x1f))
alu sub s t extra = if sub_checked s t then overflowed else to_rd (sub32 s t)
alu subu s t extra = to_rd (sub32 s t)
alu xor_ s t extra = to_rd (bit_xor s t)
alu xori s t extra = to_rt (bit_xor s (bit_and extra 0xffff))
