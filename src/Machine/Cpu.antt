-- ===== src/Machine/Cpu.antt =====
-- `Machine::OneInstruction` of machine/mipssim.cc.
pub mod Registers
use nachos_3_4_lab.Prelude.{
  ℕ, ◌+◌, ◌*◌, ◌/◌, ◌%◌, ◌^◌, bit_and, bit_or, List, Bool, true, false, not, ◌||◌, Option, none,
  some, leb, ltb, ◌==◌, if◌then◌else◌, get_or, set,
}
use nachos_3_4_lab.Prelude.Outcome.{Outcome, ok, wild, ◌>>=◌, ◌>>◌, assert}
use nachos_3_4_lab.Machine.{
  Machine, Exception, address_error, overflow, illegal_instr, hi_reg, lo_reg, pc_reg, next_pc_reg,
  prev_pc_reg, load_reg, load_value_reg, bad_vaddr_reg, delayed_load,
}
use nachos_3_4_lab.Machine.Mult.{negative}
use nachos_3_4_lab.Machine.Tlb.{Policy}
use nachos_3_4_lab.Machine.Memory.{read_mem, write_mem, raise_exception}
use nachos_3_4_lab.Machine.Alu.{
  AluOp, Result, to_rd, to_rt, to_hi_lo, overflowed, undefined, alu, add32, shift_left,
}
use nachos_3_4_lab.Machine.Decode.{
  JumpOp, beq, bgez, bgezal, bgtz, blez, bltz, bltzal, bne, j, jal, jalr, jr, LoadOp, lb, lbu, lh,
  lhu, lw, lwl, lwr, StoreOp, sb, sh, sw, swl, swr, MoveOp, mfhi, mflo, mthi, mtlo, OpCode,
  computing, jumping, loading, storing, moving, op_syscall, op_unimp, op_res, Instruction, decode,
}

-- How an instruction ends: its work is done, with the delayed load that it starts and the program
-- counter after it; or `OneInstruction` returns at once; or the kernel takes over for a system call.
pub data Step : Type 0 where
  finished : (next_load_reg next_load_value pc_after : ℕ) → Machine → Step
  returned : Machine → Step
  system_call : Machine → Step

abbrev pub reg : ℕ → Machine → ℕ
reg i m = get_or m.registers i 0

abbrev pub set_reg : ℕ → ℕ → Machine → Machine
set_reg i v m = record m { registers = set m.registers i v }

-- `registers[NextPCReg] + 4`, and a branch's target.
abbrev pub next_pc : Machine → ℕ
next_pc m = add32 (reg next_pc_reg m) 4

abbrev pub target : Instruction → Machine → ℕ
target i m = add32 (reg next_pc_reg m) (shift_left i.extra 2)

-- No load is delayed.
abbrev pub plain : ℕ → Machine → Step
plain pc_after m = finished 0 0 pc_after m

-- `RaiseException(...); return;`
unfoldable pub raise_and_return : Policy → Exception → ℕ → Machine → Outcome Step
raise_and_return p which vaddr m = do m' ← raise_exception p which vaddr m; ok (returned m')

unfoldable pub write_result :
    Policy → Instruction → (pc_after : ℕ) → Result → Machine → Outcome Step
write_result p i pc_after (to_rd v) m = ok (plain pc_after (set_reg i.rd v m))
write_result p i pc_after (to_rt v) m = ok (plain pc_after (set_reg i.rt v m))
write_result p i pc_after (to_hi_lo hi lo) m =
    ok (plain pc_after (set_reg hi_reg hi (set_reg lo_reg lo m)))
write_result p i pc_after overflowed m = raise_and_return p overflow 0 m
write_result p i pc_after undefined m = wild

unfoldable pub compute : Policy → AluOp → Instruction → (pc_after : ℕ) → Machine → Outcome Step
compute p op i pc_after m = write_result p i pc_after (alu op (reg i.rs m) (reg i.rt m) i.extra) m

-- The branches and jumps: the registers and the program counter after them.
abbrev pub branch_if : Bool → Instruction → (pc_after : ℕ) → Machine → Step
branch_if taken i pc_after m = plain (if taken then target i m else pc_after) m

abbrev pub jump_to : Instruction → (pc_after : ℕ) → ℕ
jump_to i pc_after = bit_or (bit_and pc_after 0xf0000000) (shift_left i.extra 2)

unfoldable pub jump : JumpOp → Instruction → (pc_after : ℕ) → Machine → Step
jump beq i pc_after m = branch_if (reg i.rs m == reg i.rt m) i pc_after m
jump bgezal i pc_after m =
    let m' = set_reg 31 (next_pc m) m in branch_if (not (negative (reg i.rs m'))) i pc_after m'
jump bgez i pc_after m = branch_if (not (negative (reg i.rs m))) i pc_after m
jump bgtz i pc_after m = branch_if (not (negative (reg i.rs m) || reg i.rs m == 0)) i pc_after m
jump blez i pc_after m = branch_if (negative (reg i.rs m) || reg i.rs m == 0) i pc_after m
jump bltzal i pc_after m =
    let m' = set_reg 31 (next_pc m) m in branch_if (negative (reg i.rs m')) i pc_after m'
jump bltz i pc_after m = branch_if (negative (reg i.rs m)) i pc_after m
jump bne i pc_after m = branch_if (not (reg i.rs m == reg i.rt m)) i pc_after m
jump jal i pc_after m = plain (jump_to i pc_after) (set_reg 31 (next_pc m) m)
jump j i pc_after m = plain (jump_to i pc_after) m
jump jalr i pc_after m = let m' = set_reg i.rd (next_pc m) m in plain (reg i.rs m') m'
jump jr i pc_after m = plain (reg i.rs m) m

-- `if (!machine->ReadMem(...)) return;` and what follows with the value.
unfoldable pub reading :
    Policy → (addr size : ℕ) → Machine → (ℕ → Machine → Outcome Step) → Outcome Step
reading p addr size m next = do
  (r, m') ← read_mem p addr size m
  elim r [ none ↦ ok (returned m') | some value ↦ next value m' ]

unfoldable pub writing : Policy → (addr size value pc_after : ℕ) → Machine → Outcome Step
writing p addr size value pc_after m = do
  (done, m') ← write_mem p addr size value m
  ok (if done then plain pc_after m' else returned m')

-- The value that a load of one or two bytes leaves.
unfoldable pub extend : (signed : Bool) → (sign mask fill value : ℕ) → ℕ
extend signed sign mask fill value =
    if not (bit_and value sign == 0)
    then (if signed then bit_or value fill else bit_and value mask)
    else bit_and value mask

-- What `LWR` joins with: the register, or what is on its way there.
abbrev pub current : Instruction → Machine → ℕ
current i m = if reg load_reg m == i.rt then reg load_value_reg m else reg i.rt m

unfoldable pub load_byte :
    Bool → Policy → (tmp : ℕ) → Instruction → (pc_after : ℕ) → Machine → Outcome Step
load_byte signed p tmp i pc_after m =
    reading p tmp 1 m
      λ value m'. ok (finished i.rt (extend signed 0x80 0xff 0xffffff00 value) pc_after m')

unfoldable pub load_half :
    Bool → Policy → (tmp : ℕ) → Instruction → (pc_after : ℕ) → Machine → Outcome Step
load_half signed p tmp i pc_after m =
    if not (bit_and tmp 1 == 0)
    then raise_and_return p address_error tmp m
    else (reading p tmp 2 m
        λ value m'. ok (finished i.rt (extend signed 0x8000 0xffff 0xffff0000 value) pc_after m'))

-- The loads. The ASSERT of `LWL` and `LWR` leaves only the case 0 of their switch.
unfoldable pub load_op :
    LoadOp → Policy → (tmp : ℕ) → Instruction → (pc_after : ℕ) → Machine → Outcome Step
load_op lb p tmp i pc_after m = load_byte true p tmp i pc_after m
load_op lbu p tmp i pc_after m = load_byte false p tmp i pc_after m
load_op lh p tmp i pc_after m = load_half true p tmp i pc_after m
load_op lhu p tmp i pc_after m = load_half false p tmp i pc_after m
load_op lw p tmp i pc_after m =
    if not (bit_and tmp 3 == 0)
    then raise_and_return p address_error tmp m
    else (reading p tmp 4 m λ value m'. ok (finished i.rt value pc_after m'))
load_op lwl p tmp i pc_after m =
    assert (bit_and tmp 3 == 0)
    >> (reading p tmp 4 m λ value m'. ok (finished i.rt value pc_after m'))
load_op lwr p tmp i pc_after m =
    assert (bit_and tmp 3 == 0)
    >> (reading p tmp 4 m λ value m'.
        ok
          (finished i.rt (bit_or (bit_and (current i m') 0xffffff00) (value / 2 ^ 24)) pc_after m'))

-- The stores; likewise for `SWL` and `SWR`.
unfoldable pub store_op :
    StoreOp → Policy → (tmp : ℕ) → Instruction → (pc_after : ℕ) → Machine → Outcome Step
store_op sb p tmp i pc_after m = writing p tmp 1 (reg i.rt m) pc_after m
store_op sh p tmp i pc_after m = writing p tmp 2 (reg i.rt m) pc_after m
store_op sw p tmp i pc_after m = writing p tmp 4 (reg i.rt m) pc_after m
store_op swl p tmp i pc_after m =
    assert (bit_and tmp 3 == 0)
    >> (reading p tmp 4 m λ value m'. writing p tmp 4 (reg i.rt m') pc_after m')
store_op swr p tmp i pc_after m =
    assert (bit_and tmp 3 == 0)
    >> (reading p tmp 4 m λ value m'.
        writing p tmp 4 (bit_or (bit_and value 0xffffff) (shift_left (reg i.rt m') 24)) pc_after m')

unfoldable pub move : MoveOp → Instruction → Machine → Machine
move mfhi i m = set_reg i.rd (reg hi_reg m) m
move mflo i m = set_reg i.rd (reg lo_reg m) m
move mthi i m = set_reg hi_reg (reg i.rs m) m
move mtlo i m = set_reg lo_reg (reg i.rs m) m

-- `switch (instr->opCode)`
unfoldable pub execute : OpCode → Policy → Instruction → (pc_after : ℕ) → Machine → Outcome Step
execute (computing op) p i pc_after m = compute p op i pc_after m
execute (jumping op) p i pc_after m = ok (jump op i pc_after m)
execute (loading op) p i pc_after m = load_op op p (add32 (reg i.rs m) i.extra) i pc_after m
execute (storing op) p i pc_after m = store_op op p (add32 (reg i.rs m) i.extra) i pc_after m
execute (moving op) p i pc_after m = ok (plain pc_after (move op i m))
execute op_syscall p i pc_after m = do
  m' ← delayed_load 0 0 (set_reg bad_vaddr_reg 0 m)
  ok (system_call m')
execute op_res p i pc_after m = raise_and_return p illegal_instr 0 m
execute op_unimp p i pc_after m = raise_and_return p illegal_instr 0 m

-- The end of `OneInstruction`.
unfoldable pub advance : (pc_after : ℕ) → Machine → Machine
advance pc_after m =
    let m₁ = set_reg prev_pc_reg (reg pc_reg m) m in
    let m₂ = set_reg pc_reg (reg next_pc_reg m₁) m₁ in set_reg next_pc_reg pc_after m₂

-- What `OneInstruction` leaves behind: the machine, and whether the kernel is to serve a call.
unfoldable pub complete : Step → Outcome (Bool × Machine)
complete (finished next_load_reg next_load_value pc_after m) = do
  m' ← delayed_load next_load_reg next_load_value m
  ok (false, advance pc_after m')
complete (returned m) = ok (false, m)
complete (system_call m) = ok (true, m)

-- `Machine::OneInstruction`
pub one_instruction : Policy → Machine → Outcome (Bool × Machine)
one_instruction p m = do
  (r, m') ← read_mem p (reg pc_reg m) 4 m
  elim r [
    | none ↦ ok (false, m')
    | some raw ↦ (do
      let i = decode raw
      step ← execute i.op_code p i (next_pc m') m'
      complete step)
  ]
