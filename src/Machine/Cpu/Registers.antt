-- ===== src/Machine/Cpu/Registers.antt =====
-- What the end of an instruction does to the registers, and a whole register instruction.
use nachos_3_4_lab.Prelude.{
  ℕ, ◌/◌, ◌^◌, ◌<◌, ◌≡◌, refl, ◌∙◌, bit_and, false, some, ◌==◌, if◌then◌else◌, get_or-set,
  length-set, length, arith, lt→ltb,
}
use nachos_3_4_lab.Prelude.Outcome.{ok}
use nachos_3_4_lab.Prelude.Bits.{bit_and_step, bit_and_three}
use nachos_3_4_lab.Machine.{
  Machine, pc_reg, next_pc_reg, prev_pc_reg, load_reg, load_value_reg, delayed_load,
}
use nachos_3_4_lab.Machine.Tlb.{Policy}
use nachos_3_4_lab.Machine.Memory.{read_mem}
use nachos_3_4_lab.Machine.Alu.{AluOp, alu, to_rd}
use nachos_3_4_lab.Machine.Decode.{computing, Instruction, decode}
use nachos_3_4_lab.Machine.Cpu.{
  finished, reg, set_reg, next_pc, advance, complete, compute, write_result, execute,
  one_instruction,
}

-- All registers are there, and the delayed load is for one of the general registers.
pub record IsValid (m : Machine) : Type 0 where
  pub all : length m.registers ≡ 40
  pub general : reg load_reg m < 32

reg-set_reg :
    (m : Machine) (i r v : ℕ)
    → i < length m.registers
    → reg r (set_reg i v m) ≡ (if i == r then v else reg r m)
reg-set_reg m i r v h = get_or-set m.registers i r v 0 h

abbrev loaded : (next_reg next_value : ℕ) → Machine → Machine
loaded next_reg next_value m =
    let m₁ = set_reg (reg load_reg m) (reg load_value_reg m) m in
    set_reg 0 0 (set_reg load_value_reg next_value (set_reg load_reg next_reg m₁))

-- The registers after an instruction that has done its work.
pub record Completed (next_reg next_value pc_after : ℕ) (m m' : Machine) : Type 0 where
  pub valid : IsValid m'
  pub same_rest : m' ≡ record m { registers = m'.registers }
  pub registers :
      (r : ℕ)
      → reg r m' ≡ (
          if r == 0
          then 0
          else if r == prev_pc_reg
          then reg pc_reg m
          else if r == pc_reg
          then reg next_pc_reg m
          else if r == next_pc_reg
          then pc_after
          else if r == load_reg
          then next_reg
          else if r == load_value_reg
          then next_value
          else if r == reg load_reg m
          then reg load_value_reg m
          else reg r m)

module _ (next_reg next_value pc_after : ℕ) (m : Machine) (v : IsValid m)
    (general : next_reg < 32) where
  loaded-reg :
      (r : ℕ)
      → reg r (loaded next_reg next_value m) ≡ (
          if r == 0
          then 0
          else if r == load_reg
          then next_reg
          else if r == load_value_reg
          then next_value
          else if r == reg load_reg m
          then reg load_value_reg m
          else reg r m)
  loaded-reg r =
      let m₁ : Machine = set_reg (reg load_reg m) (reg load_value_reg m) m in
      let m₂ : Machine = set_reg load_reg next_reg m₁ in
      let m₃ : Machine = set_reg load_value_reg next_value m₂ in
      let all₁ = length-set m.registers (reg load_reg m) (reg load_value_reg m) in
      let all₂ = length-set m₁.registers load_reg next_reg in
      let all₃ = length-set m₂.registers load_value_reg next_value in
      ground (
        arith,
        v.all,
        v.general,
        all₁,
        all₂,
        all₃,
        reg-set_reg m (reg load_reg m) r (reg load_value_reg m) (omega (arith, v.all, v.general)),
        reg-set_reg m₁ load_reg r next_reg (omega (arith, all₁, v.all)),
        reg-set_reg m₂ load_value_reg r next_value (omega (arith, all₁, all₂, v.all)),
        reg-set_reg m₃ 0 r 0 (omega (arith, all₁, all₂, all₃, v.all)),
      )

  loaded-length : length (loaded next_reg next_value m).registers ≡ 40
  loaded-length =
      let m₁ : Machine = set_reg (reg load_reg m) (reg load_value_reg m) m in
      let m₂ : Machine = set_reg load_reg next_reg m₁ in
      let m₃ : Machine = set_reg load_value_reg next_value m₂ in
      length-set m₃.registers 0 0
      ∙ length-set m₂.registers load_value_reg next_value
      ∙ length-set m₁.registers load_reg next_reg
      ∙ length-set m.registers (reg load_reg m) (reg load_value_reg m)
      ∙ v.all

  advanced-reg :
      (m₁ : Machine) (r : ℕ)
      → length m₁.registers ≡ 40
      → reg r (advance pc_after m₁) ≡ (
          if r == prev_pc_reg
          then reg pc_reg m₁
          else if r == pc_reg
          then reg next_pc_reg m₁
          else if r == next_pc_reg
          then pc_after
          else reg r m₁)
  unfolding advance
  advanced-reg m₁ r all =
      let m₂ : Machine = set_reg prev_pc_reg (reg pc_reg m₁) m₁ in
      let m₃ : Machine = set_reg pc_reg (reg next_pc_reg m₂) m₂ in
      let all₂ = length-set m₁.registers prev_pc_reg (reg pc_reg m₁) in
      let all₃ = length-set m₂.registers pc_reg (reg next_pc_reg m₂) in
      ground (
        arith,
        reg-set_reg m₁ prev_pc_reg r (reg pc_reg m₁) (omega (arith, all)),
        reg-set_reg m₁ prev_pc_reg next_pc_reg (reg pc_reg m₁) (omega (arith, all)),
        reg-set_reg m₂ pc_reg r (reg next_pc_reg m₂) (omega (arith, all, all₂)),
        reg-set_reg m₃ next_pc_reg r pc_after (omega (arith, all, all₂, all₃)),
      )

  advanced-length :
      (m₁ : Machine) → length m₁.registers ≡ 40 → length (advance pc_after m₁).registers ≡ 40
  unfolding advance
  advanced-length m₁ all =
      let m₂ : Machine = set_reg prev_pc_reg (reg pc_reg m₁) m₁ in
      let m₃ : Machine = set_reg pc_reg (reg next_pc_reg m₂) m₂ in
      length-set m₃.registers next_pc_reg pc_after
      ∙ length-set m₂.registers pc_reg (reg next_pc_reg m₂)
      ∙ length-set m₁.registers prev_pc_reg (reg pc_reg m₁)
      ∙ all

  advance-rest :
      (m₁ : Machine)
      → advance pc_after m₁ ≡ record m₁ { registers = (advance pc_after m₁).registers }
  unfolding advance
  advance-rest m₁ = refl

  -- If all registers are there and the delayed load is for a general register, the end of an
  -- instruction that starts a load of a general register carries out the delayed load, keeps the
  -- new one for the next instruction, sets register 0 to 0, moves the three program counters on,
  -- changes no other register and nothing outside them, and leaves the registers as it needs them
  -- again.
  pub complete-Completed :
      (m' : Machine) × (complete (finished next_reg next_value pc_after m) ≡ ok (false, m'))
      × Completed next_reg next_value pc_after m m'
  unfolding complete delayed_load
  complete-Completed =
      let m₁ : Machine = loaded next_reg next_value m in
      let m' : Machine = advance pc_after m₁ in
      let registers : (r : ℕ)
          → reg r m' ≡ (
              if r == 0
              then 0
              else if r == prev_pc_reg
              then reg pc_reg m
              else if r == pc_reg
              then reg next_pc_reg m
              else if r == next_pc_reg
              then pc_after
              else if r == load_reg
              then next_reg
              else if r == load_value_reg
              then next_value
              else if r == reg load_reg m
              then reg load_value_reg m
              else reg r m) =
        λ r. ground (
          arith,
          v.general,
          advanced-reg m₁ r loaded-length,
          loaded-reg r,
          loaded-reg pc_reg,
          loaded-reg next_pc_reg,
        ) in
      (
        m',
        rw (lt→ltb (reg load_reg m) 40 (omega (arith, v.general))) refl,
        record {
          valid = record {
            all = advanced-length m₁ loaded-length;
            general = ground (arith, registers load_reg, general);
          };
          same_rest = unfold advance in refl;
          registers = registers;
        },
      )

low_five : (x : ℕ) → bit_and x 0x1f < 32
low_five x = ground (
  arith,
  bit_and_step x 31,
  bit_and_step (x / 2) 15,
  bit_and_step (x / 2 / 2) 7,
  bit_and_three (x / 2 / 2 / 2),
)

-- If the fetch succeeds, all registers are there, the delayed load is for a general register, and
-- the instruction decodes to one that computes a value for `rd`, then `OneInstruction` runs to its
-- end: it writes the value, then carries out the delayed load over it, leaves none, keeps register
-- 0 at 0, moves the program counter to the next one and that one 4 further, and changes no other
-- register and nothing outside the registers.
pub one_instruction-Completed :
    (p : Policy) (raw value : ℕ) (op : AluOp) (m m₁ : Machine)
    → read_mem p (reg pc_reg m) 4 m ≡ ok (some raw, m₁)
    → IsValid m₁
    → (decode raw).op_code ≡ computing op
    → alu op (reg (decode raw).rs m₁) (reg (decode raw).rt m₁) (decode raw).extra ≡ to_rd value
    → (m' : Machine) × (one_instruction p m ≡ ok (false, m'))
      × Completed 0 0 (next_pc m₁) (set_reg (decode raw).rd value m₁) m'
unfolding one_instruction execute compute write_result
one_instruction-Completed p raw value op m m₁ fetched v is_op result =
    let i : Instruction = decode raw in
    let below : i.rd < 32 = unfold decode in low_five (raw / 2 ^ 11) in
    let valid : IsValid (set_reg i.rd value m₁) = record {
      all = length-set m₁.registers i.rd value ∙ v.all;
      general = ground (
        arith,
        reg-set_reg m₁ i.rd load_reg value (omega (arith, v.all, below)),
        v.general,
        below,
      );
    } in
    let (m', done, c) =
      complete-Completed 0 0 (next_pc m₁) (set_reg i.rd value m₁) valid (omega arith) in
    (m', rw (fetched, is_op, result) done, c)
