-- ===== src/Machine.antt =====
-- machine/machine.cc: the simulated MIPS host. A register is the 32-bit pattern of its `int`; a
-- byte of memory is a number.
pub mod Translate
pub mod Tlb
pub mod Mult
pub mod Alu
pub mod Memory
pub mod Decode
pub mod Cpu
use nachos_3_4_lab.Prelude.{
  ℕ, ◌+◌, ◌*◌, ◌<◌, List, [], ◌∷◌, Bool, true, false, Option, none, some, ltb, get_or, set,
  replicate,
}
use nachos_3_4_lab.Prelude.Outcome.{Outcome, ok, abort, ◌>>=◌, ◌>>◌, assert, in_array}

-- `PageSize`, `NumPhysPages`, `MemorySize` and `TLBSize`
abbrev pub page_size : ℕ
page_size = 128

abbrev pub num_phys_pages : ℕ
num_phys_pages = 32

abbrev pub memory_size : ℕ
memory_size = num_phys_pages * page_size

abbrev pub tlb_size : ℕ
tlb_size = 4

-- `ExceptionType`, less the count of them
pub data Exception : Type 0 where
  no_exception syscall page_fault read_only bus_error address_error overflow illegal_instr :
      Exception

-- `TranslationEntry`
pub record TranslationEntry : Type 0 where
  pub virtual_page : ℕ
  pub physical_page : ℕ
  pub valid : Bool
  pub read_only : Bool
  pub use_bit : Bool
  pub dirty : Bool
  pub hit_rate : ℕ

-- `Machine`: `none` for a table is the pointer NULL.
pub record Machine : Type 0 where
  pub registers : List ℕ
  pub memory : List ℕ
  pub tlb : Option (List TranslationEntry)
  pub page_table : Option (List TranslationEntry)
  pub page_table_size : ℕ

-- `LoReg` and the other special registers
abbrev pub hi_reg : ℕ
hi_reg = 32

abbrev pub lo_reg : ℕ
lo_reg = 33

abbrev pub pc_reg : ℕ
pc_reg = 34

abbrev pub next_pc_reg : ℕ
next_pc_reg = 35

abbrev pub prev_pc_reg : ℕ
prev_pc_reg = 36

abbrev pub load_reg : ℕ
load_reg = 37

abbrev pub load_value_reg : ℕ
load_value_reg = 38

abbrev pub bad_vaddr_reg : ℕ
bad_vaddr_reg = 39

abbrev pub num_total_regs : ℕ
num_total_regs = 40

-- `Machine::Machine` without `USE_TLB`: no table is there yet.
pub init : Machine
init = record {
  registers = replicate num_total_regs 0;
  memory = replicate memory_size 0;
  tlb = none;
  page_table = none;
  page_table_size = 0;
}

-- `Machine::ReadRegister` and `Machine::WriteRegister`
unfoldable pub read_register : ℕ → Machine → Outcome ℕ
read_register num m = do assert (ltb num num_total_regs); ok (get_or m.registers num 0)

unfoldable pub write_register : ℕ → ℕ → Machine → Outcome Machine
write_register num value m = do
  assert (ltb num num_total_regs)
  ok (record m { registers = set m.registers num value })

-- `Machine::DelayedLoad` of machine/mipssim.cc
unfoldable pub delayed_load : ℕ → ℕ → Machine → Outcome Machine
delayed_load next_reg next_value m = do
  in_array (ltb (get_or m.registers load_reg 0) num_total_regs)
  let r₁ = set m.registers (get_or m.registers load_reg 0) (get_or m.registers load_value_reg 0)
  let r₂ = set (set r₁ load_reg next_reg) load_value_reg next_value
  ok (record m { registers = set r₂ 0 0 })
