-- ===== src/Machine/Memory.antt =====
-- `Machine::ReadMem` and `Machine::WriteMem` of machine/translate.cc, and what an exception does
-- on the way (machine/machine.cc, userprog/exception.cc). The host is little-endian, so that
-- `WordToHost` and the like change nothing.
pub mod Bytes
pub mod Access
use nachos_3_4_lab.Prelude.{
  ℕ, ◌+◌, ◌*◌, ◌/◌, ◌%◌, List, Bool, true, false, Option, none, some, ltb, leb, ◌==◌, if◌then◌else◌,
  length, get_or, set,
}
use nachos_3_4_lab.Prelude.Outcome.{Outcome, ok, abort, wild, ◌>>=◌, ◌>>◌, in_array}
use nachos_3_4_lab.Disk.{char_at}
use nachos_3_4_lab.Machine.{
  Machine, TranslationEntry, Exception, page_fault, bad_vaddr_reg, read_register, delayed_load,
}
use nachos_3_4_lab.Machine.Translate.{translate, fault, address}
use nachos_3_4_lab.Machine.Tlb.{Policy, tlb_swap}

-- The branch of `ExceptionHandler` for a page fault.
unfoldable pub page_fault_handler : Policy → Machine → Outcome Machine
page_fault_handler p m = do
  vaddr ← read_register bad_vaddr_reg m
  elim m.tlb [ none ↦ ok m | some es ↦ tlb_swap p vaddr m ]

-- `ExceptionHandler` for all but a system call: any other exception fails its ASSERT.
unfoldable pub exception_handler : Policy → Exception → Machine → Outcome Machine
exception_handler p page_fault m = page_fault_handler p m
exception_handler p _ m = abort

-- `Machine::RaiseException`
unfoldable pub raise_exception : Policy → Exception → ℕ → Machine → Outcome Machine
raise_exception p which bad_vaddr m = do
  m₁ ← delayed_load 0 0 (record m { registers = set m.registers bad_vaddr_reg bad_vaddr })
  exception_handler p which m₁

-- The second translation, after a page fault; without an address of its own the code goes on with
-- an uninitialised one. Any other exception makes the access fail.
unfoldable pub translate_again :
    Policy → Exception → (addr size : ℕ) → Machine → Outcome (Option ℕ × Machine)
translate_again p page_fault addr size m = do
  (t, m') ← translate addr size true m
  elim t [ address a ↦ ok (some a, m') | fault e ↦ wild ]
translate_again p _ addr size m = ok (none, m)

-- The part that `ReadMem` and `WriteMem` share: the physical address.
unfoldable pub physical :
    Policy → (addr size : ℕ) (writing : Bool) → Machine → Outcome (Option ℕ × Machine)
physical p addr size writing m = do
  (t, m₁) ← translate addr size writing m
  elim t [
    | address a ↦ ok (some a, m₁)
    | fault e ↦ (do m₂ ← raise_exception p e addr m₁; translate_again p e addr size m₂)
  ]

-- The bytes at a physical address as a number, low byte first; a single one is a `char`.
unfoldable pub number_at : (size a : ℕ) → List ℕ → Outcome ℕ
number_at size a bytes =
    if size == 1
    then ok (char_at bytes a)
    else if size == 2
    then ok (get_or bytes a 0 + 256 * get_or bytes (a + 1) 0)
    else if size == 4
    then ok (
        get_or bytes a 0
        + 256 * get_or bytes (a + 1) 0
        + 65536 * get_or bytes (a + 2) 0
        + 16777216 * get_or bytes (a + 3) 0)
    else abort

unfoldable pub load : (size a : ℕ) → List ℕ → Outcome ℕ
load size a bytes = in_array (leb (a + size) (length bytes)) >> number_at size a bytes

-- The low bytes of a number at a physical address.
abbrev pub set_two : (a value : ℕ) → List ℕ → List ℕ
set_two a value bytes = set (set bytes a (value % 256)) (a + 1) (value / 256 % 256)

unfoldable pub set_bytes : (size a value : ℕ) → List ℕ → Outcome (List ℕ)
set_bytes size a value bytes =
    if size == 1
    then ok (set bytes a (value % 256))
    else if size == 2
    then ok (set_two a value bytes)
    else if size == 4
    then ok (set_two (a + 2) (value / 65536) (set_two a value bytes))
    else abort

unfoldable pub store : (size a value : ℕ) → List ℕ → Outcome (List ℕ)
store size a value bytes = in_array (leb (a + size) (length bytes)) >> set_bytes size a value bytes

-- `Machine::ReadMem`; `none` is the result FALSE.
unfoldable pub read_mem : Policy → (addr size : ℕ) → Machine → Outcome (Option ℕ × Machine)
read_mem p addr size m = do
  (t, m') ← physical p addr size false m
  elim t [ none ↦ ok (none, m') | some a ↦ (do value ← load size a m'.memory; ok (some value, m')) ]

-- `Machine::WriteMem`
unfoldable pub write_mem : Policy → (addr size value : ℕ) → Machine → Outcome (Bool × Machine)
write_mem p addr size value m = do
  (t, m') ← physical p addr size true m
  elim t [
    | none ↦ ok (false, m')
    | some a ↦ (do bytes ← store size a value m'.memory; ok (true, record m' { memory = bytes }))
  ]
