-- ===== src/AddressSpace.antt =====
-- userprog/addrspace.cc with `Find`, `Clear` and `ClearAll` of machine/machine.cc and bin/noff.h:
-- the memory of a user program, as it is compiled with `MULTI_THREAD`. A number of the header is
-- the 32-bit pattern of its `int`. The host is little-endian, so that `WordToHost` changes nothing.
pub mod Frames
pub mod Load
pub mod Build
pub mod Registers
pub mod Program
pub mod Exit
use nachos_3_4_lab.Prelude.{
  ℕ, zero, suc, ◌+◌, ◌-◌, ◌*◌, ◌/◌, ◌%◌, ◌^◌, List, [], ◌∷◌, Bool, true, false, ◌||◌, Option, none,
  some, ltb, leb, ◌==◌, if◌then◌else◌, get_or, get_elem?, replicate, drop,
}
use nachos_3_4_lab.Prelude.Outcome.{Outcome, ok, abort, wild, ◌>>=◌, ◌>>◌, assert, in_array}
use nachos_3_4_lab.Prelude.Copy.{copy_in}
use nachos_3_4_lab.BitMap
use nachos_3_4_lab.BitMap.{BitMap, div_round_up}
use nachos_3_4_lab.Machine.{
  Machine, TranslationEntry, page_size, num_phys_pages, tlb_size, pc_reg, next_pc_reg,
  num_total_regs, write_register, read_register,
}
use nachos_3_4_lab.Machine.Tlb.{signed_page}

-- `Segment` and `NoffHeader`
pub record Segment : Type 0 where
  pub virtual_addr : ℕ
  pub in_file_addr : ℕ
  pub size : ℕ

pub record NoffHeader : Type 0 where
  pub noff_magic : ℕ
  pub code : Segment
  pub init_data : Segment
  pub uninit_data : Segment

-- `AddrSpace`
pub record AddrSpace : Type 0 where
  pub page_table : List TranslationEntry
  pub num_pages : ℕ

-- An executable, by the bytes that `ReadAt` of so many at a position copies.
abbrev pub Executable : Type 0
Executable = (num_bytes position : ℕ) → Outcome (List ℕ)

-- The words of `noffH` in its 40 bytes.
abbrev word_at : ℕ → List ℕ → ℕ
word_at i b =
    get_or b i 0
    + 256 * get_or b (i + 1) 0
    + 65536 * get_or b (i + 2) 0
    + 16777216 * get_or b (i + 3) 0

abbrev segment_at : ℕ → List ℕ → Segment
segment_at i b = record {
  virtual_addr = word_at i b;
  in_file_addr = word_at (i + 4) b;
  size = word_at (i + 8) b;
}

unfoldable pub noff_header : List ℕ → NoffHeader
noff_header b = record {
  noff_magic = word_at 0 b;
  code = segment_at 4 b;
  init_data = segment_at 16 b;
  uninit_data = segment_at 28 b;
}

-- `numPages`, with `UserStackSize`
abbrev pub pages_for : NoffHeader → ℕ
pages_for h =
    div_round_up ((h.code.size + h.init_data.size + h.uninit_data.size + 1024) % 2 ^ 32) page_size

-- `Machine::Find`
unfoldable pub find_frame : BitMap → Outcome (ℕ × BitMap)
find_frame b = do
  (found, b') ← BitMap.find b
  elim found [ none ↦ abort | some frame ↦ ok (frame, b') ]

-- `Machine::Clear`
unfoldable pub clear_frame : ℕ → BitMap → Outcome BitMap
clear_frame num b = do used ← BitMap.test num b; if used then BitMap.clear num b else ok b

-- The entry that the loop of the constructor writes.
abbrev pub new_page : (i frame : ℕ) → TranslationEntry
new_page i frame = record {
  virtual_page = i;
  physical_page = frame;
  valid = true;
  read_only = false;
  use_bit = false;
  dirty = false;
  hit_rate = 0;
}

-- `for (i = 0; i < numPages; i++)` of the constructor
unfoldable pub new_pages : (rounds i : ℕ) → BitMap → Outcome (List TranslationEntry × BitMap)
new_pages zero i b = ok ([], b)
new_pages (suc n) i b = do
  (frame, b₁) ← find_frame b
  (es, b₂) ← new_pages n (i + 1) b₁
  ok (new_page i frame ∷ es, b₂)

-- `addr % PageSize`, of an `int`
abbrev pub signed_offset : ℕ → ℕ
signed_offset addr =
    if ltb addr (2 ^ 31) then addr % page_size else (2 ^ 32 - (2 ^ 32 - addr) % page_size) % 2 ^ 32

-- `paddr`
unfoldable pub paddr_of : ℕ → List TranslationEntry → Outcome ℕ
paddr_of addr table = elim (get_elem? table (signed_page addr)) [
  | none ↦ wild
  | some e ↦ ok ((e.physical_page * page_size + signed_offset addr) % 2 ^ 32)
]

-- The loop that copies a segment, a byte at a time.
unfoldable pub load_bytes :
    (rounds j : ℕ) → Executable → Segment → List TranslationEntry → List ℕ → Outcome (List ℕ)
load_bytes zero j x s table memory = ok memory
load_bytes (suc n) j x s table memory = do
  paddr ← paddr_of ((s.virtual_addr + j) % 2 ^ 32) table
  bytes ← x 1 ((s.in_file_addr + j) % 2 ^ 32)
  memory' ← copy_in bytes paddr memory
  load_bytes n (j + 1) x s table memory'

-- `if (noffH.code.size > 0)`, and the same for the data
unfoldable pub load_segment :
    Executable → Segment → List TranslationEntry → List ℕ → Outcome (List ℕ)
load_segment x s table memory =
    if s.size == 0 || leb (2 ^ 31) s.size then ok memory else load_bytes s.size 0 x s table memory

-- `AddrSpace::AddrSpace`, after the header has been read
unfoldable pub set_up :
    Executable → NoffHeader → BitMap → List ℕ → Outcome (AddrSpace × BitMap × List ℕ)
set_up x noff_h frames memory = do
  assert (noff_h.noff_magic == 0xbadfad)
  let num_pages = pages_for noff_h
  assert (leb num_pages num_phys_pages)
  (table, frames') ← new_pages num_pages 0 frames
  memory₁ ← copy_in (replicate (num_pages * page_size) 0) 0 memory
  memory₂ ← load_segment x noff_h.code table memory₁
  memory₃ ← load_segment x noff_h.init_data table memory₂
  ok (record { page_table = table; num_pages = num_pages }, frames', memory₃)

-- `AddrSpace::AddrSpace`; `noff_h` is what the 40 bytes of `noffH` hold at first, `frames` is
-- `machine->bitMap` and `memory` is `machine->mainMemory`.
unfoldable pub new_space :
    (noff_h : List ℕ) → Executable → BitMap → List ℕ → Outcome (AddrSpace × BitMap × List ℕ)
new_space noff_h x frames memory = do
  bytes ← x 40 0
  noff_h' ← copy_in bytes 0 noff_h
  set_up x (noff_header noff_h') frames memory

-- The loop over the first entries of a table that clears their frames.
unfoldable pub clear_frames : (rounds : ℕ) → List TranslationEntry → BitMap → Outcome BitMap
clear_frames zero table frames = ok frames
clear_frames (suc n) [] frames = wild
clear_frames (suc n) (e ∷ es) frames = do
  frames' ← clear_frame e.physical_page frames
  clear_frames n es frames'

-- `AddrSpace::~AddrSpace`
unfoldable pub delete_space : AddrSpace → BitMap → Outcome BitMap
delete_space s frames = clear_frames s.num_pages s.page_table frames

-- `Machine::ClearAll`, compiled with or without `USE_TLB`; a table that is NULL has no entry.
unfoldable pub clear_all : (use_tlb : Bool) → Machine → BitMap → Outcome BitMap
clear_all use_tlb m frames =
    clear_frames m.page_table_size
      (elim (if use_tlb then m.tlb else m.page_table) [ none ↦ [] | some table ↦ table ]) frames

-- The loop of `AddrSpace::InitRegisters`
unfoldable pub zero_registers : (rounds i : ℕ) → Machine → Outcome Machine
zero_registers zero i m = ok m
zero_registers (suc n) i m = do m' ← write_register i 0 m; zero_registers n (i + 1) m'

-- `AddrSpace::InitRegisters`; 29 is `StackReg`.
unfoldable pub init_registers : AddrSpace → Machine → Outcome Machine
init_registers s m = do
  m₁ ← zero_registers num_total_regs 0 m
  m₂ ← write_register pc_reg 0 m₁
  m₃ ← write_register next_pc_reg 4 m₂
  write_register 29 ((s.num_pages * page_size + (2 ^ 32 - 16)) % 2 ^ 32) m₃

-- The loop of `AddrSpace::SaveState`
unfoldable pub invalidate : (rounds : ℕ) → List TranslationEntry → Outcome (List TranslationEntry)
invalidate zero es = ok es
invalidate (suc n) [] = wild
invalidate (suc n) (e ∷ es) = do es' ← invalidate n es; ok (record e { valid = false } ∷ es')

-- `AddrSpace::SaveState`
unfoldable pub save_state : Machine → Outcome Machine
save_state m = elim m.tlb [
  | none ↦ wild
  | some es ↦ (do es' ← invalidate tlb_size es; ok (record m { tlb = some es' }))
]

-- `AddrSpace::RestoreState`, compiled with or without `USE_TLB`
unfoldable pub restore_state : (use_tlb : Bool) → AddrSpace → Machine → Machine
restore_state true s m = record m { tlb = some s.page_table; page_table_size = s.num_pages }
restore_state false s m = record m { page_table = some s.page_table; page_table_size = s.num_pages }

-- `IncrementPCRegs` of userprog/exception.cc
unfoldable pub increment_pc_regs : Machine → Outcome Machine
increment_pc_regs m = do next ← read_register next_pc_reg m; write_register pc_reg next m

-- How a system call ends: with `interrupt->Halt()`, or with `currentThread->Finish()`.
pub data Ending : Type 0 where
  halts finishes : Ending

-- `ExceptionHandler` of userprog/exception.cc at a `SyscallException`: `SC_Halt` is 0, `SC_Exit` 1.
unfoldable pub system_call :
    (use_tlb : Bool) → Machine → BitMap → Outcome (Ending × Machine × BitMap)
system_call use_tlb m frames = do
  type ← read_register 2 m
  if type == 0
      then (do frames' ← clear_all use_tlb m frames; ok (halts, m, frames'))
      else if type == 1
      then (do
        frames' ← clear_all use_tlb m frames
        status ← read_register 4 m
        m' ← increment_pc_regs m
        ok (finishes, m', frames'))
      else abort
