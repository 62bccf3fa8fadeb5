-- ===== src/Tests/Programs.antt =====
-- A program of 48 bytes, loaded on a machine that has given away its first frame.
use nachos_3_4_lab.Prelude.{
  sym, set, ℕ, ◌+◌, ◌*◌, ◌%◌, ◌^◌, ◌<◌, ◌≡◌, refl, ap, List, [], ◌∷◌, true, false, if◌then◌else◌,
  ltb, none, some, length, get_or, replicate, length-replicate, arith,
}
use nachos_3_4_lab.Prelude.Outcome.{ok}
use nachos_3_4_lab.Prelude.Copy.{copy_in, put_bytes, bytes_at}
use nachos_3_4_lab.BitMap.{BitMap}
use nachos_3_4_lab.BitMap.Laws.{IsValid, bit}
use nachos_3_4_lab.BitMap.Count.{free}
use nachos_3_4_lab.Machine.{Machine}
use nachos_3_4_lab.Machine.Tlb.{lru}
use nachos_3_4_lab.Machine.Memory.{read_mem}
use nachos_3_4_lab.AddressSpace.{
  Executable, NoffHeader, AddrSpace, noff_header, new_space, delete_space, clear_all, restore_state,
  new_pages, system_call, finishes,
}
use nachos_3_4_lab.AddressSpace.Load.{place}
use nachos_3_4_lab.AddressSpace.Build.{
  IsExecutable, IsProgram, Built, space_on, new_space-Built, delete_space-new_space,
}
use nachos_3_4_lab.AddressSpace.Program.{word_of, new_space-read_mem, second_space_zeroes}
use nachos_3_4_lab.AddressSpace.Exit.{frames_of-pages_on, system_call-clear_all}
use nachos_3_4_lab.AddressSpace.Frames.{pages_on, Chain, new_pages-Chain}

-- The header, eight bytes of code for address 0, and four of data for address 128.
abbrev file : List ℕ
file =
    173 ∷ 223 ∷ 186 ∷ 0 ∷ 0 ∷ 0 ∷ 0 ∷ 0 ∷ 40 ∷ 0 ∷ 0 ∷ 0 ∷ 8 ∷ 0 ∷ 0 ∷ 0 ∷ 128 ∷ 0 ∷ 0 ∷ 0 ∷ 48 ∷ 0
    ∷ 0 ∷ 0 ∷ 4 ∷ 0 ∷ 0 ∷ 0 ∷ 0 ∷ 0 ∷ 0 ∷ 0 ∷ 0 ∷ 0 ∷ 0 ∷ 0 ∷ 0 ∷ 0 ∷ 0 ∷ 0 ∷ 1 ∷ 2 ∷ 3 ∷ 4 ∷ 5 ∷ 6
    ∷ 7 ∷ 8 ∷ 9 ∷ 10 ∷ 11 ∷ 12 ∷ []

abbrev executable : Executable
executable n position = ok (bytes_at n position file)

abbrev header : NoffHeader
header = record {
  noff_magic = 0xbadfad;
  code = record { virtual_addr = 0; in_file_addr = 40; size = 8 };
  init_data = record { virtual_addr = 128; in_file_addr = 48; size = 4 };
  uninit_data = record { virtual_addr = 0; in_file_addr = 0; size = 0 };
}

abbrev code : ℕ → ℕ
code j = get_or file (40 + j) 0

abbrev data_bytes : ℕ → ℕ
data_bytes j = get_or file (48 + j) 0

abbrev garbage : List ℕ
garbage = replicate 40 9

file-IsExecutable : IsExecutable executable garbage header
unfolding bytes_at copy_in put_bytes noff_header
file-IsExecutable = record {
  bytes = bytes_at 40 0 file;
  raw = bytes_at 40 0 file;
  did_read = refl;
  copied = refl;
  header = refl;
}

one_byte :
    (o j : ℕ) → o + j < 2 ^ 32 → executable 1 ((o + j) % 2 ^ 32) ≡ ok (get_or file (o + j) 0 ∷ [])
unfolding bytes_at
one_byte o j lt =
    let same : (o + j) % 2 ^ 32 ≡ o + j = omega (arith, lt) in
    ap (λ p. ok (get_or file p 0 ∷ [])) same

file-IsProgram : IsProgram executable header code data_bytes
file-IsProgram = record {
  magic = refl;
  small = omega arith;
  code_readable = record {
    in_space = omega arith;
    reads = λ j lt. one_byte 40 j (omega (arith, lt));
  };
  data_readable = record {
    in_space = omega arith;
    reads = λ j lt. one_byte 48 j (omega (arith, lt));
  };
  apart = λ i j p q e. omega (arith, p, q, e);
}

-- The frames, of which the first is used.
abbrev frames : BitMap
frames = record { num_bits = 32; num_words = 1; words = 1 ∷ [] }

frames-IsValid : IsValid frames
frames-IsValid = record { words_up = refl; stored = refl }

frames-free : free frames ≡ 31
unfolding bit
frames-free = refl

abbrev memory : List ℕ
memory = replicate 4096 7

memory_whole : length memory ≡ 4096
memory_whole = length-replicate {A = ℕ} 4096 7

abbrev host : Machine
host = record {
  registers = replicate 40 3;
  memory = memory;
  tlb = none;
  page_table = none;
  page_table_size = 0;
}

new_space-Built_example :
    (a : List ℕ) × (frames' : BitMap) × (memory' : List ℕ) × (new_space garbage executable frames
        memory
      ≡ ok (space_on header a, frames', memory'))
    × Built header code data_bytes frames memory a frames' memory'
new_space-Built_example =
    new_space-Built executable header code data_bytes file-IsProgram memory frames-IsValid refl
      memory_whole file-IsExecutable (omega (arith, frames-free))

delete_space-new_space_example :
    (space : AddrSpace) × (frames₁ frames₂ : BitMap) × (memory' : List ℕ) × (new_space garbage
        executable frames memory
      ≡ ok (space, frames₁, memory'))
    × (delete_space space frames₁ ≡ ok frames₂)
    × (clear_all true (restore_state true space host) frames₁ ≡ ok frames₂)
    × (free frames₁ + 9 ≡ free frames)
    × ((s : ℕ) → bit frames₂ s ≡ bit frames s)
delete_space-new_space_example =
    delete_space-new_space executable header code data_bytes file-IsProgram memory frames-IsValid
      refl memory_whole true host file-IsExecutable (omega (arith, frames-free))

new_space-read_mem_example :
    (space : AddrSpace) × (frames' : BitMap) × (memory' : List ℕ) × (m' : Machine) × (new_space
        garbage executable frames memory
      ≡ ok (space, frames', memory'))
    × (read_mem lru 4 4 (restore_state false space (record host { memory = memory' }))
        ≡ ok (some (word_of code 4), m'))
new_space-read_mem_example =
    new_space-read_mem lru executable header code data_bytes file-IsProgram host frames-IsValid refl
      memory_whole refl 4 file-IsExecutable (omega (arith, frames-free)) refl (omega arith)

second_space_zeroes_example :
    (a a' : List ℕ) × (frames₁ frames₂ : BitMap) × (memory₁ memory₂ : List ℕ) × (new_space garbage
        executable frames memory
      ≡ ok (space_on header a, frames₁, memory₁))
    × (new_space garbage executable frames₁ memory₁ ≡ ok (space_on header a', frames₂, memory₂))
    × ((va : ℕ)
        → va < 9 * 128
        → get_or memory₂ (place a va) 0
          ≡ (if ltb (place a va) (9 * 128) then 0 else get_or memory₁ (place a va) 0))
second_space_zeroes_example =
    second_space_zeroes executable executable header header code data_bytes code data_bytes
      file-IsProgram file-IsProgram memory frames-IsValid refl memory_whole file-IsExecutable
      file-IsExecutable (omega (arith, frames-free))

-- Two frames taken, and a machine on them whose program calls `Exit`.
two_taken :
    (a : List ℕ) × (frames₁ : BitMap) × (new_pages 2 0 frames ≡ ok (pages_on 0 a, frames₁))
    × (length a ≡ 2)
    × Chain frames a frames₁
    × IsValid frames₁
    × (frames₁.num_bits ≡ 32)
two_taken = new_pages-Chain 2 0 {b = frames} frames-IsValid (omega (arith, frames-free))

abbrev exiting : Machine
exiting = record host {
  registers = set (replicate 40 0) 2 1;
  page_table = some (pages_on 0 two_taken.0);
  page_table_size = 2;
}

system_call-clear_all_example :
    (frames₂ : BitMap) × (system_call false exiting two_taken.1
      ≡ ok (finishes, record exiting { registers = set exiting.registers 34 0 }, frames₂))
    × ((s : ℕ) → bit frames₂ s ≡ bit frames s)
system_call-clear_all_example =
    system_call-clear_all false exiting (pages_on 0 two_taken.0) two_taken.0 frames two_taken.1
      two_taken.4 two_taken.5 two_taken.6 refl (frames_of-pages_on 0 two_taken.0) (sym two_taken.3)
      (omega arith)
