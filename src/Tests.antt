-- ===== src/Tests.antt =====
-- Concrete inputs: each theorem that has hypotheses, applied where they hold.
mod Threads
mod Files
mod Formatted
mod Programs
mod Devices
use nachos_3_4_lab.Prelude.{
  length, length-replicate, ap, ◌++◌, ◌==◌, ◌⊎◌, ℕ, ◌+◌, ◌-◌, ◌*◌, ◌/◌, ◌%◌, ◌^◌, ◌<◌, ◌≤◌, ◌≡◌,
  refl, ◌↔◌, inr, List, [], ◌∷◌, true, false, Option, none, some, if◌then◌else◌, get_or, set,
  replicate, arith,
}
use nachos_3_4_lab.Prelude.Outcome.{Outcome, ok, abort}
use nachos_3_4_lab.BitMap
use nachos_3_4_lab.BitMap.{BitMap, mark, test, num_clear}
use nachos_3_4_lab.BitMap.Laws.{IsValid, bit, Update, mark-Update, clear-Update, out_of_range}
use nachos_3_4_lab.BitMap.Find.{Taken, Found, find-Found, init-clear}
use nachos_3_4_lab.BitMap.Count.{free, num_clear-free, find-free}
use nachos_3_4_lab.Directory
use nachos_3_4_lab.Directory.{same_name, Name, Directory, Entry}
use nachos_3_4_lab.Directory.Lookup.{
  lookup_in, Added, add-Added, lookup, as_int, find-lookup, lookup-init,
}
use nachos_3_4_lab.Directory.Unique.{IsUnique, Removed, remove-Removed, add-IsUnique, Distinct}
use nachos_3_4_lab.Disk.{Disk, ints_bytes, char_at}
use nachos_3_4_lab.Disk.Bytes.{char_at-ints_bytes}
use nachos_3_4_lab.FileHeader.{FileHeader, allocate, deallocate, byte_to_sector}
use nachos_3_4_lab.FileHeader.Allocation.{Allocated}
use nachos_3_4_lab.FileHeader.RoundTrip.{
  sized, allocate_refused, allocate-Allocated, deallocate-allocate,
}
use nachos_3_4_lab.FileHeader.Index.{
  Indexed, allocate-Indexed, allocate_short, byte_to_sector-listed,
}
use nachos_3_4_lab.OpenFile.{read_at, write_at}
use nachos_3_4_lab.OpenFile.Fresh.{allocate-read_at}
use nachos_3_4_lab.LinkedList
use nachos_3_4_lab.LinkedList.{
  Heap, Lists, append, prepend, sorted_insert, sorted_remove, delete_all, remove_item,
}
use nachos_3_4_lab.LinkedList.Chain.{absent, Node, Chain, Represents, start}
use nachos_3_4_lab.LinkedList.Whole.{delete_all-Represents}
use nachos_3_4_lab.LinkedList.Removal.{drop_item, remove_item-Represents}
use nachos_3_4_lab.LinkedList.Insert.{insert}
use nachos_3_4_lab.LinkedList.Sequence.{Sorted, insert-Sorted, sorted_insert-Represents}
use nachos_3_4_lab.LinkedList.Ends.{
  keyless, append-Represents, prepend-Represents, sorted_remove-Represents,
}
use nachos_3_4_lab.Interrupt.{
  PendingInterrupt, Interrupt, int_off, system_mode, timer_int, schedule, run_due,
}
use nachos_3_4_lab.Interrupt.Due
use nachos_3_4_lab.Interrupt.Due.{due, IsDevice, run_due_lem}
use nachos_3_4_lab.Interrupt.Order.{schedule-Sorted}
use nachos_3_4_lab.Machine.{Machine, TranslationEntry, page_fault}
use nachos_3_4_lab.Machine.Translate.{
  misaligned, by_table, translate_page, use_page, use_entry, translate,
}
use nachos_3_4_lab.Machine.Translate.Page.{
  page_answer, translate-page_answer, page_answer_in_memory,
}
use nachos_3_4_lab.Machine.Translate.Hit.{translate_miss}
use nachos_3_4_lab.Machine.Tlb.{lru}
use nachos_3_4_lab.Machine.Memory.{read_mem, write_mem, physical, load, number_at}
use nachos_3_4_lab.Machine.Memory.Bytes.{as_read}
use nachos_3_4_lab.Machine.Memory.Access.{write_mem-read_mem}
use nachos_3_4_lab.Machine.Decode.{decode, op_code_of, computing}
use nachos_3_4_lab.Machine.Cpu.{finished, complete, reg, set_reg, next_pc, one_instruction}
use nachos_3_4_lab.Machine.Cpu.Registers.{Completed, complete-Completed, one_instruction-Completed}
use nachos_3_4_lab.Machine.Mult.{mult, magnitude}
use nachos_3_4_lab.Machine.Mult.Product.{Fits, value, opposite, mult_unsigned, mult_signed}
use nachos_3_4_lab.Machine.Alu.{alu, addu, add, addi, sub, or_, slt, slti, srl, to_rd, to_rt, flag}
use nachos_3_4_lab.Machine.Alu.Signed.{
  biased, exactly, add_sub-exactly, slt-biased, or-rs, srl-negative,
}

-- Sixty-four sectors, of which 0 and 2 are in use.
abbrev sectors : BitMap
sectors = record { num_bits = 64; num_words = 2; words = 5 ∷ 0 ∷ [] }

sectors-IsValid : IsValid sectors
sectors-IsValid = record { words_up = refl; stored = refl }

sectors-free : free sectors ≡ 62
unfolding bit
sectors-free = refl

-- A directory of two entries, the first under the name "ab" with sector 5.
abbrev ab : Name
ab = 97 ∷ 98 ∷ []

abbrev cd : Name
cd = 99 ∷ 100 ∷ []

abbrev entries : List Entry
entries =
    record { type = false; in_use = true; sector = 5; name = 97 ∷ 98 ∷ replicate 10 0 }
    ∷ record { type = false; in_use = false; sector = 0; name = replicate 12 0 }
    ∷ []

abbrev root : Directory
root = record { table = entries }

root-IsUnique : IsUnique root
unfolding Distinct lookup_in same_name
root-IsUnique = ((λ h. refl), ((λ h. refl), tt))

add-Added_example : Added cd 6 root (Directory.add cd 6 root)
add-Added_example = add-Added cd 6 root

find-lookup_example : Directory.find ab root ≡ as_int (lookup ab root)
find-lookup_example = find-lookup ab root

lookup-init_example : lookup ab (Directory.init entries) ≡ none
lookup-init_example = lookup-init ab entries

-- A header with nothing allocated, and an empty disk.
abbrev header : FileHeader
header = record {
  num_bytes = 0;
  num_sectors = 0;
  create_time = [];
  update_time = [];
  access_time = [];
  data_sectors = replicate 15 0;
}

abbrev empty_disk : Disk
empty_disk n = replicate 128 0

-- A disk of zeros, and what new storage holds.
abbrev zeros : Disk
zeros k = replicate 128 0

abbrev ones : ℕ → List ℕ
ones n = replicate n 1

allocate-read_at_example :
    (hdr' : FileHeader) × (m' : BitMap) × (d' : Disk) × (bytes : List ℕ) × (allocate 200 [] header
        sectors zeros
      ≡ ok (true, hdr', m', zeros))
    × (write_at ones (7 ∷ 8 ∷ 9 ∷ []) 3 127 hdr' zeros ≡ ok (3, d'))
    × (read_at ones 3 127 hdr' d' ≡ ok (3, bytes))
    × (length bytes ≡ 3)
    × ((j : ℕ) → j < 3 → get_or bytes j 0 ≡ get_or (7 ∷ 8 ∷ 9 ∷ []) j 0)
allocate-read_at_example =
    allocate-read_at ones (λ n. length-replicate {A = ℕ} n 1) 200 [] header zeros (7 ∷ 8 ∷ 9 ∷ []) 3
      127 sectors-IsValid (omega arith) (λ k lt. length-replicate {A = ℕ} 128 0) refl (omega arith)
      (omega (arith, sectors-free)) (omega arith) (omega arith)

allocate-Indexed_example :
    (a : List ℕ) × (m' : BitMap) × (d' : Disk) × (allocate 2000 [] header sectors empty_disk
      ≡ ok (true, record (sized 2000 header) { create_time = []; data_sectors = a }, m', d'))
    × (free m' + 16 + 1 ≡ free sectors)
    × Indexed 16 sectors empty_disk header.data_sectors a m' d'
allocate-Indexed_example =
    allocate-Indexed 2000 [] header empty_disk sectors-IsValid (omega arith) refl (omega arith)
      (omega arith) (omega (arith, sectors-free))

-- Sixteen sectors, all free.
abbrev sixteen : BitMap
sixteen = record { num_bits = 16; num_words = 1; words = 0 ∷ [] }

sixteen-IsValid : IsValid sixteen
sixteen-IsValid = record { words_up = refl; stored = refl }

sixteen-free : free sixteen ≡ 16
unfolding bit
sixteen-free = refl

allocate_short_example :
    (hdr' : FileHeader) × (m' : BitMap) × (d' : Disk) × (listed : List ℕ) × (allocate 2000 [] header
        sixteen empty_disk
      ≡ ok (true, hdr', m', d'))
    × (d' (get_or hdr'.data_sectors 14 0) ≡ ints_bytes listed)
    × (get_or listed (16 - 15) 0 ≡ 2 ^ 32 - 1)
allocate_short_example =
    allocate_short 2000 [] header empty_disk sixteen-IsValid (omega arith) refl (omega arith)
      (omega arith) (omega (arith, sixteen-free))

-- The index block of a large file lists the sectors 200, 0, 0, ...
abbrev listed : List ℕ
listed = 200 ∷ replicate 31 0

abbrev indexed_disk : Disk
indexed_disk n = ints_bytes listed

byte_to_sector-listed_example :
    (byte_to_sector 1793 header indexed_disk ≡ ok (get_or listed 0 0)) ↔ (get_or listed 0 0 < 128)
byte_to_sector-listed_example =
    byte_to_sector-listed header indexed_disk listed (omega arith) refl refl 1793 (omega arith)
      (omega arith) (omega arith)

char_at-ints_bytes_example : (char_at (ints_bytes listed) 0 ≡ 200) ↔ (200 < 128)
char_at-ints_bytes_example = char_at-ints_bytes listed 0 (omega arith) (omega arith)

-- A page on frame 3, and a machine with that page as page 1 of its page table.
abbrev page_one : TranslationEntry
page_one = record {
  virtual_page = 1;
  physical_page = 3;
  valid = true;
  read_only = false;
  use_bit = false;
  dirty = false;
  hit_rate = 0;
}

abbrev pages : List TranslationEntry
pages = record page_one { valid = false } ∷ page_one ∷ []

abbrev paged : Machine
paged = record {
  registers = replicate 40 0;
  memory = replicate 4096 0;
  tlb = none;
  page_table = some pages;
  page_table_size = 2;
}

translate-page_answer_example : translate 132 4 true paged ≡ ok (page_answer 132 4 true paged pages)
translate-page_answer_example =
    translate-page_answer 132 true paged (inr (inr refl)) refl refl (omega arith)

-- A machine with that page alone in its TLB.
abbrev buffered : Machine
buffered = record paged { tlb = some (page_one ∷ []); page_table = none }

mult_signed_example :
    Fits (mult (2 ^ 32 - 3) 7 true)
    × (value (mult (2 ^ 32 - 3) 7 true) ≡ (
        if opposite (2 ^ 32 - 3) 7
        then (2 ^ 64 - magnitude (2 ^ 32 - 3) * magnitude 7) % 2 ^ 64
        else magnitude (2 ^ 32 - 3) * magnitude 7))
mult_signed_example = mult_signed (2 ^ 32 - 3) 7 (omega arith) (omega arith)

add_sub-exactly_example :
    (alu add (2 ^ 31 - 1) 1 5 ≡ exactly to_rd (biased (2 ^ 31 - 1) + biased 1))
    × (alu addi (2 ^ 31 - 1) 1 5 ≡ exactly to_rt (biased (2 ^ 31 - 1) + biased 5))
    × (alu sub (2 ^ 31 - 1) 1 5 ≡ exactly to_rd (biased (2 ^ 31 - 1) + 2 ^ 32 - biased 1))
add_sub-exactly_example = add_sub-exactly (2 ^ 31 - 1) 1 5 (omega arith) (omega arith) (omega arith)

write_mem-read_mem_example :
    (m' m'' : Machine) × (write_mem lru 132 4 1234567 paged ≡ ok (true, m'))
    × (read_mem lru 132 4 m' ≡ ok (some (as_read 4 1234567), m''))
    × ((j : ℕ) → (j < 388) ⊎ (392 ≤ j) → get_or m'.memory j 0 ≡ get_or paged.memory j 0)
write_mem-read_mem_example =
    write_mem-read_mem lru 132 1234567 paged pages (inr (inr refl)) refl refl (omega arith) refl
      refl

-- A delayed load of 9 for register 5 while the program counter is at 0.
abbrev delaying : Machine
delaying = record paged { registers = set (set (set (replicate 40 0) 35 4) 37 5) 38 9 }

-- `ADDU r3, r1, r2` at address 0, with 7 and 8 in `r1` and `r2`.
abbrev adding : Machine
adding = record {
  registers = 0 ∷ 7 ∷ 8 ∷ set (replicate 37 0) 32 4;
  memory = 0x21 ∷ 0x18 ∷ 0x22 ∷ 0 ∷ replicate 4092 0;
  tlb = none;
  page_table = some (record page_one { virtual_page = 0; physical_page = 0 } ∷ []);
  page_table_size = 1;
}

abbrev fetched : Machine
fetched = record adding {
  page_table = some (record page_one { virtual_page = 0; physical_page = 0; use_bit = true } ∷ []);
}

adding-fetched : read_mem lru 0 4 adding ≡ ok (some 0x221821, fetched)
unfolding read_mem physical translate by_table translate_page use_page use_entry load number_at
    misaligned
adding-fetched = refl

adding-decoded : (decode 0x221821).op_code ≡ computing addu
unfolding decode op_code_of
adding-decoded = refl

adding-computed :
    alu addu
      (reg (decode 0x221821).rs fetched)
      (reg (decode 0x221821).rt fetched)
      (decode 0x221821).extra
    ≡ to_rd 15
unfolding alu decode
adding-computed = refl

one_instruction-Completed_example :
    (m' : Machine) × (one_instruction lru adding ≡ ok (false, m'))
    × Completed 0 0 (next_pc fetched) (set_reg (decode 0x221821).rd 15 fetched) m'
one_instruction-Completed_example =
    one_instruction-Completed lru 0x221821 15 addu adding fetched adding-fetched
      (record { all = refl; general = omega arith }) adding-decoded adding-computed

-- A list of two elements, at 10 and at 20, with the keys 3 and 5.
abbrev queue : List Node
queue = record { addr = 10; item = 100; key = 3 } ∷ record { addr = 20; item = 200; key = 5 } ∷ []

abbrev cells : Heap
cells a =
    if a == 10
    then some (record { item = 100; key = 3; next = some 20 })
    else if a == 20
    then some (record { item = 200; key = 5; next = none })
    else none

abbrev queued : Lists
queued = (record { first = some 10; last = some 20; num_in_list = 2 }, cells)

queued-Represents : Represents queued queue
unfolding Chain LinkedList.Chain.Distinct
queued-Represents = record {
  first = refl;
  last = refl;
  count = refl;
  chain = (refl, (refl, tt));
  distinct = (refl, (refl, tt));
}

-- Another element with the key 3.
abbrev third : Node
third = record { addr = 30; item = 300; key = 3 }

sorted_insert-Represents_example :
    (s' : Lists) × (sorted_insert 2 30 300 3 queued ≡ ok s') × Represents s' (insert third queue)
sorted_insert-Represents_example =
    sorted_insert-Represents 2 third queue queued queued-Represents refl (omega arith)

remove_item-Represents_example :
    (s' : Lists) × (remove_item 2 200 queued ≡ ok s') × Represents s' (drop_item 200 queue)
remove_item-Represents_example =
    remove_item-Represents 2 200 queue queued queued-Represents refl (omega arith)

delete_all-Represents_example :
    (s' : Lists) × (delete_all 3 queued ≡ ok s')
    × Represents s' []
    × ((a : ℕ) → s'.1 a ≡ (if absent a queue then cells a else none))
delete_all-Represents_example =
    delete_all-Represents 3 queue queued queued-Represents (omega arith, (omega arith, tt))
      (omega arith)
