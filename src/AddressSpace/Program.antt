-- ===== src/AddressSpace/Program.antt =====
-- A program in its address space: the machine fetches the words of its code, and what a second
-- space does to it.
use nachos_3_4_lab.Prelude.{
  ℕ, ◌+◌, ◌*◌, ◌/◌, ◌%◌, ◌<◌, ◌≤◌, ◌≡◌, ◌≢◌, ◌∙◌, refl, sym, ap, List, true, false, none, some, ltb,
  if◌then◌else◌, length, get_or, arith, inr,
}
use nachos_3_4_lab.Prelude.Outcome.{ok}
use nachos_3_4_lab.BitMap.{BitMap}
use nachos_3_4_lab.BitMap.Laws.{IsValid}
use nachos_3_4_lab.BitMap.Count.{free}
use nachos_3_4_lab.Machine.{Machine}
use nachos_3_4_lab.Machine.Tlb.{Policy}
use nachos_3_4_lab.Machine.Translate.{translate, address}
use nachos_3_4_lab.Machine.Translate.Page.{page_answer, translate-page_answer}
use nachos_3_4_lab.Machine.Memory.{read_mem, physical, load, number_at}
use nachos_3_4_lab.AddressSpace.{
  Executable, NoffHeader, AddrSpace, pages_for, new_space, restore_state,
}
use nachos_3_4_lab.AddressSpace.Frames.{
  pages_on, length-pages_on, has_frame, has_frame-get_or, Chain, Chain-bits, Chain-free,
  Chain-in_range, get_elem?-pages_on,
}
use nachos_3_4_lab.AddressSpace.Load.{place}
use nachos_3_4_lab.AddressSpace.Build.{IsExecutable, IsProgram, space_on, new_space-Built}

-- The bytes of an aligned word lie next to each other.
place_next : (a : List ℕ) (v i : ℕ) → v % 4 ≡ 0 → i < 4 → place a (v + i) ≡ place a v + i
place_next a v i aligned lt =
    let page : (v + i) / 128 ≡ v / 128 = omega arith in
    let frame : get_or a ((v + i) / 128) 0 ≡ get_or a (v / 128) 0 = ap (λ k. get_or a k 0) page in
    omega (arith, page, frame)

-- The four bytes of a word, low byte first.
abbrev pub word_of : (ℕ → ℕ) → ℕ → ℕ
word_of byte j = byte j + 256 * byte (j + 1) + 65536 * byte (j + 2) + 16777216 * byte (j + 3)

load_word :
    (a : List ℕ) (v : ℕ) (memory : List ℕ) (byte : ℕ → ℕ) (j : ℕ)
    → v % 4 ≡ 0
    → place a v + 4 ≤ length memory
    → ((i : ℕ) → i < 4 → get_or memory (place a (v + i)) 0 ≡ byte (j + i))
    → load 4 (place a v) memory ≡ ok (word_of byte j)
unfolding load number_at
load_word a v memory byte j aligned inside held =
    let at : (i : ℕ) → i < 4 → get_or memory (place a v + i) 0 ≡ byte (j + i) =
      λ i lt. ap (λ p. get_or memory p 0) (sym (place_next a v i aligned lt)) ∙ held i lt in
    let first : get_or memory (place a v) 0 ≡ byte j = held_first in
    ground (arith, inside, first, at 1 (omega arith), at 2 (omega arith), at 3 (omega arith))
  where
    held_first : get_or memory (place a v) 0 ≡ byte j
    held_first =
        let v_zero : v + 0 ≡ v = omega arith in
        let j_zero : j + 0 ≡ j = omega arith in
        ap (λ w. get_or memory (place a w) 0) (sym v_zero) ∙ held 0 (omega arith) ∙ ap byte j_zero

-- A page of the space is granted to a read.
fetch_granted :
    (a : List ℕ) (va : ℕ) (m : Machine)
    → m.tlb ≡ none
    → m.page_table ≡ some (pages_on 0 a)
    → m.page_table_size ≡ length a
    → va % 4 ≡ 0
    → va / 128 < length a
    → get_or a (va / 128) 0 < 32
    → (m' : Machine) × (translate va 4 false m ≡ ok (address (place a va), m'))
      × (m'.memory ≡ m.memory)
fetch_granted a va m no_tlb has_table size aligned below frame =
    let page = get_elem?-pages_on 0 a (va / 128) below in
    let translated =
      translate-page_answer va {size = 4} false m {table = pages_on 0 a} (inr (inr refl)) no_tlb
        has_table (omega (arith, length-pages_on 0 a, size)) in
    let answer : (page_answer va 4 false m (pages_on 0 a)).0 ≡ address (place a va) =
      ground (arith, page, aligned, below, frame, size) in
    let same : (page_answer va 4 false m (pages_on 0 a)).1.memory ≡ m.memory =
      ground (arith, page, aligned, below, frame, size) in
    (
      (page_answer va 4 false m (pages_on 0 a)).1,
      translated ∙ ap (λ t. ok (t, (page_answer va 4 false m (pages_on 0 a)).1)) answer,
      same,
    )

module _ (p : Policy) (x : Executable) (h : NoffHeader) (code data_bytes : ℕ → ℕ)
    (program : IsProgram x h code data_bytes) {frames : BitMap} (m : Machine) (v : IsValid frames)
    (all : frames.num_bits ≡ 32) (whole : length m.memory ≡ 4096) (no_tlb : m.tlb ≡ none) where
  -- If an executable has a header with the magic number and two segments that lie apart in a space
  -- of at most 32 pages, as many frames are free in a valid map of 32, the memory has 4096 bytes
  -- and there is no TLB, then the constructor of the address space succeeds, and after
  -- `RestoreState`, compiled without USE_TLB, `ReadMem` of a word at an aligned address of the code
  -- gives its four bytes in the file, low byte first.
  pub new_space-read_mem :
      {noff_h : List ℕ} (j : ℕ)
      → IsExecutable x noff_h h
      → pages_for h ≤ free frames
      → (h.code.virtual_addr + j) % 4 ≡ 0
      → j + 4 ≤ h.code.size
      → (space : AddrSpace) × (frames' : BitMap) × (memory' : List ℕ) × (m' : Machine) × (new_space
            noff_h x frames m.memory
          ≡ ok (space, frames', memory'))
        × (read_mem p
              (h.code.virtual_addr + j)
              4
              (restore_state false space (record m { memory = memory' }))
            ≡ ok (some (word_of code j), m'))
  unfolding restore_state read_mem physical
  new_space-read_mem j e enough aligned fits =
      let (a, frames', memory', runs, b) =
        new_space-Built x h code data_bytes program m.memory v all whole e enough in
      let va : ℕ = h.code.virtual_addr + j in
      let m₁ : Machine = record m {
        memory = memory';
        page_table = some (pages_on 0 a);
        page_table_size = pages_for h;
      } in
      let below : va / 128 < length a =
        omega (arith, program.code_readable.in_space, b.pages, fits) in
      let frame : get_or a (va / 128) 0 < 32 =
        (let there = Chain-in_range frames frames' a (va / 128) b.taken below in
          omega (arith, there, all)) in
      let (m₂, granted, same) =
        fetch_granted a va m₁ no_tlb refl (sym b.pages) aligned below frame in
      let loaded : load 4 (place a va) memory' ≡ ok (word_of code j) =
        load_word a va memory' code j aligned (omega (arith, b.whole, frame, aligned)) (λ i lt.
          let later : va + i ≡ h.code.virtual_addr + (j + i) = omega arith in
          ap (λ w. get_or memory' (place a w) 0) later
          ∙ b.code_held (j + i) (omega (arith, lt, fits))) in
      (
        space_on h a,
        frames',
        memory',
        m₂,
        runs,
        rw (granted, ap (load 4 (place a va)) same ∙ loaded) refl,
      )

-- Another program, whose frames were taken: no place of one is a place of the other.
places_apart :
    (frames frames' frames'' : BitMap) (a a' : List ℕ) (v w : ℕ)
    → Chain frames a frames'
    → Chain frames' a' frames''
    → v / 128 < length a
    → w / 128 < length a'
    → place a v ≢ place a' w
places_apart frames frames' frames'' a a' v w taken taken' p q e =
    let same : get_or a (v / 128) 0 ≡ get_or a' (w / 128) 0 = omega (arith, e) in
    let there : has_frame a' (get_or a (v / 128) 0) ≡ true =
      ap (has_frame a') same ∙ has_frame-get_or a' (w / 128) q in
    ground (
      arith,
      there,
      has_frame-get_or a (v / 128) p,
      Chain-bits frames frames' a (get_or a (v / 128) 0) taken,
      Chain-bits frames' frames'' a' (get_or a (v / 128) 0) taken',
    )

module _ (x x' : Executable) (h h' : NoffHeader) (code data_bytes code' data_bytes' : ℕ → ℕ)
    (program : IsProgram x h code data_bytes) (program' : IsProgram x' h' code' data_bytes')
    {frames : BitMap} (memory : List ℕ) (v : IsValid frames) (all : frames.num_bits ≡ 32)
    (whole : length memory ≡ 4096) where
  -- If two executables have headers with the magic number and two segments each that lie apart in a
  -- space of at most 32 pages, as many frames as both need are free in a valid map of 32 and the
  -- memory has 4096 bytes, then both constructors succeed one after the other, and the second sets
  -- to 0 each byte of the first space that lies in the memory below the size of the second, and
  -- leaves the others of it as they are.
  pub second_space_zeroes :
      {noff_h noff_h' : List ℕ}
      → IsExecutable x noff_h h
      → IsExecutable x' noff_h' h'
      → pages_for h + pages_for h' ≤ free frames
      → (a a' : List ℕ) × (frames₁ frames₂ : BitMap) × (memory₁ memory₂ : List ℕ) × (new_space
            noff_h x frames memory
          ≡ ok (space_on h a, frames₁, memory₁))
        × (new_space noff_h' x' frames₁ memory₁ ≡ ok (space_on h' a', frames₂, memory₂))
        × ((va : ℕ)
            → va < pages_for h * 128
            → get_or memory₂ (place a va) 0 ≡ (
                if ltb (place a va) (pages_for h' * 128) then 0 else get_or memory₁ (place a va) 0))
  second_space_zeroes e e' enough =
      let (a, frames₁, memory₁, runs, b) =
        new_space-Built x h code data_bytes program memory v all whole e (omega (arith, enough)) in
      let left : free frames₁ + length a ≡ free frames = Chain-free frames frames₁ a b.taken in
      let (a', frames₂, memory₂, runs', b') =
        new_space-Built x' h' code' data_bytes' program' memory₁ b.valid (b.same_bits ∙ all) b.whole
          e' (omega (arith, enough, left, b.pages)) in
      (
        a,
        a',
        frames₁,
        frames₂,
        memory₁,
        memory₂,
        runs,
        runs',
        λ va lt.
            b'.others (place a va)
              (λ j below.
                places_apart frames frames₁ frames₂ a a' va (h'.code.virtual_addr + j) b.taken
                  b'.taken (omega (arith, lt, b.pages))
                  (omega (arith, below, b'.pages, program'.code_readable.in_space)))
              (λ j below.
                places_apart frames frames₁ frames₂ a a' va (h'.init_data.virtual_addr + j) b.taken
                  b'.taken (omega (arith, lt, b.pages))
                  (omega (arith, below, b'.pages, program'.data_readable.in_space))),
      )
