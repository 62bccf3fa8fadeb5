-- ===== src/AddressSpace/Build.antt =====
-- The constructor of an address space, and the destructor after it.
use nachos_3_4_lab.Prelude.{
  ℕ, zero, suc, ◌+◌, ◌*◌, ◌<◌, ◌≤◌, ◌≡◌, ◌≢◌, ◌∙◌, refl, List, Bool, true, false, ltb, leb, ◌==◌,
  if◌then◌else◌, length, get_or, arith, replicate, length-replicate,
}
use nachos_3_4_lab.Prelude.Outcome.{ok, abort}
use nachos_3_4_lab.Prelude.Copy.{
  copy_in, put_bytes, copy_in_fits, length-put_bytes, get_or-put_bytes,
}
use nachos_3_4_lab.BitMap.{BitMap}
use nachos_3_4_lab.BitMap.Laws.{IsValid, bit}
use nachos_3_4_lab.BitMap.Count.{free}
use nachos_3_4_lab.Machine.{Machine}
use nachos_3_4_lab.AddressSpace.{
  Executable, NoffHeader, AddrSpace, noff_header, pages_for, set_up, new_space, delete_space,
  clear_all, restore_state,
}
use nachos_3_4_lab.AddressSpace.Frames.{
  pages_on, Chain, new_pages-Chain, new_pages_short, Chain-bits, Chain-free, Chain-in_range,
  Chain-distinct, clear_frames-pages_on,
}
use nachos_3_4_lab.AddressSpace.Load.{place, Readable, load_segment-Loaded, place_apart}

get_or-zeros : (n i : ℕ) → get_or {A = ℕ} (replicate n 0) i 0 ≡ 0
get_or-zeros zero i = refl
get_or-zeros (suc n) zero = refl
get_or-zeros (suc n) (suc i) = get_or-zeros n i

zeroed :
    (n : ℕ) (memory : List ℕ)
    → n ≤ length memory
    → (memory' : List ℕ) × (copy_in (replicate n 0) 0 memory ≡ ok memory')
      × (length memory' ≡ length memory)
      × ((p : ℕ) → get_or memory' p 0 ≡ (if ltb p n then 0 else get_or memory p 0))
zeroed n memory fits =
    let size : length {A = ℕ} (replicate n 0) ≡ n = length-replicate {A = ℕ} n 0 in
    (
      put_bytes (replicate n 0) 0 memory,
      copy_in_fits (replicate n 0) 0 memory (omega (arith, size, fits)),
      length-put_bytes (replicate n 0) 0 memory,
      λ p. ground (
        arith,
        get_or-put_bytes (replicate n 0) 0 memory p (omega (arith, size, fits)),
        get_or-zeros n p,
        size,
      ),
    )

-- What the constructor reads into the 40 bytes of `noffH` is the header.
pub record IsExecutable (x : Executable) (noff_h : List ℕ) (h : NoffHeader) : Type 0 where
  pub bytes : List ℕ
  pub raw : List ℕ
  pub did_read : x 40 0 ≡ ok bytes
  pub copied : copy_in bytes 0 noff_h ≡ ok raw
  pub header : noff_header raw ≡ h

-- The header of an executable of two segments that lie apart in a space of at most 32 pages.
pub record IsProgram (x : Executable) (h : NoffHeader) (code data_bytes : ℕ → ℕ) : Type 0 where
  pub magic : h.noff_magic ≡ 0xbadfad
  pub small : pages_for h ≤ 32
  pub code_readable : Readable x h.code (pages_for h) code
  pub data_readable : Readable x h.init_data (pages_for h) data_bytes
  pub apart :
      (i j : ℕ)
      → i < h.code.size
      → j < h.init_data.size
      → h.code.virtual_addr + i ≢ h.init_data.virtual_addr + j

-- What the constructor has made: a space on the frames `a`, with the two segments in their places.
-- It has zeroed the first frames of the memory, whichever frames it has taken.
pub record Built (h : NoffHeader) (code data_bytes : ℕ → ℕ) (frames : BitMap) (memory : List ℕ)
    (a : List ℕ) (frames' : BitMap) (memory' : List ℕ) : Type 0 where
  pub taken : Chain frames a frames'
  pub valid : IsValid frames'
  pub same_bits : frames'.num_bits ≡ frames.num_bits
  pub pages : length a ≡ pages_for h
  pub whole : length memory' ≡ 4096
  pub code_held :
      (j : ℕ) → j < h.code.size → get_or memory' (place a (h.code.virtual_addr + j)) 0 ≡ code j
  pub data_held :
      (j : ℕ)
      → j < h.init_data.size
      → get_or memory' (place a (h.init_data.virtual_addr + j)) 0 ≡ data_bytes j
  pub others :
      (p : ℕ)
      → ((j : ℕ) → j < h.code.size → p ≢ place a (h.code.virtual_addr + j))
      → ((j : ℕ) → j < h.init_data.size → p ≢ place a (h.init_data.virtual_addr + j))
      → get_or memory' p 0 ≡ (if ltb p (pages_for h * 128) then 0 else get_or memory p 0)

-- The space on the frames.
abbrev pub space_on : NoffHeader → List ℕ → AddrSpace
space_on h a = record { page_table = pages_on 0 a; num_pages = pages_for h }

-- `ClearAll` clears the frames of the space that was restored.
clear_all-restore_state :
    (use_tlb : Bool) (space : AddrSpace) (m : Machine) (frames : BitMap)
    → clear_all use_tlb (restore_state use_tlb space m) frames ≡ delete_space space frames
unfolding clear_all restore_state delete_space
clear_all-restore_state true space m frames = refl
clear_all-restore_state false space m frames = refl

module _ (x : Executable) (h : NoffHeader) (code data_bytes : ℕ → ℕ)
    (program : IsProgram x h code data_bytes) {frames : BitMap} (memory : List ℕ)
    (v : IsValid frames) (all : frames.num_bits ≡ 32) (whole : length memory ≡ 4096) where
  set_up-Built :
      pages_for h ≤ free frames
      → (a : List ℕ) × (frames' : BitMap) × (memory' : List ℕ) × (set_up x h frames memory
          ≡ ok (space_on h a, frames', memory'))
        × Built h code data_bytes frames memory a frames' memory'
  unfolding set_up
  set_up-Built enough =
      let right_magic : (h.noff_magic == 0xbadfad) ≡ true = ground (arith, program.magic) in
      let right_size : leb (pages_for h) 32 ≡ true = ground (arith, program.small) in
      let (a, frames', found, size, chain, v', same) =
        new_pages-Chain (pages_for h) 0 {b = frames} v enough in
      let inside : (k : ℕ) → k < length a → get_or a k 0 < 32 = λ k lt.
        let there = Chain-in_range frames frames' a k chain lt in omega (arith, there, all) in
      let distinct : (j k : ℕ) → j < k → k < length a → get_or a j 0 ≢ get_or a k 0 =
        λ j k lt below. Chain-distinct frames frames' a j k chain lt below in
      let few : length a ≤ 32 = omega (arith, size, program.small) in
      let (memory₁, cleared, whole₁, zeros) =
        zeroed (pages_for h * 128) memory (omega (arith, whole, program.small)) in
      let (memory₂, loaded₂, l₂) =
        load_segment-Loaded a few inside distinct x h.code code memory₁
          (record {
            in_space = omega (arith, program.code_readable.in_space, size);
            reads = program.code_readable.reads;
          })
          (whole₁ ∙ whole) in
      let (memory₃, loaded₃, l₃) =
        load_segment-Loaded a few inside distinct x h.init_data data_bytes memory₂
          (record {
            in_space = omega (arith, program.data_readable.in_space, size);
            reads = program.data_readable.reads;
          })
          l₂.whole in
      (
        a,
        frames',
        memory₃,
        rw (right_magic, right_size, found, cleared, loaded₂, loaded₃) refl,
        record {
          taken = chain;
          valid = v';
          same_bits = same;
          pages = size;
          whole = l₃.whole;
          code_held = λ j lt.
              l₃.others (place a (h.code.virtual_addr + j)) (λ i _ below.
                place_apart a few inside distinct (h.code.virtual_addr + j)
                  (h.init_data.virtual_addr + i) (program.apart j i lt (omega (arith, below)))
                  (omega (arith, program.code_readable.in_space, size, lt))
                  (omega (arith, program.data_readable.in_space, size, below)))
              ∙ l₂.held j (omega arith) (omega (arith, lt));
          data_held = λ j lt. l₃.held j (omega arith) (omega (arith, lt));
          others = λ p off_code off_data.
              l₃.others p (λ i _ below. off_data i (omega (arith, below)))
              ∙ l₂.others p (λ i _ below. off_code i (omega (arith, below)))
              ∙ zeros p;
        },
      )

  -- If an executable has a header with the magic number and two segments that lie apart in a space
  -- of at most 32 pages, as many frames are free in a valid map of 32 and the memory has 4096
  -- bytes, then the constructor of the address space succeeds: it takes free frames one by one, the
  -- page table maps the pages to them in order, the bytes of the code and of the data are at their
  -- places on them, and every other byte of the memory is 0 if it lies below the size of the space,
  -- and as before else.
  pub new_space-Built :
      {noff_h : List ℕ}
      → IsExecutable x noff_h h
      → pages_for h ≤ free frames
      → (a : List ℕ) × (frames' : BitMap) × (memory' : List ℕ) × (new_space noff_h x frames memory
          ≡ ok (space_on h a, frames', memory'))
        × Built h code data_bytes frames memory a frames' memory'
  unfolding new_space
  new_space-Built e enough =
      let (a, frames', memory', runs, b) = set_up-Built enough in
      (a, frames', memory', rw (e.did_read, e.copied, e.header, runs) refl, b)

  pub new_space_short :
      {noff_h : List ℕ}
      → IsExecutable x noff_h h
      → free frames < pages_for h
      → new_space noff_h x frames memory ≡ abort
  unfolding new_space set_up
  new_space_short e few =
      let right_magic : (h.noff_magic == 0xbadfad) ≡ true = ground (arith, program.magic) in
      let right_size : leb (pages_for h) 32 ≡ true = ground (arith, program.small) in
      rw
        (
          e.did_read,
          e.copied,
          e.header,
          right_magic,
          right_size,
          new_pages_short (pages_for h) 0 frames v few,
        )
        refl

  -- If an executable has a header with the magic number and two segments that lie apart in a space
  -- of at most 32 pages, as many frames are free in a valid map of 32 and the memory has 4096
  -- bytes, then the constructor of the address space takes one frame for each page, and its
  -- destructor, like `ClearAll` after `RestoreState` of the space, with USE_TLB and without, gives
  -- back a map of the same bits as before.
  pub delete_space-new_space :
      {noff_h : List ℕ} (use_tlb : Bool) (m : Machine)
      → IsExecutable x noff_h h
      → pages_for h ≤ free frames
      → (space : AddrSpace) × (frames₁ frames₂ : BitMap) × (memory' : List ℕ) × (new_space noff_h x
            frames memory
          ≡ ok (space, frames₁, memory'))
        × (delete_space space frames₁ ≡ ok frames₂)
        × (clear_all use_tlb (restore_state use_tlb space m) frames₁ ≡ ok frames₂)
        × (free frames₁ + pages_for h ≡ free frames)
        × ((s : ℕ) → bit frames₂ s ≡ bit frames s)
  unfolding delete_space
  delete_space-new_space use_tlb m e enough =
      let (a, frames₁, memory', runs, b) = new_space-Built e enough in
      let (frames₂, cleared, _, _, bits) = clear_frames-pages_on 0 a frames₁ b.valid (λ k lt.
        let there = Chain-in_range frames frames₁ a k b.taken lt in
        omega (arith, there, b.same_bits)) in
      let given : delete_space (space_on h a) frames₁ ≡ ok frames₂ = rw (← b.pages) cleared in
      (
        space_on h a,
        frames₁,
        frames₂,
        memory',
        runs,
        given,
        clear_all-restore_state use_tlb (space_on h a) m frames₁ ∙ given,
        omega (arith, Chain-free frames frames₁ a b.taken, b.pages),
        λ s. ground (arith, bits s, Chain-bits frames frames₁ a s b.taken),
      )
