-- ===== src/AddressSpace/Load.antt =====
-- Copying a segment into the frames of a page table.
use nachos_3_4_lab.Prelude.{
  ℕ, zero, suc, ◌+◌, ◌*◌, ◌/◌, ◌%◌, ◌^◌, ◌<◌, ◌≤◌, ◌≡◌, ◌≢◌, ◌∙◌, refl, sym, ap, List, [], ◌∷◌,
  false, some, ltb, leb, ◌==◌, length, set, get_or, get_elem?, arith, Bool-cases, inl, inr,
  length-set, get_or-set_ne, get_or-set_self,
}
use nachos_3_4_lab.Prelude.Outcome.{ok}
use nachos_3_4_lab.Prelude.Copy.{copy_in, put_bytes}
use nachos_3_4_lab.Machine.{TranslationEntry}
use nachos_3_4_lab.Machine.Tlb.{signed_page}
use nachos_3_4_lab.AddressSpace.{
  Executable, Segment, signed_offset, paddr_of, load_bytes, load_segment,
}
use nachos_3_4_lab.AddressSpace.Frames.{pages_on, get_elem?-pages_on}

-- Where a virtual address lies on the frames.
abbrev pub place : List ℕ → ℕ → ℕ
place a v = get_or a (v / 128) 0 * 128 + v % 128

-- What the executable gives for the bytes of a segment, in which no address is negative.
pub record Readable (x : Executable) (s : Segment) (pages : ℕ) (byte : ℕ → ℕ) : Type 0 where
  pub in_space : s.virtual_addr + s.size ≤ pages * 128
  pub reads : (j : ℕ) → j < s.size → x 1 ((s.in_file_addr + j) % 2 ^ 32) ≡ ok (byte j ∷ [])

-- The bytes from `j` on are in their places, and all others are as before.
pub record Loaded (a : List ℕ) (v j n : ℕ) (byte : ℕ → ℕ) (memory memory' : List ℕ) : Type 0 where
  pub whole : length memory' ≡ 4096
  pub held : (i : ℕ) → j ≤ i → i < j + n → get_or memory' (place a (v + i)) 0 ≡ byte i
  pub others :
      (p : ℕ)
      → ((i : ℕ) → j ≤ i → i < j + n → p ≢ place a (v + i))
      → get_or memory' p 0 ≡ get_or memory p 0

copy_in_byte :
    (b p : ℕ) (memory : List ℕ)
    → p < length memory
    → copy_in (b ∷ []) p memory ≡ ok (set memory p b)
unfolding copy_in put_bytes
copy_in_byte b p memory lt = ground (arith, lt)

signed_page-low : (v : ℕ) → v < 2 ^ 31 → signed_page v ≡ v / 128
unfolding signed_page
signed_page-low v lt = ground (arith, lt)

signed_offset-low : (v : ℕ) → v < 2 ^ 31 → signed_offset v ≡ v % 128
signed_offset-low v lt = ground (arith, lt)

paddr_of-entry :
    (v : ℕ) (table : List TranslationEntry) {e : TranslationEntry}
    → get_elem? table (v / 128) ≡ some e
    → v < 2 ^ 31
    → paddr_of v table ≡ ok ((e.physical_page * 128 + v % 128) % 2 ^ 32)
unfolding paddr_of
paddr_of-entry v table {e} page lt =
    let found : get_elem? table (signed_page v) ≡ some e =
      ap (get_elem? table) (signed_page-low v lt) ∙ page in
    rw (paddr_of, found)
      (ap (λ offset. ok ((e.physical_page * 128 + offset) % 2 ^ 32)) (signed_offset-low v lt))

module _ (a : List ℕ) (few : length a ≤ 32) (inside : (k : ℕ) → k < length a → get_or a k 0 < 32)
    (distinct : (j k : ℕ) → j < k → k < length a → get_or a j 0 ≢ get_or a k 0) where
  pub place_in_memory : (v : ℕ) → v < length a * 128 → place a v < 4096
  place_in_memory v lt = let there = inside (v / 128) (omega (arith, lt)) in omega (arith, there)

  pub place_distinct : (v w : ℕ) → v < w → w < length a * 128 → place a v ≢ place a w
  place_distinct v w lt below e = elim (Bool-cases (v / 128 == w / 128)) [
    | inl same ↦
        let page : v / 128 ≡ w / 128 = ground (arith, same) in
        let frame : get_or a (v / 128) 0 ≡ get_or a (w / 128) 0 = ap (λ k. get_or a k 0) page in
        omega (arith, page, frame, e, lt)
    | inr other ↦
        let earlier : v / 128 < w / 128 = ground (arith, other, lt) in
        distinct (v / 128) (w / 128) earlier (omega (arith, below)) (omega (arith, e))
  ]

  pub place_apart :
      (v w : ℕ) → v ≢ w → v < length a * 128 → w < length a * 128 → place a v ≢ place a w
  place_apart v w ne p q e = elim (Bool-cases (ltb v w)) [
    | inl below ↦ place_distinct v w (ground (arith, below)) q e
    | inr above ↦ place_distinct w v (ground (arith, above, ne)) p (sym e)
  ]

  pub paddr_of-place :
      (v : ℕ) → v < length a * 128 → paddr_of (v % 2 ^ 32) (pages_on 0 a) ≡ ok (place a v)
  paddr_of-place v lt =
      let small : v % 2 ^ 32 ≡ v = omega (arith, lt, few) in
      let there : place a v % 2 ^ 32 ≡ place a v = omega (arith, place_in_memory v lt) in
      ap (λ addr. paddr_of addr (pages_on 0 a)) small
      ∙ paddr_of-entry v (pages_on 0 a) (get_elem?-pages_on 0 a (v / 128) (omega (arith, lt)))
          (omega (arith, lt, few))
      ∙ ap ok there

  load_bytes-Loaded :
      (x : Executable) (s : Segment) (byte : ℕ → ℕ) (n j : ℕ) (memory : List ℕ)
      → Readable x s (length a) byte
      → j + n ≤ s.size
      → length memory ≡ 4096
      → (memory' : List ℕ) × (load_bytes n j x s (pages_on 0 a) memory ≡ ok memory')
        × Loaded a s.virtual_addr j n byte memory memory'
  unfolding load_bytes
  load_bytes-Loaded x s byte zero j memory r fits whole = (
    memory,
    refl,
    record { whole = whole; held = λ i p q. absurd (omega arith); others = λ p h. refl },
  )
  load_bytes-Loaded x s byte (suc n) j memory r fits whole =
      let v : ℕ = s.virtual_addr + j in
      let at = paddr_of-place v (omega (arith, r.in_space, fits)) in
      let inside_memory = place_in_memory v (omega (arith, r.in_space, fits)) in
      let copied = copy_in_byte (byte j) (place a v) memory (omega (arith, whole, inside_memory)) in
      let memory₁ : List ℕ = set memory (place a v) (byte j) in
      let (memory', runs, l) =
        load_bytes-Loaded x s byte n (j + 1) memory₁ r (omega arith)
          (length-set memory (place a v) (byte j) ∙ whole) in
      (
        memory',
        rw (at, r.reads j (omega (arith, fits)), copied, runs) refl,
        record {
          whole = l.whole;
          held = λ i p q. elim (Bool-cases (i == j)) [
            | inl here ↦
                let e : i ≡ j = ground (arith, here) in
                ap (λ k. get_or memory' (place a (s.virtual_addr + k)) 0) e
                ∙ l.others (place a v) (λ k above below.
                  place_distinct v (s.virtual_addr + k) (omega (arith, above))
                    (omega (arith, below, r.in_space, fits)))
                ∙ get_or-set_self memory (place a v) (byte j) 0
                    (omega (arith, whole, inside_memory))
                ∙ ap byte (sym e)
            | inr other ↦ l.held i (ground (arith, p, other)) (omega (arith, q))
          ];
          others = λ p h.
              l.others p (λ i above below. h i (omega arith) (omega arith))
              ∙ get_or-set_ne memory (place a v) p (byte j) 0
                  (λ e. h j (omega arith) (omega arith) (sym e));
        },
      )

  pub load_segment-Loaded :
      (x : Executable) (s : Segment) (byte : ℕ → ℕ) (memory : List ℕ)
      → Readable x s (length a) byte
      → length memory ≡ 4096
      → (memory' : List ℕ) × (load_segment x s (pages_on 0 a) memory ≡ ok memory')
        × Loaded a s.virtual_addr 0 s.size byte memory memory'
  unfolding load_segment
  load_segment-Loaded x s byte memory r whole = elim (Bool-cases (s.size == 0)) [
    | inl empty ↦ (
      memory,
      rw (empty) refl,
      record {
        whole = whole;
        held = λ i p q. absurd (ground (arith, q, empty));
        others = λ p h. refl;
      },
    )
    | inr more ↦
        let (memory', runs, l) = load_bytes-Loaded x s byte s.size 0 memory r (omega arith) whole in
        let positive : leb (2 ^ 31) s.size ≡ false = ground (arith, r.in_space, few) in
        (memory', rw (more, positive, runs) refl, l)
  ]
