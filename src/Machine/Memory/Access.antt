-- ===== src/Machine/Memory/Access.antt =====
-- Reading after writing through a page table.
use nachos_3_4_lab.Prelude.{
  ℕ, zero, suc, ◌+◌, ◌/◌, ◌<◌, ◌≤◌, ◌≡◌, ◌∙◌, ◌⊎◌, refl, ap, ap₂, List, [], ◌∷◌, Bool, true, false,
  inl, inr, arith, length, get_or, set, length-set, none, some, Option-cases, get_elem?,
}
use nachos_3_4_lab.Prelude.Outcome.{ok}
use nachos_3_4_lab.Machine.{Machine, TranslationEntry}
use nachos_3_4_lab.Machine.Tlb.{Policy}
use nachos_3_4_lab.Machine.Translate.{translate, address}
use nachos_3_4_lab.Machine.Translate.Entry.{IsSize, touched}
use nachos_3_4_lab.Machine.Translate.Page.{
  page_answer, translate-page_answer, page_answer_in_memory,
}
use nachos_3_4_lab.Machine.Memory.{physical, read_mem, write_mem}
use nachos_3_4_lab.Machine.Memory.Bytes.{as_read, store-load}

get_elem?-set :
    (xs : List TranslationEntry) (i : ℕ) (e old : TranslationEntry)
    → get_elem? xs i ≡ some old
    → get_elem? (set xs i e) i ≡ some e
get_elem?-set [] i e old h = ground arith
get_elem?-set (x ∷ xs) zero e old h = refl
get_elem?-set (x ∷ xs) (suc i) e old h = get_elem?-set xs i e old h

-- A granted access leaves a table that grants it again, at the same address.
record Again (v size a : ℕ) (m : Machine) (table : List TranslationEntry) (granted : Machine)
    : Type 0 where
  again : List TranslationEntry
  only_table : granted ≡ record m { page_table = some again }
  same_length : length again ≡ length table
  repeated :
      (m₁ : Machine)
      → m₁.page_table_size ≡ m.page_table_size
      → (table₂ : List TranslationEntry) × (page_answer v size false m₁ again
          ≡ (address a, record m₁ { page_table = some table₂ }))

granted-Again :
    (v : ℕ) {size a : ℕ} (writing : Bool) (m : Machine) (table : List TranslationEntry)
    → (page_answer v size writing m table).0 ≡ address a
    → Again v size a m table (page_answer v size writing m table).1
granted-Again v {size} {a} writing m table h = elim (Option-cases (get_elem? table (v / 128))) [
  | inl missing ↦ absurd (ground (arith, missing))
  | inr (e, found) ↦ record {
    again = set table (v / 128) (touched writing e);
    only_table = ground (arith, found);
    same_length = length-set table (v / 128) (touched writing e);
    repeated = λ m₁ same. (
      set (set table (v / 128) (touched writing e)) (v / 128) (touched false (touched writing e)),
      ground (arith, found, get_elem?-set table (v / 128) (touched writing e) e found),
    );
  }
]

module _ (p : Policy) (v value : ℕ) {size a : ℕ} (m : Machine) (table : List TranslationEntry)
    (is_size : IsSize size) (no_tlb : m.tlb ≡ none) (has_table : m.page_table ≡ some table)
    (allocated : m.page_table_size ≤ length table) (whole : length m.memory ≡ 4096)
    (granted : (page_answer v size true m table).0 ≡ address a) where
  -- With a page table of at least the size on record, no TLB and a memory of 4096 bytes, if an
  -- access of 1, 2 or 4 bytes for writing is granted an address, then `WriteMem` succeeds,
  -- `ReadMem` of the same size there gives back the low bytes of what was written, a single one
  -- sign-extended, and no byte outside them has changed.
  pub write_mem-read_mem :
      (m' m'' : Machine) × (write_mem p v size value m ≡ ok (true, m'))
      × (read_mem p v size m' ≡ ok (some (as_read size value), m''))
      × ((j : ℕ) → (j < a) ⊎ (a + size ≤ j) → get_or m'.memory j 0 ≡ get_or m.memory j 0)
  unfolding write_mem read_mem physical
  write_mem-read_mem =
      let r : Again v size a m table (page_answer v size true m table).1 =
        granted-Again v true m table granted in
      let (inside, _, _) = page_answer_in_memory v true m table a is_size granted in
      let (bytes, stored, same, loaded, kept) =
        store-load a value m.memory is_size (omega (arith, whole)) in
      let m₁ : Machine = record m { page_table = some r.again } in
      let m' : Machine = record m₁ { memory = bytes } in
      let (table₂, repeated) = r.repeated m' refl in
      let first : translate v size true m ≡ ok (address a, m₁) =
        translate-page_answer v true m is_size no_tlb has_table allocated
        ∙ ap₂ (λ x y. ok (x, y)) granted r.only_table in
      let second : translate v size false m'
          ≡ ok (address a, record m' { page_table = some table₂ }) =
        translate-page_answer v false m' is_size no_tlb refl
          (omega (arith, r.same_length, allocated))
        ∙ ap ok repeated in
      (m', record m' { page_table = some table₂ }, rw (first, stored), rw (second, loaded), kept)
