-- ===== src/Machine/Translate/Page.antt =====
-- `Translate` through a linear page table.
use nachos_3_4_lab.Prelude.{
  ℕ, zero, suc, ◌+◌, ◌*◌, ◌/◌, ◌%◌, ◌<◌, ◌≤◌, ◌≡◌, refl, ap, ap₂, ◌∙◌, Option-cases, inl, inr, List,
  [], ◌∷◌, Bool, true, false, ◌&&◌, arith, length, set, get_elem?, get_elem?_in_range, none, some,
  not, ◌==◌, leb, Bool-cases, if◌then◌else◌,
}
use nachos_3_4_lab.Prelude.Outcome.{ok}
use nachos_3_4_lab.Machine.{
  Machine, TranslationEntry, page_fault, address_error, read_only, bus_error,
}
use nachos_3_4_lab.Machine.Translate.{
  Translation, fault, address, misaligned, use_entry, use_page, translate_page, by_table, translate,
}
use nachos_3_4_lab.Machine.Translate.Entry.{
  IsSize, misaligned-false, misaligned-true, touched, use_entry-cases,
}

use_page_invalid :
    (vpn offset size : ℕ) (writing : Bool) (es : List TranslationEntry) {e : TranslationEntry}
    → get_elem? es vpn ≡ some e
    → e.valid ≡ false
    → use_page vpn offset size writing es ≡ ok (fault page_fault, es)
unfolding use_page
use_page_invalid vpn offset size writing [] at off = cc
use_page_invalid zero offset size writing (x ∷ es) at off = ground arith
use_page_invalid (suc vpn) offset size writing (x ∷ es) at off =
    rw (use_page_invalid vpn offset size writing es at off)

use_page_valid :
    (vpn offset size : ℕ) (writing : Bool) (es : List TranslationEntry) {e e' : TranslationEntry}
    {t : Translation}
    → get_elem? es vpn ≡ some e
    → e.valid ≡ true
    → use_entry offset size writing e ≡ ok (t, e')
    → use_page vpn offset size writing es ≡ ok (t, set es vpn e')
unfolding use_page
use_page_valid vpn offset size writing [] at on used = cc
use_page_valid zero offset size writing (x ∷ es) at on used = ground arith
use_page_valid (suc vpn) offset size writing (x ∷ es) at on used =
    rw (use_page_valid vpn offset size writing es at on used)

set_same {ℓ} :
    {A : Type ℓ} (xs : List A) (i : ℕ) (x : A) → get_elem? xs i ≡ some x → set xs i x ≡ xs
set_same [] i x h = refl
set_same (y ∷ xs) zero x h = cc
set_same (y ∷ xs) (suc i) x h = ap (λ l. y ∷ l) (set_same xs i x h)

-- What an access to a page comes to, given the entry for it.
abbrev pub entry_answer :
    (offset : ℕ) (writing : Bool) → TranslationEntry → Translation × TranslationEntry
entry_answer offset writing e =
    if e.read_only && writing
    then (fault read_only, e)
    else if leb 32 e.physical_page
    then (fault bus_error, e)
    else (address (e.physical_page * 128 + offset), touched writing e)

pub use_entry_answer :
    (offset size : ℕ) (writing : Bool) (e : TranslationEntry)
    → offset + size ≤ 128
    → use_entry offset size writing e ≡ ok (entry_answer offset writing e)
use_entry_answer offset size writing e fits =
    ground (arith, use_entry-cases offset size writing e fits)

-- What `Translate` promises through a page table: no ASSERT, and an indexed table.
abbrev pub page_answer :
    (v size : ℕ) (writing : Bool) → Machine → List TranslationEntry → Translation × Machine
page_answer v size writing m table =
    if not (v % size == 0)
    then (fault address_error, m)
    else if leb m.page_table_size (v / 128)
    then (fault address_error, m)
    else elim (get_elem? table (v / 128)) [
      | none ↦ (fault page_fault, m)
      | some e ↦
          if e.valid
          then (
            (entry_answer (v % 128) writing e).0,
            record m {
              page_table = some (set table (v / 128) (entry_answer (v % 128) writing e).1);
            },
          )
          else (fault page_fault, record m { page_table = some table })
    ]

misaligned-mod : (v : ℕ) {size : ℕ} → IsSize size → misaligned v size ≡ not (v % size == 0)
misaligned-mod v {size} h = ground (arith, misaligned-false v h, misaligned-true v h)

translate_page-answer :
    (v size : ℕ) (writing : Bool) (m : Machine) (table : List TranslationEntry)
    → v % 128 + size ≤ 128
    → m.page_table_size ≤ length table
    → v % size ≡ 0
    → translate_page v size writing m table ≡ ok (page_answer v size writing m table)
unfolding translate_page
translate_page-answer v size writing m table fits allocated aligned =
    elim (Bool-cases (leb m.page_table_size (v / 128))) [
      | inl beyond ↦ ground arith
      | inr inside ↦
          let (e, at) = get_elem?_in_range table (v / 128) (ground arith) in
          elim (Bool-cases e.valid) [
            | inl on ↦
                let used =
                  use_page_valid (v / 128) (v % 128) size writing table at on
                    (use_entry_answer (v % 128) size writing e fits) in
                ground (arith, used)
            | inr off ↦
                ground (arith, use_page_invalid (v / 128) (v % 128) size writing table at off)
          ]
    ]

module _ (v : ℕ) {size : ℕ} (writing : Bool) (m : Machine) {table : List TranslationEntry}
    (is_size : IsSize size) (no_tlb : m.tlb ≡ none) (has_table : m.page_table ≡ some table)
    (allocated : m.page_table_size ≤ length table) where
  -- With a page table of at least the size that the machine has on record and no TLB, and an access
  -- of 1, 2 or 4 bytes, `Translate` never fails an ASSERT and answers in this order: an address
  -- error if the address is not a multiple of the size or its page is past the table, a page fault
  -- if the entry is not valid, a read-only error for a write to such an entry, a bus error if there
  -- is no such frame, and else the address on the frame, with the entry marked as used, and as
  -- dirty by a write.
  pub translate-page_answer : translate v size writing m ≡ ok (page_answer v size writing m table)
  unfolding translate by_table
  translate-page_answer = elim (Bool-cases (misaligned v size)) [
    | inl bad ↦ ground (arith, misaligned-mod v is_size)
    | inr good ↦
        let (aligned, fits) = misaligned-false v is_size good in
        rw good (
          ap₂ (λ x y. by_table v size writing m x y) no_tlb has_table
          ∙ translate_page-answer v size writing m table fits allocated aligned)
  ]

entry_answer-address :
    (offset : ℕ) (writing : Bool) (e : TranslationEntry) (a : ℕ)
    → (entry_answer offset writing e).0 ≡ address a
    → (a ≡ e.physical_page * 128 + offset) × (e.physical_page < 32)
entry_answer-address offset writing e a h = ground arith

on_frame :
    (v : ℕ) {size : ℕ} (f : ℕ)
    → IsSize size
    → v % size ≡ 0
    → f < 32
    → (f * 128 + v % 128 + size ≤ 4096)
      × ((f * 128 + v % 128) % 128 ≡ v % 128)
      × ((f * 128 + v % 128) % size ≡ 0)
on_frame v f (inl e) h small = rw e (omega arith, omega arith, omega arith)
on_frame v f (inr (inl e)) h small =
    let h' : v % 2 ≡ 0 = rw e at h in rw e (omega arith, omega arith, omega arith)
on_frame v f (inr (inr e)) h small =
    let h' : v % 4 ≡ 0 = rw e at h in rw e (omega arith, omega arith, omega arith)

-- If the answer to an access of 1, 2 or 4 bytes through a page table is an address, then the access
-- lies inside the memory, at the offset of the virtual address on its page, and at a multiple of
-- its size.
pub page_answer_in_memory :
    (v : ℕ) {size : ℕ} (writing : Bool) (m : Machine) (table : List TranslationEntry) (a : ℕ)
    → IsSize size
    → (page_answer v size writing m table).0 ≡ address a
    → (a + size ≤ 4096) × (a % 128 ≡ v % 128) × (a % size ≡ 0)
page_answer_in_memory v {size} writing m table a is_size h =
    elim (Option-cases (get_elem? table (v / 128))) [
      | inl gone ↦ absurd (ground arith)
      | inr (e, at) ↦
          let granted : (entry_answer (v % 128) writing e).0 ≡ address a = ground arith in
          let (is, low) = entry_answer-address (v % 128) writing e a granted in
          rw is (on_frame v e.physical_page is_size (ground arith) low)
    ]
