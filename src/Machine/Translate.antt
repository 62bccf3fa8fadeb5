-- ===== src/Machine/Translate.antt =====
-- `Machine::Translate` of machine/translate.cc. An address is the bit pattern of its `int`.
pub mod Entry
pub mod Page
pub mod Hit
use nachos_3_4_lab.Prelude.{
  ℕ, zero, suc, ◌+◌, ◌*◌, ◌/◌, ◌%◌, List, [], ◌∷◌, Bool, true, false, not, ◌&&◌, ◌||◌, Option, none,
  some, leb, ◌==◌, if◌then◌else◌, bit_and,
}
use nachos_3_4_lab.Prelude.Outcome.{Outcome, ok, abort, ◌>>=◌, ◌>>◌, assert, in_array}
use nachos_3_4_lab.Machine.{
  Machine, TranslationEntry, Exception, page_fault, read_only, bus_error, address_error, page_size,
  num_phys_pages, memory_size,
}

-- What `Translate` returns: an exception, or no exception and `*physAddr`.
pub data Translation : Type 0 where
  fault : Exception → Translation
  address : ℕ → Translation

-- `(size == 4 && (virtAddr & 0x3)) || (size == 2 && (virtAddr & 0x1))`
unfoldable pub misaligned : ℕ → ℕ → Bool
misaligned virt_addr size =
    size == 4 && not (bit_and virt_addr 3 == 0) || size == 2 && not (bit_and virt_addr 1 == 0)

-- What `Translate` does with the entry that it found: the entry afterwards, and the result.
unfoldable pub use_entry :
    (offset size : ℕ) (writing : Bool) → TranslationEntry → Outcome (Translation × TranslationEntry)
use_entry offset size writing e =
    if e.read_only && writing
    then ok (fault read_only, e)
    else if leb num_phys_pages e.physical_page
    then ok (fault bus_error, e)
    else (do
      let phys_addr = e.physical_page * page_size + offset
      assert (leb (phys_addr + size) memory_size)
      ok (address phys_addr, record e { use_bit = true; dirty = writing || e.dirty }))

-- The entry at an index of the page table.
unfoldable pub use_page :
    (vpn offset size : ℕ) (writing : Bool)
    → List TranslationEntry
    → Outcome (Translation × List TranslationEntry)
use_page vpn offset size writing [] = in_array false >> ok (fault page_fault, [])
use_page zero offset size writing (e ∷ es) =
    if e.valid
    then (do (t, e') ← use_entry offset size writing e; ok (t, e' ∷ es))
    else ok (fault page_fault, e ∷ es)
use_page (suc vpn) offset size writing (e ∷ es) = do
  (t, es') ← use_page vpn offset size writing es
  ok (t, e ∷ es')

-- The loop over the TLB: the first valid entry for the page has a hit counted, and is used.
pub use_tlb :
    (vpn offset size : ℕ) (writing : Bool)
    → List TranslationEntry
    → Outcome (Translation × List TranslationEntry)
use_tlb vpn offset size writing [] = ok (fault page_fault, [])
use_tlb vpn offset size writing (e ∷ es) =
    let rest = (do (t, es') ← use_tlb vpn offset size writing es; ok (t, e ∷ es')) in
    let hit = (do
      (t, e') ← use_entry offset size writing (record e { hit_rate = e.hit_rate + 1 })
      ok (t, e' ∷ es)) in
    if e.valid && e.virtual_page == vpn then hit else rest

unfoldable pub translate_page :
    (virt_addr size : ℕ) (writing : Bool)
    → Machine
    → List TranslationEntry
    → Outcome (Translation × Machine)
unfolding use_page
translate_page virt_addr size writing m page_table =
    if leb m.page_table_size (virt_addr / page_size) then ok (fault address_error, m) else (do
      (t, es) ← use_page (virt_addr / page_size) (virt_addr % page_size) size writing page_table
      ok (t, record m { page_table = some es }))

pub translate_tlb :
    (virt_addr size : ℕ) (writing : Bool)
    → Machine
    → List TranslationEntry
    → Outcome (Translation × Machine)
unfolding use_tlb
translate_tlb virt_addr size writing m tlb = do
  (t, es) ← use_tlb (virt_addr / page_size) (virt_addr % page_size) size writing tlb
  ok (t, record m { tlb = some es })

-- The two ASSERTs: a TLB or a page table, but not both.
unfoldable pub by_table :
    (virt_addr size : ℕ) (writing : Bool)
    → Machine
    → Option (List TranslationEntry)
    → Option (List TranslationEntry)
    → Outcome (Translation × Machine)
unfolding translate_page translate_tlb
by_table virt_addr size writing m none none = abort
by_table virt_addr size writing m (some tlb) (some page_table) = abort
by_table virt_addr size writing m none (some page_table) =
    translate_page virt_addr size writing m page_table
by_table virt_addr size writing m (some tlb) none = translate_tlb virt_addr size writing m tlb

-- `Machine::Translate`
unfoldable pub translate :
    (virt_addr size : ℕ) (writing : Bool) → Machine → Outcome (Translation × Machine)
unfolding by_table
translate virt_addr size writing m =
    if misaligned virt_addr size
    then ok (fault address_error, m)
    else by_table virt_addr size writing m m.tlb m.page_table
