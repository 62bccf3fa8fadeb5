-- ===== src/Machine/Translate/Hit.antt =====
-- `Translate` through the TLB: misses and hits.
use nachos_3_4_lab.Prelude.{
  ℕ, zero, suc, ◌+◌, ◌/◌, ◌%◌, ◌<◌, ◌≤◌, ◌≡◌, refl, ap₂, ◌∙◌, List, [], ◌∷◌, Bool, true, false, not,
  ◌&&◌, arith, length, set, none, some, ◌==◌,
}
use nachos_3_4_lab.Prelude.Outcome.{ok}
use nachos_3_4_lab.Machine.{Machine, TranslationEntry, page_fault}
use nachos_3_4_lab.Machine.Translate.{
  fault, misaligned, use_tlb, translate_tlb, by_table, translate,
}
use nachos_3_4_lab.Machine.Translate.Entry.{IsSize, misaligned-false}
use nachos_3_4_lab.Machine.Translate.Page.{entry_answer, use_entry_answer}

abbrev pub matches : ℕ → TranslationEntry → Bool
matches vpn e = e.valid && e.virtual_page == vpn

-- No entry of the TLB stands for the page.
unfoldable pub misses : ℕ → List TranslationEntry → Bool
misses vpn [] = true
misses vpn (e ∷ es) = not (matches vpn e) && misses vpn es

pub use_tlb_miss :
    (vpn offset size : ℕ) (writing : Bool) (es : List TranslationEntry)
    → misses vpn es ≡ true
    → use_tlb vpn offset size writing es ≡ ok (fault page_fault, es)
unfolding use_tlb misses
use_tlb_miss vpn offset size writing [] h = refl
use_tlb_miss vpn offset size writing (e ∷ es) h =
    let miss : matches vpn e ≡ false = ground arith in
    rw (miss, use_tlb_miss vpn offset size writing es (ground arith)) refl

abbrev pub counted : TranslationEntry → TranslationEntry
counted e = record e { hit_rate = e.hit_rate + 1 }

-- What `Translate` promises at the first entry for the page.
pub use_tlb_hit :
    (vpn offset size : ℕ) (writing : Bool) (es : List TranslationEntry) (i : ℕ)
    (e : TranslationEntry)
    → offset + size ≤ 128
    → misses vpn es ≡ true
    → i < length es
    → matches vpn e ≡ true
    → use_tlb vpn offset size writing (set es i e)
      ≡ ok (
        (entry_answer offset writing (counted e)).0,
        set es i (entry_answer offset writing (counted e)).1,
      )
unfolding use_tlb misses
use_tlb_hit vpn offset size writing [] i e fits miss h hit = absurd (omega arith)
use_tlb_hit vpn offset size writing (x ∷ es) zero e fits miss h hit =
    rw (hit, use_entry_answer offset size writing (counted e) fits) refl
use_tlb_hit vpn offset size writing (x ∷ es) (suc i) e fits miss h hit =
    let other : matches vpn x ≡ false = ground arith in
    rw (other, use_tlb_hit vpn offset size writing es i e fits (ground arith) (omega arith) hit)
      refl

module _ (v : ℕ) {size : ℕ} (writing : Bool) (m : Machine) {tlb : List TranslationEntry}
    (is_size : IsSize size) (aligned : misaligned v size ≡ false) (has_tlb : m.tlb ≡ some tlb)
    (no_table : m.page_table ≡ none) where
  -- With a TLB and no page table, an aligned access of 1, 2 or 4 bytes to a page that no valid
  -- entry of the TLB stands for is a page fault that changes nothing.
  pub translate_miss :
      misses (v / 128) tlb ≡ true
      → translate v size writing m ≡ ok (fault page_fault, record m { tlb = some tlb })
  unfolding translate by_table translate_tlb
  translate_miss miss = rw aligned (
      ap₂ (λ x y. by_table v size writing m x y) has_tlb no_table
      ∙ rw (use_tlb_miss (v / 128) (v % 128) size writing tlb miss) refl)

-- A hit answers as the entry says, and counts itself.
pub translate_hit :
    (v : ℕ) {size : ℕ} (writing : Bool) (m : Machine) (es : List TranslationEntry) (i : ℕ)
    (e : TranslationEntry)
    → IsSize size
    → misaligned v size ≡ false
    → m.tlb ≡ some (set es i e)
    → m.page_table ≡ none
    → misses (v / 128) es ≡ true
    → i < length es
    → matches (v / 128) e ≡ true
    → translate v size writing m
      ≡ ok (
        (entry_answer (v % 128) writing (counted e)).0,
        record m { tlb = some (set es i (entry_answer (v % 128) writing (counted e)).1) },
      )
unfolding translate by_table translate_tlb
translate_hit v {size} writing m es i e is_size aligned has_tlb no_table miss below hit =
    let (_, fits) = misaligned-false v is_size aligned in
    rw aligned (
      ap₂ (λ x y. by_table v size writing m x y) has_tlb no_table
      ∙ rw (use_tlb_hit (v / 128) (v % 128) size writing es i e fits miss below hit) refl)
