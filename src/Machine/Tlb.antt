-- ===== src/Machine/Tlb.antt =====
-- `Machine::tlbSwap` of machine/machine.cc: the kernel's answer to a TLB miss.
pub mod Swap
use nachos_3_4_lab.Prelude.{
  ℕ, zero, suc, ◌+◌, ◌-◌, ◌*◌, ◌/◌, ◌%◌, ◌^◌, List, [], ◌∷◌, ◌++◌, Bool, true, false, not, ◌&&◌,
  Option, none, some, ltb, leb, if◌then◌else◌, length, get_elem?, set,
}
use nachos_3_4_lab.Prelude.Outcome.{Outcome, ok, abort, wild, ◌>>=◌, ◌>>◌, assert, in_array}
use nachos_3_4_lab.Machine.{Machine, TranslationEntry, page_size, tlb_size}

-- Whether the code is compiled with `TLB_LRU`.
pub data Policy : Type 0 where
  lru fifo : Policy

-- `(int) vaddr / PageSize` on the bit pattern: a negative quotient goes towards 0.
unfoldable pub signed_page : ℕ → ℕ
signed_page v =
    if ltb v (2 ^ 31) then v / page_size else (2 ^ 32 - (2 ^ 32 - v) / page_size) % 2 ^ 32

-- The first loop: an entry that is not valid.
unfoldable pub empty_from : ℕ → List TranslationEntry → Option ℕ
empty_from i [] = none
empty_from i (e ∷ es) = if not e.valid then some i else empty_from (i + 1) es

-- The loop of `TLB_LRU`: the least hit rate so far and its index.
unfoldable pub least_from : (i min : ℕ) → Option ℕ → List TranslationEntry → Option ℕ
least_from i min swap_i [] = swap_i
least_from i min swap_i (e ∷ es) =
    least_from (i + 1) (if e.valid && ltb e.hit_rate min then e.hit_rate else min)
      (if e.valid && ltb e.hit_rate min then some i else swap_i) es

-- The entry that a swap writes; `physicalPage` stays as it is.
abbrev pub refilled : ℕ → TranslationEntry → TranslationEntry
refilled vpn e = record e {
  valid = true;
  virtual_page = vpn;
  use_bit = false;
  dirty = false;
  read_only = false;
  hit_rate = 0;
}

abbrev pub refill_at : ℕ → ℕ → List TranslationEntry → List TranslationEntry
refill_at i vpn [] = []
refill_at zero vpn (e ∷ es) = refilled vpn e ∷ es
refill_at (suc i) vpn (e ∷ es) = e ∷ refill_at i vpn es

-- `tlb[swapI]` at an index that the loops have found, or at -1.
pub refill : Option ℕ → ℕ → List TranslationEntry → Machine → Outcome Machine
refill none vpn es m = wild
refill (some i) vpn es m = do
  in_array (ltb i (length es))
  ok (record m { tlb = some (refill_at i vpn es) })

-- `TLB_FIFO`: the entries move up by one, and the last takes its page from `pageTable[vpn]`.
pub shift_in :
    ℕ → List TranslationEntry → Option (List TranslationEntry) → Machine → Outcome Machine
unfolding refill
shift_in vpn [] page_table m = wild
shift_in vpn (e ∷ es) none m = wild
shift_in vpn (e ∷ es) (some table) m = elim (get_elem? table vpn) [
  | none ↦ wild
  | some p ↦
      refill (some (tlb_size - 1)) vpn (es ++ record e { physical_page = p.physical_page } ∷ []) m
]

pub swap_full : Policy → ℕ → List TranslationEntry → Machine → Outcome Machine
unfolding shift_in
swap_full lru vpn es m = refill (least_from 0 (2 ^ 31 - 1) none es) vpn es m
swap_full fifo vpn es m = shift_in vpn es m.page_table m

pub swap_entries : Policy → ℕ → Option (List TranslationEntry) → Machine → Outcome Machine
unfolding swap_full refill
swap_entries p vpn none m = abort
swap_entries p vpn (some es) m = elim (empty_from 0 es) [
  | none ↦ swap_full p vpn es m
  | some i ↦ refill (some i) vpn es m
]

-- `Machine::tlbSwap`
pub tlb_swap : Policy → ℕ → Machine → Outcome Machine
unfolding swap_entries
tlb_swap p vaddr m = swap_entries p (signed_page vaddr) m.tlb m
