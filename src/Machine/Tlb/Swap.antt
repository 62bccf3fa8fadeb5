-- ===== src/Machine/Tlb/Swap.antt =====
-- After a swap the access that missed is granted, on the frame that the replaced entry had.
use nachos_3_4_lab.Prelude.{
  ltb, ℕ, ◌+◌, ◌-◌, ◌^◌, ◌<◌, ◌≡◌, refl, inl, inr, List, [], ◌∷◌, true, ◌&&◌, arith, length, none,
  some, ltb, Bool-cases, Option-cases, lt→ltb,
}
use nachos_3_4_lab.Prelude.Outcome.{ok}
use nachos_3_4_lab.Machine.{Machine, TranslationEntry}
use nachos_3_4_lab.Machine.Tlb.{
  lru, empty_from, least_from, refill_at, refill, swap_full, swap_entries,
}

-- Every hit rate is below the `min` that the search starts with.
abbrev pub RatesBelow : ℕ → List TranslationEntry → Type 0
RatesBelow n [] = Unit {0}
RatesBelow n (e ∷ es) = (e.hit_rate < n) × RatesBelow n es

empty_from-lt :
    (i : ℕ) (es : List TranslationEntry) (j : ℕ) → empty_from i es ≡ some j → j < i + length es
unfolding empty_from
empty_from-lt i [] j h = cc
empty_from-lt i (e ∷ es) j h = ground (arith, empty_from-lt (i + 1) es j)

-- Once an index below the end is chosen, the search ends with one.
least_from-lt :
    (i min k : ℕ) (es : List TranslationEntry)
    → k < i + length es
    → (j : ℕ) × (least_from i min (some k) es ≡ some j) × (j < i + length es)
unfolding least_from
least_from-lt i min k [] h = (k, refl, omega arith)
least_from-lt i min k (e ∷ es) h = elim (Bool-cases (e.valid && ltb e.hit_rate min)) [
  | inl better ↦
      let (j, chosen, below) = least_from-lt (i + 1) e.hit_rate i es (omega arith) in
      (j, rw better chosen, omega arith)
  | inr worse ↦
      let (j, chosen, below) = least_from-lt (i + 1) min k es (omega arith) in
      (j, rw worse chosen, omega arith)
]

least_from-full :
    (es : List TranslationEntry)
    → 0 < length es
    → empty_from 0 es ≡ none
    → RatesBelow (2 ^ 31 - 1) es
    → (j : ℕ) × (least_from 0 (2 ^ 31 - 1) none es ≡ some j) × (j < length es)
unfolding least_from empty_from
least_from-full [] h full rates = absurd (omega arith)
least_from-full (e ∷ es) h full rates =
    let on : (e.valid && ltb e.hit_rate (2 ^ 31 - 1)) ≡ true = ground arith in
    let (j, chosen, below) = least_from-lt 1 e.hit_rate 0 es (omega arith) in
    (j, rw on chosen, omega arith)

-- Which entry the LRU policy gives up: an invalid one, or one of the least hit rate.
chosen :
    (es : List TranslationEntry)
    → 0 < length es
    → RatesBelow (2 ^ 31 - 1) es
    → (vpn : ℕ) (m : Machine)
    → (i : ℕ) × (i < length es)
      × (swap_entries lru vpn (some es) m ≡ ok (record m { tlb = some (refill_at i vpn es) }))
unfolding swap_entries swap_full refill
chosen es some_entry rates vpn m = elim (Option-cases (empty_from 0 es)) [
  | inl full ↦
      let (j, least, below) = least_from-full es some_entry full rates in
      (j, below, rw (full, swap_entries, least, lt→ltb j (length es) below) refl)
  | inr (j, empty) ↦
      let below : j < length es = omega (arith, empty_from-lt 0 es j empty) in
      (j, below, rw (empty, swap_entries, lt→ltb j (length es) below) refl)
]
