-- ===== src/BitMap/Find.antt =====
-- `BitMap::Find` against the set: the first clear bit, and its allocation. The constructor.
use nachos_3_4_lab.Prelude.{
  ℕ, zero, suc, ◌+◌, ◌<◌, ◌≡◌, refl, ◌∙◌, inl, inr, Bool, true, false, Option, none, some, List,
  length, ◌==◌, arith, Bool-cases,
}
use nachos_3_4_lab.Prelude.Outcome.{ok}
use nachos_3_4_lab.BitMap.{BitMap, div_round_up, find_from, find, clear_from, init}
use nachos_3_4_lab.BitMap.Laws.{IsValid, bit, Update, test-bit, mark-Update, clear-Update}

-- Bit `i` was the first clear one, and `b'` is `b` with it set.
pub record Taken (b : BitMap) (i : ℕ) (b' : BitMap) : Type 0 where
  pub in_range : i < b.num_bits
  pub was_clear : bit b i ≡ false
  pub first : (j : ℕ) → j < i → bit b j ≡ true
  pub update : Update b i true b'

-- What `Find` promises.
abbrev pub Found : BitMap → Option ℕ × BitMap → Type 0
Found b (none, b') = (b' ≡ b) × ((j : ℕ) → j < b.num_bits → bit b j ≡ true)
Found b (some i, b') = Taken b i b'

below_suc :
    (f : ℕ → Bool) (i : ℕ)
    → ((j : ℕ) → j < i → f j ≡ true)
    → f i ≡ true
    → (j : ℕ) → j < i + 1
    → f j ≡ true
below_suc f i all here j h = elim (Bool-cases (i == j)) [
  | inl e ↦ let same : i ≡ j = ground arith in rw (← same) here
  | inr e ↦ all j (ground arith)
]

module _ {b : BitMap} (v : IsValid b) where
  find_from-Found :
      (n i : ℕ)
      → i + n ≡ b.num_bits
      → ((j : ℕ) → j < i → bit b j ≡ true)
      → (r : Option ℕ × BitMap) × (find_from n i b ≡ ok r) × Found b r
  unfolding find_from
  find_from-Found zero i e all = ((none, b), refl, (refl, λ j h. all j (omega arith)))
  find_from-Found (suc n) i e all = elim (Bool-cases (bit b i)) [
    | inl used ↦
        let (r, runs, found) =
          find_from-Found n (i + 1) (omega arith) (below_suc (bit b) i all used) in
        (r, rw (test-bit i v (omega arith), used) runs, found)
    | inr free ↦
        let (b', marked, update) = mark-Update i v (omega arith) in
        (
          (some i, b'),
          rw (test-bit i v (omega arith), free, marked) refl,
          record { in_range = omega arith; was_clear = free; first = all; update = update },
        )
  ]

  -- On a valid bitmap `Find` runs without an abort: either it returns the first clear bit, sets it
  -- and changes no other, or it returns -1, every bit is set and nothing changes.
  pub find-Found : (r : Option ℕ × BitMap) × (find b ≡ ok r) × Found b r
  unfolding find
  find-Found = find_from-Found b.num_bits 0 (omega arith) (λ j h. absurd (omega arith))

-- The loop of the constructor clears the bits from `i` on.
clear_from-clears :
    (n i : ℕ) {b : BitMap}
    → IsValid b
    → i + n ≡ b.num_bits
    → ((j : ℕ) → j < i → bit b j ≡ false)
    → (b' : BitMap) × (clear_from n i b ≡ ok b')
      × IsValid b'
      × (b'.num_bits ≡ b.num_bits)
      × ((j : ℕ) → j < b.num_bits → bit b' j ≡ false)
unfolding clear_from
clear_from-clears zero i {b} v e all = (b, refl, v, refl, λ j h. all j (omega arith))
clear_from-clears (suc n) i {b} v e all =
    let (b₁, cleared, u) = clear-Update i v (omega arith) in
    let (b₂, runs, v₂, same, none_set) =
      clear_from-clears n (i + 1) {b = b₁} u.valid (omega (arith, u.same_bits))
        λ j h. ground (arith, u.bits j, all j) in
    (b₂, rw cleared runs, v₂, same ∙ u.same_bits, λ j h. none_set j (omega (arith, u.same_bits)))

-- A new bitmap of any number of bits, in storage of as many words as that asks for, is valid and
-- has no bit set, whatever the storage held.
pub init-clear :
    (n : ℕ) (fresh : List ℕ)
    → length fresh ≡ div_round_up n 32
    → (b : BitMap) × (init n fresh ≡ ok b)
      × IsValid b
      × (b.num_bits ≡ n)
      × ((j : ℕ) → j < n → bit b j ≡ false)
unfolding init
init-clear n fresh h =
    clear_from-clears n 0
      {b = record { num_bits = n; num_words = div_round_up n 32; words = fresh }}
      (record { words_up = refl; stored = h }) (omega arith) (λ j h. absurd (omega arith))
