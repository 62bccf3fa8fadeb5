-- ===== src/FileHeader/Slice.antt =====
-- The numbers of a stretch of an array.
use nachos_3_4_lab.Prelude.{
  ℕ, zero, suc, ◌+◌, ◌<◌, ◌≤◌, ◌≡◌, refl, ◌≢◌, inl, inr, List, Bool, true, false, ◌||◌, ◌==◌,
  get_or, arith, Bool-cases,
}

-- Whether `s` is one of `a[i] ... a[i + n - 1]`.
unfoldable pub in_slice : List ℕ → (i n s : ℕ) → Bool
in_slice a i zero s = false
in_slice a i (suc n) s = get_or a i 0 == s || in_slice a (i + 1) n s

-- Arrays that agree on a stretch have the same numbers there.
pub in_slice-ext :
    (a b : List ℕ) (n i s : ℕ)
    → ((j : ℕ) → i ≤ j → j < i + n → get_or a j 0 ≡ get_or b j 0)
    → in_slice a i n s ≡ in_slice b i n s
unfolding in_slice
in_slice-ext a b zero i s h = refl
in_slice-ext a b (suc n) i s h =
    rw (h i (omega arith) (omega arith))
      (ground (arith, in_slice-ext a b n (i + 1) s λ j p q. h j (omega arith) (omega arith)))

-- A number of the stretch stands at some index of it.
pub in_slice-index :
    (a : List ℕ) (n i s : ℕ)
    → in_slice a i n s ≡ true
    → (j : ℕ) × (i ≤ j) × (j < i + n) × (get_or a j 0 ≡ s)
unfolding in_slice
in_slice-index a zero i s h = cc
in_slice-index a (suc n) i s h = elim (Bool-cases (get_or a i 0 == s)) [
  | inl here ↦ (i, omega arith, omega arith, ground arith)
  | inr there ↦
      let (j, p, q, e) = in_slice-index a n (i + 1) s (ground arith) in
      (j, omega arith, omega arith, e)
]

pub index-in_slice :
    (a : List ℕ) (n i j : ℕ) → i ≤ j → j < i + n → in_slice a i n (get_or a j 0) ≡ true
unfolding in_slice
index-in_slice a zero i j p q = absurd (omega arith)
index-in_slice a (suc n) i j p q = elim (Bool-cases (i == j)) [
  | inl same ↦ let e : i ≡ j = ground arith in rw e (ground arith)
  | inr other ↦ ground (arith, index-in_slice a n (i + 1) j (ground arith) (omega arith))
]

-- No number stands twice in the stretch.
abbrev pub Distinct : List ℕ → (i n : ℕ) → Type 0
Distinct a i n = (j k : ℕ) → i ≤ j → j < k → k < i + n → get_or a j 0 ≢ get_or a k 0
