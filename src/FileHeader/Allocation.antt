-- ===== src/FileHeader/Allocation.antt =====
-- The sectors that a run of `Find`s takes.
use nachos_3_4_lab.Prelude.{
  ℕ, zero, suc, ◌+◌, ◌<◌, ◌≤◌, ◌≡◌, refl, ◌∙◌, ◌≢◌, inl, inr, List, false, ◌||◌, ◌==◌, get_or, set,
  length, length-set, get_or-set_self, get_or-set_ne, arith, Bool-cases, lt→ltb,
}
use nachos_3_4_lab.Prelude.Outcome.{ok}
use nachos_3_4_lab.BitMap.{BitMap}
use nachos_3_4_lab.BitMap.Laws.{IsValid, bit}
use nachos_3_4_lab.BitMap.Find.{Taken}
use nachos_3_4_lab.BitMap.Count.{free, find-free}
use nachos_3_4_lab.FileHeader.{find_all}
use nachos_3_4_lab.FileHeader.Slice.{in_slice, Distinct}

-- `a'` is `a` with `n` free sectors of `m` from index `i` on, and `m'` is `m` with them marked.
pub record Allocated (m : BitMap) (i n : ℕ) (a : List ℕ) (a' : List ℕ) (m' : BitMap) : Type 0 where
  pub valid : IsValid m'
  pub same_bits : m'.num_bits ≡ m.num_bits
  pub taken : free m' + n ≡ free m
  pub same_length : length a' ≡ length a
  pub before : (j : ℕ) → j < i → get_or a' j 0 ≡ get_or a j 0
  pub after : (j : ℕ) → i + n ≤ j → get_or a' j 0 ≡ get_or a j 0
  pub in_range : (j : ℕ) → i ≤ j → j < i + n → get_or a' j 0 < m.num_bits
  pub were_free : (j : ℕ) → i ≤ j → j < i + n → bit m (get_or a' j 0) ≡ false
  pub distinct : Distinct a' i n
  pub bits : (s : ℕ) → bit m' s ≡ (bit m s || in_slice a' i n s)

Allocated-cons :
    {m m₁ m' : BitMap} {s n i : ℕ} {a a' : List ℕ}
    → i < length a
    → Taken m s m₁
    → free m₁ + 1 ≡ free m
    → Allocated m₁ (i + 1) n (set a i s) a' m'
    → Allocated m i (suc n) a a' m'
Allocated-cons {m} {m₁} {m'} {s} {n} {i} {a} {a'} room t less r = record {
  valid = r.valid;
  same_bits = r.same_bits ∙ t.update.same_bits;
  taken = omega (arith, r.taken);
  same_length = r.same_length ∙ length-set a i s;
  before = λ j h. r.before j (omega arith) ∙ get_or-set_ne a i j s 0 (omega arith);
  after = λ j h. r.after j (omega arith) ∙ get_or-set_ne a i j s 0 (omega arith);
  in_range = λ j p q. elim (Bool-cases (i == j)) [
    | inl same ↦ let e : i ≡ j = ground arith in rw (← e, first) t.in_range
    | inr other ↦
        let h : get_or a' j 0 < m₁.num_bits = r.in_range j (ground arith) (omega arith) in
        omega (arith, t.update.same_bits)
  ];
  were_free = λ j p q. elim (Bool-cases (i == j)) [
    | inl same ↦ let e : i ≡ j = ground arith in rw (← e, first) t.was_clear
    | inr other ↦ ground (arith, still j (ground arith) (omega arith))
  ];
  distinct = λ j k p q h. elim (Bool-cases (i == j)) [
    | inl same ↦
        let e : i ≡ j = ground arith in
        rw (← e, first)
          (λ (twice : s ≡ get_or a' k 0). ground (arith, still k (omega arith) (omega arith)))
    | inr other ↦ r.distinct j k (ground arith) q (omega arith)
  ];
  bits = λ x. unfold in_slice in ground (arith, r.bits x, t.update.bits x, first);
}
  where
    first : get_or a' i 0 ≡ s
    first = r.before i (omega arith) ∙ get_or-set_self a i s 0 room

    -- A later sector is another one than `s`, and was free before.
    still :
        (j : ℕ) → i + 1 ≤ j → j < i + suc n → (bit m (get_or a' j 0) ≡ false) × (s ≢ get_or a' j 0)
    still j p q = ground (arith, r.were_free j p (omega arith), t.update.bits (get_or a' j 0))

-- With enough free sectors and room in the array, the loop takes as many distinct free sectors as
-- it has rounds, writes them in order, and marks exactly them.
pub find_all-Allocated :
    (n i : ℕ) (a : List ℕ) {m : BitMap}
    → IsValid m
    → n ≤ free m
    → i + n ≤ length a
    → (a' : List ℕ) × (m' : BitMap) × (find_all n i a m ≡ ok (a', m')) × Allocated m i n a a' m'
unfolding find_all
find_all-Allocated zero i a {m} v enough room = (
  a,
  m,
  refl,
  record {
    valid = v;
    same_bits = refl;
    taken = omega arith;
    same_length = refl;
    before = λ j h. refl;
    after = λ j h. refl;
    in_range = λ j p q. absurd (omega arith);
    were_free = λ j p q. absurd (omega arith);
    distinct = λ j k p q h. absurd (omega arith);
    bits = λ s. unfold in_slice in ground arith;
  },
)
find_all-Allocated (suc n) i a {m} v enough room =
    let (s, m₁, runs, t, less) = find-free v (omega arith) in
    let (a', m', loop, r) =
      find_all-Allocated n (i + 1) (set a i s) {m = m₁} t.update.valid (omega arith)
        (omega (arith, length-set a i s)) in
    (
      a',
      m',
      rw (runs, lt→ltb i (length a) (omega arith)) loop,
      Allocated-cons (omega arith) t less r,
    )
