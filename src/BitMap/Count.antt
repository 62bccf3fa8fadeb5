-- ===== src/BitMap/Count.antt =====
-- `BitMap::NumClear` counts the clear bits, and what `Find` does to that count.
use nachos_3_4_lab.Prelude.{
  ℕ, zero, suc, ◌+◌, ◌<◌, ◌≤◌, ◌≡◌, refl, sym, subst, ap, Bool, true, false, Option, none, some,
  ◌==◌, if◌then◌else◌, arith, Bool-cases, inl, inr,
}
use nachos_3_4_lab.Prelude.Outcome.{ok}
use nachos_3_4_lab.BitMap.{BitMap, find, num_clear_from, num_clear}
use nachos_3_4_lab.BitMap.Laws.{IsValid, bit, test-bit, Update}
use nachos_3_4_lab.BitMap.Find.{Taken, Found, find-Found}

-- How many of the first `n` values of `f` are false.
abbrev pub clear_below : (ℕ → Bool) → ℕ → ℕ
clear_below f zero = 0
clear_below f (suc n) = clear_below f n + (if f n then 0 else 1)

-- The free numbers of a bitmap.
abbrev pub free : BitMap → ℕ
free b = clear_below (bit b) b.num_bits

clear_below-add-one :
    (f : ℕ → Bool) (i : ℕ)
    → clear_below f (i + 1) ≡ (if f i then clear_below f i else clear_below f i + 1)
clear_below-add-one f i = let e : i + 1 ≡ suc i = omega arith in rw e (ground arith)

num_clear_from-counts :
    {b : BitMap} (n i j : ℕ)
    → IsValid b
    → i + n ≡ j
    → j ≤ b.num_bits
    → num_clear_from n i (clear_below (bit b) i) b ≡ ok (clear_below (bit b) j)
unfolding num_clear_from
num_clear_from-counts zero i j v e h = let e' : i ≡ j = omega arith in rw e'
num_clear_from-counts {b} (suc n) i j v e h =
    rw (test-bit i v (omega arith), ← clear_below-add-one (bit b) i)
      (num_clear_from-counts n (i + 1) j v (omega arith) h)

-- On a valid bitmap `NumClear` is the number of clear bits below the number of bits.
pub num_clear-free : {b : BitMap} → IsValid b → num_clear b ≡ ok (free b)
unfolding num_clear
num_clear-free {b} v = num_clear_from-counts b.num_bits 0 b.num_bits v (omega arith) (omega arith)

pub clear_below-full : (f : ℕ → Bool) (n : ℕ) → ((j : ℕ) → j < n → f j ≡ true) → clear_below f n ≡ 0
clear_below-full f zero h = refl
clear_below-full f (suc n) h =
    rw (h n (omega arith)) (omega (arith, clear_below-full f n λ j hj. h j (omega arith)))

pub clear_below-ext :
    (f g : ℕ → Bool) (n : ℕ) → ((j : ℕ) → j < n → f j ≡ g j) → clear_below f n ≡ clear_below g n
clear_below-ext f g zero h = refl
clear_below-ext f g (suc n) h =
    rw (h n (omega arith)) (omega (arith, clear_below-ext f g n λ j hj. h j (omega arith)))

-- Setting one clear bit takes one from the count.
pub clear_below-set :
    (f g : ℕ → Bool) (i n : ℕ)
    → i < n
    → f i ≡ false
    → ((j : ℕ) → g j ≡ (if i == j then true else f j))
    → clear_below g n + 1 ≡ clear_below f n
clear_below-set f g i zero h was e = elim h [ ]
clear_below-set f g i (suc n) h was e = elim (Bool-cases (i == n)) [
  | inl last ↦
      let same : i ≡ n = ground arith in
      ground (arith, e n, ap f same, clear_below-ext g f n λ j hj. ground (arith, e j))
  | inr later ↦ ground (arith, e n, clear_below-set f g i n (ground arith) was e)
]

pub clear_below-empty :
    (f : ℕ → Bool) (n : ℕ) → ((j : ℕ) → j < n → f j ≡ false) → clear_below f n ≡ n
clear_below-empty f zero h = refl
clear_below-empty f (suc n) h =
    rw (h n (omega arith)) (omega (arith, clear_below-empty f n λ j hj. h j (omega arith)))

pub Update-free :
    {b b' : BitMap} (i : ℕ)
    → i < b.num_bits
    → bit b i ≡ false
    → Update b i true b'
    → free b' + 1 ≡ free b
Update-free {b} {b'} i lt was u =
    subst (λ n. clear_below (bit b') n + 1 ≡ free b) (sym u.same_bits)
      (clear_below-set (bit b) (bit b') i b.num_bits lt was u.bits)

pub Taken-free : {b b' : BitMap} {i : ℕ} → Taken b i b' → free b' + 1 ≡ free b
Taken-free {i = i} t = Update-free i t.in_range t.was_clear t.update

-- If a valid bitmap has a clear bit, `Find` returns the first one, sets it, and leaves one clear
-- bit less.
pub find-free :
    {b : BitMap}
    → IsValid b
    → 0 < free b
    → (i : ℕ) × (b' : BitMap) × (find b ≡ ok (some i, b')) × Taken b i b' × (free b' + 1 ≡ free b)
find-free {b} v h = pick (find-Found v)
  where
    pick :
        (r : Option ℕ × BitMap) × (find b ≡ ok r) × Found b r
        → (i : ℕ) × (b' : BitMap) × (find b ≡ ok (some i, b'))
          × Taken b i b'
          × (free b' + 1 ≡ free b)
    pick ((none, b'), runs, full) =
        absurd (omega (arith, clear_below-full (bit b) b.num_bits full.1))
    pick ((some i, b'), runs, t) = (i, b', runs, t, Taken-free t)
