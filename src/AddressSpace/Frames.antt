-- ===== src/AddressSpace/Frames.antt =====
-- Which frames the loop of the constructor takes, and that the destructor gives them back.
use nachos_3_4_lab.Prelude.{
  ℕ, zero, suc, ◌+◌, ◌<◌, ◌≤◌, ◌≡◌, ◌≢◌, ◌∙◌, refl, sym, ap, ◌⊎◌, List, [], ◌∷◌, Bool, true, false,
  not, ◌&&◌, ◌||◌, Option, none, some, ◌==◌, length, get_or, get_elem?, arith, Bool-cases, inl, inr,
}
use nachos_3_4_lab.Prelude.Outcome.{ok, abort}
use nachos_3_4_lab.BitMap
use nachos_3_4_lab.BitMap.{BitMap}
use nachos_3_4_lab.BitMap.Laws.{IsValid, bit, test-bit, clear-Update}
use nachos_3_4_lab.BitMap.Find.{Taken, Found, find-Found}
use nachos_3_4_lab.BitMap.Count.{free, find-free, Taken-free}
use nachos_3_4_lab.Machine.{TranslationEntry}
use nachos_3_4_lab.AddressSpace.{find_frame, clear_frame, new_page, new_pages, clear_frames}

-- The page table on a list of frames, from page `i` on.
abbrev pub pages_on : (i : ℕ) → List ℕ → List TranslationEntry
pages_on i [] = []
pages_on i (frame ∷ a) = new_page i frame ∷ pages_on (i + 1) a

abbrev pub has_frame : List ℕ → ℕ → Bool
has_frame [] s = false
has_frame (frame ∷ a) s = frame == s || has_frame a s

-- The frames were taken one by one.
abbrev pub Chain : BitMap → List ℕ → BitMap → Type 0
Chain b [] b' = b' ≡ b
Chain b (frame ∷ a) b' = (b₁ : BitMap) × Taken b frame b₁ × Chain b₁ a b'

pub new_pages-Chain :
    (n i : ℕ) {b : BitMap}
    → IsValid b
    → n ≤ free b
    → (a : List ℕ) × (b' : BitMap) × (new_pages n i b ≡ ok (pages_on i a, b'))
      × (length a ≡ n)
      × Chain b a b'
      × IsValid b'
      × (b'.num_bits ≡ b.num_bits)
unfolding new_pages find_frame
new_pages-Chain zero i {b} v enough = ([], b, refl, refl, refl, v, refl)
new_pages-Chain (suc n) i v enough =
    let (frame, b₁, found, t, less) = find-free v (omega arith) in
    let (a, b', runs, size, chain, v', same) =
      new_pages-Chain n (i + 1) {b = b₁} t.update.valid (omega arith) in
    (
      frame ∷ a,
      b',
      rw (found, runs) refl,
      omega (arith, size),
      (b₁, t, chain),
      v',
      same ∙ t.update.same_bits,
    )

find_frame-cases :
    (n : ℕ) (b : BitMap)
    → IsValid b
    → free b < suc n
    → (find_frame b ≡ abort)
      ⊎ ((frame : ℕ) × (b₁ : BitMap) × (find_frame b ≡ ok (frame, b₁)) × IsValid b₁ × (free b₁ < n))
unfolding find_frame
find_frame-cases n b v few = step (find-Found v)
  where
    step :
        (r : Option ℕ × BitMap) × (BitMap.find b ≡ ok r) × Found b r
        → (find_frame b ≡ abort)
          ⊎ ((frame : ℕ) × (b₁ : BitMap) × (find_frame b ≡ ok (frame, b₁))
              × IsValid b₁
              × (free b₁ < n))
    step ((none, b'), runs, _) = inl (rw (runs) refl)
    step ((some frame, b'), runs, t) =
        inr (frame, b', rw (runs) refl, t.update.valid, omega (arith, Taken-free t, few))

-- Too few free frames fail the ASSERT of `Find`.
pub new_pages_short : (n i : ℕ) (b : BitMap) → IsValid b → free b < n → new_pages n i b ≡ abort
unfolding new_pages
new_pages_short zero i b v few = absurd (omega arith)
new_pages_short (suc n) i b v few = elim (find_frame-cases n b v few) [
  | inl stopped ↦ rw (stopped) refl
  | inr (frame, b₁, found, v₁, fewer) ↦ rw (found, new_pages_short n (i + 1) b₁ v₁ fewer) refl
]

-- The map afterwards has the frames besides; they were free.
pub Chain-bits :
    (b b' : BitMap) (a : List ℕ) (s : ℕ)
    → Chain b a b'
    → (bit b' s ≡ (bit b s || has_frame a s)) × ((bit b s && has_frame a s) ≡ false)
Chain-bits b b' [] s e = let same : bit b' s ≡ bit b s = ap (λ x. bit x s) e in ground (arith, same)
Chain-bits b b' (frame ∷ a) s (b₁, t, chain) =
    let (after, apart) = Chain-bits b₁ b' a s chain in
    elim (Bool-cases (frame == s)) [
      | inl here ↦
          let e : frame ≡ s = ground (arith, here) in
          let was : bit b s ≡ false = sym (ap (bit b) e) ∙ t.was_clear in
          ground (arith, after, apart, t.update.bits s, was, here)
      | inr other ↦ ground (arith, after, apart, t.update.bits s, other)
    ]

pub has_frame-get_or : (a : List ℕ) (k : ℕ) → k < length a → has_frame a (get_or a k 0) ≡ true
has_frame-get_or [] k lt = absurd (omega arith)
has_frame-get_or (frame ∷ a) zero lt = ground arith
has_frame-get_or (frame ∷ a) (suc k) lt = ground (arith, has_frame-get_or a k (omega arith))

pub Chain-in_range :
    (b b' : BitMap) (a : List ℕ) (k : ℕ) → Chain b a b' → k < length a → get_or a k 0 < b.num_bits
Chain-in_range b b' [] k chain lt = absurd (omega arith)
Chain-in_range b b' (frame ∷ a) zero (b₁, t, chain) lt = t.in_range
Chain-in_range b b' (frame ∷ a) (suc k) (b₁, t, chain) lt =
    omega (arith, Chain-in_range b₁ b' a k chain (omega arith), t.update.same_bits)

pub Chain-distinct :
    (b b' : BitMap) (a : List ℕ) (j k : ℕ)
    → Chain b a b'
    → j < k
    → k < length a
    → get_or a j 0 ≢ get_or a k 0
Chain-distinct b b' [] j k chain lt below = absurd (omega arith)
Chain-distinct b b' (frame ∷ a) zero zero chain lt below = absurd (omega arith)
Chain-distinct b b' (frame ∷ a) (suc j) zero chain lt below = absurd (omega arith)
Chain-distinct b b' (frame ∷ a) zero (suc k) (b₁, t, chain) lt below = λ e.
    let there : has_frame a frame ≡ true =
      ap (has_frame a) e ∙ has_frame-get_or a k (omega (arith, below)) in
    ground (arith, Chain-bits b₁ b' a frame chain, t.update.bits frame, there)
Chain-distinct b b' (frame ∷ a) (suc j) (suc k) (b₁, t, chain) lt below =
    Chain-distinct b₁ b' a j k chain (omega arith) (omega (arith, below))

pub Chain-free : (b b' : BitMap) (a : List ℕ) → Chain b a b' → free b' + length a ≡ free b
Chain-free b b' [] e = let same : free b' ≡ free b = ap free e in omega (arith, same)
Chain-free b b' (frame ∷ a) (b₁, t, chain) = omega (arith, Chain-free b₁ b' a chain, Taken-free t)

pub get_elem?-pages_on :
    (i : ℕ) (a : List ℕ) (k : ℕ)
    → k < length a
    → get_elem? (pages_on i a) k ≡ some (new_page (i + k) (get_or a k 0))
get_elem?-pages_on i [] k lt = absurd (omega arith)
get_elem?-pages_on i (frame ∷ a) zero lt =
    let e : i ≡ i + 0 = omega arith in ap (λ p. some (new_page p frame)) e
get_elem?-pages_on i (frame ∷ a) (suc k) lt =
    let e : i + 1 + k ≡ i + suc k = omega arith in
    get_elem?-pages_on (i + 1) a k (omega arith) ∙ ap (λ p. some (new_page p (get_or a k 0))) e

pub length-pages_on : (i : ℕ) (a : List ℕ) → length (pages_on i a) ≡ length a
length-pages_on i [] = refl
length-pages_on i (frame ∷ a) = omega (arith, length-pages_on (i + 1) a)

clear_frame-valid :
    (frame : ℕ) (b : BitMap)
    → IsValid b
    → frame < b.num_bits
    → (b' : BitMap) × (clear_frame frame b ≡ ok b')
      × IsValid b'
      × (b'.num_bits ≡ b.num_bits)
      × ((s : ℕ) → bit b' s ≡ (bit b s && not (frame == s)))
unfolding clear_frame
clear_frame-valid frame b v lt = elim (Bool-cases (bit b frame)) [
  | inl used ↦
      let (b', runs, u) = clear-Update frame v lt in
      (
        b',
        rw (test-bit frame v lt, used, runs),
        u.valid,
        u.same_bits,
        λ s. ground (arith, u.bits s),
      )
  | inr was ↦ (
    b,
    rw (test-bit frame v lt, was),
    v,
    refl,
    λ s. elim (Bool-cases (frame == s)) [
      | inl here ↦
          let e : frame ≡ s = ground (arith, here) in
          let clear : bit b s ≡ false = sym (ap (bit b) e) ∙ was in ground (arith, clear)
      | inr other ↦ ground (arith, other)
    ],
  )
]

-- Frames in range are all cleared.
pub clear_frames-pages_on :
    (i : ℕ) (a : List ℕ) (b : BitMap)
    → IsValid b
    → ((k : ℕ) → k < length a → get_or a k 0 < b.num_bits)
    → (b' : BitMap) × (clear_frames (length a) (pages_on i a) b ≡ ok b')
      × IsValid b'
      × (b'.num_bits ≡ b.num_bits)
      × ((s : ℕ) → bit b' s ≡ (bit b s && not (has_frame a s)))
unfolding clear_frames
clear_frames-pages_on i [] b v inside = (b, refl, v, refl, λ s. ground arith)
clear_frames-pages_on i (frame ∷ a) b v inside =
    let (b₁, cleared, v₁, same₁, bits₁) = clear_frame-valid frame b v (inside 0 (omega arith)) in
    let (b', runs, v', same, bits) = clear_frames-pages_on (i + 1) a b₁ v₁ (λ k lt.
      let there : get_or a k 0 < b.num_bits = inside (suc k) (omega (arith, lt)) in
      omega (arith, there, same₁)) in
    (b', rw (cleared, runs) refl, v', same ∙ same₁, λ s. ground (arith, bits s, bits₁ s))
