-- ===== src/BitMap.antt =====
-- userprog/bitmap.cc: an array of words whose bits say which sectors or pages are in use.
-- An `int` argument is a number: what the source passes to `Mark`, `Clear` and `Test` is either in
-- range or so large, as a bit pattern, that the first ASSERT stops it.
pub mod Laws
pub mod Find
pub mod Count
use nachos_3_4_lab.Prelude.{
  ℕ, zero, suc, ◌+◌, ◌-◌, ◌/◌, ◌%◌, ◌^◌, bit_and, bit_or, List, [], ◌∷◌, Bool, true, false, not,
  Option, none, some, ltb, ◌==◌, if◌then◌else◌, get_or, set,
}
use nachos_3_4_lab.Prelude.Outcome.{Outcome, ok, abort, ◌>>=◌, ◌>>◌, assert}

-- `BitsInWord`
abbrev pub bits_in_word : ℕ
bits_in_word = 32

-- `divRoundUp`
abbrev pub div_round_up : ℕ → ℕ → ℕ
div_round_up n s = n / s + (if ltb 0 (n % s) then 1 else 0)

-- `numBits`, `numWords` and `map`.
pub record BitMap : Type 0 where
  pub num_bits : ℕ
  pub num_words : ℕ
  pub words : List ℕ

abbrev pub word : BitMap → ℕ → ℕ
word b i = get_or b.words i 0

-- `BitMap::Mark`
unfoldable pub mark : ℕ → BitMap → Outcome BitMap
mark which b = do
  assert (ltb which b.num_bits)
  let i = which / bits_in_word
  ok (record b { words = set b.words i (bit_or (word b i) (2 ^ (which % bits_in_word))) })

-- `BitMap::Clear`; `~x` on 32 bits is `2 ^ 32 - 1 - x`.
unfoldable pub clear : ℕ → BitMap → Outcome BitMap
clear which b = do
  assert (ltb which b.num_bits)
  let i = which / bits_in_word
  let mask = 2 ^ bits_in_word - 1 - 2 ^ (which % bits_in_word)
  ok (record b { words = set b.words i (bit_and (word b i) mask) })

-- `BitMap::Test`
unfoldable pub test : ℕ → BitMap → Outcome Bool
test which b = do
  assert (ltb which b.num_bits)
  ok (not (bit_and (word b (which / bits_in_word)) (2 ^ (which % bits_in_word)) == 0))

-- The loop of the constructor.
unfoldable pub clear_from : (rounds i : ℕ) → BitMap → Outcome BitMap
clear_from zero i b = ok b
clear_from (suc n) i b = do b' ← clear i b; clear_from n (i + 1) b'

-- `BitMap::BitMap`; `fresh` is what `new unsigned int[numWords]` holds at first.
unfoldable pub init : ℕ → (fresh : List ℕ) → Outcome BitMap
unfolding clear_from
init nitems fresh =
    clear_from nitems 0
      (record { num_bits = nitems; num_words = div_round_up nitems bits_in_word; words = fresh })

-- The loop of `Find`, and `BitMap::Find`; `none` is the result -1.
unfoldable pub find_from : (rounds i : ℕ) → BitMap → Outcome (Option ℕ × BitMap)
find_from zero i b = ok (none, b)
find_from (suc n) i b = do
  used ← test i b
  elim used [ true ↦ find_from n (i + 1) b | false ↦ (do b' ← mark i b; ok (some i, b')) ]

unfoldable pub find : BitMap → Outcome (Option ℕ × BitMap)
unfolding find_from
find b = find_from b.num_bits 0 b

-- The loop of `NumClear`, and `BitMap::NumClear`.
pub num_clear_from : (rounds i count : ℕ) → BitMap → Outcome ℕ
num_clear_from zero i count b = ok count
num_clear_from (suc n) i count b = do
  used ← test i b
  num_clear_from n (i + 1) (if used then count else count + 1) b

pub num_clear : BitMap → Outcome ℕ
unfolding num_clear_from
num_clear b = num_clear_from b.num_bits 0 0 b
