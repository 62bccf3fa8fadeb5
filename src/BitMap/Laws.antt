-- ===== src/BitMap/Laws.antt =====
-- `Mark`, `Clear` and `Test` against a set of numbers: which bits a bitmap holds.
use nachos_3_4_lab.Prelude.{
  ℕ, ◌-◌, ◌/◌, ◌%◌, ◌^◌, ◌<◌, ◌≤◌, bit_and, bit_or, ◌≡◌, Bool, true, false, ◌==◌, if◌then◌else◌,
  length, set, length-set, get_or-set_self, get_or-set_ne, arith, lt→ltb, ltb-false,
}
use nachos_3_4_lab.Prelude.Outcome.{ok, abort}
use nachos_3_4_lab.Prelude.Bits.{
  bit_at, bit_and-two_pow, bit_at-bit_or, bit_at-bit_and_not, two_pow_pos,
}
use nachos_3_4_lab.BitMap.{BitMap, word, div_round_up, mark, clear, test}

-- The storage has the words that the number of bits asks for.
pub record IsValid (b : BitMap) : Type 0 where
  pub words_up : b.num_words ≡ div_round_up b.num_bits 32
  pub stored : length b.words ≡ b.num_words

-- Bit `j` of the whole map.
unfoldable pub bit : BitMap → ℕ → Bool
bit b j = bit_at (word b (j / 32)) (j % 32)

-- `b'` is `b` with bit `i` set to `v`.
pub record Update (b : BitMap) (i : ℕ) (v : Bool) (b' : BitMap) : Type 0 where
  pub valid : IsValid b'
  pub same_bits : b'.num_bits ≡ b.num_bits
  pub bits : (j : ℕ) → bit b' j ≡ (if i == j then v else bit b j)

word_in_range : {b : BitMap} (i : ℕ) → IsValid b → i < b.num_bits → i / 32 < length b.words
word_in_range i v h = ground arith

set_word-bit :
    (b : BitMap) (i j w : ℕ)
    → i / 32 < length b.words
    → bit (record b { words = set b.words (i / 32) w }) j
      ≡ (if i / 32 == j / 32 then bit_at w (j % 32) else bit b j)
unfolding bit
set_word-bit b i j w h =
    ground
      (arith, get_or-set_self b.words (i / 32) w 0, get_or-set_ne b.words (i / 32) (j / 32) w 0)

set-word-Update :
    (b : BitMap) (i w : ℕ) (v : Bool)
    → IsValid b
    → i < b.num_bits
    → ((j : ℕ) → j < 32 → bit_at w j ≡ (if i % 32 == j then v else bit_at (word b (i / 32)) j))
    → Update b i v (record b { words = set b.words (i / 32) w })
set-word-Update b i w v valid h at = record {
  valid = record {
    words_up = valid.words_up;
    stored = ground (arith, length-set b.words (i / 32) w, valid.stored);
  };
  same_bits = omega arith;
  bits = λ j. spread j;
}
  where
    spread :
        (j : ℕ)
        → bit (record b { words = set b.words (i / 32) w }) j ≡ (if i == j then v else bit b j)
    spread j =
        unfold bit in
        ground (arith, set_word-bit b i j w (word_in_range i valid h), at (j % 32) (omega arith))

module _ {b : BitMap} (i : ℕ) (v : IsValid b) where
  -- `Test` reads the bit.
  pub test-bit : i < b.num_bits → test i b ≡ ok (bit b i)
  unfolding test bit
  test-bit h = ground (arith, two_pow_pos (i % 32), bit_and-two_pow (i % 32) (word b (i / 32)))

  -- `Mark` of a number in range of a valid bitmap succeeds, sets that bit, keeps every other one,
  -- and keeps the bitmap valid.
  pub mark-Update : i < b.num_bits → (b' : BitMap) × (mark i b ≡ ok b') × Update b i true b'
  unfolding mark
  mark-Update h = (
    record b { words = set b.words (i / 32) (bit_or (word b (i / 32)) (2 ^ (i % 32))) },
    rw (lt→ltb i b.num_bits h),
    set-word-Update b i _ true v h λ j _. bit_at-bit_or (i % 32) j (word b (i / 32)),
  )

  -- `Clear` of a number in range of a valid bitmap succeeds, clears that bit, keeps every other
  -- one, and keeps the bitmap valid.
  pub clear-Update : i < b.num_bits → (b' : BitMap) × (clear i b ≡ ok b') × Update b i false b'
  unfolding clear
  clear-Update h = (
    record b {
      words = set b.words (i / 32) (bit_and (word b (i / 32)) (2 ^ 32 - 1 - 2 ^ (i % 32)));
    },
    rw (lt→ltb i b.num_bits h),
    set-word-Update b i _ false v h
        λ j hj. bit_at-bit_and_not 32 (i % 32) j (word b (i / 32)) (omega arith) hj,
  )

-- `Mark`, `Clear` and `Test` of a number out of range stop at an ASSERT.
pub out_of_range :
    (b : BitMap) (i : ℕ)
    → b.num_bits ≤ i
    → (mark i b ≡ abort) × (clear i b ≡ abort) × (test i b ≡ abort)
unfolding mark clear test
out_of_range b i h =
    (rw (ltb-false i b.num_bits h), rw (ltb-false i b.num_bits h), rw (ltb-false i b.num_bits h))
