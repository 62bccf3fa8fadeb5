-- ===== src/Disk/Bytes.antt =====
-- What a `char` read of a stored `int` array sees.
use nachos_3_4_lab.Prelude.{
  ℕ, zero, suc, ◌*◌, ◌%◌, ◌^◌, ◌<◌, ◌≤◌, ◌≡◌, refl, ◌↔◌, List, [], ◌∷◌, arith, length, get_or,
}
use nachos_3_4_lab.Disk.{ints_bytes, char_at}

get_or-ints_bytes :
    (vs : List ℕ) (i : ℕ) → i < length vs → get_or (ints_bytes vs) (4 * i) 0 ≡ get_or vs i 0 % 256
unfolding ints_bytes
get_or-ints_bytes [] i h = absurd (omega arith)
get_or-ints_bytes (v ∷ vs) zero h = refl
get_or-ints_bytes (v ∷ vs) (suc i) h =
    let e : 4 * suc i ≡ suc (suc (suc (suc (4 * i)))) = omega arith in
    rw e (get_or-ints_bytes vs i (omega arith))

-- Byte `4 * i`, read as a `char`, is the `i`th number of the array only below 128.
pub char_at-ints_bytes :
    (vs : List ℕ) (i : ℕ)
    → i < length vs
    → get_or vs i 0 < 2 ^ 31
    → (char_at (ints_bytes vs) (4 * i) ≡ get_or vs i 0) ↔ (get_or vs i 0 < 128)
unfolding char_at
char_at-ints_bytes vs i h small =
    ((λ e. ground (arith, get_or-ints_bytes vs i h)), λ e. ground (arith, get_or-ints_bytes vs i h))

-- From 128 on, a low byte of 128 or more reads as a negative number.
pub char_at_negative :
    (vs : List ℕ) (i : ℕ)
    → i < length vs
    → 128 ≤ get_or vs i 0 % 256
    → 2 ^ 31 ≤ char_at (ints_bytes vs) (4 * i)
unfolding char_at
char_at_negative vs i h low = ground (arith, get_or-ints_bytes vs i h)
