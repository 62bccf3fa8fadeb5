-- ===== src/Prelude/Copy.antt =====
-- `bcopy` between arrays of bytes, one of which starts at an index.
use Prim.Native.Nat.{ℕ, zero, suc, ◌+◌, ◌-◌, ◌<◌, ◌≤◌}
use mathlib.Core.Path.{◌≡◌, refl, ap, ◌∙◌}
use mathlib.Core.Logic.{inl, inr}
use mathlib.Core.Bool.{◌&&◌}
use mathlib.Core.List.{List, [], ◌∷◌}
use native.Mathlib.Omega.{arith}
use nachos_3_4_lab.Prelude.Tests.{ltb, leb, if◌then◌else◌, Bool-cases, ◌==◌}
use nachos_3_4_lab.Prelude.Lists.{length, get_or, set, length-set, get_or-set}
use nachos_3_4_lab.Prelude.Outcome.{Outcome, ok, in_array, ◌>>◌}

-- The bytes, written to the buffer from index `o` on.
unfoldable pub put_bytes : List ℕ → (o : ℕ) → List ℕ → List ℕ
put_bytes [] o buf = buf
put_bytes (x ∷ xs) o buf = set (put_bytes xs (o + 1) buf) o x

-- The `n` bytes of the buffer from index `o` on.
unfoldable pub bytes_at : (n o : ℕ) → List ℕ → List ℕ
bytes_at zero o buf = []
bytes_at (suc n) o buf = get_or buf o 0 ∷ bytes_at n (o + 1) buf

unfoldable pub copy_in : List ℕ → (o : ℕ) → List ℕ → Outcome (List ℕ)
copy_in xs o buf = do in_array (leb (o + length xs) (length buf)); ok (put_bytes xs o buf)

unfoldable pub copy_out : (n o : ℕ) → List ℕ → Outcome (List ℕ)
copy_out n o buf = do in_array (leb (o + n) (length buf)); ok (bytes_at n o buf)

pub length-put_bytes :
    (xs : List ℕ) (o : ℕ) (buf : List ℕ) → length (put_bytes xs o buf) ≡ length buf
unfolding put_bytes
length-put_bytes [] o buf = refl
length-put_bytes (x ∷ xs) o buf =
    omega (arith, length-set (put_bytes xs (o + 1) buf) o x, length-put_bytes xs (o + 1) buf)

get_or-first : (x : ℕ) (xs : List ℕ) (o j : ℕ) → o ≡ j → get_or (x ∷ xs) (j - o) 0 ≡ x
get_or-first x xs o j e = let zeroth : j - o ≡ 0 = omega arith in rw zeroth refl

get_or-next :
    (x : ℕ) (xs : List ℕ) (o j : ℕ) → o < j → get_or (x ∷ xs) (j - o) 0 ≡ get_or xs (j - (o + 1)) 0
get_or-next x xs o j lt = let later : j - o ≡ suc (j - (o + 1)) = omega arith in rw later refl

pub get_or-put_bytes :
    (xs : List ℕ) (o : ℕ) (buf : List ℕ) (j : ℕ)
    → o + length xs ≤ length buf
    → get_or (put_bytes xs o buf) j 0
      ≡ (if leb o j && ltb j (o + length xs) then get_or xs (j - o) 0 else get_or buf j 0)
unfolding put_bytes
get_or-put_bytes [] o buf j fits = ground arith
get_or-put_bytes (x ∷ xs) o buf j fits =
    let here =
      get_or-set (put_bytes xs (o + 1) buf) o j x 0
        (omega (arith, length-put_bytes xs (o + 1) buf)) in
    let there = get_or-put_bytes xs (o + 1) buf j (omega arith) in
    elim (Bool-cases (o == j)) [
      | inl same ↦
          let first = get_or-first x xs o j (ground arith) in ground (arith, here, first, same)
      | inr other ↦ let next = get_or-next x xs o j in ground (arith, here, there, next, other)
    ]

pub length-bytes_at : (n o : ℕ) (buf : List ℕ) → length (bytes_at n o buf) ≡ n
unfolding bytes_at
length-bytes_at zero o buf = refl
length-bytes_at (suc n) o buf = ap suc (length-bytes_at n (o + 1) buf)

pub get_or-bytes_at :
    (n o : ℕ) (buf : List ℕ) (j : ℕ) → j < n → get_or (bytes_at n o buf) j 0 ≡ get_or buf (o + j) 0
unfolding bytes_at
get_or-bytes_at zero o buf j lt = absurd (omega arith)
get_or-bytes_at (suc n) o buf zero lt = ap (λ i. get_or buf i 0) (omega arith)
get_or-bytes_at (suc n) o buf (suc j) lt =
    let rest = get_or-bytes_at n (o + 1) buf j (omega arith) in
    rest ∙ ap (λ i. get_or buf i 0) (omega arith)

pub copy_in_fits :
    (xs : List ℕ) (o : ℕ) (buf : List ℕ)
    → o + length xs ≤ length buf
    → copy_in xs o buf ≡ ok (put_bytes xs o buf)
unfolding copy_in
copy_in_fits xs o buf fits = ground (arith, fits)

pub copy_out_fits :
    (n o : ℕ) (buf : List ℕ) → o + n ≤ length buf → copy_out n o buf ≡ ok (bytes_at n o buf)
unfolding copy_out
copy_out_fits n o buf fits = ground (arith, fits)
