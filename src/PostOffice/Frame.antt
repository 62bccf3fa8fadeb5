-- ===== src/PostOffice/Frame.antt =====
-- A header and the data after it are read back from the buffer.
use nachos_3_4_lab.Prelude.{
  ℕ, ◌+◌, ◌-◌, ◌^◌, ◌<◌, ◌≤◌, ◌≡◌, ◌∙◌, refl, ap, List, [], ◌∷◌, length, get_or, arith,
}
use nachos_3_4_lab.Prelude.Outcome.{ok}
use nachos_3_4_lab.Prelude.Copy.{
  put_bytes, bytes_at, copy_in_fits, copy_out_fits, length-put_bytes, get_or-put_bytes,
  length-bytes_at, get_or-bytes_at,
}
use nachos_3_4_lab.Disk.{ints_bytes}
use nachos_3_4_lab.PostOffice.{word_of, frame}

-- What a buffer holds: three words, and the first bytes of the data after them.
pub record Framed (to from size n : ℕ) (payload buffer : List ℕ) : Type 0 where
  pub first : word_of 0 buffer ≡ to
  pub second : word_of 4 buffer ≡ from
  pub third : word_of 8 buffer ≡ size
  pub rest : (j : ℕ) → j < n → get_or buffer (12 + j) 0 ≡ get_or payload j 0

header_size : (to from size : ℕ) → length (ints_bytes (to ∷ from ∷ size ∷ [])) ≡ 12
unfolding ints_bytes
header_size to from size = refl

header_words :
    (to from size : ℕ)
    → to < 2 ^ 32
    → from < 2 ^ 32
    → size < 2 ^ 32
    → (word_of 0 (ints_bytes (to ∷ from ∷ size ∷ [])) ≡ to)
      × (word_of 4 (ints_bytes (to ∷ from ∷ size ∷ [])) ≡ from)
      × (word_of 8 (ints_bytes (to ∷ from ∷ size ∷ [])) ≡ size)
unfolding ints_bytes
header_words to from size p q r = (omega (arith, p), omega (arith, q), omega (arith, r))

pub frame-Framed :
    (to from size n : ℕ) (payload buffer : List ℕ)
    → to < 2 ^ 32
    → from < 2 ^ 32
    → size < 2 ^ 32
    → n ≤ length payload
    → 12 + n ≤ length buffer
    → (b : List ℕ) × (frame to from size n payload buffer ≡ ok b)
      × (length b ≡ length buffer)
      × Framed to from size n payload b
unfolding frame
frame-Framed to from size n payload buffer p q r enough fits =
    let header : List ℕ = ints_bytes (to ∷ from ∷ size ∷ []) in
    let twelve : length header ≡ 12 = header_size to from size in
    let b₁ : List ℕ = put_bytes header 0 buffer in
    let same₁ : length b₁ ≡ length buffer = length-put_bytes header 0 buffer in
    let bytes : List ℕ = bytes_at n 0 payload in
    let size_n : length bytes ≡ n = length-bytes_at n 0 payload in
    let b : List ℕ = put_bytes bytes 12 b₁ in
    let (w₀, w₁, w₂) = header_words to from size p q r in
    let early : (k : ℕ) → k < 12 → get_or b k 0 ≡ get_or header k 0 = λ k lt.
      let kept = get_or-put_bytes bytes 12 b₁ k (omega (arith, size_n, same₁, fits)) in
      let written = get_or-put_bytes header 0 buffer k (omega (arith, twelve, fits)) in
      let e : k - 0 ≡ k = omega arith in
      let same : get_or header (k - 0) 0 ≡ get_or header k 0 = ap (λ i. get_or header i 0) e in
      ground (arith, kept, written, same, lt, twelve) in
    (
      b,
      rw
          (
            copy_in_fits header 0 buffer (omega (arith, twelve, fits)),
            copy_out_fits n 0 payload (omega (arith, enough)),
            copy_in_fits bytes 12 b₁ (omega (arith, size_n, same₁, fits)),
          )
          refl,
      length-put_bytes bytes 12 b₁ ∙ same₁,
      record {
        first = omega (
          arith,
          w₀,
          early 0 (omega arith),
          early 1 (omega arith),
          early 2 (omega arith),
          early 3 (omega arith),
        );
        second = omega (
          arith,
          w₁,
          early 4 (omega arith),
          early 5 (omega arith),
          early 6 (omega arith),
          early 7 (omega arith),
        );
        third = omega (
          arith,
          w₂,
          early 8 (omega arith),
          early 9 (omega arith),
          early 10 (omega arith),
          early 11 (omega arith),
        );
        rest = λ j lt.
            let kept = get_or-put_bytes bytes 12 b₁ (12 + j) (omega (arith, size_n, same₁, fits)) in
            let e : 12 + j - 12 ≡ j = omega arith in
            let same : get_or bytes (12 + j - 12) 0 ≡ get_or bytes j 0 =
              ap (λ i. get_or bytes i 0) e in
            let from_zero : get_or payload (0 + j) 0 ≡ get_or payload j 0 =
              ap (λ i. get_or payload i 0) (omega arith) in
            ground (arith, kept, same, size_n, lt, get_or-bytes_at n 0 payload j lt, from_zero);
      },
    )
