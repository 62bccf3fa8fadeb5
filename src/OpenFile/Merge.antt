-- ===== src/OpenFile/Merge.antt =====
-- The buffer of `WriteAt`: what the file has, with the bytes of the request put over it.
use nachos_3_4_lab.Prelude.{
  ℕ, ◌+◌, ◌-◌, ◌*◌, ◌≤◌, ◌<◌, ◌≡◌, ap, List, Bool, true, not, ◌&&◌, ◌||◌, ◌==◌, ◌⊎◌, ltb, leb,
  if◌then◌else◌, length, get_or, arith, Bool-cases, inl, inr,
}
use nachos_3_4_lab.Prelude.Copy.{
  put_bytes, bytes_at, length-bytes_at, get_or-bytes_at, get_or-put_bytes,
}
use nachos_3_4_lab.Disk.{Disk}
use nachos_3_4_lab.FileHeader.{FileHeader}
use nachos_3_4_lab.OpenFile.Contents.{contents}
use nachos_3_4_lab.OpenFile.Read.{IsPart}

-- Byte `j` of the buffer is the one that the file has there.
abbrev pub Loads : FileHeader → Disk → (first j : ℕ) → List ℕ → Type 0
Loads hdr d first j buf = get_or buf j 0 ≡ contents hdr d (first * 128 + j)

pub put_part :
    {hdr : FileHeader} {d : Disk} (n i first : ℕ) (bytes buf : List ℕ) (j : ℕ)
    → first ≤ i
    → IsPart hdr d n (i * 128) bytes
    → (i - first) * 128 + n ≤ length buf
    → get_or (put_bytes bytes ((i - first) * 128) buf) j 0 ≡ (
        if leb ((i - first) * 128) j && ltb j ((i - first) * 128 + n)
        then contents hdr d (first * 128 + j)
        else get_or buf j 0)
put_part {hdr} {d} n i first bytes buf j le w room =
    let o : ℕ = (i - first) * 128 in
    let put = get_or-put_bytes bytes o buf j (omega (arith, w.size)) in
    elim (Bool-cases (leb o j && ltb j (o + n))) [
      | inl inside ↦
          let offset : i * 128 + (j - o) ≡ first * 128 + j = ground (arith, inside) in
          let same : contents hdr d (i * 128 + (j - o)) ≡ contents hdr d (first * 128 + j) =
            ap (contents hdr d) offset in
          let its = w.each (j - o) (ground (arith, inside)) in
          ground (arith, put, inside, same, its, w.size)
      | inr outside ↦ ground (arith, put, outside, w.size)
    ]

pub record Filled (b : Bool) (i first : ℕ) (hdr : FileHeader) (d : Disk) (buf buf' : List ℕ)
    : Type 0 where
  pub same_length : length buf' ≡ length buf
  pub kept : (j : ℕ) → Loads hdr d first j buf → Loads hdr d first j buf'
  pub filled :
      b ≡ true
      → (j : ℕ) → i * 128 ≤ first * 128 + j
      → first * 128 + j < i * 128 + 128
      → first * 128 + j < hdr.num_bytes
      → Loads hdr d first j buf'

-- A byte that the request does not change is in one of the sectors that were read.
pub merged :
    {hdr : FileHeader} {d : Disk} (b₁ b₂ : Bool) (first last j : ℕ) {buf buf₁ buf₂ : List ℕ}
    → Filled b₁ first first hdr d buf buf₁
    → Filled b₂ last first hdr d buf₁ buf₂
    → first * 128 + j < hdr.num_bytes
    → ((b₁ ≡ true) × (j < 128))
      ⊎ ((b₂ ≡ true) × (last * 128 ≤ first * 128 + j) × (first * 128 + j < last * 128 + 128))
    → Loads hdr d first j buf₂
merged b₁ b₂ first last j w₁ w₂ within (inl (read, lt)) =
    w₂.kept j (w₁.filled read j (omega arith) (omega arith) within)
merged b₁ b₂ first last j w₁ w₂ within (inr (read, above, below)) =
    w₂.filled read j above below within

-- Which sector that is.
pub read_before :
    (position n first last j : ℕ)
    → position < first * 128 + 128
    → last * 128 < position + n
    → j < (1 + last - first) * 128
    → (first * 128 + j < position) ⊎ (position + n ≤ first * 128 + j)
    → let first_aligned = position == first * 128 in
      let last_aligned = position + n == (last + 1) * 128 in
      ((not first_aligned ≡ true) × (j < 128))
      ⊎ (((not last_aligned && (not (first == last) || first_aligned)) ≡ true)
          × (last * 128 ≤ first * 128 + j)
          × (first * 128 + j < last * 128 + 128))
read_before position n first last j below in_last within (inl before) =
    inl (ground arith, omega arith)
read_before position n first last j below in_last within (inr after) =
    elim (Bool-cases (not (first == last) || position == first * 128)) [
      | inl e ↦ inr (ground (arith, e), omega arith, omega arith)
      | inr e ↦ inl (ground (arith, e), ground (arith, e))
    ]

pub written_byte :
    (from buf : List ℕ) (num_bytes position first n p old new : ℕ)
    → first * 128 ≤ position
    → position + num_bytes ≤ (first + n) * 128
    → position - first * 128 + num_bytes ≤ length buf
    → ((p < position) ⊎ (position + num_bytes ≤ p)
        → first * 128 ≤ p
        → p < (first + n) * 128
        → get_or buf (p - first * 128) 0 ≡ old)
    → new ≡ (
        if leb (first * 128) p && ltb p ((first + n) * 128)
        then get_or
            (put_bytes (bytes_at num_bytes 0 from) (position - first * 128) buf)
            (p - first * 128)
            0
        else old)
    → new ≡ (
        if leb position p && ltb p (position + num_bytes)
        then get_or from (p - position) 0
        else old)
written_byte from buf num_bytes position first n p old new starts ends room outside stored =
    let bytes : List ℕ = bytes_at num_bytes 0 from in
    let size : length bytes ≡ num_bytes = length-bytes_at num_bytes 0 from in
    let put =
      get_or-put_bytes bytes (position - first * 128) buf (p - first * 128) (omega (arith, size)) in
    elim (Bool-cases (leb position p && ltb p (position + num_bytes))) [
      | inl inside ↦
          let index : p - first * 128 - (position - first * 128) ≡ p - position =
            ground (arith, inside) in
          let there : get_or bytes (p - first * 128 - (position - first * 128)) 0
              ≡ get_or bytes (p - position) 0 =
            ap (λ k. get_or bytes k 0) index in
          let given = get_or-bytes_at num_bytes 0 from (p - position) (ground (arith, inside)) in
          let same : get_or from (0 + (p - position)) 0 ≡ get_or from (p - position) 0 =
            ap (λ k. get_or from k 0) (omega arith) in
          ground (arith, stored, put, size, there, given, same, inside)
      | inr out ↦ elim (Bool-cases (leb (first * 128) p && ltb p ((first + n) * 128))) [
        | inl read ↦
            let loads =
              outside (ground (arith, out)) (ground (arith, read)) (ground (arith, read)) in
            ground (arith, stored, put, size, loads, out, read)
        | inr unread ↦ ground (arith, stored, out, unread)
      ]
    ]
