-- ===== src/OpenFile/Read.antt =====
-- `ReadAt` reads the bytes of the file.
use nachos_3_4_lab.Prelude.{
  ℕ, ◌+◌, ◌-◌, ◌*◌, ◌/◌, ◌≤◌, ◌<◌, ◌≡◌, min, refl, ap, List, [], ◌==◌, length, get_or, arith,
  Bool-cases, inl, inr,
}
use nachos_3_4_lab.Prelude.Outcome.{ok, int_sum_fits}
use nachos_3_4_lab.Prelude.Copy.{bytes_at, copy_out_fits, length-bytes_at, get_or-bytes_at}
use nachos_3_4_lab.Disk.{Disk}
use nachos_3_4_lab.FileHeader.{FileHeader, file_length}
use nachos_3_4_lab.OpenFile.{clipped, read_part, read_at}
use nachos_3_4_lab.OpenFile.Contents.{IsDirect, Formatted, contents, read_sectors-Loaded}

pub clipped_lem :
    (num_bytes position size : ℕ)
    → position + num_bytes < 0x8000_0000
    → clipped num_bytes position size ≡ ok (min num_bytes (size - position))
unfolding clipped
clipped_lem num_bytes position size fits = rw (int_sum_fits position num_bytes fits) (ground arith)

-- The bytes from `position` on, as many as `n`.
pub record IsPart (hdr : FileHeader) (d : Disk) (n position : ℕ) (bytes : List ℕ) : Type 0 where
  pub size : length bytes ≡ n
  pub each : (j : ℕ) → j < n → get_or bytes j 0 ≡ contents hdr d (position + j)

module _ (fresh : ℕ → List ℕ) (sizes : (n : ℕ) → length (fresh n) ≡ n) {hdr : FileHeader} {d : Disk}
    (h : IsDirect hdr) (f : Formatted d) where
  read_part-IsPart :
      (num_bytes position : ℕ)
      → 0 < num_bytes
      → position + num_bytes ≤ hdr.num_bytes
      → (bytes : List ℕ) × (read_part fresh num_bytes position hdr d ≡ ok (num_bytes, bytes))
        × IsPart hdr d num_bytes position bytes
  unfolding read_part
  read_part-IsPart num_bytes position some_bytes within =
      let first : ℕ = position / 128 in
      let n : ℕ = 1 + (position + num_bytes - 1) / 128 - first in
      let o : ℕ = position - first * 128 in
      let (buf, runs, w) =
        read_sectors-Loaded n first first (fresh (n * 128)) h f (omega arith)
          (omega (arith, sizes (n * 128))) (omega arith) in
      let room : o + num_bytes ≤ length buf = omega (arith, w.same_length, sizes (n * 128)) in
      (
        bytes_at num_bytes o buf,
        rw (runs, copy_out_fits num_bytes o buf room) refl,
        record {
          size = length-bytes_at num_bytes o buf;
          each = λ j lt.
              let there : first * 128 + (o + j) ≡ position + j = omega arith in
              let same : contents hdr d (first * 128 + (o + j)) ≡ contents hdr d (position + j) =
                ap (contents hdr d) there in
              ground (arith, get_or-bytes_at num_bytes o buf j lt, w.bytes (o + j), same);
        },
      )

  pub read_at-IsPart :
      (num_bytes position : ℕ)
      → position + num_bytes < 0x8000_0000
      → (bytes : List ℕ) × (read_at fresh num_bytes position hdr d
          ≡ ok (min num_bytes (hdr.num_bytes - position), bytes))
        × IsPart hdr d (min num_bytes (hdr.num_bytes - position)) position bytes
  unfolding read_at file_length
  read_at-IsPart num_bytes position no_overflow =
      let n : ℕ = min num_bytes (hdr.num_bytes - position) in
      elim (Bool-cases (n == 0)) [
        | inl none ↦
            let empty : n ≡ 0 = ground (arith, none) in
            (
              [],
              rw (clipped_lem num_bytes position hdr.num_bytes no_overflow, empty) refl,
              record { size = omega (arith, empty); each = λ j lt. absurd (omega arith) },
            )
        | inr any ↦
            let (bytes, runs, w) =
              read_part-IsPart n position (ground (arith, any)) (ground (arith, any)) in
            (bytes, rw (clipped_lem num_bytes position hdr.num_bytes no_overflow, any) runs, w)
      ]
