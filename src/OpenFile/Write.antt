-- ===== src/OpenFile/Write.antt =====
-- `WriteAt` changes the bytes of its request and no others.
use nachos_3_4_lab.Prelude.{
  ℕ, ◌+◌, ◌-◌, ◌*◌, ◌/◌, ◌≤◌, ◌<◌, ◌≡◌, ◌≢◌, ◌∙◌, min, refl, ap, List, Bool, true, false, not, ◌&&◌,
  ◌||◌, ◌==◌, ◌⊎◌, ltb, leb, if◌then◌else◌, length, get_or, arith, Bool-cases, inl, inr,
}
use nachos_3_4_lab.Prelude.Outcome.{ok}
use nachos_3_4_lab.Prelude.Copy.{
  copy_in, copy_out, put_bytes, bytes_at, copy_in_fits, copy_out_fits, length-bytes_at,
  length-put_bytes,
}
use nachos_3_4_lab.Disk.{Disk}
use nachos_3_4_lab.FileHeader.{FileHeader, file_length}
use nachos_3_4_lab.OpenFile.{write_sectors, fill, write_part, write_at}
use nachos_3_4_lab.OpenFile.Contents.{IsDirect, Formatted, sector_at, contents}
use nachos_3_4_lab.OpenFile.Read.{clipped_lem, read_at-IsPart}
use nachos_3_4_lab.OpenFile.Merge.{Filled, put_part, merged, read_before, written_byte}
use nachos_3_4_lab.OpenFile.Store.{write_sectors-Stored}

-- The file and the disk after `n` bytes have been written.
pub record Written (hdr : FileHeader) (d : Disk) (n position : ℕ) (from : List ℕ) (d' : Disk)
    : Type 0 where
  pub formatted : Formatted d'
  pub bytes :
      (p : ℕ)
      → p < hdr.num_bytes
      → contents hdr d' p ≡ (
          if leb position p && ltb p (position + n)
          then get_or from (p - position) 0
          else contents hdr d p)
  pub elsewhere : (k : ℕ) → ((j : ℕ) → j * 128 < hdr.num_bytes → k ≢ sector_at hdr j) → d' k ≡ d k

module _ (fresh : ℕ → List ℕ) (sizes : (n : ℕ) → length (fresh n) ≡ n) {hdr : FileHeader} (d : Disk)
    (h : IsDirect hdr) (f : Formatted d) where
  fill-Filled :
      (b : Bool) (i first : ℕ) (buf : List ℕ)
      → first ≤ i
      → (i - first) * 128 + 128 ≤ length buf
      → i * 128 + 128 < 0x8000_0000
      → (buf' : List ℕ) × (fill b fresh i first hdr d buf ≡ ok buf')
        × Filled b i first hdr d buf buf'
  unfolding fill
  fill-Filled false i first buf le room below =
      (buf, refl, record { same_length = refl; kept = λ j e. e; filled = λ e. cc })
  fill-Filled true i first buf le room below =
      let (bytes, runs, w) = read_at-IsPart fresh sizes h f 128 (i * 128) below in
      let o : ℕ = (i - first) * 128 in
      let put = λ (j : ℕ).
        put_part (min 128 (hdr.num_bytes - i * 128)) i first bytes buf j le w (omega arith) in
      let fits : o + length bytes ≤ length buf = omega (arith, w.size) in
      (
        put_bytes bytes o buf,
        rw (runs, copy_in_fits bytes o buf fits) refl,
        record {
          same_length = length-put_bytes bytes o buf;
          kept = λ j e. ground (arith, e, put j);
          filled = λ _ j above before within. ground (arith, put j);
        },
      )

  -- The pieces of `WriteAt`, one after the other.
  write_part_runs :
      (from : List ℕ) (num_bytes position : ℕ) {buf₁ buf₂ bytes buf : List ℕ} {d' : Disk}
      → let first = position / 128 in
        let last = (position + num_bytes - 1) / 128 in
        let n = 1 + last - first in
        (fill (not (position == first * 128)) fresh first first hdr d (fresh (n * 128)) ≡ ok buf₁)
        → (fill
              (not (position + num_bytes == (last + 1) * 128)
                && (not (first == last) || position == first * 128))
              fresh
              last
              first
              hdr
              d
              buf₁
            ≡ ok buf₂)
        → copy_out num_bytes 0 from ≡ ok bytes
        → copy_in bytes (position - first * 128) buf₂ ≡ ok buf
        → write_sectors n first first hdr buf d ≡ ok d'
        → write_part fresh from num_bytes position hdr d ≡ ok (num_bytes, d')
  unfolding write_part
  write_part_runs from num_bytes position e₁ e₂ e₃ e₄ e₅ = rw (e₁, e₂, e₃, e₄, e₅) refl

  write_part-Written :
      (from : List ℕ) (num_bytes position : ℕ)
      → 0 < num_bytes
      → position + num_bytes ≤ hdr.num_bytes
      → num_bytes ≤ length from
      → (d' : Disk) × (write_part fresh from num_bytes position hdr d ≡ ok (num_bytes, d'))
        × Written hdr d num_bytes position from d'
  write_part-Written from num_bytes position some_bytes within given =
      let first : ℕ = position / 128 in
      let last : ℕ = (position + num_bytes - 1) / 128 in
      let n : ℕ = 1 + last - first in
      let o : ℕ = position - first * 128 in
      let b₁ : Bool = not (position == first * 128) in
      let b₂ : Bool =
        not (position + num_bytes == (last + 1) * 128)
        && (not (first == last) || position == first * 128) in
      let (buf₁, runs₁, w₁) =
        fill-Filled b₁ first first (fresh (n * 128)) (omega arith) (omega (arith, sizes (n * 128)))
          (omega (arith, h.small)) in
      let (buf₂, runs₂, w₂) =
        fill-Filled b₂ last first buf₁ (omega arith)
          (omega (arith, sizes (n * 128), w₁.same_length)) (omega (arith, h.small)) in
      let bytes : List ℕ = bytes_at num_bytes 0 from in
      let fits : o + length bytes ≤ length buf₂ = omega (
        arith,
        sizes (n * 128),
        w₁.same_length,
        w₂.same_length,
        length-bytes_at num_bytes 0 from,
      ) in
      let buf : List ℕ = put_bytes bytes o buf₂ in
      let (d', runs, w) =
        write_sectors-Stored n first first {d = d} buf h f (omega arith)
          (omega
            (arith, length-put_bytes bytes o buf₂, sizes (n * 128), w₁.same_length, w₂.same_length))
          (omega arith) in
      (
        d',
        write_part_runs from num_bytes position runs₁ runs₂
            (copy_out_fits num_bytes 0 from (omega arith)) (copy_in_fits bytes o buf₂ fits) runs,
        record {
          formatted = w.formatted;
          bytes = λ p lt.
              written_byte from buf₂ num_bytes position first n p (contents hdr d p)
                (contents hdr d' p) (omega arith) (omega arith)
                (omega (arith, fits, length-bytes_at num_bytes 0 from))
                (λ outside above below.
                  let back : first * 128 + (p - first * 128) ≡ p = omega arith in
                  let side : (first * 128 + (p - first * 128) < position)
                      ⊎ (position + num_bytes ≤ first * 128 + (p - first * 128)) =
                    ground (arith, outside, back) in
                  merged b₁ b₂ first last (p - first * 128) w₁ w₂ (omega arith) (
                    read_before position num_bytes first last (p - first * 128) (omega arith)
                      (omega arith) (omega arith) side)
                  ∙ ap (contents hdr d) back)
                (w.bytes p lt);
          elsewhere = w.elsewhere;
        },
      )

  -- If `new` gives arrays of the size asked for, a file has at most fourteen distinct sectors on
  -- the disk, every sector 128 bytes, the bytes given are at least as many as asked for, and the
  -- position and the number of bytes asked for add up to less than 2 ^ 31, then `WriteAt` leaves no
  -- array bound, overflows no `int`, changes the bytes of its request up to the end of the file and
  -- no other byte of the file, keeps the size of every sector, and changes no sector that is not
  -- the file's.
  pub write_at-Written :
      (from : List ℕ) (num_bytes position : ℕ)
      → num_bytes ≤ length from
      → position + num_bytes < 0x8000_0000
      → (d' : Disk) × (write_at fresh from num_bytes position hdr d
          ≡ ok (min num_bytes (hdr.num_bytes - position), d'))
        × Written hdr d (min num_bytes (hdr.num_bytes - position)) position from d'
  unfolding write_at file_length
  write_at-Written from num_bytes position given no_overflow =
      let n : ℕ = min num_bytes (hdr.num_bytes - position) in
      elim (Bool-cases (n == 0)) [
        | inl none ↦
            let empty : n ≡ 0 = ground (arith, none) in
            (
              d,
              rw (clipped_lem num_bytes position hdr.num_bytes no_overflow, empty) refl,
              record {
                formatted = f;
                bytes = λ p lt. ground (arith, empty);
                elsewhere = λ k out. refl;
              },
            )
        | inr any ↦
            let (d', runs, w) =
              write_part-Written from n position (ground (arith, any)) (ground (arith, any))
                (omega arith) in
            (d', rw (clipped_lem num_bytes position hdr.num_bytes no_overflow, any) runs, w)
      ]
