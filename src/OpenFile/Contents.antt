-- ===== src/OpenFile/Contents.antt =====
-- The bytes of a file that has no index block, and the loop that reads its sectors.
use nachos_3_4_lab.Prelude.{
  ℕ, zero, suc, ◌+◌, ◌-◌, ◌*◌, ◌/◌, ◌%◌, ◌≤◌, ◌<◌, ◌≡◌, ◌≢◌, refl, ap, List, ◌&&◌, ltb, leb, lt→ltb,
  if◌then◌else◌, length, get_or, arith, Bool-cases, inl, inr,
}
use nachos_3_4_lab.Prelude.Outcome.{ok}
use nachos_3_4_lab.Prelude.Copy.{
  put_bytes, copy_in, length-put_bytes, get_or-put_bytes, copy_in_fits,
}
use nachos_3_4_lab.Disk.{Disk, read_sector}
use nachos_3_4_lab.FileHeader.{FileHeader, byte_to_sector}
use nachos_3_4_lab.OpenFile.{read_sectors}

-- Every sector has its 128 bytes.
abbrev pub Formatted : Disk → Type 0
Formatted d = (k : ℕ) → k < 1024 → length (d k) ≡ 128

-- The sector that holds bytes `128 * i ... 128 * i + 127` of the file.
abbrev pub sector_at : FileHeader → ℕ → ℕ
sector_at hdr i = get_or hdr.data_sectors i 0

-- A file of at most fourteen sectors, each on the disk and none used twice.
pub record IsDirect (hdr : FileHeader) : Type 0 where
  pub small : hdr.num_bytes ≤ 14 * 128
  pub on_disk : (i : ℕ) → i * 128 < hdr.num_bytes → sector_at hdr i < 1024
  pub distinct : (i j : ℕ) → i < j → j * 128 < hdr.num_bytes → sector_at hdr i ≢ sector_at hdr j

-- Byte `p` of the file.
unfoldable pub contents : FileHeader → Disk → ℕ → ℕ
contents hdr d p = get_or (d (sector_at hdr (p / 128))) (p % 128) 0

pub contents_block :
    (hdr : FileHeader) (d : Disk) (i p : ℕ)
    → i * 128 ≤ p
    → p < i * 128 + 128
    → contents hdr d p ≡ get_or (d (sector_at hdr i)) (p - i * 128) 0
unfolding contents
contents_block hdr d i p above below =
    let q : p / 128 ≡ i = omega arith in
    let r : p % 128 ≡ p - i * 128 = omega arith in rw (q, r) refl

pub byte_to_sector-direct :
    (hdr : FileHeader) (d : Disk) (i : ℕ)
    → i < 14
    → byte_to_sector (i * 128) hdr d ≡ ok (sector_at hdr i)
unfolding byte_to_sector
byte_to_sector-direct hdr d i lt =
    let q : i * 128 / 128 ≡ i = omega arith in rw q (ground (arith, lt))

-- What the buffer holds after the sectors from `i` on have been read: byte `j` is byte
-- `128 * first + j` of the file.
pub record Loaded (n i first : ℕ) (hdr : FileHeader) (d : Disk) (buf buf' : List ℕ) : Type 0 where
  pub same_length : length buf' ≡ length buf
  pub bytes :
      (j : ℕ)
      → get_or buf' j 0 ≡ (
          if leb ((i - first) * 128) j && ltb j ((i - first + n) * 128)
          then contents hdr d (first * 128 + j)
          else get_or buf j 0)

pub read_sectors-Loaded :
    (n i first : ℕ) {hdr : FileHeader} {d : Disk} (buf : List ℕ)
    → IsDirect hdr
    → Formatted d
    → first ≤ i
    → (i - first + n) * 128 ≤ length buf
    → (i + n) * 128 < hdr.num_bytes + 128
    → (buf' : List ℕ) × (read_sectors n i first hdr d buf ≡ ok buf')
      × Loaded n i first hdr d buf buf'
unfolding read_sectors read_sector copy_in
read_sectors-Loaded zero i first buf h f le fits within =
    (buf, refl, record { same_length = refl; bytes = λ j. ground arith })
read_sectors-Loaded (suc n) i first {hdr} {d} buf h f le fits within =
    let s : ℕ = sector_at hdr i in
    let there : s < 1024 = h.on_disk i (omega arith) in
    let o : ℕ = (i - first) * 128 in
    let whole : length (d s) ≡ 128 = f s there in
    let room : o + length (d s) ≤ length buf = omega arith in
    let (buf', runs, w) =
      read_sectors-Loaded n (i + 1) first (put_bytes (d s) o buf) h f (omega arith)
        (omega (arith, length-put_bytes (d s) o buf)) (omega arith) in
    (
      buf',
      rw
          (
            byte_to_sector-direct hdr d i (omega (arith, h.small)),
            lt→ltb s 1024 there,
            copy_in_fits (d s) o buf room,
          )
          runs,
      record {
        same_length = omega (arith, w.same_length, length-put_bytes (d s) o buf);
        bytes = λ j.
            let here = get_or-put_bytes (d s) o buf j room in
            elim (Bool-cases (leb o j && ltb j (o + 128))) [
              | inl block ↦
                  let its =
                    contents_block hdr d i (first * 128 + j) (ground (arith, block))
                      (ground (arith, block)) in
                  let offset : first * 128 + j - i * 128 ≡ j - o = ground (arith, block) in
                  let same : get_or (d s) (first * 128 + j - i * 128) 0 ≡ get_or (d s) (j - o) 0 =
                    ap (λ k. get_or (d s) k 0) offset in
                  ground (arith, w.bytes j, here, its, same, block, whole)
              | inr other ↦ ground (arith, w.bytes j, here, other, whole)
            ];
      },
    )
