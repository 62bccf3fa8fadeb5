-- ===== src/OpenFile/Store.antt =====
-- The loop that writes the sectors of a file back.
use nachos_3_4_lab.Prelude.{
  ℕ, zero, suc, ◌+◌, ◌-◌, ◌*◌, ◌/◌, ◌%◌, ◌≤◌, ◌<◌, ◌≡◌, ◌≢◌, ◌∙◌, refl, sym, ap, List, ◌&&◌, ◌==◌,
  ==_ne, ==_refl, ◌⊎◌, ltb, leb, lt→ltb, if◌then◌else◌, length, get_or, arith, Bool-cases, inl, inr,
}
use nachos_3_4_lab.Prelude.Outcome.{ok}
use nachos_3_4_lab.Prelude.Copy.{bytes_at, copy_out_fits, length-bytes_at, get_or-bytes_at}
use nachos_3_4_lab.Disk.{Disk, Sector, write_sector}
use nachos_3_4_lab.FileHeader.{FileHeader}
use nachos_3_4_lab.OpenFile.{write_sectors}
use nachos_3_4_lab.OpenFile.Contents.{
  IsDirect, Formatted, sector_at, contents, byte_to_sector-direct,
}

abbrev with_sector : ℕ → Sector → Disk → Disk
with_sector s bytes d = λ k. if k == s then bytes else d k

with_sector-Formatted :
    (s : ℕ) (bytes : Sector) (d : Disk)
    → length bytes ≡ 128
    → Formatted d
    → Formatted (with_sector s bytes d)
with_sector-Formatted s bytes d size f k lt = ground (arith, f k lt, size)

less_or_greater : (i j : ℕ) → i ≢ j → (i < j) ⊎ (j < i)
less_or_greater i j apart = omega arith

sectors_apart :
    (hdr : FileHeader) (i j : ℕ)
    → IsDirect hdr
    → i * 128 < hdr.num_bytes
    → j * 128 < hdr.num_bytes
    → i ≢ j
    → sector_at hdr i ≢ sector_at hdr j
sectors_apart hdr i j h used_i used_j apart e = elim (less_or_greater i j apart) [
  | inl lt ↦ h.distinct i j lt used_j e
  | inr gt ↦ h.distinct j i gt used_i (sym e)
]

contents_write :
    (hdr : FileHeader) (d : Disk) (i p : ℕ) (bytes : Sector)
    → IsDirect hdr
    → i * 128 < hdr.num_bytes
    → p < hdr.num_bytes
    → contents hdr (with_sector (sector_at hdr i) bytes d) p
      ≡ (if p / 128 == i then get_or bytes (p % 128) 0 else contents hdr d p)
unfolding contents
contents_write hdr d i p bytes h used within = elim (Bool-cases (p / 128 == i)) [
  | inl same ↦
      let q : p / 128 ≡ i = ground (arith, same) in
      rw (q, ==_refl (sector_at hdr i), ==_refl i) refl
  | inr other ↦
      let apart : sector_at hdr (p / 128) ≢ sector_at hdr i =
        sectors_apart hdr (p / 128) i h (omega arith) used (ground (arith, other)) in
      rw (other, ==_ne (sector_at hdr (p / 128)) (sector_at hdr i) apart) refl
]

-- After the sectors from `i` on have been written: byte `p` of the file is byte `p - 128 * first` of
-- the buffer, and nothing else has changed.
pub record Stored (n i first : ℕ) (hdr : FileHeader) (buf : List ℕ) (d d' : Disk) : Type 0 where
  pub formatted : Formatted d'
  pub bytes :
      (p : ℕ)
      → p < hdr.num_bytes
      → contents hdr d' p ≡ (
          if leb (i * 128) p && ltb p ((i + n) * 128)
          then get_or buf (p - first * 128) 0
          else contents hdr d p)
  pub elsewhere : (k : ℕ) → ((j : ℕ) → j * 128 < hdr.num_bytes → k ≢ sector_at hdr j) → d' k ≡ d k

pub write_sectors-Stored :
    (n i first : ℕ) {hdr : FileHeader} {d : Disk} (buf : List ℕ)
    → IsDirect hdr
    → Formatted d
    → first ≤ i
    → (i - first + n) * 128 ≤ length buf
    → (i + n) * 128 < hdr.num_bytes + 128
    → (d' : Disk) × (write_sectors n i first hdr buf d ≡ ok d') × Stored n i first hdr buf d d'
unfolding write_sectors write_sector
write_sectors-Stored zero i first {d = d} buf h f le fits within =
    (d, refl, record { formatted = f; bytes = λ p lt. ground arith; elsewhere = λ k out. refl })
write_sectors-Stored (suc n) i first {hdr} {d} buf h f le fits within =
    let s : ℕ = sector_at hdr i in
    let used : i * 128 < hdr.num_bytes = omega arith in
    let there : s < 1024 = h.on_disk i used in
    let o : ℕ = (i - first) * 128 in
    let block : Sector = bytes_at 128 o buf in
    let d₁ : Disk = with_sector s block d in
    let (d', runs, w) =
      write_sectors-Stored n (i + 1) first {d = d₁} buf h
        (with_sector-Formatted s block d (length-bytes_at 128 o buf) f) (omega arith) (omega arith)
        (omega arith) in
    (
      d',
      rw
          (
            byte_to_sector-direct hdr d i (omega (arith, h.small)),
            copy_out_fits 128 o buf (omega arith),
            lt→ltb s 1024 there,
          )
          runs,
      record {
        formatted = w.formatted;
        bytes = λ p lt.
            let now = contents_write hdr d i p block h used lt in
            let copied = get_or-bytes_at 128 o buf (p % 128) (omega arith) in
            elim (Bool-cases (p / 128 == i)) [
              | inl same ↦
                  let offset : o + p % 128 ≡ p - first * 128 = ground (arith, same) in
                  let there : get_or buf (o + p % 128) 0 ≡ get_or buf (p - first * 128) 0 =
                    ap (λ k. get_or buf k 0) offset in
                  ground (arith, w.bytes p lt, now, copied, there, same)
              | inr other ↦ ground (arith, w.bytes p lt, now, other)
            ];
        elsewhere = λ k out. w.elsewhere k out ∙ ground (arith, out i used);
      },
    )
