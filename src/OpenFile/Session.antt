-- ===== src/OpenFile/Session.antt =====
-- `Read` and `Write` in turn on an open file.
use nachos_3_4_lab.Prelude.{
  ℕ, ◌+◌, ◌-◌, ◌*◌, ◌≤◌, ◌<◌, ◌≡◌, ◌≢◌, ◌∙◌, min, refl, sym, ap, ◌/◌, ◌%◌, List, length, get_or,
  arith, ◌==◌, if◌then◌else◌, ltb, leb, ◌&&◌, Bool-cases, inl, inr,
}
use nachos_3_4_lab.Prelude.Outcome.{ok}
use nachos_3_4_lab.Disk.{Disk}
use nachos_3_4_lab.FileHeader.{FileHeader}
use nachos_3_4_lab.FileHeader.Stored.{FitsSector, fetch_from, write_back-fetch_from}
use nachos_3_4_lab.OpenFile.{OpenFile, accessed, read, write}
use nachos_3_4_lab.OpenFile.Contents.{IsDirect, Formatted, sector_at, contents}
use nachos_3_4_lab.OpenFile.Read.{IsPart, read_at-IsPart}
use nachos_3_4_lab.OpenFile.Write.{write_at-Written}

-- An open file and the disk: the header has a sector of its own, and has been written there.
pub record IsOpen (f : OpenFile) (d : Disk) : Type 0 where
  pub direct : IsDirect f.hdr
  pub fits : FitsSector f.hdr
  pub on_disk : f.hdr_sector < 1024
  pub apart : (j : ℕ) → j * 128 < f.hdr.num_bytes → f.hdr_sector ≢ sector_at f.hdr j
  pub formatted : Formatted d

-- After `result` bytes have been read or written: the position is that many further, the file is as
-- long as before, and its header on the disk is the one in memory.
pub record Continues (result : ℕ) (f f' : OpenFile) (d' : Disk) : Type 0 where
  pub is_open : IsOpen f' d'
  pub advanced : f'.seek_position ≡ f.seek_position + result
  pub same_size : f'.hdr.num_bytes ≡ f.hdr.num_bytes
  pub flushed : fetch_from f'.hdr_sector d' ≡ ok f'.hdr

accessed-Continues :
    (now : List ℕ) (result : ℕ) (f : OpenFile) (d : Disk)
    → IsOpen f d
    → length now ≡ 20
    → (f' : OpenFile) × (d' : Disk) × (accessed now result f d ≡ ok (f', d'))
      × Continues result f f' d'
      × ((p : ℕ) → p < f.hdr.num_bytes → contents f'.hdr d' p ≡ contents f.hdr d p)
unfolding accessed contents
accessed-Continues now result f d h size =
    let hdr : FileHeader = record f.hdr { access_time = now } in
    let fits : FitsSector hdr = record {
      bytes_int = h.fits.bytes_int;
      sectors_int = h.fits.sectors_int;
      create_size = h.fits.create_size;
      update_size = h.fits.update_size;
      access_size = size;
      entries_size = h.fits.entries_size;
      entries_int = h.fits.entries_int;
    } in
    let (d', runs, fetched, whole, others) =
      write_back-fetch_from f.hdr_sector hdr d h.on_disk fits in
    (
      record f { hdr = hdr; seek_position = f.seek_position + result },
      d',
      rw runs refl,
      record {
        is_open = record {
          direct = record {
            small = h.direct.small;
            on_disk = h.direct.on_disk;
            distinct = h.direct.distinct;
          };
          fits = fits;
          on_disk = h.on_disk;
          apart = h.apart;
          formatted = λ k lt. elim (Bool-cases (k == f.hdr_sector)) [
            | inl here ↦ ap (λ j. length (d' j)) (ground (arith, here)) ∙ whole
            | inr other ↦ ap length (others k (ground (arith, other))) ∙ h.formatted k lt
          ];
        };
        advanced = refl;
        same_size = refl;
        flushed = fetched;
      },
      λ p lt.
          ap (λ b. get_or b (p % 128) 0)
            (others (sector_at f.hdr (p / 128)) (λ e. h.apart (p / 128) (omega arith) (sym e))),
    )

module _ (fresh : ℕ → List ℕ) (sizes : (n : ℕ) → length (fresh n) ≡ n) (now : List ℕ)
    (size : length now ≡ 20) (num_bytes : ℕ) (f : OpenFile) (d : Disk) (h : IsOpen f d)
    (no_overflow : f.seek_position + num_bytes < 0x8000_0000) where
  -- If `new` gives arrays of the size asked for, an open file has at most fourteen distinct sectors
  -- on the disk, its header a sector of its own and fields of their sizes, every sector 128 bytes,
  -- the new time 20, and the position and the number of bytes asked for add up to less than 2 ^ 31,
  -- then `Read` returns the number of bytes from the position to the end of the file or as many as
  -- asked for, if that is less, and those bytes of the file; the file's bytes stay as they are, the
  -- position is that many further, and the header, with the new access time, is on the disk.
  pub read-Continues :
      let n = min num_bytes (f.hdr.num_bytes - f.seek_position) in
      (bytes : List ℕ) × (f' : OpenFile) × (d' : Disk) × (read fresh now num_bytes f d
        ≡ ok (n, bytes, f', d'))
      × IsPart f.hdr d n f.seek_position bytes
      × Continues n f f' d'
      × ((p : ℕ) → p < f.hdr.num_bytes → contents f'.hdr d' p ≡ contents f.hdr d p)
  unfolding read
  read-Continues =
      let (bytes, did_read, part) =
        read_at-IsPart fresh sizes h.direct h.formatted num_bytes f.seek_position no_overflow in
      let (f', d', runs, w, same) =
        accessed-Continues now (min num_bytes (f.hdr.num_bytes - f.seek_position)) f d h size in
      (bytes, f', d', rw (did_read, runs) refl, part, w, same)

  -- If `new` gives arrays of the size asked for, an open file has at most fourteen distinct sectors
  -- on the disk, its header a sector of its own and fields of their sizes, every sector 128 bytes,
  -- the new time 20, the bytes given are at least as many as asked for, and the position and the
  -- number of bytes asked for add up to less than 2 ^ 31, then `Write` returns the number of bytes
  -- from the position to the end of the file or as many as asked for, if that is less; those bytes
  -- of the file are then the given ones and the others as before, the position is that many
  -- further, and the header, with the new access time, is on the disk.
  pub write-Continues :
      (from : List ℕ)
      → num_bytes ≤ length from
      → let n = min num_bytes (f.hdr.num_bytes - f.seek_position) in
        (f' : OpenFile) × (d' : Disk) × (write fresh now from num_bytes f d ≡ ok (n, f', d'))
        × Continues n f f' d'
        × ((p : ℕ)
            → p < f.hdr.num_bytes
            → contents f'.hdr d' p ≡ (
                if leb f.seek_position p && ltb p (f.seek_position + n)
                then get_or from (p - f.seek_position) 0
                else contents f.hdr d p))
  unfolding write
  write-Continues from given =
      let n : ℕ = min num_bytes (f.hdr.num_bytes - f.seek_position) in
      let (d₁, wrote, w) =
        write_at-Written fresh sizes d h.direct h.formatted from num_bytes f.seek_position given
          no_overflow in
      let h₁ : IsOpen f d₁ = record {
        direct = h.direct;
        fits = h.fits;
        on_disk = h.on_disk;
        apart = h.apart;
        formatted = w.formatted;
      } in
      let (f', d', runs, c, same) = accessed-Continues now n f d₁ h₁ size in
      (f', d', rw (wrote, runs) refl, c, λ p lt. same p lt ∙ w.bytes p lt)
