-- ===== src/OpenFile.antt =====
-- filesys/openfile.cc: reading and writing the bytes of an open file. Sizes and positions are not
-- negative. `fresh n` is what `new char[n]` holds.
pub mod Contents
pub mod Read
pub mod Store
pub mod Merge
pub mod Write
pub mod RoundTrip
pub mod Session
pub mod Fresh
use nachos_3_4_lab.Prelude.{
  ℕ, zero, suc, ◌+◌, ◌-◌, ◌*◌, ◌/◌, List, [], Bool, true, false, not, ◌&&◌, ◌||◌, ltb, leb, ◌==◌,
  if◌then◌else◌,
}
use nachos_3_4_lab.Prelude.Outcome.{Outcome, ok, ◌>>=◌, int_sum}
use nachos_3_4_lab.Prelude.Copy.{copy_in, copy_out}
use nachos_3_4_lab.Disk.{Disk, sector_size, read_sector, write_sector}
use nachos_3_4_lab.FileHeader.{FileHeader, byte_to_sector, file_length}
use nachos_3_4_lab.FileHeader.Stored.{fetch_from, write_back}

-- The number of bytes that a request is for: none, or those within the file.
unfoldable pub clipped : (num_bytes position length : ℕ) → Outcome ℕ
clipped num_bytes position length = if num_bytes == 0 || leb length position then ok 0 else (do
  end ← int_sum position num_bytes
  ok (if ltb length end then length - position else num_bytes))

-- `for (i ...; rounds) ReadSector(hdr->ByteToSector(i * SectorSize), &buf[(i - first) * SectorSize]);`
unfoldable pub read_sectors : (rounds i first : ℕ) → FileHeader → Disk → List ℕ → Outcome (List ℕ)
read_sectors zero i first hdr d buf = ok buf
read_sectors (suc n) i first hdr d buf = do
  s ← byte_to_sector (i * sector_size) hdr d
  bytes ← read_sector s d
  buf' ← copy_in bytes ((i - first) * sector_size) buf
  read_sectors n (i + 1) first hdr d buf'

-- `OpenFile::ReadAt`: what it returns, and the bytes that it copies to `into`.
unfoldable pub read_part :
    (fresh : ℕ → List ℕ) (num_bytes position : ℕ) → FileHeader → Disk → Outcome (ℕ × List ℕ)
read_part fresh num_bytes position hdr d = do
  let first_sector = position / sector_size
  let last_sector = (position + num_bytes - 1) / sector_size
  let num_sectors = 1 + last_sector - first_sector
  buf ← read_sectors num_sectors first_sector first_sector hdr d (fresh (num_sectors * sector_size))
  bytes ← copy_out num_bytes (position - first_sector * sector_size) buf
  ok (num_bytes, bytes)

unfoldable pub read_at :
    (fresh : ℕ → List ℕ) (num_bytes position : ℕ) → FileHeader → Disk → Outcome (ℕ × List ℕ)
read_at fresh num_bytes position hdr d = clipped num_bytes position (file_length hdr) >>= λ n.
    if n == 0 then ok (0, []) else read_part fresh n position hdr d

-- The same loop with `WriteSector`.
unfoldable pub write_sectors : (rounds i first : ℕ) → FileHeader → List ℕ → Disk → Outcome Disk
write_sectors zero i first hdr buf d = ok d
write_sectors (suc n) i first hdr buf d = do
  s ← byte_to_sector (i * sector_size) hdr d
  bytes ← copy_out sector_size ((i - first) * sector_size) buf
  d' ← write_sector s bytes d
  write_sectors n (i + 1) first hdr buf d'

-- `ReadAt(&buf[(i - first) * SectorSize], SectorSize, i * SectorSize)`, if the sector `i` is to be
-- modified only in part.
unfoldable pub fill :
    Bool → (fresh : ℕ → List ℕ) (i first : ℕ) → FileHeader → Disk → List ℕ → Outcome (List ℕ)
fill false fresh i first hdr d buf = ok buf
fill true fresh i first hdr d buf = do
  read ← read_at fresh sector_size (i * sector_size) hdr d
  copy_in read.1 ((i - first) * sector_size) buf

-- `OpenFile::WriteAt`: what it returns.
unfoldable pub write_part :
    (fresh : ℕ → List ℕ) (from : List ℕ) (num_bytes position : ℕ)
    → FileHeader
    → Disk
    → Outcome (ℕ × Disk)
write_part fresh from num_bytes position hdr d = do
  let first_sector = position / sector_size
  let last_sector = (position + num_bytes - 1) / sector_size
  let num_sectors = 1 + last_sector - first_sector
  let first_aligned = position == first_sector * sector_size
  let last_aligned = position + num_bytes == (last_sector + 1) * sector_size
  let two = not (first_sector == last_sector)
  buf₁ ←
      fill (not first_aligned) fresh first_sector first_sector hdr d
        (fresh (num_sectors * sector_size))
  buf₂ ← fill (not last_aligned && (two || first_aligned)) fresh last_sector first_sector hdr d buf₁
  bytes ← copy_out num_bytes 0 from
  buf ← copy_in bytes (position - first_sector * sector_size) buf₂
  d' ← write_sectors num_sectors first_sector first_sector hdr buf d
  ok (num_bytes, d')

unfoldable pub write_at :
    (fresh : ℕ → List ℕ) (from : List ℕ) (num_bytes position : ℕ)
    → FileHeader
    → Disk
    → Outcome (ℕ × Disk)
write_at fresh from num_bytes position hdr d = clipped num_bytes position (file_length hdr) >>= λ n.
    if n == 0 then ok (0, d) else write_part fresh from n position hdr d

-- `OpenFile`
pub record OpenFile : Type 0 where
  pub hdr : FileHeader
  pub seek_position : ℕ
  pub hdr_sector : ℕ

-- `OpenFile::OpenFile`
unfoldable pub open_at : ℕ → Disk → Outcome OpenFile
open_at sector d = do
  hdr ← fetch_from sector d
  ok (record { hdr = hdr; seek_position = 0; hdr_sector = sector })

-- `OpenFile::Seek`
abbrev pub seek : ℕ → OpenFile → OpenFile
seek position f = record f { seek_position = position }

-- `OpenFile::Length`
abbrev pub length_of : OpenFile → ℕ
length_of f = file_length f.hdr

-- The end of `Read` and of `Write`; `now` is the time field after `getFormatDate`.
unfoldable pub accessed : (now : List ℕ) (result : ℕ) → OpenFile → Disk → Outcome (OpenFile × Disk)
accessed now result f d = do
  let hdr = record f.hdr { access_time = now }
  d' ← write_back f.hdr_sector hdr d
  ok (record f { hdr = hdr; seek_position = f.seek_position + result }, d')

-- `OpenFile::Read`: what it returns, the bytes that it copies to `into`, and the rest.
unfoldable pub read :
    (fresh : ℕ → List ℕ) (now : List ℕ) (num_bytes : ℕ)
    → OpenFile
    → Disk
    → Outcome (ℕ × List ℕ × OpenFile × Disk)
read fresh now num_bytes f d = do
  (result, bytes) ← read_at fresh num_bytes f.seek_position f.hdr d
  (f', d') ← accessed now result f d
  ok (result, bytes, f', d')

-- `OpenFile::Write`
unfoldable pub write :
    (fresh : ℕ → List ℕ) (now from : List ℕ) (num_bytes : ℕ)
    → OpenFile
    → Disk
    → Outcome (ℕ × OpenFile × Disk)
write fresh now from num_bytes f d = do
  (result, d₁) ← write_at fresh from num_bytes f.seek_position f.hdr d
  (f', d') ← accessed now result f d₁
  ok (result, f', d')
