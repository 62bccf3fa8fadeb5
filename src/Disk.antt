-- ===== src/Disk.antt =====
-- The disk as the file system sees it through filesys/synchdisk.cc: `NumSectors` sectors of
-- `SectorSize` bytes, each request complete before the next, and stopped by the ASSERT of
-- machine/disk.cc at a sector that is not there. An `int` is stored low byte first.
pub mod Bytes
pub mod Drive
use nachos_3_4_lab.Prelude.{
  ℕ, zero, suc, ◌+◌, ◌-◌, ◌*◌, ◌/◌, ◌%◌, ◌^◌, List, [], ◌∷◌, ◌++◌, Bool, true, false, ltb, ◌==◌,
  if◌then◌else◌, get_or,
}
use nachos_3_4_lab.Prelude.Outcome.{Outcome, ok, abort, ◌>>=◌, ◌>>◌, assert}

abbrev pub sector_size : ℕ
sector_size = 128

-- `SectorsPerTrack * NumTracks`
abbrev pub num_sectors : ℕ
num_sectors = 32 * 32

abbrev pub Sector : Type 0
Sector = List ℕ

abbrev pub Disk : Type 0
Disk = ℕ → Sector

-- `SynchDisk::ReadSector`
unfoldable pub read_sector : ℕ → Disk → Outcome Sector
read_sector n d = do assert (ltb n num_sectors); ok (d n)

-- `SynchDisk::WriteSector`
unfoldable pub write_sector : ℕ → Sector → Disk → Outcome Disk
write_sector n bytes d = do assert (ltb n num_sectors); ok (λ m. if m == n then bytes else d m)

-- The four bytes of an `int`, and of each `int` of an array.
abbrev pub int_bytes : ℕ → List ℕ
int_bytes v = (v % 256) ∷ (v / 256 % 256) ∷ (v / 65536 % 256) ∷ (v / 16777216 % 256) ∷ []

unfoldable pub ints_bytes : List ℕ → List ℕ
ints_bytes [] = []
ints_bytes (v ∷ vs) = int_bytes v ++ ints_bytes vs

-- `(int) bytes[i]` of a `char` array: a `char` is signed.
unfoldable pub char_at : List ℕ → ℕ → ℕ
char_at bytes i = let c = get_or bytes i 0 in if ltb c 128 then c else 2 ^ 32 - 256 + c
