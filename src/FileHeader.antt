-- ===== src/FileHeader.antt =====
-- filesys/filehdr.cc: the i-node. Sizes and offsets are not negative; a sector number is the bit
-- pattern of its `int`, so that the -1 of a failed `Find` is `2 ^ 32 - 1`.
pub mod Slice
pub mod Allocation
pub mod Release
pub mod Index
pub mod RoundTrip
pub mod Stored
pub mod Words
use nachos_3_4_lab.Prelude.{
  ℕ, zero, suc, ◌+◌, ◌-◌, ◌*◌, ◌/◌, ◌%◌, ◌^◌, List, [], ◌∷◌, ◌++◌, Bool, true, false, Option, none,
  some, ltb, leb, if◌then◌else◌, length, get_or, set, replicate,
}
use nachos_3_4_lab.Prelude.Outcome.{Outcome, ok, abort, wild, ◌>>=◌, ◌>>◌, assert, in_array}
use nachos_3_4_lab.BitMap.{BitMap, div_round_up, find, num_clear, test, clear}
use nachos_3_4_lab.Disk.{Disk, Sector, sector_size, read_sector, write_sector, ints_bytes, char_at}

-- `NumDirect` and `NumFirst`
abbrev pub num_direct : ℕ
num_direct = (sector_size - 2 * 4 - 3 * 20 * 1) / 4 - 1

abbrev pub num_first : ℕ
num_first = 1

-- `SectorSize / sizeof(int)`
abbrev pub ints_per_sector : ℕ
ints_per_sector = sector_size / 4

-- `MaxFileSize`
abbrev pub max_file_size : ℕ
max_file_size = (num_direct + num_first * ints_per_sector) * sector_size

pub record FileHeader : Type 0 where
  pub num_bytes : ℕ
  pub num_sectors : ℕ
  pub create_time : List ℕ
  pub update_time : List ℕ
  pub access_time : List ℕ
  pub data_sectors : List ℕ

-- The `int` that `BitMap::Find` returns.
abbrev pub found_int : Option ℕ → ℕ
found_int none = 2 ^ 32 - 1
found_int (some i) = i

-- `for (i ...; n rounds) a[i] = freeMap->Find();`
unfoldable pub find_all : (n i : ℕ) → List ℕ → BitMap → Outcome (List ℕ × BitMap)
find_all zero i a m = ok (a, m)
find_all (suc n) i a m = do
  (r, m') ← find m
  in_array (ltb i (length a))
  find_all n (i + 1) (set a i (found_int r)) m'

-- `numSectors > NumDirect ? NumDirect : numSectors`
abbrev pub need_direct : ℕ → ℕ
need_direct n = if ltb num_direct n then num_direct else n

-- The second half of `Allocate`: the index block and the sectors that it lists.
unfoldable pub allocate_first : ℕ → List ℕ → BitMap → Disk → Outcome (List ℕ × BitMap × Disk)
unfolding find_all
allocate_first n a m d = do
  (r, m₁) ← find m
  in_array (ltb num_direct (length a))
  let a' = set a num_direct (found_int r)
  (direct_first, m₂) ← find_all (n - num_direct) 0 (replicate ints_per_sector 0) m₁
  d' ← write_sector (found_int r) (ints_bytes direct_first) d
  ok (a', m₂, d')

-- `FileHeader::Allocate`; `now` is the time field after `getFormatDate`. It returns the header, the map and
-- the disk as they stand, and its result.
unfoldable pub allocate :
    ℕ → (now : List ℕ) → FileHeader → BitMap → Disk → Outcome (Bool × FileHeader × BitMap × Disk)
unfolding allocate_first
allocate file_size now hdr m d = do
  let n = div_round_up file_size sector_size
  let sized = record hdr { num_bytes = file_size; num_sectors = n }
  count ← num_clear m
  if ltb count n then ok (false, sized, m, d) else do
    (a, m₁) ← find_all (need_direct n) 0 hdr.data_sectors m
    (a', m₂, d') ← (if ltb num_direct n then allocate_first n a m₁ d else ok (a, m₁, d))
    ok (true, record sized { create_time = now; data_sectors = a' }, m₂, d')

-- `ASSERT(freeMap->Test(s)); freeMap->Clear(s);`
pub release : ℕ → BitMap → Outcome BitMap
release s m = do used ← test s m; assert used; clear s m

-- The loop over the entries of `dataSectors`.
pub release_all : (n i : ℕ) → List ℕ → BitMap → Outcome BitMap
unfolding release
release_all zero i a m = ok m
release_all (suc n) i a m = do
  in_array (ltb i (length a))
  m' ← release (get_or a i 0) m
  release_all n (i + 1) a m'

-- The loop over the index block, which is read as `char`s.
pub release_chars : (n i : ℕ) → Sector → BitMap → Outcome BitMap
unfolding release
release_chars zero i block m = ok m
release_chars (suc n) i block m = do
  in_array (ltb (4 * i) sector_size)
  m' ← release (char_at block (4 * i)) m
  release_chars n (i + 1) block m'

-- The second half of `Deallocate`: the sectors that the index block lists, and the block.
pub release_first : FileHeader → BitMap → Disk → Outcome BitMap
unfolding release_chars
release_first hdr m d = do
  block ← read_sector (get_or hdr.data_sectors num_direct 0) d
  m' ← release_chars (hdr.num_sectors - num_direct) 0 block m
  release (get_or hdr.data_sectors num_direct 0) m'

-- `FileHeader::Deallocate`
pub deallocate : FileHeader → BitMap → Disk → Outcome BitMap
unfolding release_all release_first
deallocate hdr m d = do
  m₁ ← release_all (need_direct hdr.num_sectors) 0 hdr.data_sectors m
  if ltb num_direct hdr.num_sectors then release_first hdr m₁ d else ok m₁

-- `FileHeader::ByteToSector`
unfoldable pub byte_to_sector : ℕ → FileHeader → Disk → Outcome ℕ
byte_to_sector offset hdr d =
    if leb offset (num_direct * sector_size)
    then ok (get_or hdr.data_sectors (offset / sector_size) 0)
    else (do
      let pos = (offset - num_direct * sector_size) / sector_size
      block ← read_sector (get_or hdr.data_sectors num_direct 0) d
      in_array (ltb (4 * pos) sector_size)
      ok (char_at block (4 * pos)))

-- `FileHeader::FileLength`
unfoldable pub file_length : FileHeader → ℕ
file_length hdr = hdr.num_bytes
