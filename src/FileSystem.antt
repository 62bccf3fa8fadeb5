-- ===== src/FileSystem.antt =====
-- filesys/filesys.cc: creating, opening and removing files by their names. Each call reads the
-- directory and the map of free sectors from their files, and writes back what it has changed.
pub mod Mounted
pub mod Flush
pub mod Find
pub mod Create
pub mod Remove
pub mod Format
pub mod Refused
use nachos_3_4_lab.Prelude.{
  ℕ, ◌^◌, ◌*◌, ◌/◌, List, Bool, true, false, not, Option, none, some, ltb, ◌==◌, if◌then◌else◌,
}
use nachos_3_4_lab.Prelude.Outcome.{Outcome, ok, ◌>>=◌, ◌>>◌, assert}
use nachos_3_4_lab.BitMap
use nachos_3_4_lab.BitMap.{BitMap}
use nachos_3_4_lab.Directory
use nachos_3_4_lab.Directory.{Directory, Entry, Name, minus_one}
use nachos_3_4_lab.Disk.{Disk, num_sectors}
use nachos_3_4_lab.FileHeader.{FileHeader, allocate, deallocate}
use nachos_3_4_lab.FileHeader.Stored.{fetch_from, write_back}
use nachos_3_4_lab.OpenFile.{OpenFile, open_at}
use nachos_3_4_lab.Storage.{fetch_map, write_map, fetch_table, write_table}

-- What new objects hold before they are initialised, and the time that `getFormatDate` writes.
pub record Host : Type 0 where
  pub fresh : ℕ → List ℕ
  pub fresh_words : List ℕ
  pub fresh_table : List Entry
  pub fresh_header : FileHeader
  pub now : List ℕ

-- `FileSystem`
pub record FileSystem : Type 0 where
  pub free_map_file : OpenFile
  pub directory_file : OpenFile

-- `new Directory(NumDirEntries)` and `FetchFrom`; `fresh_table` has `NumDirEntries` entries.
unfoldable pub load_directory : Host → FileSystem → Disk → Outcome Directory
load_directory h fs d = fetch_table h.fresh fs.directory_file (Directory.init h.fresh_table) d

-- `new BitMap(NumSectors)` and `FetchFrom`
unfoldable pub load_map : Host → FileSystem → Disk → Outcome BitMap
load_map h fs d = do
  m ← BitMap.init num_sectors h.fresh_words
  fetch_map h.fresh fs.free_map_file m d

-- `FileSystem::Create`, from `Allocate` on: `dir` and `m` have the name and the header's sector.
unfoldable pub create_data :
    Host → FileSystem → (sector size : ℕ) → Directory → BitMap → Disk → Outcome (Bool × Disk)
create_data h fs sector size dir m d = do
  (done, hdr, m', d₁) ← allocate size h.now h.fresh_header m d
  if not done then ok (false, d₁) else do
    d₂ ← write_back sector hdr d₁
    d₃ ← write_table h.fresh fs.directory_file dir d₂
    d₄ ← write_map h.fresh fs.free_map_file m' d₃
    ok (true, d₄)

-- The same, from `Add` on, with what `Find` of the map has returned.
unfoldable pub create_entry :
    Host
    → FileSystem
    → Name
    → (size : ℕ) → Option ℕ
    → Directory
    → BitMap
    → Disk
    → Outcome (Bool × Disk)
create_entry h fs name size none dir m d = ok (false, d)
create_entry h fs name size (some sector) dir m d =
    let added = Directory.add name sector dir in
    if not added.0 then ok (false, d) else create_data h fs sector size added.1 m d

-- `FileSystem::Create`
unfoldable pub create_file : Host → FileSystem → Name → (size : ℕ) → Disk → Outcome (Bool × Disk)
create_file h fs name size d = do
  dir ← load_directory h fs d
  if not (Directory.find name dir == minus_one) then ok (false, d) else do
    m ← load_map h fs d
    (found, m') ← BitMap.find m
    create_entry h fs name size found dir m' d

-- `FileSystem::Open`; a sector that is negative as an `int` is not found.
unfoldable pub open_file : Host → FileSystem → Name → Disk → Outcome (Option OpenFile)
open_file h fs name d = do
  dir ← load_directory h fs d
  let sector = Directory.find name dir
  if ltb sector (2 ^ 31) then (do f ← open_at sector d; ok (some f)) else ok none

-- `FileSystem::Remove`
unfoldable pub remove_file : Host → FileSystem → Name → Disk → Outcome (Bool × Disk)
remove_file h fs name d = do
  dir ← load_directory h fs d
  let sector = Directory.find name dir
  if sector == minus_one then ok (false, d) else do
    hdr ← fetch_from sector d
    m ← load_map h fs d
    m₁ ← deallocate hdr m d
    m₂ ← BitMap.clear sector m₁
    let dir' = (Directory.remove name dir).1
    d₁ ← write_map h.fresh fs.free_map_file m₂ d
    d₂ ← write_table h.fresh fs.directory_file dir' d₁
    ok (true, d₂)

-- `FileSystem::FileSystem(FALSE)`
unfoldable pub mount : Disk → Outcome FileSystem
mount d = do
  free_map_file ← open_at 0 d
  directory_file ← open_at 1 d
  ok (record { free_map_file = free_map_file; directory_file = directory_file })

-- `FileSystem::FileSystem(TRUE)`, from the two `WriteBack` on.
unfoldable pub format_files :
    Host
    → Directory
    → (m : BitMap) (map_hdr dir_hdr : FileHeader) → Disk
    → Outcome (FileSystem × Disk)
format_files h dir m map_hdr dir_hdr d = do
  d₁ ← write_back 0 map_hdr d
  d₂ ← write_back 1 dir_hdr d₁
  fs ← mount d₂
  d₃ ← write_map h.fresh fs.free_map_file m d₂
  d₄ ← write_table h.fresh fs.directory_file dir d₃
  ok (fs, d₄)

-- `FileSystem::FileSystem(TRUE)`; `h` and `h'` are what the first and the second header find, with
-- the time at their `Allocate`. A directory has ten entries of 20 bytes.
unfoldable pub format : (h h' : Host) → Disk → Outcome (FileSystem × Disk)
format h h' d = do
  m ← BitMap.init num_sectors h.fresh_words
  m₁ ← BitMap.mark 0 m
  m₂ ← BitMap.mark 1 m₁
  (done, map_hdr, m₃, d₁) ← allocate (num_sectors / 8) h.now h.fresh_header m₂ d
  assert done >> do
    (done', dir_hdr, m₄, d₂) ← allocate (20 * 10) h'.now h'.fresh_header m₃ d₁
    assert done' >> format_files h (Directory.init h.fresh_table) m₄ map_hdr dir_hdr d₂
