-- ===== src/FileSystem/Mounted.antt =====
-- A mounted disk: its two files hold a directory and a map of the free sectors, and the map counts
-- the sectors of both as used.
use nachos_3_4_lab.Prelude.{
  ℕ, ◌*◌, ◌/◌, ◌%◌, ◌≤◌, ◌<◌, ◌≡◌, ◌≢◌, ◌∙◌, refl, sym, ap, List, Bool, true, false, ◌||◌, ◌==◌,
  length, get_or, arith,
}
use nachos_3_4_lab.Prelude.Outcome.{ok}
use nachos_3_4_lab.BitMap.{BitMap, div_round_up}
use nachos_3_4_lab.BitMap.Laws.{IsValid, bit}
use nachos_3_4_lab.BitMap.Find.{init-clear}
use nachos_3_4_lab.Directory
use nachos_3_4_lab.Directory.{Directory}
use nachos_3_4_lab.Directory.Unique.{IsUnique}
use nachos_3_4_lab.Disk.{Disk, ints_bytes}
use nachos_3_4_lab.FileHeader.{FileHeader}
use nachos_3_4_lab.FileHeader.Stored.{AreInts}
use nachos_3_4_lab.FileHeader.Slice.{in_slice, Distinct}
use nachos_3_4_lab.OpenFile.{OpenFile}
use nachos_3_4_lab.OpenFile.Contents.{IsDirect, Formatted, sector_at, contents}
use nachos_3_4_lab.Storage.{table_bytes}
use nachos_3_4_lab.Storage.RoundTrip.{BeginsWith}
use nachos_3_4_lab.Storage.Codec.{
  AreEntries, IsStorable, fetch_map-BeginsWith, fetch_table-BeginsWith,
}
use nachos_3_4_lab.FileSystem.{Host, FileSystem, load_directory, load_map}

-- No sector of the file.
abbrev pub Outside : FileHeader → ℕ → Type 0
Outside hdr k = (j : ℕ) → j * 128 < hdr.num_bytes → k ≢ sector_at hdr j

-- What new objects hold has the sizes that the code asks for; the directory has `n` entries.
pub record IsHost (n : ℕ) (h : Host) : Type 0 where
  pub sizes : (k : ℕ) → length (h.fresh k) ≡ k
  pub words : length h.fresh_words ≡ 32
  pub words_ints : AreInts h.fresh_words
  pub entries : AreEntries (Directory.init h.fresh_table).table
  pub num_entries : length (Directory.init h.fresh_table).table ≡ n
  pub update_size : length h.fresh_header.update_time ≡ 20
  pub access_size : length h.fresh_header.access_time ≡ 20
  pub header_entries : length h.fresh_header.data_sectors ≡ 15
  pub header_ints : AreInts h.fresh_header.data_sectors
  pub now_size : length h.now ≡ 20

-- The two files, with room for a directory of `n` entries and a map of 1024 bits.
pub record Layout (n : ℕ) (fs : FileSystem) : Type 0 where
  pub map_direct : IsDirect fs.free_map_file.hdr
  pub dir_direct : IsDirect fs.directory_file.hdr
  pub map_room : 128 ≤ fs.free_map_file.hdr.num_bytes
  pub dir_room : n * 20 ≤ fs.directory_file.hdr.num_bytes
  pub apart :
      (i : ℕ)
      → i * 128 < fs.free_map_file.hdr.num_bytes
      → Outside fs.directory_file.hdr (sector_at fs.free_map_file.hdr i)

-- A map of all sectors that counts those of both files as used.
pub record MapsDisk (fs : FileSystem) (m : BitMap) : Type 0 where
  pub valid : IsValid m
  pub bits : m.num_bits ≡ 1024
  pub ints : AreInts m.words
  pub map_used :
      (i : ℕ)
      → i * 128 < fs.free_map_file.hdr.num_bytes
      → bit m (sector_at fs.free_map_file.hdr i) ≡ true
  pub dir_used :
      (i : ℕ)
      → i * 128 < fs.directory_file.hdr.num_bytes
      → bit m (sector_at fs.directory_file.hdr i) ≡ true

pub record Mounted (n : ℕ) (fs : FileSystem) (dir : Directory) (m : BitMap) (d : Disk)
    : Type 0 where
  pub layout : Layout n fs
  pub formatted : Formatted d
  pub entries : AreEntries dir.table
  pub num_entries : length dir.table ≡ n
  pub unique : IsUnique dir
  pub maps : MapsDisk fs m
  pub dir_held : BeginsWith fs.directory_file.hdr d (table_bytes dir.table)
  pub map_held : BeginsWith fs.free_map_file.hdr d (ints_bytes m.words)

pub MapsDisk-IsStorable : {fs : FileSystem} {m : BitMap} → MapsDisk fs m → IsStorable m
MapsDisk-IsStorable w = record { size = w.valid.stored; ints = w.ints }

pub MapsDisk-num_words : {fs : FileSystem} {m : BitMap} → MapsDisk fs m → m.num_words ≡ 32
MapsDisk-num_words {m = m} w = w.valid.words_up ∙ ap (λ k. div_round_up k 32) w.bits

another : (m : BitMap) (k s : ℕ) → bit m k ≡ false → bit m s ≡ true → k ≢ s
another m k s free used e = let same : bit m k ≡ bit m s = ap (bit m) e in cc

-- The map has another sector for what it counts as free.
pub free-Outside :
    {fs : FileSystem} {m : BitMap} (k : ℕ)
    → MapsDisk fs m
    → bit m k ≡ false
    → Outside fs.free_map_file.hdr k × Outside fs.directory_file.hdr k
free-Outside {fs} {m} k w free = (
  λ j used e. another m k (sector_at fs.free_map_file.hdr j) free (w.map_used j used) e,
  λ j used e. another m k (sector_at fs.directory_file.hdr j) free (w.dir_used j used) e,
)

-- Whether the header or the data of the file is in the sector.
abbrev pub has_sector : OpenFile → ℕ → Bool
has_sector f k = k == f.hdr_sector || in_slice f.hdr.data_sectors 0 f.hdr.num_sectors k

-- A file whose header and data are in sectors of its own, at most fourteen of them data, all counted
-- as used and none of them of the two files.
pub record Owned (fs : FileSystem) (m : BitMap) (f : OpenFile) : Type 0 where
  pub few : f.hdr.num_sectors ≤ 14
  pub listed : length f.hdr.data_sectors ≡ 15
  pub distinct : Distinct f.hdr.data_sectors 0 f.hdr.num_sectors
  pub in_range : (j : ℕ) → j < f.hdr.num_sectors → sector_at f.hdr j < 1024
  pub used : (j : ℕ) → j < f.hdr.num_sectors → bit m (sector_at f.hdr j) ≡ true
  pub off_map : (j : ℕ) → j < f.hdr.num_sectors → Outside fs.free_map_file.hdr (sector_at f.hdr j)
  pub off_dir : (j : ℕ) → j < f.hdr.num_sectors → Outside fs.directory_file.hdr (sector_at f.hdr j)
  pub apart : (j : ℕ) → j < f.hdr.num_sectors → f.hdr_sector ≢ sector_at f.hdr j
  pub header_in_range : f.hdr_sector < 1024
  pub header_used : bit m f.hdr_sector ≡ true
  pub header_off_map : Outside fs.free_map_file.hdr f.hdr_sector
  pub header_off_dir : Outside fs.directory_file.hdr f.hdr_sector

-- What a file begins with depends on its own sectors only.
pub BeginsWith-frame :
    {hdr : FileHeader} {d : Disk} {bytes : List ℕ} (d' : Disk)
    → ((j : ℕ) → j * 128 < hdr.num_bytes → d' (sector_at hdr j) ≡ d (sector_at hdr j))
    → BeginsWith hdr d bytes
    → BeginsWith hdr d' bytes
unfolding contents
BeginsWith-frame {hdr} {d} d' same w = record {
  fits = w.fits;
  each =
      λ p lt. ap (λ s. get_or s (p % 128) 0) (same (p / 128) (omega (arith, w.fits))) ∙ w.each p lt;
}

same_map :
    (a b : ℕ) {k : ℕ} {e : ℕ} {ws : List ℕ}
    → a ≡ k
    → b ≡ e
    → Path BitMap
        (record { num_bits = a; num_words = b; words = ws })
        (record { num_bits = k; num_words = e; words = ws })
same_map a b p q = rw (p, q) refl

module _ {n : ℕ} {h : Host} {fs : FileSystem} {dir : Directory} {m : BitMap} {d : Disk}
    (host : IsHost n h) (w : Mounted n fs dir m d) where
  pub load_directory-Mounted : load_directory h fs d ≡ ok dir
  unfolding load_directory
  load_directory-Mounted =
      fetch_table-BeginsWith h.fresh host.sizes fs.directory_file d w.layout.dir_direct w.formatted
        (Directory.init h.fresh_table) dir w.entries host.entries
        (host.num_entries ∙ sym w.num_entries) w.dir_held

  pub load_map-Mounted : load_map h fs d ≡ ok m
  unfolding load_map
  load_map-Mounted =
      let (m₀, runs, v, bits, _) = init-clear 1024 h.fresh_words host.words in
      let words₀ : m₀.num_words ≡ 32 = v.words_up ∙ ap (λ k. div_round_up k 32) bits in
      let words : m.num_words ≡ 32 = MapsDisk-num_words w.maps in
      rw (runs) (
        fetch_map-BeginsWith h.fresh host.sizes fs.free_map_file d w.layout.map_direct w.formatted
          m₀ m (MapsDisk-IsStorable w.maps) (words₀ ∙ sym words)
          (omega (arith, v.stored, words₀, words)) w.map_held
        ∙ ap ok (same_map m₀.num_bits m₀.num_words (bits ∙ sym w.maps.bits) (words₀ ∙ sym words)))
