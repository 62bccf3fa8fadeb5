-- ===== src/Tests/Formatted.antt =====
-- A disk of zeros formatted, and a file of 200 bytes on it.
use nachos_3_4_lab.Prelude.{
  ℕ, zero, suc, map, ◌^◌, ◌<◌, ◌≡◌, refl, [], ◌∷◌, true, if◌then◌else◌, some, replicate,
  length-replicate, arith,
}
use nachos_3_4_lab.Prelude.Outcome.{ok}
use nachos_3_4_lab.BitMap.{BitMap}
use nachos_3_4_lab.BitMap.Laws.{bit}
use nachos_3_4_lab.Directory
use nachos_3_4_lab.Directory.{Directory, Entry, Name, blank}
use nachos_3_4_lab.Directory.Lookup.{alike, lookup}
use nachos_3_4_lab.Disk.{Disk}
use nachos_3_4_lab.FileHeader.Stored.{AreInts}
use nachos_3_4_lab.OpenFile.{OpenFile}
use nachos_3_4_lab.OpenFile.Contents.{Formatted}
use nachos_3_4_lab.Storage.Codec.{AreEntries}
use nachos_3_4_lab.FileSystem.{Host, FileSystem, create_file, open_file, remove_file}
use nachos_3_4_lab.FileSystem.Mounted.{Outside, IsHost, Mounted}
use nachos_3_4_lab.FileSystem.Create.{Created, create_file-Created}
use nachos_3_4_lab.FileSystem.Remove.{remove_file-create_file}
use nachos_3_4_lab.FileSystem.Format.{IsFormatted, format-Mounted}

abbrev zeros : Disk
zeros k = replicate 128 0

zeros-Formatted : Formatted zeros
zeros-Formatted k lt = length-replicate {A = ℕ} 128 0

abbrev fresh_entry : Entry
fresh_entry = record { type = true; in_use = true; sector = 77; name = replicate 12 9 }

abbrev host : Host
host = record {
  fresh = λ n. replicate n 205;
  fresh_words = replicate 32 7;
  fresh_table = replicate 10 fresh_entry;
  fresh_header = record {
    num_bytes = 1;
    num_sectors = 2;
    create_time = [];
    update_time = replicate 20 48;
    access_time = replicate 20 48;
    data_sectors = replicate 15 3;
  };
  now = replicate 20 49;
}

same_ints : (n k : ℕ) → k < 2 ^ 32 → AreInts (replicate n k)
unfolding AreInts
same_ints zero k lt = tt
same_ints (suc n) k lt = (lt, same_ints n k lt)

fresh_entries : (n : ℕ) → AreEntries (map blank (replicate n fresh_entry))
unfolding AreEntries
fresh_entries zero = tt
fresh_entries (suc n) = (omega arith, refl, fresh_entries n)

host-IsHost : IsHost 10 host
unfolding Directory.init
host-IsHost = record {
  sizes = λ k. length-replicate {A = ℕ} k 205;
  words = refl;
  words_ints = same_ints 32 7 (omega arith);
  entries = fresh_entries 10;
  num_entries = refl;
  update_size = refl;
  access_size = refl;
  header_entries = refl;
  header_ints = same_ints 15 3 (omega arith);
  now_size = refl;
}

format-Mounted_example :
    (fs : FileSystem) × (dir : Directory) × (m : BitMap) × (d : Disk) × IsFormatted host host zeros
      fs dir m d
format-Mounted_example = format-Mounted host host host-IsHost host-IsHost zeros zeros-Formatted

-- The formatted disk.
zeros-IsFormatted :
    (fs : FileSystem) × (dir : Directory) × (m : BitMap) × (d : Disk) × IsFormatted host host zeros
      fs dir m d
zeros-IsFormatted = format-Mounted host host host-IsHost host-IsHost zeros zeros-Formatted

abbrev fs : FileSystem
fs = zeros-IsFormatted.0

abbrev dir : Directory
dir = zeros-IsFormatted.1

abbrev m : BitMap
m = zeros-IsFormatted.2

abbrev d : Disk
d = zeros-IsFormatted.3

abbrev name : Name
name = 97 ∷ 98 ∷ []

create_file-Created_example :
    (f : OpenFile) × (dir' : Directory) × (m' : BitMap) × (d' : Disk) × (create_file host fs name
        200 d
      ≡ ok (true, d'))
    × Mounted 10 fs dir' m' d'
    × Created 200 fs m d f m' d'
    × ((other : Name)
        → lookup other dir' ≡ (if alike name other then some f.hdr_sector else lookup other dir))
    × (open_file host fs name d' ≡ ok (some f))
create_file-Created_example =
    create_file-Created host-IsHost zeros-IsFormatted.4.mounted name 200
      (zeros-IsFormatted.4.no_names name) zeros-IsFormatted.4.room (omega arith)
      (omega (arith, zeros-IsFormatted.4.free_left))

remove_file-create_file_example :
    (d₁ : Disk) × (d₂ : Disk) × (dir₂ : Directory) × (m₂ : BitMap) × (create_file host fs name 200 d
      ≡ ok (true, d₁))
    × (remove_file host fs name d₁ ≡ ok (true, d₂))
    × Mounted 10 fs dir₂ m₂ d₂
    × ((k : ℕ) → bit m₂ k ≡ bit m k)
    × ((other : Name) → lookup other dir₂ ≡ lookup other dir)
    × ((k : ℕ)
        → bit m k ≡ true
        → Outside fs.free_map_file.hdr k
        → Outside fs.directory_file.hdr k
        → d₂ k ≡ d k)
remove_file-create_file_example =
    remove_file-create_file host-IsHost zeros-IsFormatted.4.mounted name 200
      (zeros-IsFormatted.4.no_names name) zeros-IsFormatted.4.room (omega arith)
      (omega (arith, zeros-IsFormatted.4.free_left))
