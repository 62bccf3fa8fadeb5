-- ===== src/Storage.antt =====
-- The bitmap and the directory as the contents of files: `FetchFrom` and `WriteBack` of
-- userprog/bitmap.cc and filesys/directory.cc. An entry of the directory has 20 bytes, of which the
-- third and the fourth are padding, which is taken to be 0.
pub mod RoundTrip
pub mod Codec
pub mod Entries
use nachos_3_4_lab.Prelude.{
  ℕ, zero, suc, ◌*◌, List, [], ◌∷◌, ◌++◌, Bool, not, ◌==◌, if◌then◌else◌, length, get_or, take,
  drop,
}
use nachos_3_4_lab.Prelude.Outcome.{Outcome, ok, ◌>>=◌}
use nachos_3_4_lab.Prelude.Copy.{copy_in}
use nachos_3_4_lab.BitMap.{BitMap}
use nachos_3_4_lab.Directory.{Directory, Entry}
use nachos_3_4_lab.Disk.{Disk, int_bytes, ints_bytes}
use nachos_3_4_lab.FileHeader.Stored.{first_int, first_ints}
use nachos_3_4_lab.OpenFile.{OpenFile, read_at, write_at}

-- `BitMap::FetchFrom`: what the file is too short for stays as it is.
unfoldable pub fetch_map : (fresh : ℕ → List ℕ) → OpenFile → BitMap → Disk → Outcome BitMap
fetch_map fresh f m d = do
  (n, bytes) ← read_at fresh (m.num_words * 4) 0 f.hdr d
  buf ← copy_in bytes 0 (ints_bytes m.words)
  ok (record m { words = first_ints m.num_words buf })

-- `BitMap::WriteBack`
unfoldable pub write_map : (fresh : ℕ → List ℕ) → OpenFile → BitMap → Disk → Outcome Disk
write_map fresh f m d = do
  (n, d') ← write_at fresh (ints_bytes m.words) (m.num_words * 4) 0 f.hdr d
  ok d'

-- A `bool` in one byte.
abbrev pub bool_byte : Bool → ℕ
bool_byte b = if b then 1 else 0

abbrev pub byte_bool : ℕ → Bool
byte_bool c = not (c == 0)

-- The 20 bytes of a `DirectoryEntry`, the table, and back.
abbrev pub entry_bytes : Entry → List ℕ
entry_bytes e = bool_byte e.type ∷ bool_byte e.in_use ∷ 0 ∷ 0 ∷ (int_bytes e.sector ++ e.name)

unfoldable pub table_bytes : List Entry → List ℕ
table_bytes [] = []
table_bytes (e ∷ es) = entry_bytes e ++ table_bytes es

abbrev pub first_entry : List ℕ → Entry
first_entry b = record {
  type = byte_bool (get_or b 0 0);
  in_use = byte_bool (get_or b 1 0);
  sector = first_int (drop 4 b);
  name = take 12 (drop 8 b);
}

unfoldable pub first_entries : ℕ → List ℕ → List Entry
first_entries zero b = []
first_entries (suc n) b = first_entry b ∷ first_entries n (drop 20 b)

-- `Directory::FetchFrom`
unfoldable pub fetch_table : (fresh : ℕ → List ℕ) → OpenFile → Directory → Disk → Outcome Directory
fetch_table fresh f dir d = do
  (n, bytes) ← read_at fresh (length dir.table * 20) 0 f.hdr d
  buf ← copy_in bytes 0 (table_bytes dir.table)
  ok (record { table = first_entries (length dir.table) buf })

-- `Directory::WriteBack`
unfoldable pub write_table : (fresh : ℕ → List ℕ) → OpenFile → Directory → Disk → Outcome Disk
write_table fresh f dir d = do
  (n, d') ← write_at fresh (table_bytes dir.table) (length dir.table * 20) 0 f.hdr d
  ok d'
