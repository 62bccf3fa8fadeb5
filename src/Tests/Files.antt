-- ===== src/Tests/Files.antt =====
-- A concrete file of two sectors on a small disk, and one with an index block.
use nachos_3_4_lab.Prelude.{
  true, false, ◌++◌, ℕ, zero, suc, ◌+◌, ◌-◌, ◌*◌, ◌<◌, ◌≡◌, ◌≢◌, refl, List, [], ◌∷◌, length,
  get_or, replicate, length-replicate, arith, ltb, leb, ◌&&◌, if◌then◌else◌, ◌==◌,
}
use nachos_3_4_lab.Prelude.Outcome.{ok, int_sum}
use nachos_3_4_lab.Directory
use nachos_3_4_lab.Directory.{Entry, find_index, find_index_from, same_name}
use nachos_3_4_lab.Prelude.Copy.{copy_in, copy_out, put_bytes, bytes_at}
use nachos_3_4_lab.FileSystem.{Host, FileSystem, create_file, load_directory}
use nachos_3_4_lab.FileSystem.Refused.{create_file-refused}
use nachos_3_4_lab.Storage.{entry_bytes, table_bytes, first_entries, fetch_table}
use nachos_3_4_lab.Disk.{Disk, read_sector}
use nachos_3_4_lab.FileHeader.{FileHeader, byte_to_sector, file_length}
use nachos_3_4_lab.FileHeader.Stored.{
  AreInts, FitsSector, fetch_from, write_back, write_back-fetch_from,
}
use nachos_3_4_lab.OpenFile.{
  OpenFile, clipped, read_part, read_sectors, read_at, write_at, read, write,
}
use nachos_3_4_lab.OpenFile.Contents.{IsDirect, Formatted, sector_at, contents}
use nachos_3_4_lab.OpenFile.Read.{IsPart}
use nachos_3_4_lab.OpenFile.Write.{Written, write_at-Written}
use nachos_3_4_lab.OpenFile.RoundTrip.{write_at-index_block}
use nachos_3_4_lab.OpenFile.Session.{IsOpen, Continues, read-Continues, write-Continues}

abbrev time : List ℕ
time = replicate 20 48

-- 200 bytes in the sectors 5 and 9.
abbrev two_sectors : FileHeader
two_sectors = record {
  num_bytes = 200;
  num_sectors = 2;
  create_time = time;
  update_time = time;
  access_time = time;
  data_sectors = 5 ∷ 9 ∷ replicate 13 0;
}

abbrev fresh : ℕ → List ℕ
fresh n = replicate n 205

fresh_sizes : (n : ℕ) → length (fresh n) ≡ n
fresh_sizes n = length-replicate n 205

-- Each sector is filled with a byte of its own.
abbrev striped : Disk
striped k = replicate 128 (k + 1)

striped-Formatted : Formatted striped
striped-Formatted k lt = length-replicate 128 (k + 1)

two_sectors-IsDirect : IsDirect two_sectors
two_sectors-IsDirect = record { small = omega arith; on_disk = there; distinct = apart }
  where
    there : (i : ℕ) → i * 128 < 200 → sector_at two_sectors i < 1024
    there zero lt = omega arith
    there (suc zero) lt = omega arith
    there (suc (suc i)) lt = absurd (omega arith)

    apart : (i j : ℕ) → i < j → j * 128 < 200 → sector_at two_sectors i ≢ sector_at two_sectors j
    apart zero (suc zero) lt used e = absurd (omega (arith, e))
    apart zero zero lt used e = absurd (omega arith)
    apart zero (suc (suc j)) lt used e = absurd (omega arith)
    apart (suc i) j lt used e = absurd (omega arith)

two_sectors-FitsSector : FitsSector two_sectors
unfolding AreInts
two_sectors-FitsSector = record {
  bytes_int = omega arith;
  sectors_int = omega arith;
  create_size = refl;
  update_size = refl;
  access_size = refl;
  entries_size = refl;
  entries_int = ground arith;
}

-- Its header is in sector 2, and the position is at the last byte of the first sector.
abbrev file : OpenFile
file = record { hdr = two_sectors; seek_position = 127; hdr_sector = 2 }

file-IsOpen : IsOpen file striped
file-IsOpen = record {
  direct = two_sectors-IsDirect;
  fits = two_sectors-FitsSector;
  on_disk = omega arith;
  apart = apart;
  formatted = striped-Formatted;
}
  where
    apart : (j : ℕ) → j * 128 < 200 → 2 ≢ sector_at two_sectors j
    apart zero used e = absurd (omega (arith, e))
    apart (suc zero) used e = absurd (omega (arith, e))
    apart (suc (suc j)) used e = absurd (omega arith)

abbrev three : List ℕ
three = 65 ∷ 66 ∷ 67 ∷ []

write_at-Written_example :
    (d' : Disk) × (write_at fresh three 3 198 two_sectors striped ≡ ok (2, d'))
    × Written two_sectors striped 2 198 three d'
write_at-Written_example =
    write_at-Written fresh fresh_sizes striped two_sectors-IsDirect striped-Formatted three 3 198
      (omega arith) (omega arith)

read-Continues_example :
    (bytes : List ℕ) × (f' : OpenFile) × (d' : Disk) × (read fresh time 3 file striped
      ≡ ok (3, bytes, f', d'))
    × IsPart two_sectors striped 3 127 bytes
    × Continues 3 file f' d'
    × ((p : ℕ) → p < 200 → contents f'.hdr d' p ≡ contents two_sectors striped p)
read-Continues_example =
    read-Continues fresh fresh_sizes time refl 3 file striped file-IsOpen (omega arith)

write-Continues_example :
    (f' : OpenFile) × (d' : Disk) × (write fresh time three 3 file striped ≡ ok (3, f', d'))
    × Continues 3 file f' d'
    × ((p : ℕ)
        → p < 200
        → contents f'.hdr d' p ≡ (
            if leb 127 p && ltb p 130
            then get_or three (p - 127) 0
            else contents two_sectors striped p))
write-Continues_example =
    write-Continues fresh fresh_sizes time refl 3 file striped file-IsOpen (omega arith) three
      (omega arith)

-- Sixteen sectors, of which the header lists fourteen; sector 40 is the index block.
abbrev sixteen_sectors : FileHeader
sixteen_sectors = record two_sectors {
  num_bytes = 2048;
  num_sectors = 16;
  data_sectors = 20 ∷ 21 ∷ 22 ∷ 23 ∷ 24 ∷ 25 ∷ 26 ∷ 27 ∷ 28 ∷ 29 ∷ 30 ∷ 31 ∷ 32 ∷ 33 ∷ 40 ∷ [];
}

write_at-index_block_example :
    (bytes : List ℕ) × (write_at fresh (replicate 128 7) 128 (14 * 128) sixteen_sectors striped
      ≡ ok (128, λ k. if k == 40 then bytes else striped k))
    × (length bytes ≡ 128)
    × ((j : ℕ) → j < 128 → get_or bytes j 0 ≡ get_or (replicate 128 7) j 0)
write_at-index_block_example =
    write_at-index_block fresh fresh_sizes sixteen_sectors striped (replicate 128 7) (omega arith)
      (omega arith) refl

write_back-fetch_from_example :
    (d' : Disk) × (write_back 2 two_sectors striped ≡ ok d')
    × (fetch_from 2 d' ≡ ok two_sectors)
    × (length (d' 2) ≡ 128)
    × ((k : ℕ) → k ≢ 2 → d' k ≡ striped k)
write_back-fetch_from_example =
    write_back-fetch_from 2 two_sectors striped (omega arith) two_sectors-FitsSector

abbrev entry : ℕ → Entry
entry i = record { type = true; in_use = true; sector = i; name = 65 ∷ i ∷ replicate 10 0 }

-- A directory of one entry, which is taken.
abbrev one_entry : FileHeader
one_entry = record two_sectors { num_bytes = 20; num_sectors = 1 }

abbrev named : Disk
named k = if k == 5 then entry_bytes (entry 9) ++ replicate 108 0 else replicate 128 k

abbrev root : FileSystem
root = record {
  free_map_file = record { hdr = two_sectors; seek_position = 0; hdr_sector = 0 };
  directory_file = record { hdr = one_entry; seek_position = 0; hdr_sector = 1 };
}

abbrev host : Host
host = record {
  fresh = fresh;
  fresh_words = replicate 32 0;
  fresh_table = entry 0 ∷ [];
  fresh_header = two_sectors;
  now = time;
}

taken_name : create_file host root (65 ∷ 9 ∷ []) 100 named ≡ ok (false, named)
unfolding create_file load_directory fetch_table read_at clipped int_sum read_part read_sectors
    byte_to_sector read_sector file_length copy_in put_bytes copy_out bytes_at table_bytes
    first_entries Directory.find find_index find_index_from same_name Directory.init
taken_name = refl

create_file-refused_example : named ≡ named
create_file-refused_example = create_file-refused host root (65 ∷ 9 ∷ []) 100 named named taken_name
