-- ===== src/FileSystem/Remove.antt =====
-- `Remove` on a mounted disk, and the round trip with `Create`.
use nachos_3_4_lab.Prelude.{
  ℕ, ◌+◌, ◌*◌, ◌≤◌, ◌<◌, ◌≡◌, ◌≢◌, ◌∙◌, refl, true, false, not, ◌&&◌, none, some, if◌then◌else◌,
  ◌==◌, arith, Bool-cases, inl, inr,
}
use nachos_3_4_lab.Prelude.Outcome.{ok}
use nachos_3_4_lab.BitMap
use nachos_3_4_lab.BitMap.{BitMap}
use nachos_3_4_lab.BitMap.Laws.{bit, clear-Update}
use nachos_3_4_lab.BitMap.Count.{free}
use nachos_3_4_lab.Directory
use nachos_3_4_lab.Directory.{Directory, Name, minus_one}
use nachos_3_4_lab.Directory.Lookup.{alike, lookup, has_room}
use nachos_3_4_lab.Directory.Names.{same_name_refl}
use nachos_3_4_lab.Directory.Unique.{remove-Removed, lookup-alike}
use nachos_3_4_lab.Disk.{Disk}
use nachos_3_4_lab.FileHeader.{deallocate}
use nachos_3_4_lab.FileHeader.Release.{release_all-Released, deallocate_direct}
use nachos_3_4_lab.FileHeader.Slice.{in_slice, in_slice-index}
use nachos_3_4_lab.FileHeader.RoundTrip.{sectors_for}
use nachos_3_4_lab.FileHeader.Stored.{fetch_from}
use nachos_3_4_lab.FileHeader.Words.{clear-AreInts, release_all-AreInts}
use nachos_3_4_lab.OpenFile.{OpenFile}
use nachos_3_4_lab.OpenFile.Contents.{sector_at}
use nachos_3_4_lab.Storage.Entries.{remove-Sound}
use nachos_3_4_lab.FileSystem.{Host, FileSystem, create_file, remove_file}
use nachos_3_4_lab.FileSystem.Create.{create_file-Created}
use nachos_3_4_lab.FileSystem.Find.{find-some}
use nachos_3_4_lab.FileSystem.Flush.{map_then_table}
use nachos_3_4_lab.FileSystem.Mounted.{
  Outside, Owned, has_sector, IsHost, MapsDisk, Mounted, load_directory-Mounted, load_map-Mounted,
}

-- A sector that is neither the header's nor the data's.
no_sector :
    (f : OpenFile) (k : ℕ)
    → f.hdr_sector ≢ k
    → ((j : ℕ) → j < f.hdr.num_sectors → sector_at f.hdr j ≢ k)
    → has_sector f k ≡ false
no_sector f k header rest = elim (Bool-cases (in_slice f.hdr.data_sectors 0 f.hdr.num_sectors k)) [
  | inl mine ↦
      let (j, _, below, e) = in_slice-index f.hdr.data_sectors f.hdr.num_sectors 0 k mine in
      absurd (rest j (omega (arith, below)) e)
  | inr other ↦ ground (arith, other, header)
]

-- The two files own no sector of another file.
not_of_map :
    {fs : FileSystem} {m : BitMap} (f : OpenFile) (i : ℕ)
    → Owned fs m f
    → i * 128 < fs.free_map_file.hdr.num_bytes
    → has_sector f (sector_at fs.free_map_file.hdr i) ≡ false
not_of_map {fs} f i o lt =
    no_sector f (sector_at fs.free_map_file.hdr i) (o.header_off_map i lt)
      (λ j used. o.off_map j used i lt)

not_of_directory :
    {fs : FileSystem} {m : BitMap} (f : OpenFile) (i : ℕ)
    → Owned fs m f
    → i * 128 < fs.directory_file.hdr.num_bytes
    → has_sector f (sector_at fs.directory_file.hdr i) ≡ false
not_of_directory {fs} f i o lt =
    no_sector f (sector_at fs.directory_file.hdr i) (o.header_off_dir i lt)
      (λ j used. o.off_dir j used i lt)

-- The map without the sectors of the file.
record Given (fs : FileSystem) (m : BitMap) (f : OpenFile) (m' : BitMap) : Type 0 where
  pub maps : MapsDisk fs m'
  pub bits : (k : ℕ) → bit m' k ≡ (bit m k && not (has_sector f k))

-- `Deallocate`, then `Clear` of the header's sector.
give_back :
    {fs : FileSystem} {m : BitMap} (f : OpenFile) (d : Disk)
    → MapsDisk fs m
    → Owned fs m f
    → (m₁ : BitMap) × (m₂ : BitMap) × (deallocate f.hdr m d ≡ ok m₁)
      × (BitMap.clear f.hdr_sector m₁ ≡ ok m₂)
      × Given fs m f m₂
give_back {fs} {m} f d w o =
    let (m₁, runs, r) =
      release_all-Released f.hdr.num_sectors 0 f.hdr.data_sectors {m = m} w.valid
        (omega (arith, o.few, o.listed)) (λ j k _ lt below. o.distinct j k (omega arith) lt below)
        (λ j _ lt. (
          omega (arith, o.in_range j (omega (arith, lt)), w.bits),
          o.used j (omega (arith, lt)),
        )) in
    let (m₂, cleared, u) =
      clear-Update f.hdr_sector r.valid (omega (arith, o.header_in_range, w.bits, r.same_bits)) in
    let bits : (k : ℕ) → bit m₂ k ≡ (bit m k && not (has_sector f k)) =
      λ k. ground (arith, u.bits k, r.bits k) in
    (
      m₁,
      m₂,
      deallocate_direct f.hdr m d o.few runs,
      cleared,
      record {
        maps = record {
          valid = u.valid;
          bits = u.same_bits ∙ r.same_bits ∙ w.bits;
          ints =
              clear-AreInts f.hdr_sector m₁ m₂
                (release_all-AreInts f.hdr.num_sectors 0 f.hdr.data_sectors m m₁ w.ints runs)
                cleared;
          map_used = λ i lt. ground (
            arith,
            bits (sector_at fs.free_map_file.hdr i),
            w.map_used i lt,
            not_of_map f i o lt,
          );
          dir_used = λ i lt. ground (
            arith,
            bits (sector_at fs.directory_file.hdr i),
            w.dir_used i lt,
            not_of_directory f i o lt,
          );
        };
        bits = bits;
      },
    )

-- What `Remove` of the file `f` under a name has done.
pub record Removal (fs : FileSystem) (name : Name) (dir : Directory) (m : BitMap) (d : Disk)
    (f : OpenFile) (dir' : Directory) (m' : BitMap) (d' : Disk) : Type 0 where
  pub bits : (k : ℕ) → bit m' k ≡ (bit m k && not (has_sector f k))
  pub lookups :
      (other : Name) → lookup other dir' ≡ (if alike name other then none else lookup other dir)
  pub kept : (k : ℕ) → Outside fs.free_map_file.hdr k → Outside fs.directory_file.hdr k → d' k ≡ d k

module _ {n : ℕ} {h : Host} {fs : FileSystem} {dir : Directory} {m : BitMap} {d : Disk}
    (host : IsHost n h) (w : Mounted n fs dir m d) (name : Name) (f : OpenFile) where
  pub remove_file-Removal :
      lookup name dir ≡ some f.hdr_sector
      → fetch_from f.hdr_sector d ≡ ok f.hdr
      → Owned fs m f
      → (dir' : Directory) × (m' : BitMap) × (d' : Disk) × (remove_file h fs name d ≡ ok (true, d'))
        × Mounted n fs dir' m' d'
        × Removal fs name dir m d f dir' m' d'
  unfolding remove_file
  remove_file-Removal there stored o =
      let (m₁, m₂, released, cleared, g) = give_back {fs = fs} {m = m} f d w.maps o in
      let removed = remove-Removed name dir w.unique in
      let sound = remove-Sound name dir w.entries in
      let (d₁, d₂, wrote₁, wrote₂, mounted, frame) =
        map_then_table h.fresh host.sizes fs (Directory.remove name dir).1 m₂ d w.layout w.formatted
          sound.0 (sound.1 ∙ w.num_entries) removed.unique g.maps in
      let known : (f.hdr_sector == minus_one) ≡ false = ground (arith, o.header_in_range) in
      (
        (Directory.remove name dir).1,
        m₂,
        d₂,
        rw
            (
              load_directory-Mounted host w,
              find-some name dir f.hdr_sector there,
              known,
              stored,
              load_map-Mounted host w,
              released,
              cleared,
              wrote₁,
              wrote₂,
            )
            refl,
        mounted,
        record { bits = g.bits; lookups = removed.lookups; kept = frame },
      )

module _ {n : ℕ} {h : Host} {fs : FileSystem} {dir : Directory} {m : BitMap} {d : Disk}
    (host : IsHost n h) (w : Mounted n fs dir m d) (name : Name) (size : ℕ) where
  -- If the new objects of the host have the sizes that the code asks for and numbers of 32 bits,
  -- the disk is mounted with a directory and a map, no entry in use agrees with the name in its
  -- first eleven bytes, some entry is free, the file needs at most fourteen sectors and one more
  -- than it needs is free, then `Create` and `Remove` of the name after it both return TRUE, and
  -- the disk is mounted with a map of the same bits and a directory of the same lookups as before,
  -- the sectors used before holding what they held, those of the two files excepted.
  pub remove_file-create_file :
      lookup name dir ≡ none
      → has_room dir.table ≡ true
      → sectors_for size ≤ 14
      → sectors_for size + 1 ≤ free m
      → (d₁ : Disk) × (d₂ : Disk) × (dir₂ : Directory) × (m₂ : BitMap) × (create_file h fs name size
            d
          ≡ ok (true, d₁))
        × (remove_file h fs name d₁ ≡ ok (true, d₂))
        × Mounted n fs dir₂ m₂ d₂
        × ((k : ℕ) → bit m₂ k ≡ bit m k)
        × ((other : Name) → lookup other dir₂ ≡ lookup other dir)
        × ((k : ℕ)
            → bit m k ≡ true
            → Outside fs.free_map_file.hdr k
            → Outside fs.directory_file.hdr k
            → d₂ k ≡ d k)
  remove_file-create_file new room few enough =
      let (f, dir₁, m₁, d₁, created, mounted₁, file, lookups, opened) =
        create_file-Created host w name size new room few enough in
      let (dir₂, m₂, d₂, removed, mounted₂, r) =
        remove_file-Removal host mounted₁ name f
          (ground (arith, lookups name, same_name_refl 11 name)) file.stored file.owned in
      (
        d₁,
        d₂,
        dir₂,
        m₂,
        created,
        removed,
        mounted₂,
        λ k. ground (arith, r.bits k, file.bits k, file.were_free k),
        λ other. ground (arith, r.lookups other, lookups other, lookup-alike name other dir, new),
        λ k used off_map off_dir. r.kept k off_map off_dir ∙ file.kept k used off_map off_dir,
      )
