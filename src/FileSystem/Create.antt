-- ===== src/FileSystem/Create.antt =====
-- `Create` on a mounted disk.
use nachos_3_4_lab.Prelude.{
  ℕ, ◌+◌, ◌≤◌, ◌<◌, ◌≡◌, ◌≢◌, ◌∙◌, refl, sym, ap, List, Bool, true, false, ◌&&◌, ◌||◌, none, some,
  if◌then◌else◌, ◌==◌, ltb, length, get_or, arith, Bool-cases, inl, inr,
}
use nachos_3_4_lab.Prelude.Outcome.{ok}
use nachos_3_4_lab.BitMap
use nachos_3_4_lab.BitMap.{BitMap}
use nachos_3_4_lab.BitMap.Laws.{IsValid, bit}
use nachos_3_4_lab.BitMap.Find.{Taken}
use nachos_3_4_lab.BitMap.Count.{free, find-free}
use nachos_3_4_lab.Directory
use nachos_3_4_lab.Directory.{Directory, Name, minus_one}
use nachos_3_4_lab.Directory.Names.{same_name_refl}
use nachos_3_4_lab.Directory.Unique.{IsUnique, add-IsUnique}
use nachos_3_4_lab.FileHeader.Slice.{in_slice, in_slice-index, index-in_slice}
use nachos_3_4_lab.Directory.Lookup.{alike, lookup, has_room, as_int, find-lookup, add-Added}
use nachos_3_4_lab.Disk.{Disk, read_sector}
use nachos_3_4_lab.FileHeader.{FileHeader}
use nachos_3_4_lab.FileHeader.Allocation.{Allocated}
use nachos_3_4_lab.FileHeader.RoundTrip.{sectors_for, sized, allocate-Allocated}
use nachos_3_4_lab.FileHeader.Stored.{AreInts, FitsSector, fetch_from, write_back-fetch_from}
use nachos_3_4_lab.FileHeader.Words.{AreInts-get_or, each-AreInts, find-AreInts, allocate-AreInts}
use nachos_3_4_lab.OpenFile.{OpenFile}
use nachos_3_4_lab.OpenFile.Contents.{Formatted, sector_at}
use nachos_3_4_lab.OpenFile.Fresh.{Allocated-IsDirect}
use nachos_3_4_lab.OpenFile.Session.{IsOpen}
use nachos_3_4_lab.Storage.Codec.{AreEntries}
use nachos_3_4_lab.Storage.Entries.{add-Sound}
use nachos_3_4_lab.FileSystem.{Host, FileSystem, create_data, create_entry, create_file, open_file}
use nachos_3_4_lab.FileSystem.Mounted.{
  Outside, Owned, has_sector, IsHost, MapsDisk, Mounted, free-Outside, load_directory-Mounted,
  load_map-Mounted,
}
use nachos_3_4_lab.FileSystem.Find.{open_file-Mounted}
use nachos_3_4_lab.FileSystem.Flush.{table_then_map}

-- A map that counts more sectors as used.
MapsDisk-grow :
    {fs : FileSystem} {m : BitMap} (m' : BitMap)
    → MapsDisk fs m
    → IsValid m'
    → m'.num_bits ≡ m.num_bits
    → AreInts m'.words
    → ((k : ℕ) → bit m k ≡ true → bit m' k ≡ true)
    → MapsDisk fs m'
MapsDisk-grow {fs} {m} m' w valid same ints grow = record {
  valid = valid;
  bits = same ∙ w.bits;
  ints = ints;
  map_used = λ i used. grow (sector_at fs.free_map_file.hdr i) (w.map_used i used);
  dir_used = λ i used. grow (sector_at fs.directory_file.hdr i) (w.dir_used i used);
}

-- One sector of 128 bytes written.
pub Formatted-but_one :
    {d : Disk} (s : ℕ) (d' : Disk)
    → Formatted d
    → length (d' s) ≡ 128
    → ((k : ℕ) → k ≢ s → d' k ≡ d k)
    → Formatted d'
Formatted-but_one s d' f whole others k lt = elim (Bool-cases (k == s)) [
  | inl here ↦ ap (λ j. length (d' j)) (ground (arith, here)) ∙ whole
  | inr other ↦ ap length (others k (ground (arith, other))) ∙ f k lt
]

pub fetch_from-frame : (s : ℕ) (d d' : Disk) → d' s ≡ d s → fetch_from s d' ≡ fetch_from s d
unfolding fetch_from read_sector
fetch_from-frame s d d' same = rw same refl

-- The header that `Allocate` has made, as it goes to the disk.
pub new_header-FitsSector :
    (n size : ℕ) (h : Host) {m m' : BitMap} (a : List ℕ)
    → IsHost n h
    → m.num_bits ≤ 1024
    → sectors_for size ≤ 14
    → Allocated m 0 (sectors_for size) h.fresh_header.data_sectors a m'
    → FitsSector (record (sized size h.fresh_header) { create_time = h.now; data_sectors = a })
new_header-FitsSector n size h {m} a host on_disk few r = record {
  bytes_int = ground (arith, few);
  sectors_int = omega (arith, few);
  create_size = host.now_size;
  update_size = host.update_size;
  access_size = host.access_size;
  entries_size = r.same_length ∙ host.header_entries;
  entries_int = each-AreInts a λ i lt. elim (Bool-cases (ltb i (sectors_for size))) [
    | inl new ↦
        let there : get_or a i 0 < m.num_bits = r.in_range i (omega arith) (ground (arith, new)) in
        omega (arith, there)
    | inr old ↦
        let same = r.after i (ground (arith, old)) in
        omega (arith, same, AreInts-get_or h.fresh_header.data_sectors i host.header_ints)
  ];
}

-- What `Create` of a file of `size` bytes has done: the file `f` is in sectors that were free.
pub record Created (size : ℕ) (fs : FileSystem) (m : BitMap) (d : Disk) (f : OpenFile) (m' : BitMap)
    (d' : Disk) : Type 0 where
  pub is_open : IsOpen f d'
  pub at_start : f.seek_position ≡ 0
  pub file_size : f.hdr.num_bytes ≡ size
  pub stored : fetch_from f.hdr_sector d' ≡ ok f.hdr
  pub owned : Owned fs m' f
  pub bits : (k : ℕ) → bit m' k ≡ (bit m k || has_sector f k)
  pub were_free : (k : ℕ) → (bit m k && has_sector f k) ≡ false
  pub taken : free m' + sectors_for size + 1 ≡ free m
  pub kept :
      (k : ℕ)
      → bit m k ≡ true
      → Outside fs.free_map_file.hdr k
      → Outside fs.directory_file.hdr k
      → d' k ≡ d k

-- `Create` from `Allocate` on, when the header's sector has been taken.
module _ {n : ℕ} {h : Host} {fs : FileSystem} {dir : Directory} {m : BitMap} {d : Disk}
    (host : IsHost n h) (w : Mounted n fs dir m d) (size : ℕ) (sector : ℕ) (dir' : Directory)
    (m₁ : BitMap) (t : Taken m sector m₁) (ints₁ : AreInts m₁.words)
    (entries' : AreEntries dir'.table) (num_entries' : length dir'.table ≡ n)
    (unique' : IsUnique dir') (few : sectors_for size ≤ 14) (enough : sectors_for size + 1 ≤ free m)
    (less : free m₁ + 1 ≡ free m) where
  -- A sector that was free after the header's had been taken.
  still_free : (k : ℕ) → bit m₁ k ≡ false → (bit m k ≡ false) × (sector ≢ k)
  still_free k free = ground (arith, t.update.bits k, free)

  new_file-Owned :
      (a : List ℕ) (m₂ : BitMap)
      → Allocated m₁ 0 (sectors_for size) h.fresh_header.data_sectors a m₂
      → Owned fs m₂ (record {
        hdr = record (sized size h.fresh_header) { create_time = h.now; data_sectors = a };
        seek_position = 0;
        hdr_sector = sector;
      })
  new_file-Owned a m₂ r =
      let was = λ (j : ℕ) (lt : j < sectors_for size).
        still_free (get_or a j 0) (r.were_free j (omega arith) (omega (arith, lt))) in
      let (out_map, out_dir) = free-Outside sector w.maps t.was_clear in
      record {
        few = few;
        listed = r.same_length ∙ host.header_entries;
        distinct = r.distinct;
        in_range = λ j lt.
            let there : get_or a j 0 < m₁.num_bits =
              r.in_range j (omega arith) (omega (arith, lt)) in
            omega (arith, there, t.update.same_bits, w.maps.bits);
        used = λ j lt. ground (
          arith,
          r.bits (get_or a j 0),
          index-in_slice a (sectors_for size) 0 j (omega arith) (omega (arith, lt)),
        );
        off_map = λ j lt. (free-Outside (get_or a j 0) w.maps (was j lt).0).0;
        off_dir = λ j lt. (free-Outside (get_or a j 0) w.maps (was j lt).0).1;
        apart = λ j lt. (was j lt).1;
        header_in_range = omega (arith, t.in_range, w.maps.bits);
        header_used = ground (arith, r.bits sector, t.update.bits sector);
        header_off_map = out_map;
        header_off_dir = out_dir;
      }

  new_file_was_free :
      (a : List ℕ) (m₂ : BitMap) (k : ℕ)
      → Allocated m₁ 0 (sectors_for size) h.fresh_header.data_sectors a m₂
      → (bit m k && (k == sector || in_slice a 0 (sectors_for size) k)) ≡ false
  new_file_was_free a m₂ k r = elim (Bool-cases (in_slice a 0 (sectors_for size) k)) [
    | inl mine ↦
        let (j, above, below, e) = in_slice-index a (sectors_for size) 0 k mine in
        let free : bit m₁ k ≡ false = sym (ap (bit m₁) e) ∙ r.were_free j above below in
        ground (arith, still_free k free)
    | inr other ↦ elim (Bool-cases (k == sector)) [
      | inl header ↦
          let e : k ≡ sector = ground (arith, header) in
          let free : bit m k ≡ false = ap (bit m) e ∙ t.was_clear in ground (arith, free)
      | inr neither ↦ ground (arith, other, neither)
    ]
  ]

  create_data-Created :
      (f : OpenFile) × (m' : BitMap) × (d' : Disk) × (create_data h fs sector size dir' m₁ d
        ≡ ok (true, d'))
      × Mounted n fs dir' m' d'
      × (f.hdr_sector ≡ sector)
      × Created size fs m d f m' d'
  unfolding create_data
  create_data-Created =
      let on_disk₁ : m₁.num_bits ≤ 1024 = omega (arith, t.update.same_bits, w.maps.bits) in
      let sector_in : sector < 1024 = omega (arith, t.in_range, w.maps.bits) in
      let (a, m₂, allocated, r) =
        allocate-Allocated size h.now h.fresh_header {m = m₁} d t.update.valid few (omega arith)
          host.header_entries in
      let hdr : FileHeader = record (sized size h.fresh_header) {
        create_time = h.now;
        data_sectors = a;
      } in
      let ints₂ : AreInts m₂.words =
        allocate-AreInts size h.now h.fresh_header m₁ d (true, hdr, m₂, d) ints₁ allocated in
      let fits : FitsSector hdr = new_header-FitsSector n size h a host on_disk₁ few r in
      let (d₁, wrote, fetched, whole, others) = write_back-fetch_from sector hdr d sector_in fits in
      let formatted₁ : Formatted d₁ = Formatted-but_one sector d₁ w.formatted whole others in
      let maps₂ : MapsDisk fs m₂ =
        MapsDisk-grow m₂ w.maps r.valid (r.same_bits ∙ t.update.same_bits) ints₂
          (λ k used. ground (arith, r.bits k, t.update.bits k, used)) in
      let (d₂, d₃, wrote₂, wrote₃, mounted, frame) =
        table_then_map h.fresh host.sizes fs dir' m₂ d₁ w.layout formatted₁ entries' num_entries'
          unique' maps₂ in
      let (out_map, out_dir) = free-Outside sector w.maps t.was_clear in
      (
        record { hdr = hdr; seek_position = 0; hdr_sector = sector },
        m₂,
        d₃,
        rw (allocated, wrote, wrote₂, wrote₃) refl,
        mounted,
        refl,
        record {
          is_open = record {
            direct =
                Allocated-IsDirect size h.fresh_header h.now h.fresh_header.data_sectors a on_disk₁
                  few r;
            fits = fits;
            on_disk = sector_in;
            apart = λ j used.
                (still_free (get_or a j 0) (r.were_free j (omega arith) (ground (arith, used)))).1;
            formatted = mounted.formatted;
          };
          at_start = refl;
          file_size = refl;
          stored = fetch_from-frame sector d₁ d₃ (frame sector out_map out_dir) ∙ fetched;
          owned = new_file-Owned a m₂ r;
          bits = λ k. ground (arith, r.bits k, t.update.bits k);
          were_free = λ k. new_file_was_free a m₂ k r;
          taken = omega (arith, r.taken, less);
          kept = λ k used off_map off_dir.
              frame k off_map off_dir
              ∙ others k (λ e.
                let same : bit m k ≡ bit m sector = ap (bit m) e in
                ground (arith, same, used, t.was_clear));
        },
      )

module _ {n : ℕ} {h : Host} {fs : FileSystem} {dir : Directory} {m : BitMap} {d : Disk}
    (host : IsHost n h) (w : Mounted n fs dir m d) (name : Name) (size : ℕ) where
  -- The steps of `Create` up to `Allocate`.
  create_file_runs :
      (sector : ℕ) {m₁ : BitMap} {r : Bool × Disk}
      → lookup name dir ≡ none
      → BitMap.find m ≡ ok (some sector, m₁)
      → (Directory.add name sector dir).0 ≡ true
      → create_data h fs sector size (Directory.add name sector dir).1 m₁ d ≡ ok r
      → create_file h fs name size d ≡ ok r
  unfolding create_file create_entry
  create_file_runs sector new found added created =
      let missing : Directory.find name dir ≡ minus_one = find-lookup name dir ∙ ap as_int new in
      rw (load_directory-Mounted host w, missing, load_map-Mounted host w, found, added, created)
        refl

  -- If the new objects of the host have the sizes that the code asks for and numbers of 32 bits,
  -- the disk is mounted with a directory and a map, no entry in use agrees with the name in its
  -- first eleven bytes, some entry is free, the file needs at most fourteen sectors and one more
  -- than it needs is free, then `Create` returns TRUE and the disk is mounted with a new directory
  -- and map: the name leads to a new file of the size asked for, all other lookups are as before,
  -- the map has the file's sectors besides, which were free, the sectors used before hold what they
  -- held, those of the two files excepted, and `Open` of the name returns the file, at position 0.
  pub create_file-Created :
      lookup name dir ≡ none
      → has_room dir.table ≡ true
      → sectors_for size ≤ 14
      → sectors_for size + 1 ≤ free m
      → (f : OpenFile) × (dir' : Directory) × (m' : BitMap) × (d' : Disk) × (create_file h fs name
            size d
          ≡ ok (true, d'))
        × Mounted n fs dir' m' d'
        × Created size fs m d f m' d'
        × ((other : Name)
            → lookup other dir'
              ≡ (if alike name other then some f.hdr_sector else lookup other dir))
        × (open_file h fs name d' ≡ ok (some f))
  create_file-Created new room few enough =
      let (sector, m₁, found, t, less) = find-free w.maps.valid (omega (arith, enough)) in
      let added = add-Added name sector dir in
      let success : (Directory.add name sector dir).0 ≡ true =
        ground (arith, added.success, new, room) in
      let sound = add-Sound name sector dir (omega (arith, t.in_range, w.maps.bits)) w.entries in
      let (f, m', d', created, mounted, same_sector, file) =
        create_data-Created host w size sector (Directory.add name sector dir).1 m₁ t
          (find-AreInts m (some sector, m₁) w.maps.ints found) sound.0 (sound.1 ∙ w.num_entries)
          (add-IsUnique name sector dir w.unique) few enough less in
      (
        f,
        (Directory.add name sector dir).1,
        m',
        d',
        create_file_runs sector new found success created,
        mounted,
        file,
        λ other. ground (arith, added.lookups other, success, same_sector),
        open_file-Mounted host mounted name f
            (ground (arith, added.lookups name, success, same_sector, same_name_refl 11 name))
            (omega (arith, file.owned.header_in_range)) file.stored file.at_start,
      )
