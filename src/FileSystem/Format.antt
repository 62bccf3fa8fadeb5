-- ===== src/FileSystem/Format.antt =====
-- `FileSystem(TRUE)`: the disk is mounted with an empty directory, and `FileSystem(FALSE)` finds it.
use nachos_3_4_lab.Prelude.{
  ℕ, zero, suc, ◌<◌, ◌≡◌, ◌∙◌, refl, ap, List, Bool, true, none, length, get_or, arith,
}
use nachos_3_4_lab.Prelude.Outcome.{ok}
use nachos_3_4_lab.BitMap
use nachos_3_4_lab.BitMap.{BitMap}
use nachos_3_4_lab.BitMap.Laws.{IsValid, bit, mark-Update}
use nachos_3_4_lab.BitMap.Find.{init-clear}
use nachos_3_4_lab.BitMap.Count.{free, clear_below-empty, Update-free}
use nachos_3_4_lab.Directory
use nachos_3_4_lab.Directory.{Directory, Name}
use nachos_3_4_lab.Directory.Lookup.{lookup, lookup-init, has_room, init-has_room}
use nachos_3_4_lab.Directory.Unique.{IsUnique, init-IsUnique}
use nachos_3_4_lab.Disk.{Disk}
use nachos_3_4_lab.FileHeader.{FileHeader}
use nachos_3_4_lab.FileHeader.Allocation.{Allocated}
use nachos_3_4_lab.FileHeader.RoundTrip.{sized, allocate-Allocated}
use nachos_3_4_lab.FileHeader.Slice.{index-in_slice}
use nachos_3_4_lab.FileHeader.Stored.{AreInts, FitsSector, fetch_from, write_back-fetch_from}
use nachos_3_4_lab.FileHeader.Words.{init-AreInts, mark-AreInts, allocate-AreInts}
use nachos_3_4_lab.OpenFile.{open_at}
use nachos_3_4_lab.OpenFile.Contents.{Formatted}
use nachos_3_4_lab.OpenFile.Fresh.{Allocated-IsDirect}
use nachos_3_4_lab.Storage.Codec.{AreEntries}
use nachos_3_4_lab.FileSystem.{Host, FileSystem, mount, format_files, format}
use nachos_3_4_lab.FileSystem.Create.{new_header-FitsSector, Formatted-but_one, fetch_from-frame}
use nachos_3_4_lab.FileSystem.Flush.{map_then_table}
use nachos_3_4_lab.FileSystem.Mounted.{Outside, IsHost, Layout, MapsDisk, Mounted}

-- The files of two headers in their sectors.
abbrev files : FileHeader → FileHeader → FileSystem
files map_hdr dir_hdr = record {
  free_map_file = record { hdr = map_hdr; seek_position = 0; hdr_sector = 0 };
  directory_file = record { hdr = dir_hdr; seek_position = 0; hdr_sector = 1 };
}

mount_finds :
    (map_hdr dir_hdr : FileHeader) (d : Disk)
    → fetch_from 0 d ≡ ok map_hdr
    → fetch_from 1 d ≡ ok dir_hdr
    → mount d ≡ ok (files map_hdr dir_hdr)
unfolding mount open_at
mount_finds map_hdr dir_hdr d p q = rw (p, q) refl

-- A new map with the sectors of the two headers marked.
headers_marked :
    {n : ℕ} (h : Host)
    → IsHost n h
    → (m₀ : BitMap) × (m₁ : BitMap) × (m₂ : BitMap) × (BitMap.init 1024 h.fresh_words ≡ ok m₀)
      × (BitMap.mark 0 m₀ ≡ ok m₁)
      × (BitMap.mark 1 m₁ ≡ ok m₂)
      × IsValid m₂
      × (m₂.num_bits ≡ 1024)
      × AreInts m₂.words
      × (free m₂ ≡ 1022)
      × (bit m₂ 0 ≡ true)
      × (bit m₂ 1 ≡ true)
headers_marked h host =
    let (m₀, runs, v, bits, clear) = init-clear 1024 h.fresh_words host.words in
    let (m₁, marked₁, u₁) = mark-Update 0 v (omega (arith, bits)) in
    let (m₂, marked₂, u₂) = mark-Update 1 u₁.valid (omega (arith, bits, u₁.same_bits)) in
    let all : free m₀ ≡ m₀.num_bits =
      clear_below-empty (bit m₀) m₀.num_bits (λ j lt. clear j (omega (arith, bits))) in
    let less₁ = Update-free {b = m₀} 0 (omega (arith, bits)) (clear 0 (omega arith)) u₁ in
    let less₂ =
      Update-free {b = m₁} 1 (omega (arith, bits, u₁.same_bits))
        (ground (arith, u₁.bits 1, clear 1 (omega arith))) u₂ in
    let ints₀ = init-AreInts 1024 h.fresh_words m₀ host.words_ints runs in
    (
      m₀,
      m₁,
      m₂,
      runs,
      marked₁,
      marked₂,
      u₂.valid,
      u₂.same_bits ∙ u₁.same_bits ∙ bits,
      mark-AreInts 1 m₁ m₂ (mark-AreInts 0 m₀ m₁ ints₀ marked₁) marked₂,
      omega (arith, all, bits, less₁, less₂),
      ground (arith, u₂.bits 0, u₁.bits 0),
      ground (arith, u₂.bits 1),
    )

module _ {n : ℕ} (h : Host) (host : IsHost n h) (dir : Directory) (m : BitMap)
    (map_hdr dir_hdr : FileHeader) (d : Disk) (layout : Layout n (files map_hdr dir_hdr))
    (formatted : Formatted d) (entries : AreEntries dir.table) (num_entries : length dir.table ≡ n)
    (unique : IsUnique dir) (maps : MapsDisk (files map_hdr dir_hdr) m)
    (map_fits : FitsSector map_hdr) (dir_fits : FitsSector dir_hdr)
    (off_map : (k : ℕ) → k < 2 → Outside map_hdr k)
    (off_dir : (k : ℕ) → k < 2 → Outside dir_hdr k) where
  -- From the two `WriteBack` on.
  format_files-Mounted :
      (d' : Disk) × (format_files h dir m map_hdr dir_hdr d ≡ ok (files map_hdr dir_hdr, d'))
      × Mounted n (files map_hdr dir_hdr) dir m d'
      × (mount d' ≡ ok (files map_hdr dir_hdr))
  unfolding format_files
  format_files-Mounted =
      let (d₁, wrote₁, fetched₁, whole₁, others₁) =
        write_back-fetch_from 0 map_hdr d (omega arith) map_fits in
      let (d₂, wrote₂, fetched₂, whole₂, others₂) =
        write_back-fetch_from 1 dir_hdr d₁ (omega arith) dir_fits in
      let formatted₁ : Formatted d₁ = Formatted-but_one 0 d₁ formatted whole₁ others₁ in
      let formatted₂ : Formatted d₂ = Formatted-but_one 1 d₂ formatted₁ whole₂ others₂ in
      let still : fetch_from 0 d₂ ≡ ok map_hdr =
        fetch_from-frame 0 d₁ d₂ (others₂ 0 (omega arith)) ∙ fetched₁ in
      let (d₃, d₄, wrote₃, wrote₄, mounted, frame) =
        map_then_table h.fresh host.sizes (files map_hdr dir_hdr) dir m d₂ layout formatted₂ entries
          num_entries unique maps in
      let kept =
        λ (k : ℕ) (lt : k < 2). fetch_from-frame k d₂ d₄ (frame k (off_map k lt) (off_dir k lt)) in
      (
        d₄,
        rw (wrote₁, wrote₂, mount_finds map_hdr dir_hdr d₂ still fetched₂, wrote₃, wrote₄) refl,
        mounted,
        mount_finds map_hdr dir_hdr d₄ (kept 0 (omega arith) ∙ still)
            (kept 1 (omega arith) ∙ fetched₂),
      )

below_two : (f : ℕ → Bool) (k : ℕ) → k < 2 → f 0 ≡ true → f 1 ≡ true → f k ≡ true
below_two f zero lt p q = p
below_two f (suc zero) lt p q = q
below_two f (suc (suc k)) lt p q = absurd (omega arith)

-- The two headers that `Allocate` makes.
abbrev map_header : Host → List ℕ → FileHeader
map_header h a = record (sized 128 h.fresh_header) { create_time = h.now; data_sectors = a }

abbrev dir_header : Host → List ℕ → FileHeader
dir_header h b = record (sized 200 h.fresh_header) { create_time = h.now; data_sectors = b }

module _ (h h' : Host) {m m₃ m₄ : BitMap} (a b x y : List ℕ) (bits : m.num_bits ≡ 1024)
    (r : Allocated m 0 1 x a m₃) (s : Allocated m₃ 0 2 y b m₄) where
  first_used : (i : ℕ) → i < 1 → bit m₃ (get_or a i 0) ≡ true
  first_used i lt =
      ground
        (arith, r.bits (get_or a i 0), index-in_slice a 1 0 i (omega arith) (omega (arith, lt)))

  format-Layout : Layout 10 (files (map_header h a) (dir_header h' b))
  format-Layout = record {
    map_direct =
        Allocated-IsDirect 128 h.fresh_header {m = m} h.now x a (omega (arith, bits)) (omega arith)
          r;
    dir_direct =
        Allocated-IsDirect 200 h'.fresh_header {m = m₃} h'.now y b
          (omega (arith, bits, r.same_bits)) (omega arith) s;
    map_room = omega arith;
    dir_room = omega arith;
    apart = λ i lt j lt' e. ground (
      arith,
      ap (bit m₃) e,
      first_used i (omega (arith, lt)),
      s.were_free j (omega arith) (omega (arith, lt')),
    );
  }

  format-MapsDisk : AreInts m₄.words → MapsDisk (files (map_header h a) (dir_header h' b)) m₄
  format-MapsDisk ints = record {
    valid = s.valid;
    bits = s.same_bits ∙ r.same_bits ∙ bits;
    ints = ints;
    map_used = λ i lt. ground (arith, s.bits (get_or a i 0), first_used i (omega (arith, lt)));
    dir_used = λ i lt.
        ground
          (arith, s.bits (get_or b i 0), index-in_slice b 2 0 i (omega arith) (omega (arith, lt)));
  }

  old_Outside : (k : ℕ) → bit m k ≡ true → Outside (map_header h a) k × Outside (dir_header h' b) k
  old_Outside k used =
      let later : bit m₃ k ≡ true = ground (arith, r.bits k, used) in
      (
        λ j lt e.
            ground (arith, ap (bit m) e, used, r.were_free j (omega arith) (omega (arith, lt))),
        λ j lt e.
            ground (arith, ap (bit m₃) e, later, s.were_free j (omega arith) (omega (arith, lt))),
      )

-- What the constructor has made: an empty directory, and five sectors used.
pub record IsFormatted (h h' : Host) (d : Disk) (fs : FileSystem) (dir : Directory) (m : BitMap)
    (d' : Disk) : Type 0 where
  pub returns : format h h' d ≡ ok (fs, d')
  pub mounted : Mounted 10 fs dir m d'
  pub again : mount d' ≡ ok fs
  pub no_names : (name : Name) → lookup name dir ≡ none
  pub room : has_room dir.table ≡ true
  pub free_left : free m ≡ 1019

module _ {n : ℕ} (h h' : Host) (host : IsHost 10 h) (host' : IsHost n h') (d : Disk)
    (formatted : Formatted d) where
  -- If the new objects of two hosts have the sizes that the code asks for, a directory ten entries,
  -- their numbers 32 bits, and every sector 128 bytes, then formatting the disk runs without an
  -- abort and leaves it mounted: the directory's file holds an empty directory with room, the map's
  -- file a map that counts all but five sectors as free and the two files' own as used, and opening
  -- the disk again gives the same two files.
  pub format-Mounted :
      (fs : FileSystem) × (dir : Directory) × (m : BitMap) × (d' : Disk) × IsFormatted h h' d fs dir
        m d'
  unfolding format
  format-Mounted =
      let (m₀, m₁, m₂, made, marked₀, marked₁, v, bits, ints, all, used₀, used₁) =
        headers_marked h host in
      let (a, m₃, allocated, r) =
        allocate-Allocated 128 h.now h.fresh_header {m = m₂} d v (omega arith) (omega (arith, all))
          host.header_entries in
      let (b, m₄, allocated', s) =
        allocate-Allocated 200 h'.now h'.fresh_header {m = m₃} d r.valid (omega arith)
          (omega (arith, all, r.taken)) host'.header_entries in
      let ints₃ : AreInts m₃.words =
        allocate-AreInts 128 h.now h.fresh_header m₂ d (true, map_header h a, m₃, d) ints
          allocated in
      let ints₄ : AreInts m₄.words =
        allocate-AreInts 200 h'.now h'.fresh_header m₃ d (true, dir_header h' b, m₄, d) ints₃
          allocated' in
      let old =
        old_Outside h h' a b h.fresh_header.data_sectors h'.fresh_header.data_sectors bits r s in
      let (d', runs, mounted, again) =
        format_files-Mounted h host (Directory.init h.fresh_table) m₄ (map_header h a)
          (dir_header h' b) d
          (format-Layout h h' a b h.fresh_header.data_sectors h'.fresh_header.data_sectors bits r s)
          formatted host.entries host.num_entries (init-IsUnique h.fresh_table)
          (format-MapsDisk h h' a b h.fresh_header.data_sectors h'.fresh_header.data_sectors bits r
            s ints₄)
          (new_header-FitsSector 10 128 h a host (omega (arith, bits)) (omega arith) r)
          (new_header-FitsSector n 200 h' b host' (omega (arith, bits, r.same_bits)) (omega arith)
            s)
          (λ k lt. (old k (below_two (bit m₂) k lt used₀ used₁)).0)
          (λ k lt. (old k (below_two (bit m₂) k lt used₀ used₁)).1) in
      (
        files (map_header h a) (dir_header h' b),
        Directory.init h.fresh_table,
        m₄,
        d',
        record {
          returns = rw (made, marked₀, marked₁, allocated, allocated') runs;
          mounted = mounted;
          again = again;
          no_names = λ name. lookup-init name h.fresh_table;
          room = init-has_room h.fresh_table (omega (arith, host.num_entries));
          free_left = omega (arith, all, r.taken, s.taken);
        },
      )
