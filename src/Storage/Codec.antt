-- ===== src/Storage/Codec.antt =====
-- The bitmap and the directory are fetched as they were written.
use nachos_3_4_lab.Prelude.{
  ℕ, ◌≢◌, zero, suc, ◌*◌, ◌^◌, ◌≤◌, ◌<◌, ◌≡◌, ◌∙◌, refl, ap, ap₂, List, [], ◌∷◌, ◌++◌, Bool, true,
  false, length, length-append, arith,
}
use nachos_3_4_lab.Prelude.Outcome.{ok}
use nachos_3_4_lab.Prelude.Copy.{copy_in_fits}
use nachos_3_4_lab.BitMap.{BitMap}
use nachos_3_4_lab.Directory.{Directory, Entry}
use nachos_3_4_lab.Disk.{Disk, ints_bytes}
use nachos_3_4_lab.FileHeader.Stored.{
  AreInts, first_ints, first_ints-ints_bytes, length-ints_bytes, first_int_bytes, take-append,
  drop-append,
}
use nachos_3_4_lab.OpenFile.{OpenFile}
use nachos_3_4_lab.OpenFile.Contents.{IsDirect, Formatted, sector_at}
use nachos_3_4_lab.OpenFile.Write.{Written}
use nachos_3_4_lab.Storage.{
  fetch_map, write_map, fetch_table, write_table, entry_bytes, first_entry, table_bytes,
  first_entries, bool_byte, byte_bool,
}
use nachos_3_4_lab.Storage.RoundTrip.{BeginsWith, read_at-BeginsWith, write_at-BeginsWith}

-- Entries whose fields have their sizes.
unfoldable pub AreEntries : List Entry → Type 0
AreEntries [] = Unit {0}
AreEntries (e ∷ es) = (e.sector < 2 ^ 32) × (length e.name ≡ 12) × AreEntries es

-- A bitmap of as many words as it should have.
pub record IsStorable (m : BitMap) : Type 0 where
  pub size : length m.words ≡ m.num_words
  pub ints : AreInts m.words

byte_bool_byte : (b : Bool) → byte_bool (bool_byte b) ≡ b
byte_bool_byte true = refl
byte_bool_byte false = refl

length-entry_bytes : (e : Entry) → length e.name ≡ 12 → length (entry_bytes e) ≡ 20
length-entry_bytes e size = omega (arith, size)

length-table_bytes : (es : List Entry) → AreEntries es → length (table_bytes es) ≡ length es * 20
unfolding table_bytes AreEntries
length-table_bytes [] h = refl
length-table_bytes (e ∷ es) (_, size, h) = omega (
  arith,
  length-append (entry_bytes e) (table_bytes es),
  length-entry_bytes e size,
  length-table_bytes es h,
)

same_entry :
    {a a' b b' : Bool} {s s' : ℕ} {n n' : List ℕ}
    → a ≡ a'
    → b ≡ b'
    → s ≡ s'
    → n ≡ n'
    → Path Entry
        (record { type = a; in_use = b; sector = s; name = n })
        (record { type = a'; in_use = b'; sector = s'; name = n' })
same_entry p q r v = rw (p, q, r, v) refl

first_entry-entry_bytes :
    (e : Entry) (more : List ℕ)
    → e.sector < 2 ^ 32
    → length e.name ≡ 12
    → first_entry (entry_bytes e ++ more) ≡ e
first_entry-entry_bytes e more lt size =
    same_entry (byte_bool_byte e.type) (byte_bool_byte e.in_use) (first_int_bytes e.sector lt)
      (take-append 12 e.name more size)

first_entries-table_bytes :
    (n : ℕ) (es : List Entry)
    → length es ≡ n
    → AreEntries es
    → first_entries n (table_bytes es) ≡ es
unfolding first_entries table_bytes AreEntries
first_entries-table_bytes zero [] size h = refl
first_entries-table_bytes zero (e ∷ es) size h = absurd (omega (arith, size))
first_entries-table_bytes (suc n) [] size h = absurd (omega (arith, size))
first_entries-table_bytes (suc n) (e ∷ es) size (lt, name_size, h) =
    ap₂ (λ x xs. x ∷ xs) (first_entry-entry_bytes e (table_bytes es) lt name_size)
      (ap (first_entries n)
          (drop-append 20 (entry_bytes e) (table_bytes es) (length-entry_bytes e name_size))
        ∙ first_entries-table_bytes n es (omega (arith, size)) h)

module _ (fresh : ℕ → List ℕ) (sizes : (n : ℕ) → length (fresh n) ≡ n) (f : OpenFile) (d : Disk)
    (h : IsDirect f.hdr) (formatted : Formatted d) where
  -- From a file that begins with the words of `m`, any bitmap of the same size is fetched as `m`.
  pub fetch_map-BeginsWith :
      (m₀ m : BitMap)
      → IsStorable m
      → m₀.num_words ≡ m.num_words
      → length m₀.words ≡ m.num_words
      → BeginsWith f.hdr d (ints_bytes m.words)
      → fetch_map fresh f m₀ d ≡ ok (record m₀ { words = m.words })
  unfolding fetch_map
  fetch_map-BeginsWith m₀ m storable same_words size w =
      let bytes : List ℕ = ints_bytes m.words in
      let (got, runs, whole, room) =
        read_at-BeginsWith fresh sizes f.hdr d h formatted bytes (ints_bytes m₀.words)
          (omega
            (arith, length-ints_bytes m₀.words, length-ints_bytes m.words, storable.size, size))
          w in
      let n : m₀.num_words * 4 ≡ length bytes =
        omega (arith, length-ints_bytes m.words, storable.size, same_words) in
      let decoded : first_ints m₀.num_words bytes ≡ m.words =
        first_ints-ints_bytes m₀.num_words m.words (omega (arith, storable.size, same_words))
          storable.ints in
      rw (n, runs, copy_in_fits got 0 (ints_bytes m₀.words) room, whole, decoded) refl

  pub fetch_table-BeginsWith :
      (dir₀ dir : Directory)
      → AreEntries dir.table
      → AreEntries dir₀.table
      → length dir₀.table ≡ length dir.table
      → BeginsWith f.hdr d (table_bytes dir.table)
      → fetch_table fresh f dir₀ d ≡ ok dir
  unfolding fetch_table
  fetch_table-BeginsWith dir₀ dir entries entries₀ same_length w =
      let bytes : List ℕ = table_bytes dir.table in
      let l = length-table_bytes dir.table entries in
      let l₀ = length-table_bytes dir₀.table entries₀ in
      let (got, runs, whole, room) =
        read_at-BeginsWith fresh sizes f.hdr d h formatted bytes (table_bytes dir₀.table)
          (omega (arith, l, l₀, same_length)) w in
      let n : length dir₀.table * 20 ≡ length bytes = omega (arith, l, same_length) in
      let decoded : first_entries (length dir₀.table) bytes ≡ dir.table =
        first_entries-table_bytes (length dir₀.table) dir.table (omega (arith, same_length))
          entries in
      rw (n, runs, copy_in_fits got 0 (table_bytes dir₀.table) room, whole, decoded) refl

  pub write_map-BeginsWith :
      (m : BitMap)
      → IsStorable m
      → m.num_words * 4 ≤ f.hdr.num_bytes
      → (d' : Disk) × (write_map fresh f m d ≡ ok d')
        × BeginsWith f.hdr d' (ints_bytes m.words)
        × Written f.hdr d (length (ints_bytes m.words)) 0 (ints_bytes m.words) d'
  unfolding write_map
  write_map-BeginsWith m storable fits =
      let n : m.num_words * 4 ≡ length (ints_bytes m.words) =
        omega (arith, length-ints_bytes m.words, storable.size) in
      let (d', runs, w, all) =
        write_at-BeginsWith fresh sizes f.hdr d h formatted (ints_bytes m.words)
          (omega (arith, n, fits)) in
      (d', rw (n, runs) refl, w, all)

  pub write_table-BeginsWith :
      (dir : Directory)
      → AreEntries dir.table
      → length dir.table * 20 ≤ f.hdr.num_bytes
      → (d' : Disk) × (write_table fresh f dir d ≡ ok d')
        × BeginsWith f.hdr d' (table_bytes dir.table)
        × Written f.hdr d (length (table_bytes dir.table)) 0 (table_bytes dir.table) d'
  unfolding write_table
  write_table-BeginsWith dir entries fits =
      let n : length dir.table * 20 ≡ length (table_bytes dir.table) =
        omega (arith, length-table_bytes dir.table entries) in
      let (d', runs, w, all) =
        write_at-BeginsWith fresh sizes f.hdr d h formatted (table_bytes dir.table)
          (omega (arith, n, fits)) in
      (d', rw (n, runs) refl, w, all)

module _ (fresh : ℕ → List ℕ) (sizes : (n : ℕ) → length (fresh n) ≡ n) (f : OpenFile) (d : Disk)
    (h : IsDirect f.hdr) (formatted : Formatted d) where
  -- If `new` gives arrays of the size asked for, a file has at most fourteen distinct sectors on
  -- the disk and room for the map, every sector has 128 bytes, and two bitmaps have the same number
  -- of words, those of the first 32-bit patterns, then `WriteBack` of the first to the file changes
  -- no sector that is not the file's, and `FetchFrom` there into the second gives it the words of
  -- the first.
  pub write_map-fetch_map :
      (m₀ m : BitMap)
      → IsStorable m
      → m.num_words * 4 ≤ f.hdr.num_bytes
      → m₀.num_words ≡ m.num_words
      → length m₀.words ≡ m.num_words
      → (d' : Disk) × (write_map fresh f m d ≡ ok d')
        × (fetch_map fresh f m₀ d' ≡ ok (record m₀ { words = m.words }))
        × ((k : ℕ) → ((j : ℕ) → j * 128 < f.hdr.num_bytes → k ≢ sector_at f.hdr j) → d' k ≡ d k)
  write_map-fetch_map m₀ m storable fits same_words size =
      let (d', runs, w, all) = write_map-BeginsWith fresh sizes f d h formatted m storable fits in
      (
        d',
        runs,
        fetch_map-BeginsWith fresh sizes f d' h all.formatted m₀ m storable same_words size w,
        all.elsewhere,
      )

  -- If `new` gives arrays of the size asked for, a file has at most fourteen distinct sectors on
  -- the disk and room for the directory, every sector has 128 bytes, and the fields of the entries
  -- of two directories of one length have their sizes, then `WriteBack` of one to the file changes
  -- no sector that is not the file's, and `FetchFrom` there into the other gives back the first.
  pub write_table-fetch_table :
      (dir₀ dir : Directory)
      → AreEntries dir.table
      → length dir.table * 20 ≤ f.hdr.num_bytes
      → AreEntries dir₀.table
      → length dir₀.table ≡ length dir.table
      → (d' : Disk) × (write_table fresh f dir d ≡ ok d')
        × (fetch_table fresh f dir₀ d' ≡ ok dir)
        × ((k : ℕ) → ((j : ℕ) → j * 128 < f.hdr.num_bytes → k ≢ sector_at f.hdr j) → d' k ≡ d k)
  write_table-fetch_table dir₀ dir entries fits entries₀ same_length =
      let (d', runs, w, all) =
        write_table-BeginsWith fresh sizes f d h formatted dir entries fits in
      (
        d',
        runs,
        fetch_table-BeginsWith fresh sizes f d' h all.formatted dir₀ dir entries entries₀
            same_length w,
        all.elsewhere,
      )
