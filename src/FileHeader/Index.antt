-- ===== src/FileHeader/Index.antt =====
-- Files of more than fourteen sectors: the index block that `Allocate` writes, and what
-- `ByteToSector` reads of it.
use nachos_3_4_lab.Prelude.{
  inl, inr, Bool-cases, ℕ, zero, suc, ◌+◌, ◌-◌, ◌*◌, ◌/◌, ◌^◌, ◌<◌, ◌≤◌, ◌≡◌, refl, ◌↔◌, List, true,
  get_or, set, length, arith, lt→ltb, ltb-false, replicate, if◌then◌else◌, length-set,
  get_or-set_self, ◌==◌, none, some, Option, ==_refl, leb,
}
use nachos_3_4_lab.Prelude.Outcome.{ok}
use nachos_3_4_lab.BitMap.{BitMap, find}
use nachos_3_4_lab.BitMap.Laws.{IsValid}
use nachos_3_4_lab.BitMap.Count.{free, num_clear-free, find-free}
use nachos_3_4_lab.BitMap.Find.{Taken, Found, find-Found}
use nachos_3_4_lab.BitMap.Count.{Taken-free}
use nachos_3_4_lab.Disk.{Disk, write_sector, read_sector, ints_bytes, char_at}
use nachos_3_4_lab.Disk.Bytes.{char_at-ints_bytes}
use nachos_3_4_lab.FileHeader.{FileHeader, find_all, allocate, allocate_first, byte_to_sector}
use nachos_3_4_lab.FileHeader.Allocation.{Allocated, find_all-Allocated}
use nachos_3_4_lab.FileHeader.RoundTrip.{sectors_for, sized}

-- What `Allocate` of `n` sectors, fourteen in the header and the rest through an index block `s`,
-- has done.
pub record Indexed (n : ℕ) (m : BitMap) (d : Disk) (old : List ℕ) (a : List ℕ) (m' : BitMap)
    (d' : Disk) : Type 0 where
  pub direct : List ℕ
  pub listed : List ℕ
  pub block : ℕ
  pub m₁ : BitMap
  pub m₂ : BitMap
  pub first : Allocated m 0 14 old direct m₁
  pub then_block : Taken m₁ block m₂
  pub then_listed : Allocated m₂ 0 (n - 14) (replicate 32 0) listed m'
  pub entries : a ≡ set direct 14 block
  pub written : d' ≡ (λ k. if k == block then ints_bytes listed else d k)

module _ (file_size : ℕ) (now : List ℕ) (hdr : FileHeader) {m : BitMap} (d : Disk) (v : IsValid m)
    (on_disk : m.num_bits ≤ 1024) (entries : length hdr.data_sectors ≡ 15)
    (large : 14 < sectors_for file_size) (fits : sectors_for file_size ≤ 46) where
  -- If a file needs 15 to 46 sectors, all sectors of a valid map are on the disk, the header has
  -- its fifteen entries and more sectors are free than the file needs, then `Allocate` succeeds,
  -- takes one sector more than the file needs, fills the fourteen direct entries with distinct free
  -- sectors, takes a further one for the index block, lists the rest there, and writes that block
  -- and nothing else to the disk.
  pub allocate-Indexed :
      sectors_for file_size < free m
      → (a : List ℕ) × (m' : BitMap) × (d' : Disk) × (allocate file_size now hdr m d
          ≡ ok (true, record (sized file_size hdr) { create_time = now; data_sectors = a }, m', d'))
        × (free m' + sectors_for file_size + 1 ≡ free m)
        × Indexed (sectors_for file_size) m d hdr.data_sectors a m' d'
  unfolding allocate allocate_first write_sector
  allocate-Indexed enough =
      let n : ℕ = sectors_for file_size in
      let (direct, m₁, runs₁, r₁) =
        find_all-Allocated 14 0 hdr.data_sectors v (omega arith) (omega arith) in
      let (s, m₂, runs₂, t, less) = find-free r₁.valid (omega (arith, r₁.taken)) in
      let (listed, m₃, runs₃, r₃) =
        find_all-Allocated (sectors_for file_size - 14) 0 (replicate 32 0) {m = m₂} t.update.valid
          (omega (arith, r₁.taken)) (omega arith) in
      (
        set direct 14 s,
        m₃,
        (λ k. if k == s then ints_bytes listed else d k),
        rw (
          num_clear-free v,
          ltb-false (free m) (sectors_for file_size) (omega arith),
          lt→ltb 14 (sectors_for file_size) large,
          runs₁,
          runs₂,
          lt→ltb 14 (length direct) (omega (arith, r₁.same_length)),
          runs₃,
          lt→ltb s 1024 (omega (arith, t.in_range, r₁.same_bits)),
        ),
        omega (arith, r₁.taken, r₃.taken),
        record {
          direct = direct;
          listed = listed;
          block = s;
          m₁ = m₁;
          m₂ = m₂;
          first = r₁;
          then_block = t;
          then_listed = r₃;
          entries = refl;
          written = refl;
        },
      )

find_full : {m : BitMap} → IsValid m → free m ≡ 0 → find m ≡ ok (none, m)
find_full {m} v h = pick (find-Found v)
  where
    pick : (r : Option ℕ × BitMap) × (find m ≡ ok r) × Found m r → find m ≡ ok (none, m)
    pick ((none, m'), runs, same) = rw (runs, same.0)
    pick ((some i, m'), runs, t) = absurd (omega (arith, Taken-free t))

-- One round more than there are free sectors: the last number written is the -1 of `Find`.
find_all_short :
    (k i j : ℕ) (a : List ℕ) {m : BitMap}
    → IsValid m
    → free m ≡ k
    → i + suc k ≤ length a
    → i + k ≡ j
    → (a' : List ℕ) × (m' : BitMap) × (find_all (suc k) i a m ≡ ok (a', m'))
      × (get_or a' j 0 ≡ 2 ^ 32 - 1)
unfolding find_all
find_all_short zero i j a {m} v none_left room at =
    let e : i ≡ j = omega arith in
    (
      set a i (2 ^ 32 - 1),
      m,
      rw (find_full v none_left, lt→ltb i (length a) (omega arith)),
      rw (← e) (get_or-set_self a i (2 ^ 32 - 1) 0 (omega arith)),
    )
find_all_short (suc k) i j a {m} v left room at =
    let (s, m₁, runs, t, less) = find-free v (omega arith) in
    let (a', m', loop, last) =
      find_all_short k (i + 1) j (set a i s) {m = m₁} t.update.valid (omega arith)
        (omega (arith, length-set a i s)) (omega arith) in
    (a', m', rw (runs, lt→ltb i (length a) (omega arith)) loop, last)

module _ (file_size : ℕ) (now : List ℕ) (hdr : FileHeader) {m : BitMap} (d : Disk) (v : IsValid m)
    (on_disk : m.num_bits ≤ 1024) (entries : length hdr.data_sectors ≡ 15)
    (large : 14 < sectors_for file_size) (fits : sectors_for file_size ≤ 46) where
  -- If a file needs 15 to 46 sectors, all sectors of a valid map are on the disk, the header has
  -- its fifteen entries and exactly as many sectors are free as the file needs, then `Allocate`
  -- still returns TRUE, and the last entry that it lists in the index block on the disk is the -1
  -- of a failed `Find`.
  pub allocate_short :
      free m ≡ sectors_for file_size
      → (hdr' : FileHeader) × (m' : BitMap) × (d' : Disk) × (listed : List ℕ) × (allocate file_size
            now hdr m d
          ≡ ok (true, hdr', m', d'))
        × (d' (get_or hdr'.data_sectors 14 0) ≡ ints_bytes listed)
        × (get_or listed (sectors_for file_size - 15) 0 ≡ 2 ^ 32 - 1)
  unfolding allocate allocate_first write_sector
  allocate_short exact =
      let (direct, m₁, runs₁, r₁) =
        find_all-Allocated 14 0 hdr.data_sectors v (omega arith) (omega arith) in
      let (s, m₂, runs₂, t, less) = find-free r₁.valid (omega (arith, r₁.taken)) in
      let (listed, m₃, runs₃, last) =
        find_all_short (sectors_for file_size - 15) 0 (sectors_for file_size - 15) (replicate 32 0)
          {m = m₂} t.update.valid (omega (arith, r₁.taken)) (omega arith) (omega arith) in
      let rounds : sectors_for file_size - 14 ≡ suc (sectors_for file_size - 15) = omega arith in
      let at : get_or (set direct 14 s) 14 0 ≡ s =
        get_or-set_self direct 14 s 0 (omega (arith, r₁.same_length)) in
      (
        record (sized file_size hdr) { create_time = now; data_sectors = set direct 14 s },
        m₃,
        (λ k. if k == s then ints_bytes listed else d k),
        listed,
        rw (
          num_clear-free v,
          ltb-false (free m) (sectors_for file_size) (omega arith),
          lt→ltb 14 (sectors_for file_size) large,
          runs₁,
          runs₂,
          lt→ltb 14 (length direct) (omega (arith, r₁.same_length)),
          rounds,
          runs₃,
          lt→ltb s 1024 (omega (arith, t.in_range, r₁.same_bits)),
        ),
        rw (at, ==_refl s),
        last,
      )

module _ (hdr : FileHeader) (d : Disk) (listed : List ℕ)
    (there : get_or hdr.data_sectors 14 0 < 1024)
    (stored : d (get_or hdr.data_sectors 14 0) ≡ ints_bytes listed) (long : length listed ≡ 32)
    (offset : ℕ) (in_file : offset < 5888) where
  -- If the entry for the index block is a sector of the disk, that sector holds 32 numbers, and the
  -- offset is below the greatest file size, then `ByteToSector` is the entry of the header for an
  -- offset up to 14 * 128, which is included, and above that one byte, as a `char`, of the index
  -- block.
  byte_to_sector_lem :
      byte_to_sector offset hdr d
      ≡ ok (
          if leb offset 1792
          then get_or hdr.data_sectors (offset / 128) 0
          else char_at (ints_bytes listed) (4 * (offset / 128 - 14)))
  unfolding byte_to_sector read_sector
  byte_to_sector_lem = elim (Bool-cases (leb offset 1792)) [
    | inl low ↦ rw low refl
    | inr high ↦
        let above : 1792 < offset = ground arith in
        let pos : (offset - 1792) / 128 ≡ offset / 128 - 14 = omega arith in
        rw (
          high,
          lt→ltb _ 1024 there,
          stored,
          pos,
          lt→ltb (4 * (offset / 128 - 14)) 128 (omega arith),
        )
  ]

  -- If the entry for the index block is a sector of the disk, that sector holds 32 numbers, the
  -- offset is above 14 * 128 and below the greatest file size, and the number that the index block
  -- lists for it is below 2 ^ 31, then `ByteToSector` returns that number exactly if it is below
  -- 128.
  pub byte_to_sector-listed :
      1792 < offset
      → get_or listed (offset / 128 - 14) 0 < 2 ^ 31
      → (byte_to_sector offset hdr d ≡ ok (get_or listed (offset / 128 - 14) 0))
        ↔ (get_or listed (offset / 128 - 14) 0 < 128)
  byte_to_sector-listed above small =
      let right = char_at-ints_bytes listed (offset / 128 - 14) (omega arith) small in
      (
        (λ e. right.0 (ground (arith, byte_to_sector_lem))),
        λ h. ground (arith, byte_to_sector_lem, right.1 h),
      )
