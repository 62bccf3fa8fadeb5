-- ===== src/FileHeader/RoundTrip.antt =====
-- `Allocate` on each branch, and `Deallocate` after it.
use nachos_3_4_lab.Prelude.{
  ℕ, ◌+◌, ◌<◌, ◌≤◌, ◌≡◌, ◌∙◌, List, true, false, get_or, length, arith, Bool-cases, lt→ltb,
  ltb-false, inl, inr,
}
use nachos_3_4_lab.Prelude.Outcome.{ok}
use nachos_3_4_lab.BitMap.{BitMap, div_round_up}
use nachos_3_4_lab.BitMap.Laws.{IsValid, bit}
use nachos_3_4_lab.BitMap.Count.{free, num_clear-free}
use nachos_3_4_lab.Disk.{Disk}
use nachos_3_4_lab.FileHeader.{FileHeader, allocate, deallocate}
use nachos_3_4_lab.FileHeader.Slice.{in_slice, in_slice-index, index-in_slice}
use nachos_3_4_lab.FileHeader.Allocation.{Allocated, find_all-Allocated}
use nachos_3_4_lab.FileHeader.Release.{Released, release_all-Released}

-- The data sectors of a file of so many bytes.
abbrev pub sectors_for : ℕ → ℕ
sectors_for file_size = div_round_up file_size 128

-- The header with its first two fields written.
abbrev pub sized : ℕ → FileHeader → FileHeader
sized file_size hdr = record hdr { num_bytes = file_size; num_sectors = sectors_for file_size }

module _ (file_size : ℕ) (now : List ℕ) (hdr : FileHeader) {m : BitMap} (d : Disk)
    (v : IsValid m) where
  -- If fewer sectors are free in a valid map than the file needs, `Allocate` returns FALSE, with
  -- the map and the disk as they were and only the two sizes of the header written.
  pub allocate_refused :
      free m < sectors_for file_size
      → allocate file_size now hdr m d ≡ ok (false, sized file_size hdr, m, d)
  unfolding allocate
  allocate_refused h = rw (num_clear-free v, lt→ltb _ _ h)

  -- If a file needs at most fourteen sectors, as many are free in a valid map and the header has
  -- its fifteen entries, then `Allocate` succeeds, leaves the disk as it is, writes distinct free
  -- sectors into the first entries of the header in order, marks exactly those in the map, and
  -- keeps the other entries.
  pub allocate-Allocated :
      sectors_for file_size ≤ 14
      → sectors_for file_size ≤ free m
      → length hdr.data_sectors ≡ 15
      → (a : List ℕ) × (m' : BitMap) × (allocate file_size now hdr m d
          ≡ ok (true, record (sized file_size hdr) { create_time = now; data_sectors = a }, m', d))
        × Allocated m 0 (sectors_for file_size) hdr.data_sectors a m'
  unfolding allocate
  allocate-Allocated small enough entries =
      let (a, m', runs, r) =
        find_all-Allocated (sectors_for file_size) 0 hdr.data_sectors v enough (omega arith) in
      (
        a,
        m',
        rw (
          num_clear-free v,
          ltb-false (free m) (sectors_for file_size) enough,
          ltb-false 14 (sectors_for file_size) small,
          runs,
        ),
        r,
      )

  -- If a file needs at most fourteen sectors, as many are free in a valid map and the header has
  -- its fifteen entries, then `Allocate` succeeds and takes that many free sectors, the disk stays
  -- as it is, and `Deallocate` of the header that it made runs without an abort and gives back the
  -- map with every bit as before.
  pub deallocate-allocate :
      sectors_for file_size ≤ 14
      → sectors_for file_size ≤ free m
      → length hdr.data_sectors ≡ 15
      → (hdr' : FileHeader) × (m₁ m₂ : BitMap) × (allocate file_size now hdr m d
          ≡ ok (true, hdr', m₁, d))
        × (deallocate hdr' m₁ d ≡ ok m₂)
        × (free m₁ + sectors_for file_size ≡ free m)
        × (m₂.num_bits ≡ m.num_bits)
        × ((s : ℕ) → bit m₂ s ≡ bit m s)
  unfolding deallocate
  deallocate-allocate small enough entries =
      let (a, m₁, runs, r) = allocate-Allocated small enough entries in
      let (m₂, back, rel) =
        release_all-Released (sectors_for file_size) 0 a {m = m₁} r.valid
          (omega (arith, r.same_length)) r.distinct (λ j p q. marked a m₁ r j p q) in
      (
        record (sized file_size hdr) { create_time = now; data_sectors = a },
        m₁,
        m₂,
        runs,
        rw (ltb-false 14 (sectors_for file_size) small, back),
        r.taken,
        rel.same_bits ∙ r.same_bits,
        λ s. restored a m₁ m₂ r rel s,
      )
    where
      marked :
          (a : List ℕ) (m₁ : BitMap)
          → Allocated m 0 (sectors_for file_size) hdr.data_sectors a m₁
          → (j : ℕ) → 0 ≤ j
          → j < 0 + sectors_for file_size
          → (get_or a j 0 < m₁.num_bits) × (bit m₁ (get_or a j 0) ≡ true)
      marked a m₁ r j p q = ground (
        arith,
        r.in_range j p q,
        r.same_bits,
        r.bits (get_or a j 0),
        index-in_slice a (sectors_for file_size) 0 j p q,
      )

      restored :
          (a : List ℕ) (m₁ m₂ : BitMap)
          → Allocated m 0 (sectors_for file_size) hdr.data_sectors a m₁
          → Released m₁ 0 (sectors_for file_size) a m₂
          → (s : ℕ) → bit m₂ s ≡ bit m s
      restored a m₁ m₂ r rel s = elim (Bool-cases (in_slice a 0 (sectors_for file_size) s)) [
        | inl mine ↦
            let (j, p, q, e) = in_slice-index a (sectors_for file_size) 0 s mine in
            let was : bit m s ≡ false = rw (← e) (r.were_free j p q) in
            ground (arith, rel.bits s, r.bits s, was, mine)
        | inr other ↦ ground (arith, rel.bits s, r.bits s, other)
      ]
