-- ===== src/OpenFile/Fresh.antt =====
-- The file that `Allocate` makes: its header is one that `ReadAt` and `WriteAt` can work with.
use nachos_3_4_lab.Prelude.{ℕ, ◌+◌, ◌-◌, ◌≤◌, ◌<◌, ◌≡◌, min, List, true, length, get_or, arith}
use nachos_3_4_lab.Prelude.Outcome.{ok}
use nachos_3_4_lab.BitMap.{BitMap}
use nachos_3_4_lab.BitMap.Laws.{IsValid}
use nachos_3_4_lab.BitMap.Count.{free}
use nachos_3_4_lab.Disk.{Disk}
use nachos_3_4_lab.FileHeader.{FileHeader, allocate}
use nachos_3_4_lab.FileHeader.Allocation.{Allocated}
use nachos_3_4_lab.FileHeader.RoundTrip.{sectors_for, sized, allocate-Allocated}
use nachos_3_4_lab.OpenFile.{read_at, write_at}
use nachos_3_4_lab.OpenFile.Contents.{IsDirect, Formatted}
use nachos_3_4_lab.OpenFile.RoundTrip.{write_at-read_at}

pub Allocated-IsDirect :
    (size : ℕ) (hdr : FileHeader) {m m' : BitMap} (now old a : List ℕ)
    → m.num_bits ≤ 1024
    → sectors_for size ≤ 14
    → Allocated m 0 (sectors_for size) old a m'
    → IsDirect (record (sized size hdr) { create_time = now; data_sectors = a })
Allocated-IsDirect size hdr {m} now old a on_disk few w = record {
  small = ground (arith, few);
  on_disk = λ i used.
      let there : get_or a i 0 < m.num_bits = w.in_range i (omega arith) (ground (arith, used)) in
      omega (arith, there);
  distinct = λ i j lt used. w.distinct i j (omega arith) lt (ground (arith, used));
}

-- If `new` gives arrays of the size asked for, a file needs at most fourteen sectors, as many are
-- free in a valid map of at most 1024 bits, the header has its fifteen entries, every sector has
-- 128 bytes, the bytes given are at least as many as asked for, and the position and the number of
-- bytes asked for add up to less than 2 ^ 31, then `Allocate` succeeds and leaves the disk as it
-- is, and `WriteAt` and `ReadAt` of the same request through the header that it made both return
-- the number of bytes up to the end of the file or as many as asked for, if that is less, and
-- `ReadAt` gives back the bytes that were written.
pub allocate-read_at :
    (fresh : ℕ → List ℕ) (sizes : (n : ℕ) → length (fresh n) ≡ n) (size : ℕ) (now : List ℕ)
    (hdr : FileHeader) {m : BitMap} (d : Disk) (from : List ℕ) (num_bytes position : ℕ)
    → IsValid m
    → m.num_bits ≤ 1024
    → Formatted d
    → length hdr.data_sectors ≡ 15
    → sectors_for size ≤ 14
    → sectors_for size ≤ free m
    → num_bytes ≤ length from
    → position + num_bytes < 0x8000_0000
    → let n = min num_bytes (size - position) in
      (hdr' : FileHeader) × (m' : BitMap) × (d' : Disk) × (bytes : List ℕ) × (allocate size now hdr
          m d
        ≡ ok (true, hdr', m', d))
      × (write_at fresh from num_bytes position hdr' d ≡ ok (n, d'))
      × (read_at fresh num_bytes position hdr' d' ≡ ok (n, bytes))
      × (length bytes ≡ n)
      × ((j : ℕ) → j < n → get_or bytes j 0 ≡ get_or from j 0)
allocate-read_at fresh sizes size now hdr d from num_bytes position v on_disk formatted entries few
      enough given no_overflow =
    let (a, m', runs, w) = allocate-Allocated size now hdr d v few enough entries in
    let hdr' : FileHeader = record (sized size hdr) { create_time = now; data_sectors = a } in
    let (d', bytes, wrote, did_read, size_read, same) =
      write_at-read_at fresh sizes hdr' d from num_bytes position
        (Allocated-IsDirect size hdr now hdr.data_sectors a on_disk few w) formatted given
        no_overflow in
    (hdr', m', d', bytes, runs, wrote, did_read, size_read, same)
