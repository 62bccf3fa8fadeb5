-- ===== src/OpenFile/RoundTrip.antt =====
-- `ReadAt` after `WriteAt`, and a write to a file with an index block.
use nachos_3_4_lab.Prelude.{
  ℕ, ◌+◌, ◌-◌, ◌*◌, ◌≤◌, ◌<◌, ◌≡◌, ◌∙◌, min, refl, ap, List, length, get_or, arith, lt→ltb, ◌==◌,
  if◌then◌else◌,
}
use nachos_3_4_lab.Prelude.Outcome.{ok}
use nachos_3_4_lab.Prelude.Copy.{
  bytes_at, put_bytes, copy_in_fits, copy_out_fits, length-bytes_at, length-put_bytes,
  get_or-put_bytes, get_or-bytes_at,
}
use nachos_3_4_lab.Disk.{Disk, write_sector}
use nachos_3_4_lab.FileHeader.{FileHeader, file_length, byte_to_sector}
use nachos_3_4_lab.OpenFile.{clipped, fill, read_at, write_sectors, write_part, write_at}
use nachos_3_4_lab.OpenFile.Contents.{IsDirect, Formatted, sector_at}
use nachos_3_4_lab.OpenFile.Read.{clipped_lem, read_at-IsPart}
use nachos_3_4_lab.OpenFile.Write.{write_at-Written}

module _ (fresh : ℕ → List ℕ) (sizes : (n : ℕ) → length (fresh n) ≡ n) (hdr : FileHeader) where
  -- If `new` gives arrays of the size asked for, a file has at most fourteen distinct sectors on
  -- the disk, every sector 128 bytes, and the bytes given are at least as many as asked for, then
  -- `WriteAt` at any position and `ReadAt` of the same request after it both return the number of
  -- bytes up to the end of the file or as many as asked for, if that is less, and `ReadAt` gives
  -- back the bytes that were written.
  pub write_at-read_at :
      (d : Disk) (from : List ℕ) (num_bytes position : ℕ)
      → IsDirect hdr
      → Formatted d
      → num_bytes ≤ length from
      → position + num_bytes < 0x8000_0000
      → let n = min num_bytes (hdr.num_bytes - position) in
        (d' : Disk) × (bytes : List ℕ) × (write_at fresh from num_bytes position hdr d ≡ ok (n, d'))
        × (read_at fresh num_bytes position hdr d' ≡ ok (n, bytes))
        × (length bytes ≡ n)
        × ((j : ℕ) → j < n → get_or bytes j 0 ≡ get_or from j 0)
  write_at-read_at d from num_bytes position h f given no_overflow =
      let (d', wrote, w) =
        write_at-Written fresh sizes d h f from num_bytes position given no_overflow in
      let (bytes, did_read, r) =
        read_at-IsPart fresh sizes h w.formatted num_bytes position no_overflow in
      (
        d',
        bytes,
        wrote,
        did_read,
        r.size,
        λ j lt.
            let index : position + j - position ≡ j = omega arith in
            let same : get_or from (position + j - position) 0 ≡ get_or from j 0 =
              ap (λ k. get_or from k 0) index in
            ground (arith, r.each j lt, w.bytes (position + j) (omega arith), same),
      )

  -- If `new` gives arrays of the size asked for, a file is at least fifteen sectors long, its index
  -- block is a sector of the disk and 128 bytes are given, then `WriteAt` of the fifteenth sector
  -- writes them into the index block and changes nothing else.
  pub write_at-index_block :
      (d : Disk) (from : List ℕ)
      → 15 * 128 ≤ hdr.num_bytes
      → sector_at hdr 14 < 1024
      → length from ≡ 128
      → (bytes : List ℕ) × (write_at fresh from 128 (14 * 128) hdr d
          ≡ ok (128, λ k. if k == sector_at hdr 14 then bytes else d k))
        × (length bytes ≡ 128)
        × ((j : ℕ) → j < 128 → get_or bytes j 0 ≡ get_or from j 0)
  unfolding write_at write_part write_sectors fill byte_to_sector write_sector file_length
  write_at-index_block d from large there given =
      let n : clipped 128 (14 * 128) hdr.num_bytes ≡ ok 128 =
        clipped_lem 128 (14 * 128) hdr.num_bytes (omega arith) ∙ ap ok (omega arith) in
      let bytes : List ℕ = bytes_at 128 0 from in
      let size : length bytes ≡ 128 = length-bytes_at 128 0 from in
      let room : 0 + length bytes ≤ length (fresh 128) = omega (arith, sizes 128) in
      let buf : List ℕ = put_bytes bytes 0 (fresh 128) in
      (
        bytes_at 128 0 buf,
        rw
            (
              n,
              copy_out_fits 128 0 from (omega arith),
              copy_in_fits bytes 0 (fresh 128) room,
              copy_out_fits 128 0 buf
                  (omega (arith, sizes 128, length-put_bytes bytes 0 (fresh 128))),
              lt→ltb (sector_at hdr 14) 1024 there,
            )
            refl,
        length-bytes_at 128 0 buf,
        λ j lt.
            let put = get_or-put_bytes bytes 0 (fresh 128) (0 + j) room in
            let index : 0 + j - 0 ≡ j = omega arith in
            let same : get_or bytes (0 + j - 0) 0 ≡ get_or bytes j 0 =
              ap (λ k. get_or bytes k 0) index in
            let zero : get_or from (0 + j) 0 ≡ get_or from j 0 =
              ap (λ k. get_or from k 0) (omega arith) in
            ground (
              arith,
              get_or-bytes_at 128 0 buf j lt,
              put,
              same,
              get_or-bytes_at 128 0 from j lt,
              zero,
              size,
            ),
      )
