-- ===== src/Storage/RoundTrip.antt =====
-- What is written back is fetched again.
use nachos_3_4_lab.Prelude.{
  ℕ, suc, ◌+◌, ◌-◌, ◌≤◌, ◌<◌, ◌≡◌, ◌∙◌, min, refl, subst, ap, ap₂, List, [], ◌∷◌, length, get_or,
  arith,
}
use nachos_3_4_lab.Prelude.Outcome.{ok}
use nachos_3_4_lab.Prelude.Copy.{put_bytes, length-put_bytes, get_or-put_bytes}
use nachos_3_4_lab.Disk.{Disk}
use nachos_3_4_lab.FileHeader.{FileHeader}
use nachos_3_4_lab.OpenFile.{read_at, write_at}
use nachos_3_4_lab.OpenFile.Contents.{IsDirect, Formatted, contents}
use nachos_3_4_lab.OpenFile.Read.{read_at-IsPart}
use nachos_3_4_lab.OpenFile.Write.{Written, write_at-Written}

-- The file begins with these bytes.
pub record BeginsWith (hdr : FileHeader) (d : Disk) (bytes : List ℕ) : Type 0 where
  pub fits : length bytes ≤ hdr.num_bytes
  pub each : (p : ℕ) → p < length bytes → contents hdr d p ≡ get_or bytes p 0

-- Lists with the same elements are the same.
same_list :
    (xs ys : List ℕ)
    → length xs ≡ length ys
    → ((j : ℕ) → j < length xs → get_or xs j 0 ≡ get_or ys j 0)
    → xs ≡ ys
same_list [] [] size same = refl
same_list [] (y ∷ ys) size same = absurd (omega (arith, size))
same_list (x ∷ xs) [] size same = absurd (omega (arith, size))
same_list (x ∷ xs) (y ∷ ys) size same =
    ap₂ (λ z zs. z ∷ zs) (same 0 (omega arith))
      (same_list xs ys (omega (arith, size)) λ j lt. same (suc j) (omega arith))

module _ (fresh : ℕ → List ℕ) (sizes : (n : ℕ) → length (fresh n) ≡ n) (hdr : FileHeader) (d : Disk)
    (h : IsDirect hdr) (f : Formatted d) (bytes : List ℕ) where
  -- The whole of them is read, over any buffer of their size.
  pub read_at-BeginsWith :
      (buf : List ℕ)
      → length buf ≡ length bytes
      → BeginsWith hdr d bytes
      → (got : List ℕ) × (read_at fresh (length bytes) 0 hdr d ≡ ok (length bytes, got))
        × (put_bytes got 0 buf ≡ bytes)
        × (0 + length got ≤ length buf)
  read_at-BeginsWith buf size w =
      let (got, runs, part) =
        read_at-IsPart fresh sizes h f (length bytes) 0 (omega (arith, w.fits, h.small)) in
      let n : min (length bytes) (hdr.num_bytes - 0) ≡ length bytes = omega (arith, w.fits) in
      let room : 0 + length got ≤ length buf = omega (arith, part.size, size) in
      (
        got,
        runs ∙ ap (λ k. ok (k, got)) n,
        same_list (put_bytes got 0 buf) bytes (omega (arith, length-put_bytes got 0 buf, size))
            (λ j lt.
              let put = get_or-put_bytes got 0 buf j room in
              let its = part.each j (omega (arith, lt, n, length-put_bytes got 0 buf, size)) in
              let from_zero : contents hdr d (0 + j) ≡ contents hdr d j =
                ap (contents hdr d) (omega arith) in
              let to_zero : get_or got (j - 0) 0 ≡ get_or got j 0 =
                ap (λ k. get_or got k 0) (omega arith) in
              let held = w.each j (omega (arith, lt, length-put_bytes got 0 buf, size)) in
              let within : j < length bytes = omega (arith, lt, length-put_bytes got 0 buf, size) in
              ground (arith, put, its, from_zero, to_zero, held, within, part.size, n)),
        room,
      )

  pub write_at-BeginsWith :
      length bytes ≤ hdr.num_bytes
      → (d' : Disk) × (write_at fresh bytes (length bytes) 0 hdr d ≡ ok (length bytes, d'))
        × BeginsWith hdr d' bytes
        × Written hdr d (length bytes) 0 bytes d'
  write_at-BeginsWith fits =
      let (d', runs, w) =
        write_at-Written fresh sizes d h f bytes (length bytes) 0 (omega arith)
          (omega (arith, fits, h.small)) in
      let n : min (length bytes) (hdr.num_bytes - 0) ≡ length bytes = omega (arith, fits) in
      let all : Written hdr d (length bytes) 0 bytes d' =
        subst (λ k. Written hdr d k 0 bytes d') n w in
      (
        d',
        runs ∙ ap (λ k. ok (k, d')) n,
        record {
          fits = fits;
          each = λ p lt.
              let to_zero : get_or bytes (p - 0) 0 ≡ get_or bytes p 0 =
                ap (λ k. get_or bytes k 0) (omega arith) in
              ground (arith, all.bytes p (omega (arith, lt, fits)), to_zero, lt);
        },
        all,
      )
