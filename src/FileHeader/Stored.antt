-- ===== src/FileHeader/Stored.antt =====
-- `FileHeader::FetchFrom` and `FileHeader::WriteBack`: the header is its own sector, field after
-- field.
use nachos_3_4_lab.Prelude.{
  ℕ, zero, suc, ◌+◌, ◌*◌, ◌/◌, ◌%◌, ◌^◌, ◌<◌, ◌≡◌, ◌≢◌, ◌∙◌, refl, ap, ap₂, List, [], ◌∷◌, ◌++◌,
  lt→ltb, ◌==◌, if◌then◌else◌, ==_refl, length, length-append, get_or, take, drop, arith,
}
use nachos_3_4_lab.Prelude.Outcome.{Outcome, ok, ◌>>=◌}
use nachos_3_4_lab.Disk.{Disk, Sector, read_sector, write_sector, int_bytes, ints_bytes}
use nachos_3_4_lab.FileHeader.{FileHeader}

-- The `int` at the start of the bytes, and the first `n` of them.
abbrev pub first_int : List ℕ → ℕ
first_int b = get_or b 0 0 + 256 * get_or b 1 0 + 65536 * get_or b 2 0 + 16777216 * get_or b 3 0

unfoldable pub first_ints : ℕ → List ℕ → List ℕ
first_ints zero b = []
first_ints (suc n) b = first_int b ∷ first_ints n (drop 4 b)

-- `(char *) this`
unfoldable pub to_bytes : FileHeader → Sector
to_bytes hdr =
    int_bytes hdr.num_bytes
    ++ (int_bytes hdr.num_sectors
        ++ (hdr.create_time
            ++ (hdr.update_time ++ (hdr.access_time ++ ints_bytes hdr.data_sectors))))

unfoldable pub from_bytes : Sector → FileHeader
from_bytes b =
    let times = drop 8 b in
    record {
      num_bytes = first_int b;
      num_sectors = first_int (drop 4 b);
      create_time = take 20 times;
      update_time = take 20 (drop 20 times);
      access_time = take 20 (drop 20 (drop 20 times));
      data_sectors = first_ints 15 (drop 20 (drop 20 (drop 20 times)));
    }

unfoldable pub fetch_from : ℕ → Disk → Outcome FileHeader
fetch_from sector d = do b ← read_sector sector d; ok (from_bytes b)

unfoldable pub write_back : ℕ → FileHeader → Disk → Outcome Disk
write_back sector hdr d = write_sector sector (to_bytes hdr) d

-- All are `int`s.
unfoldable pub AreInts : List ℕ → Type 0
AreInts [] = Unit {0}
AreInts (v ∷ vs) = (v < 2 ^ 32) × AreInts vs

-- A header with fields of their sizes.
pub record FitsSector (hdr : FileHeader) : Type 0 where
  pub bytes_int : hdr.num_bytes < 2 ^ 32
  pub sectors_int : hdr.num_sectors < 2 ^ 32
  pub create_size : length hdr.create_time ≡ 20
  pub update_size : length hdr.update_time ≡ 20
  pub access_size : length hdr.access_time ≡ 20
  pub entries_size : length hdr.data_sectors ≡ 15
  pub entries_int : AreInts hdr.data_sectors

pub take-append : (n : ℕ) (xs ys : List ℕ) → length xs ≡ n → take n (xs ++ ys) ≡ xs
take-append zero [] ys e = refl
take-append zero (x ∷ xs) ys e = absurd (omega (arith, e))
take-append (suc n) [] ys e = absurd (omega (arith, e))
take-append (suc n) (x ∷ xs) ys e = ap (λ t. x ∷ t) (take-append n xs ys (omega (arith, e)))

pub drop-append : (n : ℕ) (xs ys : List ℕ) → length xs ≡ n → drop n (xs ++ ys) ≡ ys
drop-append zero [] ys e = refl
drop-append zero (x ∷ xs) ys e = absurd (omega (arith, e))
drop-append (suc n) [] ys e = absurd (omega (arith, e))
drop-append (suc n) (x ∷ xs) ys e = drop-append n xs ys (omega (arith, e))

pub first_int_bytes :
    (v : ℕ)
    → v < 2 ^ 32
    → v % 256 + 256 * (v / 256 % 256) + 65536 * (v / 65536 % 256) + 16777216 * (v / 16777216 % 256)
      ≡ v
first_int_bytes v lt = omega arith

pub first_ints-ints_bytes :
    (n : ℕ) (vs : List ℕ) → length vs ≡ n → AreInts vs → first_ints n (ints_bytes vs) ≡ vs
unfolding first_ints ints_bytes AreInts
first_ints-ints_bytes zero [] e h = refl
first_ints-ints_bytes zero (v ∷ vs) e h = absurd (omega (arith, e))
first_ints-ints_bytes (suc n) [] e h = absurd (omega (arith, e))
first_ints-ints_bytes (suc n) (v ∷ vs) e (lt, h) =
    ap₂ (λ x xs. x ∷ xs) (first_int_bytes v lt) (first_ints-ints_bytes n vs (omega (arith, e)) h)

pub length-ints_bytes : (vs : List ℕ) → length (ints_bytes vs) ≡ 4 * length vs
unfolding ints_bytes
length-ints_bytes [] = refl
length-ints_bytes (v ∷ vs) = omega (arith, length-ints_bytes vs)

length_times :
    (c u a e : List ℕ)
    → length c ≡ 20
    → length u ≡ 20
    → length a ≡ 20
    → length (c ++ (u ++ (a ++ e))) ≡ 60 + length e
length_times c u a e lc lu la = omega (
  arith,
  lc,
  lu,
  la,
  length-append c (u ++ (a ++ e)),
  length-append u (a ++ e),
  length-append a e,
)

pub length-to_bytes : (hdr : FileHeader) → FitsSector hdr → length (to_bytes hdr) ≡ 128
unfolding to_bytes
length-to_bytes hdr h =
    let entries : List ℕ = ints_bytes hdr.data_sectors in
    let all =
      length_times hdr.create_time hdr.update_time hdr.access_time entries h.create_size
        h.update_size h.access_size in
    omega (arith, all, h.entries_size, length-ints_bytes hdr.data_sectors)

-- Headers with the same fields.
same_header :
    {a a' b b' : ℕ} {c c' u u' t t' s s' : List ℕ}
    → a ≡ a'
    → b ≡ b'
    → c ≡ c'
    → u ≡ u'
    → t ≡ t'
    → s ≡ s'
    → Path FileHeader
        (record {
          num_bytes = a;
          num_sectors = b;
          create_time = c;
          update_time = u;
          access_time = t;
          data_sectors = s;
        })
        (record {
          num_bytes = a';
          num_sectors = b';
          create_time = c';
          update_time = u';
          access_time = t';
          data_sectors = s';
        })
same_header p q r v w x = rw (p, q, r, v, w, x) refl

pub from_bytes-to_bytes : (hdr : FileHeader) → FitsSector hdr → from_bytes (to_bytes hdr) ≡ hdr
unfolding from_bytes to_bytes
from_bytes-to_bytes hdr h =
    let entries : List ℕ = ints_bytes hdr.data_sectors in
    let r₂ : List ℕ = hdr.access_time ++ entries in
    let r₁ : List ℕ = hdr.update_time ++ r₂ in
    let d₁ = drop-append 20 hdr.create_time r₁ h.create_size in
    let d₂ = ap (drop 20) d₁ ∙ drop-append 20 hdr.update_time r₂ h.update_size in
    let d₃ = ap (drop 20) d₂ ∙ drop-append 20 hdr.access_time entries h.access_size in
    same_header (first_int_bytes hdr.num_bytes h.bytes_int)
      (first_int_bytes hdr.num_sectors h.sectors_int)
      (take-append 20 hdr.create_time r₁ h.create_size)
      (ap (take 20) d₁ ∙ take-append 20 hdr.update_time r₂ h.update_size)
      (ap (take 20) d₂ ∙ take-append 20 hdr.access_time entries h.access_size)
      (ap (first_ints 15) d₃
        ∙ first_ints-ints_bytes 15 hdr.data_sectors h.entries_size h.entries_int)

-- If the numbers of a header are 32-bit patterns, its times 20 bytes each, its entries fifteen and
-- the sector is one of the disk, then `WriteBack` fills that sector with 128 bytes and changes no
-- other, and `FetchFrom` there gives back the header.
pub write_back-fetch_from :
    (sector : ℕ) (hdr : FileHeader) (d : Disk)
    → sector < 1024
    → FitsSector hdr
    → (d' : Disk) × (write_back sector hdr d ≡ ok d')
      × (fetch_from sector d' ≡ ok hdr)
      × (length (d' sector) ≡ 128)
      × ((k : ℕ) → k ≢ sector → d' k ≡ d k)
unfolding write_back fetch_from write_sector read_sector
write_back-fetch_from sector hdr d lt h = (
  (λ k. if k == sector then to_bytes hdr else d k),
  rw (lt→ltb sector 1024 lt) refl,
  rw (lt→ltb sector 1024 lt, ==_refl sector) (ap ok (from_bytes-to_bytes hdr h)),
  rw (==_refl sector) (length-to_bytes hdr h),
  λ k other. ground (arith, other),
)
