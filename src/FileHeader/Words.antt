-- ===== src/FileHeader/Words.antt =====
-- The words of a bitmap stay 32-bit patterns under the operations that change it.
use nachos_3_4_lab.Prelude.{
  ℕ, zero, suc, ◌+◌, ◌-◌, ◌/◌, ◌%◌, ◌^◌, ◌<◌, ◌⊎◌, ◌≡◌, subst, List, [], ◌∷◌, Bool, true, false,
  Option, ltb, if◌then◌else◌, get_or, set, length, replicate, arith, inl, inr,
}
use nachos_3_4_lab.Prelude.Outcome.{Outcome, ok, in_array, assert, bind_inverse}
use nachos_3_4_lab.Prelude.Bits.{bit_or_bound, bit_and_le}
use nachos_3_4_lab.BitMap.{BitMap, word, mark, clear, test, find_from, find, clear_from, init}
use nachos_3_4_lab.Disk.{Disk, ints_bytes, sector_size, write_sector}
use nachos_3_4_lab.BitMap.{div_round_up, num_clear, clear_from, init}
use nachos_3_4_lab.FileHeader.{
  FileHeader, find_all, allocate_first, allocate, found_int, num_direct, need_direct,
  ints_per_sector, release, release_all,
}
use nachos_3_4_lab.FileHeader.Stored.{AreInts}

pub AreInts-set : (vs : List ℕ) (i v : ℕ) → v < 2 ^ 32 → AreInts vs → AreInts (set vs i v)
unfolding AreInts
AreInts-set [] i v lt h = tt
AreInts-set (w ∷ vs) zero v lt (_, h) = (lt, h)
AreInts-set (w ∷ vs) (suc i) v lt (here, h) = (here, AreInts-set vs i v lt h)

pub AreInts-get_or : (vs : List ℕ) (i : ℕ) → AreInts vs → get_or vs i 0 < 2 ^ 32
unfolding AreInts
AreInts-get_or [] i h = omega arith
AreInts-get_or (w ∷ vs) zero (here, h) = here
AreInts-get_or (w ∷ vs) (suc i) (here, h) = AreInts-get_or vs i h

pub each-AreInts : (vs : List ℕ) → ((i : ℕ) → i < length vs → get_or vs i 0 < 2 ^ 32) → AreInts vs
unfolding AreInts
each-AreInts [] h = tt
each-AreInts (w ∷ vs) h = (h 0 (omega arith), each-AreInts vs λ i lt. h (suc i) (omega arith))

-- The word that an operation has written.
set-AreInts :
    (m m' : BitMap) (i w : ℕ)
    → AreInts m.words
    → w < 2 ^ 32
    → ok (record m { words = set m.words i w }) ≡ ok m'
    → AreInts m'.words
set-AreInts m m' i w h lt e =
    let same : set m.words i w ≡ m'.words = cc in subst AreInts same (AreInts-set m.words i w lt h)

pub mark-AreInts : (i : ℕ) (m m' : BitMap) → AreInts m.words → mark i m ≡ ok m' → AreInts m'.words
unfolding mark
mark-AreInts i m m' h e =
    let (_, _, done) = bind_inverse (assert (ltb i m.num_bits)) _ m' e in
    set-AreInts m m' (i / 32) _ h
      (bit_or_bound (i % 32) 32 (word m (i / 32)) (omega arith) (AreInts-get_or m.words (i / 32) h))
      done

pub clear-AreInts : (i : ℕ) (m m' : BitMap) → AreInts m.words → clear i m ≡ ok m' → AreInts m'.words
unfolding clear
clear-AreInts i m m' h e =
    let (_, _, done) = bind_inverse (assert (ltb i m.num_bits)) _ m' e in
    set-AreInts m m' (i / 32) _ h
      (omega (
        arith,
        bit_and_le (word m (i / 32)) (2 ^ 32 - 1 - 2 ^ (i % 32)),
        AreInts-get_or m.words (i / 32) h,
      ))
      done

either :
    (b : Bool) (x y : Outcome (Option ℕ × BitMap)) (r : Option ℕ × BitMap)
    → elim b [ true ↦ x | false ↦ y ] ≡ ok r
    → (x ≡ ok r) ⊎ (y ≡ ok r)
either true x y r e = inl e
either false x y r e = inr e

find_from-AreInts :
    (n i : ℕ) (m : BitMap) (r : Option ℕ × BitMap)
    → AreInts m.words
    → find_from n i m ≡ ok r
    → AreInts r.1.words
unfolding find_from
find_from-AreInts zero i m r h e = let same : m.words ≡ r.1.words = cc in subst AreInts same h
find_from-AreInts (suc n) i m r h e =
    let (used, _, rest) = bind_inverse (test i m) _ r e in
    elim (either used (find_from n (i + 1) m) _ r rest) [
      | inl later ↦ find_from-AreInts n (i + 1) m r h later
      | inr here ↦
          let (m', marked, done) = bind_inverse (mark i m) _ r here in
          let same : m'.words ≡ r.1.words = cc in subst AreInts same (mark-AreInts i m m' h marked)
    ]

pub find-AreInts :
    (m : BitMap) (r : Option ℕ × BitMap) → AreInts m.words → find m ≡ ok r → AreInts r.1.words
unfolding find
find-AreInts m r h e = find_from-AreInts m.num_bits 0 m r h e

pub find_all-AreInts :
    (n i : ℕ) (a : List ℕ) (m : BitMap) (r : List ℕ × BitMap)
    → AreInts m.words
    → find_all n i a m ≡ ok r
    → AreInts r.1.words
unfolding find_all
find_all-AreInts zero i a m r h e = let same : m.words ≡ r.1.words = cc in subst AreInts same h
find_all-AreInts (suc n) i a m r h e =
    let (found, runs, rest) = bind_inverse (find m) _ r e in
    let (_, _, rest₂) = bind_inverse (in_array (ltb i (length a))) _ r rest in
    find_all-AreInts n (i + 1) _ found.1 r (find-AreInts m found h runs) rest₂

allocate_first-AreInts :
    (n : ℕ) (a : List ℕ) (m : BitMap) (d : Disk) (r : List ℕ × BitMap × Disk)
    → AreInts m.words
    → allocate_first n a m d ≡ ok r
    → AreInts r.1.words
unfolding allocate_first
allocate_first-AreInts n a m d r h e =
    let (found, runs, rest) = bind_inverse (find m) _ r e in
    let (_, _, rest₂) = bind_inverse (in_array (ltb num_direct (length a))) _ r rest in
    let (listed, runs₂, rest₃) =
      bind_inverse (find_all (n - num_direct) 0 (replicate ints_per_sector 0) found.1) _ r rest₂ in
    let (d', _, done) =
      bind_inverse (write_sector (found_int found.0) (ints_bytes listed.0) d) _ r rest₃ in
    let same : listed.1.words ≡ r.1.words = cc in
    subst AreInts same (
      find_all-AreInts (n - num_direct) 0 (replicate ints_per_sector 0) found.1 listed
        (find-AreInts m found h runs) runs₂)

-- The second half of `Allocate`, if there is one.
index_block-AreInts :
    (b : Bool) (n : ℕ) (x : List ℕ × BitMap) (d : Disk) (r : List ℕ × BitMap × Disk)
    → AreInts x.1.words
    → (if b then allocate_first n x.0 x.1 d else ok (x.0, x.1, d)) ≡ ok r
    → AreInts r.1.words
index_block-AreInts true n x d r h e = allocate_first-AreInts n x.0 x.1 d r h e
index_block-AreInts false n x d r h e =
    let same : x.1.words ≡ r.1.words = cc in subst AreInts same h

sufficed :
    (b : Bool) (x : Bool × FileHeader × BitMap × Disk)
    (y : Outcome (Bool × FileHeader × BitMap × Disk)) (r : Bool × FileHeader × BitMap × Disk)
    → (if b then ok x else y) ≡ ok r
    → (x ≡ r) ⊎ (y ≡ ok r)
sufficed true x y r e = inl (cc)
sufficed false x y r e = inr e

pub allocate-AreInts :
    (size : ℕ) (now : List ℕ) (hdr : FileHeader) (m : BitMap) (d : Disk)
    (r : Bool × FileHeader × BitMap × Disk)
    → AreInts m.words
    → allocate size now hdr m d ≡ ok r
    → AreInts r.2.words
unfolding allocate
allocate-AreInts size now hdr m d r h e =
    let n : ℕ = div_round_up size sector_size in
    let (count, _, rest) = bind_inverse (num_clear m) _ r e in
    elim (sufficed (ltb count n) _ _ r rest) [
      | inl few ↦ let same : m.words ≡ r.2.words = cc in subst AreInts same h
      | inr enough ↦
          let (x, runs, rest₂) =
            bind_inverse (find_all (need_direct n) 0 hdr.data_sectors m) _ r enough in
          let (y, runs₂, done) =
            bind_inverse (if ltb num_direct n then allocate_first n x.0 x.1 d else ok (x.0, x.1, d))
              _ r rest₂ in
          let same : y.1.words ≡ r.2.words = cc in
          subst AreInts same (
            index_block-AreInts (ltb num_direct n) n x d y
              (find_all-AreInts (need_direct n) 0 hdr.data_sectors m x h runs) runs₂)
    ]

release-AreInts : (i : ℕ) (m m' : BitMap) → AreInts m.words → release i m ≡ ok m' → AreInts m'.words
unfolding release
release-AreInts i m m' h e =
    let (used, _, rest) = bind_inverse (test i m) _ m' e in
    let (_, _, done) = bind_inverse (assert used) _ m' rest in clear-AreInts i m m' h done

pub release_all-AreInts :
    (n i : ℕ) (a : List ℕ) (m m' : BitMap)
    → AreInts m.words
    → release_all n i a m ≡ ok m'
    → AreInts m'.words
unfolding release_all
release_all-AreInts zero i a m m' h e = let same : m.words ≡ m'.words = cc in subst AreInts same h
release_all-AreInts (suc n) i a m m' h e =
    let (_, _, rest) = bind_inverse (in_array (ltb i (length a))) _ m' e in
    let (m₁, runs, rest₂) = bind_inverse (release (get_or a i 0) m) _ m' rest in
    release_all-AreInts n (i + 1) a m₁ m' (release-AreInts (get_or a i 0) m m₁ h runs) rest₂

clear_from-AreInts :
    (n i : ℕ) (m m' : BitMap) → AreInts m.words → clear_from n i m ≡ ok m' → AreInts m'.words
unfolding clear_from
clear_from-AreInts zero i m m' h e = let same : m.words ≡ m'.words = cc in subst AreInts same h
clear_from-AreInts (suc n) i m m' h e =
    let (m₁, cleared, rest) = bind_inverse (clear i m) _ m' e in
    clear_from-AreInts n (i + 1) m₁ m' (clear-AreInts i m m₁ h cleared) rest

pub init-AreInts :
    (n : ℕ) (fresh : List ℕ) (m : BitMap) → AreInts fresh → init n fresh ≡ ok m → AreInts m.words
unfolding init
init-AreInts n fresh m h e = clear_from-AreInts n 0 _ m h e
