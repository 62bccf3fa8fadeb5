-- ===== src/FileHeader/Release.antt =====
-- What `Deallocate` gives back, and the round trip with `Allocate`.
use nachos_3_4_lab.Prelude.{
  ℕ, zero, suc, ◌+◌, ◌<◌, ◌≤◌, ◌≡◌, refl, ◌∙◌, List, true, false, not, ◌&&◌, get_or, length, arith,
  lt→ltb, ltb,
}
use nachos_3_4_lab.Prelude.Outcome.{ok, abort}
use nachos_3_4_lab.BitMap.{BitMap}
use nachos_3_4_lab.BitMap.Laws.{IsValid, bit, Update, test-bit, clear-Update, out_of_range}
use nachos_3_4_lab.Disk.{Disk}
use nachos_3_4_lab.FileHeader.{FileHeader, release, release_all, deallocate}
use nachos_3_4_lab.FileHeader.Slice.{in_slice, Distinct}

-- `m'` is `m` without the numbers of a stretch of `a`.
pub record Released (m : BitMap) (i n : ℕ) (a : List ℕ) (m' : BitMap) : Type 0 where
  pub valid : IsValid m'
  pub same_bits : m'.num_bits ≡ m.num_bits
  pub bits : (s : ℕ) → bit m' s ≡ (bit m s && not (in_slice a i n s))

-- A sector in use is released; a free one, or one that is not there, stops the program.
pub release-Update :
    {m : BitMap} (s : ℕ)
    → IsValid m
    → s < m.num_bits
    → bit m s ≡ true
    → (m' : BitMap) × (release s m ≡ ok m') × Update m s false m'
unfolding release
release-Update s v h used =
    let (m', runs, u) = clear-Update s v h in (m', rw (test-bit s v h, used, runs), u)

pub release_free :
    {m : BitMap} (s : ℕ) → IsValid m → s < m.num_bits → bit m s ≡ false → release s m ≡ abort
unfolding release
release_free s v h was = rw (test-bit s v h, was)

pub release_outside : (m : BitMap) (s : ℕ) → m.num_bits ≤ s → release s m ≡ abort
unfolding release
release_outside m s h = rw ((out_of_range m s h).2)

Released-cons :
    {m m₁ m' : BitMap} {n i : ℕ} {a : List ℕ}
    → Update m (get_or a i 0) false m₁
    → Released m₁ (i + 1) n a m'
    → Released m i (suc n) a m'
Released-cons u r = record {
  valid = r.valid;
  same_bits = r.same_bits ∙ u.same_bits;
  bits = λ s. unfold in_slice in ground (arith, r.bits s, u.bits s);
}

-- Distinct sectors in use are all released.
pub release_all-Released :
    (n i : ℕ) (a : List ℕ) {m : BitMap}
    → IsValid m
    → i + n ≤ length a
    → Distinct a i n
    → ((j : ℕ) → i ≤ j → j < i + n → (get_or a j 0 < m.num_bits) × (bit m (get_or a j 0) ≡ true))
    → (m' : BitMap) × (release_all n i a m ≡ ok m') × Released m i n a m'
unfolding release_all
release_all-Released zero i a {m} v room d used =
    (m, refl, record { valid = v; same_bits = refl; bits = λ s. unfold in_slice in ground arith })
release_all-Released (suc n) i a {m} v room d used =
    let here : (get_or a i 0 < m.num_bits) × (bit m (get_or a i 0) ≡ true) =
      used i (omega arith) (omega arith) in
    let (m₁, runs, u) = release-Update (get_or a i 0) v here.0 here.1 in
    let (m', loop, r) =
      release_all-Released n (i + 1) a {m = m₁} u.valid (omega arith)
        (λ j k p q h. d j k (omega arith) q (omega arith))
        (λ j p q. ground (
          arith,
          used j (omega arith) (omega arith),
          u.same_bits,
          u.bits (get_or a j 0),
          d i j (omega arith) (omega arith) (omega arith),
        )) in
    (m', rw (lt→ltb i (length a) (omega arith), runs) loop, Released-cons u r)

-- `Deallocate` of a header that lists all its sectors.
pub deallocate_direct :
    (hdr : FileHeader) (m : BitMap) {m' : BitMap} (d : Disk)
    → hdr.num_sectors ≤ 14
    → release_all hdr.num_sectors 0 hdr.data_sectors m ≡ ok m'
    → deallocate hdr m d ≡ ok m'
unfolding deallocate
deallocate_direct hdr m d few runs =
    let short : ltb 14 hdr.num_sectors ≡ false = ground (arith, few) in rw (short, runs) refl
