-- ===== src/FileSystem/Refused.antt =====
-- What `Create` that returns FALSE leaves behind.
use nachos_3_4_lab.Prelude.{
  ℕ, ◌⊎◌, ◌≡◌, refl, ◌∙◌, Bool, true, false, not, Option, none, some, inl, inr, ltb, ◌==◌, List,
  if◌then◌else◌,
}
use nachos_3_4_lab.Prelude.Outcome.{Outcome, ok, bind_inverse}
use nachos_3_4_lab.BitMap
use nachos_3_4_lab.BitMap.{BitMap, div_round_up, num_clear}
use nachos_3_4_lab.Directory
use nachos_3_4_lab.Directory.{Directory, Name, minus_one}
use nachos_3_4_lab.Disk.{Disk, sector_size}
use nachos_3_4_lab.FileHeader.{
  FileHeader, allocate, find_all, allocate_first, need_direct, num_direct,
}
use nachos_3_4_lab.FileHeader.Stored.{write_back}
use nachos_3_4_lab.Storage.{write_map, write_table}
use nachos_3_4_lab.FileSystem.{
  Host, FileSystem, load_directory, load_map, create_data, create_entry, create_file,
}

same_disk :
    (b : Bool) (d d' : Disk) → Path (Outcome (Bool × Disk)) (ok (b, d)) (ok (false, d')) → d' ≡ d
same_disk b d d' e = cc

-- An early return, or the rest.
early_or_later :
    (b : Bool) (d d' : Disk) (x : Outcome (Bool × Disk))
    → (if b then ok (false, d) else x) ≡ ok (false, d')
    → (d' ≡ d) ⊎ ((b ≡ false) × (x ≡ ok (false, d')))
early_or_later true d d' x e = inl (same_disk false d d' e)
early_or_later false d d' x e = inr (refl, e)

abbrev AllocateResult : Type 0
AllocateResult = Bool × FileHeader × BitMap × Disk

refused_or_later :
    (b : Bool) (hdr : FileHeader) (m : BitMap) (d : Disk) (y : Outcome AllocateResult)
    (x : AllocateResult)
    → (if b then ok (false, hdr, m, d) else y) ≡ ok x
    → (x.3 ≡ d) ⊎ (y ≡ ok x)
refused_or_later true hdr m d y x e = inl (cc)
refused_or_later false hdr m d y x e = inr e

not_refused :
    (hdr : FileHeader) (m : BitMap) (d : Disk) (x : AllocateResult)
    → ok (true, hdr, m, d) ≡ ok x
    → ¬ (x.0 ≡ false)
not_refused hdr m d x e refused = let done : x.0 ≡ true = cc in cc

-- `Allocate` that returns FALSE has not written to the disk.
allocate-refused :
    (size : ℕ) (now : List ℕ) (hdr : FileHeader) (m : BitMap) (d : Disk) (x : AllocateResult)
    → allocate size now hdr m d ≡ ok x
    → x.0 ≡ false
    → x.3 ≡ d
unfolding allocate
allocate-refused size now hdr m d x e refused =
    let n : ℕ = div_round_up size sector_size in
    let (count, _, rest) = bind_inverse (num_clear m) _ _ e in
    elim (refused_or_later (ltb count (div_round_up size sector_size)) _ m d _ x rest) [
      | inl same ↦ same
      | inr enough ↦
          let (first, _, rest₂) =
            bind_inverse (find_all (need_direct n) 0 hdr.data_sectors m) _ _ enough in
          let (second, _, done) =
            bind_inverse
              (if ltb num_direct n
                then allocate_first n first.0 first.1 d
                else ok (first.0, first.1, d))
              _ _ rest₂ in
          absurd (not_refused _ _ _ x done refused)
    ]

written_back :
    (b : Bool) (d d₁ d' : Disk) (x : Outcome (Bool × Disk))
    → (b ≡ false → d₁ ≡ d)
    → (x ≡ ok (false, d') → d' ≡ d)
    → (if not b then ok (false, d₁) else x) ≡ ok (false, d')
    → d' ≡ d
written_back true d d₁ d' x early later e = later e
written_back false d d₁ d' x early later e = same_disk false d₁ d' e ∙ early refl

create_data-refused :
    (h : Host) (fs : FileSystem) (sector size : ℕ) (dir : Directory) (m : BitMap) (d d' : Disk)
    → create_data h fs sector size dir m d ≡ ok (false, d')
    → d' ≡ d
unfolding create_data
create_data-refused h fs sector size dir m d d' e =
    let (x, a, rest) = bind_inverse (allocate size h.now h.fresh_header m d) _ _ e in
    written_back x.0 d x.3 d' _ (allocate-refused size h.now h.fresh_header m d x a)
      (λ later.
        let (d₂, _, rest₂) = bind_inverse (write_back sector x.1 x.3) _ _ later in
        let (d₃, _, rest₃) =
          bind_inverse (write_table h.fresh fs.directory_file dir d₂) _ _ rest₂ in
        let (d₄, _, rest₄) = bind_inverse (write_map h.fresh fs.free_map_file x.2 d₃) _ _ rest₃ in
        absurd (cc))
      rest

create_entry-refused :
    (h : Host) (fs : FileSystem) (name : Name) (size : ℕ) (found : Option ℕ) (dir : Directory)
    (m : BitMap) (d d' : Disk)
    → create_entry h fs name size found dir m d ≡ ok (false, d')
    → d' ≡ d
unfolding create_entry
create_entry-refused h fs name size none dir m d d' e = same_disk false d d' e
create_entry-refused h fs name size (some sector) dir m d d' e =
    elim (early_or_later (not (Directory.add name sector dir).0) d d'
      (create_data h fs sector size (Directory.add name sector dir).1 m d) e) [
        | inl same ↦ same
        | inr (_, later) ↦
            create_data-refused h fs sector size (Directory.add name sector dir).1 m d d' later
      ]

-- If `Create` returns FALSE, for whichever reason, the disk is as it was.
pub create_file-refused :
    (h : Host) (fs : FileSystem) (name : Name) (size : ℕ) (d d' : Disk)
    → create_file h fs name size d ≡ ok (false, d')
    → d' ≡ d
unfolding create_file
create_file-refused h fs name size d d' e =
    let (dir, _, rest) = bind_inverse (load_directory h fs d) _ _ e in
    elim (early_or_later (not (Directory.find name dir == minus_one)) d d' _ rest) [
      | inl same ↦ same
      | inr (_, later) ↦
          let (m, _, rest₂) = bind_inverse (load_map h fs d) _ _ later in
          let ((found, m'), _, rest₃) = bind_inverse (BitMap.find m) _ _ rest₂ in
          create_entry-refused h fs name size found dir m' d d' rest₃
    ]
