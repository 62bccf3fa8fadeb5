-- ===== src/FileSystem/Find.antt =====
-- `Open` on a mounted disk.
use nachos_3_4_lab.Prelude.{ℕ, ◌^◌, ◌<◌, ◌≡◌, ◌∙◌, sym, ap, some, lt→ltb}
use nachos_3_4_lab.Prelude.Outcome.{ok}
use nachos_3_4_lab.BitMap.{BitMap}
use nachos_3_4_lab.Directory
use nachos_3_4_lab.Directory.{Directory, Name}
use nachos_3_4_lab.Directory.Lookup.{lookup, as_int, find-lookup}
use nachos_3_4_lab.Disk.{Disk}
use nachos_3_4_lab.FileHeader.Stored.{fetch_from}
use nachos_3_4_lab.OpenFile.{OpenFile, open_at}
use nachos_3_4_lab.FileSystem.{Host, FileSystem, open_file}
use nachos_3_4_lab.FileSystem.Mounted.{IsHost, Mounted, load_directory-Mounted}

pub find-some :
    (name : Name) (dir : Directory) (s : ℕ) → lookup name dir ≡ some s → Directory.find name dir ≡ s
find-some name dir s there = find-lookup name dir ∙ ap as_int there

-- An open file whose position is 0, by its parts.
at_zero :
    (f : OpenFile)
    → f.seek_position ≡ 0
    → Path OpenFile (record { hdr = f.hdr; seek_position = 0; hdr_sector = f.hdr_sector }) f
at_zero f e = ap (λ p. record { hdr = f.hdr; seek_position = p; hdr_sector = f.hdr_sector }) (sym e)

module _ {n : ℕ} {h : Host} {fs : FileSystem} {dir : Directory} {m : BitMap} {d : Disk}
    (host : IsHost n h) (w : Mounted n fs dir m d) (name : Name) where
  -- A file whose header the directory leads to.
  pub open_file-Mounted :
      (f : OpenFile)
      → lookup name dir ≡ some f.hdr_sector
      → f.hdr_sector < 2 ^ 31
      → fetch_from f.hdr_sector d ≡ ok f.hdr
      → f.seek_position ≡ 0
      → open_file h fs name d ≡ ok (some f)
  unfolding open_file open_at
  open_file-Mounted f there small stored start =
      rw
        (
          load_directory-Mounted host w,
          find-some name dir f.hdr_sector there,
          lt→ltb f.hdr_sector (2 ^ 31) small,
          stored,
        )
        (ap (λ g. ok (some g)) (at_zero f start))
