-- ===== src/FileSystem/Flush.antt =====
-- Writing a directory and a map back leaves the disk mounted with them.
use nachos_3_4_lab.Prelude.{ℕ, ◌≡◌, ◌∙◌, sym, List, length, arith}
use nachos_3_4_lab.Prelude.Outcome.{ok}
use nachos_3_4_lab.BitMap.{BitMap}
use nachos_3_4_lab.Directory.{Directory}
use nachos_3_4_lab.Directory.Unique.{IsUnique}
use nachos_3_4_lab.Disk.{Disk}
use nachos_3_4_lab.OpenFile.Contents.{Formatted, sector_at}
use nachos_3_4_lab.Storage.{write_map, write_table}
use nachos_3_4_lab.Storage.Codec.{AreEntries, write_map-BeginsWith, write_table-BeginsWith}
use nachos_3_4_lab.FileSystem.{FileSystem}
use nachos_3_4_lab.FileSystem.Mounted.{
  Outside, Layout, MapsDisk, Mounted, MapsDisk-IsStorable, MapsDisk-num_words, BeginsWith-frame,
}

module _ {n : ℕ} (fresh : ℕ → List ℕ) (sizes : (k : ℕ) → length (fresh k) ≡ k) (fs : FileSystem)
    (dir : Directory) (m : BitMap) (d : Disk) (layout : Layout n fs) (formatted : Formatted d)
    (entries : AreEntries dir.table) (num_entries : length dir.table ≡ n) (unique : IsUnique dir)
    (maps : MapsDisk fs m) where
  -- The order of `Create`.
  pub table_then_map :
      (d₁ : Disk) × (d₂ : Disk) × (write_table fresh fs.directory_file dir d ≡ ok d₁)
      × (write_map fresh fs.free_map_file m d₁ ≡ ok d₂)
      × Mounted n fs dir m d₂
      × ((k : ℕ) → Outside fs.free_map_file.hdr k → Outside fs.directory_file.hdr k → d₂ k ≡ d k)
  table_then_map =
      let (d₁, runs₁, held₁, all₁) =
        write_table-BeginsWith fresh sizes fs.directory_file d layout.dir_direct formatted dir
          entries (omega (arith, layout.dir_room, num_entries)) in
      let (d₂, runs₂, held₂, all₂) =
        write_map-BeginsWith fresh sizes fs.free_map_file d₁ layout.map_direct all₁.formatted m
          (MapsDisk-IsStorable maps) (omega (arith, layout.map_room, MapsDisk-num_words maps)) in
      (
        d₁,
        d₂,
        runs₁,
        runs₂,
        record {
          layout = layout;
          formatted = all₂.formatted;
          entries = entries;
          num_entries = num_entries;
          unique = unique;
          maps = maps;
          dir_held =
              BeginsWith-frame d₂
                (λ j used.
                  all₂.elsewhere (sector_at fs.directory_file.hdr j)
                    (λ i used' e. layout.apart i used' j used (sym e)))
                held₁;
          map_held = held₂;
        },
        λ k out_map out_dir. all₂.elsewhere k out_map ∙ all₁.elsewhere k out_dir,
      )

  -- The order of `Remove`.
  pub map_then_table :
      (d₁ : Disk) × (d₂ : Disk) × (write_map fresh fs.free_map_file m d ≡ ok d₁)
      × (write_table fresh fs.directory_file dir d₁ ≡ ok d₂)
      × Mounted n fs dir m d₂
      × ((k : ℕ) → Outside fs.free_map_file.hdr k → Outside fs.directory_file.hdr k → d₂ k ≡ d k)
  map_then_table =
      let (d₁, runs₁, held₁, all₁) =
        write_map-BeginsWith fresh sizes fs.free_map_file d layout.map_direct formatted m
          (MapsDisk-IsStorable maps) (omega (arith, layout.map_room, MapsDisk-num_words maps)) in
      let (d₂, runs₂, held₂, all₂) =
        write_table-BeginsWith fresh sizes fs.directory_file d₁ layout.dir_direct all₁.formatted dir
          entries (omega (arith, layout.dir_room, num_entries)) in
      (
        d₁,
        d₂,
        runs₁,
        runs₂,
        record {
          layout = layout;
          formatted = all₂.formatted;
          entries = entries;
          num_entries = num_entries;
          unique = unique;
          maps = maps;
          map_held =
              BeginsWith-frame d₂
                (λ j used. all₂.elsewhere (sector_at fs.free_map_file.hdr j) (layout.apart j used))
                held₁;
          dir_held = held₂;
        },
        λ k out_map out_dir. all₂.elsewhere k out_dir ∙ all₁.elsewhere k out_map,
      )
