-- ===== src/Directory.antt =====
-- filesys/directory.cc: a fixed table of entries, each a name and the sector of a file header.
-- A `char *` is the list of its bytes; past its end stands the terminating 0.
pub mod Names
pub mod Lookup
pub mod Unique
use nachos_3_4_lab.Prelude.{
  ℕ, zero, suc, ◌+◌, ◌-◌, ◌^◌, ◌<◌, List, [], ◌∷◌, ◌++◌, map, Bool, true, false, not, ◌&&◌, Option,
  none, some, ◌==◌, if◌then◌else◌, length, drop, replicate,
}

-- `FileNameMaxLen`
abbrev pub file_name_max_len : ℕ
file_name_max_len = 11

-- The `int` -1, as a bit pattern.
abbrev pub minus_one : ℕ
minus_one = 2 ^ 32 - 1

abbrev pub Name : Type 0
Name = List ℕ

-- `DirectoryEntry`; `name` has `FileNameMaxLen + 1` bytes.
pub record Entry : Type 0 where
  pub type : Bool
  pub in_use : Bool
  pub sector : ℕ
  pub name : Name

-- The entries of `table`, of which there are `tableSize`.
pub record Directory : Type 0 where
  pub table : List Entry

abbrev pub first_byte : Name → ℕ
first_byte [] = 0
first_byte (c ∷ s) = c

abbrev pub rest : Name → Name
rest [] = []
rest (c ∷ s) = s

-- `strncmp(a, b, n) == 0`
unfoldable pub same_name : ℕ → Name → Name → Bool
same_name zero a b = true
same_name (suc n) a b =
    let more = same_name n (rest a) (rest b) in
    if first_byte a == first_byte b then (if first_byte a == 0 then true else more) else false

-- The `n` bytes that `strncpy(_, s, n)` writes: `s` up to its end, and zeros.
unfoldable pub padded : ℕ → Name → Name
padded zero s = []
padded (suc n) s =
    if first_byte s == 0 then replicate (suc n) 0 else first_byte s ∷ padded n (rest s)

-- `strncpy(dst, src, n)`
unfoldable pub strncpy : Name → Name → ℕ → Name
unfolding padded
strncpy dst src n = padded n src ++ drop n dst

-- `bzero(dst, n)`
unfoldable pub bzero : Name → ℕ → Name
bzero dst n = replicate n 0 ++ drop n dst

abbrev pub blank : Entry → Entry
blank e = record e { in_use = false; name = replicate (file_name_max_len + 1) 0 }

-- The constructor; `fresh` is what `new DirectoryEntry[size]` holds before the initialisers run.
unfoldable pub init : List Entry → Directory
init fresh = record { table = map blank fresh }

abbrev pub holds : Name → Entry → Bool
holds name e = e.in_use && same_name file_name_max_len e.name name

-- `Directory::FindIndex`, with its loop; `none` is the result -1.
unfoldable pub find_index_from : ℕ → Name → List Entry → Option ℕ
find_index_from i name [] = none
find_index_from i name (e ∷ es) = if holds name e then some i else find_index_from (i + 1) name es

unfoldable pub find_index : Name → Directory → Option ℕ
unfolding find_index_from
find_index name d = find_index_from 0 name d.table

abbrev pub sector_at : List Entry → ℕ → ℕ
sector_at [] i = 0
sector_at (e ∷ es) zero = e.sector
sector_at (e ∷ es) (suc i) = sector_at es i

-- `Directory::Find`
unfoldable pub find : Name → Directory → ℕ
find name d = elim (find_index name d) [ none ↦ minus_one | some i ↦ sector_at d.table i ]

-- The loop of `Add`: the first free entry is filled, if there is one.
unfoldable pub add_from : Name → ℕ → List Entry → Bool × List Entry
unfolding strncpy
add_from name new_sector [] = (false, [])
add_from name new_sector (e ∷ es) =
    if not e.in_use
    then (
      true,
      record e { in_use = true; name = strncpy e.name name file_name_max_len; sector = new_sector }
          ∷ es,
    )
    else (let (done, es') = add_from name new_sector es in (done, e ∷ es'))

-- `Directory::Add`
unfoldable pub add : Name → ℕ → Directory → Bool × Directory
unfolding add_from
add name new_sector d = elim (find_index name d) [
  | some i ↦ (false, d)
  | none ↦
      (let (done, table) = add_from name new_sector d.table in (done, record { table = table }))
]

abbrev pub free_entry : Entry → Entry
free_entry e = record e { in_use = false; name = bzero e.name file_name_max_len }

abbrev pub free_at : List Entry → ℕ → List Entry
free_at [] i = []
free_at (e ∷ es) zero = free_entry e ∷ es
free_at (e ∷ es) (suc i) = e ∷ free_at es i

-- `Directory::Remove`
unfoldable pub remove : Name → Directory → Bool × Directory
remove name d = elim (find_index name d) [
  | none ↦ (false, d)
  | some i ↦ (true, record { table = free_at d.table i })
]
