-- ===== src/Directory/Lookup.antt =====
-- A directory as a map from names to sectors: what each operation does to `lookup`.
use nachos_3_4_lab.Prelude.{
  ℕ, suc, ◌+◌, ◌<◌, length, ◌≡◌, refl, subst, List, [], ◌∷◌, Bool, true, false, ◌&&◌, Option, none,
  some, if◌then◌else◌, arith, Bool-cases, Option-cases, inl, inr, map,
}
use nachos_3_4_lab.Directory.{
  Name, Entry, Directory, minus_one, same_name, strncpy, holds, find_index_from, find_index,
  sector_at, find, add_from, add, init, blank,
}
use nachos_3_4_lab.Directory.Names.{same_name_symm, same_name-congr, same_name-strncpy}

-- Two names that the directory takes for one: they agree in their first eleven bytes.
abbrev pub alike : Name → Name → Bool
alike = same_name 11

-- The sector of the first entry in use under a name.
unfoldable pub lookup_in : Name → List Entry → Option ℕ
lookup_in name [] = none
lookup_in name (e ∷ es) = if holds name e then some e.sector else lookup_in name es

unfoldable pub lookup : Name → Directory → Option ℕ
unfolding lookup_in
lookup name d = lookup_in name d.table

-- What a lookup means as the `int` that `Find` returns.
abbrev pub as_int : Option ℕ → ℕ
as_int none = minus_one
as_int (some s) = s

-- The index that the loop finds, against `lookup_in`.
abbrev Index : Name → List Entry → ℕ → Option ℕ → Type 0
Index name es i none = lookup_in name es ≡ none
Index name es i (some j) = (k : ℕ) × (j ≡ i + k) × (lookup_in name es ≡ some (sector_at es k))

shift-Index :
    (name : Name) (e : Entry) (es : List Entry) (i : ℕ) (r : Option ℕ)
    → holds name e ≡ false
    → Index name es (i + 1) r
    → Index name (e ∷ es) i r
unfolding lookup_in
shift-Index name e es i none miss h = rw miss h
shift-Index name e es i (some j) miss (k, at, found) = (suc k, omega arith, rw miss found)

find_index_from-Index :
    (i : ℕ) (name : Name) (es : List Entry) → Index name es i (find_index_from i name es)
unfolding find_index_from lookup_in
find_index_from-Index i name [] = refl
find_index_from-Index i name (e ∷ es) = elim (Bool-cases (holds name e)) [
  | inl hit ↦ rw hit (0, omega arith, rw hit)
  | inr miss ↦
      rw (miss, find_index_from)
        (shift-Index name e es i _ miss (find_index_from-Index (i + 1) name es))
]

pub find_index-none :
    (name : Name) (d : Directory) → find_index name d ≡ none → lookup name d ≡ none
unfolding find_index lookup
find_index-none name d e = subst (Index name d.table 0) e (find_index_from-Index 0 name d.table)

pub find_index-some :
    (name : Name) (d : Directory) (i : ℕ)
    → find_index name d ≡ some i
    → lookup name d ≡ some (sector_at d.table i)
unfolding find_index lookup
find_index-some name d i e =
    let (k, at, found) : Index name d.table 0 (some i) =
      subst (Index name d.table 0) e (find_index_from-Index 0 name d.table) in
    let same : i ≡ k = omega arith in rw (same) found

-- `Find` returns the sector of the name, or -1.
pub find-lookup : (name : Name) (d : Directory) → find name d ≡ as_int (lookup name d)
unfolding find
find-lookup name d = elim (Option-cases (find_index name d)) [
  | inl e ↦ rw (e, find, find_index-none name d e)
  | inr (i, e) ↦ rw (e, find, find_index-some name d i e)
]

-- Whether an entry is free.
abbrev pub has_room : List Entry → Bool
has_room [] = false
has_room (e ∷ es) = if e.in_use then has_room es else true

add_from-has_room : (name : Name) (s : ℕ) (es : List Entry) → (add_from name s es).0 ≡ has_room es
unfolding add_from
add_from-has_room name s [] = refl
add_from-has_room name s (e ∷ es) = ground (arith, add_from-has_room name s es)

filled :
    (name other : Name) (s : ℕ) (e : Entry)
    → holds other (record e { in_use = true; name = strncpy e.name name 11; sector = s })
      ≡ alike name other
filled name other s e =
    same_name-congr 11 (strncpy e.name name 11) name other (same_name-strncpy 11 e.name name)

-- A free slot filled under a name that no entry has.
pub lookup_in-add_from :
    (name other : Name) (s : ℕ) (es : List Entry)
    → lookup_in name es ≡ none
    → has_room es ≡ true
    → lookup_in other (add_from name s es).1
      ≡ (if alike name other then some s else lookup_in other es)
unfolding lookup_in add_from
lookup_in-add_from name other s [] none_yet room = cc
lookup_in-add_from name other s (e ∷ es) none_yet room = ground (
  arith,
  filled name other s e,
  same_name-congr 11 name other e.name,
  same_name_symm 11 e.name name,
  same_name_symm 11 e.name other,
  lookup_in-add_from name other s es,
)

pub add_from-full :
    (name : Name) (s : ℕ) (es : List Entry) → has_room es ≡ false → (add_from name s es).1 ≡ es
unfolding add_from
add_from-full name s [] full = refl
add_from-full name s (e ∷ es) full = ground (arith, add_from-full name s es)

-- Whether a lookup failed.
abbrev pub is_new : Option ℕ → Bool
is_new none = true
is_new (some s) = false

-- What `Add` of a name with a sector has done, and whether it succeeded.
pub record Added (name : Name) (s : ℕ) (d : Directory) (r : Bool × Directory) : Type 0 where
  pub success : r.0 ≡ (is_new (lookup name d) && has_room d.table)
  pub lookups :
      (other : Name)
      → lookup other r.1 ≡ (if r.0 && alike name other then some s else lookup other d)

-- `Add` of a name with a sector succeeds exactly if no entry in use agrees with the name in its
-- first eleven bytes and some entry is free; afterwards each name that agrees with it there leads
-- to the sector if it succeeded, and every other lookup is as before.
pub add-Added : (name : Name) (s : ℕ) (d : Directory) → Added name s d (add name s d)
unfolding add
add-Added name s d = elim (Option-cases (find_index name d)) [
  | inl e ↦
      rw (e, add)
        (record {
          success = rw (find_index-none name d e) (add_from-has_room name s d.table);
          lookups = λ other. unfold lookup in after other (find_index-none name d e);
        })
  | inr (i, e) ↦
      rw (e, add) (record { success = rw (find_index-some name d i e); lookups = λ other. refl })
]
  where
    after :
        (other : Name)
        → lookup name d ≡ none
        → lookup other (record { table = (add_from name s d.table).1 })
          ≡ (if (add_from name s d.table).0 && alike name other then some s else lookup other d)
    after other new =
        unfold lookup in
        ground (
          arith,
          add_from-has_room name s d.table,
          add_from-full name s d.table,
          lookup_in-add_from name other s d.table,
        )

lookup_in-blank : (name : Name) (es : List Entry) → lookup_in name (map blank es) ≡ none
unfolding lookup_in
lookup_in-blank name [] = refl
lookup_in-blank name (e ∷ es) = lookup_in-blank name es

-- A new directory that has entries has room.
pub init-has_room :
    (fresh : List Entry) → 0 < length (init fresh).table → has_room (init fresh).table ≡ true
unfolding init
init-has_room [] h = absurd (omega arith)
init-has_room (e ∷ es) h = refl

-- A new directory has no name.
pub lookup-init : (name : Name) (fresh : List Entry) → lookup name (init fresh) ≡ none
unfolding lookup init
lookup-init name fresh = lookup_in-blank name fresh
