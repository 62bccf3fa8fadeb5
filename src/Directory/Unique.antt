-- ===== src/Directory/Unique.antt =====
-- No two entries in use have names that are alike; `Remove`.
use nachos_3_4_lab.Prelude.{
  ℕ, zero, suc, ◌+◌, ◌≡◌, refl, ◌∙◌, List, [], ◌∷◌, Bool, true, none, some, if◌then◌else◌, arith,
  Bool-cases, Option-cases, is_some, ◌≤◌, inl, inr, map,
}
use nachos_3_4_lab.Directory.{
  Name, Entry, Directory, strncpy, holds, find_index_from, find_index, add_from, add, remove, init,
  blank, free_at,
}
use nachos_3_4_lab.Directory.Names.{same_name_symm, same_name-congr, same_name-strncpy}
use nachos_3_4_lab.Directory.Lookup.{
  alike, lookup_in, lookup, has_room, find_index-none, find_index-some, add_from-full,
  lookup_in-add_from,
}

-- The entries in use have names of which no two are alike.
unfoldable pub Distinct : List Entry → Type 0
Distinct [] = Unit {0}
Distinct (e ∷ es) = (e.in_use ≡ true → lookup_in e.name es ≡ none) × Distinct es

abbrev pub IsUnique : Directory → Type 0
IsUnique d = Distinct d.table

pub init-IsUnique : (fresh : List Entry) → IsUnique (init fresh)
unfolding init Distinct
init-IsUnique fresh = blanks fresh
  where
    blanks : (es : List Entry) → Distinct (map blank es)
    blanks [] = tt
    blanks (e ∷ es) = ((λ h. cc), blanks es)

-- Alike names are looked up alike.
lookup_in-alike :
    (a b : Name) (es : List Entry) → alike a b ≡ true → lookup_in a es ≡ lookup_in b es
unfolding lookup_in
lookup_in-alike a b [] h = refl
lookup_in-alike a b (e ∷ es) h = ground (
  arith,
  same_name-congr 11 a b e.name,
  same_name_symm 11 e.name a,
  same_name_symm 11 e.name b,
  lookup_in-alike a b es h,
)

pub lookup-alike : (a b : Name) (d : Directory) → alike a b ≡ true → lookup a d ≡ lookup b d
unfolding lookup
lookup-alike a b d h = lookup_in-alike a b d.table h

-- Freeing the entry that the loop finds.
record Freed (name : Name) (es es' : List Entry) : Type 0 where
  distinct : Distinct es'
  lookups :
      (other : Name) → lookup_in other es' ≡ (if alike name other then none else lookup_in other es)

find_index_from-ge :
    (name : Name) (es : List Entry) (i j : ℕ) → find_index_from i name es ≡ some j → i ≤ j
unfolding find_index_from
find_index_from-ge name [] i j found = cc
find_index_from-ge name (e ∷ es) i j found = ground (arith, find_index_from-ge name es (i + 1) j)

free_at-Freed :
    (name : Name) (es : List Entry) (i j k : ℕ)
    → Distinct es
    → find_index_from i name es ≡ some j
    → j ≡ i + k
    → Freed name es (free_at es k)
unfolding find_index_from lookup_in Distinct
free_at-Freed name [] i j k d found at = cc
free_at-Freed name (e ∷ es) i j zero d found at = elim (Bool-cases (holds name e)) [
  | inl hit ↦ record {
    distinct = ((λ h. cc), d.1);
    lookups = λ other. ground (
      arith,
      d.0 (ground arith),
      lookup_in-alike e.name other es,
      same_name-congr 11 e.name name other,
    );
  }
  | inr miss ↦
      let late : i + 1 ≤ j = find_index_from-ge name es (i + 1) j (rw miss at found) in
      absurd (omega arith)
]
free_at-Freed name (e ∷ es) i j (suc k) d found at = elim (Bool-cases (holds name e)) [
  | inl hit ↦ absurd (ground arith)
  | inr miss ↦
      let f : Freed name es (free_at es k) =
        free_at-Freed name es (i + 1) j k d.1 (rw miss at found) (omega arith) in
      record {
        distinct = ((λ used. ground (arith, d.0 used, f.lookups e.name)), f.distinct);
        lookups = λ other. ground (
          arith,
          f.lookups other,
          same_name-congr 11 name other e.name,
          same_name_symm 11 name e.name,
          same_name_symm 11 other e.name,
        );
      }
]

-- What `Remove` of a name has done, and whether it succeeded.
pub record Removed (name : Name) (d : Directory) (r : Bool × Directory) : Type 0 where
  pub success : r.0 ≡ is_some (lookup name d)
  pub unique : IsUnique r.1
  pub lookups :
      (other : Name) → lookup other r.1 ≡ (if alike name other then none else lookup other d)

-- If no two entries in use agree in their first eleven bytes, `Remove` of a name succeeds exactly
-- if the name is there, the entries still do not agree, no name that agrees with the removed one is
-- there any more, and every other lookup is as before.
pub remove-Removed : (name : Name) (d : Directory) → IsUnique d → Removed name d (remove name d)
unfolding remove
remove-Removed name d u = elim (Option-cases (find_index name d)) [
  | inl e ↦
      let missing : lookup_in name d.table ≡ none = unfold lookup in find_index-none name d e in
      rw (e, remove)
        (record {
          success = rw (find_index-none name d e);
          unique = u;
          lookups =
              λ other. unfold lookup in ground (arith, missing, lookup_in-alike name other d.table);
        })
  | inr (i, e) ↦
      let f : Freed name d.table (free_at d.table i) =
        free_at-Freed name d.table 0 i i u (unfold find_index in e) (omega arith) in
      rw (e, remove)
        (record {
          success = rw (find_index-some name d i e);
          unique = f.distinct;
          lookups = λ other. unfold lookup in f.lookups other;
        })
]

add_from-Distinct :
    (name : Name) (s : ℕ) (es : List Entry)
    → Distinct es
    → lookup_in name es ≡ none
    → Distinct (add_from name s es).1
unfolding add_from Distinct lookup_in
add_from-Distinct name s [] d new = tt
add_from-Distinct name s (e ∷ es) d new = elim (Bool-cases e.in_use) [
  | inl used ↦ rw used (
    (λ _. elim (Bool-cases (has_room es)) [
      | inl room ↦ ground (
        arith,
        d.0 used,
        same_name_symm 11 name e.name,
        lookup_in-add_from name e.name s es (ground arith) room,
      )
      | inr full ↦ rw (add_from-full name s es full) (d.0 used)
    ]),
    add_from-Distinct name s es d.1 (ground arith),
  )
  | inr free ↦ rw free (
    (λ h.
        lookup_in-alike (strncpy e.name name 11) name es (same_name-strncpy 11 e.name name)
        ∙ ground arith),
    d.1,
  )
]

-- If no two entries in use agree in their first eleven bytes, then none do after `Add`, whether it
-- succeeds or not.
pub add-IsUnique : (name : Name) (s : ℕ) (d : Directory) → IsUnique d → IsUnique (add name s d).1
unfolding add
add-IsUnique name s d u = elim (Option-cases (find_index name d)) [
  | inl e ↦
      rw (e, add) (add_from-Distinct name s d.table u (unfold lookup in find_index-none name d e))
  | inr (i, e) ↦ rw (e, add) u
]
