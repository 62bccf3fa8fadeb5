-- ===== src/Storage/Entries.antt =====
-- `Add` and `Remove` keep the number of entries and the sizes of their fields.
use nachos_3_4_lab.Prelude.{
  ℕ, zero, suc, ◌^◌, ◌<◌, ◌≡◌, refl, ap, List, [], ◌∷◌, ◌==◌, length, length-append, length-drop,
  length-replicate, replicate, drop, arith, Bool-cases, Option-cases, inl, inr,
}
use nachos_3_4_lab.Directory
use nachos_3_4_lab.Directory.{
  Name, Entry, Directory, first_byte, rest, padded, strncpy, bzero, add_from, free_at, free_entry,
  find_index,
}
use nachos_3_4_lab.Storage.Codec.{AreEntries}

length-padded : (n : ℕ) (s : Name) → length (padded n s) ≡ n
unfolding padded
length-padded zero s = refl
length-padded (suc n) s = elim (Bool-cases (first_byte s == 0)) [
  | inl e ↦ rw e (length-replicate (suc n) 0)
  | inr e ↦ rw e (ap suc (length-padded n (rest s)))
]

length-strncpy : (dst s : Name) → length dst ≡ 12 → length (strncpy dst s 11) ≡ 12
unfolding strncpy
length-strncpy dst s size =
    omega (
      arith,
      size,
      length-append (padded 11 s) (drop 11 dst),
      length-padded 11 s,
      length-drop 11 dst,
    )

length-bzero : (dst : Name) → length dst ≡ 12 → length (bzero dst 11) ≡ 12
unfolding bzero
length-bzero dst size =
    let zeros : length (replicate {A = ℕ} 11 0) ≡ 11 = refl in
    omega
      (arith, size, length-append (replicate {A = ℕ} 11 0) (drop 11 dst), zeros, length-drop 11 dst)

-- A table of the same size, with fields of their sizes.
abbrev Sound : List Entry → List Entry → Type 0
Sound es es' = AreEntries es' × (length es' ≡ length es)

add_from-Sound :
    (name : Name) (s : ℕ) (es : List Entry)
    → s < 2 ^ 32
    → AreEntries es
    → Sound es (add_from name s es).1
unfolding add_from AreEntries
add_from-Sound name s [] lt h = (tt, refl)
add_from-Sound name s (e ∷ es) lt (here, size, h) =
    let (sound, same) = add_from-Sound name s es lt h in
    elim (Bool-cases e.in_use) [
      | inl used ↦ rw used ((here, size, sound), ap suc same)
      | inr free ↦ rw free ((lt, length-strncpy e.name name size, h), refl)
    ]

pub add-Sound :
    (name : Name) (s : ℕ) (d : Directory)
    → s < 2 ^ 32
    → AreEntries d.table
    → AreEntries (Directory.add name s d).1.table
      × (length (Directory.add name s d).1.table ≡ length d.table)
unfolding Directory.add
add-Sound name s d lt h = elim (Option-cases (find_index name d)) [
  | inl e ↦ rw (Directory.add, e) (add_from-Sound name s d.table lt h)
  | inr (i, e) ↦ rw (Directory.add, e) (h, refl)
]

free_at-Sound : (es : List Entry) (i : ℕ) → AreEntries es → Sound es (free_at es i)
unfolding AreEntries
free_at-Sound [] i h = (tt, refl)
free_at-Sound (e ∷ es) zero (here, size, h) = ((here, length-bzero e.name size, h), refl)
free_at-Sound (e ∷ es) (suc i) (here, size, h) =
    let (sound, same) = free_at-Sound es i h in ((here, size, sound), ap suc same)

pub remove-Sound :
    (name : Name) (d : Directory)
    → AreEntries d.table
    → AreEntries (Directory.remove name d).1.table
      × (length (Directory.remove name d).1.table ≡ length d.table)
unfolding Directory.remove
remove-Sound name d h = elim (Option-cases (find_index name d)) [
  | inl e ↦ rw (Directory.remove, e) (h, refl)
  | inr (i, e) ↦ rw (Directory.remove, e) (free_at-Sound d.table i h)
]
