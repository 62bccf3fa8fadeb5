-- ===== src/Directory/Names.antt =====
-- Names are compared by their first `FileNameMaxLen` bytes, and what is stored compares alike.
use nachos_3_4_lab.Prelude.{
  ℕ, zero, suc, ◌≡◌, refl, [], ◌++◌, true, ◌==◌, arith, drop, replicate, Bool-cases, inl, inr,
}
use nachos_3_4_lab.Directory.{Name, same_name, padded, strncpy, first_byte, rest}

pub same_name_refl : (n : ℕ) (a : Name) → same_name n a a ≡ true
unfolding same_name
same_name_refl zero a = refl
same_name_refl (suc n) a = ground (arith, same_name_refl n (rest a))

pub same_name_symm : (n : ℕ) (a b : Name) → same_name n a b ≡ same_name n b a
unfolding same_name
same_name_symm zero a b = refl
same_name_symm (suc n) a b = ground (arith, same_name_symm n (rest a) (rest b))

pub same_name_trans :
    (n : ℕ) (a b c : Name)
    → same_name n a b ≡ true
    → same_name n b c ≡ true
    → same_name n a c ≡ true
unfolding same_name
same_name_trans zero a b c p q = refl
same_name_trans (suc n) a b c p q = ground (arith, same_name_trans n (rest a) (rest b) (rest c))

-- Alike names are alike to every third one.
pub same_name-congr :
    (n : ℕ) (a b c : Name) → same_name n a b ≡ true → same_name n a c ≡ same_name n b c
same_name-congr n a b c p =
    ground (arith, same_name_trans n a b c, same_name_trans n b a c, same_name_symm n a b)

same_zeros : (n : ℕ) (t : Name) → same_name n (replicate n 0 ++ t) [] ≡ true
unfolding same_name
same_zeros zero t = refl
same_zeros (suc n) t = refl

-- The stored copy of a name is alike to the name.
pub same_name-padded : (n : ℕ) (s t : Name) → same_name n (padded n s ++ t) s ≡ true
unfolding same_name padded
same_name-padded zero s t = refl
same_name-padded (suc n) s t = elim (Bool-cases (first_byte s == 0)) [
  | inl ended ↦ rw ended (ground arith)
  | inr more ↦ rw more (ground (arith, same_name-padded n (rest s) t))
]

pub same_name-strncpy : (n : ℕ) (dst s : Name) → same_name n (strncpy dst s n) s ≡ true
unfolding strncpy
same_name-strncpy n dst s = same_name-padded n s (drop n dst)
