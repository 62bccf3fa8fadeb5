-- ===== src/AddressSpace/Exit.antt =====
-- The system calls that end a program.
use nachos_3_4_lab.Prelude.{
  ℕ, ◌+◌, ◌<◌, ◌≡◌, ◌∙◌, refl, ap, List, [], ◌∷◌, map, Bool, true, ◌==◌, Option, some, none,
  if◌then◌else◌, length, get_or, set, arith, Bool-cases, inl, inr,
}
use nachos_3_4_lab.Prelude.Outcome.{Outcome, ok, abort, wild, ◌>>=◌}
use nachos_3_4_lab.BitMap.{BitMap}
use nachos_3_4_lab.BitMap.Laws.{IsValid, bit}
use nachos_3_4_lab.Machine.{Machine, TranslationEntry, read_register, write_register}
use nachos_3_4_lab.AddressSpace.{
  halts, finishes, system_call, increment_pc_regs, clear_all, clear_frames, clear_frame,
}
use nachos_3_4_lab.AddressSpace.Frames.{
  pages_on, Chain, Chain-bits, Chain-in_range, clear_frames-pages_on,
}

bind_same {ℓ κ} :
    {A : Type ℓ} {B : Type κ} (r : Outcome A) (f g : A → Outcome B)
    → ((a : A) → f a ≡ g a)
    → (r >>= f) ≡ (r >>= g)
bind_same (ok a) f g same = same a
bind_same abort f g same = refl
bind_same wild f g same = refl

-- What is cleared depends on the frames of the entries only.
clear_frames_same :
    (i : ℕ) (a : List ℕ) (table : List TranslationEntry) (frames : BitMap)
    → map (λ e. e.physical_page) table ≡ a
    → clear_frames (length a) table frames ≡ clear_frames (length a) (pages_on i a) frames
unfolding clear_frames
clear_frames_same i [] table frames same = refl
clear_frames_same i (frame ∷ a) [] frames same = cc
clear_frames_same i (frame ∷ a) (e ∷ table) frames same =
    let first : e.physical_page ≡ frame = cc in
    let rest : map (λ t. t.physical_page) table ≡ a = cc in
    bind_same (clear_frame e.physical_page frames) (clear_frames (length a) table)
      (clear_frames (length a) (pages_on (i + 1) a))
      (λ frames'. clear_frames_same (i + 1) a table frames' rest)
    ∙ ap (λ k. clear_frame k frames >>= clear_frames (length a) (pages_on (i + 1) a)) first

pub frames_of-pages_on : (i : ℕ) (a : List ℕ) → map (λ e. e.physical_page) (pages_on i a) ≡ a
frames_of-pages_on i [] = refl
frames_of-pages_on i (frame ∷ a) = ap (λ l. frame ∷ l) (frames_of-pages_on (i + 1) a)

-- The table that `ClearAll` goes through.
abbrev pub table_in_use : Bool → Machine → Option (List TranslationEntry)
table_in_use use_tlb m = if use_tlb then m.tlb else m.page_table

module _ (use_tlb : Bool) (m : Machine) (table : List TranslationEntry) (a : List ℕ)
    (frames frames₁ : BitMap) (taken : Chain frames a frames₁) (valid : IsValid frames₁)
    (same_bits : frames₁.num_bits ≡ frames.num_bits) (in_use : table_in_use use_tlb m ≡ some table)
    (same : map (λ e. e.physical_page) table ≡ a) (size : m.page_table_size ≡ length a) where
  clear_all-Chain :
      (frames₂ : BitMap) × (clear_all use_tlb m frames₁ ≡ ok frames₂)
      × ((s : ℕ) → bit frames₂ s ≡ bit frames s)
  unfolding clear_all
  clear_all-Chain =
      let (frames₂, cleared, _, _, bits) = clear_frames-pages_on 0 a frames₁ valid (λ k lt.
        let there = Chain-in_range frames frames₁ a k taken lt in
        omega (arith, there, same_bits)) in
      (
        frames₂,
        rw (size) (
            ap (λ t. clear_frames (length a) (elim t [ none ↦ [] | some es ↦ es ]) frames₁) in_use
            ∙ clear_frames_same 0 a table frames₁ same
            ∙ cleared),
        λ s. ground (arith, bits s, Chain-bits frames frames₁ a s taken),
      )

  -- If frames were taken one by one from a map, the map afterwards is valid, and the table in use,
  -- the TLB or the page table, has an entry on each of them in order and as many as the machine has
  -- on record, then at a system call with the number 0 or 1 the handler halts or finishes the
  -- thread, moves the program counter to the next one in the latter case only, and the map has the
  -- bits that it had before the frames were taken.
  pub system_call-clear_all :
      get_or m.registers 2 0 < 2
      → (frames₂ : BitMap) × (system_call use_tlb m frames₁
          ≡ ok (
            (if get_or m.registers 2 0 == 0 then halts else finishes),
            (if get_or m.registers 2 0 == 0
                then m
                else record m { registers = set m.registers 34 (get_or m.registers 35 0) }),
            frames₂,
          ))
        × ((s : ℕ) → bit frames₂ s ≡ bit frames s)
  unfolding system_call increment_pc_regs read_register write_register
  system_call-clear_all known =
      let (frames₂, cleared, bits) = clear_all-Chain in
      elim (Bool-cases (get_or m.registers 2 0 == 0)) [
        | inl halting ↦ (frames₂, rw (halting, cleared) refl, bits)
        | inr other ↦
            let exiting : (get_or m.registers 2 0 == 1) ≡ true = ground (arith, known, other) in
            (frames₂, rw (other, exiting, cleared) refl, bits)
      ]
