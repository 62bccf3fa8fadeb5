-- ===== src/Machine/Translate/Entry.antt =====
-- One entry: an aligned access stays on its page, so the last ASSERT of `Translate` never fails.
use nachos_3_4_lab.Prelude.{
  ℕ, ◌+◌, ◌*◌, ◌%◌, ◌<◌, ◌≤◌, ◌≡◌, ◌⊎◌, inl, inr, Bool, true, false, ◌&&◌, ◌||◌, arith, leb,
  if◌then◌else◌, Bool-cases,
}
use nachos_3_4_lab.Prelude.Outcome.{ok}
use nachos_3_4_lab.Prelude.Bits.{bit_and_odd, bit_and_three}
use nachos_3_4_lab.Machine.{Exception, TranslationEntry, read_only, bus_error}
use nachos_3_4_lab.Machine.Translate.{fault, address, misaligned, use_entry}

-- The sizes of a memory access.
abbrev pub IsSize : ℕ → Type 0
IsSize size = (size ≡ 1) ⊎ (size ≡ 2) ⊎ (size ≡ 4)

pub misaligned-false :
    (v : ℕ) {size : ℕ}
    → IsSize size
    → misaligned v size ≡ false
    → (v % size ≡ 0) × (v % 128 + size ≤ 128)
unfolding misaligned
misaligned-false v (inl e) h = rw e (omega arith, omega arith)
misaligned-false v (inr (inl e)) h =
    let even : v % 2 ≡ 0 = ground (arith, bit_and_odd v) in rw e (even, omega arith)
misaligned-false v (inr (inr e)) h =
    let fourth : v % 4 ≡ 0 = ground (arith, bit_and_three v) in rw e (fourth, omega arith)

pub misaligned-true : (v : ℕ) {size : ℕ} → IsSize size → misaligned v size ≡ true → ¬ (v % size ≡ 0)
unfolding misaligned
misaligned-true v (inl e) h = ground arith
misaligned-true v (inr (inl e)) h = rw e (ground (arith, bit_and_odd v))
misaligned-true v (inr (inr e)) h = rw e (ground (arith, bit_and_three v))

-- Whether an entry admits an access.
abbrev pub Admits : Bool → TranslationEntry → Type 0
Admits writing e = ((e.read_only && writing) ≡ false) × (e.physical_page < 32)

-- The entry after an access.
abbrev pub touched : Bool → TranslationEntry → TranslationEntry
touched writing e = record e { use_bit = true; dirty = writing || e.dirty }

-- The exception at one that does not.
abbrev pub refusal : Bool → TranslationEntry → Exception
refusal writing e = if e.read_only && writing then read_only else bus_error

abbrev pub EntryCase : (offset size : ℕ) → Bool → TranslationEntry → Type 0
EntryCase offset size writing e =
    (Admits writing e
      × (use_entry offset size writing e
          ≡ ok (address (e.physical_page * 128 + offset), touched writing e)))
    ⊎ ((¬ Admits writing e) × (use_entry offset size writing e ≡ ok (fault (refusal writing e), e)))

pub use_entry-cases :
    (offset size : ℕ) (writing : Bool) (e : TranslationEntry)
    → offset + size ≤ 128
    → EntryCase offset size writing e
unfolding use_entry
use_entry-cases offset size writing e fits = elim (Bool-cases (e.read_only && writing)) [
  | inl locked ↦ inr ((λ a. ground (arith, a.0)), rw locked)
  | inr open_to ↦ elim (Bool-cases (leb 32 e.physical_page)) [
    | inl high ↦ inr ((λ a. ground (arith, a.1)), rw (open_to, high))
    | inr low ↦ inl ((open_to, ground arith), ground arith)
  ]
]
