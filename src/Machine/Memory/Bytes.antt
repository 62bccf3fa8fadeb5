-- ===== src/Machine/Memory/Bytes.antt =====
-- What is stored at a physical address is read back.
use nachos_3_4_lab.Prelude.{
  ℕ, ◌+◌, ◌-◌, ◌/◌, ◌%◌, ◌^◌, ◌<◌, ◌≤◌, ◌≡◌, ◌∙◌, ◌⊎◌, List, inl, inr, arith, ltb, ◌==◌,
  if◌then◌else◌, length, get_or, set, length-set, get_or-set,
}
use nachos_3_4_lab.Prelude.Outcome.{ok}
use nachos_3_4_lab.Disk.{char_at}
use nachos_3_4_lab.Machine.Translate.Entry.{IsSize}
use nachos_3_4_lab.Machine.Memory.{load, store, number_at, set_bytes, set_two}

-- The number that a load of so many bytes makes of a stored one.
abbrev pub as_read : ℕ → ℕ → ℕ
as_read size value =
    if size == 1
    then (if ltb (value % 256) 128 then value % 256 else 2 ^ 32 - 256 + value % 256)
    else value % 256 ^ size

-- Two bytes at once.
set_two-get :
    (a v : ℕ) (bytes : List ℕ)
    → a + 2 ≤ length bytes
    → (length (set_two a v bytes) ≡ length bytes)
      × ((j : ℕ)
          → get_or (set_two a v bytes) j 0
            ≡ (if a + 1 == j then v / 256 % 256 else if a == j then v % 256 else get_or bytes j 0))
set_two-get a v bytes h =
    let one : length (set bytes a (v % 256)) ≡ length bytes = length-set bytes a (v % 256) in
    (
      length-set (set bytes a (v % 256)) (a + 1) (v / 256 % 256) ∙ one,
      λ j. ground (
        arith,
        get_or-set (set bytes a (v % 256)) (a + 1) j (v / 256 % 256) 0 (omega (arith, one)),
        get_or-set bytes a j (v % 256) 0 (omega arith),
      ),
    )

pub store-load :
    (a v : ℕ) {size : ℕ} (bytes : List ℕ)
    → IsSize size
    → a + size ≤ length bytes
    → (bytes' : List ℕ) × (store size a v bytes ≡ ok bytes')
      × (length bytes' ≡ length bytes)
      × (load size a bytes' ≡ ok (as_read size v))
      × ((j : ℕ) → (j < a) ⊎ (a + size ≤ j) → get_or bytes' j 0 ≡ get_or bytes j 0)
unfolding store load char_at number_at set_bytes
store-load a v {size} bytes (inl e) h =
    let put = get_or-set bytes a in
    (
      set bytes a (v % 256),
      ground arith,
      length-set bytes a (v % 256),
      ground (arith, put a (v % 256) 0 (omega arith), length-set bytes a (v % 256)),
      λ j k. ground (arith, put j (v % 256) 0 (omega arith)),
    )
store-load a v {size} bytes (inr (inl e)) h =
    let (same, get) = set_two-get a v bytes (omega arith) in
    (
      set_two a v bytes,
      ground arith,
      same,
      ground (arith, get a, get (a + 1)),
      λ j k. ground (arith, get j),
    )
store-load a v {size} bytes (inr (inr e)) h =
    let (same, get) = set_two-get a v bytes (omega arith) in
    let (same', get') = set_two-get (a + 2) (v / 65536) (set_two a v bytes) (omega (arith, same)) in
    (
      set_two (a + 2) (v / 65536) (set_two a v bytes),
      ground arith,
      same' ∙ same,
      ground (
        arith,
        get a,
        get (a + 1),
        get' a,
        get' (a + 1),
        get' (a + 2),
        get' (a + 3),
        same,
        same',
      ),
      λ j k. ground (arith, get j, get' j),
    )
