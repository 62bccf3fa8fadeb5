-- ===== src/AddressSpace/Registers.antt =====
-- The registers with which a program starts.
use nachos_3_4_lab.Prelude.{
  ℕ, zero, suc, ◌+◌, ◌-◌, ◌*◌, ◌%◌, ◌^◌, ◌<◌, ◌≤◌, ◌≡◌, ◌∙◌, refl, List, ◌&&◌, ltb, leb, ◌==◌,
  if◌then◌else◌, length, set, get_or, length-set, get_or-set, lt→ltb, arith,
}
use nachos_3_4_lab.Prelude.Outcome.{ok}
use nachos_3_4_lab.Machine.{Machine, write_register}
use nachos_3_4_lab.AddressSpace.{AddrSpace, zero_registers, init_registers}

-- The machine with other registers.
abbrev with_registers : Machine → List ℕ → Machine
with_registers m r = record m { registers = r }

zero_registers-zeroes :
    (n i : ℕ) (m : Machine) (r : List ℕ)
    → length r ≡ 40
    → i + n ≤ 40
    → (r' : List ℕ) × (zero_registers n i (with_registers m r) ≡ ok (with_registers m r'))
      × (length r' ≡ 40)
      × ((k : ℕ) → get_or r' k 0 ≡ (if leb i k && ltb k (i + n) then 0 else get_or r k 0))
unfolding zero_registers write_register
zero_registers-zeroes zero i m r size fits = (r, refl, size, λ k. ground arith)
zero_registers-zeroes (suc n) i m r size fits =
    let (r', runs, size', zeros) =
      zero_registers-zeroes n (i + 1) m (set r i 0) (length-set r i 0 ∙ size) (omega arith) in
    (
      r',
      rw (lt→ltb i 40 (omega arith), runs) refl,
      size',
      λ k. ground (arith, zeros k, get_or-set r i k 0 0 (omega (arith, size, fits))),
    )

-- If a machine has its 40 registers, `InitRegisters` succeeds and changes nothing else of it: the
-- next program counter is 4, the stack register is 16 below the end of the space, modulo 2 ^ 32,
-- and every other register is 0.
pub init_registers_lem :
    (s : AddrSpace) (m : Machine)
    → length m.registers ≡ 40
    → (m' : Machine) × (init_registers s m ≡ ok m')
      × (m' ≡ record m { registers = m'.registers })
      × ((k : ℕ)
          → k < 40
          → get_or m'.registers k 0 ≡ (
              if k == 35
              then 4
              else if k == 29
              then (s.num_pages * 128 + (2 ^ 32 - 16)) % 2 ^ 32
              else 0))
unfolding init_registers write_register
init_registers_lem s m size =
    let (r, runs, size₁, zeros) = zero_registers-zeroes 40 0 m m.registers size (omega arith) in
    let top : ℕ = (s.num_pages * 128 + (2 ^ 32 - 16)) % 2 ^ 32 in
    let r₃ : List ℕ = set (set (set r 34 0) 35 4) 29 top in
    (
      with_registers m r₃,
      rw (runs) refl,
      refl,
      λ k lt. ground (
        arith,
        lt,
        size₁,
        zeros k,
        get_or-set r 34 k 0 0 (omega (arith, size₁)),
        get_or-set (set r 34 0) 35 k 4 0 (omega (arith, size₁, length-set r 34 0)),
        get_or-set (set (set r 34 0) 35 4) 29 k top 0
            (omega (arith, size₁, length-set r 34 0, length-set (set r 34 0) 35 4)),
      ),
    )
