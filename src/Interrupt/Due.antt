-- ===== src/Interrupt/Due.antt =====
-- The loop over the interrupts that are due comes to an end.
use nachos_3_4_lab.Prelude.{
  ℕ, zero, suc, ◌+◌, ◌<◌, ◌≤◌, ◌≡◌, ◌∙◌, refl, ap, List, [], ◌∷◌, true, false, ltb, if◌then◌else◌,
  arith, Bool-cases, inl, inr, ltb→lt, ◌⊎◌,
}
use nachos_3_4_lab.Prelude.Outcome.{Outcome, ok}
use nachos_3_4_lab.Interrupt.{
  int_off, system_mode, PendingInterrupt, Interrupt, is_off, is_idle, insert_pending, fire,
  fire_unless_done, check_first, check_pending, check_if_due, run_due,
}

-- How many are due at a time.
unfoldable pub due : ℕ → List PendingInterrupt → ℕ
due now [] = 0
due now (p ∷ ps) = (if ltb now p.when then 0 else 1) + due now ps

-- In order of time.
unfoldable pub Sorted : List PendingInterrupt → Type 0
Sorted [] = Unit {0}
Sorted (p ∷ []) = Unit {0}
Sorted (p ∷ q ∷ ps) = (p.when ≤ q.when) × Sorted (q ∷ ps)

pub Sorted-rest : (p : PendingInterrupt) (ps : List PendingInterrupt) → Sorted (p ∷ ps) → Sorted ps
unfolding Sorted
Sorted-rest p [] h = tt
Sorted-rest p (q ∷ ps) h = h.1

due_later :
    (now : ℕ) (p : PendingInterrupt) (ps : List PendingInterrupt)
    → Sorted (p ∷ ps)
    → now < p.when
    → due now (p ∷ ps) ≡ 0
unfolding Sorted due
due_later now p [] h later = ground arith
due_later now p (q ∷ ps) (le, h) later = ground (arith, due_later now q ps h (omega arith))

pub due-insert_pending :
    (now : ℕ) (p : PendingInterrupt) (ps : List PendingInterrupt)
    → due now (insert_pending p ps) ≡ due now (p ∷ ps)
unfolding insert_pending due
due-insert_pending now p [] = refl
due-insert_pending now p (q ∷ ps) = ground (arith, due-insert_pending now p ps)

-- What a handler is trusted with: it returns, leaves the clock and the level as they are, keeps the
-- order, and schedules nothing that is due already.
pub record IsDevice (handle : PendingInterrupt → Interrupt → Outcome Interrupt)
    (p : PendingInterrupt) (i i' : Interrupt) : Type 0 where
  pub returns : handle p i ≡ ok i'
  pub same_level : i'.level ≡ i.level
  pub same_time : i'.total_ticks ≡ i.total_ticks
  pub in_order : Sorted i'.pending
  pub later : due i'.total_ticks i'.pending ≡ due i.total_ticks i.pending

-- The handlers are trusted up to the time `end`.
module _ (end : ℕ) (handle : PendingInterrupt → Interrupt → Outcome Interrupt)
    (device : (p : PendingInterrupt) (i : Interrupt)
      → i.in_handler ≡ true
      → i.total_ticks < end
      → Sorted i.pending
      → (i' : Interrupt) × IsDevice handle p i i') where
  -- One check: nothing is due, or one interrupt less is.
  Checked : List PendingInterrupt → Interrupt → Type 0
  Checked ps i =
      ((i' : Interrupt) × (check_pending handle false ps i ≡ ok (false, i'))
        × (due i'.total_ticks i'.pending ≡ 0)
        × (i'.total_ticks ≡ i.total_ticks))
      ⊎ ((i' : Interrupt) × (check_pending handle false ps i ≡ ok (true, i'))
          × (i'.level ≡ i.level)
          × (i'.status ≡ i.status)
          × Sorted i'.pending
          × (due i'.total_ticks i'.pending + 1 ≡ due i.total_ticks ps)
          × (i'.total_ticks ≡ i.total_ticks))

  check_pending-Checked :
      (ps : List PendingInterrupt) (i : Interrupt)
      → is_idle i.status ≡ false
      → i.total_ticks < end
      → i.pending ≡ ps
      → Sorted ps
      → Checked ps i
  unfolding Checked check_pending check_first fire_unless_done fire due
  check_pending-Checked [] i busy early same sorted =
      inl (i, refl, ap (due i.total_ticks) same, refl)
  check_pending-Checked (p ∷ ps) i busy early same sorted =
      elim (Bool-cases (ltb i.total_ticks p.when)) [
        | inl later ↦ inl (
          record i { pending = insert_pending p ps },
          rw later refl,
          due-insert_pending i.total_ticks p ps
              ∙ due_later i.total_ticks p ps sorted (ltb→lt i.total_ticks p.when later),
          refl,
        )
        | inr now ↦
            let (i', d) =
              device p (record i { pending = ps; in_handler = true; status = system_mode }) refl
                early (Sorted-rest p ps sorted) in
            inr (
              record i' { status = i.status; in_handler = false },
              rw (now, busy, d.returns) refl,
              d.same_level,
              refl,
              d.in_order,
              ground (arith, d.later, now),
              d.same_time,
            )
      ]

  -- If up to some time every handler, called inside one with the pending interrupts in order of
  -- time, returns, keeps the level, the clock and the order of the pending interrupts, and
  -- schedules nothing that is due already, then with interrupts off, the clock before that time, a
  -- machine that is not idle, and the pending interrupts in order of time, the loop `while
  -- (CheckIfDue(FALSE))` ends within one round more than there are interrupts due, and afterwards
  -- none is due and the clock is as it was.
  pub run_due_lem :
      (rounds : ℕ) (i : Interrupt)
      → i.level ≡ int_off
      → is_idle i.status ≡ false
      → i.total_ticks < end
      → Sorted i.pending
      → due i.total_ticks i.pending < rounds
      → (i' : Interrupt) × (run_due handle rounds i ≡ ok i')
        × (due i'.total_ticks i'.pending ≡ 0)
        × (i'.total_ticks ≡ i.total_ticks)
  unfolding run_due check_if_due Checked
  run_due_lem zero i off busy early sorted enough = absurd (omega arith)
  run_due_lem (suc n) i off busy early sorted enough =
      let quiet : is_off i.level ≡ true = ap is_off off in
      elim (check_pending-Checked i.pending i busy early refl sorted) [
        | inl (i', runs, none_due, time) ↦ (i', simp (quiet, runs) refl, none_due, time)
        | inr (i₁, runs, level, status, sorted₁, fewer, time) ↦
            let (i', more, none_due, time') =
              run_due_lem n i₁ (level ∙ off) (ap is_idle status ∙ busy) (omega (arith, time, early))
                sorted₁ (omega (arith, fewer)) in
            (i', simp (quiet, runs) more, none_due, time' ∙ time)
      ]
