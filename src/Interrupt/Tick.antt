-- ===== src/Interrupt/Tick.antt =====
-- `OneTick` and the change of the level.
use nachos_3_4_lab.Prelude.{
  ℕ, ◌+◌, if◌then◌else◌, ◌<◌, ◌≤◌, ◌≡◌, ◌∙◌, refl, sym, ap, ap₂, subst, List, [], ◌∷◌, Bool, true,
  false, length, arith,
}
use nachos_3_4_lab.Prelude.Outcome.{Outcome, ok, ◌>>=◌, int_sum, int_sum_fits}
use nachos_3_4_lab.Interrupt.{
  MachineStatus, user_mode, idle_mode, system_mode, int_off, int_on, PendingInterrupt, Interrupt,
  system_tick, user_tick, is_idle, ticked, yield_if_asked, one_tick, set_level,
}
use nachos_3_4_lab.Interrupt.Due.{due, Sorted, IsDevice, run_due_lem}

due_bound : (now : ℕ) (ps : List PendingInterrupt) → due now ps ≤ length ps
unfolding due
due_bound now [] = omega arith
due_bound now (p ∷ ps) = ground (arith, due_bound now ps)

-- How far `OneTick` moves the clock.
abbrev pub tick : MachineStatus → ℕ
tick system_mode = system_tick
tick _ = user_tick

-- The clock has room for a tick before `end`, and the two counts of ticks are parts of it.
pub record HasTime (end : ℕ) (i : Interrupt) : Type 0 where
  pub room : i.total_ticks + 10 < end
  pub in_range : end ≤ 0x8000_0000
  pub user : i.user_ticks ≤ i.total_ticks
  pub system : i.system_ticks ≤ i.total_ticks

user_ticked_fits :
    (end : ℕ) (i : Interrupt)
    → HasTime end i
    → (do
      total ← int_sum i.total_ticks 1
      user ← int_sum i.user_ticks 1
      ok (record i { total_ticks = total; user_ticks = user }))
      ≡ ok (record i { total_ticks = i.total_ticks + 1; user_ticks = i.user_ticks + 1 })
user_ticked_fits end i h =
    rw
      (
        int_sum_fits i.total_ticks 1 (omega (arith, h.room, h.in_range)),
        int_sum_fits i.user_ticks 1 (omega (arith, h.room, h.in_range, h.user)),
      )
      refl

ticked_lem :
    (handle : PendingInterrupt → Interrupt → Outcome Interrupt) (end : ℕ) (i : Interrupt)
    (s : MachineStatus)
    → HasTime end i
    → (t : Interrupt) × (ticked handle i s ≡ ok t)
      × (t.status ≡ i.status)
      × (t.pending ≡ i.pending)
      × (t.total_ticks ≡ i.total_ticks + tick s)
unfolding ticked
ticked_lem handle end i user_mode h = (
  record i { total_ticks = i.total_ticks + 1; user_ticks = i.user_ticks + 1 },
  user_ticked_fits end i h,
  refl,
  refl,
  refl,
)
ticked_lem handle end i idle_mode h = (
  record i { total_ticks = i.total_ticks + 1; user_ticks = i.user_ticks + 1 },
  user_ticked_fits end i h,
  refl,
  refl,
  refl,
)
ticked_lem handle end i system_mode h = (
  record i { total_ticks = i.total_ticks + 10; system_ticks = i.system_ticks + 10 },
  rw
      (
        int_sum_fits i.total_ticks 10 (omega (arith, h.room, h.in_range)),
        int_sum_fits i.system_ticks 10 (omega (arith, h.room, h.in_range, h.system)),
      )
      refl,
  refl,
  refl,
  refl,
)

-- What is left of `OneTick` once the interrupts are served: at most a switch.
abbrev pub switched :
    (yield : Interrupt → Outcome Interrupt) → MachineStatus → Interrupt → Outcome Interrupt
switched yield old j =
    if j.yield_on_return
    then (yield (record j { yield_on_return = false; status = system_mode }) >>= λ k.
        ok (record k { status = old }))
    else ok j

-- After a tick: interrupts are on, none is due, and the clock has moved.
pub record Ticked (i j : Interrupt) : Type 0 where
  pub on : j.level ≡ int_on
  pub none_due : due j.total_ticks j.pending ≡ 0
  pub later : j.total_ticks ≡ i.total_ticks + tick i.status

module _ (end : ℕ) (handle : PendingInterrupt → Interrupt → Outcome Interrupt)
    (device : (p : PendingInterrupt) (i : Interrupt)
      → i.in_handler ≡ true
      → i.total_ticks < end
      → Sorted i.pending
      → (i' : Interrupt) × IsDevice handle p i i')
    (yield : Interrupt → Outcome Interrupt) where
  yield_if_asked_lem :
      (asked : Bool) (old : MachineStatus) (j : Interrupt)
      → j.yield_on_return ≡ asked
      → yield_if_asked handle asked old yield j ≡ switched yield old j
  unfolding yield_if_asked
  yield_if_asked_lem false old j e = rw e refl
  yield_if_asked_lem true old j e = rw e refl

  one_tick_lem :
      (rounds : ℕ) (i : Interrupt)
      → is_idle i.status ≡ false
      → HasTime end i
      → Sorted i.pending
      → length i.pending < rounds
      → (j : Interrupt) × Ticked i j × (one_tick handle rounds yield i ≡ switched yield i.status j)
  unfolding one_tick
  one_tick_lem rounds i busy h sorted enough =
      let (t, ticks, same_status, same_pending, later) = ticked_lem handle end i i.status h in
      let t₀ : Interrupt = record t { level = int_off } in
      let few : due t.total_ticks t.pending < rounds =
        omega (arith, due_bound t.total_ticks t.pending, ap length same_pending, enough) in
      let (i₁, runs, none_due, time) =
        run_due_lem end handle device rounds t₀ refl (ap is_idle same_status ∙ busy)
          (ground (arith, h.room, later)) (subst Sorted (sym same_pending) sorted) few in
      let j : Interrupt = record i₁ { level = int_on } in
      (
        j,
        record { on = refl; none_due = none_due; later = time ∙ later },
        rw (ticks, runs) (yield_if_asked_lem i₁.yield_on_return i.status j refl),
      )

  -- If up to some time, at most 2 ^ 31, every handler, called inside one with the pending
  -- interrupts in order of time, returns, keeps the level, the clock and that order, and schedules
  -- nothing that is due already, and the clock is more than ten ticks before that time, interrupts
  -- are on, the machine is not idle and in no handler, its pending interrupts are in order of time,
  -- the counts of user and system ticks are not above the clock, and the loop of `OneTick` has more
  -- rounds than there are pending interrupts, then `SetLevel(IntOff)` changes the level only, and
  -- `SetLevel` of what it returned moves the clock on by one tick of the machine's status, serves
  -- the interrupts until none is due, turns interrupts on, and then calls `Thread::Yield` once, in
  -- system mode, with the request for it taken back and the status put back after it, if a handler
  -- asked for it, and otherwise ends there.
  pub set_level-set_level :
      (rounds : ℕ) (i : Interrupt)
      → i.level ≡ int_on
      → i.in_handler ≡ false
      → is_idle i.status ≡ false
      → HasTime end i
      → Sorted i.pending
      → length i.pending < rounds
      → (i₁ j : Interrupt) × (set_level handle rounds yield int_off i ≡ ok (i.level, i₁))
        × (i₁ ≡ record i { level = int_off })
        × Ticked i j
        × (set_level handle rounds yield i.level i₁
            ≡ (switched yield i.status j >>= λ k. ok (int_off, k)))
  unfolding set_level
  set_level-set_level rounds i on outside busy h sorted enough =
      let (j, w, ticks) = one_tick_lem rounds i busy h sorted enough in
      let i₁ : Interrupt = record i { level = int_off } in
      let off : i₁ ≡ record i { level = int_off; in_handler = false } =
        ap (λ b. record i { level = int_off; in_handler = b }) outside in
      let back : record i { level = int_on; in_handler = false } ≡ i =
        sym (ap₂ (λ l b. record i { level = l; in_handler = b }) on outside) in
      (
        i₁,
        j,
        refl,
        refl,
        w,
        ap₂ (set_level handle rounds yield) on off
            ∙ ap (λ x. one_tick handle rounds yield x >>= λ k. ok (int_off, k)) back
            ∙ ap (λ m. m >>= λ k. ok (int_off, k)) ticks,
      )
