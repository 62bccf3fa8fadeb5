-- ===== src/Timer/Device.antt =====
-- The timer does what the loop over the due interrupts asks of a device.
use nachos_3_4_lab.Prelude.{
  ℕ, ◌+◌, ◌≤◌, ◌<◌, ◌≡◌, ◌∙◌, refl, ap, Bool, true, ◌==◌, arith, Bool-cases, inl, inr,
}
use nachos_3_4_lab.Prelude.Outcome.{Outcome, ok}
use nachos_3_4_lab.Interrupt.{PendingInterrupt, Interrupt, timer_int, is_idle, request_yield}
use nachos_3_4_lab.Interrupt.Due.{Sorted, IsDevice}
use nachos_3_4_lab.Interrupt.Order.{schedule-Sorted}
use nachos_3_4_lab.Timer.{Timer, time_of_next_interrupt, timer_expired, time_slice, handle}

-- `TimerInterruptHandler` in a handler: at most the flag changes.
time_slice_lem :
    (dummy : ℕ) (i : Interrupt)
    → i.in_handler ≡ true
    → (b : Bool) × (time_slice dummy i ≡ ok (record i { yield_on_return = b }))
unfolding time_slice request_yield
time_slice_lem dummy i inside = elim (Bool-cases (is_idle i.status)) [
  | inl idle ↦ (i.yield_on_return, rw (idle) refl)
  | inr busy ↦ (true, rw (busy, inside) refl)
]

next_later : (random : ℕ) (t : Timer) → 0 < time_of_next_interrupt random t
unfolding time_of_next_interrupt
next_later random t = ground arith

next_soon : (random : ℕ) (t : Timer) → time_of_next_interrupt random t ≤ 20
unfolding time_of_next_interrupt
next_soon random t = ground arith

module _ (end : ℕ) (within : end + 20 ≤ 0x8000_0000) (timer_handler : ℕ)
    (random : PendingInterrupt → Interrupt → ℕ) (t : Timer)
    (others : PendingInterrupt → Interrupt → Outcome Interrupt) (slices : t.handler ≡ time_slice)
    (device : (p : PendingInterrupt) (i : Interrupt)
      → i.in_handler ≡ true
      → i.total_ticks < end
      → Sorted i.pending
      → (i' : Interrupt) × IsDevice others p i i') where
  -- Up to a time that is at least 20 ticks below 2 ^ 31, if the timer's handler is
  -- `TimerInterruptHandler` and every other device, called inside a handler with the pending
  -- interrupts in order of time, returns, keeps the level, the clock and that order, and schedules
  -- nothing that is due already, then the same holds of the kernel's handlers with the timer among
  -- them, for random and for fixed intervals.
  pub handle-IsDevice :
      (p : PendingInterrupt) (i : Interrupt)
      → i.in_handler ≡ true
      → i.total_ticks < end
      → Sorted i.pending
      → (i' : Interrupt) × IsDevice (handle timer_handler random t others) p i i'
  unfolding handle timer_expired
  handle-IsDevice p i inside early sorted = elim (Bool-cases (p.handler == timer_handler)) [
    | inr other ↦
        let (i', d) = device p i inside early sorted in
        (
          i',
          record {
            returns = rw (other) d.returns;
            same_level = d.same_level;
            same_time = d.same_time;
            in_order = d.in_order;
            later = d.later;
          },
        )
    | inl mine ↦
        let (i₁, runs, same, sorted₁, later) =
          schedule-Sorted timer_handler t.address (time_of_next_interrupt (random p i) t) timer_int
            i (next_later (random p i) t) (omega (arith, early, within, next_soon (random p i) t))
            sorted in
        let still : i₁.in_handler ≡ true = ap (λ x. x.in_handler) same ∙ inside in
        let (b, sliced) = time_slice_lem t.arg i₁ still in
        (
          record i₁ { yield_on_return = b },
          record {
            returns = rw (mine, runs) (ap (λ f. f t.arg i₁) slices ∙ sliced);
            same_level = ap (λ x. x.level) same;
            same_time = ap (λ x. x.total_ticks) same;
            in_order = sorted₁;
            later = later;
          },
        )
  ]
