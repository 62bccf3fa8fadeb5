-- ===== src/Timer.antt =====
-- machine/timer.cc: the timer, which arms itself again, with the time slice of threads/system.cc.
pub mod Device
use nachos_3_4_lab.Prelude.{ℕ, ◌+◌, ◌*◌, ◌%◌, Bool, ◌==◌, if◌then◌else◌}
use nachos_3_4_lab.Prelude.Outcome.{Outcome, ok, ◌>>=◌}
use nachos_3_4_lab.Interrupt.{
  PendingInterrupt, Interrupt, timer_int, is_idle, schedule, request_yield,
}

-- `TimerTicks` of machine/stats.h
abbrev pub timer_ticks : ℕ
timer_ticks = 10

-- `Timer`; `handler` is what its handler does, and `address` where the object is.
pub record Timer : Type 0 where
  pub randomize : Bool
  pub handler : ℕ → Interrupt → Outcome Interrupt
  pub arg : ℕ
  pub address : ℕ

-- `Timer::TimeOfNextInterrupt`; `random` is what `Random()` returns, which is not negative.
unfoldable pub time_of_next_interrupt : (random : ℕ) → Timer → ℕ
time_of_next_interrupt random t =
    if t.randomize then 1 + random % (timer_ticks * 2) else timer_ticks

-- `Timer::Timer`; `timer_handler` is the address of the function `TimerHandler`.
unfoldable pub start : (timer_handler random : ℕ) → Timer → Interrupt → Outcome Interrupt
start timer_handler random t i =
    schedule timer_handler t.address (time_of_next_interrupt random t) timer_int i

-- `Timer::TimerExpired`
unfoldable pub timer_expired : (timer_handler random : ℕ) → Timer → Interrupt → Outcome Interrupt
timer_expired timer_handler random t i = do
  i' ← schedule timer_handler t.address (time_of_next_interrupt random t) timer_int i
  t.handler t.arg i'

-- `TimerInterruptHandler` of threads/system.cc
unfoldable pub time_slice : ℕ → Interrupt → Outcome Interrupt
time_slice dummy i = if is_idle i.status then ok i else request_yield i

-- The call of a handler: that of the timer, or another device's.
unfoldable pub handle :
    (timer_handler : ℕ) (random : PendingInterrupt → Interrupt → ℕ)
    → Timer
    → (others : PendingInterrupt → Interrupt → Outcome Interrupt) → PendingInterrupt
    → Interrupt
    → Outcome Interrupt
handle timer_handler random t others p i =
    if p.handler == timer_handler then timer_expired timer_handler (random p i) t i else others p i
