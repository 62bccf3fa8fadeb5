-- ===== src/Interrupt.antt =====
-- machine/interrupt.cc: the simulated interrupts, in a kernel without user programs. The pending
-- ones are the sequence that the sorted list of threads/list.cc stands for. A device's handler and
-- the thread switch are parameters.
pub mod Due
pub mod Order
pub mod Tick
use nachos_3_4_lab.Prelude.{
  ℕ, zero, suc, ◌+◌, ◌-◌, List, [], ◌∷◌, Bool, true, false, not, ◌&&◌, ◌||◌, ltb, if◌then◌else◌,
  Option, none, some,
}
use nachos_3_4_lab.Prelude.Outcome.{Outcome, ok, wild, ◌>>=◌, ◌>>◌, assert, int_sum}

-- `IntStatus`, `MachineStatus` and `IntType`
pub data IntStatus : Type 0 where
  int_off int_on : IntStatus

pub data MachineStatus : Type 0 where
  idle_mode system_mode user_mode : MachineStatus

pub data IntType : Type 0 where
  timer_int disk_int console_write_int console_read_int elevator_int : IntType
  network_send_int network_recv_int : IntType

-- `UserTick` and `SystemTick` of machine/stats.h
abbrev pub user_tick : ℕ
user_tick = 1

abbrev pub system_tick : ℕ
system_tick = 10

-- `PendingInterrupt`
pub record PendingInterrupt : Type 0 where
  pub handler : ℕ
  pub arg : ℕ
  pub when : ℕ
  pub type : IntType

-- `Interrupt`, with the clock that is in `stats`.
pub record Interrupt : Type 0 where
  pub level : IntStatus
  pub pending : List PendingInterrupt
  pub in_handler : Bool
  pub yield_on_return : Bool
  pub status : MachineStatus
  pub total_ticks : ℕ
  pub idle_ticks : ℕ
  pub system_ticks : ℕ
  pub user_ticks : ℕ

abbrev pub is_off : IntStatus → Bool
is_off int_off = true
is_off int_on = false

abbrev pub is_idle : MachineStatus → Bool
is_idle idle_mode = true
is_idle _ = false

abbrev pub is_timer : IntType → Bool
is_timer timer_int = true
is_timer _ = false

abbrev pub is_nil : List PendingInterrupt → Bool
is_nil [] = true
is_nil (p ∷ ps) = false

-- `pending->SortedInsert(p, when)`
unfoldable pub insert_pending : PendingInterrupt → List PendingInterrupt → List PendingInterrupt
insert_pending p [] = p ∷ []
insert_pending p (q ∷ qs) = if ltb p.when q.when then p ∷ q ∷ qs else q ∷ insert_pending p qs

-- `Interrupt::Schedule`
unfoldable pub schedule : (handler arg from_now : ℕ) → IntType → Interrupt → Outcome Interrupt
schedule handler arg from_now type i = do
  when ← int_sum i.total_ticks from_now
  assert (ltb 0 from_now)
  let p : PendingInterrupt = record { handler = handler; arg = arg; when = when; type = type }
  ok (record i { pending = insert_pending p i.pending })

module _ (handle : PendingInterrupt → Interrupt → Outcome Interrupt) where
  -- The end of `CheckIfDue`: the handler runs.
  unfoldable pub fire : PendingInterrupt → Interrupt → Outcome (Bool × Interrupt)
  fire p i = do
    i' ← handle p (record i { in_handler = true; status = system_mode })
    ok (true, record i' { status = i.status; in_handler = false })

  -- Nothing but the time slice is left to do.
  unfoldable pub fire_unless_done :
      PendingInterrupt → List PendingInterrupt → Interrupt → Outcome (Bool × Interrupt)
  fire_unless_done p rest i =
      if is_idle i.status && is_timer p.type && is_nil rest
      then ok (false, record i { pending = insert_pending p rest })
      else fire p (record i { pending = rest })

  unfoldable pub check_first :
      Bool → PendingInterrupt → List PendingInterrupt → Interrupt → Outcome (Bool × Interrupt)
  check_first advance_clock p rest i =
      if advance_clock && ltb i.total_ticks p.when
      then (int_sum i.idle_ticks (p.when - i.total_ticks) >>= λ idle_ticks.
          fire_unless_done p rest (record i { idle_ticks = idle_ticks; total_ticks = p.when }))
      else if ltb i.total_ticks p.when
      then ok (false, record i { pending = insert_pending p rest })
      else fire_unless_done p rest i

  unfoldable pub check_pending :
      Bool → List PendingInterrupt → Interrupt → Outcome (Bool × Interrupt)
  check_pending advance_clock [] i = ok (false, i)
  check_pending advance_clock (p ∷ rest) i = check_first advance_clock p rest i

  -- `Interrupt::CheckIfDue`
  unfoldable pub check_if_due : Bool → Interrupt → Outcome (Bool × Interrupt)
  check_if_due advance_clock i = assert (is_off i.level) >> check_pending advance_clock i.pending i

  -- `while (CheckIfDue(FALSE));`, of so many rounds at most.
  unfoldable pub run_due : ℕ → Interrupt → Outcome Interrupt
  run_due zero i = wild
  run_due (suc n) i = do
    (fired, i') ← check_if_due false i
    let more = run_due n i'
    elim fired [ true ↦ more | false ↦ ok i' ]

  abbrev user_ticked : Interrupt → Outcome Interrupt
  user_ticked i = do
    total ← int_sum i.total_ticks user_tick
    user ← int_sum i.user_ticks user_tick
    ok (record i { total_ticks = total; user_ticks = user })

  -- The beginning of `OneTick`: the clock.
  unfoldable pub ticked : Interrupt → MachineStatus → Outcome Interrupt
  ticked i user_mode = user_ticked i
  ticked i idle_mode = user_ticked i
  ticked i system_mode = do
    total ← int_sum i.total_ticks system_tick
    system ← int_sum i.system_ticks system_tick
    ok (record i { total_ticks = total; system_ticks = system })

  -- The end of `OneTick`: whether a handler has asked for a switch, and the status before.
  unfoldable pub yield_if_asked :
      Bool → MachineStatus → (yield : Interrupt → Outcome Interrupt) → Interrupt → Outcome Interrupt
  yield_if_asked false old yield i = ok i
  yield_if_asked true old yield i = do
    i' ← yield (record i { yield_on_return = false; status = system_mode })
    ok (record i' { status = old })

  -- `Interrupt::OneTick`; `yield` is `currentThread->Yield()`.
  unfoldable pub one_tick :
      ℕ → (yield : Interrupt → Outcome Interrupt) → Interrupt → Outcome Interrupt
  one_tick rounds yield i = do
    i₀ ← ticked i i.status
    i₁ ← run_due rounds (record i₀ { level = int_off })
    yield_if_asked i₁.yield_on_return i.status yield (record i₁ { level = int_on })

  -- `Interrupt::SetLevel`: the old level.
  unfoldable pub set_level :
      ℕ
      → (yield : Interrupt → Outcome Interrupt) → IntStatus
      → Interrupt
      → Outcome (IntStatus × Interrupt)
  set_level rounds yield now i = do
    assert (is_off now || not i.in_handler)
    i' ←
        (if not (is_off now) && is_off i.level
          then one_tick rounds yield (record i { level = now })
          else ok (record i { level = now }))
    ok (i.level, i')

  -- `Interrupt::Enable`
  unfoldable pub enable :
      ℕ → (yield : Interrupt → Outcome Interrupt) → Interrupt → Outcome Interrupt
  enable rounds yield i = do (old, i') ← set_level rounds yield int_on i; ok i'

  -- `Interrupt::Idle`; `none` is the call of `Halt`, which does not return.
  unfoldable pub idle : ℕ → Interrupt → Outcome (Option Interrupt)
  idle rounds i = do
    (fired, i₁) ← check_if_due true (record i { status = idle_mode })
    if fired
        then (do
          i₂ ← run_due rounds i₁
          ok (some (record i₂ { yield_on_return = false; status = system_mode })))
        else ok none

-- `Interrupt::Interrupt`; the clock starts at 0.
pub init : Interrupt
init = record {
  level = int_off;
  pending = [];
  in_handler = false;
  yield_on_return = false;
  status = system_mode;
  total_ticks = 0;
  idle_ticks = 0;
  system_ticks = 0;
  user_ticks = 0;
}

-- `Interrupt::YieldOnReturn`
unfoldable pub request_yield : Interrupt → Outcome Interrupt
request_yield i = assert i.in_handler >> ok (record i { yield_on_return = true })
