-- ===== src/Scheduler.antt =====
-- threads/scheduler.cc with the parts of threads/thread.cc that switch threads. The ready list is
-- the sequence that its linked list represents (LinkedList). A thread is its number, its priority,
-- its status and where its saved context goes on; that context and the stack are not modelled.
pub mod Tally
pub mod Order
pub mod Switch
pub mod Create
use nachos_3_4_lab.Prelude.{
  ℕ, ◌+◌, List, [], ◌∷◌, ◌++◌, Bool, true, false, not, Option, none, some, ltb, ◌==◌, if◌then◌else◌,
}
use nachos_3_4_lab.Prelude.Outcome.{Outcome, ok, ◌>>=◌, ◌>>◌, assert}

-- Whether the code is compiled with `SCHED_PRIORITY`.
pub data Policy : Type 0 where
  by_priority in_turn : Policy

-- `ThreadStatus`
pub data ThreadStatus : Type 0 where
  just_created running ready blocked : ThreadStatus

-- Where a thread stands with the lock of Synch: outside, in the loop of `P`, or between `Acquire`
-- and `Release`.
pub data Doing : Type 0 where
  outside acquiring holding : Doing

pub record Thread : Type 0 where
  pub id : ℕ
  pub priority : ℕ
  pub status : ThreadStatus
  pub doing : Doing

-- `Scheduler`, with `currentThread`, `threadToBeDestroyed` and `stats->systemTicks`. There is no
-- current thread while `Sleep` waits in `Idle`.
pub record Scheduler : Type 0 where
  pub current : Option Thread
  pub ready_list : List Thread
  pub last_switch_tick : ℕ
  pub system_ticks : ℕ
  pub to_be_destroyed : Option ℕ

abbrev pub set_status : ThreadStatus → Thread → Thread
set_status s t = record t { status = s }

-- `readyList->SortedInsert(t, t->getPriority())`
unfoldable pub sorted_insert : Thread → List Thread → List Thread
sorted_insert t [] = t ∷ []
sorted_insert t (u ∷ us) = if ltb t.priority u.priority then t ∷ u ∷ us else u ∷ sorted_insert t us

unfoldable pub enqueue : Policy → Thread → List Thread → List Thread
enqueue by_priority t ts = sorted_insert t ts
enqueue in_turn t ts = ts ++ t ∷ []

-- `Scheduler::ReadyToRun`
unfoldable pub ready_to_run : Policy → Thread → Scheduler → Scheduler
ready_to_run p t k = record k { ready_list = enqueue p (set_status ready t) k.ready_list }

-- `Scheduler::FindNextToRun(true)`
unfoldable pub next_after_sleep : Scheduler → Option Thread × Scheduler
next_after_sleep k = elim k.ready_list [
  | [] ↦ (none, record k { last_switch_tick = k.system_ticks })
  | u ∷ us ↦ (some u, record k { ready_list = us; last_switch_tick = k.system_ticks })
]

-- `Scheduler::FindNextToRun(false)`, called by the thread `t`.
unfoldable pub take_if_better :
    Policy → Thread → Thread → List Thread → Scheduler → Option Thread × Scheduler
take_if_better in_turn t u us k =
    (some u, record k { ready_list = us; last_switch_tick = k.system_ticks })
take_if_better by_priority t u us k =
    if ltb u.priority t.priority
    then (some u, record k { ready_list = us; last_switch_tick = k.system_ticks })
    else (none, record k { ready_list = enqueue by_priority u us })

unfoldable pub next_after_yield : Policy → Thread → Scheduler → Option Thread × Scheduler
next_after_yield p t k = elim k.ready_list [ [] ↦ (none, k) | u ∷ us ↦ take_if_better p t u us k ]

abbrev pub is_not : Option ℕ → ℕ → Bool
is_not none i = true
is_not (some j) i = not (j == i)

-- `Scheduler::Run`, up to the end of what the thread that it switches to does first: it deletes the
-- one that has finished, which is not to be itself.
unfoldable pub run : Thread → Scheduler → Outcome Scheduler
run next k = do
  assert (is_not k.to_be_destroyed next.id)
  ok (record k { current = some (set_status running next); to_be_destroyed = none })

-- `Thread::Yield` of the current thread `t`
unfoldable pub switch_to : Policy → Thread → Option Thread → Scheduler → Outcome Scheduler
switch_to p t none k = ok k
switch_to p t (some next) k = run next (ready_to_run p t k)

unfoldable pub yield_thread : Policy → Thread → Scheduler → Outcome Scheduler
yield_thread p t k = let found = next_after_yield p t k in switch_to p t found.0 found.1

-- `Thread::Sleep`, once what is to wake the thread has it in its queue: with nothing ready, the
-- processor idles until an interrupt.
unfoldable pub run_or_idle : Option Thread → Scheduler → Outcome Scheduler
run_or_idle none k = ok (record k { current = none })
run_or_idle (some next) k = run next k

unfoldable pub sleep : Scheduler → Outcome Scheduler
sleep k = let found = next_after_sleep k in run_or_idle found.0 found.1

-- `Thread::Finish` of the current thread `t`
unfoldable pub finish : Thread → Scheduler → Outcome Scheduler
finish t k = sleep (record k { to_be_destroyed = some t.id })

-- `Thread::Fork` of `t`
unfoldable pub fork : Policy → Thread → Scheduler → Scheduler
fork p t k = ready_to_run p t k
