-- ===== src/Synch.antt =====
-- threads/synch.cc: one lock, the semaphore in it, and one condition, over the scheduler. Interrupts
-- are off from the start of each operation to its end or to the switch to another thread, so that
-- each piece between is one step.
pub mod Step
pub mod Invariant
pub mod Blocking
pub mod Holding
pub mod Safety
use nachos_3_4_lab.Prelude.{
  ℕ, suc, ◌+◌, ◌-◌, List, [], ◌∷◌, ◌++◌, Bool, true, false, Option, none, some, ◌==◌, if◌then◌else◌,
}
use nachos_3_4_lab.Prelude.Outcome.{Outcome, ok, ◌>>=◌, ◌>>◌, assert}
use nachos_3_4_lab.Scheduler.{
  Policy, Thread, blocked, outside, acquiring, holding, set_status, Scheduler, ready_to_run, sleep,
}

-- `Semaphore`
pub record Semaphore : Type 0 where
  pub value : ℕ
  pub queue : List Thread

-- A `Lock`, whose semaphore starts at 1, a `Condition`, and the scheduler.
pub record System : Type 0 where
  pub scheduler : Scheduler
  pub semaphore : Semaphore
  pub owner : Option ℕ
  pub waiting : List Thread

-- A thread in a queue, as `Sleep` leaves it: its context goes on in the loop of `P`, for a waiter of
-- the condition too.
abbrev pub asleep : Thread → Thread
asleep t = record t { status = blocked; doing = acquiring }

-- The current thread goes on as `t`.
abbrev pub go_on : Thread → System → System
go_on t s = record s { scheduler = record s.scheduler { current = some t } }

-- `queue->Append(currentThread); currentThread->Sleep();` of `Semaphore::P`
unfoldable pub p_sleep : Thread → System → Outcome System
p_sleep t s = do
  k ← sleep s.scheduler
  ok (record s {
    scheduler = k;
    semaphore = record s.semaphore { queue = s.semaphore.queue ++ asleep t ∷ [] };
  })

-- `Lock::Acquire` of the current thread `t`, from the test of `Semaphore::P` on: the test is made
-- again each time that the thread is woken.
unfoldable pub acquire : Thread → System → Outcome System
acquire t s =
    if s.semaphore.value == 0
    then p_sleep t s
    else ok (
        go_on (record t { doing = holding })
          (record s {
            semaphore = record s.semaphore { value = s.semaphore.value - 1 };
            owner = some t.id;
          }))

-- `queue->Remove()` and `ReadyToRun` of `Semaphore::V`
unfoldable pub wake_first : Policy → List Thread → Scheduler → List Thread × Scheduler
wake_first p [] k = ([], k)
wake_first p (u ∷ us) k = (us, ready_to_run p u k)

-- `Semaphore::V`
unfoldable pub v : Policy → System → System
v p s =
    let woken = wake_first p s.semaphore.queue s.scheduler in
    record s {
      scheduler = woken.1;
      semaphore = record { value = s.semaphore.value + 1; queue = woken.0 };
    }

-- `currentThread == owner`
abbrev pub is_owner : Option ℕ → Thread → Bool
is_owner none t = false
is_owner (some i) t = i == t.id

-- `Lock::Release` of the current thread `t`
unfoldable pub release : Policy → Thread → System → Outcome System
release p t s = do
  assert (is_owner s.owner t)
  ok (record (v p (go_on (record t { doing = outside }) s)) { owner = none })

-- `Condition::Wait` of the current thread `t`, up to its `Sleep`
unfoldable pub wait : Policy → Thread → System → Outcome System
wait p t s = do
  assert (is_owner s.owner t)
  s₁ ← release p t s
  k ← sleep s₁.scheduler
  ok (record s₁ { scheduler = k; waiting = s₁.waiting ++ asleep t ∷ [] })

-- `Condition::Signal` of the current thread `t`
unfoldable pub signal : Policy → Thread → System → Outcome System
signal p t s = do
  assert (is_owner s.owner t)
  let woken = wake_first p s.waiting s.scheduler
  ok (record s { scheduler = woken.1; waiting = woken.0 })

-- The loop of `Condition::Broadcast`, and `Condition::Broadcast`.
unfoldable pub signal_all : List Thread → Policy → Thread → System → Outcome System
signal_all [] p t s = ok s
signal_all (u ∷ us) p t s = do s' ← signal p t s; signal_all us p t s'

unfoldable pub broadcast : Policy → Thread → System → Outcome System
broadcast p t s = do assert (is_owner s.owner t); signal_all s.waiting p t s
