-- ===== src/Tests/Threads.antt =====
-- Concrete threads: three of them after one lock.
use nachos_3_4_lab.Prelude.{ℕ, ◌+◌, ◌≡◌, ◌≤◌, ◌<◌, ◌⊎◌, refl, List, [], ◌∷◌, none, some, arith}
use nachos_3_4_lab.Prelude.Outcome.{ok, abort}
use nachos_3_4_lab.Scheduler.{
  in_turn, by_priority, Thread, just_created, running, ready, blocked, outside, acquiring, holding,
  Scheduler, enqueue, ready_to_run, next_after_sleep, next_after_yield, take_if_better, run,
  switch_to, yield_thread, run_or_idle, sleep, fork,
}
use nachos_3_4_lab.Scheduler.Tally.{Kind, tally}
use nachos_3_4_lab.Scheduler.Switch.{on_cpu}
use nachos_3_4_lab.Scheduler.Order.{NoBetter, IsSorted, BestRuns, yield_thread-BestRuns}
use nachos_3_4_lab.Scheduler.Create.{create, Created, AllTaken, create-Created}
use nachos_3_4_lab.Synch.{System, p_sleep, acquire, wake_first, v, release, wait, signal, broadcast}
use nachos_3_4_lab.Synch.Step.{
  count_all, census, acquires, yields, releases, arrives, Reach, at_start, later,
}
use nachos_3_4_lab.Synch.Invariant.{holders, triers, intruders}
use nachos_3_4_lab.Synch.Safety.{mutual_exclusion, one_place, no_lost_wakeup, operations_succeed}

abbrev thread : ℕ → Thread
thread i = record { id = i; priority = i; status = just_created; doing = outside }

-- The first thread has the lock, and the others wait for it.
abbrev contended : System
contended = record {
  scheduler = record {
    current = some (record { id = 0; priority = 0; status = running; doing = holding });
    ready_list = [];
    last_switch_tick = 0;
    system_ticks = 0;
    to_be_destroyed = none;
  };
  semaphore = record {
    value = 0;
    queue =
        record { id = 1; priority = 1; status = blocked; doing = acquiring }
        ∷ record { id = 2; priority = 2; status = blocked; doing = acquiring }
        ∷ [];
  };
  owner = some 0;
  waiting = [];
}

contended-Reach : Reach in_turn (thread 0) contended
unfolding acquire p_sleep yield_thread next_after_yield take_if_better switch_to run ready_to_run
    enqueue fork sleep next_after_sleep run_or_idle tally
contended-Reach =
    later
      (later
        (later
          (later
            (later (later at_start (arrives (thread 1) refl refl refl))
              (arrives (thread 2) refl refl refl))
            (acquires (thread 0) refl refl refl))
          (yields _ refl (λ e. cc) refl))
        (acquires _ refl refl refl))
      (acquires _ refl refl refl)

-- The first one has let the lock go, and the next is ready while the last still waits.
abbrev handed_over : System
handed_over = record {
  scheduler = record {
    current = some (record { id = 0; priority = 0; status = running; doing = outside });
    ready_list = record { id = 1; priority = 1; status = ready; doing = acquiring } ∷ [];
    last_switch_tick = 0;
    system_ticks = 0;
    to_be_destroyed = none;
  };
  semaphore = record {
    value = 1;
    queue = record { id = 2; priority = 2; status = blocked; doing = acquiring } ∷ [];
  };
  owner = none;
  waiting = [];
}

handed_over-Reach : Reach in_turn (thread 0) handed_over
unfolding release v wake_first ready_to_run enqueue
handed_over-Reach = later contended-Reach (releases _ refl refl refl)

mutual_exclusion_example :
    (count_all holders contended + 0 ≡ 1) × (count_all (intruders (some 0)) contended ≡ 0)
mutual_exclusion_example = mutual_exclusion in_turn (thread 0) refl contended-Reach

one_place_example : census 2 contended ≤ 1
one_place_example = one_place in_turn (thread 0) refl contended-Reach 2

no_lost_wakeup_example : 0 < on_cpu triers handed_over.scheduler
no_lost_wakeup_example = no_lost_wakeup in_turn (thread 0) refl handed_over-Reach (λ e. cc) refl

abbrev holder : Thread
holder = record { id = 0; priority = 0; status = running; doing = holding }

operations_succeed_example :
    ((s' : System) × (release in_turn holder contended ≡ ok s'))
    × ((s' : System) × (wait in_turn holder contended ≡ ok s'))
    × ((s' : System) × (signal in_turn holder contended ≡ ok s'))
    × ((s' : System) × (broadcast in_turn holder contended ≡ ok s'))
operations_succeed_example =
    operations_succeed in_turn (thread 0) refl contended-Reach holder refl refl

abbrev two_ready : Scheduler
two_ready = record {
  current = some (thread 4);
  ready_list = thread 1 ∷ thread 6 ∷ [];
  last_switch_tick = 0;
  system_ticks = 20;
  to_be_destroyed = none;
}

yield_thread-BestRuns_example :
    (k : Scheduler) × (u : Thread) × (yield_thread by_priority (thread 4) two_ready ≡ ok k)
    × BestRuns k u
    × ((g : Kind) → on_cpu g k ≡ on_cpu g two_ready)
unfolding IsSorted NoBetter
yield_thread-BestRuns_example =
    yield_thread-BestRuns (thread 4) two_ready refl (λ i e. cc) (((omega arith), tt), (tt, tt))

create-Created_example :
    ((t : Thread) × (ids' : List ℕ) × (create 77 11 (1 ∷ 0 ∷ 0 ∷ []) ≡ ok (t, ids'))
      × Created 77 11 (1 ∷ 0 ∷ 0 ∷ []) t ids')
    ⊎ ((create 77 11 (1 ∷ 0 ∷ 0 ∷ []) ≡ abort) × AllTaken (1 ∷ 0 ∷ 0 ∷ []))
create-Created_example = create-Created 77 11 (1 ∷ 0 ∷ 0 ∷ [])
