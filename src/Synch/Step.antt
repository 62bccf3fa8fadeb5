-- ===== src/Synch/Step.antt =====
-- What the threads and the devices may do, a step at a time, in any order.
use nachos_3_4_lab.Prelude.{ℕ, ◌+◌, ◌≡◌, [], none, some, true}
use nachos_3_4_lab.Prelude.Outcome.{ok}
use nachos_3_4_lab.Scheduler.{
  Policy, Thread, outside, acquiring, holding, Scheduler, sleep, finish, yield_thread, is_not, fork,
}
use nachos_3_4_lab.Scheduler.Tally.{Kind, tally, tally_current}
use nachos_3_4_lab.Scheduler.Switch.{has_id}
use nachos_3_4_lab.Synch.{System, acquire, release, wait, signal, broadcast}

-- How many threads of a kind there are in the system.
abbrev pub count_all : Kind → System → ℕ
count_all g s =
    tally_current g s.scheduler.current
    + tally g s.scheduler.ready_list
    + tally g s.semaphore.queue
    + tally g s.waiting

abbrev pub census : ℕ → System → ℕ
census i s = count_all (has_id i) s

-- The scheduler takes a step of its own.
abbrev pub with_scheduler : System → Scheduler → System
with_scheduler s k = record s { scheduler = k }

-- A thread asks for the lock only while it does not hold it, and works with lock and condition only
-- while it does. Between the operations the clock may make it yield. A thread that comes in anew, or
-- that a device wakes, is outside; when the processor idles, it runs at once.
pub data Step (p : Policy) (s : System) : System → Type 0 where
  acquires :
      (t : Thread) {s' : System}
      → s.scheduler.current ≡ some t
      → t.doing ≡ outside
      → acquire t s ≡ ok s'
      → Step p s s'
  retries :
      (t : Thread) {s' : System}
      → s.scheduler.current ≡ some t
      → t.doing ≡ acquiring
      → acquire t s ≡ ok s'
      → Step p s s'
  releases :
      (t : Thread) {s' : System}
      → s.scheduler.current ≡ some t
      → t.doing ≡ holding
      → release p t s ≡ ok s'
      → Step p s s'
  waits :
      (t : Thread) {s' : System}
      → s.scheduler.current ≡ some t
      → t.doing ≡ holding
      → wait p t s ≡ ok s'
      → Step p s s'
  signals :
      (t : Thread) {s' : System}
      → s.scheduler.current ≡ some t
      → t.doing ≡ holding
      → signal p t s ≡ ok s'
      → Step p s s'
  broadcasts :
      (t : Thread) {s' : System}
      → s.scheduler.current ≡ some t
      → t.doing ≡ holding
      → broadcast p t s ≡ ok s'
      → Step p s s'
  yields :
      (t : Thread) {k : Scheduler}
      → s.scheduler.current ≡ some t
      → ¬ (t.doing ≡ acquiring)
      → yield_thread p t s.scheduler ≡ ok k
      → Step p s (with_scheduler s k)
  finishes :
      (t : Thread) {k : Scheduler}
      → s.scheduler.current ≡ some t
      → t.doing ≡ outside
      → finish t s.scheduler ≡ ok k
      → Step p s (with_scheduler s k)
  arrives :
      (t : Thread)
      → t.doing ≡ outside
      → census t.id s ≡ 0
      → is_not s.scheduler.to_be_destroyed t.id ≡ true
      → Step p s (with_scheduler s (fork p t s.scheduler))
  resumes :
      {k : Scheduler}
      → s.scheduler.current ≡ none
      → sleep s.scheduler ≡ ok k
      → Step p s (with_scheduler s k)

-- At first one thread runs, and the lock is free.
abbrev pub start : Thread → System
start t = record {
  scheduler = record {
    current = some t;
    ready_list = [];
    last_switch_tick = 0;
    system_ticks = 0;
    to_be_destroyed = none;
  };
  semaphore = record { value = 1; queue = [] };
  owner = none;
  waiting = [];
}

pub data Reach (p : Policy) (t : Thread) : System → Type 0 where
  at_start : Reach p t (start t)
  later : {s s' : System} → Reach p t s → Step p s s' → Reach p t s'
