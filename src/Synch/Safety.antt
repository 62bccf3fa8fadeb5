-- ===== src/Synch/Safety.antt =====
-- What holds in every state that the threads can reach.
use nachos_3_4_lab.Prelude.{ℕ, ◌+◌, ◌≡◌, ◌≤◌, ◌<◌, ◌∙◌, refl, subst, [], true, arith, some, inl, ap}
use nachos_3_4_lab.Prelude.Outcome.{Outcome, ok}
use nachos_3_4_lab.Scheduler.{
  Policy, Thread, outside, holding, ready, Scheduler, set_status, ready_to_run, fork, finish,
  is_not,
}
use nachos_3_4_lab.Scheduler.Tally.{Kind, one_if, tally, tally_current, tally-enqueue}
use nachos_3_4_lab.Scheduler.Switch.{has_id, on_cpu, sleep-Switched, yield_thread-Switched}
use nachos_3_4_lab.Synch.{System, release, wait, signal, broadcast}
use nachos_3_4_lab.Synch.Step.{
  count_all, census, with_scheduler, Step, acquires, retries, releases, waits, signals, broadcasts,
  yields, finishes, arrives, resumes, start, Reach, at_start, later,
}
use nachos_3_4_lab.Synch.Invariant.{Inv, is_holding, holders, triers, intruders, Inv-Parted}
use nachos_3_4_lab.Synch.Blocking.{acquire-Inv}
use nachos_3_4_lab.Synch.Holding.{release-GoesOn, wait-Inv, signal-GoesOn, broadcast-GoesOn}

-- The result that a step names is the one that was proved about.
of_result :
    {m : Outcome System} {s' : System} → m ≡ ok s' → (x : System) × (m ≡ ok x) × Inv x → Inv s'
of_result e (x, runs, inv) = subst Inv (cc) inv

start-Inv : (t : Thread) → t.doing ≡ outside → Inv (start t)
unfolding tally
start-Inv t out = record {
  free = rw out refl;
  owned = rw out refl;
  queued = refl;
  waiters = refl;
  woken = inl refl;
  unique = λ i. ground arith;
  gone = λ i e. ground (arith, e);
}

-- A switch with the same counts.
switch-Inv :
    (s : System) (k : Scheduler)
    → Inv s
    → ((g : Kind) → on_cpu g k ≡ on_cpu g s.scheduler)
    → ((i : ℕ) → k.to_be_destroyed ≡ some i → s.scheduler.to_be_destroyed ≡ some i)
    → Inv (with_scheduler s k)
switch-Inv s k inv same del = record {
  free = omega (arith, inv.free, same holders);
  owned = omega (arith, inv.owned, same (intruders s.owner));
  queued = inv.queued;
  waiters = inv.waiters;
  woken = ground (arith, inv.woken, same triers);
  unique = λ i. omega (arith, inv.unique i, same (has_id i));
  gone = λ i e. omega (arith, inv.gone i (del i e), same (has_id i));
}

finish-Inv :
    (t : Thread) (s : System)
    → s.scheduler.current ≡ some t
    → t.doing ≡ outside
    → Inv s
    → (k : Scheduler) × (finish t s.scheduler ≡ ok k) × Inv (with_scheduler s k)
unfolding finish
finish-Inv t s now out inv =
    let count : (g : Kind) → tally_current g s.scheduler.current ≡ one_if (g t.id outside) =
      λ g. ap (tally_current g) now ∙ ap (λ d. one_if (g t.id d)) out in
    let alone : tally (has_id t.id) s.scheduler.ready_list
          + tally (has_id t.id) s.semaphore.queue
          + tally (has_id t.id) s.waiting
        ≡ 0 =
      ground (arith, inv.unique t.id, count (has_id t.id)) in
    let (k, runs, w) =
      sleep-Switched (record s.scheduler { to_be_destroyed = some t.id })
        (λ i e. ground (arith, alone, e)) in
    (
      k,
      runs,
      record {
        free = omega (arith, inv.free, w.counts holders, count holders);
        owned = omega (arith, inv.owned, w.counts (intruders s.owner), count (intruders s.owner));
        queued = inv.queued;
        waiters = inv.waiters;
        woken = ground (arith, inv.woken, w.counts triers, count triers);
        unique = λ i. omega (arith, inv.unique i, w.counts (has_id i));
        gone = λ i e. ground (arith, alone, w.to_delete i e, w.counts (has_id i));
      },
    )

arrive-Inv :
    (p : Policy) (t : Thread) (s : System)
    → t.doing ≡ outside
    → census t.id s ≡ 0
    → is_not s.scheduler.to_be_destroyed t.id ≡ true
    → Inv s
    → Inv (with_scheduler s (fork p t s.scheduler))
unfolding fork ready_to_run
arrive-Inv p t s out new kept inv =
    let add = λ (g : Kind). tally-enqueue g p (set_status ready t) s.scheduler.ready_list in
    record {
      free = ground (arith, inv.free, add holders, out);
      owned = ground (arith, inv.owned, add (intruders s.owner), out);
      queued = inv.queued;
      waiters = inv.waiters;
      woken = ground (arith, inv.woken, add triers);
      unique = λ i. ground (arith, inv.unique i, add (has_id i), new);
      gone = λ i e. ground (arith, inv.gone i e, add (has_id i), kept, e);
    }

Step-Inv : (p : Policy) {s s' : System} → Step p s s' → Inv s → Inv s'
Step-Inv p {s} (acquires t now out e) inv =
    of_result e (acquire-Inv t s now (ap is_holding out) inv)
Step-Inv p {s} (retries t now trying e) inv =
    of_result e (acquire-Inv t s now (ap is_holding trying) inv)
Step-Inv p {s} (releases t now held e) inv =
    let (s', runs, (_, inv')) = release-GoesOn p t s now held inv in of_result e (s', runs, inv')
Step-Inv p {s} (waits t now held e) inv = of_result e (wait-Inv p t s now held inv)
Step-Inv p {s} (signals t now held e) inv =
    let (s', runs, (_, inv')) = signal-GoesOn p t s now held inv in of_result e (s', runs, inv')
Step-Inv p {s} (broadcasts t now held e) inv =
    let (s', runs, (_, inv')) = broadcast-GoesOn p t s now held inv in of_result e (s', runs, inv')
Step-Inv p {s} (yields t now _ e) inv =
    let (k', runs, w) = yield_thread-Switched p t s.scheduler now (Inv-Parted inv) in
    subst (λ k. Inv (with_scheduler s k)) (cc)
      (switch-Inv s k' inv (λ g. omega (arith, w.counts g, ap (tally_current g) now)) w.to_delete)
Step-Inv p {s} (finishes t now out e) inv =
    let (k', runs, inv') = finish-Inv t s now out inv in
    subst (λ k. Inv (with_scheduler s k)) (cc) inv'
Step-Inv p {s} (arrives t out new kept) inv = arrive-Inv p t s out new kept inv
Step-Inv p {s} (resumes now e) inv =
    let (k', runs, w) = sleep-Switched s.scheduler (Inv-Parted inv) in
    subst (λ k. Inv (with_scheduler s k)) (cc)
      (switch-Inv s k' inv (λ g. omega (arith, w.counts g, ap (tally_current g) now)) w.to_delete)

pub Reach-Inv : (p : Policy) (t : Thread) {s : System} → t.doing ≡ outside → Reach p t s → Inv s
Reach-Inv p t out at_start = start-Inv t out
Reach-Inv p t out (later r step) = Step-Inv p step (Reach-Inv p t out r)

module _ (p : Policy) (first : Thread) {s : System} (out : first.doing ≡ outside)
    (r : Reach p first s) where
  -- If the first thread starts outside, then in every state that any threads reach through the
  -- lock, the condition, yields and ends in any order, the number of threads between `Acquire` and
  -- `Release` and the value of the semaphore make 1 together, and no thread there is other than the
  -- lock's owner.
  pub mutual_exclusion :
      (count_all holders s + s.semaphore.value ≡ 1) × (count_all (intruders s.owner) s ≡ 0)
  mutual_exclusion =
      let inv : Inv s = Reach-Inv p first out r in (omega (arith, inv.free), inv.owned)

  -- If the first thread starts outside, then in every state that the threads reach, each thread is
  -- in one place at most: running, in the ready list, in the queue of the semaphore or in that of
  -- the condition.
  pub one_place : (i : ℕ) → census i s ≤ 1
  one_place i = (Reach-Inv p first out r).unique i

  -- If the first thread starts outside, then in every state that the threads reach, when a thread
  -- waits for the lock and the lock is free, some thread that tries to take it is running or ready.
  pub no_lost_wakeup :
      ¬ (s.semaphore.queue ≡ []) → s.semaphore.value ≡ 1 → 0 < on_cpu triers s.scheduler
  no_lost_wakeup waiting free = ground (arith, (Reach-Inv p first out r).woken, waiting)

  -- If the first thread starts outside, then in every state that the threads reach, `Release`,
  -- `Wait`, `Signal` and `Broadcast` of the current thread, when it holds the lock, run without an
  -- abort.
  pub operations_succeed :
      (t : Thread)
      → s.scheduler.current ≡ some t
      → t.doing ≡ holding
      → ((s' : System) × (release p t s ≡ ok s'))
        × ((s' : System) × (wait p t s ≡ ok s'))
        × ((s' : System) × (signal p t s ≡ ok s'))
        × ((s' : System) × (broadcast p t s ≡ ok s'))
  operations_succeed t now held =
      let inv : Inv s = Reach-Inv p first out r in
      let a = release-GoesOn p t s now held inv in
      let b = wait-Inv p t s now held inv in
      let c = signal-GoesOn p t s now held inv in
      let d = broadcast-GoesOn p t s now held inv in
      ((a.0, a.1), (b.0, b.1), (c.0, c.1), (d.0, d.1))
