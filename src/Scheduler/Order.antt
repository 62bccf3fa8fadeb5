-- ===== src/Scheduler/Order.antt =====
-- With `SCHED_PRIORITY`, the ready list is in order of priority, and the best thread runs.
use nachos_3_4_lab.Prelude.{
  ℕ, ◌≡◌, ◌≤◌, refl, sym, subst, ap, List, [], ◌∷◌, ltb, arith, Option, none, some, Bool-cases, inl,
  inr,
}
use nachos_3_4_lab.Prelude.Outcome.{ok}
use nachos_3_4_lab.Scheduler.{
  Thread, by_priority, Scheduler, ready, running, set_status, sorted_insert, enqueue, ready_to_run,
  take_if_better, next_after_yield, run, switch_to, yield_thread,
}
use nachos_3_4_lab.Scheduler.Switch.{Parted, Parted-head, on_cpu, yield_thread-Switched}
use nachos_3_4_lab.Scheduler.Tally.{Kind, tally_current}

-- No thread of the list has a smaller number for its priority.
unfoldable pub NoBetter : ℕ → List Thread → Type 0
NoBetter n [] = Unit {0}
NoBetter n (t ∷ ts) = (n ≤ t.priority) × NoBetter n ts

unfoldable pub IsSorted : List Thread → Type 0
unfolding NoBetter
IsSorted [] = Unit {0}
IsSorted (t ∷ ts) = NoBetter t.priority ts × IsSorted ts

NoBetter-weaken : (m n : ℕ) (ts : List Thread) → m ≤ n → NoBetter n ts → NoBetter m ts
unfolding NoBetter
NoBetter-weaken m n [] le h = tt
NoBetter-weaken m n (t ∷ ts) le (here, h) = (omega arith, NoBetter-weaken m n ts le h)

sorted_insert-NoBetter :
    (n : ℕ) (t : Thread) (ts : List Thread)
    → n ≤ t.priority
    → NoBetter n ts
    → NoBetter n (sorted_insert t ts)
unfolding NoBetter sorted_insert
sorted_insert-NoBetter n t [] le h = (le, tt)
sorted_insert-NoBetter n t (u ∷ us) le (here, h) = elim (Bool-cases (ltb t.priority u.priority)) [
  | inl e ↦ rw e (le, (here, h))
  | inr e ↦ rw e (here, sorted_insert-NoBetter n t us le h)
]

pub sorted_insert-IsSorted :
    (t : Thread) (ts : List Thread) → IsSorted ts → IsSorted (sorted_insert t ts)
unfolding IsSorted NoBetter sorted_insert
sorted_insert-IsSorted t [] h = (tt, tt)
sorted_insert-IsSorted t (u ∷ us) (best, h) = elim (Bool-cases (ltb t.priority u.priority)) [
  | inl e ↦
      let le : t.priority ≤ u.priority = ground (arith, e) in
      rw e ((le, NoBetter-weaken t.priority u.priority us le best), (best, h))
  | inr e ↦ rw e (
    sorted_insert-NoBetter u.priority t us (ground (arith, e)) best,
    sorted_insert-IsSorted t us h,
  )
]

-- The thread that runs, and a ready list in order that has no better one.
pub record BestRuns (k : Scheduler) (u : Thread) : Type 0 where
  pub runs : k.current ≡ some u
  pub no_better : NoBetter u.priority k.ready_list
  pub sorted : IsSorted k.ready_list

yield_parts :
    (t : Thread) (ts : List Thread) (l n : ℕ) (td : Option ℕ)
    → Parted td ts
    → IsSorted ts
    → (k : Scheduler) × (u : Thread) × (yield_thread by_priority t (record {
      current = some t;
      ready_list = ts;
      last_switch_tick = l;
      system_ticks = n;
      to_be_destroyed = td;
    })
        ≡ ok k)
      × BestRuns k u
unfolding yield_thread next_after_yield take_if_better switch_to ready_to_run run enqueue IsSorted
    NoBetter
yield_parts t [] l n td h sorted = (
  record {
    current = some t;
    ready_list = [];
    last_switch_tick = l;
    system_ticks = n;
    to_be_destroyed = td;
  },
  t,
  refl,
  record { runs = refl; no_better = tt; sorted = tt },
)
yield_parts t (u ∷ us) l n td h (best, sorted) = elim (Bool-cases (ltb u.priority t.priority)) [
  | inl better ↦ (
    record {
      current = some (set_status running u);
      ready_list = sorted_insert (set_status ready t) us;
      last_switch_tick = n;
      system_ticks = n;
      to_be_destroyed = none;
    },
    set_status running u,
    rw (better, Parted-head td u us h) refl,
    record {
      runs = refl;
      no_better =
          sorted_insert-NoBetter u.priority (set_status ready t) us (ground (arith, better)) best;
      sorted = sorted_insert-IsSorted (set_status ready t) us sorted;
    },
  )
  | inr worse ↦
      let le : t.priority ≤ u.priority = ground (arith, worse) in
      (
        record {
          current = some t;
          ready_list = sorted_insert u us;
          last_switch_tick = l;
          system_ticks = n;
          to_be_destroyed = td;
        },
        t,
        rw worse refl,
        record {
          runs = refl;
          no_better =
              sorted_insert-NoBetter t.priority u us le
                (NoBetter-weaken t.priority u.priority us le best);
          sorted = sorted_insert-IsSorted u us sorted;
        },
      )
]

yield_thread_best :
    (t : Thread) (k : Scheduler)
    → k.current ≡ some t
    → Parted k.to_be_destroyed k.ready_list
    → IsSorted k.ready_list
    → (k' : Scheduler) × (u : Thread) × (yield_thread by_priority t k ≡ ok k') × BestRuns k' u
yield_thread_best t k now h sorted =
    subst
      (λ x.
        (k' : Scheduler) × (u : Thread) × (yield_thread by_priority t x ≡ ok k') × BestRuns k' u)
      (sym (ap (λ c. record k { current = c }) now))
      (yield_parts t k.ready_list k.last_switch_tick k.system_ticks k.to_be_destroyed h sorted)

-- With `SCHED_PRIORITY`, a ready list in order of priority and the thread to be deleted not in it,
-- `Yield` of the current thread runs without an abort; afterwards some thread runs, none in the
-- ready list has a smaller number for its priority, that list is in order again, and of each kind
-- there are as many threads running or ready as before.
pub yield_thread-BestRuns :
    (t : Thread) (k : Scheduler)
    → k.current ≡ some t
    → Parted k.to_be_destroyed k.ready_list
    → IsSorted k.ready_list
    → (k' : Scheduler) × (u : Thread) × (yield_thread by_priority t k ≡ ok k')
      × BestRuns k' u
      × ((g : Kind) → on_cpu g k' ≡ on_cpu g k)
yield_thread-BestRuns t k now h sorted =
    let (k', u, runs, w) = yield_thread_best t k now h sorted in
    let (k₂, runs₂, kept) = yield_thread-Switched by_priority t k now h in
    let same : k₂ ≡ k' = cc in
    (
      k',
      u,
      runs,
      w,
      λ g.
          subst (λ x. on_cpu g x ≡ on_cpu g k) same
            (omega (arith, kept.counts g, ap (tally_current g) now)),
    )
