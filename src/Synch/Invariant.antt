-- ===== src/Synch/Invariant.antt =====
-- The invariant of the lock and its condition, and what waking a thread does to the counts.
use nachos_3_4_lab.Prelude.{
  ℕ, ◌+◌, ◌≡◌, ◌≤◌, ◌⊎◌, refl, List, [], ◌∷◌, Bool, true, false, not, ◌&&◌, arith, Option, some,
  inl, inr,
}
use nachos_3_4_lab.Scheduler.{
  Policy, Thread, Doing, outside, acquiring, holding, Scheduler, ready, set_status, ready_to_run,
  is_not,
}
use nachos_3_4_lab.Scheduler.Tally.{Kind, one_if, tally, tally-enqueue, tally_mono}
use nachos_3_4_lab.Scheduler.Switch.{on_cpu, Parted}
use nachos_3_4_lab.Synch.{System, wake_first}
use nachos_3_4_lab.Synch.Step.{count_all, census}

abbrev pub is_holding : Doing → Bool
is_holding holding = true
is_holding _ = false

abbrev pub is_acquiring : Doing → Bool
is_acquiring acquiring = true
is_acquiring _ = false

-- Those between `Acquire` and `Release`, those in the loop of `P`, and the others than those.
abbrev pub holders : Kind
holders i d = is_holding d

abbrev pub triers : Kind
triers i d = is_acquiring d

abbrev pub strays : Kind
strays i d = not (is_acquiring d)

-- Those between `Acquire` and `Release` that the lock does not name as its owner.
abbrev pub intruders : Option ℕ → Kind
intruders o i d = is_holding d && is_not o i

pub record Inv (s : System) : Type 0 where
  pub free : s.semaphore.value + count_all holders s ≡ 1
  pub owned : count_all (intruders s.owner) s ≡ 0
  pub queued : tally strays s.semaphore.queue ≡ 0
  pub waiters : tally strays s.waiting ≡ 0
  pub woken : (s.semaphore.queue ≡ []) ⊎ (s.semaphore.value ≤ on_cpu triers s.scheduler)
  pub unique : (i : ℕ) → census i s ≤ 1
  pub gone : (i : ℕ) → s.scheduler.to_be_destroyed ≡ some i → census i s ≡ 0

pub intruders-le : (o : Option ℕ) (ts : List Thread) → tally (intruders o) ts ≤ tally holders ts
intruders-le o ts = tally_mono (intruders o) holders ts λ i d. by_doing o i d
  where
    by_doing : (o : Option ℕ) (i : ℕ) (d : Doing) → one_if (intruders o i d) ≤ one_if (holders i d)
    by_doing o i outside = omega arith
    by_doing o i acquiring = omega arith
    by_doing o i holding = ground arith

pub holders-le : (ts : List Thread) → tally holders ts ≤ tally strays ts
holders-le ts = tally_mono holders strays ts λ i d. by_doing d
  where
    by_doing : (d : Doing) → one_if (is_holding d) ≤ one_if (not (is_acquiring d))
    by_doing outside = omega arith
    by_doing acquiring = omega arith
    by_doing holding = omega arith

pub Inv-Parted : {s : System} → Inv s → Parted s.scheduler.to_be_destroyed s.scheduler.ready_list
Inv-Parted v i e = ground (arith, v.gone i e)

-- What a wake-up does, with nobody to wake and with somebody.
pub record Woken (q : List Thread) (k : Scheduler) (w : List Thread × Scheduler) : Type 0 where
  pub same_current : w.1.current ≡ k.current
  pub same_deleted : w.1.to_be_destroyed ≡ k.to_be_destroyed
  pub counts : (g : Kind) → on_cpu g w.1 + tally g w.0 ≡ on_cpu g k + tally g q
  pub more : (g : Kind) → on_cpu g k ≤ on_cpu g w.1
  pub fewer : (g : Kind) → tally g w.0 ≤ tally g q
  pub one_more : (w.0 ≡ []) ⊎ (on_cpu triers k + 1 ≤ on_cpu triers w.1 + tally strays q)

pub wake_first-Woken : (p : Policy) (q : List Thread) (k : Scheduler) → Woken q k (wake_first p q k)
unfolding wake_first ready_to_run tally
wake_first-Woken p [] k = record {
  same_current = refl;
  same_deleted = refl;
  counts = λ g. refl;
  more = λ g. omega arith;
  fewer = λ g. omega arith;
  one_more = inl refl;
}
wake_first-Woken p (u ∷ us) k = record {
  same_current = refl;
  same_deleted = refl;
  counts = λ g. omega (arith, tally-enqueue g p (set_status ready u) k.ready_list);
  more = λ g. omega (arith, tally-enqueue g p (set_status ready u) k.ready_list);
  fewer = λ g. omega arith;
  one_more = inr (ground (arith, tally-enqueue triers p (set_status ready u) k.ready_list));
}
