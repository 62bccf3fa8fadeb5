-- ===== src/Synch/Blocking.antt =====
-- `Acquire`, and going to sleep, keep the invariant.
use nachos_3_4_lab.Prelude.{
  ℕ, ◌+◌, ◌-◌, ◌≡◌, refl, List, [], ◌∷◌, ◌++◌, false, ◌==◌, arith, Option, some, inl, inr, ap,
  Bool-cases,
}
use nachos_3_4_lab.Prelude.Outcome.{ok}
use nachos_3_4_lab.Scheduler.{Thread, acquiring, holding, Scheduler, sleep}
use nachos_3_4_lab.Scheduler.Tally.{Kind, one_if, tally, tally_current, tally-append}
use nachos_3_4_lab.Scheduler.Switch.{has_id, sleep-Switched}
use nachos_3_4_lab.Synch.{System, asleep, go_on, p_sleep, acquire}
use nachos_3_4_lab.Synch.Invariant.{
  Inv, is_holding, is_acquiring, holders, triers, strays, intruders, intruders-le, Inv-Parted,
}

-- A queue with the sleeping thread at its end.
pub tally-asleep :
    (g : Kind) (q : List Thread) (t : Thread)
    → tally g (q ++ asleep t ∷ []) ≡ tally g q + one_if (g t.id acquiring)
unfolding tally
tally-asleep g q t = omega (arith, tally-append g q (asleep t ∷ []))

module _ (t : Thread) (s : System) (now : s.scheduler.current ≡ some t)
    (free_hands : is_holding t.doing ≡ false) (inv : Inv s) where
  now_count : (g : Kind) → tally_current g s.scheduler.current ≡ one_if (g t.id t.doing)
  now_count g = ap (tally_current g) now

  p_sleep-Inv : s.semaphore.value ≡ 0 → (s' : System) × (p_sleep t s ≡ ok s') × Inv s'
  unfolding p_sleep
  p_sleep-Inv none_left =
      let (k, runs, w) = sleep-Switched s.scheduler (Inv-Parted inv) in
      let q : List Thread = s.semaphore.queue in
      let o : Option ℕ = s.owner in
      (
        record s { scheduler = k; semaphore = record s.semaphore { queue = q ++ asleep t ∷ [] } },
        rw runs refl,
        record {
          free =
              ground
                (arith, inv.free, w.counts holders, tally-asleep holders q t, now_count holders);
          owned = ground (arith, inv.owned, w.counts (intruders o), tally-asleep (intruders o) q t);
          queued = ground (arith, inv.queued, tally-asleep strays q t);
          waiters = inv.waiters;
          woken = inr (omega (arith, none_left));
          unique = λ i. ground (
            arith,
            inv.unique i,
            w.counts (has_id i),
            tally-asleep (has_id i) q t,
            now_count (has_id i),
          );
          gone = λ i e. ground (
            arith,
            inv.gone i (w.to_delete i e),
            w.counts (has_id i),
            tally-asleep (has_id i) q t,
            now_count (has_id i),
          );
        },
      )

  pub acquire-Inv : (s' : System) × (acquire t s ≡ ok s') × Inv s'
  unfolding acquire
  acquire-Inv = elim (Bool-cases (s.semaphore.value == 0)) [
    | inl empty ↦ rw empty (p_sleep-Inv (ground (arith, empty)))
    | inr taken ↦
        let o : Option ℕ = some t.id in
        (
          go_on (record t { doing = holding })
              (record s {
                semaphore = record s.semaphore { value = s.semaphore.value - 1 };
                owner = o;
              }),
          rw taken refl,
          record {
            free = ground (arith, inv.free, now_count holders, taken);
            owned = ground (
              arith,
              inv.free,
              now_count holders,
              taken,
              intruders-le o s.scheduler.ready_list,
              intruders-le o s.semaphore.queue,
              intruders-le o s.waiting,
            );
            queued = inv.queued;
            waiters = inv.waiters;
            woken = ground (arith, inv.woken, now_count triers);
            unique = λ i. ground (arith, inv.unique i, now_count (has_id i));
            gone = λ i e. ground (arith, inv.gone i e, now_count (has_id i));
          },
        )
  ]

  -- Going to sleep in the condition's queue.
  pub sleep_waiting-Inv :
      is_acquiring t.doing ≡ false
      → (k : Scheduler) × (sleep s.scheduler ≡ ok k)
        × Inv (record s { scheduler = k; waiting = s.waiting ++ asleep t ∷ [] })
  sleep_waiting-Inv out =
      let (k, runs, w) = sleep-Switched s.scheduler (Inv-Parted inv) in
      let q : List Thread = s.waiting in
      let o : Option ℕ = s.owner in
      (
        k,
        runs,
        record {
          free =
              ground
                (arith, inv.free, w.counts holders, tally-asleep holders q t, now_count holders);
          owned = ground (arith, inv.owned, w.counts (intruders o), tally-asleep (intruders o) q t);
          queued = inv.queued;
          waiters = ground (arith, inv.waiters, tally-asleep strays q t);
          woken = ground (arith, inv.woken, w.counts triers, now_count triers, out);
          unique = λ i. ground (
            arith,
            inv.unique i,
            w.counts (has_id i),
            tally-asleep (has_id i) q t,
            now_count (has_id i),
          );
          gone = λ i e. ground (
            arith,
            inv.gone i (w.to_delete i e),
            w.counts (has_id i),
            tally-asleep (has_id i) q t,
            now_count (has_id i),
          );
        },
      )
