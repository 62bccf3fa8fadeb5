-- ===== src/Synch/Holding.antt =====
-- `Release`, `Wait`, `Signal` and `Broadcast` by the thread that holds the lock keep the invariant,
-- and no ASSERT of theirs fails.
use nachos_3_4_lab.Prelude.{
  ℕ, ◌≡◌, ◌∙◌, refl, sym, List, [], ◌∷◌, ◌++◌, true, arith, Option, none, some, ap,
}
use nachos_3_4_lab.Prelude.Outcome.{ok}
use nachos_3_4_lab.Scheduler.{Policy, Thread, outside, holding, Scheduler}
use nachos_3_4_lab.Scheduler.Tally.{Kind, one_if, tally_current}
use nachos_3_4_lab.Scheduler.Switch.{has_id}
use nachos_3_4_lab.Synch.{
  System, asleep, go_on, v, is_owner, release, wait, signal, signal_all, broadcast, wake_first,
}
use nachos_3_4_lab.Synch.Invariant.{
  Inv, holders, triers, strays, intruders, intruders-le, Woken, wake_first-Woken,
}
use nachos_3_4_lab.Synch.Blocking.{sleep_waiting-Inv}

-- The current thread, and the invariant, after an operation that keeps the processor.
abbrev pub GoesOn : Thread → System → Type 0
GoesOn t s = (s.scheduler.current ≡ some t) × Inv s

owns : (o : Option ℕ) (t : Thread) → one_if (intruders o t.id holding) ≡ 0 → is_owner o t ≡ true
owns none t h = absurd (omega arith)
owns (some i) t h = ground (arith, h)

module _ (p : Policy) (t : Thread) (s : System) (now : s.scheduler.current ≡ some t)
    (held : t.doing ≡ holding) (inv : Inv s) where
  now_count : (g : Kind) → tally_current g s.scheduler.current ≡ one_if (g t.id holding)
  now_count g = ap (tally_current g) now ∙ ap (λ d. one_if (g t.id d)) held

  pub owner_lem : is_owner s.owner t ≡ true
  owner_lem = owns s.owner t (omega (arith, inv.owned, now_count (intruders s.owner)))

  pub release-GoesOn :
      (s' : System) × (release p t s ≡ ok s') × GoesOn (record t { doing = outside }) s'
  unfolding release v
  release-GoesOn =
      let q : List Thread = s.semaphore.queue in
      let k : Scheduler = record s.scheduler { current = some (record t { doing = outside }) } in
      let w : Woken q k (wake_first p q k) = wake_first-Woken p q k in
      let r : List Thread = s.scheduler.ready_list in
      (
        record (v p (go_on (record t { doing = outside }) s)) { owner = none },
        rw owner_lem refl,
        (
          w.same_current,
          record {
            free = omega (arith, inv.free, now_count holders, w.counts holders);
            owned = omega (
              arith,
              inv.free,
              now_count holders,
              w.counts (intruders none),
              intruders-le none r,
              intruders-le none q,
              intruders-le none s.waiting,
            );
            queued = omega (arith, inv.queued, w.fewer strays);
            waiters = inv.waiters;
            woken = ground (arith, w.one_more, inv.queued, inv.free, now_count holders);
            unique = λ i. omega (arith, inv.unique i, w.counts (has_id i), now_count (has_id i));
            gone = λ i e. omega (
              arith,
              inv.gone i (sym w.same_deleted ∙ e),
              w.counts (has_id i),
              now_count (has_id i),
            );
          },
        ),
      )

  pub signal-GoesOn : (s' : System) × (signal p t s ≡ ok s') × GoesOn t s'
  unfolding signal
  signal-GoesOn =
      let q : List Thread = s.waiting in
      let w : Woken q s.scheduler (wake_first p q s.scheduler) = wake_first-Woken p q s.scheduler in
      (
        record s {
          scheduler = (wake_first p q s.scheduler).1;
          waiting = (wake_first p q s.scheduler).0;
        },
        rw owner_lem refl,
        (
          w.same_current ∙ now,
          record {
            free = omega (arith, inv.free, w.counts holders);
            owned = omega (arith, inv.owned, w.counts (intruders s.owner));
            queued = inv.queued;
            waiters = omega (arith, inv.waiters, w.fewer strays);
            woken = ground (arith, inv.woken, w.more triers);
            unique = λ i. omega (arith, inv.unique i, w.counts (has_id i));
            gone = λ i e. omega (arith, inv.gone i (sym w.same_deleted ∙ e), w.counts (has_id i));
          },
        ),
      )

  pub wait-Inv : (s' : System) × (wait p t s ≡ ok s') × Inv s'
  unfolding wait
  wait-Inv =
      let (s₁, released, (now₁, inv₁)) = release-GoesOn in
      let (k, slept, inv₂) =
        sleep_waiting-Inv (record t { doing = outside }) s₁ now₁ refl inv₁ refl in
      (
        record s₁ { scheduler = k; waiting = s₁.waiting ++ asleep t ∷ [] },
        rw (owner_lem, released, slept) refl,
        inv₂,
      )

pub signal_all-GoesOn :
    (us : List Thread) (p : Policy) (t : Thread) (s : System)
    → s.scheduler.current ≡ some t
    → t.doing ≡ holding
    → Inv s
    → (s' : System) × (signal_all us p t s ≡ ok s') × GoesOn t s'
unfolding signal_all
signal_all-GoesOn [] p t s now held inv = (s, refl, (now, inv))
signal_all-GoesOn (u ∷ us) p t s now held inv =
    let (s₁, one, (now₁, inv₁)) = signal-GoesOn p t s now held inv in
    let (s', rest, goes) = signal_all-GoesOn us p t s₁ now₁ held inv₁ in (s', rw one rest, goes)

pub broadcast-GoesOn :
    (p : Policy) (t : Thread) (s : System)
    → s.scheduler.current ≡ some t
    → t.doing ≡ holding
    → Inv s
    → (s' : System) × (broadcast p t s ≡ ok s') × GoesOn t s'
unfolding broadcast
broadcast-GoesOn p t s now held inv =
    rw (owner_lem p t s now held inv) (signal_all-GoesOn s.waiting p t s now held inv)
