-- ===== src/Scheduler/Switch.antt =====
-- Switching threads loses none and makes none.
use nachos_3_4_lab.Prelude.{
  ℕ, ◌+◌, ◌≡◌, refl, List, [], ◌∷◌, true, ltb, ◌==◌, arith, Option, none, some, Bool-cases, inl,
  inr, subst, sym, ap,
}
use nachos_3_4_lab.Prelude.Outcome.{ok}
use nachos_3_4_lab.Scheduler.{
  Thread, Policy, by_priority, in_turn, Scheduler, ready, running, set_status, enqueue,
  ready_to_run, next_after_sleep, take_if_better, next_after_yield, is_not, run, run_or_idle,
  switch_to, yield_thread, sleep,
}
use nachos_3_4_lab.Scheduler.Tally.{Kind, one_if, tally, tally_current, tally-enqueue}

abbrev pub has_id : ℕ → Kind
has_id i id doing = id == i

-- The thread that is to be deleted is not in the ready list.
abbrev pub Parted : Option ℕ → List Thread → Type 0
Parted td ts = (i : ℕ) → td ≡ some i → tally (has_id i) ts ≡ 0

abbrev pub on_cpu : Kind → Scheduler → ℕ
on_cpu g k = tally_current g k.current + tally g k.ready_list

-- After a switch: `n` threads of each kind are current or ready.
pub record Switched (td : Option ℕ) (n : Kind → ℕ) (k' : Scheduler) : Type 0 where
  pub counts : (g : Kind) → on_cpu g k' ≡ n g
  pub to_delete : (i : ℕ) → k'.to_be_destroyed ≡ some i → td ≡ some i

pub Parted-head :
    (td : Option ℕ) (u : Thread) (us : List Thread) → Parted td (u ∷ us) → is_not td u.id ≡ true
unfolding tally
Parted-head none u us h = refl
Parted-head (some i) u us h = ground (arith, h i refl)

sleep_parts :
    (c : Option Thread) (ts : List Thread) (l n : ℕ) (td : Option ℕ)
    → Parted td ts
    → (k' : Scheduler) × (sleep (record {
      current = c;
      ready_list = ts;
      last_switch_tick = l;
      system_ticks = n;
      to_be_destroyed = td;
    })
        ≡ ok k')
      × Switched td (λ g. tally g ts) k'
unfolding sleep next_after_sleep run_or_idle run tally
sleep_parts c [] l n td h = (
  record {
    current = none;
    ready_list = [];
    last_switch_tick = n;
    system_ticks = n;
    to_be_destroyed = td;
  },
  refl,
  record { counts = λ g. refl; to_delete = λ i e. e },
)
sleep_parts c (u ∷ us) l n td h = (
  record {
    current = some (set_status running u);
    ready_list = us;
    last_switch_tick = n;
    system_ticks = n;
    to_be_destroyed = none;
  },
  rw (Parted-head td u us h) refl,
  record { counts = λ g. refl; to_delete = λ i e. cc },
)

pub sleep-Switched :
    (k : Scheduler)
    → Parted k.to_be_destroyed k.ready_list
    → (k' : Scheduler) × (sleep k ≡ ok k')
      × Switched k.to_be_destroyed (λ g. tally g k.ready_list) k'
sleep-Switched k h =
    sleep_parts k.current k.ready_list k.last_switch_tick k.system_ticks k.to_be_destroyed h

yield_parts :
    (p : Policy) (t : Thread) (ts : List Thread) (l n : ℕ) (td : Option ℕ)
    → Parted td ts
    → (k' : Scheduler) × (yield_thread p t (record {
      current = some t;
      ready_list = ts;
      last_switch_tick = l;
      system_ticks = n;
      to_be_destroyed = td;
    })
        ≡ ok k')
      × Switched td (λ g. one_if (g t.id t.doing) + tally g ts) k'
unfolding yield_thread next_after_yield take_if_better switch_to ready_to_run run tally
yield_parts p t [] l n td h = (
  record {
    current = some t;
    ready_list = [];
    last_switch_tick = l;
    system_ticks = n;
    to_be_destroyed = td;
  },
  refl,
  record { counts = λ g. refl; to_delete = λ i e. e },
)
yield_parts in_turn t (u ∷ us) l n td h = (
  record {
    current = some (set_status running u);
    ready_list = enqueue in_turn (set_status ready t) us;
    last_switch_tick = n;
    system_ticks = n;
    to_be_destroyed = none;
  },
  rw (Parted-head td u us h) refl,
  record {
    counts = λ g. ground (arith, tally-enqueue g in_turn (set_status ready t) us);
    to_delete = λ i e. cc;
  },
)
yield_parts by_priority t (u ∷ us) l n td h = elim (Bool-cases (ltb u.priority t.priority)) [
  | inl better ↦ (
    record {
      current = some (set_status running u);
      ready_list = enqueue by_priority (set_status ready t) us;
      last_switch_tick = n;
      system_ticks = n;
      to_be_destroyed = none;
    },
    rw (better, Parted-head td u us h) refl,
    record {
      counts = λ g. ground (arith, tally-enqueue g by_priority (set_status ready t) us);
      to_delete = λ i e. cc;
    },
  )
  | inr worse ↦ (
    record {
      current = some t;
      ready_list = enqueue by_priority u us;
      last_switch_tick = l;
      system_ticks = n;
      to_be_destroyed = td;
    },
    rw worse refl,
    record { counts = λ g. ground (arith, tally-enqueue g by_priority u us); to_delete = λ i e. e },
  )
]

pub yield_thread-Switched :
    (p : Policy) (t : Thread) (k : Scheduler)
    → k.current ≡ some t
    → Parted k.to_be_destroyed k.ready_list
    → (k' : Scheduler) × (yield_thread p t k ≡ ok k')
      × Switched k.to_be_destroyed (λ g. one_if (g t.id t.doing) + tally g k.ready_list) k'
yield_thread-Switched p t k now h =
    let same : k ≡ record k { current = some t } = ap (λ c. record k { current = c }) now in
    subst
      (λ x.
        (k' : Scheduler) × (yield_thread p t x ≡ ok k')
        × Switched k.to_be_destroyed (λ g. one_if (g t.id t.doing) + tally g k.ready_list) k')
      (sym same)
      (yield_parts p t k.ready_list k.last_switch_tick k.system_ticks k.to_be_destroyed h)
