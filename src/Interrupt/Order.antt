-- ===== src/Interrupt/Order.antt =====
-- `Schedule` keeps the pending interrupts in order of time.
use nachos_3_4_lab.Prelude.{
  ℕ, ◌+◌, ◌<◌, ◌≤◌, ◌≡◌, refl, sym, subst, List, [], ◌∷◌, true, false, ltb, arith, Bool-cases, inl,
  inr, lt→ltb,
}
use nachos_3_4_lab.Prelude.Outcome.{ok, int_sum_fits}
use nachos_3_4_lab.Interrupt.{IntType, PendingInterrupt, Interrupt, insert_pending, schedule}
use nachos_3_4_lab.Interrupt.Due.{due, Sorted, Sorted-rest, due-insert_pending}

before :
    (p q : PendingInterrupt) (ps : List PendingInterrupt)
    → ltb p.when q.when ≡ true
    → insert_pending p (q ∷ ps) ≡ p ∷ q ∷ ps
unfolding insert_pending
before p q ps h = rw h refl

behind :
    (p q : PendingInterrupt) (ps : List PendingInterrupt)
    → ltb p.when q.when ≡ false
    → insert_pending p (q ∷ ps) ≡ q ∷ insert_pending p ps
unfolding insert_pending
behind p q ps h = rw h refl

-- An interrupt that is not earlier stays in front.
front :
    (p q : PendingInterrupt) (ps : List PendingInterrupt)
    → q.when ≤ p.when
    → Sorted (q ∷ ps)
    → Sorted (insert_pending p ps)
    → Sorted (q ∷ insert_pending p ps)
unfolding insert_pending Sorted
front p q [] le h ih = (le, tt)
front p q (r ∷ ps) le h ih = elim (Bool-cases (ltb p.when r.when)) [
  | inl e ↦
      subst (λ t. Sorted (q ∷ t)) (sym (before p r ps e)) (le, subst Sorted (before p r ps e) ih)
  | inr e ↦
      subst (λ t. Sorted (q ∷ t)) (sym (behind p r ps e)) (h.0, subst Sorted (behind p r ps e) ih)
]

insert_pending-Sorted :
    (p : PendingInterrupt) (ps : List PendingInterrupt) → Sorted ps → Sorted (insert_pending p ps)
unfolding insert_pending Sorted
insert_pending-Sorted p [] h = tt
insert_pending-Sorted p (q ∷ ps) h = elim (Bool-cases (ltb p.when q.when)) [
  | inl e ↦ subst Sorted (sym (before p q ps e)) (ground (arith, e), h)
  | inr e ↦
      subst Sorted (sym (behind p q ps e))
        (front p q ps (ground (arith, e)) h (insert_pending-Sorted p ps (Sorted-rest q ps h)))
]

-- With the pending interrupts in order of time, `Schedule` for a positive time from now that the clock
-- has room for succeeds,
-- changes nothing but the pending interrupts, keeps their order, and makes none more due.
pub schedule-Sorted :
    (handler arg from_now : ℕ) (type : IntType) (i : Interrupt)
    → 0 < from_now
    → i.total_ticks + from_now < 0x8000_0000
    → Sorted i.pending
    → (i' : Interrupt) × (schedule handler arg from_now type i ≡ ok i')
      × (i' ≡ record i { pending = i'.pending })
      × Sorted i'.pending
      × (due i'.total_ticks i'.pending ≡ due i.total_ticks i.pending)
unfolding schedule due
schedule-Sorted handler arg from_now type i later no_overflow sorted =
    let p : PendingInterrupt = record {
      handler = handler;
      arg = arg;
      when = i.total_ticks + from_now;
      type = type;
    } in
    (
      record i { pending = insert_pending p i.pending },
      rw (int_sum_fits i.total_ticks from_now no_overflow, lt→ltb 0 from_now later) refl,
      refl,
      insert_pending-Sorted p i.pending sorted,
      ground (arith, due-insert_pending i.total_ticks p i.pending),
    )
