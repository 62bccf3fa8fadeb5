-- ===== src/Scheduler/Create.antt =====
-- The constructor of `Thread` in threads/thread.cc.
use nachos_3_4_lab.Prelude.{
  ℕ, zero, suc, ◌+◌, ◌^◌, ◌≡◌, ◌<◌, ◌⊎◌, ◌≢◌, refl, ap, List, [], ◌∷◌, false, ltb, leb, ◌==◌,
  if◌then◌else◌, arith, Option, none, some, Bool-cases, inl, inr, get_or, set, length,
}
use nachos_3_4_lab.Prelude.Outcome.{Outcome, ok, abort}
use nachos_3_4_lab.Scheduler.{Thread, just_created, outside}

-- `allocatedThreadID`; `none` is the result -1.
unfoldable pub allocated_from : ℕ → List ℕ → Option (ℕ × List ℕ)
allocated_from i [] = none
allocated_from i (b ∷ bs) =
    let rest = allocated_from (i + 1) bs in
    if b == 0
    then some (i, 1 ∷ bs)
    else elim rest [ none ↦ none | some (n, bs') ↦ some (n, b ∷ bs') ]

unfoldable pub allocated_thread_id : List ℕ → Option (ℕ × List ℕ)
unfolding allocated_from
allocated_thread_id thread_ids = allocated_from 0 thread_ids

-- What the constructor leaves in `priority`; `fresh` is what the new storage held there, and `pri` is
-- an `int`.
unfoldable pub chosen_priority : (fresh pri : ℕ) → ℕ
chosen_priority fresh pri = if leb (2 ^ 31) pri then fresh else if ltb 10 pri then fresh else pri

-- `Thread::Thread`
unfoldable pub create : (fresh pri : ℕ) → List ℕ → Outcome (Thread × List ℕ)
create fresh pri thread_ids = elim (allocated_thread_id thread_ids) [
  | none ↦ abort
  | some (i, thread_ids') ↦ ok (
    record { id = i; priority = chosen_priority fresh pri; status = just_created; doing = outside },
    thread_ids',
  )
]

-- The first free number, taken.
pub record Allocated (ids : List ℕ) (n : ℕ) (ids' : List ℕ) : Type 0 where
  pub in_range : n < length ids
  pub was_free : get_or ids n 1 ≡ 0
  pub none_before : (j : ℕ) → j < n → get_or ids j 0 ≢ 0
  pub taken : ids' ≡ set ids n 1

-- Every number is taken.
abbrev pub AllTaken : List ℕ → Type 0
AllTaken ids = (j : ℕ) → j < length ids → get_or ids j 0 ≢ 0

before_cons :
    (b : ℕ) (bs : List ℕ) (n : ℕ)
    → (b == 0) ≡ false
    → ((j : ℕ) → j < n → get_or bs j 0 ≢ 0)
    → (j : ℕ) → j < suc n
    → get_or (b ∷ bs) j 0 ≢ 0
before_cons b bs n e h zero lt = ground (arith, e)
before_cons b bs n e h (suc j) lt = h j (omega arith)

-- Either the first free number is taken, or none is free.
allocated_from_cases :
    (i : ℕ) (ids : List ℕ)
    → ((n : ℕ) × (ids' : List ℕ) × (allocated_from i ids ≡ some (i + n, ids'))
        × Allocated ids n ids')
      ⊎ ((allocated_from i ids ≡ none) × AllTaken ids)
unfolding allocated_from
allocated_from_cases i [] = inr (refl, λ j lt. ground (arith, lt))
allocated_from_cases i (b ∷ bs) = elim (Bool-cases (b == 0)) [
  | inl e ↦ inl (
    0,
    1 ∷ bs,
    rw e (ap (λ n. some (n, 1 ∷ bs)) (omega arith)),
    record {
      in_range = omega arith;
      was_free = ground (arith, e);
      none_before = λ j lt. absurd (omega arith);
      taken = refl;
    },
  )
  | inr e ↦ elim (allocated_from_cases (i + 1) bs) [
    | inl (n, ids', runs, w) ↦ inl (
      suc n,
      b ∷ ids',
      rw (e, runs) (ap (λ n. some (n, b ∷ ids')) (omega arith)),
      record {
        in_range = omega (arith, w.in_range);
        was_free = w.was_free;
        none_before = before_cons b bs n e w.none_before;
        taken = ap (λ x. b ∷ x) w.taken;
      },
    )
    | inr (stuck, full) ↦ inr (rw (e, stuck) refl, before_cons b bs (length bs) e full)
  ]
]

-- A thread as the constructor leaves it: a priority from 0 to 10 is as asked for, and any other is
-- what the storage held.
pub record Created (fresh pri : ℕ) (ids : List ℕ) (t : Thread) (ids' : List ℕ) : Type 0 where
  pub number : Allocated ids t.id ids'
  pub its_priority : t.priority ≡ (if leb pri 10 then pri else fresh)
  pub its_status : t.status ≡ just_created

chosen_priority_lem :
    (fresh pri : ℕ) → chosen_priority fresh pri ≡ (if leb pri 10 then pri else fresh)
unfolding chosen_priority
chosen_priority_lem fresh pri = ground arith

-- The constructor of a thread gives it the first free number and takes that, or fails an ASSERT if
-- no number is free; its priority is the one asked for when that is from 0 to 10, and else what the
-- new storage held.
pub create-Created :
    (fresh pri : ℕ) (ids : List ℕ)
    → ((t : Thread) × (ids' : List ℕ) × (create fresh pri ids ≡ ok (t, ids'))
        × Created fresh pri ids t ids')
      ⊎ ((create fresh pri ids ≡ abort) × AllTaken ids)
unfolding create allocated_thread_id
create-Created fresh pri ids = elim (allocated_from_cases 0 ids) [
  | inl (n, ids', runs, w) ↦
      let thread : ℕ → Thread = λ i. record {
        id = i;
        priority = chosen_priority fresh pri;
        status = just_created;
        doing = outside;
      } in
      inl (
        thread n,
        ids',
        rw (create, runs) (ap (λ i. ok (thread i, ids')) (omega arith)),
        record { number = w; its_priority = chosen_priority_lem fresh pri; its_status = refl },
      )
  | inr (stuck, full) ↦ inr (rw (create, stuck) refl, full)
]
