-- ===== src/Scheduler/Tally.antt =====
-- How many threads there are of a kind.
use nachos_3_4_lab.Prelude.{
  ℕ, ◌+◌, ◌≡◌, ◌≤◌, refl, List, [], ◌∷◌, ◌++◌, Bool, if◌then◌else◌, arith, Option, none, some,
}
use nachos_3_4_lab.Scheduler.{Thread, Doing, Policy, by_priority, in_turn, sorted_insert, enqueue}

-- A kind of thread, by its number and by what it does; its status makes no difference.
abbrev pub Kind : Type 0
Kind = ℕ → Doing → Bool

abbrev pub one_if : Bool → ℕ
one_if b = if b then 1 else 0

unfoldable pub tally : Kind → List Thread → ℕ
tally f [] = 0
tally f (t ∷ ts) = one_if (f t.id t.doing) + tally f ts

abbrev pub tally_current : Kind → Option Thread → ℕ
tally_current f none = 0
tally_current f (some t) = one_if (f t.id t.doing)

pub tally-append : (f : Kind) (ts us : List Thread) → tally f (ts ++ us) ≡ tally f ts + tally f us
unfolding tally
tally-append f [] us = ground arith
tally-append f (t ∷ ts) us = ground (arith, tally-append f ts us)

tally-sorted_insert :
    (f : Kind) (t : Thread) (ts : List Thread)
    → tally f (sorted_insert t ts) ≡ one_if (f t.id t.doing) + tally f ts
unfolding tally sorted_insert
tally-sorted_insert f t [] = refl
tally-sorted_insert f t (u ∷ us) = ground (arith, tally-sorted_insert f t us)

-- A thread that is queued is counted, wherever the policy puts it.
pub tally-enqueue :
    (f : Kind) (p : Policy) (t : Thread) (ts : List Thread)
    → tally f (enqueue p t ts) ≡ one_if (f t.id t.doing) + tally f ts
unfolding enqueue tally
tally-enqueue f by_priority t ts = tally-sorted_insert f t ts
tally-enqueue f in_turn t ts = ground (arith, tally-append f ts (t ∷ []))

-- A kind that another one includes is not more frequent.
pub tally_mono :
    (f g : Kind) (ts : List Thread)
    → ((i : ℕ) (d : Doing) → one_if (f i d) ≤ one_if (g i d))
    → tally f ts ≤ tally g ts
unfolding tally
tally_mono f g [] h = omega arith
tally_mono f g (t ∷ ts) h = omega (arith, h t.id t.doing, tally_mono f g ts h)
