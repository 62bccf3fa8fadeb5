-- ===== src/LinkedList/Whole.antt =====
-- The operations that go through a whole list.
use nachos_3_4_lab.Prelude.{
  ℕ, zero, suc, ◌<◌, ◌≡◌, refl, ap, List, [], ◌∷◌, false, none, ◌==◌, if◌then◌else◌, length, arith,
}
use nachos_3_4_lab.Prelude.Outcome.{Outcome, ok, ◌>>=◌}
use nachos_3_4_lab.LinkedList.{Heap, Lists, free, remove, delete_all, mapcar}
use nachos_3_4_lab.LinkedList.Chain.{Node, Chain, Represents, start, absent, fetch-stored}
use nachos_3_4_lab.LinkedList.Ends.{sorted_remove-Represents, sorted_remove_nil}

-- No item is NULL.
abbrev pub AreItems : List Node → Type 0
AreItems [] = Unit {0}
AreItems (n ∷ ns) = (0 < n.item) × AreItems ns

-- If a list object represents a sequence in which no item is NULL, and the loop is given more
-- rounds than there are elements, then the destructor of `List` ends without an abort, the list is
-- empty, every one of its elements is freed, and the rest of the heap is as before.
pub delete_all-Represents :
    (rounds : ℕ) (ns : List Node) (s : Lists)
    → Represents s ns
    → AreItems ns
    → length ns < rounds
    → (s' : Lists) × (delete_all rounds s ≡ ok s')
      × Represents s' []
      × ((a : ℕ) → s'.1 a ≡ (if absent a ns then s.1 a else none))
unfolding delete_all remove
delete_all-Represents zero ns s r items enough = absurd (omega arith)
delete_all-Represents (suc k) [] s r items enough =
    (s, rw (sorted_remove_nil s r) refl, r, λ a. refl)
delete_all-Represents (suc k) (n ∷ ns) s r (item, items) enough =
    let (s₁, removed, r₁, heap) = sorted_remove-Represents n ns s r in
    let (s', runs, r', freed) = delete_all-Represents k ns s₁ r₁ items (omega arith) in
    let more : (n.item == 0) ≡ false = ground (arith, item) in
    (
      s',
      rw (removed, more, runs) refl,
      r',
      λ a.
          let before : s₁.1 a ≡ free n.addr s.1 a = ap (λ h. h a) heap in
          ground (arith, freed a, before),
    )

-- The function applied to the items of a sequence in order.
abbrev each {ℓ} : {S : Type ℓ} → (ℕ → S → Outcome S) → List Node → S → Outcome S
each func [] s = ok s
each func (n ∷ ns) s = func n.item s >>= each func ns

bind_each {ℓ} :
    {S : Type ℓ} (r : Outcome S) (f g : S → Outcome S)
    → ((s : S) → f s ≡ g s)
    → (r >>= f) ≡ (r >>= g)
bind_each (ok s) f g same = same s
bind_each Outcome.abort f g same = refl
bind_each Outcome.wild f g same = refl

-- If the heap holds the elements of a sequence, each with a pointer to the next, and the loop is
-- given more rounds than there are elements, then `Mapcar` from the first one is the function
-- applied to the items of the sequence in order, with the abort or the wild access of the first
-- call that has one.
mapcar-each {ℓ} :
    {S : Type ℓ} (rounds : ℕ) (func : ℕ → S → Outcome S) (ns : List Node) (h : Heap) (s : S)
    → Chain h ns
    → length ns < rounds
    → mapcar rounds func (start ns) h s ≡ each func ns s
unfolding mapcar Chain
mapcar-each zero func ns h s chain enough = absurd (omega arith)
mapcar-each (suc k) func [] h s chain enough = refl
mapcar-each (suc k) func (n ∷ ns) h s (here, chain) enough =
    rw (mapcar, fetch-stored h n.addr _ here)
      (bind_each (func n.item s) (mapcar k func (start ns) h) (each func ns)
        (λ s'. mapcar-each k func ns h s' chain (omega arith)))
