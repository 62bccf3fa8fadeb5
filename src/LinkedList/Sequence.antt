-- ===== src/LinkedList/Sequence.antt =====
-- The list operations as operations on a sequence of elements.
use nachos_3_4_lab.Prelude.{
  ℕ, ◌+◌, ◌≤◌, ◌≡◌, ◌∙◌, refl, sym, subst, List, [], ◌∷◌, true, false, none, some, ltb, length,
  arith, Bool-cases, inl, inr,
}
use nachos_3_4_lab.Prelude.Outcome.{ok}
use nachos_3_4_lab.LinkedList.{Heap, Lists, put, is_empty, fetch, put_first, sorted_insert}
use nachos_3_4_lab.LinkedList.Chain.{
  Node, absent, Distinct, stored, Chain, Represents, Chain-put, unused, fetch-stored,
}
use nachos_3_4_lab.LinkedList.Insert.{
  insert, insert-less, insert-more, length-insert, Distinct-insert, insert_after-Linked,
}

-- The keys do not decrease.
unfoldable pub Sorted : List Node → Type 0
Sorted [] = Unit {0}
Sorted (n ∷ []) = Unit {0}
Sorted (n ∷ n' ∷ ns) = (n.key ≤ n'.key) × Sorted (n' ∷ ns)

-- If the keys of the elements do not decrease, they do not after an element is put in where
-- `SortedInsert` puts it.
pub insert-Sorted : (x : Node) (ns : List Node) → Sorted ns → Sorted (insert x ns)
unfolding Sorted
insert-Sorted x [] h = tt
insert-Sorted x (n ∷ []) h = elim (Bool-cases (ltb x.key n.key)) [
  | inl less ↦ rw less (ground (arith, less), tt)
  | inr more ↦ rw more (ground (arith, more), tt)
]
insert-Sorted x (n ∷ n' ∷ ns) (le, h) = elim (Bool-cases (ltb x.key n.key)) [
  | inl less ↦ subst Sorted (sym (insert-less x n (n' ∷ ns) less)) (ground (arith, less), (le, h))
  | inr more ↦
      subst Sorted (sym (insert-more x n (n' ∷ ns) more))
        (after n x n' ns le more (insert-Sorted x (n' ∷ ns) h))
]
  where
    after :
        (n x n' : Node) (ns : List Node)
        → n.key ≤ n'.key
        → ltb x.key n.key ≡ false
        → Sorted (insert x (n' ∷ ns))
        → Sorted (n ∷ insert x (n' ∷ ns))
    after n x n' ns le more h = elim (Bool-cases (ltb x.key n'.key)) [
      | inl before ↦
          subst (λ t. Sorted (n ∷ t)) (sym (insert-less x n' ns before))
            (ground (arith, more), subst Sorted (insert-less x n' ns before) h)
      | inr behind ↦
          subst (λ t. Sorted (n ∷ t)) (sym (insert-more x n' ns behind))
            (le, subst Sorted (insert-more x n' ns behind) h)
    ]

-- If the heap holds the elements of a list object in sequence, at distinct addresses and with the
-- object's fields to match, the new element's address is unused, and the loop is given as many
-- rounds as there are elements, then `SortedInsert` succeeds and the result represents the sequence
-- with the element put in before the first one of a greater key.
pub sorted_insert-Represents :
    (rounds : ℕ) (x : Node) (ns : List Node) (s : Lists)
    → Represents s ns
    → s.1 x.addr ≡ none
    → length ns ≤ rounds
    → (s' : Lists) × (sorted_insert rounds x.addr x.item x.key s ≡ ok s')
      × Represents s' (insert x ns)
unfolding sorted_insert put_first Chain Distinct
sorted_insert-Represents rounds x [] (l, h) r new enough = (
  (
    record { first = some x.addr; last = some x.addr; num_in_list = l.num_in_list + 1 },
    put x.addr (stored x []) h,
  ),
  rw r.first refl,
  record {
    first = refl;
    last = refl;
    count = omega (arith, r.count);
    chain = (ground arith, tt);
    distinct = (refl, tt);
  },
)
sorted_insert-Represents rounds x (n ∷ ns) (l, h) r new enough =
    let away : absent x.addr (n ∷ ns) ≡ true = unused (n ∷ ns) h x.addr new r.chain in
    let h₁ : Heap = put x.addr (stored x []) h in
    let full : is_empty l ≡ false = rw r.first refl in
    let c : Chain h₁ (n ∷ ns) = Chain-put (n ∷ ns) h x.addr (stored x []) away r.chain in
    let at : fetch (some n.addr) h₁ ≡ ok (n.addr, stored n ns) = fetch-stored h₁ n.addr _ c.0 in
    elim (Bool-cases (ltb x.key n.key)) [
      | inl less ↦
          let s' : Lists = (
            record l { first = some x.addr; num_in_list = l.num_in_list + 1 },
            put x.addr (stored x (n ∷ ns)) h₁,
          ) in
          (
            s',
            rw (r.first, at, less) refl,
            subst (λ ns'. Represents s' ns') (sym (insert-less x n ns less))
                (record {
                  first = refl;
                  last = r.last;
                  count = omega (arith, r.count);
                  chain = (ground arith, Chain-put (n ∷ ns) h₁ x.addr (stored x (n ∷ ns)) away c);
                  distinct = (away, r.distinct);
                }),
          )
      | inr more ↦
          let (s', runs, q) =
            insert_after-Linked rounds x n ns l h₁ (omega arith) c r.distinct (ground arith) away
              r.last in
          (
            s',
            simp (full, r.first, at, more) runs,
            subst (λ ns'. Represents s' ns') (sym (insert-more x n ns more))
                (record {
                  first = q.first ∙ r.first;
                  last = q.last;
                  count = ground (arith, q.count, r.count, length-insert x ns);
                  chain = q.chain;
                  distinct =
                      subst Distinct (insert-more x n ns more)
                        (Distinct-insert x (n ∷ ns) away r.distinct);
                }),
          )
    ]
