-- ===== src/LinkedList/Ends.antt =====
-- `Append` and the removal of the first element.
use nachos_3_4_lab.Prelude.{
  ℕ, ◌+◌, ◌-◌, ◌≡◌, ◌∙◌, refl, List, [], ◌∷◌, ◌++◌, true, false, not, ◌&&◌, none, some, ◌==◌,
  length-append, arith, ==_refl,
}
use nachos_3_4_lab.Prelude.Outcome.{ok}
use nachos_3_4_lab.LinkedList.{
  Heap, LinkedList, Lists, put, free, is_empty, append, prepend, put_first, put_last, sorted_remove,
  same_pointer,
}
use nachos_3_4_lab.LinkedList.Chain.{
  Node, end_of, finish, absent, Distinct, stored, Chain, Represents, Chain-put, Chain-frame, unused,
  fetch-stored,
}
use nachos_3_4_lab.LinkedList.Insert.{Linked}

put_last-Linked :
    (x n : Node) (ns : List Node) (l : LinkedList) (h : Heap)
    → Chain h (n ∷ ns)
    → Distinct (n ∷ ns)
    → h x.addr ≡ some (stored x [])
    → absent x.addr (n ∷ ns) ≡ true
    → l.last ≡ finish (n ∷ ns)
    → (s : Lists) × (put_last x.addr (l, h) ≡ ok s) × Linked x.addr n ns (ns ++ x ∷ []) h l s
unfolding put_last Chain Distinct
put_last-Linked x n [] l h (here, c) d new away last = (
  (
    record l { last = some x.addr; num_in_list = l.num_in_list + 1 },
    put n.addr (record (stored n []) { next = some x.addr }) h,
  ),
  rw (last, fetch-stored h n.addr _ here) refl,
  record {
    chain = (ground arith, (ground (arith, new, away), tt));
    elsewhere = λ b p q. ground (arith, p);
    first = refl;
    last = refl;
    count = refl;
  },
)
put_last-Linked x n (n' ∷ ns) l h (here, c) (apart, d) new away last =
    let (s, runs, r) = put_last-Linked x n' ns l h c d new (ground (arith, away)) last in
    (
      s,
      runs,
      record {
        chain = (r.elsewhere n.addr apart (ground (arith, away)) ∙ here, r.chain);
        elsewhere = λ b p q. r.elsewhere b (ground (arith, p)) q;
        first = r.first;
        last = r.last;
        count = r.count;
      },
    )

absent-append :
    (a : ℕ) (ns : List Node) (x : Node)
    → absent a (ns ++ x ∷ []) ≡ (absent a ns && not (x.addr == a))
absent-append a [] x = ground arith
absent-append a (n ∷ ns) x = ground (arith, absent-append a ns x)

Distinct-append :
    (ns : List Node) (x : Node) → absent x.addr ns ≡ true → Distinct ns → Distinct (ns ++ x ∷ [])
unfolding Distinct
Distinct-append [] x away d = (refl, tt)
Distinct-append (n ∷ ns) x away (apart, d) = (
  ground (arith, absent-append n.addr ns x, apart, away),
  Distinct-append ns x (ground (arith, away)) d,
)

-- The element that `Append` makes.
abbrev pub keyless : (a item : ℕ) → Node
keyless a item = record { addr = a; item = item; key = 0 }

-- If a list object represents a sequence and the new element's address is unused, `Append` succeeds
-- and the result represents the sequence with an element of key 0 at its end.
pub append-Represents :
    (a item : ℕ) (ns : List Node) (s : Lists)
    → Represents s ns
    → s.1 a ≡ none
    → (s' : Lists) × (append a item s ≡ ok s') × Represents s' (ns ++ keyless a item ∷ [])
unfolding append Chain Distinct
append-Represents a item [] (l, h) r new = (
  (
    record { first = some a; last = some a; num_in_list = l.num_in_list + 1 },
    put a (stored (keyless a item) []) h,
  ),
  rw r.first refl,
  record {
    first = refl;
    last = refl;
    count = omega (arith, r.count);
    chain = (ground arith, tt);
    distinct = (refl, tt);
  },
)
append-Represents a item (n ∷ ns) (l, h) r new =
    let x : Node = keyless a item in
    let away : absent a (n ∷ ns) ≡ true = unused (n ∷ ns) h a new r.chain in
    let h₁ : Heap = put a (stored x []) h in
    let full : is_empty l ≡ false = rw r.first refl in
    let (s', runs, q) =
      put_last-Linked x n ns l h₁ (Chain-put (n ∷ ns) h a (stored x []) away r.chain) r.distinct
        (ground arith) away r.last in
    (
      s',
      simp full runs,
      record {
        first = q.first ∙ r.first;
        last = q.last;
        count = omega (arith, q.count, r.count, length-append ns (x ∷ []));
        chain = q.chain;
        distinct = Distinct-append (n ∷ ns) x away r.distinct;
      },
    )

absent-end :
    (a : ℕ) (n : Node) (ns : List Node) → absent a (n ∷ ns) ≡ true → (a == end_of n ns) ≡ false
absent-end a n [] h = ground (arith, h)
absent-end a n (n' ∷ ns) h = absent-end a n' ns (ground (arith, h))

-- If a list object represents a sequence with a first element, `SortedRemove` returns its item and
-- its key, frees it and changes nothing else of the heap, and the result represents the rest of the
-- sequence.
pub sorted_remove-Represents :
    (n : Node) (ns : List Node) (s : Lists)
    → Represents s (n ∷ ns)
    → (s' : Lists) × (sorted_remove s ≡ ok (some (n.item, n.key), s'))
      × Represents s' ns
      × (s'.1 ≡ free n.addr s.1)
unfolding sorted_remove Chain Distinct
sorted_remove-Represents n [] (l, h) r = (
  (record { first = none; last = none; num_in_list = l.num_in_list - 1 }, free n.addr h),
  rw (r.first, r.last, fetch-stored h n.addr _ r.chain.0, ==_refl n.addr) refl,
  record { first = refl; last = refl; count = omega (arith, r.count); chain = tt; distinct = tt },
  refl,
)
sorted_remove-Represents n (n' ∷ ns) (l, h) r =
    let full : is_empty l ≡ false = rw r.first refl in
    let several : same_pointer (some n.addr) l.last ≡ false =
      rw r.last (absent-end n.addr n' ns r.distinct.0) in
    (
      (
        record { first = some n'.addr; last = l.last; num_in_list = l.num_in_list - 1 },
        free n.addr h,
      ),
      simp (full, several, r.first, fetch-stored h n.addr _ r.chain.0) refl,
      record {
        first = refl;
        last = r.last;
        count = omega (arith, r.count);
        chain =
            Chain-frame (n' ∷ ns) h (free n.addr h) (λ b there. ground (arith, there, r.distinct.0))
              r.chain.1;
        distinct = r.distinct.1;
      },
      refl,
    )

pub sorted_remove_nil : (s : Lists) → Represents s [] → sorted_remove s ≡ ok (none, s)
unfolding sorted_remove
sorted_remove_nil (l, h) r = rw r.first refl

-- If a list object represents a sequence and the new element's address is unused, `Prepend`
-- succeeds and the result represents the sequence with an element of key 0 in front.
pub prepend-Represents :
    (a item : ℕ) (ns : List Node) (s : Lists)
    → Represents s ns
    → s.1 a ≡ none
    → (s' : Lists) × (prepend a item s ≡ ok s') × Represents s' (keyless a item ∷ ns)
unfolding prepend put_first Chain Distinct
prepend-Represents a item [] (l, h) r new = (
  (
    record { first = some a; last = some a; num_in_list = l.num_in_list + 1 },
    put a (stored (keyless a item) []) h,
  ),
  rw r.first refl,
  record {
    first = refl;
    last = refl;
    count = omega (arith, r.count);
    chain = (ground arith, tt);
    distinct = (refl, tt);
  },
)
prepend-Represents a item (n ∷ ns) (l, h) r new =
    let x : Node = keyless a item in
    let away : absent a (n ∷ ns) ≡ true = unused (n ∷ ns) h a new r.chain in
    let h₁ : Heap = put a (stored x []) h in
    let full : is_empty l ≡ false = rw r.first refl in
    (
      (record l { first = some a; num_in_list = l.num_in_list + 1 }, put a (stored x (n ∷ ns)) h₁),
      simp (full, r.first) refl,
      record {
        first = refl;
        last = r.last;
        count = omega (arith, r.count);
        chain = (
          ground arith,
          Chain-put (n ∷ ns) h₁ a (stored x (n ∷ ns)) away
              (Chain-put (n ∷ ns) h a (stored x []) away r.chain),
        );
        distinct = (away, r.distinct);
      },
    )
