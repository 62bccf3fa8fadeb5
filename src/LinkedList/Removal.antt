-- ===== src/LinkedList/Removal.antt =====
-- The removal of a given item.
use nachos_3_4_lab.Prelude.{
  ℕ, zero, suc, ◌-◌, ◌<◌, ◌≡◌, ◌∙◌, refl, List, [], ◌∷◌, Bool, true, false, ◌||◌, Option, ◌==◌,
  if◌then◌else◌, length, arith, Bool-cases, inl, inr,
}
use nachos_3_4_lab.Prelude.Outcome.{ok}
use nachos_3_4_lab.LinkedList.{
  Heap, LinkedList, Lists, put, free, last_without, remove_after, remove, remove_item,
}
use nachos_3_4_lab.LinkedList.Ends.{sorted_remove-Represents}
use nachos_3_4_lab.LinkedList.Chain.{
  Node, start, finish, absent, Distinct, stored, Chain, Chain-frame, fetch-stored, Represents,
}

-- The item stands in the sequence; the sequence without its first element that holds the item.
abbrev pub has : ℕ → List Node → Bool
has item [] = false
has item (n ∷ ns) = (item == n.item) || has item ns

abbrev pub drop_item : ℕ → List Node → List Node
drop_item item [] = []
drop_item item (n ∷ ns) = if item == n.item then ns else n ∷ drop_item item ns

-- An element left out after the first one.
pub record Unlinked (n : Node) (ns ns' : List Node) (h : Heap) (l : LinkedList) (s : Lists)
    : Type 0 where
  pub chain : Chain s.1 (n ∷ ns')
  pub elsewhere : (b : ℕ) → absent b (n ∷ ns) ≡ true → s.1 b ≡ h b
  pub first : s.0.first ≡ l.first
  pub last : s.0.last ≡ finish (n ∷ ns')
  pub count : s.0.num_in_list ≡ l.num_in_list - 1

last_without-finish :
    (n m : Node) (ms : List Node) (last : Option ℕ)
    → last ≡ finish (n ∷ m ∷ ms)
    → last_without n.addr (start ms) last ≡ finish (n ∷ ms)
last_without-finish n m [] last is = refl
last_without-finish n m (q ∷ qs) last is = is

abbrev unlinked : (n m : Node) → List Node → LinkedList → Heap → Lists
unlinked n m ms l h = (
  record l { last = last_without n.addr (start ms) l.last; num_in_list = l.num_in_list - 1 },
  free m.addr (put n.addr (stored n ms) h),
)

-- The element after `n` left out.
unlink :
    (n m : Node) (ms : List Node) (l : LinkedList) (h : Heap)
    → Chain h (n ∷ m ∷ ms)
    → Distinct (n ∷ m ∷ ms)
    → l.last ≡ finish (n ∷ m ∷ ms)
    → Unlinked n (m ∷ ms) ms h l (unlinked n m ms l h)
unfolding Chain Distinct
unlink n m ms l h (here, (there, c)) (away, (away', d)) last = record {
  chain = (
    ground (arith, away),
    Chain-frame ms h (free m.addr (put n.addr (stored n ms) h))
        (λ b e. ground (arith, e, away, away')) c,
  );
  elsewhere = λ b e. ground (arith, e);
  first = refl;
  last = last_without-finish n m ms l.last last;
  count = refl;
}

-- The loop of `List::Remove(item)`, with enough rounds.
pub remove_after-Unlinked :
    (rounds item : ℕ) (n : Node) (ns : List Node) (l : LinkedList) (h : Heap)
    → has item ns ≡ true
    → length ns < rounds
    → Chain h (n ∷ ns)
    → Distinct (n ∷ ns)
    → l.last ≡ finish (n ∷ ns)
    → (s : Lists) × (remove_after rounds item n.addr (start ns) (l, h) ≡ ok s)
      × Unlinked n ns (drop_item item ns) h l s
unfolding remove_after Chain Distinct
remove_after-Unlinked zero item n ns l h found enough c d last = absurd (omega arith)
remove_after-Unlinked (suc k) item n [] l h found enough c d last = absurd (ground (arith, found))
remove_after-Unlinked (suc k) item n (m ∷ ms) l h found enough (here, (there, c)) (away, (away', d))
      last =
    elim (Bool-cases (item == m.item)) [
      | inl same ↦ (
        unlinked n m ms l h,
        rw (remove_after, fetch-stored h m.addr _ there, fetch-stored h n.addr _ here, same) refl,
        rw same (unlink n m ms l h (here, (there, c)) (away, (away', d)) last),
      )
      | inr other ↦
          (let (s, runs, u) =
              remove_after-Unlinked k item m ms l h (ground (arith, found, other)) (omega arith)
                (there, c) (away', d) last in
            (
              s,
              rw (remove_after, fetch-stored h m.addr _ there, fetch-stored h n.addr _ here, other)
                  runs,
              rw other (record {
                chain = (u.elsewhere n.addr away ∙ here, u.chain);
                elsewhere = λ b e. u.elsewhere b (ground (arith, e));
                first = u.first;
                last = u.last;
                count = u.count;
              }),
            ))
    ]

absent-drop_item :
    (a item : ℕ) (ns : List Node) → absent a ns ≡ true → absent a (drop_item item ns) ≡ true
absent-drop_item a item [] away = refl
absent-drop_item a item (n ∷ ns) away = ground (arith, away, absent-drop_item a item ns)

Distinct-drop_item : (item : ℕ) (ns : List Node) → Distinct ns → Distinct (drop_item item ns)
unfolding Distinct
Distinct-drop_item item [] d = tt
Distinct-drop_item item (n ∷ ns) (away, d) = elim (Bool-cases (item == n.item)) [
  | inl same ↦ rw same d
  | inr other ↦ rw other (absent-drop_item n.addr item ns away, Distinct-drop_item item ns d)
]

length-drop_item :
    (item : ℕ) (ns : List Node) → has item ns ≡ true → length (drop_item item ns) ≡ length ns - 1
length-drop_item item [] found = absurd (ground (arith, found))
length-drop_item item (n ∷ []) found = ground (arith, found)
length-drop_item item (n ∷ n' ∷ ns) found = ground (arith, found, length-drop_item item (n' ∷ ns))

-- The first element is the one.
remove_item-first :
    (rounds item : ℕ) (n : Node) (ns : List Node) (s : Lists)
    → (item == n.item) ≡ true
    → Represents s (n ∷ ns)
    → (s' : Lists) × (remove_item rounds item s ≡ ok s') × Represents s' ns
unfolding remove_item remove Chain
remove_item-first rounds item n ns (l, h) same r =
    let (s', removed, r', heap) = sorted_remove-Represents n ns (l, h) r in
    (s', simp (r.first, fetch-stored h n.addr _ r.chain.0, same, removed) refl, r')

-- If a list object represents a sequence in which the item stands and the loop is given as many
-- rounds as there are elements, then `Remove` of the item succeeds, none of its assertions failing,
-- and the result represents the sequence without its first element that holds the item, at the
-- front, in the middle or at the end.
pub remove_item-Represents :
    (rounds item : ℕ) (ns : List Node) (s : Lists)
    → Represents s ns
    → has item ns ≡ true
    → length ns < suc rounds
    → (s' : Lists) × (remove_item rounds item s ≡ ok s') × Represents s' (drop_item item ns)
unfolding remove_item Chain Distinct
remove_item-Represents rounds item [] s r found enough = absurd (ground (arith, found))
remove_item-Represents rounds item (n ∷ ns) (l, h) r found enough =
    elim (Bool-cases (item == n.item)) [
      | inl same ↦ rw same (remove_item-first rounds item n ns (l, h) same r)
      | inr other ↦
          (let rest : has item ns ≡ true = ground (arith, found, other) in
            let (s', runs, u) =
              remove_after-Unlinked rounds item n ns l h rest (omega arith) r.chain r.distinct
                r.last in
            (
              s',
              simp (r.first, fetch-stored h n.addr _ r.chain.0, other, runs) refl,
              rw other (record {
                first = u.first ∙ r.first;
                last = u.last;
                count =
                    ground (arith, u.count, r.count, length-drop_item item (n ∷ ns) found, other);
                chain = u.chain;
                distinct = (
                  absent-drop_item n.addr item ns r.distinct.0,
                  Distinct-drop_item item ns r.distinct.1,
                );
              }),
            ))
    ]
