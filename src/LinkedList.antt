-- ===== src/LinkedList.antt =====
-- threads/list.cc: `List`, singly linked, on a heap of its elements. `new` gives an address, and
-- `delete` frees one; to follow NULL or a freed pointer is `wild`.
pub mod Chain
pub mod Insert
pub mod Sequence
pub mod Ends
pub mod Whole
pub mod Removal
use nachos_3_4_lab.Prelude.{
  ℕ, zero, suc, ◌+◌, ◌-◌, Bool, true, false, not, Option, none, some, ltb, ◌==◌, if◌then◌else◌,
}
use nachos_3_4_lab.Prelude.Outcome.{Outcome, ok, wild, ◌>>=◌, ◌>>◌, assert}

-- `ListElement`; an item is an address.
pub record ListElement : Type 0 where
  pub item : ℕ
  pub key : ℕ
  pub next : Option ℕ

abbrev pub Heap : Type 0
Heap = ℕ → Option ListElement

-- `List`
pub record LinkedList : Type 0 where
  pub first : Option ℕ
  pub last : Option ℕ
  pub num_in_list : ℕ

abbrev pub Lists : Type 0
Lists = LinkedList × Heap

-- A read through a pointer, a write, and a `delete`.
unfoldable pub fetch : Option ℕ → Heap → Outcome (ℕ × ListElement)
fetch none h = wild
fetch (some a) h = elim (h a) [ none ↦ wild | some e ↦ ok (a, e) ]

abbrev pub put : ℕ → ListElement → Heap → Heap
put a e h b = if a == b then some e else h b

abbrev pub free : ℕ → Heap → Heap
free a h b = if a == b then none else h b

-- `new ListElement(itemPtr, sortKey)`
abbrev pub element : (item key : ℕ) → ListElement
element item key = record { item = item; key = key; next = none }

abbrev pub empty : LinkedList
empty = record { first = none; last = none; num_in_list = 0 }

-- `List::IsEmpty`
abbrev pub is_empty : LinkedList → Bool
is_empty l = elim l.first [ none ↦ true | some a ↦ false ]

abbrev pub only : ℕ → LinkedList → LinkedList
only a l = record { first = some a; last = some a; num_in_list = l.num_in_list + 1 }

-- `last->next = element; last = element; numInList++;`
unfoldable pub put_last : ℕ → Lists → Outcome Lists
put_last a (l, h) = do
  (z, e) ← fetch l.last h
  ok (
    record l { last = some a; num_in_list = l.num_in_list + 1 },
    put z (record e { next = some a }) h,
  )

-- `element->next = first; first = element; numInList++;`
unfoldable pub put_first : ℕ → ListElement → Lists → Outcome Lists
put_first a e (l, h) = ok (
  record l { first = some a; num_in_list = l.num_in_list + 1 },
  put a (record e { next = l.first }) h,
)

-- `List::Append`; `a` is what `new` returns.
unfoldable pub append : (a item : ℕ) → Lists → Outcome Lists
append a item (l, h) =
    let h' = put a (element item 0) h in
    if is_empty l then ok (only a l, h') else put_last a (l, h')

-- `List::Prepend`
unfoldable pub prepend : (a item : ℕ) → Lists → Outcome Lists
prepend a item (l, h) =
    let h' = put a (element item 0) h in
    if is_empty l then ok (only a l, h') else put_first a (element item 0) (l, h')

-- `element->next = ptr->next; ptr->next = element; numInList++;`
unfoldable pub put_between :
    (a : ℕ) (x : ListElement) (p : ℕ) (e : ListElement) → Lists → Outcome Lists
put_between a x p e (l, h) = ok (
  record l { num_in_list = l.num_in_list + 1 },
  put p (record e { next = some a }) (put a (record x { next = e.next }) h),
)

-- The loop of `SortedInsert` from an element on, of so many rounds at most.
unfoldable pub insert_after : (rounds a : ℕ) → ListElement → Option ℕ → Lists → Outcome Lists
insert_after zero a x ptr (l, h) = wild
insert_after (suc n) a x ptr (l, h) = do
  (p, e) ← fetch ptr h
  elim e.next [
    | none ↦ put_last a (l, h)
    | some q ↦ (do
      (_, f) ← fetch (some q) h
      let more = insert_after n a x (some q) (l, h)
      if ltb x.key f.key then put_between a x p e (l, h) else more)
  ]

-- `List::SortedInsert`
unfoldable pub sorted_insert : (rounds a item key : ℕ) → Lists → Outcome Lists
sorted_insert rounds a item key (l, h) =
    let x = element item key in
    let h' = put a x h in
    let more = insert_after rounds a x l.first (l, h') in
    if is_empty l
    then ok (only a l, h')
    else (do (_, e) ← fetch l.first h'; if ltb key e.key then put_first a x (l, h') else more)

abbrev pub same_pointer : Option ℕ → Option ℕ → Bool
same_pointer none none = true
same_pointer (some a) (some b) = a == b
same_pointer none (some b) = false
same_pointer (some a) none = false

-- `List::SortedRemove`, and `List::Remove` of the first element: the item and its key.
unfoldable pub sorted_remove : Lists → Outcome (Option (ℕ × ℕ) × Lists)
sorted_remove (l, h) = if is_empty l then ok (none, (l, h)) else (do
  (a, e) ← fetch l.first h
  let one = same_pointer l.first l.last
  let first = (if one then none else e.next)
  let last = (if one then none else l.last)
  let l' : LinkedList = record { first = first; last = last; num_in_list = l.num_in_list - 1 }
  ok (some (e.item, e.key), (l', free a h)))

-- `List::Remove`: the item; NULL is the address 0.
unfoldable pub remove : Lists → Outcome (ℕ × Lists)
remove s = do
  (removed, s') ← sorted_remove s
  ok (elim removed [ none ↦ 0 | some (item, key) ↦ item ], s')

-- `if (prev->next == NULL) last = prev;`
abbrev pub last_without : ℕ → (next last : Option ℕ) → Option ℕ
last_without prev none last = some prev
last_without prev (some q) last = last

-- The loop of `List::Remove(item)`, from the element after the one at `prev`
unfoldable pub remove_after : (rounds item prev : ℕ) → Option ℕ → Lists → Outcome Lists
remove_after zero item prev ptr s = wild
remove_after (suc n) item prev none s = Outcome.abort
remove_after (suc n) item prev (some p) (l, h) = do
  (_, e) ← fetch (some p) h
  (_, before) ← fetch (some prev) h
  let h' = put prev (record before { next = e.next }) h
  let last = last_without prev e.next l.last
  let unlinked : LinkedList = record l { last = last; num_in_list = l.num_in_list - 1 }
  let more = remove_after n item p e.next (l, h)
  if item == e.item then ok (unlinked, free p h') else more

-- `List::Remove` of a given item, with `ASSERT(item == removed)` and `ASSERT(ptr != NULL)`
unfoldable pub remove_item : (rounds item : ℕ) → Lists → Outcome Lists
remove_item rounds item (l, h) = do
  (a, e) ← fetch l.first h
  let more = remove_after rounds item a e.next (l, h)
  if item == e.item
      then (do (removed, s') ← remove (l, h); assert (item == removed) >> ok s')
      else more

-- `List::~List`, its loop of so many rounds at most
unfoldable pub delete_all : (rounds : ℕ) → Lists → Outcome Lists
delete_all zero s = wild
delete_all (suc n) s = do
  (item, s') ← remove s
  let more = delete_all n s'
  if item == 0 then ok s' else more

-- `List::Mapcar` from an element on, of so many rounds at most; `func` is what the function does.
unfoldable pub mapcar {ℓ} :
    {S : Type ℓ} (rounds : ℕ) (func : ℕ → S → Outcome S) → Option ℕ → Heap → S → Outcome S
mapcar zero func ptr h s = wild
mapcar (suc n) func none h s = ok s
mapcar (suc n) func (some a) h s = do
  (_, e) ← fetch (some a) h
  s' ← func e.item s
  mapcar n func e.next h s'
