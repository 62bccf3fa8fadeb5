-- ===== src/LinkedList/Chain.antt =====
-- The heap's elements as a sequence.
use nachos_3_4_lab.Prelude.{
  ℕ, ◌≡◌, refl, List, [], ◌∷◌, Bool, true, false, not, ◌&&◌, Option, none, some, ◌==◌, length,
  arith, Bool-cases, inl, inr,
}
use nachos_3_4_lab.Prelude.Outcome.{ok}
use nachos_3_4_lab.LinkedList.{ListElement, Heap, Lists, put, fetch}

-- One element: where it is, and what it holds.
pub record Node : Type 0 where
  pub addr : ℕ
  pub item : ℕ
  pub key : ℕ

-- The addresses of the first and of the last.
abbrev pub start : List Node → Option ℕ
start [] = none
start (n ∷ ns) = some n.addr

abbrev pub end_of : Node → List Node → ℕ
end_of n [] = n.addr
end_of n (n' ∷ ns) = end_of n' ns

abbrev pub finish : List Node → Option ℕ
finish [] = none
finish (n ∷ ns) = some (end_of n ns)

-- No element stands at the address.
abbrev pub absent : ℕ → List Node → Bool
absent a [] = true
absent a (n ∷ ns) = not (n.addr == a) && absent a ns

unfoldable pub Distinct : List Node → Type 0
Distinct [] = Unit {0}
Distinct (n ∷ ns) = (absent n.addr ns ≡ true) × Distinct ns

abbrev pub stored : Node → List Node → ListElement
stored n ns = record { item = n.item; key = n.key; next = start ns }

-- The heap holds the elements, each with a pointer to the next.
unfoldable pub Chain : Heap → List Node → Type 0
Chain h [] = Unit {0}
Chain h (n ∷ ns) = (h n.addr ≡ some (stored n ns)) × Chain h ns

-- What a list object stands for.
pub record Represents (s : Lists) (ns : List Node) : Type 0 where
  pub first : s.0.first ≡ start ns
  pub last : s.0.last ≡ finish ns
  pub count : s.0.num_in_list ≡ length ns
  pub chain : Chain s.1 ns
  pub distinct : Distinct ns

-- A change elsewhere leaves a chain as it is.
pub Chain-frame :
    (ns : List Node) (h h' : Heap)
    → ((b : ℕ) → absent b ns ≡ false → h' b ≡ h b)
    → Chain h ns
    → Chain h' ns
unfolding Chain
Chain-frame [] h h' same c = tt
Chain-frame (n ∷ ns) h h' same (here, c) =
    (ground (arith, same n.addr, here), Chain-frame ns h h' (λ b e. same b (ground (arith, e))) c)

pub Chain-put :
    (ns : List Node) (h : Heap) (a : ℕ) (e : ListElement)
    → absent a ns ≡ true
    → Chain h ns
    → Chain (put a e h) ns
Chain-put ns h a e away c = Chain-frame ns h (put a e h) (λ b there. ground (arith, away, there)) c

-- What is not on the heap is not on the chain.
pub unused : (ns : List Node) (h : Heap) (a : ℕ) → h a ≡ none → Chain h ns → absent a ns ≡ true
unfolding Chain
unused [] h a new c = refl
unused (n ∷ ns) h a new (here, c) = elim (Bool-cases (n.addr == a)) [
  | inl same ↦ absurd (ground (arith, same, new, here))
  | inr other ↦ ground (arith, other, unused ns h a new c)
]

pub fetch-stored :
    (h : Heap) (a : ℕ) (e : ListElement) → h a ≡ some e → fetch (some a) h ≡ ok (a, e)
unfolding fetch
fetch-stored h a e there = rw (fetch, there) refl
