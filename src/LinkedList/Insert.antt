-- ===== src/LinkedList/Insert.antt =====
-- The operations of a list against a sequence.
use nachos_3_4_lab.Prelude.{
  ℕ, zero, suc, ◌+◌, ◌<◌, ◌≡◌, ◌≢◌, ◌∙◌, refl, sym, subst, List, [], ◌∷◌, true, false, not, ◌&&◌,
  some, ltb, ◌==◌, if◌then◌else◌, length, arith, Bool-cases, inl, inr,
}
use nachos_3_4_lab.Prelude.Outcome.{ok}
use nachos_3_4_lab.LinkedList.{Heap, LinkedList, Lists, put, put_last, put_between, insert_after}
use nachos_3_4_lab.LinkedList.Chain.{
  Node, finish, absent, Distinct, stored, Chain, Chain-put, fetch-stored,
}

-- Before the first element with a greater key.
abbrev pub insert : Node → List Node → List Node
insert x [] = x ∷ []
insert x (n ∷ ns) = if ltb x.key n.key then x ∷ n ∷ ns else n ∷ insert x ns

pub insert-less :
    (x n : Node) (ns : List Node) → ltb x.key n.key ≡ true → insert x (n ∷ ns) ≡ x ∷ n ∷ ns
insert-less x n ns less = rw less refl

pub insert-more :
    (x n : Node) (ns : List Node) → ltb x.key n.key ≡ false → insert x (n ∷ ns) ≡ n ∷ insert x ns
insert-more x n ns more = rw more refl

pub length-insert : (x : Node) (ns : List Node) → length (insert x ns) ≡ suc (length ns)
length-insert x [] = refl
length-insert x (n ∷ ns) = ground (arith, length-insert x ns)

absent-insert :
    (a : ℕ) (x : Node) (ns : List Node)
    → absent a (insert x ns) ≡ (not (x.addr == a) && absent a ns)
absent-insert a x [] = refl
absent-insert a x (n ∷ ns) = ground (arith, absent-insert a x ns)

pub Distinct-insert :
    (x : Node) (ns : List Node) → absent x.addr ns ≡ true → Distinct ns → Distinct (insert x ns)
unfolding Distinct
Distinct-insert x [] away d = (refl, tt)
Distinct-insert x (n ∷ ns) away (here, d) = elim (Bool-cases (ltb x.key n.key)) [
  | inl less ↦ rw less (away, (here, d))
  | inr more ↦ rw more (
    ground (arith, absent-insert n.addr x ns, away, here),
    Distinct-insert x ns (ground (arith, away)) d,
  )
]

-- An element after the last one.
pub record Linked (a : ℕ) (n : Node) (ns ns' : List Node) (h : Heap) (l : LinkedList) (s : Lists)
    : Type 0 where
  pub chain : Chain s.1 (n ∷ ns')
  pub elsewhere : (b : ℕ) → absent b (n ∷ ns) ≡ true → a ≢ b → s.1 b ≡ h b
  pub first : s.0.first ≡ l.first
  pub last : s.0.last ≡ finish (n ∷ ns')
  pub count : s.0.num_in_list ≡ l.num_in_list + 1

-- The loop of `SortedInsert`, with enough rounds.
pub insert_after-Linked :
    (rounds : ℕ) (x n : Node) (ns : List Node) (l : LinkedList) (h : Heap)
    → length ns < rounds
    → Chain h (n ∷ ns)
    → Distinct (n ∷ ns)
    → h x.addr ≡ some (stored x [])
    → absent x.addr (n ∷ ns) ≡ true
    → l.last ≡ finish (n ∷ ns)
    → (s : Lists) × (insert_after rounds x.addr (stored x []) (some n.addr) (l, h) ≡ ok s)
      × Linked x.addr n ns (insert x ns) h l s
unfolding insert_after put_last put_between Chain Distinct
insert_after-Linked zero x n ns l h enough c d new away last = absurd (omega arith)
insert_after-Linked (suc k) x n [] l h enough (here, c) d new away last = (
  (
    record l { last = some x.addr; num_in_list = l.num_in_list + 1 },
    put n.addr (record (stored n []) { next = some x.addr }) h,
  ),
  rw (fetch-stored h n.addr _ here, put_last, last, fetch-stored h n.addr _ here) refl,
  record {
    chain = (ground arith, (ground (arith, new, away), tt));
    elsewhere = λ b p q. ground (arith, p);
    first = refl;
    last = refl;
    count = refl;
  },
)
insert_after-Linked (suc k) x n (n' ∷ ns) l h enough (here, (there, c)) (apart, d) new away last =
    elim (Bool-cases (ltb x.key n'.key)) [
      | inl less ↦
          let h₁ : Heap = put x.addr (stored x (n' ∷ ns)) h in
          let s : Lists = (
            record l { num_in_list = l.num_in_list + 1 },
            put n.addr (stored n (x ∷ n' ∷ ns)) h₁,
          ) in
          (
            s,
            rw (fetch-stored h n.addr _ here, fetch-stored h n'.addr _ there, less) refl,
            subst (λ ns'. Linked x.addr n (n' ∷ ns) ns' h l s) (sym (insert-less x n' ns less))
                (record {
                  chain = (
                    ground arith,
                    (
                      ground (arith, away),
                      Chain-put (n' ∷ ns) h₁ n.addr (stored n (x ∷ n' ∷ ns)) apart (
                          Chain-put (n' ∷ ns) h x.addr (stored x (n' ∷ ns)) (ground (arith, away))
                            (there, c)),
                    ),
                  );
                  elsewhere = λ b p q. ground (arith, p, q);
                  first = refl;
                  last = last;
                  count = refl;
                }),
          )
      | inr more ↦
          let (s, runs, r) =
            insert_after-Linked k x n' ns l h (omega arith) (there, c) d new (ground (arith, away))
              last in
          (
            s,
            rw (fetch-stored h n.addr _ here, fetch-stored h n'.addr _ there, more) runs,
            subst (λ ns'. Linked x.addr n (n' ∷ ns) ns' h l s) (sym (insert-more x n' ns more))
                (record {
                  chain = (r.elsewhere n.addr apart (ground (arith, away)) ∙ here, r.chain);
                  elsewhere = λ b p q. r.elsewhere b (ground (arith, p)) q;
                  first = r.first;
                  last = r.last;
                  count = r.count;
                }),
          )
    ]
