-- ===== src/Huffman/Heap/Laws.antt =====
-- The heap of src/encoders/bra_huffman.c stays in order, and keeps what is put into it.
use br_archive.Prelude.{
  ℕ, suc, ◌+◌, ◌≤◌, ◌≡◌, refl, inl, inr, List, [], ◌∷◌, ◌++◌, length, All, ltb, Bool-cases, arith,
  count, count-append,
}
use br_archive.Huffman.{Node, null, node}
use br_archive.Huffman.Heap.{freq_of, insert, insert_after}

-- No frequency is greater than one behind it.
abbrev pub IsAscending : List Node → Type 0
IsAscending [] = Unit {0}
IsAscending (n ∷ heap) = All (λ m. freq_of n ≤ freq_of m) heap × IsAscending heap

-- The symbols at the leaves, from left to right.
unfoldable pub symbols : Node → List ℕ
symbols null = []
symbols (node symbol freq null null) = symbol ∷ []
symbols (node symbol freq left right) = symbols left ++ symbols right

unfoldable pub all_symbols : List Node → List ℕ
all_symbols [] = []
all_symbols (n ∷ heap) = symbols n ++ all_symbols heap

All-insert_after :
    (P : Node → Type 0) (heap : List Node) (n : Node)
    → P n
    → All P heap
    → All P (insert_after heap n)
unfolding insert_after
All-insert_after P [] n p h = (p, tt)
All-insert_after P (m ∷ heap) n p h = elim (Bool-cases (ltb (freq_of m) (freq_of n))) [
  | inl e ↦ rw e (h.0, All-insert_after P heap n p h.1)
  | inr e ↦ rw e (p, h)
]

pub All-insert :
    (P : Node → Type 0) (heap : List Node) (n : Node) → P n → All P heap → All P (insert heap n)
unfolding insert
All-insert P [] n p h = (p, tt)
All-insert P (m ∷ heap) n p h = elim (Bool-cases (ltb (freq_of n) (freq_of m))) [
  | inl e ↦ rw e (p, h)
  | inr e ↦ rw e (h.0, All-insert_after P heap n p h.1)
]

below-All :
    (a b : ℕ) (heap : List Node)
    → a ≤ b
    → All (λ m. b ≤ freq_of m) heap
    → All (λ m. a ≤ freq_of m) heap
below-All a b [] le h = tt
below-All a b (m ∷ heap) le h = (omega (arith, h.0), below-All a b heap le h.1)

insert_after-IsAscending :
    (heap : List Node) (n : Node) → IsAscending heap → IsAscending (insert_after heap n)
unfolding insert_after
insert_after-IsAscending [] n h = (tt, tt)
insert_after-IsAscending (m ∷ heap) n h = elim (Bool-cases (ltb (freq_of m) (freq_of n))) [
  | inl e ↦ rw e (
    All-insert_after (λ k. freq_of m ≤ freq_of k) heap n (ground arith) h.0,
    insert_after-IsAscending heap n h.1,
  )
  | inr e ↦
      let le : freq_of n ≤ freq_of m = ground arith in
      rw e ((le, below-All (freq_of n) (freq_of m) heap le h.0), h)
]

-- An insertion keeps the heap in ascending order of the frequencies.
pub insert-IsAscending :
    (heap : List Node) (n : Node) → IsAscending heap → IsAscending (insert heap n)
unfolding insert
insert-IsAscending [] n h = (tt, tt)
insert-IsAscending (m ∷ heap) n h = elim (Bool-cases (ltb (freq_of n) (freq_of m))) [
  | inl e ↦
      let le : freq_of n ≤ freq_of m = ground arith in
      rw e ((le, below-All (freq_of n) (freq_of m) heap le h.0), h)
  | inr e ↦ rw e (
    All-insert_after (λ k. freq_of m ≤ freq_of k) heap n (ground arith) h.0,
    insert_after-IsAscending heap n h.1,
  )
]

length-insert_after :
    (heap : List Node) (n : Node) → length (insert_after heap n) ≡ suc (length heap)
unfolding insert_after
length-insert_after [] n = refl
length-insert_after (m ∷ heap) n = ground (arith, length-insert_after heap n)

pub length-insert : (heap : List Node) (n : Node) → length (insert heap n) ≡ suc (length heap)
unfolding insert
length-insert [] n = refl
length-insert (m ∷ heap) n = ground (arith, length-insert_after heap n)

count-insert_after :
    (c : ℕ) (heap : List Node) (n : Node)
    → count c (all_symbols (insert_after heap n)) ≡ count c (symbols n) + count c (all_symbols heap)
unfolding insert_after all_symbols
count-insert_after c [] n = omega (arith, count-append c (symbols n) [])
count-insert_after c (m ∷ heap) n = elim (Bool-cases (ltb (freq_of m) (freq_of n))) [
  | inl e ↦ rw e (
      omega (
        arith,
        count-insert_after c heap n,
        count-append c (symbols m) (all_symbols (insert_after heap n)),
        count-append c (symbols m) (all_symbols heap),
      ))
  | inr e ↦ rw e (count-append c (symbols n) (symbols m ++ all_symbols heap))
]

pub count-insert :
    (c : ℕ) (heap : List Node) (n : Node)
    → count c (all_symbols (insert heap n)) ≡ count c (symbols n) + count c (all_symbols heap)
unfolding insert all_symbols
count-insert c [] n = omega (arith, count-append c (symbols n) [])
count-insert c (m ∷ heap) n = elim (Bool-cases (ltb (freq_of n) (freq_of m))) [
  | inl e ↦ rw e (count-append c (symbols n) (symbols m ++ all_symbols heap))
  | inr e ↦ rw e (
      omega (
        arith,
        count-insert_after c heap n,
        count-append c (symbols m) (all_symbols (insert_after heap n)),
        count-append c (symbols m) (all_symbols heap),
      ))
]
