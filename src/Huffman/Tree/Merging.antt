-- ===== src/Huffman/Tree/Merging.antt =====
-- The loop of src/encoders/bra_huffman.c that joins the trees of the heap.
use br_archive.Prelude.{
  ℕ, zero, suc, ◌+◌, ◌%◌, ◌^◌, ◌≤◌, ◌<◌, ◌≡◌, refl, sym, ap, ◌∙◌, List, [], ◌∷◌, ◌++◌, length, All,
  true, Bool, Outcome, done, arith, count, count-append,
}
use mathlib.Core.List.{append-nil}
use br_archive.Huffman.{Node, null, node}
use br_archive.Huffman.Heap.{freq_of, insert}
use br_archive.Huffman.Heap.Laws.{symbols, all_symbols, All-insert, length-insert, count-insert}
use br_archive.Huffman.Tree.{create_node, heap_insert, merge_loop}

-- Every node has two children or none.
abbrev pub IsFull : Node → Type 0
IsFull null = ⊥
IsFull (node symbol freq null null) = Unit {0}
IsFull (node symbol freq left right) = IsFull left × IsFull right

joined-IsFull : (freq : ℕ) (l r : Node) → IsFull l → IsFull r → IsFull (node 0 freq l r)
joined-IsFull freq null r p q = absurd p
joined-IsFull freq (node s f a b) r p q = (p, q)

symbols-joined :
    (freq : ℕ) (l r : Node) → IsFull l → symbols (node 0 freq l r) ≡ symbols l ++ symbols r
unfolding symbols
symbols-joined freq null r p = absurd p
symbols-joined freq (node s f a b) r p = refl

-- The loop ends with one tree over all the heap's leaves.
pub record IsMerged (heap : List Node) (result : Outcome Node) : Type 0 where
  pub root : Node
  pub returns : result ≡ done root
  pub full : IsFull root
  pub kept : (c : ℕ) → count c (symbols root) ≡ count c (all_symbols heap)

only_one :
    (malloc : ℕ → Bool) (fuel : ℕ) (n : Node)
    → IsFull n
    → IsMerged (n ∷ []) (merge_loop malloc fuel (n ∷ []))
unfolding merge_loop all_symbols
only_one malloc zero n full = record {
  root = n;
  returns = refl;
  full = full;
  kept = λ c. ap (count c) (sym (append-nil (symbols n)));
}
only_one malloc (suc fuel) n full = record {
  root = n;
  returns = refl;
  full = full;
  kept = λ c. ap (count c) (sym (append-nil (symbols n)));
}

merged_count :
    (c : ℕ) (l r : Node) (heap : List Node) (freq : ℕ)
    → IsFull l
    → count c (all_symbols (insert heap (node 0 freq l r))) ≡ count c (all_symbols (l ∷ r ∷ heap))
unfolding all_symbols
merged_count c l r heap freq p = omega (
  arith,
  count-insert c heap (node 0 freq l r),
  ap (count c) (symbols-joined freq l r p),
  count-append c (symbols l) (symbols r),
  count-append c (symbols l) (symbols r ++ all_symbols heap),
  count-append c (symbols r) (all_symbols heap),
)

module _ (malloc : ℕ → Bool) (node_there : malloc 24 ≡ true) (heap_there : malloc 16 ≡ true) where
  merge_loop_step :
      (fuel : ℕ) (l r : Node) (heap : List Node)
      → merge_loop malloc (suc fuel) (l ∷ r ∷ heap)
        ≡ merge_loop malloc fuel (insert heap (node 0 ((freq_of l + freq_of r) % 2 ^ 32) l r))
  unfolding merge_loop create_node heap_insert
  merge_loop_step fuel l r heap = rw (node_there, heap_there) refl

  pub merge_loop-IsMerged :
      (fuel : ℕ) (heap : List Node)
      → 0 < length heap
      → length heap ≤ suc fuel
      → All IsFull heap
      → IsMerged heap (merge_loop malloc fuel heap)
  merge_loop-IsMerged fuel [] p h full = absurd (omega arith)
  merge_loop-IsMerged zero (n ∷ []) p h full = only_one malloc zero n full.0
  merge_loop-IsMerged (suc fuel) (n ∷ []) p h full = only_one malloc (suc fuel) n full.0
  merge_loop-IsMerged zero (l ∷ r ∷ heap) p h full = absurd (omega arith)
  merge_loop-IsMerged (suc fuel) (l ∷ r ∷ heap) p h full =
      let freq = (freq_of l + freq_of r) % 2 ^ 32 in
      let both = node 0 freq l r in
      let ih =
        merge_loop-IsMerged fuel (insert heap both) (omega (arith, length-insert heap both))
          (omega (arith, length-insert heap both))
          (All-insert IsFull heap both (joined-IsFull freq l r full.0 full.1.0) full.1.1) in
      record {
        root = ih.root;
        returns = merge_loop_step fuel l r heap ∙ ih.returns;
        full = ih.full;
        kept = λ c. ih.kept c ∙ merged_count c l r heap freq full.0;
      }
