-- ===== src/Huffman/Tree/Laws.antt =====
-- The tree that `bra_huffman_tree_build` of src/encoders/bra_huffman.c returns.
use br_archive.Prelude.{
  ℕ, ◌+◌, ◌<◌, ◌≡◌, refl, ap, ◌∙◌, inl, inr, ◌⊎◌, failed, List, [], ◌∷◌, length, All, ltb, true,
  false, if◌then◌else◌, Bool, Bool-cases, done, arith, count,
}
use mathlib.Core.List.{}
use br_archive.Huffman.{Node, null, node}
use br_archive.Huffman.Heap.{insert}
use br_archive.Huffman.Heap.Laws.{symbols, all_symbols, All-insert, length-insert, count-insert}
use br_archive.Huffman.Tree.Merging.{IsFull, merge_loop-IsMerged}
use br_archive.Huffman.Tree.{create_node, heap_insert, build_leaves, tree_build}

-- The symbols, from `i` on, whose frequency is not 0.
unfoldable pub used : ℕ → List ℕ → List ℕ
used i [] = []
used i (freq ∷ freqs) = if ltb 0 freq then i ∷ used (i + 1) freqs else used (i + 1) freqs

-- The heap that the loop over the frequencies builds where no malloc fails.
unfoldable leaves : ℕ → List ℕ → List Node → List Node
leaves i [] heap = heap
leaves i (freq ∷ freqs) heap =
    leaves (i + 1) freqs (if ltb 0 freq then insert heap (node i freq null null) else heap)

build_leaves-leaves :
    (malloc : ℕ → Bool) (i : ℕ) (freqs : List ℕ) (heap : List Node)
    → malloc 24 ≡ true
    → malloc 16 ≡ true
    → build_leaves malloc i freqs heap ≡ done (leaves i freqs heap)
unfolding build_leaves leaves create_node heap_insert
build_leaves-leaves malloc i [] heap p q = refl
build_leaves-leaves malloc i (freq ∷ freqs) heap p q = elim (Bool-cases (ltb 0 freq)) [
  | inl e ↦
      rw (e, p, q)
        (build_leaves-leaves malloc (i + 1) freqs (insert heap (node i freq null null)) p q)
  | inr e ↦ rw e (build_leaves-leaves malloc (i + 1) freqs heap p q)
]

-- The first leaf needs both allocations.
build_leaves-failed :
    (malloc : ℕ → Bool) (i : ℕ) (freqs : List ℕ) (heap : List Node)
    → 0 < length (used i freqs)
    → (malloc 24 ≡ false) ⊎ (malloc 16 ≡ false)
    → build_leaves malloc i freqs heap ≡ failed
unfolding build_leaves used create_node heap_insert
build_leaves-failed malloc i [] heap h short = absurd (omega arith)
build_leaves-failed malloc i (freq ∷ freqs) heap h short = elim (Bool-cases (ltb 0 freq)) [
  | inl e ↦ elim short [
    | inl m ↦ rw (e, m) refl
    | inr m ↦ elim (Bool-cases (malloc 24)) [
      | inl m' ↦ rw (e, m', m) refl
      | inr m' ↦ rw (e, m') refl
    ]
  ]
  | inr e ↦ rw e (build_leaves-failed malloc (i + 1) freqs heap (rw e at h) short)
]

-- The heap of the leaves: full trees, one for each used symbol, and no other symbols.
record IsLeaves (i : ℕ) (freqs : List ℕ) (heap result : List Node) : Type 0 where
  pub full : All IsFull result
  pub size : length result ≡ length (used i freqs) + length heap
  pub kept :
      (c : ℕ) → count c (all_symbols result) ≡ count c (used i freqs) + count c (all_symbols heap)

used_leaf :
    (i freq : ℕ) (freqs : List ℕ)
    → ltb 0 freq ≡ true
    → used i (freq ∷ freqs) ≡ i ∷ used (i + 1) freqs
unfolding used
used_leaf i freq freqs e = rw e

unused_leaf :
    (i freq : ℕ) (freqs : List ℕ) → ltb 0 freq ≡ false → used i (freq ∷ freqs) ≡ used (i + 1) freqs
unfolding used
unused_leaf i freq freqs e = rw e

leaf_added :
    (i freq : ℕ) (freqs : List ℕ) (heap result : List Node)
    → ltb 0 freq ≡ true
    → IsLeaves (i + 1) freqs (insert heap (node i freq null null)) result
    → IsLeaves i (freq ∷ freqs) heap result
unfolding symbols
leaf_added i freq freqs heap result e ih =
    let leaf = node i freq null null in
    let more = used_leaf i freq freqs e in
    record {
      full = ih.full;
      size = omega (arith, ih.size, length-insert heap leaf, ap length more);
      kept = λ c.
          unfold count in (omega (arith, ih.kept c, count-insert c heap leaf, ap (count c) more));
    }

none_added :
    (i freq : ℕ) (freqs : List ℕ) (heap result : List Node)
    → ltb 0 freq ≡ false
    → IsLeaves (i + 1) freqs heap result
    → IsLeaves i (freq ∷ freqs) heap result
none_added i freq freqs heap result e ih = record {
  full = ih.full;
  size = omega (arith, ih.size, ap length (unused_leaf i freq freqs e));
  kept = λ c. omega (arith, ih.kept c, ap (count c) (unused_leaf i freq freqs e));
}

leaves_step :
    (i freq : ℕ) (freqs : List ℕ) (heap : List Node)
    → leaves i (freq ∷ freqs) heap
      ≡ leaves (i + 1) freqs (if ltb 0 freq then insert heap (node i freq null null) else heap)
unfolding leaves
leaves_step i freq freqs heap = refl

leaves-IsLeaves :
    (i : ℕ) (freqs : List ℕ) (heap : List Node)
    → All IsFull heap
    → IsLeaves i freqs heap (leaves i freqs heap)
leaves-IsLeaves i [] heap full = no_more i heap full
  where
    no_more : (i : ℕ) (heap : List Node) → All IsFull heap → IsLeaves i [] heap (leaves i [] heap)
    no_more i heap full =
        unfold leaves used in
        record { full = full; size = omega arith; kept = λ c. unfold count in (omega arith) }
leaves-IsLeaves i (freq ∷ freqs) heap full = elim (Bool-cases (ltb 0 freq)) [
  | inl e ↦
      let leaf = node i freq null null in
      rw (leaves_step i freq freqs heap, e)
        (leaf_added i freq freqs heap _ e
          (leaves-IsLeaves (i + 1) freqs (insert heap leaf) (All-insert IsFull heap leaf tt full)))
  | inr e ↦
      rw (leaves_step i freq freqs heap, e)
        (none_added i freq freqs heap _ e (leaves-IsLeaves (i + 1) freqs heap full))
]

-- A tree whose nodes have two children or none, and whose leaves hold the symbols that are used, each
-- as often as it is one of them.
abbrev pub IsTreeOf : List ℕ → Node → Type 0
IsTreeOf freqs root = IsFull root × ((c : ℕ) → count c (symbols root) ≡ count c (used 0 freqs))

-- If some frequency is not 0, the tree is built exactly where malloc gives both the node of the tree
-- and the node of the heap, and otherwise the failure is reported. Each node of the tree has two
-- children or none, and its leaves hold the symbols whose frequency is not 0, each as often as it is
-- one of them.
pub tree_build-IsFull :
    (malloc : ℕ → Bool) (freqs : List ℕ)
    → 0 < length (used 0 freqs)
    → (((malloc 24 ≡ true) × (malloc 16 ≡ true))
        × (root : Node) × (tree_build malloc freqs ≡ done root)
        × IsTreeOf freqs root)
      ⊎ (((malloc 24 ≡ false) ⊎ (malloc 16 ≡ false)) × (tree_build malloc freqs ≡ failed))
unfolding tree_build
tree_build-IsFull malloc freqs h = elim (Bool-cases (malloc 24)) [
  | inl p ↦ elim (Bool-cases (malloc 16)) [
    | inl q ↦
        let built = leaves-IsLeaves 0 freqs [] tt in
        let heap = leaves 0 freqs [] in
        let merged =
          merge_loop-IsMerged malloc p q (length heap) heap (omega (arith, built.size))
            (omega arith) built.full in
        inl (
          (p, q),
          merged.root,
          rw (build_leaves-leaves malloc 0 freqs [] p q) merged.returns,
          (
            merged.full,
            λ c. merged.kept c ∙ built.kept c ∙ (unfold all_symbols count in (omega arith)),
          ),
        )
    | inr q ↦ inr (inr q, rw (build_leaves-failed malloc 0 freqs [] h (inr q)) refl)
  ]
  | inr p ↦ inr (inl p, rw (build_leaves-failed malloc 0 freqs [] h (inl p)) refl)
]
