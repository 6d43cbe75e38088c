-- ===== src/Huffman/Tree.antt =====
-- The tree of src/encoders/bra_huffman.c, and the code lengths that it gives.
pub mod Merging
pub mod Laws
use br_archive.Prelude.{
  ℕ, zero, suc, ◌+◌, ◌%◌, ◌^◌, List, [], ◌∷◌, ◌++◌, length, ◌==◌, if◌then◌else◌, Outcome, done,
  failed, stuck, Bool, ◌>>=◌, write, replicate, ltb,
}
use br_archive.Huffman.{Node, null, node}
use br_archive.Huffman.Heap.{freq_of, insert, extract_min}

-- malloc gives a bra_huffman_node_t of 24 bytes or NULL, and a minHeapNode_t of 16 bytes or NULL.
-- `failed` is the jump to the error label, after either NULL and on the empty heap.
module _ (malloc : ℕ → Bool) where
  -- bra_huffman_create_node, with the children that the caller sets.
  unfoldable pub create_node : ℕ → ℕ → Node → Node → Outcome Node
  create_node symbol freq left right =
      if malloc 24 then done (node symbol freq left right) else failed

  -- bra_minHeap_insert, with the heap's node that it makes.
  unfoldable pub heap_insert : List Node → Node → Outcome (List Node)
  heap_insert heap n = if malloc 16 then done (insert heap n) else failed

  -- `for (i = 0; i < BRA_ALPHABET_SIZE; ++i)`: the frequencies from symbol `i` on.
  unfoldable pub build_leaves : ℕ → List ℕ → List Node → Outcome (List Node)
  unfolding create_node heap_insert
  build_leaves i [] heap = done heap
  build_leaves i (freq ∷ freqs) heap = do
    heap' ← (if ltb 0 freq then create_node i freq null null >>= heap_insert heap else done heap)
    build_leaves (i + 1) freqs heap'

  -- `while (minHeap->next != NULL)`, then the last node.
  unfoldable pub merge_loop : ℕ → List Node → Outcome Node
  unfolding create_node heap_insert
  merge_loop fuel [] = failed
  merge_loop fuel (n ∷ []) = done n
  merge_loop zero (l ∷ r ∷ heap) = stuck
  merge_loop (suc fuel) (l ∷ r ∷ heap) = do
    n ← create_node 0 ((freq_of l + freq_of r) % 2 ^ 32) l r
    heap' ← heap_insert heap n
    merge_loop fuel heap'

  unfoldable pub tree_build : List ℕ → Outcome Node
  unfolding build_leaves merge_loop
  tree_build freqs = do heap ← build_leaves 0 freqs []; merge_loop (length heap) heap

-- The arrays that bra_huffman_generate_codes fills, codes as lists of bits.
pub record Codes : Type 0 where
  pub codes : List (List ℕ)
  pub lengths : List ℕ

-- `code` holds the bits down to the node.
unfoldable pub generate_codes : Node → List ℕ → Codes → Outcome Codes
generate_codes null code c = done c
generate_codes (node symbol freq null null) code c = do
  lengths ← write c.lengths symbol (if length code == 0 then 1 else length code % 256)
  codes ← write c.codes symbol (if length code == 0 then 0 ∷ [] else code)
  done (record { codes = codes; lengths = lengths })
generate_codes (node symbol freq left right) code c = do
  c' ← generate_codes left (code ++ (0 ∷ [])) c
  generate_codes right (code ++ (1 ∷ [])) c'
