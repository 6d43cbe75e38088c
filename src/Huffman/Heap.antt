-- ===== src/Huffman/Heap.antt =====
-- The heap of src/encoders/bra_huffman.c, a list in the order of the frequencies.
pub mod Laws
use br_archive.Prelude.{ℕ, List, [], ◌∷◌, ltb, if◌then◌else◌, Outcome, done, failed}
use br_archive.Huffman.{Node, null, node}

unfoldable pub freq_of : Node → ℕ
freq_of null = 0
freq_of (node symbol freq left right) = freq

-- The loop over `cur->next`, with the nodes after `cur`.
unfoldable pub insert_after : List Node → Node → List Node
insert_after [] n = n ∷ []
insert_after (next ∷ heap) n =
    let more = next ∷ insert_after heap n in
    if ltb (freq_of next) (freq_of n) then more else n ∷ next ∷ heap

unfoldable pub insert : List Node → Node → List Node
insert [] n = n ∷ []
insert (head ∷ heap) n =
    if ltb (freq_of n) (freq_of head) then n ∷ head ∷ heap else head ∷ insert_after heap n

-- The least node and the heap without it; NULL on the empty heap.
unfoldable pub extract_min : List Node → Node × List Node
extract_min [] = (null, [])
extract_min (head ∷ heap) = (head, heap)
