-- ===== src/Huffman/Tests.antt =====
-- Runs of bra_huffman.c, and its theorems at concrete inputs.
use br_archive.Prelude.{
  ℕ, ◌≡◌, refl, true, false, failed, ◌⊎◌, Bool, List, [], ◌∷◌, ◌++◌, replicate, done, fault, ◌>>=◌,
  arith,
}
use br_archive.Huffman.{Node, null, node, Meta}
use br_archive.Huffman.Heap.{freq_of, insert, insert_after}
use br_archive.Huffman.Tree.{
  tree_build, build_leaves, merge_loop, create_node, heap_insert, generate_codes,
}
use br_archive.Huffman.Canonical.{
  compute_canonical_codes, count_lengths, first_codes, first_codes_loop, code_bits, assign_codes,
  or_new, assign_symbol, insert_code, insert_codes, tree_build_from_lengths,
}
use br_archive.Huffman.Codec.{
  count_frequencies, count_bits, pack_bit, pack_bits, pack_symbols, flush, reach, decode_byte,
  decode_bytes, encode, decode,
}
use br_archive.Huffman.Heap.Laws.{}
use br_archive.Huffman.Tree.Laws.{tree_build-IsFull, used, IsTreeOf}
use br_archive.Huffman.Codec.Overrun.{holds_code, decode_overruns}

abbrev always : ℕ → Bool
always n = true

-- "abracadabra".
abbrev sample : List ℕ
sample = 97 ∷ 98 ∷ 114 ∷ 97 ∷ 99 ∷ 97 ∷ 100 ∷ 97 ∷ 98 ∷ 114 ∷ 97 ∷ []

round_trip : (encode always sample >>= λ c. decode always c.header c.bytes) ≡ done sample
unfolding encode decode count_frequencies count_bits pack_bit pack_bits pack_symbols flush reach
    decode_byte decode_bytes compute_canonical_codes count_lengths first_codes first_codes_loop
    code_bits assign_codes or_new assign_symbol insert_code insert_codes tree_build_from_lengths
    tree_build build_leaves merge_loop create_node heap_insert generate_codes freq_of insert
    insert_after
round_trip = refl

packed : (encode always sample >>= λ c. done c.bytes) ≡ done (89 ∷ 207 ∷ 88 ∷ [])
unfolding encode decode count_frequencies count_bits pack_bit pack_bits pack_symbols flush reach
    decode_byte decode_bytes compute_canonical_codes count_lengths first_codes first_codes_loop
    code_bits assign_codes or_new assign_symbol insert_code insert_codes tree_build_from_lengths
    tree_build build_leaves merge_loop create_node heap_insert generate_codes freq_of insert
    insert_after
packed = refl

-- One symbol, 65, with a code of one bit; eight times it fills one byte, and the header has two.
abbrev one_symbol : Meta
one_symbol = record {
  lengths = replicate 65 0 ++ 1 ∷ replicate 190 0;
  orig_size = 8;
  encoded_size = 2;
}

abbrev one_symbol_tree : Node
one_symbol_tree = node 0 0 (node 65 0 null null) null

overrun_built : tree_build_from_lengths one_symbol.lengths ≡ done one_symbol_tree
unfolding tree_build_from_lengths compute_canonical_codes count_lengths first_codes first_codes_loop
    code_bits assign_codes or_new assign_symbol insert_code insert_codes
overrun_built = refl

overrun_front :
    decode_bytes one_symbol_tree 8 1 (0 ∷ []) (record { cur = one_symbol_tree; decoded = [] })
    ≡ done (record { cur = one_symbol_tree; decoded = replicate 8 65 })
unfolding decode_bytes decode_byte reach
overrun_front = refl

overrun_code : holds_code one_symbol_tree 8 0 ≡ true
unfolding holds_code
overrun_code = refl

decode_overruns_example : decode always one_symbol (0 ∷ 0 ∷ []) ≡ fault
decode_overruns_example =
    decode_overruns always one_symbol one_symbol_tree (0 ∷ []) 0 [] (replicate 8 65) overrun_built
      refl overrun_front refl overrun_code (omega arith)

tree_build-IsFull_example :
    (((always 24 ≡ true) × (always 16 ≡ true))
      × (root : Node) × (tree_build always (0 ∷ 2 ∷ 0 ∷ 1 ∷ 5 ∷ []) ≡ done root)
      × IsTreeOf (0 ∷ 2 ∷ 0 ∷ 1 ∷ 5 ∷ []) root)
    ⊎ (((always 24 ≡ false) ⊎ (always 16 ≡ false))
        × (tree_build always (0 ∷ 2 ∷ 0 ∷ 1 ∷ 5 ∷ []) ≡ failed))
tree_build-IsFull_example =
    tree_build-IsFull always (0 ∷ 2 ∷ 0 ∷ 1 ∷ 5 ∷ []) (unfold used in (omega arith))
