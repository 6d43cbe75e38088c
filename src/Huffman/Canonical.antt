-- ===== src/Huffman/Canonical.antt =====
-- Canonical codes from code lengths, and the tree that the decoder builds of them, in
-- src/encoders/bra_huffman.c.
use br_archive.Prelude.{
  ℕ, zero, suc, ◌+◌, ◌*◌, ◌/◌, ◌%◌, ◌^◌, List, [], ◌∷◌, ◌==◌, if◌then◌else◌, Outcome, done, failed,
  ◌>>=◌, read, write, replicate,
}
use br_archive.Huffman.{Node, null, node}

-- The symbols of each length are counted.
unfoldable pub count_lengths : List ℕ → List ℕ → Outcome (List ℕ)
count_lengths [] count = done count
count_lengths (len ∷ lengths) count =
    let counted = read count len >>= λ n. write count len ((n + 1) % 2 ^ 32) in
    if len == 0
    then count_lengths lengths count
    else counted >>= λ count'. count_lengths lengths count'

-- `for (len = 1; len <= BRA_ALPHABET_SIZE; ++len)`: the counts from `len` on become first codes.
unfoldable pub first_codes_loop : List ℕ → ℕ → List ℕ
first_codes_loop [] code = []
first_codes_loop (temp ∷ counts) code =
    let start = code * 2 % 2 ^ 32 in start ∷ first_codes_loop counts ((start + temp) % 2 ^ 32)

unfoldable pub first_codes : List ℕ → List ℕ
first_codes [] = []
first_codes (unused ∷ counts) = 0 ∷ first_codes_loop counts 0

-- `for (j = lengths[i] - 1; j >= 0; --j)`: the bits of the code, its highest first.
unfoldable pub code_bits : ℕ → ℕ → List ℕ → List ℕ
code_bits zero c bits = bits
code_bits (suc j) c bits = code_bits j (c / 2) ((c % 2) ∷ bits)

-- The codes are given out in the order of the symbols; a symbol that does not occur has none.
unfoldable pub assign_codes : List ℕ → List ℕ → Outcome (List (List ℕ))
assign_codes [] count = done []
assign_codes (len ∷ lengths) count =
    let unused = assign_codes lengths count >>= λ codes. done ([] ∷ codes) in
    let given = (do
      c ← read count len
      count' ← write count len ((c + 1) % 2 ^ 32)
      codes ← assign_codes lengths count'
      done (code_bits len c [] ∷ codes)) in
    if len == 0 then unused else given

unfoldable pub compute_canonical_codes : List ℕ → Outcome (List (List ℕ))
compute_canonical_codes lengths = do
  count ← count_lengths lengths (replicate 257 0)
  assign_codes lengths (first_codes count)

-- `if (cur->left == NULL) cur->left = bra_huffman_create_node(0, 0);`
unfoldable pub or_new : Node → Node
or_new null = node 0 0 null null
or_new (node symbol freq left right) = node symbol freq left right

-- The symbol goes to a free child only.
unfoldable pub assign_symbol : Node → ℕ → Outcome Node
assign_symbol null i = done (node i 0 null null)
assign_symbol (node symbol freq left right) i = failed

-- The walk along the bits of one code from `cur`, which it puts back with its new children.
unfoldable pub insert_code : Node → List ℕ → ℕ → Outcome Node
insert_code null bits i = failed
insert_code (node symbol freq left right) [] i = done (node symbol freq left right)
insert_code (node symbol freq left right) (bit ∷ []) i =
    let on_left = assign_symbol left i >>= λ n. done (node symbol freq n right) in
    let on_right = assign_symbol right i >>= λ n. done (node symbol freq left n) in
    if bit == 0 then on_left else on_right
insert_code (node symbol freq left right) (bit ∷ b ∷ bits) i =
    let on_left = insert_code (or_new left) (b ∷ bits) i >>= λ n. done (node symbol freq n right) in
    let on_right =
      insert_code (or_new right) (b ∷ bits) i >>= λ n. done (node symbol freq left n) in
    if bit == 0 then on_left else on_right

-- The codes from symbol `i` on; a symbol of length 0 is passed over.
unfoldable pub insert_codes : Node → List (List ℕ) → ℕ → Outcome Node
insert_codes root [] i = done root
insert_codes root ([] ∷ codes) i = insert_codes root codes (i + 1)
insert_codes root ((bit ∷ bits) ∷ codes) i = do
  root' ← insert_code root (bit ∷ bits) i
  insert_codes root' codes (i + 1)

unfoldable pub tree_build_from_lengths : List ℕ → Outcome Node
tree_build_from_lengths lengths = do
  codes ← compute_canonical_codes lengths
  insert_codes (node 0 0 null null) codes 0
