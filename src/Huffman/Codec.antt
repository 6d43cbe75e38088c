-- ===== src/Huffman/Codec.antt =====
-- `bra_huffman_encode` and `bra_huffman_decode` of src/encoders/bra_huffman.c.
pub mod Overrun
use br_archive.Prelude.{
  ℕ, zero, suc, ◌+◌, ◌-◌, ◌*◌, ◌/◌, ◌%◌, ◌^◌, Bool, List, [], ◌∷◌, ◌++◌, length, ltb, leb, ◌==◌,
  if◌then◌else◌, Outcome, done, failed, fault, ◌>>=◌, read, write, replicate,
}
use br_archive.Huffman.{Node, null, node, Meta}
use br_archive.Huffman.Tree.{Codes, tree_build, generate_codes}
use br_archive.Huffman.Canonical.{compute_canonical_codes, tree_build_from_lengths}
use Prim.Native.Nat.{bit_or}

-- The bra_huffman_chunk_t.
pub record Chunk : Type 0 where
  pub header : Meta
  pub bytes : List ℕ

-- `++freq[buf[i]]` over the buffer.
unfoldable pub count_frequencies : List ℕ → List ℕ → Outcome (List ℕ)
count_frequencies [] freq = done freq
count_frequencies (b ∷ buf) freq = do
  n ← read freq b
  freq' ← write freq b ((n + 1) % 2 ^ 32)
  count_frequencies buf freq'

unfoldable pub count_bits : List ℕ → List ℕ → ℕ → Outcome ℕ
count_bits lengths [] bit_count = done bit_count
count_bits lengths (b ∷ buf) bit_count = do
  len ← read lengths b
  count_bits lengths buf ((bit_count + len) % 2 ^ 32)

-- The byte that is being filled, and how many of its bits are.
pub record Packer : Type 0 where
  pub out : List ℕ
  pub cur_byte : ℕ
  pub bit_pos : ℕ

unfoldable pub pack_bit : ℕ → Packer → Packer
pack_bit bit p =
    let cur_byte = if ltb 0 bit then bit_or p.cur_byte (2 ^ (7 - p.bit_pos)) else p.cur_byte in
    if p.bit_pos + 1 == 8
    then record { out = p.out ++ (cur_byte ∷ []); cur_byte = 0; bit_pos = 0 }
    else record p { cur_byte = cur_byte; bit_pos = p.bit_pos + 1 }

unfoldable pub pack_bits : List ℕ → Packer → Packer
pack_bits [] p = p
pack_bits (bit ∷ bits) p = pack_bits bits (pack_bit bit p)

-- `lengths[symbol]` bits of each symbol's code; the codes have just these bits.
unfoldable pub pack_symbols : List (List ℕ) → List ℕ → Packer → Outcome Packer
pack_symbols codes [] p = done p
pack_symbols codes (symbol ∷ buf) p = do
  code ← read codes symbol
  pack_symbols codes buf (pack_bits code p)

unfoldable pub flush : Packer → List ℕ
flush p = if ltb 0 p.bit_pos then p.out ++ (p.cur_byte ∷ []) else p.out

-- The state of the decoder's loops: the node reached, and the symbols decoded.
pub record Reader : Type 0 where
  pub cur : Node
  pub decoded : List ℕ

abbrev pub left_of : Node → Node
left_of null = null
left_of (node symbol freq left right) = left

abbrev pub right_of : Node → Node
right_of null = null
right_of (node symbol freq left right) = right

-- `cur` after a bit; on a leaf the symbol is stored, which is a fault past the `orig_size` bytes
-- that were allocated, and the walk starts again.
unfoldable pub reach : Node → ℕ → Node → List ℕ → Outcome Reader
reach root orig_size null decoded = failed
reach root orig_size (node symbol freq null null) decoded =
    if ltb (length decoded) orig_size
    then done (record { cur = root; decoded = decoded ++ (symbol ∷ []) })
    else fault
reach root orig_size (node symbol freq left right) decoded =
    done (record { cur = node symbol freq left right; decoded = decoded })

abbrev pub is_leaf : Node → Bool
is_leaf (node symbol freq null null) = Bool.true
is_leaf n = Bool.false

-- `for (bit = 7; bit >= 0; bit--)`: it is left after a leaf once all symbols are there.
unfoldable pub decode_byte : Node → ℕ → ℕ → ℕ → Reader → Outcome Reader
decode_byte root orig_size zero byte r = done r
decode_byte root orig_size (suc bit) byte r =
    let next = if byte / 2 ^ bit % 2 == 0 then left_of r.cur else right_of r.cur in
    reach root orig_size next r.decoded >>= λ r'.
    let more = decode_byte root orig_size bit byte r' in
    if is_leaf next then (if leb orig_size (length r'.decoded) then done r' else more) else more

-- `for (i = 0; i < data_size; ++i)`; a read past the data is a fault.
unfoldable pub decode_bytes : Node → ℕ → ℕ → List ℕ → Reader → Outcome Reader
decode_bytes root orig_size zero bytes r = done r
decode_bytes root orig_size (suc left) [] r = fault
decode_bytes root orig_size (suc left) (byte ∷ bytes) r = do
  r' ← decode_byte root orig_size 8 byte r
  decode_bytes root orig_size left bytes r'

module _ (malloc : ℕ → Bool) where
  unfoldable pub encode : List ℕ → Outcome Chunk
  encode buf = do
    freq ← count_frequencies buf (replicate 256 0)
    root ← tree_build malloc freq
    generated ←
        generate_codes root [] (record { codes = replicate 256 []; lengths = replicate 256 0 })
    codes ← compute_canonical_codes generated.lengths
    bit_count ← count_bits generated.lengths buf 0
    let encoded_size = (bit_count + 7) % 2 ^ 32 / 8
    let stored =
        pack_symbols codes buf (record { out = []; cur_byte = 0; bit_pos = 0 }) >>= λ packed.
        if leb (length (flush packed)) encoded_size
        then done (record {
          header = record {
            lengths = generated.lengths;
            orig_size = length buf;
            encoded_size = encoded_size;
          };
          bytes = flush packed;
        })
        else fault
    if malloc encoded_size then stored else failed

  unfoldable pub decode : Meta → List ℕ → Outcome (List ℕ)
  decode header bytes = do
    root ← tree_build_from_lengths header.lengths
    let decoded =
        decode_bytes root header.orig_size header.encoded_size bytes
          (record { cur = root; decoded = [] })
        >>= λ r. if length r.decoded == header.orig_size then done r.decoded else failed
    if malloc header.orig_size then decoded else failed
