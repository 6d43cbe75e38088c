-- ===== src/Huffman.antt =====
-- src/encoders/bra_huffman.c: Huffman coding with canonical codes. malloc says whether the
-- allocations of the nodes and of the buffers succeed; those of the chunk's struct and of the
-- decoder's nodes are taken to.
pub mod Heap
pub mod Tree
pub mod Canonical
pub mod Codec
mod Tests
use br_archive.Prelude.{ℕ, List}

-- A node, or the NULL pointer.
pub data Node : Type 0 where
  null : Node
  node : ℕ → ℕ → Node → Node → Node

-- The bra_huffman_t of a chunk.
pub record Meta : Type 0 where
  pub lengths : List ℕ
  pub orig_size : ℕ
  pub encoded_size : ℕ
