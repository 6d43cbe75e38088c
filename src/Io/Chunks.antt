-- ===== src/Io/Chunks.antt =====
-- Chunk headers in src/io/lib_bra_io_file_chunks.c.
pub mod Headers
pub mod Copy
pub mod CopyLaws
pub mod Codec
pub mod Attributes
pub mod Files
pub mod Restoring
mod Tests
use br_archive.Prelude.{
  ℕ, ◌+◌, ◌*◌, ◌^◌, Bool, true, false, List, [], ◌∷◌, ◌++◌, length, take, drop, leb, ltb, ◌==◌,
  ◌&&◌, not,
}
use br_archive.Prelude.Actions.{Action, pure, ◌>>=◌, ◌>>◌}
use br_archive.Io.{File, file_read, file_write}
use br_archive.Io.Words.{little_endian, bytes_of}
use br_archive.Huffman.{Meta}

-- BRA_MAX_CHUNK_SIZE.
abbrev pub max_chunk_size : ℕ
max_chunk_size = 262_144

-- BRA_BWT_INDEX_BYTES.
abbrev pub index_bytes : ℕ
index_bytes = 3

-- sizeof(bra_huffman_t), and BRA_IO_CHUNK_HEADER_SIZE.
abbrev pub huffman_size : ℕ
huffman_size = 264

abbrev pub chunk_header_size : ℕ
chunk_header_size = index_bytes + huffman_size

-- bra_io_chunk_header_t.
pub record ChunkHeader : Type 0 where
  pub primary_index : ℕ
  pub huffman : Meta

-- The bytes of a packed bra_huffman_t, and of a bra_io_chunk_header_t, in memory.
abbrev pub huffman_memory : Meta → List ℕ
huffman_memory m = m.lengths ++ (bytes_of 4 m.orig_size ++ bytes_of 4 m.encoded_size)

abbrev pub header_memory : ChunkHeader → List ℕ
header_memory h = bytes_of 4 h.primary_index ++ huffman_memory h.huffman

-- A bra_huffman_t at the first of these bytes.
abbrev pub huffman_at : List ℕ → Meta
huffman_at bytes = record {
  lengths = take 256 bytes;
  orig_size = little_endian (take 4 (drop 256 bytes));
  encoded_size = little_endian (drop 260 bytes);
}

-- bra_io_file_chunks_header_validate.
unfoldable pub header_validate : ChunkHeader → Bool
header_validate h =
    ltb h.primary_index max_chunk_size
    && (leb h.huffman.encoded_size max_chunk_size
        && (leb h.huffman.orig_size max_chunk_size
            && (not (h.huffman.encoded_size == 0) && not (h.huffman.orig_size == 0))))

unfoldable pub read_header : Action File ChunkHeader
read_header = do
  b ← file_read index_bytes
  huffman ← file_read huffman_size
  pure (record { primary_index = little_endian b; huffman = huffman_at huffman })

unfoldable pub write_header : (ℕ → Bool) → ChunkHeader → Action File (Unit {0})
write_header writes h =
    file_write writes (bytes_of index_bytes h.primary_index)
    >> file_write writes (huffman_memory h.huffman)
