-- ===== src/Io/Chunks/Codec.antt =====
-- The coding of one chunk in bra_io_file_chunks_compress_file and
-- bra_io_file_chunks_decompress_file of src/io/lib_bra_io_file_chunks.c.
use Prim.Native.Nat.{Ordering}
use br_archive.Prelude.{ℕ, Bool, List, leb, if◌then◌else◌, Outcome, done, failed, fault, ◌>>=◌}
use br_archive.Io.Chunks.{ChunkHeader, max_chunk_size}
use br_archive.Bwt
use br_archive.Mtf
use br_archive.Rle
use br_archive.Huffman.Codec

pub record Compressed : Type 0 where
  pub header : ChunkHeader
  pub bytes : List ℕ

module _ (sort : (ℕ → ℕ → Ordering) → List ℕ → List ℕ) (malloc : ℕ → Bool) where
  -- The transforms before the Huffman coding, from the bytes of g_buf.
  unfoldable pub transform_chunk : List ℕ → Outcome (ℕ × List ℕ)
  transform_chunk buf = do
    (transformed, primary_index) ← Bwt.encode2 sort malloc buf
    ranks ← Mtf.encode2 transformed
    buf_rle ← Rle.encode malloc ranks
    done (primary_index, buf_rle.bytes)

  unfoldable pub compress_chunk : List ℕ → Outcome Compressed
  unfolding transform_chunk
  compress_chunk buf = do
    (primary_index, buf_rle) ← transform_chunk buf
    chunk ← Codec.encode malloc buf_rle
    done (record {
      header = record { primary_index = primary_index; huffman = chunk.header };
      bytes = chunk.bytes;
    })

-- From the decoded Huffman data on; `trans` is g_buf_trans. The move-to-front decoder stores as
-- many bytes into g_buf2, which has `max_chunk_size`.
unfoldable pub restore_chunk : (ℕ → Bool) → List ℕ → ℕ → List ℕ → Outcome (List ℕ)
restore_chunk malloc trans primary_index buf_huffman = do
  buf_rle ← Rle.decode malloc buf_huffman
  let decoded = Mtf.decode2 buf_rle.bytes >>= λ buf. Bwt.decode2 buf primary_index trans
  let stored = if leb buf_rle.size max_chunk_size then decoded else fault
  if leb buf_rle.size primary_index then failed else stored
