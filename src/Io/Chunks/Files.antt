-- ===== src/Io/Chunks/Files.antt =====
-- bra_io_file_chunks_compress_file and bra_io_file_chunks_decompress_file of
-- src/io/lib_bra_io_file_chunks.c, without the ratio, which is only printed. `initialized` says
-- whether the global buffers were allocated, and `tmp_opens` whether tmpfile gives a file.
use Prim.Native.Nat.{Ordering}
use br_archive.Prelude.{
  ℕ, zero, suc, ◌+◌, ◌-◌, ◌*◌, ◌/◌, ◌%◌, ◌&&◌, ◌^◌, Bool, true, false, Option, none, some, List, [],
  length, leb, ltb, ◌==◌, if◌then◌else◌,
}
use br_archive.Prelude.Actions.{
  Action, ok, refused, invalid, endless, pure, check, lift, on_failure, zoom, ◌>>=◌, ◌>>◌,
}
use br_archive.Io.{
  File, close, open_at, file_read, file_write, file_seek, file_tell, Offset, Origin,
}
use br_archive.Io.Words.{bytes_of}
use br_archive.Io.Entries.{
  MetaEntry, set_comp, comp_stored, comp_compressed, attr_comp, write_file_entry, file,
}
use br_archive.Io.Chunks.{
  ChunkHeader, max_chunk_size, chunk_header_size, header_memory, header_validate, read_header,
  write_header,
}
use br_archive.Io.Chunks.Copy.{
  Transfer, close_both, on_src, on_dst, update_crc, is_usable, has_entry, bra_min, copy_file,
}
use br_archive.Io.Chunks.Codec.{compress_chunk, restore_chunk}
use br_archive.Crc32c.{crc32c_table, crc32c_combine}
use br_archive.Rle.{decode_compute_size}
use br_archive.Huffman.Codec

-- The files and the entry while a file is compressed into a temporary one.
pub record Compression : Type 0 where
  pub dst : File
  pub src : File
  pub tmp : File
  pub me : MetaEntry

abbrev pub close_all : Compression → Compression
close_all c = record c { dst = close c.dst; src = close c.src; tmp = close c.tmp }

abbrev pub on_tmp : {A : Type 0} → Action File A → Action Compression A
on_tmp = zoom (λ c. c.tmp) (λ f c. record c { tmp = f })

abbrev pub close_tmp : Compression → Compression
close_tmp c = record c { tmp = close c.tmp }

-- sizeof(bra_io_chunk_header_t).
abbrev header_memory_size : ℕ
header_memory_size = 268

abbrev pub close_tmpfile : Action Compression (Unit {0})
close_tmpfile c = ok tt (close_tmp c)

-- The entry is to be stored, since compression does not pay.
abbrev pub store_entry : Action Compression (Unit {0})
store_entry c = refused (
    close_tmp (record c { me = record c.me { attributes = set_comp c.me.attributes comp_stored } }))

-- The temporary file as the source.
abbrev pub open_dst : Option File → File → File
open_dst none f = f
open_dst (some f') f = f'

abbrev pub from_tmp : {A : Type 0} → Action Transfer A → Action Compression A
from_tmp =
    zoom (λ c. record { dst = some c.dst; src = c.tmp; me = some c.me })
      (λ t c. record c { dst = open_dst t.dst c.dst; tmp = t.src })

abbrev pub set_entry : MetaEntry → Action Compression (Unit {0})
set_entry me c = ok tt (record c { me = me })

module _ (sort : (ℕ → ℕ → Ordering) → List ℕ → List ℕ) (malloc writes : ℕ → Bool) where
  -- The loop over the chunks with the bytes left, which returns the checksum.
  unfoldable pub compress_loop : ℕ → ℕ → ℕ → Action Compression ℕ
  compress_loop zero left crc32 = if left == 0 then pure crc32 else λ c. endless
  compress_loop (suc fuel) left crc32 =
      let s = bra_min max_chunk_size left in
      let round = (do
        buf ← zoom (λ c. c.src) (λ f c. record c { src = f }) (file_read s)
        chunk ← lift (compress_chunk sort malloc buf)
        combined ← lift (
            crc32c_combine (crc32c_table (header_memory chunk.header) crc32) (crc32c_table buf 0) s)
        on_tmp (write_header writes chunk.header)
        on_tmp (file_write writes chunk.bytes)
        compress_loop fuel (left - s) combined) in
      if left == 0 then pure crc32 else round

  -- The temporary file is appended to the archive, behind the file entry with its size.
  unfoldable pub append_compressed : ℕ → ℕ → ℕ → Action Compression (Unit {0})
  append_compressed data_size tmpfile_size crc32 c =
      let num_chunks =
        data_size / max_chunk_size + (if ltb 0 (data_size % max_chunk_size) then 1 else 0) in
      let size_crc = crc32c_table (bytes_of 8 tmpfile_size) c.me.crc32 in
      let sized = on_failure close_all (do
        on_tmp (file_seek (Offset.ahead 0) Origin.seek_set)
        crc ←
            lift (
              crc32c_combine size_crc crc32
                ((data_size + num_chunks * header_memory_size) % 2 ^ 32))
        let me = record c.me { entry_data = file tmpfile_size; crc32 = crc }
        set_entry me
        zoom (λ c. c.dst) (λ f c. record c { dst = f }) (write_file_entry writes me)) in
      (sized >> from_tmp (copy_file writes false true tmpfile_size)) c

  abbrev pub finish_compression : ℕ → ℕ × ℕ → Action Compression (Unit {0})
  finish_compression data_size (crc32, tmpfile_size) =
      let appended =
        on_failure close_tmp (append_compressed data_size tmpfile_size crc32) >> close_tmpfile in
      if leb data_size tmpfile_size then store_entry else appended

  -- `false` without a failure leaves the archive open and sets the entry to be stored.
  unfoldable pub compress_file : Bool → Bool → ℕ → Action Compression (Unit {0})
  unfolding compress_loop append_compressed
  compress_file initialized tmp_opens data_size c =
      let compressed = on_failure close_all (
        compress_loop data_size data_size 0 >>= λ crc32.
        on_tmp file_tell >>= λ tmpfile_size. pure (crc32, tmpfile_size)) in
      let run = (compressed >>= finish_compression data_size) (record c { tmp = open_at [] [] }) in
      let opened = if initialized && tmp_opens then run else refused c in
      if c.dst.is_open && c.src.is_open then opened else invalid

-- One chunk behind its header, which adds to the original size.
module _ (malloc writes : ℕ → Bool) where
  abbrev restore : Bool → List ℕ → ChunkHeader → List ℕ → Action Transfer ℕ
  restore decode trans h buf_huffman =
      let restored = lift (restore_chunk malloc trans h.primary_index buf_huffman) >>= λ buf.
      update_crc (header_memory h) >> update_crc buf >> on_dst writes buf >> pure (length buf) in
      if decode then restored else lift (decode_compute_size buf_huffman)

  unfoldable pub decompress_chunk : Bool → List ℕ → Action Transfer (ℕ × ℕ)
  decompress_chunk decode trans = on_src read_header >>= λ h.
      check (header_validate h) >> on_src (file_read h.huffman.encoded_size) >>= λ buf.
      lift (Codec.decode malloc h.huffman buf) >>= λ buf_huffman.
      restore decode trans h buf_huffman >>= λ s.
      pure (h.huffman.encoded_size + chunk_header_size, s)

  -- The loop over the chunks with the bytes left and the original size so far.
  unfoldable pub decompress_loop : ℕ → ℕ → Bool → List ℕ → ℕ → Action Transfer ℕ
  unfolding decompress_chunk
  decompress_loop zero left decode trans file_orig_size =
      if left == 0 then pure file_orig_size else λ t. endless
  decompress_loop (suc fuel) left decode trans file_orig_size =
      let round = decompress_chunk decode trans >>= λ p.
      decompress_loop fuel (left - p.0) decode trans ((file_orig_size + p.1) % 2 ^ 64) in
      if left == 0 then pure file_orig_size else round

  -- `trans` is g_buf_trans.
  unfoldable pub decompress_file : Bool → List ℕ → ℕ → Bool → Action Transfer (Unit {0})
  unfolding decompress_loop
  decompress_file initialized trans data_size decode t =
      let run =
        on_failure close_both
          (decompress_loop data_size data_size decode trans 0 >>= λ file_orig_size.
            check (ltb data_size file_orig_size))
          t in
      let opened = if is_usable t.dst then run else refused (close_both t) in
      let checked = if initialized then opened else refused t in
      if t.src.is_open && has_entry t.me then checked else invalid

  abbrev comp_of : Option MetaEntry → ℕ
  comp_of none = comp_stored
  comp_of (some me) = attr_comp me.attributes

  -- bra_io_file_chunks_read_file.
  unfoldable pub read_file : Bool → List ℕ → ℕ → Bool → Action Transfer (Unit {0})
  unfolding decompress_file copy_file
  read_file initialized trans data_size decode t =
      let only_src = record t { dst = none } in
      let compressed = decompress_file initialized trans data_size decode only_src in
      let other = if comp_of t.me == comp_compressed then compressed else refused t in
      let run =
        if comp_of t.me == comp_stored
        then copy_file writes decode initialized data_size only_src
        else other in
      if t.src.is_open && has_entry t.me then run else invalid
