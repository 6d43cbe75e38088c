-- ===== src/Io/Chunks/Headers.antt =====
-- A chunk header that src/io/lib_bra_io_file_chunks.c writes is read back and passes its
-- validation.
use br_archive.Prelude.{
  ℕ, ◌≡◌, ◌<◌, ◌≤◌, ◌^◌, refl, ap, ap₂, ◌∙◌, sym, subst, Bool, true, List, ◌++◌, length, take, drop,
  arith, length-append, take-append, drop-append, drop-drop,
}
use br_archive.Prelude.Actions.{◌>>=◌, pure, ok}
use br_archive.Io.{open_at, file_read, file_write}
use br_archive.Io.FileLaws.{Puts, Gets, Puts-then, Gets-bind, file_read-Gets, file_write-Puts}
use br_archive.Io.Words.{bytes_of, little_endian, little_endian-bytes_of}
use br_archive.Io.Chunks.{
  ChunkHeader, huffman_memory, huffman_at, read_header, write_header, header_validate, huffman_size,
  index_bytes, max_chunk_size,
}
use br_archive.Huffman.{Meta}

huffman_at-memory :
    (m : Meta)
    → length m.lengths ≡ 256
    → m.orig_size < 2 ^ 32
    → m.encoded_size < 2 ^ 32
    → huffman_at (huffman_memory m) ≡ m
huffman_at-memory m size o e =
    let rest = bytes_of 4 m.orig_size ++ bytes_of 4 m.encoded_size in
    let table : take 256 (huffman_memory m) ≡ m.lengths =
      subst (λ (k : ℕ). take k (m.lengths ++ rest) ≡ m.lengths) size (take-append m.lengths rest) in
    let behind : drop 256 (huffman_memory m) ≡ rest =
      subst (λ (k : ℕ). drop k (m.lengths ++ rest) ≡ rest) size (drop-append m.lengths rest) in
    let sizes : drop 260 (huffman_memory m) ≡ bytes_of 4 m.encoded_size =
      sym (drop-drop 4 256 (huffman_memory m)) ∙ ap (drop 4) behind in
    let orig =
      ap (λ (l : List ℕ). little_endian (take 4 l)) behind
      ∙ little_endian-bytes_of 4 m.orig_size o in
    let encoded = ap little_endian sizes ∙ little_endian-bytes_of 4 m.encoded_size e in
    λ i. record { lengths = table i; orig_size = orig i; encoded_size = encoded i }

-- A header that the format can hold and the reader accepts.
pub record IsHeader (h : ChunkHeader) : Type 0 where
  pub table : length h.huffman.lengths ≡ 256
  pub primary : h.primary_index < max_chunk_size
  pub orig : (0 < h.huffman.orig_size) × (h.huffman.orig_size ≤ max_chunk_size)
  pub encoded : (0 < h.huffman.encoded_size) × (h.huffman.encoded_size ≤ max_chunk_size)

abbrev pub header_bytes : ChunkHeader → List ℕ
header_bytes h = bytes_of index_bytes h.primary_index ++ huffman_memory h.huffman

length-huffman_memory :
    (m : Meta) → length m.lengths ≡ 256 → length (huffman_memory m) ≡ huffman_size
length-huffman_memory m size =
    omega (arith, length-append m.lengths (bytes_of 4 m.orig_size ++ bytes_of 4 m.encoded_size))

-- Where fwrite succeeds, a header whose sizes are in range is written at the end of a file, is read
-- back from there, whatever comes behind it, and passes the validation.
pub read_header-write :
    (writes : ℕ → Bool) (h : ChunkHeader)
    → ((n : ℕ) → writes n ≡ true)
    → IsHeader h
    → Puts (write_header writes h) (header_bytes h)
      × Gets read_header (header_bytes h) h
      × (header_validate h ≡ true)
unfolding write_header read_header header_validate
read_header-write writes h w v =
    let index = bytes_of index_bytes h.primary_index in
    let memory = huffman_memory h.huffman in
    let size = length-huffman_memory h.huffman v.table in
    (
      Puts-then (file_write writes index) (file_write writes memory) index memory
          (file_write-Puts writes index (omega arith) w)
          (file_write-Puts writes memory (omega arith) w),
      Gets-bind (file_read index_bytes)
          (λ b. file_read huffman_size >>= λ huffman.
            pure (record { primary_index = little_endian b; huffman = huffman_at huffman }))
          index memory index (file_read-Gets index index_bytes refl (omega arith))
          (λ before after. rw (file_read-Gets memory huffman_size size (omega arith) before after) (
            ap₂
              (λ (p : ℕ) (m : Meta).
                ok (record { primary_index = p; huffman = m }) (open_at (before ++ memory) after))
              (little_endian-bytes_of index_bytes h.primary_index (omega (arith, v.primary)))
              (huffman_at-memory h.huffman v.table (omega (arith, v.orig.1))
                (omega (arith, v.encoded.1))))),
      ground (arith, v.primary, v.orig, v.encoded),
    )
