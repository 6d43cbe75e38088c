-- ===== src/Io/Chunks/Tests.antt =====
-- The theorems on src/io/lib_bra_io_file_chunks.c at concrete inputs.
use br_archive.Prelude.{
  ℕ, refl, ◌≡◌, ◌<◌, ◌++◌, Bool, true, none, List, [], ◌∷◌, replicate, length-replicate, done,
  fault, arith,
}
use br_archive.Prelude.Actions.{ok, refused}
use br_archive.Io.FileLaws.{Puts, Gets}
use br_archive.Io.Entries.{MetaEntry, file}
use br_archive.Io.Chunks.{ChunkHeader, read_header, write_header, header_validate}
use br_archive.Io.Chunks.Headers.{IsHeader, header_bytes, read_header-write}
use br_archive.Io.Chunks.Copy.{Transfer, copy_file, close_both}
use br_archive.Io.Chunks.CopyLaws.{transfer, copy_file_lem, copy_file_short}
use br_archive.Io.Chunks.Codec.{transform_chunk, restore_chunk}
use br_archive.Io.Chunks.Restoring.{
  restore_chunk-transform, restore_chunk_cases, Verdict, IsOverlong,
}
use br_archive.Bwt.InsertionSort.{insertion_sort, insertion_sort-Sorts}
use br_archive.Crc32c.{crc32c_table}

abbrev always : ℕ → Bool
always n = true

abbrev mississippi : List ℕ
mississippi = b'm' ∷ b'i' ∷ b's' ∷ b's' ∷ b'i' ∷ b's' ∷ b's' ∷ b'i' ∷ b'p' ∷ b'p' ∷ b'i' ∷ []

restore_chunk-transform_example :
    (primary_index : ℕ) × (buf_rle : List ℕ) × (transform_chunk insertion_sort always mississippi
      ≡ done (primary_index, buf_rle))
    × (primary_index < 11)
    × (restore_chunk always (replicate 11 0) primary_index buf_rle ≡ done mississippi)
restore_chunk-transform_example =
    restore_chunk-transform insertion_sort always mississippi (replicate 11 0) insertion_sort-Sorts
      (λ n. refl) (omega arith) (omega arith) (omega arith) (omega arith)

-- A run of three.
abbrev stream : List ℕ
stream = 254 ∷ 7 ∷ []

restore_chunk_cases_example :
    Verdict always (replicate 262_144 0) 2 stream
    × (IsOverlong always (replicate 262_144 0) 2 stream
        → restore_chunk always (replicate 262_144 0) 2 stream ≡ fault)
restore_chunk_cases_example =
    restore_chunk_cases always (replicate 262_144 0) 2 stream (omega arith)
      (omega (arith, length-replicate {A = ℕ} 262_144 0))

abbrev header : ChunkHeader
header = record {
  primary_index = 70_000;
  huffman = record { lengths = replicate 256 8; orig_size = 90_000; encoded_size = 80_000 };
}

header-IsHeader : IsHeader header
header-IsHeader = record {
  table = length-replicate {A = ℕ} 256 8;
  primary = omega arith;
  orig = omega arith;
  encoded = omega arith;
}

read_header-write_example :
    Puts (write_header always header) (header_bytes header)
    × Gets read_header (header_bytes header) header
    × (header_validate header ≡ true)
read_header-write_example = read_header-write always header (λ n. refl) header-IsHeader

abbrev note : MetaEntry
note = record { attributes = 0; name_size = 0; name = none; entry_data = file 11; crc32 = 0 }

copy_file_lem_example :
    copy_file always true true 11 (transfer (1 ∷ []) (2 ∷ []) (mississippi ++ (3 ∷ [])) note 5)
    ≡ ok tt (
        transfer
          ((1 ∷ []) ++ mississippi)
          ((2 ∷ []) ++ mississippi)
          (3 ∷ [])
          note
          (crc32c_table mississippi 5))
copy_file_lem_example =
    copy_file_lem always (λ n. refl) note mississippi (1 ∷ []) (2 ∷ []) (3 ∷ []) 5 (omega arith)
      (omega arith)

copy_file_short_example :
    (t : Transfer) × (copy_file always true true 12 (transfer [] (2 ∷ []) mississippi note 5)
      ≡ refused (close_both t))
copy_file_short_example =
    copy_file_short always (λ n. refl) note 12 mississippi [] (2 ∷ []) 5 (omega arith)
