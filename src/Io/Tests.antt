-- ===== src/Io/Tests.antt =====
-- Runs of the functions on files, and the theorems at concrete inputs.
use br_archive.Prelude.{ℕ, refl, Bool, true, some, [], ◌∷◌, ◌++◌, arith}
use br_archive.Prelude.Actions.{◌>>=◌, ◌>>◌}
use br_archive.Io.FileLaws.{Puts, Gets}
use br_archive.Io.Entries.{
  MetaEntry, subdir, file, read_common_header, write_common_header, read_subdir_entry,
  read_file_entry, write_file_entry, flush_entry_subdir,
}
use br_archive.Io.Entries.Format.{IsEntry, common_header}
use br_archive.Io.Entries.RoundTrip.{read_subdir_entry-flush, read_file_entry-write}
use Prim.Native.Nat.{Ordering}
use br_archive.Prelude.{◌≡◌, List}
use br_archive.Prelude.Actions.{refuse}
use br_archive.Io.{open_at}
use br_archive.Io.Entries.Flush.{Flush, flush_round, flush_entry_file}
use br_archive.Io.Entries.FlushRounds.{flush_entry_file-flush_round}
use br_archive.Io.Words.{bytes_of}

abbrev always : ℕ → Bool
always n = true

abbrev docs : MetaEntry
docs = record {
  attributes = 3;
  name_size = 4;
  name = some (b'd' ∷ b'o' ∷ b'c' ∷ b's' ∷ []);
  entry_data = subdir 1;
  crc32 = 0;
}

docs-IsEntry : IsEntry docs (b'd' ∷ b'o' ∷ b'c' ∷ b's' ∷ [])
docs-IsEntry = record {
  named = refl;
  sized = refl;
  not_empty = omega arith;
  short = omega arith;
  chars = omega arith;
  attribute = omega arith;
  fresh = refl;
}

read_subdir_entry-flush_example :
    Puts
      (flush_entry_subdir always docs)
      (common_header docs (b'd' ∷ b'o' ∷ b'c' ∷ b's' ∷ []) ++ bytes_of 4 1)
    × Gets
        (read_common_header always >>= read_subdir_entry)
        (common_header docs (b'd' ∷ b'o' ∷ b'c' ∷ b's' ∷ []) ++ bytes_of 4 1)
        docs
read_subdir_entry-flush_example =
    read_subdir_entry-flush always always (λ n. refl) (λ n. refl) docs
      (b'd' ∷ b'o' ∷ b'c' ∷ b's' ∷ []) 1 docs-IsEntry refl refl (omega arith)

abbrev notes : MetaEntry
notes = record {
  attributes = 4;
  name_size = 1;
  name = some (b'n' ∷ []);
  entry_data = file 300;
  crc32 = 0;
}

notes-IsEntry : IsEntry notes (b'n' ∷ [])
notes-IsEntry = record {
  named = refl;
  sized = refl;
  not_empty = omega arith;
  short = omega arith;
  chars = omega arith;
  attribute = omega arith;
  fresh = refl;
}

read_file_entry-write_example :
    Puts
      (write_common_header always notes >> write_file_entry always notes)
      (common_header notes (b'n' ∷ []) ++ bytes_of 8 300)
    × Gets
        (read_common_header always >>= read_file_entry)
        (common_header notes (b'n' ∷ []) ++ bytes_of 8 300)
        notes
read_file_entry-write_example =
    read_file_entry-write always always (λ n. refl) (λ n. refl) notes (b'n' ∷ []) 300 notes-IsEntry
      refl refl (omega arith)

abbrev unsorted : (ℕ → ℕ → Ordering) → List ℕ → List ℕ
unsorted cmp xs = xs

-- A file that is to be compressed, behind a header.
abbrev packed : Flush
packed = record { f = open_at (0 ∷ []) []; me = notes }

flush_entry_file-flush_round_example :
    flush_round unsorted always always true true
      (flush_round unsorted always always true true refuse (some (b'x' ∷ [])) (b'n' ∷ []))
      (some (b'x' ∷ []))
      (b'n' ∷ [])
      packed
    ≡ flush_entry_file unsorted always always true true 2 (some (b'x' ∷ [])) (b'n' ∷ []) packed
flush_entry_file-flush_round_example =
    flush_entry_file-flush_round unsorted always always true true refuse (some (b'x' ∷ []))
      (b'n' ∷ []) packed
