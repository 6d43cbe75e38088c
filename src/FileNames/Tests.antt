-- ===== src/FileNames/Tests.antt =====
-- Runs of src/lib_bra_private.c, and its theorems at concrete inputs.
use br_archive.Prelude.{ℕ, ◌≡◌, refl, true, false, inl, List, [], ◌∷◌, ◌++◌, arith, none}
use br_archive.Prelude.Actions.{ok}
use br_archive.Io.Entries.{MetaEntry, file}
use br_archive.Io.Words.{bytes_of}
use br_archive.Crc32c.{crc32c_table}
use br_archive.FileNames.{starts_with, contains, up, validate_filename, compute_header_crc32}
use br_archive.FileNames.Safety.{validate_filename_safe, compute_header_crc32_lem}

-- The name of the parent directory is accepted.
parent-accepted : validate_filename (b'.' ∷ b'.' ∷ []) 2 ≡ true
unfolding validate_filename contains starts_with
parent-accepted = refl

drive-refused : validate_filename (b'C' ∷ b':' ∷ b'a' ∷ []) 3 ≡ false
unfolding validate_filename contains starts_with
drive-refused = refl

abbrev below : List ℕ
below = b'a' ∷ b'/' ∷ b'b' ∷ []

below-accepted : validate_filename below 3 ≡ true
unfolding validate_filename contains starts_with
below-accepted = refl

validate_filename_safe_example :
    (below ≡ b'/' ∷ [] → ⊥)
    × (below ≡ up b'/' ++ [] → ⊥)
    × (below ≡ (b'a' ∷ []) ++ ((b'/' ∷ up b'/') ++ []) → ⊥)
validate_filename_safe_example =
    validate_filename_safe below (b'a' ∷ []) [] 3 b'/' below-accepted (inl refl)

abbrev entry : MetaEntry
entry = record { attributes = 4; name_size = 0; name = none; entry_data = file 7; crc32 = 0 }

compute_header_crc32_lem_example :
    compute_header_crc32 3 below entry
    ≡ ok tt (record entry { crc32 = crc32c_table (4 ∷ (bytes_of 2 3 ++ below)) 0 })
compute_header_crc32_lem_example =
    compute_header_crc32_lem below entry (omega arith) (omega arith) (omega arith) (omega arith)
