-- ===== src/FileNames.antt =====
-- src/lib_bra_private.c: the check of a file name and the checksum of an entry's header.
mod Tests
pub mod Safety
use br_archive.Prelude.{
  ℕ, zero, ◌^◌, Bool, true, false, List, [], ◌∷◌, length, take, get_or, leb, ltb, ◌==◌, ◌&&◌, ◌||◌,
  not, if◌then◌else◌,
}
use br_archive.Prelude.Actions.{Action, ok, refused, invalid}
use br_archive.Io.Entries.{MetaEntry}
use br_archive.Io.Words.{bytes_of}
use br_archive.Crc32c.{crc32c_table}

-- `strncmp(fn, pattern, strlen(pattern)) == 0`.
unfoldable pub starts_with : List ℕ → List ℕ → Bool
starts_with [] fn = true
starts_with (c ∷ pattern) [] = false
starts_with (c ∷ pattern) (x ∷ fn) = (c == x) && starts_with pattern fn

-- `strstr(fn, pattern) != NULL`.
unfoldable pub contains : List ℕ → List ℕ → Bool
unfolding starts_with
contains pattern [] = starts_with pattern []
contains pattern (x ∷ fn) = starts_with pattern (x ∷ fn) || contains pattern fn

abbrev pub is_letter : ℕ → Bool
is_letter c = (leb b'A' c && leb c b'Z') || (leb b'a' c && leb c b'z')

-- The string ends with a 0, which is what is read behind it.
abbrev pub is_absolute : List ℕ → ℕ → Bool
is_absolute fn fn_size =
    (get_or fn 0 0 == b'/')
    || ((get_or fn 0 0 == b'\\')
        || (leb 2 fn_size && ((get_or fn 1 0 == b':') && is_letter (get_or fn 0 0))))

abbrev pub up : ℕ → List ℕ
up delimiter = b'.' ∷ b'.' ∷ delimiter ∷ []

abbrev pub is_traversal : List ℕ → Bool
is_traversal fn =
    contains (b'/' ∷ up b'/') fn
    || (contains (b'\\' ∷ up b'\\') fn || (starts_with (up b'/') fn || starts_with (up b'\\') fn))

-- _bra_validate_filename.
unfoldable pub validate_filename : List ℕ → ℕ → Bool
unfolding contains starts_with
validate_filename fn fn_size = not (is_absolute fn fn_size) && not (is_traversal fn)

-- _bra_compute_header_crc32. The name must have the bytes that are read of it.
unfoldable pub compute_header_crc32 : ℕ → List ℕ → Action MetaEntry (Unit {0})
compute_header_crc32 filename_len filename me =
    let after_attributes = crc32c_table (me.attributes ∷ []) 0 in
    let after_size = crc32c_table (bytes_of 2 filename_len) after_attributes in
    let computed =
      ok tt (record me { crc32 = crc32c_table (take filename_len filename) after_size }) in
    let read_name = if leb filename_len (length filename) then computed else invalid in
    if ltb 65_535 filename_len || filename_len == 0 then refused me else read_name
