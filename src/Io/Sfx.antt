-- ===== src/Io/Sfx.antt =====
-- The parts of src/io/lib_bra_io_file.c for self-extracting archives: the tests for an executable,
-- and the footer behind it.
use br_archive.Prelude.{
  ℕ, ◌^◌, Bool, true, false, Option, none, some, List, [], ◌∷◌, ◌++◌, ltb, ◌==◌, ◌&&◌,
  if◌then◌else◌, take, drop,
}
use br_archive.Prelude.Actions.{Action, ok, refused, invalid, endless, pure, assert, ◌>>=◌, ◌>>◌}
use br_archive.Io.{
  File, Offset, Origin, open_at, or_close, refuse_closed, file_read, file_write, file_seek,
}
use br_archive.Io.Words.{little_endian, bytes_of}

abbrev bytes_eq : List ℕ → List ℕ → Bool
bytes_eq [] [] = true
bytes_eq [] (y ∷ ys) = false
bytes_eq (x ∷ xs) [] = false
bytes_eq (x ∷ xs) (y ∷ ys) = x == y && bytes_eq xs ys

-- The functions of the magic numbers return -1 where these refuse.
unfoldable pub magic_is_elf : Action File Bool
unfolding file_read
magic_is_elf = do magic ← file_read 4; pure (bytes_eq magic (0x7f ∷ b'E' ∷ b'L' ∷ b'F' ∷ []))

unfoldable pub magic_is_pe_exe : Action File Bool
unfolding file_read file_seek
magic_is_pe_exe = do
  magic ← file_read 2
  let at_offset = (do
    word ← file_read 4
    let pe_offset = little_endian word
    let at_header = (do
      or_close (file_seek (Offset.ahead pe_offset) Origin.seek_set)
      pe_magic ← file_read 4
      pure (bytes_eq pe_magic (b'P' ∷ b'E' ∷ 0 ∷ 0 ∷ [])))
    if ltb pe_offset 0x40 then pure false else at_header)
  let at_dos_header = or_close (file_seek (Offset.ahead 0x3c) Origin.seek_set) >> at_offset
  if bytes_eq magic (b'M' ∷ b'Z' ∷ []) then at_dos_header else pure false

-- A function that opens the file of a name, whose bytes are there if fopen finds it.
abbrev on_file : Option (List ℕ) → Action File Bool → Option Bool
on_file none act = some false
on_file (some bytes) act = elim (act (open_at [] bytes)) [
  | ok b f ↦ some b
  | refused f ↦ some false
  | invalid ↦ none
  | endless ↦ none
]

unfoldable pub is_elf : Option (List ℕ) → Option Bool
unfolding magic_is_elf
is_elf found = on_file found magic_is_elf

unfoldable pub is_pe_exe : Option (List ℕ) → Option Bool
unfolding magic_is_pe_exe
is_pe_exe found = on_file found magic_is_pe_exe

unfoldable pub can_be_sfx : Option (List ℕ) → Option Bool
unfolding magic_is_elf magic_is_pe_exe
can_be_sfx found = on_file found do
  elf ← magic_is_elf
  let other = or_close (file_seek (Offset.ahead 0) Origin.seek_set) >> magic_is_pe_exe
  if elf then pure true else other

-- BRA_FOOTER_MAGIC.
abbrev pub footer_magic : ℕ
footer_magic = 0x782d5242

-- sizeof(bra_io_footer_t).
abbrev pub footer_size : ℕ
footer_size = 12

-- The header_offset of the footer; as an int64_t it is above 0.
unfoldable pub read_footer : Action File ℕ
read_footer = do
  footer ← file_read footer_size
  let magic = little_endian (take 4 footer)
  let header_offset = little_endian (drop 4 footer)
  let valid = magic == footer_magic && (ltb 0 header_offset && ltb header_offset (2 ^ 63))
  if valid then pure header_offset else refuse_closed

unfoldable pub write_footer : (ℕ → Bool) → ℕ → Action File (Unit {0})
write_footer writes header_offset =
    assert (ltb 0 header_offset && ltb header_offset (2 ^ 63))
    >> file_write writes (bytes_of 4 footer_magic ++ bytes_of 8 header_offset)
