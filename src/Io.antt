-- ===== src/Io.antt =====
-- src/io/lib_bra_io_file.c: files. A file is its bytes and the position of the next access; reads
-- fail at the end of the file only, and `writes` says whether fwrite writes all of a buffer.
pub mod Words
pub mod FileLaws
pub mod Footer
pub mod Sfx
pub mod Chunks
pub mod Entries
mod Tests
use br_archive.Prelude.{
  ℕ, ◌+◌, ◌-◌, ◌^◌, Bool, true, false, Option, none, some, List, [], ◌∷◌, ◌++◌, length, take, drop,
  replicate, leb, ltb, if◌then◌else◌,
}
use br_archive.Prelude.Actions.{
  Action, Step, ok, refused, invalid, endless, pure, refuse, check, assert, on_failure, ◌>>=◌, ◌>>◌,
}

-- bra_io_file_t.
pub record File : Type 0 where
  pub is_open : Bool
  pub bytes : List ℕ
  pub pos : ℕ

-- An open file, as the bytes before its position and those from there on.
abbrev pub open_at : List ℕ → List ℕ → File
open_at before after = record { is_open = true; bytes = before ++ after; pos = length before }

-- bra_io_file_close, and the functions that report an error and close.
unfoldable pub close : File → File
close f = record f { is_open = false }

abbrev pub or_close : {A : Type 0} → Action File A → Action File A
or_close m = on_failure close m

abbrev pub refuse_closed : {A : Type 0} → Action File A
refuse_closed f = refused (close f)

abbrev pub assert_file : Action File (Unit {0})
assert_file f = if f.is_open then ok tt f else invalid

unfoldable pub file_read : ℕ → Action File (List ℕ)
unfolding close
file_read buf_size f =
    let got = take buf_size (drop f.pos f.bytes) in
    let result =
      if leb buf_size (length got)
      then ok got (record f { pos = f.pos + buf_size })
      else refused (close f) in
    if f.is_open then (if ltb 0 buf_size then result else invalid) else invalid

-- Past the end the gap is filled with zeros.
abbrev pub overwrite : List ℕ → ℕ → List ℕ → List ℕ
overwrite bytes pos buf =
    take pos bytes ++ (replicate (pos - length bytes) 0 ++ (buf ++ drop (pos + length buf) bytes))

module _ (writes : ℕ → Bool) where
  unfoldable pub file_write : List ℕ → Action File (Unit {0})
  unfolding close
  file_write buf f =
      let result =
        if writes (length buf)
        then ok tt (record f { bytes = overwrite f.bytes f.pos buf; pos = f.pos + length buf })
        else refused (close f) in
      if f.is_open then (if ltb 0 (length buf) then result else invalid) else invalid

-- The int64_t offsets.
pub data Offset : Type 0 where
  ahead : ℕ → Offset
  back : ℕ → Offset

pub data Origin : Type 0 where
  seek_set seek_cur seek_end : Origin

-- A uint64_t as an int64_t.
unfoldable pub as_int64 : ℕ → Offset
as_int64 n = if ltb n (2 ^ 63) then ahead n else back (2 ^ 64 - n)

abbrev pub base : Origin → File → ℕ
base seek_set f = 0
base seek_cur f = f.pos
base seek_end f = length f.bytes

abbrev pub move : Offset → ℕ → Option ℕ
move (ahead n) from = some (from + n)
move (back n) from = if leb n from then some (from - n) else none

-- fseeko refuses a position below 0 or past the largest off_t.
unfoldable pub file_seek : Offset → Origin → Action File (Unit {0})
unfolding as_int64
file_seek offs origin f =
    let moved : Step File (Unit {0}) = elim (move offs (base origin f)) [
      | none ↦ refused f
      | some pos ↦ if ltb pos (2 ^ 63) then ok tt (record f { pos = pos }) else refused f
    ] in
    if f.is_open then moved else invalid

unfoldable pub file_tell : Action File ℕ
file_tell f = if f.is_open then ok f.pos f else invalid

-- bra_io_file_skip_data.
unfoldable pub skip_data : ℕ → Action File (Unit {0})
unfolding close
skip_data data_size = or_close (file_seek (as_int64 data_size) seek_cur)
