-- ===== src/Io/Entries/Flush.antt =====
-- bra_io_file_meta_entry_flush_entry_file of src/io/lib_bra_io_file_meta_entries.c: a file with its
-- entry is written into the archive.
use Prim.Native.Nat.{Ordering}
use br_archive.Prelude.{
  ℕ, zero, suc, Bool, true, Option, none, some, List, [], length, ltb, ◌==◌, if◌then◌else◌,
}
use br_archive.Prelude.Actions.{
  Action, ok, invalid, endless, refuse, check, on_failure, zoom, get_state, modify, recovering,
  ◌>>=◌, ◌>>◌,
}
use br_archive.Io.{File, Offset, Origin, open_at, close, assert_file, file_seek, file_tell}
use br_archive.Io.Words.{bytes_of}
use br_archive.Io.Entries.{
  MetaEntry, file, subdir, null, attr_type, attr_comp, attr_file, comp_stored, comp_compressed,
  write_common_header, write_file_entry,
}
use br_archive.Io.Chunks.Copy.{Transfer, copy_file}
use br_archive.Io.Chunks.Files.{Compression, compress_file}
use br_archive.FileNames.{compute_header_crc32}
use br_archive.Crc32c.{crc32c_table}

-- The archive and the entry.
pub record Flush : Type 0 where
  pub f : File
  pub me : MetaEntry

abbrev pub on_archive : {A : Type 0} → Action File A → Action Flush A
on_archive = zoom (λ s. s.f) (λ f s. record s { f = f })

abbrev pub on_entry : {A : Type 0} → Action MetaEntry A → Action Flush A
on_entry = zoom (λ s. s.me) (λ me s. record s { me = me })

abbrev pub close_archive : Flush → Flush
close_archive s = record s { f = close s.f }

-- The error labels: the archive is closed.
abbrev pub or_close_archive : {A : Type 0} → Action Flush A → Action Flush A
or_close_archive = on_failure close_archive

-- The size in the entry's data, which must be there.
abbrev pub data_size_of : MetaEntry → Action Flush ℕ
data_size_of me s = elim me.entry_data [ file n ↦ ok n s | subdir p ↦ invalid | null ↦ invalid ]

abbrev file_of : File → Option File → File
file_of f none = f
file_of f (some f') = f'

abbrev entry_of : MetaEntry → Option MetaEntry → MetaEntry
entry_of me none = me
entry_of me (some me') = me'

-- The archive as the destination of the copy, and of the compression.
abbrev from_file : {A : Type 0} → List ℕ → Action Transfer A → Action Flush A
from_file bytes =
    zoom (λ s. record { dst = some s.f; src = open_at [] bytes; me = some s.me })
      (λ t s. record { f = file_of s.f t.dst; me = entry_of s.me t.me })

abbrev pub from_compression : {A : Type 0} → List ℕ → Action Compression A → Action Flush A
from_compression bytes =
    zoom (λ s. record { dst = s.f; src = open_at [] bytes; tmp = open_at [] []; me = s.me })
      (λ c s. record { f = c.dst; me = c.me })

module _ (writes : ℕ → Bool) (initialized : Bool) where
  unfoldable pub store_content : List ℕ → Action Flush (Unit {0})
  store_content bytes = do
    s ← get_state
    data_size ← data_size_of s.me
    modify (λ s. record s {
      me = record s.me { crc32 = crc32c_table (bytes_of 8 data_size) s.me.crc32 };
    })
    s' ← get_state
    or_close_archive (on_archive (write_file_entry writes s'.me))
    from_file bytes (copy_file writes true initialized data_size)

-- malloc, fwrite and tmpfile, and whether the global buffers were allocated.
module _ (sort : (ℕ → ℕ → Ordering) → List ℕ → List ℕ) (malloc writes : ℕ → Bool)
    (initialized tmp_opens : Bool) where
  -- Where compression does not pay, the attributes are changed, and all is written `again`.
  unfoldable pub compress_content : Action Flush (Unit {0}) → ℕ → List ℕ → Action Flush (Unit {0})
  compress_content again me_pos bytes s =
      let retry : Action Flush (Unit {0}) = λ s'.
        if s'.me.attributes == s.me.attributes
        then or_close_archive refuse s'
        else ((or_close_archive (on_archive (file_seek (Offset.ahead me_pos) Origin.seek_set))
              >> again)
            s') in
      let compressed = data_size_of s.me >>= λ data_size.
      from_compression bytes (compress_file sort malloc writes initialized tmp_opens data_size) in
      recovering (compressed s) retry

  unfoldable pub write_content : Action Flush (Unit {0}) → ℕ → List ℕ → Action Flush (Unit {0})
  unfolding store_content compress_content
  write_content again me_pos bytes s =
      let other =
        if attr_comp s.me.attributes == comp_compressed
        then compress_content again me_pos bytes s
        else (or_close_archive refuse s) in
      if attr_comp s.me.attributes == comp_stored
      then store_content writes initialized bytes s
      else other

  -- `found` has the bytes of the file, if it opens, and `again` is the function's call of itself.
  unfoldable pub flush_round :
      Action Flush (Unit {0}) → Option (List ℕ) → List ℕ → Action Flush (Unit {0})
  unfolding write_content
  flush_round again found filename =
      let opened : ℕ → Action Flush (Unit {0}) = λ me_pos. elim found [
        | none ↦ or_close_archive refuse
        | some bytes ↦ write_content again me_pos bytes
      ] in
      let body = (do
        or_close_archive (on_entry (compute_header_crc32 (length filename) filename))
        me_pos ← on_archive file_tell
        or_close_archive (check (ltb 0 me_pos))
        s ← get_state
        on_archive (write_common_header writes s.me)
        opened me_pos) in
      on_archive assert_file >> get_state >>= λ s.
      if attr_type s.me.attributes == attr_file then body else (or_close_archive refuse)

  -- With `fuel` rounds at most; the function calls itself only after changing the attributes.
  unfoldable pub flush_entry_file : ℕ → Option (List ℕ) → List ℕ → Action Flush (Unit {0})
  unfolding flush_round
  flush_entry_file zero found filename = λ s. endless
  flush_entry_file (suc fuel) found filename =
      let again = flush_entry_file fuel found filename in flush_round again found filename
