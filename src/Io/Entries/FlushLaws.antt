-- ===== src/Io/Entries/FlushLaws.antt =====
-- What writing a stored file does, in src/io/lib_bra_io_file_meta_entries.c.
use Prim.Native.Nat.{Ordering}
use br_archive.Prelude.{
  ℕ, suc, ◌≡◌, ◌<◌, ◌≤◌, ◌^◌, refl, sym, subst, ◌∙◌, Bool, true, some, List, [], ◌∷◌, ◌++◌, length,
  lt→ltb, IsBytes,
}
use br_archive.Prelude.Actions.{Action, ok}
use br_archive.Io.{File, open_at, file_tell}
use br_archive.Io.Words.{bytes_of}
use br_archive.Io.Entries.{MetaEntry, file, attr_type, attr_comp, write_common_header, write_name}
use br_archive.Io.Entries.Format.{IsEntry, write_common_header-Puts, write_file_entry-Puts}
use br_archive.Io.Entries.Flush.{store_content, write_content, flush_entry_file}
use br_archive.Io.Chunks.Copy.{copy_file}
use br_archive.Io.Chunks.CopyLaws.{transfer, copy_file_lem, crc32c_table-lt}
use br_archive.FileNames.Safety.{compute_header_crc32_lem}
use br_archive.Crc32c.{crc32c_table}
use mathlib.Core.List.{append_assoc, append-nil}

-- The entry of a file.
abbrev pub file_entry : ℕ → List ℕ → ℕ → ℕ → MetaEntry
file_entry attributes name data_size crc = record {
  attributes = attributes;
  name_size = length name;
  name = some name;
  entry_data = file data_size;
  crc32 = crc;
}

-- The checksum of a header, up to the name, and of a stored file.
abbrev pub header_crc : ℕ → List ℕ → ℕ
header_crc attributes filename =
    crc32c_table (attributes ∷ (bytes_of 2 (length filename) ++ filename)) 0

abbrev pub stored_crc : ℕ → List ℕ → List ℕ → ℕ
stored_crc attributes filename content =
    crc32c_table content
      (crc32c_table (bytes_of 8 (length content)) (header_crc attributes filename))

-- The bytes of a stored file's entry, without the checksum.
abbrev pub stored_bytes : ℕ → List ℕ → List ℕ → List ℕ
stored_bytes attributes name content =
    (attributes ∷ (length name ∷ name)) ++ (bytes_of 8 (length content) ++ content)

module _ (writes : ℕ → Bool) (w : (n : ℕ) → writes n ≡ true) where
  write_common_header-crc :
      (a : ℕ) (name : List ℕ) (size crc : ℕ)
      → write_common_header writes (file_entry a name size crc)
        ≡ write_common_header writes (file_entry a name size 0)
  unfolding write_common_header write_name
  write_common_header-crc a name size crc = refl

  store_content_lem :
      (a : ℕ) (name content before : List ℕ) (crc : ℕ)
      → attr_type a ≡ 0
      → IsBytes content
      → crc < 2 ^ 32
      → store_content writes true content
          (record { f = open_at before []; me = file_entry a name (length content) crc })
        ≡ ok tt (record {
          f = open_at ((before ++ bytes_of 8 (length content)) ++ content) [];
          me =
              file_entry a name
                (length content)
                (crc32c_table content (crc32c_table (bytes_of 8 (length content)) crc));
        })
  unfolding store_content
  store_content_lem a name content before crc t b small =
      let n = length content in
      let crc1 = crc32c_table (bytes_of 8 n) crc in
      let size = write_file_entry-Puts writes w (file_entry a name n crc1) n refl t before in
      let copied =
        copy_file_lem writes w (file_entry a name n crc1) content (before ++ bytes_of 8 n) [] []
          crc1 b (crc32c_table-lt (bytes_of 8 n) crc) in
      let whole =
        subst
          (λ (l : List ℕ).
            copy_file writes true true n
              (transfer (before ++ bytes_of 8 n) [] l (file_entry a name n crc1) crc1)
            ≡ ok tt (
                transfer ((before ++ bytes_of 8 n) ++ content) content [] (file_entry a name n crc1)
                  (crc32c_table content crc1)))
          (append-nil content) copied in
      rw (size, whole)

module _ (sort : (ℕ → ℕ → Ordering) → List ℕ → List ℕ) (malloc writes : ℕ → Bool) (tmp_opens : Bool)
    (w : (n : ℕ) → writes n ≡ true) where
  -- A file to be stored at the end of the archive, which has its header already.
  pub flush_stored :
      (fuel a : ℕ) (name filename content before : List ℕ)
      → IsEntry (file_entry a name (length content) 0) name
      → attr_type a ≡ 0
      → attr_comp a ≡ 0
      → IsBytes filename
      → 0 < length filename
      → length filename ≤ 65_535
      → IsBytes content
      → 0 < length before
      → flush_entry_file sort malloc writes true tmp_opens
          (suc fuel)
          (some content)
          filename
          (record { f = open_at before []; me = file_entry a name (length content) 0 })
        ≡ ok tt (record {
          f = open_at (before ++ stored_bytes a name content) [];
          me = file_entry a name (length content) (stored_crc a filename content);
        })
  unfolding flush_entry_file write_content file_tell
  flush_stored fuel a name filename content before e t stored fb positive short cb start =
      let n = length content in
      let header =
        compute_header_crc32_lem filename (file_entry a name n 0) fb e.attribute positive short in
      let crc = header_crc a filename in
      let common : write_common_header writes (file_entry a name n crc) (open_at before [])
          ≡ ok tt (open_at (before ++ (a ∷ (length name ∷ name))) []) =
        subst
          (λ (act : Action File (Unit {0})).
            act (open_at before []) ≡ ok tt (open_at (before ++ (a ∷ (length name ∷ name))) []))
          (sym (write_common_header-crc writes w a name n crc))
          (write_common_header-Puts writes w (file_entry a name n 0) name e before) in
      let body =
        store_content_lem writes w a name content (before ++ (a ∷ (length name ∷ name))) crc t cb
          (crc32c_table-lt (a ∷ (bytes_of 2 (length filename) ++ filename)) 0) in
      let bytes : (((before ++ (a ∷ (length name ∷ name))) ++ bytes_of 8 n) ++ content)
          ≡ before ++ stored_bytes a name content =
        append_assoc (before ++ (a ∷ (length name ∷ name))) (bytes_of 8 n) content
        ∙ append_assoc before (a ∷ (length name ∷ name)) (bytes_of 8 n ++ content) in
      rw (t, header, lt→ltb 0 (length before) start, common, stored)
        (body ∙ λ i. ok tt (record {
          f = open_at (bytes i) [];
          me = file_entry a name n (stored_crc a filename content);
        }))
