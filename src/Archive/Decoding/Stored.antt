-- ===== src/Archive/Decoding/Stored.antt =====
-- What src/io/lib_bra_io_file_ctx.c extracts of a file that is stored, and of one with a wrong
-- checksum.
use br_archive.Prelude.{
  ℕ, ◌≡◌, ◌≢◌, ◌<◌, ◌^◌, refl, Bool, true, false, some, List, ◌∷◌, ◌++◌, length, ◌==◌, done, arith,
  IsBytes,
}
use br_archive.Prelude.Actions.{ok, refused, pure, ◌>>◌}
use br_archive.Io.FileLaws.{file_read_lem}
use br_archive.Io.Words.{bytes_of, little_endian, little_endian-bytes_of}
use br_archive.Io.Entries.{MetaEntry}
use br_archive.Io.Entries.FlushLaws.{file_entry, header_crc, stored_bytes, stored_crc}
use br_archive.Io.Chunks.CopyLaws.{crc32c_table-lt}
use br_archive.FileNames.{validate_filename}
use br_archive.FileNames.Safety.{compute_header_crc32_lem}
use br_archive.TreeDir.{Tree, reconstruct_path}
use br_archive.Archive.{Ctx}
use br_archive.Archive.Extracting.{
  Session, read_crc32, extract_entry, close_session, on_archive, extract, decode_and_write_to_disk,
}
use br_archive.Archive.Encoding.{IsFileName, in_dir, archived, length-in_dir}
use br_archive.Crc32c.{crc32c_table}
use br_archive.Fs.{FileSystem}
use br_archive.Fs.Overwrite.{ask_overwrite}
use mathlib.Core.List.{append_assoc}
use br_archive.Archive.Decoding.{
  at_place, at_session, answered, extract_file_lem, read_meta_entry_lem, reconstruct_lem,
}

-- The session behind a file's entry: the content is stored under the full name.
abbrev pub extracted :
    (F : FileSystem)
    → Session F
    → F.State
    → Ctx
    → Tree
    → ℕ
    → List ℕ
    → List ℕ
    → List ℕ
    → List ℕ
    → List ℕ
    → Session F
extracted F s disk' c tree node dir name content before rest =
    record (answered F
      (at_session F s (at_place c tree node before rest)
        (file_entry 0 name (length content) (stored_crc 0 (in_dir dir name) content)))
      (ask_overwrite F s.disk (in_dir dir name) s.policy false s.input)) {
        disk = F.store_file disk' (in_dir dir name) content;
      }

module _ (F : FileSystem) (malloc writes : ℕ → Bool) (trans : List ℕ)
    (m : (n : ℕ) → malloc n ≡ true) (w : (n : ℕ) → writes n ≡ true) (disk' : F.State) (c : Ctx)
    (tree : Tree) (node : ℕ) (dir name content : List ℕ) (v : IsFileName dir name)
    (cb : IsBytes content) (fits : length content < 2 ^ 64)
    (path : reconstruct_path malloc tree.nodes node ≡ done dir)
    (valid : validate_filename (in_dir dir name) (length (in_dir dir name)) ≡ true) (s : Session F)
    (allowed : (ask_overwrite F s.disk (in_dir dir name) s.policy false s.input).overwrite ≡ true)
    (created : F.create_file s.disk (in_dir dir name) ≡ some disk') where
  abbrev fn : List ℕ
  fn = in_dir dir name

  -- Up to the checksum.
  extract_prefix :
      (me : MetaEntry) (before rest : List ℕ)
      → extract F malloc writes true trans (
          at_session F s
            (at_place c tree node before
              ((0 ∷ (length name ∷ name)) ++ (bytes_of 8 (length content) ++ (content ++ rest))))
            me)
        ≡ (on_archive F malloc writes true trans (read_crc32 true) >> pure tt) (
            extracted F s disk' c tree node dir name content
              (((before ++ (0 ∷ (length name ∷ name))) ++ bytes_of 8 (length content)) ++ content)
              rest)
  unfolding extract extract_entry
  extract_prefix me before rest =
      let n = length content in
      let size = length-in_dir dir name v.not_empty in
      let at_content : List ℕ = (before ++ (0 ∷ (length name ∷ name))) ++ bytes_of 8 n in
      let entry =
        read_meta_entry_lem malloc m c tree node dir name v before (content ++ rest) n fits in
      let named =
        reconstruct_lem malloc m c tree node dir name v at_content (content ++ rest) n path in
      let header =
        compute_header_crc32_lem fn (file_entry 0 name n 0) v.bytes (omega arith) size v.sized in
      let stored =
        extract_file_lem F malloc writes trans m w disk' c tree node name fn content cb s at_content
          rest (header_crc 0 fn) allowed created in
      rw (entry, named.1, valid, header, stored)

  extract_lem :
      (me : MetaEntry) (before word rest : List ℕ)
      → length word ≡ 4
      → (little_endian word == stored_crc 0 fn content) ≡ true
      → extract F malloc writes true trans (
          at_session F s
            (at_place c tree node before (
              (0 ∷ (length name ∷ name))
              ++ (bytes_of 8 (length content) ++ (content ++ (word ++ rest)))))
            me)
        ≡ ok tt (
            extracted F s disk' c tree node dir name content
              ((((before ++ (0 ∷ (length name ∷ name))) ++ bytes_of 8 (length content)) ++ content)
                ++ word)
              rest)
  unfolding read_crc32
  extract_lem me before word rest size same =
      let at_word : List ℕ =
        ((before ++ (0 ∷ (length name ∷ name))) ++ bytes_of 8 (length content)) ++ content in
      rw (
        extract_prefix me before (word ++ rest),
        file_read_lem at_word word rest 4 size (omega arith),
        same,
      )

  extract_other :
      (me : MetaEntry) (before word rest : List ℕ)
      → length word ≡ 4
      → (little_endian word == stored_crc 0 fn content) ≡ false
      → extract F malloc writes true trans (
          at_session F s
            (at_place c tree node before (
              (0 ∷ (length name ∷ name))
              ++ (bytes_of 8 (length content) ++ (content ++ (word ++ rest)))))
            me)
        ≡ refused (
            extracted F s disk' c tree node dir name content
              ((((before ++ (0 ∷ (length name ∷ name))) ++ bytes_of 8 (length content)) ++ content)
                ++ word)
              rest)
  unfolding read_crc32
  extract_other me before word rest size other =
      let at_word : List ℕ =
        ((before ++ (0 ∷ (length name ∷ name))) ++ bytes_of 8 (length content)) ++ content in
      rw (
        extract_prefix me before (word ++ rest),
        file_read_lem at_word word rest 4 size (omega arith),
        other,
      )

  -- The bytes of the entry, with these in place of the checksum.
  bytes_lem :
      (word rest : List ℕ)
      → (0 ∷ (length name ∷ name)) ++ (bytes_of 8 (length content) ++ (content ++ (word ++ rest)))
        ≡ (stored_bytes 0 name content ++ word) ++ rest
  bytes_lem word rest = simp (append_assoc {A = ℕ})

  behind_lem :
      (before word : List ℕ)
      → ((((before ++ (0 ∷ (length name ∷ name))) ++ bytes_of 8 (length content)) ++ content)
          ++ word)
        ≡ before ++ (stored_bytes 0 name content ++ word)
  behind_lem before word = simp (append_assoc {A = ℕ})

  -- Extracting the entry of a stored file, with the checksum that it should have, stores the
  -- content under the full name and leaves the archive behind the entry.
  pub decode_stored :
      (me : MetaEntry) (before rest : List ℕ)
      → decode_and_write_to_disk F malloc writes true trans
          (at_session F s (at_place c tree node before (archived name fn content ++ rest)) me)
        ≡ ok tt (
            extracted F s disk' c tree node dir name content
              (before ++ archived name fn content)
              rest)
  unfolding decode_and_write_to_disk
  decode_stored me before rest =
      let crc = stored_crc 0 fn content in
      let small : crc < 256 ^ 4 =
        crc32c_table-lt content (crc32c_table (bytes_of 8 (length content)) (header_crc 0 fn)) in
      let word = little_endian-bytes_of 4 crc small in
      let same : (little_endian (bytes_of 4 crc) == crc) ≡ true = rw word (ground arith) in
      rw (← bytes_lem (bytes_of 4 crc) rest, extract_lem me before (bytes_of 4 crc) rest refl same)
        (λ i. ok tt (
          extracted F s disk' c tree node dir name content (behind_lem before (bytes_of 4 crc) i)
            rest))

  -- With a malloc and an fwrite that do not fail, the global buffers, a node whose path is the
  -- directory, a name that is valid, an answer to overwrite and a file that can be created: where
  -- the four bytes behind a stored file's content are not its checksum, the extraction is refused
  -- and the archive closed. The content has been stored under the full name by then.
  pub decode_corrupted :
      (me : MetaEntry) (before word rest : List ℕ)
      → length word ≡ 4
      → little_endian word ≢ stored_crc 0 fn content
      → decode_and_write_to_disk F malloc writes true trans (
          at_session F s
            (at_place c tree node before ((stored_bytes 0 name content ++ word) ++ rest))
            me)
        ≡ refused (
            close_session F malloc writes true trans (
              extracted F s disk' c tree node dir name content
                (before ++ (stored_bytes 0 name content ++ word))
                rest))
  unfolding decode_and_write_to_disk
  decode_corrupted me before word rest size differs =
      let other : (little_endian word == stored_crc 0 fn content) ≡ false =
        ground (arith, differs) in
      rw (← bytes_lem word rest, extract_other me before word rest size other)
        (λ i. refused (
          close_session F malloc writes true trans
            (extracted F s disk' c tree node dir name content (behind_lem before word i) rest)))
