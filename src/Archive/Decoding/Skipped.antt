-- ===== src/Archive/Decoding/Skipped.antt =====
-- What src/io/lib_bra_io_file_ctx.c does with a file that is not to be overwritten.
use br_archive.Prelude.{
  ℕ, ◌+◌, ◌%◌, ◌≡◌, ◌<◌, ◌^◌, ap, sym, ◌∙◌, Bool, true, false, List, ◌∷◌, ◌++◌, length, done, arith,
  ltb, length-append,
}
use br_archive.Prelude.Actions.{ok}
use br_archive.Io.{open_at, file_seek, as_int64, skip_data}
use br_archive.Io.Words.{bytes_of}
use br_archive.Io.Entries.{MetaEntry}
use br_archive.Io.Entries.FlushLaws.{file_entry, header_crc, stored_crc}
use br_archive.TreeDir.{Tree, reconstruct_path}
use br_archive.FileNames.{validate_filename}
use br_archive.FileNames.Safety.{compute_header_crc32_lem}
use br_archive.Fs.{FileSystem}
use br_archive.Fs.Overwrite.{ask_overwrite}
use br_archive.Archive.{Ctx}
use br_archive.Archive.Extracting.{
  Session, extract_file, extract_entry, extract, decode_and_write_to_disk,
}
use br_archive.Archive.Encoding.{IsFileName, in_dir, archived, length-in_dir}
use br_archive.Archive.Decoding.{
  at_place, at_session, answered, read_meta_entry_lem, reconstruct_lem,
}
use mathlib.Core.List.{append_assoc}

-- Skipping as many bytes as these.
skip_data_lem :
    (before body after : List ℕ) (n : ℕ)
    → length body ≡ n
    → length before + n < 2 ^ 63
    → skip_data n (open_at before (body ++ after)) ≡ ok tt (open_at (before ++ body) after)
unfolding skip_data file_seek as_int64
skip_data_lem before body after n size small =
    let ahead : ltb n (2 ^ 63) ≡ true = ground arith in
    let there : ltb (length before + n) (2 ^ 63) ≡ true = ground arith in
    let place : length before + n ≡ length (before ++ body) =
      omega (arith, length-append before body) in
    rw (ahead, there)
      (λ i.
        ok tt (record {
          is_open = true;
          bytes = sym (append_assoc before body after) i;
          pos = place i;
        }))

-- The session behind the entry of a file that is skipped, with this checksum so far.
abbrev pub kept :
    (F : FileSystem)
    → Session F
    → Ctx
    → Tree
    → ℕ
    → List ℕ
    → List ℕ
    → List ℕ
    → List ℕ
    → List ℕ
    → ℕ
    → Session F
kept F s c tree node dir name content before rest crc =
    answered F
      (at_session F s (at_place c tree node before rest) (file_entry 0 name (length content) crc))
      (ask_overwrite F s.disk (in_dir dir name) s.policy false s.input)

module _ (F : FileSystem) (malloc writes : ℕ → Bool) (trans : List ℕ)
    (m : (n : ℕ) → malloc n ≡ true) (c : Ctx) (tree : Tree) (node : ℕ) (dir name content : List ℕ)
    (v : IsFileName dir name) (path : reconstruct_path malloc tree.nodes node ≡ done dir)
    (valid : validate_filename (in_dir dir name) (length (in_dir dir name)) ≡ true) (s : Session F)
    (refused : (ask_overwrite F s.disk (in_dir dir name) s.policy false s.input).overwrite
      ≡ false) where
  abbrev fn : List ℕ
  fn = in_dir dir name

  skip_file_lem :
      (before body rest : List ℕ) (crc : ℕ)
      → length body ≡ length content + 4
      → length before + (length content + 4) < 2 ^ 63
      → extract_file F malloc writes true trans fn (
          at_session F s
            (at_place c tree node before (body ++ rest))
            (file_entry 0 name (length content) crc))
        ≡ ok true (kept F s c tree node dir name content (before ++ body) rest crc)
  unfolding extract_file
  skip_file_lem before body rest crc size small =
      let whole : (length content + 4) % 2 ^ 64 ≡ length content + 4 = omega arith in
      rw (
        refused,
        whole,
        skip_data_lem before body rest (length content + 4) size small,
        extract_file,
      )

  skip_lem :
      (me : MetaEntry) (before body rest : List ℕ)
      → length body ≡ length content + 4
      → length ((before ++ (0 ∷ (length name ∷ name))) ++ bytes_of 8 (length content))
          + (length content + 4)
        < 2 ^ 63
      → extract F malloc writes true trans (
          at_session F s
            (at_place c tree node before
              ((0 ∷ (length name ∷ name)) ++ (bytes_of 8 (length content) ++ (body ++ rest))))
            me)
        ≡ ok tt (
            kept F s c tree node dir name content
              (((before ++ (0 ∷ (length name ∷ name))) ++ bytes_of 8 (length content)) ++ body)
              rest
              (header_crc 0 fn))
  unfolding extract extract_entry
  skip_lem me before body rest size small =
      let n = length content in
      let at_content : List ℕ = (before ++ (0 ∷ (length name ∷ name))) ++ bytes_of 8 n in
      let entry =
        read_meta_entry_lem malloc m c tree node dir name v before (body ++ rest) n (omega arith) in
      let named =
        reconstruct_lem malloc m c tree node dir name v at_content (body ++ rest) n path in
      let header =
        compute_header_crc32_lem fn (file_entry 0 name n 0) v.bytes (omega arith)
          (length-in_dir dir name v.not_empty) v.sized in
      let skipped = skip_file_lem at_content body rest (header_crc 0 fn) size small in
      rw (entry, named.1, valid, header, skipped)

  -- With a malloc that does not fail, a node whose path is the directory and a name that is valid:
  -- where the answer is not to overwrite a stored file, extracting its entry succeeds, leaves the
  -- disk as it was, keeps the answer's policy and the rest of the input, and leaves the archive
  -- behind the entry, if that is below 2^63 bytes.
  pub decode_and_write_to_disk-skips :
      (me : MetaEntry) (before rest : List ℕ)
      → length (before ++ archived name fn content) < 2 ^ 63
      → decode_and_write_to_disk F malloc writes true trans
          (at_session F s (at_place c tree node before (archived name fn content ++ rest)) me)
        ≡ ok tt (
            kept F s c tree node dir name content
              (before ++ archived name fn content)
              rest
              (header_crc 0 fn))
  unfolding decode_and_write_to_disk
  decode_and_write_to_disk-skips me before rest small =
      let body = content ++ bytes_of 4 (stored_crc 0 fn content) in
      let front : List ℕ = (before ++ (0 ∷ (length name ∷ name))) ++ bytes_of 8 (length content) in
      let size : length body ≡ length content + 4 =
        length-append content (bytes_of 4 (stored_crc 0 fn content)) in
      let bytes : front ++ body ≡ before ++ archived name fn content =
        simp (append_assoc {A = ℕ}) in
      let entry : (0 ∷ (length name ∷ name)) ++ (bytes_of 8 (length content) ++ (body ++ rest))
          ≡ archived name fn content ++ rest =
        simp (append_assoc {A = ℕ}) in
      let sum : length front + (length content + 4) ≡ length (before ++ archived name fn content) =
        omega (arith, length-append front body, size) ∙ ap (λ (l : List ℕ). length l) bytes in
      rw (← entry, skip_lem me before body rest size (omega (arith, sum)))
        (λ i. ok tt (kept F s c tree node dir name content (bytes i) rest (header_crc 0 fn)))
