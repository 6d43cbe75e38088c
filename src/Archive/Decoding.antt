-- ===== src/Archive/Decoding.antt =====
-- What src/io/lib_bra_io_file_ctx.c reads back of a file that is stored.
pub mod Stored
pub mod Many
pub mod Skipped
use br_archive.Prelude.{
  ℕ, zero, suc, ◌+◌, ◌-◌, ◌≡◌, ◌≢◌, ◌<◌, ◌≤◌, ◌^◌, ◌%◌, refl, ap, sym, subst, ◌∙◌, Bool, true,
  false, some, none, List, [], ◌∷◌, ◌++◌, length, take, ltb, leb, ◌==◌, if◌then◌else◌, done, arith,
  IsBytes, All, length-append, Bool-cases, inl, inr, take-append, lt→ltb,
}
use br_archive.Prelude.Actions.{Action, ok, refused, pure, ◌>>=◌, ◌>>◌}
use br_archive.Io.{File, open_at, file_read}
use br_archive.Io.FileLaws.{file_read_lem}
use br_archive.Io.Words.{bytes_of, little_endian, little_endian-bytes_of, c_string_lem}
use br_archive.Io.Entries.{
  MetaEntry, file, attr_type, attr_comp, read_common_header, read_file_entry,
}
use br_archive.Io.Entries.Format.{
  IsEntry, common_header, read_common_header-Gets, read_file_entry-Gets,
}
use br_archive.Io.Entries.FlushLaws.{file_entry, header_crc, stored_bytes, stored_crc}
use br_archive.Io.Chunks.Copy.{Transfer, copy_file}
use br_archive.Io.Chunks.CopyLaws.{transfer, copy_file_lem, crc32c_table-lt}
use br_archive.FileNames.{validate_filename, compute_header_crc32}
use br_archive.FileNames.Safety.{compute_header_crc32_lem}
use br_archive.TreeDir.{Tree, reconstruct_path}
use br_archive.Io.Entries.{name_bytes}
use br_archive.Archive.{Ctx, read_meta_entry, read_entry_data, reconstruct_meta_entry_name, name_in}
use br_archive.Archive.Extracting.{
  Extraction, Session, read_crc32, write_file, extract_file, extract_entry, close_session,
  on_archive, extract, decode_and_write_to_disk,
}
use br_archive.Archive.Encoding.{IsFileName, in_dir, archived, length-in_dir}
use br_archive.Crc32c.{crc32c_table}
use br_archive.Fs.{FileSystem}
use br_archive.Fs.Overwrite.{Answer, ask_overwrite}
use mathlib.Core.List.{append_assoc, append-nil}

-- An archive at a place, in the node of a tree.
abbrev pub at_place : Ctx → Tree → ℕ → List ℕ → List ℕ → Ctx
at_place c tree node before after = record c {
  f = open_at before after;
  tree = some tree;
  last_dir_node = some node;
}

name_bytes_lem : (name : List ℕ) (n : ℕ) → name_bytes (file_entry 0 name n 0) ≡ some name
name_bytes_lem name n =
    let inside : ltb (length name + 1) (length name) ≡ false = ground arith in
    rw (inside, take-append name (0 ∷ []))

-- The string that is built is the name in the directory.
name_in-in_dir :
    (malloc : ℕ → Bool) (dir name : List ℕ) (n : ℕ)
    → ((k : ℕ) → malloc k ≡ true)
    → All (λ c. 0 < c) (in_dir dir name)
    → (len : ℕ) × (name_in malloc dir (file_entry 0 name n 0) ≡ done (in_dir dir name, len))
name_in-in_dir malloc [] name n m chars = (length name, rw (m (length name + 1)))
name_in-in_dir malloc (x ∷ dir) name n m chars = (
  length (x ∷ dir) + length name + 1,
  rw (
    m (length (x ∷ dir) + 1 + length name + 1),
    name_bytes_lem name n,
    lt→ltb 0 (length (x ∷ dir)) (omega arith),
    c_string_lem ((x ∷ dir) ++ (b'/' ∷ name)) chars,
  ),
)

module _ (malloc : ℕ → Bool) (m : (n : ℕ) → malloc n ≡ true) (c : Ctx) (tree : Tree) (node : ℕ)
    (dir name : List ℕ) (v : IsFileName dir name) where
  pub read_meta_entry_lem :
      (before rest : List ℕ) (n : ℕ)
      → n < 2 ^ 64
      → read_meta_entry malloc
          (at_place c tree node before ((0 ∷ (length name ∷ name)) ++ (bytes_of 8 n ++ rest)))
        ≡ ok
            (file_entry 0 name n 0)
            (at_place c tree node ((before ++ (0 ∷ (length name ∷ name))) ++ bytes_of 8 n) rest)
  unfolding read_meta_entry read_entry_data
  read_meta_entry_lem before rest n h =
      let entry : IsEntry (file_entry 0 name n 0) name = record {
        named = refl;
        sized = refl;
        not_empty = v.not_empty;
        short = v.short;
        chars = v.chars;
        attribute = omega arith;
        fresh = refl;
      } in
      let header =
        read_common_header-Gets malloc m (file_entry 0 name n 0) name entry before
          (bytes_of 8 n ++ rest) in
      let size =
        read_file_entry-Gets (file_entry 0 name 0 0) n refl refl h
          (before ++ (0 ∷ (length name ∷ name))) rest in
      rw (header, size)

  pub reconstruct_lem :
      (before after : List ℕ) (n : ℕ)
      → reconstruct_path malloc tree.nodes node ≡ done dir
      → (len : ℕ) × (reconstruct_meta_entry_name malloc
            (file_entry 0 name n 0)
            (at_place c tree node before after)
          ≡ ok (in_dir dir name, len) (at_place c tree node before after))
  unfolding reconstruct_meta_entry_name
  reconstruct_lem before after n path =
      let (len, e) = name_in-in_dir malloc dir name n m v.path_chars in (len, rw (path, e))

-- A session at a place of the archive.
abbrev pub at_session : (F : FileSystem) → Session F → Ctx → MetaEntry → Session F
at_session F s c me = record s { archive = record { ctx = c; me = me } }

-- The policy and the input of an answer.
abbrev pub answered : (F : FileSystem) → Session F → Answer → Session F
answered F s answer = record s { policy = answer.policy; input = answer.input }

module _ (F : FileSystem) (malloc writes : ℕ → Bool) (trans : List ℕ)
    (m : (n : ℕ) → malloc n ≡ true) (w : (n : ℕ) → writes n ≡ true) (disk' : F.State) (c : Ctx)
    (tree : Tree) (node : ℕ) (name fn content : List ℕ) (cb : IsBytes content) where
  abbrev in_archive : Session F → List ℕ → List ℕ → ℕ → Session F
  in_archive s before after crc =
      at_session F s (at_place c tree node before after) (file_entry 0 name (length content) crc)

  write_file_lem :
      (s : Session F) (before rest : List ℕ) (crc : ℕ)
      → crc < 2 ^ 32
      → F.create_file s.disk fn ≡ some disk'
      → write_file F malloc writes true trans fn
          (length content)
          (in_archive s before (content ++ rest) crc)
        ≡ ok tt (record (in_archive s (before ++ content) rest (crc32c_table content crc)) {
          disk = F.store_file disk' fn content;
        })
  unfolding write_file
  write_file_lem s before rest crc small created =
      let copied =
        copy_file_lem writes w (file_entry 0 name (length content) crc) content [] before rest crc
          cb small in
      rw (created, m (length fn + 1), copied, write_file)
        (λ i. ok tt (record (in_archive s (before ++ content) rest (crc32c_table content crc)) {
          disk = F.store_file disk' fn (append-nil content i);
        }))

  pub extract_file_lem :
      (s : Session F) (before rest : List ℕ) (crc : ℕ)
      → (ask_overwrite F s.disk fn s.policy false s.input).overwrite ≡ true
      → F.create_file s.disk fn ≡ some disk'
      → extract_file F malloc writes true trans fn (in_archive s before (content ++ rest) crc)
        ≡ ok false
            (record (answered F
              (in_archive s
                (before ++ content)
                rest
                (crc32c_table content (crc32c_table (bytes_of 8 (length content)) crc)))
              (ask_overwrite F s.disk fn s.policy false s.input)) {
                disk = F.store_file disk' fn content;
              })
  unfolding extract_file
  extract_file_lem s before rest crc allowed created =
      let n = length content in
      let crc1 = crc32c_table (bytes_of 8 n) crc in
      let done =
        write_file_lem (answered F s (ask_overwrite F s.disk fn s.policy false s.input)) before rest
          crc1 (crc32c_table-lt (bytes_of 8 n) crc) created in
      rw (allowed, extract_file, done)
