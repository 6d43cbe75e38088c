-- ===== src/Archive/Extracting.antt =====
-- The part of src/io/lib_bra_io_file_ctx.c that extracts, lists and tests entries.
use br_archive.Prelude.{
  ℕ, zero, suc, ◌+◌, ◌%◌, ◌^◌, Bool, true, false, Option, none, some, List, [], length, ◌==◌,
  if◌then◌else◌,
}
use br_archive.Prelude.Actions.{
  Action, Step, ok, refused, invalid, pure, refuse, check, on_failure, zoom, get_state, modify,
  ◌>>=◌, ◌>>◌,
}
use br_archive.Io.{File, open_at, assert_file, file_read, skip_data}
use br_archive.Io.Words.{bytes_of, little_endian}
use br_archive.Io.Entries.{
  MetaEntry, EntryData, file, subdir, null, attr_type, attr_comp, attr_file, attr_dir, attr_subdir,
  comp_stored, comp_compressed,
}
use br_archive.Io.Chunks.Copy.{Transfer, copy_file}
use br_archive.Io.Chunks.Files.{decompress_file, read_file}
use br_archive.FileNames.{validate_filename, compute_header_crc32}
use br_archive.Crc32c.{crc32c_table}
use br_archive.Archive.{Ctx, on_f, close_f, read_meta_entry, reconstruct_meta_entry_name}
use br_archive.Fs.{FileSystem}
use br_archive.Fs.Files.{dir_exists, dir_make}
use br_archive.Fs.Overwrite.{Policy, ask_overwrite}

-- The entry that is extracted, and the archive; `trans` is g_buf_trans.
pub record Extraction : Type 0 where
  pub ctx : Ctx
  pub me : MetaEntry

abbrev pub from_ctx : {A : Type 0} → Action Ctx A → Action Extraction A
from_ctx = zoom (λ x. x.ctx) (λ c x. record x { ctx = c })

abbrev pub on_me : {A : Type 0} → Action MetaEntry A → Action Extraction A
on_me = zoom (λ x. x.me) (λ me x. record x { me = me })

abbrev pub add_crc : List ℕ → Action Extraction (Unit {0})
add_crc bytes =
    modify (λ x. record x { me = record x.me { crc32 = crc32c_table bytes x.me.crc32 } })

-- The checksum of the entry against the one in the archive, which is returned.
unfoldable pub read_crc32 : Bool → Action Extraction ℕ
read_crc32 compared = do
  x ← get_state
  word ← from_ctx (on_f (file_read 4))
  (if compared then check (little_endian word == x.me.crc32) else pure tt)
  pure (little_endian word)

-- The data size of a file's entry, and the parent of a directory's.
abbrev pub size_in : EntryData → Action Extraction ℕ
size_in (file n) = pure n
size_in (subdir p) = λ x. invalid
size_in null = λ x. invalid

abbrev pub add_parent_crc : Action Extraction (Unit {0})
add_parent_crc x = elim x.me.entry_data [
  | subdir p ↦ add_crc (bytes_of 4 p) x
  | file n ↦ invalid
  | null ↦ invalid
]

abbrev some_or : {A : Type 0} → A → Option A → A
some_or a none = a
some_or a (some b) = b

-- The archive as the source of a transfer, and what it leaves.
abbrev pub into : Option File → Extraction → Transfer
into dst x = record { dst = dst; src = x.ctx.f; me = some x.me }

abbrev pub back_from : Transfer → Extraction → Extraction
back_from t x = record { ctx = record x.ctx { f = t.src }; me = some_or x.me t.me }

module _ (malloc writes : ℕ → Bool) (initialized : Bool) (trans : List ℕ) where
  -- bra_io_file_ctx_print_meta_entry, which returns the checksum in the archive. Its output is left
  -- out.
  unfoldable pub check_name : Bool → List ℕ × ℕ → Action Extraction (Unit {0})
  check_name test_mode (fn, len) =
      let checked = check (validate_filename fn len) >> on_me (compute_header_crc32 len fn) in
      if test_mode then checked else pure tt

  unfoldable pub check_data : Bool → Action Extraction (Unit {0})
  check_data test_mode x =
      let as_file = (do
        data_size ← size_in x.me.entry_data
        (if test_mode then add_crc (bytes_of 8 data_size) else pure tt)
        zoom (into none) back_from
            (read_file malloc writes initialized trans data_size test_mode)) in
      let type = attr_type x.me.attributes in
      let as_subdir : Action Extraction (Unit {0}) =
        if test_mode then add_parent_crc else pure tt in
      (if type == attr_file
          then as_file
          else if type == attr_subdir
          then as_subdir
          else if type == attr_dir
          then pure tt
          else refuse)
        x

  unfoldable pub print_meta_entry : Bool → Action Ctx ℕ
  unfolding check_name check_data read_crc32
  print_meta_entry test_mode = do
    on_f assert_file
    me ← read_meta_entry malloc
    name ← reconstruct_meta_entry_name malloc me
    zoom (λ c. record { ctx = c; me = me }) (λ x c. x.ctx)
        (check_name test_mode name >> check_data test_mode >> read_crc32 test_mode)

-- The extraction with the file system, and with the answers of the user.
pub record Session (F : FileSystem) : Type 0 where
  pub archive : Extraction
  pub disk : F.State
  pub policy : Policy
  pub input : List ℕ

module _ (F : FileSystem) (malloc writes : ℕ → Bool) (initialized : Bool) (trans : List ℕ) where
  abbrev pub on_archive : {A : Type 0} → Action Extraction A → Action (Session F) A
  on_archive = zoom (λ s. s.archive) (λ x s. record s { archive = x })

  -- The file that is written is stored as far as it came, also on a failure.
  abbrev pub bytes_in : Option File → List ℕ
  bytes_in none = []
  bytes_in (some f) = f.bytes

  abbrev pub to_file : List ℕ → F.State → Action Transfer (Unit {0}) → Action (Session F) (Unit {0})
  to_file fn disk =
      zoom (λ s. into (some (open_at [] [])) s.archive)
        (λ t s. record s {
          archive = back_from t s.archive;
          disk = F.store_file disk fn (bytes_in t.dst);
        })

  unfoldable pub write_file : List ℕ → ℕ → Action (Session F) (Unit {0})
  write_file fn data_size s =
      let comp = attr_comp s.archive.me.attributes in
      let into_file : F.State → Action (Session F) (Unit {0}) = λ disk.
        if comp == comp_stored
        then to_file fn disk (copy_file writes true initialized data_size)
        else if comp == comp_compressed
        then to_file fn disk (decompress_file malloc writes initialized trans data_size true)
        else (λ s'. refused (record s' { disk = disk })) in
      let created : Step (Session F) (Unit {0}) = elim (F.create_file s.disk fn) [
        | none ↦ refused s
        | some disk ↦
            if malloc (length fn + 1) then into_file disk s else refused (record s { disk = disk })
      ] in
      created

  -- Whether the entry was skipped, with its checksum.
  unfoldable pub extract_file : List ℕ → Action (Session F) Bool
  unfolding write_file
  extract_file fn = do
    s ← get_state
    data_size ← on_archive (size_in s.archive.me.entry_data)
    let answer = ask_overwrite F s.disk fn s.policy false s.input
    modify (λ s'. record s' { policy = answer.policy; input = answer.input })
    let skipped : Action (Session F) Bool =
        on_archive (from_ctx (on_f (skip_data ((data_size + 4) % 2 ^ 64)))) >> pure true
    let written : Action (Session F) Bool =
        on_archive (add_crc (bytes_of 8 data_size)) >> write_file fn data_size >> pure false
    if answer.overwrite then written else skipped

  abbrev pub made : Session F → Bool × F.State → Step (Session F) Bool
  made s (true, disk) = ok false (record s { disk = disk })
  made s (false, disk) = refused (record s { disk = disk })

  unfoldable pub extract_dir : List ℕ → Action (Session F) Bool
  extract_dir fn s = if dir_exists F s.disk fn then ok false s else (made s (dir_make F s.disk fn))

  unfoldable pub extract_entry : List ℕ → Action (Session F) Bool
  unfolding extract_file extract_dir
  extract_entry fn s =
      let type = attr_type s.archive.me.attributes in
      let as_subdir = on_archive add_parent_crc >> extract_dir fn in
      (if type == attr_file
          then extract_file fn
          else if type == attr_subdir
          then as_subdir
          else if type == attr_dir
          then extract_dir fn
          else refuse)
        s

  abbrev pub on_session_ctx : {A : Type 0} → Action Ctx A → Action (Session F) A
  on_session_ctx act = on_archive (from_ctx act)

  abbrev pub close_session : Session F → Session F
  close_session s = record s { archive = record s.archive { ctx = close_f s.archive.ctx } }

  abbrev pub keep_me : MetaEntry → Action (Session F) (Unit {0})
  keep_me me = modify (λ s. record s { archive = record s.archive { me = me } })

  -- The name is the string up to its NUL. On a failure the archive is closed.
  unfoldable pub extract : Action (Session F) (Unit {0})
  unfolding extract_entry read_crc32
  extract = do
    me ← on_session_ctx (read_meta_entry malloc)
    keep_me me
    (fn, len) ← on_session_ctx (reconstruct_meta_entry_name malloc me)
    check (validate_filename fn (length fn))
    on_archive (on_me (compute_header_crc32 (length fn) fn))
    skip_entry ← extract_entry fn
    (if skip_entry then pure tt else (on_archive (read_crc32 true) >> pure tt))

  unfoldable pub decode_and_write_to_disk : Action (Session F) (Unit {0})
  unfolding extract
  decode_and_write_to_disk = on_session_ctx (on_f assert_file) >> on_failure close_session extract

  -- The loop of the programs over the entries of an archive.
  unfoldable pub decode_all : ℕ → Action (Session F) (Unit {0})
  decode_all zero = pure tt
  decode_all (suc num_files) = decode_and_write_to_disk >> decode_all num_files
