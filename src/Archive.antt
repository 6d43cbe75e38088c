-- ===== src/Archive.antt =====
-- src/io/lib_bra_io_file_ctx.c: an archive with its directory tree, its headers, and the reading of
-- entries. `total_size_uncompressed`, which is computed from a float, is left out.
pub mod Writing
pub mod Extracting
pub mod Encoding
pub mod Decoding
pub mod RoundTrip
pub mod Headers
pub mod SelfExtracting
mod Tests
use br_archive.Prelude.{
  ℕ, ◌+◌, ◌-◌, ◌^◌, Bool, true, false, Option, none, some, List, [], ◌∷◌, ◌++◌, length, take, drop,
  ltb, leb, ◌==◌, ◌&&◌, if◌then◌else◌, Outcome, done, failed, fault, stuck,
}
use br_archive.Prelude.Actions.{
  Action, Step, ok, refused, invalid, endless, pure, refuse, check, assert, lift, on_failure, zoom,
  get_state, modify, ◌>>=◌, ◌>>◌,
}
use br_archive.Io.{
  File, Offset, Origin, open_at, close, or_close, refuse_closed, assert_file, file_read, file_write,
  file_seek, file_tell,
}
use br_archive.Io.Words.{little_endian, bytes_of, c_string}
use br_archive.Io.Sfx.{footer_size, read_footer}
use br_archive.Io.Entries.{
  MetaEntry, EntryData, file, subdir, null, attr_type, attr_file, attr_dir, attr_subdir, name_bytes,
  read_common_header, read_file_entry, read_subdir_entry,
}
use br_archive.TreeDir.{Tree, create, destroy, insert_at_parent, reconstruct_path, root}

-- bra_io_file_ctx_t. A node of the tree is its address.
pub record Ctx : Type 0 where
  pub f : File
  pub num_files : ℕ
  pub last_dir : Option (List ℕ)
  pub last_dir_size : ℕ
  pub tree : Option Tree
  pub last_dir_node : Option ℕ

abbrev pub on_f : {A : Type 0} → Action File A → Action Ctx A
on_f = zoom (λ c. c.f) (λ f c. record c { f = f })

abbrev pub close_f : Ctx → Ctx
close_f c = record c { f = close c.f }

abbrev pub or_close_f : {A : Type 0} → Action Ctx A → Action Ctx A
or_close_f = on_failure close_f

-- After the memset, and after a failed opening.
abbrev pub no_ctx : Ctx
no_ctx = record {
  f = record { is_open = false; bytes = []; pos = 0 };
  num_files = 0;
  last_dir = none;
  last_dir_size = 0;
  tree = none;
  last_dir_node = none;
}

-- `found` has the bytes of the file that fopen opens in the mode, and `fn` is its name.
module _ (malloc : ℕ → Bool) where
  abbrev open_with : Tree → Option (List ℕ) → List ℕ → Step Ctx (Unit {0})
  open_with tree found fn =
      let opened : Step Ctx (Unit {0}) = elim found [
        | none ↦ refused no_ctx
        | some bytes ↦
            if malloc (length fn + 1)
            then ok tt (record no_ctx {
              f = open_at [] bytes;
              last_dir = some [];
              tree = some tree;
              last_dir_node = some root;
            })
            else refused no_ctx
      ] in
      if malloc 1 then opened else refused no_ctx

  unfoldable pub ctx_open : Option (List ℕ) → List ℕ → Action Ctx (Unit {0})
  ctx_open found fn c = elim (create malloc) [
    | done tree ↦ open_with tree found fn
    | failed ↦ refused no_ctx
    | fault ↦ invalid
    | stuck ↦ endless
  ]

  -- Behind the opening, the file is put at its footer.
  unfoldable pub sfx_open : Option (List ℕ) → List ℕ → Action Ctx (Unit {0})
  unfolding ctx_open
  sfx_open found fn = do
    ctx_open found fn
    or_close_f (on_f (file_seek (Offset.ahead 0) Origin.seek_end))
    end ← on_f file_tell
    or_close_f (check (leb footer_size end))
    or_close_f (on_f (file_seek (Offset.back footer_size) Origin.seek_end))

-- bra_io_file_ctx_close.
abbrev destroy_tree : Option Tree → Action Ctx (Unit {0})
destroy_tree none = pure tt
destroy_tree (some tree) = lift (destroy tree)

unfoldable pub ctx_close : Action Ctx (Unit {0})
ctx_close c =
    (destroy_tree c.tree >> modify (λ c. record (close_f c) { tree = none; last_dir = none })) c

-- BRA_MAGIC.
abbrev pub archive_magic : ℕ
archive_magic = 0x612d5242

-- sizeof(bra_io_header_t).
abbrev pub header_size : ℕ
header_size = 8

-- The number of files.
unfoldable pub ctx_read_header : Action Ctx ℕ
ctx_read_header = do
  on_f assert_file
  bh ← on_f (file_read header_size)
  or_close_f (check (little_endian (take 4 bh) == archive_magic))
  modify (λ c. record c { num_files = little_endian (drop 4 bh) })
  pure (little_endian (drop 4 bh))

unfoldable pub ctx_write_header : (ℕ → Bool) → ℕ → Action Ctx (Unit {0})
ctx_write_header writes num_files = do
  on_f assert_file
  on_f (file_write writes (bytes_of 4 archive_magic ++ bytes_of 4 num_files))
  modify (λ c. record c { num_files = num_files })

-- Behind the footer, whose start must leave room for a header and more behind the header's offset.
unfoldable pub sfx_read_footer_header : Action Ctx ℕ
unfolding ctx_read_header
sfx_read_footer_header = do
  header_offset ← on_f read_footer
  end ← on_f file_tell
  let footer_start = end - footer_size
  or_close_f (check (ltb footer_size end && ltb (header_offset + header_size) footer_start))
  or_close_f (on_f (file_seek (Offset.ahead header_offset) Origin.seek_set))
  ctx_read_header

module _ (malloc : ℕ → Bool) where
  unfoldable pub sfx_open_and_read_footer_header : Option (List ℕ) → List ℕ → Action Ctx ℕ
  unfolding sfx_open sfx_read_footer_header
  sfx_open_and_read_footer_header found fn = sfx_open malloc found fn >> sfx_read_footer_header

  -- The last directory becomes the child of this name, and NULL is an error.
  abbrev entered : Ctx → Tree × Option ℕ → Step Ctx (Unit {0})
  entered c (tree, none) = refused (close_f (record c { tree = some tree; last_dir_node = none }))
  entered c (tree, some node) = ok tt (record c { tree = some tree; last_dir_node = some node })

  unfoldable pub enter_dir : ℕ → Option (List ℕ) → Action Ctx (Unit {0})
  enter_dir parent_index (some name) c = elim c.tree [
    | none ↦ refused (close_f (record c { last_dir_node = none }))
    | some tree ↦ elim (insert_at_parent malloc tree parent_index name) [
      | done added ↦ entered c added
      | failed ↦ refused c
      | fault ↦ invalid
      | stuck ↦ endless
    ]
  ]
  enter_dir parent_index none c = refused (close_f (record c { last_dir_node = none }))

  abbrev parent_in : EntryData → Action Ctx ℕ
  parent_in (subdir p) = pure p
  parent_in (file n) = λ c. invalid
  parent_in null = λ c. invalid

  -- The entry data by the type of the entry.
  unfoldable pub read_entry_data : MetaEntry → Action Ctx MetaEntry
  unfolding enter_dir
  read_entry_data me =
      let as_subdir = (do
        me' ← on_f (read_subdir_entry me)
        parent ← parent_in me'.entry_data
        enter_dir parent me'.name
        pure me') in
      let as_dir = enter_dir 0 me.name >> pure me in
      let type = attr_type me.attributes in
      if type == attr_subdir
      then as_subdir
      else if type == attr_dir
      then as_dir
      else if type == attr_file
      then on_f (read_file_entry me)
      else refuse

  unfoldable pub read_meta_entry : Action Ctx MetaEntry
  unfolding read_entry_data
  read_meta_entry = on_f assert_file >> on_f (read_common_header malloc) >>= read_entry_data

  -- The string, and the length that is reported, of a file's name behind the last directory.
  abbrev name_in : List ℕ → MetaEntry → Outcome (List ℕ × ℕ)
  name_in dirname me =
      let joined : Outcome (List ℕ × ℕ) = elim (name_bytes me) [
        | none ↦ fault
        | some bytes ↦
            done (c_string (dirname ++ (b'/' ∷ bytes)), length dirname + me.name_size + 1)
      ] in
      let alone : Outcome (List ℕ × ℕ) = elim me.name [
        | none ↦ failed
        | some str ↦ if malloc (length str + 1) then done (str, me.name_size) else failed
      ] in
      let below = if malloc (length dirname + 1 + me.name_size + 1) then joined else failed in
      if ltb 0 (length dirname) then below else alone

  abbrev full_name : MetaEntry → List ℕ → Outcome (List ℕ × ℕ)
  full_name me dirname =
      let type = attr_type me.attributes in
      if type == attr_file
      then name_in dirname me
      else if type == attr_dir
      then done (dirname, length dirname)
      else if type == attr_subdir
      then done (dirname, length dirname)
      else failed

  -- The node whose path it is must be there, and belongs to the tree.
  abbrev last_path : Ctx → Outcome (List ℕ)
  last_path c = elim c.tree [
    | none ↦ fault
    | some tree ↦ elim c.last_dir_node [
      | none ↦ fault
      | some node ↦ reconstruct_path malloc tree.nodes node
    ]
  ]

  -- _bra_io_file_ctx_reconstruct_meta_entry_name.
  unfoldable pub reconstruct_meta_entry_name : MetaEntry → Action Ctx (List ℕ × ℕ)
  reconstruct_meta_entry_name me c =
      (on_f assert_file >> lift (last_path c) >>= λ dirname. lift (full_name me dirname)) c
