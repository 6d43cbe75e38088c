-- ===== src/Archive/Writing.antt =====
-- The part of src/io/lib_bra_io_file_ctx.c that writes entries.
use Prim.Native.Nat.{Ordering}
use br_archive.Prelude.{
  ℕ, ◌+◌, ◌-◌, Bool, true, false, Option, none, some, List, length, take, drop, get_or, leb, ◌==◌,
  ◌&&◌, ◌||◌, if◌then◌else◌,
}
use br_archive.Prelude.Actions.{
  Action, Step, ok, refused, invalid, pure, refuse, check, assert, lift, zoom, get_state, modify,
  ◌>>=◌, ◌>>◌,
}
use br_archive.Io.{assert_file, file_write}
use br_archive.Io.Words.{bytes_of}
use br_archive.Io.Entries.{
  MetaEntry, no_entry, attr_type, attr_file, attr_dir, attr_subdir, set_type, set_comp, comp_stored,
  comp_compressed, meta_entry_init, meta_entry_file_set, meta_entry_subdir_set, flush_entry_dir,
  flush_entry_subdir,
}
use br_archive.Io.Entries.Flush.{Flush, flush_entry_file}
use br_archive.FileNames.{compute_header_crc32}
use br_archive.Crc32c.{crc32c_table}
use br_archive.TreeDir.{Node, Tree, add, same_name}
use br_archive.TreeDir.Invariant.{node_at}
use br_archive.Archive.{Ctx, on_f, or_close_f}
use br_archive.Fs.{FileSystem}
use br_archive.Fs.Files.{file_attributes, size_of}

-- The context, and the entry of the function that is writing.
pub record Writing : Type 0 where
  pub ctx : Ctx
  pub me : MetaEntry

abbrev pub on_ctx : {A : Type 0} → Action Ctx A → Action Writing A
on_ctx = zoom (λ w. w.ctx) (λ c w. record w { ctx = c })

abbrev pub on_me : {A : Type 0} → Action MetaEntry A → Action Writing A
on_me = zoom (λ w. w.me) (λ me w. record w { me = me })

abbrev pub set_me : Option MetaEntry → Action Writing (Unit {0})
set_me none = refuse
set_me (some me) = modify (λ w. record w { me = me })

abbrev on_flush : {A : Type 0} → Action Flush A → Action Writing A
on_flush =
    zoom (λ w. record { f = w.ctx.f; me = w.me })
      (λ s w. record { ctx = record w.ctx { f = s.f }; me = s.me })

-- `memcmp(a, b, n) == 0`, or a NULL or too short `a`.
abbrev pub dir_starts : Option (List ℕ) → ℕ → List ℕ → Action Writing (Unit {0})
dir_starts none l filename = λ w. invalid
dir_starts (some dir) l filename =
    assert (leb l (length dir)) >> check (same_name (take l dir) (take l filename))

module _ (sort : (ℕ → ℕ → Ordering) → List ℕ → List ℕ) (malloc writes : ℕ → Bool)
    (initialized tmp_opens : Bool) where
  -- The entry's name is the one behind the last directory; `l` is where it starts.
  unfoldable pub name_and_flush :
      ℕ → ℕ → List ℕ → Option ℕ → Option (List ℕ) → Action Writing (Unit {0})
  name_and_flush attributes l filename size found = do
    check (leb (length filename - l) 255)
    set_me (meta_entry_init malloc attributes (some (drop l filename)) (length filename - l))
    w ← get_state
    set_me (elim size [ none ↦ none | some ds ↦ meta_entry_file_set w.me ds ])
    on_flush (flush_entry_file sort malloc writes initialized tmp_opens 2 found filename)

  -- `size` and `found` are what the file system has for the name.
  unfoldable pub write_meta_entry_file :
      ℕ → List ℕ → Option ℕ → Option (List ℕ) → Action Writing (Unit {0})
  unfolding name_and_flush
  write_meta_entry_file attributes filename size found w =
      let l = w.ctx.last_dir_size in
      let behind =
        if get_or filename l 0 == b'/'
        then name_and_flush attributes (l + 1) filename size found
        else if l == 0
        then name_and_flush attributes l filename size found
        else refuse in
      let in_dir = if l == 0 then pure tt else dir_starts w.ctx.last_dir l filename in
      let entry = check (leb l (length filename)) >> in_dir >> behind in
      (on_ctx (on_f assert_file) >> (if attr_type attributes == attr_file then entry else refuse)) w

-- The entry of a directory.
module _ (malloc writes : ℕ → Bool) where
  abbrev pub keep_dir : ℕ → List ℕ → Action Ctx (Unit {0})
  keep_dir node dirname c =
      let kept : Step Ctx (Unit {0}) =
        if malloc (length dirname + 1)
        then ok tt (record c {
          last_dir_node = some node;
          last_dir = some dirname;
          last_dir_size = length dirname;
        })
        else refused (record c { last_dir_node = some node; last_dir = none }) in
      kept

  abbrev pub note_parent : ℕ → Action Writing (Unit {0})
  note_parent parent_index w =
      let noted : Action Writing (Unit {0}) = (do
        set_me (meta_entry_subdir_set w.me parent_index)
        modify (λ v. record v {
          me = record v.me { crc32 = crc32c_table (bytes_of 4 parent_index) v.me.crc32 };
        })) in
      if attr_type w.me.attributes == attr_subdir then noted w else ok tt w

  abbrev pub flush_dir : Action Writing (Unit {0})
  flush_dir w =
      let subdir = on_ctx (on_f (flush_entry_subdir writes w.me)) w in
      if attr_type w.me.attributes == attr_dir
      then on_ctx (on_f (flush_entry_dir writes w.me)) w
      else subdir

  -- From the node on that was added, with its parent's index.
  unfoldable pub write_node : ℕ → List ℕ → ℕ → List ℕ → ℕ → Action Writing (Unit {0})
  write_node attributes dirname node name parent_index = do
    check (leb (length name) 255)
    let type = if parent_index == 0 then attr_dir else attr_subdir
    set_me (meta_entry_init malloc (set_type attributes type) (some name) (length name))
    on_me (compute_header_crc32 (length dirname) dirname)
    note_parent parent_index
    on_ctx (keep_dir node dirname)
    flush_dir

  abbrev pub at_node : ℕ → List ℕ → List Node → ℕ → Node → Action Writing (Unit {0})
  at_node attributes dirname nodes a n = elim n.parent [
    | none ↦ λ w. invalid
    | some p ↦ elim n.dirname [
      | none ↦ λ w. invalid
      | some name ↦ write_node attributes dirname a name (node_at nodes p).index
    ]
  ]

  abbrev pub add_dir : List ℕ → Action Ctx (Tree × Option ℕ)
  add_dir dirname c = elim c.tree [
    | none ↦ refused c
    | some tree ↦
        (lift (add malloc tree dirname) >>= λ added.
        modify (λ c. record c { tree = some added.0 }) >> pure added)
          c
  ]

  unfoldable pub write_meta_entry_dir_subdir : ℕ → List ℕ → Action Writing (Unit {0})
  unfolding write_node
  write_meta_entry_dir_subdir attributes dirname w =
      let stored = set_comp attributes comp_stored in
      let entry : Action Writing (Unit {0}) = on_ctx (add_dir dirname) >>= λ added. elim added.1 [
        | none ↦ refuse
        | some a ↦ at_node stored dirname added.0.nodes a (node_at added.0.nodes a)
      ] in
      let is_dir = attr_type attributes == attr_subdir || attr_type attributes == attr_dir in
      let has_node : Bool = elim w.ctx.last_dir_node [ none ↦ false | some a ↦ true ] in
      (on_ctx (on_f assert_file) >> assert has_node >> (if is_dir then entry else refuse)) w

module _ (F : FileSystem) (sort : (ℕ → ℕ → Ordering) → List ℕ → List ℕ) (malloc writes : ℕ → Bool)
    (initialized tmp_opens : Bool) where
  -- The entry, by its type, from the entry `{0}` on.
  abbrev pub write_entry : ℕ → List ℕ → F.State → Action Writing (Unit {0})
  write_entry attributes fn disk =
      let as_file =
        write_meta_entry_file sort malloc writes initialized tmp_opens attributes fn
          (size_of F disk fn) (F.read_file disk fn) in
      let as_dir = write_meta_entry_dir_subdir malloc writes attributes fn in
      let type = attr_type attributes in
      if type == attr_file
      then as_file
      else if type == attr_dir
      then as_dir
      else if type == attr_subdir
      then as_dir
      else refuse

  -- The checksum is behind the entry. On a failure the archive is closed.
  unfoldable pub write_meta_entry : ℕ → List ℕ → F.State → Action Ctx (Unit {0})
  unfolding write_meta_entry_file write_meta_entry_dir_subdir
  write_meta_entry attributes fn disk =
      let written = (do
        write_entry attributes fn disk
        w ← get_state
        on_ctx (on_f (file_write writes (bytes_of 4 w.me.crc32)))) in
      on_f assert_file
      >> or_close_f (zoom (λ c. record { ctx = c; me = no_entry }) (λ w c. w.ctx) written)

  unfoldable pub encode_and_write_to_disk : List ℕ → Bool → F.State → Action Ctx (Unit {0})
  unfolding write_meta_entry file_attributes
  encode_and_write_to_disk fn compress disk =
      let with_comp : ℕ → ℕ = λ attributes.
        if compress && attr_type attributes == attr_file
        then set_comp attributes comp_compressed
        else (set_comp attributes comp_stored) in
      let encoded : Action Ctx (Unit {0}) = λ c. elim (file_attributes F disk fn) [
        | none ↦ or_close_f refuse c
        | some attributes ↦ write_meta_entry (with_comp attributes) fn disk c
      ] in
      let has_dir : Action Ctx (Unit {0}) =
        λ c. elim c.last_dir [ none ↦ invalid | some dir ↦ ok tt c ] in
      on_f assert_file >> has_dir >> encoded
