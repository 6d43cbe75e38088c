-- ===== src/Fs/Files.antt =====
-- The functions of src/fs/bra_fs.cpp on files and directories.
use br_archive.Prelude.{
  Bool, true, false, Option, none, some, ℕ, List, [], ◌∷◌, ◌&&◌, ◌||◌, if◌then◌else◌,
}
use br_archive.Io.Entries.{attr_file, attr_dir, attr_sym, attr_subdir}
use br_archive.Fs.{FileSystem, regular, directory, symlink, other, dir_is_sub_dir, same_path}

-- A value, and `false` for an error.
abbrev pub or_false : Option Bool → Bool
or_false none = false
or_false (some b) = b

module _ (F : FileSystem) where
  abbrev pub path_exists : F.State → List ℕ → Bool
  path_exists s path = or_false (F.exists s path)

  unfoldable pub dir_exists : F.State → List ℕ → Bool
  dir_exists s path = path_exists s path && or_false (F.is_directory s path)

  unfoldable pub file_exists : F.State → List ℕ → Bool
  file_exists s path = path_exists s path && or_false (F.is_regular_file s path)

  abbrev pub created : Option Bool × F.State → Bool × F.State
  created (r, s) = (or_false r, s)

  unfoldable pub dir_make : F.State → List ℕ → Bool × F.State
  unfolding dir_exists
  dir_make s path = if dir_exists s path then (true, s) else (created (F.create_directories s path))

  -- file_attributes with the base `./`.
  unfoldable pub file_attributes : F.State → List ℕ → Option ℕ
  file_attributes s path =
      let dir_type = if dir_is_sub_dir F s (b'.' ∷ b'/' ∷ []) path then attr_subdir else attr_dir in
      elim (F.status s path) [
        | none ↦ none
        | some regular ↦ some attr_file
        | some directory ↦ some dir_type
        | some symlink ↦ some attr_sym
        | some other ↦ none
      ]

  unfoldable pub size_of : F.State → List ℕ → Option ℕ
  size_of s path = elim (F.is_directory s path) [
    | none ↦ none
    | some true ↦ some 0
    | some false ↦ if or_false (F.is_regular_file s path) then F.file_size s path else none
  ]

  abbrev is_removed : Option Bool × F.State → Bool × F.State
  is_removed (none, s) = (false, s)
  is_removed (some b, s) = (true, s)

  unfoldable pub file_remove : F.State → List ℕ → Bool × F.State
  unfolding file_exists
  file_remove s path = if file_exists s path then is_removed (F.remove s path) else (true, s)

  -- After std::filesystem::rename: where it fails the file is copied, and the source is removed at
  -- best.
  abbrev copy_over : List ℕ → Option (Unit {0}) × F.State → Bool × F.State
  copy_over from (none, s) = (false, s)
  copy_over from (some u, s) = (true, (F.remove s from).1)

  abbrev rename_or_copy : List ℕ → List ℕ → Option (Unit {0}) × F.State → Bool × F.State
  rename_or_copy from to (none, s) = copy_over from (F.copy_file s from to)
  rename_or_copy from to (some u, s) = (true, s)

  unfoldable pub file_rename : F.State → List ℕ → List ℕ → Bool × F.State
  unfolding file_exists
  file_rename s from to =
      let cleared = if file_exists s from then (F.remove s to).1 else s in
      let renamed = rename_or_copy from to (F.rename cleared from to) in
      if same_path F.paths from to || or_false (F.equivalent s from to) then (true, s) else renamed

  -- file_permissions, with the permission that is added: execution by the owner.
  unfoldable pub file_permissions : F.State → List ℕ → Bool × F.State
  unfolding file_exists
  file_permissions s path =
      let set : Bool × F.State = elim (F.permissions s path) [
        | none ↦ (false, s)
        | some s' ↦ (true, s')
      ] in
      if file_exists s path then set else (false, s)
