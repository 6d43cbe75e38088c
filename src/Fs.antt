-- ===== src/Fs.antt =====
-- src/fs/bra_fs.cpp, over std::filesystem, and its functions for C in src/fs/bra_fs_c.cpp. A path
-- is its string. The calls of the standard library are the fields of a parameter.
pub mod Files
pub mod Overwrite
pub mod Memory
pub mod Laws
pub mod Sanitizing
mod Tests
use br_archive.Prelude.{
  ℕ, Bool, true, false, Option, none, some, List, [], ◌∷◌, ◌++◌, ◌&&◌, ◌||◌, not, if◌then◌else◌,
}
use br_archive.TreeDir.{same_name}

-- std::filesystem::file_type, with one constructor for all types that the code refuses.
pub data FileType : Type 0 where
  regular directory symlink other : FileType

-- std::filesystem::path, as far as the code uses it. `elements` are what a loop over a path visits.
pub record Paths : Type 0 where
  pub lexically_relative : List ℕ → List ℕ → List ℕ
  pub lexically_normal : List ℕ → List ℕ
  pub elements : List ℕ → List (List ℕ)
  pub join : List ℕ → List ℕ → List ℕ
  pub is_absolute : List ℕ → Bool
  pub has_root_name : List ℕ → Bool
  pub relative_path : List ℕ → List ℕ
  pub parent_path : List ℕ → List ℕ
  pub filename : List ℕ → List ℕ
  pub stem : List ℕ → List ℕ
  pub extension : List ℕ → List ℕ
  pub replace_extension : List ℕ → List ℕ → List ℕ

-- What the code uses of the file system; `none` is an error_code that is set.
pub record FileSystem : Type 1 where
  pub State : Type 0
  pub paths : Paths
  pub exists : State → List ℕ → Option Bool
  pub is_directory : State → List ℕ → Option Bool
  pub is_regular_file : State → List ℕ → Option Bool
  pub status : State → List ℕ → Option FileType
  pub file_size : State → List ℕ → Option ℕ
  pub absolute : State → List ℕ → Option (List ℕ)
  pub current_path : State → Option (List ℕ)
  pub relative : State → List ℕ → List ℕ → Option (List ℕ)
  pub create_directories : State → List ℕ → Option Bool × State
  pub remove : State → List ℕ → Option Bool × State
  pub rename : State → List ℕ → List ℕ → Option (Unit {0}) × State
  pub copy_file : State → List ℕ → List ℕ → Option (Unit {0}) × State
  pub set_current_path : State → List ℕ → Option State
  pub permissions : State → List ℕ → Option State
  pub equivalent : State → List ℕ → List ℕ → Option Bool
  -- fopen for reading gives the bytes, and for writing an empty file, whose bytes are then stored.
  pub read_file : State → List ℕ → Option (List ℕ)
  pub create_file : State → List ℕ → Option State
  pub store_file : State → List ℕ → List ℕ → State

-- `==` on paths compares them by element, and on strings by character.
abbrev pub same_elements : List (List ℕ) → List (List ℕ) → Bool
same_elements [] [] = true
same_elements [] (y ∷ ys) = false
same_elements (x ∷ xs) [] = false
same_elements (x ∷ xs) (y ∷ ys) = same_name x y && same_elements xs ys

abbrev pub is_empty : List ℕ → Bool
is_empty [] = true
is_empty (x ∷ xs) = false

-- BRA_FILE_EXT, BRA_SFX_FILE_EXT (on Unix) and BRA_SFX_TMP_FILE_EXT.
abbrev pub file_ext : List ℕ
file_ext = b'.' ∷ b'B' ∷ b'R' ∷ b'a' ∷ []

abbrev pub sfx_file_ext : List ℕ
sfx_file_ext = b'.' ∷ b'b' ∷ b'r' ∷ b'x' ∷ []

abbrev pub sfx_tmp_file_ext : List ℕ
sfx_tmp_file_ext = b'.' ∷ b't' ∷ b'm' ∷ b'p' ∷ []

module _ (P : Paths) where
  abbrev pub same_path : List ℕ → List ℕ → Bool
  same_path a b = same_elements (P.elements a) (P.elements b)

  -- The loop that looks for `..`.
  unfoldable pub has_parent : List (List ℕ) → Bool
  has_parent [] = false
  has_parent (x ∷ xs) = if same_name x (b'.' ∷ b'.' ∷ []) then true else has_parent xs

  unfoldable pub filename_archive_adjust : List ℕ → List ℕ
  filename_archive_adjust path =
      if same_path (P.extension path) file_ext then path else (path ++ file_ext)

  unfoldable pub filename_sfx_adjust : List ℕ → Bool → List ℕ
  filename_sfx_adjust path tmp =
      let sfx_ext = if tmp then sfx_tmp_file_ext else sfx_file_ext in
      let p = if same_path (P.extension path) sfx_file_ext then P.stem path else path in
      if same_path (P.extension p) file_ext then p ++ sfx_ext else ((p ++ file_ext) ++ sfx_ext)

module _ (F : FileSystem) where
  -- What is left of a path that is not below the current one, and of one that is.
  abbrev pub sanitized : List ℕ → List ℕ → Option (List ℕ)
  sanitized path p =
      let kept = if is_empty p then path else p in
      let normal = F.paths.lexically_normal kept in
      let inside = if is_empty normal then none else some normal in
      let local = if has_parent F.paths (F.paths.elements normal) then none else inside in
      if is_empty p && (F.paths.is_absolute path || F.paths.has_root_name path) then none else local

  abbrev pub relative_to : F.State → List ℕ → List ℕ → List ℕ → Option (List ℕ)
  relative_to s path abs current =
      let p = F.paths.lexically_relative abs current in
      let below : Option (List ℕ) = elim (F.relative s p current) [
        | none ↦ none
        | some p' ↦ sanitized path p'
      ] in
      if is_empty p then none else below

  -- The path that is left in place of the argument, where `true` is returned.
  unfoldable pub try_sanitize : F.State → List ℕ → Option (List ℕ)
  unfolding has_parent
  try_sanitize s path = elim (F.absolute s path) [
    | none ↦ none
    | some abs ↦ elim (F.current_path s) [
      | none ↦ none
      | some current ↦ relative_to s path abs current
    ]
  ]

  abbrev dot : List ℕ
  dot = b'.' ∷ []

  -- The path behind the base, once more made safe.
  abbrev is_below : F.State → List ℕ → List ℕ → Bool
  is_below s b p =
      let is_root = same_path F.paths (F.paths.relative_path b) dot in
      let inside : List ℕ → Bool = λ p''.
        if is_root && is_empty (F.paths.parent_path p'') then false else not (is_empty p'') in
      let relative : Bool = elim (F.relative s (F.paths.join dot p) (F.paths.join dot b)) [
        | none ↦ false
        | some p' ↦ elim (try_sanitize s p') [ none ↦ false | some p'' ↦ inside p'' ]
      ] in
      if (is_empty b || is_empty p) || same_path F.paths b p then false else relative

  -- dir_isSubDir.
  unfoldable pub dir_is_sub_dir : F.State → List ℕ → List ℕ → Bool
  unfolding try_sanitize
  dir_is_sub_dir s base path = elim (try_sanitize s base) [
    | none ↦ false
    | some b ↦ elim (try_sanitize s path) [ none ↦ false | some p ↦ is_below s b p ]
  ]
