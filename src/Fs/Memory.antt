-- ===== src/Fs/Memory.antt =====
-- A file system in memory, for tests: a list of names with contents, where the newest comes first,
-- and the current directory alone.
use br_archive.Prelude.{
  ℕ, Bool, true, false, Option, none, some, List, [], ◌∷◌, ◌++◌, length, drop, get_or, ◌==◌, ◌||◌,
  if◌then◌else◌,
}
use br_archive.TreeDir.{same_name}
use br_archive.Fs.{FileSystem, FileType, Paths, regular}

abbrev pub Disk : Type 0
Disk = List (List ℕ × List ℕ)

abbrev pub find : Disk → List ℕ → Option (List ℕ)
find [] fn = none
find ((name, content) ∷ disk) fn = if same_name name fn then some content else find disk fn

abbrev is_there : Option (List ℕ) → Bool
is_there none = false
is_there (some content) = true

abbrev here : List ℕ
here = b'.' ∷ []

abbrev kind_of : Option (List ℕ) → Option FileType
kind_of none = none
kind_of (some content) = some regular

abbrev size_in : Option (List ℕ) → Option ℕ
size_in none = none
size_in (some content) = some (length content)

abbrev remove_all : Disk → List ℕ → Disk
remove_all [] fn = []
remove_all ((name, content) ∷ disk) fn =
    let rest = remove_all disk fn in if same_name name fn then rest else (name, content) ∷ rest

abbrev renamed : Option (List ℕ) → Disk → List ℕ → List ℕ → Option (Unit {0}) × Disk
renamed none disk from to = (none, disk)
renamed (some content) disk from to = (some tt, (to, content) ∷ remove_all disk from)

abbrev copied : Option (List ℕ) → Disk → List ℕ → Option (Unit {0}) × Disk
copied none disk to = (none, disk)
copied (some content) disk to = (some tt, (to, content) ∷ disk)

-- Names without a delimiter, below the root.
abbrev pub flat_paths : Paths
flat_paths = record {
  lexically_relative = λ path base. drop (length base) path;
  lexically_normal = λ path. path;
  elements = λ path. path ∷ [];
  join = λ dir fn. if length dir == 0 then fn else dir ++ (b'/' ∷ fn);
  is_absolute = λ path. get_or path 0 0 == b'/';
  has_root_name = λ path. false;
  relative_path = λ path. path;
  parent_path = λ path. [];
  filename = λ path. path;
  stem = λ path. path;
  extension = λ path. [];
  replace_extension = λ path ext. path ++ ext;
}

abbrev pub memory : FileSystem
memory = record {
  State = Disk;
  paths = flat_paths;
  exists = λ disk path. some (same_name path here || is_there (find disk path));
  is_directory = λ disk path. some (same_name path here);
  is_regular_file = λ disk path. some (is_there (find disk path));
  status = λ disk path. kind_of (find disk path);
  file_size = λ disk path. size_in (find disk path);
  absolute = λ disk path. some (b'/' ∷ path);
  current_path = λ disk. some (b'/' ∷ []);
  relative = λ disk path base. some path;
  create_directories = λ disk path. (some false, disk);
  remove = λ disk path. (some (is_there (find disk path)), remove_all disk path);
  rename = λ disk from to. renamed (find disk from) disk from to;
  copy_file = λ disk from to. copied (find disk from) disk to;
  set_current_path = λ disk path. some disk;
  permissions = λ disk path. some disk;
  equivalent = λ disk from to. some false;
  read_file = find;
  create_file = λ disk fn. some ((fn, []) ∷ disk);
  store_file = λ disk fn content. (fn, content) ∷ disk;
}
