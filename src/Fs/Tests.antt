-- ===== src/Fs/Tests.antt =====
-- The question whether to overwrite, and the check of a path, at concrete inputs.
use br_archive.Prelude.{
  some, none, Option, ℕ, ◌≡◌, ◌↔◌, inl, inr, refl, true, false, List, [], ◌∷◌, get_or, ◌==◌,
  if◌then◌else◌, Bool-cases, subst,
}
use br_archive.Fs.{FileSystem, try_sanitize, has_parent}
use br_archive.Fs.Sanitizing.{IsSafe, IsStandard, Locates, kept, try_sanitize-IsSafe}
use br_archive.Fs.Files.{file_exists}
use br_archive.Fs.Memory.{flat_paths, Disk, memory}
use br_archive.Fs.Overwrite.{ask, ask_overwrite}
use br_archive.Fs.Laws.{FirstDecides, ask_overwrite-asks}

abbrev notes : List ℕ
notes = b'n' ∷ []

abbrev disk : Disk
disk = (notes, []) ∷ []

-- A character that is no answer, `Y`, and the answer to a later question.
abbrev input : List ℕ
input = b'?' ∷ b'Y' ∷ b'n' ∷ []

notes_there : file_exists memory disk notes ≡ true
unfolding file_exists
notes_there = refl

ask_overwrite-asks_example :
    FirstDecides false input (ask_overwrite memory disk notes ask false input)
ask_overwrite-asks_example = ask_overwrite-asks memory disk notes ask false input notes_there

-- A path without the delimiters that it starts with.
abbrev local : List ℕ → List ℕ
local [] = []
local (c ∷ path) = if c == b'/' then local path else (c ∷ path)

local_lem : (path : List ℕ) → (get_or (local path) 0 0 == b'/') ≡ false
local_lem [] = refl
local_lem (c ∷ path) = elim (Bool-cases (c == b'/')) [
  | inl e ↦ rw e (local_lem path)
  | inr e ↦ rw e e
]

-- The files in memory, where a path from the root becomes a relative one.
abbrev files : FileSystem
files = record memory { relative = λ disk path base. some (local path) }

files-IsStandard : IsStandard files
files-IsStandard = record {
  relative-is_absolute = λ disk p base e there.
      subst
        (λ (o : Option (List ℕ)). elim o as (λ (x : Option (List ℕ)). Type 0) [
          | none ↦ Unit
          | some r ↦ (get_or r 0 0 == b'/') ≡ false
        ])
        e (local_lem p);
  relative-has_root_name = λ disk p base e there. refl;
  normal-is_absolute = λ p. refl;
  normal-has_root_name = λ p. refl;
}

notes_safe : try_sanitize files disk notes ≡ some notes
unfolding try_sanitize has_parent
notes_safe = refl

try_sanitize-IsSafe_example : (try_sanitize files disk notes ≡ some notes) ↔ (
    (p : List ℕ) × Locates files disk notes p
    × (flat_paths.lexically_normal (kept notes p) ≡ notes)
    × IsSafe flat_paths notes)
try_sanitize-IsSafe_example = try_sanitize-IsSafe files files-IsStandard disk notes notes
