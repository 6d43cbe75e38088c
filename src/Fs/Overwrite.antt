-- ===== src/Fs/Overwrite.antt =====
-- file_exists_ask_overwrite of src/fs/bra_fs.cpp, with the answers of the user.
use br_archive.Prelude.{
  ℕ, ◌+◌, Bool, true, false, List, [], ◌∷◌, leb, ◌==◌, ◌&&◌, ◌||◌, not, if◌then◌else◌,
}
use br_archive.Fs.{FileSystem}
use br_archive.Fs.Files.{file_exists}

-- bra_fs_overwrite_policy_e.
pub data Policy : Type 0 where
  ask always_yes always_no : Policy

abbrev pub to_lower : ℕ → ℕ
to_lower c = if leb b'A' c && leb c b'Z' then c + 32 else c

-- The loop over the characters of the standard input that are not white space. At its end reading
-- fails, which counts as `n`.
unfoldable pub ask_loop : Bool → List ℕ → ℕ × List ℕ
ask_loop single_overwrite [] = (b'n', [])
ask_loop single_overwrite (x ∷ input) =
    let c = to_lower x in
    let more = ask_loop single_overwrite input in
    let is_answer =
      (c == b'y' || c == b'n') || (not single_overwrite && (c == b'a' || c == b'o')) in
    if is_answer then (c, input) else more

-- The answer, the policy from now on, and the input that is left.
pub record Answer : Type 0 where
  pub overwrite : Bool
  pub policy : Policy
  pub input : List ℕ

abbrev pub answer_of : Bool → ℕ × List ℕ → Answer
answer_of single_overwrite (c, input) =
    let one : Answer = record { overwrite = c == b'y'; policy = ask; input = input } in
    let all : Answer = record { overwrite = true; policy = always_yes; input = input } in
    let no_more : Answer = record { overwrite = false; policy = always_no; input = input } in
    if single_overwrite then one else if c == b'a' then all else if c == b'o' then no_more else one

-- bra_fs_file_exists_ask_overwrite: a file that is not there may be written.
module _ (F : FileSystem) where
  unfoldable pub ask_overwrite : F.State → List ℕ → Policy → Bool → List ℕ → Answer
  unfolding ask_loop file_exists
  ask_overwrite s path policy single_overwrite input =
      let asked : Answer = elim policy [
        | always_yes ↦ record { overwrite = true; policy = always_yes; input = input }
        | always_no ↦ record { overwrite = false; policy = always_no; input = input }
        | ask ↦ answer_of single_overwrite (ask_loop single_overwrite input)
      ] in
      let free : Answer = record { overwrite = true; policy = policy; input = input } in
      if file_exists F s path then asked else free
