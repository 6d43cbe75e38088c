-- ===== src/Programs/Tests.antt =====
-- The programs at a concrete input: an archive of two files.
use Prim.Native.Nat.{Ordering}
use br_archive.Prelude.{ℕ, ◌≡◌, refl, Bool, true, false, List, [], ◌∷◌, arith}
use br_archive.Prelude.Actions.{ok}
use br_archive.Io.Entries.{no_entry}
use br_archive.FileNames.{validate_filename}
use br_archive.Fs.{try_sanitize, has_parent}
use br_archive.Fs.Files.{dir_exists, size_of}
use br_archive.Fs.Memory.{Disk, memory}
use br_archive.Fs.Overwrite.{always_yes}
use br_archive.Archive.{no_ctx}
use br_archive.Archive.Extracting.{Session}
use br_archive.Archive.Decoding.Many.{Item, IsItem, entries, restored}
use br_archive.Programs.Archiving.{IsOnDisk, names, archive_of}
use br_archive.Programs.Bra.{Bra, run_prog}
use br_archive.Programs.Unbra.{unbra_run_prog, bra_sfx_run_prog}
use br_archive.Archive.SelfExtracting.{sfx_file}
use br_archive.Programs.Restoring.{left}
use br_archive.Programs.SelfExtracting.{bra_sfx_run_prog-sfx_file}
use br_archive.Programs.RoundTrip.{unbra_run_prog-run_prog}

abbrev always : ℕ → Bool
always n = true

abbrev unsorted : (ℕ → ℕ → Ordering) → List ℕ → List ℕ
unsorted cmp xs = xs

abbrev hello : Item
hello = (b'a' ∷ [], b'h' ∷ b'i' ∷ [])

abbrev empty : Item
empty = (b'b' ∷ [], [])

abbrev items : List Item
items = hello ∷ empty ∷ []

a_valid : validate_filename (b'a' ∷ []) 1 ≡ true
unfolding validate_filename
a_valid = refl

b_valid : validate_filename (b'b' ∷ []) 1 ≡ true
unfolding validate_filename
b_valid = refl

hello-IsItem : IsItem hello
hello-IsItem = record {
  named = record {
    not_empty = omega arith;
    short = omega arith;
    chars = (omega arith, tt);
    path_chars = (omega arith, tt);
    bytes = (omega arith, tt);
    relative = refl;
    sized = omega arith;
  };
  valid = a_valid;
  bytes = (omega arith, (omega arith, tt));
  fits = omega arith;
}

empty-IsItem : IsItem empty
empty-IsItem = record {
  named = record {
    not_empty = omega arith;
    short = omega arith;
    chars = (omega arith, tt);
    path_chars = (omega arith, tt);
    bytes = (omega arith, tt);
    relative = refl;
    sized = omega arith;
  };
  valid = b_valid;
  bytes = tt;
  fits = omega arith;
}

abbrev out_fn : List ℕ
out_fn = b'o' ∷ []

-- With the archive's file, which is still empty.
abbrev disk : Disk
disk = (out_fn, []) ∷ hello ∷ empty ∷ []

hello-IsOnDisk : IsOnDisk memory disk hello
unfolding try_sanitize has_parent size_of
hello-IsOnDisk = record { path = refl; kind = refl; size = refl; found = refl }

empty-IsOnDisk : IsOnDisk memory disk empty
unfolding try_sanitize has_parent size_of
empty-IsOnDisk = record { path = refl; kind = refl; size = refl; found = refl }

abbrev current : List ℕ
current = b'.' ∷ []

-- The disk of the other program has the archive alone.
abbrev there : Disk
there = (out_fn, archive_of items) ∷ []

current_exists : dir_exists memory there current ≡ true
unfolding dir_exists
current_exists = refl

abbrev session : Session memory
session = record {
  archive = record { ctx = no_ctx; me = no_entry };
  disk = there;
  policy = always_yes;
  input = [];
}

abbrev created : Disk → List ℕ → Disk
created d fn = (fn, []) ∷ d

unbra_run_prog-run_prog_example :
    ((b' : Bra memory) × (run_prog memory unsorted always always true true false false 2
          (([], names items) ∷ [])
          out_fn
          (record { ctx = no_ctx; disk = hello ∷ empty ∷ [] })
        ≡ ok 0 b')
      × (b'.disk ≡ ((out_fn, archive_of items) ∷ disk)))
    × ((s' : Session memory) × (unbra_run_prog memory always always true [] false false false out_fn
            current session
          ≡ ok 0 s')
        × (s'.disk ≡ left memory (restored memory created items there) (b'/' ∷ [])))
unbra_run_prog-run_prog_example =
    unbra_run_prog-run_prog unsorted always always true [] (λ n. refl) (λ n. refl) memory
      (record { ctx = no_ctx; disk = hello ∷ empty ∷ [] }) disk out_fn items refl (omega arith)
      (hello-IsItem, (empty-IsItem, tt)) (hello-IsOnDisk, (empty-IsOnDisk, tt)) memory created
      (λ d fn. refl) session out_fn current (b'/' ∷ []) there refl refl current_exists refl refl

abbrev program : List ℕ
program = 0x7f ∷ b'E' ∷ b'L' ∷ b'F' ∷ []

-- The disk has the self-extracting file alone.
abbrev with_program : Disk
with_program = (out_fn, sfx_file 2 program (entries items)) ∷ []

abbrev sfx_session : Session memory
sfx_session = record session { disk = with_program }

sfx_current_exists : dir_exists memory with_program current ≡ true
unfolding dir_exists
sfx_current_exists = refl

bra_sfx_run_prog-sfx_file_example :
    (s' : Session memory) × (bra_sfx_run_prog memory always always true [] out_fn current
        sfx_session
      ≡ ok 0 s')
    × (s'.disk ≡ left memory (restored memory created items with_program) (b'/' ∷ []))
bra_sfx_run_prog-sfx_file_example =
    bra_sfx_run_prog-sfx_file always always [] (λ n. refl) (λ n. refl) memory created (λ d fn. refl)
      sfx_session out_fn current (b'/' ∷ []) program with_program items (omega arith) (omega arith)
      (omega arith) (omega arith) (hello-IsItem, (empty-IsItem, tt)) refl refl sfx_current_exists
      refl refl
