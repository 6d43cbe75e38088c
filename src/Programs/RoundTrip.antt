-- ===== src/Programs/RoundTrip.antt =====
-- What src/prog/unbra.cpp restores of an archive that src/prog/bra.cpp wrote.
use Prim.Native.Nat.{Ordering}
use br_archive.Prelude.{ℕ, ◌≡◌, ◌<◌, ◌^◌, sym, Bool, true, false, some, List, [], ◌∷◌, length, All}
use br_archive.Prelude.Actions.{ok}
use br_archive.Archive.Extracting.{Session}
use br_archive.Archive.Decoding.Many.{Item, IsItem, entries, restored}
use br_archive.Archive.Headers.{header, ctx_read_header_lem}
use br_archive.Archive.SelfExtracting.{opened, ctx_open_lem}
use br_archive.Fs.{FileSystem}
use br_archive.Fs.Files.{dir_exists}
use br_archive.Fs.Overwrite.{always_yes}
use br_archive.Programs.{exit_code}
use mathlib.Core.List.{append-nil}
use br_archive.Programs.Restoring.{left, extract_all_lem}
use br_archive.Programs.Archiving.{IsOnDisk, names, archive_of, run_prog_lem}
use br_archive.Programs.Bra.{Bra, run_prog}
use br_archive.Programs.Unbra.{unbra_run_prog}

module _ (G : FileSystem) (malloc writes : ℕ → Bool) (trans : List ℕ)
    (m : (n : ℕ) → malloc n ≡ true) (w : (n : ℕ) → writes n ≡ true)
    (create : G.State → List ℕ → G.State)
    (creates : (disk : G.State) (fn : List ℕ) → G.create_file disk fn ≡ some (create disk fn)) where
  pub unbra_run_prog_lem :
      (s : Session G) (bra_file path current : List ℕ) (disk : G.State) (items : List Item)
      → length items < 2 ^ 32
      → All IsItem items
      → s.policy ≡ always_yes
      → G.read_file s.disk bra_file ≡ some (archive_of items)
      → dir_exists G s.disk path ≡ true
      → G.current_path s.disk ≡ some current
      → G.set_current_path s.disk path ≡ some disk
      → (s' : Session G) × (unbra_run_prog G malloc writes true trans false false false bra_file
            path s
          ≡ ok 0 s')
        × (s'.disk ≡ left G (restored G create items disk) current)
  unfolding unbra_run_prog
  unbra_run_prog_lem s bra_file path current disk items few v always found there here inside =
      let n = length items in
      let start = ctx_open_lem malloc m (archive_of items) bra_file s.archive.ctx in
      let head = ctx_read_header_lem n opened [] (entries items) few in
      let (s', all, stored) =
        extract_all_lem G malloc writes trans m w create creates (exit_code 0) s path current
          (header n) (entries items) [] disk items (sym (append-nil (entries items))) v always there
          here inside in
      (s', rw (found, start, head) all, stored)

-- With a malloc and an fwrite that do not fail, and the global buffers: bra without --sfx and -c
-- archives files of the current directory, whose names it takes as they are and whose sizes and
-- contents the disk has, with exit code 0, and stores under the output's name a header and these
-- entries. unbra, on a disk that has these bytes, with the policy to overwrite, an output path that
-- is a directory it can change to, and a file system that creates every file, ends with exit code
-- 0, and the disk is the one with the contents stored under the names, one behind the other, with
-- the current path set back.
pub unbra_run_prog-run_prog :
    (sort : (ℕ → ℕ → Ordering) → List ℕ → List ℕ) (malloc writes : ℕ → Bool) (tmp_opens : Bool)
    (trans : List ℕ)
    → ((n : ℕ) → malloc n ≡ true)
    → ((n : ℕ) → writes n ≡ true)
    → (F : FileSystem) (b : Bra F) (disk : F.State) (out_fn : List ℕ) (items : List Item)
    → F.create_file b.disk out_fn ≡ some disk
    → length items < 2 ^ 32
    → All IsItem items
    → All (IsOnDisk F disk) items
    → (G : FileSystem) (create : G.State → List ℕ → G.State)
    → ((disk' : G.State) (fn : List ℕ) → G.create_file disk' fn ≡ some (create disk' fn))
    → (s : Session G) (bra_file path current : List ℕ) (inside : G.State) → s.policy ≡ always_yes
    → G.read_file s.disk bra_file ≡ some (archive_of items)
    → dir_exists G s.disk path ≡ true
    → G.current_path s.disk ≡ some current
    → G.set_current_path s.disk path ≡ some inside
    → ((b' : Bra F) × (run_prog F sort malloc writes true tmp_opens false false
            (length items)
            (([], names items) ∷ [])
            out_fn
            b
          ≡ ok 0 b')
        × (b'.disk ≡ F.store_file disk out_fn (archive_of items)))
      × ((s' : Session G) × (unbra_run_prog G malloc writes true trans false false false bra_file
              path s
            ≡ ok 0 s')
          × (s'.disk ≡ left G (restored G create items inside) current))
unbra_run_prog-run_prog sort malloc writes tmp_opens trans m w F b disk out_fn items created few v
      there G create creates s bra_file path current inside always found dir here changed =
    (
      run_prog_lem F sort malloc writes tmp_opens m w b disk out_fn items created v there,
      unbra_run_prog_lem G malloc writes trans m w create creates s bra_file path current inside
          items few v always found dir here changed,
    )
