-- ===== src/Programs/SelfExtracting.antt =====
-- What src/prog/bra_sfx.cpp restores of the archive behind it.
use br_archive.Prelude.{ℕ, ◌+◌, ◌≡◌, ◌<◌, ◌^◌, refl, Bool, true, some, List, ◌++◌, length, All}
use br_archive.Prelude.Actions.{ok}
use br_archive.Io.Footer.{footer}
use br_archive.Archive.{no_ctx}
use br_archive.Archive.Extracting.{Session}
use br_archive.Archive.Decoding.Many.{Item, IsItem, entries, restored}
use br_archive.Archive.Headers.{header}
use br_archive.Archive.SelfExtracting.{sfx_file, sfx_open_and_read_footer_header-write_footer}
use br_archive.Fs.{FileSystem}
use br_archive.Fs.Files.{dir_exists}
use br_archive.Fs.Overwrite.{always_yes}
use br_archive.Programs.{exit_code}
use br_archive.Programs.Restoring.{left, extract_all_lem}
use br_archive.Programs.Unbra.{bra_sfx_run_prog}

-- With a malloc and an fwrite that do not fail, the global buffers, the policy to overwrite, an
-- output path that is a directory it can change to, and a file system that creates every file:
-- where the program's own file is a program that is not empty with a header, the entries of some
-- stored files and a footer with the header's place behind it, below 2^63 bytes, bra_sfx ends with
-- exit code 0, and the disk is the one with the contents stored under the names, one behind the
-- other, with the current path set back.
pub bra_sfx_run_prog-sfx_file :
    (malloc writes : ℕ → Bool) (trans : List ℕ)
    → ((n : ℕ) → malloc n ≡ true)
    → ((n : ℕ) → writes n ≡ true)
    → (G : FileSystem) (create : G.State → List ℕ → G.State)
    → ((disk : G.State) (fn : List ℕ) → G.create_file disk fn ≡ some (create disk fn))
    → (s : Session G) (argv0 path current program : List ℕ) (inside : G.State) (items : List Item)
    → length items < 2 ^ 32
    → 0 < length program
    → 0 < length (entries items)
    → length program + length (entries items) + 20 < 2 ^ 63
    → All IsItem items
    → s.policy ≡ always_yes
    → G.read_file s.disk argv0 ≡ some (sfx_file (length items) program (entries items))
    → dir_exists G s.disk path ≡ true
    → G.current_path s.disk ≡ some current
    → G.set_current_path s.disk path ≡ some inside
    → (s' : Session G) × (bra_sfx_run_prog G malloc writes true trans argv0 path s ≡ ok 0 s')
      × (s'.disk ≡ left G (restored G create items inside) current)
unfolding bra_sfx_run_prog
bra_sfx_run_prog-sfx_file malloc writes trans m w G create creates s argv0 path current program
      inside items few positive more small v always found there here changed =
    let n = length items in
    let opens =
      sfx_open_and_read_footer_header-write_footer malloc writes m w n program (entries items) argv0
        no_ctx s.archive.ctx few positive more small in
    let (s', all, stored) =
      extract_all_lem G malloc writes trans m w create creates (exit_code 1) s path current
        (program ++ header n) (entries items ++ footer (length program)) (footer (length program))
        inside items refl v always there here changed in
    (s', rw (found, opens.2) all, stored)
