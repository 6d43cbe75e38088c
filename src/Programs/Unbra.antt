-- ===== src/Programs/Unbra.antt =====
-- run_prog of src/prog/unbra.cpp, of src/prog/bra_sfx.cpp, and of the class below both in
-- src/prog/BraProgramOutputArgTrait.cpp.
use br_archive.Prelude.{ℕ, zero, suc, Bool, true, false, none, some, List, ◌||◌, if◌then◌else◌}
use br_archive.Prelude.Actions.{Action, Step, ok, refused, pure, get_state, ◌>>=◌, ◌>>◌}
use br_archive.Archive.{Ctx, ctx_open, ctx_read_header, ctx_close, sfx_open_and_read_footer_header}
use br_archive.Archive.Extracting.{Session, on_session_ctx, print_meta_entry, decode_all}
use br_archive.Fs.{FileSystem}
use br_archive.Fs.Files.{dir_exists, dir_make}
use br_archive.Programs.{or_exit, exit_code}

module _ (F : FileSystem) where
  abbrev made_output : Session F → Bool × F.State → Step (Session F) (Unit {0})
  made_output s (false, disk) = refused (record s { disk = disk })
  made_output s (true, disk) = ok tt (record s { disk = disk })

  abbrev make_output : List ℕ → Action (Session F) (Unit {0})
  make_output output_path s =
      if dir_exists F s.disk output_path
      then ok tt s
      else (made_output s (dir_make F s.disk output_path))

  abbrev pub change_dir : List ℕ → Action (Session F) (Unit {0})
  change_dir path s = elim (F.set_current_path s.disk path) [
    | none ↦ refused s
    | some disk ↦ ok tt (record s { disk = disk })
  ]

  -- run_prog of the class, which returns the current path that it leaves.
  unfoldable pub enter_output : List ℕ → Action (Session F) (List ℕ)
  enter_output output_path = do
    make_output output_path
    s ← get_state
    current ← (λ s'. elim (F.current_path s'.disk) [ none ↦ refused s' | some path ↦ ok path s' ])
    change_dir output_path
    pure current

  -- run_prog_end, which only warns on a failure.
  unfoldable pub leave_output : List ℕ → Action (Session F) (Unit {0})
  leave_output path s = elim (F.set_current_path s.disk path) [
    | none ↦ ok tt s
    | some disk ↦ ok tt (record s { disk = disk })
  ]

module _ (F : FileSystem) (malloc writes : ℕ → Bool) (initialized : Bool) (trans : List ℕ) where
  abbrev in_ctx : {A : Type 0} → Action Ctx A → Action (Session F) A
  in_ctx = on_session_ctx F malloc writes initialized trans

  -- The loop that lists or tests the entries.
  unfoldable pub print_all : ℕ → Bool → Action Ctx (Unit {0})
  unfolding print_meta_entry
  print_all zero test_mode = pure tt
  print_all (suc num_files) test_mode =
      print_meta_entry malloc writes initialized trans test_mode >> print_all num_files test_mode

  abbrev open_archive : Bool → List ℕ → Action (Session F) ℕ
  open_archive sfx bra_file s =
      let found = F.read_file s.disk bra_file in
      (if sfx
          then in_ctx (sfx_open_and_read_footer_header malloc found bra_file)
          else (in_ctx (ctx_open malloc found bra_file >> ctx_read_header)))
        s

  -- Whether the failure of the closing counts.
  abbrev pub extract_all : List ℕ → ℕ → Action (Session F) ℕ → Action (Session F) ℕ
  extract_all output_path num_files last =
      or_exit (enter_output F output_path) (exit_code 1) λ current.
        or_exit (decode_all F malloc writes initialized trans num_files) (exit_code 1)
          λ u. leave_output F current >> last

  abbrev pub close_archive : (Session F → Step (Session F) ℕ) → Action (Session F) ℕ
  close_archive failed = or_exit (in_ctx ctx_close) failed (λ u. exit_code 0)

  unfoldable pub unbra_run_prog : Bool → Bool → Bool → List ℕ → List ℕ → Action (Session F) ℕ
  unfolding print_all enter_output leave_output
  unbra_run_prog list_content test_content sfx bra_file output_path =
      or_exit (open_archive sfx bra_file) (exit_code 1) λ num_files.
        let listed =
          or_exit (in_ctx (print_all num_files test_content)) (exit_code 2)
            λ u. close_archive (exit_code 0) in
        if list_content || test_content
        then listed
        else (extract_all output_path num_files (close_archive (exit_code 0)))

  unfoldable pub bra_sfx_run_prog : List ℕ → List ℕ → Action (Session F) ℕ
  unfolding enter_output leave_output
  bra_sfx_run_prog argv0 output_path =
      or_exit (open_archive true argv0) (exit_code 1)
        λ num_files. extract_all output_path num_files (close_archive (exit_code 1))
