-- ===== src/Programs/Bra.antt =====
-- run_prog of src/prog/bra.cpp, with run_encode. The files to be archived are those of `m_tree`.
use Prim.Native.Nat.{Ordering}
use br_archive.Prelude.{ℕ, Bool, Option, none, some, List, [], ◌∷◌, ◌&&◌, if◌then◌else◌}
use br_archive.Prelude.Actions.{Action, Step, ok, refused, invalid, pure, zoom, modify, ◌>>◌}
use br_archive.Io.{file_tell}
use br_archive.Io.Sfx.{write_footer}
use br_archive.Archive.{Ctx, on_f, ctx_open, sfx_open, ctx_close, ctx_write_header}
use br_archive.Archive.Writing.{encode_and_write_to_disk}
use br_archive.Fs.{FileSystem, is_empty, try_sanitize, sfx_file_ext}
use br_archive.Fs.Files.{file_rename, file_permissions}
use br_archive.Programs.{or_exit, exit_code}

-- BRA_SFX_FILENAME.
abbrev pub sfx_filename : List ℕ
sfx_filename = b'b' ∷ b'r' ∷ b'a' ∷ b'.' ∷ b's' ∷ b'f' ∷ b'x' ∷ []

-- m_ctx, and the disk. The archive's file is on the disk when it is closed.
pub record Bra (F : FileSystem) : Type 0 where
  pub ctx : Ctx
  pub disk : F.State

module _ (F : FileSystem) where
  abbrev pub in_ctx : {A : Type 0} → Action Ctx A → Action (Bra F) A
  in_ctx = zoom (λ b. b.ctx) (λ c b. record b { ctx = c })

  abbrev pub stored : List ℕ → Bra F → Bra F
  stored out_fn b = record b { disk = F.store_file b.disk out_fn b.ctx.f.bytes }

  -- The destructor closes the archive.
  abbrev pub stop : List ℕ → ℕ → Bra F → Step (Bra F) ℕ
  stop out_fn code b = ok code (stored out_fn b)

module _ (F : FileSystem) (sort : (ℕ → ℕ → Ordering) → List ℕ → List ℕ) (malloc writes : ℕ → Bool)
    (initialized tmp_opens : Bool) where
  unfoldable pub run_encode : Bool → List ℕ → Action (Bra F) (Unit {0})
  run_encode compress p b = elim (try_sanitize F b.disk p) [
    | none ↦ refused b
    | some fn ↦
        in_ctx F
          (encode_and_write_to_disk F sort malloc writes initialized tmp_opens fn compress b.disk) b
  ]

  unfoldable pub encode_files : Bool → List ℕ → List (List ℕ) → Action (Bra F) (Unit {0})
  encode_files compress dir [] = pure tt
  encode_files compress dir (fn ∷ files) =
      run_encode compress (F.paths.join dir fn) >> encode_files compress dir files

  -- A directory comes before its files.
  unfoldable pub encode_tree : Bool → List (List ℕ × List (List ℕ)) → Action (Bra F) (Unit {0})
  unfolding encode_files
  encode_tree compress [] = pure tt
  encode_tree compress ((dir, files) ∷ tree) =
      (if is_empty dir then pure tt else run_encode compress dir)
      >> encode_files compress dir files
      >> encode_tree compress tree

  -- fopen with `wb`, which comes behind two mallocs of bra_io_file_ctx_open.
  abbrev open_new : List ℕ → Action (Bra F) (Unit {0})
  open_new out_fn b =
      let on_new : Step (Bra F) (Unit {0}) = elim (F.create_file b.disk out_fn) [
        | none ↦ in_ctx F (ctx_open malloc none out_fn) b
        | some disk ↦ in_ctx F (ctx_open malloc (some []) out_fn) (record b { disk = disk })
      ] in
      let failing = in_ctx F (ctx_open malloc none out_fn) b in
      if malloc 16 && malloc 1 then on_new else failing

  -- std::filesystem::copy_file throws where it fails, which nothing catches.
  abbrev copied : Bra F → Option (Unit {0}) × F.State → Step (Bra F) (Unit {0})
  copied b (none, disk) = invalid
  copied b (some u, disk) = ok tt (record b { disk = disk })

  abbrev copy_module : List ℕ → Action (Bra F) (Unit {0})
  copy_module out_fn b = copied b (F.copy_file b.disk sfx_filename out_fn)

  -- The archive's header, entries and closing, with what comes before the closing.
  abbrev write_archive :
      Bool
      → ℕ
      → List (List ℕ × List (List ℕ))
      → List ℕ
      → (Action (Bra F) ℕ → Action (Bra F) ℕ)
      → Action (Bra F) ℕ
      → Action (Bra F) ℕ
  write_archive compress tot_files tree out_fn before_close after =
      or_exit (in_ctx F (ctx_write_header writes tot_files)) (stop F out_fn 1) λ u.
        or_exit (encode_tree compress tree) (stop F out_fn 3) λ u.
          before_close
            (or_exit (in_ctx F ctx_close) (stop F out_fn 1) λ u. modify (stored F out_fn) >> after)

  abbrev rename_sfx : List ℕ → Action (Bra F) ℕ
  rename_sfx out_fn b =
      let sfx_path = F.paths.replace_extension out_fn sfx_file_ext in
      let (renamed, disk) = file_rename F b.disk out_fn sfx_path in
      let (allowed, disk') = file_permissions F disk sfx_path in
      if renamed
      then exit_code 0 (record b { disk = disk' })
      else exit_code 2 (record b { disk = disk })

  -- Without --sfx, and with it, where the header's offset goes into the footer.
  unfoldable pub run_prog :
      Bool → Bool → ℕ → List (List ℕ × List (List ℕ)) → List ℕ → Action (Bra F) ℕ
  unfolding encode_tree run_encode
  run_prog sfx compress tot_files tree out_fn b =
      let plain : Action (Bra F) ℕ =
        or_exit (open_new out_fn) (exit_code 1)
          λ u. write_archive compress tot_files tree out_fn (λ close. close) (exit_code 0) in
      let open_module : Action (Bra F) (Unit {0}) =
        λ b'. in_ctx F (sfx_open malloc (F.read_file b'.disk out_fn) out_fn) b' in
      let with_module : Action (Bra F) ℕ = or_exit (copy_module out_fn) (exit_code 2) λ u.
        or_exit open_module (exit_code 2) λ u.
          or_exit (in_ctx F (on_f file_tell)) (stop F out_fn 2) λ header_offset.
            write_archive compress tot_files tree out_fn
              (λ close.
                or_exit (in_ctx F (on_f (write_footer writes header_offset))) (stop F out_fn 2)
                  λ u. close)
              (rename_sfx out_fn) in
      (if sfx then with_module else plain) b
