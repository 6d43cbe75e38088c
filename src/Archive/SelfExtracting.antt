-- ===== src/Archive/SelfExtracting.antt =====
-- The archive in a self-extracting file, in src/io/lib_bra_io_file_ctx.c.
use br_archive.Prelude.{
  ℕ, Bool, ◌+◌, ◌-◌, ◌≡◌, ◌<◌, ◌^◌, refl, ◌∙◌, true, some, List, [], ◌∷◌, ◌++◌, length, leb, ltb,
  arith, length-append,
}
use br_archive.Prelude.Actions.{ok}
use br_archive.Io.{open_at, file_tell}
use br_archive.Io.Sfx.{write_footer}
use br_archive.Io.Footer.{
  footer, write_footer-Puts, read_footer-Gets, file_seek-set, file_seek-end, file_seek-back,
}
use br_archive.TreeDir.{create, empty_node, root}
use br_archive.Archive.{
  Ctx, no_ctx, ctx_open, ctx_write_header, sfx_open, sfx_read_footer_header,
  sfx_open_and_read_footer_header,
}
use br_archive.Archive.Headers.{header, ctx_at, ctx_write_header_lem, ctx_read_header_lem}
use mathlib.Core.List.{append_assoc, append-nil}

-- An archive just opened, with the root of its tree alone.
abbrev pub opened : Ctx
opened = record no_ctx {
  last_dir = some [];
  tree = some (record { nodes = empty_node ∷ []; num_nodes = 1 });
  last_dir_node = some root;
}

module _ (malloc : ℕ → Bool) (m : (n : ℕ) → malloc n ≡ true) where
  pub ctx_open_lem :
      (bytes fn : List ℕ) (c : Ctx)
      → ctx_open malloc (some bytes) fn c ≡ ok tt (ctx_at opened [] bytes)
  unfolding ctx_open create
  ctx_open_lem bytes fn c = rw (m 16, m 40, m 1, m (length fn + 1), ctx_open)

  pub sfx_open_lem :
      (before after fn : List ℕ) (c : Ctx)
      → length after ≡ 12
      → length (before ++ after) < 2 ^ 63
      → sfx_open malloc (some (before ++ after)) fn c ≡ ok tt (ctx_at opened before after)
  unfolding sfx_open file_tell
  sfx_open_lem before after fn c size small =
      let long : leb 12 (length (before ++ after)) ≡ true =
        ground (arith, length-append before after) in
      rw (
        ctx_open_lem (before ++ after) fn c,
        file_seek-end [] (before ++ after) small,
        long,
        ← size,
        file_seek-back before after small,
      )

pub sfx_read_footer_header_lem :
    (num_files : ℕ) (c : Ctx) (program body : List ℕ)
    → num_files < 2 ^ 32
    → 0 < length program
    → 0 < length body
    → length program + length body + 20 < 2 ^ 63
    → sfx_read_footer_header
        (ctx_at c (program ++ (header num_files ++ body)) (footer (length program)))
      ≡ ok num_files (
          ctx_at
            (record c { num_files = num_files })
            (program ++ header num_files)
            (body ++ footer (length program)))
unfolding sfx_read_footer_header file_tell
sfx_read_footer_header_lem n c program body files positive more small =
    let off = length program in
    let archive = program ++ (header n ++ body) in
    let size : length archive ≡ off + length body + 8 =
      omega (arith, length-append program (header n ++ body)) in
    let end : length (archive ++ footer off) ≡ length archive + 12 =
      length-append archive (footer off) in
    let whole : archive ++ footer off ≡ program ++ (header n ++ (body ++ footer off)) =
      append_assoc program (header n ++ body) (footer off) in
    let some_footer : ltb 12 (length (archive ++ footer off)) ≡ true = ground (arith, size, end) in
    let room : ltb (off + 8) (length (archive ++ footer off) - 12) ≡ true =
      ground (arith, size, end) in
    let read = read_footer-Gets off positive (omega arith) archive [] in
    let seek =
      file_seek-set (archive ++ footer off) [] program (header n ++ (body ++ footer off))
        (append-nil (archive ++ footer off) ∙ whole) (omega arith) in
    let head = ctx_read_header_lem n c program (body ++ footer off) files in
    rw (read, some_footer, room, seek, head)

-- The file: the program, the archive and the footer.
abbrev pub sfx_file : ℕ → List ℕ → List ℕ → List ℕ
sfx_file num_files program body = ((program ++ header num_files) ++ body) ++ footer (length program)

-- With a malloc and an fwrite that do not fail: writing a header behind a program that is not
-- empty, and behind a body that is not empty a footer with the place of the header, gives a file
-- that, below 2^63 bytes, sfx_open_and_read_footer_header opens: it returns the number of files and
-- leaves the archive at the body, with a tree of just the root.
pub sfx_open_and_read_footer_header-write_footer :
    (malloc writes : ℕ → Bool)
    → ((n : ℕ) → malloc n ≡ true)
    → ((n : ℕ) → writes n ≡ true)
    → (num_files : ℕ) (program body fn : List ℕ) (c c' : Ctx) → num_files < 2 ^ 32
    → 0 < length program
    → 0 < length body
    → length program + length body + 20 < 2 ^ 63
    → (ctx_write_header writes num_files (ctx_at c program [])
        ≡ ok tt (ctx_at (record c { num_files = num_files }) (program ++ header num_files) []))
      × (write_footer writes (length program) (open_at ((program ++ header num_files) ++ body) [])
          ≡ ok tt (open_at (sfx_file num_files program body) []))
      × (sfx_open_and_read_footer_header malloc (some (sfx_file num_files program body)) fn c'
          ≡ ok num_files (
              ctx_at
                (record opened { num_files = num_files })
                (program ++ header num_files)
                (body ++ footer (length program))))
unfolding sfx_open_and_read_footer_header
sfx_open_and_read_footer_header-write_footer malloc writes m w n program body fn c c' files positive
      more small =
    let off = length program in
    let archive = program ++ (header n ++ body) in
    let bytes : (program ++ header n) ++ body ≡ archive = append_assoc program (header n) body in
    let size : length (archive ++ footer off) ≡ off + length body + 20 =
      omega (arith, length-append program (header n ++ body), length-append archive (footer off)) in
    let open_it = sfx_open_lem malloc m archive (footer off) fn c' refl (omega (arith, size)) in
    let read = sfx_read_footer_header_lem n opened program body files positive more small in
    (
      ctx_write_header_lem writes w n c program,
      write_footer-Puts writes w off positive (omega arith) ((program ++ header n) ++ body),
      rw (bytes, open_it) read,
    )
