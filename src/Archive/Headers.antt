-- ===== src/Archive/Headers.antt =====
-- The headers of an archive, in src/io/lib_bra_io_file_ctx.c.
use br_archive.Prelude.{
  ℕ, Bool, ◌⊎◌, inl, inr, Bool-cases, take-append-drop, ◌≡◌, ◌≢◌, ◌<◌, ◌≤◌, ◌^◌, refl, true, false,
  List, [], ◌++◌, length, take, drop, leb, ◌==◌, arith, length-take,
}
use br_archive.Prelude.Actions.{ok, refused}
use br_archive.Io.{open_at}
use br_archive.Io.FileLaws.{file_read_lem, file_read_short, file_write-Puts}
use br_archive.Io.Words.{bytes_of, little_endian, little_endian-bytes_of}
use br_archive.Archive.{Ctx, archive_magic, close_f, ctx_read_header, ctx_write_header}

-- The bytes of a header.
abbrev pub header : ℕ → List ℕ
header num_files = bytes_of 4 archive_magic ++ bytes_of 4 num_files

-- An archive at a place.
abbrev pub ctx_at : Ctx → List ℕ → List ℕ → Ctx
ctx_at c before after = record c { f = open_at before after }

pub ctx_write_header_lem :
    (writes : ℕ → Bool)
    → ((n : ℕ) → writes n ≡ true)
    → (num_files : ℕ) (c : Ctx) (before : List ℕ)
    → ctx_write_header writes num_files (ctx_at c before [])
      ≡ ok tt (ctx_at (record c { num_files = num_files }) (before ++ header num_files) [])
unfolding ctx_write_header
ctx_write_header_lem writes w n c before =
    rw (file_write-Puts writes (header n) (omega arith) w before)

pub ctx_read_header_lem :
    (num_files : ℕ) (c : Ctx) (before after : List ℕ)
    → num_files < 2 ^ 32
    → ctx_read_header (ctx_at c before (header num_files ++ after))
      ≡ ok num_files
          (ctx_at (record c { num_files = num_files }) (before ++ header num_files) after)
unfolding ctx_read_header
ctx_read_header_lem n c before after small =
    rw
      (file_read_lem before (header n) after 8 refl (omega arith), little_endian-bytes_of 4 n small)

-- Eight bytes with another magic.
pub ctx_read_header-other :
    (c : Ctx) (before bytes after : List ℕ)
    → length bytes ≡ 8
    → little_endian (take 4 bytes) ≢ archive_magic
    → ctx_read_header (ctx_at c before (bytes ++ after))
      ≡ refused (close_f (ctx_at c (before ++ bytes) after))
unfolding ctx_read_header
ctx_read_header-other c before bytes after size other =
    let differs : (little_endian (take 4 bytes) == archive_magic) ≡ false = ground (arith, other) in
    rw (file_read_lem before bytes after 8 size (omega arith), differs)

pub ctx_read_header-short :
    (c : Ctx) (before after : List ℕ)
    → length after < 8
    → ctx_read_header (ctx_at c before after) ≡ refused (close_f (ctx_at c before after))
unfolding ctx_read_header
ctx_read_header-short c before after short = rw (file_read_short before after 8 short)

read_bytes :
    (c : Ctx) (before bytes after : List ℕ)
    → length bytes ≡ 8
    → little_endian (take 4 bytes) ≡ archive_magic
    → ctx_read_header (ctx_at c before (bytes ++ after))
      ≡ ok
          (little_endian (drop 4 bytes))
          (ctx_at (record c { num_files = little_endian (drop 4 bytes) }) (before ++ bytes) after)
unfolding ctx_read_header
read_bytes c before bytes after size same =
    let equal : (little_endian (take 4 bytes) == archive_magic) ≡ true = ground (arith, same) in
    rw (file_read_lem before bytes after 8 size (omega arith), equal)

-- The four bytes of the magic, and the number of files behind them.
abbrev pub magic_in : List ℕ → ℕ
magic_in after = little_endian (take 4 (take 8 after))

abbrev pub num_files_in : List ℕ → ℕ
num_files_in after = little_endian (drop 4 (take 8 after))

-- Reading a header from a place of an open archive has three outcomes, by the bytes from there on.
-- Fewer than eight bytes are refused, and so are eight whose first four are not the magic; the
-- archive is closed then. Else the number of files is that of the other four, the archive's state
-- keeps it, and the archive is behind the eight.
pub ctx_read_header_cases :
    (c : Ctx) (before after : List ℕ)
    → ((length after < 8)
        × (ctx_read_header (ctx_at c before after) ≡ refused (close_f (ctx_at c before after))))
      ⊎ (((8 ≤ length after) × (magic_in after ≢ archive_magic))
          × (ctx_read_header (ctx_at c before after)
              ≡ refused (close_f (ctx_at c (before ++ take 8 after) (drop 8 after)))))
      ⊎ (((8 ≤ length after) × (magic_in after ≡ archive_magic))
          × (ctx_read_header (ctx_at c before after)
              ≡ ok (num_files_in after) (
                  ctx_at
                    (record c { num_files = num_files_in after })
                    (before ++ take 8 after)
                    (drop 8 after))))
ctx_read_header_cases c before after = elim (Bool-cases (leb 8 (length after))) [
  | inr less ↦
      let short : length after < 8 = ground arith in
      inl (short, ctx_read_header-short c before after short)
  | inl enough ↦
      let long : 8 ≤ length after = ground arith in
      let size : length (take 8 after) ≡ 8 = omega (arith, length-take 8 after, long) in
      let parts = take-append-drop 8 after in
      elim (Bool-cases (magic_in after == archive_magic)) [
        | inl same ↦
            let equal : magic_in after ≡ archive_magic = ground arith in
            inr (
              inr (
                (long, equal),
                rw parts at (read_bytes c before (take 8 after) (drop 8 after) size equal),
              ))
        | inr other ↦
            let differs : magic_in after ≢ archive_magic = ground arith in
            inr (
              inl (
                (long, differs),
                rw parts at
                    (ctx_read_header-other c before (take 8 after) (drop 8 after) size differs),
              ))
      ]
]
