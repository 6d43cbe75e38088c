-- ===== src/Io/Footer.antt =====
-- The footer of a self-extracting archive, in src/io/lib_bra_io_file.c.
use br_archive.Prelude.{
  ℕ, Bool, ◌+◌, ◌-◌, ◌≡◌, ◌<◌, ◌^◌, refl, ap, sym, ◌∙◌, true, List, [], ◌++◌, length, leb, ltb,
  ◌&&◌, arith, length-append,
}
use br_archive.Prelude.Actions.{ok}
use br_archive.Io.{open_at, Offset, Origin, file_seek}
use br_archive.Io.FileLaws.{Puts, Gets, file_read_lem, file_write-Puts}
use br_archive.Io.Words.{bytes_of, little_endian-bytes_of}
use br_archive.Io.Sfx.{footer_magic, read_footer, write_footer}
use mathlib.Core.List.{append-nil}

-- The bytes of a footer.
abbrev pub footer : ℕ → List ℕ
footer header_offset = bytes_of 4 footer_magic ++ bytes_of 8 header_offset

pub write_footer-Puts :
    (writes : ℕ → Bool)
    → ((n : ℕ) → writes n ≡ true)
    → (header_offset : ℕ) → 0 < header_offset
    → header_offset < 2 ^ 63
    → Puts (write_footer writes header_offset) (footer header_offset)
unfolding write_footer
write_footer-Puts writes w n positive small before =
    let valid : (ltb 0 n && ltb n (2 ^ 63)) ≡ true = ground arith in
    rw (valid, file_write-Puts writes (footer n) (omega arith) w before)

pub read_footer-Gets :
    (header_offset : ℕ)
    → 0 < header_offset
    → header_offset < 2 ^ 63
    → Gets read_footer (footer header_offset) header_offset
unfolding read_footer
read_footer-Gets n positive small before after =
    let word = little_endian-bytes_of 8 n (omega arith) in
    let valid : (ltb 0 n && ltb n (2 ^ 63)) ≡ true = ground arith in
    rw (file_read_lem before (footer n) after 12 refl (omega arith), word, valid)

-- Seeking to a place of an open file.
pub file_seek-set :
    (before after before' after' : List ℕ)
    → before ++ after ≡ before' ++ after'
    → length before' < 2 ^ 63
    → file_seek (Offset.ahead (length before')) Origin.seek_set (open_at before after)
      ≡ ok tt (open_at before' after')
unfolding file_seek
file_seek-set before after before' after' same small =
    let there : ltb (0 + length before') (2 ^ 63) ≡ true = ground arith in
    let place : 0 + length before' ≡ length before' = omega arith in
    rw there (λ i. ok tt (record { is_open = true; bytes = same i; pos = place i }))

pub file_seek-end :
    (before after : List ℕ)
    → length (before ++ after) < 2 ^ 63
    → file_seek (Offset.ahead 0) Origin.seek_end (open_at before after)
      ≡ ok tt (open_at (before ++ after) [])
unfolding file_seek
file_seek-end before after small =
    let there : ltb (length (before ++ after) + 0) (2 ^ 63) ≡ true = ground arith in
    let place : length (before ++ after) + 0 ≡ length (before ++ after) = omega arith in
    let bytes : before ++ after ≡ (before ++ after) ++ [] = sym (append-nil (before ++ after)) in
    rw there (λ i. ok tt (record { is_open = true; bytes = bytes i; pos = place i }))

pub file_seek-back :
    (before after : List ℕ)
    → length (before ++ after) < 2 ^ 63
    → file_seek (Offset.back (length after)) Origin.seek_end (open_at (before ++ after) [])
      ≡ ok tt (open_at before after)
unfolding file_seek
file_seek-back before after small =
    let size : length ((before ++ after) ++ []) ≡ length before + length after =
      ap (λ (l : List ℕ). length l) (append-nil (before ++ after)) ∙ length-append before after in
    let inside : leb (length after) (length before + length after) ≡ true = ground arith in
    let place : length before + length after - length after ≡ length before = omega arith in
    let there : ltb (length before) (2 ^ 63) ≡ true = ground (arith, length-append before after) in
    rw (size, inside, place, there)
      (λ i.
        ok tt
          (record { is_open = true; bytes = append-nil (before ++ after) i; pos = length before }))
