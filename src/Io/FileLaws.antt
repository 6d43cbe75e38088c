-- ===== src/Io/FileLaws.antt =====
-- Reads and writes of src/io/lib_bra_io_file.c, at the position of an open file.
use br_archive.Prelude.{
  ℕ, ◌+◌, ◌-◌, ◌≡◌, ◌<◌, Bool, true, false, List, ◌++◌, length, take, drop, leb, arith, lt→ltb,
  length-append, length-take, take-append, drop-append, drop-drop, drop-nil, [],
}
use br_archive.Prelude.Actions.{Action, ok, refused, ◌>>=◌, ◌>>◌}
use br_archive.Io.{File, close, or_close, open_at, overwrite, file_read, file_write}
use mathlib.Core.List.{append_assoc}

pub file_read_lem :
    (before bytes after : List ℕ) (n : ℕ)
    → length bytes ≡ n
    → 0 < n
    → file_read n (open_at before (bytes ++ after)) ≡ ok bytes (open_at (before ++ bytes) after)
unfolding file_read
file_read_lem before bytes after n e h =
    let got : take n (drop (length before) (before ++ (bytes ++ after))) ≡ bytes =
      rw (drop-append before (bytes ++ after), ← e) (take-append bytes after) in
    let all : leb n (length bytes) ≡ true = ground arith in
    rw (lt→ltb 0 n h, got, all, append_assoc before bytes after, length-append before bytes, e)

-- Behind the end of the file nothing is read.
pub file_read_short :
    (before after : List ℕ) (n : ℕ)
    → length after < n
    → file_read n (open_at before after) ≡ refused (close (open_at before after))
unfolding file_read
file_read_short before after n h =
    let few : leb n (length (take n (drop (length before) (before ++ after)))) ≡ false =
      rw (drop-append before after) (ground (arith, length-take n after)) in
    rw (lt→ltb 0 n (omega arith), few)

overwrite_lem :
    (before buf after : List ℕ)
    → overwrite (before ++ after) (length before) buf ≡ (before ++ buf) ++ drop (length buf) after
overwrite_lem before buf after =
    let no_gap : length before - length (before ++ after) ≡ 0 =
      omega (arith, length-append before after) in
    let rest : drop (length before + length buf) (before ++ after) ≡ drop (length buf) after =
      rw (← drop-drop (length buf) (length before) (before ++ after), drop-append before after) in
    rw (take-append before after, no_gap, rest, append_assoc before buf (drop (length buf) after))

pub file_write_lem :
    (writes : ℕ → Bool) (before buf after : List ℕ)
    → 0 < length buf
    → writes (length buf) ≡ true
    → file_write writes buf (open_at before after)
      ≡ ok tt (open_at (before ++ buf) (drop (length buf) after))
unfolding file_write
file_write_lem writes before buf after h w =
    rw (lt→ltb 0 (length buf) h, w, overwrite_lem before buf after, length-append before buf)

-- An action that writes these bytes at the end of a file, and one that reads them into a value.
abbrev pub Puts : Action File (Unit {0}) → List ℕ → Type 0
Puts act bytes = (before : List ℕ) → act (open_at before []) ≡ ok tt (open_at (before ++ bytes) [])

abbrev pub Gets : {A : Type 0} → Action File A → List ℕ → A → Type 0
Gets act bytes a =
    (before after : List ℕ)
    → act (open_at before (bytes ++ after)) ≡ ok a (open_at (before ++ bytes) after)

pub Puts-then :
    (m n : Action File (Unit {0})) (xs ys : List ℕ)
    → Puts m xs
    → Puts n ys
    → Puts (m >> n) (xs ++ ys)
Puts-then m n xs ys p q before = rw (p before, q (before ++ xs), append_assoc before xs ys)

pub Gets-bind :
    {A B : Type 0} (m : Action File A) (k : A → Action File B) (xs ys : List ℕ) (a : A) {b : B}
    → Gets m xs a
    → Gets (k a) ys b
    → Gets (m >>= k) (xs ++ ys) b
Gets-bind m k xs ys a p q before after = rw (
  append_assoc xs ys after,
  p before (ys ++ after),
  q (before ++ xs) after,
  append_assoc before xs ys,
)

pub Gets-or_close :
    {A : Type 0} (m : Action File A) (xs : List ℕ) {a : A} → Gets m xs a → Gets (or_close m) xs a
Gets-or_close m xs p before after = rw (p before after)

pub file_read-Gets :
    (bytes : List ℕ) (n : ℕ) → length bytes ≡ n → 0 < n → Gets (file_read n) bytes bytes
file_read-Gets bytes n e h before after = file_read_lem before bytes after n e h

pub file_write-Puts :
    (writes : ℕ → Bool) (buf : List ℕ)
    → 0 < length buf
    → ((n : ℕ) → writes n ≡ true)
    → Puts (file_write writes buf) buf
file_write-Puts writes buf h w before =
    rw (file_write_lem writes before buf [] h (w (length buf)), drop-nil (length buf))
