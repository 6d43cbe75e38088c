-- ===== src/Archive/Encoding.antt =====
-- What src/io/lib_bra_io_file_ctx.c writes for a file that is stored.
use Prim.Native.Nat.{Ordering}
use br_archive.Prelude.{
  ℕ, suc, ◌+◌, ◌-◌, ◌≡◌, ◌<◌, ◌≤◌, refl, Bool, true, false, some, List, [], ◌∷◌, ◌++◌, length, take,
  drop, get_or, ◌⊎◌, inl, inr, Bool-cases, take-all, All, leb, ◌==◌, arith, IsBytes, length-append,
  take-append,
}
use br_archive.Prelude.Actions.{ok}
use br_archive.Io.{open_at}
use br_archive.Io.FileLaws.{file_write-Puts}
use br_archive.Io.Words.{bytes_of}
use br_archive.Io.Entries.{no_entry, meta_entry_init, meta_entry_file_set}
use br_archive.Io.Entries.Format.{IsEntry}
use br_archive.Io.Entries.FlushLaws.{file_entry, stored_bytes, stored_crc, flush_stored}
use br_archive.TreeDir.{same_name}
use br_archive.Archive.{Ctx}
use br_archive.Archive.Writing.{
  Writing, name_and_flush, write_meta_entry_file, write_meta_entry, encode_and_write_to_disk,
}
use br_archive.Fs.{FileSystem, regular}
use br_archive.Fs.Files.{file_attributes, size_of}
use mathlib.Core.List.{append_assoc}

-- The full name of a file in a directory; the current one has the empty name.
abbrev pub in_dir : List ℕ → List ℕ → List ℕ
in_dir [] name = name
in_dir (x ∷ dir) name = (x ∷ dir) ++ (b'/' ∷ name)

-- An archive whose last directory is this, at the end of these bytes.
abbrev pub at_end : Ctx → List ℕ → List ℕ → Ctx
at_end c dir before = record c {
  f = open_at before [];
  last_dir = some dir;
  last_dir_size = length dir;
}

-- The bytes of a stored file in an archive, with the checksum.
abbrev pub archived : List ℕ → List ℕ → List ℕ → List ℕ
archived name filename content =
    stored_bytes 0 name content ++ bytes_of 4 (stored_crc 0 filename content)

-- A file's name in an archive and in full.
pub record IsFileName (dir name : List ℕ) : Type 0 where
  pub not_empty : 0 < length name
  pub short : length name < 256
  pub chars : All (λ c. 0 < c) name
  pub path_chars : All (λ c. 0 < c) (in_dir dir name)
  pub bytes : IsBytes (in_dir dir name)
  pub relative : (get_or name 0 0 == b'/') ≡ false
  pub sized : length (in_dir dir name) ≤ 65_535

same_name_self : (xs : List ℕ) → same_name xs xs ≡ true
same_name_self [] = refl
same_name_self (x ∷ xs) = let h = same_name_self xs in ground (arith, h)

pub length-in_dir : (dir name : List ℕ) → 0 < length name → 0 < length (in_dir dir name)
length-in_dir [] name h = h
length-in_dir (x ∷ dir) name h = omega arith

get_or-behind : (xs ys : List ℕ) (y : ℕ) → get_or (xs ++ (y ∷ ys)) (length xs) 0 ≡ y
get_or-behind [] ys y = refl
get_or-behind (x ∷ xs) ys y = get_or-behind xs ys y

drop-behind : (xs ys : List ℕ) (y : ℕ) → drop (length xs + 1) (xs ++ (y ∷ ys)) ≡ ys
drop-behind [] ys y = refl
drop-behind (x ∷ xs) ys y =
    let e : suc (length xs) + 1 ≡ suc (length xs + 1) = omega arith in rw e (drop-behind xs ys y)

-- Where the name starts in the full name: behind a delimiter, or at the start.
abbrev Starts : List ℕ → List ℕ → Type 0
Starts dir name =
    (((get_or (in_dir dir name) (length dir) 0 == b'/') ≡ true)
      × (drop (length dir + 1) (in_dir dir name) ≡ name)
      × (length (in_dir dir name) - (length dir + 1) ≡ length name))
    ⊎ (((get_or (in_dir dir name) (length dir) 0 == b'/') ≡ false)
        × ((length dir == 0) ≡ true)
        × (drop (length dir) (in_dir dir name) ≡ name)
        × (length (in_dir dir name) - length dir ≡ length name))

starts : (dir name : List ℕ) → (get_or name 0 0 == b'/') ≡ false → Starts dir name
starts [] name h = inr (h, refl, refl, omega arith)
starts (x ∷ dir) name h = inl (
  rw (get_or-behind (x ∷ dir) name b'/') refl,
  drop-behind (x ∷ dir) name b'/',
  omega (arith, length-append dir (b'/' ∷ name)),
)

-- The directory is at the start of the full name.
leads : (dir name : List ℕ) → take (length dir) (in_dir dir name) ≡ dir
leads [] name = refl
leads (x ∷ dir) name = take-append (x ∷ dir) (b'/' ∷ name)

length-dir : (dir name : List ℕ) → length dir ≤ length (in_dir dir name)
length-dir [] name = omega arith
length-dir (x ∷ dir) name = omega (arith, length-append dir (b'/' ∷ name))

module _ (sort : (ℕ → ℕ → Ordering) → List ℕ → List ℕ) (malloc writes : ℕ → Bool) (tmp_opens : Bool)
    (m : (n : ℕ) → malloc n ≡ true) (w : (n : ℕ) → writes n ≡ true) (c : Ctx)
    (dir name content before : List ℕ) (v : IsFileName dir name) (cb : IsBytes content)
    (start : 0 < length before) where
  abbrev pub fn : List ℕ
  fn = in_dir dir name

  abbrev writing : Writing
  writing = record { ctx = at_end c dir before; me = no_entry }

  abbrev written : Writing
  written = record {
    ctx = at_end c dir (before ++ stored_bytes 0 name content);
    me = file_entry 0 name (length content) (stored_crc 0 fn content);
  }

  name_and_flush_lem :
      (l : ℕ)
      → drop l fn ≡ name
      → length fn - l ≡ length name
      → name_and_flush sort malloc writes true tmp_opens 0 l fn
          (some (length content))
          (some content)
          writing
        ≡ ok tt written
  unfolding name_and_flush meta_entry_init meta_entry_file_set
  name_and_flush_lem l behind size =
      let n = length content in
      let short : leb (length name) 255 ≡ true = ground (arith, v.short) in
      let entry : IsEntry (file_entry 0 name n 0) name = record {
        named = refl;
        sized = refl;
        not_empty = v.not_empty;
        short = v.short;
        chars = v.chars;
        attribute = omega arith;
        fresh = refl;
      } in
      let flushed =
        flush_stored sort malloc writes tmp_opens w 1 0 name fn content before entry refl refl
          v.bytes (length-in_dir dir name v.not_empty) v.sized cb start in
      rw (size, short, behind, m 8, m (length name + 1), flushed)

  write_meta_entry_file_lem :
      write_meta_entry_file sort malloc writes true tmp_opens 0 fn
        (some (length content))
        (some content)
        writing
      ≡ ok tt written
  unfolding write_meta_entry_file
  write_meta_entry_file_lem =
      let inside : leb (length dir) (length fn) ≡ true = ground (arith, length-dir dir name) in
      let whole : leb (length dir) (length dir) ≡ true = ground arith in
      let same : same_name (take (length dir) dir) (take (length dir) fn) ≡ true =
        rw (leads dir name, take-all dir) (same_name_self dir) in
      elim (starts dir name v.relative) [
        | inl (delimiter, behind, size) ↦ elim (Bool-cases (length dir == 0)) [
          | inl root ↦
              rw (inside, delimiter, root) (name_and_flush_lem (length dir + 1) behind size)
          | inr below ↦
              rw (inside, delimiter, below, whole, same)
                (name_and_flush_lem (length dir + 1) behind size)
        ]
        | inr (plain, root, behind, size) ↦
            rw (inside, plain, root) (name_and_flush_lem (length dir) behind size)
      ]

  -- With a malloc and an fwrite that do not fail, and the global buffers: where the file system has
  -- a regular file of this name with its size and content, archiving it as it is puts its entry at
  -- the end of an archive whose last directory is the file's. The bytes are the attributes, the
  -- size and bytes of its name there, its size, its content and the checksum of these over the full
  -- name.
  pub encode_stored :
      (F : FileSystem) (disk : F.State)
      → F.status disk fn ≡ some regular
      → size_of F disk fn ≡ some (length content)
      → F.read_file disk fn ≡ some content
      → encode_and_write_to_disk F sort malloc writes true tmp_opens fn false disk
          (at_end c dir before)
        ≡ ok tt (at_end c dir (before ++ archived name fn content))
  unfolding encode_and_write_to_disk write_meta_entry file_attributes
  encode_stored F disk kind size found =
      let crc = stored_crc 0 fn content in
      let put =
        file_write-Puts writes (bytes_of 4 crc) (omega arith) w
          (before ++ stored_bytes 0 name content) in
      rw (kind, size, found, write_meta_entry_file_lem, put)
        (λ i.
          ok tt
            (at_end c dir (append_assoc before (stored_bytes 0 name content) (bytes_of 4 crc) i)))
