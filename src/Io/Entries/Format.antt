-- ===== src/Io/Entries/Format.antt =====
-- The bytes that the functions of src/io/lib_bra_io_file_meta_entries.c write for an entry, and what
-- they read from these.
use br_archive.Prelude.{
  ℕ, ◌+◌, ◌≡◌, ◌<◌, ◌^◌, refl, subst, Bool, true, false, some, List, [], ◌∷◌, ◌++◌, length, All,
  ltb, ◌==◌, if◌then◌else◌, arith, take-append,
}
use br_archive.Prelude.Actions.{◌>>=◌, ◌>>◌}
use br_archive.Io.{file_read, file_write, or_close}
use br_archive.Io.FileLaws.{
  Puts, Gets, Puts-then, Gets-bind, Gets-or_close, file_read-Gets, file_write-Puts,
}
use br_archive.Io.Words.{bytes_of, little_endian-bytes_of, c_string_lem}
use br_archive.Io.Entries.{
  MetaEntry, EntryData, null, file, subdir, name_bytes, write_name, attr_type, attr_file,
  attr_subdir, read_common_header, write_common_header, write_file_entry, read_file_entry,
  write_subdir_entry, read_subdir_entry, meta_entry_init, has_data, read_name,
}
use mathlib.Core.List.{append_assoc}

-- An entry that the format can hold: the data is of the type's kind, and the name is a string of
-- the size that goes with it, without a NUL.
pub record IsEntry (me : MetaEntry) (str : List ℕ) : Type 0 where
  pub named : me.name ≡ some str
  pub sized : me.name_size ≡ length str
  pub not_empty : 0 < length str
  pub short : length str < 256
  pub chars : All (λ c. 0 < c) str
  pub attribute : me.attributes < 256
  pub fresh : me.crc32 ≡ 0

-- The bytes of the common header.
abbrev pub common_header : MetaEntry → List ℕ → List ℕ
common_header me str = (me.attributes ∷ []) ++ ((me.name_size ∷ []) ++ str)

name_bytes_lem : (me : MetaEntry) (str : List ℕ) → IsEntry me str → name_bytes me ≡ some str
name_bytes_lem me str e =
    let inside : ltb (length str + 1) (length str) ≡ false = ground arith in
    rw (e.named, e.sized, inside, take-append str (0 ∷ []))

module _ (writes : ℕ → Bool) (w : (n : ℕ) → writes n ≡ true) where
  write_name-Puts :
      (me : MetaEntry) (str : List ℕ) → IsEntry me str → Puts (write_name writes me) str
  unfolding write_name
  write_name-Puts me str e before =
      rw (name_bytes_lem me str e, file_write-Puts writes str e.not_empty w before)

  pub write_common_header-Puts :
      (me : MetaEntry) (str : List ℕ)
      → IsEntry me str
      → Puts (write_common_header writes me) (common_header me str)
  unfolding write_common_header
  write_common_header-Puts me str e =
      subst (Puts (write_common_header writes me))
        (append_assoc (me.attributes ∷ []) (me.name_size ∷ []) str)
        (Puts-then (file_write writes (me.attributes ∷ []) >> file_write writes (me.name_size ∷ []))
          (write_name writes me) ((me.attributes ∷ []) ++ (me.name_size ∷ [])) str
          (Puts-then (file_write writes (me.attributes ∷ []))
            (file_write writes (me.name_size ∷ [])) (me.attributes ∷ []) (me.name_size ∷ [])
            (file_write-Puts writes (me.attributes ∷ []) (omega arith) w)
            (file_write-Puts writes (me.name_size ∷ []) (omega arith) w))
          (write_name-Puts me str e))

  pub write_subdir_entry-Puts :
      (me : MetaEntry) (parent : ℕ)
      → me.entry_data ≡ subdir parent
      → attr_type me.attributes ≡ attr_subdir
      → Puts (write_subdir_entry writes me) (bytes_of 4 parent)
  unfolding write_subdir_entry
  write_subdir_entry-Puts me parent d t before =
      rw (d, t, file_write-Puts writes (bytes_of 4 parent) (omega arith) w before)

  pub write_file_entry-Puts :
      (me : MetaEntry) (data_size : ℕ)
      → me.entry_data ≡ file data_size
      → attr_type me.attributes ≡ attr_file
      → Puts (write_file_entry writes me) (bytes_of 8 data_size)
  unfolding write_file_entry
  write_file_entry-Puts me data_size d t before =
      rw (d, t, file_write-Puts writes (bytes_of 8 data_size) (omega arith) w before)

-- The data that goes with a type of entry.
abbrev pub fresh_data : ℕ → EntryData
fresh_data type =
    if type == attr_file then file 0 else (if type == attr_subdir then subdir 0 else null)

module _ (malloc : ℕ → Bool) (m : (n : ℕ) → malloc n ≡ true) where
  meta_entry_init_lem :
      (attr : ℕ) (str : List ℕ) (size : ℕ)
      → meta_entry_init malloc attr (some str) size
        ≡ some (record {
          attributes = attr;
          name_size = size;
          name = some str;
          entry_data = fresh_data (attr_type attr);
          crc32 = 0;
        })
  unfolding meta_entry_init
  meta_entry_init_lem attr str size = rw (m 8, m 4, m (length str + 1)) (ground arith)

  read_name-Gets :
      (me : MetaEntry) (str : List ℕ)
      → IsEntry me str
      → Gets
          (read_name malloc (me.attributes ∷ []) (me.name_size ∷ []))
          str
          (record me { entry_data = fresh_data (attr_type me.attributes) })
  unfolding read_name
  read_name-Gets me str e before after =
      let size : me.name_size + 0 ≡ length str = omega (arith, e.sized) in
      let attr : me.attributes + 0 ≡ me.attributes = omega arith in
      let nonzero : (length str == 0) ≡ false = ground (arith, e.not_empty) in
      let bytes =
        Gets-or_close (file_read (length str)) str
          (file_read-Gets str (length str) refl e.not_empty) before after in
      rw
        (
          size,
          nonzero,
          bytes,
          c_string_lem str e.chars,
          attr,
          meta_entry_init_lem me.attributes str (length str),
        )
        (cc (e.named, e.sized, e.fresh))

  pub read_common_header-Gets :
      (me : MetaEntry) (str : List ℕ)
      → IsEntry me str
      → Gets
          (read_common_header malloc)
          (common_header me str)
          (record me { entry_data = fresh_data (attr_type me.attributes) })
  unfolding read_common_header
  read_common_header-Gets me str e =
      Gets-bind (or_close (file_read 1)) (λ attr. or_close (file_read 1) >>= read_name malloc attr)
        (me.attributes ∷ []) ((me.name_size ∷ []) ++ str) (me.attributes ∷ [])
        (Gets-or_close (file_read 1) (me.attributes ∷ [])
          (file_read-Gets (me.attributes ∷ []) 1 refl (omega arith)))
        (Gets-bind (or_close (file_read 1)) (read_name malloc (me.attributes ∷ []))
          (me.name_size ∷ []) str (me.name_size ∷ [])
          (Gets-or_close (file_read 1) (me.name_size ∷ [])
            (file_read-Gets (me.name_size ∷ []) 1 refl (omega arith)))
          (read_name-Gets me str e))

pub read_subdir_entry-Gets :
    (me : MetaEntry) (parent : ℕ)
    → attr_type me.attributes ≡ attr_subdir
    → has_data me ≡ true
    → parent < 2 ^ 32
    → Gets (read_subdir_entry me) (bytes_of 4 parent) (record me { entry_data = subdir parent })
unfolding read_subdir_entry
read_subdir_entry-Gets me parent t d h before after = rw (
  d,
  t,
  file_read-Gets (bytes_of 4 parent) 4 refl (omega arith) before after,
  little_endian-bytes_of 4 parent h,
)

pub read_file_entry-Gets :
    (me : MetaEntry) (data_size : ℕ)
    → attr_type me.attributes ≡ attr_file
    → has_data me ≡ true
    → data_size < 2 ^ 64
    → Gets (read_file_entry me) (bytes_of 8 data_size) (record me { entry_data = file data_size })
unfolding read_file_entry
read_file_entry-Gets me data_size t d h before after = rw (
  d,
  t,
  file_read-Gets (bytes_of 8 data_size) 8 refl (omega arith) before after,
  little_endian-bytes_of 8 data_size h,
)
