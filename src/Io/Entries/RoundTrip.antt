-- ===== src/Io/Entries/RoundTrip.antt =====
-- What the functions of src/io/lib_bra_io_file_meta_entries.c write, they read back.
use br_archive.Prelude.{ℕ, ◌≡◌, ◌<◌, ◌^◌, ◌⊎◌, inl, inr, ap, subst, sym, Bool, true, List, ◌++◌}
use br_archive.Prelude.Actions.{◌>>=◌, ◌>>◌}
use br_archive.Io.FileLaws.{Puts, Gets, Puts-then, Gets-bind}
use br_archive.Io.Words.{bytes_of}
use br_archive.Io.Entries.{
  MetaEntry, EntryData, file, subdir, attr_type, attr_file, attr_subdir, attr_dir,
  read_common_header, write_common_header, write_file_entry, read_file_entry, write_subdir_entry,
  read_subdir_entry, flush_entry_dir, flush_entry_subdir,
}
use br_archive.Io.Entries.Format.{
  fresh_data, IsEntry, common_header, write_common_header-Puts, write_subdir_entry-Puts,
  write_file_entry-Puts, read_common_header-Gets, read_subdir_entry-Gets, read_file_entry-Gets,
}

module _ (writes : ℕ → Bool) (w : (n : ℕ) → writes n ≡ true) where
  pub flush_entry_dir-Puts :
      (me : MetaEntry) (str : List ℕ)
      → IsEntry me str
      → (attr_type me.attributes ≡ attr_dir) ⊎ (attr_type me.attributes ≡ attr_subdir)
      → Puts (flush_entry_dir writes me) (common_header me str)
  unfolding flush_entry_dir
  flush_entry_dir-Puts me str e (inl t) before =
      rw t (write_common_header-Puts writes w me str e before)
  flush_entry_dir-Puts me str e (inr t) before =
      rw t (write_common_header-Puts writes w me str e before)

with_data :
    (me : MetaEntry) {d : EntryData}
    → me.entry_data ≡ d
    → ◌≡◌ {A = MetaEntry} (record me { entry_data = d }) me
with_data me e = ap {B = MetaEntry} (λ d. record me { entry_data = d }) (sym e)

module _ (writes malloc : ℕ → Bool) (w : (n : ℕ) → writes n ≡ true)
    (m : (n : ℕ) → malloc n ≡ true) where
  -- Where fwrite and malloc succeed, the entry of a subdirectory that is written at the end of a
  -- file is read back from there, whatever comes behind it, with its attributes, name and parent;
  -- the file is then at the end of the entry.
  pub read_subdir_entry-flush :
      (me : MetaEntry) (str : List ℕ) (parent : ℕ)
      → IsEntry me str
      → me.entry_data ≡ subdir parent
      → attr_type me.attributes ≡ attr_subdir
      → parent < 2 ^ 32
      → Puts (flush_entry_subdir writes me) (common_header me str ++ bytes_of 4 parent)
        × Gets
            (read_common_header malloc >>= read_subdir_entry)
            (common_header me str ++ bytes_of 4 parent)
            me
  unfolding flush_entry_subdir
  read_subdir_entry-flush me str parent e d t h = (
    Puts-then (flush_entry_dir writes me) (write_subdir_entry writes me) (common_header me str)
        (bytes_of 4 parent) (flush_entry_dir-Puts writes w me str e (inr t))
        (write_subdir_entry-Puts writes w me parent d t),
    Gets-bind (read_common_header malloc) read_subdir_entry (common_header me str)
        (bytes_of 4 parent) (record me { entry_data = fresh_data (attr_type me.attributes) })
        (read_common_header-Gets malloc m me str e)
        (subst
          (Gets
            (read_subdir_entry (record me { entry_data = fresh_data (attr_type me.attributes) }))
            (bytes_of 4 parent))
          (with_data me d)
          (read_subdir_entry-Gets (record me { entry_data = fresh_data (attr_type me.attributes) })
            parent t (rw t) h)),
  )

  -- The same for the header of a file, with its attributes, name and size: where fwrite and malloc
  -- succeed, what is written at the end of a file is read back from there, whatever comes behind
  -- it.
  pub read_file_entry-write :
      (me : MetaEntry) (str : List ℕ) (data_size : ℕ)
      → IsEntry me str
      → me.entry_data ≡ file data_size
      → attr_type me.attributes ≡ attr_file
      → data_size < 2 ^ 64
      → Puts
          (write_common_header writes me >> write_file_entry writes me)
          (common_header me str ++ bytes_of 8 data_size)
        × Gets
            (read_common_header malloc >>= read_file_entry)
            (common_header me str ++ bytes_of 8 data_size)
            me
  read_file_entry-write me str data_size e d t h = (
    Puts-then (write_common_header writes me) (write_file_entry writes me) (common_header me str)
        (bytes_of 8 data_size) (write_common_header-Puts writes w me str e)
        (write_file_entry-Puts writes w me data_size d t),
    Gets-bind (read_common_header malloc) read_file_entry (common_header me str)
        (bytes_of 8 data_size) (record me { entry_data = fresh_data (attr_type me.attributes) })
        (read_common_header-Gets malloc m me str e)
        (subst
          (Gets (read_file_entry (record me { entry_data = fresh_data (attr_type me.attributes) }))
            (bytes_of 8 data_size))
          (with_data me d)
          (read_file_entry-Gets (record me { entry_data = fresh_data (attr_type me.attributes) })
            data_size t (rw t) h)),
  )
