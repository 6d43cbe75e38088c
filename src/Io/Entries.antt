-- ===== src/Io/Entries.antt =====
-- Meta data entries: src/lib_bra.c, the part about entries, and the functions of
-- src/io/lib_bra_io_file_meta_entries.c that read and write them. An entry's _compression_ratio, a
-- float that is only printed, is left out.
pub mod Format
pub mod RoundTrip
pub mod Flush
pub mod FlushLaws
pub mod FlushAgain
pub mod FlushRounds
use br_archive.Prelude.{
  ℕ, ◌+◌, ◌-◌, ◌%◌, ◌^◌, ◌*◌, Bool, true, false, Option, none, some, List, [], ◌∷◌, ◌++◌, length,
  take, drop, ltb, ◌==◌, ◌||◌, if◌then◌else◌,
}
use br_archive.Prelude.Actions.{
  Action, Step, ok, refused, invalid, endless, pure, refuse, check, assert, ◌>>=◌, ◌>>◌,
}
use br_archive.Io.{File, or_close, refuse_closed, close, assert_file, file_read, file_write}
use br_archive.Io.Words.{little_endian, bytes_of, c_string}
use Prim.Native.Nat.{bit_and}

-- BRA_ATTR_TYPE_FILE and its like.
abbrev pub attr_file : ℕ
attr_file = 0

abbrev pub attr_dir : ℕ
attr_dir = 1

abbrev pub attr_sym : ℕ
attr_sym = 2

abbrev pub attr_subdir : ℕ
attr_subdir = 3

-- The two lowest bits, BRA_ATTR_TYPE_MASK, and the two above them, BRA_ATTR_COMP_MASK.
abbrev pub attr_type : ℕ → ℕ
attr_type attributes = attributes % 4

abbrev pub attr_comp : ℕ → ℕ
attr_comp attributes = attributes % 16 - attributes % 4

-- BRA_ATTR_SET_TYPE and BRA_ATTR_SET_COMP.
abbrev pub set_type : ℕ → ℕ → ℕ
set_type attributes type = attributes - attr_type attributes + attr_type type

abbrev pub set_comp : ℕ → ℕ → ℕ
set_comp attributes comp = attributes - attr_comp attributes + attr_comp comp

abbrev pub comp_stored : ℕ
comp_stored = 0

abbrev pub comp_compressed : ℕ
comp_compressed = 4

-- What `entry_data` points to.
pub data EntryData : Type 0 where
  null : EntryData
  file : ℕ → EntryData
  subdir : ℕ → EntryData

-- bra_meta_entry_t; `name` is the string up to its NUL.
pub record MetaEntry : Type 0 where
  pub attributes : ℕ
  pub name_size : ℕ
  pub name : Option (List ℕ)
  pub entry_data : EntryData
  pub crc32 : ℕ

-- `{0}`.
abbrev pub no_entry : MetaEntry
no_entry = record { attributes = 0; name_size = 0; name = none; entry_data = null; crc32 = 0 }

-- bra_meta_entry_free.
unfoldable pub meta_entry_free : MetaEntry → MetaEntry
meta_entry_free me = no_entry

-- bra_meta_entry_init, `none` where it returns false. What malloc leaves in the entry's data is set
-- before it is read, and is 0 here.
module _ (malloc : ℕ → Bool) where
  unfoldable pub meta_entry_init : ℕ → Option (List ℕ) → ℕ → Option MetaEntry
  meta_entry_init attr filename filename_size =
      let made : EntryData → MetaEntry = λ entry_data. record {
        attributes = attr;
        name_size = filename_size;
        name = filename;
        entry_data = entry_data;
        crc32 = 0;
      } in
      let named : EntryData → Option MetaEntry = λ entry_data. elim filename [
        | none ↦ some (made entry_data)
        | some str ↦ if malloc (length str + 1) then some (made entry_data) else none
      ] in
      if attr_type attr == attr_file
      then (if malloc 8 then named (file 0) else none)
      else if attr_type attr == attr_subdir
      then (if malloc 4 then named (subdir 0) else none)
      else named null

-- bra_meta_entry_file_set and bra_meta_entry_subdir_set, over the asserted data.
unfoldable pub meta_entry_file_set : MetaEntry → ℕ → Option MetaEntry
meta_entry_file_set me data_size =
    if attr_type me.attributes == attr_file
    then some (record me { entry_data = file data_size })
    else none

unfoldable pub meta_entry_subdir_set : MetaEntry → ℕ → Option MetaEntry
meta_entry_subdir_set me parent_index =
    if attr_type me.attributes == attr_subdir
    then some (record me { entry_data = subdir parent_index })
    else none

abbrev pub has_data : MetaEntry → Bool
has_data me = elim me.entry_data [ null ↦ false | _ ↦ true ]

abbrev or_refuse_closed : {A : Type 0} → Option A → Action File A
or_refuse_closed none = refuse_closed
or_refuse_closed (some a) = pure a

module _ (malloc : ℕ → Bool) where
  -- From the name on.
  unfoldable pub read_name : List ℕ → List ℕ → Action File MetaEntry
  unfolding meta_entry_init
  read_name attr buf_size =
      let named = (do
        buf ← or_close (file_read (little_endian buf_size))
        or_refuse_closed (
            meta_entry_init malloc (little_endian attr) (some (c_string buf))
              (little_endian buf_size))) in
      if little_endian buf_size == 0 then refuse_closed else named

  unfoldable pub read_common_header : Action File MetaEntry
  unfolding read_name
  read_common_header = do
    attr ← or_close (file_read 1)
    buf_size ← or_close (file_read 1)
    read_name attr buf_size

-- The entry's `name_size` bytes from `name` on; past the string's NUL they are outside the object.
abbrev pub name_bytes : MetaEntry → Option (List ℕ)
name_bytes me = elim me.name [
  | none ↦ none
  | some str ↦
      if ltb (length str + 1) me.name_size then none else some (take me.name_size (str ++ (0 ∷ [])))
]

module _ (writes : ℕ → Bool) where
  abbrev pub fwrite_all : Option (List ℕ) → Action File (Unit {0})
  fwrite_all none f = invalid
  fwrite_all (some buf) f = file_write writes buf f

  unfoldable pub write_name : MetaEntry → Action File (Unit {0})
  write_name me = fwrite_all (name_bytes me)

  unfoldable pub write_common_header : MetaEntry → Action File (Unit {0})
  unfolding write_name
  write_common_header me =
      file_write writes (me.attributes ∷ [])
      >> file_write writes (me.name_size ∷ [])
      >> write_name me

-- The size of a file entry, and the parent of a directory's.
unfoldable pub read_file_entry : MetaEntry → Action File MetaEntry
unfolding meta_entry_file_set
read_file_entry me =
    assert_file
    >> assert (has_data me)
    >> or_refuse_closed (meta_entry_file_set me 0)
    >> (file_read 8 >>= λ word. pure (record me { entry_data = file (little_endian word) }))

unfoldable pub read_subdir_entry : MetaEntry → Action File MetaEntry
unfolding meta_entry_subdir_set
read_subdir_entry me =
    assert_file
    >> assert (has_data me)
    >> or_refuse_closed (meta_entry_subdir_set me 0)
    >> (file_read 4 >>= λ word. pure (record me { entry_data = subdir (little_endian word) }))

module _ (writes : ℕ → Bool) where
  unfoldable pub write_file_entry : MetaEntry → Action File (Unit {0})
  write_file_entry me =
      let size : Action File (Unit {0}) = elim me.entry_data [
        | file data_size ↦ file_write writes (bytes_of 8 data_size)
        | _ ↦ (λ f. invalid)
      ] in
      assert_file
      >> assert (has_data me)
      >> (if attr_type me.attributes == attr_file then size else refuse_closed)

  unfoldable pub write_subdir_entry : MetaEntry → Action File (Unit {0})
  write_subdir_entry me =
      let parent : Action File (Unit {0}) = elim me.entry_data [
        | subdir parent_index ↦ file_write writes (bytes_of 4 parent_index)
        | _ ↦ (λ f. invalid)
      ] in
      assert_file
      >> assert (has_data me)
      >> (if attr_type me.attributes == attr_subdir then parent else refuse_closed)

  unfoldable pub flush_entry_dir : MetaEntry → Action File (Unit {0})
  unfolding write_common_header
  flush_entry_dir me =
      let is_dir = attr_type me.attributes == attr_dir || attr_type me.attributes == attr_subdir in
      assert_file >> (if is_dir then write_common_header writes me else refuse_closed)

  unfoldable pub flush_entry_subdir : MetaEntry → Action File (Unit {0})
  unfolding flush_entry_dir write_subdir_entry
  flush_entry_subdir me = flush_entry_dir me >> write_subdir_entry me
