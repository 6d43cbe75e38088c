-- ===== src/Archive/Tests.antt =====
-- Runs of the functions on archives, and the theorems at concrete inputs.
use Prim.Native.Nat.{Ordering}
use br_archive.Prelude.{
  ℕ, ◌≡◌, ◌≢◌, ◌<◌, ◌≤◌, ◌⊎◌, take, drop, refl, Bool, true, false, some, List, [], ◌∷◌, ◌++◌,
  length, done, arith, IsBytes,
}
use br_archive.Prelude.Actions.{ok, refused}
use br_archive.Io.{open_at}
use br_archive.Io.Sfx.{write_footer}
use br_archive.Io.Footer.{footer}
use br_archive.Io.Entries.{no_entry}
use br_archive.Io.Entries.FlushLaws.{header_crc, stored_bytes, stored_crc}
use br_archive.TreeDir.{Tree, empty_node, root, path_length, reconstruct_path}
use br_archive.FileNames.{validate_filename}
use br_archive.Fs.Files.{size_of}
use br_archive.Fs.Memory.{Disk, memory}
use br_archive.Fs.Overwrite.{ask, always_no, ask_overwrite}
use br_archive.Crc32c.{crc32c_table, crc32c_loop}
use br_archive.Crc32c.Lookup.{lookup_table}
use br_archive.Archive.{
  no_ctx, archive_magic, close_f, ctx_read_header, ctx_write_header,
  sfx_open_and_read_footer_header,
}
use br_archive.Archive.Writing.{encode_and_write_to_disk}
use br_archive.Archive.Extracting.{Session, decode_and_write_to_disk, close_session}
use br_archive.Archive.Encoding.{IsFileName, at_end, archived}
use br_archive.Archive.Decoding.{at_place, at_session}
use br_archive.Archive.Decoding.Stored.{extracted, decode_corrupted}
use br_archive.Archive.Decoding.Skipped.{kept, decode_and_write_to_disk-skips}
use br_archive.Archive.RoundTrip.{decode_and_write_to_disk-encode_and_write_to_disk}
use br_archive.Archive.Headers.{header, ctx_at, magic_in, num_files_in, ctx_read_header_cases}
use br_archive.Archive.SelfExtracting.{
  opened, sfx_file, sfx_open_and_read_footer_header-write_footer,
}

abbrev always : ℕ → Bool
always n = true

abbrev unsorted : (ℕ → ℕ → Ordering) → List ℕ → List ℕ
unsorted cmp xs = xs

abbrev name : List ℕ
name = b'a' ∷ []

abbrev content : List ℕ
content = b'h' ∷ b'i' ∷ []

name-IsFileName : IsFileName [] name
name-IsFileName = record {
  not_empty = omega arith;
  short = omega arith;
  chars = (omega arith, tt);
  path_chars = (omega arith, tt);
  bytes = (omega arith, tt);
  relative = refl;
  sized = omega arith;
}

content-IsBytes : IsBytes content
content-IsBytes = (omega arith, (omega arith, tt))

abbrev empty_tree : Tree
empty_tree = record { nodes = empty_node ∷ []; num_nodes = 1 }

root_path : reconstruct_path always empty_tree.nodes root ≡ done []
unfolding reconstruct_path path_length
root_path = refl

name_valid : validate_filename name 1 ≡ true
unfolding validate_filename
name_valid = refl

abbrev before : List ℕ
before = header 1

abbrev disk : Disk
disk = (name, content) ∷ []

abbrev session : Session memory
session = record {
  archive = record { ctx = no_ctx; me = no_entry };
  disk = [];
  policy = ask;
  input = [];
}

allowed : (ask_overwrite memory [] name ask false []).overwrite ≡ true
unfolding ask_overwrite
allowed = refl

decode_and_write_to_disk-encode_and_write_to_disk_example :
    (bytes : List ℕ) × (encode_and_write_to_disk memory unsorted always always true true name false
        disk
        (at_end opened [] before)
      ≡ ok tt (at_end opened [] (before ++ bytes)))
    × (decode_and_write_to_disk memory always always true [] (
          at_session memory session (at_place opened empty_tree root before (bytes ++ [])) no_entry)
        ≡ ok tt (
            extracted memory session
              ((name, []) ∷ [])
              opened
              empty_tree
              root
              []
              name
              content
              (before ++ bytes)
              []))
unfolding size_of
decode_and_write_to_disk-encode_and_write_to_disk_example =
    decode_and_write_to_disk-encode_and_write_to_disk unsorted always always true [] (λ n. refl)
      (λ n. refl) [] name content name-IsFileName content-IsBytes (omega arith) memory disk refl
      refl refl opened before (omega arith) memory opened empty_tree root session ((name, []) ∷ [])
      root_path name_valid allowed refl no_entry []

abbrev zeros : List ℕ
zeros = 0 ∷ (0 ∷ (0 ∷ (0 ∷ [])))

crc_is : stored_crc 0 name content ≡ 2_398_826_105
unfolding crc32c_table crc32c_loop lookup_table
crc_is = refl

differs : 0 ≢ stored_crc 0 name content
differs = rw crc_is (omega arith)

decode_corrupted_example :
    decode_and_write_to_disk memory always always true [] (
      at_session memory session
        (at_place opened empty_tree root before ((stored_bytes 0 name content ++ zeros) ++ []))
        no_entry)
    ≡ refused (
        close_session memory always always true [] (
          extracted memory session
            ((name, []) ∷ [])
            opened
            empty_tree
            root
            []
            name
            content
            (before ++ (stored_bytes 0 name content ++ zeros))
            []))
decode_corrupted_example =
    decode_corrupted memory always always [] (λ n. refl) (λ n. refl) ((name, []) ∷ []) opened
      empty_tree root [] name content name-IsFileName content-IsBytes (omega arith) root_path
      name_valid session allowed refl no_entry before zeros [] refl differs

abbrev keeping : Session memory
keeping = record session { disk = disk; policy = always_no }

not_allowed : (ask_overwrite memory disk name always_no false []).overwrite ≡ false
unfolding ask_overwrite
not_allowed = refl

decode_and_write_to_disk-skips_example :
    decode_and_write_to_disk memory always always true [] (
      at_session memory keeping
        (at_place opened empty_tree root before (archived name name content ++ []))
        no_entry)
    ≡ ok tt (
        kept memory keeping opened empty_tree root [] name content
          (before ++ archived name name content)
          []
          (header_crc 0 name))
decode_and_write_to_disk-skips_example =
    decode_and_write_to_disk-skips memory always always [] (λ n. refl) opened empty_tree root []
      name content name-IsFileName root_path name_valid keeping not_allowed no_entry before []
      (omega arith)

abbrev program : List ℕ
program = 0x7f ∷ b'E' ∷ b'L' ∷ b'F' ∷ []

sfx_open_and_read_footer_header-write_footer_example :
    (ctx_write_header always 1 (ctx_at no_ctx program [])
      ≡ ok tt (ctx_at (record no_ctx { num_files = 1 }) (program ++ header 1) []))
    × (write_footer always (length program) (open_at ((program ++ header 1) ++ content) [])
        ≡ ok tt (open_at (sfx_file 1 program content) []))
    × (sfx_open_and_read_footer_header always (some (sfx_file 1 program content)) name no_ctx
        ≡ ok 1 (
            ctx_at
              (record opened { num_files = 1 })
              (program ++ header 1)
              (content ++ footer (length program))))
sfx_open_and_read_footer_header-write_footer_example =
    sfx_open_and_read_footer_header-write_footer always always (λ n. refl) (λ n. refl) 1 program
      content name no_ctx no_ctx (omega arith) (omega arith) (omega arith) (omega arith)

-- Too few bytes for a header.
ctx_read_header_cases_example :
    ((length zeros < 8)
      × (ctx_read_header (ctx_at opened [] zeros) ≡ refused (close_f (ctx_at opened [] zeros))))
    ⊎ (((8 ≤ length zeros) × (magic_in zeros ≢ archive_magic))
        × (ctx_read_header (ctx_at opened [] zeros)
            ≡ refused (close_f (ctx_at opened (take 8 zeros) (drop 8 zeros)))))
    ⊎ (((8 ≤ length zeros) × (magic_in zeros ≡ archive_magic))
        × (ctx_read_header (ctx_at opened [] zeros)
            ≡ ok (num_files_in zeros) (
                ctx_at
                  (record opened { num_files = num_files_in zeros })
                  (take 8 zeros)
                  (drop 8 zeros))))
ctx_read_header_cases_example = ctx_read_header_cases opened [] zeros
