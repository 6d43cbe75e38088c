-- ===== src/Archive/RoundTrip.antt =====
-- Writing a file into an archive and extracting it, in src/io/lib_bra_io_file_ctx.c.
use Prim.Native.Nat.{Ordering}
use br_archive.Prelude.{
  ℕ, ◌≡◌, ◌<◌, ◌^◌, Bool, true, false, some, List, ◌++◌, length, done, IsBytes,
}
use br_archive.Prelude.Actions.{ok}
use br_archive.Io.Entries.{MetaEntry}
use br_archive.TreeDir.{Tree, reconstruct_path}
use br_archive.FileNames.{validate_filename}
use br_archive.Fs.{FileSystem, regular}
use br_archive.Fs.Files.{size_of}
use br_archive.Fs.Overwrite.{ask_overwrite}
use br_archive.Archive.{Ctx}
use br_archive.Archive.Writing.{encode_and_write_to_disk}
use br_archive.Archive.Extracting.{Session, decode_and_write_to_disk}
use br_archive.Archive.Encoding.{IsFileName, in_dir, at_end, archived, encode_stored}
use br_archive.Archive.Decoding.{at_place, at_session}
use br_archive.Archive.Decoding.Stored.{extracted, decode_stored}

-- With a malloc and an fwrite that do not fail, the global buffers, a name whose directory is the
-- archive's last one, and a file system with a regular file of this name, size and content below
-- 2^64 bytes: archiving the file as it is puts some bytes at the end of the archive. Extracting
-- from a place where these bytes are, with a node whose path is the directory, a name that is
-- valid, an answer to overwrite and a file that can be created, succeeds: just the content is
-- stored under the full name, the answer's policy and the rest of the input are kept, and the
-- archive is behind the bytes.
pub decode_and_write_to_disk-encode_and_write_to_disk :
    (sort : (ℕ → ℕ → Ordering) → List ℕ → List ℕ) (malloc writes : ℕ → Bool) (tmp_opens : Bool)
    (trans : List ℕ)
    → (m : (n : ℕ) → malloc n ≡ true) → (w : (n : ℕ) → writes n ≡ true)
    → (dir name content : List ℕ) → IsFileName dir name
    → IsBytes content
    → length content < 2 ^ 64
    → (F : FileSystem) (disk : F.State) → F.status disk (in_dir dir name) ≡ some regular
    → size_of F disk (in_dir dir name) ≡ some (length content)
    → F.read_file disk (in_dir dir name) ≡ some content
    → (c : Ctx) (before : List ℕ) → 0 < length before
    → (G : FileSystem) (c' : Ctx) (tree : Tree) (node : ℕ) (s : Session G) (disk' : G.State)
    → reconstruct_path malloc tree.nodes node ≡ done dir
    → validate_filename (in_dir dir name) (length (in_dir dir name)) ≡ true
    → (ask_overwrite G s.disk (in_dir dir name) s.policy false s.input).overwrite ≡ true
    → G.create_file s.disk (in_dir dir name) ≡ some disk'
    → (me : MetaEntry) (rest : List ℕ)
    → (bytes : List ℕ) × (encode_and_write_to_disk F sort malloc writes true tmp_opens
          (in_dir dir name)
          false
          disk
          (at_end c dir before)
        ≡ ok tt (at_end c dir (before ++ bytes)))
      × (decode_and_write_to_disk G malloc writes true trans
            (at_session G s (at_place c' tree node before (bytes ++ rest)) me)
          ≡ ok tt (extracted G s disk' c' tree node dir name content (before ++ bytes) rest))
decode_and_write_to_disk-encode_and_write_to_disk sort malloc writes tmp_opens trans m w dir name
      content v cb fits F disk kind size found c before start G c' tree node s disk' path valid
      allowed created me rest =
    (
      archived name (in_dir dir name) content,
      encode_stored sort malloc writes tmp_opens m w c dir name content before v cb start F disk
          kind size found,
      decode_stored G malloc writes trans m w disk' c' tree node dir name content v cb fits path
          valid s allowed created me before rest,
    )
