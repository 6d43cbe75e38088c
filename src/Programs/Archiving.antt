-- ===== src/Programs/Archiving.antt =====
-- What src/prog/bra.cpp writes of files of the top directory that are stored.
use Prim.Native.Nat.{Ordering}
use br_archive.Prelude.{
  ℕ, ◌≡◌, ◌<◌, sym, Bool, true, false, some, none, List, [], ◌∷◌, ◌++◌, length, All, arith,
  length-append,
}
use br_archive.Prelude.Actions.{ok}
use br_archive.Archive.{Ctx, close_f, ctx_close}
use br_archive.Archive.Encoding.{at_end, archived, encode_stored}
use br_archive.Archive.Decoding.Many.{Item, IsItem, entries}
use br_archive.Archive.Headers.{header, ctx_write_header_lem}
use br_archive.Archive.SelfExtracting.{opened, ctx_open_lem}
use br_archive.Io.{close}
use br_archive.TreeDir.{destroy, destroy_siblings}
use br_archive.Fs.{FileSystem, regular, try_sanitize}
use br_archive.Fs.Files.{size_of}
use br_archive.Programs.Bra.{Bra, run_encode, encode_files, encode_tree, run_prog}
use mathlib.Core.List.{append_assoc, append-nil}

-- The name of an item, and where it is on the disk.
abbrev pub names : List Item → List (List ℕ)
names [] = []
names ((name, content) ∷ items) = name ∷ names items

pub record IsOnDisk (F : FileSystem) (disk : F.State) (item : Item) : Type 0 where
  pub path : try_sanitize F disk (F.paths.join [] item.0) ≡ some item.0
  pub kind : F.status disk item.0 ≡ some regular
  pub size : size_of F disk item.0 ≡ some (length item.1)
  pub found : F.read_file disk item.0 ≡ some item.1

module _ (F : FileSystem) (sort : (ℕ → ℕ → Ordering) → List ℕ → List ℕ) (malloc writes : ℕ → Bool)
    (tmp_opens : Bool) (m : (n : ℕ) → malloc n ≡ true) (w : (n : ℕ) → writes n ≡ true)
    (disk : F.State) where
  abbrev bra_at : Ctx → List ℕ → Bra F
  bra_at c before = record { ctx = at_end c [] before; disk = disk }

  run_encode_lem :
      (c : Ctx) (before : List ℕ) (item : Item)
      → 0 < length before
      → IsItem item
      → IsOnDisk F disk item
      → run_encode F sort malloc writes true tmp_opens false
          (F.paths.join [] item.0)
          (bra_at c before)
        ≡ ok tt (bra_at c (before ++ archived item.0 item.0 item.1))
  unfolding run_encode
  run_encode_lem c before item start v there =
      let step =
        encode_stored sort malloc writes tmp_opens m w c [] item.0 item.1 before v.named v.bytes
          start F disk there.kind there.size there.found in
      rw (there.path, step, run_encode)

  encode_files_lem :
      (c : Ctx) (items : List Item) (before : List ℕ)
      → 0 < length before
      → All IsItem items
      → All (IsOnDisk F disk) items
      → encode_files F sort malloc writes true tmp_opens false [] (names items) (bra_at c before)
        ≡ ok tt (bra_at c (before ++ entries items))
  unfolding encode_files
  encode_files_lem c [] before start v there = λ i. ok tt (bra_at c (sym (append-nil before) i))
  encode_files_lem c (item ∷ items) before start v there =
      let put = archived item.0 item.0 item.1 in
      let longer : 0 < length (before ++ put) = omega (arith, length-append before put) in
      rw
        (
          run_encode_lem c before item start v.0 there.0,
          encode_files_lem c items (before ++ put) longer v.1 there.1,
        )
        (λ i. ok tt (bra_at c (append_assoc before put (entries items) i)))

-- The bytes of the archive of these files.
abbrev pub archive_of : List Item → List ℕ
archive_of items = header (length items) ++ entries items

module _ (F : FileSystem) (sort : (ℕ → ℕ → Ordering) → List ℕ → List ℕ) (malloc writes : ℕ → Bool)
    (tmp_opens : Bool) (m : (n : ℕ) → malloc n ≡ true) (w : (n : ℕ) → writes n ≡ true) where
  pub run_prog_lem :
      (b : Bra F) (disk : F.State) (out_fn : List ℕ) (items : List Item)
      → F.create_file b.disk out_fn ≡ some disk
      → All IsItem items
      → All (IsOnDisk F disk) items
      → (b' : Bra F) × (run_prog F sort malloc writes true tmp_opens false false
            (length items)
            (([], names items) ∷ [])
            out_fn
            b
          ≡ ok 0 b')
        × (b'.disk ≡ F.store_file disk out_fn (archive_of items))
  unfolding run_prog encode_tree ctx_close destroy destroy_siblings close
  run_prog_lem b disk out_fn items created v there =
      let n = length items in
      let start = ctx_open_lem malloc m [] out_fn b.ctx in
      let head = ctx_write_header_lem writes w n opened [] in
      let body =
        encode_files_lem F sort malloc writes tmp_opens m w disk (record opened { num_files = n })
          items (header n) (omega arith) v there in
      let b1 : Bra F = record {
        ctx = at_end (record opened { num_files = n }) [] (archive_of items);
        disk = disk;
      } in
      (
        record {
          ctx = record (close_f b1.ctx) { tree = none; last_dir = none };
          disk = F.store_file disk out_fn (archive_of items ++ []);
        },
        rw (m 16, m 1, created, start, head, body),
        λ i. F.store_file disk out_fn (append-nil (archive_of items) i),
      )
