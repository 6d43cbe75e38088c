-- ===== src/Io/Chunks/Attributes.antt =====
-- What bra_io_file_chunks_compress_file of src/io/lib_bra_io_file_chunks.c does to an entry's
-- attributes.
use Prim.Native.Nat.{Ordering}
use br_archive.Prelude.{
  ℕ, zero, suc, ◌+◌, ◌*◌, ◌/◌, ◌%◌, ◌^◌, ltb, some, if◌then◌else◌, ◌-◌, ◌≡◌, ◌⊎◌, inl, inr, Bool,
  Bool-cases, true, false, List, [], ◌==◌, ◌&&◌, leb,
}
use br_archive.Prelude.Actions.{pure, on_failure, lift, zoom, endless, Action, ◌>>=◌, ◌>>◌}
use br_archive.Prelude.Leaving.{
  Leaves, weaken-Leaves, ok-Leaves, refused-Leaves, if-Leaves, endless-Leaves, invalid-Leaves,
  >>=-Leaves, >>-Leaves, on_failure-Leaves, lift-Leaves, zoom-Leaves,
}
use br_archive.Io.{File, Offset, Origin, open_at, file_read, file_write, file_tell, file_seek}
use br_archive.Io.Words.{bytes_of}
use br_archive.Io.Entries.{MetaEntry, file, attr_comp, write_file_entry, set_comp, comp_stored}
use br_archive.Io.Chunks.{max_chunk_size, header_memory, write_header}
use br_archive.Io.Chunks.Codec.{compress_chunk}
use br_archive.Io.Chunks.Copy.{Transfer, bra_min, copy_file}
use br_archive.Io.Chunks.Files.{
  Compression, open_dst, from_tmp, set_entry, store_entry, close_tmpfile, finish_compression,
  on_tmp, close_all, close_tmp, compress_loop, append_compressed, compress_file,
}
use br_archive.Crc32c.{crc32c_table, crc32c_combine}

module _ (sort : (ℕ → ℕ → Ordering) → List ℕ → List ℕ) (malloc writes : ℕ → Bool) (a : ℕ) where
  -- The attributes are as they were.
  abbrev Keeps : Compression → Type 0
  Keeps c = c.me.attributes ≡ a

  abbrev on_src : {A : Type 0} → Action File A → Action Compression A
  on_src = zoom (λ c. c.src) (λ f c. record c { src = f })

  src-Keeps :
      {A : Type 0} (act : Action File A) (c : Compression) → Keeps c → Leaves Keeps (on_src act c)
  src-Keeps act c h = zoom-Leaves Keeps (λ c. c.src) (λ f c. record c { src = f }) act c (λ f. h)

  tmp-Keeps :
      {A : Type 0} (act : Action File A) (c : Compression) → Keeps c → Leaves Keeps (on_tmp act c)
  tmp-Keeps act c h = zoom-Leaves Keeps (λ c. c.tmp) (λ f c. record c { tmp = f }) act c (λ f. h)

  abbrev with_size : ℕ → Action Compression (ℕ × ℕ)
  with_size crc32 = on_tmp file_tell >>= λ tmpfile_size. pure (crc32, tmpfile_size)

  compress_loop-Keeps :
      (fuel left crc32 : ℕ) (c : Compression)
      → Keeps c
      → Leaves Keeps (compress_loop sort malloc writes fuel left crc32 c)
  unfolding compress_loop
  compress_loop-Keeps zero left crc32 c h =
      if-Leaves Keeps (left == 0) (pure crc32) (λ c'. endless) c (ok-Leaves Keeps crc32 c h)
        (endless-Leaves Keeps ℕ)
  compress_loop-Keeps (suc fuel) left crc32 c h =
      if-Leaves Keeps (left == 0) _ _ c (ok-Leaves Keeps crc32 c h) (
        >>=-Leaves Keeps (on_src (file_read (bra_min max_chunk_size left))) _ c
          (src-Keeps (file_read (bra_min max_chunk_size left)) c h)
          λ buf c1 h1.
            >>=-Leaves Keeps (lift (compress_chunk sort malloc buf)) _ c1
              (lift-Leaves Keeps _ c1 h1)
              λ chunk c2 h2.
                >>=-Leaves Keeps
                  (lift (
                    crc32c_combine (crc32c_table (header_memory chunk.header) crc32)
                      (crc32c_table buf 0) (bra_min max_chunk_size left)))
                  _ c2 (lift-Leaves Keeps _ c2 h2)
                  λ combined c3 h3.
                    >>-Leaves Keeps (on_tmp (write_header writes chunk.header)) _ c3
                      (tmp-Keeps (write_header writes chunk.header) c3 h3)
                      λ c4 h4.
                        >>-Leaves Keeps (on_tmp (file_write writes chunk.bytes)) _ c4
                          (tmp-Keeps (file_write writes chunk.bytes) c4 h4)
                          λ c5 h5.
                            compress_loop-Keeps fuel (left - bra_min max_chunk_size left) combined
                              c5 h5)

  abbrev on_dst : {A : Type 0} → Action File A → Action Compression A
  on_dst = zoom (λ c. c.dst) (λ f c. record c { dst = f })

  dst-Keeps :
      {A : Type 0} (act : Action File A) (c : Compression) → Keeps c → Leaves Keeps (on_dst act c)
  dst-Keeps act c h = zoom-Leaves Keeps (λ c. c.dst) (λ f c. record c { dst = f }) act c (λ f. h)

  tmp_source-Keeps :
      {A : Type 0} (act : Action Transfer A) (c : Compression)
      → Keeps c
      → Leaves Keeps (from_tmp act c)
  tmp_source-Keeps act c h =
      zoom-Leaves Keeps (λ c. record { dst = some c.dst; src = c.tmp; me = some c.me })
        (λ t c. record c { dst = open_dst t.dst c.dst; tmp = t.src }) act c (λ t. h)

  append_compressed-Keeps :
      (data_size tmpfile_size crc32 : ℕ) (c : Compression)
      → Keeps c
      → Leaves Keeps (append_compressed sort malloc writes data_size tmpfile_size crc32 c)
  unfolding append_compressed
  append_compressed-Keeps data_size tmpfile_size crc32 c h =
      let num_chunks =
        data_size / max_chunk_size + (if ltb 0 (data_size % max_chunk_size) then 1 else 0) in
      let size_crc = crc32c_table (bytes_of 8 tmpfile_size) c.me.crc32 in
      let combine : Action Compression ℕ =
        lift (crc32c_combine size_crc crc32 ((data_size + num_chunks * 268) % 2 ^ 32)) in
      let entry : ℕ → MetaEntry =
        λ crc. record c.me { entry_data = file tmpfile_size; crc32 = crc } in
      let seek : Action Compression (Unit {0}) =
        on_tmp (file_seek (Offset.ahead 0) Origin.seek_set) in
      let put : ℕ → Action Compression (Unit {0}) =
        λ crc. set_entry (entry crc) >> on_dst (write_file_entry writes (entry crc)) in
      >>-Leaves Keeps (on_failure close_all (seek >> (combine >>= put))) _ c
        (on_failure-Leaves Keeps close_all (seek >> (combine >>= put)) c (λ c1 h1. h1)
          (>>-Leaves Keeps seek (combine >>= put) c
            (tmp-Keeps (file_seek (Offset.ahead 0) Origin.seek_set) c h)
            λ c1 h1. >>=-Leaves Keeps combine put c1 (lift-Leaves Keeps _ c1 h1) λ crc c2 h2.
              dst-Keeps (write_file_entry writes (entry crc)) (record c2 { me = entry crc }) h))
        λ c3 h3. tmp_source-Keeps (copy_file writes false true tmpfile_size) c3 h3

  -- The attributes are as they were, or changed to those of a stored file.
  abbrev pub KeepsOrStores : Compression → Type 0
  KeepsOrStores c = (c.me.attributes ≡ a) ⊎ (c.me.attributes ≡ set_comp a comp_stored)

  finish_compression-KeepsOrStores :
      (data_size crc32 tmpfile_size : ℕ) (c : Compression)
      → Keeps c
      → Leaves KeepsOrStores
          (finish_compression sort malloc writes data_size (crc32, tmpfile_size) c)
  finish_compression-KeepsOrStores data_size crc32 tmpfile_size c h =
      let append : Action Compression (Unit {0}) =
        on_failure close_tmp (append_compressed sort malloc writes data_size tmpfile_size crc32) in
      let stored : c.me.attributes - attr_comp c.me.attributes + 0 ≡ set_comp a comp_stored =
        rw h in
      if-Leaves KeepsOrStores (leb data_size tmpfile_size) store_entry (append >> close_tmpfile) c
        (refused-Leaves KeepsOrStores (Unit {0}) _ (inr stored))
        (weaken-Leaves Keeps KeepsOrStores (λ c'. inl) append (λ u. close_tmpfile) c
          (on_failure-Leaves Keeps close_tmp
            (append_compressed sort malloc writes data_size tmpfile_size crc32) c (λ c1 h1. h1)
            (append_compressed-Keeps data_size tmpfile_size crc32 c h))
          (λ u c1 h1. ok-Leaves KeepsOrStores tt (close_tmp c1) (inl h1)))

  compress-Keeps :
      (data_size : ℕ) (c : Compression)
      → Keeps c
      → Leaves Keeps (
          on_failure close_all
            (compress_loop sort malloc writes data_size data_size 0 >>= with_size)
            c)
  compress-Keeps data_size c h =
      on_failure-Leaves Keeps close_all
        (compress_loop sort malloc writes data_size data_size 0 >>= with_size) c (λ c1 h1. h1)
        (>>=-Leaves Keeps (compress_loop sort malloc writes data_size data_size 0) with_size c
          (compress_loop-Keeps data_size data_size 0 c h)
          λ crc32 c1 h1.
            >>=-Leaves Keeps (on_tmp file_tell) (λ n. pure (crc32, n)) c1
              (tmp-Keeps file_tell c1 h1) λ n c2 h2. ok-Leaves Keeps (crc32, n) c2 h2)

  run-KeepsOrStores :
      (data_size : ℕ) (c : Compression)
      → Keeps c
      → Leaves KeepsOrStores (
          (on_failure close_all
                (compress_loop sort malloc writes data_size data_size 0 >>= with_size)
              >>= finish_compression sort malloc writes data_size)
            c)
  run-KeepsOrStores data_size c h =
      weaken-Leaves Keeps KeepsOrStores (λ c'. inl)
        (on_failure close_all
          (compress_loop sort malloc writes data_size data_size 0 >>= with_size))
        (finish_compression sort malloc writes data_size) c (compress-Keeps data_size c h)
        (λ p c1 h1. finish_compression-KeepsOrStores data_size p.0 p.1 c1 h1)

  pub compress_file-KeepsOrStores :
      (initialized tmp_opens : Bool) (data_size : ℕ) (c : Compression)
      → c.me.attributes ≡ a
      → Leaves KeepsOrStores (compress_file sort malloc writes initialized tmp_opens data_size c)
  unfolding compress_file
  compress_file-KeepsOrStores initialized tmp_opens data_size c h =
      elim (Bool-cases (c.dst.is_open && c.src.is_open)) [
        | inr closed ↦ rw closed (invalid-Leaves KeepsOrStores (Unit {0}))
        | inl are_open ↦ elim (Bool-cases (initialized && tmp_opens)) [
          | inr not_ready ↦
              rw (are_open, not_ready) (refused-Leaves KeepsOrStores (Unit {0}) c (inl h))
          | inl ready ↦
              rw (are_open, ready)
                (run-KeepsOrStores data_size (record c { tmp = open_at [] [] }) h)
        ]
      ]
