-- ===== src/Io/Chunks/Copy.antt =====
-- bra_io_file_chunks_copy_file of src/io/lib_bra_io_file_chunks.c. The checksum is the table
-- version of CRC-32C; on x86-64 the other one computes the same.
use br_archive.Prelude.{
  ℕ, zero, suc, ◌-◌, Bool, true, false, not, ◌&&◌, Option, none, some, List, ltb, ◌==◌,
  if◌then◌else◌,
}
use br_archive.Prelude.Actions.{
  Action, ok, refused, invalid, endless, pure, on_failure, zoom, ◌>>=◌, ◌>>◌,
}
use br_archive.Io.{File, close, file_read, file_write}
use br_archive.Io.Entries.{MetaEntry}
use br_archive.Io.Chunks.{max_chunk_size}
use br_archive.Crc32c.{crc32c_table}

-- The files and the entry that a function over chunks works on; `dst` and `me` may be NULL.
pub record Transfer : Type 0 where
  pub dst : Option File
  pub src : File
  pub me : Option MetaEntry

abbrev pub close_option : Option File → Option File
close_option none = none
close_option (some f) = some (close f)

-- What is done at the error labels.
abbrev pub close_both : Transfer → Transfer
close_both t = record t { dst = close_option t.dst; src = close t.src }

abbrev pub on_src : {A : Type 0} → Action File A → Action Transfer A
on_src = zoom (λ t. t.src) (λ f t. record t { src = f })

-- `if (dst != NULL)`.
abbrev pub write_to : (ℕ → Bool) → List ℕ → Option File → Action Transfer (Unit {0})
write_to writes buf none = ok tt
write_to writes buf (some f) =
    zoom (λ t. f) (λ f' t. record t { dst = some f' }) (file_write writes buf)

abbrev pub on_dst : (ℕ → Bool) → List ℕ → Action Transfer (Unit {0})
on_dst writes buf t = write_to writes buf t.dst t

abbrev pub with_crc : List ℕ → Option MetaEntry → Option MetaEntry
with_crc bytes none = none
with_crc bytes (some me) = some (record me { crc32 = crc32c_table bytes me.crc32 })

abbrev pub update_crc : List ℕ → Action Transfer (Unit {0})
update_crc bytes t = ok tt (record t { me = with_crc bytes t.me })

-- _bra_min.
abbrev pub bra_min : ℕ → ℕ → ℕ
bra_min a b = if ltb a b then a else b

abbrev pub is_usable : Option File → Bool
is_usable none = true
is_usable (some f) = f.is_open

abbrev pub has_entry : Option MetaEntry → Bool
has_entry none = false
has_entry (some me) = true

module _ (writes : ℕ → Bool) (compute_crc32 : Bool) where
  -- `for (i = 0; i < data_size;)`, with the bytes left; a round takes one at least.
  unfoldable pub copy_loop : ℕ → ℕ → Action Transfer (Unit {0})
  copy_loop zero left = if left == 0 then pure tt else λ t. endless
  copy_loop (suc fuel) left =
      let s = bra_min max_chunk_size left in
      let round = on_src (file_read s) >>= λ buf.
      (if compute_crc32 then update_crc buf else pure tt)
      >> on_dst writes buf
      >> copy_loop fuel (left - s) in
      if left == 0 then pure tt else round

  -- `initialized` says whether g_buf was allocated.
  unfoldable pub copy_file : Bool → ℕ → Action Transfer (Unit {0})
  unfolding copy_loop
  copy_file initialized data_size t =
      let copied = on_failure close_both (copy_loop data_size data_size) t in
      let with_entry =
        if compute_crc32 && not (has_entry t.me) then refused (close_both t) else copied in
      let with_dst = if is_usable t.dst then with_entry else refused (close_both t) in
      let checked = if initialized then with_dst else refused t in
      if t.src.is_open then checked else invalid
