-- ===== src/Io/Entries/FlushAgain.antt =====
-- With what entry bra_io_file_meta_entry_flush_entry_file of src/io/lib_bra_io_file_meta_entries.c
-- calls itself.
use Prim.Native.Nat.{Ordering}
use br_archive.Prelude.{
  ℕ, ◌≡◌, ◌⊎◌, inl, inr, refl, [], Bool, Bool-cases, List, length, leb, ltb, ◌||◌, ◌==◌,
  if◌then◌else◌, arith,
}
use br_archive.Prelude.Actions.{Action, Step, ok, invalid, refuse, ◌>>=◌, ◌>>◌}
use br_archive.Prelude.Leaving.{
  Leaves, weaken-Leaves, ok-Leaves, invalid-Leaves, on_failure-Leaves, zoom-Leaves, zoom_on-Leaves,
  >>=-replace, recovering-replace,
}
use br_archive.Io.{File, open_at, Offset, Origin, file_seek}
use br_archive.Io.Entries.{
  MetaEntry, EntryData, file, subdir, null, attr_comp, set_comp, comp_stored, comp_compressed,
}
use br_archive.Io.Entries.Flush.{
  Flush, on_archive, close_archive, or_close_archive, data_size_of, from_compression,
  compress_content, write_content,
}
use br_archive.Io.Chunks.Files.{compress_file}
use br_archive.Io.Chunks.Attributes.{KeepsOrStores, compress_file-KeepsOrStores}
use br_archive.FileNames.{compute_header_crc32}

-- The attributes of the entry.
abbrev pub Has : ℕ → Flush → Type 0
Has a s = s.me.attributes ≡ a

pub compute_header_crc32-Leaves :
    (n : ℕ) (filename : List ℕ) (me : MetaEntry)
    → Leaves (λ me'. me'.attributes ≡ me.attributes) (compute_header_crc32 n filename me)
unfolding compute_header_crc32 Leaves
compute_header_crc32-Leaves n filename me = elim (Bool-cases (ltb 65_535 n || n == 0)) [
  | inl wrong ↦ rw wrong refl
  | inr right ↦ elim (Bool-cases (leb n (length filename))) [
    | inl there ↦ rw (right, there) refl
    | inr short ↦ rw (right, short) tt
  ]
]

pub on_archive-Leaves :
    {A : Type 0} (act : Action File A) (P : MetaEntry → Type 0) (s : Flush)
    → P s.me
    → Leaves (λ s'. P s'.me) (on_archive act s)
on_archive-Leaves act P s h =
    zoom-Leaves (λ s'. P s'.me) (λ s. s.f) (λ f s. record s { f = f }) act s (λ f. h)

data_size_of-Leaves :
    (P : Flush → Type 0) (me : MetaEntry) (s : Flush) → P s → Leaves P (data_size_of me s)
data_size_of-Leaves P me s h =
    elim me.entry_data
      as (λ d. Leaves P (elim d as (λ (x : EntryData). Step Flush ℕ) [
        | file n ↦ ok n s
        | subdir p ↦ invalid
        | null ↦ invalid
      ])) [ file n ↦ ok-Leaves P n s h | subdir p ↦ invalid-Leaves P ℕ | null ↦ invalid-Leaves P ℕ ]

attr_comp-set_comp : (a : ℕ) → attr_comp (set_comp a comp_stored) ≡ 0
attr_comp-set_comp a = omega arith

module _ (sort : (ℕ → ℕ → Ordering) → List ℕ → List ℕ) (malloc writes : ℕ → Bool)
    (initialized tmp_opens : Bool) where
  -- Where the entry is not to be compressed, the content is written without a further call.
  pub stored_content :
      (again other : Action Flush (Unit {0})) (pos : ℕ) (bytes : List ℕ) (s : Flush)
      → attr_comp s.me.attributes ≡ 0
      → write_content sort malloc writes initialized tmp_opens again pos bytes s
        ≡ write_content sort malloc writes initialized tmp_opens other pos bytes s
  unfolding write_content
  stored_content again other pos bytes s e = rw e

  compressed-Leaves :
      (bytes : List ℕ) (s : Flush)
      → Leaves
          (λ s'.
            (s'.me.attributes ≡ s.me.attributes)
            ⊎ (s'.me.attributes ≡ set_comp s.me.attributes comp_stored))
          ((data_size_of s.me >>= λ n.
              from_compression bytes (compress_file sort malloc writes initialized tmp_opens n))
            s)
  compressed-Leaves bytes s =
      weaken-Leaves (Has s.me.attributes)
        (λ s'.
          (s'.me.attributes ≡ s.me.attributes)
          ⊎ (s'.me.attributes ≡ set_comp s.me.attributes comp_stored))
        (λ s'. inl) (data_size_of s.me)
        (λ n. from_compression bytes (compress_file sort malloc writes initialized tmp_opens n)) s
        (data_size_of-Leaves (Has s.me.attributes) s.me s refl)
        λ n s1 h1.
          zoom_on-Leaves
            (λ s'.
              (s'.me.attributes ≡ s.me.attributes)
              ⊎ (s'.me.attributes ≡ set_comp s.me.attributes comp_stored))
            (KeepsOrStores sort malloc writes s.me.attributes)
            (λ s. record { dst = s.f; src = open_at [] bytes; tmp = open_at [] []; me = s.me })
            (λ c s. record { f = c.dst; me = c.me })
            (compress_file sort malloc writes initialized tmp_opens n) s1 (λ c h. h)
            (compress_file-KeepsOrStores sort malloc writes s.me.attributes initialized tmp_opens n
              (record { dst = s1.f; src = open_at [] bytes; tmp = open_at [] []; me = s1.me }) h1)

  -- The call after a compression that did not pay has the entry not to be compressed.
  compress_again :
      (again other : Action Flush (Unit {0})) (pos : ℕ) (bytes : List ℕ) (s : Flush)
      → ((s' : Flush) → attr_comp s'.me.attributes ≡ 0 → again s' ≡ other s')
      → compress_content sort malloc writes initialized tmp_opens again pos bytes s
        ≡ compress_content sort malloc writes initialized tmp_opens other pos bytes s
  unfolding compress_content
  compress_again again other pos bytes s same =
      let seek : Action Flush (Unit {0}) =
        or_close_archive (on_archive (file_seek (Offset.ahead pos) Origin.seek_set)) in
      let retry : Action Flush (Unit {0}) → Action Flush (Unit {0}) = λ call s'.
        if s'.me.attributes == s.me.attributes
        then or_close_archive refuse s'
        else ((seek >> call) s') in
      recovering-replace
        (λ s'.
          (s'.me.attributes ≡ s.me.attributes)
          ⊎ (s'.me.attributes ≡ set_comp s.me.attributes comp_stored))
        ((data_size_of s.me >>= λ n.
            from_compression bytes (compress_file sort malloc writes initialized tmp_opens n))
          s)
        (retry again) (retry other) (compressed-Leaves bytes s)
        λ s' h. elim (Bool-cases (s'.me.attributes == s.me.attributes)) [
          | inl equal ↦ rw equal
          | inr differs ↦
              let changed : s'.me.attributes ≡ set_comp s.me.attributes comp_stored =
                ground (arith, h, differs) in
              let stored : attr_comp s'.me.attributes ≡ 0 =
                rw changed (attr_comp-set_comp s.me.attributes) in
              rw differs (
                >>=-replace (λ s1. attr_comp s1.me.attributes ≡ 0) seek (λ u. again) (λ u. other) s'
                  (on_failure-Leaves (λ s1. attr_comp s1.me.attributes ≡ 0) close_archive
                    (on_archive (file_seek (Offset.ahead pos) Origin.seek_set)) s' (λ s1 h1. h1)
                    (on_archive-Leaves (file_seek (Offset.ahead pos) Origin.seek_set)
                      (λ me. attr_comp me.attributes ≡ 0) s' stored))
                  (λ u s1 h1. same s1 h1))
        ]

  pub write_again :
      (again other : Action Flush (Unit {0})) (pos : ℕ) (bytes : List ℕ) (s : Flush)
      → ((s' : Flush) → attr_comp s'.me.attributes ≡ 0 → again s' ≡ other s')
      → write_content sort malloc writes initialized tmp_opens again pos bytes s
        ≡ write_content sort malloc writes initialized tmp_opens other pos bytes s
  unfolding write_content
  write_again again other pos bytes s same =
      elim (Bool-cases (attr_comp s.me.attributes == comp_stored)) [
        | inl stored ↦ rw stored
        | inr packed ↦ elim (Bool-cases (attr_comp s.me.attributes == comp_compressed)) [
          | inl compressed ↦ rw (packed, compressed) (compress_again again other pos bytes s same)
          | inr unknown ↦ rw (packed, unknown)
        ]
      ]
