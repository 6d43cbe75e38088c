-- ===== src/Io/Entries/FlushRounds.antt =====
-- How often bra_io_file_meta_entry_flush_entry_file of src/io/lib_bra_io_file_meta_entries.c runs.
use Prim.Native.Nat.{Ordering}
use br_archive.Prelude.{
  ℕ, ◌≡◌, inl, inr, refl, ◌∙◌, Bool, Bool-cases, Option, none, some, List, length, ltb, ◌==◌,
}
use br_archive.Prelude.Actions.{Action, ok, refused, endless, check, get_state, ◌>>◌}
use br_archive.Prelude.Leaving.{
  Leaves, >>-Leaves, ok-Leaves, refused-Leaves, if-Leaves, on_failure-Leaves, zoom_on-Leaves,
  >>=-replace,
}
use br_archive.Io.{assert_file, file_tell}
use br_archive.Io.Entries.{attr_type, attr_file, attr_comp, write_common_header}
use br_archive.Io.Entries.Flush.{
  Flush, on_archive, on_entry, close_archive, or_close_archive, write_content, flush_round,
  flush_entry_file,
}
use br_archive.FileNames.{compute_header_crc32}
use br_archive.Io.Entries.FlushAgain.{
  Has, compute_header_crc32-Leaves, on_archive-Leaves, stored_content, write_again,
}

module _ (sort : (ℕ → ℕ → Ordering) → List ℕ → List ℕ) (malloc writes : ℕ → Bool)
    (initialized tmp_opens : Bool) where
  -- Rounds with the same way of writing the content do the same.
  flush_round-replace :
      (again other : Action Flush (Unit {0})) (found : Option (List ℕ)) (filename : List ℕ)
      (s : Flush)
      → ((pos : ℕ) (bytes : List ℕ) (s' : Flush)
          → s'.me.attributes ≡ s.me.attributes
          → write_content sort malloc writes initialized tmp_opens again pos bytes s'
            ≡ write_content sort malloc writes initialized tmp_opens other pos bytes s')
      → flush_round sort malloc writes initialized tmp_opens again found filename s
        ≡ flush_round sort malloc writes initialized tmp_opens other found filename s
  unfolding flush_round
  flush_round-replace again other none filename s same = refl
  flush_round-replace again other (some bytes) filename s same =
      let a = s.me.attributes in
      let P : Flush → Type 0 = Has a in
      let header : Action Flush (Unit {0}) =
        or_close_archive (on_entry (compute_header_crc32 (length filename) filename)) in
      let header-P : (s1 : Flush) → P s1 → Leaves P (header s1) = λ s1 h1.
        on_failure-Leaves P close_archive
          (on_entry (compute_header_crc32 (length filename) filename)) s1 (λ s' h. h)
          (zoom_on-Leaves P (λ me. me.attributes ≡ s1.me.attributes) (λ s. s.me)
            (λ me s. record s { me = me }) (compute_header_crc32 (length filename) filename) s1
            (λ me h. h ∙ h1) (compute_header_crc32-Leaves (length filename) filename s1.me)) in
      let tell : Action Flush ℕ = on_archive file_tell in
      let behind : ℕ → Action Flush (Unit {0}) =
        λ me_pos. or_close_archive (check (ltb 0 me_pos)) in
      let behind-P : (me_pos : ℕ) (s1 : Flush) → P s1 → Leaves P (behind me_pos s1) =
        λ me_pos s1 h1.
          on_failure-Leaves P close_archive (check (ltb 0 me_pos)) s1 (λ s' h. h)
            (if-Leaves P (ltb 0 me_pos) (ok tt) refused s1 (ok-Leaves P tt s1 h1)
              (refused-Leaves P (Unit {0}) s1 h1)) in
      let body-same = λ (s1 : Flush) (h1 : P s1).
        >>=-replace P header _ _ s1 (header-P s1 h1) λ u s2 h2.
          >>=-replace P tell _ _ s2 (on_archive-Leaves file_tell (λ me. me.attributes ≡ a) s2 h2)
            λ me_pos s3 h3. >>=-replace P (behind me_pos) _ _ s3 (behind-P me_pos s3 h3) λ u' s4 h4.
              >>=-replace P get_state _ _ s4 (ok-Leaves P s4 s4 h4) λ s4' s5 h5.
                >>=-replace P (on_archive (write_common_header writes s4'.me))
                  (λ u. write_content sort malloc writes initialized tmp_opens again me_pos bytes)
                  (λ u. write_content sort malloc writes initialized tmp_opens other me_pos bytes)
                  s5
                  (on_archive-Leaves (write_common_header writes s4'.me) (λ me. me.attributes ≡ a)
                    s5 h5)
                  λ u'' s6 h6. same me_pos bytes s6 h6 in
      let opens : Action Flush Flush = on_archive assert_file >> get_state in
      >>=-replace P opens _ _ s
        (>>-Leaves P (on_archive assert_file) get_state s
          (on_archive-Leaves assert_file (λ me. me.attributes ≡ a) s refl)
          (λ s1 h1. ok-Leaves P s1 s1 h1))
        λ s1' s1 h1. elim (Bool-cases (attr_type s1'.me.attributes == attr_file)) [
          | inl as_file ↦ rw as_file (body-same s1 h1)
          | inr wrong ↦ rw wrong
        ]

  stored_round :
      (again other : Action Flush (Unit {0})) (found : Option (List ℕ)) (filename : List ℕ)
      (s : Flush)
      → attr_comp s.me.attributes ≡ 0
      → flush_round sort malloc writes initialized tmp_opens again found filename s
        ≡ flush_round sort malloc writes initialized tmp_opens other found filename s
  stored_round again other found filename s stored =
      flush_round-replace again other found filename s λ pos bytes s' e.
        stored_content sort malloc writes initialized tmp_opens again other pos bytes s'
          (rw e stored)

  -- The function ends after two rounds at most: from any state, two rounds give what
  -- flush_entry_file with 2 rounds gives, whatever a third call in the second round would do.
  pub flush_entry_file-flush_round :
      (other : Action Flush (Unit {0})) (found : Option (List ℕ)) (filename : List ℕ) (s : Flush)
      → flush_round sort malloc writes initialized tmp_opens
          (flush_round sort malloc writes initialized tmp_opens other found filename)
          found
          filename
          s
        ≡ flush_entry_file sort malloc writes initialized tmp_opens 2 found filename s
  unfolding flush_entry_file
  flush_entry_file-flush_round other found filename s =
      flush_round-replace
        (flush_round sort malloc writes initialized tmp_opens other found filename)
        (flush_entry_file sort malloc writes initialized tmp_opens 1 found filename) found filename
        s
        λ pos bytes s' e.
          write_again sort malloc writes initialized tmp_opens _ _ pos bytes s'
            λ s1 stored. stored_round other (λ s2. endless) found filename s1 stored
