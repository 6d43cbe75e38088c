-- ===== src/Crc32c/Sse/Laws.antt =====
-- When the SSE4.2 version of src/utils/lib_bra_crc32c.c computes the CRC of the table version.
use Prim.Native.Nat.{bit_and}
use br_archive.Prelude.{
  ℕ, ◌+◌, ◌≤◌, ◌<◌, ◌≡◌, refl, sym, ap, ◌∙◌, inl, inr, ◌⊎◌, true, false, List, [], ◌∷◌, length,
  take, drop, leb, ◌==◌, IsBytes, All-take, All-drop, length-take, length-drop, take-append-drop,
  Bool-cases, arith,
}
use br_archive.Crc32c.{not32, crc32c_table}
use br_archive.Crc32c.Bitwise.{bytes_step, bytes_step-append, reference, crc32c_table-reference}
use br_archive.Crc32c.Sse.{
  Intrinsics, IsDocumented, State, little_endian, align_loop, words_loop, four_bytes, two_bytes,
  last_byte, crc32c_sse42,
}

-- The register after all that remains.
abbrev final : State → ℕ
final s = bytes_step s.remaining s.crc

module _ (i : Intrinsics) where
  four_bytes_shrinks : (s : State) → length s.remaining < 8 → length (four_bytes i s).remaining < 4
  unfolding four_bytes
  four_bytes_shrinks s short = ground (arith, length-drop 4 s.remaining)

  two_bytes_shrinks :
      (s : State)
      → (length (two_bytes i s).remaining ≤ 1)
        ⊎ (length (two_bytes i s).remaining + 2 ≡ length s.remaining)
  unfolding two_bytes
  two_bytes_shrinks s = ground (arith, length-drop 2 s.remaining)

  four_bytes_cons :
      (a b c d : ℕ) (rest : List ℕ) (crc : ℕ)
      → four_bytes i (record { remaining = a ∷ b ∷ c ∷ d ∷ rest; crc = crc })
        ≡ record { remaining = rest; crc = i.crc32_u32 crc (little_endian (a ∷ b ∷ c ∷ d ∷ [])) }
  unfolding four_bytes
  four_bytes_cons a b c d rest crc = ground arith

  two_bytes_cons :
      (a b : ℕ) (rest : List ℕ) (crc : ℕ)
      → two_bytes i (record { remaining = a ∷ b ∷ rest; crc = crc })
        ≡ record { remaining = rest; crc = i.crc32_u16 crc (little_endian (a ∷ b ∷ [])) }
  unfolding two_bytes
  two_bytes_cons a b rest crc = ground arith

  last_byte_cons :
      (a b : ℕ) (rest : List ℕ) (crc : ℕ)
      → last_byte i (record { remaining = a ∷ b ∷ rest; crc = crc }) ≡ crc
  unfolding last_byte
  last_byte_cons a b rest crc = ground arith

module _ (i : Intrinsics) (documented : IsDocumented i) where
  align_loop_lem :
      (mask : ℕ) (bytes : List ℕ) (crc addr : ℕ)
      → IsBytes bytes
      → (final (align_loop i mask bytes crc addr) ≡ bytes_step bytes crc)
        × IsBytes (align_loop i mask bytes crc addr).remaining
  unfolding align_loop
  align_loop_lem mask [] crc addr h = (refl, tt)
  align_loop_lem mask (b ∷ bytes) crc addr h = elim (Bool-cases (bit_and addr mask == 0)) [
    | inl e ↦ rw e (refl, h)
    | inr e ↦
        let ih = align_loop_lem mask bytes (i.crc32_u8 crc b) (addr + 1) h.1 in
        rw e
          (ih.0 ∙ (unfold bytes_step in ap (bytes_step bytes) (documented.on_u8 crc b h.0)), ih.1)
  ]

  words_loop_lem :
      (bytes : List ℕ) (crc : ℕ)
      → IsBytes bytes
      → (final (words_loop i bytes crc) ≡ bytes_step bytes crc)
        × IsBytes (words_loop i bytes crc).remaining
        × (length (words_loop i bytes crc).remaining < 8)
  unfolding words_loop
  words_loop_lem (a ∷ b ∷ c ∷ d ∷ e ∷ f ∷ g ∷ h ∷ rest) crc p =
      let word = a ∷ b ∷ c ∷ d ∷ e ∷ f ∷ g ∷ h ∷ [] in
      let ih = words_loop_lem rest (i.crc32_u64 crc (little_endian word)) (p.1.1.1.1.1.1.1.1) in
      (
        ih.0
            ∙ ap (bytes_step rest) (documented.on_u64 crc word refl (omega arith))
            ∙ sym (bytes_step-append word rest crc),
        ih.1,
        ih.2,
      )
  words_loop_lem bytes crc p = (refl, p, omega arith)

  -- Taking some bytes from the front in one instruction.
  taken :
      (k : ℕ) (bytes : List ℕ) (crc crc' : ℕ)
      → crc' ≡ bytes_step (take k bytes) crc
      → bytes_step (drop k bytes) crc' ≡ bytes_step bytes crc
  taken k bytes crc crc' e =
      ap (bytes_step (drop k bytes)) e
      ∙ sym (bytes_step-append (take k bytes) (drop k bytes) crc)
      ∙ ap (λ t. bytes_step t crc) (take-append-drop k bytes)

  four_bytes_lem :
      (s : State)
      → IsBytes s.remaining
      → (final (four_bytes i s) ≡ final s) × IsBytes (four_bytes i s).remaining
  unfolding four_bytes
  four_bytes_lem s h = elim (Bool-cases (leb 4 (length s.remaining))) [
    | inl e ↦ rw e (
      taken 4 s.remaining s.crc _ (
          documented.on_u32 s.crc (take 4 s.remaining) (ground (arith, length-take 4 s.remaining))
            (All-take _ 4 s.remaining h)),
      All-drop _ 4 s.remaining h,
    )
    | inr e ↦ rw e (refl, h)
  ]

  two_bytes_lem :
      (s : State)
      → IsBytes s.remaining
      → (final (two_bytes i s) ≡ final s) × IsBytes (two_bytes i s).remaining
  unfolding two_bytes
  two_bytes_lem s h = elim (Bool-cases (leb 2 (length s.remaining))) [
    | inl e ↦ rw e (
      taken 2 s.remaining s.crc _ (
          documented.on_u16 s.crc (take 2 s.remaining) (ground (arith, length-take 2 s.remaining))
            (All-take _ 2 s.remaining h)),
      All-drop _ 2 s.remaining h,
    )
    | inr e ↦ rw e (refl, h)
  ]

  last_byte_lem :
      (bytes : List ℕ) (crc : ℕ)
      → IsBytes bytes
      → length bytes ≤ 1
      → last_byte i (record { remaining = bytes; crc = crc }) ≡ bytes_step bytes crc
  unfolding last_byte bytes_step
  last_byte_lem [] crc h p = refl
  last_byte_lem (b ∷ []) crc h p = documented.on_u8 crc b h.0
  last_byte_lem (b ∷ b' ∷ bytes) crc h p = absurd (omega arith)

  -- The three tails use up fewer than eight bytes.
  tails_lem :
      (s : State)
      → IsBytes s.remaining
      → length s.remaining < 8
      → last_byte i (two_bytes i (four_bytes i s)) ≡ final s
  tails_lem s h short =
      let s4 = four_bytes i s in
      let s2 = two_bytes i s4 in
      let four = four_bytes_lem s h in
      let two = two_bytes_lem s4 four.1 in
      last_byte_lem s2.remaining s2.crc two.1
        (omega (arith, two_bytes_shrinks i s4, four_bytes_shrinks i s short))
      ∙ two.0
      ∙ four.0

  -- Eight bytes or more: the tails take six, and leave the rest.
  tails_long :
      (a b c d e f g h : ℕ) (rest : List ℕ) (crc : ℕ)
      → IsBytes (a ∷ b ∷ c ∷ d ∷ e ∷ f ∷ [])
      → last_byte i (
          two_bytes i
            (four_bytes i (record { remaining = a ∷ b ∷ c ∷ d ∷ e ∷ f ∷ g ∷ h ∷ rest; crc = crc })))
        ≡ bytes_step (a ∷ b ∷ c ∷ d ∷ e ∷ f ∷ []) crc
  tails_long a b c d e f g h rest crc p =
      ap (λ s. last_byte i (two_bytes i s)) (four_bytes_cons i a b c d (e ∷ f ∷ g ∷ h ∷ rest) crc)
      ∙ ap (last_byte i) (two_bytes_cons i e f (g ∷ h ∷ rest) _)
      ∙ last_byte_cons i g h rest _
      ∙ documented.on_u16 (i.crc32_u32 crc (little_endian (a ∷ b ∷ c ∷ d ∷ []))) (e ∷ f ∷ []) refl
          (omega arith)
      ∙ ap (bytes_step (e ∷ f ∷ [])) (documented.on_u32 crc (a ∷ b ∷ c ∷ d ∷ []) refl (omega arith))
      ∙ sym (bytes_step-append (a ∷ b ∷ c ∷ d ∷ []) (e ∷ f ∷ []) crc)

  -- On x86-64 the version over the instructions computes the CRC of the table version, at any
  -- address of the buffer.
  pub crc32c_sse42-crc32c_table :
      (addr : ℕ) (bytes : List ℕ) (previous : ℕ)
      → IsBytes bytes
      → crc32c_sse42 i true addr bytes previous ≡ crc32c_table bytes previous
  unfolding crc32c_sse42
  crc32c_sse42-crc32c_table addr bytes previous h =
      let aligned = align_loop_lem 7 bytes (not32 previous) addr h in
      let start = align_loop i 7 bytes (not32 previous) addr in
      let words = words_loop_lem start.remaining start.crc aligned.1 in
      ap not32 (tails_lem _ words.1 words.2 ∙ words.0 ∙ aligned.0)
      ∙ sym (crc32c_table-reference bytes previous h ∙ (unfold reference in refl))

  -- On other processors than x86-64, from an address that is a multiple of four, the version over
  -- the instructions returns the CRC of the first six bytes for every buffer of eight bytes or
  -- more.
  pub crc32c_sse42_misses_bytes :
      (addr : ℕ) (bytes : List ℕ) (previous : ℕ)
      → IsBytes bytes
      → bit_and addr 3 ≡ 0
      → 8 ≤ length bytes
      → crc32c_sse42 i false addr bytes previous ≡ crc32c_table (take 6 bytes) previous
  unfolding crc32c_sse42 align_loop
  crc32c_sse42_misses_bytes addr (a ∷ b ∷ c ∷ d ∷ e ∷ f ∷ g ∷ h ∷ rest) previous p aligned long =
      let six : IsBytes (a ∷ b ∷ c ∷ d ∷ e ∷ f ∷ []) = omega arith in
      rw aligned (
        ap not32 (tails_long a b c d e f g h rest (not32 previous) six)
        ∙ sym (
            crc32c_table-reference (a ∷ b ∷ c ∷ d ∷ e ∷ f ∷ []) previous six
            ∙ (unfold reference in refl)))
  crc32c_sse42_misses_bytes addr bytes previous p aligned long = absurd (omega arith)
