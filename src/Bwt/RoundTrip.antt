-- ===== src/Bwt/RoundTrip.antt =====
-- Decoding what src/encoders/bra_bwt.c encodes gives the bytes back, also where the rotations of a
-- periodic input are equal and the sort leaves them in any order.
use Prim.Native.Nat.{Ordering}
use br_archive.Prelude.{
  ℕ, zero, suc, ◌+◌, ◌-◌, ◌*◌, ◌%◌, ◌^◌, ◌≡◌, ◌≢◌, ◌<◌, ◌≤◌, inl, inr, refl, ap, ◌∙◌, sym, subst,
  Bool, true, false, ◌==◌, arith, List, [], ◌∷◌, length, get_or, done, read-eq-done, IsBytes, drop,
  All-get_or, lt→ltb,
}
use br_archive.Bwt.{last_column, follow_loop, encode2, decode2}
use br_archive.Bwt.Tally.{tally-lt, tally-le_front}
use br_archive.Bwt.Cycles.{cyc, back, first_byte}
use br_archive.Bwt.Rotations.{rank, rank_lem}
use br_archive.Bwt.Transform.{transform_lem}
use br_archive.Bwt.Sorted.{Sorts, sorted_index, sa, length-sorted_index, permuted, sa-lt, sorted}
use native.Mathlib.Nat.{mod-eq_of_lt, mod-lt, add-mod_right}
use br_archive.Bwt.Primary.{IsPrimary, last_column_lem, drop-get_or, drop_all}

module _ (sort : (ℕ → ℕ → Ordering) → List ℕ → List ℕ) (sorts : Sorts sort) (bytes : List ℕ)
    (positive : 0 < length bytes) (small : length bytes < 2 ^ 31) where
  abbrev col : ℕ → ℕ
  col j = cyc bytes (back (length bytes) (sa sort bytes j)) 0

  shifted :
      (i : ℕ)
      → i < length bytes
      → (x : ℕ)
      → cyc bytes (sa sort bytes (rank col (length bytes) i)) (suc x)
        ≡ cyc bytes (sa sort bytes i) x
  shifted =
      rank_lem bytes positive (sa sort bytes) (sorted sort sorts bytes positive small)
        (permuted sort sorts bytes positive small)

  -- What the decoder has of the array, and where it stands in the bytes.
  abbrev Follows : List ℕ → Type 0
  Follows t =
      (k : ℕ)
      → k < length bytes
      → (i : ℕ) × (i < length bytes) × (rank col (length bytes) i ≡ k) × (get_or t k 0 ≡ i)

  follow_loop_lem :
      (out t : List ℕ)
      → length out ≡ length bytes
      → ((j : ℕ) → j < length bytes → get_or out j 0 ≡ col j)
      → length bytes ≤ length t
      → Follows t
      → (left i k : ℕ) → i + left ≡ length bytes
      → k < length bytes
      → ((x : ℕ) → cyc bytes (sa sort bytes k) x ≡ cyc bytes i x)
      → follow_loop out t left k ≡ done (drop i bytes)
  unfolding follow_loop
  follow_loop_lem out t size same room follows zero i k e h at =
      let end : i ≡ length bytes = omega arith in
      ap done (sym (drop_all bytes) ∙ ap (λ (n : ℕ). drop n bytes) (sym end))
  follow_loop_lem out t size same room follows (suc left) i k e h at =
      let n = length bytes in
      let (i', inside, ranked, found) = follows k h in
      let step : (x : ℕ) → cyc bytes (sa sort bytes i') x ≡ cyc bytes (suc i) x = λ x.
        sym (shifted i' inside x)
        ∙ ap (λ (r : ℕ). cyc bytes (sa sort bytes r) (suc x)) ranked
        ∙ at (suc x)
        ∙ ap (λ (t : ℕ). get_or bytes (t % n) 0) (omega arith) in
      let byte : get_or out i' 0 ≡ get_or bytes i 0 =
        same i' inside
        ∙ first_byte bytes (sa sort bytes i')
        ∙ step (n - 1)
        ∙ round i (omega arith) in
      let rest =
        follow_loop_lem out t size same room follows left (suc i) i' (omega arith) inside step in
      rw (
        read-eq-done t k 0 (omega arith),
        found,
        read-eq-done out i' 0 (omega (arith, size)),
        byte,
        rest,
        drop-get_or bytes i (omega arith),
      )
    where
      round : (i : ℕ) → i < length bytes → cyc bytes (suc i) (length bytes - 1) ≡ get_or bytes i 0
      round i h =
          ap (λ (t : ℕ). get_or bytes t 0)
            (ap (λ (t : ℕ). t % length bytes) (omega arith)
              ∙ add-mod_right i (length bytes)
              ∙ mod-eq_of_lt h)

  -- Some place has index 0.
  has_zero : ((j : ℕ) → j < length bytes → sa sort bytes j ≢ 0) → ⊥
  has_zero none_zero =
      let n = length bytes in
      let none_found =
        tally-le_front (λ j. sa sort bytes j == 0) n 0
          (λ j le lt. ground (arith, none_zero j lt)) in
      let one_there = tally-lt (λ k. false) (λ e. e == 0) n 0 positive refl refl (λ k lt e. cc e) in
      absurd (omega (arith, permuted sort sorts bytes positive small (λ e. e == 0)))

  last_column-sorted :
      (out : List ℕ) × (p : ℕ) × (last_column bytes (sorted_index sort bytes) 0 0 ≡ done (out, p))
      × (length out ≡ length bytes)
      × ((j : ℕ) → j < length bytes → get_or out j 0 ≡ col j)
      × (p < length bytes)
      × (sa sort bytes p ≡ 0)
  last_column-sorted =
      let index = sorted_index sort bytes in
      let size = length-sorted_index sort sorts bytes positive small in
      let (out, p, run, same_size, same, primary) =
        last_column_lem bytes index 0 0 small
          (λ j h. sa-lt sort sorts bytes positive small j (omega arith)) in
      let (inside, at) = place p primary in
      (out, p, run, same_size ∙ size, λ j h. same j (omega arith), inside, at)
    where
      place :
          (p : ℕ)
          → IsPrimary (sorted_index sort bytes) 0 0 p
          → (p < length bytes) × (sa sort bytes p ≡ 0)
      place p (inl (e, none_zero)) = absurd (
          has_zero (λ j h.
            none_zero j (omega (arith, length-sorted_index sort sorts bytes positive small))))
      place p (inr (j, lt, z, e)) =
          let same : j ≡ p = omega arith in
          (
            omega (arith, length-sorted_index sort sorts bytes positive small),
            subst (λ (k : ℕ). sa sort bytes k ≡ 0) same z,
          )

  col-lt : IsBytes bytes → (j : ℕ) → col j < 256
  col-lt b j =
      let n = length bytes in
      All-get_or (λ c. c < 256) bytes ((back n (sa sort bytes j) + 0) % n) 0
        (mod-lt (back n (sa sort bytes j) + 0) positive) b

  decode2_lem :
      (out array : List ℕ) (p : ℕ)
      → IsBytes bytes
      → length out ≡ length bytes
      → ((j : ℕ) → j < length bytes → get_or out j 0 ≡ col j)
      → p < length bytes
      → sa sort bytes p ≡ 0
      → length bytes ≤ length array
      → decode2 out p array ≡ done bytes
  unfolding decode2
  decode2_lem out array p b size same inside at room =
      let n = length bytes in
      let (count, first, t, counted, summed, filled, wide, follows) =
        transform_lem col n (omega arith) (λ j h. col-lt b j) out array size same room in
      let start : (x : ℕ) → cyc bytes (sa sort bytes p) x ≡ cyc bytes 0 x =
        λ x. ap (λ (s : ℕ). cyc bytes s x) at in
      rw (size, lt→ltb 0 n positive, lt→ltb p n inside, counted, summed, filled)
        (follow_loop_lem out t size same wide follows n 0 p (omega arith) inside start)

IsBytes-of_get_or : (xs : List ℕ) → ((j : ℕ) → j < length xs → get_or xs j 0 < 256) → IsBytes xs
IsBytes-of_get_or [] h = tt
IsBytes-of_get_or (x ∷ xs) h =
    (h 0 (omega arith), IsBytes-of_get_or xs (λ j lt. h (suc j) (omega arith)))

module _ (sort : (ℕ → ℕ → Ordering) → List ℕ → List ℕ) (malloc : ℕ → Bool) where
  -- For a sort that does what is documented of qsort_r, an input of 1 to 2 ^ 31 - 1 bytes and a
  -- malloc that gives the array of indices: the encoder returns as many bytes and a primary index
  -- below their number, and from these the decoder, in any array with room for an index for each
  -- byte, returns the input, with no access out of bounds.
  pub decode2-encode2 :
      (bytes array : List ℕ)
      → Sorts sort
      → IsBytes bytes
      → 0 < length bytes
      → length bytes < 2 ^ 31
      → malloc (length bytes * 4) ≡ true
      → length bytes ≤ length array
      → (out : List ℕ) × (primary : ℕ) × (encode2 sort malloc bytes ≡ done (out, primary))
        × (length out ≡ length bytes)
        × IsBytes out
        × (primary < length bytes)
        × (decode2 out primary array ≡ done bytes)
  unfolding encode2 sorted_index
  decode2-encode2 bytes array sorts b positive small m room =
      let (out, p, run, size, same, inside, at) =
        last_column-sorted sort sorts bytes positive small in
      let byte : (j : ℕ) → j < length out → get_or out j 0 < 256 = λ j h.
        subst (λ (c : ℕ). c < 256) (sym (same j (omega arith)))
          (col-lt sort sorts bytes positive small b j) in
      (
        out,
        p,
        rw (lt→ltb 0 (length bytes) positive, m) run,
        size,
        IsBytes-of_get_or out byte,
        inside,
        decode2_lem sort sorts bytes positive small out array p b size same inside at room,
      )
