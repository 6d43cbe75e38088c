-- ===== src/Bwt/Safety.antt =====
-- The decoder of src/encoders/bra_bwt.c on bytes that the encoder may not have made.
use br_archive.Prelude.{
  ℕ, zero, suc, ◌≡◌, ◌<◌, ◌≤◌, ◌^◌, refl, ap, List, [], ◌∷◌, length, get_or, done, IsBytes, arith,
  lt→ltb, read-eq-done, All-get_or,
}
use br_archive.Bwt.{decode2, follow_loop}
use br_archive.Bwt.Transform.{transform_lem}
use br_archive.Bwt.Rotations.{rank}

-- The array leads from an index to an index.
abbrev Leads : ℕ → List ℕ → Type 0
Leads n t = (k : ℕ) → k < n → get_or t k 0 < n

follow_loop_total :
    (buf t : List ℕ)
    → IsBytes buf
    → length buf ≤ length t
    → Leads (length buf) t
    → (left k : ℕ) → k < length buf
    → (out : List ℕ) × (follow_loop buf t left k ≡ done out) × (length out ≡ left) × IsBytes out
unfolding follow_loop
follow_loop_total buf t b room leads zero k h = ([], refl, refl, tt)
follow_loop_total buf t b room leads (suc left) k h =
    let k' = get_or t k 0 in
    let (out, run, size, bytes) = follow_loop_total buf t b room leads left k' (leads k h) in
    (
      get_or buf k' 0 ∷ out,
      rw (read-eq-done t k 0 (omega arith), read-eq-done buf k' 0 (leads k h), run),
      ap suc size,
      (All-get_or (λ c. c < 256) buf k' 0 (leads k h) b, bytes),
    )

-- On any 1 to 2 ^ 31 - 1 bytes, a primary index below their number and an array with room for an
-- index for each of them, the decoder returns as many bytes: its tables, the array that they fill
-- and the way through it are never read or written out of bounds.
pub decode2_total :
    (buf array : List ℕ) (primary : ℕ)
    → IsBytes buf
    → primary < length buf
    → length buf < 2 ^ 31
    → length buf ≤ length array
    → (out : List ℕ) × (decode2 buf primary array ≡ done out)
      × (length out ≡ length buf)
      × IsBytes out
unfolding decode2
decode2_total buf array primary b inside small room =
    let n = length buf in
    let (count, first, t, counted, summed, filled, wide, follows) =
      transform_lem (λ j. get_or buf j 0) n (omega arith)
        (λ j h. All-get_or (λ c. c < 256) buf j 0 h b) buf array refl (λ j h. refl) room in
    let leads : Leads n t = λ k h. leads_to t k (follows k h) in
    let (out, run, size, bytes) = follow_loop_total buf t b wide leads n primary inside in
    (
      out,
      rw (lt→ltb 0 n (omega arith), lt→ltb primary n inside, counted, summed, filled, run),
      size,
      bytes,
    )
  where
    leads_to :
        (t : List ℕ) (k : ℕ)
        → (i : ℕ) × (i < length buf)
          × (rank (λ j. get_or buf j 0) (length buf) i ≡ k)
          × (get_or t k 0 ≡ i)
        → get_or t k 0 < length buf
    leads_to t k (i, lt, ranked, found) = omega arith
