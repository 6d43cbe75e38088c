-- ===== src/Bwt/Tests.antt =====
-- Runs of src/encoders/bra_bwt.c, and its theorem at a concrete input.
use br_archive.Prelude.{
  ℕ, ◌≡◌, ◌<◌, refl, Bool, true, List, [], ◌∷◌, length, replicate, done, IsBytes, arith,
}
use br_archive.Bwt.{encode2, decode2, suffix_compare, init_index, last_column}
use br_archive.Bwt.InsertionSort.{insertion_sort, insertion_sort-Sorts}
use br_archive.Bwt.RoundTrip.{decode2-encode2}
use br_archive.Bwt.Safety.{decode2_total}

abbrev always : ℕ → Bool
always n = true

abbrev banana : List ℕ
banana = b'b' ∷ b'a' ∷ b'n' ∷ b'a' ∷ b'n' ∷ b'a' ∷ []

encode2-banana :
    encode2 insertion_sort always banana ≡ done (b'n' ∷ b'n' ∷ b'b' ∷ b'a' ∷ b'a' ∷ b'a' ∷ [], 3)
unfolding encode2 insertion_sort suffix_compare init_index last_column
encode2-banana = refl

-- All rotations of this input are equal to another.
abbrev periodic : List ℕ
periodic = b'a' ∷ b'b' ∷ b'a' ∷ b'b' ∷ []

decode2-encode2_example :
    (out : List ℕ) × (primary : ℕ) × (encode2 insertion_sort always periodic ≡ done (out, primary))
    × (length out ≡ 4)
    × IsBytes out
    × (primary < 4)
    × (decode2 out primary (replicate 9 0) ≡ done periodic)
decode2-encode2_example =
    decode2-encode2 insertion_sort always periodic (replicate 9 0) insertion_sort-Sorts
      (omega arith) (omega arith) (omega arith) refl (omega arith)

decode2_total_example :
    (out : List ℕ) × (decode2 (7 ∷ 1 ∷ 7 ∷ []) 2 (replicate 5 0) ≡ done out)
    × (length out ≡ 3)
    × IsBytes out
decode2_total_example =
    decode2_total (7 ∷ 1 ∷ 7 ∷ []) (replicate 5 0) 2 (omega arith) (omega arith) (omega arith)
      (omega arith)
