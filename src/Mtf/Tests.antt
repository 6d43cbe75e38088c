-- ===== src/Mtf/Tests.antt =====
-- Runs of bra_mtf.c, and its theorems at concrete inputs.
use br_archive.Prelude.{ℕ, ◌≡◌, refl, true, Bool, List, [], ◌∷◌, length, done, arith, IsBytes}
use br_archive.Mtf.{
  init_table_loop, init_table, find_symbol, shift_loop, encode_symbol, encode_loop, encode2, encode,
  decode, decode2,
}
use br_archive.Mtf.RoundTrip.{mtf_decode-encode, encode2-decode2}

abbrev always : ℕ → Bool
always n = true

banana : encode2 (98 ∷ 97 ∷ 110 ∷ 97 ∷ 110 ∷ 97 ∷ []) ≡ done (98 ∷ 98 ∷ 110 ∷ 1 ∷ 1 ∷ 1 ∷ [])
unfolding encode2 init_table init_table_loop encode_loop encode_symbol find_symbol shift_loop
banana = refl

mtf_decode-encode_example :
    (out : List ℕ) × (encode always (98 ∷ 97 ∷ 97 ∷ []) ≡ done out)
    × (decode always out ≡ done (98 ∷ 97 ∷ 97 ∷ []))
    × IsBytes out
    × (length out ≡ 3)
mtf_decode-encode_example =
    mtf_decode-encode always (98 ∷ 97 ∷ 97 ∷ []) (omega arith) (omega arith) refl

encode2-decode2_example :
    (out : List ℕ) × (decode2 (98 ∷ 98 ∷ 0 ∷ []) ≡ done out)
    × (encode2 out ≡ done (98 ∷ 98 ∷ 0 ∷ []))
    × IsBytes out
    × (length out ≡ 3)
encode2-decode2_example = encode2-decode2 (98 ∷ 98 ∷ 0 ∷ []) (omega arith) (omega arith)
