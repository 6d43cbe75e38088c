-- ===== src/Rle/Tests.antt =====
-- Runs of bra_rle.c, and its theorems at concrete inputs.
use br_archive.Prelude.{
  ℕ, ◌+◌, ◌/◌, ◌≤◌, ◌<◌, ◌≡◌, refl, ◌⊎◌, ◌↔◌, true, false, Bool, List, [], ◌∷◌, length, ltb, done,
  failed, arith, replicate,
}
use br_archive.Rle.{
  Buffer, encode_size_loop, encode_compute_size, encode_loop, encode, decode_size_loop,
  decode_compute_size, decode_loop, memcpy, memset, decode,
}
use br_archive.Rle.Format.{PackBits}
use br_archive.Rle.RoundTrip.{decode-eq-done_iff, decode_total, decode-encode, encode-eq-failed_iff}
use br_archive.Rle.Size.{encode_compute_size_bound}

abbrev always : ℕ → Bool
always n = true

abbrev sample : List ℕ
sample = 1 ∷ 2 ∷ 2 ∷ 7 ∷ 7 ∷ 7 ∷ 7 ∷ 9 ∷ []

sample_encoded :
    encode always sample ≡ done (record { size = 8; bytes = 2 ∷ 1 ∷ 2 ∷ 2 ∷ 253 ∷ 7 ∷ 0 ∷ 9 ∷ [] })
unfolding encode encode_compute_size encode_size_loop encode_loop memcpy
sample_encoded = refl

long_run :
    encode always (replicate 130 5) ≡ done (record { size = 5; bytes = 129 ∷ 5 ∷ 1 ∷ 5 ∷ 5 ∷ [] })
unfolding encode encode_compute_size encode_size_loop encode_loop memcpy
long_run = refl

cut_stream : decode always (3 ∷ 1 ∷ 2 ∷ []) ≡ failed
unfolding decode decode_compute_size decode_size_loop decode_loop memcpy memset
cut_stream = refl

decode-eq-done_iff_example :
    (decode always (254 ∷ 7 ∷ []) ≡ done (record { size = 3; bytes = 7 ∷ 7 ∷ 7 ∷ [] }))
    ↔ (PackBits (254 ∷ 7 ∷ []) (7 ∷ 7 ∷ 7 ∷ []) × (◌≡◌ {A = ℕ} 3 3) × (0 < 3) × (always 3 ≡ true))
decode-eq-done_iff_example =
    decode-eq-done_iff always (254 ∷ 7 ∷ []) (record { size = 3; bytes = 7 ∷ 7 ∷ 7 ∷ [] })
      (omega arith)

decode_total_example :
    ((b : Buffer) × (decode always (3 ∷ 1 ∷ 2 ∷ []) ≡ done b) × (length b.bytes ≡ b.size))
    ⊎ (decode always (3 ∷ 1 ∷ 2 ∷ []) ≡ failed)
decode_total_example = decode_total always (3 ∷ 1 ∷ 2 ∷ []) (omega arith)

decode-encode_example :
    (b : Buffer) × (encode always sample ≡ done b)
    × (b.size ≡ length b.bytes)
    × PackBits b.bytes sample
    × (decode always b.bytes ≡ done (record { size = 8; bytes = sample }))
decode-encode_example = decode-encode always sample (λ n. refl) (omega arith)

encode-eq-failed_iff_example :
    (n : ℕ) × (encode_compute_size sample ≡ done n)
    × ((encode (λ m. ltb m 8) sample ≡ failed) ↔ (ltb n 8 ≡ false))
    × (((b : Buffer) × (encode (λ m. ltb m 8) sample ≡ done b)
          × (b.size ≡ n)
          × (length b.bytes ≡ n))
        ↔ (ltb n 8 ≡ true))
encode-eq-failed_iff_example = encode-eq-failed_iff (λ m. ltb m 8) sample (omega arith)

encode_compute_size_bound_example :
    (n : ℕ) × (encode_compute_size sample ≡ done n) × (n ≤ 8 + 8 / 128 + 1)
encode_compute_size_bound_example = encode_compute_size_bound sample
