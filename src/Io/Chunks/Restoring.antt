-- ===== src/Io/Chunks/Restoring.antt =====
-- The transforms of a chunk in src/io/lib_bra_io_file_chunks.c and what restores it.
use Prim.Native.Nat.{Ordering}
use br_archive.Prelude.{
  ℕ, ◌≡◌, ◌<◌, ◌≤◌, Bool, true, false, ◌∙◌, ◌>>=◌, ◌⊎◌, inl, inr, refl, ap, sym, le_or_lt, List,
  length, leb, done, failed, fault, IsBytes, arith,
}
use br_archive.Io.Chunks.{max_chunk_size}
use br_archive.Io.Chunks.Codec.{transform_chunk, restore_chunk}
use br_archive.Bwt
use br_archive.Bwt.Sorted.{Sorts}
use br_archive.Bwt.RoundTrip.{decode2-encode2}
use br_archive.Mtf
use br_archive.Mtf.RoundTrip.{mtf_decode2-encode2, encode2-decode2}
use br_archive.Rle
use br_archive.Rle.RoundTrip.{decode-encode, decode-eq-done_iff, decode_total}
use br_archive.Rle.Format.{PackBits, PackBits-IsBytes}
use br_archive.Bwt.Safety.{decode2_total}

module _ (malloc : ℕ → Bool) (trans : List ℕ) (p : ℕ) (s : List ℕ) (b : Rle.Buffer) where
  restore_chunk-fits :
      Rle.decode malloc s ≡ done b
      → p < b.size
      → b.size ≤ max_chunk_size
      → restore_chunk malloc trans p s ≡ (Mtf.decode2 b.bytes >>= λ buf. Bwt.decode2 buf p trans)
  unfolding restore_chunk
  restore_chunk-fits decoded inside fits =
      let primary : leb b.size p ≡ false = ground arith in
      let store : leb b.size max_chunk_size ≡ true = ground arith in rw (decoded, primary, store)

  restore_chunk-overruns :
      Rle.decode malloc s ≡ done b
      → p < b.size
      → max_chunk_size < b.size
      → restore_chunk malloc trans p s ≡ fault
  unfolding restore_chunk
  restore_chunk-overruns decoded inside large =
      let primary : leb b.size p ≡ false = ground arith in
      let store : leb b.size max_chunk_size ≡ false = ground arith in rw (decoded, primary, store)

  restore_chunk-misplaced :
      Rle.decode malloc s ≡ done b → b.size ≤ p → restore_chunk malloc trans p s ≡ failed
  unfolding restore_chunk
  restore_chunk-misplaced decoded outside =
      let primary : leb b.size p ≡ true = ground arith in rw (decoded, primary)

-- For a sort that does what is documented of qsort_r, a malloc that does not fail and a decoder's
-- array with room for an index for each byte: the transforms of a chunk of 1 to 262144 bytes
-- succeed with a primary index below their number, and from what they give the decoder restores
-- the chunk, with no access out of bounds.
pub restore_chunk-transform :
    (sort : (ℕ → ℕ → Ordering) → List ℕ → List ℕ) (malloc : ℕ → Bool) (buf trans : List ℕ)
    → Sorts sort
    → ((n : ℕ) → malloc n ≡ true)
    → IsBytes buf
    → 0 < length buf
    → length buf ≤ max_chunk_size
    → length buf ≤ length trans
    → (primary_index : ℕ) × (buf_rle : List ℕ) × (transform_chunk sort malloc buf
        ≡ done (primary_index, buf_rle))
      × (primary_index < length buf)
      × (restore_chunk malloc trans primary_index buf_rle ≡ done buf)
unfolding transform_chunk
restore_chunk-transform sort malloc buf trans sorts always b positive small room =
    let (transformed, primary, sorted, size, bytes, inside, restored) =
      decode2-encode2 sort malloc buf trans sorts b positive (omega arith) (always _)
        (omega arith) in
    let (ranks, ranked, unranked, rank_bytes, same) =
      mtf_decode2-encode2 transformed bytes (omega (arith, size)) in
    let (rle, encoded, filled, format, decoded) =
      decode-encode malloc ranks always (omega (arith, same, size)) in
    (
      primary,
      rle.bytes,
      rw (sorted, ranked, encoded),
      inside,
      restore_chunk-fits malloc trans primary rle.bytes
            (record { size = length ranks; bytes = ranks }) decoded
            (omega (arith, same, size, inside)) (omega (arith, same, size))
          ∙ rw unranked restored,
    )

-- What the decoder does with a stream that stands for bytes.
module _ (malloc : ℕ → Bool) (trans : List ℕ) (p : ℕ) (s : List ℕ) where
  abbrev Restores : List ℕ → Type 0
  Restores out =
      (buf : List ℕ) × (restore_chunk malloc trans p s ≡ done buf)
      × (length buf ≡ length out)
      × IsBytes buf

  restored :
      max_chunk_size ≤ length trans
      → (b : Rle.Buffer) → Rle.decode malloc s ≡ done b
      → b.size ≡ length b.bytes
      → IsBytes b.bytes
      → p < b.size
      → b.size ≤ max_chunk_size
      → Restores b.bytes
  restored room b decoded size bytes inside fits =
      let (column, unranked, _, column_bytes, same) =
        encode2-decode2 b.bytes bytes (omega (arith, size)) in
      let (buf, run, full, buf_bytes) =
        decode2_total column trans p column_bytes (omega arith) (omega arith) (omega arith) in
      (
        buf,
        restore_chunk-fits malloc trans p s b decoded inside fits ∙ rw unranked run,
        full ∙ same,
        buf_bytes,
      )

  -- The stream stands for more than a chunk.
  abbrev pub IsOverlong : Type 0
  IsOverlong =
      (d : List ℕ) × PackBits s d
      × (max_chunk_size < length d)
      × (malloc (length d) ≡ true)
      × (p < length d)

  abbrev pub Verdict : Type 0
  Verdict =
      (restore_chunk malloc trans p s ≡ failed)
      ⊎ (((buf : List ℕ) × (restore_chunk malloc trans p s ≡ done buf)
            × (length buf ≤ max_chunk_size)
            × IsBytes buf)
          ⊎ ((restore_chunk malloc trans p s ≡ fault) × IsOverlong))

  overlong-overruns : IsOverlong → IsBytes s → restore_chunk malloc trans p s ≡ fault
  overlong-overruns (d, format, large, allocated, inside) bytes =
      let b : Rle.Buffer = record { size = length d; bytes = d } in
      restore_chunk-overruns malloc trans p s b
        ((decode-eq-done_iff malloc s b bytes).1 (format, refl, omega arith, allocated)) inside
        large

  restore_chunk-refused : Rle.decode malloc s ≡ failed → restore_chunk malloc trans p s ≡ failed
  unfolding restore_chunk
  restore_chunk-refused refused = rw refused

  verdict : max_chunk_size ≤ length trans → IsBytes s → Verdict
  verdict room bytes = elim (decode_total malloc s bytes) [
    | inl (b, decoded, _) ↦
        let (format, size, positive, allocated) = (decode-eq-done_iff malloc s b bytes).0 decoded in
        elim (le_or_lt b.size p) [
          | inl outside ↦ inl (restore_chunk-misplaced malloc trans p s b decoded outside)
          | inr inside ↦ elim (le_or_lt b.size max_chunk_size) [
            | inl fits ↦
                let (buf, run, full, buf_bytes) =
                  restored room b decoded size (PackBits-IsBytes format bytes) inside fits in
                inr (inl (buf, run, omega (arith, full, size), buf_bytes))
            | inr large ↦ inr (
                inr (
                  restore_chunk-overruns malloc trans p s b decoded inside large,
                  (
                    b.bytes,
                    format,
                    omega (arith, size),
                    ap malloc (sym size) ∙ allocated,
                    omega (arith, size),
                  ),
                ))
          ]
        ]
    | inr refused ↦ inl (restore_chunk-refused refused)
  ]

-- On any bytes that the Huffman decoder gives, for every primary index and every malloc, and with
-- an array for a whole chunk, the rest of the decoder reports a failure, or restores at most 262144
-- bytes, or stores out of bounds. It stores out of bounds exactly where the bytes stand for more
-- than 262144 in the PackBits format, malloc gives their number and the primary index is below it.
pub restore_chunk_cases :
    (malloc : ℕ → Bool) (trans : List ℕ) (p : ℕ) (s : List ℕ)
    → IsBytes s
    → max_chunk_size ≤ length trans
    → Verdict malloc trans p s
      × (IsOverlong malloc trans p s → restore_chunk malloc trans p s ≡ fault)
restore_chunk_cases malloc trans p s bytes room =
    (verdict malloc trans p s room bytes, λ o. overlong-overruns malloc trans p s o bytes)
