-- ===== src/Rle/RoundTrip.antt =====
-- What `bra_rle_encode` and `bra_rle_decode` of src/encoders/bra_rle.c return.
use br_archive.Prelude.{
  ℕ, ◌<◌, ◌≡◌, refl, sym, ap, ◌∙◌, ◌⊎◌, ◌↔◌, inl, inr, true, false, Bool, List, [], ◌∷◌, length,
  ◌==◌, Outcome, done, failed, arith, IsBytes, if◌then◌else◌, Bool-cases,
}
use br_archive.Rle.{Buffer, encode_compute_size, encode, decode_compute_size, decode}
use br_archive.Rle.Format.{PackBits, empty, literals, repeats, skips}
use native.Mathlib.Nat.{zero-add}
use br_archive.Rle.Encode.{IsEncoded, encode_loop_lem}
use br_archive.Rle.Decode.{decode-PackBits, decode_cases}

-- Both passes have run: the buffer is allocated with what the first pass found.
abbrev stores : (ℕ → Bool) → List ℕ → Outcome Buffer
stores malloc out =
    if length out == 0
    then failed
    else if malloc (length out)
    then done (record { size = length out; bytes = out })
    else failed

encoding : (buf : List ℕ) → IsEncoded (length buf) buf [] 0
encoding buf = encode_loop_lem (length buf) buf [] 0 (omega arith)

encoding_size : (buf : List ℕ) → encode_compute_size buf ≡ done (length (encoding buf).stream)
unfolding encode_compute_size
encoding_size buf = (encoding buf).counted ∙ ap done (zero-add _)

encode-stores :
    (malloc : ℕ → Bool) (buf : List ℕ)
    → 0 < length buf
    → encode malloc buf ≡ stores malloc (encoding buf).stream
unfolding encode
encode-stores malloc [] h = absurd (omega arith)
encode-stores malloc (c ∷ rest) h =
    let x = encoding (c ∷ rest) in
    let stored = x.stored (length x.stream) (omega arith) in
    rw (encoding_size (c ∷ rest), stored) refl

decode-stores :
    (malloc : ℕ → Bool) {s d : List ℕ} → PackBits s d → decode malloc s ≡ stores malloc d
unfolding decode
decode-stores malloc {s} {d} r =
    let x = decode-PackBits r (length s) [] 0 (omega arith) in
    let stored = x.stored (length d) (omega arith) in
    rw (decode_compute_size, x.counted, zero-add, stored)

decode-failed :
    (malloc : ℕ → Bool) (s : List ℕ) → decode_compute_size s ≡ done 0 → decode malloc s ≡ failed
unfolding decode
decode-failed malloc s e = rw e

-- A buffer came back: its size is what was allocated, and all of it was stored.
stores-eq-done :
    (malloc : ℕ → Bool) (out : List ℕ) (b : Buffer)
    → stores malloc out ≡ done b
    → (b.bytes ≡ out) × (b.size ≡ length out) × (0 < b.size) × (malloc b.size ≡ true)
stores-eq-done malloc out b h = ground arith

stores-done :
    (malloc : ℕ → Bool) (b : Buffer)
    → b.size ≡ length b.bytes
    → 0 < b.size
    → malloc b.size ≡ true
    → stores malloc b.bytes ≡ done b
stores-done malloc b e h m = ground arith

-- For a stream of bytes and every behaviour of malloc, `decode` returns a buffer exactly when the
-- buffer's bytes are not empty and are what the stream stands for in the PackBits format, its size
-- is their number, and malloc gives that size.
pub decode-eq-done_iff :
    (malloc : ℕ → Bool) (s : List ℕ) (b : Buffer)
    → IsBytes s
    → (decode malloc s ≡ done b)
      ↔ (PackBits s b.bytes × (b.size ≡ length b.bytes) × (0 < b.size) × (malloc b.size ≡ true))
decode-eq-done_iff malloc s b bytes = (there, back)
  where
    there :
        decode malloc s ≡ done b
        → PackBits s b.bytes × (b.size ≡ length b.bytes) × (0 < b.size) × (malloc b.size ≡ true)
    there h = elim (decode_cases (length s) s 0 (omega arith) bytes) [
      | inl (d, r) ↦
          let (e, size, positive, allocated) =
            stores-eq-done malloc d b (sym (decode-stores malloc r) ∙ h) in
          (rw e r, size ∙ ap length (sym e), positive, allocated)
      | inr refused ↦ cc (decode-failed malloc s (unfold decode_compute_size in refused))
    ]

    back :
        PackBits s b.bytes × (b.size ≡ length b.bytes) × (0 < b.size) × (malloc b.size ≡ true)
        → decode malloc s ≡ done b
    back (r, size, positive, allocated) =
        decode-stores malloc r ∙ stores-done malloc b size positive allocated

-- On a stream of bytes, for every behaviour of malloc, `decode` returns a buffer that is filled to
-- its size, or reports a failure. So it does not read past the stream or store past the size that
-- it allocated, which the model would give as a fault, and its loops end.
pub decode_total :
    (malloc : ℕ → Bool) (s : List ℕ)
    → IsBytes s
    → ((b : Buffer) × (decode malloc s ≡ done b) × (length b.bytes ≡ b.size))
      ⊎ (decode malloc s ≡ failed)
decode_total malloc s bytes = elim (decode_cases (length s) s 0 (omega arith) bytes) [
  | inl (d, r) ↦ rw (decode-stores malloc r) (stores_total malloc d)
  | inr refused ↦ inr (decode-failed malloc s (unfold decode_compute_size in refused))
]
  where
    stores_total :
        (malloc : ℕ → Bool) (d : List ℕ)
        → ((b : Buffer) × (stores malloc d ≡ done b) × (length b.bytes ≡ b.size))
          ⊎ (stores malloc d ≡ failed)
    stores_total malloc d = elim (Bool-cases (length d == 0)) [
      | inl e ↦ inr (rw e)
      | inr e ↦ elim (Bool-cases (malloc (length d))) [
        | inl m ↦ inl (record { size = length d; bytes = d }, rw (e, m), refl)
        | inr m ↦ inr (rw (e, m))
      ]
    ]

PackBits-positive : {s d : List ℕ} → PackBits s d → 0 < length d → 0 < length s
PackBits-positive empty h = h
PackBits-positive (literals l p q r) h = omega arith
PackBits-positive (repeats n v p q r) h = omega arith
PackBits-positive (skips r) h = omega arith

-- For a buffer that is not empty, and an allocator that does not fail, `encode` returns a buffer
-- filled to the size that its first pass computed, a PackBits stream for the input, and `decode`
-- gives the input back.
pub decode-encode :
    (malloc : ℕ → Bool) (buf : List ℕ)
    → ((n : ℕ) → malloc n ≡ true)
    → 0 < length buf
    → (b : Buffer) × (encode malloc buf ≡ done b)
      × (b.size ≡ length b.bytes)
      × PackBits b.bytes buf
      × (decode malloc b.bytes ≡ done (record { size = length buf; bytes = buf }))
decode-encode malloc buf always h =
    let x = encoding buf in
    let b : Buffer = record { size = length x.stream; bytes = x.stream } in
    (
      b,
      encode-stores malloc buf h
          ∙ stores-done malloc b refl (PackBits-positive x.format h) (always _),
      refl,
      x.format,
      decode-stores malloc x.format
          ∙ stores-done malloc (record { size = length buf; bytes = buf }) refl h (always _),
    )

-- On a buffer that is not empty, as the code asserts, the first pass computes a size, and `encode`
-- fails exactly where malloc refuses this size; otherwise it returns a buffer that is filled to it,
-- so that no store is past the size allocated.
pub encode-eq-failed_iff :
    (malloc : ℕ → Bool) (buf : List ℕ)
    → 0 < length buf
    → (n : ℕ) × (encode_compute_size buf ≡ done n)
      × ((encode malloc buf ≡ failed) ↔ (malloc n ≡ false))
      × (((b : Buffer) × (encode malloc buf ≡ done b) × (b.size ≡ n) × (length b.bytes ≡ n))
          ↔ (malloc n ≡ true))
encode-eq-failed_iff malloc buf h =
    let x = encoding buf in
    let run = encode-stores malloc buf h in
    let positive = PackBits-positive x.format h in
    let b : Buffer = record { size = length x.stream; bytes = x.stream } in
    (
      length x.stream,
      encoding_size buf,
      (λ e. refused x.stream positive (sym run ∙ e), λ m. run ∙ ground arith),
      (
        λ (b', e, size, _).
            let found = stores-eq-done malloc x.stream b' (sym run ∙ e) in
            ap malloc (sym size) ∙ found.3,
        λ m. (b, run ∙ stores-done malloc b refl positive m, refl, refl),
      ),
    )
  where
    refused :
        (out : List ℕ) → 0 < length out → stores malloc out ≡ failed → malloc (length out) ≡ false
    refused out positive e = ground arith
