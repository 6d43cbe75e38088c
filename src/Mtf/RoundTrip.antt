-- ===== src/Mtf/RoundTrip.antt =====
-- Both directions of the move-to-front transform of src/encoders/bra_mtf.c.
use br_archive.Prelude.{
  count, ℕ, suc, ◌<◌, ◌≡◌, refl, ap, ◌∙◌, true, Bool, List, [], ◌∷◌, length, get_or, ◌==◌, done,
  read, read-eq-done, arith, IsBytes, passes_below, passes_below-lt, ==_iff, All-get_or,
}
use br_archive.Mtf.{
  encode_loop, decode_loop, init_table, init_table_loop, stack_table, encode_symbol, decode_symbol,
  encode2, decode2, encode, decode,
}
use br_archive.Mtf.Table.{
  IsTable, to_front, to_front-IsTable, find_symbol_lem, find_symbol-get_or, encode_symbol_lem,
  decode_symbol_lem,
}
use native.Mathlib.Nat.{zero-add}

first_table : List ℕ
unfolding init_table init_table_loop
first_table = elim (init_table stack_table) [ done t ↦ t | _ ↦ [] ]

init_table_lem : init_table stack_table ≡ done first_table
unfolding init_table first_table
init_table_lem = refl

first_table_once : passes_below (λ c. count c first_table == 1) 256 ≡ true
unfolding passes_below count first_table
first_table_once = refl

first_table-IsTable : IsTable first_table
first_table-IsTable = record {
  size = unfold first_table in refl;
  once = λ c h. (==_iff _ 1).0 (passes_below-lt _ 256 c first_table_once h);
  bytes = unfold first_table in (omega arith);
}

-- One round of each loop.
encode_loop_step :
    (table : List ℕ) {table' : List ℕ} (rest : List ℕ) {out : List ℕ} (c p : ℕ)
    → encode_symbol table c ≡ done (p, table')
    → encode_loop table' rest ≡ done out
    → encode_loop table (c ∷ rest) ≡ done (p ∷ out)
unfolding encode_loop
encode_loop_step table rest c p e e' = rw (e, e')

decode_loop_step :
    (table : List ℕ) {table' : List ℕ} (rest : List ℕ) {out : List ℕ} (c p : ℕ)
    → read table p ≡ done c
    → decode_symbol table p ≡ done table'
    → decode_loop table' rest ≡ done out
    → decode_loop table (p ∷ rest) ≡ done (c ∷ out)
unfolding decode_loop
decode_loop_step table rest c p r e e' = rw (r, e, e')

-- From one table, encoding and then decoding gives the symbols back.
decode_loop-encode_loop :
    (buf table : List ℕ)
    → IsTable table
    → IsBytes buf
    → (out : List ℕ) × (encode_loop table buf ≡ done out)
      × (decode_loop table out ≡ done buf)
      × IsBytes out
      × (length out ≡ length buf)
decode_loop-encode_loop [] table t h =
    ([], unfold encode_loop in refl, unfold decode_loop in refl, tt, refl)
decode_loop-encode_loop (c ∷ rest) table t h =
    let (p, found, inside, there) = find_symbol_lem table c 0 (omega (arith, t.once c h.0)) in
    let small : p < 256 = omega (arith, t.size) in
    let (out, encoded, decoded, bytes, same) =
      decode_loop-encode_loop rest (to_front p table) (to_front-IsTable p small t) h.1 in
    (
      p ∷ out,
      encode_loop_step table _ c p
          (encode_symbol_lem p c table (found ∙ ap done (zero-add p)) inside) encoded,
      decode_loop_step table _ c p (read-eq-done table p 0 inside ∙ ap done there)
          (decode_symbol_lem p table inside) decoded,
      (small, bytes),
      ap suc same,
    )

encode_loop-decode_loop :
    (buf table : List ℕ)
    → IsTable table
    → IsBytes buf
    → (out : List ℕ) × (decode_loop table buf ≡ done out)
      × (encode_loop table out ≡ done buf)
      × IsBytes out
      × (length out ≡ length buf)
encode_loop-decode_loop [] table t h =
    ([], unfold decode_loop in refl, unfold encode_loop in refl, tt, refl)
encode_loop-decode_loop (p ∷ rest) table t h =
    let inside : p < length table = omega (arith, t.size, h.0) in
    let c = get_or table p 0 in
    let byte : c < 256 = All-get_or _ table p 0 inside t.bytes in
    let (out, decoded, encoded, bytes, same) =
      encode_loop-decode_loop rest (to_front p table) (to_front-IsTable p h.0 t) h.1 in
    let found = find_symbol-get_or table p 0 inside (omega (arith, t.once c byte)) in
    (
      c ∷ out,
      decode_loop_step table _ c p (read-eq-done table p 0 inside)
          (decode_symbol_lem p table inside) decoded,
      encode_loop_step table _ c p
          (encode_symbol_lem p c table (found ∙ ap done (zero-add p)) inside) encoded,
      (byte, bytes),
      ap suc same,
    )

-- On a buffer that is not empty the assertion holds.
encode2-asserted :
    (buf : List ℕ) {out : List ℕ}
    → 0 < length buf
    → encode_loop first_table buf ≡ done out
    → encode2 buf ≡ done out
unfolding encode2
encode2-asserted [] h e = absurd (omega arith)
encode2-asserted (c ∷ rest) h e = rw init_table_lem e

decode2-asserted :
    (buf : List ℕ) {out : List ℕ}
    → 0 < length buf
    → decode_loop first_table buf ≡ done out
    → decode2 buf ≡ done out
unfolding decode2
decode2-asserted [] h e = absurd (omega arith)
decode2-asserted (p ∷ rest) h e = rw init_table_lem e

pub mtf_decode2-encode2 :
    (buf : List ℕ)
    → IsBytes buf
    → 0 < length buf
    → (out : List ℕ) × (encode2 buf ≡ done out)
      × (decode2 out ≡ done buf)
      × IsBytes out
      × (length out ≡ length buf)
mtf_decode2-encode2 buf h positive =
    let (out, encoded, decoded, bytes, same) =
      decode_loop-encode_loop buf first_table first_table-IsTable h in
    (
      out,
      encode2-asserted buf positive encoded,
      decode2-asserted out (omega (arith, same)) decoded,
      bytes,
      same,
    )

-- Decoding any bytes, at least one, and encoding the result gives the bytes back, so that on
-- buffers of one length that is not 0 the transform is a bijection.
pub encode2-decode2 :
    (buf : List ℕ)
    → IsBytes buf
    → 0 < length buf
    → (out : List ℕ) × (decode2 buf ≡ done out)
      × (encode2 out ≡ done buf)
      × IsBytes out
      × (length out ≡ length buf)
encode2-decode2 buf h positive =
    let (out, decoded, encoded, bytes, same) =
      encode_loop-decode_loop buf first_table first_table-IsTable h in
    (
      out,
      decode2-asserted buf positive decoded,
      encode2-asserted out (omega (arith, same)) encoded,
      bytes,
      same,
    )

encode-allocated :
    (malloc : ℕ → Bool) (buf : List ℕ)
    → 0 < length buf
    → malloc (length buf) ≡ true
    → encode malloc buf ≡ encode2 buf
unfolding encode
encode-allocated malloc [] h m = absurd (omega arith)
encode-allocated malloc (c ∷ rest) h m = rw m refl

decode-allocated :
    (malloc : ℕ → Bool) (buf : List ℕ)
    → 0 < length buf
    → malloc (length buf) ≡ true
    → decode malloc buf ≡ decode2 buf
unfolding decode
decode-allocated malloc [] h m = absurd (omega arith)
decode-allocated malloc (p ∷ rest) h m = rw m refl

-- Where malloc gives the size of the input, encoding any bytes, at least one, and decoding the
-- result gives the bytes back. The result is of the same length and of bytes, no access to the
-- table is out of bounds, no assertion fails, and the search for a symbol ends.
pub mtf_decode-encode :
    (malloc : ℕ → Bool) (buf : List ℕ)
    → IsBytes buf
    → 0 < length buf
    → malloc (length buf) ≡ true
    → (out : List ℕ) × (encode malloc buf ≡ done out)
      × (decode malloc out ≡ done buf)
      × IsBytes out
      × (length out ≡ length buf)
mtf_decode-encode malloc buf h positive m =
    let (out, encoded, decoded, bytes, same) = mtf_decode2-encode2 buf h positive in
    (
      out,
      encode-allocated malloc buf positive m ∙ encoded,
      decode-allocated malloc out (omega (arith, same)) (ap malloc same ∙ m) ∙ decoded,
      bytes,
      same,
    )
