-- ===== src/Huffman/Codec/Overrun.antt =====
-- Where `bra_huffman_decode` of src/encoders/bra_huffman.c stores past its output buffer.
use br_archive.Prelude.{
  ℕ, zero, suc, ◌+◌, ◌/◌, ◌%◌, ◌^◌, ◌<◌, ◌≡◌, refl, sym, ap, ◌∙◌, inl, inr, Bool, true, false, List,
  [], ◌∷◌, ◌++◌, length, ◌==◌, ◌-◌, >>=-eq-done, if◌then◌else◌, Bool-cases, Outcome, done, fault,
  ◌>>=◌, arith,
}
use native.Mathlib.Nat.{zero-add, suc-add}
use br_archive.Huffman.{Node, null, node, Meta}
use br_archive.Huffman.Canonical.{tree_build_from_lengths}
use br_archive.Huffman.Codec.{Reader, is_leaf, reach, decode_byte, decode_bytes, decode}

-- From `cur`, the last bits of the byte lead to a leaf.
unfoldable pub holds_code : Node → ℕ → ℕ → Bool
holds_code cur zero byte = false
holds_code null (suc bit) byte = false
holds_code (node symbol freq left right) (suc bit) byte =
    let next = if byte / 2 ^ bit % 2 == 0 then left else right in
    let more = holds_code next bit byte in if is_leaf next then true else more

module _ (root : Node) (orig_size : ℕ) where
  -- A leaf when all symbols are there.
  leaf_overruns :
      (n : Node) (decoded : List ℕ)
      → is_leaf n ≡ true
      → length decoded ≡ orig_size
      → reach root orig_size n decoded ≡ fault
  unfolding reach
  leaf_overruns null decoded e h = cc
  leaf_overruns (node s f null null) decoded e h = ground arith
  leaf_overruns (node s f null (node _ _ _ _)) decoded e h = cc
  leaf_overruns (node s f (node _ _ _ _) right) decoded e h = cc

  -- Another node goes on from there.
  inner_goes_on :
      (s f : ℕ) (left right : Node) (decoded : List ℕ)
      → is_leaf (node s f left right) ≡ false
      → reach root orig_size (node s f left right) decoded
        ≡ done (record { cur = node s f left right; decoded = decoded })
  unfolding reach
  inner_goes_on s f null null decoded e = cc
  inner_goes_on s f null (node _ _ _ _) decoded e = refl
  inner_goes_on s f (node _ _ _ _) right decoded e = refl

  -- One bit, to the node `next`.
  next_overruns :
      (next : Node) (bit byte : ℕ) (decoded : List ℕ)
      → (holds_code next bit byte ≡ true
          → decode_byte root orig_size bit byte (record { cur = next; decoded = decoded }) ≡ fault)
      → (if is_leaf next then true else holds_code next bit byte) ≡ true
      → length decoded ≡ orig_size
      → (k : Reader → Outcome Reader)
      → (reach root orig_size next decoded >>= λ r.
          if is_leaf next then k r else decode_byte root orig_size bit byte r)
        ≡ fault
  next_overruns null zero byte decoded ih e h k = unfold holds_code in cc e
  next_overruns null (suc bit) byte decoded ih e h k = unfold holds_code in cc e
  next_overruns (node s f left right) bit byte decoded ih e h k =
      elim (Bool-cases (is_leaf (node s f left right))) [
        | inl leaf ↦ rw (leaf_overruns (node s f left right) decoded leaf h)
        | inr inner ↦ rw (inner_goes_on s f left right decoded inner, inner) (ih (rw inner at e))
      ]

  decode_byte_overruns :
      (cur : Node) (bit byte : ℕ) (decoded : List ℕ)
      → holds_code cur bit byte ≡ true
      → length decoded ≡ orig_size
      → decode_byte root orig_size bit byte (record { cur = cur; decoded = decoded }) ≡ fault
  unfolding decode_byte holds_code
  decode_byte_overruns cur zero byte decoded e h = cc
  decode_byte_overruns null (suc bit) byte decoded e h = cc
  decode_byte_overruns (node s f left right) (suc bit) byte decoded e h =
      elim (Bool-cases (byte / 2 ^ bit % 2 == 0)) [
        | inl b ↦ rw b (
            next_overruns left bit byte decoded
              (λ t. decode_byte_overruns left bit byte decoded t h) (rw b at e) h _)
        | inr b ↦ rw b (
            next_overruns right bit byte decoded
              (λ t. decode_byte_overruns right bit byte decoded t h) (rw b at e) h _)
      ]

  decode_bytes_step :
      (left byte : ℕ) (bytes : List ℕ) (r r' : Reader)
      → decode_byte root orig_size 8 byte r ≡ done r'
      → decode_bytes root orig_size (suc left) (byte ∷ bytes) r
        ≡ decode_bytes root orig_size left bytes r'
  unfolding decode_bytes
  decode_bytes_step left byte bytes r r' e = rw e

  byte_overruns :
      (left byte : ℕ) (bytes : List ℕ) (r : Reader)
      → decode_byte root orig_size 8 byte r ≡ fault
      → decode_bytes root orig_size (suc left) (byte ∷ bytes) r ≡ fault
  unfolding decode_bytes
  byte_overruns left byte bytes r e = rw e

  decode_bytes-append :
      (front rest : List ℕ) (left : ℕ) (r r' : Reader)
      → decode_bytes root orig_size (length front) front r ≡ done r'
      → decode_bytes root orig_size (length front + left) (front ++ rest) r
        ≡ decode_bytes root orig_size left rest r'
  unfolding decode_bytes
  decode_bytes-append [] rest left r r' e = cc (zero-add left)
  decode_bytes-append (b ∷ front) rest left r r' e =
      let (r1, e1, e2) = >>=-eq-done (decode_byte root orig_size 8 b r) _ e in
      ap (λ n. decode_bytes root orig_size n (b ∷ front ++ rest) r) (suc-add (length front) left)
      ∙ decode_bytes_step (length front + left) b (front ++ rest) r r1 e1
      ∙ decode_bytes-append front rest left r1 r' e2

-- When the bytes before a byte have given all `orig_size` symbols, and the header counts one byte
-- more, whose bits hold a code of the tree, the decoder stores a symbol past the end of its buffer.
pub decode_overruns :
    (malloc : ℕ → Bool) (header : Meta) (root : Node) (front : List ℕ) (byte : ℕ)
    (rest decoded : List ℕ)
    → tree_build_from_lengths header.lengths ≡ done root
    → malloc header.orig_size ≡ true
    → decode_bytes root header.orig_size (length front) front (record { cur = root; decoded = [] })
      ≡ done (record { cur = root; decoded = decoded })
    → length decoded ≡ header.orig_size
    → holds_code root 8 byte ≡ true
    → length front < header.encoded_size
    → decode malloc header (front ++ byte ∷ rest) ≡ fault
unfolding decode
decode_overruns malloc header root front byte rest decoded built allocated before all more counted =
    let start : Reader = record { cur = root; decoded = [] } in
    let here : Reader = record { cur = root; decoded = decoded } in
    let k = header.encoded_size - length front - 1 in
    let size : length front + suc k ≡ header.encoded_size = omega (arith) in
    let run : decode_bytes root header.orig_size header.encoded_size (front ++ byte ∷ rest) start
        ≡ fault =
      ap (λ n. decode_bytes root header.orig_size n (front ++ byte ∷ rest) start) (sym size)
      ∙ decode_bytes-append root header.orig_size front (byte ∷ rest) (suc k) start here before
      ∙ byte_overruns root header.orig_size k byte rest here
          (decode_byte_overruns root header.orig_size root 8 byte decoded more all) in
    rw (built, allocated, run)
