-- ===== src/Crc32c/Combine.antt =====
-- `bra_crc32c_combine` of src/utils/lib_bra_crc32c.c against the CRC of the joined bytes.
use Prim.Native.Nat.{bit_and, bit_xor}
use mathlib.Core.Path.{ap₂, fun_ext}
use br_archive.Prelude.{
  ℕ, zero, suc, ◌+◌, ◌*◌, ◌/◌, ◌%◌, ◌^◌, ◌<◌, ◌≡◌, refl, sym, ap, ◌∙◌, inl, inr, false, List, [],
  ◌∷◌, ◌++◌, length, ◌==◌, Bool-cases, done, arith, IsBytes, All-append,
}
use br_archive.Prelude.Xor.{bit_and-bit, bit_xor-complement, xor_comm, xor_right_comm, bit_xor-lt}
use br_archive.Crc32c.{
  not32, crc32c_table, gf2_matrix_square, odd_rows, one_zero_bit, apply_zeros, combine_loop,
  crc32c_combine,
}
use br_archive.Crc32c.Bitwise.{
  bit_step, bit_steps, byte_step, bytes_step, bit_steps-xor, bit_steps-lt, bytes_step-lt,
  bytes_step-append, crc32c_loop_lem,
}
use Prim.Native.Nat.add
use native.Mathlib.Nat.{pow-suc}
use mathlib.Core.List.{append-nil}
use br_archive.Crc32c.Matrix.{rows, gf2_matrix_times-rows, gf2_matrix_square-rows}

-- The operator for `k` zero bits.
abbrev zeros : ℕ → List ℕ
zeros k = rows 32 (bit_steps k)

bit_steps-add : (n m c : ℕ) → bit_steps m (bit_steps n c) ≡ bit_steps (n + m) c
unfolding bit_steps
bit_steps-add zero m c = ap (λ t. bit_steps t c) (sym (add.zero m))
bit_steps-add (suc n) m c =
    bit_steps-add n m (bit_step c) ∙ ap (λ t. bit_steps t c) (sym (add.suc n m))

one_zero_bit_lem : one_zero_bit ≡ zeros 1
unfolding one_zero_bit odd_rows rows bit_steps bit_step
one_zero_bit_lem = refl

square-zeros : (k : ℕ) → gf2_matrix_square (zeros k) ≡ done (zeros (k + k))
square-zeros k =
    gf2_matrix_square-rows 32 (bit_steps k) (bit_steps-xor k) (bit_steps-lt k)
    ∙ ap (λ g. done (rows 32 g)) (fun_ext (bit_steps-add k k))

-- The zero bits are applied when the lowest bit of the length is set.
apply_zeros_lem :
    (k len c : ℕ) → c < 2 ^ 32 → apply_zeros (zeros k) len c ≡ done (bit_steps (k * (len % 2)) c)
unfolding apply_zeros
apply_zeros_lem k len c h = elim (Bool-cases (bit_and len 1 == 0)) [
  | inl e ↦
      let even : len % 2 ≡ 0 = ground (arith, bit_and-bit len) in
      let none : k * (len % 2) ≡ 0 = rw even (omega arith) in
      rw (e, none) (unfold bit_steps in refl)
  | inr e ↦
      let odd : len % 2 ≡ 1 = ground (arith, bit_and-bit len) in
      let all : k * (len % 2) ≡ k = rw odd (omega arith) in
      rw (e, all) (gf2_matrix_times-rows 32 (bit_steps k) c (bit_steps-xor k) h)
]

-- The steps of a round, as those of one whole length.
steps_two :
    (k a b len c : ℕ)
    → len ≡ a + 2 * b
    → bit_steps ((k + k) * b) (bit_steps (k * a) c) ≡ bit_steps (k * len) c
steps_two k a b len c e =
    bit_steps-add (k * a) ((k + k) * b) c
    ∙ ap (λ t. bit_steps t c) (omega (arith, ap (λ (t : ℕ). k * t) e))

steps_four :
    (k a b d len c : ℕ)
    → len ≡ a + 2 * b + 4 * d
    → bit_steps ((k + k + (k + k)) * d) (bit_steps ((k + k) * b) (bit_steps (k * a) c))
      ≡ bit_steps (k * len) c
steps_four k a b d len c e =
    ap (bit_steps ((k + k + (k + k)) * d)) (steps_two k a b (a + 2 * b) c refl)
    ∙ bit_steps-add (k * (a + 2 * b)) ((k + k + (k + k)) * d) c
    ∙ ap (λ t. bit_steps t c) (omega (arith, ap (λ (t : ℕ). k * t) e))

-- From the operator for `k` zero bits, the loop applies 2 * k zero bits for each unit of the
-- length. Each round takes two bits of it, so that 16 rounds take all of a uint32_t.
combine_loop_lem :
    (fuel k len c : ℕ)
    → c < 2 ^ 32
    → 0 < len
    → len < 4 ^ fuel
    → combine_loop fuel c len (zeros k) ≡ done (bit_steps ((k + k) * len) c)
unfolding combine_loop
combine_loop_lem zero k len c small positive enough = absurd (omega arith)
combine_loop_lem (suc fuel) k len c small positive enough =
    let k2 = k + k in
    let c1 = bit_steps (k2 * (len % 2)) c in
    let small1 : c1 < 2 ^ 32 = bit_steps-lt (k2 * (len % 2)) c small in
    rw (square-zeros k, apply_zeros_lem k2 len c small)
      (elim (Bool-cases (len / 2 == 0)) [
        | inl e ↦
            let whole : len % 2 ≡ len = ground arith in
            rw e (ap (λ (t : ℕ). done (bit_steps (k2 * t) c)) whole)
        | inr e ↦
            let k4 = k2 + k2 in
            let c2 = bit_steps (k4 * (len / 2 % 2)) c1 in
            rw (e, square-zeros k2, apply_zeros_lem k4 (len / 2) c1 small1)
              (elim (Bool-cases (len / 2 / 2 == 0)) [
                | inl e' ↦
                    rw e' (ap done (steps_two k2 (len % 2) (len / 2 % 2) len c (ground arith)))
                | inr e' ↦ rw e' (
                    combine_loop_lem fuel k4 (len / 2 / 2) c2
                      (bit_steps-lt (k4 * (len / 2 % 2)) c1 small1) (ground arith)
                      (omega (arith, pow-suc 4 fuel))
                    ∙ ap done
                        (steps_four k2 (len % 2) (len / 2 % 2) (len / 2 / 2) len c (omega arith)))
              ])
      ])

-- A difference of the register before the bytes is carried past them as by zero bytes.
bytes_step-xor :
    (bytes : List ℕ) (a b : ℕ)
    → bytes_step bytes (bit_xor a b) ≡ bit_xor (bytes_step bytes a) (bit_steps (8 * length bytes) b)
unfolding bytes_step byte_step
bytes_step-xor [] a b = unfold bit_steps in refl
bytes_step-xor (x ∷ bytes) a b =
    ap (λ t. bytes_step bytes (bit_steps 8 t)) (xor_right_comm a b x)
    ∙ ap (bytes_step bytes) (bit_steps-xor 8 (bit_xor a x) b)
    ∙ bytes_step-xor bytes (bit_steps 8 (bit_xor a x)) (bit_steps 8 b)
    ∙ ap (bit_xor (bytes_step bytes (bit_steps 8 (bit_xor a x))))
        (bit_steps-add 8 (8 * length bytes) b ∙ ap (λ (t : ℕ). bit_steps t b) (omega arith))

complement_of_xor : (a b : ℕ) → a < 2 ^ 32 → b < 2 ^ 32 → not32 (bit_xor a b) ≡ bit_xor (not32 a) b
complement_of_xor a b p q =
    sym (bit_xor-complement (bit_xor a b) (bit_xor-lt 32 a b p q))
    ∙ xor_right_comm a b 0xffff_ffff
    ∙ ap (λ t. bit_xor t b) (bit_xor-complement a p)

-- The CRC of joined bytes, from the CRC of each part.
joined :
    (xs ys : List ℕ) (previous : ℕ)
    → IsBytes xs
    → IsBytes ys
    → crc32c_table (xs ++ ys) previous
      ≡ bit_xor (bit_steps (8 * length ys) (crc32c_table xs previous)) (crc32c_table ys 0)
unfolding crc32c_table
joined xs ys previous hx hy =
    let start = not32 previous in
    let middle = bytes_step xs start in
    let all_ones : ℕ = 0xffff_ffff in
    let ys_alone = bytes_step ys all_ones in
    let small : middle < 2 ^ 32 = bytes_step-lt xs start hx (omega arith) in
    let small_ys : ys_alone < 2 ^ 32 = bytes_step-lt ys all_ones hy (omega arith) in
    let crc = not32 middle in
    let shifted = bit_steps (8 * length ys) crc in
    let split : middle ≡ bit_xor all_ones crc =
      sym (xor_comm all_ones crc ∙ bit_xor-complement crc (omega arith) ∙ omega arith) in
    ap not32 (
      crc32c_loop_lem (xs ++ ys) start (All-append _ xs ys hx hy)
      ∙ bytes_step-append xs ys start
      ∙ ap (bytes_step ys) split
      ∙ bytes_step-xor ys all_ones crc)
    ∙ complement_of_xor ys_alone shifted small_ys (bit_steps-lt (8 * length ys) crc (omega arith))
    ∙ xor_comm (not32 ys_alone) shifted
    ∙ sym (
        ap₂ (λ u v. bit_xor (bit_steps (8 * length ys) (not32 u)) (not32 v))
          (crc32c_loop_lem xs start hx) (crc32c_loop_lem ys all_ones hy))

-- For bytes `xs` and fewer than 2 ^ 32 bytes `ys`, `bra_crc32c_combine` takes the CRC of `xs` from
-- any previous value, the CRC of `ys` alone and the number of `ys`, and returns the CRC of both,
-- joined. Its loop ends and no access to a matrix is out of bounds.
pub crc32c_combine-append :
    (xs ys : List ℕ) (previous : ℕ)
    → IsBytes xs
    → IsBytes ys
    → length ys < 2 ^ 32
    → crc32c_combine (crc32c_table xs previous) (crc32c_table ys 0) (length ys)
      ≡ done (crc32c_table (xs ++ ys) previous)
unfolding crc32c_combine
crc32c_combine-append xs [] previous hx hy short =
    ap (λ t. done (crc32c_table t previous)) (sym (append-nil xs))
crc32c_combine-append xs (y ∷ ys) previous hx hy short =
    let len = length (y ∷ ys) in
    let crc = crc32c_table xs previous in
    let small : crc < 2 ^ 32 = unfold crc32c_table in (omega arith) in
    let positive : (len == 0) ≡ false = ground arith in
    rw
      (
        positive,
        one_zero_bit_lem,
        square-zeros 1,
        square-zeros 2,
        combine_loop_lem 16 4 len crc small (omega arith) short,
      )
      (ap done (sym (joined xs (y ∷ ys) previous hx hy)))
