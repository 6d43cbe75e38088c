-- ===== src/Crc32c/Matrix.antt =====
-- The GF(2) matrices of src/utils/lib_bra_crc32c.c: the rows of a linear map on words.
use Prim.Native.Nat.{bit_and, bit_xor}
use br_archive.Prelude.{
  ℕ, zero, suc, ◌*◌, ◌/◌, ◌%◌, ◌^◌, ◌<◌, ◌≡◌, refl, sym, ap, ◌∙◌, inl, inr, List, [], ◌∷◌, All,
  ◌==◌, if◌then◌else◌, Bool-cases, done, arith,
}
use br_archive.Prelude.Xor.{
  bit_and-bit, bit_xor-double, bit_xor_split, xor_self, bit_xor-zero, xor_assoc, xor_comm,
  zero-bit_xor,
}
use br_archive.Crc32c.{
  gf2_matrix_times_loop, gf2_matrix_times, gf2_matrix_square_loop, gf2_matrix_square,
}
use native.Mathlib.Nat.{pow-suc, one-le-pow}

abbrev pub IsLinear : (ℕ → ℕ) → Type 0
IsLinear g = (a b : ℕ) → g (bit_xor a b) ≡ bit_xor (g a) (g b)

-- The images of 1, 2, 4 and so on, `n` of them.
unfoldable pub rows : ℕ → (ℕ → ℕ) → List ℕ
rows zero g = []
rows (suc n) g = g 1 ∷ rows n (λ x. g (2 * x))

linear-zero : (g : ℕ → ℕ) → IsLinear g → g 0 ≡ 0
linear-zero g lin = ap g (sym (xor_self 0)) ∙ lin 0 0 ∙ xor_self (g 0)

IsLinear-double : (g : ℕ → ℕ) → IsLinear g → IsLinear (λ x. g (2 * x))
IsLinear-double g lin a b = ap g (sym (bit_xor-double a b)) ∙ lin (2 * a) (2 * b)

-- A row is added when the lowest bit is set.
row_added :
    (g : ℕ → ℕ) (vec sum : ℕ)
    → IsLinear g
    → (if bit_and vec 1 == 0 then sum else bit_xor sum (g 1)) ≡ bit_xor sum (g (vec % 2))
row_added g vec sum lin = elim (Bool-cases (bit_and vec 1 == 0)) [
  | inl e ↦
      let even : vec % 2 ≡ 0 = ground (arith, bit_and-bit vec) in
      rw (e, even, linear-zero g lin) (sym (bit_xor-zero sum))
  | inr e ↦ let odd : vec % 2 ≡ 1 = ground (arith, bit_and-bit vec) in rw (e, odd)
]

times_loop_lem :
    (n : ℕ) (g : ℕ → ℕ) (vec sum : ℕ)
    → IsLinear g
    → vec < 2 ^ n
    → gf2_matrix_times_loop (rows n g) vec sum ≡ done (bit_xor sum (g vec))
unfolding gf2_matrix_times_loop rows
times_loop_lem zero g vec sum lin h =
    let none : vec ≡ 0 = omega arith in
    rw (none, linear-zero g lin) (ap done (sym (bit_xor-zero sum)))
times_loop_lem (suc n) g vec sum lin h = elim (Bool-cases (vec == 0)) [
  | inl e ↦
      let none : vec ≡ 0 = ground arith in
      rw (none, linear-zero g lin) (ap done (sym (bit_xor-zero sum)))
  | inr e ↦
      rw (e, row_added g vec sum lin)
        (times_loop_lem n (λ x. g (2 * x)) (vec / 2) (bit_xor sum (g (vec % 2)))
            (IsLinear-double g lin) (omega (arith, pow-suc 2 n))
          ∙ ap done (
              xor_assoc sum (g (vec % 2)) (g (2 * (vec / 2)))
              ∙ ap (bit_xor sum) (
                  xor_comm (g (vec % 2)) (g (2 * (vec / 2)))
                  ∙ sym (lin (2 * (vec / 2)) (vec % 2))
                  ∙ ap g (bit_xor_split vec))))
]

-- A matrix with a row for each bit of the vector applies its map, and reads no other row.
pub gf2_matrix_times-rows :
    (n : ℕ) (g : ℕ → ℕ) (vec : ℕ)
    → IsLinear g
    → vec < 2 ^ n
    → gf2_matrix_times (rows n g) vec ≡ done (g vec)
unfolding gf2_matrix_times
gf2_matrix_times-rows n g vec lin h =
    times_loop_lem n g vec 0 lin h ∙ ap done (zero-bit_xor (g vec))

rows-lt :
    (n k : ℕ) (h : ℕ → ℕ) → ((x : ℕ) → x < 2 ^ n → h x < 2 ^ k) → All (λ x. x < 2 ^ k) (rows n h)
unfolding rows
rows-lt zero k h small = tt
rows-lt (suc n) k h small = (
  small 1 (omega (arith, pow-suc 2 n, one-le-pow n 2 (omega arith))),
  rows-lt n k (λ x. h (2 * x)) (λ x p. small (2 * x) (omega (arith, pow-suc 2 n))),
)

square_loop_lem :
    (n m : ℕ) (g h : ℕ → ℕ)
    → IsLinear g
    → All (λ x. x < 2 ^ m) (rows n h)
    → gf2_matrix_square_loop (rows m g) (rows n h) ≡ done (rows n (λ x. g (h x)))
unfolding gf2_matrix_square_loop rows
square_loop_lem zero m g h lin small = refl
square_loop_lem (suc n) m g h lin small = rw (
  gf2_matrix_times-rows m g (h 1) lin small.0,
  square_loop_lem n m g (λ x. h (2 * x)) lin small.1,
)

-- Squaring the matrix composes its map with itself.
pub gf2_matrix_square-rows :
    (n : ℕ) (g : ℕ → ℕ)
    → IsLinear g
    → ((x : ℕ) → x < 2 ^ n → g x < 2 ^ n)
    → gf2_matrix_square (rows n g) ≡ done (rows n (λ x. g (g x)))
unfolding gf2_matrix_square
gf2_matrix_square-rows n g lin small = square_loop_lem n n g g lin (rows-lt n n g small)
