-- ===== src/Crc32c/Bitwise.antt =====
-- The lookup table of src/utils/lib_bra_crc32c.c against CRC-32C computed bit by bit.
use Prim.Native.Nat.{bit_and, bit_xor}
use mathlib.Core.Path.{ap₂}
use br_archive.Prelude.{
  ℕ, zero, suc, ◌+◌, ◌/◌, ◌%◌, ◌^◌, ◌<◌, ◌≡◌, refl, sym, ap, ◌∙◌, true, List, [], ◌∷◌, ◌++◌, get_or,
  ◌==◌, ==_iff, arith, IsBytes, passes_below, passes_below-lt, All-append,
}
use br_archive.Prelude.Xor.{
  bit_xor-half, bit_xor-parity, xor_medial, bit_xor-zero, zero-bit_xor, bit_xor-lt, bit_xor-shift,
  bit_and-byte, div-two-pow-suc, mod-two-pow-suc, xor_right_comm,
}
use br_archive.Crc32c.{poly, not32, crc32c_loop, crc32c_table}
use br_archive.Crc32c.Lookup.{lookup_table}

-- The multiple of the polynomial that a lowest bit takes with it.
pub carry : ℕ → ℕ
carry zero = 0
carry (suc r) = poly

-- One bit of the reflected CRC: the lowest bit leaves the register.
unfoldable pub bit_step : ℕ → ℕ
unfolding carry
bit_step c = bit_xor (c / 2) (carry (c % 2))

unfoldable pub bit_steps : ℕ → ℕ → ℕ
bit_steps zero c = c
bit_steps (suc n) c = bit_steps n (bit_step c)

-- A byte goes into the register's low bits, and eight bits leave it.
unfoldable pub byte_step : ℕ → ℕ → ℕ
byte_step c b = bit_steps 8 (bit_xor c b)

unfoldable pub bytes_step : List ℕ → ℕ → ℕ
bytes_step [] c = c
bytes_step (b ∷ bytes) c = bytes_step bytes (byte_step c b)

-- CRC-32C of the bytes, from the definition.
unfoldable pub reference : List ℕ → ℕ → ℕ
reference bytes previous = not32 (bytes_step bytes (not32 previous))

carry-xor : (r s : ℕ) → r < 2 → s < 2 → carry ((r + s) % 2) ≡ bit_xor (carry r) (carry s)
unfolding carry
carry-xor zero zero p q = refl
carry-xor zero (suc zero) p q = refl
carry-xor zero (suc (suc s)) p q = absurd (omega arith)
carry-xor (suc zero) zero p q = refl
carry-xor (suc zero) (suc zero) p q = refl
carry-xor (suc zero) (suc (suc s)) p q = absurd (omega arith)
carry-xor (suc (suc r)) s p q = absurd (omega arith)

-- The register is linear over exclusive or.
pub bit_step-xor : (a b : ℕ) → bit_step (bit_xor a b) ≡ bit_xor (bit_step a) (bit_step b)
unfolding bit_step
bit_step-xor a b =
    rw (bit_xor-half a b, bit_xor-parity a b, carry-xor (a % 2) (b % 2) (omega arith) (omega arith))
      (xor_medial (a / 2) (b / 2) (carry (a % 2)) (carry (b % 2)))

pub bit_steps-xor :
    (n a b : ℕ) → bit_steps n (bit_xor a b) ≡ bit_xor (bit_steps n a) (bit_steps n b)
unfolding bit_steps
bit_steps-xor zero a b = refl
bit_steps-xor (suc n) a b = rw (bit_step-xor a b) (bit_steps-xor n (bit_step a) (bit_step b))

-- `n` steps only look at the low `n` bits; those above are shifted down.
bit_steps_split : (n x : ℕ) → bit_steps n x ≡ bit_xor (bit_steps n (x % 2 ^ n)) (x / 2 ^ n)
unfolding bit_steps bit_step
bit_steps_split zero x = sym (ap₂ bit_xor (none_low x) (all_high x) ∙ zero-bit_xor x)
  where
    none_low : (x : ℕ) → x % 1 ≡ 0
    none_low x = omega arith

    all_high : (x : ℕ) → x / 1 ≡ x
    all_high x = omega arith
bit_steps_split (suc n) x =
    let low : x % 2 ^ suc n / 2 ≡ x / 2 % 2 ^ n = omega (arith, mod-two-pow-suc n x) in
    let parity : x % 2 ^ suc n % 2 ≡ x % 2 = omega (arith, mod-two-pow-suc n x) in
    let leaving = carry (x % 2) in
    rw (bit_steps-xor n (x / 2) leaving, bit_steps_split n (x / 2))
      (xor_right_comm (bit_steps n (x / 2 % 2 ^ n)) (x / 2 / 2 ^ n) (bit_steps n leaving)
        ∙ sym (
            ap₂ bit_xor
              (ap (bit_steps n) (ap₂ (λ u v. bit_xor u (carry v)) low parity)
                ∙ bit_steps-xor n (x / 2 % 2 ^ n) leaving)
              (div-two-pow-suc n x)))

lookup_table_entries : passes_below (λ x. get_or lookup_table x 0 == bit_steps 8 x) 256 ≡ true
unfolding passes_below lookup_table bit_steps bit_step
lookup_table_entries = refl

lookup_table_lem : (x : ℕ) → x < 256 → get_or lookup_table x 0 ≡ bit_steps 8 x
lookup_table_lem x h = (==_iff _ _).0 (passes_below-lt _ 256 x lookup_table_entries h)

-- One round of the table loop is eight bitwise steps.
table_round :
    (crc b : ℕ)
    → b < 256
    → bit_xor (get_or lookup_table (bit_and (bit_xor crc b) 0xff) 0) (crc / 2 ^ 8) ≡ byte_step crc b
unfolding byte_step
table_round crc b h =
    let x = bit_xor crc b in
    let no_high : b / 2 ^ 8 ≡ 0 = omega arith in
    let high : crc / 2 ^ 8 ≡ x / 2 ^ 8 =
      sym
        (bit_xor-shift 8 crc b ∙ ap (bit_xor (crc / 2 ^ 8)) no_high ∙ bit_xor-zero (crc / 2 ^ 8)) in
    ap₂ bit_xor
      (ap (λ i. get_or lookup_table i 0) (bit_and-byte x)
        ∙ lookup_table_lem (x % 256) (omega arith))
      high
    ∙ sym (bit_steps_split 8 x)

pub crc32c_loop_lem :
    (bytes : List ℕ) (crc : ℕ) → IsBytes bytes → crc32c_loop bytes crc ≡ bytes_step bytes crc
unfolding crc32c_loop bytes_step
crc32c_loop_lem [] crc h = refl
crc32c_loop_lem (b ∷ bytes) crc h =
    rw (table_round crc b h.0) (crc32c_loop_lem bytes (byte_step crc b) h.1)

-- On bytes, the table version computes the CRC-32C that is defined bit by bit, from any previous
-- value.
pub crc32c_table-reference :
    (bytes : List ℕ) (previous : ℕ)
    → IsBytes bytes
    → crc32c_table bytes previous ≡ reference bytes previous
unfolding crc32c_table reference
crc32c_table-reference bytes previous h = ap not32 (crc32c_loop_lem bytes (not32 previous) h)

-- A register of 32 bits stays one.
bit_step-lt : (c : ℕ) → c < 2 ^ 32 → bit_step c < 2 ^ 32
unfolding bit_step
bit_step-lt c h = bit_xor-lt 32 (c / 2) (carry (c % 2)) (omega arith) (carry-lt (c % 2))
  where
    carry-lt : (r : ℕ) → carry r < 2 ^ 32
    carry-lt zero = omega arith
    carry-lt (suc r) = omega arith

pub bit_steps-lt : (n c : ℕ) → c < 2 ^ 32 → bit_steps n c < 2 ^ 32
unfolding bit_steps
bit_steps-lt zero c h = h
bit_steps-lt (suc n) c h = bit_steps-lt n (bit_step c) (bit_step-lt c h)

pub bytes_step-lt :
    (bytes : List ℕ) (c : ℕ) → IsBytes bytes → c < 2 ^ 32 → bytes_step bytes c < 2 ^ 32
unfolding bytes_step byte_step
bytes_step-lt [] c b h = h
bytes_step-lt (x ∷ bytes) c b h =
    bytes_step-lt bytes _ b.1
      (bit_steps-lt 8 (bit_xor c x) (bit_xor-lt 32 c x h (omega (arith, b.0))))

pub bytes_step-append :
    (xs ys : List ℕ) (c : ℕ) → bytes_step (xs ++ ys) c ≡ bytes_step ys (bytes_step xs c)
unfolding bytes_step
bytes_step-append [] ys c = refl
bytes_step-append (x ∷ xs) ys c = bytes_step-append xs ys (byte_step c x)

-- A CRC taken in pieces, each from the value of the one before, is the CRC of the whole.
pub crc32c_table-append :
    (xs ys : List ℕ) (previous : ℕ)
    → IsBytes xs
    → IsBytes ys
    → crc32c_table (xs ++ ys) previous ≡ crc32c_table ys (crc32c_table xs previous)
unfolding crc32c_table
crc32c_table-append xs ys previous hx hy =
    let start = not32 previous in
    let middle = bytes_step xs start in
    let small : middle < 2 ^ 32 = bytes_step-lt xs start hx (omega arith) in
    let back : not32 (not32 middle) ≡ middle = omega arith in
    ap not32 (
      crc32c_loop_lem (xs ++ ys) start (All-append _ xs ys hx hy)
      ∙ bytes_step-append xs ys start
      ∙ sym (
          crc32c_loop_lem ys (not32 (not32 (crc32c_loop xs start))) hy
          ∙ ap (λ t. bytes_step ys (not32 (not32 t))) (crc32c_loop_lem xs start hx)
          ∙ ap (bytes_step ys) back))
