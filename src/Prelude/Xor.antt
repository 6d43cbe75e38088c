-- ===== src/Prelude/Xor.antt =====
-- The laws of `^` of C on unsigned words, from the binary digits, and the low mask of a byte.
use Prim.Native.Nat.{
  ℕ, zero, suc, ◌+◌, ◌-◌, ◌*◌, ◌/◌, ◌%◌, ◌^◌, ◌≤◌, ◌<◌, bit_and, bit_xor, digits, bitwise, differ,
  bit_xor-bitwise, bit_and-bitwise, min,
}
use Prim.Native.Nat.add
use mathlib.Core.Path.{◌≡◌, refl, sym, ap, ap₂, ◌∙◌}
use native.Mathlib.Nat.{zero-add, pow-suc, one-le-pow}
use native.Mathlib.Omega.{arith}

-- The native operations read binary digits on fuel, and more fuel than the number changes nothing.
module _ (rest : ℕ → ℕ) (digit : ℕ → ℕ → ℕ) where
  one_more : (a b n : ℕ) → a ≤ n → digits rest digit (suc n) a b ≡ digits rest digit n a b
  one_more zero b zero h = refl
  one_more zero b (suc n) h = refl
  one_more (suc a) b zero h = absurd (omega arith)
  one_more (suc a) b (suc n) h =
      ap (λ (t : ℕ). t * 2 + digit (suc a % 2) (b % 2))
        (one_more (suc a / 2) (b / 2) n (omega arith))

  some_more :
      (extra a b n : ℕ) → a ≤ n → digits rest digit (extra + n) a b ≡ digits rest digit n a b
  some_more zero a b n h = rw zero-add
  some_more (suc extra) a b n h =
      rw add.suc (one_more a b (extra + n) (omega arith) ∙ some_more extra a b n h)

  -- The lowest digit, and those above it.
  lowest_digit :
      (a b : ℕ)
      → bitwise rest digit (suc a) b
        ≡ 2 * bitwise rest digit (suc a / 2) (b / 2) + digit (suc a % 2) (b % 2)
  lowest_digit a b =
      let half = suc a / 2 in
      let split : a - half + half ≡ a = omega arith in
      let enough = some_more (a - half) half (b / 2) half (omega arith) in
      omega (arith, enough, ap (λ (t : ℕ). digits rest digit t half (b / 2)) split)

pub zero-bit_xor : (b : ℕ) → bit_xor 0 b ≡ b
zero-bit_xor b = bit_xor-bitwise 0 b

differ_lem : (x y : ℕ) → x < 2 → y < 2 → differ x y ≡ (x + y) % 2
differ_lem zero y p q = omega arith
differ_lem (suc zero) zero p q = refl
differ_lem (suc zero) (suc zero) p q = refl
differ_lem (suc zero) (suc (suc y)) p q = absurd (omega arith)
differ_lem (suc (suc x)) y p q = absurd (omega arith)

-- One equation for the lowest digit.
pub bit_xor_step : (a b : ℕ) → bit_xor a b ≡ 2 * bit_xor (a / 2) (b / 2) + (a % 2 + b % 2) % 2
bit_xor_step zero b = omega (arith, zero-bit_xor b, zero-bit_xor (b / 2))
bit_xor_step (suc a) b = omega (
  arith,
  bit_xor-bitwise (suc a) b,
  bit_xor-bitwise (suc a / 2) (b / 2),
  lowest_digit (λ y. y) differ a b,
  differ_lem (suc a % 2) (b % 2) (omega arith) (omega arith),
)

pub bit_xor-half : (a b : ℕ) → bit_xor a b / 2 ≡ bit_xor (a / 2) (b / 2)
bit_xor-half a b = omega (arith, bit_xor_step a b)

pub bit_xor-parity : (a b : ℕ) → bit_xor a b % 2 ≡ (a % 2 + b % 2) % 2
bit_xor-parity a b = omega (arith, bit_xor_step a b)

xor_comm_fuel : (n a b : ℕ) → a ≤ n → b ≤ n → bit_xor a b ≡ bit_xor b a
xor_comm_fuel zero zero zero p q = refl
xor_comm_fuel zero zero (suc b) p q = absurd (omega arith)
xor_comm_fuel zero (suc a) b p q = absurd (omega arith)
xor_comm_fuel (suc n) a b p q = omega (
  arith,
  bit_xor_step a b,
  bit_xor_step b a,
  xor_comm_fuel n (a / 2) (b / 2) (omega arith) (omega arith),
)

pub xor_comm : (a b : ℕ) → bit_xor a b ≡ bit_xor b a
xor_comm a b = xor_comm_fuel (a + b) a b (omega arith) (omega arith)

xor_assoc_fuel :
    (n a b c : ℕ) → a ≤ n → b ≤ n → c ≤ n → bit_xor (bit_xor a b) c ≡ bit_xor a (bit_xor b c)
xor_assoc_fuel zero zero zero zero p q r = refl
xor_assoc_fuel zero zero zero (suc c) p q r = absurd (omega arith)
xor_assoc_fuel zero zero (suc b) c p q r = absurd (omega arith)
xor_assoc_fuel zero (suc a) b c p q r = absurd (omega arith)
xor_assoc_fuel (suc n) a b c p q r = omega (
  arith,
  bit_xor_step (bit_xor a b) c,
  bit_xor_step a (bit_xor b c),
  ap (λ (t : ℕ). bit_xor t (c / 2)) (bit_xor-half a b),
  ap (λ (t : ℕ). bit_xor (a / 2) t) (bit_xor-half b c),
  bit_xor-parity a b,
  bit_xor-parity b c,
  xor_assoc_fuel n (a / 2) (b / 2) (c / 2) (omega arith) (omega arith) (omega arith),
)

pub xor_assoc : (a b c : ℕ) → bit_xor (bit_xor a b) c ≡ bit_xor a (bit_xor b c)
xor_assoc a b c = xor_assoc_fuel (a + b + c) a b c (omega arith) (omega arith) (omega arith)

pub bit_xor-zero : (a : ℕ) → bit_xor a 0 ≡ a
bit_xor-zero a = xor_comm a 0 ∙ zero-bit_xor a

xor_self_fuel : (n a : ℕ) → a ≤ n → bit_xor a a ≡ 0
xor_self_fuel zero zero p = refl
xor_self_fuel zero (suc a) p = absurd (omega arith)
xor_self_fuel (suc n) a p = omega (arith, bit_xor_step a a, xor_self_fuel n (a / 2) (omega arith))

pub xor_self : (a : ℕ) → bit_xor a a ≡ 0
xor_self a = xor_self_fuel a a (omega arith)

-- The middle two of four are swapped.
pub xor_medial :
    (a b c d : ℕ) → bit_xor (bit_xor a b) (bit_xor c d) ≡ bit_xor (bit_xor a c) (bit_xor b d)
xor_medial a b c d =
    xor_assoc a b (bit_xor c d)
    ∙ ap (bit_xor a)
        (sym (xor_assoc b c d) ∙ ap (λ t. bit_xor t d) (xor_comm b c) ∙ xor_assoc c b d)
    ∙ sym (xor_assoc a c (bit_xor b d))

-- The last of three goes to the second place.
pub xor_right_comm : (a b c : ℕ) → bit_xor (bit_xor a b) c ≡ bit_xor (bit_xor a c) b
xor_right_comm a b c = xor_assoc a b c ∙ ap (bit_xor a) (xor_comm b c) ∙ sym (xor_assoc a c b)

pub xor_cancel : (a b : ℕ) → bit_xor (bit_xor a b) b ≡ a
xor_cancel a b = xor_assoc a b b ∙ ap (bit_xor a) (xor_self b) ∙ bit_xor-zero a

-- Words of `k` bits stay words of `k` bits.
pub bit_xor-lt : (k a b : ℕ) → a < 2 ^ k → b < 2 ^ k → bit_xor a b < 2 ^ k
bit_xor-lt zero a b p q =
    let a0 : a ≡ 0 = omega arith in let b0 : b ≡ 0 = omega arith in rw (a0, b0) (omega arith)
bit_xor-lt (suc k) a b p q = omega (
  arith,
  pow-suc 2 k,
  bit_xor_step a b,
  bit_xor-lt k (a / 2) (b / 2) (omega (arith, pow-suc 2 k)) (omega (arith, pow-suc 2 k)),
)

-- The bits of a word above the lowest `k + 1`, and those below them.
pub div-two-pow-suc : (k a : ℕ) → a / 2 ^ suc k ≡ a / 2 / 2 ^ k
div-two-pow-suc k a = rw (pow-suc 2 k) (halves (2 ^ k) a (one-le-pow k 2 (omega arith)))
  where
    halves : (m a : ℕ) → 0 < m → a / (m * 2) ≡ a / 2 / m
    halves m a h = grind arith

pub mod-two-pow-suc : (k a : ℕ) → a % 2 ^ suc k ≡ 2 * (a / 2 % 2 ^ k) + a % 2
mod-two-pow-suc k a = rw (pow-suc 2 k) (halves (2 ^ k) a (one-le-pow k 2 (omega arith)))
  where
    halves : (m a : ℕ) → 0 < m → a % (m * 2) ≡ 2 * (a / 2 % m) + a % 2
    halves m a h = grind arith

pub bit_xor-shift : (k a b : ℕ) → bit_xor a b / 2 ^ k ≡ bit_xor (a / 2 ^ k) (b / 2 ^ k)
bit_xor-shift zero a b = omega (
  arith,
  ap (λ (t : ℕ). bit_xor t (b / 1)) (one_part a),
  ap (λ (t : ℕ). bit_xor a t) (one_part b),
)
  where
    one_part : (n : ℕ) → n / 1 ≡ n
    one_part n = omega arith
bit_xor-shift (suc k) a b =
    rw (div-two-pow-suc k (bit_xor a b), div-two-pow-suc k a, div-two-pow-suc k b, bit_xor-half a b)
      (bit_xor-shift k (a / 2) (b / 2))

-- `k` low bits set.
pub ones : ℕ → ℕ
ones zero = 0
ones (suc k) = 2 * ones k + 1

bit_and-base : (mask : ℕ) → bit_and zero mask ≡ zero
bit_and-base mask = bit_and-bitwise zero mask

mask_lowest :
    (word mask : ℕ)
    → bit_and word mask ≡ 2 * bit_and (word / 2) (mask / 2) + min (word % 2) (mask % 2)
mask_lowest zero mask = omega (arith, bit_and-base mask, bit_and-base (mask / 2))
mask_lowest (suc word) mask = omega (
  arith,
  lowest_digit (λ y. zero) min word mask,
  bit_and-bitwise (suc word / 2) (mask / 2),
  bit_and-bitwise (suc word) mask,
)

-- A mask bounds what is left.
bit_and-le_mask : (mask word rounds : ℕ) → word ≤ rounds → bit_and word mask ≤ mask
bit_and-le_mask mask zero rounds h = omega (arith, bit_and-base mask)
bit_and-le_mask mask (suc word) zero h = absurd (omega arith)
bit_and-le_mask mask (suc word) (suc rounds) h = omega (
  arith,
  mask_lowest (suc word) mask,
  bit_and-le_mask (mask / 2) (suc word / 2) rounds (omega arith),
)

pub bit_and-ones : (k a : ℕ) → bit_and a (ones k) ≡ a % 2 ^ k
unfolding ones
bit_and-ones zero a = omega (arith, bit_and-le_mask 0 a a (omega arith))
bit_and-ones (suc k) a = omega (
  arith,
  mask_lowest a (2 * ones k + 1),
  ap (λ (t : ℕ). bit_and (a / 2) t) (half_odd (ones k)),
  bit_and-ones k (a / 2),
  mod-two-pow-suc k a,
)
  where
    half_odd : (n : ℕ) → (2 * n + 1) / 2 ≡ n
    half_odd n = omega arith

-- `a & 0xFF` is the low byte of `a`.
pub bit_and-byte : (a : ℕ) → bit_and a 0xff ≡ a % 256
unfolding ones
bit_and-byte a = bit_and-ones 8 a

-- `a & 1` is the lowest bit of `a`.
pub bit_and-bit : (a : ℕ) → bit_and a 1 ≡ a % 2
unfolding ones
bit_and-bit a = bit_and-ones 1 a

pub bit_xor-double : (a b : ℕ) → bit_xor (2 * a) (2 * b) ≡ 2 * bit_xor a b
bit_xor-double a b = omega (arith, bit_xor_step (2 * a) (2 * b), ap₂ bit_xor (halved a) (halved b))
  where
    halved : (n : ℕ) → 2 * n / 2 ≡ n
    halved n = omega arith

-- A word is its double half and its lowest bit.
pub bit_xor_split : (a : ℕ) → bit_xor (2 * (a / 2)) (a % 2) ≡ a
bit_xor_split a = omega (
  arith,
  bit_xor_step (2 * (a / 2)) (a % 2),
  ap₂ bit_xor (halved (a / 2)) (none_left a) ∙ bit_xor-zero (a / 2),
)
  where
    halved : (n : ℕ) → 2 * n / 2 ≡ n
    halved n = omega arith

    none_left : (n : ℕ) → n % 2 / 2 ≡ 0
    none_left n = omega arith

-- The complement of a word.
pub bit_xor-ones : (k a : ℕ) → a < 2 ^ k → bit_xor a (ones k) ≡ ones k - a
unfolding ones
bit_xor-ones zero a h = omega (arith, bit_xor-zero a)
bit_xor-ones (suc k) a h = omega (
  arith,
  bit_xor_step a (2 * ones k + 1),
  ap (λ (t : ℕ). bit_xor (a / 2) t) (half_odd (ones k)),
  bit_xor-ones k (a / 2) (omega (arith, pow-suc 2 k)),
  ones-lt k,
  pow-suc 2 k,
)
  where
    half_odd : (n : ℕ) → (2 * n + 1) / 2 ≡ n
    half_odd n = omega arith

    ones-lt : (n : ℕ) → ones n + 1 ≡ 2 ^ n
    ones-lt zero = omega arith
    ones-lt (suc n) = omega (arith, ones-lt n, pow-suc 2 n)

pub bit_xor-complement : (a : ℕ) → a < 2 ^ 32 → bit_xor a 0xffff_ffff ≡ 0xffff_ffff - a
unfolding ones
bit_xor-complement a h = bit_xor-ones 32 a h
