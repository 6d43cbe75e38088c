-- ===== src/Io/Words.antt =====
-- Words and names in memory: the bytes of an integer, lowest first, and of a string up to its NUL.
use br_archive.Prelude.{
  ℕ, zero, suc, ◌+◌, ◌*◌, ◌/◌, ◌%◌, ◌^◌, ◌<◌, ◌≡◌, refl, ap, false, List, [], ◌∷◌, length, All,
  ◌==◌, if◌then◌else◌, arith,
}
use native.Mathlib.Nat.{pow-suc}

abbrev pub little_endian : List ℕ → ℕ
little_endian [] = 0
little_endian (b ∷ bytes) = b + 256 * little_endian bytes

-- The `width` bytes of a number.
abbrev pub bytes_of : ℕ → ℕ → List ℕ
bytes_of zero n = []
bytes_of (suc width) n = (n % 256) ∷ bytes_of width (n / 256)

pub length-bytes_of : (width n : ℕ) → length (bytes_of width n) ≡ width
length-bytes_of zero n = refl
length-bytes_of (suc width) n = ap suc (length-bytes_of width (n / 256))

pub little_endian-bytes_of : (width n : ℕ) → n < 256 ^ width → little_endian (bytes_of width n) ≡ n
little_endian-bytes_of zero n h = omega arith
little_endian-bytes_of (suc width) n h =
    let small : n < 256 * 256 ^ width = omega (arith, h, pow-suc 256 width) in
    omega (arith, little_endian-bytes_of width (n / 256) (omega (arith, small)))

-- A string in a buffer.
abbrev pub c_string : List ℕ → List ℕ
c_string [] = []
c_string (c ∷ buf) = if c == 0 then [] else c ∷ c_string buf

pub c_string_lem : (buf : List ℕ) → All (λ c. 0 < c) buf → c_string buf ≡ buf
c_string_lem [] h = refl
c_string_lem (c ∷ buf) h =
    let some_char : (c == 0) ≡ false = ground (arith, h.0) in
    rw some_char (ap (λ t. c ∷ t) (c_string_lem buf h.1))
