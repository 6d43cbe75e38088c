-- ===== src/Crc32c.antt =====
-- src/utils/lib_bra_crc32c.c: CRC-32C over byte lists. A word of 32 bits is a number below 2 ^ 32.
pub mod Lookup
pub mod Bitwise
pub mod Sse
pub mod Matrix
pub mod Combine
mod Tests
use Prim.Native.Nat.{bit_and, bit_xor}
use br_archive.Prelude.{
  ℕ, zero, suc, ◌+◌, ◌-◌, ◌*◌, ◌/◌, ◌%◌, ◌^◌, List, [], ◌∷◌, get_or, if◌then◌else◌, ◌==◌, Outcome,
  done, fault, stuck, ◌>>=◌,
}
use br_archive.Crc32c.Lookup.{lookup_table}

-- BRA_CRC32C_POLY.
abbrev pub poly : ℕ
poly = 0x82f63b78

-- `~` on a uint32_t.
abbrev pub not32 : ℕ → ℕ
not32 c = 0xffff_ffff - c

-- The loop of bra_crc32c_table; the mask keeps the index inside the table's 256 entries.
unfoldable pub crc32c_loop : List ℕ → ℕ → ℕ
crc32c_loop [] crc = crc
crc32c_loop (b ∷ bytes) crc =
    crc32c_loop bytes (bit_xor (get_or lookup_table (bit_and (bit_xor crc b) 0xff) 0) (crc / 2 ^ 8))

unfoldable pub crc32c_table : List ℕ → ℕ → ℕ
crc32c_table bytes previous_crc = not32 (crc32c_loop bytes (not32 previous_crc))

-- GF2_DIM.
abbrev pub gf2_dim : ℕ
gf2_dim = 32

-- `while (vec != 0)`, from the row that `mat` points to; past the last row is a `fault`.
unfoldable pub gf2_matrix_times_loop : List ℕ → ℕ → ℕ → Outcome ℕ
gf2_matrix_times_loop [] vec sum = if vec == 0 then done sum else fault
gf2_matrix_times_loop (row ∷ mat) vec sum =
    let more =
      gf2_matrix_times_loop mat (vec / 2) (if bit_and vec 1 == 0 then sum else bit_xor sum row) in
    if vec == 0 then done sum else more

unfoldable pub gf2_matrix_times : List ℕ → ℕ → Outcome ℕ
gf2_matrix_times mat vec = gf2_matrix_times_loop mat vec 0

-- The rows of `square`, from those of `mat` that are left.
unfoldable pub gf2_matrix_square_loop : List ℕ → List ℕ → Outcome (List ℕ)
gf2_matrix_square_loop mat [] = done []
gf2_matrix_square_loop mat (row ∷ rows) = do
  first ← gf2_matrix_times mat row
  others ← gf2_matrix_square_loop mat rows
  done (first ∷ others)

unfoldable pub gf2_matrix_square : List ℕ → Outcome (List ℕ)
gf2_matrix_square mat = gf2_matrix_square_loop mat mat

-- `odd[n] = row; row <<= 1;` for the rounds left.
unfoldable pub odd_rows : ℕ → ℕ → List ℕ
odd_rows zero row = []
odd_rows (suc left) row = row ∷ odd_rows left (row * 2 % 2 ^ 32)

unfoldable pub one_zero_bit : List ℕ
one_zero_bit = poly ∷ odd_rows (gf2_dim - 1) 1

-- `if (len_b & 1) crc32a = gf2_matrix_times(mat, crc32a);`
unfoldable pub apply_zeros : List ℕ → ℕ → ℕ → Outcome ℕ
apply_zeros mat len_b crc32a =
    if bit_and len_b 1 == 0 then done crc32a else gf2_matrix_times mat crc32a

-- The do-while loop, two bits of len_b in a round.
unfoldable pub combine_loop : ℕ → ℕ → ℕ → List ℕ → Outcome ℕ
combine_loop zero crc32a len_b odd = stuck
combine_loop (suc fuel) crc32a len_b odd = do
  even ← gf2_matrix_square odd
  crc32a' ← apply_zeros even len_b crc32a
  let half = (do
    odd' ← gf2_matrix_square even
    crc32a'' ← apply_zeros odd' (len_b / 2) crc32a'
    let rest = combine_loop fuel crc32a'' (len_b / 2 / 2) odd'
    if len_b / 2 / 2 == 0 then done crc32a'' else rest)
  if len_b / 2 == 0 then done crc32a' else half

-- The fuel is for a len_b of 32 bits.
unfoldable pub crc32c_combine : ℕ → ℕ → ℕ → Outcome ℕ
crc32c_combine crc32a crc32b len_b =
    if len_b == 0
    then done crc32a
    else gf2_matrix_square one_zero_bit >>= λ even. gf2_matrix_square even >>= λ odd.
        combine_loop 16 crc32a len_b odd >>= λ crc. done (bit_xor crc crc32b)
