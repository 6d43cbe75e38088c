-- ===== src/Crc32c/Tests.antt =====
-- Runs of lib_bra_crc32c.c, its instructions on concrete words, and its theorems at concrete
-- inputs.
use br_archive.Prelude.{
  ℕ, zero, suc, ◌+◌, ◌*◌, ◌/◌, ◌%◌, ◌≡◌, refl, true, false, List, [], ◌∷◌, ◌++◌, length, done,
  arith, IsBytes,
}
use br_archive.Crc32c.{crc32c_table, crc32c_loop, crc32c_combine}
use br_archive.Crc32c.Lookup.{lookup_table}
use br_archive.Crc32c.Bitwise.{
  byte_step, bytes_step, reference, crc32c_table-reference, crc32c_table-append,
}
use br_archive.Crc32c.Combine.{crc32c_combine-append}
use br_archive.Crc32c.Sse.{Intrinsics, IsDocumented, little_endian, crc32c_sse42}
use br_archive.Crc32c.Sse.Laws.{crc32c_sse42-crc32c_table, crc32c_sse42_misses_bytes}

-- "123456789", whose CRC-32C is published with the polynomial.
abbrev digits : List ℕ
digits = 49 ∷ 50 ∷ 51 ∷ 52 ∷ 53 ∷ 54 ∷ 55 ∷ 56 ∷ 57 ∷ []

check_value : crc32c_table digits 0 ≡ 0xe306_9283
unfolding crc32c_table crc32c_loop lookup_table
check_value = refl

-- An instruction that takes `n` bytes of a word, lowest first.
take_bytes : ℕ → ℕ → ℕ → ℕ
take_bytes zero c v = c
take_bytes (suc n) c v = take_bytes n (byte_step c (v % 256)) (v / 256)

take_bytes_lem :
    (n c : ℕ) (bytes : List ℕ)
    → length bytes ≡ n
    → IsBytes bytes
    → take_bytes n c (little_endian bytes) ≡ bytes_step bytes c
unfolding take_bytes bytes_step
take_bytes_lem zero c [] e h = refl
take_bytes_lem zero c (b ∷ bytes) e h = absurd (omega arith)
take_bytes_lem (suc n) c [] e h = absurd (omega arith)
take_bytes_lem (suc n) c (b ∷ bytes) e h =
    let low : (b + 256 * little_endian bytes) % 256 ≡ b = omega (arith, h.0) in
    let high : (b + 256 * little_endian bytes) / 256 ≡ little_endian bytes = omega (arith, h.0) in
    rw (low, high) (take_bytes_lem n (byte_step c b) bytes (omega arith) h.1)

abbrev processor : Intrinsics
processor = record {
  crc32_u8 = byte_step;
  crc32_u16 = take_bytes 2;
  crc32_u32 = take_bytes 4;
  crc32_u64 = take_bytes 8;
}

processor-IsDocumented : IsDocumented processor
processor-IsDocumented = record {
  on_u8 = λ c b h. refl;
  on_u16 = take_bytes_lem 2;
  on_u32 = take_bytes_lem 4;
  on_u64 = take_bytes_lem 8;
}

digits-IsBytes : IsBytes digits
digits-IsBytes = omega arith

crc32c_table-reference_example : crc32c_table digits 7 ≡ reference digits 7
crc32c_table-reference_example = crc32c_table-reference digits 7 digits-IsBytes

crc32c_table-append_example :
    crc32c_table (digits ++ digits) 7 ≡ crc32c_table digits (crc32c_table digits 7)
crc32c_table-append_example = crc32c_table-append digits digits 7 digits-IsBytes digits-IsBytes

crc32c_combine-append_example :
    crc32c_combine (crc32c_table digits 7) (crc32c_table digits 0) 9
    ≡ done (crc32c_table (digits ++ digits) 7)
crc32c_combine-append_example =
    crc32c_combine-append digits digits 7 digits-IsBytes digits-IsBytes (omega arith)

crc32c_sse42-crc32c_table_example : crc32c_sse42 processor true 5 digits 0 ≡ crc32c_table digits 0
crc32c_sse42-crc32c_table_example =
    crc32c_sse42-crc32c_table processor processor-IsDocumented 5 digits 0 digits-IsBytes

crc32c_sse42_misses_bytes_example :
    crc32c_sse42 processor false 8 digits 0 ≡ crc32c_table (49 ∷ 50 ∷ 51 ∷ 52 ∷ 53 ∷ 54 ∷ []) 0
crc32c_sse42_misses_bytes_example =
    crc32c_sse42_misses_bytes processor processor-IsDocumented 8 digits 0 digits-IsBytes refl
      (omega arith)
