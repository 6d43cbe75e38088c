-- ===== src/Crc32c/Sse.antt =====
-- `bra_crc32c_sse42` of src/utils/lib_bra_crc32c.c, over the processor's CRC instructions, and the
-- choice between it and the table.
pub mod Laws
use Prim.Native.Nat.{bit_and}
use br_archive.Prelude.{
  ℕ, zero, suc, ◌+◌, ◌*◌, ◌<◌, ◌≡◌, Bool, true, false, ◌&&◌, List, [], ◌∷◌, length, take, drop,
  get_or, leb, ◌==◌, if◌then◌else◌, IsBytes,
}
use br_archive.Crc32c.{not32, crc32c_table}
use br_archive.Crc32c.Bitwise.{byte_step, bytes_step}

-- A word read from memory, lowest byte first.
abbrev pub little_endian : List ℕ → ℕ
little_endian [] = 0
little_endian (b ∷ bytes) = b + 256 * little_endian bytes

-- The instructions _mm_crc32_u8, _mm_crc32_u16, _mm_crc32_u32 and _mm_crc32_u64, with the result
-- of the last cast to a uint32_t.
pub record Intrinsics : Type 0 where
  pub crc32_u8 : ℕ → ℕ → ℕ
  pub crc32_u16 : ℕ → ℕ → ℕ
  pub crc32_u32 : ℕ → ℕ → ℕ
  pub crc32_u64 : ℕ → ℕ → ℕ

-- What the processor's manual says of them: each takes the bytes of its operand, lowest first, into
-- the CRC-32C register.
pub record IsDocumented (i : Intrinsics) : Type 0 where
  pub on_u8 : (c b : ℕ) → b < 256 → i.crc32_u8 c b ≡ byte_step c b
  pub on_u16 :
      (c : ℕ) (bytes : List ℕ)
      → length bytes ≡ 2
      → IsBytes bytes
      → i.crc32_u16 c (little_endian bytes) ≡ bytes_step bytes c
  pub on_u32 :
      (c : ℕ) (bytes : List ℕ)
      → length bytes ≡ 4
      → IsBytes bytes
      → i.crc32_u32 c (little_endian bytes) ≡ bytes_step bytes c
  pub on_u64 :
      (c : ℕ) (bytes : List ℕ)
      → length bytes ≡ 8
      → IsBytes bytes
      → i.crc32_u64 c (little_endian bytes) ≡ bytes_step bytes c

-- The bytes remaining, and the register.
pub record State : Type 0 where
  pub remaining : List ℕ
  pub crc : ℕ

module _ (i : Intrinsics) where
  open i use {crc32_u8, crc32_u16, crc32_u32, crc32_u64}

  -- `while (remaining > 0 && (addr & mask) != 0)`.
  unfoldable pub align_loop : ℕ → List ℕ → ℕ → ℕ → State
  align_loop mask [] crc addr = record { remaining = []; crc = crc }
  align_loop mask (b ∷ bytes) crc addr =
      let more = align_loop mask bytes (crc32_u8 crc b) (addr + 1) in
      if bit_and addr mask == 0 then record { remaining = b ∷ bytes; crc = crc } else more

  -- `while (remaining >= 8)`.
  unfoldable pub words_loop : List ℕ → ℕ → State
  words_loop (a ∷ b ∷ c ∷ d ∷ e ∷ f ∷ g ∷ h ∷ rest) crc =
      words_loop rest (crc32_u64 crc (little_endian (a ∷ b ∷ c ∷ d ∷ e ∷ f ∷ g ∷ h ∷ [])))
  words_loop bytes crc = record { remaining = bytes; crc = crc }

  unfoldable pub four_bytes : State → State
  four_bytes s =
      if leb 4 (length s.remaining)
      then record {
        remaining = drop 4 s.remaining;
        crc = crc32_u32 s.crc (little_endian (take 4 s.remaining));
      }
      else s

  unfoldable pub two_bytes : State → State
  two_bytes s =
      if leb 2 (length s.remaining)
      then record {
        remaining = drop 2 s.remaining;
        crc = crc32_u16 s.crc (little_endian (take 2 s.remaining));
      }
      else s

  unfoldable pub last_byte : State → ℕ
  last_byte s = if length s.remaining == 1 then crc32_u8 s.crc (get_or s.remaining 0 0) else s.crc

  -- `is_x64` says which branch of the conditional compilation is built; `addr` is the address of
  -- the first byte.
  unfoldable pub crc32c_sse42 : Bool → ℕ → List ℕ → ℕ → ℕ
  crc32c_sse42 is_x64 addr bytes previous_crc =
      let aligned_64 = align_loop 7 bytes (not32 previous_crc) addr in
      let words = words_loop aligned_64.remaining aligned_64.crc in
      let aligned_32 = align_loop 3 bytes (not32 previous_crc) addr in
      not32 (last_byte (two_bytes (four_bytes (if is_x64 then words else aligned_32))))

-- `g_bra_crc32c_f`, as `bra_crc32c_use_sse42` sets it.
pub data Implementation : Type 0 where
  table sse42 : Implementation

unfoldable pub use_sse42 : Bool → Bool → Implementation
use_sse42 wanted has_sse42 = if wanted && has_sse42 then sse42 else table

unfoldable pub crc32c : Implementation → Intrinsics → Bool → ℕ → List ℕ → ℕ → ℕ
crc32c table i is_x64 addr bytes previous_crc = crc32c_table bytes previous_crc
crc32c sse42 i is_x64 addr bytes previous_crc = crc32c_sse42 i is_x64 addr bytes previous_crc
