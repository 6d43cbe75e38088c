-- ===== src/Rle/Stores.antt =====
-- The stores of src/encoders/bra_rle.c that stay inside their buffer.
use br_archive.Prelude.{ℕ, ◌+◌, ◌≤◌, ◌≡◌, List, ◌++◌, length, take, replicate, done, arith}
use br_archive.Rle.{memcpy, memset}

module _ (allocated : ℕ) (out : List ℕ) where
  pub memcpy-done :
      (src : List ℕ) (n : ℕ)
      → n ≤ length src
      → length out + n ≤ allocated
      → memcpy allocated out src n ≡ done (out ++ take n src)
  unfolding memcpy
  memcpy-done src n inside room = ground arith

  pub memset-done :
      (v n : ℕ)
      → length out + n ≤ allocated
      → memset allocated out v n ≡ done (out ++ replicate n v)
  unfolding memset
  memset-done v n room = ground arith
