-- ===== src/Rle/Format.antt =====
-- The stream format that src/encoders/bra_rle.h describes, as a relation between a stream and
-- the bytes that it stands for.
use br_archive.Prelude.{
  ℕ, ◌-◌, ◌≤◌, List, [], ◌∷◌, ◌++◌, length, replicate, ◌<◌, zero, suc, subst, IsBytes, All-append,
  All-take, All-drop, take-append, drop-append,
}

pub data PackBits : List ℕ → List ℕ → Type 0 where
  empty : PackBits [] []
  literals :
      (l : List ℕ) {s d : List ℕ}
      → 1 ≤ length l
      → length l ≤ 128
      → PackBits s d
      → PackBits ((length l - 1) ∷ (l ++ s)) (l ++ d)
  repeats :
      (n v : ℕ) {s d : List ℕ}
      → 2 ≤ n
      → n ≤ 128
      → PackBits s d
      → PackBits ((257 - n) ∷ v ∷ s) (replicate n v ++ d)
  skips : {s d : List ℕ} → PackBits s d → PackBits (128 ∷ s) d

All-replicate : (n v : ℕ) → v < 256 → IsBytes (replicate n v)
All-replicate zero v h = tt
All-replicate (suc n) v h = (h, All-replicate n v h)

-- A stream of bytes stands for bytes.
pub PackBits-IsBytes : {s d : List ℕ} → PackBits s d → IsBytes s → IsBytes d
PackBits-IsBytes empty h = tt
PackBits-IsBytes (literals l {s} {d} p q r) h =
    All-append (λ v. v < 256) l d
      (subst IsBytes (take-append l s) (All-take (λ v. v < 256) (length l) (l ++ s) h.1))
      (PackBits-IsBytes r
        (subst IsBytes (drop-append l s) (All-drop (λ v. v < 256) (length l) (l ++ s) h.1)))
PackBits-IsBytes (repeats n v {s} {d} p q r) h =
    All-append (λ v. v < 256) (replicate n v) d (All-replicate n v h.1.0) (PackBits-IsBytes r h.1.1)
PackBits-IsBytes (skips r) h = PackBits-IsBytes r h.1
