-- ===== src/Bwt/Sorted.antt =====
-- The indices of the rotations in src/encoders/bra_bwt.c, sorted by the C library.
use Prim.Native.Nat.{Ordering}
use br_archive.Prelude.{
  le_or_lt, ℕ, zero, suc, ◌+◌, ◌%◌, ◌^◌, ◌≡◌, ◌≢◌, ◌<◌, inl, inr, refl, ap, ◌∙◌, sym, Bool, false,
  if◌then◌else◌, arith, List, [], ◌∷◌, length, get_or, leb,
}
use br_archive.Bwt.{init_index, suffix_compare, rotation_byte}
use br_archive.Bwt.Order.{flip, compare_loop-flip, compare_loop_trans, compare_loop-cong}
use br_archive.Bwt.Tally.{tally, tally-lt, tally-le_front, tally-cong, tally-shift}
use br_archive.Bwt.Cycles.{cyc, order}
use mathlib.Core.List.{Perm, Permᴰ}
use mathlib.Core.Logic.{∥∥₁_elim}
use native.Mathlib.Nat.{ℕ_set}

-- What is relied on of qsort_r: for a comparison that is consistent, the result is a permutation of
-- the elements in ascending order.
pub record Sorts (sort : (ℕ → ℕ → Ordering) → List ℕ → List ℕ) : Type 0 where
  pub permutes :
      (cmp : ℕ → ℕ → Ordering)
      → ((a b : ℕ) → cmp b a ≡ flip (cmp a b))
      → ((a b c : ℕ) → cmp a b ≢ Ordering.gt → cmp b c ≢ Ordering.gt → cmp a c ≢ Ordering.gt)
      → (xs : List ℕ) → Perm (sort cmp xs) xs
  pub ordered :
      (cmp : ℕ → ℕ → Ordering)
      → ((a b : ℕ) → cmp b a ≡ flip (cmp a b))
      → ((a b c : ℕ) → cmp a b ≢ Ordering.gt → cmp b c ≢ Ordering.gt → cmp a c ≢ Ordering.gt)
      → (xs : List ℕ) (i j : ℕ) → i < j
      → j < length (sort cmp xs)
      → cmp (get_or (sort cmp xs) i 0) (get_or (sort cmp xs) j 0) ≢ Ordering.gt

-- How many elements pass a test.
passing : (ℕ → Bool) → List ℕ → ℕ
passing p [] = 0
passing p (x ∷ xs) = (if p x then 1 else 0) + passing p xs

passing-Permᴰ : (p : ℕ → Bool) {xs ys : List ℕ} → Permᴰ xs ys → passing p xs ≡ passing p ys
unfolding passing
passing-Permᴰ p Permᴰ.nil = refl
passing-Permᴰ p (Permᴰ.cons e d) = rw (e, passing-Permᴰ p d)
passing-Permᴰ p (Permᴰ.swap e e') = rw (e, e') (omega arith)
passing-Permᴰ p (Permᴰ.trans d d') = passing-Permᴰ p d ∙ passing-Permᴰ p d'

length-Permᴰ : {xs ys : List ℕ} → Permᴰ xs ys → length xs ≡ length ys
length-Permᴰ Permᴰ.nil = refl
length-Permᴰ (Permᴰ.cons e d) = ap suc (length-Permᴰ d)
length-Permᴰ (Permᴰ.swap e e') = refl
length-Permᴰ (Permᴰ.trans d d') = length-Permᴰ d ∙ length-Permᴰ d'

passing-tally :
    (p : ℕ → Bool) (xs : List ℕ) → passing p xs ≡ tally (λ j. p (get_or xs j 0)) (length xs)
unfolding passing tally
passing-tally p [] = refl
passing-tally p (x ∷ xs) =
    ap (λ (t : ℕ). (if p x then 1 else 0) + t) (passing-tally p xs)
    ∙ sym (tally-shift (λ j. p (get_or (x ∷ xs) j 0)) (length xs))

length-init_index : (left i : ℕ) → length (init_index left i) ≡ left
unfolding init_index
length-init_index zero i = refl
length-init_index (suc left) i = ap suc (length-init_index left (i + 1))

get_or-init_index : (left i j : ℕ) → j < left → get_or (init_index left i) j 0 ≡ i + j
unfolding init_index
get_or-init_index zero i j h = absurd (omega arith)
get_or-init_index (suc left) i zero h = omega arith
get_or-init_index (suc left) i (suc j) h =
    omega (arith, get_or-init_index left (i + 1) j (omega arith))

suffix_compare-flip :
    (bytes : List ℕ) (a b : ℕ) → suffix_compare bytes b a ≡ flip (suffix_compare bytes a b)
unfolding suffix_compare
suffix_compare-flip bytes a b =
    compare_loop-flip (rotation_byte bytes a) (rotation_byte bytes b) (length bytes) 0

suffix_compare_trans :
    (bytes : List ℕ) (a b c : ℕ)
    → suffix_compare bytes a b ≢ Ordering.gt
    → suffix_compare bytes b c ≢ Ordering.gt
    → suffix_compare bytes a c ≢ Ordering.gt
unfolding suffix_compare
suffix_compare_trans bytes a b c =
    compare_loop_trans (rotation_byte bytes a) (rotation_byte bytes b) (rotation_byte bytes c)
      (length bytes) 0

-- The indices in the order of their rotations.
unfoldable pub sorted_index : ((ℕ → ℕ → Ordering) → List ℕ → List ℕ) → List ℕ → List ℕ
sorted_index sort bytes = sort (suffix_compare bytes) (init_index (length bytes) 0)

abbrev pub sa : ((ℕ → ℕ → Ordering) → List ℕ → List ℕ) → List ℕ → ℕ → ℕ
sa sort bytes j = get_or (sorted_index sort bytes) j 0

module _ (sort : (ℕ → ℕ → Ordering) → List ℕ → List ℕ) (sorts : Sorts sort) (bytes : List ℕ)
    (positive : 0 < length bytes) (small : length bytes < 2 ^ 31) where
  pub length-sorted_index : length (sorted_index sort bytes) ≡ length bytes
  unfolding sorted_index
  length-sorted_index =
      ∥∥₁_elim
        (sorts.permutes (suffix_compare bytes) (suffix_compare-flip bytes)
          (suffix_compare_trans bytes) (init_index (length bytes) 0))
        (ℕ_set _ _) (λ d. length-Permᴰ d ∙ length-init_index (length bytes) 0)

  pub permuted :
      (p : ℕ → Bool) → tally (λ j. p (sa sort bytes j)) (length bytes) ≡ tally p (length bytes)
  unfolding sorted_index
  permuted p =
      let index = init_index (length bytes) 0 in
      let same : passing p (sort (suffix_compare bytes) index) ≡ passing p index =
        ∥∥₁_elim
          (sorts.permutes (suffix_compare bytes) (suffix_compare-flip bytes)
            (suffix_compare_trans bytes) index)
          (ℕ_set _ _) (λ d. passing-Permᴰ p d) in
      ap (tally (λ j. p (get_or (sort (suffix_compare bytes) index) j 0))) (sym length-sorted_index)
      ∙ sym (passing-tally p (sort (suffix_compare bytes) index))
      ∙ same
      ∙ passing-tally p index
      ∙ ap (tally (λ j. p (get_or index j 0))) (length-init_index (length bytes) 0)
      ∙ tally-cong (λ j. p (get_or index j 0)) p (length bytes)
          (λ j h. ap p (get_or-init_index (length bytes) 0 j h ∙ omega arith))

  pub sa-lt : (j : ℕ) → j < length bytes → sa sort bytes j < length bytes
  sa-lt j h = elim (le_or_lt (length bytes) (sa sort bytes j)) [
    | inl out ↦
        let outside = λ (e : ℕ). leb (length bytes) e in
        let some_out =
          tally-lt (λ k. false) (λ k. outside (sa sort bytes k)) (length bytes) j h refl
            (ground arith) (λ k lt e. cc e) in
        let none_out = tally-le_front outside (length bytes) 0 (λ k le lt. ground arith) in
        absurd (omega (arith, permuted outside))
    | inr inside ↦ inside
  ]

  suffix_compare-order :
      (a b : ℕ) → a < length bytes → b < length bytes → suffix_compare bytes a b ≡ order bytes a b
  unfolding suffix_compare order
  suffix_compare-order a b h k =
      compare_loop-cong (rotation_byte bytes a) (rotation_byte bytes b) (cyc bytes a) (cyc bytes b)
        (length bytes) 0 0 (λ j lt. ap (λ (t : ℕ). get_or bytes (t % length bytes) 0) (omega arith))
        (λ j lt. ap (λ (t : ℕ). get_or bytes (t % length bytes) 0) (omega arith))

  pub sorted :
      (i j : ℕ)
      → i < j
      → j < length bytes
      → order bytes (sa sort bytes i) (sa sort bytes j) ≢ Ordering.gt
  unfolding sorted_index
  sorted i j h k e =
      let n = length bytes in
      sorts.ordered (suffix_compare bytes) (suffix_compare-flip bytes) (suffix_compare_trans bytes)
        (init_index n 0) i j h (omega (arith, length-sorted_index))
        (suffix_compare-order (sa sort bytes i) (sa sort bytes j) (sa-lt i (omega arith))
            (sa-lt j k)
          ∙ e)
