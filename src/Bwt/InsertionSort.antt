-- ===== src/Bwt/InsertionSort.antt =====
-- A sort that does what src/encoders/bra_bwt.c relies on of qsort_r, for tests.
use Prim.Native.Nat.{Ordering}
use br_archive.Prelude.{
  ℕ, zero, suc, ◌≡◌, ◌≢◌, refl, ◌<◌, List, [], ◌∷◌, All, length, get_or, arith, All-get_or,
}
use br_archive.Bwt.Order.{flip}
use br_archive.Bwt.Sorted.{Sorts}
use mathlib.Core.List.{Perm}
use mathlib.Core.List.Perm

module _ (cmp : ℕ → ℕ → Ordering) where
  unfoldable pub insert : ℕ → List ℕ → List ℕ
  insert x [] = x ∷ []
  insert x (y ∷ ys) =
      let more = y ∷ insert x ys in elim (cmp x y) [ Ordering.gt ↦ more | _ ↦ x ∷ y ∷ ys ]

  unfoldable pub insertion_sort : List ℕ → List ℕ
  unfolding insert
  insertion_sort [] = []
  insertion_sort (x ∷ xs) = insert x (insertion_sort xs)

  insert-perm : (x : ℕ) (ys : List ℕ) → Perm (insert x ys) (x ∷ ys)
  unfolding insert
  insert-perm x [] = Perm.refl (x ∷ [])
  insert-perm x (y ∷ ys) = placed (cmp x y) (insert x ys) (insert-perm x ys)
    where
      placed :
          (o : Ordering) (rest : List ℕ)
          → Perm rest (x ∷ ys)
          → Perm (elim o [ Ordering.gt ↦ y ∷ rest | _ ↦ x ∷ y ∷ ys ]) (x ∷ y ∷ ys)
      placed Ordering.lt rest p = Perm.refl (x ∷ y ∷ ys)
      placed Ordering.eq rest p = Perm.refl (x ∷ y ∷ ys)
      placed Ordering.gt rest p = Perm.trans (Perm.cons y p) (Perm.swap x y ys)

  insertion_sort-perm : (xs : List ℕ) → Perm (insertion_sort xs) xs
  unfolding insertion_sort
  insertion_sort-perm [] = Perm.refl []
  insertion_sort-perm (x ∷ xs) =
      Perm.trans (insert-perm x (insertion_sort xs)) (Perm.cons x (insertion_sort-perm xs))

  abbrev IsOrdered : List ℕ → Type 0
  IsOrdered [] = Unit
  IsOrdered (x ∷ xs) = All (λ y. cmp x y ≢ Ordering.gt) xs × IsOrdered xs

  All-insert :
      (a x : ℕ) (ys : List ℕ)
      → cmp a x ≢ Ordering.gt
      → All (λ y. cmp a y ≢ Ordering.gt) ys
      → All (λ y. cmp a y ≢ Ordering.gt) (insert x ys)
  unfolding insert
  All-insert a x [] h k = (h, tt)
  All-insert a x (y ∷ ys) h k =
      elim (cmp x y)
        as (λ o.
          All (λ y. cmp a y ≢ Ordering.gt)
            (elim o [ Ordering.gt ↦ y ∷ insert x ys | _ ↦ x ∷ y ∷ ys ])) [
              | Ordering.lt ↦ (h, k)
              | Ordering.eq ↦ (h, k)
              | Ordering.gt ↦ (k.0, All-insert a x ys h k.1)
            ]

  module _ (flips : (a b : ℕ) → cmp b a ≡ flip (cmp a b))
      (trans : (a b c : ℕ)
        → cmp a b ≢ Ordering.gt
        → cmp b c ≢ Ordering.gt
        → cmp a c ≢ Ordering.gt) where
    All-le :
        (x y : ℕ) (ys : List ℕ)
        → cmp x y ≢ Ordering.gt
        → All (λ z. cmp y z ≢ Ordering.gt) ys
        → All (λ z. cmp x z ≢ Ordering.gt) ys
    All-le x y [] h k = tt
    All-le x y (z ∷ ys) h k = (trans x y z h k.0, All-le x y ys h k.1)

    insert-IsOrdered : (x : ℕ) (ys : List ℕ) → IsOrdered ys → IsOrdered (insert x ys)
    unfolding insert
    insert-IsOrdered x [] h = (tt, tt)
    insert-IsOrdered x (y ∷ ys) h = by_test (cmp x y) refl (insert-IsOrdered x ys h.1)
      where
        by_test :
            (o : Ordering)
            → cmp x y ≡ o
            → IsOrdered (insert x ys)
            → IsOrdered (elim o [ Ordering.gt ↦ y ∷ insert x ys | _ ↦ x ∷ y ∷ ys ])
        by_test Ordering.lt e rest =
            let below : cmp x y ≢ Ordering.gt = λ g. cc (e, g) in
            ((below, All-le x y ys below h.0), h)
        by_test Ordering.eq e rest =
            let below : cmp x y ≢ Ordering.gt = λ g. cc (e, g) in
            ((below, All-le x y ys below h.0), h)
        by_test Ordering.gt e rest = (All-insert y x ys (λ g. ground (arith, flips x y)) h.0, rest)

    insertion_sort-IsOrdered : (xs : List ℕ) → IsOrdered (insertion_sort xs)
    unfolding insertion_sort
    insertion_sort-IsOrdered [] = tt
    insertion_sort-IsOrdered (x ∷ xs) =
        insert-IsOrdered x (insertion_sort xs) (insertion_sort-IsOrdered xs)

  IsOrdered-at :
      (ys : List ℕ) (i j : ℕ)
      → IsOrdered ys
      → i < j
      → j < length ys
      → cmp (get_or ys i 0) (get_or ys j 0) ≢ Ordering.gt
  IsOrdered-at [] i j h lt in_ys = absurd (omega arith)
  IsOrdered-at (y ∷ ys) zero zero h lt in_ys = absurd (omega arith)
  IsOrdered-at (y ∷ ys) zero (suc j) h lt in_ys =
      All-get_or (λ z. cmp y z ≢ Ordering.gt) ys j 0 (omega arith) h.0
  IsOrdered-at (y ∷ ys) (suc i) zero h lt in_ys = absurd (omega arith)
  IsOrdered-at (y ∷ ys) (suc i) (suc j) h lt in_ys =
      IsOrdered-at ys i j h.1 (omega arith) (omega arith)

pub insertion_sort-Sorts : Sorts insertion_sort
insertion_sort-Sorts = record {
  permutes = λ cmp flips trans xs. insertion_sort-perm cmp xs;
  ordered = λ cmp flips trans xs i j lt h.
      IsOrdered-at cmp (insertion_sort cmp xs) i j (insertion_sort-IsOrdered cmp flips trans xs) lt
        h;
}
