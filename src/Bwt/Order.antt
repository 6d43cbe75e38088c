-- ===== src/Bwt/Order.antt =====
-- The comparison of rotations in src/encoders/bra_bwt.c is lexicographic.
use Prim.Native.Nat.{Ordering}
use br_archive.Prelude.{ℕ, zero, suc, ◌+◌, ◌≡◌, ◌≢◌, ◌<◌, refl, ap, subst, ◌∙◌, arith}
use br_archive.Bwt.{compare_loop}

abbrev pub flip : Ordering → Ordering
flip Ordering.lt = Ordering.gt
flip Ordering.eq = Ordering.eq
flip Ordering.gt = Ordering.lt

pub compare_loop-flip :
    (f g : ℕ → ℕ) (left i : ℕ) → compare_loop g f left i ≡ flip (compare_loop f g left i)
unfolding compare_loop
compare_loop-flip f g zero i = refl
compare_loop-flip f g (suc left) i = ground (arith, compare_loop-flip f g left (i + 1))

compare_loop-eq_parts :
    (f g : ℕ → ℕ) (left i : ℕ)
    → compare_loop f g (suc left) i ≡ Ordering.eq
    → (f i ≡ g i) × (compare_loop f g left (i + 1) ≡ Ordering.eq)
unfolding compare_loop
compare_loop-eq_parts f g left i e = ground arith

compare_loop-step :
    (f g : ℕ → ℕ) (left i : ℕ)
    → f i ≡ g i
    → compare_loop f g (suc left) i ≡ compare_loop f g left (i + 1)
unfolding compare_loop
compare_loop-step f g left i e = ground arith

same_place : (f g : ℕ → ℕ) (a b : ℕ) → a ≡ b → f a ≡ g a → f b ≡ g b
same_place f g a b e h = subst (λ (n : ℕ). f n ≡ g n) e h

pub compare_loop-eq :
    (f g : ℕ → ℕ) (left i : ℕ)
    → compare_loop f g left i ≡ Ordering.eq
    → (j : ℕ) → j < left
    → f (i + j) ≡ g (i + j)
unfolding compare_loop
compare_loop-eq f g zero i e j h = absurd (omega arith)
compare_loop-eq f g (suc left) i e zero h =
    same_place f g i (i + 0) (omega arith) (compare_loop-eq_parts f g left i e).0
compare_loop-eq f g (suc left) i e (suc j) h =
    same_place f g (i + 1 + j) (i + suc j) (omega arith)
      (compare_loop-eq f g left (i + 1) (compare_loop-eq_parts f g left i e).1 j (omega arith))

pub compare_loop_trans :
    (f g h : ℕ → ℕ) (left i : ℕ)
    → compare_loop f g left i ≢ Ordering.gt
    → compare_loop g h left i ≢ Ordering.gt
    → compare_loop f h left i ≢ Ordering.gt
unfolding compare_loop
compare_loop_trans f g h zero i p q = p
compare_loop_trans f g h (suc left) i p q = ground (arith, compare_loop_trans f g h left (i + 1))

-- Only the bytes of the rounds matter.
pub compare_loop-cong :
    (f g f' g' : ℕ → ℕ) (left i i' : ℕ)
    → ((j : ℕ) → j < left → f (i + j) ≡ f' (i' + j))
    → ((j : ℕ) → j < left → g (i + j) ≡ g' (i' + j))
    → compare_loop f g left i ≡ compare_loop f' g' left i'
unfolding compare_loop
compare_loop-cong f g f' g' zero i i' p q = refl
compare_loop-cong f g f' g' (suc left) i i' p q =
    let head : f i ≡ f' i' = ap f (omega arith) ∙ p 0 (omega arith) ∙ ap f' (omega arith) in
    let head' : g i ≡ g' i' = ap g (omega arith) ∙ q 0 (omega arith) ∙ ap g' (omega arith) in
    rw (
      head,
      head',
      compare_loop-cong f g f' g' left (i + 1) (i' + 1)
          (λ j h. ap f (omega arith) ∙ p (suc j) (omega arith) ∙ ap f' (omega arith))
          (λ j h. ap g (omega arith) ∙ q (suc j) (omega arith) ∙ ap g' (omega arith)),
    )

-- A last round of equal bytes changes nothing.
pub compare_loop-last :
    (f g : ℕ → ℕ) (left i : ℕ)
    → f (i + left) ≡ g (i + left)
    → compare_loop f g (suc left) i ≡ compare_loop f g left i
unfolding compare_loop
compare_loop-last f g zero i e = ground (arith, same_place f g (i + 0) i (omega arith) e)
compare_loop-last f g (suc left) i e = ground (
  arith,
  compare_loop-last f g left (i + 1) (same_place f g (i + suc left) (i + 1 + left) (omega arith) e),
)
