-- ===== src/Bwt/Rotations.antt =====
-- Rotations of the bytes in src/encoders/bra_bwt.c, and their order.
use Prim.Native.Nat.{Ordering}
use br_archive.Prelude.{
  le_or_lt, ℕ, zero, suc, ◌+◌, ◌%◌, ◌≡◌, ◌≢◌, ◌<◌, ◌≤◌, ◌⊎◌, inl, inr, refl, ap, ap₂, ◌∙◌, sym,
  subst, Bool, true, ◌==◌, ◌&&◌, ◌||◌, if◌then◌else◌, arith, List, length, ltb,
}
use native.Mathlib.Nat.{add-mod_right, mod-eq_of_lt}
use br_archive.Bwt.Tally.{
  tally, tally-le, tally-lt, tally-ge, tally-le_front, tally-shift, tally-cong, tally-le_bound,
}
use br_archive.Bwt.Cycles.{
  back, cyc, is_lt, is_le, order, order-flip, order_self, lt_of_le_lt, gt_of_gt_le, cyc-back,
  order-eq, order-back,
}

-- The order of the numbers of the last column, and of their places among equal ones.
abbrev pub before : (ℕ → ℕ) → ℕ → ℕ → Bool
before column i j = ltb (column j) (column i) || (column j == column i && ltb j i)

-- How many places come before place `i`.
abbrev pub rank : (ℕ → ℕ) → ℕ → ℕ → ℕ
rank column n i = tally (before column i) n

back_zero : (m : ℕ) → back (suc m) 0 ≡ m
back_zero m =
    let less : m < suc m = omega arith in
    ap (λ (t : ℕ). t % suc m) (omega arith) ∙ mod-eq_of_lt less

back_of_suc : (m j : ℕ) → j < m → back (suc m) (suc j) ≡ j
back_of_suc m j h =
    let less : j < suc m = omega arith in
    ap (λ (t : ℕ). t % suc m) (omega arith) ∙ add-mod_right j (suc m) ∙ mod-eq_of_lt less

tally-back : (p : ℕ → Bool) (n : ℕ) → tally (λ j. p (back n j)) n ≡ tally p n
unfolding tally
tally-back p zero = refl
tally-back p (suc m) =
    tally-shift (λ j. p (back (suc m) j)) m
    ∙ ap₂ (λ (a b : ℕ). (if p a then 1 else 0) + b) (back_zero m)
        (tally-cong (λ j. p (back (suc m) (suc j))) p m (λ j h. ap p (back_of_suc m j h)))

Ordering-cases : (o : Ordering) → (o ≡ Ordering.lt) ⊎ (o ≡ Ordering.eq) ⊎ (o ≡ Ordering.gt)
Ordering-cases Ordering.lt = inl refl
Ordering-cases Ordering.eq = inr (inl refl)
Ordering-cases Ordering.gt = inr (inr refl)

-- The rotations in order, as the sorted indices give them.
module _ (bytes : List ℕ) (positive : 0 < length bytes) (sa : ℕ → ℕ)
    (sorted : (i j : ℕ) → i < j → j < length bytes → order bytes (sa i) (sa j) ≢ Ordering.gt)
    (permuted : (p : ℕ → Bool)
      → tally (λ j. p (sa j)) (length bytes) ≡ tally p (length bytes)) where
  abbrev pub column : ℕ → ℕ
  column j = cyc bytes (back (length bytes) (sa j)) 0

  in_order : (i j : ℕ) → i ≤ j → j < length bytes → order bytes (sa i) (sa j) ≢ Ordering.gt
  in_order i j le h = elim (le_or_lt j i) [
    | inl ge ↦
        let same : i ≡ j = omega arith in
        subst (λ (k : ℕ). order bytes (sa i) (sa k) ≢ Ordering.gt) same
          (λ e. cc (order_self bytes (sa i), e))
    | inr lt ↦ sorted i j lt h
  ]

  front :
      (s k : ℕ)
      → k < length bytes
      → order bytes (sa k) s ≡ Ordering.lt
      → (j : ℕ) → j < suc k
      → order bytes (sa j) s ≡ Ordering.lt
  front s k h e j lt = lt_of_le_lt bytes (sa j) (sa k) s (in_order j k (omega arith) h) e

  rear :
      (s k : ℕ)
      → order bytes (sa k) s ≡ Ordering.gt
      → (j : ℕ) → k ≤ j
      → j < length bytes
      → order bytes (sa j) s ≡ Ordering.gt
  rear s k e j le lt = gt_of_gt_le bytes (sa k) (sa j) s e (in_order k j le lt)

  -- If as many rotations are below `s` and below or equal to it, that of place `k` equals it.
  at_rank :
      (s k : ℕ)
      → k < length bytes
      → tally (λ j. is_lt (order bytes (sa j) s)) (length bytes) ≤ k
      → k < tally (λ j. is_le (order bytes (sa j) s)) (length bytes)
      → order bytes (sa k) s ≡ Ordering.eq
  at_rank s k h lower upper = elim (Ordering-cases (order bytes (sa k) s)) [
    | inl e ↦
        let below =
          tally-ge (λ j. is_lt (order bytes (sa j) s)) (length bytes) (suc k) h
            (λ j lt. ap is_lt (front s k h e j lt)) in
        absurd (omega arith)
    | inr (inl e) ↦ e
    | inr (inr e) ↦
        let above =
          tally-le_front (λ j. is_le (order bytes (sa j) s)) (length bytes) k
            (λ j le lt. ap is_le (rear s k e j le lt)) in
        absurd (omega arith)
  ]

  counted :
      (p : ℕ → Bool)
      → tally (λ j. p (sa j)) (length bytes)
        ≡ tally (λ j. p (back (length bytes) (sa j))) (length bytes)
  counted p =
      permuted p
      ∙ sym (tally-back p (length bytes))
      ∙ sym (permuted (λ e. p (back (length bytes) e)))

  below :
      (i j : ℕ)
      → j < length bytes
      → is_lt (order bytes (back (length bytes) (sa j)) (back (length bytes) (sa i))) ≡ true
      → before column i j ≡ true
  below i j h e = elim (le_or_lt i j) [
    | inl le ↦ ground (
      arith,
      order-back bytes (sa j) (sa i) positive,
      order-flip bytes (sa i) (sa j),
      in_order i j le h,
    )
    | inr lt ↦ ground (arith, order-back bytes (sa j) (sa i) positive)
  ]

  above :
      (i j : ℕ)
      → i < length bytes
      → before column i j ≡ true
      → is_le (order bytes (back (length bytes) (sa j)) (back (length bytes) (sa i))) ≡ true
  above i j h e = elim (le_or_lt i j) [
    | inl le ↦ ground (arith, order-back bytes (sa j) (sa i) positive)
    | inr lt ↦ ground (arith, order-back bytes (sa j) (sa i) positive, in_order j i (omega arith) h)
  ]

  pub rank_lower :
      (i : ℕ)
      → i < length bytes
      → tally
          (λ j. is_lt (order bytes (back (length bytes) (sa j)) (back (length bytes) (sa i))))
          (length bytes)
        ≤ rank column (length bytes) i
  rank_lower i h =
      tally-le (λ j. is_lt (order bytes (back (length bytes) (sa j)) (back (length bytes) (sa i))))
        (before column i) (length bytes) (λ j lt e. below i j lt e)

  pub rank_upper :
      (i : ℕ)
      → i < length bytes
      → rank column (length bytes) i
        < tally
            (λ j. is_le (order bytes (back (length bytes) (sa j)) (back (length bytes) (sa i))))
            (length bytes)
  rank_upper i h =
      tally-lt (before column i)
        (λ j. is_le (order bytes (back (length bytes) (sa j)) (back (length bytes) (sa i))))
        (length bytes) i h (ground arith) (ap is_le (order_self bytes (back (length bytes) (sa i))))
        (λ j lt e. above i j h e)

  pub rank_lem :
      (i : ℕ)
      → i < length bytes
      → (x : ℕ) → cyc bytes (sa (rank column (length bytes) i)) (suc x) ≡ cyc bytes (sa i) x
  rank_lem i h x =
      let n = length bytes in
      let k = rank column n i in
      let s = back n (sa i) in
      let few : tally (λ j. is_lt (order bytes (sa j) s)) n ≤ k =
        subst (λ (t : ℕ). t ≤ k) (sym (counted (λ e. is_lt (order bytes e s)))) (rank_lower i h) in
      let enough : k < tally (λ j. is_le (order bytes (sa j) s)) n =
        subst (λ (t : ℕ). k < t) (sym (counted (λ e. is_le (order bytes e s)))) (rank_upper i h) in
      let inside : k < n = omega (arith, tally-le_bound (λ j. is_le (order bytes (sa j) s)) n) in
      order-eq bytes (sa k) s positive (at_rank s k inside few enough) (suc x)
      ∙ cyc-back bytes (sa i) x positive
