-- ===== src/Bwt/Tally.antt =====
-- How many numbers below a bound pass a test, for the ranks in src/encoders/bra_bwt.c.
use br_archive.Prelude.{
  le_or_lt, ℕ, zero, suc, ap, sym, ◌∙◌, ◌+◌, ◌≡◌, ◌<◌, ◌≤◌, inl, inr, refl, subst, Bool, true,
  false, ◌==◌, ◌&&◌, ltb, if◌then◌else◌, Bool-cases, arith,
}

unfoldable pub tally : (ℕ → Bool) → ℕ → ℕ
tally p zero = 0
tally p (suc n) = (if p n then 1 else 0) + tally p n

pub tally-le :
    (p q : ℕ → Bool) (n : ℕ) → ((j : ℕ) → j < n → p j ≡ true → q j ≡ true) → tally p n ≤ tally q n
unfolding tally
tally-le p q zero h = omega arith
tally-le p q (suc n) h = ground (arith, h n, tally-le p q n (λ j lt. h j (omega arith)))

pub tally-lt :
    (p q : ℕ → Bool) (n i : ℕ)
    → i < n
    → p i ≡ false
    → q i ≡ true
    → ((j : ℕ) → j < n → p j ≡ true → q j ≡ true)
    → tally p n < tally q n
unfolding tally
tally-lt p q zero i lt a b h = absurd (omega arith)
tally-lt p q (suc n) i lt a b h = elim (Bool-cases (i == n)) [
  | inl e ↦
      let same : i ≡ n = ground arith in
      let a' : p n ≡ false = subst (λ k. p k ≡ false) same a in
      let b' : q n ≡ true = subst (λ k. q k ≡ true) same b in
      rw (a', b') (omega (arith, tally-le p q n (λ j lt'. h j (omega arith))))
  | inr e ↦
      let below : i < n = ground arith in
      ground (arith, h n, tally-lt p q n i below a b (λ j lt'. h j (omega arith)))
]

pub tally-le_bound : (p : ℕ → Bool) (n : ℕ) → tally p n ≤ n
unfolding tally
tally-le_bound p zero = omega arith
tally-le_bound p (suc n) = ground (arith, tally-le_bound p n)

-- The numbers that pass stand in front.
pub tally-ge : (p : ℕ → Bool) (n k : ℕ) → k ≤ n → ((j : ℕ) → j < k → p j ≡ true) → k ≤ tally p n
unfolding tally
tally-ge p zero k le h = omega arith
tally-ge p (suc n) k le h = elim (Bool-cases (k == suc n)) [
  | inl e ↦
      let same : k ≡ suc n = ground arith in
      rw (h n (omega arith))
        (omega (arith, tally-ge p n n (omega arith) (λ j lt. h j (omega arith))))
  | inr e ↦ let below : k ≤ n = ground arith in ground (arith, tally-ge p n k below h)
]

pub tally-le_front :
    (p : ℕ → Bool) (n k : ℕ) → ((j : ℕ) → k ≤ j → j < n → p j ≡ false) → tally p n ≤ k
unfolding tally
tally-le_front p zero k h = omega arith
tally-le_front p (suc n) k h = elim (Bool-cases (p n)) [
  | inl e ↦
      let below : n < k = elim (le_or_lt k n) [
        | inl le ↦ cc (h n le (omega arith), e)
        | inr lt ↦ lt
      ] in
      omega (arith, tally-le_bound p (suc n))
  | inr e ↦ rw e (omega (arith, tally-le_front p n k (λ j le lt. h j le (omega arith))))
]

-- What passes below `n + 1` passes at 0 or, shifted by one, below `n`.
pub tally-shift :
    (p : ℕ → Bool) (n : ℕ) → tally p (suc n) ≡ (if p 0 then 1 else 0) + tally (λ j. p (suc j)) n
unfolding tally
tally-shift p zero = refl
tally-shift p (suc n) = omega (arith, tally-shift p n)

pub tally-cong : (p q : ℕ → Bool) (n : ℕ) → ((j : ℕ) → j < n → p j ≡ q j) → tally p n ≡ tally q n
unfolding tally
tally-cong p q zero h = refl
tally-cong p q (suc n) h = rw (h n (omega arith), tally-cong p q n (λ j lt. h j (omega arith)))

-- The places of two tests that exclude one another.
pub tally_split :
    (p q r : ℕ → Bool) (n : ℕ)
    → ((j : ℕ) → j < n → (if r j then 1 else 0) ≡ (if p j then 1 else 0) + (if q j then 1 else 0))
    → tally r n ≡ tally p n + tally q n
unfolding tally
tally_split p q r zero h = omega arith
tally_split p q r (suc n) h =
    omega (arith, h n (omega arith), tally_split p q r n (λ j lt. h j (omega arith)))

pub tally-below : (p : ℕ → Bool) (n i : ℕ) → i ≤ n → tally (λ j. p j && ltb j i) n ≡ tally p i
unfolding tally
tally-below p zero i h = let none_left : i ≡ 0 = omega arith in rw none_left
tally-below p (suc n) i h = elim (le_or_lt i n) [
  | inl le ↦
      let out : ltb n i ≡ false = ground arith in
      let failed : (p n && ltb n i) ≡ false = ground arith in
      rw failed (omega (arith, tally-below p n i le))
  | inr lt ↦
      let all : i ≡ suc n = omega arith in
      tally-cong (λ j. p j && ltb j i) p (suc n) (λ j inside. ground arith) ∙ ap (tally p) (sym all)
]
