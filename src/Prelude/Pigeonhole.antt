-- ===== src/Prelude/Pigeonhole.antt =====
-- An injective map of the numbers below a bound into themselves reaches each of them.
use br_archive.Prelude.{
  ℕ, zero, suc, ◌≡◌, ◌≢◌, ◌<◌, inl, inr, ◌==◌, if◌then◌else◌, Bool-cases, arith,
}

-- The value `n` is moved out of the way.
skip : ℕ → (ℕ → ℕ) → ℕ → ℕ
skip n f i = if f i == n then f n else f i

module _ (n : ℕ) (f : ℕ → ℕ) (into : (i : ℕ) → i < suc n → f i < suc n)
    (once : (i j : ℕ) → i < suc n → j < suc n → f i ≡ f j → i ≡ j) where
  skip-lt : (i : ℕ) → i < n → skip n f i < n
  unfolding skip
  skip-lt i h =
      ground
        (arith, into i (omega arith), into n (omega arith), once i n (omega arith) (omega arith))

  skip_once : (i j : ℕ) → i < n → j < n → skip n f i ≡ skip n f j → i ≡ j
  unfolding skip
  skip_once i j a b e = ground (
    arith,
    once i j (omega arith) (omega arith),
    once i n (omega arith) (omega arith),
    once j n (omega arith) (omega arith),
  )

  from_skip : (k : ℕ) → k ≢ f n → (i : ℕ) → i < n → skip n f i ≡ k → f i ≡ k
  unfolding skip
  from_skip k ne i h e = ground arith

  from_skip_top : (i : ℕ) → i < n → skip n f i ≡ f n → f i ≡ n
  unfolding skip
  from_skip_top i h e = ground (arith, once i n (omega arith) (omega arith))

pub reaches :
    (n : ℕ) (f : ℕ → ℕ)
    → ((i : ℕ) → i < n → f i < n)
    → ((i j : ℕ) → i < n → j < n → f i ≡ f j → i ≡ j)
    → (k : ℕ) → k < n
    → (i : ℕ) × (i < n) × (f i ≡ k)
reaches zero f into once k h = absurd (omega arith)
reaches (suc n) f into once k h =
    let below = reaches n (skip n f) (skip-lt n f into once) (skip_once n f into once) in
    elim (Bool-cases (f n == k)) [
      | inl e ↦ (n, omega arith, ground arith)
      | inr e ↦ elim (Bool-cases (k == n)) [
        | inl top ↦
            let (i, lt, at) = below (f n) (ground (arith, into n (omega arith))) in
            (i, omega arith, ground (arith, from_skip_top n f into once i lt at))
        | inr other ↦
            let (i, lt, at) = below k (ground arith) in
            (i, omega arith, from_skip n f into once k (ground arith) i lt at)
      ]
    ]
