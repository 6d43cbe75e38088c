-- ===== src/Bwt/Transform.antt =====
-- The decoder's arrays in src/encoders/bra_bwt.c: counts, first places, and the places of the bytes
-- in the order of bytes and then of places.
use br_archive.Prelude.{
  le_or_lt, ℕ, zero, suc, ◌+◌, ◌-◌, ◌%◌, ◌^◌, ◌≡◌, ◌≢◌, ◌<◌, ◌≤◌, ◌⊎◌, inl, inr, refl, ap, ◌∙◌, sym,
  subst, true, ◌==◌, ◌&&◌, if◌then◌else◌, Bool-cases, arith, List, [], ◌∷◌, length, get_or, set,
  ltb, done, read-eq-done, write-eq-done, length-set, get_or-set, replicate, length-replicate,
  get_or-replicate,
}
use br_archive.Bwt.{increment, count_loop, first_loop, transform_loop}
use br_archive.Bwt.Tally.{tally, tally-lt, tally-le_bound, tally_split, tally-below, tally-le_front}
use br_archive.Prelude.Pigeonhole.{reaches}
use br_archive.Bwt.Rotations.{before, rank}
use br_archive.Bwt.Counting.{
  equals, less, increment_lem, Counts, Counts-increment, IsRest, IsRest-tail, IsRest-head,
  count_loop-cons, transform_loop-cons,
}

module _ (column : ℕ → ℕ) (n : ℕ) (small : n < 2 ^ 32 - 1)
    (bytes : (j : ℕ) → j < n → column j < 256) where
  increment-Counts :
      (base : ℕ → ℕ) (i : ℕ) (table : List ℕ)
      → i < n
      → base (column i) + tally (equals column (column i)) i < n
      → Counts base column i table
      → (t : List ℕ) × (increment table (column i)
          ≡ done (base (column i) + tally (equals column (column i)) i, t))
        × Counts base column (suc i) t
  increment-Counts base i table h fits counts = (
    set table (column i) (base (column i) + tally (equals column (column i)) i + 1),
    increment_lem table (column i) _ (omega (arith, counts.0, bytes i h))
        (counts.1 (column i) (bytes i h)) (omega arith),
    Counts-increment base column i table (bytes i h) counts,
  )

  count_loop_lem :
      (rest : List ℕ) (i : ℕ) (table : List ℕ)
      → IsRest column n i rest
      → Counts (λ c. 0) column i table
      → (t : List ℕ) × (count_loop rest table ≡ done t) × Counts (λ c. 0) column n t
  unfolding count_loop
  count_loop_lem [] i table r counts =
      let same : i ≡ n = omega (arith, r.0) in
      (table, refl, subst (λ (k : ℕ). Counts (λ c. 0) column k table) same counts)
  count_loop_lem (c ∷ rest) i table r counts =
      let here = IsRest-head column n i c rest r in
      let inside : i < n = omega (arith, r.0) in
      let (t, step, counts') =
        increment-Counts (λ c. 0) i table inside
          (omega (arith, tally-le_bound (equals column (column i)) i)) counts in
      let (t', run, all) =
        count_loop_lem rest (suc i) t (IsRest-tail column n i c rest r) counts' in
      (t', count_loop-cons rest table here step ∙ run, all)

  -- The place of the byte at `i`.
  place :
      (i : ℕ)
      → i < n
      → rank column n i ≡ tally (less column (column i)) n + tally (equals column (column i)) i
  place i h =
      tally_split (less column (column i)) (λ j. equals column (column i) j && ltb j i)
        (before column i) n (λ j lt. ground arith)
      ∙ ap (λ (t : ℕ). tally (less column (column i)) n + t)
          (tally-below (equals column (column i)) n i (omega arith))

  rank-lt : (i j : ℕ) → i < n → before column j i ≡ true → rank column n i < rank column n j
  rank-lt i j h e =
      tally-lt (before column i) (before column j) n i h (ground arith) e (λ k lt b. ground arith)

  apart : (i j : ℕ) → i < j → (before column j i ≡ true) ⊎ (before column i j ≡ true)
  apart i j h = elim (Bool-cases (before column j i)) [ inl e ↦ inl e | inr e ↦ inr (ground arith) ]

  rank_differs : (i j : ℕ) → i < j → j < n → rank column n i ≢ rank column n j
  rank_differs i j h k e = elim (apart i j h) [
    | inl b ↦ absurd (omega (arith, rank-lt i j (omega arith) b))
    | inr b ↦ absurd (omega (arith, rank-lt j i k b))
  ]

  rank_once : (i j : ℕ) → i < n → j < n → rank column n i ≡ rank column n j → i ≡ j
  rank_once i j h k e = elim (le_or_lt i j) [
    | inl le ↦ elim (le_or_lt j i) [
      | inl ge ↦ omega arith
      | inr lt ↦ absurd (rank_differs i j lt k e)
    ]
    | inr lt ↦ absurd (rank_differs j i lt h (sym e))
  ]

  rank_bound : (i : ℕ) → i < n → rank column n i < n
  rank_bound i h = omega (
    arith,
    tally-lt (before column i) (λ j. true) n i h (ground arith) refl (λ j lt e. refl),
    tally-le_bound (λ j. true) n,
  )

  abbrev Placed : ℕ → List ℕ → Type 0
  Placed i t = (n ≤ length t) × ((j : ℕ) → j < i → get_or t (rank column n j) 0 ≡ j)

  Placed-set :
      (i : ℕ) (t : List ℕ) → i < n → Placed i t → Placed (suc i) (set t (rank column n i) i)
  Placed-set i t h (size, placed) = (
    omega (arith, length-set t (rank column n i) i),
    λ j lt.
        get_or-set t (rank column n i) (rank column n j) i 0 (omega (arith, rank_bound i h))
        ∙ elim (le_or_lt i j) [
          | inl le ↦
              let same : i ≡ j = omega arith in
              subst
                (λ (k : ℕ).
                  (if rank column n i == rank column n k then i else get_or t (rank column n k) 0)
                  ≡ k)
                same (ground arith)
          | inr earlier ↦ ground (arith, rank_differs j i earlier h, placed j earlier)
        ],
  )

  transform_loop_lem :
      (rest : List ℕ) (i : ℕ) (temp t : List ℕ)
      → IsRest column n i rest
      → Counts (λ c. tally (less column c) n) column i temp
      → Placed i t
      → (t' : List ℕ) × (transform_loop rest i temp t ≡ done t') × Placed n t'
  unfolding transform_loop
  transform_loop_lem [] i temp t r counts placed =
      let same : i ≡ n = omega (arith, r.0) in (t, refl, subst (λ (k : ℕ). Placed k t) same placed)
  transform_loop_lem (c ∷ rest) i temp t r counts placed =
      let here = IsRest-head column n i c rest r in
      let inside : i < n = omega (arith, r.0) in
      let (temp', step, counts') =
        increment-Counts (λ c. tally (less column c) n) i temp inside
          (omega (arith, place i inside, rank_bound i inside)) counts in
      let here_first : increment temp (column i) ≡ done (rank column n i, temp') =
        step ∙ ap (λ (v : ℕ). done (v, temp')) (sym (place i inside)) in
      let (t', run, all) =
        transform_loop_lem rest (suc i) temp' (set t (rank column n i) i)
          (IsRest-tail column n i c rest r) counts' (Placed-set i t inside placed) in
      (
        t',
        transform_loop-cons rest temp i t here here_first
              (omega (arith, rank_bound i inside, placed.0))
            ∙ run,
        all,
      )

  abbrev FirstBelow : ℕ → List ℕ → Type 0
  FirstBelow i first =
      (length first ≡ 256) × ((c : ℕ) → c < i → get_or first c 0 ≡ tally (less column c) n)

  less-suc :
      (c : ℕ) → tally (less column (suc c)) n ≡ tally (less column c) n + tally (equals column c) n
  less-suc c =
      tally_split (less column c) (equals column c) (less column (suc c)) n (λ j lt. ground arith)

  FirstBelow-set :
      (i : ℕ) (first : List ℕ)
      → suc i < 256
      → FirstBelow (suc i) first
      → FirstBelow (suc (suc i)) (set first (suc i) (tally (less column (suc i)) n))
  FirstBelow-set i first h (size, below) = (
    length-set first (suc i) _ ∙ size,
    λ c lt. get_or-set first (suc i) c _ 0 (omega arith) ∙ elim (le_or_lt (suc i) c) [
      | inl le ↦
          let same : suc i ≡ c = omega arith in
          subst
            (λ (k : ℕ).
              (if suc i == k then tally (less column (suc i)) n else get_or first k 0)
              ≡ tally (less column k) n)
            same (ground arith)
      | inr earlier ↦ ground (arith, below c earlier)
    ],
  )

  first_loop_step :
      (count : List ℕ) (left i : ℕ) (first : List ℕ)
      → suc i < 256
      → Counts (λ c. 0) column n count
      → FirstBelow (suc i) first
      → first_loop count (suc left) (suc i) first
        ≡ first_loop count left (suc (suc i)) (set first (suc i) (tally (less column (suc i)) n))
  unfolding first_loop
  first_loop_step count left i first h counts below =
      let at : suc i - 1 ≡ i = omega arith in
      let next : suc i + 1 ≡ suc (suc i) = omega arith in
      let value = tally (less column (suc i)) n in
      let previous =
        read-eq-done first i 0 (omega (arith, below.0)) ∙ ap done (below.1 i (omega arith)) in
      let counted =
        read-eq-done count i 0 (omega (arith, counts.0)) ∙ ap done (counts.1 i (omega arith)) in
      let sum : (tally (less column i) n + (0 + tally (equals column i) n)) % 2 ^ 32 ≡ value =
        omega (arith, less-suc i, tally-le_bound (less column (suc i)) n) in
      let written = write-eq-done first (suc i) value (omega (arith, below.0)) in
      rw (at, previous, counted, sum, written, next)

  first_loop_lem :
      (count : List ℕ) (left i : ℕ) (first : List ℕ)
      → suc i + left ≡ 256
      → Counts (λ c. 0) column n count
      → FirstBelow (suc i) first
      → (t : List ℕ) × (first_loop count left (suc i) first ≡ done t) × FirstBelow 256 t
  unfolding first_loop
  first_loop_lem count zero i first e counts below =
      let all : suc i ≡ 256 = omega arith in
      (first, refl, subst (λ (k : ℕ). FirstBelow k first) all below)
  first_loop_lem count (suc left) i first e counts below =
      let value = tally (less column (suc i)) n in
      let (t, run, all) =
        first_loop_lem count left (suc i) (set first (suc i) value) (omega arith) counts
          (FirstBelow-set i first (omega arith) below) in
      (t, first_loop_step count left i first (omega arith) counts below ∙ run, all)

  found :
      (t : List ℕ)
      → ((j : ℕ) → j < n → get_or t (rank column n j) 0 ≡ j)
      → (k : ℕ) → k < n
      → (i : ℕ) × (i < n) × (rank column n i ≡ k) × (get_or t k 0 ≡ i)
  found t placed k h =
      let (i, lt, at) = reaches n (rank column n) rank_bound rank_once k h in
      (i, lt, at, ap (λ (place : ℕ). get_or t place 0) (sym at) ∙ placed i lt)

  -- The decoder's array takes the place of each byte in the order to its index.
  pub transform_lem :
      (buf t : List ℕ)
      → length buf ≡ n
      → ((j : ℕ) → j < n → get_or buf j 0 ≡ column j)
      → n ≤ length t
      → (count first t' : List ℕ) × (count_loop buf (replicate 256 0) ≡ done count)
        × (first_loop count 255 1 (replicate 256 0) ≡ done first)
        × (transform_loop buf 0 first t ≡ done t')
        × (n ≤ length t')
        × ((k : ℕ) → k < n → (i : ℕ) × (i < n) × (rank column n i ≡ k) × (get_or t' k 0 ≡ i))
  unfolding tally
  transform_lem buf t size same room =
      let rest : IsRest column n 0 buf =
        (omega arith, λ j h. same j (omega arith) ∙ ap column (omega arith)) in
      let none_below : tally (less column 0) n ≡ 0 =
        omega (arith, tally-le_front (less column 0) n 0 (λ j le lt. ground arith)) in
      let zeros : Counts (λ c. 0) column 0 (replicate 256 0) =
        (length-replicate {A = ℕ} 256 0, λ c h. get_or-replicate {A = ℕ} 256 c 0) in
      let (count, counted, counts) = count_loop_lem buf 0 (replicate 256 0) rest zeros in
      let (first, summed, below) = first_loop_lem count 255 0 (replicate 256 0) refl counts (
        zeros.0,
        λ c h.
            zeros.1 c (omega arith)
            ∙ sym (ap (λ (k : ℕ). tally (less column k) n) (omega arith) ∙ none_below),
      ) in
      let (t', filled, placed) =
        transform_loop_lem buf 0 first t rest (below.0, λ c h. omega (arith, below.1 c h))
          (room, λ j h. absurd (omega arith)) in
      (count, first, t', counted, summed, filled, placed.0, λ k h. found t' placed.1 k h)
