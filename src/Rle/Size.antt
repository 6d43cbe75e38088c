-- ===== src/Rle/Size.antt =====
-- How large the output of `bra_rle_encode` of src/encoders/bra_rle.c can be.
use br_archive.Prelude.{
  ℕ, zero, suc, ◌+◌, ◌-◌, ◌*◌, ◌/◌, ◌≤◌, ◌<◌, ◌≡◌, refl, ap, ◌∙◌, ◌⊎◌, inl, inr, true, false, Bool,
  List, [], ◌∷◌, length, drop, leb, done, Bool-cases, length-drop, drop-drop, drop-nil, arith, ◌==◌,
}
use mathlib.Core.Path.{subst}
use br_archive.Rle.{
  detect_run, literal_loop, literal_length, encode_size_loop, encode_compute_size, min_runs,
  max_runs,
}
use br_archive.Rle.Runs.{detect_run_lem, literal_length_bounds, literal_loop_bounds}

abbrev starts_run : List ℕ → Bool
starts_run [] = false
starts_run (x ∷ xs) = leb min_runs (detect_run (x ∷ xs))

-- A literal block ends when it is full, at the end of the buffer, or before a run.
abbrev Stops : ℕ → List ℕ → Type 0
Stops lit rest = (lit ≡ max_runs) ⊎ (rest ≡ []) ⊎ (starts_run rest ≡ true)

literal_loop-Stops :
    (xs : List ℕ) (lit : ℕ)
    → lit < max_runs
    → Stops (literal_loop xs lit) (drop (literal_loop xs lit - lit) xs)
unfolding literal_loop
literal_loop-Stops [] lit h = rw (drop-nil (lit - lit)) (inr (inl refl))
literal_loop-Stops (x ∷ xs) lit h = elim (Bool-cases (leb min_runs (detect_run (x ∷ xs)))) [
  | inl e ↦ rw (e, self lit) (inr (inr e))
  | inr e ↦ elim (Bool-cases (lit + 1 == max_runs)) [
    | inl full ↦ rw (e, full) (inl (ground arith))
    | inr more ↦
        let ih = literal_loop-Stops xs (lit + 1) (ground arith) in
        let at_least = (literal_loop_bounds xs (lit + 1) (ground arith)).0 in
        rw (e, more, further _ lit at_least) ih
  ]
]
  where
    self : (n : ℕ) → n - n ≡ 0
    self n = omega arith

    further : (k n : ℕ) → n + 1 ≤ k → k - n ≡ suc (k - (n + 1))
    further k n h = omega arith

literal_length-Stops :
    (rest : List ℕ) (run : ℕ)
    → run < min_runs
    → run ≤ length rest
    → Stops (literal_length rest run) (drop (literal_length rest run) rest)
literal_length-Stops rest run h fits =
    let lit = literal_length rest run in
    let whole : run + (lit - run) ≡ lit = omega (arith, literal_length_bounds rest run h fits) in
    subst (λ t. Stops lit t) (drop-drop (lit - run) run rest ∙ ap (λ n. drop n rest) whole)
      (unfold literal_length in literal_loop-Stops (drop run rest) run (omega arith))

-- The first pass counts `k` bytes from `rest` on. A run saves what a literal block before it costs.
record IsSmall (fuel : ℕ) (rest : List ℕ) (size : ℕ) : Type 0 where
  pub k : ℕ
  pub counted : encode_size_loop fuel rest size ≡ done (size + k)
  pub bound : 128 * k ≤ 129 * length rest + 128
  pub run_bound : starts_run rest ≡ true → 128 * k + 131 ≤ 129 * length rest + 128
  pub at_end : rest ≡ [] → k ≡ 0

IsSmall-run :
    (fuel x : ℕ) (xs : List ℕ) (size : ℕ)
    → leb min_runs (detect_run (x ∷ xs)) ≡ true
    → IsSmall fuel (drop (detect_run (x ∷ xs)) (x ∷ xs)) (size + 2)
    → IsSmall (suc fuel) (x ∷ xs) size
IsSmall-run fuel x xs size e ih =
    let run = detect_run (x ∷ xs) in
    let front = detect_run_lem x xs in
    let three : 3 ≤ run = ground arith in
    let left : length (drop run (x ∷ xs)) ≡ length (x ∷ xs) - run = length-drop run (x ∷ xs) in
    let fits = front.fits in
    let bound = ih.bound in
    record {
      k = 2 + ih.k;
      counted = unfold encode_size_loop in rw e (ih.counted ∙ ap done (omega arith));
      bound = omega arith;
      run_bound = λ _. omega arith;
      at_end = λ h. cc;
    }

IsSmall-literal :
    (fuel x : ℕ) (xs : List ℕ) (size : ℕ)
    → leb min_runs (detect_run (x ∷ xs)) ≡ false
    → let lit = literal_length (x ∷ xs) (detect_run (x ∷ xs)) in
      IsSmall fuel (drop lit (x ∷ xs)) (size + (1 + lit)) → IsSmall (suc fuel) (x ∷ xs) size
IsSmall-literal fuel x xs size e ih =
    let rest = x ∷ xs in
    let lit = literal_length rest (detect_run rest) in
    let front = detect_run_lem x xs in
    let bounds = literal_length_bounds rest (detect_run rest) (ground arith) front.fits in
    let left : length (drop lit rest) ≡ length rest - lit = length-drop lit rest in
    record {
      k = 1 + lit + ih.k;
      counted = unfold encode_size_loop in rw e (ih.counted ∙ ap done (omega arith));
      bound = elim (literal_length-Stops rest (detect_run rest) (ground arith) front.fits) [
        | inl full ↦ omega (arith, ih.bound)
        | inr (inl ends) ↦ omega (arith, ih.at_end ends)
        | inr (inr before_run) ↦ omega (arith, ih.run_bound before_run)
      ];
      run_bound = λ h. cc;
      at_end = λ h. cc;
    }

nothing_left : (fuel size : ℕ) → IsSmall fuel [] size
unfolding encode_size_loop
nothing_left zero size = record {
  k = 0;
  counted = ap done (omega arith);
  bound = omega arith;
  run_bound = λ h. cc;
  at_end = λ h. refl;
}
nothing_left (suc fuel) size = record {
  k = 0;
  counted = ap done (omega arith);
  bound = omega arith;
  run_bound = λ h. cc;
  at_end = λ h. refl;
}

encode_size_loop-IsSmall :
    (fuel : ℕ) (rest : List ℕ) (size : ℕ) → length rest ≤ fuel → IsSmall fuel rest size
encode_size_loop-IsSmall fuel [] size h = nothing_left fuel size
encode_size_loop-IsSmall zero (x ∷ xs) size h = absurd (omega arith)
encode_size_loop-IsSmall (suc fuel) (x ∷ xs) size h =
    let rest = x ∷ xs in
    let run = detect_run rest in
    let lit = literal_length rest run in
    let front = detect_run_lem x xs in
    elim (Bool-cases (leb min_runs run)) [
      | inl e ↦ IsSmall-run fuel x xs size e (
          encode_size_loop-IsSmall fuel (drop run rest) (size + 2)
            (omega (arith, front.positive, length-drop run rest)))
      | inr e ↦ IsSmall-literal fuel x xs size e (
          encode_size_loop-IsSmall fuel (drop lit rest) (size + (1 + lit)) (
            omega (
              arith,
              front.positive,
              length-drop lit rest,
              literal_length_bounds rest run (ground arith) front.fits,
            )))
    ]

-- The size that the encoder computes and fills exceeds the size of the input by at most one byte
-- for each whole 128 bytes of it, and one more.
pub encode_compute_size_bound :
    (buf : List ℕ)
    → (n : ℕ) × (encode_compute_size buf ≡ done n) × (n ≤ length buf + length buf / 128 + 1)
unfolding encode_compute_size
encode_compute_size_bound buf =
    let x = encode_size_loop-IsSmall (length buf) buf 0 (omega arith) in
    (x.k, x.counted ∙ ap done (omega arith), omega (arith, x.bound))
