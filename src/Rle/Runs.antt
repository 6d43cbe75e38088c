-- ===== src/Rle/Runs.antt =====
-- Where the scans for runs and literals of bra_rle.c stop.
use br_archive.Prelude.{
  ℕ, suc, ◌+◌, ◌≤◌, ◌<◌, ◌≡◌, refl, ap, inl, inr, ◌&&◌, List, [], ◌∷◌, ◌++◌, length, drop,
  replicate, ltb, ◌==◌, Bool-cases, length-drop, arith,
}
use br_archive.Rle.{max_runs, min_runs, detect_run_loop, detect_run, literal_loop, literal_length}

-- `k` more bytes at the front of `ys` continue a run of `x`, which had `run` bytes.
pub record IsRun (x : ℕ) (ys : List ℕ) (run total : ℕ) : Type 0 where
  pub more : ℕ
  pub counted : total ≡ run + more
  pub fits : more ≤ length ys
  pub equal : ys ≡ replicate more x ++ drop more ys
  pub bounded : run ≤ max_runs → total ≤ max_runs

detect_run_loop_lem : (x : ℕ) (ys : List ℕ) (run : ℕ) → IsRun x ys run (detect_run_loop x ys run)
unfolding detect_run_loop
detect_run_loop_lem x [] run = record {
  more = 0;
  counted = omega arith;
  fits = omega arith;
  equal = refl;
  bounded = λ h. h;
}
detect_run_loop_lem x (y ∷ ys) run = elim (Bool-cases (y == x && ltb run max_runs)) [
  | inl e ↦
      let ih = detect_run_loop_lem x ys (run + 1) in
      rw e record {
        more = suc ih.more;
        counted = omega (arith, ih.counted);
        fits = omega (arith, ih.fits);
        equal = ground (arith, ih.equal);
        bounded = λ h. ih.bounded (ground arith);
      }
  | inr e ↦
      rw e record {
        more = 0;
        counted = omega arith;
        fits = omega arith;
        equal = refl;
        bounded = λ h. h;
      }
]

pub record IsFront (x : ℕ) (xs : List ℕ) (run : ℕ) : Type 0 where
  pub positive : 1 ≤ run
  pub bounded : run ≤ max_runs
  pub fits : run ≤ length (x ∷ xs)
  pub equal : x ∷ xs ≡ replicate run x ++ drop run (x ∷ xs)

-- The run that is found stands at the front, and has 1 to 128 bytes.
pub detect_run_lem : (x : ℕ) (xs : List ℕ) → IsFront x xs (detect_run (x ∷ xs))
unfolding detect_run
detect_run_lem x xs =
    let r = detect_run_loop_lem x xs 1 in
    rw r.counted (
      rw (one_more r.more) record {
        positive = omega arith;
        bounded = omega (arith, r.bounded (omega arith), r.counted);
        fits = omega (arith, r.fits);
        equal = ap (λ t. x ∷ t) r.equal;
      })
  where
    one_more : (k : ℕ) → 1 + k ≡ suc k
    one_more k = omega arith

-- A literal block grows to at most 128 bytes, and stays in the buffer.
pub literal_loop_bounds :
    (xs : List ℕ) (lit : ℕ)
    → lit < max_runs
    → (lit ≤ literal_loop xs lit)
      × (literal_loop xs lit ≤ max_runs)
      × (literal_loop xs lit ≤ lit + length xs)
unfolding literal_loop
literal_loop_bounds [] lit h = omega arith
literal_loop_bounds (x ∷ xs) lit h = ground (arith, literal_loop_bounds xs (lit + 1))

pub literal_length_bounds :
    (rest : List ℕ) (run : ℕ)
    → run < min_runs
    → run ≤ length rest
    → (run ≤ literal_length rest run)
      × (literal_length rest run ≤ max_runs)
      × (literal_length rest run ≤ length rest)
unfolding literal_length
literal_length_bounds rest run h fits =
    omega (arith, literal_loop_bounds (drop run rest) run (omega arith), length-drop run rest)
