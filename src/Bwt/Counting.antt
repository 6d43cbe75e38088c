-- ===== src/Bwt/Counting.antt =====
-- The counters of the decoder in src/encoders/bra_bwt.c, round by round.
use br_archive.Prelude.{
  ℕ, suc, ◌+◌, ◌%◌, ◌^◌, ◌≡◌, ◌<◌, inl, inr, ap, ◌∙◌, Bool, ◌==◌, Bool-cases, arith, List, ◌∷◌,
  length, get_or, set, ltb, done, read-eq-done, write-eq-done, length-set, get_or-set,
}
use br_archive.Bwt.{increment, count_loop, transform_loop}
use br_archive.Bwt.Tally.{tally}

abbrev pub equals : (ℕ → ℕ) → ℕ → ℕ → Bool
equals column c j = column j == c

abbrev pub less : (ℕ → ℕ) → ℕ → ℕ → Bool
less column c j = ltb (column j) c

pub increment_lem :
    (table : List ℕ) (c n : ℕ)
    → c < length table
    → get_or table c 0 ≡ n
    → suc n < 2 ^ 32
    → increment table c ≡ done (n, set table c (n + 1))
unfolding increment
increment_lem table c n h e small =
    let kept : (n + 1) % 2 ^ 32 ≡ n + 1 = omega arith in
    rw (read-eq-done table c 0 h, e, kept, write-eq-done table c (n + 1) h)

-- A table of counters for the values of the column at the places below `i`.
abbrev pub Counts : (base : ℕ → ℕ) (column : ℕ → ℕ) (i : ℕ) → List ℕ → Type 0
Counts base column i table =
    (length table ≡ 256)
    × ((c : ℕ) → c < 256 → get_or table c 0 ≡ base c + tally (equals column c) i)

pub Counts-increment :
    (base column : ℕ → ℕ) (i : ℕ) (table : List ℕ)
    → column i < 256
    → Counts base column i table
    → Counts base column
        (suc i)
        (set table (column i) (base (column i) + tally (equals column (column i)) i + 1))
unfolding tally
Counts-increment base column i table h (size, counts) = (
  length-set table (column i) _ ∙ size,
  λ c lt. get_or-set table (column i) c _ 0 (omega arith) ∙ elim (Bool-cases (column i == c)) [
    | inl e ↦ let same : column i ≡ c = ground arith in rw e (rw same (omega arith))
    | inr e ↦ rw e (omega (arith, counts c lt))
  ],
)

-- The bytes from place `i` of the column on.
abbrev pub IsRest : (ℕ → ℕ) → ℕ → ℕ → List ℕ → Type 0
IsRest column n i rest =
    (i + length rest ≡ n) × ((j : ℕ) → j < length rest → get_or rest j 0 ≡ column (i + j))

pub IsRest-tail :
    (column : ℕ → ℕ) (n i c : ℕ) (rest : List ℕ)
    → IsRest column n i (c ∷ rest)
    → IsRest column n (suc i) rest
IsRest-tail column n i c rest (size, same) =
    (omega arith, λ j h. same (suc j) (omega arith) ∙ ap column (omega arith))

pub IsRest-head :
    (column : ℕ → ℕ) (n i c : ℕ) (rest : List ℕ) → IsRest column n i (c ∷ rest) → c ≡ column i
IsRest-head column n i c rest (size, same) = same 0 (omega arith) ∙ ap column (omega arith)

pub count_loop-cons :
    (rest table : List ℕ) {c d v : ℕ} {t : List ℕ}
    → c ≡ d
    → increment table d ≡ done (v, t)
    → count_loop (c ∷ rest) table ≡ count_loop rest t
unfolding count_loop
count_loop-cons rest table e step = rw (e, step)

pub transform_loop-cons :
    (rest temp : List ℕ) (i : ℕ) (t : List ℕ) {c d v : ℕ} {temp' : List ℕ}
    → c ≡ d
    → increment temp d ≡ done (v, temp')
    → v < length t
    → transform_loop (c ∷ rest) i temp t ≡ transform_loop rest (suc i) temp' (set t v i)
unfolding transform_loop
transform_loop-cons rest temp i t {v = v} e step h =
    let next : i + 1 ≡ suc i = omega arith in rw (e, step, write-eq-done t v i h, next)
