-- ===== src/Bwt/Primary.antt =====
-- The last column and the primary index that src/encoders/bra_bwt.c stores.
use br_archive.Prelude.{
  ℕ, zero, suc, ◌+◌, ◌-◌, ◌%◌, ◌^◌, ◌≡◌, ◌≢◌, ◌<◌, ◌⊎◌, inl, inr, refl, ap, ◌∙◌, sym, ◌==◌,
  if◌then◌else◌, Bool-cases, arith, List, [], ◌∷◌, length, get_or, done, read, read-eq-done, drop,
}
use br_archive.Bwt.{last_column}
use br_archive.Bwt.Cycles.{cyc, back}
use native.Mathlib.Nat.{mod-eq_of_lt, mod-lt}

-- The byte before an index, round the end.
pub byte_before :
    (bytes : List ℕ) (s : ℕ)
    → s < length bytes
    → length bytes < 2 ^ 31
    → read bytes ((s + length bytes + 0xffff_ffff) % 2 ^ 32 % length bytes)
      ≡ done (cyc bytes (back (length bytes) s) 0)
byte_before bytes s h small =
    let n = length bytes in
    let before : (s + n + 0xffff_ffff) % 2 ^ 32 ≡ s + (n - 1) = omega arith in
    let inside : back n s < n = mod-lt (s + (n - 1)) (omega arith) in
    rw before (
      read-eq-done bytes (back n s) 0 inside
      ∙ ap done (
          ap (λ (t : ℕ). get_or bytes t 0)
            (sym (mod-eq_of_lt inside) ∙ ap (λ (t : ℕ). t % n) (omega arith))))

-- The primary index is a place of index 0, if there is one.
abbrev pub IsPrimary : List ℕ → (i primary p : ℕ) → Type 0
IsPrimary index i primary p =
    ((p ≡ primary) × ((j : ℕ) → j < length index → get_or index j 0 ≢ 0))
    ⊎ ((j : ℕ) × (j < length index) × (get_or index j 0 ≡ 0) × (p ≡ i + j))

pub not_first :
    (s : ℕ) (index : List ℕ)
    → s ≢ 0
    → ((j : ℕ) → j < length index → get_or index j 0 ≢ 0)
    → (j : ℕ) → j < length (s ∷ index)
    → get_or (s ∷ index) j 0 ≢ 0
not_first s index h none_left zero lt e = h e
not_first s index h none_left (suc j) lt e = none_left j (omega arith) e

pub IsPrimary-cons :
    (s : ℕ) (index : List ℕ) (i primary p : ℕ)
    → IsPrimary index (i + 1) (if s == 0 then i else primary) p
    → IsPrimary (s ∷ index) i primary p
IsPrimary-cons s index i primary p (inr (j, lt, z, e)) = inr (suc j, omega arith, z, omega arith)
IsPrimary-cons s index i primary p (inl (e, none_left)) = elim (Bool-cases (s == 0)) [
  | inl z ↦ inr (0, omega arith, ground arith, ground arith)
  | inr z ↦ inl (ground arith, not_first s index (ground arith) none_left)
]

pub last_column_lem :
    (bytes index : List ℕ) (i primary : ℕ)
    → length bytes < 2 ^ 31
    → ((j : ℕ) → j < length index → get_or index j 0 < length bytes)
    → (out : List ℕ) × (p : ℕ) × (last_column bytes index i primary ≡ done (out, p))
      × (length out ≡ length index)
      × ((j : ℕ)
          → j < length index
          → get_or out j 0 ≡ cyc bytes (back (length bytes) (get_or index j 0)) 0)
      × IsPrimary index i primary p
unfolding last_column
last_column_lem bytes [] i primary small h = (
  [],
  primary,
  refl,
  refl,
  λ j lt. absurd (omega arith),
  inl (refl, λ j lt. absurd (omega arith)),
)
last_column_lem bytes (s ∷ index) i primary small h =
    let (out, p, run, size, same, where_zero) =
      last_column_lem bytes index (i + 1) (if s == 0 then i else primary) small
        (λ j lt. h (suc j) (omega arith)) in
    let first = byte_before bytes s (h 0 (omega arith)) small in
    let byte = cyc bytes (back (length bytes) s) 0 in
    (
      byte ∷ out,
      p,
      rw (first, run),
      ap suc size,
      column_cons bytes s index out same,
      IsPrimary-cons s index i primary p where_zero,
    )
  where
    column_cons :
        (bytes : List ℕ) (s : ℕ) (index out : List ℕ)
        → ((j : ℕ)
            → j < length index
            → get_or out j 0 ≡ cyc bytes (back (length bytes) (get_or index j 0)) 0)
        → (j : ℕ) → j < length (s ∷ index)
        → get_or (cyc bytes (back (length bytes) s) 0 ∷ out) j 0
          ≡ cyc bytes (back (length bytes) (get_or (s ∷ index) j 0)) 0
    column_cons bytes s index out same zero lt = refl
    column_cons bytes s index out same (suc j) lt = same j (omega arith)

pub drop-get_or :
    (xs : List ℕ) (i : ℕ) → i < length xs → drop i xs ≡ get_or xs i 0 ∷ drop (suc i) xs
drop-get_or [] i h = absurd (omega arith)
drop-get_or (x ∷ xs) zero h = refl
drop-get_or (x ∷ xs) (suc i) h = drop-get_or xs i (omega arith)

pub drop_all : (xs : List ℕ) → drop (length xs) xs ≡ []
drop_all [] = refl
drop_all (x ∷ xs) = drop_all xs
