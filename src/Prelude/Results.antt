-- ===== src/Prelude/Results.antt =====
-- The result of C code: a normal return, a failure that the code reports, an access outside its
-- buffer, or a model loop that used up its fuel.
use Prim.Native.Nat.{ℕ, zero, suc, ◌<◌}
use mathlib.Core.Path.{◌≡◌, refl}
use mathlib.Core.List.{List, [], ◌∷◌}
use native.Mathlib.Omega.{arith}
use br_archive.Prelude.Lists.{length, set, get_or}

pub data Outcome {ℓ} (A : Type ℓ) : Type ℓ where
  done : A → Outcome A
  failed fault stuck : Outcome A

infixl 5 ◌>>=◌
abbrev pub ◌>>=◌ {ℓ κ} : {A : Type ℓ} {B : Type κ} → Outcome A → (A → Outcome B) → Outcome B
done a >>= f = f a
failed >>= f = failed
fault >>= f = fault
stuck >>= f = stuck

-- A successful bind has a successful first part.
pub >>=-eq-done {ℓ κ} :
    {A : Type ℓ} {B : Type κ} (m : Outcome A) (f : A → Outcome B) {b : B}
    → (m >>= f) ≡ done b
    → (a : A) × (m ≡ done a) × (f a ≡ done b)
>>=-eq-done (done a) f h = (a, refl, h)
>>=-eq-done failed f h = cc
>>=-eq-done fault f h = cc
>>=-eq-done stuck f h = cc

-- A read and a write through an array; outside the array they are a `fault`.
module _ {ℓ} {A : Type ℓ} where
  abbrev pub read : List A → ℕ → Outcome A
  read [] i = fault
  read (x ∷ xs) zero = done x
  read (x ∷ xs) (suc i) = read xs i

  abbrev pub write : List A → ℕ → A → Outcome (List A)
  write [] i v = fault
  write (x ∷ xs) zero v = done (v ∷ xs)
  write (x ∷ xs) (suc i) v = write xs i v >>= λ ys. done (x ∷ ys)

  pub read-eq-done :
      (xs : List A) (i : ℕ) (d : A) → i < length xs → read xs i ≡ done (get_or xs i d)
  read-eq-done [] i d h = absurd (omega arith)
  read-eq-done (x ∷ xs) zero d h = refl
  read-eq-done (x ∷ xs) (suc i) d h = read-eq-done xs i d (omega arith)

  pub write-eq-done :
      (xs : List A) (i : ℕ) (v : A) → i < length xs → write xs i v ≡ done (set xs i v)
  write-eq-done [] i v h = absurd (omega arith)
  write-eq-done (x ∷ xs) zero v h = refl
  write-eq-done (x ∷ xs) (suc i) v h = rw (write-eq-done xs i v (omega arith))
