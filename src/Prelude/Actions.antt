-- ===== src/Prelude/Actions.antt =====
-- C functions that work on a state and return a success flag. A step returns a value, or `false`
-- for a failure that the code reports; `invalid` is a failed assertion or a use of memory outside
-- an object, and `endless` a loop that does not end.
use br_archive.Prelude.{Bool, Outcome, done, failed, fault, stuck, if◌then◌else◌}

pub data Step {ℓ} (S : Type ℓ) (A : Type ℓ) : Type ℓ where
  ok : A → S → Step S A
  refused : S → Step S A
  invalid endless : Step S A

abbrev pub Action {ℓ} : Type ℓ → Type ℓ → Type ℓ
Action S A = S → Step S A

module _ {ℓ} {S : Type ℓ} {A : Type ℓ} where
  abbrev pub pure : A → Action S A
  pure = ok

  abbrev pub refuse : Action S A
  refuse = refused

  -- What is done before `false` is returned.
  abbrev pub leaving : (S → S) → Step S A → Step S A
  leaving leave (ok a s) = ok a s
  leaving leave (refused s) = refused (leave s)
  leaving leave invalid = invalid
  leaving leave endless = endless

  abbrev pub on_failure : (S → S) → Action S A → Action S A
  on_failure leave m s = leaving leave (m s)

  -- A function on data alone.
  abbrev pub lift : Outcome A → Action S A
  lift (done a) s = ok a s
  lift failed s = refused s
  lift fault s = invalid
  lift stuck s = endless

module _ {ℓ} {S A B : Type ℓ} where
  abbrev pub and_then : Step S A → (A → Action S B) → Step S B
  and_then (ok a s) k = k a s
  and_then (refused s) k = refused s
  and_then invalid k = invalid
  and_then endless k = endless

  infixl 5 ◌>>=◌ ◌>>◌
  abbrev pub ◌>>=◌ : Action S A → (A → Action S B) → Action S B
  m >>= k = λ s. and_then (m s) k

  abbrev pub ◌>>◌ : Action S A → Action S B → Action S B
  m >> n = m >>= λ _. n

-- The state, a change of it, and what is done where a function returns `false`.
module _ {S : Type 0} where
  abbrev pub get_state : Action S S
  get_state s = ok s s

  abbrev pub modify : (S → S) → Action S (Unit {0})
  modify f s = ok tt (f s)

abbrev pub recovering : {S A : Type 0} → Step S A → Action S A → Step S A
recovering (ok a s) handle = ok a s
recovering (refused s) handle = handle s
recovering invalid handle = invalid
recovering endless handle = endless

-- A test whose failure is reported, and an assertion.
module _ {S : Type 0} where
  abbrev pub check : Bool → Action S (Unit {0})
  check b = if b then ok tt else refused

  abbrev pub assert : Bool → Action S (Unit {0})
  assert b = if b then ok tt else λ s. invalid

-- An action on a part of the state.
abbrev pub put_back : {S T A : Type 0} → (S → T) → Step S A → Step T A
put_back put (ok a s) = ok a (put s)
put_back put (refused s) = refused (put s)
put_back put invalid = invalid
put_back put endless = endless

module _ {S T : Type 0} (get : T → S) (put : S → T → T) where
  abbrev pub zoom : {A : Type 0} → Action S A → Action T A
  zoom m t = put_back (λ s. put s t) (m (get t))
