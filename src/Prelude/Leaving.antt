-- ===== src/Prelude/Leaving.antt =====
-- Properties of the state that a function leaves, whether it succeeds or reports a failure.
use br_archive.Prelude.{
  ◌≡◌, refl, Bool, true, false, if◌then◌else◌, Outcome, done, failed, fault, stuck,
}
use br_archive.Prelude.Actions.{
  Action, Step, ok, refused, invalid, endless, on_failure, recovering, zoom, lift, ◌>>=◌, ◌>>◌,
}

-- The property holds of the state that is left, if one is.
unfoldable pub Leaves : {S A : Type 0} → (S → Type 0) → Step S A → Type 0
Leaves P (ok a s) = P s
Leaves P (refused s) = P s
Leaves P invalid = Unit {0}
Leaves P endless = Unit {0}

module _ {S A B : Type 0} (P : S → Type 0) where
  bind-Leaves :
      (r : Step S A) (m : Action S A) (k : A → Action S B) (s : S)
      → m s ≡ r
      → Leaves P r
      → ((a : A) (s' : S) → P s' → Leaves P (k a s'))
      → Leaves P ((m >>= k) s)
  unfolding Leaves
  bind-Leaves (ok a s') m k s e h keep = rw e (keep a s' h)
  bind-Leaves (refused s') m k s e h keep = rw e h
  bind-Leaves invalid m k s e h keep = rw e tt
  bind-Leaves endless m k s e h keep = rw e tt

  pub >>=-Leaves :
      (m : Action S A) (k : A → Action S B) (s : S)
      → Leaves P (m s)
      → ((a : A) (s' : S) → P s' → Leaves P (k a s'))
      → Leaves P ((m >>= k) s)
  >>=-Leaves m k s h keep = bind-Leaves (m s) m k s refl h keep

-- What holds of the first state implies what is claimed of the last.
module _ {S A B : Type 0} (P Q : S → Type 0) (weaken : (s : S) → P s → Q s) where
  weaken_step :
      (r : Step S A) (m : Action S A) (k : A → Action S B) (s : S)
      → m s ≡ r
      → Leaves P r
      → ((a : A) (s' : S) → P s' → Leaves Q (k a s'))
      → Leaves Q ((m >>= k) s)
  unfolding Leaves
  weaken_step (ok a s') m k s e h next = rw e (next a s' h)
  weaken_step (refused s') m k s e h next = rw e (weaken s' h)
  weaken_step invalid m k s e h next = rw e tt
  weaken_step endless m k s e h next = rw e tt

  pub weaken-Leaves :
      (m : Action S A) (k : A → Action S B) (s : S)
      → Leaves P (m s)
      → ((a : A) (s' : S) → P s' → Leaves Q (k a s'))
      → Leaves Q ((m >>= k) s)
  weaken-Leaves m k s h next = weaken_step (m s) m k s refl h next

module _ {S B : Type 0} (P : S → Type 0) where
  pub >>-Leaves :
      (m : Action S (Unit {0})) (n : Action S B) (s : S)
      → Leaves P (m s)
      → ((s' : S) → P s' → Leaves P (n s'))
      → Leaves P ((m >> n) s)
  >>-Leaves m n s h keep = >>=-Leaves P m (λ u. n) s h (λ u. keep)

module _ {S A : Type 0} (P : S → Type 0) where
  pub ok-Leaves : (a : A) (s : S) → P s → Leaves P (ok a s)
  unfolding Leaves
  ok-Leaves a s h = h

  -- A test takes one of two ways.
  pub if-Leaves :
      (b : Bool) (x y : Action S A) (s : S)
      → Leaves P (x s)
      → Leaves P (y s)
      → Leaves P ((if b then x else y) s)
  if-Leaves true x y s h k = h
  if-Leaves false x y s h k = k

  failing-Leaves :
      (leave : S → S) (m : Action S A) (s : S) (r : Step S A)
      → m s ≡ r
      → ((s' : S) → P s' → P (leave s'))
      → Leaves P r
      → Leaves P (on_failure leave m s)
  unfolding Leaves
  failing-Leaves leave m s (ok a s') e keep h = rw e h
  failing-Leaves leave m s (refused s') e keep h = rw e (keep s' h)
  failing-Leaves leave m s invalid e keep h = rw e tt
  failing-Leaves leave m s endless e keep h = rw e tt

  pub on_failure-Leaves :
      (leave : S → S) (m : Action S A) (s : S)
      → ((s' : S) → P s' → P (leave s'))
      → Leaves P (m s)
      → Leaves P (on_failure leave m s)
  on_failure-Leaves leave m s keep h = failing-Leaves leave m s (m s) refl keep h

  pub lift-Leaves : (o : Outcome A) (s : S) → P s → Leaves P (lift o s)
  unfolding Leaves
  lift-Leaves (done a) s h = h
  lift-Leaves failed s h = h
  lift-Leaves fault s h = tt
  lift-Leaves stuck s h = tt

module _ {S : Type 0} (P : S → Type 0) where
  pub refused-Leaves : (A : Type 0) (s : S) → P s → Leaves {A = A} P (refused s)
  unfolding Leaves
  refused-Leaves A s h = h

  pub endless-Leaves : (A : Type 0) → Leaves {A = A} P endless
  unfolding Leaves
  endless-Leaves A = tt

  pub invalid-Leaves : (A : Type 0) → Leaves {A = A} P invalid
  unfolding Leaves
  invalid-Leaves A = tt

-- What does not touch the part that the property is about.
module _ {S T A : Type 0} (P : T → Type 0) where
  zooming-Leaves :
      (get : T → S) (put : S → T → T) (m : Action S A) (t : T) (r : Step S A)
      → m (get t) ≡ r
      → ((s : S) → P (put s t))
      → Leaves P (zoom get put m t)
  unfolding Leaves
  zooming-Leaves get put m t (ok a s) e keep = rw e (keep s)
  zooming-Leaves get put m t (refused s) e keep = rw e (keep s)
  zooming-Leaves get put m t invalid e keep = rw e tt
  zooming-Leaves get put m t endless e keep = rw e tt

  pub zoom-Leaves :
      (get : T → S) (put : S → T → T) (m : Action S A) (t : T)
      → ((s : S) → P (put s t))
      → Leaves P (zoom get put m t)
  zoom-Leaves get put m t keep = zooming-Leaves get put m t (m (get t)) refl keep

  zoomed-Leaves :
      (Q : S → Type 0) (get : T → S) (put : S → T → T) (m : Action S A) (t : T) (r : Step S A)
      → m (get t) ≡ r
      → ((s : S) → Q s → P (put s t))
      → Leaves Q r
      → Leaves P (zoom get put m t)
  unfolding Leaves
  zoomed-Leaves Q get put m t (ok a s) e keep h = rw e (keep s h)
  zoomed-Leaves Q get put m t (refused s) e keep h = rw e (keep s h)
  zoomed-Leaves Q get put m t invalid e keep h = rw e tt
  zoomed-Leaves Q get put m t endless e keep h = rw e tt

  pub zoom_on-Leaves :
      (Q : S → Type 0) (get : T → S) (put : S → T → T) (m : Action S A) (t : T)
      → ((s : S) → Q s → P (put s t))
      → Leaves Q (m (get t))
      → Leaves P (zoom get put m t)
  zoom_on-Leaves Q get put m t keep h = zoomed-Leaves Q get put m t (m (get t)) refl keep h

-- What follows may be replaced by what does the same on the states that can be left.
module _ {S A B : Type 0} (P : S → Type 0) where
  replacing :
      (r : Step S A) (m : Action S A) (k k' : A → Action S B) (s : S)
      → m s ≡ r
      → Leaves P r
      → ((a : A) (s' : S) → P s' → k a s' ≡ k' a s')
      → (m >>= k) s ≡ (m >>= k') s
  unfolding Leaves
  replacing (ok a s') m k k' s e h same = rw e (same a s' h)
  replacing (refused s') m k k' s e h same = rw e
  replacing invalid m k k' s e h same = rw e
  replacing endless m k k' s e h same = rw e

  pub >>=-replace :
      (m : Action S A) (k k' : A → Action S B) (s : S)
      → Leaves P (m s)
      → ((a : A) (s' : S) → P s' → k a s' ≡ k' a s')
      → (m >>= k) s ≡ (m >>= k') s
  >>=-replace m k k' s h same = replacing (m s) m k k' s refl h same

module _ {S A : Type 0} (P : S → Type 0) where
  pub recovering-replace :
      (r : Step S A) (handle handle' : Action S A)
      → Leaves P r
      → ((s : S) → P s → handle s ≡ handle' s)
      → recovering r handle ≡ recovering r handle'
  unfolding Leaves
  recovering-replace (ok a s) handle handle' h same = refl
  recovering-replace (refused s) handle handle' h same = same s h
  recovering-replace invalid handle handle' h same = refl
  recovering-replace endless handle handle' h same = refl
