-- ===== src/Fs/Sanitizing.antt =====
-- Which paths try_sanitize of src/fs/bra_fs.cpp lets through.
use br_archive.Prelude.{
  ℕ, ◌≡◌, ◌≢◌, ◌↔◌, ◌∙◌, ap, refl, sym, Option-cases, arith, subst, false, Bool-cases, inl, inr,
  some, List, [], ◌∷◌, ◌&&◌, ◌||◌, if◌then◌else◌, All,
}
use br_archive.TreeDir.{same_name}
use br_archive.TreeDir.Siblings.{same_name-eq}
use br_archive.Fs.{FileSystem, Paths, has_parent, is_empty, try_sanitize, sanitized}

-- The element that leads to the parent.
abbrev pub parent : List ℕ
parent = b'.' ∷ b'.' ∷ []

has_parent-All :
    (P : Paths) (elements : List (List ℕ))
    → has_parent P elements ≡ false
    → All (λ x. x ≢ parent) elements
unfolding has_parent
has_parent-All P [] h = tt
has_parent-All P (x ∷ xs) h = elim (Bool-cases (same_name x parent)) [
  | inl same ↦ absurd (let clash = rw same at h in cc)
  | inr other ↦ (λ e. absurd (let clash = rw e at other in cc), has_parent-All P xs (rw other at h))
]

All-has_parent :
    (P : Paths) (elements : List (List ℕ))
    → All (λ x. x ≢ parent) elements
    → has_parent P elements ≡ false
unfolding has_parent
All-has_parent P [] h = refl
All-has_parent P (x ∷ xs) h = elim (Bool-cases (same_name x parent)) [
  | inl same ↦ absurd (h.0 (same_name-eq x parent same))
  | inr other ↦ rw other (All-has_parent P xs h.1)
]

-- A path that stays below the directory that it starts from: it is relative, without a root name,
-- none of its elements is `..`, and it is not empty.
abbrev pub IsSafe : Paths → List ℕ → Type 0
IsSafe P p =
    (P.is_absolute p ≡ false)
    × (P.has_root_name p ≡ false)
    × All (λ x. x ≢ parent) (P.elements p)
    × (p ≢ [])

-- What is documented of std::filesystem: fs::relative gives a relative path or an empty one, and
-- the normal form of a path has a root name or a root directory where the path does.
pub record IsStandard (F : FileSystem) : Type 0 where
  pub relative-is_absolute :
      (s : F.State) (p base : List ℕ) {r : List ℕ}
      → F.relative s p base ≡ some r
      → r ≢ []
      → F.paths.is_absolute r ≡ false
  pub relative-has_root_name :
      (s : F.State) (p base : List ℕ) {r : List ℕ}
      → F.relative s p base ≡ some r
      → r ≢ []
      → F.paths.has_root_name r ≡ false
  pub normal-is_absolute :
      (p : List ℕ) → F.paths.is_absolute (F.paths.lexically_normal p) ≡ F.paths.is_absolute p
  pub normal-has_root_name :
      (p : List ℕ) → F.paths.has_root_name (F.paths.lexically_normal p) ≡ F.paths.has_root_name p

-- The path whose normal form is taken: the relative one, or the argument where that is empty.
abbrev pub kept : List ℕ → List ℕ → List ℕ
kept path p = if is_empty p then path else p

module _ (F : FileSystem) where
  -- The calls that give a path relative to the current directory.
  abbrev pub Locates : F.State → List ℕ → List ℕ → Type 0
  Locates s path p =
      (abs : List ℕ) × (current : List ℕ) × (F.absolute s path ≡ some abs)
      × (F.current_path s ≡ some current)
      × (F.paths.lexically_relative abs current ≢ [])
      × (F.relative s (F.paths.lexically_relative abs current) current ≡ some p)

module _ (F : FileSystem) (standard : IsStandard F) where
  normal_local :
      (path p : List ℕ)
      → (is_empty p && (F.paths.is_absolute path || F.paths.has_root_name path)) ≡ false
      → (p ≢ [] → (F.paths.is_absolute p ≡ false) × (F.paths.has_root_name p ≡ false))
      → (F.paths.is_absolute (F.paths.lexically_normal (kept path p)) ≡ false)
        × (F.paths.has_root_name (F.paths.lexically_normal (kept path p)) ≡ false)
  normal_local path [] h below =
      let parts : (F.paths.is_absolute path ≡ false) × (F.paths.has_root_name path ≡ false) =
        ground arith in
      (standard.normal-is_absolute path ∙ parts.0, standard.normal-has_root_name path ∙ parts.1)
  normal_local path (x ∷ p) h below =
      let parts = below (λ e. absurd cc) in
      (
        standard.normal-is_absolute (x ∷ p) ∙ parts.0,
        standard.normal-has_root_name (x ∷ p) ∙ parts.1,
      )

  sanitized-IsSafe :
      (path p : List ℕ) {result : List ℕ}
      → (p ≢ [] → (F.paths.is_absolute p ≡ false) × (F.paths.has_root_name p ≡ false))
      → sanitized F path p ≡ some result
      → (F.paths.lexically_normal (kept path p) ≡ result) × IsSafe F.paths result
  sanitized-IsSafe path p {result} local h =
      let normal = F.paths.lexically_normal (kept path p) in
      elim (Bool-cases (is_empty p && (F.paths.is_absolute path || F.paths.has_root_name path))) [
        | inl outside ↦ absurd (let clash = rw outside at h in cc)
        | inr below ↦ elim (Bool-cases (has_parent F.paths (F.paths.elements normal))) [
          | inl up ↦ absurd (let clash = rw (below, up) at h in cc)
          | inr inside ↦ elim (Bool-cases (is_empty normal)) [
            | inl empty ↦ absurd (let clash = rw (below, inside, empty) at h in cc)
            | inr there ↦
                let found = rw (below, inside, there) at h in
                let same : normal ≡ result = cc in
                let rooted = normal_local path p below local in
                (
                  same,
                  subst (IsSafe F.paths) same (
                    rooted.0,
                    rooted.1,
                    has_parent-All F.paths (F.paths.elements normal) inside,
                    λ e. absurd (let clash = rw e at there in cc),
                  ),
                )
          ]
        ]
      ]

  guard_passed :
      (path p : List ℕ)
      → IsSafe F.paths (F.paths.lexically_normal (kept path p))
      → (is_empty p && (F.paths.is_absolute path || F.paths.has_root_name path)) ≡ false
  guard_passed path [] safe =
      let a = sym (standard.normal-is_absolute path) ∙ safe.0 in
      let b = sym (standard.normal-has_root_name path) ∙ safe.1 in rw (a, b) refl
  guard_passed path (x ∷ p) safe = refl

  not_empty : (p : List ℕ) → p ≢ [] → is_empty p ≡ false
  not_empty [] h = absurd (h refl)
  not_empty (x ∷ p) h = refl

  IsSafe-sanitized :
      (path p : List ℕ)
      → IsSafe F.paths (F.paths.lexically_normal (kept path p))
      → sanitized F path p ≡ some (F.paths.lexically_normal (kept path p))
  IsSafe-sanitized path p safe =
      let normal = F.paths.lexically_normal (kept path p) in
      let guard = guard_passed path p safe in
      let inside = All-has_parent F.paths (F.paths.elements normal) safe.2 in
      let there = not_empty normal safe.3 in rw (guard, inside, there) refl

  located :
      (s : F.State) (path p : List ℕ)
      → Locates F s path p
      → try_sanitize F s path ≡ sanitized F path p
  unfolding try_sanitize
  located s path p (abs, current, found, here, below, relative) =
      let there = not_empty (F.paths.lexically_relative abs current) below in
      rw (try_sanitize, found, here, there, relative) refl

  accepted-Locates :
      (s : F.State) (path : List ℕ) {result : List ℕ}
      → try_sanitize F s path ≡ some result
      → (p : List ℕ) × Locates F s path p
  unfolding try_sanitize
  accepted-Locates s path h = elim (Option-cases (F.absolute s path)) [
    | inl missing ↦ absurd (let clash = rw (try_sanitize, missing) at h in cc)
    | inr (abs, found) ↦ elim (Option-cases (F.current_path s)) [
      | inl missing ↦ absurd (let clash = rw (try_sanitize, found, missing) at h in cc)
      | inr (current, here) ↦
          let p = F.paths.lexically_relative abs current in
          elim (Bool-cases (is_empty p)) [
            | inl empty ↦ absurd (let clash = rw (try_sanitize, found, here, empty) at h in cc)
            | inr below ↦ elim (Option-cases (F.relative s p current)) [
              | inl missing ↦
                  absurd (let clash = rw (try_sanitize, found, here, below, missing) at h in cc)
              | inr (p', relative) ↦ (
                p',
                (
                  abs,
                  current,
                  found,
                  here,
                  λ e. absurd (let clash = rw e at below in cc),
                  relative,
                ),
              )
            ]
          ]
    ]
  ]

  relative_local :
      (s : F.State) (path p : List ℕ)
      → Locates F s path p
      → p ≢ []
      → (F.paths.is_absolute p ≡ false) × (F.paths.has_root_name p ≡ false)
  relative_local s path p (abs, current, found, here, below, relative) there = (
    standard.relative-is_absolute s _ current relative there,
    standard.relative-has_root_name s _ current relative there,
  )

  -- Where std::filesystem does what is documented of relative and normal paths: try_sanitize
  -- accepts a path with a result exactly when the path can be made absolute, the way to it from the
  -- current directory is not empty, and the result is the normal form of the relative path, or of
  -- the path itself if that is empty, and is safe: it is relative, it has no root name, none of its
  -- elements is `..`, and it is not empty.
  pub try_sanitize-IsSafe :
      (s : F.State) (path result : List ℕ)
      → (try_sanitize F s path ≡ some result) ↔ (
          (p : List ℕ) × Locates F s path p
          × (F.paths.lexically_normal (kept path p) ≡ result)
          × IsSafe F.paths result)
  try_sanitize-IsSafe s path result = (
    λ h.
        let (p, locates) = accepted-Locates s path h in
        let run = sym (located s path p locates) ∙ h in
        let (same, safe) = sanitized-IsSafe path p (relative_local s path p locates) run in
        (p, locates, same, safe),
    λ (p, locates, same, safe).
        located s path p locates
        ∙ IsSafe-sanitized path p (subst (IsSafe F.paths) (sym same) safe)
        ∙ ap some same,
  )
