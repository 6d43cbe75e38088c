-- ===== src/TreeDir/Siblings.antt =====
-- The searches along the chain of siblings in src/utils/bra_tree_dir.c.
use br_archive.Prelude.{
  ℕ, zero, suc, ◌+◌, ◌≡◌, ◌<◌, ◌≤◌, ◌⊎◌, inl, inr, refl, ap, ◌∙◌, sym, subst, true, Bool-cases,
  Option-cases, Option, none, some, List, [], ◌∷◌, length, ◌==◌, if◌then◌else◌, Outcome, done,
  fault, read-eq-done, read, arith,
}
use br_archive.TreeDir.{Node, empty_node, same_name, find_sibling, last_sibling}
use br_archive.TreeDir.Chains.{Chain, here, along}
use br_archive.TreeDir.Invariant.{node_at, IsTree, IsLink}

pub same_name-eq : (xs ys : List ℕ) → same_name xs ys ≡ true → xs ≡ ys
same_name-eq [] [] h = refl
same_name-eq [] (y ∷ ys) h = cc
same_name-eq (x ∷ xs) [] h = cc
same_name-eq (x ∷ xs) (y ∷ ys) h =
    let parts : ((x == y) ≡ true) × (same_name xs ys ≡ true) = ground arith in
    let first : x ≡ y = ground (arith, parts.0) in cc (first, same_name-eq xs ys parts.1)

pub same_name_refl : (xs : List ℕ) → same_name xs xs ≡ true
same_name_refl [] = refl
same_name_refl (x ∷ xs) = ground (arith, same_name_refl xs)

-- A node that is below another one, with its name.
abbrev pub IsChild : List Node → ℕ → List ℕ → ℕ → Type 0
IsChild nodes p dirname c =
    (c < length nodes)
    × ((node_at nodes c).parent ≡ some p)
    × ((node_at nodes c).dirname ≡ some dirname)

module _ (nodes : List Node) (tree : IsTree nodes) where
  pub read_node : (a : ℕ) → a < length nodes → read nodes a ≡ done (node_at nodes a)
  read_node a h = read-eq-done nodes a empty_node h

  pub name_at :
      (a p : ℕ)
      → p < a
      → a < length nodes
      → (name : List ℕ) × ((node_at nodes a).dirname ≡ some name)
  name_at (suc a) p h inside = (tree.1 (suc a) inside).1.0
  name_at zero p h inside = absurd (omega arith)

  pub last_sibling-last :
      (fuel a : ℕ) (n : Node)
      → read nodes a ≡ done n
      → n.next ≡ none
      → last_sibling nodes (suc fuel) a ≡ done a
  unfolding last_sibling
  last_sibling-last fuel a n found last = rw found (rw last refl)

  pub last_sibling-next :
      (fuel a b : ℕ) (n : Node)
      → read nodes a ≡ done n
      → n.next ≡ some b
      → last_sibling nodes (suc fuel) a ≡ last_sibling nodes fuel b
  unfolding last_sibling
  last_sibling-next fuel a b n found more = simp (found, more)

  pub find_sibling-next :
      (dirname name : List ℕ) (fuel a : ℕ) (n : Node)
      → read nodes a ≡ done n
      → n.dirname ≡ some name
      → find_sibling nodes dirname (suc fuel) (some a)
        ≡ (if same_name name dirname then done (some a) else find_sibling nodes dirname fuel n.next)
  unfolding find_sibling
  find_sibling-next dirname name fuel a n found named = cc (found, named)

  pub last_sibling_lem :
      (p fuel a : ℕ)
      → a < length nodes
      → length nodes ≤ a + fuel
      → (node_at nodes a).parent ≡ some p
      → (s : ℕ) × (last_sibling nodes fuel a ≡ done s)
        × (s < length nodes)
        × ((node_at nodes s).parent ≡ some p)
        × ((node_at nodes s).next ≡ none)
        × Chain nodes (some a) s
  unfolding last_sibling
  last_sibling_lem p zero a h room e = absurd (omega arith)
  last_sibling_lem p (suc fuel) a h room e = elim (Option-cases (node_at nodes a).next) [
    | inl last ↦
        (a, last_sibling-last fuel a (node_at nodes a) (read_node a h) last, h, e, last, here a)
    | inr (b, more) ↦
        let link : IsLink nodes a (node_at nodes a).parent (some b) =
          subst (IsLink nodes a (node_at nodes a).parent) more (tree.1 a h).3 in
        let (s, run, inside, same, last, chain) =
          last_sibling_lem p fuel b link.1 (omega (arith, link.0)) (link.2 ∙ e) in
        (
          s,
          last_sibling-next fuel a b (node_at nodes a) (read_node a h) more ∙ run,
          inside,
          same,
          last,
          along a s h (subst (λ (o : Option ℕ). Chain nodes o s) (sym more) chain),
        )
  ]

  find_sibling-nameless :
      (dirname : List ℕ) (fuel a : ℕ) (n : Node)
      → read nodes a ≡ done n
      → n.dirname ≡ none
      → find_sibling nodes dirname (suc fuel) (some a) ≡ fault
  unfolding find_sibling
  find_sibling-nameless dirname fuel a n found nameless = cc (found, nameless)

  -- Where no sibling is found, none on the way has the name.
  pub find_sibling-misses :
      (dirname : List ℕ) (fuel : ℕ) (link : Option ℕ) (c : ℕ)
      → c < length nodes
      → (node_at nodes c).dirname ≡ some dirname
      → Chain nodes link c
      → ¬ (find_sibling nodes dirname fuel link ≡ done none)
  unfolding find_sibling
  find_sibling-misses dirname zero _ c inside named (here _) h = cc
  find_sibling-misses dirname zero _ c inside named (along b _ lt r) h = cc
  find_sibling-misses dirname (suc fuel) _ c inside named (here _) h =
      let step =
        find_sibling-next dirname dirname fuel c (node_at nodes c) (read_node c inside) named in
      absurd (let clash = sym (rw (same_name_refl dirname) at step) ∙ h in cc)
  find_sibling-misses dirname (suc fuel) _ c inside named (along b _ lt r) h =
      elim (Option-cases (node_at nodes b).dirname) [
        | inl nameless ↦ absurd (
            let e =
              find_sibling-nameless dirname fuel b (node_at nodes b) (read_node b lt) nameless in
            cc (e, h))
        | inr (name, has_name) ↦
            let step =
              find_sibling-next dirname name fuel b (node_at nodes b) (read_node b lt) has_name in
            elim (Bool-cases (same_name name dirname)) [
              | inl e ↦ absurd (let clash = sym (rw e at step) ∙ h in cc)
              | inr e ↦
                  find_sibling-misses dirname fuel (node_at nodes b).next c inside named r
                    (sym (rw e at step) ∙ h)
            ]
      ]

  abbrev pub Found : List ℕ → ℕ → Outcome (Option ℕ) → Type 0
  Found dirname p r = (r ≡ done none) ⊎ ((c : ℕ) × (r ≡ done (some c)) × IsChild nodes p dirname c)

  pub find_sibling_lem :
      (dirname : List ℕ) (p fuel a : ℕ) (link : Option ℕ)
      → length nodes ≤ suc a + fuel
      → p ≤ a
      → IsLink nodes a (some p) link
      → Found dirname p (find_sibling nodes dirname fuel link)
  unfolding find_sibling
  find_sibling_lem dirname p fuel a none room le h = inl refl
  find_sibling_lem dirname p zero a (some b) room le h = absurd (omega (arith, h.0, h.1))
  find_sibling_lem dirname p (suc fuel) a (some b) room le (later, inside, parent) =
      let (name, named) = name_at b p (omega arith) inside in
      let step =
        find_sibling-next dirname name fuel b (node_at nodes b) (read_node b inside) named in
      elim (Bool-cases (same_name name dirname)) [
        | inl e ↦
            inr
              (b, step ∙ rw e refl, (inside, parent, named ∙ ap some (same_name-eq name dirname e)))
        | inr e ↦
            let next =
              subst (λ (o : Option ℕ). IsLink nodes b o (node_at nodes b).next) parent
                (tree.1 b inside).3 in
            let more =
              find_sibling_lem dirname p fuel b (node_at nodes b).next (omega arith) (omega arith)
                next in
            subst (Found dirname p) (sym (step ∙ rw e refl)) more
      ]
