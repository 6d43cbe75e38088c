-- ===== src/TreeDir/Chains.antt =====
-- The chains of siblings in src/utils/bra_tree_dir.c: from the first child of a node along `next`.
use br_archive.Prelude.{
  ℕ, ◌≡◌, ◌<◌, ◌⊎◌, inl, inr, refl, ◌∙◌, sym, subst, Bool-cases, le_or_lt, Option, none, some, List,
  length, ◌==◌, arith,
}
use br_archive.TreeDir.{Node}
use br_archive.TreeDir.Invariant.{
  node_at, Extends, grown, length-grown, node_at-new, node_at-kept, node_at-changed,
}

-- The node is met on the way along `next` from the link.
pub data Chain (nodes : List Node) : Option ℕ → ℕ → Type 0 where
  here : (c : ℕ) → Chain nodes (some c) c
  along :
      (b c : ℕ) → b < length nodes → Chain nodes (node_at nodes b).next c → Chain nodes (some b) c

-- Every node with a parent is met from the first child of the parent.
abbrev pub IsLinked : List Node → Type 0
IsLinked nodes =
    (c p : ℕ)
    → c < length nodes
    → (node_at nodes c).parent ≡ some p
    → Chain nodes (node_at nodes p).first_child c

-- A link is as it was, or was not there.
abbrev pub Kept : Option ℕ → Option ℕ → Type 0
Kept link link' = (link' ≡ link) ⊎ (link ≡ none)

abbrev pub KeepsLinks : Node → Node → Type 0
KeepsLinks n n' = Kept n.next n'.next × Kept n.first_child n'.first_child

abbrev Grows : List Node → List Node → Type 0
Grows nodes nodes' =
    (length nodes < length nodes')
    × ((a : ℕ) → a < length nodes → KeepsLinks (node_at nodes a) (node_at nodes' a))

pub nothing-Chain :
    (nodes : List Node) (link : Option ℕ) (c : ℕ) → link ≡ none → ¬ Chain nodes link c
nothing-Chain nodes _ c e (here _) = cc
nothing-Chain nodes _ c e (along b _ inside r) = cc

Chain-Kept :
    (nodes nodes' : List Node) (link link' : Option ℕ) (c : ℕ)
    → Kept link link'
    → (Chain nodes link c)
    → Chain nodes' link c
    → Chain nodes' link' c
Chain-Kept nodes nodes' link link' c (inl e) old r =
    subst (λ (o : Option ℕ). Chain nodes' o c) (sym e) r
Chain-Kept nodes nodes' link link' c (inr e) old r = absurd (nothing-Chain nodes link c e old)

Chain-Grows :
    (nodes nodes' : List Node) (link : Option ℕ) (c : ℕ)
    → Grows nodes nodes'
    → Chain nodes link c
    → Chain nodes' link c
Chain-Grows nodes nodes' _ c g (here _) = here c
Chain-Grows nodes nodes' _ c g (along b _ inside r) = along b c (omega (arith, g.0)) (
    Chain-Kept nodes nodes' (node_at nodes b).next (node_at nodes' b).next c (g.1 b inside).0 r
      (Chain-Grows nodes nodes' (node_at nodes b).next c g r))

-- What is linked behind a node of a chain is on the chain.
pub Chain-behind :
    (nodes : List Node) (link : Option ℕ) (s c : ℕ)
    → Chain nodes link s
    → s < length nodes
    → (node_at nodes s).next ≡ some c
    → Chain nodes link c
Chain-behind nodes _ s c (here _) inside e =
    along s c inside (subst (λ (o : Option ℕ). Chain nodes o c) (sym e) (here c))
Chain-behind nodes _ s c (along b _ inside' r) inside e =
    along b c inside' (Chain-behind nodes (node_at nodes b).next s c r inside e)

module _ (nodes : List Node) (b : ℕ) (v new : Node) (inside : b < length nodes)
    (keeps : KeepsLinks (node_at nodes b) v) where
  Grows-grown : Grows nodes (grown nodes b v new)
  Grows-grown = (
    omega (arith, length-grown nodes b v new),
    λ a lt. elim (Bool-cases (b == a)) [
      | inl e ↦
          let eq : b ≡ a = ground arith in
          subst (λ (k : ℕ). KeepsLinks (node_at nodes k) (node_at (grown nodes b v new) k)) eq
            (subst (KeepsLinks (node_at nodes b)) (sym (node_at-changed nodes b v new inside))
              keeps)
      | inr e ↦
          subst (KeepsLinks (node_at nodes a)) (sym (node_at-kept nodes b v new a lt inside e))
            (inl refl, inl refl)
    ],
  )

  pub Chain-grown :
      (link : Option ℕ) (c : ℕ) → Chain nodes link c → Chain (grown nodes b v new) link c
  Chain-grown link c r = Chain-Grows nodes (grown nodes b v new) link c Grows-grown r

  -- The links stay complete where the new node is linked below its parent.
  pub IsLinked-grown :
      (p : ℕ)
      → p < length nodes
      → ((a q : ℕ) → a < length nodes → (node_at nodes a).parent ≡ some q → q < length nodes)
      → Extends nodes (grown nodes b v new)
      → new.parent ≡ some p
      → Chain (grown nodes b v new) (node_at (grown nodes b v new) p).first_child (length nodes)
      → IsLinked nodes
      → IsLinked (grown nodes b v new)
  IsLinked-grown p h parents extends below chain links c q lt parent =
      elim (le_or_lt (length nodes) c) [
        | inl le ↦
            let same : length nodes ≡ c = omega (arith, length-grown nodes b v new) in
            let added = node_at-new nodes b v new in
            let parent' =
              subst (λ (k : ℕ). (node_at (grown nodes b v new) k).parent ≡ some q) (sym same)
                parent in
            let eq : p ≡ q = cc (added, below, parent') in
            subst
              (λ (k : ℕ).
                Chain (grown nodes b v new) (node_at (grown nodes b v new) k).first_child c)
              eq
              (subst
                (λ (k : ℕ).
                  Chain (grown nodes b v new) (node_at (grown nodes b v new) p).first_child k)
                same chain)
        | inr old ↦
            let parent' : (node_at nodes c).parent ≡ some q = sym (extends.1 c old).2 ∙ parent in
            let inside' = parents c q old parent' in
            let r = links c q old parent' in
            Chain-Kept nodes (grown nodes b v new) (node_at nodes q).first_child
              (node_at (grown nodes b v new) q).first_child c (Grows-grown.1 q inside').1 r
              (Chain-grown (node_at nodes q).first_child c r)
      ]
