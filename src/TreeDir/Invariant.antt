-- ===== src/TreeDir/Invariant.antt =====
-- The links between the nodes that src/utils/bra_tree_dir.c keeps.
use br_archive.Prelude.{
  ℕ, zero, suc, ◌≡◌, ◌<◌, ◌≤◌, inl, inr, refl, ◌∙◌, sym, subst, true, false, Bool-cases, Option,
  none, some, List, [], ◌∷◌, ◌++◌, length, get_or, set, ◌==◌, if◌then◌else◌, length-set, get_or-set,
  length-append, le_or_lt, arith,
}
use br_archive.TreeDir.{Node, empty_node}

abbrev pub node_at : List Node → ℕ → Node
node_at nodes a = get_or nodes a empty_node

-- The root has no parent, and every other node has a name and a parent before it.
abbrev pub IsNamed : ℕ → Node → Type 0
IsNamed zero n = n.parent ≡ none
IsNamed (suc a) n =
    ((name : List ℕ) × (n.dirname ≡ some name)) × ((p : ℕ) × (n.parent ≡ some p) × (p < suc a))

-- A link from `a` to a later node with this parent.
abbrev pub IsLink : List Node → ℕ → Option ℕ → Option ℕ → Type 0
IsLink nodes a parent none = Unit
IsLink nodes a parent (some c) = (a < c) × (c < length nodes) × ((node_at nodes c).parent ≡ parent)

abbrev pub IsNode : List Node → ℕ → Node → Type 0
IsNode nodes a n =
    (n.index ≡ a)
    × IsNamed a n
    × IsLink nodes a (some a) n.first_child
    × IsLink nodes a n.parent n.next

-- The nodes of a tree: each has its address as its index, links lead to later nodes, a first child
-- to a node with this parent, and a next sibling to one with the same parent.
abbrev pub IsTree : List Node → Type 0
IsTree nodes = (0 < length nodes) × ((a : ℕ) → a < length nodes → IsNode nodes a (node_at nodes a))

-- What adding a node leaves as it is.
abbrev pub Same : Node → Node → Type 0
Same n n' = (n'.index ≡ n.index) × (n'.dirname ≡ n.dirname) × (n'.parent ≡ n.parent)

abbrev pub Extends : List Node → List Node → Type 0
Extends nodes nodes' =
    (length nodes ≤ length nodes')
    × ((a : ℕ) → a < length nodes → Same (node_at nodes a) (node_at nodes' a))

IsLink-Extends :
    (nodes nodes' : List Node) (a : ℕ) (parent link : Option ℕ)
    → Extends nodes nodes'
    → IsLink nodes a parent link
    → IsLink nodes' a parent link
IsLink-Extends nodes nodes' a parent none e h = tt
IsLink-Extends nodes nodes' a parent (some c) e h =
    (h.0, omega (arith, h, e.0), (e.1 c h.1).2 ∙ h.2)

pub IsNode-Extends :
    (nodes nodes' : List Node) (a : ℕ) (n : Node)
    → Extends nodes nodes'
    → IsNode nodes a n
    → IsNode nodes' a n
IsNode-Extends nodes nodes' a n e h = (
  h.0,
  h.1,
  IsLink-Extends nodes nodes' a (some a) n.first_child e h.2,
  IsLink-Extends nodes nodes' a n.parent n.next e h.3,
)

get_or-append_left :
    (xs ys : List Node) (i : ℕ) → i < length xs → node_at (xs ++ ys) i ≡ node_at xs i
get_or-append_left [] ys i h = absurd (omega arith)
get_or-append_left (x ∷ xs) ys zero h = refl
get_or-append_left (x ∷ xs) ys (suc i) h = get_or-append_left xs ys i (omega arith)

get_or-append_end : (xs : List Node) (y : Node) → node_at (xs ++ (y ∷ [])) (length xs) ≡ y
get_or-append_end [] y = refl
get_or-append_end (x ∷ xs) y = get_or-append_end xs y

-- The nodes with one changed, and a new one behind them.
abbrev pub grown : List Node → ℕ → Node → Node → List Node
grown nodes b v new = set nodes b v ++ (new ∷ [])

module _ (nodes : List Node) (b : ℕ) (v new : Node) where
  pub length-grown : length (grown nodes b v new) ≡ suc (length nodes)
  length-grown = omega (arith, length-append (set nodes b v) (new ∷ []), length-set nodes b v)

  pub node_at-new : node_at (grown nodes b v new) (length nodes) ≡ new
  node_at-new =
      subst (λ (k : ℕ). node_at (grown nodes b v new) k ≡ new) (length-set nodes b v)
        (get_or-append_end (set nodes b v) new)

  node_at-grown :
      (a : ℕ)
      → a < length nodes
      → b < length nodes
      → node_at (grown nodes b v new) a ≡ (if b == a then v else node_at nodes a)
  node_at-grown a h inside =
      get_or-append_left (set nodes b v) (new ∷ []) a (omega (arith, length-set nodes b v))
      ∙ get_or-set nodes b a v empty_node inside

  pub node_at-kept :
      (a : ℕ)
      → a < length nodes
      → b < length nodes
      → (b == a) ≡ false
      → node_at (grown nodes b v new) a ≡ node_at nodes a
  node_at-kept a h inside e = node_at-grown a h inside ∙ rw e refl

  pub node_at-changed : b < length nodes → node_at (grown nodes b v new) b ≡ v
  node_at-changed inside =
      let e : (b == b) ≡ true = ground arith in node_at-grown b inside inside ∙ rw e refl

  -- What holds of the changed node, of the new one and of all others holds of every node.
  grown-all :
      (P : ℕ → Node → Type 0)
      → b < length nodes
      → P b v
      → P (length nodes) new
      → ((a : ℕ) → a < length nodes → P a (node_at nodes a))
      → (a : ℕ) → a < length (grown nodes b v new)
      → P a (node_at (grown nodes b v new) a)
  grown-all P inside changed added kept a h = elim (le_or_lt (length nodes) a) [
    | inl le ↦
        let same : length nodes ≡ a = omega (arith, length-grown) in
        subst (λ (k : ℕ). P k (node_at (grown nodes b v new) k)) same
          (subst (P (length nodes)) (sym node_at-new) added)
    | inr lt ↦ elim (Bool-cases (b == a)) [
      | inl e ↦
          let same : b ≡ a = ground arith in
          subst (λ (k : ℕ). P k (node_at (grown nodes b v new) k)) same
            (subst (P b) (sym (node_at-changed inside)) changed)
      | inr e ↦ subst (P a) (sym (node_at-kept a lt inside e)) (kept a lt)
    ]
  ]

  pub Extends-grown :
      b < length nodes → Same (node_at nodes b) v → Extends nodes (grown nodes b v new)
  Extends-grown inside same = (
    omega (arith, length-grown),
    λ a h. elim (Bool-cases (b == a)) [
      | inl e ↦
          let eq : b ≡ a = ground arith in
          subst (λ (k : ℕ). Same (node_at nodes k) (node_at (grown nodes b v new) k)) eq
            (subst (Same (node_at nodes b)) (sym (node_at-changed inside)) same)
      | inr e ↦ subst (Same (node_at nodes a)) (sym (node_at-kept a h inside e)) (refl, refl, refl)
    ],
  )

  -- A tree stays one with a new node.
  pub IsTree-grown :
      b < length nodes
      → Same (node_at nodes b) v
      → IsNode (grown nodes b v new) b v
      → IsNode (grown nodes b v new) (length nodes) new
      → IsTree nodes
      → IsTree (grown nodes b v new) × Extends nodes (grown nodes b v new)
  IsTree-grown inside same changed added tree =
      let extends = Extends-grown inside same in
      (
        (
          omega (arith, length-grown),
          grown-all (IsNode (grown nodes b v new)) inside changed added (λ a h.
              IsNode-Extends nodes (grown nodes b v new) a (node_at nodes a) extends (tree.1 a h)),
        ),
        extends,
      )
