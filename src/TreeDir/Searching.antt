-- ===== src/TreeDir/Searching.antt =====
-- The search by an index in src/utils/bra_tree_dir.c.
use br_archive.Prelude.{
  ℕ, zero, suc, ◌+◌, ◌≡◌, ◌<◌, ◌≤◌, ◌⊎◌, inl, inr, refl, ◌∙◌, sym, subst, Bool-cases, Option, none,
  some, List, length, ◌==◌, if◌then◌else◌, Outcome, done, failed, fault, stuck, read, true,
  le_or_lt, arith,
}
use br_archive.TreeDir.{Node, Tree, root, search, or_else, parent_index_search}
use br_archive.TreeDir.Invariant.{node_at, IsTree, IsLink}
use br_archive.TreeDir.Chains.{Chain, here, along, IsLinked}
use br_archive.TreeDir.Siblings.{read_node}
use br_archive.TreeDir.Adding.{IsTreeDir}

-- The node is met on the way along both links.
data Reach (nodes : List Node) : Option ℕ → ℕ → Type 0 where
  reached : (c : ℕ) → Reach nodes (some c) c
  below :
      (b c : ℕ)
      → b < length nodes
      → Reach nodes (node_at nodes b).first_child c
      → Reach nodes (some b) c
  beside :
      (b c : ℕ) → b < length nodes → Reach nodes (node_at nodes b).next c → Reach nodes (some b) c

Chain-Reach :
    (nodes : List Node) (link : Option ℕ) (c : ℕ) → Chain nodes link c → Reach nodes link c
Chain-Reach nodes _ c (here _) = reached c
Chain-Reach nodes _ c (along b _ lt r) =
    beside b c lt (Chain-Reach nodes (node_at nodes b).next c r)

Reach_child :
    (nodes : List Node) (link : Option ℕ) (p c : ℕ)
    → Reach nodes link p
    → p < length nodes
    → Reach nodes (node_at nodes p).first_child c
    → Reach nodes link c
Reach_child nodes _ p c (reached _) lt r = below p c lt r
Reach_child nodes _ p c (below b _ lt' s) lt r =
    below b c lt' (Reach_child nodes (node_at nodes b).first_child p c s lt r)
Reach_child nodes _ p c (beside b _ lt' s) lt r =
    beside b c lt' (Reach_child nodes (node_at nodes b).next p c s lt r)

-- Every node is met from the root.
root-Reach :
    (nodes : List Node)
    → IsTree nodes
    → IsLinked nodes
    → (bound a : ℕ) → a < bound
    → a < length nodes
    → Reach nodes (some root) a
root-Reach nodes tree links zero a h lt = absurd (omega arith)
root-Reach nodes tree links (suc bound) zero h lt = reached 0
root-Reach nodes tree links (suc bound) (suc a) h lt =
    let (_, (p, parent, before)) = (tree.1 (suc a) lt).1 in
    Reach_child nodes (some root) p (suc a)
      (root-Reach nodes tree links bound p (omega arith) (omega arith)) (omega arith)
      (Chain-Reach nodes (node_at nodes p).first_child (suc a) (links (suc a) p lt parent))

or_else-none :
    (r s : Outcome (Option ℕ)) → or_else r s ≡ done none → (r ≡ done none) × (s ≡ done none)
or_else-none (done none) s h = (refl, h)
or_else-none (done (some a)) s h = absurd cc
or_else-none failed s h = absurd cc
or_else-none fault s h = absurd cc
or_else-none stuck s h = absurd cc

module _ (nodes : List Node) (tree : IsTree nodes) (parent_index : ℕ) where
  -- Nothing, or the node with the index.
  abbrev Finds : Outcome (Option ℕ) → Type 0
  Finds r = (r ≡ done none) ⊎ ((r ≡ done (some parent_index)) × (parent_index < length nodes))

  or_else-Finds : (r s : Outcome (Option ℕ)) → Finds r → Finds s → Finds (or_else r s)
  or_else-Finds r s (inl e) h = subst (λ (t : Outcome (Option ℕ)). Finds (or_else t s)) (sym e) h
  or_else-Finds r s (inr (e, inside)) h =
      subst (λ (t : Outcome (Option ℕ)). Finds (or_else t s)) (sym e) (inr (refl, inside))

  search-step :
      (fuel a : ℕ) (n : Node)
      → read nodes a ≡ done n
      → search nodes parent_index (suc fuel) (some a) ≡ (
          if n.index == parent_index
          then done (some a)
          else (or_else
              (search nodes parent_index fuel n.first_child)
              (search nodes parent_index fuel n.next)))
  unfolding search
  search-step fuel a n found = cc found

  -- A search without a result has gone both ways.
  search-passes :
      (fuel b : ℕ)
      → b < length nodes
      → search nodes parent_index (suc fuel) (some b) ≡ done none
      → (search nodes parent_index fuel (node_at nodes b).first_child ≡ done none)
        × (search nodes parent_index fuel (node_at nodes b).next ≡ done none)
  search-passes fuel b lt h =
      let step = search-step fuel b (node_at nodes b) (read_node nodes tree b lt) in
      elim (Bool-cases ((node_at nodes b).index == parent_index)) [
        | inl e ↦ absurd (let clash = sym (rw e at step) ∙ h in cc)
        | inr e ↦ or_else-none _ _ (sym (rw e at step) ∙ h)
      ]

  -- A search without a result has met no node with the index.
  search-misses :
      (fuel : ℕ) (link : Option ℕ) (c : ℕ)
      → c < length nodes
      → c ≡ parent_index
      → Reach nodes link c
      → ¬ (search nodes parent_index fuel link ≡ done none)
  unfolding search
  search-misses zero _ c inside same (reached _) h = cc
  search-misses zero _ c inside same (below b _ lt r) h = cc
  search-misses zero _ c inside same (beside b _ lt r) h = cc
  search-misses (suc fuel) _ c inside same (reached _) h =
      let index : (node_at nodes c).index ≡ c = (tree.1 c inside).0 in
      let test : ((node_at nodes c).index == parent_index) ≡ true = ground (arith, index, same) in
      let step = search-step fuel c (node_at nodes c) (read_node nodes tree c inside) in
      absurd (let clash = sym (rw test at step) ∙ h in cc)
  search-misses (suc fuel) _ c inside same (below b _ lt r) h =
      let (first, after) = search-passes fuel b lt h in
      search-misses fuel (node_at nodes b).first_child c inside same r first
  search-misses (suc fuel) _ c inside same (beside b _ lt r) h =
      let (first, after) = search-passes fuel b lt h in
      search-misses fuel (node_at nodes b).next c inside same r after

  search-Finds :
      (fuel a : ℕ) (parent link : Option ℕ)
      → length nodes ≤ suc a + fuel
      → IsLink nodes a parent link
      → Finds (search nodes parent_index fuel link)
  unfolding search
  search-Finds fuel a parent none room h = inl refl
  search-Finds zero a parent (some b) room h = absurd (omega (arith, h.0, h.1))
  search-Finds (suc fuel) a parent (some b) room (later, inside, above) =
      let n = node_at nodes b in
      let step = search-step fuel b n (read_node nodes tree b inside) in
      let (index, _, child, sibling) = tree.1 b inside in
      elim (Bool-cases (n.index == parent_index)) [
        | inl e ↦
            let same : b ≡ parent_index = ground (arith, index, e) in
            inr (step ∙ rw e (λ i. done (some (same i))), omega arith)
        | inr e ↦
            let both =
              or_else-Finds _ _ (search-Finds fuel b (some b) n.first_child (omega arith) child)
                (search-Finds fuel b n.parent n.next (omega arith) sibling) in
            subst Finds (sym (step ∙ rw e refl)) both
      ]

  search-root :
      (fuel : ℕ) → length nodes ≤ fuel → Finds (search nodes parent_index fuel (some root))
  search-root zero room = absurd (omega (arith, tree.0))
  search-root (suc fuel) room =
      let n = node_at nodes 0 in
      let step = search-step fuel 0 n (read_node nodes tree 0 tree.0) in
      let (index, _, child, sibling) = tree.1 0 tree.0 in
      elim (Bool-cases (n.index == parent_index)) [
        | inl e ↦
            let same : 0 ≡ parent_index = ground (arith, index, e) in
            inr (
              step ∙ rw e (λ i. done (some (same i))),
              subst (λ (k : ℕ). k < length nodes) same tree.0,
            )
        | inr e ↦
            let both =
              or_else-Finds _ _ (search-Finds fuel 0 (some 0) n.first_child (omega arith) child)
                (search-Finds fuel 0 n.parent n.next (omega arith) sibling) in
            subst Finds (sym (step ∙ rw e refl)) both
      ]

-- A tree is in order where each link leads to a node with the right parent, every node with a parent
-- is met from the parent's first child along `next`, and no two children of a node have one name.
-- In a tree in order, the search for an index ends without an access through a bad link. It returns
-- the node with this index if the index is below the number of nodes, and otherwise NULL.
pub parent_index_search-Finds :
    (t : Tree) (parent_index : ℕ)
    → IsTreeDir t
    → ((parent_index < length t.nodes)
        × (parent_index_search t parent_index ≡ done (some parent_index))
        × ((node_at t.nodes parent_index).index ≡ parent_index))
      ⊎ ((length t.nodes ≤ parent_index) × (parent_index_search t parent_index ≡ done none))
parent_index_search-Finds t parent_index (tree, count, links, names) =
    elim (Bool-cases (parent_index == 0)) [
      | inl e ↦
          let same : 0 ≡ parent_index = ground (arith, e) in
          inl (
            subst (λ (k : ℕ). k < length t.nodes) same tree.0,
            rw e (λ i. done (some (same i))),
            subst (λ (k : ℕ). (node_at t.nodes k).index ≡ k) same (tree.1 0 tree.0).0,
          )
      | inr e ↦ elim (search-root t.nodes tree parent_index (length t.nodes) (omega arith)) [
        | inl none_found ↦ elim (le_or_lt (length t.nodes) parent_index) [
          | inl outside ↦ inr (outside, rw e none_found)
          | inr inside ↦ absurd (
              search-misses t.nodes tree parent_index (length t.nodes) (some root) parent_index
                inside refl
                (root-Reach t.nodes tree links (suc parent_index) parent_index (omega arith) inside)
                none_found)
        ]
        | inr (found, inside) ↦ inl (inside, rw e found, (tree.1 parent_index inside).0)
      ]
    ]
