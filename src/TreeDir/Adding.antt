-- ===== src/TreeDir/Adding.antt =====
-- Adding a child to a node of the tree in src/utils/bra_tree_dir.c.
use br_archive.Prelude.{
  ℕ, suc, ◌+◌, ◌%◌, ◌^◌, ◌≡◌, ◌<◌, ◌≤◌, inl, inr, ◌⊎◌, le_or_lt, sym, subst, refl, ap, ◌∙◌, Bool,
  true, false, Option, none, some, List, [], ◌∷◌, ◌++◌, length, ◌==◌, Outcome, done, read, arith,
  set,
}
use br_archive.TreeDir.{Node, Tree, find_sibling, link_child, add_new, add_child_node}
use br_archive.TreeDir.Invariant.{node_at, IsTree, Extends, grown, length-grown, node_at-new}
use br_archive.TreeDir.Chains.{IsLinked}
use br_archive.TreeDir.Siblings.{read_node, IsChild, find_sibling_lem, find_sibling-misses}
use br_archive.TreeDir.Linking.{new_node, link_child_lem}

-- No two children of a node have one name.
abbrev pub HasNames : List Node → Type 0
HasNames nodes =
    (a b p : ℕ) (name : List ℕ)
    → a < length nodes
    → b < length nodes
    → IsChild nodes p name a
    → IsChild nodes p name b
    → a ≡ b

-- A tree with the number of its nodes: the nodes' links are in order, every node with a parent is
-- met from the parent's first child along `next`, and no two children of a node have one name.
abbrev pub IsTreeDir : Tree → Type 0
IsTreeDir t = IsTree t.nodes × (t.num_nodes ≡ length t.nodes) × IsLinked t.nodes × HasNames t.nodes

-- A new child with a name that no other child of its parent has.
HasNames-grown :
    (nodes nodes' : List Node) (p : ℕ) (dirname : List ℕ)
    → Extends nodes nodes'
    → length nodes' ≡ suc (length nodes)
    → IsChild nodes' p dirname (length nodes)
    → ((c : ℕ) → c < length nodes → ¬ IsChild nodes p dirname c)
    → HasNames nodes
    → HasNames nodes'
HasNames-grown nodes nodes' p dirname extends size new other names a b q name ha hb ca cb =
    elim (le_or_lt (length nodes) a) [
      | inl a_new ↦ elim (le_or_lt (length nodes) b) [
        | inl b_new ↦ omega arith
        | inr b_old ↦ absurd (clash b a b_old (omega arith) cb ca)
      ]
      | inr a_old ↦ elim (le_or_lt (length nodes) b) [
        | inl b_new ↦ absurd (clash a b a_old (omega arith) ca cb)
        | inr b_old ↦
            names a b q name a_old b_old (older a a_old q name ca) (older b b_old q name cb)
      ]
    ]
  where
    older :
        (c : ℕ)
        → c < length nodes
        → (q : ℕ) (name : List ℕ) → IsChild nodes' q name c
        → IsChild nodes q name c
    older c lt q name (inside, parent, named) =
        (lt, sym (extends.1 c lt).2 ∙ parent, sym (extends.1 c lt).1 ∙ named)

    clash :
        (c d : ℕ)
        → c < length nodes
        → d ≡ length nodes
        → IsChild nodes' q name c
        → IsChild nodes' q name d
        → ⊥
    clash c d lt e child added =
        let (_, parent, named) = older c lt q name child in
        let (_, parent', named') = subst (IsChild nodes' q name) e added in
        let same_parent : some q ≡ some p = sym parent' ∙ new.1 in
        let same_dirname : some name ≡ some dirname = sym named' ∙ new.2 in
        other c lt (lt, parent ∙ same_parent, named ∙ same_dirname)

-- A malloc that does not fail gives a child with the name, an old one or a new one.
abbrev pub Adds : Tree → ℕ → List ℕ → Outcome (Tree × Option ℕ) → Type 0
Adds t p dirname r =
    (t' : Tree) × (c : ℕ) × (r ≡ done (t', some c))
    × IsTreeDir t'
    × Extends t.nodes t'.nodes
    × (length t'.nodes ≤ suc (length t.nodes))
    × IsChild t'.nodes p dirname c
    × ((t' ≡ t) ⊎ ((c ≡ length t.nodes) × (length t'.nodes ≡ suc (length t.nodes))))

module _ (malloc : ℕ → Bool) (always : (n : ℕ) → malloc n ≡ true) (t : Tree) where
  add_new_run :
      (p : ℕ) (dirname : List ℕ) (nodes : List Node)
      → link_child t.nodes p (length t.nodes) ≡ done nodes
      → t.num_nodes ≡ length t.nodes
      → suc (length t.nodes) < 2 ^ 32
      → add_new malloc t p dirname
        ≡ done (
          record {
            nodes = nodes ++ (new_node t.nodes p dirname ∷ []);
            num_nodes = length t.nodes + 1;
          },
          some (length t.nodes),
        )
  unfolding add_new
  add_new_run p dirname nodes run count small =
      let next : (length t.nodes + 1) % 2 ^ 32 ≡ length t.nodes + 1 = omega arith in
      rw (always 40, always (length dirname + 1), run, count, next)

  add_child_node-found :
      (p c : ℕ) (dirname : List ℕ) (n : Node)
      → 0 < length dirname
      → read t.nodes p ≡ done n
      → find_sibling t.nodes dirname (length t.nodes) n.first_child ≡ done (some c)
      → add_child_node malloc t p dirname ≡ done (t, some c)
  unfolding add_child_node
  add_child_node-found p c dirname n named found run =
      let e : (length dirname == 0) ≡ false = ground arith in simp (e, found, run)

  add_child_node-new :
      (p : ℕ) (dirname : List ℕ) (n : Node)
      → 0 < length dirname
      → read t.nodes p ≡ done n
      → find_sibling t.nodes dirname (length t.nodes) n.first_child ≡ done none
      → add_child_node malloc t p dirname ≡ add_new malloc t p dirname
  unfolding add_child_node
  add_child_node-new p dirname n named found run =
      let e : (length dirname == 0) ≡ false = ground arith in simp (e, found, run)

  pub add_child_node_lem :
      (p : ℕ) (dirname : List ℕ)
      → IsTreeDir t
      → p < length t.nodes
      → 0 < length dirname
      → suc (length t.nodes) < 2 ^ 32
      → Adds t p dirname (add_child_node malloc t p dirname)
  add_child_node_lem p dirname (tree, count, links, names) h named small =
      let n = node_at t.nodes p in
      elim (find_sibling_lem t.nodes tree dirname p (length t.nodes) p n.first_child (omega arith)
        (omega arith) (tree.1 p h).2) [
          | inl none_found ↦
              let (b, v, run, built, extends, more_links) =
                link_child_lem t.nodes tree p dirname h in
              let new = new_node t.nodes p dirname in
              let size = length-grown t.nodes b v new in
              let child : IsChild (grown t.nodes b v new) p dirname (length t.nodes) = (
                omega (arith, size),
                ap (λ (m : Node). m.parent) (node_at-new t.nodes b v new),
                ap (λ (m : Node). m.dirname) (node_at-new t.nodes b v new),
              ) in
              let other : (c : ℕ) → c < length t.nodes → ¬ IsChild t.nodes p dirname c =
                λ c lt (_, parent, has_name).
                  find_sibling-misses t.nodes tree dirname (length t.nodes) n.first_child c lt
                    has_name (links c p lt parent) none_found in
              (
                record {
                  nodes = grown t.nodes b v (new_node t.nodes p dirname);
                  num_nodes = length t.nodes + 1;
                },
                length t.nodes,
                add_child_node-new p dirname n named (read_node t.nodes tree p h) none_found
                    ∙ add_new_run p dirname (set t.nodes b v) run count small,
                (
                  built,
                  omega (arith, size),
                  more_links links,
                  HasNames-grown t.nodes (grown t.nodes b v new) p dirname extends size child other
                      names,
                ),
                extends,
                omega (arith, size),
                child,
                inr (refl, size),
              )
          | inr (c, run, child) ↦ (
            t,
            c,
            add_child_node-found p c dirname n named (read_node t.nodes tree p h) run,
            (tree, count, links, names),
            (omega arith, λ a lt. (refl, refl, refl)),
            omega arith,
            child,
            inl refl,
          )
        ]
