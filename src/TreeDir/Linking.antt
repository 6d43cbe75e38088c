-- ===== src/TreeDir/Linking.antt =====
-- The links that src/utils/bra_tree_dir.c sets for a new node.
use br_archive.Prelude.{
  ℕ, zero, suc, ◌≡◌, ◌<◌, inl, inr, refl, ap, ◌∙◌, sym, subst, Bool-cases, Option-cases, Option,
  none, some, List, length, ◌==◌, done, read, write, write-eq-done, arith, set,
}
use br_archive.TreeDir.{Node, last_sibling, link_child}
use br_archive.TreeDir.Chains.{
  Chain, here, IsLinked, KeepsLinks, Chain-behind, Chain-grown, IsLinked-grown,
}
use br_archive.TreeDir.Invariant.{
  node_at-changed, node_at-kept, node_at, IsTree, IsNode, IsLink, IsNamed, Extends, Same, grown,
  IsTree-grown, Extends-grown, IsNode-Extends, length-grown, node_at-new,
}
use br_archive.TreeDir.Siblings.{read_node, last_sibling_lem}

pub IsNamed-Same : (a : ℕ) (n n' : Node) → Same n n' → IsNamed a n → IsNamed a n'
IsNamed-Same zero n n' s h = s.2 ∙ h
IsNamed-Same (suc a) n n' s ((name, named), (p, parent, lt)) =
    ((name, s.1 ∙ named), (p, s.2 ∙ parent, lt))

-- The node that is added.
abbrev pub new_node : List Node → ℕ → List ℕ → Node
new_node nodes p dirname = record {
  index = length nodes;
  dirname = some dirname;
  parent = some p;
  first_child = none;
  next = none;
}

module _ (nodes : List Node) (tree : IsTree nodes) where
  pub new-IsNode :
      (p b : ℕ) (dirname : List ℕ) (v : Node)
      → p < length nodes
      → 0 < length nodes
      → IsNode
          (grown nodes b v (new_node nodes p dirname))
          (length nodes)
          (new_node nodes p dirname)
  new-IsNode p b dirname v h positive = (refl, named (length nodes) h, tt, tt)
    where
      named : (a : ℕ) → p < a → IsNamed a (new_node nodes p dirname)
      named zero h = absurd (omega arith)
      named (suc a) h = ((dirname, refl), (p, refl, h))

  pub new-IsLink :
      (p b a : ℕ) (dirname : List ℕ) (v : Node)
      → a < length nodes
      → IsLink (grown nodes b v (new_node nodes p dirname)) a (some p) (some (length nodes))
  new-IsLink p b a dirname v h = (
    h,
    omega (arith, length-grown nodes b v (new_node nodes p dirname)),
    ap (λ (n : Node). n.parent) (node_at-new nodes b v (new_node nodes p dirname)),
  )

  -- The nodes with the links to the new one, which then comes behind them.
  abbrev pub Links : ℕ → List ℕ → Type 0
  Links p dirname =
      (b : ℕ) × (v : Node) × (link_child nodes p (length nodes) ≡ done (set nodes b v))
      × IsTree (grown nodes b v (new_node nodes p dirname))
      × Extends nodes (grown nodes b v (new_node nodes p dirname))
      × (IsLinked nodes → IsLinked (grown nodes b v (new_node nodes p dirname)))

  parent_inside :
      (a q : ℕ) → a < length nodes → (node_at nodes a).parent ≡ some q → q < length nodes
  parent_inside zero q h e = absurd (let top = (tree.1 0 h).1 in cc)
  parent_inside (suc a) q h e =
      let (_, (p, parent, lt)) = (tree.1 (suc a) h).1 in let same : p ≡ q = cc in omega arith

  -- The result, where the node at `b` is changed to `v` and the changed node is in order.
  pub linked :
      (p b : ℕ) (dirname : List ℕ) (v : Node)
      → p < length nodes
      → b < length nodes
      → Same (node_at nodes b) v
      → KeepsLinks (node_at nodes b) v
      → Chain
          (grown nodes b v (new_node nodes p dirname))
          (node_at (grown nodes b v (new_node nodes p dirname)) p).first_child
          (length nodes)
      → link_child nodes p (length nodes) ≡ done (set nodes b v)
      → (IsNode (grown nodes b v (new_node nodes p dirname)) b (node_at nodes b)
          → IsNode (grown nodes b v (new_node nodes p dirname)) b v)
      → Links p dirname
  linked p b dirname v h inside same keeps chain run changed =
      let new = new_node nodes p dirname in
      let old =
        IsNode-Extends nodes (grown nodes b v new) b (node_at nodes b)
          (Extends-grown nodes b v new inside same) (tree.1 b inside) in
      let (built, extends) =
        IsTree-grown nodes b v new inside same (changed old) (new-IsNode p b dirname v h tree.0)
          tree in
      (
        b,
        v,
        run,
        built,
        extends,
        IsLinked-grown nodes b v new inside keeps p h parent_inside extends refl chain,
      )

  pub link_child-first :
      (p : ℕ) (n : Node)
      → read nodes p ≡ done n
      → n.first_child ≡ none
      → link_child nodes p (length nodes)
        ≡ write nodes p (record n { first_child = some (length nodes) })
  unfolding link_child
  link_child-first p n found no_child = simp (found, no_child)

  pub link_child-behind :
      (p first s : ℕ) (n last : Node)
      → read nodes p ≡ done n
      → n.first_child ≡ some first
      → last_sibling nodes (length nodes) first ≡ done s
      → read nodes s ≡ done last
      → link_child nodes p (length nodes)
        ≡ write nodes s (record last { next = some (length nodes) })
  unfolding link_child
  link_child-behind p first s n last found child run there = simp (found, child, run, there)

  -- Behind the last sibling, the new node is on the chain of its parent.
  behind :
      (p first s : ℕ) (dirname : List ℕ)
      → p < length nodes
      → s < length nodes
      → (node_at nodes p).first_child ≡ some first
      → (node_at nodes s).next ≡ none
      → Chain nodes (some first) s
      → Chain
          (grown nodes s
            (record (node_at nodes s) { next = some (length nodes) })
            (new_node nodes p dirname))
          (node_at
            (grown nodes s
              (record (node_at nodes s) { next = some (length nodes) })
              (new_node nodes p dirname))
            p).first_child
          (length nodes)
  behind p first s dirname h inside has_child last chain =
      let v : Node = record (node_at nodes s) { next = some (length nodes) } in
      let new = new_node nodes p dirname in
      let after = grown nodes s v new in
      let on_way = Chain-grown nodes s v new inside (inr last, inl refl) (some first) s chain in
      let linked_behind =
        Chain-behind after (some first) s (length nodes) on_way
          (omega (arith, length-grown nodes s v new))
          (ap (λ (n : Node). n.next) (node_at-changed nodes s v new inside)) in
      subst (λ (o : Option ℕ). Chain after o (length nodes))
        (sym (first_kept p s first h inside has_child)) linked_behind
    where
      first_kept :
          (p s first : ℕ)
          → p < length nodes
          → s < length nodes
          → (node_at nodes p).first_child ≡ some first
          → (node_at
              (grown nodes s
                (record (node_at nodes s) { next = some (length nodes) })
                (new_node nodes p dirname))
              p).first_child
            ≡ some first
      first_kept p s first h inside has_child =
          let v : Node = record (node_at nodes s) { next = some (length nodes) } in
          let new = new_node nodes p dirname in
          elim (Bool-cases (s == p)) [
            | inl e ↦
                let eq : s ≡ p = ground arith in
                subst (λ (k : ℕ). (node_at (grown nodes s v new) k).first_child ≡ some first) eq
                  (ap (λ (n : Node). n.first_child) (node_at-changed nodes s v new inside)
                    ∙ ap (λ (k : ℕ). (node_at nodes k).first_child) eq
                    ∙ has_child)
            | inr e ↦
                ap (λ (n : Node). n.first_child) (node_at-kept nodes s v new p h inside e)
                ∙ has_child
          ]

  pub link_child_lem : (p : ℕ) (dirname : List ℕ) → p < length nodes → Links p dirname
  link_child_lem p dirname h = elim (Option-cases (node_at nodes p).first_child) [
    | inl no_child ↦
        let v : Node = record (node_at nodes p) { first_child = some (length nodes) } in
        linked p p dirname v h h (refl, refl, refl) (inl refl, inr no_child)
          (subst
            (λ (n : Node).
              Chain (grown nodes p v (new_node nodes p dirname)) n.first_child (length nodes))
            (sym (node_at-changed nodes p v (new_node nodes p dirname) h)) (here (length nodes)))
          (link_child-first p (node_at nodes p) (read_node nodes tree p h) no_child
            ∙ write-eq-done nodes p v h)
          (λ n. (
            n.0,
            IsNamed-Same p (node_at nodes p) v (refl, refl, refl) n.1,
            new-IsLink p p p dirname v h,
            n.3,
          ))
    | inr (first, has_child) ↦
        let link : IsLink nodes p (some p) (some first) =
          subst (IsLink nodes p (some p)) has_child (tree.1 p h).2 in
        let (s, run, inside, parent, last, chain) =
          last_sibling_lem nodes tree p (length nodes) first link.1 (omega arith) link.2 in
        let v : Node = record (node_at nodes s) { next = some (length nodes) } in
        linked p s dirname v h inside (refl, refl, refl) (inr last, inl refl)
          (behind p first s dirname h inside has_child last chain)
          (link_child-behind p first s (node_at nodes p) (node_at nodes s)
              (read_node nodes tree p h) has_child run (read_node nodes tree s inside)
            ∙ write-eq-done nodes s v inside)
          (λ n. (
            n.0,
            IsNamed-Same s (node_at nodes s) v (refl, refl, refl) n.1,
            n.2,
            subst
                (λ (o : Option ℕ).
                  IsLink (grown nodes s v (new_node nodes p dirname)) s o (some (length nodes)))
                (sym parent) (new-IsLink p s s dirname v inside),
          ))
  ]
