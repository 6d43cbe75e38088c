-- ===== src/TreeDir/PathAdding.antt =====
-- Adding a path from the root, bra_tree_dir_add of src/utils/bra_tree_dir.c.
use br_archive.Prelude.{
  ℕ, ◌+◌, ◌^◌, ◌≡◌, ◌<◌, ◌≤◌, ◌⊎◌, inl, inr, refl, ◌∙◌, sym, Bool, true, false, le_or_lt, none,
  some, List, [], ◌∷◌, length, ◌==◌, done, read, arith,
}
use br_archive.TreeDir.{Node, Tree, root, tokens_from, tokens, find_place, add, add_parts}
use br_archive.TreeDir.Invariant.{node_at, IsTree, Extends}
use br_archive.TreeDir.Chains.{}
use br_archive.TreeDir.Siblings.{IsChild, read_node}
use br_archive.TreeDir.Adding.{IsTreeDir}
use br_archive.TreeDir.Paths.{parent_before}
use br_archive.TreeDir.Parts.{Descends, reconstruct_path-add_parts}
use br_archive.TreeDir.Inserting.{AreNames, tokens_from-AreNames}
use br_archive.TreeDir.Placing.{stop_here, find_place_lem}

tokens-positive : (s : List ℕ) → 0 < length (tokens s) → 0 < length s
unfolding tokens_from
tokens-positive [] h = h
tokens-positive (x ∷ s) h = omega arith

-- A node is before the ones that it leads to.
Descends-le :
    (nodes : List Node)
    → IsTree nodes
    → (p : ℕ) (parts : List (List ℕ)) (c : ℕ) → Descends nodes p parts c
    → p ≤ c
Descends-le nodes tree p [] c e = omega (arith, e)
Descends-le nodes tree p (part ∷ parts) c (d, (inside, parent, named), more) =
    omega (arith, parent_before nodes tree d p inside parent, Descends-le nodes tree d parts c more)

-- A child that is there only afterwards leads to new nodes.
Descends-new :
    (nodes nodes' : List Node) (q : ℕ) (next : List ℕ) (rest : List (List ℕ)) (c : ℕ)
    → IsTree nodes'
    → Extends nodes nodes'
    → ((d : ℕ) → ¬ IsChild nodes q next d)
    → Descends nodes' q (next ∷ rest) c
    → length nodes ≤ c
Descends-new nodes nodes' q next rest c tree extends gone (d, (inside, parent, named), more) =
    let after = Descends-le nodes' tree d rest c more in
    elim (le_or_lt (length nodes) d) [
      | inl le ↦ omega arith
      | inr lt ↦
          absurd (gone d (lt, sym (extends.1 d lt).2 ∙ parent, sym (extends.1 d lt).1 ∙ named))
    ]

module _ (malloc : ℕ → Bool) (always : (n : ℕ) → malloc n ≡ true) (t : Tree) where
  add-ended :
      (dirname part : List ℕ) (parts : List (List ℕ)) (n : Node)
      → 0 < length dirname
      → tokens dirname ≡ part ∷ parts
      → read t.nodes root ≡ done n
      → find_place malloc t.nodes (length t.nodes) root n.first_child part parts ≡ done none
      → add malloc t dirname ≡ done (t, none)
  unfolding add
  add-ended dirname part parts n h split found place =
      let e : (length dirname == 0) ≡ false = ground arith in
      cc (always (length dirname + 1), e, split, found, place)

  add-stopped :
      (dirname part : List ℕ) (parts : List (List ℕ)) (n : Node) (q : ℕ) (rest : List (List ℕ))
      → 0 < length dirname
      → tokens dirname ≡ part ∷ parts
      → read t.nodes root ≡ done n
      → find_place malloc t.nodes (length t.nodes) root n.first_child part parts
        ≡ done (some (q, rest))
      → add malloc t dirname ≡ add_parts malloc t q rest
  unfolding add
  add-stopped dirname part parts n q rest h split found place =
      let e : (length dirname == 0) ≡ false = ground arith in
      cc (always (length dirname + 1), e, split, found, place)

  -- A tree is in order where each link leads to a node with the right parent, every node with a
  -- parent is met from the parent's first child along `next`, and no two children of a node have
  -- one name. With a malloc that does not fail, a path with at least one part and a tree in order
  -- that has room for a node for each part: if steps to a child with the next part as its name lead
  -- from the root to a node for the whole path, NULL is returned and the tree is as before.
  -- Otherwise the tree that results is in order, these steps lead in it to the node that is
  -- returned, which is a new one, and every node keeps its index, its name and its parent.
  pub add-Descends :
      (dirname : List ℕ)
      → IsTreeDir t
      → 0 < length (tokens dirname)
      → length t.nodes + length (tokens dirname) < 2 ^ 32
      → ((add malloc t dirname ≡ done (t, none))
          × (c : ℕ) × Descends t.nodes root (tokens dirname) c)
        ⊎ ((t' : Tree) × (c : ℕ) × (add malloc t dirname ≡ done (t', some c))
            × IsTreeDir t'
            × Extends t.nodes t'.nodes
            × Descends t'.nodes root (tokens dirname) c
            × (length t.nodes ≤ c))
  add-Descends dirname (tree, count, links, names) some_part room =
      added (tokens dirname) refl some_part room (tokens_from-AreNames [] dirname)
    where
      added :
          (parts : List (List ℕ))
          → tokens dirname ≡ parts
          → 0 < length parts
          → length t.nodes + length parts < 2 ^ 32
          → AreNames parts
          → ((add malloc t dirname ≡ done (t, none)) × (c : ℕ) × Descends t.nodes root parts c)
            ⊎ ((t' : Tree) × (c : ℕ) × (add malloc t dirname ≡ done (t', some c))
                × IsTreeDir t'
                × Extends t.nodes t'.nodes
                × Descends t'.nodes root parts c
                × (length t.nodes ≤ c))
      added [] split h small are_names = absurd (omega arith)
      added (part ∷ parts) split h small are_names =
          let n = node_at t.nodes root in
          let found = read_node t.nodes tree root tree.0 in
          let positive = tokens-positive dirname some_part in
          let place =
            find_place_lem t.nodes tree links malloc (length t.nodes) root root n.first_child part
              parts (omega arith) (omega arith) (tree.1 root tree.0).2 in
          elim (stop_here t.nodes tree links root part parts _ tree.0 place) [
            | inl (run, c, d) ↦ inl (add-ended dirname part parts n positive split found run, c, d)
            | inr (q, next, rest, run, inside, named, size, leads, gone) ↦
                let (t', c, _, more, tree', extends, _, descends, _, _, _) =
                  reconstruct_path-add_parts malloc always t q (next ∷ rest)
                    (tree, count, links, names) inside (named are_names) (omega arith) in
                inr (
                  t',
                  c,
                  add-stopped dirname part parts n q (next ∷ rest) positive split found run ∙ more,
                  tree',
                  extends,
                  leads t'.nodes c extends descends,
                  Descends-new t.nodes t'.nodes q next rest c tree'.0 extends gone descends,
                )
          ]
