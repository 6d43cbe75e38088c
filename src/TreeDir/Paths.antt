-- ===== src/TreeDir/Paths.antt =====
-- The paths that src/utils/bra_tree_dir.c makes from the names of the nodes up to the root.
use br_archive.Prelude.{
  ℕ, zero, suc, ◌-◌, ◌^◌, ◌≡◌, ◌<◌, ◌≤◌, ◌⊎◌, ap, ◌∙◌, sym, Bool, true, none, some, List, [], ◌∷◌,
  ◌++◌, length, take, done, arith, length-append, take-append,
}
use br_archive.TreeDir.{Node, Tree, reconstruct_path, add_child_node}
use br_archive.TreeDir.Invariant.{node_at, IsTree, Extends}
use br_archive.TreeDir.Siblings.{IsChild}
use br_archive.TreeDir.Adding.{IsTreeDir, add_child_node_lem}
use mathlib.Core.List.{append_assoc}
use br_archive.TreeDir.PathLaws.{IsPath, top, under, IsPath-Extends, IsPath-of, reconstruct_path-eq}

-- A path with a name behind it.
abbrev pub join : ℕ → List ℕ → List ℕ → List ℕ
join zero path name = name
join (suc p) path name = path ++ (b'/' ∷ name)

take-last : (xs : List ℕ) (c : ℕ) → take (length (xs ++ (c ∷ [])) - 1) (xs ++ (c ∷ [])) ≡ xs
take-last xs c =
    let size : length (xs ++ (c ∷ [])) - 1 ≡ length xs = omega (arith, length-append xs (c ∷ [])) in
    ap (λ (k : ℕ). take k (xs ++ (c ∷ []))) size ∙ take-append xs (c ∷ [])

-- The path without its last delimiter.
abbrev cut : List ℕ → List ℕ
cut path = take (length path - 1) path

cut-name : (path name : List ℕ) → cut (path ++ (name ++ (b'/' ∷ []))) ≡ path ++ name
cut-name path name =
    ap cut (sym (append_assoc path name (b'/' ∷ []))) ∙ take-last (path ++ name) b'/'

cut-join :
    (nodes : List Node) {p : ℕ} {path : List ℕ} (name : List ℕ)
    → IsPath nodes p path
    → cut (path ++ (name ++ (b'/' ∷ []))) ≡ join p (cut path) name
cut-join nodes name top = cut-name [] name
cut-join nodes name (under zero p own path lt inside parent named r) = absurd (omega arith)
cut-join nodes name (under (suc a) p own path lt inside parent named r) =
    cut-name (path ++ (own ++ (b'/' ∷ []))) name
    ∙ append_assoc path (own ++ (b'/' ∷ [])) name
    ∙ ap (λ (l : List ℕ). path ++ l) (append_assoc own (b'/' ∷ []) name)
    ∙ sym (append_assoc path own (b'/' ∷ name))
    ∙ ap (λ (l : List ℕ). l ++ (b'/' ∷ name)) (sym (cut-name path own))

pub parent_before :
    (nodes : List Node)
    → IsTree nodes
    → (c p : ℕ) → c < length nodes
    → (node_at nodes c).parent ≡ some p
    → p < c
parent_before nodes tree zero p inside parent =
    let none_there : (node_at nodes 0).parent ≡ none = (tree.1 0 inside).1 in
    cc (none_there, parent)
parent_before nodes tree (suc c) p inside parent =
    let (_, (p', parent', lt)) = (tree.1 (suc c) inside).1 in
    let same : p' ≡ p = cc (parent, parent') in omega arith

-- A tree is in order where each link leads to a node with the right parent, every node with a parent
-- is met from the parent's first child along `next`, and no two children of a node have one name.
-- With a malloc that does not fail, in a tree in order with room for one node more, adding a child
-- with a name that is not empty to a node gives a tree in order and a child of the node with this
-- name, and either the tree is as before, or the child is its one new node. The path of the child
-- is the one of the node with the name behind it, and every node keeps its index, its name, its
-- parent and its path.
pub reconstruct_path-add_child_node :
    (malloc : ℕ → Bool) (t : Tree) (p : ℕ) (dirname : List ℕ)
    → ((n : ℕ) → malloc n ≡ true)
    → IsTreeDir t
    → p < length t.nodes
    → 0 < length dirname
    → suc (length t.nodes) < 2 ^ 32
    → (t' : Tree) × (c : ℕ) × (path : List ℕ) × (add_child_node malloc t p dirname
        ≡ done (t', some c))
      × IsTreeDir t'
      × ((t' ≡ t) ⊎ ((c ≡ length t.nodes) × (length t'.nodes ≡ suc (length t.nodes))))
      × IsChild t'.nodes p dirname c
      × ((p < c)
          × (c < length t'.nodes)
          × Extends t.nodes t'.nodes
          × (length t'.nodes ≤ suc (length t.nodes)))
      × (reconstruct_path malloc t.nodes p ≡ done path)
      × (reconstruct_path malloc t'.nodes c ≡ done (join p path dirname))
      × ((a : ℕ)
          → a < length t.nodes
          → reconstruct_path malloc t'.nodes a ≡ reconstruct_path malloc t.nodes a)
reconstruct_path-add_child_node malloc t p dirname always tree h named small =
    let (t', c, run, tree', extends, grows, child, added) =
      add_child_node_lem malloc always t p dirname tree h named small in
    let (path, r) = IsPath-of t.nodes tree.0 (suc p) p (omega arith) h in
    let below =
      below_parent t' c path child.0 child.1 child.2 (IsPath-Extends t.nodes t'.nodes extends r)
        tree'.0 in
    (
      t',
      c,
      cut path,
      run,
      tree',
      added,
      child,
      (parent_before t'.nodes tree'.0 c p child.0 child.1, child.0, extends, grows),
      reconstruct_path-eq malloc always t.nodes tree.0 p path h r,
      reconstruct_path-eq malloc always t'.nodes tree'.0 c (path ++ (dirname ++ (b'/' ∷ [])))
            child.0 below
          ∙ ap done (cut-join t.nodes dirname r),
      λ a lt. kept t' extends tree' a lt (IsPath-of t.nodes tree.0 (suc a) a (omega arith) lt),
    )
  where
    below_parent :
        (t' : Tree) (c : ℕ) (path : List ℕ)
        → c < length t'.nodes
        → (node_at t'.nodes c).parent ≡ some p
        → (node_at t'.nodes c).dirname ≡ some dirname
        → IsPath t'.nodes p path
        → IsTree t'.nodes
        → IsPath t'.nodes c (path ++ (dirname ++ (b'/' ∷ [])))
    below_parent t' c path inside parent name r tree' =
        under c p dirname path (parent_before t'.nodes tree' c p inside parent) inside parent name r

    kept :
        (t' : Tree)
        → Extends t.nodes t'.nodes
        → IsTreeDir t'
        → (a : ℕ) → a < length t.nodes
        → (path : List ℕ) × IsPath t.nodes a path
        → reconstruct_path malloc t'.nodes a ≡ reconstruct_path malloc t.nodes a
    kept t' extends tree' a lt (path, r) =
        reconstruct_path-eq malloc always t'.nodes tree'.0 a path (omega (arith, extends.0))
          (IsPath-Extends t.nodes t'.nodes extends r)
        ∙ sym (reconstruct_path-eq malloc always t.nodes tree.0 a path lt r)
