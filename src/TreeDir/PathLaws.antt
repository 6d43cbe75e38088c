-- ===== src/TreeDir/PathLaws.antt =====
-- The path that src/utils/bra_tree_dir.c makes for each node, from the names up to the root.
use br_archive.Prelude.{
  ℕ, zero, suc, ◌+◌, ◌-◌, ◌≡◌, ◌<◌, ap, ◌∙◌, sym, Bool, true, false, some, List, [], ◌∷◌, ◌++◌,
  length, take, ◌==◌, done, ◌>>=◌, read, arith, length-append,
}
use br_archive.TreeDir.{Node, path_length, path_bytes, reconstruct_path}
use br_archive.TreeDir.Invariant.{node_at, IsTree, Extends}
use br_archive.TreeDir.Siblings.{read_node}
use mathlib.Core.List.{append_assoc, append-nil}

-- The names down to a node, with a delimiter behind each.
pub data IsPath (nodes : List Node) : ℕ → List ℕ → Type 0 where
  top : IsPath nodes 0 []
  under :
      (a p : ℕ) (name path : List ℕ)
      → p < a
      → a < length nodes
      → (node_at nodes a).parent ≡ some p
      → (node_at nodes a).dirname ≡ some name
      → IsPath nodes p path
      → IsPath nodes a (path ++ (name ++ (b'/' ∷ [])))

pub IsPath-Extends :
    (nodes nodes' : List Node) {a : ℕ} {path : List ℕ}
    → Extends nodes nodes'
    → IsPath nodes a path
    → IsPath nodes' a path
IsPath-Extends nodes nodes' e top = top
IsPath-Extends nodes nodes' e (under a p name path lt inside parent named r) =
    under a p name path lt (omega (arith, e.0)) ((e.1 a inside).2 ∙ parent)
      ((e.1 a inside).1 ∙ named) (IsPath-Extends nodes nodes' e r)

module _ (nodes : List Node) (tree : IsTree nodes) where
  pub IsPath-of :
      (bound a : ℕ) → a < bound → a < length nodes → (path : List ℕ) × IsPath nodes a path
  IsPath-of zero a h inside = absurd (omega arith)
  IsPath-of (suc bound) zero h inside = ([], top)
  IsPath-of (suc bound) (suc a) h inside =
      let ((name, named), (p, parent, lt)) = (tree.1 (suc a) inside).1 in
      let (path, r) = IsPath-of bound p (omega arith) (omega arith) in
      (path ++ (name ++ (b'/' ∷ [])), under (suc a) p name path lt inside parent named r)

  pub path_length-up :
      (fuel a p : ℕ) (n : Node) (name : List ℕ)
      → read nodes a ≡ done n
      → (n.index == 0) ≡ false
      → n.dirname ≡ some name
      → n.parent ≡ some p
      → path_length nodes (suc fuel) a
        ≡ (path_length nodes fuel p >>= λ len. done (length name + 1 + len))
  unfolding path_length
  path_length-up fuel a p n name found below named parent = cc (found, below, named, parent)

  pub path_bytes-up :
      (fuel a p : ℕ) (n : Node) (name path : List ℕ)
      → read nodes a ≡ done n
      → (n.index == 0) ≡ false
      → n.dirname ≡ some name
      → n.parent ≡ some p
      → path_bytes nodes (suc fuel) a path ≡ path_bytes nodes fuel p (name ++ (b'/' ∷ path))
  unfolding path_bytes
  path_bytes-up fuel a p n name path found below named parent = cc (found, below, named, parent)

  pub path_length-top :
      (fuel a : ℕ) (n : Node)
      → read nodes a ≡ done n
      → (n.index == 0) ≡ true
      → path_length nodes (suc fuel) a ≡ done 0
  unfolding path_length
  path_length-top fuel a n found above = simp (found, above)

  pub path_bytes-top :
      (fuel a : ℕ) (n : Node) (path : List ℕ)
      → read nodes a ≡ done n
      → (n.index == 0) ≡ true
      → path_bytes nodes (suc fuel) a path ≡ done path
  unfolding path_bytes
  path_bytes-top fuel a n path found above = simp (found, above)

  pub at_top : ((node_at nodes 0).index == 0) ≡ true
  at_top = ground (arith, (tree.1 0 tree.0).0)

  pub below_top : (a p : ℕ) → p < a → a < length nodes → ((node_at nodes a).index == 0) ≡ false
  below_top a p lt inside = ground (arith, (tree.1 a inside).0)

  pub path_length_lem :
      (fuel a : ℕ) (path : List ℕ)
      → IsPath nodes a path
      → a < fuel
      → path_length nodes fuel a ≡ done (length path)
  path_length_lem zero a path r h = absurd (omega arith)
  path_length_lem (suc fuel) _ _ top h =
      path_length-top fuel 0 (node_at nodes 0) (read_node nodes tree 0 tree.0) at_top
  path_length_lem (suc fuel) _ _ (under a p name path lt inside parent named r) h =
      path_length-up fuel a p (node_at nodes a) name (read_node nodes tree a inside)
        (below_top a p lt inside) named parent
      ∙ rw (path_length_lem fuel p path r (omega arith)) (
          ap done (
            omega
              (arith, length-append path (name ++ (b'/' ∷ [])), length-append name (b'/' ∷ []))))

  pub path_bytes_lem :
      (fuel a : ℕ) (path rest : List ℕ)
      → IsPath nodes a path
      → a < fuel
      → path_bytes nodes fuel a rest ≡ done (path ++ rest)
  path_bytes_lem zero a path rest r h = absurd (omega arith)
  path_bytes_lem (suc fuel) _ _ rest top h =
      path_bytes-top fuel 0 (node_at nodes 0) rest (read_node nodes tree 0 tree.0) at_top
  path_bytes_lem (suc fuel) _ _ rest (under a p name path lt inside parent named r) h =
      path_bytes-up fuel a p (node_at nodes a) name rest (read_node nodes tree a inside)
        (below_top a p lt inside) named parent
      ∙ path_bytes_lem fuel p path (name ++ (b'/' ∷ rest)) r (omega arith)
      ∙ ap done (
          ap (λ (l : List ℕ). path ++ l) (sym (append_assoc name (b'/' ∷ []) rest))
          ∙ sym (append_assoc path (name ++ (b'/' ∷ [])) rest))

module _ (malloc : ℕ → Bool) (always : (n : ℕ) → malloc n ≡ true) where
  pub reconstruct_path-stored :
      (nodes : List Node) (a : ℕ) (path : List ℕ)
      → path_length nodes (length nodes) a ≡ done (length path)
      → path_bytes nodes (length nodes) a [] ≡ done path
      → reconstruct_path malloc nodes a ≡ done (take (length path - 1) path)
  unfolding reconstruct_path
  reconstruct_path-stored nodes a [] measured filled = rw (measured, always 1)
  reconstruct_path-stored nodes a (x ∷ path) measured filled =
      let same : (length (x ∷ path) == length (x ∷ path)) ≡ true = ground arith in
      let some_bytes : (length (x ∷ path) == 0) ≡ false = ground arith in
      rw (measured, always (length (x ∷ path)), filled, same, some_bytes)

  pub reconstruct_path-eq :
      (nodes : List Node)
      → IsTree nodes
      → (a : ℕ) (path : List ℕ) → a < length nodes
      → IsPath nodes a path
      → reconstruct_path malloc nodes a ≡ done (take (length path - 1) path)
  reconstruct_path-eq nodes tree a path h r =
      reconstruct_path-stored nodes a path (path_length_lem nodes tree (length nodes) a path r h)
        (path_bytes_lem nodes tree (length nodes) a path [] r h ∙ ap done (append-nil path))
