-- ===== src/TreeDir/Tests.antt =====
-- Runs of src/utils/bra_tree_dir.c, from its tests, and its theorems at concrete inputs.
use br_archive.Prelude.{
  none, ◌⊎◌, ◌+◌, ◌^◌, ℕ, ◌≡◌, refl, Bool, true, some, List, [], ◌∷◌, ◌++◌, done, Outcome, ◌>>=◌,
  zero, suc, ◌<◌, ◌≤◌, length, arith, subst, All,
}
use br_archive.TreeDir.{
  Tree, tokens, parts_of, parent_index_search, empty_node, create, add, tokens_from, add_child_node,
  add_new, add_parts, find_place, find_sibling, last_sibling, link_child, reconstruct_path,
  path_length, path_bytes, insert_at_parent, search,
}
use br_archive.TreeDir.Invariant.{IsNode, node_at, Extends}
use br_archive.TreeDir.Chains.{IsLinked}
use br_archive.TreeDir.Siblings.{IsChild}
use br_archive.TreeDir.Adding.{IsTreeDir}
use br_archive.TreeDir.Paths.{join, reconstruct_path-add_child_node}
use br_archive.TreeDir.Searching.{parent_index_search-Finds}
use br_archive.TreeDir.PathAdding.{add-Descends}
use br_archive.TreeDir.Inserting.{insert_at_parent_lem}
use br_archive.TreeDir.Parts.{join_all, Descends, reconstruct_path-add_parts}

abbrev always : ℕ → Bool
always n = true

abbrev dir1 : List ℕ
dir1 = b'd' ∷ b'i' ∷ b'r' ∷ b'1' ∷ []

abbrev dir2 : List ℕ
dir2 = b'd' ∷ b'i' ∷ b'r' ∷ b'2' ∷ []

abbrev below : List ℕ → List ℕ → List ℕ
below a b = a ++ (b'/' ∷ b)

-- Two directories, and one below the first, with its path.
abbrev run : Outcome (List ℕ)
run = do
  t ← create always
  (t1, _) ← add always t dir1
  (t2, _) ← add always t1 dir2
  (t3, _) ← add always t2 (below dir1 dir2)
  (t4, _) ← insert_at_parent always t3 2 (below dir1 dir2)
  reconstruct_path always t4.nodes 5

run_lem : run ≡ done (below dir2 (below dir1 dir2))
unfolding create add tokens_from add_child_node add_new add_parts find_place find_sibling
    last_sibling link_child reconstruct_path path_length path_bytes insert_at_parent search
run_lem = refl

-- What bra_tree_dir_create makes.
abbrev only_root : Tree
only_root = record { nodes = empty_node ∷ []; num_nodes = 1 }

create-only_root : create always ≡ done only_root
unfolding create
create-only_root = refl

only_root-IsTreeDir : IsTreeDir only_root
only_root-IsTreeDir = ((omega arith, nodes_of), refl, linked, λ a b p name ha hb ca cb. omega arith)
  where
    nodes_of : (a : ℕ) → a < 1 → IsNode (empty_node ∷ []) a (node_at (empty_node ∷ []) a)
    nodes_of zero h = (refl, refl, tt, tt)
    nodes_of (suc a) h = absurd (omega arith)

    linked : IsLinked (empty_node ∷ [])
    linked zero p h e = cc
    linked (suc c) p h e = absurd (omega arith)

reconstruct_path-add_child_node_example :
    (t' : Tree) × (c : ℕ) × (path : List ℕ) × (add_child_node always only_root 0 dir1
      ≡ done (t', some c))
    × IsTreeDir t'
    × ((t' ≡ only_root) ⊎ ((c ≡ 1) × (length t'.nodes ≡ 2)))
    × IsChild t'.nodes 0 dir1 c
    × ((0 < c) × (c < length t'.nodes) × Extends only_root.nodes t'.nodes × (length t'.nodes ≤ 2))
    × (reconstruct_path always only_root.nodes 0 ≡ done path)
    × (reconstruct_path always t'.nodes c ≡ done (join 0 path dir1))
    × ((a : ℕ)
        → a < 1
        → reconstruct_path always t'.nodes a ≡ reconstruct_path always only_root.nodes a)
reconstruct_path-add_child_node_example =
    reconstruct_path-add_child_node always only_root 0 dir1 (λ n. refl) only_root-IsTreeDir
      (omega arith) (omega arith) (omega arith)

reconstruct_path-add_parts_example :
    (t' : Tree) × (c : ℕ) × (path : List ℕ) × (add_parts always only_root 0 (dir1 ∷ dir2 ∷ [])
      ≡ done (t', some c))
    × IsTreeDir t'
    × Extends only_root.nodes t'.nodes
    × (length t'.nodes ≤ 3)
    × Descends t'.nodes 0 (dir1 ∷ dir2 ∷ []) c
    × (reconstruct_path always only_root.nodes 0 ≡ done path)
    × (reconstruct_path always t'.nodes c ≡ done (join_all 0 path (dir1 ∷ dir2 ∷ [])))
    × ((a : ℕ)
        → a < 1
        → reconstruct_path always t'.nodes a ≡ reconstruct_path always only_root.nodes a)
reconstruct_path-add_parts_example =
    reconstruct_path-add_parts always (λ n. refl) only_root 0 (dir1 ∷ dir2 ∷ []) only_root-IsTreeDir
      (omega arith) (omega arith, (omega arith, tt)) (omega arith)

-- The tree that a run of the program gives is in order.
result-IsTreeDir :
    (t t1 : Tree) (p c : ℕ) (parts : List (List ℕ))
    → IsTreeDir t
    → p < length t.nodes
    → All (λ part. 0 < length part) parts
    → length t.nodes + length parts < 2 ^ 32
    → add_parts always t p parts ≡ done (t1, some c)
    → IsTreeDir t1
result-IsTreeDir t t1 p c parts tree h named small added =
    let (t', _, _, run', tree', _, _, _, _, _, _) =
      reconstruct_path-add_parts always (λ n. refl) t p parts tree h named small in
    let same : t' ≡ t1 = cc (added, run') in subst IsTreeDir same tree'

-- A directory with one below it.
abbrev two_levels : Tree
two_levels = record {
  nodes =
      record empty_node { first_child = some 1 }
      ∷ record {
        index = 1;
        dirname = some dir1;
        parent = some 0;
        first_child = some 2;
        next = none;
      }
      ∷ record { index = 2; dirname = some dir2; parent = some 1; first_child = none; next = none }
      ∷ [];
  num_nodes = 3;
}

-- And a directory beside the first.
abbrev four_nodes : Tree
four_nodes = record {
  nodes =
      record empty_node { first_child = some 1 }
      ∷ record {
        index = 1;
        dirname = some dir1;
        parent = some 0;
        first_child = some 2;
        next = some 3;
      }
      ∷ record { index = 2; dirname = some dir2; parent = some 1; first_child = none; next = none }
      ∷ record { index = 3; dirname = some dir2; parent = some 0; first_child = none; next = none }
      ∷ [];
  num_nodes = 4;
}

two_levels_run : add_parts always only_root 0 (dir1 ∷ dir2 ∷ []) ≡ done (two_levels, some 2)
unfolding add_parts add_child_node add_new find_sibling last_sibling link_child
two_levels_run = refl

four_nodes_run : add_parts always two_levels 0 (dir2 ∷ []) ≡ done (four_nodes, some 3)
unfolding add_parts add_child_node add_new find_sibling last_sibling link_child
four_nodes_run = refl

two_levels-IsTreeDir : IsTreeDir two_levels
two_levels-IsTreeDir =
    result-IsTreeDir only_root two_levels 0 2 (dir1 ∷ dir2 ∷ []) only_root-IsTreeDir (omega arith)
      (omega arith, (omega arith, tt)) (omega arith) two_levels_run

four_nodes-IsTreeDir : IsTreeDir four_nodes
four_nodes-IsTreeDir =
    result-IsTreeDir two_levels four_nodes 0 3 (dir2 ∷ []) two_levels-IsTreeDir (omega arith)
      (omega arith, tt) (omega arith) four_nodes_run

parent_index_search-Finds_example :
    ((2 < 4)
      × (parent_index_search four_nodes 2 ≡ done (some 2))
      × ((node_at four_nodes.nodes 2).index ≡ 2))
    ⊎ ((4 ≤ 2) × (parent_index_search four_nodes 2 ≡ done none))
parent_index_search-Finds_example = parent_index_search-Finds four_nodes 2 four_nodes-IsTreeDir

two_parts : 4 + length (parts_of (below dir1 dir2)) < 2 ^ 32
unfolding tokens_from
two_parts = omega arith

insert_at_parent_lem_example :
    ((4 ≤ 3) × (insert_at_parent always four_nodes 3 (below dir1 dir2) ≡ done (four_nodes, none)))
    ⊎ ((3 < 4)
        × ((t' : Tree) × (c : ℕ) × (path : List ℕ) × (insert_at_parent always four_nodes 3
                (below dir1 dir2)
              ≡ done (t', some c))
            × IsTreeDir t'
            × Extends four_nodes.nodes t'.nodes
            × Descends t'.nodes 3 (parts_of (below dir1 dir2)) c
            × (reconstruct_path always four_nodes.nodes 3 ≡ done path)
            × (reconstruct_path always t'.nodes c
                ≡ done (join_all 3 path (parts_of (below dir1 dir2))))
            × ((a : ℕ)
                → a < 4
                → reconstruct_path always t'.nodes a ≡ reconstruct_path always four_nodes.nodes a)))
insert_at_parent_lem_example =
    insert_at_parent_lem always (λ n. refl) four_nodes 3 (below dir1 dir2) (omega arith)
      four_nodes-IsTreeDir two_parts

more_parts : 4 + length (tokens (below dir2 dir1)) < 2 ^ 32
unfolding tokens_from
more_parts = omega arith

has_parts : 0 < length (tokens (below dir2 dir1))
unfolding tokens_from
has_parts = omega arith

add-Descends_example :
    ((add always four_nodes (below dir2 dir1) ≡ done (four_nodes, none))
      × (c : ℕ) × Descends four_nodes.nodes 0 (tokens (below dir2 dir1)) c)
    ⊎ ((t' : Tree) × (c : ℕ) × (add always four_nodes (below dir2 dir1) ≡ done (t', some c))
        × IsTreeDir t'
        × Extends four_nodes.nodes t'.nodes
        × Descends t'.nodes 0 (tokens (below dir2 dir1)) c
        × (4 ≤ c))
add-Descends_example =
    add-Descends always (λ n. refl) four_nodes (below dir2 dir1) four_nodes-IsTreeDir has_parts
      more_parts
