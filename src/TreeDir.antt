-- ===== src/TreeDir.antt =====
-- src/utils/bra_tree_dir.c: the directory tree. A node is at an address, its place in the list of
-- the nodes that were allocated, and a link is an address or NULL. malloc is a function from the
-- size to whether it succeeds, and a function of the source that returns NULL returns `none` here.
pub mod Invariant
pub mod Chains
pub mod Siblings
pub mod Linking
pub mod Adding
pub mod PathLaws
pub mod Paths
pub mod Parts
pub mod Searching
pub mod Inserting
pub mod Placing
pub mod PathAdding
mod Tests
use br_archive.Prelude.{
  ℕ, zero, suc, ◌+◌, ◌-◌, ◌%◌, ◌^◌, Bool, true, false, Option, none, some, List, [], ◌∷◌, ◌++◌,
  length, take, get_or, set, ◌==◌, if◌then◌else◌, not, ◌&&◌, Outcome, done, failed, fault, stuck,
  ◌>>=◌, read, write,
}

-- bra_tree_node_t.
pub record Node : Type 0 where
  pub index : ℕ
  pub dirname : Option (List ℕ)
  pub parent : Option ℕ
  pub first_child : Option ℕ
  pub next : Option ℕ

-- bra_tree_dir_t. The root is at address 0.
pub record Tree : Type 0 where
  pub nodes : List Node
  pub num_nodes : ℕ

abbrev pub root : ℕ
root = 0

-- What _bra_tree_node_alloc returns.
abbrev pub empty_node : Node
empty_node = record { index = 0; dirname = none; parent = none; first_child = none; next = none }

-- bra_tree_dir_create: the root is written to before it is compared with NULL.
unfoldable pub create : (ℕ → Bool) → Outcome Tree
create malloc =
    let with_root =
      if malloc 40 then done (record { nodes = empty_node ∷ []; num_nodes = 1 }) else fault in
    if malloc 16 then with_root else failed

-- `strcmp(a, b) == 0`.
abbrev pub same_name : List ℕ → List ℕ → Bool
same_name [] [] = true
same_name [] (y ∷ ys) = false
same_name (x ∷ xs) [] = false
same_name (x ∷ xs) (y ∷ ys) = (x == y) && same_name xs ys

-- A name that is NULL must not be compared.
abbrev pub name_of : Node → Outcome (List ℕ)
name_of n = elim n.dirname [ none ↦ fault | some s ↦ done s ]

-- strtok with BRA_DIR_DELIM until it returns NULL: the parts between delimiters that are not empty.
abbrev pub add_part : List ℕ → List (List ℕ) → List (List ℕ)
add_part [] parts = parts
add_part (x ∷ part) parts = (x ∷ part) ∷ parts

unfoldable pub tokens_from : List ℕ → List ℕ → List (List ℕ)
tokens_from part [] = add_part part []
tokens_from part (c ∷ s) =
    let at_delimiter = add_part part (tokens_from [] s) in
    let inside = tokens_from (part ++ (c ∷ [])) s in if c == b'/' then at_delimiter else inside

abbrev pub tokens : List ℕ → List (List ℕ)
tokens = tokens_from []

-- The first of two searches that finds something.
abbrev pub or_else : Outcome (Option ℕ) → Outcome (Option ℕ) → Outcome (Option ℕ)
or_else (done none) later = later
or_else (done (some a)) later = done (some a)
or_else failed later = failed
or_else fault later = fault
or_else stuck later = stuck

-- The loops follow links to later addresses, so that the number of nodes is enough fuel.
module _ (nodes : List Node) where
  -- _bra_tree_node_parent_index_search.
  unfoldable pub search : ℕ → ℕ → Option ℕ → Outcome (Option ℕ)
  search parent_index fuel none = done none
  search parent_index zero (some a) = stuck
  search parent_index (suc fuel) (some a) = do
    node ← read nodes a
    let below = search parent_index fuel node.first_child
    let after = search parent_index fuel node.next
    if node.index == parent_index then done (some a) else or_else below after

  -- A sibling with the name, from this one on.
  unfoldable pub find_sibling : List ℕ → ℕ → Option ℕ → Outcome (Option ℕ)
  find_sibling dirname fuel none = done none
  find_sibling dirname zero (some a) = stuck
  find_sibling dirname (suc fuel) (some a) = do
    node ← read nodes a
    name ← name_of node
    let after = find_sibling dirname fuel node.next
    if same_name name dirname then done (some a) else after

  -- `while (sibling->next != NULL)`.
  unfoldable pub last_sibling : ℕ → ℕ → Outcome ℕ
  last_sibling zero a = stuck
  last_sibling (suc fuel) a = do
    node ← read nodes a
    elim node.next [ none ↦ done a | some b ↦ last_sibling fuel b ]

  -- The nodes that _bra_tree_node_destroy_subtree frees for the siblings from this one on.
  unfoldable pub destroy_siblings : ℕ → Option ℕ → Outcome ℕ
  destroy_siblings fuel none = done 0
  destroy_siblings zero (some a) = stuck
  destroy_siblings (suc fuel) (some a) = do
    node ← read nodes a
    below ← destroy_siblings fuel node.first_child
    after ← destroy_siblings fuel node.next
    done (below + 1 + after)

-- bra_tree_dir_destroy, with its assertion on the number of nodes.
unfoldable pub destroy : Tree → Outcome (Unit {0})
destroy tree = do
  node ← read tree.nodes root
  count ← destroy_siblings tree.nodes (length tree.nodes) node.first_child
  if (count + 1) == tree.num_nodes then done tt else fault

-- The new node is linked as the first child, or behind the last one.
unfoldable pub link_child : List Node → ℕ → ℕ → Outcome (List Node)
link_child nodes parent new_node = do
  node ← read nodes parent
  elim node.first_child [
    | none ↦ write nodes parent (record node { first_child = some new_node })
    | some first ↦ do
      sibling ← last_sibling nodes (length nodes) first
      last ← read nodes sibling
      write nodes sibling (record last { next = some new_node })
  ]

abbrev pub parent_index_search : Tree → ℕ → Outcome (Option ℕ)
parent_index_search tree parent_index =
    let found = search tree.nodes parent_index (length tree.nodes) (some root) in
    if parent_index == 0 then done (some root) else found

-- Without a token, the whole string is the part.
abbrev pub parts_of : List ℕ → List (List ℕ)
parts_of dirname = elim (tokens dirname) [ [] ↦ dirname ∷ [] | part ∷ parts ↦ part ∷ parts ]

module _ (malloc : ℕ → Bool) where
  -- The tree afterwards, and the address that is returned.
  abbrev pub Added : Type 0
  Added = Tree × Option ℕ

  unfoldable pub add_new : Tree → ℕ → List ℕ → Outcome Added
  unfolding link_child
  add_new tree parent dirname =
      let new_node = length tree.nodes in
      let node : Node = record {
        index = tree.num_nodes;
        dirname = some dirname;
        parent = some parent;
        first_child = none;
        next = none;
      } in
      let linked : Outcome Added = link_child tree.nodes parent new_node >>= λ nodes. done (
        record { nodes = nodes ++ (node ∷ []); num_nodes = (tree.num_nodes + 1) % 2 ^ 32 },
        some new_node,
      ) in
      if malloc 40 && malloc (length dirname + 1) then linked else done (tree, none)

  -- _bra_tree_dir_add_child_node.
  unfoldable pub add_child_node : Tree → ℕ → List ℕ → Outcome Added
  unfolding add_new find_sibling
  add_child_node tree parent dirname =
      let added = (do
        node ← read tree.nodes parent
        found ← find_sibling tree.nodes dirname (length tree.nodes) node.first_child
        elim found [ some a ↦ done (tree, some a) | none ↦ add_new tree parent dirname ]) in
      if length dirname == 0 then done (tree, none) else added

  -- The `do` loops over the parts.
  unfoldable pub add_parts : Tree → ℕ → List (List ℕ) → Outcome Added
  unfolding add_child_node
  add_parts tree parent [] = done (tree, some parent)
  add_parts tree parent (part ∷ parts) = do
    (tree', added) ← add_child_node tree parent part
    elim added [ none ↦ done (tree', none) | some p ↦ add_parts tree' p parts ]

  -- The loop over the levels in bra_tree_dir_add: `none` where all parts are there, and otherwise
  -- the last node on the way and the parts below it.
  unfoldable pub find_place :
      List Node → ℕ → ℕ → Option ℕ → List ℕ → List (List ℕ) → Outcome (Option (ℕ × List (List ℕ)))
  find_place nodes fuel parent none part parts = done (some (parent, part ∷ parts))
  find_place nodes zero parent (some cur) part parts = stuck
  find_place nodes (suc fuel) parent (some cur) part parts = do
    node ← read nodes cur
    name ← name_of node
    let down : Outcome (Option (ℕ × List (List ℕ))) = elim parts [
      | [] ↦ done none
      | next ∷ rest ↦ find_place nodes fuel cur node.first_child next rest
    ]
    let aside = find_place nodes fuel parent node.next part parts
    if same_name name part then down else aside

  unfoldable pub add : Tree → List ℕ → Outcome Added
  unfolding find_place add_parts
  add tree dirname =
      let added : Outcome Added = elim (tokens dirname) [
        | [] ↦ done (tree, none)
        | part ∷ parts ↦ do
          node ← read tree.nodes root
          place ← find_place tree.nodes (length tree.nodes) root node.first_child part parts
          elim place [ none ↦ done (tree, none) | some (parent, rest) ↦ add_parts tree parent rest ]
      ] in
      if malloc (length dirname + 1) && not (length dirname == 0) then added else done (tree, none)

  unfoldable pub insert_at_parent : Tree → ℕ → List ℕ → Outcome Added
  unfolding add_parts search
  insert_at_parent tree parent_index dirname =
      let inserted = (do
        found ← parent_index_search tree parent_index
        elim found [
          | none ↦ done (tree, none)
          | some parent ↦
              let added = add_parts tree parent (parts_of dirname) in
              if malloc (length dirname + 1) then added else done (tree, none)
        ]) in
      if length dirname == 0 then done (tree, none) else inserted

-- The address of the parent, which must not be NULL.
abbrev pub parent_of : Node → Outcome ℕ
parent_of n = elim n.parent [ none ↦ fault | some p ↦ done p ]

-- The two loops up to the root: the length with a delimiter behind each name, and the bytes that
-- are stored from the end.
unfoldable pub path_length : List Node → ℕ → ℕ → Outcome ℕ
path_length nodes zero a = stuck
path_length nodes (suc fuel) a = do
  node ← read nodes a
  let above = (do
    name ← name_of node
    p ← parent_of node
    len ← path_length nodes fuel p
    done (length name + 1 + len))
  if node.index == 0 then done 0 else above

unfoldable pub path_bytes : List Node → ℕ → ℕ → List ℕ → Outcome (List ℕ)
path_bytes nodes zero a path = stuck
path_bytes nodes (suc fuel) a path = do
  node ← read nodes a
  let above = (do
    name ← name_of node
    p ← parent_of node
    path_bytes nodes fuel p (name ++ (b'/' ∷ path)))
  if node.index == 0 then done path else above

-- The string that is returned; the last delimiter is overwritten with its end.
unfoldable pub reconstruct_path : (ℕ → Bool) → List Node → ℕ → Outcome (List ℕ)
unfolding path_length path_bytes
reconstruct_path malloc nodes a = do
  len ← path_length nodes (length nodes) a
  let stored = path_bytes nodes (length nodes) a [] >>= λ path.
      if length path == len then done (take (len - 1) path) else fault
  let path = if malloc len then stored else failed
  let empty : Outcome (List ℕ) = if malloc 1 then done [] else failed
  if len == 0 then empty else path
