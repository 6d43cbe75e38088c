-- ===== src/TreeDir/Inserting.antt =====
-- Inserting a path below a node in src/utils/bra_tree_dir.c.
use br_archive.Prelude.{
  ℕ, ◌+◌, ◌^◌, ◌≡◌, ◌<◌, ◌≤◌, ◌⊎◌, inl, inr, ◌∙◌, Bool, true, false, Bool-cases, none, some, List,
  [], ◌∷◌, ◌++◌, length, All, ◌==◌, done, arith,
}
use br_archive.TreeDir.{
  Tree, add_part, tokens_from, tokens, parts_of, parent_index_search, insert_at_parent, add_parts,
  reconstruct_path,
}
use br_archive.TreeDir.Invariant.{Extends}
use br_archive.TreeDir.Adding.{IsTreeDir}
use br_archive.TreeDir.Parts.{join_all, Descends, reconstruct_path-add_parts}
use br_archive.TreeDir.Searching.{parent_index_search-Finds}

abbrev pub AreNames : List (List ℕ) → Type 0
AreNames = All (λ part. 0 < length part)

add_part-AreNames :
    (part : List ℕ) (parts : List (List ℕ)) → AreNames parts → AreNames (add_part part parts)
add_part-AreNames [] parts h = h
add_part-AreNames (x ∷ part) parts h = (omega arith, h)

pub tokens_from-AreNames : (part s : List ℕ) → AreNames (tokens_from part s)
unfolding tokens_from
tokens_from-AreNames part [] = add_part-AreNames part [] tt
tokens_from-AreNames part (c ∷ s) = elim (Bool-cases (c == b'/')) [
  | inl e ↦ rw e (add_part-AreNames part (tokens_from [] s) (tokens_from-AreNames [] s))
  | inr e ↦ rw e (tokens_from-AreNames (part ++ (c ∷ [])) s)
]

parts_of-AreNames : (dirname : List ℕ) → 0 < length dirname → AreNames (parts_of dirname)
parts_of-AreNames dirname h = of_tokens (tokens dirname) (tokens_from-AreNames [] dirname)
  where
    of_tokens :
        (parts : List (List ℕ))
        → AreNames parts
        → AreNames (elim parts [ [] ↦ dirname ∷ [] | part ∷ rest ↦ part ∷ rest ])
    of_tokens [] n = (h, tt)
    of_tokens (part ∷ rest) n = n

module _ (malloc : ℕ → Bool) (always : (n : ℕ) → malloc n ≡ true) (t : Tree) (parent_index : ℕ)
    (dirname : List ℕ) (named : 0 < length dirname) where
  insert-missing :
      parent_index_search t parent_index ≡ done none
      → insert_at_parent malloc t parent_index dirname ≡ done (t, none)
  unfolding insert_at_parent
  insert-missing found = let e : (length dirname == 0) ≡ false = ground arith in simp (e, found)

  insert-found :
      (p : ℕ)
      → parent_index_search t parent_index ≡ done (some p)
      → insert_at_parent malloc t parent_index dirname ≡ add_parts malloc t p (parts_of dirname)
  unfolding insert_at_parent
  insert-found p found =
      let e : (length dirname == 0) ≡ false = ground arith in
      simp (e, found, always (length dirname + 1))

  -- A tree is in order where each link leads to a node with the right parent, every node with a
  -- parent is met from the parent's first child along `next`, and no two children of a node have
  -- one name. With a malloc that does not fail, a name that is not empty, and a tree in order that
  -- has room for a node for each part of the name: if no node has the index, NULL is returned and
  -- the tree is as before. Otherwise the tree that results is in order, the node that is returned
  -- is reached from the node with the index by steps to a child with the next part as its name, its
  -- path is the one of the node with the index with the parts behind it, and every node keeps its
  -- index, its name, its parent and its path.
  pub insert_at_parent_lem :
      IsTreeDir t
      → length t.nodes + length (parts_of dirname) < 2 ^ 32
      → ((length t.nodes ≤ parent_index)
          × (insert_at_parent malloc t parent_index dirname ≡ done (t, none)))
        ⊎ ((parent_index < length t.nodes)
            × ((t' : Tree) × (c : ℕ) × (path : List ℕ) × (insert_at_parent malloc t parent_index
                    dirname
                  ≡ done (t', some c))
                × IsTreeDir t'
                × Extends t.nodes t'.nodes
                × Descends t'.nodes parent_index (parts_of dirname) c
                × (reconstruct_path malloc t.nodes parent_index ≡ done path)
                × (reconstruct_path malloc t'.nodes c
                    ≡ done (join_all parent_index path (parts_of dirname)))
                × ((a : ℕ)
                    → a < length t.nodes
                    → reconstruct_path malloc t'.nodes a ≡ reconstruct_path malloc t.nodes a)))
  insert_at_parent_lem tree room = elim (parent_index_search-Finds t parent_index tree) [
    | inr (outside, found) ↦ inl (outside, insert-missing found)
    | inl (inside, found, _) ↦
        let (t', c, path, run, tree', extends, _, descends, here, reached, kept) =
          reconstruct_path-add_parts malloc always t parent_index (parts_of dirname) tree inside
            (parts_of-AreNames dirname named) room in
        inr (
          inside,
          (
            t',
            c,
            path,
            insert-found parent_index found ∙ run,
            tree',
            extends,
            descends,
            here,
            reached,
            kept,
          ),
        )
  ]
