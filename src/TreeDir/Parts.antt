-- ===== src/TreeDir/Parts.antt =====
-- Adding a chain of directories in src/utils/bra_tree_dir.c.
use br_archive.Prelude.{
  ℕ, zero, suc, ◌+◌, ◌^◌, ◌≡◌, ◌<◌, ◌≤◌, refl, ap, ◌∙◌, Bool, true, some, List, [], ◌∷◌, length,
  All, done, arith,
}
use br_archive.TreeDir.{Node, Tree, reconstruct_path, add_child_node, add_parts}
use br_archive.TreeDir.Invariant.{Extends}
use br_archive.TreeDir.Siblings.{IsChild}
use br_archive.TreeDir.Adding.{IsTreeDir}
use br_archive.TreeDir.PathLaws.{IsPath-of, reconstruct_path-eq}
use br_archive.TreeDir.Paths.{join, reconstruct_path-add_child_node}

-- A path with names behind it.
abbrev pub join_all : ℕ → List ℕ → List (List ℕ) → List ℕ
join_all p path [] = path
join_all p path (part ∷ parts) = join_all 1 (join p path part) parts

join_all-later :
    (c : ℕ) (path : List ℕ) (parts : List (List ℕ))
    → 0 < c
    → join_all c path parts ≡ join_all 1 path parts
join_all-later zero path parts h = absurd (omega arith)
join_all-later (suc c) path [] h = refl
join_all-later (suc c) path (part ∷ parts) h = refl

-- Steps to a child with the next part as its name lead from one node to the other.
abbrev pub Descends : List Node → ℕ → List (List ℕ) → ℕ → Type 0
Descends nodes p [] c = p ≡ c
Descends nodes p (part ∷ parts) c = (d : ℕ) × IsChild nodes p part d × Descends nodes d parts c

pub IsChild-Extends :
    (nodes nodes' : List Node) (p c : ℕ) (name : List ℕ)
    → Extends nodes nodes'
    → IsChild nodes p name c
    → IsChild nodes' p name c
IsChild-Extends nodes nodes' p c name extends (inside, parent, named) =
    (omega (arith, extends.0), (extends.1 c inside).2 ∙ parent, (extends.1 c inside).1 ∙ named)

Extends-trans :
    (nodes nodes' nodes'' : List Node)
    → Extends nodes nodes'
    → Extends nodes' nodes''
    → Extends nodes nodes''
Extends-trans nodes nodes' nodes'' e f = (
  omega (arith, e.0, f.0),
  λ a lt.
      let (index, named, parent) = e.1 a lt in
      let (index', named', parent') = f.1 a (omega (arith, e.0)) in
      (index' ∙ index, named' ∙ named, parent' ∙ parent),
)

module _ (malloc : ℕ → Bool) (always : (n : ℕ) → malloc n ≡ true) where
  add_parts-step :
      (t t1 : Tree) (p c : ℕ) (part : List ℕ) (parts : List (List ℕ))
      → add_child_node malloc t p part ≡ done (t1, some c)
      → add_parts malloc t p (part ∷ parts) ≡ add_parts malloc t1 c parts
  unfolding add_parts
  add_parts-step t t1 p c part parts run = cc run

  path_there :
      (t : Tree) (p : ℕ)
      → IsTreeDir t
      → p < length t.nodes
      → (path : List ℕ) × (reconstruct_path malloc t.nodes p ≡ done path)
  path_there t p tree h =
      let (path, r) = IsPath-of t.nodes tree.0 (suc p) p (omega arith) h in
      (_, reconstruct_path-eq malloc always t.nodes tree.0 p path h r)

  -- A tree is in order where each link leads to a node with the right parent, every node with a
  -- parent is met from the parent's first child along `next`, and no two children of a node have
  -- one name. With a malloc that does not fail, in a tree in order with room for a node for each
  -- part: adding parts that are not empty below a node gives a tree in order, in which the node
  -- that is returned is reached from the first one by steps to a child with the next part as its
  -- name, and the path of the node is the one of the first node with the parts behind it. There is
  -- at most one node more for each part, and every node keeps its index, its name, its parent and
  -- its path.
  pub reconstruct_path-add_parts :
      (t : Tree) (p : ℕ) (parts : List (List ℕ))
      → IsTreeDir t
      → p < length t.nodes
      → All (λ part. 0 < length part) parts
      → length t.nodes + length parts < 2 ^ 32
      → (t' : Tree) × (c : ℕ) × (path : List ℕ) × (add_parts malloc t p parts ≡ done (t', some c))
        × IsTreeDir t'
        × Extends t.nodes t'.nodes
        × (length t'.nodes ≤ length t.nodes + length parts)
        × Descends t'.nodes p parts c
        × (reconstruct_path malloc t.nodes p ≡ done path)
        × (reconstruct_path malloc t'.nodes c ≡ done (join_all p path parts))
        × ((a : ℕ)
            → a < length t.nodes
            → reconstruct_path malloc t'.nodes a ≡ reconstruct_path malloc t.nodes a)
  unfolding add_parts
  reconstruct_path-add_parts t p [] tree h named small =
      let (path, e) = path_there t p tree h in
      (
        t,
        p,
        path,
        refl,
        tree,
        (omega arith, λ a lt. (refl, refl, refl)),
        omega arith,
        refl,
        e,
        e,
        λ a lt. refl,
      )
  reconstruct_path-add_parts t p (part ∷ parts) tree h named small =
      let (t1, c, path, run, tree1, _, is_child, (later, inside, keeps, grows), here, child, old) =
        reconstruct_path-add_child_node malloc t p part always tree h named.0 (omega arith) in
      let (t', d, path', more, tree', extends, grown, descends, there, reached, kept) =
        reconstruct_path-add_parts t1 c parts tree1 inside named.1 (omega (arith, keeps.0)) in
      let same : path' ≡ join p path part = cc (child, there) in
      (
        t',
        d,
        path,
        add_parts-step t t1 p c part parts run ∙ more,
        tree',
        Extends-trans t.nodes t1.nodes t'.nodes keeps extends,
        omega arith,
        (c, IsChild-Extends t1.nodes t'.nodes p c part extends is_child, descends),
        here,
        reached
            ∙ ap done (
                ap (λ (q : List ℕ). join_all c q parts) same
                ∙ join_all-later c (join p path part) parts (omega arith)),
        λ a lt. kept a (omega (arith, keeps.0)) ∙ old a lt,
      )
