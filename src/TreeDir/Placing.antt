-- ===== src/TreeDir/Placing.antt =====
-- How far bra_tree_dir_add of src/utils/bra_tree_dir.c finds the parts of a path.
use br_archive.Prelude.{
  ℕ, zero, suc, ◌+◌, ◌≡◌, ◌<◌, ◌≤◌, ◌⊎◌, inl, inr, refl, ap, ◌∙◌, sym, subst, Bool, false,
  Bool-cases, Option, none, some, List, [], ◌∷◌, length, if◌then◌else◌, Outcome, done, read, arith,
}
use br_archive.TreeDir.{Node, same_name, find_place}
use br_archive.TreeDir.Invariant.{node_at, IsTree, IsLink, Extends}
use br_archive.TreeDir.Chains.{Chain, here, along, nothing-Chain, IsLinked}
use br_archive.TreeDir.Siblings.{IsChild, read_node, name_at, same_name-eq, same_name_refl}
use br_archive.TreeDir.Adding.{}
use br_archive.TreeDir.Paths.{}
use br_archive.TreeDir.Parts.{Descends, IsChild-Extends}
use br_archive.TreeDir.Inserting.{AreNames}

module _ (nodes : List Node) (tree : IsTree nodes) (links : IsLinked nodes) where
  -- The last node on the way, and the parts below it, the first of which is the name of no child.
  abbrev pub Stops : ℕ → List (List ℕ) → Outcome (Option (ℕ × List (List ℕ))) → Type 0
  Stops parent parts r =
      (q : ℕ) × (next : List ℕ) × (rest : List (List ℕ)) × (r ≡ done (some (q, next ∷ rest)))
      × (q < length nodes)
      × (AreNames parts → AreNames (next ∷ rest))
      × (length (next ∷ rest) ≤ length parts)
      × ((nodes' : List Node) (c : ℕ)
          → Extends nodes nodes'
          → Descends nodes' q (next ∷ rest) c
          → Descends nodes' parent parts c)
      × ((c : ℕ) → ¬ IsChild nodes q next c)

  -- All parts are there.
  abbrev pub Ends : ℕ → List (List ℕ) → Outcome (Option (ℕ × List (List ℕ))) → Type 0
  Ends parent parts r = (r ≡ done none) × (c : ℕ) × Descends nodes parent parts c

  -- No sibling from the link on has the name.
  abbrev pub Misses :
      ℕ → Option ℕ → List ℕ → List (List ℕ) → Outcome (Option (ℕ × List (List ℕ))) → Type 0
  Misses parent link part parts r =
      (r ≡ done (some (parent, part ∷ parts)))
      × ((c : ℕ) → Chain nodes link c → ¬ ((node_at nodes c).dirname ≡ some part))

  find_place-step :
      (malloc : ℕ → Bool) (fuel parent cur : ℕ) (n : Node) (name part : List ℕ)
      (parts : List (List ℕ))
      → read nodes cur ≡ done n
      → n.dirname ≡ some name
      → find_place malloc nodes (suc fuel) parent (some cur) part parts ≡ (
          if same_name name part
          then elim parts as (λ (x : List (List ℕ)). Outcome (Option (ℕ × List (List ℕ)))) [
            | [] ↦ done none
            | next ∷ rest ↦ find_place malloc nodes fuel cur n.first_child next rest
          ]
          else find_place malloc nodes fuel parent n.next part parts)
  unfolding find_place
  find_place-step malloc fuel parent cur n name part parts found named = cc (found, named)

  -- Without the name among all children, the way stops at the parent.
  pub stop_here :
      (parent : ℕ) (part : List ℕ) (parts : List (List ℕ))
      (r : Outcome (Option (ℕ × List (List ℕ))))
      → parent < length nodes
      → Ends parent (part ∷ parts) r
        ⊎ (Misses parent (node_at nodes parent).first_child part parts r
            ⊎ Stops parent (part ∷ parts) r)
      → Ends parent (part ∷ parts) r ⊎ Stops parent (part ∷ parts) r
  stop_here parent part parts r h (inl ends) = inl ends
  stop_here parent part parts r h (inr (inr stops)) = inr stops
  stop_here parent part parts r h (inr (inl (run, misses))) = inr (
    parent,
    part,
    parts,
    run,
    h,
    λ named. named,
    omega arith,
    λ nodes' c e d. d,
    λ c (inside, above, named). misses c (links c parent inside above) named,
  )

  -- One step down does not change what is found below.
  go_down :
      (parent cur : ℕ) (part : List ℕ) (parts : List (List ℕ))
      (r : Outcome (Option (ℕ × List (List ℕ))))
      → IsChild nodes parent part cur
      → Ends cur parts r ⊎ Stops cur parts r
      → Ends parent (part ∷ parts) r ⊎ Stops parent (part ∷ parts) r
  go_down parent cur part parts r child (inl (run, c, d)) = inl (run, c, (cur, child, d))
  go_down parent cur part parts r child
        (inr (q, next, rest, run, inside, names, size, leads, gone)) =
      inr (
        q,
        next,
        rest,
        run,
        inside,
        λ named. names named.1,
        omega arith,
        λ nodes' c e d.
            (cur, IsChild-Extends nodes nodes' parent cur part e child, leads nodes' c e d),
        gone,
      )

  not_there :
      (part : List ℕ) (cur : ℕ)
      → ¬ ((node_at nodes cur).dirname ≡ some part)
      → ((c : ℕ)
          → Chain nodes (node_at nodes cur).next c
          → ¬ ((node_at nodes c).dirname ≡ some part))
      → (c : ℕ) → Chain nodes (some cur) c
      → ¬ ((node_at nodes c).dirname ≡ some part)
  not_there part cur other more c (here _) = other
  not_there part cur other more c (along b _ lt r) = more c r

  abbrev pub Places :
      ℕ → Option ℕ → List ℕ → List (List ℕ) → Outcome (Option (ℕ × List (List ℕ))) → Type 0
  Places parent link part parts r =
      Ends parent (part ∷ parts) r
      ⊎ (Misses parent link part parts r ⊎ Stops parent (part ∷ parts) r)

  go_aside :
      (parent cur : ℕ) (part : List ℕ) (parts : List (List ℕ))
      (r : Outcome (Option (ℕ × List (List ℕ))))
      → ¬ ((node_at nodes cur).dirname ≡ some part)
      → Places parent (node_at nodes cur).next part parts r
      → Places parent (some cur) part parts r
  go_aside parent cur part parts r other (inl ends) = inl ends
  go_aside parent cur part parts r other (inr (inr stops)) = inr (inr stops)
  go_aside parent cur part parts r other (inr (inl (run, misses))) =
      inr (inl (run, not_there part cur other misses))

  decided :
      (parent : ℕ) (link : Option ℕ) (part : List ℕ) (parts : List (List ℕ))
      (r : Outcome (Option (ℕ × List (List ℕ))))
      → Ends parent (part ∷ parts) r ⊎ Stops parent (part ∷ parts) r
      → Places parent link part parts r
  decided parent link part parts r (inl ends) = inl ends
  decided parent link part parts r (inr stops) = inr (inr stops)

  nothing : (part : List ℕ) (c : ℕ) → Chain nodes none c → ¬ ((node_at nodes c).dirname ≡ some part)
  nothing part c r e = nothing-Chain nodes none c refl r

  other_name :
      (n : Node) (name part : List ℕ)
      → n.dirname ≡ some name
      → same_name name part ≡ false
      → ¬ (n.dirname ≡ some part)
  other_name n name part named differs same =
      let eq : name ≡ part = cc (named, same) in
      let clash : same_name name name ≡ false =
        subst (λ (k : List ℕ). same_name name k ≡ false) (sym eq) differs in
      let same' = same_name_refl name in cc

  pub find_place_lem :
      (malloc : ℕ → Bool) (fuel parent a : ℕ) (link : Option ℕ) (part : List ℕ)
      (parts : List (List ℕ))
      → length nodes ≤ suc a + fuel
      → parent ≤ a
      → IsLink nodes a (some parent) link
      → Places parent link part parts (find_place malloc nodes fuel parent link part parts)
  unfolding find_place
  find_place_lem malloc fuel parent a none part parts room le h = inr (inl (refl, nothing part))
  find_place_lem malloc zero parent a (some cur) part parts room le h =
      absurd (omega (arith, h.0, h.1))
  find_place_lem malloc (suc fuel) parent a (some cur) part [] room le (later, inside, above) =
      let (name, named) = name_at nodes tree cur parent (omega arith) inside in
      let n = node_at nodes cur in
      let step =
        find_place-step malloc fuel parent cur n name part [] (read_node nodes tree cur inside)
          named in
      elim (Bool-cases (same_name name part)) [
        | inl e ↦
            let child : IsChild nodes parent part cur =
              (inside, above, named ∙ ap some (same_name-eq name part e)) in
            inl (step ∙ rw e refl, cur, (cur, child, refl))
        | inr e ↦
            let next =
              subst (λ (o : Option ℕ). IsLink nodes cur o n.next) above (tree.1 cur inside).3 in
            subst (Places parent (some cur) part []) (sym (step ∙ rw e refl)) (
              go_aside parent cur part [] _ (other_name n name part named e) (
                find_place_lem malloc fuel parent cur n.next part [] (omega arith) (omega arith)
                  next))
      ]
  find_place_lem malloc (suc fuel) parent a (some cur) part (under ∷ rest) room le
        (later, inside, above) =
      let (name, named) = name_at nodes tree cur parent (omega arith) inside in
      let n = node_at nodes cur in
      let parts = under ∷ rest in
      let step =
        find_place-step malloc fuel parent cur n name part parts (read_node nodes tree cur inside)
          named in
      elim (Bool-cases (same_name name part)) [
        | inl e ↦
            let child : IsChild nodes parent part cur =
              (inside, above, named ∙ ap some (same_name-eq name part e)) in
            let deeper =
              find_place_lem malloc fuel cur cur n.first_child under rest (omega arith)
                (omega arith) (tree.1 cur inside).2 in
            subst (Places parent (some cur) part parts) (sym (step ∙ rw e refl)) (
              decided parent (some cur) part parts _
                (go_down parent cur part parts _ child (stop_here cur under rest _ inside deeper)))
        | inr e ↦
            let next =
              subst (λ (o : Option ℕ). IsLink nodes cur o n.next) above (tree.1 cur inside).3 in
            subst (Places parent (some cur) part parts) (sym (step ∙ rw e refl)) (
              go_aside parent cur part parts _ (other_name n name part named e) (
                find_place_lem malloc fuel parent cur n.next part parts (omega arith) (omega arith)
                  next))
      ]
