-- ===== src/Deploy/Levels/Shortest.antt =====
-- Where `traverse_graph` places each node: as far up as its shortest chain of dependencies is long.
use pyceli.Base.{
  ℕ, zero, suc, ◌≤◌, ◌≡◌, sym, ◌∙◌, ap, subst, ◌⊎◌, ◌↔◌, inl, inr, true, length, List, [],
  Option-cases, some, arith,
}
use pyceli.Objects.{Identifier, has_id}
use pyceli.Deploy.Graph.{Nodes}
use pyceli.Deploy.Graph.Keyed.{IsKeyed}
use pyceli.Deploy.Levels.{Walk, walk, start, sort_levels, members, at_level, traverse_graph}
use pyceli.Deploy.Levels.Loop.{walk_keeps}
use pyceli.Deploy.Levels.Steps.{Steps, root, above, InQueue, Placed}
use pyceli.Deploy.Levels.Keys.{sort_levels-Counted, nth_level, nth_level-members}
use pyceli.Deploy.Levels.Walks.{Sound, round-Sound, start-Sound}

-- No chain of dependencies of the node is shorter.
abbrev pub IsShortest : Nodes → Identifier → ℕ → Type 0
IsShortest nodes id l = Steps nodes id l × ((k : ℕ) → Steps nodes id k → l ≤ k)

module _ (nodes : Nodes) (keyed : IsKeyed nodes) where
  module _ (w : Walk) (s : Sound nodes w) (empty : w.queue ≡ []) where
    Placed-in :
        (id : Identifier) (l : ℕ)
        → Placed id l w.levels ⊎ InQueue id l w.queue
        → Placed id l w.levels
    Placed-in id l (inl p) = p
    Placed-in id l (inr q) = absurd (subst (InQueue id l) empty q)

    Placed-up_to :
        (id : Identifier) (l : ℕ) → Steps nodes id l → (k : ℕ) × Placed id k w.levels × (k ≤ l)
    Placed-up_to id zero (root n listed free) =
        (0, Placed-in id 0 (s.settled.root_kept n listed free), omega arith)
    Placed-up_to id (suc l) (above n {d} listed h p) =
        let (k, placed, le) = Placed-up_to d l p in
        let (j, level, next) = s.covered d k n placed listed h in
        (j, Placed-in id j (s.settled.level_kept id j level), omega arith)

    Placed-IsShortest : (id : Identifier) (l : ℕ) → Placed id l w.levels ↔ IsShortest nodes id l
    Placed-IsShortest id l = (
      λ placed. (
        s.settled.placed_steps id l placed,
        λ k steps.
            let (j, placed_too, le) = Placed-up_to id k steps in
            ground
              (arith, s.settled.placed_level id l placed, s.settled.placed_level id j placed_too),
      ),
      λ (steps, least).
          let (j, placed, le) = Placed-up_to id l steps in
          let same : j ≡ l = omega (arith, least j (s.settled.placed_steps id j placed)) in
          subst (λ k. Placed id k w.levels) same placed,
    )

  walk_of :
      (levels : List (List Identifier))
      → (traverse_graph nodes ≡ some levels)
      → (w : Walk) × (walk nodes (suc (length nodes)) (start nodes) ≡ some w)
        × (members (sort_levels w.levels) ≡ levels)
  unfolding traverse_graph
  walk_of levels e = elim (Option-cases (walk nodes (suc (length nodes)) (start nodes))) [
    | inl out ↦ absurd (ground (arith, e))
    | inr (w, found) ↦ (w, found, ground (arith, e))
  ]

  -- The walk behind the levels
  walk_end :
      (levels : List (List Identifier))
      → (traverse_graph nodes ≡ some levels)
      → (w : Walk) × Sound nodes w
        × (w.queue ≡ [])
        × ((i : ℕ) → nth_level i levels ≡ at_level i w.levels)
  walk_end levels e =
      let (w, found, sorted) = walk_of levels e in
      let (s, empty) =
        walk_keeps (Sound nodes) nodes (suc (length nodes)) (start nodes) w
          (round-Sound nodes keyed) (start-Sound nodes) found in
      (
        w,
        s,
        empty,
        λ i.
            ap (nth_level i) (sym sorted)
            ∙ ap (λ ls. nth_level i (members ls)) (sort_levels-Counted 0 w.levels s.counted)
            ∙ nth_level-members 0 i w.levels s.counted
            ∙ ap (λ k. at_level k w.levels) (omega arith),
      )

  pub Steps-placed :
      (levels : List (List Identifier))
      → (traverse_graph nodes ≡ some levels)
      → (id : Identifier) (l : ℕ) → Steps nodes id l
      → (i : ℕ) × (has_id id (nth_level i levels) ≡ true)
  Steps-placed levels e id l steps =
      let (w, s, empty, same) = walk_end levels e in
      let (k, placed, _) = Placed-up_to w s empty id l steps in
      (k, subst (λ xs. has_id id xs ≡ true) (sym (same k)) placed)

-- `traverse_graph` places a node at a level exactly if the level is the length of the shortest chain of
-- dependencies that leads from the node to one without dependencies, for every graph with one node
-- for each identifier.
pub traverse_graph-IsShortest :
    (nodes : Nodes)
    → IsKeyed nodes
    → (levels : List (List Identifier)) → (traverse_graph nodes ≡ some levels)
    → (id : Identifier) (i : ℕ) → (has_id id (nth_level i levels) ≡ true) ↔ IsShortest nodes id i
traverse_graph-IsShortest nodes keyed levels e id i =
    let (w, s, empty, same) = walk_end nodes keyed levels e in
    subst (λ xs. (has_id id xs ≡ true) ↔ IsShortest nodes id i) (sym (same i))
      (Placed-IsShortest nodes keyed w s empty id i)
