-- ===== src/Deploy/Levels/Complete.antt =====
-- Which nodes `traverse_graph` reaches, and in what order: all the nodes of a graph that `validate`
-- accepts, each once, and dependencies first where all chains of a node are of the same length.
use pyceli.Base.{
  ℕ, suc, ◌≤◌, ◌≡◌, refl, ◌∙◌, ap, subst, inl, inr, true, List, some, arith, List-cases,
}
use pyceli.Objects.{Identifier, id_eq_self, has_id}
use pyceli.Deploy.Graph.{ObjectNode, Nodes, node_id, ids, Search, validate, ok}
use pyceli.Deploy.Graph.Cycles.{Safe, safe, validate-Safe}
use pyceli.Deploy.Graph.Keyed.{IsNode, IsKeyed, find_node-IsNode}
use pyceli.Deploy.Levels.{is_root, traverse_graph}
use pyceli.Deploy.Levels.Steps.{Steps, root, above}
use pyceli.Deploy.Levels.Keys.{nth_level}
use pyceli.Deploy.Levels.Shortest.{Steps-placed, traverse_graph-IsShortest}

-- A node whose chains all end has a chain that ends in a node without dependencies.
Safe-Steps : (nodes : Nodes) {id : Identifier} → Safe nodes id → (l : ℕ) × Steps nodes id l
unfolding has_id
Safe-Steps nodes {id} (safe n found below) =
    let (listed, e) = find_node-IsNode id nodes n found in
    elim (List-cases n.dependencies) [
      | inl empty ↦ (0, subst (λ i. Steps nodes i 0) e (root n listed (rw empty refl)))
      | inr (d, rest, more) ↦
          let h : has_id d n.dependencies ≡ true = rw more (ground (arith, id_eq_self d)) in
          let (l, steps) = Safe-Steps nodes (below d h) in
          (suc l, subst (λ i. Steps nodes i (suc l)) e (above n listed h steps))
    ]

-- After `validate` returned, `traverse_graph` places every node, at one level.
pub traverse_graph_complete :
    (nodes : Nodes)
    → IsKeyed nodes
    → (s : Search) → (validate nodes ≡ ok s)
    → (levels : List (List Identifier)) → (traverse_graph nodes ≡ some levels)
    → (id : Identifier) → has_id id (ids nodes) ≡ true
    → (i : ℕ) × (has_id id (nth_level i levels) ≡ true)
      × ((j : ℕ) → has_id id (nth_level j levels) ≡ true → j ≡ i)
traverse_graph_complete nodes keyed s valid levels e id listed =
    let (l, steps) = Safe-Steps nodes (validate-Safe nodes s valid id listed) in
    let (i, placed) = Steps-placed nodes keyed levels e id l steps in
    let (steps_i, least_i) = (traverse_graph-IsShortest nodes keyed levels e id i).0 placed in
    (
      i,
      placed,
      λ j placed_too.
          let (steps_j, least_j) =
            (traverse_graph-IsShortest nodes keyed levels e id j).0 placed_too in
          omega (arith, least_i j steps_j, least_j i steps_i),
    )

-- A rank of the nodes that each dependency lowers by one
abbrev pub IsRanked : Nodes → (Identifier → ℕ) → Type 0
IsRanked nodes rank =
    (n : ObjectNode)
    → IsNode n nodes
    → ((is_root n ≡ true) → rank (node_id n) ≡ 0)
      × ((d : Identifier) → has_id d n.dependencies ≡ true → rank (node_id n) ≡ suc (rank d))

rank_of_Steps :
    (nodes : Nodes) (rank : Identifier → ℕ)
    → IsRanked nodes rank
    → {id : Identifier} {l : ℕ} → Steps nodes id l
    → rank id ≡ l
rank_of_Steps nodes rank ranked (root n listed free) = (ranked n listed).0 free
rank_of_Steps nodes rank ranked (above n {d} listed h p) =
    (ranked n listed).1 d h ∙ ap suc (rank_of_Steps nodes rank ranked p)

pub traverse_graph-rank :
    (nodes : Nodes)
    → IsKeyed nodes
    → (rank : Identifier → ℕ) → IsRanked nodes rank
    → (levels : List (List Identifier)) → (traverse_graph nodes ≡ some levels)
    → (id : Identifier) (i : ℕ) → (has_id id (nth_level i levels) ≡ true)
    → rank id ≡ i
traverse_graph-rank nodes keyed rank ranked levels e id i placed =
    rank_of_Steps nodes rank ranked
      ((traverse_graph-IsShortest nodes keyed levels e id i).0 placed).0

-- If the nodes of a graph have a rank that is 0 without dependencies and else one more than the rank
-- of each dependency, `traverse_graph` places each dependency of a node in the level before its own.
pub traverse_graph-IsRanked :
    (nodes : Nodes)
    → IsKeyed nodes
    → (rank : Identifier → ℕ) → IsRanked nodes rank
    → (levels : List (List Identifier)) → (traverse_graph nodes ≡ some levels)
    → (n : ObjectNode) (d : Identifier) (i j : ℕ) → IsNode n nodes
    → (has_id d n.dependencies ≡ true)
    → (has_id (node_id n) (nth_level i levels) ≡ true)
    → (has_id d (nth_level j levels) ≡ true)
    → i ≡ suc j
traverse_graph-IsRanked nodes keyed rank ranked levels e n d i j listed h placed below =
    let at_i = traverse_graph-rank nodes keyed rank ranked levels e (node_id n) i placed in
    let at_j = traverse_graph-rank nodes keyed rank ranked levels e d j below in
    omega (arith, (ranked n listed).1 d h)

-- `traverse_graph` places a node at most one level behind each of its dependencies, so that it counts
-- from the dependency that stands first.
pub traverse_graph-lowest :
    (nodes : Nodes)
    → IsKeyed nodes
    → (levels : List (List Identifier)) → (traverse_graph nodes ≡ some levels)
    → (n : ObjectNode) (d : Identifier) (i j : ℕ) → IsNode n nodes
    → (has_id d n.dependencies ≡ true)
    → (has_id (node_id n) (nth_level i levels) ≡ true)
    → (has_id d (nth_level j levels) ≡ true)
    → i ≤ suc j
traverse_graph-lowest nodes keyed levels e n d i j listed h placed below =
    ((traverse_graph-IsShortest nodes keyed levels e (node_id n) i).0 placed).1 (suc j)
      (above n listed h ((traverse_graph-IsShortest nodes keyed levels e d j).0 below).0)
