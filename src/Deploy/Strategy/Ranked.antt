-- ===== src/Deploy/Strategy/Ranked.antt =====
-- What a graph that is built level by level has: one node for each identifier, dependencies that are
-- nodes, no cycle, and a rank.
use pyceli.Base.{ℕ, zero, suc, ◌<◌, ◌≡◌, refl, ◌∙◌, ap, inl, inr, true, List, some, arith}
use pyceli.Objects.{Identifier}
use pyceli.Deploy.Graph.{ObjectNode, Nodes, node_id, find_node, Search, ok, validate}
use pyceli.Deploy.Graph.Cycles.{Leads, one, more, IsClosed}
use pyceli.Deploy.Graph.Detect.{validate-Outcome}
use pyceli.Deploy.Graph.Keyed.{IsNode, IsKeyed, Distinct-IsKeyed, has_id-IsNode, find_node-IsNode}
use pyceli.Deploy.Levels.{is_root}
use pyceli.Deploy.Levels.Ends.{root-has_id}
use pyceli.Deploy.Levels.Complete.{IsRanked}
use pyceli.Deploy.Strategy.Extends.{has_id-ids}
use pyceli.Deploy.Strategy.Built.{Built}

IsKeyed-find_node :
    (nodes : Nodes) (n : ObjectNode)
    → IsKeyed nodes
    → IsNode n nodes
    → find_node (node_id n) nodes ≡ some n
IsKeyed-find_node nodes n keyed listed =
    let (m, found) = has_id-ids (node_id n) nodes (has_id-IsNode n nodes listed) in
    let (m_listed, e) = find_node-IsNode (node_id n) nodes m found in
    found ∙ ap some (keyed m n m_listed listed e)

module _ (rank : Identifier → ℕ) (k : ℕ) (last : List Identifier) (g : Nodes)
    (b : Built rank k last g) where
  pub Built-IsKeyed : IsKeyed g
  Built-IsKeyed = Distinct-IsKeyed g b.distinct

  pub Built-IsClosed : IsClosed g
  Built-IsClosed a d n found listed = ((b.depends a n found d).0 listed).0

  lower : {a c : Identifier} → Leads g a c → rank c < rank a
  lower {a} {c} (one (n, found, listed)) = omega (arith, ((b.depends a n found c).0 listed).1)
  lower {a} {c} (more {b = x} p (n, found, listed)) =
      omega (arith, lower p, ((b.depends x n found c).0 listed).1)

  pub Built-validate : (s : Search) × (validate g ≡ ok s)
  Built-validate = elim (validate-Outcome g Built-IsClosed) [
    | inl returned ↦ returned
    | inr (_, (id, p)) ↦ absurd (omega (arith, lower p))
  ]

  root_rank :
      (n : ObjectNode) → IsNode n g → is_root n ≡ true → (r : ℕ) → rank (node_id n) ≡ r → r ≡ 0
  root_rank n listed free zero e = refl
  root_rank n listed free (suc j) e =
      let found = IsKeyed-find_node g n Built-IsKeyed listed in
      let (d, i, at_j) =
        b.inhabited j (omega (arith, b.below (node_id n) (has_id-IsNode n g listed))) in
      let h = (b.depends (node_id n) n found d).1 (i, omega arith) in
      absurd (ground (arith, root-has_id n d h))

  pub Built-IsRanked : IsRanked g rank
  Built-IsRanked n listed = (
    λ free. root_rank n listed free (rank (node_id n)) refl,
    λ d h. ((b.depends (node_id n) n (IsKeyed-find_node g n Built-IsKeyed listed) d).0 h).1,
  )
