-- ===== src/Deploy/Graph/Keyed.antt =====
-- The nodes of the graph by their identifiers, as the dict holds them.
use pyceli.Base.{
  ◌≡◌, sym, ◌∙◌, ap, subst, inl, inr, Bool-cases, true, false, List, [], ◌∷◌, some, arith, Any,
}
use pyceli.Objects.{Identifier, id_eq, id_eq_iff, id_eq_self, has_id}
use pyceli.Deploy.Graph.{ObjectNode, Nodes, node_id, ids, find_node}
use pyceli.Deploy.Graph.Cycles.{IsClosed}

abbrev pub IsNode : ObjectNode → Nodes → Type 0
IsNode n nodes = Any (λ m. m ≡ n) nodes

-- `DeploymentGraph.nodes` is a dict: two nodes with the same identifier are the same node.
abbrev pub IsKeyed : Nodes → Type 0
IsKeyed nodes = (n m : ObjectNode) → IsNode n nodes → IsNode m nodes → node_id n ≡ node_id m → n ≡ m

abbrev pub Distinct : List Identifier → Type 0
Distinct [] = Unit
Distinct (x ∷ xs) = (has_id x xs ≡ false) × Distinct xs

pub has_id-IsNode :
    (n : ObjectNode) (nodes : Nodes) → IsNode n nodes → has_id (node_id n) (ids nodes) ≡ true
unfolding has_id
has_id-IsNode n [] listed = absurd listed
has_id-IsNode n (m ∷ nodes) (inl same) = rw same (ground (arith, id_eq_self (node_id n)))
has_id-IsNode n (m ∷ nodes) (inr listed) = ground (arith, has_id-IsNode n nodes listed)

pub Distinct-IsKeyed : (nodes : Nodes) → Distinct (ids nodes) → IsKeyed nodes
Distinct-IsKeyed (x ∷ nodes) d n m (inl a) (inl b) e = sym a ∙ b
Distinct-IsKeyed (x ∷ nodes) d n m (inl a) (inr b) e = absurd (
    ground (
      arith,
      d.0,
      subst (λ i. has_id i (ids nodes) ≡ true) (sym (ap node_id a ∙ e)) (has_id-IsNode m nodes b),
    ))
Distinct-IsKeyed (x ∷ nodes) d n m (inr a) (inl b) e = absurd (
    ground (
      arith,
      d.0,
      subst (λ i. has_id i (ids nodes) ≡ true) (sym (ap node_id b ∙ sym e))
          (has_id-IsNode n nodes a),
    ))
Distinct-IsKeyed (x ∷ nodes) d n m (inr a) (inr b) e = Distinct-IsKeyed nodes d.1 n m a b e
Distinct-IsKeyed [] d n m a b e = absurd a

pub find_node-IsNode :
    (id : Identifier) (nodes : Nodes) (n : ObjectNode)
    → (find_node id nodes ≡ some n)
    → IsNode n nodes × (node_id n ≡ id)
unfolding find_node
find_node-IsNode id [] n e = absurd (ground arith)
find_node-IsNode id (m ∷ nodes) n e = elim (Bool-cases (id_eq (node_id m) id)) [
  | inl same ↦
      let found : some m ≡ some n = rw same at e in
      let first : m ≡ n = cc in
      (inl first, ap node_id (sym first) ∙ (id_eq_iff (node_id m) id).0 same)
  | inr other ↦ let (listed, e') = find_node-IsNode id nodes n (rw other at e) in (inr listed, e')
]

pub IsNode-IsClosed :
    (nodes : Nodes)
    → ((n : ObjectNode)
        → IsNode n nodes
        → (d : Identifier) → has_id d n.dependencies ≡ true
        → has_id d (ids nodes) ≡ true)
    → IsClosed nodes
IsNode-IsClosed nodes h a b n found listed = h n (find_node-IsNode a nodes n found).0 b listed
