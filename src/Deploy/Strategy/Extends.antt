-- ===== src/Deploy/Strategy/Extends.antt =====
-- What the operations of the graph do to its dict of nodes, looked up by identifier.
use pyceli.Base.{
  ◌≡◌, refl, ap, subst, inl, inr, Bool-cases, true, false, ◌||◌, List, [], ◌∷◌, none, some, arith,
  if◌then◌else◌,
}
use pyceli.Objects.{Identifier, id_eq, id_eq_iff, has_id}
use pyceli.Deploy.Graph.{
  ObjectNode, Nodes, node_id, find_node, ids, add_node, add_id, depend_on, update_node,
}
use pyceli.Deploy.Graph.Keyed.{Distinct}
use pyceli.Deploy.Levels.Steps.{has_id-append}

pub has_id-add_id :
    (x id : Identifier) (xs : List Identifier)
    → has_id id (add_id x xs) ≡ (has_id id xs || id_eq x id)
unfolding has_id
has_id-add_id x id xs = elim (Bool-cases (has_id x xs)) [
  | inr fresh ↦ rw fresh (has_id-append xs x id)
  | inl listed ↦ rw listed (elim (Bool-cases (id_eq x id)) [
    | inr other ↦ ground arith
    | inl same ↦
        rw same (ground (arith, subst (λ i. has_id i xs ≡ true) ((id_eq_iff x id).0 same) listed))
  ])
]

pub has_id-ids :
    (id : Identifier) (nodes : Nodes)
    → (has_id id (ids nodes) ≡ true)
    → (n : ObjectNode) × (find_node id nodes ≡ some n)
unfolding has_id find_node
has_id-ids id [] h = absurd (ground arith)
has_id-ids id (m ∷ nodes) h = elim (Bool-cases (id_eq (node_id m) id)) [
  | inl same ↦ (m, rw same)
  | inr other ↦ rw other (has_id-ids id nodes (ground arith))
]

pub find_node-ids :
    (id : Identifier) (nodes : Nodes) (n : ObjectNode)
    → (find_node id nodes ≡ some n)
    → has_id id (ids nodes) ≡ true
unfolding has_id find_node
find_node-ids id [] n h = absurd (ground arith)
find_node-ids id (m ∷ nodes) n h = ground (arith, find_node-ids id nodes n)

pub find_node-add_node :
    (id : Identifier) (n : ObjectNode) (nodes : Nodes)
    → find_node id (add_node n nodes)
      ≡ (if id_eq (node_id n) id then some n else find_node id nodes)
unfolding find_node add_node
find_node-add_node id n [] = refl
find_node-add_node id n (m ∷ nodes) = ground (
  arith,
  find_node-add_node id n nodes,
  id_eq_iff (node_id m) (node_id n),
  id_eq_iff (node_id m) id,
  id_eq_iff (node_id n) id,
)

pub find_node-update_node :
    (id from to : Identifier) (nodes : Nodes)
    → find_node id (update_node from (depend_on to) nodes) ≡ (
        if id_eq from id
        then elim (find_node id nodes) [ none ↦ none | some n ↦ some (depend_on to n) ]
        else find_node id nodes)
unfolding find_node update_node
find_node-update_node id from to [] = ground arith
find_node-update_node id from to (m ∷ nodes) = ground (
  arith,
  find_node-update_node id from to nodes,
  id_eq_iff (node_id m) from,
  id_eq_iff (node_id m) id,
  id_eq_iff from id,
)

pub ids-update_node :
    (from to : Identifier) (nodes : Nodes) → ids (update_node from (depend_on to) nodes) ≡ ids nodes
unfolding update_node
ids-update_node from to [] = refl
ids-update_node from to (m ∷ nodes) = elim (Bool-cases (id_eq (node_id m) from)) [
  | inl same ↦ rw same refl
  | inr other ↦ rw other (ap (λ xs. node_id m ∷ xs) (ids-update_node from to nodes))
]

pub has_id-add_node :
    (id : Identifier) (n : ObjectNode) (nodes : Nodes)
    → has_id id (ids (add_node n nodes)) ≡ (has_id id (ids nodes) || id_eq (node_id n) id)
unfolding has_id add_node
has_id-add_node id n [] = ground arith
has_id-add_node id n (m ∷ nodes) = ground (
  arith,
  has_id-add_node id n nodes,
  id_eq_iff (node_id m) (node_id n),
  id_eq_iff (node_id m) id,
  id_eq_iff (node_id n) id,
)

pub Distinct-add_node :
    (n : ObjectNode) (nodes : Nodes) → Distinct (ids nodes) → Distinct (ids (add_node n nodes))
unfolding add_node has_id
Distinct-add_node n [] d = (refl, tt)
Distinct-add_node n (m ∷ nodes) d = elim (Bool-cases (id_eq (node_id m) (node_id n))) [
  | inl same ↦ rw same (
    subst (λ i. has_id i (ids nodes) ≡ false) ((id_eq_iff (node_id m) (node_id n)).0 same) d.0,
    d.1,
  )
  | inr other ↦ rw other (
    ground (
      arith,
      d.0,
      has_id-add_node (node_id m) n nodes,
      id_eq_iff (node_id m) (node_id n),
      id_eq_iff (node_id n) (node_id m),
    ),
    Distinct-add_node n nodes d.1,
  )
]
