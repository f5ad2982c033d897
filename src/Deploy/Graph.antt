-- ===== src/Deploy/Graph.antt =====
-- piceli/k8s/ops/deploy/deployment_graph.py: nodes with their dependencies, the search for cycles,
-- and the levels that are deployed one after the other.
pub mod Cycles
pub mod Detect
pub mod Keyed
use pyceli.Base.{
  ℕ, zero, suc, ◌+◌, ltb, ◌==◌, String, Bool, true, false, not, ◌||◌, List, [], ◌∷◌, ◌++◌, map,
  length, Option, none, some, if◌then◌else◌,
}
use pyceli.Objects.{Identifier, id_eq, has_id, K8sObject, identifier}

pub data DeploymentStatus : Type 0 where
  pending no_action_needed done failed rolled_back : DeploymentStatus

-- `ObjectNode`. `dependencies` is a set, here the list of its members.
pub record ObjectNode : Type 0 where
  pub deploying_object : K8sObject
  pub dependencies : List Identifier
  pub previous_object : Option K8sObject
  pub deployment_status : DeploymentStatus

abbrev pub node_id : ObjectNode → Identifier
node_id n = identifier n.deploying_object

-- `DeploymentGraph.nodes`: a dict, in order. Each key is the identifier of its node.
abbrev pub Nodes : Type 0
Nodes = List ObjectNode

-- `nodes.get(id)`
unfoldable pub find_node : Identifier → Nodes → Option ObjectNode
find_node id [] = none
find_node id (n ∷ ns) = if id_eq (node_id n) id then some n else find_node id ns

abbrev pub ids : Nodes → List Identifier
ids [] = []
ids (n ∷ ns) = node_id n ∷ ids ns

-- `add_node`: `nodes[node.identifier] = node`
unfoldable pub add_node : ObjectNode → Nodes → Nodes
add_node node [] = node ∷ []
add_node node (n ∷ ns) =
    if id_eq (node_id n) (node_id node) then node ∷ ns else n ∷ add_node node ns

-- The exceptions of the graph. `out_of_fuel` belongs to the model only.
pub data Error : Type 0 where
  missing_dependency missing_node cycle_detected key_error out_of_fuel : Error

pub data Result (A : Type 0) : Type 0 where
  ok : A → Result A
  err : Error → Result A

infixl 5 ◌>>=◌
abbrev pub ◌>>=◌ : {A B : Type 0} → Result A → (A → Result B) → Result B
ok a >>= f = f a
err e >>= f = err e

-- `dependencies.add(id)`
abbrev pub add_id : Identifier → List Identifier → List Identifier
add_id id xs = if has_id id xs then xs else xs ++ id ∷ []

abbrev pub depend_on : Identifier → ObjectNode → ObjectNode
depend_on to n = record n { dependencies = add_id to n.dependencies }

-- `self.nodes[from_identifier].dependencies.add(to_identifier)`, for a key that is there
unfoldable pub update_node : Identifier → (ObjectNode → ObjectNode) → Nodes → Nodes
update_node id f [] = []
update_node id f (n ∷ ns) = if id_eq (node_id n) id then f n ∷ ns else n ∷ update_node id f ns

unfoldable pub add_dependency : Identifier → Identifier → Nodes → Result Nodes
unfolding update_node
add_dependency from to nodes =
    if not (has_id to (ids nodes))
    then err missing_dependency
    else if not (has_id from (ids nodes))
    then err missing_node
    else if id_eq from to
    then ok nodes
    else ok (update_node from (depend_on to) nodes)

-- `add_dependencies`: the inner loop and the outer loop
unfoldable pub add_each : Identifier → List Identifier → Nodes → Result Nodes
unfolding add_dependency
add_each from [] nodes = ok nodes
add_each from (to ∷ tos) nodes = do nodes' ← add_dependency from to nodes; add_each from tos nodes'

unfoldable pub add_dependencies : List Identifier → List Identifier → Nodes → Result Nodes
unfolding add_each
add_dependencies [] tos nodes = ok nodes
add_dependencies (from ∷ froms) tos nodes = do
  nodes' ← add_each from tos nodes
  add_dependencies froms tos nodes'

-- The two sets of `validate`
pub record Search : Type 0 where
  pub visited : List Identifier
  pub stack : List Identifier

-- `stack.remove(id)`, for an id that is in it once
abbrev pub remove_id : Identifier → List Identifier → List Identifier
remove_id id [] = []
remove_id id (x ∷ xs) = if id_eq x id then xs else x ∷ remove_id id xs

abbrev pub enter : Identifier → Search → Search
enter id s = record { visited = id ∷ s.visited; stack = id ∷ s.stack }

abbrev pub leave : Identifier → Search → Search
leave id s = record s { stack = remove_id id s.stack }

-- The loop over the dependencies, and over the nodes, with `visit` as `go`
unfoldable pub visit_each :
    (Search → Identifier → Result Search) → List Identifier → Search → Result Search
visit_each go [] s = ok s
visit_each go (id ∷ more) s = do s' ← go s id; visit_each go more s'

-- `self.nodes[node_id].dependencies`
unfoldable pub dependencies_of : Identifier → Nodes → Result (List Identifier)
unfolding find_node
dependencies_of id nodes = elim (find_node id nodes) [
  | some n ↦ ok n.dependencies
  | none ↦ err key_error
]

-- The inner function `visit`. Each call that goes on marks one more node as visited.
unfoldable pub visit : Nodes → ℕ → Search → Identifier → Result Search
unfolding visit_each dependencies_of
visit nodes zero s id = err out_of_fuel
visit nodes (suc n) s id =
    if has_id id s.stack
    then err cycle_detected
    else if has_id id s.visited
    then ok s
    else (dependencies_of id nodes >>= λ deps.
        visit_each (visit nodes n) deps (enter id s) >>= λ s'. ok (leave id s'))

-- `validate`: `ok` if it returns
unfoldable pub validate : Nodes → Result Search
unfolding visit
validate nodes =
    visit_each (visit nodes (suc (length nodes))) (ids nodes) (record { visited = []; stack = [] })
