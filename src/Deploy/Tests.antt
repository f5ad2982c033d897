-- ===== src/Deploy/Tests.antt =====
-- Runs of the deployment graph, and the theorems of the folder at concrete inputs.
use pyceli.Base.{
  ◌<◌, ◌≡◌, refl, ◌↔◌, ◌⊎◌, inl, inr, true, false, [], ◌∷◌, List, none, some, arith, ℕ, suc, ◌≤◌,
  sym, subst, if◌then◌else◌,
}
use pyceli.Objects.{Identifier, identifier, K8sObject, has_id, id_eq, id_eq_iff}
use pyceli.Compare.Value.{end}
use pyceli.Deploy.Graph.{
  ObjectNode, Nodes, node_id, find_node, ids, pending, Search, ok, err, cycle_detected,
  missing_dependency, add_node, add_dependency, add_dependencies, validate,
}
use pyceli.Deploy.Graph.Cycles.{Leads, IsClosed, validate-acyclic}
use pyceli.Deploy.Graph.Detect.{validate-Outcome}
use pyceli.Deploy.Levels.{traverse_graph, is_root}
use pyceli.Deploy.Levels.Ends.{traverse_graph-returns}
use pyceli.Deploy.Graph.Keyed.{IsNode, IsKeyed, Distinct-IsKeyed, IsNode-IsClosed}
use pyceli.Deploy.Levels.Keys.{nth_level}
use pyceli.Deploy.Levels.Shortest.{IsShortest, traverse_graph-IsShortest}
use pyceli.Deploy.Levels.Complete.{IsRanked, traverse_graph_complete, traverse_graph-lowest}
use pyceli.Deploy.Strategy.{
  level_of_kind, classify_k8s_objects_by_deployment_level, build_deployment_graph,
}
use pyceli.Deploy.Strategy.Order.{
  build_deployment_graph_validates, object_placed, object_order, object_dropped,
}

abbrev role : Identifier
role = record { name = "reader"; kind = "Role"; namespace = none }

abbrev binding : Identifier
binding = record { name = "reads"; kind = "RoleBinding"; namespace = none }

abbrev job : Identifier
job = record { name = "report"; kind = "Job"; namespace = none }

abbrev object : Identifier → K8sObject
object id = record { spec = end; name = id.name; kind = id.kind; namespace = id.namespace }

abbrev node : Identifier → List Identifier → ObjectNode
node id deps = record {
  deploying_object = object id;
  dependencies = deps;
  previous_object = none;
  deployment_status = pending;
}

-- The binding needs the role, and the job needs the binding.
abbrev chain : Nodes
chain = node role [] ∷ node binding (role ∷ []) ∷ node job (binding ∷ []) ∷ []

abbrev ring : Nodes
ring = node role (binding ∷ []) ∷ node binding (role ∷ []) ∷ []

-- The job needs the role, too.
abbrev triangle : Nodes
triangle = node role [] ∷ node binding (role ∷ []) ∷ node job (binding ∷ role ∷ []) ∷ []

add_dependency_missing : add_dependency role job ring ≡ err missing_dependency
unfolding add_dependency has_id id_eq
add_dependency_missing = refl

add_dependencies_chain :
    add_dependencies
      (binding ∷ [])
      (role ∷ [])
      (add_node (node binding []) (add_node (node role []) []))
    ≡ ok (node role [] ∷ node binding (role ∷ []) ∷ [])
unfolding add_dependencies add_node has_id id_eq
add_dependencies_chain = refl

validate-ring : validate ring ≡ err cycle_detected
unfolding validate has_id find_node id_eq
validate-ring = refl

abbrev searched : Search
searched = record { visited = job ∷ binding ∷ role ∷ []; stack = [] }

validate-chain : validate chain ≡ ok searched
unfolding validate has_id find_node id_eq
validate-chain = refl

abbrev chain_levels : List (List Identifier)
chain_levels = (role ∷ []) ∷ (binding ∷ []) ∷ (job ∷ []) ∷ []

traverse_graph-chain : traverse_graph chain ≡ some chain_levels
unfolding traverse_graph has_id id_eq
traverse_graph-chain = refl

-- The job stands beside the binding that it needs.
abbrev triangle_levels : List (List Identifier)
triangle_levels = (role ∷ []) ∷ (binding ∷ job ∷ []) ∷ []

traverse_graph-triangle : traverse_graph triangle ≡ some triangle_levels
unfolding traverse_graph has_id id_eq
traverse_graph-triangle = refl

chain-IsKeyed : IsKeyed chain
unfolding has_id id_eq
chain-IsKeyed = Distinct-IsKeyed chain (refl, (refl, (refl, tt)))

triangle-IsKeyed : IsKeyed triangle
unfolding has_id id_eq
triangle-IsKeyed = Distinct-IsKeyed triangle (refl, (refl, (refl, tt)))

ring-IsClosed : IsClosed ring
unfolding has_id
ring-IsClosed = IsNode-IsClosed ring listed
  where
    listed :
        (n : ObjectNode)
        → IsNode n ring
        → (d : Identifier) → has_id d n.dependencies ≡ true
        → has_id d (ids ring) ≡ true
    listed n (inl e) d h = ground (arith, subst (λ m. has_id d m.dependencies ≡ true) (sym e) h)
    listed n (inr (inl e)) d h =
        ground (arith, subst (λ m. has_id d m.dependencies ≡ true) (sym e) h)
    listed n (inr (inr e)) d h = absurd e

abbrev chain_rank : Identifier → ℕ
chain_rank id = if id_eq id role then 0 else if id_eq id binding then 1 else 2

only : (x d : Identifier) → has_id d (x ∷ []) ≡ true → x ≡ d
unfolding has_id
only x d h = (id_eq_iff x d).0 (ground arith)

abbrev Fits : ObjectNode → Type 0
Fits n =
    ((is_root n ≡ true) → chain_rank (node_id n) ≡ 0)
    × ((d : Identifier)
        → has_id d n.dependencies ≡ true
        → chain_rank (node_id n) ≡ suc (chain_rank d))

chain-IsRanked : IsRanked chain chain_rank
unfolding has_id id_eq
chain-IsRanked n (inl e) = subst Fits e (λ _. refl, λ d h. absurd (ground arith))
chain-IsRanked n (inr (inl e)) =
    subst Fits e
      (λ h. absurd (ground arith), λ d h. subst (λ i. 1 ≡ suc (chain_rank i)) (only role d h) refl)
chain-IsRanked n (inr (inr (inl e))) =
    subst Fits e (
      λ h. absurd (ground arith),
      λ d h. subst (λ i. 2 ≡ suc (chain_rank i)) (only binding d h) refl,
    )
chain-IsRanked n (inr (inr (inr e))) = absurd e

validate-acyclic_example : ¬ Leads chain job job
unfolding has_id id_eq
validate-acyclic_example = validate-acyclic chain searched validate-chain job refl

validate-Outcome_example :
    ((s : Search) × (validate ring ≡ ok s))
    ⊎ ((validate ring ≡ err cycle_detected) × ((id : Identifier) × Leads ring id id))
validate-Outcome_example = validate-Outcome ring ring-IsClosed

traverse_graph-returns_example :
    (levels : List (List Identifier)) × (traverse_graph ring ≡ some levels)
traverse_graph-returns_example = traverse_graph-returns ring

traverse_graph-IsShortest_example :
    (has_id job (nth_level 1 triangle_levels) ≡ true) ↔ IsShortest triangle job 1
traverse_graph-IsShortest_example =
    traverse_graph-IsShortest triangle triangle-IsKeyed triangle_levels traverse_graph-triangle job
      1

traverse_graph_complete_example :
    (i : ℕ) × (has_id binding (nth_level i chain_levels) ≡ true)
    × ((j : ℕ) → has_id binding (nth_level j chain_levels) ≡ true → j ≡ i)
unfolding has_id id_eq
traverse_graph_complete_example =
    traverse_graph_complete chain chain-IsKeyed searched validate-chain chain_levels
      traverse_graph-chain binding refl

traverse_graph-lowest_example : 1 ≤ suc 1
unfolding has_id id_eq
traverse_graph-lowest_example =
    traverse_graph-lowest triangle triangle-IsKeyed triangle_levels traverse_graph-triangle
      (node job (binding ∷ role ∷ [])) binding 1 1 (inr (inr (inl refl))) refl refl refl

-- The strategy sorts the objects by their kinds and leaves out a kind that it does not know.
abbrev pod : Identifier
pod = record { name = "shell"; kind = "Pod"; namespace = none }

abbrev stack : List K8sObject
stack = object job ∷ object pod ∷ object binding ∷ object role ∷ []

build_deployment_graph-stack : build_deployment_graph stack ≡ ok chain
unfolding build_deployment_graph classify_k8s_objects_by_deployment_level level_of_kind has_id id_eq
build_deployment_graph-stack = refl

level_of_kind-job : level_of_kind "Job" ≡ some 7
unfolding level_of_kind
level_of_kind-job = refl

level_of_kind-role : level_of_kind "Role" ≡ some 1
unfolding level_of_kind
level_of_kind-role = refl

build_deployment_graph_validates_example :
    (nodes : Nodes) × (s : Search) × (build_deployment_graph stack ≡ ok nodes)
    × (validate nodes ≡ ok s)
build_deployment_graph_validates_example = build_deployment_graph_validates stack

object_placed_example :
    (p : ℕ) × (has_id job (nth_level p chain_levels) ≡ true)
    × ((q : ℕ) → has_id job (nth_level q chain_levels) ≡ true → q ≡ p)
object_placed_example =
    object_placed stack chain build_deployment_graph-stack chain_levels traverse_graph-chain
      (object job) 7 (inl refl) level_of_kind-job

object_order_example : 0 < 2
unfolding has_id id_eq
object_order_example =
    object_order stack chain build_deployment_graph-stack chain_levels traverse_graph-chain
      (object role) (object job) 1 7 0 2 (inr (inr (inr (inl refl)))) level_of_kind-role
      level_of_kind-job (omega arith) refl refl

level_of_kind-pod : level_of_kind "Pod" ≡ none
unfolding level_of_kind
level_of_kind-pod = refl

object_dropped_example :
    (nodes : Nodes) × (s : Search) × (levels : List (List Identifier)) × (build_deployment_graph
        (object pod ∷ stack)
      ≡ ok nodes)
    × (validate nodes ≡ ok s)
    × (traverse_graph nodes ≡ some levels)
    × ((p : ℕ) → has_id (identifier (object pod)) (nth_level p levels) ≡ false)
object_dropped_example = object_dropped (object pod ∷ stack) (object pod) level_of_kind-pod
