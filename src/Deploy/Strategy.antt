-- ===== src/Deploy/Strategy.antt =====
-- piceli/k8s/ops/deploy/strategy_auto.py: the objects are put in levels by their kind, and each depends
-- on all the objects of the level before its own.
pub mod Extends
pub mod Linked
pub mod Adding
pub mod Built
pub mod Ranked
pub mod Classes
pub mod Sorted
pub mod Order
use pyceli.Base.{ℕ, String, str_eq, Bool, List, [], ◌∷◌, ◌++◌, Option, none, some, if◌then◌else◌}
use pyceli.Objects.{Identifier, identifier, K8sObject, has_id}
use pyceli.Deploy.Graph.{
  ObjectNode, Nodes, node_id, pending, add_node, add_id, add_dependencies, Result, ok, ◌>>=◌,
}
use pyceli.Deploy.Levels.{Levels, append_level, sort_levels, members}

-- `DEPLOYMENT_LEVELS`
abbrev pub deployment_levels : Levels String
deployment_levels =
    (0, "Namespace" ∷ [])
    ∷ (
      1,
      "CustomResourceDefinition" ∷ "StorageClass" ∷ "Role" ∷ "ClusterRole" ∷ "ServiceAccount" ∷ [],
    )
    ∷ (2, "RoleBinding" ∷ "ClusterRoleBinding" ∷ [])
    ∷ (3, "Secret" ∷ "ConfigMap" ∷ "PersistentVolume" ∷ [])
    ∷ (4, "PersistentVolumeClaim" ∷ [])
    ∷ (5, "Deployment" ∷ "StatefulSet" ∷ "DaemonSet" ∷ [])
    ∷ (6, "Service" ∷ [])
    ∷ (7, "Job" ∷ "CronJob" ∷ [])
    ∷ (
      8,
      "Ingress" ∷ "NetworkPolicy" ∷ "PodDisruptionBudget" ∷ "HorizontalPodAutoscaler"
          ∷ "VerticalPodAutoscaler" ∷ [],
    )
    ∷ []

-- `KIND_TO_DEPLOYMENT_LEVEL`: a dict, where a later entry of a kind replaces an earlier one
unfoldable pub put_kind : String → ℕ → List (String × ℕ) → List (String × ℕ)
put_kind kind level [] = (kind, level) ∷ []
put_kind kind level ((k, l) ∷ table) =
    if str_eq k kind then (k, level) ∷ table else (k, l) ∷ put_kind kind level table

unfoldable pub put_kinds : ℕ → List String → List (String × ℕ) → List (String × ℕ)
unfolding put_kind
put_kinds level [] table = table
put_kinds level (kind ∷ kinds) table = put_kinds level kinds (put_kind kind level table)

unfoldable pub put_levels : Levels String → List (String × ℕ) → List (String × ℕ)
unfolding put_kinds
put_levels [] table = table
put_levels ((level, kinds) ∷ levels) table = put_levels levels (put_kinds level kinds table)

unfoldable pub kind_to_deployment_level : List (String × ℕ)
unfolding put_levels
kind_to_deployment_level = put_levels deployment_levels []

-- `.get(kind, -1)`: no level is negative, and `none` stands for `-1`.
unfoldable pub get_level : String → List (String × ℕ) → Option ℕ
get_level kind [] = none
get_level kind ((k, l) ∷ table) = if str_eq k kind then some l else get_level kind table

unfoldable pub level_of_kind : String → Option ℕ
unfolding kind_to_deployment_level get_level
level_of_kind kind = get_level kind kind_to_deployment_level

-- One round of `classify_k8s_objects_by_deployment_level`
unfoldable pub classify_one : K8sObject → Levels K8sObject → Levels K8sObject
unfolding level_of_kind append_level
classify_one o classified = elim (level_of_kind o.kind) [
  | none ↦ classified
  | some level ↦ append_level level o classified
]

unfoldable pub classify_from : List K8sObject → Levels K8sObject → Levels K8sObject
unfolding classify_one
classify_from [] classified = classified
classify_from (o ∷ objects) classified = classify_from objects (classify_one o classified)

unfoldable pub classify_k8s_objects_by_deployment_level : List K8sObject → Levels K8sObject
unfolding classify_from
classify_k8s_objects_by_deployment_level objects = classify_from objects []

-- The node of an object. The manager that `ManagerFactory.get_manager` builds holds the object itself.
abbrev pub node_of : K8sObject → ObjectNode
node_of o = record {
  deploying_object = o;
  dependencies = [];
  previous_object = none;
  deployment_status = pending;
}

-- The loop over the objects of one level: the graph and `current_level_identifiers`
unfoldable pub add_objects : List K8sObject → Nodes × List Identifier → Nodes × List Identifier
unfolding add_node
add_objects [] (nodes, current) = (nodes, current)
add_objects (o ∷ objects) (nodes, current) =
    add_objects objects (add_node (node_of o) nodes, add_id (identifier o) current)

-- The loop over the levels, with `previous_level_identifiers`
unfoldable pub build_levels : List (List K8sObject) → List Identifier → Nodes → Result Nodes
unfolding add_objects add_dependencies
build_levels [] previous nodes = ok nodes
build_levels (objects ∷ levels) previous nodes =
    let (nodes', current) = add_objects objects (nodes, []) in
    (add_dependencies current previous nodes' >>= λ linked. build_levels levels current linked)

-- `StrategyAuto.build_deployment_graph`
unfoldable pub build_deployment_graph : List K8sObject → Result Nodes
unfolding build_levels sort_levels classify_k8s_objects_by_deployment_level
build_deployment_graph objects =
    build_levels (members (sort_levels (classify_k8s_objects_by_deployment_level objects))) [] []
