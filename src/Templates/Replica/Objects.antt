-- ===== src/Templates/Replica/Objects.antt =====
-- `ReplicaManager.get` of piceli/k8s/templates/auxiliary/replica_manager.py, with the `get` of
-- deployable/service.py and of both classes of deployable/autoscaler.py.
use pyceli.Base.{ℕ, String, Bool, true, false, List, [], ◌∷◌, ◌++◌, Option, none, some}
use pyceli.Manager.Client.{value_error, Outcome, ok, err}
use pyceli.Templates.Raise.{◌>>=◌}
use pyceli.Templates.Volume.{Labels}
use pyceli.Templates.Container.{Resources}
use pyceli.Templates.Pod.{ModelLib}
use pyceli.Templates.Replica.{
  FieldLib, ServicePort, Service, Hpa, Vpa, HorizontalPodAutoscaler, VerticalPodAutoscaler,
  ReplicaManager, ReplicaObject, get_replica_manager, get_service, make_hpa, make_vpa,
}

-- `V1Service`
pub record ServiceObject : Type 0 where
  pub name : String
  pub labels : Labels
  pub ports : List ServicePort
  pub service_type : String
  pub selector : List (String × String)

-- `Service.get`
abbrev pub service_object : Service → ServiceObject
service_object s = record {
  name = s.name;
  labels = s.labels;
  ports = s.ports;
  service_type = "ClusterIP";
  selector = s.selector;
}

-- `V2HorizontalPodAutoscaler`, with its one metric, the use of the processor
pub record HpaObject : Type 0 where
  pub name : String
  pub labels : Labels
  pub target_kind : String
  pub target_name : String
  pub min_replicas : ℕ
  pub max_replicas : ℕ
  pub average_utilization : ℕ

-- `HorizontalPodAutoscaler.get`
abbrev pub hpa_object : HorizontalPodAutoscaler → HpaObject
hpa_object h = record {
  name = h.name;
  labels = h.labels;
  target_kind = h.target_kind;
  target_name = h.target_name;
  min_replicas = h.min_replicas;
  max_replicas = h.max_replicas;
  average_utilization = h.target_cpu_utilization_percentage;
}

-- The dict of a vertical autoscaler
pub record VpaObject : Type 0 where
  pub name : String
  pub target_kind : String
  pub target_name : String
  pub container_name : Option String
  pub min_allowed : List (String × Option String)
  pub max_allowed : List (String × Option String)
  pub update_mode : String
  pub controlled_resources : Option (List String)

-- `to_dict`, less the ephemeral storage
abbrev allowed : Resources → List (String × Option String)
allowed r = ("memory", r.memory) ∷ ("cpu", r.cpu) ∷ []

-- `controlledResources`, where one of the two is not controlled
abbrev pub controlled : Bool → Bool → Outcome (Option (List String))
controlled false false = err value_error
controlled true false = ok (some ("cpu" ∷ []))
controlled false true = ok (some ("memory" ∷ []))
controlled true true = ok none

-- `VerticalPodAutoscaler.get`: an object of resources counts as true.
unfoldable pub vpa_object : VerticalPodAutoscaler → Outcome VpaObject
vpa_object v = do
  resources ← controlled v.control_cpu v.control_memory
  ok (record {
    name = v.name;
    target_kind = v.target_kind;
    target_name = v.target_name;
    container_name = v.container_name;
    min_allowed = allowed v.min_allowed;
    max_allowed = allowed v.max_allowed;
    update_mode = "Auto";
    controlled_resources = resources;
  })

pub data ReplicaItem : Type 0 where
  replica_item : ReplicaObject → ReplicaItem
  service_item : ServiceObject → ReplicaItem
  hpa_item : HpaObject → ReplicaItem
  vpa_item : VpaObject → ReplicaItem

module _ (lib : ModelLib) (fields : FieldLib) where
  unfoldable pub service_items : ReplicaManager → Bool → Outcome (List ReplicaItem)
  unfolding get_service
  service_items r false = ok []
  service_items r true = do s ← get_service lib fields r; ok (service_item (service_object s) ∷ [])

  unfoldable pub hpa_items : ReplicaManager → Option Hpa → Outcome (List ReplicaItem)
  unfolding make_hpa
  hpa_items r none = ok []
  hpa_items r (some h) = do made ← make_hpa lib fields r h; ok (hpa_item (hpa_object made) ∷ [])

  unfoldable pub vpa_items : ReplicaManager → Option Vpa → Outcome (List ReplicaItem)
  unfolding make_vpa vpa_object
  vpa_items r none = ok []
  vpa_items r (some v) = do
    made ← make_vpa lib fields r v
    object ← vpa_object made
    ok (vpa_item object ∷ [])

  -- `ReplicaManager.get`
  unfoldable pub get_objects : ReplicaManager → Outcome (List ReplicaItem)
  unfolding get_replica_manager service_items hpa_items vpa_items
  get_objects r = do
    object ← get_replica_manager lib r
    services ← service_items r r.create_service
    hpas ← hpa_items r r.hpa
    vpas ← vpa_items r r.vpa
    ok (replica_item object ∷ services ++ (hpas ++ vpas))
