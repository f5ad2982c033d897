-- ===== src/Templates/Replica.antt =====
-- piceli/k8s/templates: auxiliary/replica_manager.py with deployable/deployment.py, stateful_set.py, service.py
-- and autoscaler.py. What pydantic does with None in a field that must have a value is a parameter; the ranges
-- that it checks are left out.
pub mod Objects
pub mod GoesWith
pub mod Consistent
mod Tests
use pyceli.Base.{ℕ, zero, suc, String, Bool, true, false, List, [], ◌∷◌, ◌++◌, Option, none, some}
use pyceli.Manager.Client.{attribute_error, Outcome, ok, err}
use pyceli.Templates.Raise.{◌>>=◌}
use pyceli.Templates.Volume.{Labels, VolumeMount, pvc_template, ClaimObject, get_template}
use pyceli.Templates.Container.{Port, Container, Resources, or_empty}
use pyceli.Templates.Pod.{Pod, PodTemplate, ModelLib, get_pod_spec}

-- A field that must have a value, as pydantic checks it
pub record FieldLib : Type 1 where
  pub required : {A : Type 0} → Option A → Outcome A

-- `ServicePort`, and the `V1ServicePort` of the same fields
pub record ServicePort : Type 0 where
  pub name : String
  pub port : ℕ
  pub target_port : ℕ

pub record Service : Type 0 where
  pub name : String
  pub ports : List ServicePort
  pub selector : List (String × String)
  pub labels : Labels

pub record Hpa : Type 0 where
  pub min_replicas : ℕ
  pub max_replicas : ℕ
  pub target_cpu_utilization_percentage : ℕ

pub record Vpa : Type 0 where
  pub min_allowed : Resources
  pub max_allowed : Resources
  pub control_cpu : Bool
  pub control_memory : Bool

pub record HorizontalPodAutoscaler : Type 0 where
  pub name : String
  pub target_kind : String
  pub target_name : String
  pub min_replicas : ℕ
  pub max_replicas : ℕ
  pub target_cpu_utilization_percentage : ℕ
  pub labels : Labels

pub record VerticalPodAutoscaler : Type 0 where
  pub name : String
  pub target_kind : String
  pub target_name : String
  pub container_name : Option String
  pub min_allowed : Resources
  pub max_allowed : Resources
  pub control_cpu : Bool
  pub control_memory : Bool

-- The subclass: `Deployment` or `StatefulSet`
pub data ReplicaClass : Type 0 where
  deployment stateful_set : ReplicaClass

-- The fields of the pod that the manager is, and its own
pub record ReplicaManager : Type 0 where
  pub replica_class : ReplicaClass
  pub pod : Pod
  pub replicas : ℕ
  pub create_service : Bool
  pub hpa : Option Hpa
  pub vpa : Option Vpa
  pub labels : Labels

-- `V1Deployment` and `V1StatefulSet`, with what the code gives them
pub record ReplicaObject : Type 0 where
  pub kind : Option String
  pub name : String
  pub labels : Labels
  pub replicas : ℕ
  pub template : PodTemplate
  pub match_labels : Labels
  pub strategy : Option String
  pub volume_claim_templates : List ClaimObject
  pub service_name : Option String

-- `p.target_port or p.port`
abbrev pub target_or : Option ℕ → ℕ → ℕ
target_or none port = port
target_or (some zero) port = port
target_or (some (suc n)) port = suc n

abbrev service_ports : List Port → List ServicePort
service_ports [] = []
service_ports (p ∷ more) =
    record { name = p.name; port = p.port; target_port = target_or p.target_port p.port }
    ∷ service_ports more

-- `ReplicaManager.ports`
abbrev pub container_ports : List Container → List ServicePort
container_ports [] = []
container_ports (c ∷ more) = service_ports (or_empty c.ports) ++ container_ports more

-- The claim templates of `StatefulSet.get_replica_manager`
abbrev mount_templates : List VolumeMount → List ClaimObject
mount_templates [] = []
mount_templates (pvc_template path t sub ∷ more) = get_template t ∷ mount_templates more
mount_templates (v ∷ more) = mount_templates more

abbrev pub pvc_templates : List Container → List ClaimObject
pvc_templates [] = []
pvc_templates (c ∷ more) = mount_templates (or_empty c.volumes) ++ pvc_templates more

module _ (lib : ModelLib) where
  -- `get_replica_manager` of each subclass
  abbrev replica_object : ReplicaManager → ReplicaClass → PodTemplate → ReplicaObject
  replica_object r deployment template = record {
    kind = some "Deployment";
    name = r.pod.name;
    labels = r.labels;
    replicas = r.replicas;
    template = template;
    match_labels = template.labels;
    strategy = some "Recreate";
    volume_claim_templates = [];
    service_name = none;
  }
  replica_object r stateful_set template = record {
    kind = none;
    name = r.pod.name;
    labels = r.labels;
    replicas = r.replicas;
    template = template;
    match_labels = template.labels;
    strategy = none;
    volume_claim_templates = pvc_templates r.pod.containers;
    service_name = some r.pod.name;
  }

  unfoldable pub get_replica_manager : ReplicaManager → Outcome ReplicaObject
  unfolding get_pod_spec
  get_replica_manager r = do
    template ← get_pod_spec lib r.pod
    ok (replica_object r r.replica_class template)

module _ (lib : ModelLib) (fields : FieldLib) where
  abbrev service_for : ReplicaManager → List ServicePort → Outcome Service
  service_for r [] = err attribute_error
  service_for r (p ∷ more) = do
    template ← get_pod_spec lib r.pod
    selector ← fields.required template.labels
    ok (record { name = r.pod.name; ports = p ∷ more; selector = selector; labels = none })

  -- `ReplicaManager.get_service`
  unfoldable pub get_service : ReplicaManager → Outcome Service
  get_service r = service_for r (container_ports r.pod.containers)

  -- `ReplicaManager.target_kind`, as a field of an autoscaler takes it
  unfoldable pub target_kind : ReplicaManager → Outcome String
  unfolding get_replica_manager
  target_kind r = do object ← get_replica_manager lib r; fields.required object.kind

  -- `HPA.get_hpa`
  unfoldable pub make_hpa : ReplicaManager → Hpa → Outcome HorizontalPodAutoscaler
  unfolding target_kind
  make_hpa r h = do
    kind ← target_kind r
    ok (record {
      name = r.pod.name;
      target_kind = kind;
      target_name = r.pod.name;
      min_replicas = h.min_replicas;
      max_replicas = h.max_replicas;
      target_cpu_utilization_percentage = h.target_cpu_utilization_percentage;
      labels = none;
    })

  -- `VPA.get_vpa`
  unfoldable pub make_vpa : ReplicaManager → Vpa → Outcome VerticalPodAutoscaler
  unfolding target_kind
  make_vpa r v = do
    kind ← target_kind r
    ok (record {
      name = r.pod.name;
      target_kind = kind;
      target_name = r.pod.name;
      container_name = none;
      min_allowed = v.min_allowed;
      max_allowed = v.max_allowed;
      control_cpu = v.control_cpu;
      control_memory = v.control_memory;
    })
