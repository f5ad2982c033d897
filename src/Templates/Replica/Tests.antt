-- ===== src/Templates/Replica/Tests.antt =====
-- Managers at concrete inputs, and the theorem on their objects there.
use pyceli.Base.{true, ◌≡◌, refl, arith, List, [], ◌∷◌, Option, none, some}
use pyceli.Manager.Client.{ok, err, value_error, attribute_error, Outcome}
use pyceli.Templates.Container.{Container}
use pyceli.Templates.Pod.{always, ModelLib}
use pyceli.Templates.Replica.{
  FieldLib, ReplicaClass, deployment, stateful_set, ReplicaManager, ReplicaObject,
  get_replica_manager,
}
use pyceli.Templates.Replica.Objects.{
  ReplicaItem, replica_item, service_item, hpa_item, get_objects,
}
use pyceli.Templates.Replica.Consistent.{Consistent, get_objects-Consistent}

abbrev models : ModelLib
models = record { same_volume = λ v w. true }

abbrev check_field : {A : Type 0} → Option A → Outcome A
check_field none = err value_error
check_field (some a) = ok a

abbrev fields : FieldLib
fields = record { required = check_field }

check_field-some : (A : Type 0) (o : Option A) (a : A) → check_field o ≡ ok a → o ≡ some a
check_field-some A none a h = absurd (ground arith)
check_field-some A (some b) a h = ground (arith, h)

abbrev server : Container
server = record {
  name = "web";
  image = "web:1";
  command = none;
  args = none;
  image_pull_policy = none;
  ports = some (record { name = "http"; port = 80; target_port = some 8080 } ∷ []);
  env = none;
  volumes = none;
  liveness_pre_stop_command = none;
  liveness_post_start_command = none;
  readiness_command = none;
  liveness_command = none;
  resources = none;
  env_sources = [];
  security_context_uid = none;
}

abbrev web : ReplicaClass → List Container → ReplicaManager
web replica_class containers = record {
  replica_class = replica_class;
  pod = record {
    name = "web";
    containers = containers;
    init_containers = [];
    service_account = none;
    automount_service_account_token = none;
    port = none;
    restart_policy = always;
    security_context_uid = none;
    template_labels = some (("app", "web") ∷ []);
    image_pull_secrets = [];
    termination_grace_period_seconds = none;
  };
  replicas = 2;
  create_service = true;
  hpa =
      some (record { min_replicas = 1; max_replicas = 3; target_cpu_utilization_percentage = 80 });
  vpa = none;
  labels = none;
}

abbrev web_object : ReplicaObject
web_object = record {
  kind = some "Deployment";
  name = "web";
  labels = none;
  replicas = 2;
  template = record {
    name = "web";
    labels = some (("app", "web") ∷ []);
    restart_policy = "Always";
    containers =
        record {
          image = "web:1";
          name = "web";
          image_pull_policy = none;
          command = none;
          args = none;
          env = none;
          ports = some (("http", 80) ∷ []);
          volume_mounts = none;
          readiness_probe = none;
          liveness_probe = none;
          lifecycle = none;
          resources = none;
          security_context = none;
        }
        ∷ [];
    init_containers = none;
    image_pull_secrets = none;
    service_account_name = none;
    automount_service_account_token = none;
    volumes = none;
    security_context = none;
    termination_grace_period_seconds = none;
  };
  match_labels = some (("app", "web") ∷ []);
  strategy = some "Recreate";
  volume_claim_templates = [];
  service_name = none;
}

abbrev web_items : List ReplicaItem
web_items =
    replica_item web_object
    ∷ service_item (record {
      name = "web";
      labels = none;
      ports = record { name = "http"; port = 80; target_port = 8080 } ∷ [];
      service_type = "ClusterIP";
      selector = ("app", "web") ∷ [];
    })
    ∷ hpa_item (record {
      name = "web";
      labels = none;
      target_kind = "Deployment";
      target_name = "web";
      min_replicas = 1;
      max_replicas = 3;
      average_utilization = 80;
    })
    ∷ []

web_objects : get_objects models fields (web deployment (server ∷ [])) ≡ ok web_items
unfolding get_objects
web_objects = refl

get_objects-Consistent_example :
    (o : ReplicaObject) × (get_replica_manager models (web deployment (server ∷ [])) ≡ ok o)
    × Consistent (web deployment (server ∷ [])) o web_items
get_objects-Consistent_example =
    get_objects-Consistent models fields check_field-some (web deployment (server ∷ [])) web_items
      web_objects

-- A stateful set that asks for an autoscaler, and a service without ports
stateful_scaled : get_objects models fields (web stateful_set (server ∷ [])) ≡ err value_error
unfolding get_objects
stateful_scaled = refl

no_ports : get_objects models fields (web deployment []) ≡ err attribute_error
unfolding get_objects
no_ports = refl
