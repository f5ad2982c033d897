-- ===== src/Templates/Container/Spec.antt =====
-- `Container.get_container_spec` of piceli/k8s/templates/auxiliary/container.py, and `get_security_context` of
-- pod_security_context.py.
use pyceli.Base.{ℕ, zero, suc, String, Bool, true, List, [], ◌∷◌, Option, none, some}
use pyceli.Manager.Client.{Outcome, ok}
use pyceli.Templates.Raise.{◌>>=◌}
use pyceli.Templates.EnvVars.{
  EnvVar, EnvValue, text, source, get_field, get_resource_field, get_env_from_dict, upsert_envvars,
  get_env_from_source,
}
use pyceli.Templates.Volume.{Mount}
use pyceli.Templates.Container.{
  ContainerValue, plain, from_field, from_resource, Container, get_k8s_request, policy_value,
  ports_dict, get_volume_mounts,
}

-- `V1Probe` of a command
pub record Probe : Type 0 where
  pub exec : List String
  pub initial_delay_seconds : ℕ
  pub period_seconds : ℕ
  pub failure_threshold : Option ℕ

-- `V1Lifecycle`, by the commands of its handlers
pub record Lifecycle : Type 0 where
  pub pre_stop : Option (List String)
  pub post_start : Option (List String)

-- `V1PodSecurityContext`
pub record PodSecurityContext : Type 0 where
  pub fs_group : ℕ
  pub run_as_group : ℕ
  pub run_as_user : ℕ
  pub run_as_non_root : Bool
  pub seccomp_profile : String

-- `V1Container`
pub record ContainerSpec : Type 0 where
  pub image : String
  pub name : String
  pub image_pull_policy : Option String
  pub command : Option (List String)
  pub args : Option (List String)
  pub env : Option (List EnvVar)
  pub ports : Option (List (String × ℕ))
  pub volume_mounts : Option (List Mount)
  pub readiness_probe : Option Probe
  pub liveness_probe : Option Probe
  pub lifecycle : Option Lifecycle
  pub resources : Option (List (String × String))
  pub security_context : Option PodSecurityContext

-- `x if x else None`, for a list
abbrev pub or_none {ℓ} : {A : Type ℓ} → List A → Option (List A)
or_none [] = none
or_none (x ∷ more) = some (x ∷ more)

-- An optional list with nothing in it counts as none.
abbrev pub filled {ℓ} : {A : Type ℓ} → Option (List A) → Option (List A)
filled none = none
filled (some xs) = or_none xs

-- `get_security_context`; the user 0 counts as none.
unfoldable pub get_security_context : Option ℕ → Option PodSecurityContext
get_security_context none = none
get_security_context (some zero) = none
get_security_context (some (suc uid)) = some (record {
  fs_group = suc uid;
  run_as_group = suc uid;
  run_as_user = suc uid;
  run_as_non_root = true;
  seccomp_profile = "RuntimeDefault";
})

-- The loop over `self.env`: a field or a resource field is replaced by its source.
abbrev env_value : ContainerValue → EnvValue
env_value (plain t) = text t
env_value (from_field v) = source (get_field v)
env_value (from_resource v) = source (get_resource_field v)

abbrev env_values : List (String × ContainerValue) → List (String × EnvValue)
env_values [] = []
env_values ((key, v) ∷ more) = (key, env_value v) ∷ env_values more

unfoldable pub own_env :
    List EnvVar → Option (List (String × ContainerValue)) → Outcome (List EnvVar)
unfolding upsert_envvars
own_env env none = ok env
own_env env (some own) = ok (upsert_envvars env (get_env_from_dict (env_values own)))

-- The environment: the sources, and over them the variables of the container where it has any
unfoldable pub container_env : Container → Outcome (List EnvVar)
unfolding get_env_from_source own_env
container_env c = do env ← get_env_from_source c.env_sources; own_env env (filled c.env)

-- `list(self.get_volume_mounts()) if self.volumes else None`
unfoldable pub container_mounts : Container → Outcome (Option (List Mount))
unfolding get_volume_mounts
container_mounts c = elim (filled c.volumes) [
  | none ↦ ok none
  | some volumes ↦ do mounts ← get_volume_mounts c; ok (some mounts)
]

abbrev readiness_probe_of : List String → Probe
readiness_probe_of command = record {
  exec = command;
  initial_delay_seconds = 5;
  period_seconds = 5;
  failure_threshold = none;
}

abbrev liveness_probe_of : List String → Probe
liveness_probe_of command = record {
  exec = command;
  initial_delay_seconds = 30;
  period_seconds = 30;
  failure_threshold = some 3;
}

abbrev lifecycle_of : Option (List String) → Option (List String) → Option Lifecycle
lifecycle_of none none = none
lifecycle_of pre post = some (record { pre_stop = pre; post_start = post })

abbrev option_map {ℓ κ} : {A : Type ℓ} {B : Type κ} → (A → B) → Option A → Option B
option_map f none = none
option_map f (some x) = some (f x)

unfoldable pub get_container_spec : Container → Outcome ContainerSpec
unfolding container_env container_mounts get_security_context
get_container_spec c = do
  env ← container_env c
  mounts ← container_mounts c
  ok (record {
    image = c.image;
    name = c.name;
    image_pull_policy = option_map policy_value c.image_pull_policy;
    command = c.command;
    args = c.args;
    env = or_none env;
    ports = or_none (ports_dict c);
    volume_mounts = mounts;
    readiness_probe = option_map readiness_probe_of (filled c.readiness_command);
    liveness_probe = option_map liveness_probe_of (filled c.liveness_command);
    lifecycle =
        lifecycle_of (filled c.liveness_pre_stop_command) (filled c.liveness_post_start_command);
    resources = option_map get_k8s_request c.resources;
    security_context = get_security_context c.security_context_uid;
  })
