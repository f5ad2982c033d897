-- ===== src/Templates/Pod.antt =====
-- piceli/k8s/templates/auxiliary/pod.py: the pod of a template. `_volume_claims` is a state that the loops over
-- the containers pass on; `env`, which stays None there, is left out.
pub mod Claims
pub mod Made
pub mod Volumes
pub mod Fits
pub mod Suits
pub mod Pairs
pub mod Returns
mod Tests
use pyceli.Base.{ℕ, String, Bool, true, false, List, [], ◌∷◌, Option, none, some, if◌then◌else◌}
use pyceli.Manager.Client.{value_error, attribute_error, Outcome, ok, err}
use pyceli.Templates.Raise.{◌>>=◌}
use pyceli.Templates.Dict.{set_item, get_item, keys, values}
use pyceli.Templates.Volume.{Labels, PodVolume}
use pyceli.Templates.Container.{Container, get_volume_claims}
use pyceli.Templates.Container.Spec.{
  ContainerSpec, PodSecurityContext, get_container_spec, get_security_context, or_none,
}
use Prim.Native.String.{◌++◌ as append}

pub data RestartPolicy : Type 0 where
  never always on_failure : RestartPolicy

-- `RestartPolicy.value`
abbrev pub restart_value : RestartPolicy → String
restart_value never = "Never"
restart_value always = "Always"
restart_value on_failure = "OnFailure"

-- The service account is given by its name.
pub record Pod : Type 0 where
  pub name : String
  pub containers : List Container
  pub init_containers : List Container
  pub service_account : Option String
  pub automount_service_account_token : Option Bool
  pub port : Option ℕ
  pub restart_policy : RestartPolicy
  pub security_context_uid : Option ℕ
  pub template_labels : Labels
  pub image_pull_secrets : List String
  pub termination_grace_period_seconds : Option ℕ

-- `V1PodTemplateSpec`, its metadata and its spec in one
pub record PodTemplate : Type 0 where
  pub name : String
  pub labels : Labels
  pub restart_policy : String
  pub containers : List ContainerSpec
  pub init_containers : Option (List ContainerSpec)
  pub image_pull_secrets : Option (List String)
  pub service_account_name : Option String
  pub automount_service_account_token : Option Bool
  pub volumes : Option (List PodVolume)
  pub security_context : Option PodSecurityContext
  pub termination_grace_period_seconds : Option ℕ

-- `container_map`
abbrev put_containers : List (String × Container) → List Container → List (String × Container)
put_containers d [] = d
put_containers d (c ∷ more) = put_containers (set_item c.name c d) more

abbrev pub container_map : Pod → List (String × Container)
container_map p = put_containers [] p.containers

abbrev pub Claims : Type 0
Claims = List (String × PodVolume)

-- `==` of the client's models
pub record ModelLib : Type 0 where
  pub same_volume : PodVolume → PodVolume → Bool

module _ (lib : ModelLib) where
  -- One round of the loop over the claims of a container
  unfoldable pub add_claim : Claims → PodVolume → Outcome Claims
  unfolding set_item get_item
  add_claim claims v = elim (get_item v.name claims) [
    | none ↦ ok (set_item v.name v claims)
    | some there ↦ if lib.same_volume there v then ok claims else err value_error
  ]

  unfoldable pub add_claims : Claims → List PodVolume → Outcome Claims
  unfolding add_claim
  add_claims claims [] = ok claims
  add_claims claims (v ∷ more) = do after ← add_claim claims v; add_claims after more

  -- `get_container_spec_and_update_volumes`
  unfoldable pub spec_and_claims : Claims → Container → Outcome (ContainerSpec × Claims)
  unfolding get_container_spec get_volume_claims add_claims
  spec_and_claims claims c = do
    spec ← get_container_spec c
    volumes ← get_volume_claims c
    after ← add_claims claims volumes
    ok (spec, after)

  -- The loop over the containers
  unfoldable pub specs_and_claims : Claims → List Container → Outcome (List ContainerSpec × Claims)
  unfolding spec_and_claims
  specs_and_claims claims [] = ok ([], claims)
  specs_and_claims claims (c ∷ more) = do
    (spec, after) ← spec_and_claims claims c
    (specs, last) ← specs_and_claims after more
    ok (spec ∷ specs, last)

  unfoldable pub get_pod_spec : Pod → Outcome PodTemplate
  unfolding specs_and_claims get_security_context
  get_pod_spec p = do
    (containers, claims) ← specs_and_claims [] p.containers
    (init_containers, all) ← specs_and_claims claims p.init_containers
    ok (record {
      name = p.name;
      labels = p.template_labels;
      restart_policy = restart_value p.restart_policy;
      containers = containers;
      init_containers = or_none init_containers;
      image_pull_secrets = or_none p.image_pull_secrets;
      service_account_name = p.service_account;
      automount_service_account_token = p.automount_service_account_token;
      volumes = or_none (values all);
      security_context = get_security_context p.security_context_uid;
      termination_grace_period_seconds = p.termination_grace_period_seconds;
    })

  -- `",".join(f"{k}={v}" for each label)`
  abbrev join_labels : List (String × String) → String
  join_labels [] = ""
  join_labels ((k, v) ∷ []) = append k (append "=" v)
  join_labels ((k, v) ∷ next ∷ more) =
      append k (append "=" (append v (append "," (join_labels (next ∷ more)))))

  -- `get_label_selector`: without labels there is no `items`.
  unfoldable pub get_label_selector : Pod → Outcome String
  unfolding get_pod_spec
  get_label_selector p = do
    template ← get_pod_spec p
    elim (template.labels) [ none ↦ err attribute_error | some labels ↦ ok (join_labels labels) ]
