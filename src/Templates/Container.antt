-- ===== src/Templates/Container.antt =====
-- piceli/k8s/templates/auxiliary/container.py, and of port.py, policies.py and resource_request.py what it uses:
-- the container of a pod. The calls of the generators are lists.
pub mod Spec
pub mod Mounts
use pyceli.Base.{
  ℕ, zero, suc, ◌+◌, ◌/◌, ◌%◌, String, Bool, true, false, ltb, List, [], ◌∷◌, Option, none, some,
  if◌then◌else◌,
}
use pyceli.Manager.Client.{Outcome, ok, err}
use pyceli.Templates.Dict.{set_item}
use pyceli.Templates.Raise.{◌>>=◌}
use pyceli.Templates.EnvVars.{
  EnvVar, EnvSource, EnvVarSource, EnvValue, text, source, ValueFromField, ValueFromResourceField,
  get_field, get_resource_field, get_env_from_dict, upsert_envvars, get_env_from_source,
}
use pyceli.Templates.Volume.{VolumeMount, PodVolume, Mount, volume_name, volume_claim, volume_mount}
use Prim.Native.String.{◌++◌ as append}

-- `Port`
pub record Port : Type 0 where
  pub name : String
  pub port : ℕ
  pub target_port : Option ℕ

-- `Resources`, by its texts; the numbers that it parses of them are left out.
pub record Resources : Type 0 where
  pub memory : Option String
  pub cpu : Option String
  pub ephemeral_storage : Option String

-- `text or default`
abbrev pub text_or : Option String → String → String
text_or none default = default
text_or (some String.[]) default = default
text_or (some (String.◌∷◌ c s)) default = String.◌∷◌ c s

abbrev pub get_k8s_request : Resources → List (String × String)
get_k8s_request r =
    ("memory", text_or r.memory "250Mi")
    ∷ ("cpu", text_or r.cpu "100m")
    ∷ ("ephemeral-storage", text_or r.ephemeral_storage "11Mi")
    ∷ []

pub data ImagePullPolicy : Type 0 where
  always if_not_present never : ImagePullPolicy

-- `ImagePullPolicy.value`
abbrev pub policy_value : ImagePullPolicy → String
policy_value always = "Always"
policy_value if_not_present = "IfNotPresent"
policy_value never = "Never"

-- A value of the `env` of a container
pub data ContainerValue : Type 0 where
  plain : String → ContainerValue
  from_field : ValueFromField → ContainerValue
  from_resource : ValueFromResourceField → ContainerValue

pub record Container : Type 0 where
  pub name : String
  pub image : String
  pub command : Option (List String)
  pub args : Option (List String)
  pub image_pull_policy : Option ImagePullPolicy
  pub ports : Option (List Port)
  pub env : Option (List (String × ContainerValue))
  pub volumes : Option (List VolumeMount)
  pub liveness_pre_stop_command : Option (List String)
  pub liveness_post_start_command : Option (List String)
  pub readiness_command : Option (List String)
  pub liveness_command : Option (List String)
  pub resources : Option Resources
  pub env_sources : List EnvSource
  pub security_context_uid : Option ℕ

-- `xs or []`
abbrev pub or_empty {ℓ} : {A : Type ℓ} → Option (List A) → List A
or_empty none = []
or_empty (some xs) = xs

-- One round of `ports_dict`
abbrev pub put_ports : List (String × ℕ) → List Port → List (String × ℕ)
put_ports d [] = d
put_ports d (p ∷ more) = put_ports (set_item p.name p.port d) more

abbrev pub ports_dict : Container → List (String × ℕ)
ports_dict c = put_ports [] (or_empty c.ports)

-- The digit of a number below 10
abbrev nth_text : List String → ℕ → String
nth_text [] n = ""
nth_text (x ∷ more) zero = x
nth_text (x ∷ more) (suc n) = nth_text more n

abbrev digit : ℕ → String
digit n = nth_text ("0" ∷ "1" ∷ "2" ∷ "3" ∷ "4" ∷ "5" ∷ "6" ∷ "7" ∷ "8" ∷ "9" ∷ []) n

-- `str(n)`, in at most `fuel` digits: a number has no more digits than its value and one.
abbrev digits : ℕ → ℕ → String
digits zero n = ""
digits (suc fuel) n =
    let before = digits fuel (n / 10) in
    if ltb n 10 then digit n else append before (digit (n % 10))

-- `f"{self.name}-data-{i}"`
unfoldable pub indexed_name : Container → ℕ → String
indexed_name c i = append c.name (append "-data-" (digits (suc i) i))

-- `_volumes`, from the index i on
unfoldable pub number_volumes : Container → ℕ → List VolumeMount → List (String × VolumeMount)
unfolding indexed_name
number_volumes c i [] = []
number_volumes c i (v ∷ more) =
    (volume_name (indexed_name c i) v, v) ∷ number_volumes c (suc i) more

unfoldable pub named_volumes : Container → List (String × VolumeMount)
unfolding number_volumes
named_volumes c = number_volumes c 0 (or_empty c.volumes)

-- The results of a generator: the first error counts.
unfoldable pub collect : {A B : Type 0} → (A → Outcome B) → List A → Outcome (List B)
collect f [] = ok []
collect f (x ∷ more) = do y ← f x; ys ← collect f more; ok (y ∷ ys)

abbrev pub claim_of : String × VolumeMount → Outcome PodVolume
claim_of (name, v) = volume_claim name v

abbrev pub mount_of : String × VolumeMount → Outcome Mount
mount_of (name, v) = volume_mount name v

unfoldable pub get_volume_claims : Container → Outcome (List PodVolume)
unfolding named_volumes collect
get_volume_claims c = collect claim_of (named_volumes c)

unfoldable pub get_volume_mounts : Container → Outcome (List Mount)
unfolding named_volumes collect
get_volume_mounts c = collect mount_of (named_volumes c)
