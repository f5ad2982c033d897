-- ===== src/Templates/Volume.antt =====
-- piceli/k8s/templates/deployable/volume.py, and of configmap.py and secret.py what a mount reads; the part of
-- templates/auxiliary/container.py that turns one mount into a volume of the pod and a mount of the container.
use pyceli.Base.{ℕ, String, List, [], ◌∷◌, Option, none, some}
use pyceli.Manager.Client.{value_error, Outcome, ok, err}
use pyceli.Templates.Raise.{◌>>=◌}
use pyceli.Templates.Dict.{keys}
use pyceli.Templates.EnvVars.{ConfigMap, Secret}

-- `labels`
abbrev pub Labels : Type 0
Labels = Option (List (String × String))

pub record PersistentVolumeClaim : Type 0 where
  pub name : String
  pub storage : String
  pub labels : Labels

pub record PersistentVolumeClaimTemplate : Type 0 where
  pub name : String
  pub storage : String
  pub labels : Labels

-- `V1PersistentVolumeClaim` and `V1PersistentVolumeClaimTemplate`, with what the code gives them
pub record ClaimObject : Type 0 where
  pub name : String
  pub labels : Labels
  pub access_modes : List String
  pub volume_mode : Option String
  pub requests : List (String × String)

-- `PersistentVolumeClaim.get`
abbrev pub get_claim : PersistentVolumeClaim → ClaimObject
get_claim c = record {
  name = c.name;
  labels = c.labels;
  access_modes = "ReadWriteOnce" ∷ [];
  volume_mode = none;
  requests = ("storage", c.storage) ∷ [];
}

abbrev pub get_template : PersistentVolumeClaimTemplate → ClaimObject
get_template c = record {
  name = c.name;
  labels = c.labels;
  access_modes = "ReadWriteOnce" ∷ [];
  volume_mode = some "Filesystem";
  requests = ("storage", c.storage) ∷ [];
}

-- The subclasses of `VolumeMount`, each with its `mount_path` first; `unsupported` for any other
pub data VolumeMount : Type 0 where
  pvc : (mount_path : String) → PersistentVolumeClaim → (sub_path : Option String) → VolumeMount
  pvc_template :
      (mount_path : String)
      → PersistentVolumeClaimTemplate
      → (sub_path : Option String) → VolumeMount
  config_map : (mount_path : String) → ConfigMap → (default_mode : ℕ) → VolumeMount
  secret : (mount_path : String) → Secret → (default_mode : ℕ) → VolumeMount
  empty_dir : (mount_path : String) → (name : String) → VolumeMount
  unsupported : (mount_path : String) → VolumeMount

-- What a `V1Volume` is made with
pub data VolumeSource : Type 0 where
  claim_source : (claim_name : String) → VolumeSource
  config_map_source secret_source :
      (name : String) → (items : List (String × String)) → (default_mode : ℕ) → VolumeSource
  empty_source : VolumeSource

-- `V1Volume`
pub record PodVolume : Type 0 where
  pub name : String
  pub source : VolumeSource

-- `V1VolumeMount`
pub record Mount : Type 0 where
  pub name : String
  pub mount_path : String
  pub sub_path : Option String

-- `[{"key": k, "path": k} for k in keys]`
abbrev pub key_items : List String → List (String × String)
key_items [] = []
key_items (k ∷ more) = (k, k) ∷ key_items more

-- The keys of a secret that is mounted: those of `data` where it has any, else those of `string_data`
abbrev pub secret_keys : Secret → Outcome (List String)
secret_keys s = elim (s.encoded) [
  | some (item ∷ more) ↦ ok (keys (item ∷ more))
  | _ ↦ elim (s.string_data) [ some (item ∷ more) ↦ ok (keys (item ∷ more)) | _ ↦ err value_error ]
]

-- One round of `_volumes`, with the name that the index gives
abbrev pub volume_name : String → VolumeMount → String
volume_name indexed (empty_dir path name) = name
volume_name indexed (pvc_template path t sub) = t.name
volume_name indexed v = indexed

-- One round of `get_volume_claims`
abbrev pub volume_claim : String → VolumeMount → Outcome PodVolume
volume_claim name (pvc path c sub) = ok (record { name = name; source = claim_source c.name })
volume_claim name (pvc_template path t sub) =
    ok (record { name = t.name; source = claim_source t.name })
volume_claim name (config_map path c mode) =
    ok (record { name = name; source = config_map_source c.name (key_items (keys c.entries)) mode })
volume_claim name (secret path s mode) = do
  found ← secret_keys s
  ok (record { name = name; source = secret_source s.name (key_items found) mode })
volume_claim name (empty_dir path own) = ok (record { name = name; source = empty_source })
volume_claim name (unsupported path) = err value_error

-- One round of `get_volume_mounts`
abbrev pub volume_mount : String → VolumeMount → Outcome Mount
volume_mount name (pvc path c sub) = ok (record { name = name; mount_path = path; sub_path = sub })
volume_mount name (pvc_template path t sub) =
    ok (record { name = t.name; mount_path = path; sub_path = sub })
volume_mount name (config_map path c mode) =
    ok (record { name = name; mount_path = path; sub_path = none })
volume_mount name (secret path s mode) =
    ok (record { name = name; mount_path = path; sub_path = none })
volume_mount name (empty_dir path own) =
    ok (record { name = name; mount_path = path; sub_path = none })
volume_mount name (unsupported path) = err value_error
