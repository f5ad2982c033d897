-- ===== src/Templates/Pod/Tests.antt =====
-- Containers and pods at concrete inputs, and the theorems on them there.
use pyceli.Base.{
  String, str_eq, Bool, true, false, ◌&&◌, ◌==◌, ◌≡◌, ◌↔◌, refl, subst, arith, eq_iff, List, [],
  ◌∷◌, ◌++◌, none, some,
}
use pyceli.Manager.Client.{ok, err, value_error, attribute_error}
use pyceli.Templates.Volume.{
  VolumeMount, pvc_template, config_map, empty_dir, unsupported, VolumeSource, claim_source,
  config_map_source, secret_source, empty_source, PodVolume, Mount,
}
use pyceli.Templates.Container.{Container, indexed_name, or_empty}
use pyceli.Templates.Container.Spec.{ContainerSpec}
use pyceli.Templates.Pod.{Pod, PodTemplate, never, ModelLib, get_pod_spec, get_label_selector}
use pyceli.Templates.Pod.Fits.{Returns}
use pyceli.Templates.Pod.Returns.{Fits, get_pod_spec-Fits_iff}
use pyceli.Templates.Pod.Volumes.{MountsVolumes, get_pod_spec-MountsVolumes}

abbrev app : String → List VolumeMount → Container
app name mounts = record {
  name = name;
  image = "app:1";
  command = none;
  args = none;
  image_pull_policy = none;
  ports = none;
  env = none;
  volumes = some mounts;
  liveness_pre_stop_command = none;
  liveness_post_start_command = none;
  readiness_command = none;
  liveness_command = none;
  resources = none;
  env_sources = [];
  security_context_uid = some 0;
}

index_name : indexed_name (app "web" []) 12 ≡ "web-data-12"
unfolding indexed_name
index_name = refl

abbrev template_mount : String → VolumeMount
template_mount path =
    pvc_template path (record { name = "disk"; storage = "1Gi"; labels = none }) none

abbrev settings_mount : VolumeMount
settings_mount =
    config_map "/etc/app" (record { name = "settings"; entries = ("mode", "x") ∷ [] }) 420

-- Two containers that share a claim, and the first with a map of its own
abbrev pod : List VolumeMount → Pod
pod init_mounts = record {
  name = "web";
  containers = app "web" (template_mount "/data" ∷ settings_mount ∷ []) ∷ [];
  init_containers = app "setup" init_mounts ∷ [];
  service_account = none;
  automount_service_account_token = none;
  port = none;
  restart_policy = never;
  security_context_uid = none;
  template_labels = none;
  image_pull_secrets = [];
  termination_grace_period_seconds = none;
}

-- The equality of the fields
abbrev same_items : List (String × String) → List (String × String) → Bool
same_items [] [] = true
same_items ((k, v) ∷ more) ((j, w) ∷ others) = str_eq k j && (str_eq v w && same_items more others)
same_items _ _ = false

abbrev same_source : VolumeSource → VolumeSource → Bool
same_source (claim_source a) (claim_source b) = str_eq a b
same_source (config_map_source a xs m) (config_map_source b ys n) =
    str_eq a b && (same_items xs ys && m == n)
same_source (secret_source a xs m) (secret_source b ys n) =
    str_eq a b && (same_items xs ys && m == n)
same_source empty_source empty_source = true
same_source _ _ = false

abbrev models : ModelLib
models = record { same_volume = λ v w. str_eq v.name w.name && same_source v.source w.source }

same_items_sound : (xs ys : List (String × String)) → same_items xs ys ≡ true → xs ≡ ys
same_items_sound [] [] h = refl
same_items_sound [] (y ∷ ys) h = absurd (ground arith)
same_items_sound (x ∷ xs) [] h = absurd (ground arith)
same_items_sound ((k, v) ∷ xs) ((j, w) ∷ ys) h =
    ground (arith, same_items_sound xs ys, eq_iff k j, eq_iff v w)

same_source_sound : (a b : VolumeSource) → same_source a b ≡ true → a ≡ b
same_source_sound (claim_source a) (claim_source b) h = ground (arith, eq_iff a b)
same_source_sound (config_map_source a xs m) (config_map_source b ys n) h =
    ground (arith, same_items_sound xs ys, eq_iff a b)
same_source_sound (secret_source a xs m) (secret_source b ys n) h =
    ground (arith, same_items_sound xs ys, eq_iff a b)
same_source_sound empty_source empty_source h = refl
same_source_sound a b h = absurd (ground arith)

same_volume_sound : (v w : PodVolume) → models.same_volume v w ≡ true → v ≡ w
same_volume_sound v w h = ground (arith, same_source_sound v.source w.source, eq_iff v.name w.name)

same_text : (a : String) → str_eq a a ≡ true
same_text a = ground (arith, eq_iff a a)

same_items_refl : (xs : List (String × String)) → same_items xs xs ≡ true
same_items_refl [] = refl
same_items_refl ((k, v) ∷ xs) = ground (arith, same_items_refl xs, same_text k, same_text v)

same_source_refl : (a : VolumeSource) → same_source a a ≡ true
same_source_refl (claim_source a) = same_text a
same_source_refl (config_map_source a xs m) = ground (arith, same_items_refl xs, same_text a)
same_source_refl (secret_source a xs m) = ground (arith, same_items_refl xs, same_text a)
same_source_refl empty_source = refl

same_volume_iff : (v w : PodVolume) → (models.same_volume v w ≡ true) ↔ (v ≡ w)
same_volume_iff v w = (
  same_volume_sound v w,
  λ e.
      subst (λ u. models.same_volume v u ≡ true) e
        (ground (arith, same_text v.name, same_source_refl v.source)),
)

abbrev shared_volumes : List PodVolume
shared_volumes =
    record { name = "disk"; source = claim_source "disk" }
    ∷ record {
      name = "web-data-1";
      source = config_map_source "settings" (("mode", "mode") ∷ []) 420;
    }
    ∷ []

abbrev spec_of : String → List Mount → ContainerSpec
spec_of name mounts = record {
  image = "app:1";
  name = name;
  image_pull_policy = none;
  command = none;
  args = none;
  env = none;
  ports = none;
  volume_mounts = some mounts;
  readiness_probe = none;
  liveness_probe = none;
  lifecycle = none;
  resources = none;
  security_context = none;
}

abbrev shared_template : PodTemplate
shared_template = record {
  name = "web";
  labels = none;
  restart_policy = "Never";
  containers =
      spec_of "web" (
        record { name = "disk"; mount_path = "/data"; sub_path = none }
        ∷ record { name = "web-data-1"; mount_path = "/etc/app"; sub_path = none }
        ∷ [])
      ∷ [];
  init_containers =
      some (
        spec_of "setup" (record { name = "disk"; mount_path = "/old"; sub_path = none } ∷ []) ∷ []);
  image_pull_secrets = none;
  service_account_name = none;
  automount_service_account_token = none;
  volumes = some shared_volumes;
  security_context = none;
  termination_grace_period_seconds = none;
}

shared_spec : get_pod_spec models (pod (template_mount "/old" ∷ [])) ≡ ok shared_template
unfolding get_pod_spec
shared_spec = refl

-- An empty directory under the name of another volume, and a mount of no known class
conflict : get_pod_spec models (pod (empty_dir "/tmp" "disk" ∷ [])) ≡ err value_error
unfolding get_pod_spec
conflict = refl

unknown_mount : get_pod_spec models (pod (unsupported "/tmp" ∷ [])) ≡ err value_error
unfolding get_pod_spec
unknown_mount = refl

-- Without labels there is no selector.
no_selector : get_label_selector models (pod []) ≡ err attribute_error
unfolding get_label_selector
no_selector = refl

get_pod_spec-MountsVolumes_example :
    MountsVolumes
      (app "web" (template_mount "/data" ∷ settings_mount ∷ [])
        ∷ app "setup" (template_mount "/old" ∷ [])
        ∷ [])
      (shared_template.containers ++ or_empty shared_template.init_containers)
      shared_volumes
get_pod_spec-MountsVolumes_example =
    get_pod_spec-MountsVolumes models same_volume_sound (pod (template_mount "/old" ∷ []))
      shared_template shared_spec

get_pod_spec-Fits_iff_example :
    Returns (get_pod_spec models (pod (template_mount "/old" ∷ [])))
    ↔ Fits (
        app "web" (template_mount "/data" ∷ settings_mount ∷ [])
        ∷ app "setup" (template_mount "/old" ∷ [])
        ∷ [])
get_pod_spec-Fits_iff_example =
    get_pod_spec-Fits_iff models same_volume_iff (pod (template_mount "/old" ∷ []))
