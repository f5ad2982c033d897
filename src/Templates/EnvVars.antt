-- ===== src/Templates/EnvVars.antt =====
-- piceli/k8s/templates/auxiliary/env_vars.py: environment variables. Log texts are left out.
pub mod Merge
use pyceli.Base.{String, Bool, true, false, List, [], ◌∷◌, ◌++◌, map, Option, none, some}
use pyceli.Manager.Client.{Raised, value_error, Outcome, ok, err}
use pyceli.Templates.Raise.{◌>>=◌}
use pyceli.Templates.Dict.{set_item, keys, values}

-- `V1EnvVarSource`, made with one of its references
pub data EnvVarSource : Type 0 where
  field_ref : (field_path : String) → EnvVarSource
  resource_field_ref : (container_name divisor resource : String) → EnvVarSource
  config_map_key_ref secret_key_ref : (key name : String) → EnvVarSource

-- `V1EnvVar`
pub record EnvVar : Type 0 where
  pub name : String
  pub value : Option String
  pub value_from : Option EnvVarSource

pub record ValueFromField : Type 0 where
  pub field_path : String

-- `ValueFromField.get`
abbrev pub get_field : ValueFromField → EnvVarSource
get_field v = field_ref v.field_path

pub record ValueFromResourceField : Type 0 where
  pub container_name : String
  pub divisor : String
  pub resource : String

-- `ValueFromResourceField.get`
abbrev pub get_resource_field : ValueFromResourceField → EnvVarSource
get_resource_field v = resource_field_ref v.container_name v.divisor v.resource

abbrev pub get_env_pair : String → String → EnvVar
get_env_pair key text = record { name = key; value = some text; value_from = none }

-- A value of the dict that becomes variables: a text or a source
pub data EnvValue : Type 0 where
  text : String → EnvValue
  source : EnvVarSource → EnvValue

-- One round of `get_env_from_dict`
abbrev pub env_from_item : String × EnvValue → EnvVar
env_from_item (key, text t) = get_env_pair key t
env_from_item (key, source f) = record { name = key; value = none; value_from = some f }

abbrev pub get_env_from_dict : List (String × EnvValue) → List EnvVar
get_env_from_dict [] = []
get_env_from_dict (item ∷ more) = env_from_item item ∷ get_env_from_dict more

-- `env_map[item.name] = item`, for each item
unfoldable pub put_env : List (String × EnvVar) → List EnvVar → List (String × EnvVar)
unfolding set_item
put_env env_map [] = env_map
put_env env_map (item ∷ more) = put_env (set_item item.name item env_map) more

-- `upsert_envvars`: the comprehension over the base, then the loop over the new ones
unfoldable pub upsert_envvars : List EnvVar → List EnvVar → List EnvVar
unfolding put_env
upsert_envvars base_env new_env = values (put_env (put_env [] base_env) new_env)

-- `ConfigMap`, less its labels; `entries` is `data`.
pub record ConfigMap : Type 0 where
  pub name : String
  pub entries : List (String × String)

-- `Secret`, less its type and labels; `encoded` is `data`.
pub record Secret : Type 0 where
  pub name : String
  pub string_data : Option (List (String × String))
  pub encoded : Option (List (String × String))

-- A source of variables: a `ConfigMap`, a `Secret`, or any other object
pub data EnvSource : Type 0 where
  from_config_map : ConfigMap → EnvSource
  from_secret : Secret → EnvSource
  unexpected : EnvSource

-- `keys` of an optional dict, as the list that is extended: nothing when it is `None` or empty
abbrev pub optional_keys : Option (List (String × String)) → List String
optional_keys none = []
optional_keys (some d) = keys d

-- The variables of one source: the loop over its keys
abbrev pub key_envs : (String → EnvVarSource) → List String → List EnvVar
key_envs ref [] = []
key_envs ref (key ∷ more) =
    record { name = key; value = none; value_from = some (ref key) } ∷ key_envs ref more

-- One round of `get_env_from_source`
abbrev pub source_envs : EnvSource → Outcome (List EnvVar)
source_envs (from_config_map c) =
    ok (key_envs (λ key. config_map_key_ref key c.name) (keys c.entries))
source_envs (from_secret s) = ok (
    key_envs (λ key. secret_key_ref key s.name)
      (optional_keys s.string_data ++ optional_keys s.encoded))
source_envs unexpected = err value_error

unfoldable pub get_env_from_source : List EnvSource → Outcome (List EnvVar)
get_env_from_source [] = ok []
get_env_from_source (s ∷ more) = do
  envs ← source_envs s
  after ← get_env_from_source more
  ok (envs ++ after)
