-- ===== src/Templates/Tests.antt =====
-- Labels and environments at concrete inputs, and the theorems on them there.
use pyceli.Base.{String, ◌≡◌, ◌↔◌, refl, map, All, List, [], ◌∷◌, ◌++◌}
use pyceli.Templates.Dict.{Distinct}
use pyceli.Templates.Labels.{valid, invalid, bad_length, bad_characters, check_labels}
use pyceli.Templates.Labels.Accepts.{IsLabel, check_labels-IsLabel}
use pyceli.Templates.EnvVars.{EnvVar, get_env_pair, upsert_envvars}
use pyceli.Templates.EnvVars.Merge.{env_name, last_named, upsert_envvars-last_named}

abbrev some_labels : List (String × String)
some_labels = ("team", "core-1") ∷ ("app.kind", "Web_1.2") ∷ ("empty", "") ∷ []

some_labels_pass : check_labels some_labels ≡ valid
unfolding check_labels
some_labels_pass = refl

-- A value that ends in a dash passes, and a key with a prefix does not.
dash_passes : check_labels (("app", "web-") ∷ []) ≡ valid
unfolding check_labels
dash_passes = refl

prefix_fails : check_labels (("example.com/app", "web") ∷ []) ≡ invalid bad_characters
unfolding check_labels
prefix_fails = refl

first_failure : check_labels (("team", "") ∷ ("-a", "web") ∷ []) ≡ invalid bad_length
unfolding check_labels
first_failure = refl

check_labels-IsLabel_example : (check_labels some_labels ≡ valid) ↔ All IsLabel some_labels
check_labels-IsLabel_example = check_labels-IsLabel some_labels

abbrev base_env : List EnvVar
base_env = get_env_pair "HOME" "/a" ∷ get_env_pair "MODE" "slow" ∷ get_env_pair "HOME" "/b" ∷ []

abbrev new_env : List EnvVar
new_env = get_env_pair "MODE" "fast" ∷ get_env_pair "LEVEL" "1" ∷ []

merged_env :
    upsert_envvars base_env new_env
    ≡ (get_env_pair "HOME" "/b" ∷ get_env_pair "MODE" "fast" ∷ get_env_pair "LEVEL" "1" ∷ [])
unfolding upsert_envvars
merged_env = refl

upsert_envvars-last_named_example :
    Distinct (map env_name (upsert_envvars base_env new_env))
    × ((name : String)
        → last_named name (upsert_envvars base_env new_env) ≡ last_named name (base_env ++ new_env))
upsert_envvars-last_named_example = upsert_envvars-last_named base_env new_env
