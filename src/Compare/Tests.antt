-- ===== src/Compare/Tests.antt =====
-- Runs of the comparison, and the theorems of the folder at concrete inputs.
use pyceli.Base.{
  String, List, none, pos, ◌≡◌, ◌≢◌, refl, ◌↔◌, ◌++◌, true, false, [], ◌∷◌, some, arith, Any,
}
use pyceli.Objects.{K8sObject, id_eq}
use pyceli.Compare.Sets.{ObjectDifferences, compare_namespace, compare_object_sets}
use pyceli.Compare.Sets.Classifies.{Classifies, compare_namespace-Classifies}
use pyceli.Compare.KeyPath.{
  KeyPath, dict_key, list_elem_id, wildcard, match_sequences, wildcard_contains,
  path_matches_any_with_wildcard,
}
use pyceli.Compare.KeyPath.Glob.{Glob}
use pyceli.Compare.KeyPath.Matching.{Answers, match_sequences_iff, wildcard_contains_answers}
use pyceli.Compare.KeyPath.Text.{path_to_string, from_string}
use pyceli.Compare.KeyPath.Text.RoundTrip.{from_string-path_to_string}
use pyceli.Compare.Value.{
  Value, null, number, text, dict, Fields, end, field, FieldsWf, value_eq, fields_depth,
}
use pyceli.Compare.Comparer.{
  equals, needs_patch, PathComparison, Differences, no_differences, ok, err, out_of_fuel,
  QuantityLib, are_values_equal, compare_values, is_path_ignored, is_path_defaulted,
  find_differences_with, compare_different, compare_parts, contains_any,
}
use pyceli.Compare.Comparer.Tables.{
  ignored_paths, defaulted_paths, immutable_fields, path_with_id_list, resource_keys,
}
use pyceli.Compare.Comparer.Covers
use pyceli.Compare.Comparer.Covers.{is_path_ignored-Decides, is_path_defaulted_iff}
use pyceli.Compare.Comparer.Sound.{Reports}
use pyceli.Compare.Action.{
  CompareResult, determine_update_action, find_differences, filter_spec, any_requires,
  requires_replacement,
}
use pyceli.Compare.Action.Fuel.{determine_update_action-ne-out_of_fuel}
use pyceli.Compare.Action.Report.{IsFound, find_differences-Reports}
use pyceli.Compare.Action.Decision.{IsDecided, determine_update_action-IsDecided}
use pyceli.Compare.Action.Equal.{determine_update_action_self}

-- Quantities that are compared as they are written
abbrev verbatim : QuantityLib
verbatim = record { Amount = Value; parse_quantity = λ v. some v; amount_eq = value_eq }

-- A deployment with the given number of replicas, and what the cluster adds to it
abbrev desired_spec : Fields
desired_spec =
    field "kind" (text "Deployment")
      (field "spec" (dict (field "replicas" (number (pos 2)) end)) end)

abbrev existing_spec : Fields
existing_spec = field "kind" (text "Deployment") (
    field "spec"
      (dict
        (field "replicas" (number (pos 1)) (field "revisionHistoryLimit" (number (pos 10)) end)))
      (field "metadata" (dict (field "uid" (text "u1") end)) end))

abbrev replicas_differ : PathComparison
replicas_differ = record {
  path = dict_key "spec" ∷ dict_key "replicas" ∷ [];
  existing = number (pos 1);
  desired = number (pos 2);
}

abbrev sample_differences : Differences
sample_differences = record {
  considered = replicas_differ ∷ [];
  ignored =
      record {
        path = dict_key "metadata" ∷ dict_key "uid" ∷ [];
        existing = text "u1";
        desired = null;
      }
      ∷ [];
  defaults =
      record {
        path = dict_key "spec" ∷ dict_key "revisionHistoryLimit" ∷ [];
        existing = number (pos 10);
        desired = null;
      }
      ∷ [];
}

abbrev sample_result : CompareResult
sample_result = record {
  desired_spec = desired_spec;
  existing_spec = existing_spec;
  update_action = needs_patch;
  differences = sample_differences;
}

program : Unit {0}
unfolding determine_update_action find_differences find_differences_with compare_values
    compare_different compare_parts is_path_ignored is_path_defaulted contains_any are_values_equal
    ignored_paths defaulted_paths immutable_fields path_with_id_list resource_keys filter_spec
    any_requires requires_replacement match_sequences wildcard_contains value_eq fields_depth
    path_matches_any_with_wildcard
program = tt

find_differences_sample :
    find_differences verbatim desired_spec existing_spec ≡ ok sample_differences
unfolding program
find_differences_sample = refl

determine_update_action_sample :
    determine_update_action verbatim "Deployment" desired_spec existing_spec ≡ ok sample_result
unfolding program
determine_update_action_sample = refl

determine_update_action-IsDecided_example : IsDecided "Deployment" sample_result
determine_update_action-IsDecided_example =
    determine_update_action-IsDecided verbatim "Deployment" desired_spec existing_spec sample_result
      determine_update_action_sample

find_differences-Reports_example :
    Reports verbatim (IsFound desired_spec existing_spec) sample_differences
find_differences-Reports_example =
    find_differences-Reports desired_spec existing_spec verbatim sample_differences
      find_differences_sample

determine_update_action-ne-out_of_fuel_example :
    determine_update_action verbatim "Deployment" desired_spec existing_spec ≢ err out_of_fuel
determine_update_action-ne-out_of_fuel_example =
    determine_update_action-ne-out_of_fuel verbatim "Deployment" desired_spec existing_spec

is_path_ignored-Decides_example :
    Covers.Decides
      (is_path_ignored (record {
        path = dict_key "metadata" ∷ dict_key "uid" ∷ [];
        existing = null;
        desired = null;
      }))
      (Any
        (λ p. (more : KeyPath) × (dict_key "metadata" ∷ dict_key "uid" ∷ [] ≡ p ++ more))
        ignored_paths)
is_path_ignored-Decides_example =
    is_path_ignored-Decides (dict_key "metadata") (dict_key "uid" ∷ []) null null (refl, (refl, tt))

is_path_defaulted_iff_example : (is_path_defaulted replicas_differ ≡ true) ↔ (
    Any (λ p. Glob false p replicas_differ.path) defaulted_paths
    × (replicas_differ.desired ≡ null)
    × (replicas_differ.existing ≢ null))
is_path_defaulted_iff_example = is_path_defaulted_iff replicas_differ (refl, (refl, tt))

existing_spec-FieldsWf : FieldsWf existing_spec
unfolding FieldsWf
existing_spec-FieldsWf = ground arith

determine_update_action_self_example :
    determine_update_action verbatim "Deployment" existing_spec existing_spec
    ≡ ok (record {
      desired_spec = existing_spec;
      existing_spec = existing_spec;
      update_action = equals;
      differences = no_differences;
    })
determine_update_action_self_example =
    determine_update_action_self verbatim "Deployment" existing_spec existing_spec-FieldsWf

-- `*,spec,containers,*,imagePullPolicy` and the path of a container of a deployment
abbrev pull_policy_pattern : KeyPath
pull_policy_pattern =
    wildcard ∷ dict_key "spec" ∷ dict_key "containers" ∷ wildcard ∷ dict_key "imagePullPolicy" ∷ []

abbrev pull_policy_path : KeyPath
pull_policy_path =
    dict_key "spec"
    ∷ dict_key "template"
    ∷ dict_key "spec"
    ∷ dict_key "containers"
    ∷ list_elem_id "name" "web"
    ∷ dict_key "imagePullPolicy"
    ∷ []

match_pull_policy : match_sequences pull_policy_path pull_policy_pattern ≡ true
unfolding program
match_pull_policy = refl

match_sequences_iff_example :
    ((match_sequences pull_policy_pattern pull_policy_path ≡ true)
      ↔ Glob false pull_policy_pattern pull_policy_path)
    × ((match_sequences pull_policy_path pull_policy_pattern ≡ true)
        ↔ Glob false pull_policy_pattern pull_policy_path)
match_sequences_iff_example =
    match_sequences_iff pull_policy_pattern pull_policy_path
      (refl, (refl, (refl, (refl, (refl, (refl, tt))))))

wildcard_contains_answers_example :
    Answers
      (wildcard_contains (wildcard ∷ dict_key "spec" ∷ []) (dict_key "a" ∷ dict_key "spec" ∷ []))
      (Glob true (wildcard ∷ dict_key "spec" ∷ []) (dict_key "a" ∷ dict_key "spec" ∷ []))
wildcard_contains_answers_example =
    wildcard_contains_answers wildcard (dict_key "a") (dict_key "spec" ∷ []) (dict_key "spec" ∷ [])
      (refl, (refl, tt))

from_string-path_to_string_example :
    from_string (path_to_string (dict_key "spec" ∷ list_elem_id "name" "web" ∷ []))
    ≡ some (dict_key "spec" ∷ list_elem_id "name" "web" ∷ [])
from_string-path_to_string_example =
    from_string-path_to_string (dict_key "spec") (list_elem_id "name" "web" ∷ [])
      ((refl, refl, refl), ((refl, refl, refl, refl), tt))

-- The deployment is changed, the secret is removed, and the service is new.
abbrev object_of : String → Fields → K8sObject
object_of kind spec = record { spec = spec; name = "web"; kind = kind; namespace = none }

abbrev objects_before : List K8sObject
objects_before = object_of "Deployment" existing_spec ∷ object_of "Secret" end ∷ []

abbrev objects_after : List K8sObject
objects_after = object_of "Deployment" desired_spec ∷ object_of "Service" end ∷ []

abbrev sample_object_differences : ObjectDifferences
sample_object_differences = record {
  added = object_of "Service" end ∷ [];
  removed = object_of "Secret" end ∷ [];
  modified =
      (
        record { name = "web"; kind = "Deployment"; namespace = none },
        record {
          before = object_of "Deployment" existing_spec;
          after = object_of "Deployment" desired_spec;
          compare_result = sample_result;
        },
      )
      ∷ [];
}

compare_namespace-sample :
    compare_namespace verbatim objects_before objects_after ≡ ok sample_object_differences
unfolding program compare_namespace id_eq
compare_namespace-sample = refl

compare_object_sets-sample :
    compare_object_sets verbatim
      ((none, objects_before) ∷ [])
      ((none, objects_after) ∷ (some "other", []) ∷ [])
    ≡ ok (
        (none, sample_object_differences)
        ∷ (some "other", record { added = []; removed = []; modified = [] })
        ∷ [])
unfolding program compare_object_sets id_eq
compare_object_sets-sample = refl

compare_namespace-Classifies_example :
    Classifies verbatim objects_before objects_after sample_object_differences
compare_namespace-Classifies_example =
    compare_namespace-Classifies verbatim objects_before objects_after sample_object_differences
      compare_namespace-sample
