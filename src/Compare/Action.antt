-- ===== src/Compare/Action.antt =====
-- piceli/k8s/ops/compare/object_comparer.py: what is to be done about the differences of two specs,
-- `determine_update_action` and the properties of `CompareResult`.
pub mod Fuel
pub mod Decision
pub mod Equal
pub mod Immutable
pub mod Report
use pyceli.Base.{
  ℕ, suc, max, String, Bool, true, false, not, ◌&&◌, ◌||◌, List, [], ◌∷◌, ◌++◌, any, take, length,
  str_eq, if◌then◌else◌,
}
use pyceli.Compare.KeyPath.{PathElem, dict_key, list_elem_id, wildcard, KeyPath, match_sequences}
use pyceli.Compare.KeyPath.Text.{elem_id}
use pyceli.Compare.Value.{Value, Fields, end, field, fields_depth}
use pyceli.Compare.Comparer.{
  UpdateAction, equals, needs_patch, needs_replacement, PathComparison, Differences, Result, ok,
  err, index_error, or_raise, ◌>>=◌, is_none, QuantityLib, compare_values, find_differences_with,
}
use pyceli.Compare.Comparer.Tables.{immutable_fields}

-- `elem == text`, of the three `__eq__`
unfoldable pub elem_eq_text : PathElem → String → Bool
unfolding elem_id
elem_eq_text wildcard s = false
elem_eq_text x s = str_eq (elem_id x) s

-- `diff.path[: len(field)] == field`, for some immutable field
unfoldable pub is_immutable_path : KeyPath → Bool
is_immutable_path path = any (λ f. match_sequences (take (length f) path) f) immutable_fields

-- `diff.path[1] != "resources"`
abbrev pub not_in_resources : KeyPath → Result Bool
not_in_resources [] = err index_error
not_in_resources (x ∷ []) = err index_error
not_in_resources (x ∷ y ∷ rest) = ok (not (elem_eq_text y "resources"))

-- `diff.path[0] == "spec"`
abbrev pub in_spec : KeyPath → Result Bool
in_spec [] = err index_error
in_spec (x ∷ rest) = ok (elem_eq_text x "spec")

-- The second half of `requires_replacement`: the spec of a claim is immutable but for its resources.
abbrev pub claim_requires_replacement : PathComparison → Result Bool
claim_requires_replacement diff = do
  spec ← in_spec diff.path
  if spec then (if is_none diff.desired then ok false else not_in_resources diff.path) else ok false

unfoldable pub requires_replacement : String → PathComparison → Result Bool
unfolding is_immutable_path elem_eq_text
requires_replacement kind diff =
    if is_immutable_path diff.path
    then ok true
    else if str_eq kind "PersistentVolumeClaim"
    then claim_requires_replacement diff
    else ok false

-- `any(diff for diff in considered if requires_replacement(kind, diff))`
unfoldable pub any_requires : String → List PathComparison → Result Bool
any_requires kind [] = ok false
any_requires kind (diff ∷ diffs) = do
  required ← requires_replacement kind diff
  if required then ok true else any_requires kind diffs

-- `filter_spec`
unfoldable pub filter_spec : Fields → Fields
filter_spec end = end
filter_spec (field k v fs) =
    if str_eq k "status" || str_eq k "events" then filter_spec fs else field k v (filter_spec fs)

pub record CompareResult : Type 0 where
  pub desired_spec : Fields
  pub existing_spec : Fields
  pub update_action : UpdateAction
  pub differences : Differences

abbrev pub no_action_needed : CompareResult → Bool
no_action_needed r = elim r.update_action [ equals ↦ true | _ ↦ false ]

abbrev pub needs_a_patch : CompareResult → Bool
needs_a_patch r = elim r.update_action [ needs_patch ↦ true | _ ↦ false ]

-- The last `if` of `_determine_update_action`
abbrev pub action_for : Bool → List PathComparison → UpdateAction
action_for true considered = needs_replacement
action_for false (_ ∷ _) = needs_patch
action_for false [] = equals

module _ (lib : QuantityLib) where
  -- `find_differences` of two specs. The fuel is one more than the depth of the deeper one.
  unfoldable pub find_differences : Fields → Fields → Result Differences
  find_differences desired existing =
      let n = suc (max (fields_depth desired) (fields_depth existing)) in
      find_differences_with lib (compare_values lib n) desired existing []

  -- `_determine_update_action`
  unfoldable pub determine_update_action : String → Fields → Fields → Result CompareResult
  determine_update_action kind desired existing = do
    differences ← find_differences (filter_spec desired) (filter_spec existing)
    required ← any_requires kind differences.considered
    ok (record {
      desired_spec = desired;
      existing_spec = existing;
      update_action = action_for required differences.considered;
      differences = differences;
    })
