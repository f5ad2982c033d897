-- ===== src/Compare/Comparer.antt =====
-- piceli/k8s/ops/compare/object_comparer.py: which differences of two specs count, and what is to
-- be done about them. `Differences`, `CompareResult` and the paths of the tables.
pub mod Tables
pub mod Fuel
pub mod Sound
pub mod Covers
use Tables.{ignored_paths, defaulted_paths, immutable_fields, path_with_id_list, resource_keys}
use pyceli.Base.{
  ℕ, zero, suc, String, ◌≡◌, refl, Bool, true, false, not, ◌&&◌, ◌||◌, List, [], ◌∷◌, ◌++◌, map,
  Option, none, some, str_eq, if◌then◌else◌, any, take, length, ℤ,
}
use pyceli.Compare.KeyPath.{
  PathElem, dict_key, list_elem_id, wildcard, KeyPath, match_sequences, wildcard_contains,
  path_matches_any_with_wildcard,
}
use pyceli.Compare.Value.{
  Value, null, boolean, number, text, array, dict, Items, nil, cons, Fields, end, field, find, get,
  has_key, put, keys, truthy, value_eq,
}

pub data UpdateAction : Type 0 where
  equals needs_patch needs_replacement : UpdateAction

-- `existing` and `desired` are None, here `null`, where a key is missing.
pub record PathComparison : Type 0 where
  pub path : KeyPath
  pub existing : Value
  pub desired : Value

pub record Differences : Type 0 where
  pub considered : List PathComparison
  pub ignored : List PathComparison
  pub defaults : List PathComparison

abbrev pub no_differences : Differences
no_differences = record { considered = []; ignored = []; defaults = [] }

-- `Differences.extend`
abbrev pub extend : Differences → Differences → Differences
extend d e = record {
  considered = d.considered ++ e.considered;
  ignored = d.ignored ++ e.ignored;
  defaults = d.defaults ++ e.defaults;
}

-- The Python exceptions that a comparison can end with. `out_of_fuel` belongs to the model only;
-- `not_modelled` is an id in a list of dicts that is no str, against its annotation.
pub data Error : Type 0 where
  value_error type_error key_error index_error attribute_error not_modelled out_of_fuel : Error

pub data Result (A : Type 0) : Type 0 where
  ok : A → Result A
  err : Error → Result A

infixl 5 ◌>>=◌
abbrev pub ◌>>=◌ : {A B : Type 0} → Result A → (A → Result B) → Result B
ok a >>= f = f a
err e >>= f = err e

abbrev pub or_raise : {A : Type 0} → Option A → Error → Result A
or_raise none e = err e
or_raise (some a) e = ok a

-- `path[-1]`
abbrev pub last : KeyPath → Option PathElem
last [] = none
last (x ∷ []) = some x
last (_ ∷ x ∷ xs) = last (x ∷ xs)

-- `elem in keys`, for a set of texts: a list element's id is no text of the set.
abbrev pub is_one_of : PathElem → List String → Bool
is_one_of (dict_key key) names = any (str_eq key) names
is_one_of _ names = false

-- The calls of `wildcard_contains_path` in `is_path_ignored`, up to the first that is true
unfoldable pub contains_any : List KeyPath → KeyPath → Result Bool
contains_any [] path = ok false
contains_any (p ∷ ps) path = do
  contained ← or_raise (wildcard_contains p path) index_error
  if contained then ok true else contains_any ps path

unfoldable pub is_path_ignored : PathComparison → Result Bool
is_path_ignored pc = contains_any ignored_paths pc.path

abbrev pub is_none : Value → Bool
is_none null = true
is_none _ = false

unfoldable pub is_path_defaulted : PathComparison → Bool
is_path_defaulted pc =
    path_matches_any_with_wildcard pc.path defaulted_paths
    && (is_none pc.desired && not (is_none pc.existing))

-- `kubernetes.utils.quantity.parse_quantity`, which is not part of the repository: `none` is its
-- `ValueError`, and amounts are compared by `==`.
pub record QuantityLib : Type 1 where
  pub Amount : Type 0
  pub parse_quantity : Value → Option Amount
  pub amount_eq : Amount → Amount → Bool

-- `value is None or isinstance(value, dict)`
abbrev pub is_none_or_dict : Value → Bool
is_none_or_dict null = true
is_none_or_dict (dict _) = true
is_none_or_dict _ = false

-- `value or {}`, for None or a dict
abbrev pub as_fields : Value → Fields
as_fields (dict fs) = fs
as_fields _ = end

-- `iter(value or [])`, where the elements are then indexed by a text: all that is not a list and not
-- empty ends in a `TypeError`.
abbrev pub as_items : Value → Result Items
as_items (array xs) = ok xs
as_items v = if truthy v then err type_error else ok nil

-- The members of `set(desired).union(existing)`, here in the order of the dicts
abbrev pub new_keys : Fields → Fields → List String
new_keys known end = []
new_keys known (field k v fs) = if has_key k known then new_keys known fs else k ∷ new_keys known fs

abbrev pub union_keys : Fields → Fields → List String
union_keys desired existing = keys desired ++ new_keys desired existing

-- The comparisons of the items of two dicts, each with its path
abbrev pub children : (String → PathElem) → KeyPath → Fields → Fields → List PathComparison
children elem prefix desired existing =
    map
      (λ key. record {
        path = prefix ++ elem key ∷ [];
        existing = get key existing;
        desired = get key desired;
      })
      (union_keys desired existing)

-- `{elem[id_field]: elem for elem in items}`
abbrev pub id_of : String → Value → Result String
id_of id_field (dict fs) = elim (find id_field fs) [
  | some (text s) ↦ ok s
  | some (dict _) ↦ err type_error
  | some (array _) ↦ err type_error
  | some _ ↦ err not_modelled
  | none ↦ err key_error
]
id_of id_field _ = err type_error

unfoldable pub index_by_id : String → Items → Fields → Result Fields
index_by_id id_field nil acc = ok acc
index_by_id id_field (cons x xs) acc = do
  id ← id_of id_field x
  index_by_id id_field xs (put id x acc)

-- `PATH_WITH_ID_LIST[path]`, if `path` is in it
abbrev pub id_list_field : List (KeyPath × String) → KeyPath → Option String
id_list_field [] path = none
id_list_field ((p, id_field) ∷ ps) path =
    if match_sequences p path then some id_field else id_list_field ps path

-- The loops over the keys: `differences.extend(compare_values(path_comparison))`
unfoldable pub collect :
    (PathComparison → Result Differences) → List PathComparison → Result Differences
collect f [] = ok no_differences
collect f (pc ∷ pcs) = do here ← f pc; rest ← collect f pcs; ok (extend here rest)

module _ (lib : QuantityLib) where
  open lib use {parse_quantity, amount_eq}

  -- Two amounts are compared by their values.
  unfoldable pub same_amount : Value → Value → Result Bool
  same_amount existing desired = do
    e ← or_raise (parse_quantity existing) value_error
    d ← or_raise (parse_quantity desired) value_error
    ok (amount_eq e d)

  unfoldable pub are_values_equal : PathComparison → Result Bool
  unfolding same_amount
  are_values_equal pc =
      if value_eq pc.existing pc.desired
      then ok true
      else (or_raise (last pc.path) index_error >>= λ elem.
          if is_one_of elem resource_keys && (truthy pc.existing && truthy pc.desired)
          then same_amount pc.existing pc.desired
          else ok false)

  -- The calls that `compare_values` makes of the two functions that call it back, as `recur`
  unfoldable pub find_id_list_differences :
      (PathComparison → Result Differences) → String → Value → Value → KeyPath → Result Differences
  unfolding collect index_by_id
  find_id_list_differences recur id_field desired existing prefix = do
    desired_items ← as_items desired
    desired_elems ← index_by_id id_field desired_items end
    existing_items ← as_items existing
    existing_elems ← index_by_id id_field existing_items end
    collect recur (children (list_elem_id id_field) prefix desired_elems existing_elems)

  unfoldable pub find_differences_with :
      (PathComparison → Result Differences) → Fields → Fields → KeyPath → Result Differences
  unfolding collect
  find_differences_with recur desired existing prefix =
      collect recur (children dict_key prefix desired existing)

  -- The last two branches of `compare_values`
  unfoldable pub compare_parts :
      (PathComparison → Result Differences) → PathComparison → Result Differences
  compare_parts recur pc =
      if is_none_or_dict pc.desired && is_none_or_dict pc.existing
      then find_differences_with recur (as_fields pc.desired) (as_fields pc.existing) pc.path
      else elim (id_list_field path_with_id_list pc.path) [
        | some id_field ↦ find_id_list_differences recur id_field pc.desired pc.existing pc.path
        | none ↦ ok (record no_differences { considered = pc ∷ [] })
      ]

  -- `compare_values` behind its first test
  unfoldable pub compare_different :
      (PathComparison → Result Differences) → PathComparison → Result Differences
  compare_different recur pc = do
    ignored ← is_path_ignored pc
    if ignored
        then ok (record no_differences { ignored = pc ∷ [] })
        else if is_path_defaulted pc
        then ok (record no_differences { defaults = pc ∷ [] })
        else compare_parts recur pc

  -- `compare_values`. It is called back at the parts of the two values, on a smaller fuel.
  unfoldable pub compare_values : ℕ → PathComparison → Result Differences
  compare_values zero pc = err out_of_fuel
  compare_values (suc n) pc = do
    equal ← are_values_equal pc
    if equal then ok no_differences else compare_different (compare_values n) pc
