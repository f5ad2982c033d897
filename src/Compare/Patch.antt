-- ===== src/Compare/Patch.antt =====
-- piceli/k8s/ops/compare/object_comparer.py: `CompareResult.patch_document` and
-- `_is_path_in_desired`. The nested dicts and lists of the patch are rebuilt along the path, where
-- Python changes them in place.
use pyceli.Base.{String, Bool, true, false, List, [], ◌∷◌, Option, none, some, if◌then◌else◌}
use pyceli.Compare.KeyPath.{PathElem, dict_key, list_elem_id, wildcard, KeyPath}
use pyceli.Compare.Value.{
  Value, text, array, dict, Items, nil, cons, Fields, end, field, find, get, put, value_eq,
}
use pyceli.Compare.Comparer.{
  PathComparison, Result, ok, err, value_error, type_error, attribute_error, index_error, ◌>>=◌,
}
use pyceli.Compare.Action.{CompareResult}

-- `id_value == elem.get(id_field)`
abbrev pub has_id : String → String → Value → Result Bool
has_id id_field id_value (dict fs) = ok (value_eq (text id_value) (get id_field fs))
has_id id_field id_value _ = err attribute_error

-- The loop of `_is_path_in_desired` over a list: the last element with the id, or the list itself
unfoldable pub last_with_id : String → String → Items → Value → Result Value
last_with_id id_field id_value nil current = ok current
last_with_id id_field id_value (cons x xs) current = do
  found ← has_id id_field id_value x
  last_with_id id_field id_value xs (if found then x else current)

-- `key in current`, then `current[key]`. A key is in a list if the text is an element, which then
-- fails as an index; `none` says that the key is not there.
unfoldable pub has_text : String → Items → Bool
has_text key nil = false
has_text key (cons x xs) = if value_eq x (text key) then true else has_text key xs

abbrev pub step_in : PathElem → Value → Result (Option Value)
step_in (dict_key key) (dict fs) = ok (find key fs)
step_in (dict_key key) (array xs) = if has_text key xs then err type_error else ok none
step_in _ (dict fs) = ok none
step_in _ (array xs) = ok none
step_in _ _ = err type_error

unfoldable pub is_path_in : KeyPath → Value → Result Bool
unfolding last_with_id has_text
is_path_in [] current = ok true
is_path_in (list_elem_id id_field id_value ∷ path) (array xs) = do
  next ← last_with_id id_field id_value xs (array xs)
  is_path_in path next
is_path_in (x ∷ path) current = do
  next ← step_in x current
  elim next [ none ↦ ok false | some v ↦ is_path_in path v ]

-- `_is_path_in_desired`
unfoldable pub is_path_in_desired : CompareResult → KeyPath → Result Bool
is_path_in_desired r path = is_path_in path (dict r.desired_spec)

-- `current`, made a list if it is none
abbrev pub items_or_empty : Value → Items
items_or_empty (array xs) = xs
items_or_empty _ = nil

abbrev pub append_item : Items → Value → Items
append_item nil v = cons v nil
append_item (cons x xs) v = cons x (append_item xs v)

-- The loop over `current` with its `else`: go on in the first element with the id, or in a new one
unfoldable pub place_in_items : (Value → Result Value) → String → String → Items → Result Items
place_in_items go id_field id_value nil = do
  x ← go (dict (field id_field (text id_value) end))
  ok (cons x nil)
place_in_items go id_field id_value (cons x xs) = do
  found ← has_id id_field id_value x
  if found
      then (go x >>= λ y. ok (cons y xs))
      else (place_in_items go id_field id_value xs >>= λ ys. ok (cons x ys))

-- `current.setdefault(key, {})`
abbrev pub set_default : String → Fields → Value
set_default key fs = elim (find key fs) [ some v ↦ v | none ↦ dict end ]

-- The walk along `diff.path` and the assignment at its end: what `current` becomes. `after_key` says
-- that the element before was a `DictKey`, so that `previous` is a dict with that key.
unfoldable pub place : Bool → KeyPath → Value → Value → Result Value
unfolding place_in_items
place after_key [] desired current = err index_error
place after_key (list_elem_id id_field id_value ∷ []) desired current =
    if after_key then ok (array (append_item (items_or_empty current) desired)) else err value_error
place after_key (dict_key key ∷ []) desired (dict fs) = ok (dict (put key desired fs))
place after_key (dict_key key ∷ []) desired _ = err type_error
place after_key (list_elem_id id_field id_value ∷ x ∷ path) desired current =
    if after_key
    then (place_in_items (place false (x ∷ path) desired) id_field id_value (items_or_empty current)
        >>= λ items. ok (array items))
    else err value_error
place after_key (dict_key key ∷ x ∷ path) desired (dict fs) = do
  v ← place true (x ∷ path) desired (set_default key fs)
  ok (dict (put key v fs))
place after_key (dict_key key ∷ x ∷ path) desired _ = err attribute_error
place after_key (wildcard ∷ path) desired current = err value_error

-- The loop of `patch_document`
unfoldable pub patch_from : CompareResult → List PathComparison → Value → Result Value
patch_from r [] patch = ok patch
patch_from r (diff ∷ diffs) patch = do
  wanted ← is_path_in_desired r diff.path
  next ← (if wanted then place false diff.path diff.desired patch else ok patch)
  patch_from r diffs next

unfoldable pub patch_document : CompareResult → Result Value
patch_document r = patch_from r r.differences.considered (dict end)
