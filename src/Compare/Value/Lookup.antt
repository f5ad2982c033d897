-- ===== src/Compare/Value/Lookup.antt =====
-- Reading a value at a path.
use pyceli.Base.{
  some, String, ◌≡◌, refl, Bool, false, [], ◌∷◌, ◌++◌, arith, eq_iff, str_eq, if◌then◌else◌,
}
use pyceli.Compare.KeyPath.{PathElem, dict_key, list_elem_id, KeyPath}
use pyceli.Compare.Value.{
  Value, null, text, array, dict, Items, nil, cons, Fields, end, field, find, get, put,
}

-- A dict whose field holds the given text
abbrev pub has_text_id : String → String → Value → Bool
has_text_id id_field id (dict fs) = elim (find id_field fs) [
  | some (text s) ↦ str_eq s id
  | _ ↦ false
]
has_text_id id_field id _ = false

-- The last element of a list that is such a dict, or `current`
abbrev pub elem_with_id : String → String → Items → Value → Value
elem_with_id id_field id nil current = current
elem_with_id id_field id (cons x xs) current =
    elem_with_id id_field id xs (if has_text_id id_field id x then x else current)

-- The part of a value that a path element names; None where there is none
abbrev pub part : PathElem → Value → Value
part (dict_key key) (dict fs) = get key fs
part (list_elem_id id_field id) (array xs) = elem_with_id id_field id xs null
part _ _ = null

abbrev pub at : KeyPath → Value → Value
at [] v = v
at (x ∷ path) v = at path (part x v)

pub at-append : (p q : KeyPath) (v : Value) → at (p ++ q) v ≡ at q (at p v)
at-append [] q v = refl
at-append (x ∷ p) q v = at-append p q (part x v)

pub get-put :
    (key j : String) (v : Value) (fs : Fields)
    → get j (put key v fs) ≡ (if str_eq key j then v else get j fs)
get-put key j v end = refl
get-put key j v (field k w fs) =
    ground (arith, eq_iff k key, eq_iff k j, eq_iff key j, get-put key j v fs)
