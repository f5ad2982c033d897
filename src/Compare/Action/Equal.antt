-- ===== src/Compare/Action/Equal.antt =====
-- Specs that are the same need no action.
use pyceli.Base.{
  Bool-cases, inl, inr, suc, max, String, ◌≡◌, refl, true, false, ◌||◌, List, [], ◌∷◌, map, arith,
  str_eq,
}
use pyceli.Compare.Value.{Fields, end, field, fields_depth, get, has_key, FieldsWf, IsWf, value_eq}
use pyceli.Compare.Value.Equality.{value_eq_refl}
use pyceli.Compare.Comparer.{
  equals, PathComparison, Differences, no_differences, Result, ok, QuantityLib, collect,
  are_values_equal, compare_values, find_differences_with, union_keys,
}
use pyceli.Compare.Action.{any_requires, filter_spec, find_differences, determine_update_action}

get-IsWf : (key : String) (fs : Fields) → FieldsWf fs → IsWf (get key fs)
unfolding IsWf
get-IsWf key end w = tt
get-IsWf key (field k v fs) w = elim (Bool-cases (str_eq k key)) [
  | inl i ↦ rw i w.1
  | inr i ↦ rw i (get-IsWf key fs w.2)
]

has_key-filter_spec :
    (key : String) (fs : Fields) → has_key key fs ≡ false → has_key key (filter_spec fs) ≡ false
unfolding filter_spec
has_key-filter_spec key end h = refl
has_key-filter_spec key (field k v fs) h = ground (arith, has_key-filter_spec key fs)

filter_spec-FieldsWf : (fs : Fields) → FieldsWf fs → FieldsWf (filter_spec fs)
unfolding filter_spec FieldsWf
filter_spec-FieldsWf end w = tt
filter_spec-FieldsWf (field k v fs) w = elim (Bool-cases (str_eq k "status" || str_eq k "events")) [
  | inl i ↦ rw i (filter_spec-FieldsWf fs w.2)
  | inr i ↦ rw i (has_key-filter_spec k fs w.0, w.1, filter_spec-FieldsWf fs w.2)
]

collect-none :
    (f : PathComparison → Result Differences) (child : String → PathComparison) (ks : List String)
    → ((key : String) → f (child key) ≡ ok no_differences)
    → collect f (map child ks) ≡ ok no_differences
unfolding collect
collect-none f child [] h = refl
collect-none f child (k ∷ ks) h = rw (h k) (rw (collect-none f child ks h))

module _ (lib : QuantityLib) where
  compare_values-equal :
      (n : _) (pc : PathComparison)
      → value_eq pc.existing pc.desired ≡ true
      → compare_values lib (suc n) pc ≡ ok no_differences
  unfolding compare_values are_values_equal
  compare_values-equal n pc h = rw h

  find_differences_self :
      (fs : Fields) → FieldsWf fs → find_differences lib fs fs ≡ ok no_differences
  unfolding find_differences find_differences_with
  find_differences_self fs w =
      let n = max (fields_depth fs) (fields_depth fs) in
      collect-none (compare_values lib (suc n)) _ (union_keys fs fs)
        λ key. compare_values-equal n _ (value_eq_refl (get key fs) (get-IsWf key fs w))

  -- Comparing a spec with itself finds no difference and decides on `equals`, for every kind.
  pub determine_update_action_self :
      (kind : String) (fs : Fields)
      → FieldsWf fs
      → determine_update_action lib kind fs fs
        ≡ ok (record {
          desired_spec = fs;
          existing_spec = fs;
          update_action = equals;
          differences = no_differences;
        })
  unfolding determine_update_action any_requires
  determine_update_action_self kind fs w =
      rw (find_differences_self (filter_spec fs) (filter_spec-FieldsWf fs w))
