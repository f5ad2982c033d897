-- ===== src/Compare/Action/Fuel.antt =====
-- `determine_update_action` ends: with a result, or in a Python exception.
use pyceli.Base.{suc, max, String, ◌≢◌, List, [], ◌∷◌, arith}
use pyceli.Compare.Value.{Fields, fields_depth}
use pyceli.Compare.Comparer.{
  PathComparison, err, out_of_fuel, QuantityLib, compare_values, find_differences_with,
}
use pyceli.Compare.Comparer.Fuel.{HasFuel, bind-HasFuel, children-HasFuel, compare_values-HasFuel}
use pyceli.Compare.KeyPath.{dict_key}
use pyceli.Compare.Action.{
  any_requires, requires_replacement, filter_spec, find_differences, determine_update_action,
}

requires_replacement-HasFuel :
    (kind : String) (diff : PathComparison) → HasFuel (requires_replacement kind diff)
unfolding requires_replacement
requires_replacement-HasFuel kind diff = ground arith

any_requires-HasFuel :
    (kind : String) (diffs : List PathComparison) → HasFuel (any_requires kind diffs)
unfolding any_requires
any_requires-HasFuel kind [] = ground arith
any_requires-HasFuel kind (diff ∷ diffs) =
    ground (arith, any_requires-HasFuel kind diffs, requires_replacement-HasFuel kind diff)

module _ (lib : QuantityLib) where
  pub find_differences-HasFuel :
      (desired existing : Fields) → HasFuel (find_differences lib desired existing)
  unfolding find_differences find_differences_with
  find_differences-HasFuel desired existing =
      let n = suc (max (fields_depth desired) (fields_depth existing)) in
      children-HasFuel (compare_values lib n) dict_key [] desired existing n (omega arith)
        (compare_values-HasFuel lib n)

  -- For any two specs `determine_update_action` does not run out of the fuel that it gives to the
  -- comparison: it ends with a result or another error. One of these, `not_modelled`, is not of the
  -- program: it stands for what the program does with a container whose name is a number, a Boolean
  -- or None.
  pub determine_update_action-ne-out_of_fuel :
      (kind : String) (desired existing : Fields)
      → determine_update_action lib kind desired existing ≢ err out_of_fuel
  unfolding determine_update_action
  determine_update_action-ne-out_of_fuel kind desired existing =
      bind-HasFuel (find_differences lib (filter_spec desired) (filter_spec existing)) _
        (find_differences-HasFuel (filter_spec desired) (filter_spec existing))
        λ d _.
          bind-HasFuel (any_requires kind d.considered) _ (any_requires-HasFuel kind d.considered)
            λ r _. ground arith
