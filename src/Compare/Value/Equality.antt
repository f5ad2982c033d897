-- ===== src/Compare/Value/Equality.antt =====
-- `==` on values.
use pyceli.Base.{◌==◌, some, ◌≡◌, refl, true, false, arith, eq_iff, eqb_ℤ_iff, String}
use pyceli.Compare.Value.{
  Value, null, boolean, number, text, array, dict, Items, nil, cons, Fields, end, field, find,
  has_key, size, value_eq, items_eq, fields_in, IsWf, ItemsWf, FieldsWf,
}

-- Each item of the first dict is found in the second.
abbrev AreFound : Fields → Fields → Type 0
AreFound end gs = Unit
AreFound (field k v fs) gs = (find k gs ≡ some v) × AreFound fs gs

AreFound-field :
    (fs gs : Fields) (k : String) (v : Value)
    → has_key k fs ≡ false
    → AreFound fs gs
    → AreFound fs (field k v gs)
AreFound-field end gs k v h a = tt
AreFound-field (field j w fs) gs k v h a =
    (ground (arith, eq_iff j k, eq_iff k j), AreFound-field fs gs k v (ground arith) a.1)

AreFound-self : (fs : Fields) → FieldsWf fs → AreFound fs fs
unfolding FieldsWf
AreFound-self end w = tt
AreFound-self (field k v fs) w =
    (ground (arith, eq_iff k k), AreFound-field fs fs k v w.0 (AreFound-self fs w.2))

size_eq_self : (fs : Fields) → (size fs == size fs) ≡ true
size_eq_self fs = ground arith

mutual
  unfolding value_eq IsWf

  eq_self : (v : Value) → IsWf v → value_eq v v ≡ true
  eq_self null w = refl
  eq_self (boolean true) w = refl
  eq_self (boolean false) w = refl
  eq_self (number n) w = (eqb_ℤ_iff n n).1 refl
  eq_self (text s) w = (eq_iff s s).1 refl
  eq_self (array xs) w = items_eq_self xs w
  eq_self (dict fs) w = rw (size_eq_self fs) (fields_in_self fs fs w (AreFound-self fs w))

  items_eq_self : (xs : Items) → ItemsWf xs → items_eq xs xs ≡ true
  items_eq_self nil w = refl
  items_eq_self (cons x xs) w = rw (eq_self x w.0) (items_eq_self xs w.1)

  fields_in_self : (fs gs : Fields) → FieldsWf fs → AreFound fs gs → fields_in fs gs ≡ true
  fields_in_self end gs w a = refl
  fields_in_self (field k v fs) gs w a =
      rw (a.0) (rw (eq_self v w.1) (fields_in_self fs gs w.2 a.1))

-- A value is equal to itself, if no dict in it has a key twice.
pub value_eq_refl : (v : Value) → IsWf v → value_eq v v ≡ true
value_eq_refl v w = eq_self v w
