-- ===== src/Compare/Value.antt =====
-- The JSON values that a spec holds, as Python's dict, list, str, int, bool and None. A dict is its
-- items in order. Floats do not stand in specs.
pub mod Equality
pub mod Lookup
use pyceli.Base.{
  ℕ, zero, suc, max, ◌+◌, String, ℤ, pos, negsuc, eqb_ℤ, Bool, true, false, not, ◌&&◌, ◌==◌, List,
  [], ◌∷◌, ◌++◌, Option, none, some, str_eq, if◌then◌else◌, ◌≡◌,
}

mutual
  pub data Value : Type 0 where
    null : Value
    boolean : Bool → Value
    number : ℤ → Value
    text : String → Value
    array : Items → Value
    dict : Fields → Value

  pub data Items : Type 0 where
    nil : Items
    cons : Value → Items → Items

  pub data Fields : Type 0 where
    end : Fields
    field : String → Value → Fields → Fields

-- `fields.get(key)` where a missing key is told apart from None
abbrev pub find : String → Fields → Option Value
find key end = none
find key (field k v fs) = if str_eq k key then some v else find key fs

-- `fields.get(key)`
abbrev pub get : String → Fields → Value
get key end = null
get key (field k v fs) = if str_eq k key then v else get key fs

-- `key in fields`
abbrev pub has_key : String → Fields → Bool
has_key key end = false
has_key key (field k v fs) = if str_eq k key then true else has_key key fs

-- `fields[key] = value`
abbrev pub put : String → Value → Fields → Fields
put key value end = field key value end
put key value (field k v fs) =
    if str_eq k key then field k value fs else field k v (put key value fs)

-- The keys, in order
abbrev pub keys : Fields → List String
keys end = []
keys (field k v fs) = k ∷ keys fs

abbrev pub size : Fields → ℕ
size end = 0
size (field k v fs) = suc (size fs)

-- `bool(value)`
abbrev pub truthy : Value → Bool
truthy null = false
truthy (boolean b) = b
truthy (number n) = not (eqb_ℤ n (pos 0))
truthy (text s) = not (str_eq s "")
truthy (array nil) = false
truthy (array (cons _ _)) = true
truthy (dict end) = false
truthy (dict (field _ _ _)) = true

-- A bool is an int: True is 1 and False is 0.
abbrev as_int : Bool → ℤ
as_int true = pos 1
as_int false = pos 0

-- `a == b`. Two dicts are equal if they have as many items and each item of the one is found,
-- with an equal value, in the other.
unfoldable mutual
  pub value_eq : Value → Value → Bool
  value_eq null null = true
  value_eq (boolean a) (boolean b) = eqb_ℤ (as_int a) (as_int b)
  value_eq (boolean a) (number n) = eqb_ℤ (as_int a) n
  value_eq (number n) (boolean b) = eqb_ℤ n (as_int b)
  value_eq (number m) (number n) = eqb_ℤ m n
  value_eq (text s) (text t) = str_eq s t
  value_eq (array xs) (array ys) = items_eq xs ys
  value_eq (dict fs) (dict gs) = (size fs == size gs) && fields_in fs gs
  value_eq _ _ = false

  pub items_eq : Items → Items → Bool
  items_eq nil nil = true
  items_eq (cons x xs) (cons y ys) = value_eq x y && items_eq xs ys
  items_eq _ _ = false

  pub fields_in : Fields → Fields → Bool
  fields_in end gs = true
  fields_in (field k v fs) gs =
      elim (find k gs) [ none ↦ false | some w ↦ value_eq v w ] && fields_in fs gs

-- How deep dicts and lists are nested
unfoldable mutual
  pub depth : Value → ℕ
  depth null = 0
  depth (boolean b) = 0
  depth (number n) = 0
  depth (text s) = 0
  depth (array xs) = suc (items_depth xs)
  depth (dict fs) = suc (fields_depth fs)

  pub items_depth : Items → ℕ
  items_depth nil = 0
  items_depth (cons x xs) = max (depth x) (items_depth xs)

  pub fields_depth : Fields → ℕ
  fields_depth end = 0
  fields_depth (field k v fs) = max (depth v) (fields_depth fs)

-- No key stands twice, here and below, as in every Python dict.
unfoldable mutual
  pub IsWf : Value → Type 0
  IsWf (array xs) = ItemsWf xs
  IsWf (dict fs) = FieldsWf fs
  IsWf _ = Unit

  pub ItemsWf : Items → Type 0
  ItemsWf nil = Unit
  ItemsWf (cons x xs) = IsWf x × ItemsWf xs

  pub FieldsWf : Fields → Type 0
  FieldsWf end = Unit
  FieldsWf (field k v fs) = (has_key k fs ≡ false) × IsWf v × FieldsWf fs
