-- ===== src/Templates/Dict.antt =====
-- Dictionaries by name, in the order of their items: a key that is there keeps its place, a new one comes last.
use pyceli.Base.{
  String, str_eq, Bool-cases, List, [], ◌∷◌, map, All, ◌≡◌, ◌≢◌, ◌∙◌, refl, sym, ap₂, Any, inl, inr,
  Option, none, some, arith, eq_iff, if◌then◌else◌, ap, if-cases,
}

module _ {ℓ} {A : Type ℓ} where
  -- `d[key] = value`
  unfoldable pub set_item : String → A → List (String × A) → List (String × A)
  set_item key value [] = (key, value) ∷ []
  set_item key value ((k, v) ∷ more) =
      let rest = set_item key value more in
      if str_eq k key then (k, value) ∷ more else (k, v) ∷ rest

  -- `d.get(key)`
  unfoldable pub get_item : String → List (String × A) → Option A
  get_item key [] = none
  get_item key ((k, v) ∷ more) = if str_eq k key then some v else get_item key more

  -- `list(d.keys())`, `list(d.values())`
  abbrev pub keys : List (String × A) → List String
  keys [] = []
  keys ((k, v) ∷ more) = k ∷ keys more

  abbrev pub values : List (String × A) → List A
  values [] = []
  values ((k, v) ∷ more) = v ∷ values more

  pub set_item-get_item :
      (key : String) (value : A) (d : List (String × A))
      → get_item key (set_item key value d) ≡ some value
  unfolding set_item get_item
  set_item-get_item key value [] = ground (arith, eq_iff key key)
  set_item-get_item key value ((k, v) ∷ more) = ground (arith, set_item-get_item key value more)

  pub set_item-get_item_other :
      (key other : String) (value : A) (d : List (String × A))
      → other ≢ key
      → get_item other (set_item key value d) ≡ get_item other d
  unfolding set_item get_item
  set_item-get_item_other key other value [] h = ground (arith, eq_iff key other)
  set_item-get_item_other key other value ((k, v) ∷ more) h =
      ground (arith, set_item-get_item_other key other value more h, eq_iff k key, eq_iff k other)

  pub get_item-set_item :
      (other key : String) (value : A) (d : List (String × A))
      → get_item other (set_item key value d)
        ≡ (if str_eq key other then some value else get_item other d)
  get_item-set_item other key value d = elim (Bool-cases (str_eq key other)) [
    | inl e ↦
        let same : key ≡ other = (eq_iff key other).0 e in
        ap (λ k. get_item k (set_item key value d)) (sym same)
        ∙ set_item-get_item key value d
        ∙ ground arith
    | inr e ↦
        set_item-get_item_other key other value d (λ q. ground (arith, eq_iff key other))
        ∙ ground arith
  ]

-- No name is there twice.
abbrev pub Distinct : List String → Type 0
Distinct [] = Unit
Distinct (x ∷ xs) = All (λ y. x ≢ y) xs × Distinct xs

module _ {ℓ} {A : Type ℓ} where
  pub set_item-All {κ} :
      (P : String → Type κ) (key : String) (value : A) (d : List (String × A))
      → P key
      → All P (keys d)
      → All P (keys (set_item key value d))
  unfolding set_item
  set_item-All P key value [] p h = (p, tt)
  set_item-All P key value ((k, v) ∷ more) p h = ground (arith, set_item-All P key value more p h.1)

  pub set_item-Distinct :
      (key : String) (value : A) (d : List (String × A))
      → Distinct (keys d)
      → Distinct (keys (set_item key value d))
  unfolding set_item
  set_item-Distinct key value [] h = (tt, tt)
  set_item-Distinct key value ((k, v) ∷ more) h =
      if-cases (λ d. Distinct (keys {A = A} d)) (str_eq k key) (λ e. h)
        (λ e. (
          set_item-All (λ y. k ≢ y) key value more (λ q. ground (arith, eq_iff k key)) h.0,
          set_item-Distinct key value more h.1,
        ))

  -- Each entry stands under its own name.
  abbrev pub Named : (A → String) → List (String × A) → Type 0
  Named name [] = Unit
  Named name ((k, e) ∷ more) = (k ≡ name e) × Named name more

  pub set_item-Named :
      (name : A → String) (e : A) (d : List (String × A))
      → Named name d
      → Named name (set_item (name e) e d)
  unfolding set_item
  set_item-Named name e [] h = (refl, tt)
  set_item-Named name e ((k, v) ∷ more) h =
      if-cases (λ d. Named name d) (str_eq k (name e)) (λ q. ((eq_iff k (name e)).0 q, h.1))
        (λ q. (h.0, set_item-Named name e more h.1))

  pub map-values :
      (name : A → String) (d : List (String × A)) → Named name d → map name (values d) ≡ keys d
  map-values name [] h = refl
  map-values name ((k, e) ∷ more) h = ap₂ (λ x xs. x ∷ xs) (sym h.0) (map-values name more h.1)

pub get_item-Any :
    {A : Type 0} (key : String) (e : A) (d : List (String × A))
    → get_item key d ≡ some e
    → Any (λ v. v ≡ e) (values d)
unfolding get_item
get_item-Any key e [] h = ground arith
get_item-Any key e ((k, v) ∷ more) h = ground (arith, get_item-Any key e more)
