-- ===== src/Objects.antt =====
-- piceli/k8s/k8s_objects/base.py: Kubernetes objects and their identifiers.
use pyceli.Base.{
  String, ◌≡◌, refl, ◌↔◌, Bool, true, false, ◌&&◌, List, [], ◌∷◌, Option, none, some, arith, str_eq,
  eq_iff, ◌||◌,
}
use pyceli.Compare.Value.{Fields}

-- `K8sObjectIdentifier`
pub record Identifier : Type 0 where
  pub name : String
  pub kind : String
  pub namespace : Option String

-- `==` on two optional texts
abbrev pub option_eq : Option String → Option String → Bool
option_eq none none = true
option_eq (some s) (some t) = str_eq s t
option_eq _ _ = false

-- The generated `__eq__`: all fields are equal.
unfoldable pub id_eq : Identifier → Identifier → Bool
id_eq a b = str_eq a.name b.name && (str_eq a.kind b.kind && option_eq a.namespace b.namespace)

pub option_eq_iff : (a b : Option String) → (option_eq a b ≡ true) ↔ (a ≡ b)
option_eq_iff none none = ground arith
option_eq_iff (some s) (some t) = ground (arith, eq_iff s t)
option_eq_iff _ _ = ground arith

pub id_eq_iff : (a b : Identifier) → (id_eq a b ≡ true) ↔ (a ≡ b)
unfolding id_eq
id_eq_iff a b =
    ground
      (arith, eq_iff a.name b.name, eq_iff a.kind b.kind, option_eq_iff a.namespace b.namespace)

pub id_eq_self : (a : Identifier) → id_eq a a ≡ true
id_eq_self a = (id_eq_iff a a).1 refl

-- `id in ids`, for a set or a list of identifiers
unfoldable pub has_id : Identifier → List Identifier → Bool
has_id id [] = false
has_id id (x ∷ xs) = id_eq x id || has_id id xs

-- `K8sObject`. Its name and namespace are read from the spec once; its kind is `spec["kind"]`.
pub record K8sObject : Type 0 where
  pub spec : Fields
  pub name : String
  pub kind : String
  pub namespace : Option String

-- `K8sObject.identifier`
abbrev pub identifier : K8sObject → Identifier
identifier o = record { name = o.name; kind = o.kind; namespace = o.namespace }

-- `K8sObject.unnamespaced_id`
abbrev pub unnamespaced_id : K8sObject → Identifier
unnamespaced_id o = record { name = o.name; kind = o.kind; namespace = none }
