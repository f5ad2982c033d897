-- ===== src/Compare/Sets.antt =====
-- piceli/k8s/ops/compare/compare_op.py: the objects that are added, removed and modified between two
-- sets of objects, namespace by namespace.
pub mod Dict
pub mod Classifies
use pyceli.Base.{
  String, str_eq, Bool, true, false, not, ◌||◌, List, [], ◌∷◌, ◌++◌, map, Option, none, some,
  if◌then◌else◌,
}
use pyceli.Objects.{Identifier, id_eq, K8sObject, unnamespaced_id, option_eq}
use pyceli.Compare.Comparer.{equals, UpdateAction, Result, ok, ◌>>=◌, QuantityLib}
use pyceli.Compare.Action.{CompareResult, determine_update_action, no_action_needed}

-- A dict with identifiers as keys, in the order of its keys
abbrev pub Dict : Type 0 → Type 0
Dict A = List (Identifier × A)

-- `d[id] = a`
unfoldable pub put_object : {A : Type 0} → Identifier → A → Dict A → Dict A
put_object id a [] = (id, a) ∷ []
put_object id a ((x, b) ∷ d) = if id_eq x id then (x, a) ∷ d else (x, b) ∷ put_object id a d

-- `d.get(id)`
unfoldable pub find_object : {A : Type 0} → Identifier → Dict A → Option A
find_object id [] = none
find_object id ((x, a) ∷ d) = if id_eq x id then some a else find_object id d

abbrev pub is_none {ℓ} : {A : Type ℓ} → Option A → Bool
is_none none = true
is_none (some a) = false

-- `{obj.unnamespaced_id: obj for obj in objects}`
unfoldable pub by_id_from : List K8sObject → Dict K8sObject → Dict K8sObject
unfolding put_object
by_id_from [] d = d
by_id_from (o ∷ objects) d = by_id_from objects (put_object (unnamespaced_id o) o d)

abbrev pub by_id : List K8sObject → Dict K8sObject
by_id objects = by_id_from objects []

pub record ModifiedObjects : Type 0 where
  pub before : K8sObject
  pub after : K8sObject
  pub compare_result : CompareResult

pub record ObjectDifferences : Type 0 where
  pub added : List K8sObject
  pub removed : List K8sObject
  pub modified : Dict ModifiedObjects

-- `[obj for id, obj in these.items() if id not in those]`
unfoldable pub not_in : Dict K8sObject → Dict K8sObject → List K8sObject
unfolding find_object
not_in those [] = []
not_in those ((id, o) ∷ these) =
    if is_none (find_object id those) then o ∷ not_in those these else not_in those these

module _ (lib : QuantityLib) where
  -- The round of the loop over the shared ids, for an object and the one after it
  unfoldable pub modify :
      Identifier → K8sObject → K8sObject → Dict ModifiedObjects → Result (Dict ModifiedObjects)
  modify id before after d = do
    r ← determine_update_action lib after.kind after.spec before.spec
    if no_action_needed r
        then ok d
        else ok (put_object id (record { before = before; after = after; compare_result = r }) d)

  -- The loop over the shared ids, in the order of the dict `before_set`
  unfoldable pub modified_from :
      Dict K8sObject → Dict K8sObject → Dict ModifiedObjects → Result (Dict ModifiedObjects)
  unfolding modify find_object
  modified_from after_set [] d = ok d
  modified_from after_set ((id, before) ∷ before_set) d = elim (find_object id after_set) [
    | none ↦ modified_from after_set before_set d
    | some after ↦ (modify id before after d >>= modified_from after_set before_set)
  ]

  -- The body of the loop over the namespaces
  unfoldable pub compare_namespace : List K8sObject → List K8sObject → Result ObjectDifferences
  unfolding modified_from not_in by_id_from
  compare_namespace before after = do
    modified ← modified_from (by_id after) (by_id before) []
    ok (record {
      added = not_in (by_id before) (by_id after);
      removed = not_in (by_id after) (by_id before);
      modified = modified;
    })

-- A dict with namespaces as keys
abbrev pub ByNamespace : Type 0 → Type 0
ByNamespace A = List (Option String × A)

-- `d.get(namespace, [])`
unfoldable pub objects_in : Option String → ByNamespace (List K8sObject) → List K8sObject
objects_in n [] = []
objects_in n ((m, os) ∷ d) = if option_eq m n then os else objects_in n d

unfoldable pub has_namespace : Option String → List (Option String) → Bool
has_namespace n [] = false
has_namespace n (m ∷ ns) = option_eq m n || has_namespace n ns

-- `set(before.keys()) | set(after.keys())`, in the order of the two dicts
unfoldable pub with_namespaces :
    ByNamespace (List K8sObject) → List (Option String) → List (Option String)
unfolding has_namespace
with_namespaces [] ns = ns
with_namespaces ((n, os) ∷ d) ns =
    with_namespaces d (if has_namespace n ns then ns else ns ++ n ∷ [])

module _ (lib : QuantityLib) where
  unfoldable pub compare_each :
      ByNamespace (List K8sObject)
      → ByNamespace (List K8sObject)
      → List (Option String)
      → Result (ByNamespace ObjectDifferences)
  unfolding compare_namespace objects_in
  compare_each before after [] = ok []
  compare_each before after (n ∷ ns) = do
    diffs ← compare_namespace lib (objects_in n before) (objects_in n after)
    rest ← compare_each before after ns
    ok ((n, diffs) ∷ rest)

  -- `compare_object_sets`
  unfoldable pub compare_object_sets :
      ByNamespace (List K8sObject)
      → ByNamespace (List K8sObject)
      → Result (ByNamespace ObjectDifferences)
  unfolding compare_each with_namespaces
  compare_object_sets before after =
      compare_each before after (with_namespaces after (with_namespaces before []))
