-- ===== src/Manager/Waits.antt =====
-- piceli/k8s/object_manager: the `wait` of each manager, and `apply`.
use pyceli.Base.{
  ℕ, String, str_eq, Bool, true, false, List, [], ◌∷◌, ◌++◌, Option, none, some, if◌then◌else◌,
}
use pyceli.Objects.{K8sObject}
use pyceli.Compare.Value.{Value, dict, Fields, find}
use pyceli.Manager.Client.{
  ClientLib, Raised, api, not_found, key_error, attribute_error, type_error, value_error,
  wait_exception, http_error, Outcome, ok, err, Act, ◌>>=◌, return, raise, try_except,
}
use pyceli.Manager.{
  base, volume, service, get_manager, resolve_namespace, read_object, patch_object, create_object,
  replace_base,
}
use pyceli.Manager.Wait.{and_then, Attr, there, Criteria, WatchLib, Address, Endpoints, wait_for}

-- `PhaseVolume`, `PhasePVC` and `WaitConditionDeployment.AVAILABLE`, by the values that are used
abbrev volume_phases : String → List String
volume_phases kind =
    if str_eq kind "PersistentVolume"
    then "Available" ∷ "Bound" ∷ []
    else "Available" ∷ "Pending" ∷ "Bound" ∷ []

abbrev criteria : Criteria
criteria = record { condition = none; phases = []; check_readiness = false; check_replicas = false }

-- The addresses that `ServiceManager.wait` describes: each must have its `target_ref`.
unfoldable pub address_details : List Address → Outcome (List Address)
address_details [] = ok []
address_details (a ∷ more) =
    let rest = address_details more in
    if a.has_target then and_then rest (λ others. ok (a ∷ others)) else err attribute_error

unfoldable pub subset_details : List (Option (List Address)) → Outcome (List Address)
unfolding address_details
subset_details [] = ok []
subset_details (none ∷ more) = subset_details more
subset_details (some addresses ∷ more) =
    and_then (address_details addresses)
      (λ here. and_then (subset_details more) (λ others. ok (here ++ others)))

unfoldable pub endpoint_details : Attr (List (Option (List Address))) → Outcome (List Address)
unfolding subset_details
endpoint_details (there subsets) = subset_details subsets
endpoint_details _ = ok []

-- `spec[key]`
unfoldable pub item : String → Value → Outcome Value
item key (dict fs) = elim (find key fs) [ none ↦ err key_error | some v ↦ ok v ]
item key _ = err type_error

-- `get_storage` of the two managers of volumes
unfoldable pub get_storage : String → Fields → Outcome Value
unfolding item
get_storage kind spec =
    if str_eq kind "PersistentVolume"
    then and_then (item "capacity" (dict spec)) (item "storage")
    else and_then (item "spec" (dict spec)) (λ inner.
      and_then (item "resources" inner)
        (λ resources. and_then (item "requests" resources) (item "storage")))

-- `parse_quantity`, with `>` on what it gives; it raises `ValueError`.
pub record SizeLib : Type 1 where
  pub Amount : Type 0
  pub parse_quantity : Value → Option Amount
  pub above : Amount → Amount → Bool

unfoldable pub parsed : (sizes : SizeLib) → Value → Outcome sizes.Amount
parsed sizes v = elim (sizes.parse_quantity v) [ none ↦ err value_error | some a ↦ ok a ]

abbrev pub lift : {S A : Type 0} → Outcome A → Act S A
lift (ok a) = return a
lift (err r) = raise r

module _ (lib : ClientLib) (watch : WatchLib lib.State) where
  -- `ObjectManager.wait`
  unfoldable pub wait_base : K8sObject → Option String → Act lib.State (Unit {0})
  unfolding wait_for resolve_namespace
  wait_base o namespace =
      let at = if lib.namespaced o.kind then some (resolve_namespace o namespace) else none in
      wait_for watch criteria o.kind at o.name >>= λ _. return tt

  -- `VolumeManager.wait`
  unfoldable pub wait_volume : K8sObject → Option String → Act lib.State (Unit {0})
  unfolding wait_for resolve_namespace
  wait_volume o namespace =
      let at = if lib.namespaced o.kind then some (resolve_namespace o namespace) else none in
      let asked = record criteria { phases = volume_phases o.kind } in
      wait_for watch asked o.kind at o.name >>= λ _. return tt

  -- `DeploymentManager.wait`
  unfoldable pub wait_deployment : K8sObject → Option String → Act lib.State (Unit {0})
  unfolding wait_for resolve_namespace
  wait_deployment o namespace =
      let asked = record criteria { condition = some "Available" } in
      wait_for watch asked o.kind (some (resolve_namespace o namespace)) o.name >>= λ _. return tt

  -- `StatefulSetManager.wait`
  unfoldable pub wait_stateful_set : K8sObject → Option String → Act lib.State (Unit {0})
  unfolding wait_for resolve_namespace
  wait_stateful_set o namespace =
      let asked = record criteria { check_replicas = true } in
      wait_for watch asked o.kind (some (resolve_namespace o namespace)) o.name >>= λ _. return tt

  -- The loop of `ServiceManager.wait`, over the events of the watch
  unfoldable pub wait_endpoints : List Endpoints → Bool → Act lib.State (Unit {0})
  unfolding endpoint_details
  wait_endpoints [] true = raise http_error
  wait_endpoints [] false = raise wait_exception
  wait_endpoints (e ∷ es) breaks =
      let rest = wait_endpoints es breaks in
      lift (endpoint_details e.subsets) >>= λ details. elim details [
        | [] ↦ rest
        | a ∷ others ↦ return tt
      ]

  -- `ServiceManager.wait`
  unfoldable pub wait_service : K8sObject → Option String → Act lib.State (Unit {0})
  unfolding wait_endpoints resolve_namespace
  wait_service o namespace s =
      let (stream, s') = watch.watch_endpoints (resolve_namespace o namespace) o.name s in
      wait_endpoints stream.events stream.breaks s'

  -- The `wait` of the manager of the object
  unfoldable pub wait_object : K8sObject → Option String → Act lib.State (Unit {0})
  unfolding get_manager wait_base wait_volume wait_service
  wait_object o namespace = elim (get_manager o) [
    | volume ↦ wait_volume o namespace
    | service ↦ wait_service o namespace
    | base ↦ wait_base o namespace
  ]

module _ (lib : ClientLib) (sizes : SizeLib) (delete_timeout n : ℕ) (o : K8sObject)
    (namespace : Option String) (dry_run : Bool) where
  -- The `except` of `ObjectManager.apply`
  unfoldable pub apply_missing : Raised → Act lib.State (Option Fields)
  unfolding create_object
  apply_missing (api f) =
      if not_found f then create_object lib o namespace dry_run else raise (api f)
  apply_missing r = raise r

  -- `ObjectManager.apply`
  unfoldable pub apply_base : Act lib.State (Option Fields)
  unfolding read_object replace_base apply_missing
  apply_base =
      try_except
        (read_object lib o namespace >>= λ _. replace_base lib delete_timeout n o namespace dry_run)
        apply_missing

  -- The body of `VolumeManager.apply`, for the volume that was read
  unfoldable pub apply_volume_to : Fields → Act lib.State (Option Fields)
  unfolding get_storage parsed patch_object
  apply_volume_to existing = lift (get_storage o.kind existing) >>= λ current.
      lift (parsed sizes current) >>= λ current_size. lift (get_storage o.kind o.spec) >>= λ wanted.
      lift (parsed sizes wanted) >>= λ wanted_size.
      if sizes.above current_size wanted_size
      then return (some existing)
      else (patch_object lib o namespace dry_run none >>= λ fs. return (some fs))

  -- `VolumeManager.apply`. What `read` gives counts as true, so what stands behind the test is never
  -- reached.
  unfoldable pub apply_volume : Act lib.State (Option Fields)
  unfolding read_object apply_volume_to
  apply_volume = read_object lib o namespace >>= apply_volume_to

  -- The `apply` of the manager of the object
  unfoldable pub apply_object : Act lib.State (Option Fields)
  unfolding get_manager apply_base apply_volume
  apply_object = elim (get_manager o) [ volume ↦ apply_volume | _ ↦ apply_base ]
