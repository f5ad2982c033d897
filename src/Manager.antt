-- ===== src/Manager.antt =====
-- piceli/k8s/object_manager: what is done with one object in the cluster, through the client library.
pub mod Client
pub mod Kinds
pub mod Apply
pub mod Wait
pub mod Waits
pub mod Unmade
mod Tests
mod WaitTests
use pyceli.Base.{
  ℕ, suc, zero, ltb, leb, String, str_eq, Bool, true, false, ◌||◌, Option, none, some,
  if◌then◌else◌, ◌+◌,
}
use pyceli.Objects.{K8sObject}
use pyceli.Compare.Value.{Fields, end}
use pyceli.Manager.Client.{
  Method, create, delete, patch, read, Args, not_found, already_exists, is_being_deleted, ClientLib,
  Raised, api, retry_exception, runtime_error, out_of_fuel, Act, ◌>>=◌, return, raise, try_except,
  outcome_of,
}

-- `a or b`, for texts that may be missing: an empty text counts as none
unfoldable pub or_else : Option String → String → String
or_else none b = b
or_else (some a) b = if str_eq a "" then b else a

-- `_resolve_namespace`
unfoldable pub resolve_namespace : K8sObject → Option String → String
unfolding or_else
resolve_namespace o namespace = or_else namespace (or_else o.namespace "default")

abbrev is_empty : Fields → Bool
is_empty end = true
is_empty _ = false

-- `patch_doc if patch_doc else self.k8s_object.spec`
unfoldable pub patch_body : K8sObject → Option Fields → Fields
patch_body o none = o.spec
patch_body o (some doc) = if is_empty doc then o.spec else doc

-- The managers that `ManagerFactory.get_manager` chooses from
pub data ManagerKind : Type 0 where
  base volume service : ManagerKind

unfoldable pub get_manager : K8sObject → ManagerKind
get_manager o =
    if str_eq o.kind "PersistentVolume"
    then volume
    else if str_eq o.kind "PersistentVolumeClaim"
    then volume
    else if str_eq o.kind "Service"
    then service
    else base

module _ (lib : ClientLib) where
  -- `_prepare_args`
  unfoldable pub prepare_args : K8sObject → Option String → Bool → Bool → Args
  unfolding resolve_namespace
  prepare_args o namespace with_name with_spec = record {
    name = if with_name then some o.name else none;
    namespace = if lib.namespaced o.kind then some (resolve_namespace o namespace) else none;
    body = if with_spec then some o.spec else none;
  }

  -- `_invoke_api`
  unfoldable pub invoke_api : K8sObject → Method → Args → Bool → Act lib.State Fields
  invoke_api o method args dry_run s = outcome_of (lib.call method o.kind args dry_run s)

  -- `ObjectManager.read`: the object that is read stands for its spec.
  unfoldable pub read_object : K8sObject → Option String → Act lib.State Fields
  unfolding invoke_api prepare_args
  read_object o namespace = invoke_api o read (prepare_args o namespace true false) false

  -- `ObjectManager.patch`
  unfoldable pub patch_object :
      K8sObject → Option String → Bool → Option Fields → Act lib.State Fields
  unfolding invoke_api prepare_args patch_body
  patch_object o namespace dry_run doc =
      let args = prepare_args o namespace true false in
      invoke_api o patch (record args { body = some (patch_body o doc) }) dry_run

  -- The `except` of `create`: `None` is `none`.
  unfoldable pub create_failed : Raised → Act lib.State (Option Fields)
  unfolding is_being_deleted
  create_failed (api f) =
      if already_exists f
      then if is_being_deleted f then raise retry_exception else return none
      else raise (api f)
  create_failed e = raise e

  -- One attempt of `ObjectManager.create`
  unfoldable pub create_once : K8sObject → Option String → Bool → Act lib.State (Option Fields)
  unfolding invoke_api prepare_args create_failed
  create_once o namespace dry_run =
      try_except
        (invoke_api o create (prepare_args o namespace false true) dry_run >>= λ fs.
          return (some fs))
        create_failed

  -- `ObjectManager.create`, with its decorator
  unfoldable pub create_object : K8sObject → Option String → Bool → Act lib.State (Option Fields)
  unfolding create_once
  create_object o namespace dry_run = lib.retry (create_once o namespace dry_run)

  -- The `except` of `delete`
  unfoldable pub delete_failed : Raised → Act lib.State (Option Fields)
  delete_failed (api f) = if not_found f then return none else raise (api f)
  delete_failed e = raise e

  -- `ObjectManager.delete`
  unfoldable pub delete_base : K8sObject → Option String → Bool → Act lib.State (Option Fields)
  unfolding invoke_api prepare_args delete_failed
  delete_base o namespace dry_run =
      try_except
        (invoke_api o delete (prepare_args o namespace true false) dry_run >>= λ fs.
          return (some fs))
        delete_failed

  -- The `delete` of the manager of the object: that of a volume raises at once.
  unfoldable pub delete_object : K8sObject → Option String → Bool → Act lib.State (Option Fields)
  unfolding get_manager delete_base
  delete_object o namespace dry_run = elim (get_manager o) [
    | volume ↦ raise runtime_error
    | _ ↦ delete_base o namespace dry_run
  ]

  -- The loop of `replace`, on fuel: it reads until the read fails or the time is over.
  unfoldable pub wait_deleted : K8sObject → Option String → ℕ → ℕ → Act lib.State Bool
  unfolding read_object
  wait_deleted o namespace timeout zero = raise out_of_fuel
  wait_deleted o namespace timeout (suc n) = read_object o namespace >>= λ fs s.
      let rest = wait_deleted o namespace timeout n (lib.sleep s) in
      if ltb timeout (lib.now s) then return true s else rest

  -- `ObjectManager.replace`, for `settings.K8S_DELETE_TIMEOUT` and the fuel of its loop
  unfoldable pub replace_base :
      ℕ → ℕ → K8sObject → Option String → Bool → Act lib.State (Option Fields)
  unfolding delete_object read_object create_object wait_deleted
  replace_base delete_timeout n o namespace dry_run = delete_object o namespace dry_run >>= λ _ s.
      if dry_run
      then (read_object o namespace >>= λ fs. return (some fs)) s
      else (wait_deleted o namespace (lib.now s + delete_timeout) n >>= λ _.
            create_object o namespace dry_run)
          s

  -- The `replace` of the manager of the object
  unfoldable pub replace_object :
      ℕ → ℕ → K8sObject → Option String → Bool → Act lib.State (Option Fields)
  unfolding get_manager replace_base
  replace_object delete_timeout n o namespace dry_run = elim (get_manager o) [
    | volume ↦ raise runtime_error
    | _ ↦ replace_base delete_timeout n o namespace dry_run
  ]
