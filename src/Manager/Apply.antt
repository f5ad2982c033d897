-- ===== src/Manager/Apply.antt =====
-- piceli/k8s/ops/deploy/deployment_executor.py, `_apply_node`: how one object is brought to the cluster.
pub mod Volumes
pub mod Serves
pub mod Recreates
use pyceli.Base.{
  ℕ, Bool, true, false, List, [], ◌∷◌, ◌++◌, Option, none, some, String, if◌then◌else◌,
}
use pyceli.Objects.{K8sObject}
use pyceli.Compare.Value.{Value, dict, Fields}
use pyceli.Compare.Comparer.{QuantityLib, Result, type_error}
use pyceli.Compare.Comparer
use pyceli.Compare.Action.{CompareResult, determine_update_action, no_action_needed, needs_a_patch}
use pyceli.Compare.Patch.{patch_document}
use pyceli.Manager.Client.{
  ClientLib, Raised, api, comparison, no_action, Outcome, ok, err, Act, ◌>>=◌, return, raise,
  try_except, not_found,
}
use pyceli.Manager.{read_object, patch_object, replace_object, create_object}

-- The entries of `progress` that `_apply_node` makes
pub data ApplyEvent : Type 0 where
  compare : CompareResult → ApplyEvent
  new_obj : ApplyEvent

-- The cluster and the progress of the executor
pub record World (S : Type 0) : Type 0 where
  pub cluster : S
  pub progress : List ApplyEvent

-- `self.progress.append(event)`
abbrev pub note : {S : Type 0} → ApplyEvent → Act (World S) Bool
note event w = (ok true, record w { progress = w.progress ++ event ∷ [] })

-- A call that changes only the cluster
abbrev pub in_cluster : {S A : Type 0} → Act S A → Act (World S) A
in_cluster act w = let (out, s) = act w.cluster in (out, record w { cluster = s })

-- An exception of the comparison goes on.
abbrev pub compared : {S A : Type 0} → Result A → Act (World S) A
compared (Comparer.ok a) = return a
compared (Comparer.err e) = raise (comparison e)

-- The document of a patch is a dict.
abbrev pub as_document : {S : Type 0} → Value → Act (World S) Fields
as_document (dict fs) = return fs
as_document _ = raise (comparison type_error)

module _ (quantities : QuantityLib) (lib : ClientLib) (delete_timeout n : ℕ) (o : K8sObject)
    (namespace : Option String) where
  -- `object_manager.patch(ctx, namespace, patch_doc=compare_result.patch_document())`
  unfoldable pub patch_node : CompareResult → Act (World lib.State) (Option Fields)
  unfolding patch_object patch_document
  patch_node r = compared (patch_document r) >>= as_document >>= λ doc.
      in_cluster (patch_object lib o namespace false (some doc)) >>= λ fs. return (some fs)

  -- What is done about the result of the comparison
  unfoldable pub act_on : CompareResult → Act (World lib.State) (Option Fields)
  unfolding patch_node replace_object
  act_on r =
      if no_action_needed r
      then raise no_action
      else if needs_a_patch r
      then patch_node r
      else in_cluster (replace_object lib delete_timeout n o namespace false)

  -- The body of the `try`
  unfoldable pub update_node : Act (World lib.State) (Option Fields)
  unfolding act_on read_object determine_update_action
  update_node = in_cluster (read_object lib o namespace) >>= λ existing.
      compared (determine_update_action quantities o.kind o.spec existing) >>= λ r.
      note (compare r) >>= λ _. act_on r

  -- The `except`
  unfoldable pub create_missing : Raised → Act (World lib.State) (Option Fields)
  unfolding create_object
  create_missing (api f) =
      if not_found f
      then (in_cluster (create_object lib o namespace false) >>= λ made.
          note new_obj >>= λ _. return made)
      else raise (api f)
  create_missing e = raise e

  -- `_apply_node`
  unfoldable pub apply_node : Act (World lib.State) (Option Fields)
  unfolding update_node create_missing
  apply_node = try_except update_node create_missing
