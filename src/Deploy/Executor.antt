-- ===== src/Deploy/Executor.antt =====
-- piceli/k8s/ops/deploy/deployment_executor.py: what `DeploymentExecutor` does between two points at
-- which it gives way to other tasks.
pub mod Machine
pub mod Effects
pub mod Accounts
pub mod Settled
pub mod Ends
pub mod Outcomes
pub mod Costs
pub mod Termination
pub mod Liveness
pub mod Ids
pub mod Waited
pub mod WaitedMoves
pub mod Dependencies
pub mod Apart
pub mod Rolling
pub mod Reverted
mod Tests
use pyceli.Base.{
  ℕ, Bool, true, false, not, List, [], ◌∷◌, ◌++◌, map, Option, none, some, if◌then◌else◌,
}
use pyceli.Objects.{Identifier, has_id, K8sObject}
use pyceli.Compare.Value.{Fields}
use pyceli.Deploy.Graph.{
  DeploymentStatus, no_action_needed, pending, done, failed, ObjectNode, Nodes, node_id, ids,
  find_node, add_id, update_node,
}
use pyceli.Deploy.Levels.{is_nil}
use pyceli.Deploy.Progress.{
  ExecutionStatus, NodeEvent, Progress, node_event, node_compare, node_error,
}
use pyceli.Manager.Client.{Raised, no_action, key_error, Outcome, ok, err, Act}
use pyceli.Manager.Apply.{ApplyEvent, compare, new_obj, World}

-- What the executor calls for one object, in the namespace that it was given: its own `_apply_node`, and
-- the `wait` and the `delete` of the object's manager
pub record NodeOps (S : Type 0) : Type 0 where
  pub apply : K8sObject → Act (World S) (Option Fields)
  pub wait : K8sObject → Act S (Unit {0})
  pub delete : K8sObject → Act S (Option Fields)

-- `LevelNodes`. A node stands for itself by its identifier.
pub record LevelNodes : Type 0 where
  pub level : ℕ
  pub nodes : List Identifier

-- `DeploymentExecutor`, with the cluster
pub record Executor (S : Type 0) : Type 0 where
  pub nodes : Nodes
  pub deployed_nodes : List LevelNodes
  pub waited_nodes : List Identifier
  pub status : ExecutionStatus
  pub progress : List Progress
  pub cluster : S

-- How far a task is: it has not begun, waits for its dependencies (with the first exception of a
-- wait), or came to its end.
pub data Phase : Type 0 where
  ready : Phase
  gathering : Option Raised → Phase
  ended : Outcome (Unit {0}) → Phase

-- One task of a `gather` over the nodes of a level. The waits in `todo` run on their own.
pub record Task : Type 0 where
  pub node : Identifier
  pub on_rollback : Bool
  pub todo : List Identifier
  pub phase : Phase

-- `status in [NO_ACTION_NEEDED, PENDING]`
unfoldable pub is_untouched : DeploymentStatus → Bool
is_untouched no_action_needed = true
is_untouched pending = true
is_untouched _ = false

abbrev pub with_status : DeploymentStatus → ObjectNode → ObjectNode
with_status status n = record n { deployment_status = status }

-- The entries that `_apply_node` makes for the node
unfoldable pub event_progress : ObjectNode → ApplyEvent → Progress
event_progress n (compare result) = node_compare result n
event_progress n new_obj = node_event NodeEvent.new_obj n

-- The identifiers that are not in the second list
unfoldable pub missing_from : List Identifier → List Identifier → List Identifier
missing_from [] known = []
missing_from (id ∷ ids) known =
    if has_id id known then missing_from ids known else id ∷ missing_from ids known

abbrev pub end_task : Outcome (Unit {0}) → Task → Task
end_task out t = record t { phase = ended out }

-- `done_status`
abbrev pub done_status : Bool → DeploymentStatus
done_status true = DeploymentStatus.rolled_back
done_status false = done

-- `object_manager`
unfoldable pub object_of : Bool → ObjectNode → K8sObject
object_of false n = n.deploying_object
object_of true n = elim n.previous_object [ none ↦ n.deploying_object | some o ↦ o ]

module _ {S : Type 0} where
  -- `self.progress.append(entry)`
  abbrev pub log : Progress → Executor S → Executor S
  log entry e = record e { progress = e.progress ++ entry ∷ [] }

  -- `node.deployment_status = status`
  abbrev pub set_status : Identifier → DeploymentStatus → Executor S → Executor S
  set_status id status e = record e { nodes = update_node id (with_status status) e.nodes }

  -- The end of `apply_node`, from what came out of the body of its `try`
  unfoldable pub settle_node :
      Task → ObjectNode → DeploymentStatus → Outcome (Unit {0}) → Executor S → Executor S × Task
  settle_node t n done_status (ok b) e = (
    log (node_event NodeEvent.complete (with_status done_status n))
        (set_status (node_id n) done_status e),
    end_task (ok tt) t,
  )
  settle_node t n done_status (err no_action) e = (
    log (node_event NodeEvent.complete (with_status no_action_needed n))
        (set_status (node_id n) no_action_needed e),
    end_task (ok tt) t,
  )
  settle_node t n done_status (err r) e = (
    log (node_error r (with_status failed n)) (set_status (node_id n) failed e),
    end_task (err r) t,
  )

  -- What `apply_node` does behind the `delete` of the rollback
  unfoldable pub note_deleted :
      Task → ObjectNode → Outcome (Option Fields) → Executor S → Executor S × Task
  note_deleted t n (ok answer) e =
      (set_status (node_id n) DeploymentStatus.rolled_back e, end_task (ok tt) t)
  note_deleted t n (err r) e = (e, end_task (err r) t)

  -- What `_wait_for_node` does behind the `wait`
  unfoldable pub note_waited :
      ObjectNode → Outcome (Unit {0}) → Executor S → Outcome (Unit {0}) × Executor S
  note_waited n (ok b) e = (ok tt, record e { waited_nodes = add_id (node_id n) e.waited_nodes })
  note_waited n (err r) e = (err r, e)

module _ {S : Type 0} (ops : NodeOps S) where
  -- `_apply_node` with the executor's progress
  unfoldable pub run_apply : ObjectNode → K8sObject → Executor S → Outcome (Unit {0}) × Executor S
  unfolding event_progress
  run_apply n o e =
      let (out, w) = ops.apply o (record { cluster = e.cluster; progress = [] }) in
      (
        discard out,
        record e {
          cluster = w.cluster;
          progress = e.progress ++ map (event_progress n) w.progress;
        },
      )
    where
      discard : Outcome (Option Fields) → Outcome (Unit {0})
      discard (ok made) = ok tt
      discard (err r) = err r

  -- What `apply_node` does when its dependencies have been waited for, or a wait has failed
  unfoldable pub finish_node : Task → ObjectNode → Option Raised → Executor S → Executor S × Task
  unfolding settle_node run_apply object_of
  finish_node t n none e =
      let (out, e') = run_apply n (object_of t.on_rollback n) e in
      settle_node t n (done_status t.on_rollback) out e'
  finish_node t n (some r) e = settle_node t n (done_status t.on_rollback) (err r) e

  -- The `try` of `apply_node` up to the waits of `_wait_for_dependencies`. A `gather` of nothing does
  -- not give way.
  unfoldable pub gather_node : Task → ObjectNode → Executor S → Executor S × Task
  unfolding finish_node missing_from
  gather_node t n e =
      let deps = missing_from n.dependencies e.waited_nodes in
      if is_nil deps
      then finish_node t n none e
      else if is_nil (missing_from deps (ids e.nodes))
      then (e, record t { todo = deps; phase = gathering none })
      else finish_node t n (some key_error) e

  -- The rollback of a node that was not there before
  unfoldable pub delete_node : Task → ObjectNode → Executor S → Executor S × Task
  unfolding note_deleted
  delete_node t n e =
      let (out, s) = ops.delete n.deploying_object e.cluster in
      note_deleted t n out (record e { cluster = s })

  -- `apply_node` on rollback, up to its waits, for `node.previous_object`
  unfoldable pub revert_node : Task → ObjectNode → Option K8sObject → Executor S → Executor S × Task
  unfolding delete_node gather_node
  revert_node t n none e = delete_node t n e
  revert_node t n (some o) e = gather_node t n (log (node_event NodeEvent.start_rollback n) e)

  -- `rollback_node`
  unfoldable pub rollback_node : Task → ObjectNode → Executor S → Executor S × Task
  unfolding is_untouched revert_node
  rollback_node t n e =
      if is_untouched n.deployment_status
      then (e, end_task (ok tt) t)
      else revert_node t n n.previous_object e

  -- `apply_node` or `rollback_node`. The node of a task is one of the graph: `none` does not come up.
  unfoldable pub begin_found : Task → Option ObjectNode → Executor S → Executor S × Task
  unfolding rollback_node gather_node
  begin_found t none e = (e, end_task (err key_error) t)
  begin_found t (some n) e =
      if t.on_rollback
      then rollback_node t n e
      else gather_node t n (log (node_event NodeEvent.start_apply n) e)

  unfoldable pub begin_node : Task → Executor S → Executor S × Task
  unfolding begin_found
  begin_node t e = begin_found t (find_node t.node e.nodes) e

  unfoldable pub resume_found :
      Task → Option Raised → Option ObjectNode → Executor S → Executor S × Task
  unfolding finish_node
  resume_found t failure none e = (e, end_task (err key_error) t)
  resume_found t failure (some n) e = finish_node t n failure e

  unfoldable pub resume_node : Task → Option Raised → Executor S → Executor S × Task
  unfolding resume_found
  resume_node t failure e = resume_found t failure (find_node t.node e.nodes) e

  -- `object_manager.wait(ctx, namespace)` and what follows it in `_wait_for_node`
  unfoldable pub wait_object : ObjectNode → K8sObject → Executor S → Outcome (Unit {0}) × Executor S
  unfolding note_waited
  wait_object n o e =
      let (out, s) = ops.wait o e.cluster in note_waited n out (record e { cluster = s })

  -- `_wait_for_node` on rollback, for `node.previous_object`
  unfoldable pub wait_previous :
      ObjectNode → Option K8sObject → Executor S → Outcome (Unit {0}) × Executor S
  unfolding wait_object
  wait_previous n none e = (ok tt, e)
  wait_previous n (some o) e = wait_object n o e

  unfoldable pub wait_reverted : ObjectNode → Executor S → Outcome (Unit {0}) × Executor S
  unfolding is_untouched wait_previous
  wait_reverted n e =
      if is_untouched n.deployment_status then (ok tt, e) else wait_previous n n.previous_object e

  -- `_wait_for_node`, for `self.graph.nodes[id]`
  unfoldable pub wait_found :
      Bool → Option ObjectNode → Executor S → Outcome (Unit {0}) × Executor S
  unfolding wait_reverted wait_object
  wait_found on_rollback none e = (err key_error, e)
  wait_found on_rollback (some n) e =
      if on_rollback then wait_reverted n e else wait_object n n.deploying_object e

  unfoldable pub wait_for_node : Bool → Identifier → Executor S → Outcome (Unit {0}) × Executor S
  unfolding wait_found
  wait_for_node on_rollback id e = wait_found on_rollback (find_node id e.nodes) e

  -- `wait_for_all`: the tasks of a level do not give way, so they run one after the other, and all of
  -- them run, also behind one that fails.
  unfoldable pub wait_for_level : List Identifier → Executor S → Outcome (Unit {0}) × Executor S
  unfolding wait_for_node
  wait_for_level [] e = (ok tt, e)
  wait_for_level (id ∷ more) e =
      let (out, e') = wait_for_node false id e in
      let (out', e'') = wait_for_level more e' in (elim out [ ok b ↦ out' | err r ↦ err r ], e'')

  unfoldable pub wait_for_levels : List LevelNodes → Executor S → Outcome (Unit {0}) × Executor S
  unfolding wait_for_level
  wait_for_levels [] e = (ok tt, e)
  wait_for_levels (l ∷ ls) e =
      let (out, e') = wait_for_level l.nodes e in
      let rest = wait_for_levels ls e' in elim out [ ok b ↦ rest | err r ↦ (err r, e') ]

  abbrev pub wait_for_all : Executor S → Outcome (Unit {0}) × Executor S
  unfolding wait_for_levels
  wait_for_all e = wait_for_levels e.deployed_nodes e
