-- ===== src/Deploy/Progress.antt =====
-- piceli/k8s/ops/deploy/deployment_progress.py: the entries that the executor leaves in its progress.
use pyceli.Base.{ℕ, List, Option, none, some}
use pyceli.Objects.{Identifier}
use pyceli.Compare.Action.{CompareResult}
use pyceli.Deploy.Graph.{DeploymentStatus, ObjectNode, node_id}
use pyceli.Manager.Client.{Raised}

-- `deployment_executor.ExecutionStatus`
pub data ExecutionStatus : Type 0 where
  pending done failed rolled_back : ExecutionStatus

pub data ExecutionEvent : Type 0 where
  start_deploy success error start_rollback rolled_back : ExecutionEvent

-- An exception stands for its traceback too.
pub record ExecutionProgress : Type 0 where
  pub status : ExecutionStatus
  pub event : ExecutionEvent
  pub exception : Option Raised

pub data GraphLevelEvent : Type 0 where
  start_apply start_rollback success : GraphLevelEvent

pub record GraphLevelProgress : Type 0 where
  pub level_id : ℕ
  pub nodes : List Identifier
  pub event : GraphLevelEvent

pub data NodeEvent : Type 0 where
  start_apply start_rollback compare new_obj error complete : NodeEvent

pub record NodeProgress : Type 0 where
  pub node : Identifier
  pub deployment_status : DeploymentStatus
  pub event : NodeEvent
  pub exception : Option Raised
  pub compare_result : Option CompareResult

pub data Progress : Type 0 where
  execution : ExecutionProgress → Progress
  graph_level : GraphLevelProgress → Progress
  node : NodeProgress → Progress

-- The class methods of `ExecutionProgress`, with `event` for `deploy`, `success`, `rollback` and
-- `rolled_back`
abbrev pub execution_event : ExecutionEvent → ExecutionStatus → Progress
execution_event event status =
    execution (record { status = status; event = event; exception = none })

abbrev pub execution_error : ExecutionStatus → Raised → Progress
execution_error status e =
    execution (record { status = status; event = ExecutionEvent.error; exception = some e })

-- The class methods of `GraphLevelProgress`
abbrev pub level_event : GraphLevelEvent → ℕ → List Identifier → Progress
level_event event level ids = graph_level (record { level_id = level; nodes = ids; event = event })

-- The class methods of `NodeProgress`, with `event` for `apply`, `rollback`, `done` and `new_obj`
abbrev pub node_event : NodeEvent → ObjectNode → Progress
node_event event n = node (record {
  node = node_id n;
  deployment_status = n.deployment_status;
  event = event;
  exception = none;
  compare_result = none;
})

abbrev pub node_compare : CompareResult → ObjectNode → Progress
node_compare result n = node (record {
  node = node_id n;
  deployment_status = n.deployment_status;
  event = NodeEvent.compare;
  exception = none;
  compare_result = some result;
})

abbrev pub node_error : Raised → ObjectNode → Progress
node_error e n = node (record {
  node = node_id n;
  deployment_status = n.deployment_status;
  event = NodeEvent.error;
  exception = some e;
  compare_result = none;
})
