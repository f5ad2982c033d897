-- ===== src/Deploy/Executor/Machine.antt =====
-- piceli/k8s/ops/deploy/deployment_executor.py: `deploy` and `rollback`, with the tasks that `gather`
-- runs in any order.
use pyceli.Base.{
  ℕ, suc, Bool, true, false, List, [], ◌∷◌, ◌++◌, map, Option, none, some, ◌≡◌, All, Any,
}
use pyceli.Objects.{Identifier, has_id}
use pyceli.Deploy.Graph.{Nodes, remove_id}
use pyceli.Deploy.Levels.{traverse_graph}
use pyceli.Deploy.Progress.{
  ExecutionStatus, ExecutionEvent, GraphLevelEvent, execution_event, execution_error, level_event,
}
use pyceli.Manager.Client.{Raised, out_of_fuel, Outcome, ok, err}
use pyceli.Deploy.Executor.{
  NodeOps, LevelNodes, Executor, Phase, ready, gathering, ended, Task, log, begin_node, resume_node,
  wait_for_node,
}

-- Where `deploy` is: in the level of that number, with the levels behind it; in the rollback for an
-- exception, in the level given, with those behind it; or at its end
pub data Main : Type 0 where
  deploying : ℕ → List Identifier → List (List Identifier) → Main
  rolling_back : Raised → List LevelNodes → Main
  returned : Main
  raised : Raised → Main

-- `tasks` are those of the level; `orphans` are left from a level that failed.
pub record Machine (S : Type 0) : Type 0 where
  pub executor : Executor S
  pub main : Main
  pub tasks : List Task
  pub orphans : List Task

abbrev pub new_task : Bool → Identifier → Task
new_task on_rollback id = record { node = id; on_rollback = on_rollback; todo = []; phase = ready }

abbrev pub EndedOk : Task → Type 0
EndedOk t = t.phase ≡ ended (ok tt)

abbrev pub EndedErr : Raised → Task → Type 0
EndedErr r t = t.phase ≡ ended (err r)

module _ {S : Type 0} where
  abbrev set_execution : ExecutionStatus → Executor S → Executor S
  set_execution status e = record e { status = status }

  -- The head of the loop of `deploy`, and what stands behind the loop
  unfoldable pub next_level : ℕ → List (List Identifier) → Executor S → Machine S
  next_level level [] e = record {
    executor =
        log (execution_event ExecutionEvent.success ExecutionStatus.done)
          (set_execution ExecutionStatus.done e);
    main = returned;
    tasks = [];
    orphans = [];
  }
  next_level level (ids ∷ more) e = record {
    executor = log (level_event GraphLevelEvent.start_apply level ids) e;
    main = deploying level ids more;
    tasks = map (new_task false) ids;
    orphans = [];
  }

  -- The end of a level of `deploy`
  unfoldable pub level_success :
      ℕ → List Identifier → List (List Identifier) → Executor S → Machine S
  unfolding next_level
  level_success level ids more e =
      next_level (suc level) more (record (log (level_event GraphLevelEvent.success level ids) e) {
        deployed_nodes = e.deployed_nodes ++ record { level = level; nodes = ids } ∷ [];
      })

  -- The head of the loop of `rollback`, and what stands behind the loop: the exception goes on.
  unfoldable pub next_rollback : Raised → List LevelNodes → Executor S → List Task → Machine S
  next_rollback r [] e orphans = record {
    executor =
        log (execution_event ExecutionEvent.rolled_back ExecutionStatus.rolled_back)
          (set_execution ExecutionStatus.rolled_back e);
    main = raised r;
    tasks = [];
    orphans = [];
  }
  next_rollback r (l ∷ ls) e orphans = record {
    executor = log (level_event GraphLevelEvent.start_rollback l.level l.nodes) e;
    main = rolling_back r ls;
    tasks = map (new_task true) l.nodes;
    orphans = orphans;
  }

  -- `rollback`
  unfoldable pub start_rollback : Raised → Executor S → List Task → Machine S
  unfolding next_rollback
  start_rollback r e orphans =
      next_rollback r e.deployed_nodes
        (record (log (execution_event ExecutionEvent.start_rollback e.status) e) {
          waited_nodes = [];
        })
        orphans

  -- The `except` of `deploy`
  unfoldable pub deploy_failed : Raised → Executor S → List Task → Machine S
  unfolding start_rollback
  deploy_failed r e orphans =
      start_rollback r
        (log (execution_error ExecutionStatus.failed r) (set_execution ExecutionStatus.failed e))
        orphans

  -- The rollback raises: the exception leaves `deploy`, and the tasks that are left are cancelled.
  abbrev pub abandon : Raised → Executor S → Machine S
  abandon r e = record { executor = e; main = raised r; tasks = []; orphans = [] }

  -- The constructor of `DeploymentExecutor`
  unfoldable pub new_executor : Nodes → S → Executor S
  new_executor nodes s = record {
    nodes = nodes;
    deployed_nodes = [];
    waited_nodes = [];
    status = ExecutionStatus.pending;
    progress = [];
    cluster = s;
  }

  -- `deploy` up to its first level, for what `traverse_graph` gives
  unfoldable pub first_level : Option (List (List Identifier)) → Executor S → Machine S
  unfolding next_level deploy_failed
  first_level none e = deploy_failed out_of_fuel e []
  first_level (some levels) e = next_level 0 levels e

  unfoldable pub start_deploy : Executor S → Machine S
  unfolding first_level
  start_deploy e =
      first_level (traverse_graph e.nodes)
        (log (execution_event ExecutionEvent.start_deploy e.status) e)

-- The first exception of a wait reaches the task.
abbrev pub note_failure : Outcome (Unit {0}) → Phase → Phase
note_failure (err r) (gathering none) = gathering (some r)
note_failure _ phase = phase

abbrev pub end_wait : Identifier → Outcome (Unit {0}) → Task → Task
end_wait id out t = record t { todo = remove_id id t.todo; phase = note_failure out t.phase }

-- A task goes on when no wait is left, or one has failed.
abbrev pub CanResume : Option Raised → List Identifier → Type 0
CanResume none todo = todo ≡ []
CanResume (some r) todo = Unit

-- What a task does when its turn comes
pub data Move {S : Type 0} (ops : NodeOps S) (e : Executor S) (t : Task)
    : Executor S → Task → Type 0 where
  begin : t.phase ≡ ready → Move ops e t (begin_node ops t e).0 (begin_node ops t e).1
  wait :
      (id : Identifier)
      → has_id id t.todo ≡ true
      → Move ops e t
          (wait_for_node ops t.on_rollback id e).1
          (end_wait id (wait_for_node ops t.on_rollback id e).0 t)
  resume :
      (failure : Option Raised)
      → t.phase ≡ gathering failure
      → CanResume failure t.todo
      → Move ops e t (resume_node ops t failure e).0 (resume_node ops t failure e).1

-- One of the tasks moves.
pub data Work {S : Type 0} (ops : NodeOps S) (e : Executor S)
    : List Task → Executor S → List Task → Type 0 where
  here :
      {t t' : Task} {ts : List Task} {e' : Executor S}
      → Move ops e t e' t'
      → Work ops e (t ∷ ts) e' (t' ∷ ts)
  there :
      {t : Task} {ts ts' : List Task} {e' : Executor S}
      → Work ops e ts e' ts'
      → Work ops e (t ∷ ts) e' (t ∷ ts')

-- One step of the event loop: a task of the level or one that is left from a failed level moves, or
-- `deploy` goes on behind its `gather`.
pub data Step {S : Type 0} (ops : NodeOps S) (m : Machine S) : Machine S → Type 0 where
  work :
      {e : Executor S} {ts : List Task}
      → Work ops m.executor m.tasks e ts
      → Step ops m (record m { executor = e; tasks = ts })
  orphan :
      {e : Executor S} {ts : List Task}
      → Work ops m.executor m.orphans e ts
      → Step ops m (record m { executor = e; orphans = ts })
  level_done :
      {level : ℕ} {ids : List Identifier} {more : List (List Identifier)}
      → m.main ≡ deploying level ids more
      → All EndedOk m.tasks
      → Step ops m (level_success level ids more m.executor)
  level_failed :
      {level : ℕ} {ids : List Identifier} {more : List (List Identifier)} (r : Raised)
      → m.main ≡ deploying level ids more
      → Any (EndedErr r) m.tasks
      → Step ops m (deploy_failed r m.executor m.tasks)
  rollback_done :
      {r : Raised} {ls : List LevelNodes}
      → m.main ≡ rolling_back r ls
      → All EndedOk m.tasks
      → Step ops m (next_rollback r ls m.executor m.orphans)
  rollback_failed :
      {r : Raised} {ls : List LevelNodes} (r' : Raised)
      → m.main ≡ rolling_back r ls
      → Any (EndedErr r') m.tasks
      → Step ops m (abandon r' m.executor)

pub data Reach {S : Type 0} (ops : NodeOps S) (from : Machine S) : Machine S → Type 0 where
  start : Reach ops from from
  later : {m m' : Machine S} → Reach ops from m → Step ops m m' → Reach ops from m'

-- The machines that `deploy` comes to for the nodes of a graph
abbrev pub Deploys : {S : Type 0} → NodeOps S → Nodes → S → Machine S → Type 0
Deploys ops nodes s m = Reach ops (start_deploy (new_executor nodes s)) m

-- `deploy` has come to its end.
abbrev pub IsFinal : Main → Type 0
IsFinal (deploying level ids more) = ⊥
IsFinal (rolling_back r ls) = ⊥
IsFinal returned = Unit
IsFinal (raised r) = Unit
