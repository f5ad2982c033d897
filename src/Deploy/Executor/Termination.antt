-- ===== src/Deploy/Executor/Termination.antt =====
-- `deploy` comes to its end, in whatever order the tasks run.
use pyceli.Base.{
  ℕ, suc, ◌+◌, ◌*◌, ◌≤◌, ◌<◌, ◌≡◌, refl, ap, subst, Bool, true, false, List, [], ◌∷◌, ◌++◌, map,
  some, arith,
}
use pyceli.Objects.{Identifier}
use pyceli.Deploy.Graph.{Nodes}
use pyceli.Deploy.Levels.{traverse_graph}
use pyceli.Deploy.Progress.{
  ExecutionStatus, ExecutionEvent, execution_event, GraphLevelEvent, level_event,
}
use pyceli.Manager.Client.{Raised}
use pyceli.Deploy.Executor.{NodeOps, LevelNodes, Executor, Task, log}
use pyceli.Deploy.Executor.Machine.{
  Main, deploying, rolling_back, returned, raised, Machine, new_task, next_level, level_success,
  next_rollback, start_rollback, deploy_failed, new_executor, first_level, start_deploy, Step, work,
  orphan, level_done, level_failed, rollback_done, rollback_failed,
}
use pyceli.Deploy.Executor.Costs.{weigh, tasks_cost, Work-cost, Work-weigh}
use pyceli.Deploy.Executor.Settled.{Work-frame}
use pyceli.Deploy.Executor.Ends.{level_lists}

-- The steps of a level: the moves of its tasks, and one of `deploy` or `rollback`
abbrev pub level_cost : (Identifier → ℕ) → List Identifier → ℕ
level_cost w [] = 1
level_cost w (id ∷ ids) = w id + level_cost w ids

abbrev pub levels_cost : (Identifier → ℕ) → List (List Identifier) → ℕ
levels_cost w [] = 0
levels_cost w (l ∷ ls) = level_cost w l + levels_cost w ls

-- The steps that `deploy` has left, its tasks aside: while levels are deployed, all of them may have to
-- be rolled back.
abbrev main_cost : (Identifier → ℕ) → Main → List LevelNodes → ℕ
main_cost w (deploying level now more) deployed =
    suc (levels_cost w more)
    + suc (levels_cost w (level_lists deployed) + (level_cost w now + levels_cost w more))
main_cost w (rolling_back r ls) deployed = suc (levels_cost w (level_lists ls))
main_cost w returned deployed = 0
main_cost w (raised r) deployed = 0

module _ (w : Identifier → ℕ) {S : Type 0} where
  abbrev pub measure : Machine S → ℕ
  measure m =
      tasks_cost w m.tasks + tasks_cost w m.orphans + main_cost w m.main m.executor.deployed_nodes

  abbrev pub Weighs : Executor S → Type 0
  Weighs e = (id : Identifier) → weigh e.nodes id ≡ w id

new_tasks_cost :
    (w : Identifier → ℕ) (on : Bool) (ids : List Identifier)
    → suc (tasks_cost w (map (new_task on) ids)) ≡ level_cost w ids
new_tasks_cost w on [] = refl
new_tasks_cost w on (id ∷ ids) = omega (arith, new_tasks_cost w on ids)

levels_cost-append :
    (w : Identifier → ℕ) (ls : List LevelNodes) (l : LevelNodes)
    → levels_cost w (level_lists (ls ++ l ∷ []))
      ≡ levels_cost w (level_lists ls) + level_cost w l.nodes
levels_cost-append w [] l = omega arith
levels_cost-append w (k ∷ ls) l = omega (arith, levels_cost-append w ls l)

module _ (w : Identifier → ℕ) {S : Type 0} where
  next_level_cost :
      (level : ℕ) (more : List (List Identifier)) (e : Executor S)
      → measure w (next_level level more e)
        ≤ levels_cost w more
          + suc (levels_cost w (level_lists e.deployed_nodes) + levels_cost w more)
  unfolding next_level
  next_level_cost level [] e = omega arith
  next_level_cost level (ids ∷ more) e = omega (arith, new_tasks_cost w false ids)

  next_rollback_cost :
      (r : Raised) (ls : List LevelNodes) (e : Executor S) (orphans : List Task)
      → measure w (next_rollback r ls e orphans)
        ≤ tasks_cost w orphans + levels_cost w (level_lists ls)
  unfolding next_rollback
  next_rollback_cost r [] e orphans = omega arith
  next_rollback_cost r (l ∷ ls) e orphans = omega (arith, new_tasks_cost w true l.nodes)

  level_success_cost :
      (level : ℕ) (ids : List Identifier) (more : List (List Identifier)) (e : Executor S)
      → measure w (level_success level ids more e)
        < main_cost w (deploying level ids more) e.deployed_nodes
  unfolding level_success
  level_success_cost level ids more e =
      let l : LevelNodes = record { level = level; nodes = ids } in
      omega (
        arith,
        levels_cost-append w e.deployed_nodes l,
        next_level_cost (suc level) more
            (record (log (level_event GraphLevelEvent.success level ids) e) {
              deployed_nodes = e.deployed_nodes ++ l ∷ [];
            }),
      )

  deploy_failed_cost :
      (r : Raised) (e : Executor S) (orphans : List Task)
      → measure w (deploy_failed r e orphans)
        ≤ tasks_cost w orphans + levels_cost w (level_lists e.deployed_nodes)
  unfolding deploy_failed start_rollback
  deploy_failed_cost r e orphans = next_rollback_cost r e.deployed_nodes _ orphans

  next_level-Weighs :
      (level : ℕ) (more : List (List Identifier)) (e : Executor S)
      → Weighs w e
      → Weighs w (next_level level more e).executor
  unfolding next_level
  next_level-Weighs level [] e h = h
  next_level-Weighs level (ids ∷ more) e h = h

  next_rollback-Weighs :
      (r : Raised) (ls : List LevelNodes) (e : Executor S) (orphans : List Task)
      → Weighs w e
      → Weighs w (next_rollback r ls e orphans).executor
  unfolding next_rollback
  next_rollback-Weighs r [] e orphans h = h
  next_rollback-Weighs r (l ∷ ls) e orphans h = h

  -- Each step costs at least one.
  pub Step-cost :
      {ops : NodeOps S} {m m' : Machine S}
      → Weighs w m.executor
      → Step ops m m'
      → (measure w m' < measure w m) × Weighs w m'.executor
  unfolding level_success deploy_failed start_rollback
  Step-cost h (work moves) =
      let (frame, _, _) = Work-frame moves in
      (omega (arith, Work-cost w h moves, ap (main_cost w _) frame.1), Work-weigh w h moves)
  Step-cost {m} h (orphan moves) =
      let (frame, _, _) = Work-frame moves in
      (omega (arith, Work-cost w h moves, ap (main_cost w m.main) frame.1), Work-weigh w h moves)
  Step-cost {m} h (level_done {level} {ids} {more} at over) = (
    omega (
      arith,
      level_success_cost level ids more m.executor,
      ap (λ main. main_cost w main m.executor.deployed_nodes) at,
    ),
    next_level-Weighs (suc level) more _ h,
  )
  Step-cost {m} h (level_failed r at over) = (
    omega (
      arith,
      deploy_failed_cost r m.executor m.tasks,
      ap (λ main. main_cost w main m.executor.deployed_nodes) at,
    ),
    next_rollback-Weighs r m.executor.deployed_nodes _ m.tasks h,
  )
  Step-cost {m} h (rollback_done {r} {ls} at over) = (
    omega (
      arith,
      next_rollback_cost r ls m.executor m.orphans,
      ap (λ main. main_cost w main m.executor.deployed_nodes) at,
    ),
    next_rollback-Weighs r ls m.executor m.orphans h,
  )
  Step-cost {m} h (rollback_failed r at over) =
      (omega (arith, ap (λ main. main_cost w main m.executor.deployed_nodes) at), h)

-- The number of steps that were made
pub data Run {S : Type 0} (ops : NodeOps S) (from : Machine S) : ℕ → Machine S → Type 0 where
  stay : Run ops from 0 from
  more : {n : ℕ} {m m' : Machine S} → Run ops from n m → Step ops m m' → Run ops from (suc n) m'

Run-cost :
    {S : Type 0} {ops : NodeOps S} {from m : Machine S} {n : ℕ} (w : Identifier → ℕ)
    → Weighs w from.executor
    → Run ops from n m
    → (n + measure w m ≤ measure w from) × Weighs w m.executor
Run-cost w h stay = (omega arith, h)
Run-cost w h (more run step) =
    let (le, h') = Run-cost w h run in
    let (lt, h'') = Step-cost w h' step in (omega (arith, le, lt), h'')

-- Twice what all levels cost, and the end
abbrev pub deploy_bound : Nodes → List (List Identifier) → ℕ
deploy_bound nodes levels = 2 * levels_cost (weigh nodes) levels + 1

-- `deploy` makes a bounded number of steps, in whatever order its tasks run and whatever the cluster
-- answers: at most twice those of its levels, of which a level has one and, for each of its nodes, two
-- and one for each dependency of the node; and one step more.
pub deploy_bounded :
    {S : Type 0} (ops : NodeOps S) (nodes : Nodes) (s : S) (levels : List (List Identifier))
    → traverse_graph nodes ≡ some levels
    → (n : ℕ) (m : Machine S) → Run ops (start_deploy (new_executor nodes s)) n m
    → n ≤ deploy_bound nodes levels
unfolding start_deploy first_level new_executor
deploy_bounded ops nodes s levels e n m run =
    let begun =
      log (execution_event ExecutionEvent.start_deploy ExecutionStatus.pending)
        (new_executor nodes s) in
    let run' : Run ops (next_level 0 levels begun) n m =
      subst (λ found. Run ops (first_level found begun) n m) e run in
    omega (
      arith,
      (Run-cost (weigh nodes) (next_level-Weighs (weigh nodes) 0 levels begun (λ id. refl)) run').0,
      next_level_cost (weigh nodes) 0 levels begun,
    )
