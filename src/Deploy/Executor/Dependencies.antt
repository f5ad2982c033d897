-- ===== src/Deploy/Executor/Dependencies.antt =====
-- No node is applied before its dependencies have been waited for.
use pyceli.Base.{
  ℕ, suc, ◌≡◌, sym, ◌∙◌, subst, inl, inr, true, false, List, [], ◌∷◌, map, arith, All, Any,
}
use pyceli.Objects.{Identifier, has_id}
use pyceli.Deploy.Graph.{Nodes}
use pyceli.Deploy.Levels.Ends.{traverse_graph-returns}
use pyceli.Deploy.Progress.{
  ExecutionStatus, ExecutionEvent, GraphLevelEvent, execution_event, level_event, NodeProgress,
  Progress, node,
}
use pyceli.Manager.Client.{Raised}
use pyceli.Deploy.Executor.{NodeOps, LevelNodes, Executor, Task, log}
use pyceli.Deploy.Executor.Machine.{
  Main, deploying, rolling_back, returned, raised, Machine, new_task, next_level, level_success,
  next_rollback, start_rollback, deploy_failed, new_executor, first_level, start_deploy, Work, Step,
  work, orphan, level_done, level_failed, rollback_done, rollback_failed, Reach, start, later,
  Deploys,
}
use pyceli.Deploy.Executor.Effects.{Frame}
use pyceli.Deploy.Executor.Settled.{Work-frame}
use pyceli.Deploy.Executor.Ends.{Inv, Quiet, Holds, no-Work, Step-Holds}
use pyceli.Deploy.Executor.Outcomes.{start-Holds}
use pyceli.Deploy.Executor.Waited.{
  shows_apply, Depends, EntryWaited, TaskWaits, Fine, Known, log-Fine,
}
use pyceli.Deploy.Executor.WaitedMoves.{Work-Kept}

fresh-TaskWaits :
    (D : Identifier → Identifier → Type 0) (waited ids : List Identifier)
    → All (TaskWaits D waited) (map (new_task false) ids)
fresh-TaskWaits D waited [] = tt
fresh-TaskWaits D waited (id ∷ ids) = ((λ at. absurd (ground arith)), fresh-TaskWaits D waited ids)

module _ {S : Type 0} (D : Identifier → Identifier → Type 0) where
  abbrev OkMain : Main → Executor S → List Task → Type 0
  OkMain (deploying level now more) e ts = All (TaskWaits D e.waited_nodes) ts × Fine D e
  OkMain returned e ts = Fine D e
  OkMain _ e ts = Unit

  abbrev Ok : Machine S → Type 0
  Ok m = Known D m.executor.nodes × OkMain m.main m.executor m.tasks

  frame-Known : (e e' : Executor S) → Frame e e' → Known D e.nodes → Known D e'.nodes
  frame-Known e e' frame known id d dep =
      let (deps, at, has) = known id d dep in (deps, frame.2 id ∙ at, has)

  next_level-Ok :
      (level : ℕ) (more : List (List Identifier)) (e : Executor S)
      → Known D e.nodes
      → Fine D e
      → Ok (next_level level more e)
  unfolding next_level
  next_level-Ok level [] e known fine = (
    known,
    log-Fine D (execution_event ExecutionEvent.success ExecutionStatus.done)
        (record e { status = ExecutionStatus.done }) tt fine,
  )
  next_level-Ok level (ids ∷ more) e known fine = (
    known,
    (
      fresh-TaskWaits D e.waited_nodes ids,
      log-Fine D (level_event GraphLevelEvent.start_apply level ids) e tt fine,
    ),
  )

  next_rollback-Ok :
      (r : Raised) (ls : List LevelNodes) (e : Executor S) (orphans : List Task)
      → Known D e.nodes
      → Ok (next_rollback r ls e orphans)
  unfolding next_rollback
  next_rollback-Ok r [] e orphans known = (known, tt)
  next_rollback-Ok r (l ∷ ls) e orphans known = (known, tt)

  Work-OkMain :
      {ops : NodeOps S} {e : Executor S} {ts : List Task} {e' : Executor S} {ts' : List Task}
      (levels : List (List Identifier)) (main : Main) (orphans : List Task)
      → Known D e.nodes
      → Inv levels main e ts orphans
      → Quiet main ts orphans
      → Work ops e ts e' ts'
      → OkMain main e ts
      → OkMain main e' ts'
  Work-OkMain levels (deploying level now more) orphans known inv quiet w (waits, fine) =
      let (_, fine', waits') = Work-Kept D known w inv.forward waits fine in (waits', fine')
  Work-OkMain levels (rolling_back r ls) orphans known inv quiet w ok = tt
  Work-OkMain levels returned orphans known inv quiet w ok = absurd (no-Work levels w quiet.0)
  Work-OkMain levels (raised r) orphans known inv quiet w ok = tt

  orphan-OkMain :
      {ops : NodeOps S} {e : Executor S} {os : List Task} {e' : Executor S} {os' : List Task}
      (levels : List (List Identifier)) (main : Main) (ts : List Task)
      → Inv levels main e ts os
      → Quiet main ts os
      → Work ops e os e' os'
      → OkMain main e' ts
  orphan-OkMain levels (deploying level now more) ts inv quiet w =
      absurd (no-Work levels w inv.alone)
  orphan-OkMain levels (rolling_back r ls) ts inv quiet w = tt
  orphan-OkMain levels returned ts inv quiet w = absurd (no-Work levels w quiet.1)
  orphan-OkMain levels (raised r) ts inv quiet w = tt

  Step-Ok :
      {ops : NodeOps S} {m m' : Machine S} (levels : List (List Identifier))
      → Holds levels m
      → Step ops m m'
      → Ok m
      → Ok m'
  unfolding level_success deploy_failed start_rollback
  Step-Ok {m} levels (inv, quiet) (work {e} w) (known, ok) =
      let (frame, _, _) = Work-frame w in
      (
        frame-Known m.executor e frame known,
        Work-OkMain levels m.main m.orphans known inv quiet w ok,
      )
  Step-Ok {m} levels (inv, quiet) (orphan {e} w) (known, ok) =
      let (frame, _, _) = Work-frame w in
      (frame-Known m.executor e frame known, orphan-OkMain levels m.main m.tasks inv quiet w)
  Step-Ok {m} levels h (level_done {level} {ids} {more} at over) (known, ok) =
      let fine = (subst (λ main. OkMain main m.executor m.tasks) at ok).1 in
      next_level-Ok (suc level) more _ known
        (log-Fine D (level_event GraphLevelEvent.success level ids) m.executor tt fine)
  Step-Ok {m} levels h (level_failed r at over) (known, ok) =
      next_rollback-Ok r m.executor.deployed_nodes _ m.tasks known
  Step-Ok {m} levels h (rollback_done {r} {ls} at over) (known, ok) =
      next_rollback-Ok r ls m.executor m.orphans known
  Step-Ok levels h (rollback_failed r at over) (known, ok) = (known, tt)

  reach-Ok :
      {ops : NodeOps S} {from m : Machine S} (levels : List (List Identifier))
      → Holds levels from
      → Ok from
      → Reach ops from m
      → Holds levels m × Ok m
  reach-Ok levels h ok start = (h, ok)
  reach-Ok levels h ok (later r step) =
      let (h', ok') = reach-Ok levels h ok r in
      (Step-Holds levels step h', Step-Ok levels h' step ok')

-- `deploy` has neither failed nor been left.
abbrev pub IsForward : Main → Type 0
IsForward (deploying level now more) = Unit
IsForward returned = Unit
IsForward _ = ⊥

entry_waited :
    (D : Identifier → Identifier → Type 0) (waited : List Identifier) (entries : List Progress)
    (p : NodeProgress)
    → All (EntryWaited D waited) entries
    → Any (λ entry. entry ≡ node p) entries
    → EntryWaited D waited (node p)
entry_waited D waited [] p h at = absurd at
entry_waited D waited (entry ∷ entries) p h (inl same) = subst (EntryWaited D waited) same h.0
entry_waited D waited (entry ∷ entries) p h (inr more) = entry_waited D waited entries p h.1 more

-- While `deploy` has not failed, each node of which the progress shows that it was compared, created or
-- completed with the status `DONE` has all its dependencies in `waited_nodes`.
pub dependencies_waited :
    {S : Type 0} (ops : NodeOps S) (nodes : Nodes) (s : S) (m : Machine S)
    → Deploys ops nodes s m
    → IsForward m.main
    → (p : NodeProgress) → Any (λ entry. entry ≡ node p) m.executor.progress
    → shows_apply p ≡ true
    → (d : Identifier) → Depends nodes p.node d
    → has_id d m.executor.waited_nodes ≡ true
unfolding start_deploy first_level new_executor
dependencies_waited ops nodes s m r forward p at shown d dep =
    let (levels, e) = traverse_graph-returns nodes in
    let begun =
      log (execution_event ExecutionEvent.start_deploy ExecutionStatus.pending)
        (new_executor nodes s) in
    let (held, ok) =
      reach-Ok (Depends nodes) levels (start-Holds ops nodes s levels e)
        (subst (λ found. Ok (Depends nodes) (first_level found begun)) (sym e)
          (next_level-Ok (Depends nodes) 0 levels begun (λ id d dep. dep) (tt, tt)))
        r in
    entry_waited (Depends nodes) m.executor.waited_nodes m.executor.progress p
      (fine m.main forward ok.1) at shown d dep
  where
    fine :
        (main : Main)
        → IsForward main
        → OkMain (Depends nodes) main m.executor m.tasks
        → Fine (Depends nodes) m.executor
    fine (deploying level now more) f ok = ok.1
    fine returned f ok = ok
    fine (rolling_back r ls) f ok = absurd f
    fine (raised r) f ok = absurd f
