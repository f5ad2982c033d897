-- ===== src/Deploy/Executor/Reverted.antt =====
-- What a rollback that comes to its end leaves behind.
use pyceli.Base.{
  ℕ, suc, ◌≡◌, refl, sym, ◌∙◌, subst, inl, inr, Bool-cases, true, false, List, [], ◌∷◌, ◌++◌, arith,
  All, All-append, All-map,
}
use mathlib.Core.List.{append_assoc}
use pyceli.Objects.{Identifier, id_eq, id_eq_iff, has_id}
use pyceli.Deploy.Graph.{Nodes}
use pyceli.Deploy.Graph.Keyed.{IsKeyed}
use pyceli.Deploy.Levels.Ends.{traverse_graph-returns}
use pyceli.Deploy.Progress.{ExecutionStatus, ExecutionEvent, execution_event}
use pyceli.Manager.Client.{Raised}
use pyceli.Deploy.Executor.{NodeOps, Executor, Task, log}
use pyceli.Deploy.Executor.Machine.{
  raised, Machine, next_level, level_success, start_rollback, deploy_failed, new_executor,
  first_level, start_deploy, Step, work, orphan, level_done, level_failed, rollback_done,
  rollback_failed, Reach, start, later, Deploys,
}
use pyceli.Deploy.Executor.Effects.{SettledAt}
use pyceli.Deploy.Executor.Settled.{Good-done}
use pyceli.Deploy.Executor.Ends.{level_ids, Inv, Holds, Deploying, level_ids-append, Step-Holds}
use pyceli.Deploy.Executor.Outcomes.{start-Holds, All-has_id}
use pyceli.Deploy.Executor.Apart.{Unique, traverse_graph-Unique, Unique-apart, Outside}
use pyceli.Deploy.Executor.Rolling.{
  Reverted, Rev, All-self, All-map_node, next_rollback-Rev, Work-Rev, orphan-Rev,
}

module _ {S : Type 0} where
  -- The tasks of the level that failed are of no node of the levels before it.
  failed-Outside :
      (levels : List (List Identifier)) (now : List Identifier) (more : List (List Identifier))
      (e : Executor S) (ts orphans : List Task)
      → Unique levels
      → Deploying levels now more e ts orphans
      → Outside (level_ids e.deployed_nodes) ts
  failed-Outside levels now more e ts orphans unique d = All-map ts apart (
      All-map_node (λ id. has_id id now ≡ true) ts
        (subst (All (λ id. has_id id now ≡ true)) (sym d.nodes) (All-self now)))
    where
      apart :
          (t : Task)
          → has_id t.node now ≡ true
          → (id : Identifier) → has_id id (level_ids e.deployed_nodes) ≡ true
          → id_eq t.node id ≡ false
      apart t inside id listed = elim (Bool-cases (id_eq t.node id)) [
        | inr other ↦ other
        | inl same ↦
            let inside' : has_id id now ≡ true =
              subst (λ i. has_id i now ≡ true) ((id_eq_iff t.node id).0 same) inside in
            absurd (
              ground (
                arith,
                Unique-apart levels e.deployed_nodes now more id unique d.whole listed,
                inside',
              ))
      ]

  next_level-Rev :
      (level : ℕ) (more : List (List Identifier)) (e : Executor S)
      → let m = next_level level more e in Rev m.main m.executor m.tasks m.orphans
  unfolding next_level
  next_level-Rev level [] e = tt
  next_level-Rev level (ids ∷ more) e = tt

  Step-Rev :
      {ops : NodeOps S} {m m' : Machine S} (levels : List (List Identifier))
      → Unique levels
      → Holds levels m
      → Step ops m m'
      → Rev m.main m.executor m.tasks m.orphans
      → Rev m'.main m'.executor m'.tasks m'.orphans
  unfolding level_success deploy_failed start_rollback
  Step-Rev {m} levels unique (inv, quiet) (work w) h = Work-Rev m.main m.orphans w quiet h
  Step-Rev {m} levels unique (inv, quiet) (orphan w) h = orphan-Rev m.main m.tasks w quiet h
  Step-Rev {m} levels unique h (level_done {level} {ids} {more} at over) rev =
      next_level-Rev (suc level) more _
  Step-Rev {m} levels unique (inv, quiet) (level_failed {level} {ids} {more} r at over) rev =
      let d = subst (λ main. Inv levels main m.executor m.tasks m.orphans) at inv in
      next_rollback-Rev r m.executor.deployed_nodes [] _ m.tasks refl tt
        (failed-Outside levels ids more m.executor m.tasks m.orphans unique d)
  Step-Rev {m} levels unique h (rollback_done {r} {ls} at over) rev =
      let h' = subst (λ main. Rev main m.executor m.tasks m.orphans) at rev in
      let (now, past) =
        Good-done true m.executor.nodes m.tasks (level_ids h'.before) over h'.good in
      next_rollback-Rev r ls (h'.before ++ h'.now ∷ []) m.executor m.orphans
        (h'.split ∙ sym (append_assoc h'.before (h'.now ∷ []) ls))
        (subst (Reverted m.executor) (sym (level_ids-append h'.before h'.now)) (
          All-append (λ id. SettledAt true id m.executor.nodes) (level_ids h'.before) h'.now.nodes
            past (subst (Reverted m.executor) h'.nodes now)))
        h'.apart
  Step-Rev {m} levels unique (inv, quiet) (rollback_failed {r} {ls} r' at over) rev =
      let failed = subst (λ main. Inv levels main m.executor m.tasks m.orphans) at inv in
      λ rolled. absurd (clash failed rolled)
    where
      clash :
          m.executor.status ≡ ExecutionStatus.failed
          → m.executor.status ≡ ExecutionStatus.rolled_back
          → ⊥
      clash a b = ground arith

  reach-Rev :
      {ops : NodeOps S} {from m : Machine S} (levels : List (List Identifier))
      → Unique levels
      → Holds levels from
      → Rev from.main from.executor from.tasks from.orphans
      → Reach ops from m
      → Holds levels m × Rev m.main m.executor m.tasks m.orphans
  reach-Rev levels unique h rev start = (h, rev)
  reach-Rev levels unique h rev (later r step) =
      let (h', rev') = reach-Rev levels unique h rev r in
      (Step-Holds levels step h', Step-Rev levels unique h' step rev')

-- When `deploy` has raised and the status of the executor is `ROLLED_BACK`, no node of the levels that
-- were deployed before the failure has the status `DONE` or `FAILED`: each is rolled back, needed no
-- action, or was not begun.
pub rolled_back_Settled :
    {S : Type 0} (ops : NodeOps S) (nodes : Nodes) (s : S) (m : Machine S)
    → IsKeyed nodes
    → Deploys ops nodes s m
    → (r : Raised) → (m.main ≡ raised r)
    → m.executor.status ≡ ExecutionStatus.rolled_back
    → (id : Identifier) → has_id id (level_ids m.executor.deployed_nodes) ≡ true
    → SettledAt true id m.executor.nodes
unfolding start_deploy first_level new_executor
rolled_back_Settled ops nodes s m keyed reach r at rolled id listed =
    let (levels, e) = traverse_graph-returns nodes in
    let begun =
      log (execution_event ExecutionEvent.start_deploy ExecutionStatus.pending)
        (new_executor nodes s) in
    let (_, rev) =
      reach-Rev levels (traverse_graph-Unique nodes keyed levels e)
        (start-Holds ops nodes s levels e)
        (subst (λ found. let m = first_level found begun in Rev m.main m.executor m.tasks m.orphans)
          (sym e) (next_level-Rev 0 levels begun))
        reach in
    All-has_id (λ id. SettledAt true id m.executor.nodes) id (level_ids m.executor.deployed_nodes)
      (subst (λ main. Rev main m.executor m.tasks m.orphans) at rev rolled) listed
