-- ===== src/Deploy/Executor/Outcomes.antt =====
-- What the caller of `deploy` can rely on, in whatever order the tasks run and whatever the cluster
-- answers.
use pyceli.Base.{
  ℕ, suc, zero, ◌≡◌, refl, ap, sym, ◌∙◌, subst, ◌⊎◌, inl, inr, true, false, or-true,
  append-All_left, append-All_right, List, [], ◌∷◌, some, arith, All,
}
use pyceli.Objects.{Identifier, id_eq_iff, has_id}
use pyceli.Deploy.Graph.{Nodes, ids, Search, validate, ok}
use pyceli.Deploy.Graph.Keyed.{IsKeyed}
use pyceli.Deploy.Levels.{traverse_graph}
use pyceli.Deploy.Levels.Ends.{traverse_graph-returns}
use pyceli.Deploy.Levels.Keys.{nth_level}
use pyceli.Deploy.Levels.Complete.{traverse_graph_complete}
use pyceli.Deploy.Progress.{ExecutionStatus, ExecutionEvent, execution_event}
use pyceli.Deploy.Executor.{NodeOps, log, LevelNodes}
use pyceli.Deploy.Executor.Machine.{
  Main, deploying, rolling_back, returned, raised, Machine, first_level, new_executor, start_deploy,
  Deploys,
}
use pyceli.Deploy.Executor.Effects.{SettledAt}
use pyceli.Deploy.Executor.Ends.{level_ids, level_lists, Inv, Holds, next_level-Holds, Reach-Holds}

-- What the status of the executor says of where `deploy` is
abbrev pub StatusOf : Main → ExecutionStatus → Type 0
StatusOf (deploying level now more) status = status ≡ ExecutionStatus.pending
StatusOf (rolling_back r ls) status = status ≡ ExecutionStatus.failed
StatusOf returned status = status ≡ ExecutionStatus.done
StatusOf (raised r) status =
    (status ≡ ExecutionStatus.failed) ⊎ (status ≡ ExecutionStatus.rolled_back)

module _ {S : Type 0} (ops : NodeOps S) (nodes : Nodes) (s : S) where
  pub start-Holds :
      (levels : List (List Identifier))
      → traverse_graph nodes ≡ some levels
      → Holds levels (start_deploy (new_executor nodes s))
  unfolding start_deploy new_executor first_level
  start-Holds levels e =
      let begun =
        log (execution_event ExecutionEvent.start_deploy ExecutionStatus.pending)
          (new_executor nodes s) in
      subst (λ found. Holds levels (first_level found begun)) (sym e)
        (next_level-Holds levels 0 levels begun refl refl tt)

  pub deploy-Holds :
      (m : Machine S)
      → Deploys ops nodes s m
      → (levels : List (List Identifier)) × (traverse_graph nodes ≡ some levels) × Holds levels m
  deploy-Holds m r =
      let (levels, e) = traverse_graph-returns nodes in
      (levels, e, Reach-Holds levels r (start-Holds levels e))

-- At each point of `deploy`, the status of the executor is `PENDING` while levels are deployed, `FAILED`
-- while they are rolled back, `DONE` once `deploy` has returned, and `FAILED` or `ROLLED_BACK` once it has raised.
pub deploy-StatusOf :
    {S : Type 0} (ops : NodeOps S) (nodes : Nodes) (s : S) (m : Machine S)
    → Deploys ops nodes s m
    → StatusOf m.main m.executor.status
deploy-StatusOf ops nodes s m r =
    let (levels, _, h) = deploy-Holds ops nodes s m r in status_of levels m.main h.0
  where
    status_of :
        (levels : List (List Identifier)) (main : Main)
        → Inv levels main m.executor m.tasks m.orphans
        → StatusOf main m.executor.status
    status_of levels (deploying level now more) h = h.status
    status_of levels (rolling_back r ls) h = h
    status_of levels returned h = h.0
    status_of levels (raised r) h = h

pub All-has_id :
    (P : Identifier → Type 0) (id : Identifier) (xs : List Identifier)
    → All P xs
    → has_id id xs ≡ true
    → P id
unfolding has_id
All-has_id P id [] h listed = absurd (ground arith)
All-has_id P id (x ∷ xs) h listed = elim (or-true _ _ listed) [
  | inl same ↦ subst P ((id_eq_iff x id).0 same) h.0
  | inr later ↦ All-has_id P id xs h.1 later
]

pub All-nth_level :
    (P : Identifier → Type 0) (id : Identifier) (i : ℕ) (ls : List LevelNodes)
    → All P (level_ids ls)
    → has_id id (nth_level i (level_lists ls)) ≡ true
    → P id
unfolding has_id
All-nth_level P id i [] h listed = absurd (ground arith)
All-nth_level P id zero (l ∷ ls) h listed =
    All-has_id P id l.nodes (append-All_left P l.nodes (level_ids ls) h) listed
All-nth_level P id (suc i) (l ∷ ls) h listed =
    All-nth_level P id i ls (append-All_right P l.nodes (level_ids ls) h) listed

-- When `deploy` has returned for a graph that `validate` accepts, each node of the graph has the
-- status `DONE` or `NO_ACTION_NEEDED`, the status of the executor is `DONE`, and `deployed_nodes` holds
-- the levels of `traverse_graph` in their order.
pub deploy_returned :
    {S : Type 0} (ops : NodeOps S) (nodes : Nodes) (s : S) (m : Machine S)
    → IsKeyed nodes
    → (v : Search) → (validate nodes ≡ ok v)
    → Deploys ops nodes s m
    → m.main ≡ returned
    → (m.executor.status ≡ ExecutionStatus.done)
      × (some (level_lists m.executor.deployed_nodes) ≡ traverse_graph nodes)
      × ((id : Identifier) → has_id id (ids nodes) ≡ true → SettledAt false id m.executor.nodes)
deploy_returned ops nodes s m keyed v valid r at =
    let (levels, e, h) = deploy-Holds ops nodes s m r in
    let (status, whole, past) =
      subst (λ main. Inv levels main m.executor m.tasks m.orphans) at h.0 in
    (
      status,
      ap some whole ∙ sym e,
      λ id listed.
          let (i, placed, _) = traverse_graph_complete nodes keyed v valid levels e id listed in
          All-nth_level (λ i. SettledAt false i m.executor.nodes) id i m.executor.deployed_nodes
            past (subst (λ ls. has_id id (nth_level i ls) ≡ true) (sym whole) placed),
    )
