-- ===== src/Deploy/Executor/Ends.antt =====
-- How `deploy` ends: its status, and the nodes behind a deployment that returned.
use pyceli.Base.{
  ℕ, suc, ◌≡◌, ◌≢◌, refl, ap, sym, ◌∙◌, subst, ◌⊎◌, inl, inr, Bool, false, List, [], ◌∷◌, ◌++◌, map,
  All, All-append, arith,
}
use mathlib.Core.List.{append-nil, append_assoc}
use pyceli.Objects.{Identifier}
use pyceli.Deploy.Graph.{Nodes}
use pyceli.Deploy.Progress.{ExecutionStatus}
use pyceli.Manager.Client.{Raised}
use pyceli.Deploy.Executor.{NodeOps, LevelNodes, Executor, Task}
use pyceli.Deploy.Executor.Machine.{
  Main, deploying, rolling_back, returned, raised, Machine, new_task, EndedOk, next_level,
  level_success, next_rollback, start_rollback, deploy_failed, Work, here, there, Step, work,
  orphan, level_done, level_failed, rollback_done, rollback_failed, Reach, start, later,
}
use pyceli.Deploy.Executor.Effects.{SettledAt}
use pyceli.Deploy.Executor.Settled.{Good, OnRollback, TaskSettled, Good-Work, Work-frame, Good-done}

-- The nodes of levels
abbrev pub level_ids : List LevelNodes → List Identifier
level_ids [] = []
level_ids (l ∷ ls) = l.nodes ++ level_ids ls

abbrev pub level_lists : List LevelNodes → List (List Identifier)
level_lists [] = []
level_lists (l ∷ ls) = l.nodes ∷ level_lists ls

-- What holds while the level `ids` is deployed, with the levels `more` behind it
pub record Deploying {S : Type 0} (levels : List (List Identifier)) (ids : List Identifier)
    (more : List (List Identifier)) (e : Executor S) (ts orphans : List Task) : Type 0 where
  pub status : e.status ≡ ExecutionStatus.pending
  pub alone : orphans ≡ []
  pub nodes : map (λ t. t.node) ts ≡ ids
  pub forward : All (OnRollback false) ts
  pub good : Good false e.nodes ts (level_ids e.deployed_nodes)
  pub whole : level_lists e.deployed_nodes ++ ids ∷ more ≡ levels

-- What holds behind a deployment that returned
abbrev pub Returned : {S : Type 0} → List (List Identifier) → Executor S → Type 0
Returned levels e =
    (e.status ≡ ExecutionStatus.done)
    × (level_lists e.deployed_nodes ≡ levels)
    × All (λ id. SettledAt false id e.nodes) (level_ids e.deployed_nodes)

abbrev pub Inv :
    {S : Type 0} → List (List Identifier) → Main → Executor S → List Task → List Task → Type 0
Inv levels (deploying level ids more) e ts orphans = Deploying levels ids more e ts orphans
Inv levels (rolling_back r ls) e ts orphans = e.status ≡ ExecutionStatus.failed
Inv levels returned e ts orphans = Returned levels e
Inv levels (raised r) e ts orphans =
    (e.status ≡ ExecutionStatus.failed) ⊎ (e.status ≡ ExecutionStatus.rolled_back)

-- Only a deployment that runs has tasks.
abbrev pub Quiet : Main → List Task → List Task → Type 0
Quiet (deploying level ids more) ts orphans = Unit
Quiet (rolling_back r ls) ts orphans = Unit
Quiet _ ts orphans = (ts ≡ []) × (orphans ≡ [])

abbrev pub Holds : {S : Type 0} → List (List Identifier) → Machine S → Type 0
Holds levels m = Inv levels m.main m.executor m.tasks m.orphans × Quiet m.main m.tasks m.orphans

pub fresh-OnRollback :
    (on : Bool) (ids : List Identifier) → All (OnRollback on) (map (new_task on) ids)
fresh-OnRollback on [] = tt
fresh-OnRollback on (id ∷ ids) = (refl, fresh-OnRollback on ids)

pub fresh_nodes :
    (on : Bool) (ids : List Identifier) → map (λ t. t.node) (map (new_task on) ids) ≡ ids
fresh_nodes on [] = refl
fresh_nodes on (id ∷ ids) = ap (λ x. id ∷ x) (fresh_nodes on ids)

pub fresh-TaskSettled :
    (on : Bool) (nodes : Nodes) (ids : List Identifier)
    → All (TaskSettled on nodes) (map (new_task on) ids)
fresh-TaskSettled on nodes [] = tt
fresh-TaskSettled on nodes (id ∷ ids) =
    ((λ over. absurd (ground arith)), fresh-TaskSettled on nodes ids)

pub level_ids-append :
    (ls : List LevelNodes) (l : LevelNodes) → level_ids (ls ++ l ∷ []) ≡ level_ids ls ++ l.nodes
level_ids-append [] l = append-nil l.nodes
level_ids-append (k ∷ ls) l =
    ap (λ x. k.nodes ++ x) (level_ids-append ls l)
    ∙ sym (append_assoc k.nodes (level_ids ls) l.nodes)

level_lists-append :
    (ls : List LevelNodes) (l : LevelNodes) (more : List (List Identifier))
    → level_lists (ls ++ l ∷ []) ++ more ≡ level_lists ls ++ l.nodes ∷ more
level_lists-append [] l more = refl
level_lists-append (k ∷ ls) l more = ap (λ x. k.nodes ∷ x) (level_lists-append ls l more)

module _ {S : Type 0} (levels : List (List Identifier)) where
  pub next_level-Holds :
      (level : ℕ) (more : List (List Identifier)) (e : Executor S)
      → (e.status ≡ ExecutionStatus.pending)
      → (level_lists e.deployed_nodes ++ more ≡ levels)
      → All (λ id. SettledAt false id e.nodes) (level_ids e.deployed_nodes)
      → Holds levels (next_level level more e)
  unfolding next_level
  next_level-Holds level [] e pending whole past =
      ((refl, sym (append-nil (level_lists e.deployed_nodes)) ∙ whole, past), (refl, refl))
  next_level-Holds level (ids ∷ more) e pending whole past = (
    record {
      status = pending;
      alone = refl;
      nodes = fresh_nodes false ids;
      forward = fresh-OnRollback false ids;
      good = inr (fresh-TaskSettled false e.nodes ids, past);
      whole = whole;
    },
    tt,
  )

  level_success-Holds :
      (level : ℕ) (ids : List Identifier) (more : List (List Identifier)) (e : Executor S)
      (ts orphans : List Task)
      → Deploying levels ids more e ts orphans
      → All EndedOk ts
      → Holds levels (level_success level ids more e)
  unfolding level_success
  level_success-Holds level ids more e ts orphans d over =
      let (now, past) = Good-done false e.nodes ts (level_ids e.deployed_nodes) over d.good in
      let l : LevelNodes = record { level = level; nodes = ids } in
      next_level-Holds (suc level) more _ d.status
        (level_lists-append e.deployed_nodes l more ∙ d.whole)
        (subst (All (λ id. SettledAt false id e.nodes)) (sym (level_ids-append e.deployed_nodes l))
          (All-append (λ id. SettledAt false id e.nodes) (level_ids e.deployed_nodes) ids past
            (subst (All (λ id. SettledAt false id e.nodes)) d.nodes now)))

  next_rollback-Holds :
      (r : Raised) (ls : List LevelNodes) (e : Executor S) (orphans : List Task)
      → (e.status ≡ ExecutionStatus.failed)
      → Holds levels (next_rollback r ls e orphans)
  unfolding next_rollback
  next_rollback-Holds r [] e orphans h = (inr refl, (refl, refl))
  next_rollback-Holds r (l ∷ ls) e orphans h = (h, tt)

  pub deploy_failed-Holds :
      (r : Raised) (e : Executor S) (orphans : List Task) → Holds levels (deploy_failed r e orphans)
  unfolding deploy_failed start_rollback
  deploy_failed-Holds r e orphans = next_rollback-Holds r e.deployed_nodes _ orphans refl

  pub no-Work :
      {ops : NodeOps S} {e : Executor S} {ts : List Task} {e' : Executor S} {ts' : List Task}
      → Work ops e ts e' ts'
      → ts ≢ []
  no-Work (here move) h = ground arith
  no-Work (there w) h = ground arith

  Work-Holds :
      {ops : NodeOps S} {e : Executor S} {ts : List Task} {e' : Executor S} {ts' : List Task}
      (main : Main) (orphans : List Task)
      → Work ops e ts e' ts'
      → Inv levels main e ts orphans × Quiet main ts orphans
      → Inv levels main e' ts' orphans × Quiet main ts' orphans
  Work-Holds {e} {e'} {ts'} (deploying level ids more) orphans w (d, quiet) =
      let (frame, nodes, rollback) = Work-frame w in
      (
        record {
          status = frame.0 ∙ d.status;
          alone = d.alone;
          nodes = nodes ∙ d.nodes;
          forward = rollback false d.forward;
          good =
              subst (λ ls. Good false e'.nodes ts' (level_ids ls)) (sym frame.1)
                (Good-Work false (level_ids e.deployed_nodes) w d.forward d.good);
          whole = ap (λ ls. level_lists ls ++ ids ∷ more) frame.1 ∙ d.whole;
        },
        tt,
      )
  Work-Holds (rolling_back r ls) orphans w (h, quiet) =
      let (frame, _, _) = Work-frame w in (frame.0 ∙ h, tt)
  Work-Holds returned orphans w (h, quiet) = absurd (no-Work w quiet.0)
  Work-Holds (raised r) orphans w (h, quiet) = absurd (no-Work w quiet.0)

  orphan-Holds :
      {ops : NodeOps S} {e : Executor S} {os : List Task} {e' : Executor S} {os' : List Task}
      (main : Main) (ts : List Task)
      → Work ops e os e' os'
      → Inv levels main e ts os × Quiet main ts os
      → Inv levels main e' ts os' × Quiet main ts os'
  orphan-Holds (deploying level ids more) ts w (d, quiet) = absurd (no-Work w d.alone)
  orphan-Holds (rolling_back r ls) ts w (h, quiet) =
      let (frame, _, _) = Work-frame w in (frame.0 ∙ h, tt)
  orphan-Holds returned ts w (h, quiet) = absurd (no-Work w quiet.1)
  orphan-Holds (raised r) ts w (h, quiet) = absurd (no-Work w quiet.1)

  pub Step-Holds :
      {ops : NodeOps S} {m m' : Machine S} → Step ops m m' → Holds levels m → Holds levels m'
  Step-Holds {m} (work w) h = Work-Holds m.main m.orphans w h
  Step-Holds {m} (orphan w) h = orphan-Holds m.main m.tasks w h
  Step-Holds {m} (level_done {level} {ids} {more} at over) (h, _) =
      level_success-Holds level ids more m.executor m.tasks m.orphans
        (subst (λ main. Inv levels main m.executor m.tasks m.orphans) at h) over
  Step-Holds {m} (level_failed r at over) h = deploy_failed-Holds r m.executor m.tasks
  Step-Holds {m} (rollback_done {r} {ls} at over) (h, _) =
      next_rollback-Holds r ls m.executor m.orphans
        (subst (λ main. Inv levels main m.executor m.tasks m.orphans) at h)
  Step-Holds {m} (rollback_failed r at over) (h, _) =
      (inl (subst (λ main. Inv levels main m.executor m.tasks m.orphans) at h), (refl, refl))

  pub Reach-Holds :
      {ops : NodeOps S} {from m : Machine S} → Reach ops from m → Holds levels from → Holds levels m
  Reach-Holds start h = h
  Reach-Holds (later r step) h = Step-Holds step (Reach-Holds r h)
