-- ===== src/Deploy/Executor/Waited.antt =====
-- The waits before a node is applied: what a move of a task keeps while levels are deployed.
use pyceli.Base.{
  ◌≡◌, sym, subst, ◌⊎◌, Bool, true, false, List, [], ◌∷◌, map, none, some, arith, All, All-append,
}
use pyceli.Objects.{Identifier, has_id}
use pyceli.Deploy.Graph.{
  DeploymentStatus, done, no_action_needed, failed, ObjectNode, Nodes, node_id,
}
use pyceli.Deploy.Progress.{
  NodeEvent, compare, new_obj, complete, NodeProgress, Progress, execution, graph_level, node,
  node_event, node_error,
}
use pyceli.Manager.Client.{Raised, no_action, Outcome, ok, err}
use pyceli.Manager.Apply.{ApplyEvent}
use pyceli.Deploy.Executor.{
  NodeOps, Executor, gathering, Task, log, with_status, event_progress, done_status, settle_node,
  run_apply, object_of, finish_node,
}
use pyceli.Deploy.Executor.Effects.{dependencies_at}

-- The entries that are made behind a call of the api for the node: `_apply_node` has begun.
abbrev is_done : DeploymentStatus → Bool
is_done done = true
is_done _ = false

abbrev by_event : NodeEvent → DeploymentStatus → Bool
by_event compare status = true
by_event new_obj status = true
by_event complete status = is_done status
by_event _ status = false

abbrev pub shows_apply : NodeProgress → Bool
shows_apply p = by_event p.event p.deployment_status

-- The identifier is one of a dependency of the node.
abbrev pub Depends : Nodes → Identifier → Identifier → Type 0
Depends nodes id d =
    (deps : List Identifier) × (dependencies_at id nodes ≡ some deps) × (has_id d deps ≡ true)

module _ (D : Identifier → Identifier → Type 0) where
  -- All dependencies of the node are among the nodes that were waited for.
  abbrev pub AllWaited : List Identifier → Identifier → Type 0
  AllWaited waited id = (d : Identifier) → D id d → has_id d waited ≡ true

  abbrev pub EntryWaited : List Identifier → Progress → Type 0
  EntryWaited waited (node p) = shows_apply p ≡ true → AllWaited waited p.node
  EntryWaited waited _ = Unit

  -- Each dependency was waited for, or still is.
  abbrev pub TaskWaits : List Identifier → Task → Type 0
  TaskWaits waited t =
      t.phase ≡ gathering none
      → (d : Identifier) → D t.node d
      → (has_id d waited ≡ true) ⊎ (has_id d t.todo ≡ true)

  abbrev pub Fine : {S : Type 0} → Executor S → Type 0
  Fine e = All (EntryWaited e.waited_nodes) e.progress

  -- The relation is that of the nodes.
  abbrev pub Known : Nodes → Type 0
  Known nodes = (id d : Identifier) → D id d → Depends nodes id d

abbrev pub More : List Identifier → List Identifier → Type 0
More xs ys = (d : Identifier) → has_id d xs ≡ true → has_id d ys ≡ true

pub More-EntryWaited :
    (D : Identifier → Identifier → Type 0) (xs ys : List Identifier) (entries : List Progress)
    → More xs ys
    → All (EntryWaited D xs) entries
    → All (EntryWaited D ys) entries
More-EntryWaited D xs ys [] more h = tt
More-EntryWaited D xs ys (node p ∷ entries) more h =
    ((λ shown d dep. more d (h.0 shown d dep)), More-EntryWaited D xs ys entries more h.1)
More-EntryWaited D xs ys (execution p ∷ entries) more h =
    (tt, More-EntryWaited D xs ys entries more h.1)
More-EntryWaited D xs ys (graph_level p ∷ entries) more h =
    (tt, More-EntryWaited D xs ys entries more h.1)

-- What a segment of a task that deploys keeps, and what holds of the task behind it
abbrev pub Kept :
    {S : Type 0} → (Identifier → Identifier → Type 0) → Executor S → Executor S × Task → Type 0
Kept D e p = More e.waited_nodes p.0.waited_nodes × Fine D p.0 × TaskWaits D p.0.waited_nodes p.1

module _ {S : Type 0} (D : Identifier → Identifier → Type 0) where
  pub log-Fine :
      (entry : Progress) (e : Executor S)
      → EntryWaited D e.waited_nodes entry
      → Fine D e
      → Fine D (log entry e)
  log-Fine entry e h fine =
      All-append (EntryWaited D e.waited_nodes) e.progress (entry ∷ []) fine (h, tt)

  settle-Kept :
      (t : Task) (n : ObjectNode) (out : Outcome (Unit {0})) (e : Executor S)
      → AllWaited D e.waited_nodes (node_id n)
      → Fine D e
      → Kept D e (settle_node t n done out e)
  unfolding settle_node
  settle-Kept t n (ok b) e all fine = (
    (λ d h. h),
    log-Fine (node_event complete (with_status done n)) e (λ shown. all) fine,
    λ at. absurd (ground arith),
  )
  settle-Kept t n (err no_action) e all fine = (
    (λ d h. h),
    log-Fine (node_event complete (with_status no_action_needed n)) e (λ shown. all) fine,
    λ at. absurd (ground arith),
  )
  settle-Kept t n (err r) e all fine = (
    (λ d h. h),
    log-Fine (node_error r (with_status failed n)) e (λ shown. all) fine,
    λ at. absurd (ground arith),
  )

  -- An exception of a wait leaves no entry that shows a call for the node.
  settle_failed-Kept :
      (t : Task) (n : ObjectNode) (r : Raised) (e : Executor S)
      → Fine D e
      → Kept D e (settle_node t n done (err r) e)
  unfolding settle_node
  settle_failed-Kept t n no_action e fine = (
    (λ d h. h),
    log-Fine (node_event complete (with_status no_action_needed n)) e
        (λ shown. absurd (ground arith)) fine,
    λ at. absurd (ground arith),
  )
  settle_failed-Kept t n r e fine = (
    (λ d h. h),
    log-Fine (node_error r (with_status failed n)) e (λ shown. absurd (ground arith)) fine,
    λ at. absurd (ground arith),
  )

events-Fine :
    (D : Identifier → Identifier → Type 0) (n : ObjectNode) (waited : List Identifier)
    (events : List ApplyEvent)
    → AllWaited D waited (node_id n)
    → All (EntryWaited D waited) (map (event_progress n) events)
unfolding event_progress
events-Fine D n waited [] all = tt
events-Fine D n waited (ApplyEvent.compare r ∷ events) all =
    ((λ shown. all), events-Fine D n waited events all)
events-Fine D n waited (ApplyEvent.new_obj ∷ events) all =
    ((λ shown. all), events-Fine D n waited events all)

module _ {S : Type 0} (D : Identifier → Identifier → Type 0) (ops : NodeOps S) (t : Task)
    (forward : t.on_rollback ≡ false) where
  pub finish-Kept :
      (n : ObjectNode) (e : Executor S)
      → AllWaited D e.waited_nodes (node_id n)
      → Fine D e
      → Kept D e (finish_node ops t n none e)
  unfolding finish_node run_apply
  finish-Kept n e all fine =
      let (out, e') = run_apply ops n (object_of t.on_rollback n) e in
      subst (λ on. Kept D e (settle_node t n (done_status on) out e')) (sym forward)
        (settle-Kept D t n out e' all (
          All-append (EntryWaited D e.waited_nodes) e.progress _ fine
            (events-Fine D n e.waited_nodes _ all)))

  pub failed-Kept :
      (n : ObjectNode) (r : Raised) (e : Executor S)
      → Fine D e
      → Kept D e (finish_node ops t n (some r) e)
  unfolding finish_node
  failed-Kept n r e fine =
      subst (λ on. Kept D e (settle_node t n (done_status on) (err r) e)) (sym forward)
        (settle_failed-Kept D t n r e fine)
