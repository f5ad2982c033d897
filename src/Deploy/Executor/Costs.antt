-- ===== src/Deploy/Executor/Costs.antt =====
-- How many moves a task has left: each move leaves it one less.
use pyceli.Base.{
  ℕ, suc, ◌+◌, ◌≤◌, ◌<◌, ◌≡◌, refl, ap, sym, ◌∙◌, subst, ◌⊎◌, inl, inr, Bool, true, List, [], ◌∷◌,
  length, Option, Option-cases, none, some, if-cases, arith,
}
use pyceli.Objects.{Identifier, has_id, K8sObject}
use pyceli.Compare.Value.{Fields}
use pyceli.Deploy.Graph.{ObjectNode, Nodes, ids, find_node, remove_id}
use pyceli.Deploy.Levels.{is_nil}
use pyceli.Deploy.Progress.{NodeEvent, node_event}
use pyceli.Manager.Client.{Raised, no_action, key_error, Outcome, ok, err}
use pyceli.Deploy.Executor.{
  NodeOps, Executor, Phase, ready, gathering, ended, Task, is_untouched, log, end_task, done_status,
  settle_node, note_deleted, run_apply, object_of, finish_node, missing_from, gather_node,
  delete_node, revert_node, rollback_node, begin_found, begin_node, resume_found, resume_node,
  wait_for_node,
}
use pyceli.Deploy.Executor.Machine.{Move, begin, wait, resume, Work, here, there, note_failure}
use pyceli.Deploy.Executor.Effects.{dependencies_at}
use pyceli.Deploy.Executor.Settled.{Work-frame}

-- The moves of a task that has not begun: its begin, a wait for each dependency, and its end
abbrev weigh_deps : Option (List Identifier) → ℕ
weigh_deps none = 2
weigh_deps (some deps) = length deps + 2

abbrev pub weigh : Nodes → Identifier → ℕ
weigh nodes id = weigh_deps (dependencies_at id nodes)

abbrev phase_cost : ℕ → Phase → ℕ
phase_cost n ready = n
phase_cost n (gathering failure) = 1
phase_cost n (ended out) = 0

abbrev pub task_cost : (Identifier → ℕ) → Task → ℕ
task_cost w t = length t.todo + phase_cost (w t.node) t.phase

abbrev pub tasks_cost : (Identifier → ℕ) → List Task → ℕ
tasks_cost w [] = 0
tasks_cost w (t ∷ ts) = task_cost w t + tasks_cost w ts

-- Where a move at the begin of a task leads
abbrev Begun : {S : Type 0} → Nodes → Task → Executor S × Task → Type 0
Begun nodes t p =
    ((out : Outcome (Unit {0})) × (p.1 ≡ end_task out t))
    ⊎ ((deps : List Identifier) × (todo : List Identifier) × (dependencies_at t.node nodes
          ≡ some deps)
        × (length todo ≤ length deps)
        × (p.1 ≡ record t { todo = todo; phase = gathering none }))

missing_from-le : (xs known : List Identifier) → length (missing_from xs known) ≤ length xs
unfolding missing_from
missing_from-le [] known = omega arith
missing_from-le (x ∷ xs) known = ground (arith, missing_from-le xs known)

settle_task :
    {S : Type 0} (t : Task) (n : ObjectNode) (on : Bool) (out : Outcome (Unit {0})) (e : Executor S)
    → (out' : Outcome (Unit {0})) × ((settle_node t n (done_status on) out e).1 ≡ end_task out' t)
unfolding settle_node
settle_task t n on (ok b) e = (ok tt, refl)
settle_task t n on (err no_action) e = (ok tt, refl)
settle_task t n on (err r) e = (err r, refl)

deleted_task :
    {S : Type 0} (t : Task) (n : ObjectNode) (out : Outcome (Option Fields)) (e : Executor S)
    → (out' : Outcome (Unit {0})) × ((note_deleted t n out e).1 ≡ end_task out' t)
unfolding note_deleted
deleted_task t n (ok answer) e = (ok tt, refl)
deleted_task t n (err r) e = (err r, refl)

module _ {S : Type 0} (ops : NodeOps S) (t : Task) where
  finish_task :
      (n : ObjectNode) (failure : Option Raised) (e : Executor S)
      → (out : Outcome (Unit {0})) × ((finish_node ops t n failure e).1 ≡ end_task out t)
  unfolding finish_node
  finish_task n none e =
      let (out, e') = run_apply ops n (object_of t.on_rollback n) e in
      settle_task t n t.on_rollback out e'
  finish_task n (some r) e = settle_task t n t.on_rollback (err r) e

  resume_task :
      (failure : Option Raised) (e : Executor S)
      → (out : Outcome (Unit {0})) × ((resume_node ops t failure e).1 ≡ end_task out t)
  unfolding resume_node
  resume_task failure e = from (find_node t.node e.nodes)
    where
      from :
          (found : Option ObjectNode)
          → (out : Outcome (Unit {0})) × ((resume_found ops t failure found e).1 ≡ end_task out t)
      from none = (err key_error, refl)
      from (some n) = finish_task n failure e

  gather-Begun :
      (n : ObjectNode) (e : Executor S)
      → find_node t.node e.nodes ≡ some n
      → Begun e.nodes t (gather_node ops t n e)
  unfolding gather_node
  gather-Begun n e found =
      let deps = missing_from n.dependencies e.waited_nodes in
      if-cases (Begun e.nodes t) (is_nil deps) (λ _. inl (finish_task n none e))
        (λ _.
          if-cases (Begun e.nodes t) (is_nil (missing_from deps (ids e.nodes)))
            (λ _. inr (
              n.dependencies,
              deps,
              ap (λ o. elim o [ none ↦ none | some m ↦ some m.dependencies ]) found,
              missing_from-le n.dependencies e.waited_nodes,
              refl,
            ))
            (λ _. inl (finish_task n (some key_error) e)))

  revert-Begun :
      (n : ObjectNode) (previous : Option K8sObject) (e : Executor S)
      → find_node t.node e.nodes ≡ some n
      → Begun e.nodes t (revert_node ops t n previous e)
  unfolding revert_node delete_node
  revert-Begun n none e found =
      let (out, s) = ops.delete n.deploying_object e.cluster in
      inl (deleted_task t n out (record e { cluster = s }))
  revert-Begun n (some o) e found =
      gather-Begun n (log (node_event NodeEvent.start_rollback n) e) found

  begin-Begun : (e : Executor S) → Begun e.nodes t (begin_node ops t e)
  unfolding begin_node begin_found rollback_node
  begin-Begun e = elim (Option-cases (find_node t.node e.nodes)) [
    | inl missing ↦
        subst (λ o. Begun e.nodes t (begin_found ops t o e)) (sym missing)
          (inl (err key_error, refl))
    | inr (n, found) ↦
        subst (λ o. Begun e.nodes t (begin_found ops t o e)) (sym found)
          (if-cases (Begun e.nodes t) t.on_rollback
            (λ _.
              if-cases (Begun e.nodes t) (is_untouched n.deployment_status) (λ _. inl (ok tt, refl))
                (λ _. revert-Begun n n.previous_object e found))
            (λ _. gather-Begun n (log (node_event NodeEvent.start_apply n) e) found))
  ]

remove_id-length :
    (id : Identifier) (xs : List Identifier)
    → has_id id xs ≡ true
    → suc (length (remove_id id xs)) ≡ length xs
unfolding has_id
remove_id-length id [] h = absurd (ground arith)
remove_id-length id (x ∷ xs) h = ground (arith, remove_id-length id xs)

weigh_deps-ge : (o : Option (List Identifier)) → 2 ≤ weigh_deps o
weigh_deps-ge none = omega arith
weigh_deps-ge (some deps) = omega arith

phase_cost-note_failure :
    (n : ℕ) (out : Outcome (Unit {0})) (phase : Phase)
    → phase_cost n (note_failure out phase) ≡ phase_cost n phase
phase_cost-note_failure n (ok b) phase = refl
phase_cost-note_failure n (err r) ready = refl
phase_cost-note_failure n (err r) (gathering none) = refl
phase_cost-note_failure n (err r) (gathering (some e)) = refl
phase_cost-note_failure n (err r) (ended out) = refl

module _ (w : Identifier → ℕ) where
  Begun-cost :
      {S : Type 0} (nodes : Nodes) (t : Task) (p : Executor S × Task)
      → ((id : Identifier) → weigh nodes id ≡ w id)
      → t.phase ≡ ready
      → Begun nodes t p
      → task_cost w p.1 < task_cost w t
  Begun-cost nodes t p same fresh (inl (out, e)) = omega (
    arith,
    ap (task_cost w) e,
    ap (phase_cost (w t.node)) fresh,
    same t.node,
    weigh_deps-ge (dependencies_at t.node nodes),
  )
  Begun-cost nodes t p same fresh (inr (deps, todo, at, le, e)) = omega (
    arith,
    ap (task_cost w) e,
    ap (phase_cost (w t.node)) fresh,
    same t.node,
    ap weigh_deps at,
    le,
  )

  -- A move costs one.
  Move-cost :
      {S : Type 0} {ops : NodeOps S} {e : Executor S} {t : Task} {e' : Executor S} {t' : Task}
      → ((id : Identifier) → weigh e.nodes id ≡ w id)
      → Move ops e t e' t'
      → task_cost w t' < task_cost w t
  Move-cost {ops} {e} {t} same (begin fresh) =
      Begun-cost e.nodes t (begin_node ops t e) same fresh (begin-Begun ops t e)
  Move-cost {ops} {e} {t} same (wait id listed) =
      let out = (wait_for_node ops t.on_rollback id e).0 in
      omega
        (arith, remove_id-length id t.todo listed, phase_cost-note_failure (w t.node) out t.phase)
  Move-cost {ops} {e} {t} same (resume failure at can) =
      let (out, p) = resume_task ops t failure e in
      omega (arith, ap (task_cost w) p, ap (phase_cost (w t.node)) at)

  pub Work-cost :
      {S : Type 0} {ops : NodeOps S} {e : Executor S} {ts : List Task} {e' : Executor S}
      {ts' : List Task}
      → ((id : Identifier) → weigh e.nodes id ≡ w id)
      → Work ops e ts e' ts'
      → tasks_cost w ts' < tasks_cost w ts
  Work-cost same (here move) = omega (arith, Move-cost same move)
  Work-cost same (there w') = omega (arith, Work-cost same w')

  -- No move changes what a task costs before it begins.
  pub Work-weigh :
      {S : Type 0} {ops : NodeOps S} {e : Executor S} {ts : List Task} {e' : Executor S}
      {ts' : List Task}
      → ((id : Identifier) → weigh e.nodes id ≡ w id)
      → Work ops e ts e' ts'
      → (id : Identifier) → weigh e'.nodes id ≡ w id
  Work-weigh same work id =
      let (frame, _, _) = Work-frame work in ap weigh_deps (frame.2 id) ∙ same id
