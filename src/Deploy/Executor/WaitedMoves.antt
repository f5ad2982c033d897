-- ===== src/Deploy/Executor/WaitedMoves.antt =====
-- Each move of a task that deploys keeps the account of the waits.
use pyceli.Base.{
  ◌≡◌, refl, ap, sym, ◌∙◌, subst, inl, inr, true, false, ◌||◌, or-true_right, List, Option,
  Option-cases, none, some, if-cases, arith, All, All-map,
}
use pyceli.Objects.{Identifier, id_eq, id_eq_self, has_id}
use pyceli.Deploy.Graph.{ObjectNode, Nodes, node_id, ids, find_node, add_id}
use pyceli.Deploy.Levels.{is_nil}
use pyceli.Deploy.Progress.{NodeEvent, node_event}
use pyceli.Manager.Client.{Raised, key_error, Outcome, ok, err}
use pyceli.Deploy.Executor.{
  NodeOps, Executor, Phase, ready, gathering, ended, Task, end_task, log, note_waited, missing_from,
  gather_node, begin_found, begin_node, resume_found, resume_node, wait_object, wait_found,
  wait_for_node,
}
use pyceli.Deploy.Executor.Machine.{
  Move, begin, wait, resume, Work, here, there, CanResume, end_wait, note_failure,
}
use pyceli.Deploy.Executor.Effects.{find_node_id}
use pyceli.Deploy.Executor.Settled.{OnRollback}
use pyceli.Deploy.Executor.Ids.{missing_from-split, nil_has_id, remove_id-split}
use pyceli.Deploy.Executor.Waited.{
  AllWaited, EntryWaited, TaskWaits, Fine, Known, More, More-EntryWaited, Kept, log-Fine,
  finish-Kept, failed-Kept,
}
use pyceli.Deploy.Strategy.Extends.{has_id-add_id}

module _ {S : Type 0} (ops : NodeOps S) where
  -- What a wait does: it leaves the progress as it is, and adds its node when it ends well.
  abbrev pub Waits : Identifier → Executor S → Outcome (Unit {0}) × Executor S → Type 0
  Waits id e r =
      More e.waited_nodes r.1.waited_nodes
      × (r.1.progress ≡ e.progress)
      × (r.0 ≡ ok tt → has_id id r.1.waited_nodes ≡ true)

  add_id-More : (id : Identifier) (xs : List Identifier) → More xs (add_id id xs)
  add_id-More id xs d h = has_id-add_id id d xs ∙ ap (λ b. b || id_eq id d) h

  noted-Waits :
      (n : ObjectNode) (out : Outcome (Unit {0})) (e : Executor S)
      → Waits (node_id n) e (note_waited n out e)
  unfolding note_waited
  noted-Waits n (ok b) e = (
    add_id-More (node_id n) e.waited_nodes,
    refl,
    λ _.
        has_id-add_id (node_id n) (node_id n) e.waited_nodes
        ∙ or-true_right (has_id (node_id n) e.waited_nodes) (id_eq (node_id n) (node_id n))
            (id_eq_self (node_id n)),
  )
  noted-Waits n (err r) e = ((λ d h. h), refl, λ h. absurd (ground arith))

  pub wait_for_node-Waits :
      (id : Identifier) (e : Executor S) → Waits id e (wait_for_node ops false id e)
  unfolding wait_for_node wait_found wait_object
  wait_for_node-Waits id e = elim (Option-cases (find_node id e.nodes)) [
    | inl missing ↦
        subst (λ o. Waits id e (wait_found ops false o e)) (sym missing)
          ((λ d h. h), refl, λ h. absurd (ground arith))
    | inr (n, found) ↦
        let (out, s) = ops.wait n.deploying_object e.cluster in
        subst (λ o. Waits id e (wait_found ops false o e)) (sym found)
          (subst (λ i. Waits i e (note_waited n out (record e { cluster = s })))
            (find_node_id id e.nodes n found) (noted-Waits n out (record e { cluster = s })))
  ]

module _ {S : Type 0} (D : Identifier → Identifier → Type 0) (ops : NodeOps S) (t : Task)
    (forward : t.on_rollback ≡ false) where
  -- The dependencies of the node that was found are listed in it.
  listed :
      (n : ObjectNode) (nodes : Nodes) (d : Identifier)
      → Known D nodes
      → find_node t.node nodes ≡ some n
      → D t.node d
      → has_id d n.dependencies ≡ true
  listed n nodes d known found dep =
      let (deps, at, has) = known t.node d dep in
      let at' : some n.dependencies ≡ some deps =
        ap (λ o. elim o [ none ↦ none | some m ↦ some m.dependencies ]) (sym found) ∙ at in
      let same : deps ≡ n.dependencies = cc in subst (λ deps. has_id d deps ≡ true) same has

  own :
      (n : ObjectNode) (nodes : Nodes) (waited : List Identifier)
      → find_node t.node nodes ≡ some n
      → AllWaited D waited t.node
      → AllWaited D waited (node_id n)
  own n nodes waited found = subst (AllWaited D waited) (sym (find_node_id t.node nodes n found))

  gather-Kept :
      (n : ObjectNode) (e : Executor S)
      → Known D e.nodes
      → find_node t.node e.nodes ≡ some n
      → Fine D e
      → Kept D e (gather_node ops t n e)
  unfolding gather_node
  gather-Kept n e known found fine =
      let deps = missing_from n.dependencies e.waited_nodes in
      if-cases (Kept D e) (is_nil deps)
        (λ nothing.
          finish-Kept D ops t forward n e
            (own n e.nodes e.waited_nodes found (λ d dep.
              elim (missing_from-split d n.dependencies e.waited_nodes
                (listed n e.nodes d known found dep)) [
                  | inl waited ↦ waited
                  | inr left ↦ absurd (ground (arith, nil_has_id d deps nothing, left))
                ]))
            fine)
        (λ _.
          if-cases (Kept D e) (is_nil (missing_from deps (ids e.nodes)))
            (λ _. (
              (λ d h. h),
              fine,
              λ at d dep.
                  missing_from-split d n.dependencies e.waited_nodes
                    (listed n e.nodes d known found dep),
            ))
            (λ _. failed-Kept D ops t forward n key_error e fine))

  lost : (e : Executor S) (r : Raised) → Fine D e → Kept D e (e, end_task (err r) t)
  lost e r fine = ((λ d h. h), fine, λ at. absurd (ground arith))

  begin-Kept : (e : Executor S) → Known D e.nodes → Fine D e → Kept D e (begin_node ops t e)
  unfolding begin_node begin_found
  begin-Kept e known fine = elim (Option-cases (find_node t.node e.nodes)) [
    | inl missing ↦
        subst (λ o. Kept D e (begin_found ops t o e)) (sym missing) (lost e key_error fine)
    | inr (n, found) ↦
        subst (λ o. Kept D e (begin_found ops t o e)) (sym found)
          (if-cases (Kept D e) t.on_rollback (λ on. absurd (ground arith))
            (λ _. gather-Kept n (log (node_event NodeEvent.start_apply n) e) known found (
              log-Fine D (node_event NodeEvent.start_apply n) e (λ shown. absurd (ground arith))
                fine)))
  ]

  resume-Kept :
      (failure : Option Raised) (e : Executor S)
      → Known D e.nodes
      → t.phase ≡ gathering failure
      → CanResume failure t.todo
      → TaskWaits D e.waited_nodes t
      → Fine D e
      → Kept D e (resume_node ops t failure e)
  unfolding resume_node resume_found
  resume-Kept failure e known at can waits fine = elim (Option-cases (find_node t.node e.nodes)) [
    | inl missing ↦
        subst (λ o. Kept D e (resume_found ops t failure o e)) (sym missing) (lost e key_error fine)
    | inr (n, found) ↦
        subst (λ o. Kept D e (resume_found ops t failure o e)) (sym found)
          (resumed n found failure at can)
  ]
    where
      resumed :
          (n : ObjectNode)
          → find_node t.node e.nodes ≡ some n
          → (failure : Option Raised) → t.phase ≡ gathering failure
          → CanResume failure t.todo
          → Kept D e (resume_found ops t failure (some n) e)
      resumed n found (some r) at can = failed-Kept D ops t forward n r e fine
      resumed n found none at can =
          finish-Kept D ops t forward n e
            (own n e.nodes e.waited_nodes found (λ d dep. elim (waits at d dep) [
              | inl waited ↦ waited
              | inr left ↦ absurd (ground (arith, nil_has_id d t.todo (ap is_nil can), left))
            ]))
            fine

  noted_none :
      (out : Outcome (Unit {0})) (p : Phase)
      → note_failure out p ≡ gathering none
      → (out ≡ ok tt) × (p ≡ gathering none)
  noted_none (ok b) p h = (refl, h)
  noted_none (err r) ready h = absurd (ground arith)
  noted_none (err r) (gathering none) h = absurd (ground arith)
  noted_none (err r) (gathering (some e)) h = absurd (ground arith)
  noted_none (err r) (ended out) h = absurd (ground arith)

  wait-Kept :
      (id : Identifier) (e : Executor S)
      → TaskWaits D e.waited_nodes t
      → Fine D e
      → let (out, e') = wait_for_node ops t.on_rollback id e in Kept D e (e', end_wait id out t)
  wait-Kept id e waits fine =
      subst (λ on. let (out, e') = wait_for_node ops on id e in Kept D e (e', end_wait id out t))
        (sym forward) (kept (wait_for_node ops false id e) (wait_for_node-Waits ops id e))
    where
      kept :
          (r : Outcome (Unit {0}) × Executor S)
          → Waits ops id e r
          → Kept D e (r.1, end_wait id r.0 t)
      kept r (more, same, added) = (
        more,
        subst (All (EntryWaited D r.1.waited_nodes)) (sym same)
            (More-EntryWaited D e.waited_nodes r.1.waited_nodes e.progress more fine),
        λ at d dep.
            let (well, was) = noted_none r.0 t.phase at in
            elim (waits was d dep) [
              | inl waited ↦ inl (more d waited)
              | inr left ↦ elim (remove_id-split id d t.todo left) [
                | inl it ↦ inl (subst (λ i. has_id i r.1.waited_nodes ≡ true) (sym it) (added well))
                | inr still ↦ inr still
              ]
            ],
      )

  Move-Kept :
      (e : Executor S) {e' : Executor S} {t' : Task}
      → Known D e.nodes
      → TaskWaits D e.waited_nodes t
      → Fine D e
      → Move ops e t e' t'
      → Kept D e (e', t')
  Move-Kept e known waits fine (begin fresh) = begin-Kept e known fine
  Move-Kept e known waits fine (wait id has) = wait-Kept id e waits fine
  Move-Kept e known waits fine (resume failure at can) =
      resume-Kept failure e known at can waits fine

pub Work-Kept :
    {S : Type 0} {ops : NodeOps S} {e : Executor S} {ts : List Task} {e' : Executor S}
    {ts' : List Task} (D : Identifier → Identifier → Type 0)
    → Known D e.nodes
    → Work ops e ts e' ts'
    → All (OnRollback false) ts
    → All (TaskWaits D e.waited_nodes) ts
    → Fine D e
    → More e.waited_nodes e'.waited_nodes × Fine D e' × All (TaskWaits D e'.waited_nodes) ts'
Work-Kept {ops} {e} {e'} D known (here {t} {t'} {ts} move) forward waits fine =
    let (more, fine', waits') = Move-Kept D ops t forward.0 e known waits.0 fine move in
    (
      more,
      fine',
      (
        waits',
        All-map ts (λ t h at d dep. elim (h at d dep) [ inl h ↦ inl (more d h) | inr h ↦ inr h ])
            waits.1,
      ),
    )
Work-Kept {e} {e'} D known (there {t} w) forward waits fine =
    let (more, fine', waits') = Work-Kept D known w forward.1 waits.1 fine in
    (
      more,
      fine',
      ((λ at d dep. elim (waits.0 at d dep) [ inl h ↦ inl (more d h) | inr h ↦ inr h ]), waits'),
    )
