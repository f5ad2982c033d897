-- ===== src/Deploy/Executor/Accounts.antt =====
-- What one move of a task does, by the branches of the code it runs.
use pyceli.Base.{
  ◌≡◌, refl, ap, sym, subst, inl, inr, Bool, true, false, Option, if-cases, Option-cases, none,
  some, arith,
}
use pyceli.Objects.{Identifier, K8sObject}
use pyceli.Deploy.Graph.{failed, ObjectNode, ids, find_node}
use pyceli.Deploy.Levels.{is_nil}
use pyceli.Deploy.Progress.{NodeEvent, node_event}
use pyceli.Manager.Client.{Raised, key_error, Outcome, ok, err}
use pyceli.Deploy.Executor.{
  NodeOps, Executor, ready, ended, Task, is_untouched, log, note_waited, rollback_node,
  resume_found, wait_found, wait_previous, run_apply, object_of, finish_node, missing_from,
  gather_node, delete_node, revert_node, begin_found, begin_node, resume_node, wait_object,
  wait_reverted, wait_for_node,
}
use pyceli.Deploy.Executor.Machine.{Move, begin, wait, resume, end_wait}
use pyceli.Deploy.Executor.Effects.{
  kept, raises, Account, frame_refl, is_settled, dependencies_at, settle-Account, deleted-Account,
}

-- An account of what a segment gives
abbrev Accounted : {S : Type 0} → Executor S → Task → Executor S × Task → Type 0
Accounted e t p = Account e t p.0 p.1

module _ {S : Type 0} (ops : NodeOps S) (t : Task) where
  finish-Account :
      (n : ObjectNode) (failure : Option Raised) (e : Executor S)
      → find_node t.node e.nodes ≡ some n
      → Accounted e t (finish_node ops t n failure e)
  unfolding finish_node run_apply
  finish-Account n none e found =
      let (out, e') = run_apply ops n (object_of t.on_rollback n) e in
      settle-Account t n out e' found
  finish-Account n (some r) e found = settle-Account t n (err r) e found

  resume-Account :
      (failure : Option Raised) (e : Executor S) → Accounted e t (resume_node ops t failure e)
  unfolding resume_node resume_found
  resume-Account failure e = elim (Option-cases (find_node t.node e.nodes)) [
    | inl missing ↦
        subst (λ o. Accounted e t (resume_found ops t failure o e)) (sym missing)
          (refl, refl, frame_refl e, raises key_error failed refl (inl refl))
    | inr (n, found) ↦
        subst (λ o. Accounted e t (resume_found ops t failure o e)) (sym found)
          (finish-Account n failure e found)
  ]

  module _ (fresh : t.phase ≡ ready) where
    gather-Account :
        (n : ObjectNode) (e : Executor S)
        → find_node t.node e.nodes ≡ some n
        → Accounted e t (gather_node ops t n e)
    unfolding gather_node
    gather-Account n e found =
        let deps = missing_from n.dependencies e.waited_nodes in
        if-cases (Accounted e t) (is_nil deps) (λ _. finish-Account n none e found)
          (λ _.
            if-cases (Accounted e t) (is_nil (missing_from deps (ids e.nodes)))
              (λ _. (refl, refl, frame_refl e, kept refl (λ h. absurd (ground arith))))
              (λ _. finish-Account n (some key_error) e found))

    revert-Account :
        (n : ObjectNode) (previous : Option K8sObject) (e : Executor S)
        → t.on_rollback ≡ true
        → find_node t.node e.nodes ≡ some n
        → Accounted e t (revert_node ops t n previous e)
    unfolding revert_node delete_node
    revert-Account n none e on found =
        let (out, s) = ops.delete n.deploying_object e.cluster in
        deleted-Account t n out (record e { cluster = s }) on found
    revert-Account n (some o) e on found =
        gather-Account n (log (node_event NodeEvent.start_rollback n) e) found

    untouched-settled :
        (n : ObjectNode)
        → is_untouched n.deployment_status ≡ true
        → is_settled true n.deployment_status ≡ true
    unfolding is_untouched is_settled
    untouched-settled n h = ground arith

    begin-Account : (e : Executor S) → Accounted e t (begin_node ops t e)
    unfolding begin_node begin_found rollback_node
    begin-Account e = elim (Option-cases (find_node t.node e.nodes)) [
      | inl missing ↦
          subst (λ o. Accounted e t (begin_found ops t o e)) (sym missing)
            (refl, refl, frame_refl e, raises key_error failed refl (inl refl))
      | inr (n, found) ↦
          subst (λ o. Accounted e t (begin_found ops t o e)) (sym found)
            (if-cases (Accounted e t) t.on_rollback
              (λ on.
                if-cases (Accounted e t) (is_untouched n.deployment_status)
                  (λ still. (
                    refl,
                    refl,
                    frame_refl e,
                    kept refl (λ _. inr (
                      n,
                      found,
                      subst (λ b. is_settled b n.deployment_status ≡ true) (sym on)
                          (untouched-settled n still),
                    )),
                  ))
                  (λ _. revert-Account n n.previous_object e on found))
              (λ _. gather-Account n (log (node_event NodeEvent.start_apply n) e) found))
    ]

  -- A wait leaves the nodes as they are.
  abbrev pub Waits : Executor S → Outcome (Unit {0}) × Executor S → Type 0
  Waits e r =
      (r.1.status ≡ e.status) × (r.1.deployed_nodes ≡ e.deployed_nodes) × (r.1.nodes ≡ e.nodes)

  wait_object-Waits :
      (n : ObjectNode) (o : K8sObject) (e : Executor S) → Waits e (wait_object ops n o e)
  unfolding wait_object note_waited
  wait_object-Waits n o e = noted (ops.wait o e.cluster).0 _
    where
      noted : (out : Outcome (Unit {0})) (e : Executor S) → Waits e (note_waited n out e)
      noted (ok b) e = (refl, refl, refl)
      noted (err r) e = (refl, refl, refl)

  pub wait_found-Waits :
      (on_rollback : Bool) (found : Option ObjectNode) (e : Executor S)
      → Waits e (wait_found ops on_rollback found e)
  unfolding wait_found wait_reverted wait_previous
  wait_found-Waits on_rollback none e = (refl, refl, refl)
  wait_found-Waits false (some n) e = wait_object-Waits n n.deploying_object e
  wait_found-Waits true (some n) e =
      if-cases (Waits e) (is_untouched n.deployment_status) (λ _. (refl, refl, refl))
        (λ _. previous n.previous_object)
    where
      previous : (o : Option K8sObject) → Waits e (wait_previous ops n o e)
      previous none = (refl, refl, refl)
      previous (some o) = wait_object-Waits n o e

  end_wait_ended :
      (id : Identifier) (out : Outcome (Unit {0}))
      → (end_wait id out t).phase ≡ ended (ok tt)
      → t.phase ≡ ended (ok tt)
  end_wait_ended id (ok b) h = ground arith
  end_wait_ended id (err r) h = ground arith

  wait-Account :
      (id : Identifier) (e : Executor S)
      → let (out, e') = wait_for_node ops t.on_rollback id e in Account e t e' (end_wait id out t)
  unfolding wait_for_node
  wait-Account id e =
      let (status, deployed, nodes) = wait_found-Waits t.on_rollback (find_node id e.nodes) e in
      (
        refl,
        refl,
        (status, deployed, λ i. ap (dependencies_at i) nodes),
        kept nodes (λ h. inl (end_wait_ended id _ h)),
      )

  pub Move-Account : {e e' : Executor S} {t' : Task} → Move ops e t e' t' → Account e t e' t'
  Move-Account {e} (begin fresh) = begin-Account fresh e
  Move-Account {e} (wait id listed) = wait-Account id e
  Move-Account {e} (resume failure at can) = resume-Account failure e
