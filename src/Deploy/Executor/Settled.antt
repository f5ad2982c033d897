-- ===== src/Deploy/Executor/Settled.antt =====
-- What the tasks of a level leave behind: each node settled, or an exception.
use pyceli.Base.{
  ◌≡◌, refl, ap, sym, ◌∙◌, subst, ◌⊎◌, inl, inr, Bool, true, List, [], ◌∷◌, map, some, arith, All,
  All-map, Any,
}
use pyceli.Objects.{Identifier}
use pyceli.Deploy.Graph.{DeploymentStatus, ObjectNode, Nodes, find_node, update_node}
use pyceli.Manager.Client.{Raised, Outcome, ok, err}
use pyceli.Deploy.Executor.{NodeOps, Executor, ended, Task, with_status, wait_for_node}
use pyceli.Deploy.Executor.Machine.{
  Move, begin, wait, resume, Work, here, there, EndedOk, EndedErr, note_failure,
}
use pyceli.Deploy.Executor.Effects.{SettledAt, Effect, kept, settled, raises, Frame, is_settled}
use pyceli.Deploy.Executor.Accounts.{Move-Account}

abbrev pub Failing : List Task → Type 0
Failing ts = (r : Raised) × Any (EndedErr r) ts

-- Every node that is settled stays so.
abbrev Grows : Bool → Nodes → Nodes → Type 0
Grows on nodes nodes' = (id : Identifier) → SettledAt on id nodes → SettledAt on id nodes'

abbrev pub TaskSettled : Bool → Nodes → Task → Type 0
TaskSettled on nodes t = EndedOk t → SettledAt on t.node nodes

abbrev pub OnRollback : Bool → Task → Type 0
OnRollback on t = t.on_rollback ≡ on

-- A task that has come to its end stays there.
ended_stays :
    {S : Type 0} {ops : NodeOps S} {e : Executor S} {t : Task} {e' : Executor S} {t' : Task}
    {out : Outcome (Unit {0})}
    → Move ops e t e' t'
    → t.phase ≡ ended out
    → t'.phase ≡ ended out
ended_stays (begin fresh) h = absurd (ground arith)
ended_stays {ops} {e} {t} {out} (wait id listed) h =
    let r = (wait_for_node ops t.on_rollback id e).0 in
    subst (λ p. note_failure r p ≡ ended out) (sym h) (still r)
  where
    still : (r : Outcome (Unit {0})) → note_failure r (ended out) ≡ ended out
    still (ok b) = refl
    still (err e) = refl
ended_stays (resume failure at can) h = absurd (ground arith)

pub Failing-Work :
    {S : Type 0} {ops : NodeOps S} {e e' : Executor S} {ts ts' : List Task}
    → Work ops e ts e' ts'
    → Failing ts
    → Failing ts'
Failing-Work (here move) (r, inl at) = (r, inl (ended_stays move at))
Failing-Work (here move) (r, inr at) = (r, inr at)
Failing-Work (there w) (r, inl at) = (r, inl at)
Failing-Work (there w) (r, inr at) = let (r', at') = Failing-Work w (r, at) in (r', inr at')

-- Setting a settled status
find-update :
    (id at : Identifier) (status : DeploymentStatus) (nodes : Nodes) (n : ObjectNode)
    → find_node id nodes ≡ some n
    → (find_node id (update_node at (with_status status) nodes) ≡ some n)
      ⊎ (find_node id (update_node at (with_status status) nodes) ≡ some (with_status status n))
unfolding find_node update_node
find-update id at status [] n h = absurd (ground arith)
find-update id at status (m ∷ nodes) n h = ground (arith, find-update id at status nodes n)

find-update_self :
    (id : Identifier) (status : DeploymentStatus) (nodes : Nodes) (n : ObjectNode)
    → find_node id nodes ≡ some n
    → find_node id (update_node id (with_status status) nodes) ≡ some (with_status status n)
unfolding find_node update_node
find-update_self id status [] n h = absurd (ground arith)
find-update_self id status (m ∷ nodes) n h = ground (arith, find-update_self id status nodes n)

update-Grows :
    (on : Bool) (at : Identifier) (status : DeploymentStatus) (nodes : Nodes)
    → is_settled on status ≡ true
    → Grows on nodes (update_node at (with_status status) nodes)
update-Grows on at status nodes good id (n, found, h) =
    elim (find-update id at status nodes n found) [
      | inl same ↦ (n, same, h)
      | inr new ↦ (with_status status n, new, good)
    ]

-- What a move does, seen from outside: an exception, or progress.
moved :
    {S : Type 0} {ops : NodeOps S} {e : Executor S} {t : Task} {e' : Executor S} {t' : Task}
    (on : Bool)
    → Move ops e t e' t'
    → OnRollback on t
    → TaskSettled on e.nodes t
    → ((r : Raised) × EndedErr r t') ⊎ (Grows on e.nodes e'.nodes × TaskSettled on e'.nodes t')
moved {ops} {e} {t} {e'} {t'} on move same before =
    let (node, _, _, effect) = Move-Account ops t move in from node effect
  where
    grown : (nodes' : Nodes) → nodes' ≡ e.nodes → Grows on e.nodes nodes'
    grown nodes' p id h = subst (SettledAt on id) (sym p) h

    from :
        t'.node ≡ t.node
        → Effect e.nodes t e'.nodes t'
        → ((r : Raised) × EndedErr r t') ⊎ (Grows on e.nodes e'.nodes × TaskSettled on e'.nodes t')
    from node (kept p h) = inr (
      grown e'.nodes p,
      λ over.
          subst (λ id. SettledAt on id e'.nodes) (sym node)
            (grown e'.nodes p t.node (elim (h over) [
              | inl was ↦ before was
              | inr at ↦ subst (λ b. SettledAt b t.node e.nodes) same at
            ])),
    )
    from node (settled status n found good p) =
        let good' = subst (λ b. is_settled b status ≡ true) same good in
        inr (
          subst (Grows on e.nodes) (sym p) (update-Grows on t.node status e.nodes good'),
          λ over.
              subst (λ id. SettledAt on id e'.nodes) (sym node)
                (subst (SettledAt on t.node) (sym p)
                  (with_status status n, find-update_self t.node status e.nodes n found, good')),
        )
    from node (raises r status over p) = inl (r, over)

-- The tasks of one `gather`, and the nodes that were settled before it
abbrev pub Good : Bool → Nodes → List Task → List Identifier → Type 0
Good on nodes ts before =
    Failing ts ⊎ (All (TaskSettled on nodes) ts × All (λ id. SettledAt on id nodes) before)

worked :
    {S : Type 0} {ops : NodeOps S} {e : Executor S} {ts : List Task} {e' : Executor S}
    {ts' : List Task} (on : Bool)
    → Work ops e ts e' ts'
    → All (OnRollback on) ts
    → All (TaskSettled on e.nodes) ts
    → Failing ts' ⊎ (Grows on e.nodes e'.nodes × All (TaskSettled on e'.nodes) ts')
worked on (here {ts} move) same h = elim (moved on move same.0 h.0) [
  | inl (r, over) ↦ inl (r, inl over)
  | inr (grows, now) ↦ inr (grows, (now, All-map ts (λ t was over. grows t.node (was over)) h.1))
]
worked on (there {t} w) same h = elim (worked on w same.1 h.1) [
  | inl (r, at) ↦ inl (r, inr at)
  | inr (grows, now) ↦ inr (grows, ((λ over. grows t.node (h.0 over)), now))
]

pub Good-Work :
    {S : Type 0} {ops : NodeOps S} {e : Executor S} {ts : List Task} {e' : Executor S}
    {ts' : List Task} (on : Bool) (before : List Identifier)
    → Work ops e ts e' ts'
    → All (OnRollback on) ts
    → Good on e.nodes ts before
    → Good on e'.nodes ts' before
Good-Work on before w same (inl failing) = inl (Failing-Work w failing)
Good-Work on before w same (inr (tasks, past)) = elim (worked on w same tasks) [
  | inl failing ↦ inl failing
  | inr (grows, now) ↦ inr (now, All-map before grows past)
]

-- The parts of the tasks that no move changes
pub Work-frame :
    {S : Type 0} {ops : NodeOps S} {e : Executor S} {ts : List Task} {e' : Executor S}
    {ts' : List Task}
    → Work ops e ts e' ts'
    → Frame e e'
      × (map (λ t. t.node) ts' ≡ map (λ t. t.node) ts)
      × ((on : Bool) → All (OnRollback on) ts → All (OnRollback on) ts')
Work-frame {ops} (here {t} {ts} move) =
    let (node, rollback, frame, _) = Move-Account ops t move in
    (frame, ap (λ id. id ∷ map (λ t. t.node) ts) node, λ on h. (rollback ∙ h.0, h.1))
Work-frame (there {t} w) =
    let (frame, nodes, rollback) = Work-frame w in
    (frame, ap (λ ids. t.node ∷ ids) nodes, λ on h. (h.0, rollback on h.1))

-- When every task of a level has come to its end, all its nodes are settled.
pub Good-done :
    (on : Bool) (nodes : Nodes) (ts : List Task) (before : List Identifier)
    → All EndedOk ts
    → Good on nodes ts before
    → All (λ id. SettledAt on id nodes) (map (λ t. t.node) ts)
      × All (λ id. SettledAt on id nodes) before
Good-done on nodes ts before over (inl (r, failing)) = absurd (clash ts over failing)
  where
    clash : (ts : List Task) → All EndedOk ts → Any (EndedErr r) ts → ⊥
    clash [] over at = at
    clash (t ∷ ts) over (inl at) = ground (arith, over.0)
    clash (t ∷ ts) over (inr at) = clash ts over.1 at
Good-done on nodes ts before over (inr (tasks, past)) = (each ts over tasks, past)
  where
    each :
        (ts : List Task)
        → All EndedOk ts
        → All (TaskSettled on nodes) ts
        → All (λ id. SettledAt on id nodes) (map (λ t. t.node) ts)
    each [] over h = tt
    each (t ∷ ts) over h = (h.0 over.0, each ts over.1 h.1)
