-- ===== src/Deploy/Executor/Effects.antt =====
-- What one move of a task does to the executor and to the task, whatever the cluster answers.
use pyceli.Base.{
  ◌≡◌, refl, ap, sym, ◌∙◌, ◌⊎◌, inl, inr, Bool, Bool-cases, true, false, List, [], ◌∷◌, Option,
  none, some, arith,
}
use pyceli.Objects.{Identifier, id_eq, id_eq_iff}
use pyceli.Deploy.Graph.{
  DeploymentStatus, no_action_needed, done, failed, rolled_back, ObjectNode, Nodes, node_id,
  find_node, update_node,
}
use pyceli.Compare.Value.{Fields}
use pyceli.Manager.Client.{Raised, no_action, Outcome, ok, err}
use pyceli.Deploy.Executor.{
  Executor, ended, Task, with_status, set_status, done_status, settle_node, note_deleted,
}

pub Outcome-cases :
    {A : Type 0} (out : Outcome A) → ((a : A) × (out ≡ ok a)) ⊎ ((r : Raised) × (out ≡ err r))
Outcome-cases (ok a) = inl (a, refl)
Outcome-cases (err r) = inr (r, refl)

-- The dependencies of the node with the identifier
abbrev pub dependencies_at : Identifier → Nodes → Option (List Identifier)
dependencies_at id nodes = elim (find_node id nodes) [ none ↦ none | some n ↦ some n.dependencies ]

-- The parts of the executor that no task writes
abbrev pub Frame : {S : Type 0} → Executor S → Executor S → Type 0
Frame e e' =
    (e'.status ≡ e.status)
    × (e'.deployed_nodes ≡ e.deployed_nodes)
    × ((id : Identifier) → dependencies_at id e'.nodes ≡ dependencies_at id e.nodes)

-- Statuses that a task leaves behind when it ends without an exception
unfoldable pub is_settled : Bool → DeploymentStatus → Bool
is_settled false done = true
is_settled false no_action_needed = true
is_settled false _ = false
is_settled true done = false
is_settled true failed = false
is_settled true _ = true

-- The node is there, in such a status.
abbrev pub SettledAt : Bool → Identifier → Nodes → Type 0
SettledAt on_rollback id nodes =
    (n : ObjectNode) × (find_node id nodes ≡ some n)
    × (is_settled on_rollback n.deployment_status ≡ true)

-- What a move did: it left the nodes as they are, set the status of its node, or ended by an exception.
pub data Effect (nodes : Nodes) (t : Task) (nodes' : Nodes) (t' : Task) : Type 0 where
  kept :
      nodes' ≡ nodes
      → (t'.phase ≡ ended (ok tt)
          → (t.phase ≡ ended (ok tt)) ⊎ SettledAt t.on_rollback t.node nodes)
      → Effect nodes t nodes' t'
  settled :
      (status : DeploymentStatus) (n : ObjectNode)
      → (find_node t.node nodes ≡ some n)
      → (is_settled t.on_rollback status ≡ true)
      → (nodes' ≡ update_node t.node (with_status status) nodes)
      → Effect nodes t nodes' t'
  raises :
      (r : Raised) (status : DeploymentStatus)
      → t'.phase ≡ ended (err r)
      → (nodes' ≡ nodes) ⊎ (nodes' ≡ update_node t.node (with_status status) nodes)
      → Effect nodes t nodes' t'

-- The whole account of a move
abbrev pub Account : {S : Type 0} → Executor S → Task → Executor S → Task → Type 0
Account e t e' t' =
    (t'.node ≡ t.node)
    × (t'.on_rollback ≡ t.on_rollback)
    × Frame e e'
    × Effect e.nodes t e'.nodes t'

pub find_node_id :
    (id : Identifier) (nodes : Nodes) (n : ObjectNode)
    → find_node id nodes ≡ some n
    → node_id n ≡ id
unfolding find_node
find_node_id id [] n e = absurd (ground arith)
find_node_id id (m ∷ nodes) n e = elim (Bool-cases (id_eq (node_id m) id)) [
  | inl same ↦
      let found : some m ≡ some n = rw same at e in
      let first : m ≡ n = cc in ap node_id (sym first) ∙ (id_eq_iff (node_id m) id).0 same
  | inr other ↦ find_node_id id nodes n (rw other at e)
]

-- A status that is set changes the dependencies of no node.
pub dependencies-set_status :
    (id at : Identifier) (status : DeploymentStatus) (nodes : Nodes)
    → dependencies_at id (update_node at (with_status status) nodes) ≡ dependencies_at id nodes
unfolding find_node update_node
dependencies-set_status id at status [] = refl
dependencies-set_status id at status (n ∷ nodes) =
    ground (arith, dependencies-set_status id at status nodes)

abbrev pub frame_refl : {S : Type 0} (e : Executor S) → Frame e e
frame_refl e = (refl, refl, λ id. refl)

module _ (t : Task) (n : ObjectNode) where
  done_status-settled : is_settled t.on_rollback (done_status t.on_rollback) ≡ true
  unfolding is_settled
  done_status-settled = ground arith

  no_action-settled : is_settled t.on_rollback no_action_needed ≡ true
  unfolding is_settled
  no_action-settled = ground arith

  -- The status of the node itself is set.
  at_node :
      (status : DeploymentStatus) (nodes : Nodes)
      → find_node t.node nodes ≡ some n
      → update_node (node_id n) (with_status status) nodes
        ≡ update_node t.node (with_status status) nodes
  at_node status nodes found =
      ap (λ id. update_node id (with_status status) nodes) (find_node_id t.node nodes n found)

module _ {S : Type 0} where
  frame-set_status :
      (id : Identifier) (status : DeploymentStatus) (e : Executor S)
      → Frame e (set_status id status e)
  frame-set_status id status e = (refl, refl, λ i. dependencies-set_status i id status e.nodes)

  pub settle-Account :
      (t : Task) (n : ObjectNode) (out : Outcome (Unit {0})) (e : Executor S)
      → find_node t.node e.nodes ≡ some n
      → let (e', t') = settle_node t n (done_status t.on_rollback) out e in Account e t e' t'
  unfolding settle_node
  settle-Account t n (ok b) e found = (
    refl,
    refl,
    frame-set_status (node_id n) (done_status t.on_rollback) e,
    settled (done_status t.on_rollback) n found (done_status-settled t n)
        (at_node t n (done_status t.on_rollback) e.nodes found),
  )
  settle-Account t n (err no_action) e found = (
    refl,
    refl,
    frame-set_status (node_id n) no_action_needed e,
    settled no_action_needed n found (no_action-settled t n)
        (at_node t n no_action_needed e.nodes found),
  )
  settle-Account t n (err r) e found = (
    refl,
    refl,
    frame-set_status (node_id n) failed e,
    raises r failed refl (inr (at_node t n failed e.nodes found)),
  )

  pub deleted-Account :
      (t : Task) (n : ObjectNode) (out : Outcome (Option Fields)) (e : Executor S)
      → t.on_rollback ≡ true
      → find_node t.node e.nodes ≡ some n
      → let (e', t') = note_deleted t n out e in Account e t e' t'
  unfolding note_deleted is_settled
  deleted-Account t n (ok answer) e on found = (
    refl,
    refl,
    frame-set_status (node_id n) rolled_back e,
    settled rolled_back n found (ap (λ b. is_settled b rolled_back) on)
        (at_node t n rolled_back e.nodes found),
  )
  deleted-Account t n (err r) e on found =
      (refl, refl, frame_refl e, raises r failed refl (inl refl))
