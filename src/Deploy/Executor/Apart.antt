-- ===== src/Deploy/Executor/Apart.antt =====
-- The levels of a deployment share no node: what is left of a failed level does not touch the nodes of
-- the levels before it.
use pyceli.Base.{
  ℕ, suc, ◌<◌, ◌≡◌, refl, ap, sym, ◌∙◌, subst, inl, inr, Bool, Bool-cases, true, false, ◌||◌,
  or-true, List, [], ◌∷◌, ◌++◌, length, some, arith, All, if◌then◌else◌,
}
use pyceli.Objects.{Identifier, id_eq, id_eq_iff, has_id}
use pyceli.Deploy.Graph.{DeploymentStatus, Nodes, node_id, find_node, update_node}
use pyceli.Deploy.Graph.Keyed.{IsKeyed}
use pyceli.Deploy.Levels.{traverse_graph}
use pyceli.Deploy.Levels.Keys.{nth_level}
use pyceli.Deploy.Levels.Shortest.{traverse_graph-IsShortest}
use pyceli.Deploy.Executor.{NodeOps, LevelNodes, Executor, Task, with_status}
use pyceli.Deploy.Executor.Machine.{Work, here, there}
use pyceli.Deploy.Executor.Effects.{SettledAt, Effect, kept, settled, raises}
use pyceli.Deploy.Executor.Accounts.{Move-Account}
use pyceli.Deploy.Executor.Ends.{level_ids, level_lists}

-- Two levels that hold the same node are the same level.
abbrev pub Unique : List (List Identifier) → Type 0
Unique levels =
    (id : Identifier) (i j : ℕ)
    → has_id id (nth_level i levels) ≡ true
    → has_id id (nth_level j levels) ≡ true
    → i ≡ j

pub traverse_graph-Unique :
    (nodes : Nodes)
    → IsKeyed nodes
    → (levels : List (List Identifier)) → traverse_graph nodes ≡ some levels
    → Unique levels
traverse_graph-Unique nodes keyed levels e id i j at_i at_j =
    let (steps_i, least_i) = (traverse_graph-IsShortest nodes keyed levels e id i).0 at_i in
    let (steps_j, least_j) = (traverse_graph-IsShortest nodes keyed levels e id j).0 at_j in
    omega (arith, least_i j steps_j, least_j i steps_i)

pub has_id-append_or :
    (id : Identifier) (xs ys : List Identifier)
    → has_id id (xs ++ ys) ≡ (has_id id xs || has_id id ys)
unfolding has_id
has_id-append_or id [] ys = refl
has_id-append_or id (x ∷ xs) ys = ground (arith, has_id-append_or id xs ys)

nth_level-length :
    {A : Type 0} (xs : List (List A)) (y : List A) (ys : List (List A))
    → nth_level (length xs) (xs ++ y ∷ ys) ≡ y
nth_level-length [] y ys = refl
nth_level-length (x ∷ xs) y ys = nth_level-length xs y ys

level_of_id :
    (id : Identifier) (ls : List LevelNodes) (more : List (List Identifier))
    → has_id id (level_ids ls) ≡ true
    → (i : ℕ) × (i < length (level_lists ls))
      × (has_id id (nth_level i (level_lists ls ++ more)) ≡ true)
unfolding has_id
level_of_id id [] more h = absurd (ground arith)
level_of_id id (l ∷ ls) more h =
    elim (or-true (has_id id l.nodes) (has_id id (level_ids ls))
      (sym (has_id-append_or id l.nodes (level_ids ls)) ∙ h)) [
        | inl now ↦ (0, omega arith, now)
        | inr later ↦
            let (i, lt, at) = level_of_id id ls more later in (suc i, omega (arith, lt), at)
      ]

-- A node of an earlier level is not one of the level that follows.
pub Unique-apart :
    (levels : List (List Identifier)) (ls : List LevelNodes) (now : List Identifier)
    (more : List (List Identifier)) (id : Identifier)
    → Unique levels
    → level_lists ls ++ now ∷ more ≡ levels
    → has_id id (level_ids ls) ≡ true
    → has_id id now ≡ false
Unique-apart levels ls now more id unique whole listed = elim (Bool-cases (has_id id now)) [
  | inr out ↦ out
  | inl both ↦
      let (i, lt, at) = level_of_id id ls (now ∷ more) listed in
      absurd (
        omega (
          arith,
          lt,
          unique id i (length (level_lists ls))
              (subst (λ ls. has_id id (nth_level i ls) ≡ true) whole at)
              (subst (λ ls'. has_id id (nth_level (length (level_lists ls)) ls') ≡ true) whole
                (subst (λ xs. has_id id xs ≡ true)
                  (sym (nth_level-length (level_lists ls) now more)) both)),
        ))
]

find-update_other :
    (id at : Identifier) (status : DeploymentStatus) (nodes : Nodes)
    → id_eq at id ≡ false
    → find_node id (update_node at (with_status status) nodes) ≡ find_node id nodes
unfolding find_node update_node
find-update_other id at status [] other = refl
find-update_other id at status (n ∷ nodes) other = elim (Bool-cases (id_eq (node_id n) at)) [
  | inl same ↦
      let other' : id_eq (node_id n) id ≡ false =
        subst (λ i. id_eq i id ≡ false) (sym ((id_eq_iff (node_id n) at).0 same)) other in
      rw (same, other') refl
  | inr differ ↦ rw differ (
      ap (λ o. if id_eq (node_id n) id then some n else o)
        (find-update_other id at status nodes other))
]

-- The tasks are of none of the nodes.
abbrev pub Outside : List Identifier → List Task → Type 0
Outside ids ts = All (λ t. (id : Identifier) → has_id id ids ≡ true → id_eq t.node id ≡ false) ts

-- What a task does that is of none of the nodes leaves them settled.
abbrev KeepsSettled : List Identifier → Nodes → Nodes → Type 0
KeepsSettled ids nodes nodes' =
    (on : Bool) (id : Identifier)
    → has_id id ids ≡ true
    → SettledAt on id nodes
    → SettledAt on id nodes'

Effect-KeepsSettled :
    (ids : List Identifier) (nodes : Nodes) (t : Task) (nodes' : Nodes) (t' : Task)
    → ((id : Identifier) → has_id id ids ≡ true → id_eq t.node id ≡ false)
    → Effect nodes t nodes' t'
    → KeepsSettled ids nodes nodes'
Effect-KeepsSettled ids nodes t nodes' t' out effect on id listed h = from effect
  where
    set :
        (status : DeploymentStatus)
        → nodes' ≡ update_node t.node (with_status status) nodes
        → SettledAt on id nodes'
    set status p =
        let (n, found, good) = h in
        (
          n,
          ap (find_node id) p ∙ find-update_other id t.node status nodes (out id listed) ∙ found,
          good,
        )

    same : nodes' ≡ nodes → SettledAt on id nodes'
    same p = subst (SettledAt on id) (sym p) h

    from : Effect nodes t nodes' t' → SettledAt on id nodes'
    from (kept p over) = same p
    from (settled status n found good p) = set status p
    from (raises r status over (inl p)) = same p
    from (raises r status over (inr p)) = set status p

pub Work-KeepsSettled :
    {S : Type 0} {ops : NodeOps S} {e : Executor S} {ts : List Task} {e' : Executor S}
    {ts' : List Task} (ids : List Identifier)
    → Work ops e ts e' ts'
    → Outside ids ts
    → KeepsSettled ids e.nodes e'.nodes × Outside ids ts'
Work-KeepsSettled {ops} {e} {e'} ids (here {t} {t'} {ts} move) out =
    let (node, _, _, effect) = Move-Account ops t move in
    (
      Effect-KeepsSettled ids e.nodes t e'.nodes t' out.0 effect,
      (
        subst (λ x. (id : Identifier) → has_id id ids ≡ true → id_eq x id ≡ false) (sym node) out.0,
        out.1,
      ),
    )
Work-KeepsSettled ids (there w) out =
    let (keeps, out') = Work-KeepsSettled ids w out.1 in (keeps, (out.0, out'))
