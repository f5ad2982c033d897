-- ===== src/Deploy/Executor/Tests.antt =====
-- Runs of the executor, and the theorems of the folder at concrete inputs.
use pyceli.Base.{
  ℕ, suc, ◌+◌, ◌≤◌, ◌≡◌, refl, inl, inr, true, false, String, str_eq, List, [], ◌∷◌, none, some,
  Any, if◌then◌else◌,
}
use pyceli.Objects.{Identifier, K8sObject, has_id, id_eq}
use pyceli.Compare.Value.{end}
use pyceli.Deploy.Graph.{
  ObjectNode, Nodes, DeploymentStatus, pending, done, find_node, ids, Search, ok, validate,
  update_node,
}
use pyceli.Deploy.Graph.Keyed.{IsKeyed, Distinct-IsKeyed}
use pyceli.Deploy.Levels.{traverse_graph}
use pyceli.Deploy.Progress.{ExecutionStatus, NodeEvent, NodeProgress, Progress}
use pyceli.Manager.Client.{runtime_error, Outcome}
use pyceli.Manager.Apply.{new_obj, World}
use pyceli.Deploy.Graph
use pyceli.Deploy.Strategy.{level_of_kind}
use pyceli.Deploy.Op.{prepare, deploy_objects_Settled}
use pyceli.Deploy.Executor.{
  NodeOps, Executor, wait_for_all, wait_for_levels, begin_node, resume_node, wait_for_node,
  settle_node, is_untouched, missing_from, event_progress,
}
use pyceli.Deploy.Executor.Machine.{
  returned, raised, Machine, new_executor, start_deploy, level_success, deploy_failed,
  next_rollback, begin, wait, resume, here, Step, work, level_done, level_failed, rollback_done,
  Reach, start, later, Deploys, IsFinal,
}
use pyceli.Deploy.Executor.Effects.{SettledAt}
use pyceli.Deploy.Executor.Ends.{level_ids, level_lists}
use pyceli.Deploy.Executor.Outcomes.{StatusOf, deploy-StatusOf, deploy_returned}
use pyceli.Deploy.Executor.Termination.{Run, stay, more, deploy_bound, deploy_bounded}
use pyceli.Deploy.Executor.Liveness.{deploy_ends}
use pyceli.Deploy.Executor.Waited.{Depends}
use pyceli.Deploy.Executor.Dependencies.{IsForward, dependencies_waited}
use pyceli.Deploy.Executor.Reverted.{rolled_back_Settled}

-- A cluster that counts the calls, and refuses the object of the given name
abbrev made : ℕ → World ℕ
made s = record { cluster = s + 1; progress = new_obj ∷ [] }

abbrev counting : String → NodeOps ℕ
counting refused = record {
  apply = λ o w.
      if str_eq o.name refused
      then (Outcome.err runtime_error, w)
      else (Outcome.ok (some end), made w.cluster);
  wait = λ o s. (Outcome.ok tt, s + 1);
  delete = λ o s. (Outcome.ok (some end), s + 1);
}

abbrev role : Identifier
role = record { name = "reader"; kind = "Role"; namespace = none }

abbrev binding : Identifier
binding = record { name = "reads"; kind = "RoleBinding"; namespace = none }

abbrev node_of : Identifier → List Identifier → ObjectNode
node_of id deps = record {
  deploying_object = record {
    spec = end;
    name = id.name;
    kind = id.kind;
    namespace = id.namespace;
  };
  dependencies = deps;
  previous_object = none;
  deployment_status = pending;
}

-- The binding needs the role.
abbrev pair : Nodes
pair = node_of role [] ∷ node_of binding (role ∷ []) ∷ []

pair-IsKeyed : IsKeyed pair
unfolding has_id id_eq
pair-IsKeyed = Distinct-IsKeyed pair (refl, (refl, tt))

abbrev searched : Search
searched = record { visited = binding ∷ role ∷ []; stack = [] }

validate-pair : validate pair ≡ ok searched
unfolding validate has_id find_node id_eq
validate-pair = refl

-- A run of `deploy`, and how many steps it has
record Past (refused : String) : Type 0 where
  steps : ℕ
  last : Machine ℕ
  reach : Deploys (counting refused) pair 0 last
  run : Run (counting refused) (start_deploy (new_executor pair 0)) steps last

abbrev first : {refused : String} → Past refused
first = record { steps = _; last = _; reach = start; run = stay }

abbrev go_on :
    {refused : String} {m : Machine ℕ} (p : Past refused)
    → Step (counting refused) p.last m
    → Past refused
go_on p step = record {
  steps = suc p.steps;
  last = _;
  reach = later p.reach step;
  run = more p.run step;
}

-- The run in which the api takes both objects
both : Past "none"
unfolding start_deploy level_success traverse_graph new_executor begin_node resume_node
    wait_for_node settle_node update_node find_node has_id id_eq missing_from
both =
    let a : Past "none" = go_on first (work (here (begin refl))) in
    let b : Past "none" = go_on a (level_done refl (refl, tt)) in
    let c : Past "none" = go_on b (work (here (begin refl))) in
    let d : Past "none" = go_on c (work (here (wait role refl))) in
    let e : Past "none" = go_on d (work (here (resume none refl refl))) in
    go_on e (level_done refl (refl, tt))

both_returned : both.last.main ≡ returned
unfolding both
both_returned = refl

-- The run in which it refuses the second one, and the first is deleted again
undone : Past "reads"
unfolding start_deploy level_success deploy_failed traverse_graph new_executor begin_node
    resume_node wait_for_node settle_node update_node find_node has_id id_eq missing_from
    is_untouched
undone =
    let a : Past "reads" = go_on first (work (here (begin refl))) in
    let b : Past "reads" = go_on a (level_done refl (refl, tt)) in
    let c : Past "reads" = go_on b (work (here (begin refl))) in
    let d : Past "reads" = go_on c (work (here (wait role refl))) in
    let e : Past "reads" = go_on d (work (here (resume none refl refl))) in
    let f : Past "reads" = go_on e (level_failed runtime_error refl (inl refl)) in
    let g : Past "reads" = go_on f (work (here (begin refl))) in
    go_on g (rollback_done refl (refl, tt))

undone_raised : undone.last.main ≡ raised runtime_error
unfolding undone
undone_raised = refl

undone_rolled_back : undone.last.executor.status ≡ ExecutionStatus.rolled_back
unfolding undone next_rollback
undone_rolled_back = refl

undone_listed : has_id role (level_ids undone.last.executor.deployed_nodes) ≡ true
unfolding undone next_rollback
undone_listed = refl

-- The node that failed is left with its status: the rollback is only for the levels before it.
undone_failed :
    (n : ObjectNode) × (find_node binding undone.last.executor.nodes ≡ some n)
    × (n.deployment_status ≡ DeploymentStatus.failed)
unfolding undone next_rollback
undone_failed = (_, refl, refl)

deploy-StatusOf_example : StatusOf undone.last.main undone.last.executor.status
deploy-StatusOf_example = deploy-StatusOf (counting "reads") pair 0 undone.last undone.reach

deploy_returned_example :
    (both.last.executor.status ≡ ExecutionStatus.done)
    × (some (level_lists both.last.executor.deployed_nodes) ≡ traverse_graph pair)
    × ((id : Identifier)
        → has_id id (ids pair) ≡ true
        → SettledAt false id both.last.executor.nodes)
deploy_returned_example =
    deploy_returned (counting "none") pair 0 both.last pair-IsKeyed searched validate-pair
      both.reach both_returned

pair_levels : traverse_graph pair ≡ some ((role ∷ []) ∷ (binding ∷ []) ∷ [])
unfolding traverse_graph has_id id_eq
pair_levels = refl

deploy_bounded_example : undone.steps ≤ deploy_bound pair ((role ∷ []) ∷ (binding ∷ []) ∷ [])
deploy_bounded_example =
    deploy_bounded (counting "reads") pair 0 ((role ∷ []) ∷ (binding ∷ []) ∷ []) pair_levels
      undone.steps undone.last undone.run

deploy_ends_example :
    (m' : Machine ℕ) × Deploys (counting "none") pair 0 m'
    × Reach (counting "none") both.last m'
    × IsFinal m'.main
deploy_ends_example = deploy_ends (counting "none") pair 0 both.last both.reach

rolled_back_Settled_example : SettledAt true role undone.last.executor.nodes
rolled_back_Settled_example =
    rolled_back_Settled (counting "reads") pair 0 undone.last pair-IsKeyed undone.reach
      runtime_error undone_raised undone_rolled_back role undone_listed

abbrev binding_done : NodeProgress
binding_done = record {
  node = binding;
  deployment_status = done;
  event = NodeEvent.complete;
  exception = none;
  compare_result = none;
}

binding-role : Depends pair binding role
unfolding has_id id_eq find_node
binding-role = (role ∷ [], refl, refl)

both-IsForward : IsForward both.last.main
unfolding both
both-IsForward = tt

both_shown : Any (λ entry. entry ≡ Progress.node binding_done) both.last.executor.progress
unfolding both event_progress
both_shown = inr (inr (inr (inr (inr (inr (inr (inr (inr (inl refl)))))))))

dependencies_waited_example : has_id role both.last.executor.waited_nodes ≡ true
dependencies_waited_example =
    dependencies_waited (counting "none") pair 0 both.last both.reach both-IsForward binding_done
      both_shown refl role binding-role

abbrev role_object : K8sObject
role_object = record { spec = end; name = "reader"; kind = "Role"; namespace = none }

abbrev binding_object : K8sObject
binding_object = record { spec = end; name = "reads"; kind = "RoleBinding"; namespace = none }

prepare-objects :
    prepare {S = ℕ} (binding_object ∷ role_object ∷ []) 0 ≡ Graph.ok (new_executor pair 0)
unfolding prepare has_id id_eq find_node
prepare-objects = refl

both_waited :
    (e : Executor ℕ) × (wait_for_all (counting "none") both.last.executor ≡ (Outcome.ok tt, e))
unfolding both wait_for_levels
both_waited = (_, refl)

level_of_kind-role : level_of_kind "Role" ≡ some 1
unfolding level_of_kind
level_of_kind-role = refl

deploy_objects_Settled_example :
    SettledAt false role both_waited.0.nodes × (has_id role both_waited.0.waited_nodes ≡ true)
deploy_objects_Settled_example =
    deploy_objects_Settled (counting "none") (binding_object ∷ role_object ∷ []) 0
      (new_executor pair 0) both.last both_waited.0 prepare-objects both.reach both_returned
      both_waited.1 role_object 1 (inr (inl refl)) level_of_kind-role
