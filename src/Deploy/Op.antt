-- ===== src/Deploy/Op.antt =====
-- piceli/k8s/ops/deploy/deploy_op.py: the deployment of a list of objects, from the graph to the waits.
use pyceli.Base.{
  ℕ, ◌≡◌, refl, ap, sym, ◌∙◌, subst, inl, inr, true, false, List, [], ◌∷◌, ◌++◌, some, arith, All,
  All-map, All-append, Option, String,
}
use pyceli.Objects.{Identifier, has_id, K8sObject, identifier}
use pyceli.Deploy.Graph.{Nodes, Search, Result, ◌>>=◌, find_node, ids, validate, add_id, node_id}
use pyceli.Deploy.Graph
use pyceli.Deploy.Graph.Cycles.{bind_returns}
use pyceli.Deploy.Strategy.{build_deployment_graph, level_of_kind}
use pyceli.Deploy.Strategy.Order.{Listed, built_graph}
use pyceli.Deploy.Levels.Ends.{traverse_graph-returns}
use pyceli.Deploy.Levels.Keys.{nth_level}
use pyceli.Deploy.Levels.Complete.{traverse_graph_complete}
use pyceli.Compare.Comparer.{QuantityLib}
use pyceli.Manager.{delete_object}
use pyceli.Manager.Apply.{apply_node}
use pyceli.Manager.Wait.{WatchLib}
use pyceli.Manager.Waits
use pyceli.Manager.Client.{ClientLib, Outcome, ok, err}
use pyceli.Deploy.Executor.{
  NodeOps, LevelNodes, Executor, wait_for_node, wait_for_level, wait_for_levels, wait_for_all,
}
use pyceli.Deploy.Executor.Machine.{
  returned, Machine, new_task, new_executor, start_deploy, Reach, Deploys,
}
use pyceli.Deploy.Executor.Effects.{SettledAt, Outcome-cases}
use pyceli.Deploy.Executor.Ends.{level_ids, level_lists}
use pyceli.Deploy.Executor.Outcomes.{deploy_returned, All-nth_level}
use pyceli.Deploy.Executor.WaitedMoves.{wait_for_node-Waits}
use pyceli.Deploy.Executor.Accounts.{wait_found-Waits}

-- `deploy` up to `executor.deploy`: the graph, its validation and the executor
unfoldable pub prepare : {S : Type 0} → List K8sObject → S → Result (Executor S)
unfolding build_deployment_graph validate new_executor
prepare objects s = build_deployment_graph objects >>= λ nodes.
    validate nodes >>= λ found. Graph.ok (new_executor nodes s)

-- The calls of the executor, by the managers that `ManagerFactory.get_manager` builds
abbrev pub cluster_ops :
    (quantities : QuantityLib) (lib : ClientLib)
    → WatchLib lib.State
    → (delete_timeout n : ℕ) → Option String
    → NodeOps lib.State
unfolding apply_node Waits.wait_object delete_object
cluster_ops quantities lib watch delete_timeout n namespace = record {
  apply = λ o. apply_node quantities lib delete_timeout n o namespace;
  wait = λ o. Waits.wait_object lib watch o namespace;
  delete = λ o. delete_object lib o namespace false;
}

module _ {S : Type 0} (ops : NodeOps S) where
  -- What a `wait` changes
  record Waited (e e' : Executor S) : Type 0 where
    nodes : e'.nodes ≡ e.nodes
    more : (d : Identifier) → has_id d e.waited_nodes ≡ true → has_id d e'.waited_nodes ≡ true

  Waited-trans : {a b c : Executor S} → Waited a b → Waited b c → Waited a c
  Waited-trans f g = record { nodes = g.nodes ∙ f.nodes; more = λ d h. g.more d (f.more d h) }

  node-Waited : (id : Identifier) (e : Executor S) → Waited e (wait_for_node ops false id e).1
  unfolding wait_for_node
  node-Waited id e = record {
    nodes = (wait_found-Waits ops (new_task false id) false (find_node id e.nodes) e).2;
    more = (wait_for_node-Waits ops id e).0;
  }

  -- The nodes that were waited for when the waits ended well
  abbrev AllIn : List Identifier → Outcome (Unit {0}) × Executor S → Type 0
  AllIn ids r = r.0 ≡ ok tt → All (λ id. has_id id r.1.waited_nodes ≡ true) ids

  level-Waited :
      (ids : List Identifier) (e : Executor S)
      → Waited e (wait_for_level ops ids e).1 × AllIn ids (wait_for_level ops ids e)
  unfolding wait_for_level
  level-Waited [] e = (record { nodes = refl; more = λ d h. h }, λ h. tt)
  level-Waited (id ∷ more) e =
      let (out, e') = wait_for_node ops false id e in
      let (waited, all) = level-Waited more e' in
      (
        Waited-trans (node-Waited id e) waited,
        λ h. elim (Outcome-cases out) [
          | inl (b, well) ↦
              let done =
                subst
                  (λ o. elim o [ ok b ↦ (wait_for_level ops more e').0 | err r ↦ err r ] ≡ ok tt)
                  well h in
              (waited.more id ((wait_for_node-Waits ops id e).2 well), all done)
          | inr (r, bad) ↦
              let done =
                subst
                  (λ o. elim o [ ok b ↦ (wait_for_level ops more e').0 | err r ↦ err r ] ≡ ok tt)
                  bad h in
              absurd (ground arith)
        ],
      )

  levels-Waited :
      (ls : List LevelNodes) (e : Executor S)
      → Waited e (wait_for_levels ops ls e).1 × AllIn (level_ids ls) (wait_for_levels ops ls e)
  unfolding wait_for_levels
  levels-Waited [] e = (record { nodes = refl; more = λ d h. h }, λ h. tt)
  levels-Waited (l ∷ ls) e =
      let (out, e') = wait_for_level ops l.nodes e in
      let rest = wait_for_levels ops ls e' in
      let goal : Outcome (Unit {0}) → Outcome (Unit {0}) × Executor S =
        λ out. elim out [ ok b ↦ rest | err r ↦ (err r, e') ] in
      let (first, now) = level-Waited l.nodes e in
      let (further, later) = levels-Waited ls e' in
      elim (Outcome-cases out) [
        | inl (b, well) ↦
            subst (λ o. Waited e (goal o).1 × AllIn (l.nodes ++ level_ids ls) (goal o)) (sym well)
              (
                Waited-trans first further,
                λ h.
                    All-append (λ id. has_id id rest.1.waited_nodes ≡ true) l.nodes (level_ids ls)
                      (All-map l.nodes (λ id listed. further.more id listed) (now well)) (later h),
              )
        | inr (r, bad) ↦
            subst (λ o. Waited e (goal o).1 × AllIn (l.nodes ++ level_ids ls) (goal o)) (sym bad)
              (first, λ h. absurd (ground arith))
      ]

-- What `prepare` found
prepared :
    {S : Type 0} (objects : List K8sObject) (s : S) (begun : Executor S)
    → prepare objects s ≡ Graph.ok begun
    → (nodes : Nodes) × (v : Search) × (build_deployment_graph objects ≡ Graph.ok nodes)
      × (validate nodes ≡ Graph.ok v)
      × (new_executor nodes s ≡ begun)
unfolding prepare
prepared objects s begun made =
    let (nodes, built, more) = bind_returns (build_deployment_graph objects) _ made in
    let (v, valid, last) = bind_returns (validate nodes) _ more in
    let same : new_executor nodes s ≡ begun = cc in (nodes, v, built, valid, same)

-- When `deploy` of deploy_op.py returns, each object of a known kind in the list has the status `DONE` or
-- `NO_ACTION_NEEDED`, and has been waited for: whatever the cluster answers, for the graph that is
-- built of the list, behind each run of `executor.deploy` that returned and a `wait_for_all` that returned.
pub deploy_objects_Settled :
    {S : Type 0} (ops : NodeOps S) (objects : List K8sObject) (s : S) (begun : Executor S)
    (m : Machine S) (e : Executor S)
    → prepare objects s ≡ Graph.ok begun
    → Reach ops (start_deploy begun) m
    → (m.main ≡ returned)
    → wait_for_all ops m.executor ≡ (ok tt, e)
    → (o : K8sObject) (l : ℕ) → Listed o objects
    → level_of_kind o.kind ≡ some l
    → SettledAt false (identifier o) e.nodes × (has_id (identifier o) e.waited_nodes ≡ true)
unfolding wait_for_levels
deploy_objects_Settled ops objects s begun m e made reach at over o l listed known =
    let (nodes, v, built, valid, same) = prepared objects s begun made in
    let (keyed, kept) = built_graph objects nodes built in
    let run : Deploys ops nodes s m = subst (λ b. Reach ops (start_deploy b) m) (sym same) reach in
    let (_, whole, settled) = deploy_returned ops nodes s m keyed v valid run at in
    let (levels, order) = traverse_graph-returns nodes in
    let whole' : level_lists m.executor.deployed_nodes ≡ levels = cc (whole, order) in
    let id : Identifier = identifier o in
    let inside = kept o l listed known in
    let (i, placed, _) = traverse_graph_complete nodes keyed v valid levels order id inside in
    let (waited, all) = levels-Waited ops m.executor.deployed_nodes m.executor in
    let here : (wait_for_all ops m.executor).1 ≡ e = ap (λ r. r.1) over in
    (
      subst (SettledAt false id) (sym waited.nodes ∙ ap (λ e. e.nodes) here) (settled id inside),
      subst (λ e. has_id id e.waited_nodes ≡ true) here
          (All-nth_level (λ id. has_id id (wait_for_all ops m.executor).1.waited_nodes ≡ true) id i
            m.executor.deployed_nodes (all (ap (λ r. r.0) over))
            (subst (λ ls. has_id id (nth_level i ls) ≡ true) (sym whole') placed)),
    )
