-- ===== src/Deploy/Executor/Rolling.antt =====
-- What holds while `rollback` goes through the levels, whatever is left of the level that failed.
use pyceli.Base.{
  All-both, ◌≡◌, refl, ap, sym, ◌∙◌, subst, inl, inr, true, or-true_right, List, [], ◌∷◌, ◌++◌, map,
  arith, All, All-map,
}
use mathlib.Core.List.{append-nil, append_assoc}
use pyceli.Objects.{Identifier, id_eq, id_eq_self, has_id}
use pyceli.Deploy.Progress.{ExecutionStatus}
use pyceli.Manager.Client.{Raised}
use pyceli.Deploy.Executor.{NodeOps, LevelNodes, Executor, Task}
use pyceli.Deploy.Executor.Machine.{
  Main, deploying, rolling_back, returned, raised, next_rollback, Work,
}
use pyceli.Deploy.Executor.Effects.{SettledAt}
use pyceli.Deploy.Executor.Settled.{Good, OnRollback, Good-Work, Work-frame}
use pyceli.Deploy.Executor.Ends.{
  level_ids, Quiet, fresh-OnRollback, fresh_nodes, fresh-TaskSettled, no-Work,
}
use pyceli.Deploy.Executor.Apart.{Outside, Work-KeepsSettled}

abbrev pub Reverted : {S : Type 0} → Executor S → List Identifier → Type 0
Reverted e ids = All (λ id. SettledAt true id e.nodes) ids

-- What holds while the level `now` is rolled back, behind those of `before`
pub record Rolling {S : Type 0} (ls : List LevelNodes) (e : Executor S) (ts orphans : List Task)
    : Type 0 where
  pub before : List LevelNodes
  pub now : LevelNodes
  pub split : e.deployed_nodes ≡ before ++ now ∷ ls
  pub nodes : map (λ t. t.node) ts ≡ now.nodes
  pub back : All (OnRollback true) ts
  pub good : Good true e.nodes ts (level_ids before)
  pub apart : Outside (level_ids e.deployed_nodes) orphans

abbrev pub Rev : {S : Type 0} → Main → Executor S → List Task → List Task → Type 0
Rev (rolling_back r ls) e ts orphans = Rolling ls e ts orphans
Rev (raised r) e ts orphans =
    (e.status ≡ ExecutionStatus.rolled_back) → Reverted e (level_ids e.deployed_nodes)
Rev _ e ts orphans = Unit

level_ids_split :
    (before : List LevelNodes) (now : LevelNodes) (ls : List LevelNodes)
    → level_ids (before ++ now ∷ ls) ≡ level_ids before ++ (now.nodes ++ level_ids ls)
level_ids_split [] now ls = refl
level_ids_split (l ∷ before) now ls =
    ap (λ x. l.nodes ++ x) (level_ids_split before now ls)
    ∙ sym (append_assoc l.nodes (level_ids before) (now.nodes ++ level_ids ls))

-- Each of the identifiers is in the list.
pub All-self : (ids : List Identifier) → All (λ id. has_id id ids ≡ true) ids
unfolding has_id
All-self [] = tt
All-self (id ∷ ids) = (
  ground (arith, id_eq_self id),
  All-map ids (λ x h. or-true_right (id_eq id x) (has_id x ids) h) (All-self ids),
)

All-append_iff :
    (P : Identifier → Type 0) (xs ys : List Identifier) → All P (xs ++ ys) → All P xs × All P ys
All-append_iff P [] ys h = (tt, h)
All-append_iff P (x ∷ xs) ys h = let (a, b) = All-append_iff P xs ys h.1 in ((h.0, a), b)

pub All-map_node :
    (P : Identifier → Type 0) (ts : List Task)
    → All P (map (λ t. t.node) ts)
    → All (λ t. P t.node) ts
All-map_node P [] h = tt
All-map_node P (t ∷ ts) h = (h.0, All-map_node P ts h.1)

-- Orphans that move leave the nodes of all levels alone.
orphans-Good :
    {S : Type 0} {ops : NodeOps S} {e : Executor S} {os : List Task} {e' : Executor S}
    {os' : List Task} (ids before : List Identifier) (ts : List Task)
    → Work ops e os e' os'
    → Outside ids os
    → All (λ id. has_id id ids ≡ true) (map (λ t. t.node) ts)
    → All (λ id. has_id id ids ≡ true) before
    → Good true e.nodes ts before
    → Good true e'.nodes ts before
orphans-Good ids before ts w out inside past (inl failing) = inl failing
orphans-Good ids before ts w out inside past (inr (tasks, old)) =
    let (keeps, _) = Work-KeepsSettled ids w out in
    inr (
      All-both ts (λ t listed settled over. keeps true t.node listed (settled over))
          (All-map_node (λ id. has_id id ids ≡ true) ts inside) tasks,
      All-both before (λ id listed settled. keeps true id listed settled) past old,
    )

module _ {S : Type 0} where
  pub next_rollback-Rev :
      (r : Raised) (ls before : List LevelNodes) (e : Executor S) (orphans : List Task)
      → (e.deployed_nodes ≡ before ++ ls)
      → Reverted e (level_ids before)
      → Outside (level_ids e.deployed_nodes) orphans
      → let m = next_rollback r ls e orphans in Rev m.main m.executor m.tasks m.orphans
  unfolding next_rollback
  next_rollback-Rev r [] before e orphans split done apart =
      λ h. subst (λ ls. Reverted e (level_ids ls)) (sym (split ∙ append-nil before)) done
  next_rollback-Rev r (l ∷ ls) before e orphans split done apart = record {
    before = before;
    now = l;
    split = split;
    nodes = fresh_nodes true l.nodes;
    back = fresh-OnRollback true l.nodes;
    good = inr (fresh-TaskSettled true e.nodes l.nodes, done);
    apart = apart;
  }

  pub Work-Rev :
      {ops : NodeOps S} {e : Executor S} {ts : List Task} {e' : Executor S} {ts' : List Task}
      (main : Main) (orphans : List Task)
      → Work ops e ts e' ts'
      → Quiet main ts orphans
      → Rev main e ts orphans
      → Rev main e' ts' orphans
  Work-Rev {e} {ts} {e'} {ts'} (rolling_back r ls) orphans w quiet h =
      let (frame, nodes, rollback) = Work-frame w in
      record {
        before = h.before;
        now = h.now;
        split = frame.1 ∙ h.split;
        nodes = nodes ∙ h.nodes;
        back = rollback true h.back;
        good = Good-Work true (level_ids h.before) w h.back h.good;
        apart = subst (λ ls. Outside (level_ids ls) orphans) (sym frame.1) h.apart;
      }
  Work-Rev (raised r) orphans w quiet h = absurd (no-Work [] w quiet.0)
  Work-Rev (deploying level now more) orphans w quiet h = tt
  Work-Rev returned orphans w quiet h = tt

  pub orphan-Rev :
      {ops : NodeOps S} {e : Executor S} {os : List Task} {e' : Executor S} {os' : List Task}
      (main : Main) (ts : List Task)
      → Work ops e os e' os'
      → Quiet main ts os
      → Rev main e ts os
      → Rev main e' ts os'
  orphan-Rev {e} {os} {e'} {os'} (rolling_back r ls) ts w quiet h =
      let (frame, _, _) = Work-frame w in
      let ids : List Identifier = level_ids e.deployed_nodes in
      let parts =
        All-append_iff (λ id. has_id id ids ≡ true) (level_ids h.before)
          (h.now.nodes ++ level_ids ls)
          (subst (All (λ id. has_id id ids ≡ true))
            (ap level_ids h.split ∙ level_ids_split h.before h.now ls) (All-self ids)) in
      let here = All-append_iff (λ id. has_id id ids ≡ true) h.now.nodes (level_ids ls) parts.1 in
      record {
        before = h.before;
        now = h.now;
        split = frame.1 ∙ h.split;
        nodes = h.nodes;
        back = h.back;
        good =
            orphans-Good ids (level_ids h.before) ts w h.apart
              (subst (All (λ id. has_id id ids ≡ true)) (sym h.nodes) here.0) parts.0 h.good;
        apart =
            subst (λ ls. Outside (level_ids ls) os') (sym frame.1)
              (Work-KeepsSettled ids w h.apart).1;
      }
  orphan-Rev (raised r) ts w quiet h = absurd (no-Work [] w quiet.1)
  orphan-Rev (deploying level now more) ts w quiet h = tt
  orphan-Rev returned ts w quiet h = tt
