-- ===== src/Deploy/Strategy/Linked.antt =====
-- `add_dependencies` for nodes of the graph: it raises nothing, and adds just the dependencies asked for.
use pyceli.Base.{
  ◌≡◌, refl, sym, ◌∙◌, subst, inl, inr, Bool, Bool-cases, true, false, ◌||◌, ◌&&◌, List, [], ◌∷◌,
  some, arith,
}
use pyceli.Objects.{Identifier, id_eq, id_eq_iff, id_eq_self, has_id}
use pyceli.Deploy.Graph.{
  ObjectNode, Nodes, find_node, ids, depend_on, update_node, ok, add_dependency, add_each,
  add_dependencies,
}
use pyceli.Deploy.Strategy.Extends.{
  has_id-add_id, has_id-ids, find_node-ids, find_node-update_node, ids-update_node,
}

-- The second graph has the nodes of the first, with the dependencies `p` added.
pub record Linked (p : Identifier → Identifier → Bool) (g h : Nodes) : Type 0 where
  pub same_ids : ids h ≡ ids g
  pub known :
      (id : Identifier) (n : ObjectNode)
      → find_node id g ≡ some n
      → (m : ObjectNode) × (find_node id h ≡ some m)
        × ((d : Identifier) → has_id d m.dependencies ≡ (has_id d n.dependencies || p id d))

Linked-then :
    (p q r : Identifier → Identifier → Bool) (f g h : Nodes)
    → ((id d : Identifier) → (p id d || q id d) ≡ r id d)
    → Linked p f g
    → Linked q g h
    → Linked r f h
Linked-then p q r f g h e a b = record {
  same_ids = b.same_ids ∙ a.same_ids;
  known = λ id n x.
      let (m, found, deps) = a.known id n x in
      let (l, found', deps') = b.known id m found in
      (l, found', λ d. ground (arith, deps d, deps' d, e id d));
}

Linked-update_node :
    (from to : Identifier) (g : Nodes)
    → Linked (λ id d. id_eq from id && id_eq to d) g (update_node from (depend_on to) g)
Linked-update_node from to g = record {
  same_ids = ids-update_node from to g;
  known = λ id n e. rw (find_node-update_node id from to g) (
      rw e (elim (Bool-cases (id_eq from id)) [
        | inl same ↦ rw same (depend_on to n, refl, λ d. has_id-add_id to d n.dependencies)
        | inr other ↦ rw other (n, refl, λ d. ground arith)
      ]));
}

Linked-add_dependency :
    (from to : Identifier) (g : Nodes)
    → has_id from (ids g) ≡ true
    → has_id to (ids g) ≡ true
    → id_eq from to ≡ false
    → (h : Nodes) × (add_dependency from to g ≡ ok h)
      × Linked (λ id d. id_eq from id && id_eq to d) g h
unfolding add_dependency
Linked-add_dependency from to g a b c =
    (update_node from (depend_on to) g, rw (a, b, c) refl, Linked-update_node from to g)

Linked-add_each :
    (from : Identifier) (tos : List Identifier) (g : Nodes)
    → has_id from (ids g) ≡ true
    → ((x : Identifier) → has_id x tos ≡ true → has_id x (ids g) ≡ true)
    → has_id from tos ≡ false
    → (h : Nodes) × (add_each from tos g ≡ ok h)
      × Linked (λ id d. id_eq from id && has_id d tos) g h
unfolding add_each has_id
Linked-add_each from [] g a b c =
    (g, refl, record { same_ids = refl; known = λ id n e. (n, e, λ d. ground arith) })
Linked-add_each from (to ∷ tos) g a b c =
    let (h, e, one) =
      Linked-add_dependency from to g a (b to (ground (arith, id_eq_self to)))
        (ground (arith, id_eq_iff from to, id_eq_iff to from)) in
    let (k, e', rest) =
      Linked-add_each from tos h (rw (one.same_ids) a)
        (λ x i. rw (one.same_ids) (b x (ground arith))) (ground arith) in
    (k, rw e e', Linked-then _ _ _ g h k (λ id d. ground arith) one rest)

pub Linked-add_dependencies :
    (froms tos : List Identifier) (g : Nodes)
    → ((x : Identifier)
        → has_id x froms ≡ true
        → (has_id x (ids g) ≡ true) × (has_id x tos ≡ false))
    → ((x : Identifier) → has_id x tos ≡ true → has_id x (ids g) ≡ true)
    → (h : Nodes) × (add_dependencies froms tos g ≡ ok h)
      × Linked (λ id d. has_id id froms && has_id d tos) g h
unfolding add_dependencies has_id
Linked-add_dependencies [] tos g a b =
    (g, refl, record { same_ids = refl; known = λ id n e. (n, e, λ d. ground arith) })
Linked-add_dependencies (from ∷ froms) tos g a b =
    let (in_g, apart) = a from (ground (arith, id_eq_self from)) in
    let (h, e, one) = Linked-add_each from tos g in_g b apart in
    let (k, e', rest) =
      Linked-add_dependencies froms tos h
        (λ x i. let (u, v) = a x (ground arith) in (rw (one.same_ids) u, v))
        (λ x i. rw (one.same_ids) (b x i)) in
    (k, rw e e', Linked-then _ _ _ g h k (λ id d. ground arith) one rest)

pub Linked-back :
    (p : Identifier → Identifier → Bool) (g h : Nodes)
    → Linked p g h
    → (id : Identifier) (m : ObjectNode) → find_node id h ≡ some m
    → (n : ObjectNode) × (find_node id g ≡ some n)
      × ((d : Identifier) → has_id d m.dependencies ≡ (has_id d n.dependencies || p id d))
Linked-back p g h l id m found =
    let (n, e) = has_id-ids id g (rw (sym l.same_ids) (find_node-ids id h m found)) in
    let (m', found', deps) = l.known id n e in
    let same : m' ≡ m = cc in
    (
      n,
      e,
      subst {A = ObjectNode}
          (λ x. (d : Identifier) → has_id d x.dependencies ≡ (has_id d n.dependencies || p id d))
          same deps,
    )
