-- ===== src/Deploy/Strategy/Adding.antt =====
-- The loop over the objects of one level: it adds their nodes, without dependencies, and keeps the others.
use pyceli.Base.{
  ℕ, ◌<◌, ◌≡◌, refl, sym, ◌∙◌, ap, inl, inr, Bool-cases, true, false, ◌||◌, List, [], ◌∷◌, map,
  some, arith, All,
}
use pyceli.Objects.{Identifier, id_eq, id_eq_iff, has_id, K8sObject, identifier}
use pyceli.Deploy.Graph.{ObjectNode, Nodes, find_node, ids, add_node, add_id}
use pyceli.Deploy.Graph.Keyed.{Distinct}
use pyceli.Deploy.Strategy.{node_of, add_objects}
use pyceli.Deploy.Strategy.Extends.{
  has_id-add_id, find_node-ids, find_node-add_node, has_id-add_node, Distinct-add_node,
}

pub add_objects-current :
    (objects : List K8sObject) (nodes : Nodes) (current : List Identifier) (id : Identifier)
    → has_id id (add_objects objects (nodes, current)).1
      ≡ (has_id id current || has_id id (map identifier objects))
unfolding add_objects has_id
add_objects-current [] nodes current id = ground arith
add_objects-current (o ∷ objects) nodes current id = ground (
  arith,
  add_objects-current objects (add_node (node_of o) nodes) (add_id (identifier o) current) id,
  has_id-add_id (identifier o) id current,
)

module _ (rank : Identifier → ℕ) (k : ℕ) (g : Nodes) where
  -- The graph and the identifiers of the level, on the way from the graph `g`
  pub record Adding (nodes : Nodes) (current : List Identifier) : Type 0 where
    pub distinct : Distinct (ids nodes)
    pub old : (id : Identifier) → has_id id (ids g) ≡ true → find_node id nodes ≡ find_node id g
    pub fresh :
        (id : Identifier) (n : ObjectNode)
        → find_node id nodes ≡ some n
        → has_id id (ids g) ≡ false
        → (n.dependencies ≡ []) × (has_id id current ≡ true)
    pub listed :
        (id : Identifier)
        → has_id id current ≡ true
        → (rank id ≡ k) × (has_id id (ids nodes) ≡ true)

  module _ (below : (id : Identifier) → has_id id (ids g) ≡ true → rank id < k) where
    Adding-add_node :
        (o : K8sObject) (nodes : Nodes) (current : List Identifier)
        → rank (identifier o) ≡ k
        → Adding nodes current
        → Adding (add_node (node_of o) nodes) (add_id (identifier o) current)
    Adding-add_node o nodes current at_k a = record {
      distinct = Distinct-add_node (node_of o) nodes a.distinct;
      old = λ id h. elim (Bool-cases (id_eq (identifier o) id)) [
        | inl same ↦
            absurd (omega (arith, ap rank ((id_eq_iff (identifier o) id).0 same), below id h))
        | inr other ↦ rw (find_node-add_node id (node_of o) nodes) (rw other (a.old id h))
      ];
      fresh = λ id n found h. elim (Bool-cases (id_eq (identifier o) id)) [
        | inl same ↦
            let e : some (node_of o) ≡ some n =
              rw same at (rw (find_node-add_node id (node_of o) nodes) at found) in
            let e' : node_of o ≡ n = cc in
            (
              sym (ap (λ x. x.dependencies) e'),
              ground (arith, has_id-add_id (identifier o) id current),
            )
        | inr other ↦
            let (free, listed) =
              a.fresh id n (rw other at (rw (find_node-add_node id (node_of o) nodes) at found))
                h in
            (free, ground (arith, has_id-add_id (identifier o) id current))
      ];
      listed = λ id h. elim (Bool-cases (id_eq (identifier o) id)) [
        | inl same ↦ (
          ap rank (sym ((id_eq_iff (identifier o) id).0 same)) ∙ at_k,
          ground (arith, has_id-add_node id (node_of o) nodes),
        )
        | inr other ↦
            let (r, i) = a.listed id (ground (arith, has_id-add_id (identifier o) id current)) in
            (r, ground (arith, has_id-add_node id (node_of o) nodes))
      ];
    }

    pub add_objects-Adding :
        (objects : List K8sObject) (nodes : Nodes) (current : List Identifier)
        → All (λ o. rank (identifier o) ≡ k) objects
        → Adding nodes current
        → Adding (add_objects objects (nodes, current)).0 (add_objects objects (nodes, current)).1
    unfolding add_objects
    add_objects-Adding [] nodes current h a = a
    add_objects-Adding (o ∷ objects) nodes current h a =
        add_objects-Adding objects (add_node (node_of o) nodes) (add_id (identifier o) current) h.1
          (Adding-add_node o nodes current h.0 a)

  pub start-Adding : Distinct (ids g) → Adding g []
  unfolding has_id
  start-Adding d = record {
    distinct = d;
    old = λ id h. refl;
    fresh = λ id n found h. absurd (ground (arith, find_node-ids id g n found));
    listed = λ id h. absurd (ground arith);
  }
