-- ===== src/Deploy/Strategy/Order.antt =====
-- What the levels of the strategy come to: the objects are deployed in the order of their kinds.
use pyceli.Base.{
  ℕ, suc, ◌+◌, ◌<◌, ◌≤◌, ◌≡◌, refl, sym, ◌∙◌, ap, subst, inl, inr, Bool, Bool-cases, true, false,
  or-true, ◌||◌, or-true_right, List, [], ◌∷◌, map, Option, none, some, arith, All, All-map, Any,
}
use pyceli.Objects.{Identifier, id_eq, id_eq_iff, has_id, K8sObject, identifier}
use pyceli.Deploy.Graph.{Nodes, Search, validate, ids, ok}
use pyceli.Deploy.Levels.{Levels, sort_levels, members, traverse_graph}
use pyceli.Deploy.Graph.Keyed.{IsKeyed, has_id-IsNode}
use pyceli.Deploy.Levels.Steps.{Steps, root, above}
use pyceli.Deploy.Levels.Ends.{traverse_graph-returns}
use pyceli.Deploy.Levels.Shortest.{traverse_graph-IsShortest}
use pyceli.Deploy.Levels.Keys.{nth_level}
use pyceli.Deploy.Levels.Complete.{traverse_graph_complete, traverse_graph-rank}
use pyceli.Deploy.Strategy.{
  level_of_kind, classify_k8s_objects_by_deployment_level, build_deployment_graph,
}
use pyceli.Deploy.Strategy.Built.{Built, InRank, in_levels, start-Built, build_levels-Built}
use pyceli.Deploy.Strategy.Classes.{IsClass, Rises, classify-Classified}
use pyceli.Deploy.Strategy.Sorted.{
  All-sort_levels, Rises-sort_levels, in_levels-sort_levels, keys_below, keys_below-lt,
  keys_below-Rises,
}
use pyceli.Deploy.Strategy.Ranked.{Built-IsKeyed, Built-validate, Built-IsRanked}

-- The place of a level among the levels that are used
abbrev place : Levels K8sObject → Option ℕ → ℕ
place ls none = 0
place ls (some l) = keys_below l ls

abbrev rank_in : Levels K8sObject → Identifier → ℕ
rank_in ls id = place ls (level_of_kind id.kind)

Rises-InRank :
    (all : Levels K8sObject) (k low : ℕ) (ls : Levels K8sObject)
    → Rises low ls
    → All IsClass ls
    → ((l : ℕ) → low ≤ l → keys_below l all ≡ k + keys_below l ls)
    → InRank (rank_in all) k (members ls)
Rises-InRank all k low [] r c h = tt
Rises-InRank all k low ((l, os) ∷ ls) r c h =
    let at_k : keys_below l all ≡ k =
      ground (arith, h l r.0, keys_below-Rises (suc l) l ls (omega arith) r.1) in
    (
      c.0.0,
      All-map os (λ o e. ap (place all) e ∙ at_k) c.0.1,
      Rises-InRank all (suc k) (suc l) ls r.1 c.1
          (λ j le. ground (arith, h j (omega (arith, r.0)))),
    )

abbrev sorted_classes : List K8sObject → Levels K8sObject
sorted_classes objects = sort_levels (classify_k8s_objects_by_deployment_level objects)

classes-InRank :
    (objects : List K8sObject)
    → InRank (rank_in (sorted_classes objects)) 0 (members (sorted_classes objects))
classes-InRank objects =
    let c = classify-Classified objects in
    Rises-InRank (sorted_classes objects) 0 0 (sorted_classes objects)
      (Rises-sort_levels _ c.differ) (All-sort_levels IsClass _ c.classes) (λ l le. omega arith)

-- A kind with an object has the key of its level.
key_of_identifier :
    (os : List K8sObject) (id : Identifier) (l : ℕ)
    → All (λ o. level_of_kind o.kind ≡ some l) os
    → has_id id (map identifier os) ≡ true
    → level_of_kind id.kind ≡ some l
unfolding has_id
key_of_identifier [] id l a h = absurd (ground arith)
key_of_identifier (o ∷ os) id l a h = elim (Bool-cases (id_eq (identifier o) id)) [
  | inl same ↦ ap (λ i. level_of_kind i.kind) (sym ((id_eq_iff (identifier o) id).0 same)) ∙ a.0
  | inr other ↦ key_of_identifier os id l a.1 (ground arith)
]

key_listed :
    (ls : Levels K8sObject) (id : Identifier) (l : ℕ)
    → All IsClass ls
    → in_levels id (members ls) ≡ true
    → level_of_kind id.kind ≡ some l
    → Any (λ e. e.0 ≡ l) ls
key_listed [] id l c h known = absurd (ground arith)
key_listed ((j, os) ∷ ls) id l c h known = elim (Bool-cases (has_id id (map identifier os))) [
  | inl here ↦ let same = key_of_identifier os id j c.0.1 here in inl (ground (arith, same, known))
  | inr there ↦ inr (key_listed ls id l c.1 (ground arith) known)
]

class_known :
    (ls : Levels K8sObject) (id : Identifier)
    → All IsClass ls
    → in_levels id (members ls) ≡ true
    → (l : ℕ) × (level_of_kind id.kind ≡ some l)
class_known [] id c h = absurd (ground arith)
class_known ((l, os) ∷ ls) id c h = elim (or-true (has_id id (map identifier os)) _ h) [
  | inl here ↦ (l, key_of_identifier os id l c.0.1 here)
  | inr there ↦ class_known ls id c.1 there
]

abbrev pub Listed : K8sObject → List K8sObject → Type 0
Listed o objects = Any (λ x. x ≡ o) objects

-- The graph that is built, with the rank of its nodes
record IsGraph (objects : List K8sObject) (nodes : Nodes) : Type 0 where
  size : ℕ
  last : List Identifier
  built : Built (rank_in (sorted_classes objects)) size last nodes
  kept :
      (o : K8sObject) (l : ℕ)
      → Listed o objects
      → level_of_kind o.kind ≡ some l
      → has_id (identifier o) (ids nodes) ≡ true
  known :
      (id : Identifier) → has_id id (ids nodes) ≡ true → (l : ℕ) × (level_of_kind id.kind ≡ some l)
  keys :
      (o : K8sObject) (l : ℕ)
      → Listed o objects
      → level_of_kind o.kind ≡ some l
      → Any (λ e. e.0 ≡ l) (sorted_classes objects)

only_right : (a b : Bool) → a ≡ false → (a || b) ≡ true → b ≡ true
only_right a b e h = ground arith

IsGraph-of :
    (objects : List K8sObject)
    → (nodes : Nodes) × (build_deployment_graph objects ≡ ok nodes) × IsGraph objects nodes
unfolding build_deployment_graph has_id
IsGraph-of objects =
    let c = classify-Classified objects in
    let (nodes, e, (size, last, b), i) =
      build_levels-Built (rank_in (sorted_classes objects)) (members (sorted_classes objects)) 0 []
        [] (classes-InRank objects) (start-Built (rank_in (sorted_classes objects))) in
    (
      nodes,
      e,
      record {
        size = size;
        last = last;
        built = b;
        kept = λ o l listed known. (i (identifier o)).0 (
            or-true_right (has_id (identifier o) []) _ (
              in_levels-sort_levels (classify_k8s_objects_by_deployment_level objects)
                (identifier o)
              ∙ c.kept o l listed known));
        known = λ id h.
            class_known (sorted_classes objects) id (All-sort_levels IsClass _ c.classes)
              (only_right (has_id id []) _ refl ((i id).1 h));
        keys = λ o l listed known.
            key_listed (sorted_classes objects) (identifier o) l
              (All-sort_levels IsClass _ c.classes)
              (in_levels-sort_levels (classify_k8s_objects_by_deployment_level objects)
                  (identifier o)
                ∙ c.kept o l listed known)
              known;
      },
    )

-- The strategy raises nothing, and its graph passes `validate`.
pub build_deployment_graph_validates :
    (objects : List K8sObject)
    → (nodes : Nodes) × (s : Search) × (build_deployment_graph objects ≡ ok nodes)
      × (validate nodes ≡ ok s)
build_deployment_graph_validates objects =
    let (nodes, e, g) = IsGraph-of objects in
    let (s, valid) =
      Built-validate (rank_in (sorted_classes objects)) g.size g.last nodes g.built in
    (nodes, s, e, valid)

Steps-listed :
    (nodes : Nodes) {id : Identifier} {l : ℕ} → Steps nodes id l → has_id id (ids nodes) ≡ true
Steps-listed nodes (root n listed free) = has_id-IsNode n nodes listed
Steps-listed nodes (above n listed h p) = has_id-IsNode n nodes listed

module _ (objects : List K8sObject) (nodes : Nodes)
    (build : build_deployment_graph objects ≡ ok nodes) (levels : List (List Identifier))
    (order : traverse_graph nodes ≡ some levels) where
  this-IsGraph : IsGraph objects nodes
  this-IsGraph =
      let (h, e, g) = IsGraph-of objects in
      let same : h ≡ nodes = cc in subst (IsGraph objects) same g

  out_of_levels :
      (a : K8sObject) (p : ℕ)
      → (level_of_kind a.kind ≡ none)
      → has_id (identifier a) (nth_level p levels) ≡ false
  out_of_levels a p unknown = elim (Bool-cases (has_id (identifier a) (nth_level p levels))) [
    | inr out ↦ out
    | inl placed ↦
        let g = this-IsGraph in
        let keyed = Built-IsKeyed (rank_in (sorted_classes objects)) g.size g.last nodes g.built in
        let (l, known) = g.known (identifier a) (
          Steps-listed nodes
            ((traverse_graph-IsShortest nodes keyed levels order (identifier a) p).0 placed).0) in
        absurd (ground (arith, known, unknown))
  ]

  -- Every object of a known kind stands in exactly one of the levels that are deployed.
  pub object_placed :
      (a : K8sObject) (l : ℕ)
      → Listed a objects
      → level_of_kind a.kind ≡ some l
      → (p : ℕ) × (has_id (identifier a) (nth_level p levels) ≡ true)
        × ((q : ℕ) → has_id (identifier a) (nth_level q levels) ≡ true → q ≡ p)
  object_placed a l listed known =
      let g = this-IsGraph in
      let keyed = Built-IsKeyed (rank_in (sorted_classes objects)) g.size g.last nodes g.built in
      let (s, valid) =
        Built-validate (rank_in (sorted_classes objects)) g.size g.last nodes g.built in
      traverse_graph_complete nodes keyed s valid levels order (identifier a)
        (g.kept a l listed known)

  -- An object whose kind is of a lower level is deployed before one whose kind is of a higher level,
  -- for two objects of known kinds, wherever they stand in the list.
  pub object_order :
      (a b : K8sObject) (i j p q : ℕ)
      → Listed a objects
      → (level_of_kind a.kind ≡ some i)
      → (level_of_kind b.kind ≡ some j)
      → i < j
      → (has_id (identifier a) (nth_level p levels) ≡ true)
      → (has_id (identifier b) (nth_level q levels) ≡ true)
      → p < q
  object_order a b i j p q listed a_known b_known lt at_p at_q =
      let g = this-IsGraph in
      let rank = rank_in (sorted_classes objects) in
      let keyed = Built-IsKeyed rank g.size g.last nodes g.built in
      let ranked = Built-IsRanked rank g.size g.last nodes g.built in
      let e_p = traverse_graph-rank nodes keyed rank ranked levels order (identifier a) p at_p in
      let e_q = traverse_graph-rank nodes keyed rank ranked levels order (identifier b) q at_q in
      omega (
        arith,
        keys_below-lt (sorted_classes objects) i j (g.keys a i listed a_known) lt,
        sym (ap (place (sorted_classes objects)) a_known) ∙ e_p,
        sym (ap (place (sorted_classes objects)) b_known) ∙ e_q,
      )

-- Whatever objects are listed, one whose kind has no deployment level is left out, and nothing is
-- raised: the strategy builds a graph, `validate` accepts it, `traverse_graph` gives its levels, and the
-- object stands in none of them.
pub object_dropped :
    (objects : List K8sObject) (a : K8sObject)
    → (level_of_kind a.kind ≡ none)
    → (nodes : Nodes) × (s : Search) × (levels : List (List Identifier)) × (build_deployment_graph
          objects
        ≡ ok nodes)
      × (validate nodes ≡ ok s)
      × (traverse_graph nodes ≡ some levels)
      × ((p : ℕ) → has_id (identifier a) (nth_level p levels) ≡ false)
object_dropped objects a unknown =
    let (nodes, s, build, valid) = build_deployment_graph_validates objects in
    let (levels, order) = traverse_graph-returns nodes in
    (
      nodes,
      s,
      levels,
      build,
      valid,
      order,
      λ p. out_of_levels objects nodes build levels order a p unknown,
    )

-- What the other modules use of the graph that is built
pub built_graph :
    (objects : List K8sObject) (nodes : Nodes)
    → build_deployment_graph objects ≡ ok nodes
    → IsKeyed nodes
      × ((o : K8sObject) (l : ℕ)
          → Listed o objects
          → level_of_kind o.kind ≡ some l
          → has_id (identifier o) (ids nodes) ≡ true)
built_graph objects nodes build =
    let (h, e, g) = IsGraph-of objects in
    let same : h ≡ nodes = cc in
    let g' : IsGraph objects nodes = subst (IsGraph objects) same g in
    (Built-IsKeyed (rank_in (sorted_classes objects)) g'.size g'.last nodes g'.built, g'.kept)
