-- ===== src/Deploy/Graph/Detect.antt =====
-- `validate` ends, and raises only for a cycle.
use pyceli.Base.{
  ℕ, zero, suc, ◌≤◌, ◌<◌, ◌≡◌, refl, ◌∙◌, ap, subst, ◌⊎◌, inl, inr, Bool-cases, true, false, List,
  [], ◌∷◌, length, some, arith, if◌then◌else◌,
}
use pyceli.Objects.{Identifier, id_eq, id_eq_iff, id_eq_self, has_id}
use pyceli.Deploy.Graph.{
  ObjectNode, Nodes, node_id, find_node, ids, missing_dependency, missing_node, cycle_detected,
  key_error, out_of_fuel, Result, ok, err, ◌>>=◌, Search, enter, leave, visit_each, dependencies_of,
  visit, validate,
}
use pyceli.Deploy.Graph.Cycles.{Leads, one, more, IsClosed}

-- The nodes that are not yet visited
abbrev unseen : List Identifier → List Identifier → ℕ
unseen [] visited = 0
unseen (x ∷ xs) visited = if has_id x visited then unseen xs visited else suc (unseen xs visited)

unseen-le :
    (xs : List Identifier) (id : Identifier) (visited : List Identifier)
    → unseen xs (id ∷ visited) ≤ unseen xs visited
unfolding has_id
unseen-le [] id visited = omega arith
unseen-le (x ∷ xs) id visited = ground (arith, unseen-le xs id visited)

unseen-lt :
    (xs : List Identifier) (id : Identifier) (visited : List Identifier)
    → has_id id xs ≡ true
    → has_id id visited ≡ false
    → unseen xs (id ∷ visited) < unseen xs visited
unfolding has_id
unseen-lt [] id visited listed fresh = absurd (ground arith)
unseen-lt (x ∷ xs) id visited listed fresh = elim (Bool-cases (id_eq x id)) [
  | inl same ↦
      let e = (id_eq_iff x id).0 same in
      rw e (ground (arith, id_eq_self id, unseen-le xs id visited))
  | inr other ↦ ground (arith, unseen-lt xs id visited, unseen-le xs id visited)
]

unseen-empty : (xs : List Identifier) → unseen xs [] ≤ length xs
unfolding has_id
unseen-empty [] = omega arith
unseen-empty (x ∷ xs) = ground (arith, unseen-empty xs)

length-ids : (nodes : Nodes) → length (ids nodes) ≡ length nodes
length-ids [] = refl
length-ids (n ∷ nodes) = ap suc (length-ids nodes)

find_node_listed :
    (id : Identifier) (nodes : Nodes)
    → has_id id (ids nodes) ≡ true
    → (n : ObjectNode) × (find_node id nodes ≡ some n)
unfolding find_node has_id
find_node_listed id [] h = absurd (ground arith)
find_node_listed id (n ∷ nodes) h = elim (Bool-cases (id_eq (node_id n) id)) [
  | inl same ↦ (n, rw same)
  | inr other ↦ rw other (find_node_listed id nodes (ground arith))
]

module _ (nodes : Nodes) where
  -- A search that goes on leaves the stack as it was, and one that raises has found a cycle.
  abbrev Outcome : Search → Result Search → Type 0
  Outcome s (ok t) =
      (t.stack ≡ s.stack) × (unseen (ids nodes) t.visited ≤ unseen (ids nodes) s.visited)
  Outcome s (err cycle_detected) = (id : Identifier) × Leads nodes id id
  Outcome s (err _) = ⊥

  abbrev StackLeads : Search → Identifier → Type 0
  StackLeads s id = (x : Identifier) → has_id x s.stack ≡ true → Leads nodes x id

  abbrev Visits : ℕ → (Search → Identifier → Result Search) → Type 0
  Visits n go =
      (s : Search) (id : Identifier)
      → has_id id (ids nodes) ≡ true
      → unseen (ids nodes) s.visited < n
      → StackLeads s id
      → Outcome s (go s id)

  Outcome-then :
      (s : Search) (r : Result Search) (k : Search → Result Search)
      → Outcome s r
      → ((t : Search)
          → (t.stack ≡ s.stack)
          → (unseen (ids nodes) t.visited ≤ unseen (ids nodes) s.visited)
          → Outcome s (k t))
      → Outcome s (r >>= k)
  Outcome-then s (ok t) k h f = f t h.0 h.1
  Outcome-then s (err cycle_detected) k h f = h
  Outcome-then s (err _) k h f = h

  Outcome-weaken :
      (s t : Search) (r : Result Search)
      → (t.stack ≡ s.stack)
      → (unseen (ids nodes) t.visited ≤ unseen (ids nodes) s.visited)
      → Outcome t r
      → Outcome s r
  Outcome-weaken s t (ok u) e le h = (h.0 ∙ e, omega arith)
  Outcome-weaken s t (err cycle_detected) e le h = h
  Outcome-weaken s t (err _) e le h = h

  visit_each-Outcome :
      (n : ℕ) (go : Search → Identifier → Result Search)
      → Visits n go
      → (xs : List Identifier) (s : Search)
      → ((x : Identifier) → has_id x xs ≡ true → (has_id x (ids nodes) ≡ true) × StackLeads s x)
      → unseen (ids nodes) s.visited < n
      → Outcome s (visit_each go xs s)
  unfolding visit_each has_id
  visit_each-Outcome n go h [] s known lt = (refl, omega arith)
  visit_each-Outcome n go h (x ∷ xs) s known lt =
      let (listed, leads) = known x (ground (arith, id_eq_self x)) in
      Outcome-then s (go s x) (visit_each go xs) (h s x listed lt leads) λ t same le.
        Outcome-weaken s t (visit_each go xs t) same le (
          visit_each-Outcome n go h xs t
            (λ y in_xs. let (a, b) = known y (ground arith) in (a, λ z on. b z (rw same at on)))
            (omega arith))

  enter_leads :
      (id : Identifier) (s : Search) (n : ObjectNode) (d : Identifier)
      → find_node id nodes ≡ some n
      → has_id d n.dependencies ≡ true
      → StackLeads s id
      → StackLeads (enter id s) d
  unfolding has_id
  enter_leads id s n d found listed leads x on = elim (Bool-cases (id_eq id x)) [
    | inl same ↦ subst (λ y. Leads nodes y d) ((id_eq_iff id x).0 same) (one (n, found, listed))
    | inr other ↦ more (leads x (ground arith)) (n, found, listed)
  ]

  leave-Outcome :
      (id : Identifier) (s t : Search)
      → (t.stack ≡ id ∷ s.stack)
      → (unseen (ids nodes) t.visited ≤ unseen (ids nodes) (id ∷ s.visited))
      → Outcome s (ok (leave id t))
  leave-Outcome id s t same le =
      (rw same (rw (id_eq_self id)), omega (arith, unseen-le (ids nodes) id s.visited))

  leave_each :
      (id : Identifier) (s : Search) (r : Result Search)
      → Outcome (enter id s) r
      → Outcome s (r >>= λ t. ok (leave id t))
  leave_each id s (ok t) h = leave-Outcome id s t h.0 h.1
  leave_each id s (err cycle_detected) h = h
  leave_each id s (err _) h = h

  module _ (closed : IsClosed nodes) where
    visit-Outcome : (n : ℕ) → Visits n (visit nodes n)
    unfolding visit dependencies_of
    visit-Outcome zero s id listed lt leads = absurd (omega arith)
    visit-Outcome (suc n) s id listed lt leads = elim (Bool-cases (has_id id s.stack)) [
      | inl on_stack ↦ rw on_stack (id, leads id on_stack)
      | inr off_stack ↦ elim (Bool-cases (has_id id s.visited)) [
        | inl seen ↦ rw (off_stack, seen) (refl, omega arith)
        | inr fresh ↦
            let (node, found) = find_node_listed id nodes listed in
            rw (off_stack, fresh, found, dependencies_of)
              (leave_each id s _ (
                visit_each-Outcome n (visit nodes n) (visit-Outcome n) node.dependencies
                  (enter id s)
                  (λ d in_deps.
                    (closed id d node found in_deps, enter_leads id s node d found in_deps leads))
                  (omega (arith, unseen-lt (ids nodes) id s.visited listed fresh))))
      ]
    ]

-- `validate` ends on every graph whose dependencies are nodes of the graph: it returns, or it raises
-- for a cycle, and then some node depends on itself, directly or through other nodes.
pub validate-Outcome :
    (nodes : Nodes)
    → IsClosed nodes
    → ((s : Search) × (validate nodes ≡ ok s))
      ⊎ ((validate nodes ≡ err cycle_detected) × ((id : Identifier) × Leads nodes id id))
unfolding validate has_id
validate-Outcome nodes closed =
    let start : Search = record { visited = []; stack = [] } in
    split (validate nodes) (
      visit_each-Outcome nodes (suc (length nodes)) (visit nodes (suc (length nodes)))
        (visit-Outcome nodes closed (suc (length nodes))) (ids nodes) start
        (λ x listed. (listed, λ y on. absurd (ground arith)))
        (omega (arith, unseen-empty (ids nodes), length-ids nodes)))
  where
    split :
        (r : Result Search)
        → Outcome nodes (record { visited = []; stack = [] }) r
        → ((s : Search) × (r ≡ ok s))
          ⊎ ((r ≡ err cycle_detected) × ((id : Identifier) × Leads nodes id id))
    split (ok t) h = inl (t, refl)
    split (err cycle_detected) h = inr (refl, h)
    split (err missing_dependency) h = absurd h
    split (err missing_node) h = absurd h
    split (err key_error) h = absurd h
    split (err out_of_fuel) h = absurd h
