-- ===== src/Deploy/Graph/Cycles.antt =====
-- What `validate` decides: whether some node depends on itself, through other nodes or directly.
use pyceli.Base.{
  ℕ, zero, suc, ◌≡◌, refl, sym, ◌∙◌, subst, ◌⊎◌, inl, inr, Bool-cases, true, false, List, [], ◌∷◌,
  length, Option-cases, some, arith,
}
use pyceli.Objects.{Identifier, id_eq, id_eq_iff, id_eq_self, has_id}
use pyceli.Deploy.Graph.{
  ObjectNode, Nodes, find_node, ids, Result, ok, err, ◌>>=◌, Search, remove_id, enter, leave,
  visit_each, dependencies_of, visit, validate,
}

ok-injective : {A : Type 0} {a b : A} → ok a ≡ ok b → a ≡ b
ok-injective e = cc

pub bind_returns :
    {A B : Type 0} (r : Result A) (k : A → Result B) {value : B}
    → (r >>= k) ≡ ok value
    → (part : A) × (r ≡ ok part) × (k part ≡ ok value)
bind_returns (ok part) k e = (part, refl, e)
bind_returns (err x) k e = cc

module _ (nodes : Nodes) where
  -- The node `a` of the graph has `b` among its dependencies.
  abbrev pub DependsOn : Identifier → Identifier → Type 0
  DependsOn a b = (n : ObjectNode) × (find_node a nodes ≡ some n) × (has_id b n.dependencies ≡ true)

  -- Chains of one or more dependencies
  pub data Leads (a : Identifier) : Identifier → Type 0 where
    one : {b : Identifier} → DependsOn a b → Leads a b
    more : {b c : Identifier} → Leads a b → DependsOn b c → Leads a c

  -- All chains from the node end.
  pub data Safe : Identifier → Type 0 where
    safe :
        {id : Identifier} (n : ObjectNode)
        → find_node id nodes ≡ some n
        → ((d : Identifier) → has_id d n.dependencies ≡ true → Safe d)
        → Safe id

  -- Every dependency is a node of the graph, as `add_dependency` sees to.
  abbrev pub IsClosed : Type 0
  IsClosed =
      (a b : Identifier) (n : ObjectNode)
      → find_node a nodes ≡ some n
      → has_id b n.dependencies ≡ true
      → has_id b (ids nodes) ≡ true

  -- The first dependency of a chain, and what is left of it
  first : {a c : Identifier} → Leads a c → (d : Identifier) × DependsOn a d × ((d ≡ c) ⊎ Leads d c)
  first {c} (one e) = (c, e, inl refl)
  first {c} (more p e) =
      let (d, start, rest) = first p in
      (
        d,
        start,
        inr (elim rest [
          | inl same ↦ one (subst (λ x. DependsOn x c) (sym same) e)
          | inr q ↦ more q e
        ]),
      )

  no_cycle : {a : Identifier} → Safe a → ¬ Leads a a
  no_cycle {a} (safe n found below) p =
      let (d, (m, found_too, listed), rest) = first p in
      let same_node : m ≡ n = cc in
      no_cycle
        (below d (subst {A = ObjectNode} (λ x. has_id d x.dependencies ≡ true) same_node listed))
        (elim rest [
          | inl same ↦ one (subst (λ x. DependsOn x d) (sym same) (m, found_too, listed))
          | inr q ↦ more q (m, found_too, listed)
        ])

  -- The nodes that the search has left are safe.
  abbrev LeftSafe : Search → Type 0
  LeftSafe s = (x : Identifier) → has_id x s.visited ≡ true → has_id x s.stack ≡ false → Safe x

  -- The state behind a call of `visit`
  record After (s t : Search) : Type 0 where
    left : LeftSafe t
    same : t.stack ≡ s.stack

  abbrev VisitsSafely : (Search → Identifier → Result Search) → Type 0
  VisitsSafely go =
      (s t : Search) (id : Identifier) → LeftSafe s → go s id ≡ ok t → After s t × Safe id

  visit_each-Safe :
      (go : Search → Identifier → Result Search)
      → VisitsSafely go
      → (xs : List Identifier) (s t : Search) → LeftSafe s
      → visit_each go xs s ≡ ok t
      → After s t × ((d : Identifier) → has_id d xs ≡ true → Safe d)
  unfolding visit_each has_id
  visit_each-Safe go h [] s t l e = (
    subst (After s) (ok-injective e) (record { left = l; same = refl }),
    λ d listed. absurd (ground arith),
  )
  visit_each-Safe go h (x ∷ xs) s t l e =
      let (u, e₁, e₂) = bind_returns (go s x) _ e in
      let (after, x_safe) = h s u x l e₁ in
      let (end, rest) = visit_each-Safe go h xs u t after.left e₂ in
      (
        record { left = end.left; same = end.same ∙ after.same },
        λ d listed. elim (Bool-cases (id_eq x d)) [
          | inl same ↦ subst Safe ((id_eq_iff x d).0 same) x_safe
          | inr other ↦ rest d (ground arith)
        ],
      )

  leave-After :
      (id : Identifier) (n : ObjectNode) (s u : Search)
      → find_node id nodes ≡ some n
      → After (enter id s) u
      → ((d : Identifier) → has_id d n.dependencies ≡ true → Safe d)
      → After s (leave id u) × Safe id
  unfolding has_id
  leave-After id n s u found a below =
      let id_safe : Safe id = safe n found below in
      let back : remove_id id u.stack ≡ s.stack = rw (a.same) (rw (id_eq_self id)) in
      (
        record {
          left = λ x seen out. elim (Bool-cases (id_eq id x)) [
            | inl same ↦ subst Safe ((id_eq_iff id x).0 same) id_safe
            | inr other ↦ a.left x seen (rw (a.same) (ground (arith, back)))
          ];
          same = back;
        },
        id_safe,
      )

  deps_found :
      (id : Identifier) (deps : List Identifier)
      → dependencies_of id nodes ≡ ok deps
      → (n : ObjectNode) × (find_node id nodes ≡ some n) × (n.dependencies ≡ deps)
  unfolding dependencies_of
  deps_found id deps e = elim (Option-cases (find_node id nodes)) [
    | inl missing ↦ absurd (ground arith)
    | inr (n, found) ↦ (n, found, ok-injective (rw (found, dependencies_of) at e))
  ]

  enter_left : (id : Identifier) (s : Search) → LeftSafe s → LeftSafe (enter id s)
  unfolding has_id
  enter_left id s l x seen out = l x (ground arith) (ground arith)

  visit-Safe : (n : ℕ) → VisitsSafely (visit nodes n)
  unfolding visit dependencies_of
  visit-Safe zero s t id l e = cc
  visit-Safe (suc n) s t id l e = elim (Bool-cases (has_id id s.stack)) [
    | inl on_stack ↦ absurd (ground arith)
    | inr off_stack ↦ elim (Bool-cases (has_id id s.visited)) [
      | inl seen ↦
          subst (λ r. After s r × Safe id) (ok-injective (rw (off_stack, seen) at e))
            (record { left = l; same = refl }, l id seen off_stack)
      | inr fresh ↦
          let (deps, e₁, rest) =
            bind_returns (dependencies_of id nodes) _ (rw (off_stack, fresh) at e) in
          let (node, found, listed) = deps_found id deps e₁ in
          let (u, e₂, last) = bind_returns (visit_each (visit nodes n) deps (enter id s)) _ rest in
          let (after, below) =
            visit_each-Safe (visit nodes n) (visit-Safe n) deps (enter id s) u (enter_left id s l)
              e₂ in
          subst (λ r. After s r × Safe id) (ok-injective last)
            (leave-After id node s u found after
              (λ d h. below d (subst (λ xs. has_id d xs ≡ true) listed h)))
    ]
  ]

pub validate-Safe :
    (nodes : Nodes) (s : Search)
    → validate nodes ≡ ok s
    → (id : Identifier) → has_id id (ids nodes) ≡ true
    → Safe nodes id
unfolding validate has_id
validate-Safe nodes s e id listed =
    let (after, all_safe) =
      visit_each-Safe nodes (visit nodes (suc (length nodes)))
        (visit-Safe nodes (suc (length nodes))) (ids nodes) (record { visited = []; stack = [] }) s
        (λ x seen out. absurd (ground arith)) e in
    all_safe id listed

-- If `validate` returns, no node of the graph depends on itself, directly or through other nodes.
pub validate-acyclic :
    (nodes : Nodes) (s : Search)
    → validate nodes ≡ ok s
    → (id : Identifier) → has_id id (ids nodes) ≡ true
    → ¬ Leads nodes id id
validate-acyclic nodes s e id listed = no_cycle nodes (validate-Safe nodes s e id listed)
