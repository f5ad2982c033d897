-- ===== src/Deploy/Strategy/Built.antt =====
-- The graph behind each level of `build_deployment_graph`: a node depends on just the nodes of the rank before.
use pyceli.Base.{
  ℕ, suc, ◌<◌, ◌≡◌, refl, sym, ◌∙◌, subst, ◌↔◌, inl, inr, Bool, Bool-cases, ◌==◌, true, false, ◌||◌,
  ◌&&◌, List, [], ◌∷◌, map, some, or-true, arith, All,
}
use pyceli.Objects.{Identifier, id_eq_self, has_id, K8sObject, identifier}
use pyceli.Deploy.Graph.{ObjectNode, Nodes, find_node, ids, add_dependencies, ok}
use pyceli.Deploy.Graph.Keyed.{Distinct}
use pyceli.Deploy.Levels.{is_nil}
use pyceli.Deploy.Strategy.{add_objects, build_levels}
use pyceli.Deploy.Strategy.Extends.{has_id-ids, find_node-ids}
use pyceli.Deploy.Strategy.Linked.{Linked, Linked-back, Linked-add_dependencies}
use pyceli.Deploy.Strategy.Adding.{Adding, add_objects-Adding, start-Adding, add_objects-current}

-- Whether one of the levels has an object with the identifier
abbrev pub in_levels : Identifier → List (List K8sObject) → Bool
in_levels id [] = false
in_levels id (objects ∷ levels) = has_id id (map identifier objects) || in_levels id levels

only_previous :
    (d : Identifier) (previous xs : List Identifier) (c : Bool)
    → (xs ≡ [])
    → (has_id d xs || (c && has_id d previous)) ≡ true
    → has_id d previous ≡ true
unfolding has_id
only_previous d previous xs c e h =
    let h' = subst (λ ys. (has_id d ys || (c && has_id d previous)) ≡ true) e h in ground arith

module _ (rank : Identifier → ℕ) where
  -- The first `k` levels are built, the last of them with the identifiers `previous`.
  pub record Built (k : ℕ) (previous : List Identifier) (g : Nodes) : Type 0 where
    pub distinct : Distinct (ids g)
    pub below : (id : Identifier) → has_id id (ids g) ≡ true → rank id < k
    pub depends :
        (id : Identifier) (n : ObjectNode)
        → find_node id g ≡ some n
        → (d : Identifier)
        → (has_id d n.dependencies ≡ true) ↔ ((has_id d (ids g) ≡ true) × (rank id ≡ suc (rank d)))
    pub inhabited : (j : ℕ) → j < k → (d : Identifier) × (has_id d (ids g) ≡ true) × (rank d ≡ j)
    pub last :
        (d : Identifier)
        → (has_id d previous ≡ true) ↔ ((has_id d (ids g) ≡ true) × (suc (rank d) ≡ k))

  pub start-Built : Built 0 [] []
  unfolding has_id find_node
  start-Built = record {
    distinct = tt;
    below = λ id h. absurd (ground arith);
    depends = λ id n found d. absurd (ground arith);
    inhabited = λ j lt. absurd (omega arith);
    last = λ d. (λ h. absurd (ground arith), λ (h, e). absurd (ground arith));
  }

  module _ (k : ℕ) (previous : List Identifier) (g : Nodes) (b : Built k previous g) (nodes : Nodes)
      (current : List Identifier) (a : Adding rank k g nodes current) where
    old_listed : (id : Identifier) → has_id id (ids g) ≡ true → has_id id (ids nodes) ≡ true
    old_listed id h =
        let (n, found) = has_id-ids id g h in find_node-ids id nodes n (a.old id h ∙ found)

    new_listed :
        (id : Identifier)
        → has_id id (ids nodes) ≡ true
        → has_id id (ids g) ≡ false
        → has_id id current ≡ true
    new_listed id h new = let (n, found) = has_id-ids id nodes h in (a.fresh id n found new).1

    current-not-old : (id : Identifier) → has_id id current ≡ true → has_id id (ids g) ≡ false
    current-not-old id h = elim (Bool-cases (has_id id (ids g))) [
      | inl old ↦ absurd (omega (arith, b.below id old, (a.listed id h).0))
      | inr new ↦ new
    ]

    before_listed :
        (d : Identifier) → has_id d (ids nodes) ≡ true → rank d < k → has_id d (ids g) ≡ true
    before_listed d h lt = elim (Bool-cases (has_id d (ids g))) [
      | inl old ↦ old
      | inr new ↦ absurd (omega (arith, (a.listed d (new_listed d h new)).0))
    ]

    listed_iff :
        (new : List Identifier)
        → ((id : Identifier) → has_id id current ≡ (false || has_id id new))
        → (id : Identifier)
        → ((has_id id (ids g) || has_id id new) ≡ true) ↔ (has_id id (ids nodes) ≡ true)
    listed_iff new same id = (
      λ h. elim (or-true (has_id id (ids g)) (has_id id new) h) [
        | inl i ↦ old_listed id i
        | inr i ↦ (a.listed id (ground (arith, same id))).1
      ],
      λ h. elim (Bool-cases (has_id id (ids g))) [
        | inl i ↦ ground arith
        | inr i ↦ ground (arith, same id, new_listed id h i)
      ],
    )

    depends_then :
        (id : Identifier) (n : ObjectNode)
        → find_node id nodes ≡ some n
        → (d : Identifier)
        → ((has_id d n.dependencies || (has_id id current && has_id d previous)) ≡ true)
          ↔ ((has_id d (ids nodes) ≡ true) × (rank id ≡ suc (rank d)))
    depends_then id n found d = elim (Bool-cases (has_id id (ids g))) [
      | inl old ↦
          let out : has_id id current ≡ false = elim (Bool-cases (has_id id current)) [
            | inl h ↦ absurd (ground (arith, current-not-old id h))
            | inr h ↦ h
          ] in
          let (there, back) = b.depends id n (sym (a.old id old) ∙ found) d in
          (
            λ h. let (i, r) = there (ground arith) in (old_listed d i, r),
            λ (i, r). ground (arith, back (before_listed d i (omega (arith, b.below id old)), r)),
          )
      | inr new ↦
          let (free, on) = a.fresh id n found new in
          let (there, back) = b.last d in
          let at_k = (a.listed id on).0 in
          (
            λ h.
                let (i, r) =
                  there (only_previous d previous n.dependencies (has_id id current) free h) in
                (old_listed d i, omega arith),
            λ (i, r). ground (arith, back (before_listed d i (omega arith), omega arith)),
          )
    ]

    pub next-Built :
        (h : Nodes)
        → Linked (λ id d. has_id id current && has_id d previous) nodes h
        → (first : Identifier) → has_id first current ≡ true
        → Built (suc k) current h
    next-Built h l first some_new = record {
      distinct = subst Distinct (sym l.same_ids) a.distinct;
      below = λ id i. elim (Bool-cases (has_id id (ids g))) [
        | inl old ↦ omega (arith, b.below id old)
        | inr new ↦ omega (arith, (a.listed id (new_listed id (rw l.same_ids at i) new)).0)
      ];
      depends = λ id m found d.
          let (n, found', deps) = Linked-back _ nodes h l id m found in
          rw (deps d) (rw l.same_ids (depends_then id n found' d));
      inhabited = λ j lt. elim (Bool-cases (j == k)) [
        | inl same ↦ let (r, i) = a.listed first some_new in (first, rw l.same_ids i, ground arith)
        | inr other ↦
            let (d, i, r) = b.inhabited j (ground arith) in (d, rw l.same_ids (old_listed d i), r)
      ];
      last = λ d. rw l.same_ids (
        λ i. let (r, j) = a.listed d i in (j, omega arith),
        λ (i, r). elim (Bool-cases (has_id d (ids g))) [
          | inl old ↦ absurd (omega (arith, b.below d old))
          | inr new ↦ new_listed d i new
        ],
      );
    }

  -- The levels that are still to be built: none is empty, and their objects are ranked in order.
  abbrev pub InRank : ℕ → List (List K8sObject) → Type 0
  InRank k [] = Unit
  InRank k (objects ∷ levels) =
      (is_nil objects ≡ false) × All (λ o. rank (identifier o) ≡ k) objects × InRank (suc k) levels

  some_current :
      (objects : List K8sObject)
      → is_nil objects ≡ false
      → (id : Identifier) × (has_id id (map identifier objects) ≡ true)
  unfolding has_id
  some_current [] h = absurd (ground arith)
  some_current (o ∷ objects) h = (identifier o, ground (arith, id_eq_self (identifier o)))

  pub one_level :
      (objects : List K8sObject) (k : ℕ) (previous : List Identifier) (g : Nodes)
      → is_nil objects ≡ false
      → All (λ o. rank (identifier o) ≡ k) objects
      → Built k previous g
      → (h : Nodes) × (add_dependencies
            (add_objects objects (g, [])).1
            previous
            (add_objects objects (g, [])).0
          ≡ ok h)
        × Built (suc k) (add_objects objects (g, [])).1 h
        × ((id : Identifier)
            → ((has_id id (ids g) || has_id id (map identifier objects)) ≡ true)
              ↔ (has_id id (ids h) ≡ true))
  unfolding has_id
  one_level objects k previous g full r b =
      let nodes = (add_objects objects (g, [])).0 in
      let current = (add_objects objects (g, [])).1 in
      let a : Adding rank k g nodes current =
        add_objects-Adding rank k g b.below objects g [] r (start-Adding rank k g b.distinct) in
      let apart : (x : Identifier) → has_id x current ≡ true → has_id x previous ≡ false = λ x i.
        elim (Bool-cases (has_id x previous)) [
          | inr out ↦ out
          | inl on ↦ absurd (omega (arith, (a.listed x i).0, ((b.last x).0 on).1))
        ] in
      let (h, e, l) =
        Linked-add_dependencies current previous nodes (λ x i. ((a.listed x i).1, apart x i))
          (λ x i. old_listed k previous g b nodes current a x ((b.last x).0 i).0) in
      let (first, on) = some_current objects full in
      (
        h,
        e,
        next-Built k previous g b nodes current a h l first
            (ground (arith, add_objects-current objects g [] first)),
        λ id. rw l.same_ids (
            listed_iff k previous g b nodes current a (map identifier objects)
              (add_objects-current objects g []) id),
      )

  -- `build_levels` raises nothing, and its graph has just the objects of the levels.
  pub build_levels-Built :
      (levels : List (List K8sObject)) (k : ℕ) (previous : List Identifier) (g : Nodes)
      → InRank k levels
      → Built k previous g
      → (h : Nodes) × (build_levels levels previous g ≡ ok h)
        × ((n : ℕ) × (end : List Identifier) × Built n end h)
        × ((id : Identifier)
            → ((has_id id (ids g) || in_levels id levels) ≡ true) ↔ (has_id id (ids h) ≡ true))
  unfolding build_levels
  build_levels-Built [] k previous g r b = (g, refl, (k, previous, b), λ id. ground arith)
  build_levels-Built (objects ∷ levels) k previous g (full, at_k, r) b =
      let (h, e, b', i) = one_level objects k previous g full at_k b in
      let (f, e', b'', i') =
        build_levels-Built levels (suc k) (add_objects objects (g, [])).1 h r b' in
      (f, rw e e', b'', λ id. ground (arith, i id, i' id))
