-- ===== src/Deploy/Levels/Settled.antt =====
-- What the rounds of `traverse_graph` keep: a node that has a level keeps it.
use pyceli.Base.{
  ℕ, suc, ◌≡◌, sym, ◌∙◌, ap, subst, ◌⊎◌, inl, inr, Bool-cases, true, false, [], ◌∷◌, ◌++◌, none,
  some, arith,
}
use pyceli.Objects.{Identifier, id_eq, id_eq_iff, has_id}
use pyceli.Deploy.Graph.{ObjectNode, Nodes, node_id}
use pyceli.Deploy.Graph.Keyed.{IsNode, IsKeyed}
use pyceli.Deploy.Levels.{Walk, level_of, set_level, is_root}
use pyceli.Deploy.Levels.Loop.{level_of-set_level}
use pyceli.Deploy.Levels.Ends.{root-has_id}
use pyceli.Deploy.Levels.Steps.{
  Steps, above, InQueue, Placed, Steps-zero, InQueue-last, InQueue-more, InQueue-append,
}

-- The walk behind an offer that is taken
abbrev pub taken : ℕ → ObjectNode → Walk → Walk
taken level n w = record w {
  assigned = set_level (node_id n) (suc level) w.assigned;
  queue = w.queue ++ (node_id n, suc level) ∷ [];
}

module _ (nodes : Nodes) where
  pub record Settled (w : Walk) : Type 0 where
    -- The entries of the queue come from chains; only nodes without dependencies have no level yet.
    pub queued_steps : (id : Identifier) (l : ℕ) → InQueue id l w.queue → Steps nodes id l
    pub queued_level :
        (id : Identifier) (l : ℕ)
        → InQueue id l w.queue
        → (level_of id w.assigned ≡ some l) ⊎ ((level_of id w.assigned ≡ none) × (l ≡ 0))
    -- A placed node has its level, from a chain.
    pub placed_steps : (id : Identifier) (l : ℕ) → Placed id l w.levels → Steps nodes id l
    pub placed_level :
        (id : Identifier) (l : ℕ) → Placed id l w.levels → level_of id w.assigned ≡ some l
    -- A node with a level, and a node without dependencies, is placed or still to be placed.
    pub level_kept :
        (id : Identifier) (l : ℕ)
        → level_of id w.assigned ≡ some l
        → Placed id l w.levels ⊎ InQueue id l w.queue
    pub root_kept :
        (n : ObjectNode)
        → IsNode n nodes
        → is_root n ≡ true
        → Placed (node_id n) 0 w.levels ⊎ InQueue (node_id n) 0 w.queue

  module _ (keyed : IsKeyed nodes) where
    module _ (current : Identifier) (level : ℕ) (n : ObjectNode) (listed : IsNode n nodes)
        (w : Walk) where
      taken_queued :
          Settled w
          → is_root n ≡ false
          → level_of (node_id n) w.assigned ≡ none
          → (id : Identifier) (l : ℕ) → InQueue id l w.queue
          → (level_of id (taken level n w).assigned ≡ some l)
            ⊎ ((level_of id (taken level n w).assigned ≡ none) × (l ≡ 0))
      taken_queued s inner new id l h = elim (Bool-cases (id_eq (node_id n) id)) [
        | inr other ↦
            rw (level_of-set_level (node_id n) id (suc level) w.assigned, other)
              (s.queued_level id l h)
        | inl same ↦ elim (s.queued_level id l h) [
          | inl old ↦ absurd (ground (arith, id_eq_iff (node_id n) id))
          | inr (_, zeroth) ↦
              let (m, m_listed, m_root, m_id) = Steps-zero (s.queued_steps id l h) zeroth in
              let e : n ≡ m =
                keyed n m listed m_listed ((id_eq_iff (node_id n) id).0 same ∙ sym m_id) in
              absurd (ground (arith, ap is_root e))
        ]
      ]

      pub taken-Settled :
          has_id current n.dependencies ≡ true
          → level_of (node_id n) w.assigned ≡ none
          → Steps nodes current level
          → Settled w
          → Settled (taken level n w)
      taken-Settled h new steps s = record {
        queued_steps = λ id l q. elim (InQueue-append w.queue (node_id n) id (suc level) l q) [
          | inl old ↦ s.queued_steps id l old
          | inr (e, k) ↦
              subst (λ i. Steps nodes i l) e
                (subst (Steps nodes (node_id n)) k (above n listed h steps))
        ];
        queued_level = λ id l q. elim (InQueue-append w.queue (node_id n) id (suc level) l q) [
          | inl old ↦ taken_queued s (root-has_id n current h) new id l old
          | inr (e, k) ↦ inl (
              ground (
                arith,
                level_of-set_level (node_id n) id (suc level) w.assigned,
                id_eq_iff (node_id n) id,
              ))
        ];
        placed_steps = s.placed_steps;
        placed_level = λ id l p. ground (
          arith,
          level_of-set_level (node_id n) id (suc level) w.assigned,
          id_eq_iff (node_id n) id,
          s.placed_level id l p,
        );
        level_kept = λ id l e. elim (Bool-cases (id_eq (node_id n) id)) [
          | inl same ↦ inr (
              subst (λ i. InQueue i l (taken level n w).queue) ((id_eq_iff (node_id n) id).0 same)
                (subst (λ k. InQueue (node_id n) k (taken level n w).queue)
                  (ground (arith, level_of-set_level (node_id n) id (suc level) w.assigned))
                  (InQueue-last w.queue (node_id n) (suc level))))
          | inr other ↦
              elim (s.level_kept id l
                (ground (arith, level_of-set_level (node_id n) id (suc level) w.assigned))) [
                  | inl p ↦ inl p
                  | inr q ↦ inr (InQueue-more w.queue _ id l q)
                ]
        ];
        root_kept = λ m m_listed r. elim (s.root_kept m m_listed r) [
          | inl p ↦ inl p
          | inr q ↦ inr (InQueue-more w.queue _ (node_id m) 0 q)
        ];
      }
