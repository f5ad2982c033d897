-- ===== src/Deploy/Levels/Rounds.antt =====
-- One round of `traverse_graph`: the node that leaves the queue is placed, and the nodes that depend
-- on it have a level behind the round.
use pyceli.Base.{ℕ, ◌≡◌, refl, sym, subst, ◌⊎◌, inl, inr, Bool-cases, ◌∷◌, none, some, arith}
use pyceli.Objects.{Identifier, id_eq, id_eq_iff}
use pyceli.Deploy.Graph.{Nodes, node_id}
use pyceli.Deploy.Levels.{Walk, Queue, level_of, set_level, append_level}
use pyceli.Deploy.Levels.Loop.{level_of-set_level}
use pyceli.Deploy.Levels.Steps.{Steps, InQueue, Placed, Placed-append_level}
use pyceli.Deploy.Levels.Settled.{Settled}

-- The walk before the first offer of a round
abbrev pub popped : Identifier → ℕ → Queue → Walk → Walk
popped current level rest w = record {
  levels = append_level level current w.levels;
  assigned = set_level current level w.assigned;
  queue = rest;
}

module _ (nodes : Nodes) where
  module _ (current : Identifier) (level : ℕ) (rest : Queue) (w : Walk)
      (front : w.queue ≡ (current, level) ∷ rest) (s : Settled nodes w) where
    front_queued : InQueue current level w.queue
    front_queued = subst (InQueue current level) (sym front) (inl (refl, refl))

    rest_queued : (id : Identifier) (l : ℕ) → InQueue id l rest → InQueue id l w.queue
    rest_queued id l h = subst (InQueue id l) (sym front) (inr h)

    pub popped-Steps : Steps nodes current level
    popped-Steps = s.queued_steps current level front_queued

    -- The node at the front has no other level than the one of its entry.
    pub popped_level :
        (id : Identifier) (l : ℕ)
        → (level_of id w.assigned ≡ some l)
        → level_of id (set_level current level w.assigned) ≡ some l
    popped_level id l e = elim (s.queued_level current level front_queued) [
      | inl old ↦
          ground (arith, level_of-set_level current id level w.assigned, id_eq_iff current id)
      | inr (new, _) ↦
          ground (arith, level_of-set_level current id level w.assigned, id_eq_iff current id)
    ]

    popped_queued :
        (id : Identifier) (l : ℕ)
        → InQueue id l rest
        → (level_of id (popped current level rest w).assigned ≡ some l)
          ⊎ ((level_of id (popped current level rest w).assigned ≡ none) × (l ≡ 0))
    popped_queued id l h = elim (s.queued_level id l (rest_queued id l h)) [
      | inl old ↦ inl (popped_level id l old)
      | inr (new, zeroth) ↦ elim (Bool-cases (id_eq current id)) [
        | inr other ↦ inr (ground (arith, level_of-set_level current id level w.assigned), zeroth)
        | inl same ↦ elim (s.queued_level current level front_queued) [
          | inl old ↦ absurd (ground (arith, id_eq_iff current id))
          | inr (_, z) ↦ inl (ground (arith, level_of-set_level current id level w.assigned))
        ]
      ]
    ]

    popped_kept :
        (id : Identifier) (l : ℕ)
        → Placed id l w.levels ⊎ InQueue id l w.queue
        → Placed id l (popped current level rest w).levels ⊎ InQueue id l rest
    popped_kept id l (inl p) = inl ((Placed-append_level level l current id w.levels).1 (inl p))
    popped_kept id l (inr q) = elim (subst (InQueue id l) front q) [
      | inl e ↦ inl ((Placed-append_level level l current id w.levels).1 (inr e))
      | inr more ↦ inr more
    ]

    pub Placed-popped :
        (id : Identifier) (l : ℕ)
        → Placed id l (popped current level rest w).levels
        → Placed id l w.levels ⊎ ((current ≡ id) × (level ≡ l))
    Placed-popped id l p = (Placed-append_level level l current id w.levels).0 p

    pub popped-Settled : Settled nodes (popped current level rest w)
    popped-Settled = record {
      queued_steps = λ id l q. s.queued_steps id l (rest_queued id l q);
      queued_level = popped_queued;
      placed_steps = λ id l p. elim (Placed-popped id l p) [
        | inl old ↦ s.placed_steps id l old
        | inr (e, k) ↦ subst (λ i. Steps nodes i l) e (subst (Steps nodes current) k popped-Steps)
      ];
      placed_level = λ id l p. elim (Placed-popped id l p) [
        | inl old ↦ popped_level id l (s.placed_level id l old)
        | inr (e, k) ↦
            ground (arith, level_of-set_level current id level w.assigned, id_eq_iff current id)
      ];
      level_kept = λ id l e. elim (Bool-cases (id_eq current id)) [
        | inl same ↦ inl (
            (Placed-append_level level l current id w.levels).1 (
              inr (
                (id_eq_iff current id).0 same,
                ground (arith, level_of-set_level current id level w.assigned),
              )))
        | inr other ↦
            popped_kept id l
              (s.level_kept id l (ground (arith, level_of-set_level current id level w.assigned)))
      ];
      root_kept = λ n listed r. popped_kept (node_id n) 0 (s.root_kept n listed r);
    }
