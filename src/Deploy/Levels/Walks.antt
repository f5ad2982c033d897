-- ===== src/Deploy/Levels/Walks.antt =====
-- What holds before and behind each round of `traverse_graph`, from the first one on.
use pyceli.Base.{
  ℕ, suc, ◌≤◌, ◌≡◌, refl, sym, subst, inl, inr, Bool-cases, true, length, [], ◌∷◌, some, arith, All,
  All-map,
}
use pyceli.Objects.{Identifier, has_id}
use pyceli.Deploy.Graph.{ObjectNode, Nodes, node_id}
use pyceli.Deploy.Graph.Keyed.{IsNode, IsKeyed}
use pyceli.Deploy.Levels.{Walk, Queue, level_of, is_root, offer_all, round, roots, start, at_level}
use pyceli.Deploy.Levels.Loop.{Steady, Steady-pop}
use pyceli.Deploy.Levels.Ends.{Bound-set_level, start-Steady}
use pyceli.Deploy.Levels.Steps.{Steps, root, InQueue, Placed}
use pyceli.Deploy.Levels.Settled.{Settled}
use pyceli.Deploy.Levels.Rounds.{popped, popped_level, Placed-popped, popped-Steps, popped-Settled}
use pyceli.Deploy.Levels.Keys.{Counted, Counted-append_level}
use pyceli.Deploy.Levels.Offers.{offers}

module _ (nodes : Nodes) where
  -- The nodes that depend on a placed node have a level, at most one behind it.
  abbrev pub Covered : Walk → Type 0
  Covered w =
      (d : Identifier) (l : ℕ) (n : ObjectNode)
      → Placed d l w.levels
      → IsNode n nodes
      → has_id d n.dependencies ≡ true
      → (k : ℕ) × (level_of (node_id n) w.assigned ≡ some k) × (k ≤ suc l)

  pub record Sound (w : Walk) : Type 0 where
    pub steady : Steady w
    pub settled : Settled nodes w
    pub covered : Covered w
    pub counted : Counted 0 w.levels
    pub next : All (λ e. e.1 ≤ length w.levels) w.queue

  module _ (keyed : IsKeyed nodes) where
    pub round-Sound :
        (w : Walk) (current : Identifier) (level : ℕ) (rest : Queue)
        → (w.queue ≡ (current, level) ∷ rest)
        → Sound w
        → Sound (round nodes current level rest w)
    unfolding round
    round-Sound w current level rest front s =
        let (band, bound) = Steady-pop w current level rest front s.steady in
        let ahead = subst (All (λ e. e.1 ≤ length w.levels)) front s.next in
        let (counted, longer, below) =
          Counted-append_level 0 level current w.levels s.counted (omega arith)
            (omega (arith, ahead.0)) in
        let steps = popped-Steps nodes current level rest w front s.settled in
        let p = popped current level rest w in
        let (d, reached) = offers nodes keyed current level steps p (omega arith) p (record {
          settled = popped-Settled nodes current level rest w front s.settled;
          band = band;
          bound = Bound-set_level level level current w.assigned (omega arith) bound;
          same = refl;
          grows = λ id l e. e;
          next = All-map rest (λ e h. omega arith) ahead.1;
        }) in
        record {
          steady = (level, d.band, d.bound);
          settled = d.settled;
          covered = λ x l n placed listed h.
              elim (Placed-popped nodes current level rest w front s.settled x l
                (subst (Placed x l) d.same placed)) [
                  | inl old ↦
                      let (k, e, le) = s.covered x l n old listed h in
                      (
                        k,
                        d.grows (node_id n) k (
                            popped_level nodes current level rest w front s.settled (node_id n) k
                              e),
                        le,
                      )
                  | inr (e, same) ↦
                      let (k, reach) =
                        reached n listed (subst (λ i. has_id i n.dependencies ≡ true) (sym e) h) in
                      (k, reach, omega (arith, d.bound (node_id n) k reach))
                ];
          counted = subst (Counted 0) (sym d.same) counted;
          next =
              subst
                (λ ls.
                  All {A = Identifier × ℕ} (λ e. e.1 ≤ length ls)
                    (offer_all current (suc level) nodes p).queue)
                (sym d.same) d.next;
        }

roots-Steps :
    (nodes all : Nodes)
    → ((n : ObjectNode) → IsNode n nodes → IsNode n all)
    → (id : Identifier) (l : ℕ) → InQueue id l (roots nodes)
    → (l ≡ 0) × Steps all id l
unfolding roots
roots-Steps [] all sub id l q = absurd q
roots-Steps (n ∷ nodes) all sub id l q = elim (Bool-cases (is_root n)) [
  | inr inner ↦ roots-Steps nodes all (λ m i. sub m (inr i)) id l (rw inner at q)
  | inl free ↦
      let q' : InQueue id l ((node_id n, 0) ∷ roots nodes) = rw free at q in
      elim q' [
        | inl (e, k) ↦ (
          sym k,
          subst (λ i. Steps all i l) e
              (subst (Steps all (node_id n)) k (root n (sub n (inl refl)) free)),
        )
        | inr more ↦ roots-Steps nodes all (λ m i. sub m (inr i)) id l more
      ]
]

roots_queued :
    (nodes : Nodes) (n : ObjectNode)
    → IsNode n nodes
    → is_root n ≡ true
    → InQueue (node_id n) 0 (roots nodes)
unfolding roots
roots_queued [] n listed free = absurd listed
roots_queued (m ∷ nodes) n (inl same) free = rw same (rw free (inl (refl, refl)))
roots_queued (m ∷ nodes) n (inr listed) free = elim (Bool-cases (is_root m)) [
  | inl root_too ↦ rw root_too (inr (roots_queued nodes n listed free))
  | inr inner ↦ rw inner (roots_queued nodes n listed free)
]

roots-zero : (nodes : Nodes) → All (λ e. e.1 ≤ 0) (roots nodes)
unfolding roots
roots-zero [] = tt
roots-zero (n ∷ nodes) = elim (Bool-cases (is_root n)) [
  | inl free ↦ rw free (omega arith, roots-zero nodes)
  | inr inner ↦ rw inner (roots-zero nodes)
]

pub start-Sound : (nodes : Nodes) → Sound nodes (start nodes)
unfolding level_of at_level has_id
start-Sound nodes = record {
  steady = start-Steady nodes;
  settled = record {
    queued_steps = λ id l q. (roots-Steps nodes nodes (λ n i. i) id l q).1;
    queued_level = λ id l q. inr (refl, (roots-Steps nodes nodes (λ n i. i) id l q).0);
    placed_steps = λ id l p. absurd (ground arith);
    placed_level = λ id l p. absurd (ground arith);
    level_kept = λ id l e. absurd (ground arith);
    root_kept = λ n listed free. inr (roots_queued nodes n listed free);
  };
  covered = λ d l n p listed h. absurd (ground arith);
  counted = tt;
  next = roots-zero nodes;
}
