-- ===== src/Deploy/Levels/Offers.antt =====
-- The inner loop of `traverse_graph`: what all the offers of one round keep, and what they achieve.
use pyceli.Base.{
  ℕ, suc, ◌≤◌, ◌≡◌, refl, subst, inl, inr, Bool-cases, true, ◌&&◌, length, [], ◌∷◌, Option-cases,
  none, some, arith, All, All-append,
}
use pyceli.Objects.{Identifier, id_eq, id_eq_iff, id_eq_self, has_id}
use pyceli.Deploy.Graph.{ObjectNode, Nodes, node_id}
use pyceli.Deploy.Graph.Keyed.{IsNode, IsKeyed}
use pyceli.Deploy.Levels.{Walk, level_of, improves, offer, offer_all}
use pyceli.Deploy.Levels.Loop.{level_of-set_level, Band, Bound, Band-append, offer_all_keeps}
use pyceli.Deploy.Levels.Ends.{improves_new, Bound-set_level}
use pyceli.Deploy.Levels.Steps.{Steps}
use pyceli.Deploy.Levels.Settled.{Settled, taken, taken-Settled}

-- The rule for what each offer achieves for its own node and no later offer undoes
offer_all_each :
    (P : Walk → Type 0) (R : ObjectNode → Walk → Type 0) (current : Identifier) (new : ℕ)
    (nodes : Nodes) (w : Walk)
    → ((n : ObjectNode)
        → IsNode n nodes
        → (v : Walk) → P v
        → P (offer current new n v) × R n (offer current new n v))
    → ((n m : ObjectNode) → IsNode n nodes → (v : Walk) → P v → R m v → R m (offer current new n v))
    → P w
    → P (offer_all current new nodes w)
      × ((n : ObjectNode) → IsNode n nodes → R n (offer_all current new nodes w))
unfolding offer_all
offer_all_each P R current new [] w h k p = (p, λ n listed. absurd listed)
offer_all_each P R current new (n ∷ nodes) w h k p =
    let (p', r) = h n (inl refl) w p in
    let (end, rest) =
      offer_all_each P R current new nodes (offer current new n w) (λ m i. h m (inr i))
        (λ m o i. k m o (inr i)) p' in
    let own =
      offer_all_keeps (λ v. P v × R n v) current new nodes (offer current new n w)
        (λ m i v (q, s). ((h m (inr i) v q).0, k m n (inr i) v q s)) (p', r) in
    (
      end,
      λ m listed. elim listed [
        | inl same ↦
            subst (λ x. R x (offer_all current new nodes (offer current new n w))) same own.1
        | inr i ↦ rest m i
      ],
    )

module _ (nodes : Nodes) where
  module _ (keyed : IsKeyed nodes) (current : Identifier) (level : ℕ)
      (steps : Steps nodes current level) (base : Walk) where
    -- What the offers of one round keep, compared with the walk before them
    pub record During (w : Walk) : Type 0 where
      pub settled : Settled nodes w
      pub band : Band level w.queue
      pub bound : Bound level w.assigned
      pub same : w.levels ≡ base.levels
      pub grows :
          (id : Identifier) (l : ℕ)
          → level_of id base.assigned ≡ some l
          → level_of id w.assigned ≡ some l
      pub next : All (λ e. e.1 ≤ length base.levels) w.queue

    abbrev pub HasLevel : ObjectNode → Walk → Type 0
    HasLevel n w =
        has_id current n.dependencies ≡ true → (k : ℕ) × (level_of (node_id n) w.assigned ≡ some k)

    module _ (deep : suc level ≤ length base.levels) where
      taken-During :
          (n : ObjectNode)
          → IsNode n nodes
          → (w : Walk) → has_id current n.dependencies ≡ true
          → level_of (node_id n) w.assigned ≡ none
          → During w
          → During (taken level n w)
      taken-During n listed w h new d = record {
        settled = taken-Settled nodes keyed current level n listed w h new steps d.settled;
        band = Band-append level w.queue (node_id n) d.band;
        bound = Bound-set_level level (suc level) (node_id n) w.assigned (omega arith) d.bound;
        same = d.same;
        grows = λ id l e. ground (
          arith,
          level_of-set_level (node_id n) id (suc level) w.assigned,
          id_eq_iff (node_id n) id,
          d.grows id l e,
        );
        next = All-append (λ e. e.1 ≤ length base.levels) w.queue _ d.next (deep, tt);
      }

      offer_each :
          (n : ObjectNode)
          → IsNode n nodes
          → (w : Walk) → During w
          → During (offer current (suc level) n w) × HasLevel n (offer current (suc level) n w)
      unfolding offer
      offer_each n listed w d =
          elim (Bool-cases (
            has_id current n.dependencies
            && improves (suc level) (level_of (node_id n) w.assigned))) [
              | inr refused ↦ rw refused (
                d,
                λ h. elim (Option-cases (level_of (node_id n) w.assigned)) [
                  | inl new ↦ absurd (ground (arith, rw (h, new) at refused))
                  | inr known ↦ known
                ],
              )
              | inl accepted ↦
                  let new =
                    improves_new nodes level (level_of (node_id n) w.assigned) (d.bound (node_id n))
                      (ground arith) in
                  rw accepted (
                    taken-During n listed w (ground arith) new d,
                    λ h. (
                      suc level,
                      ground (
                        arith,
                        level_of-set_level (node_id n) (node_id n) (suc level) w.assigned,
                        id_eq_self (node_id n),
                      ),
                    ),
                  )
            ]

      offer_stable :
          (n m : ObjectNode)
          → IsNode n nodes
          → (w : Walk) → During w
          → HasLevel m w
          → HasLevel m (offer current (suc level) n w)
      unfolding offer
      offer_stable n m listed w d r h =
          elim (Bool-cases (
            has_id current n.dependencies
            && improves (suc level) (level_of (node_id n) w.assigned))) [
              | inr refused ↦ rw refused (r h)
              | inl accepted ↦ rw accepted (elim (Bool-cases (id_eq (node_id n) (node_id m))) [
                | inl same ↦ (
                  suc level,
                  ground (arith, level_of-set_level (node_id n) (node_id m) (suc level) w.assigned),
                )
                | inr other ↦
                    let (k, e) = r h in
                    (
                      k,
                      ground (
                        arith,
                        level_of-set_level (node_id n) (node_id m) (suc level) w.assigned,
                      ),
                    )
              ])
            ]

      pub offers :
          (w : Walk)
          → During w
          → During (offer_all current (suc level) nodes w)
            × ((n : ObjectNode)
                → IsNode n nodes
                → HasLevel n (offer_all current (suc level) nodes w))
      offers w d =
          offer_all_each During HasLevel current (suc level) nodes w offer_each
            (λ n m listed v. offer_stable n m listed v) d
