-- ===== src/Deploy/Levels/Ends.antt =====
-- The `while` loop of `traverse_graph` ends within as many rounds as there are nodes.
use pyceli.Base.{
  ℕ, zero, suc, ◌+◌, ◌≤◌, ◌<◌, ◌≡◌, refl, sym, ◌∙◌, ap, inl, inr, Bool-cases, true, false, ◌&&◌,
  List, [], ◌∷◌, length, length-append, Option, none, some, arith, if◌then◌else◌, List-cases,
}
use pyceli.Objects.{Identifier, id_eq_self, has_id}
use pyceli.Deploy.Graph.{ObjectNode, Nodes, node_id}
use pyceli.Deploy.Graph.Keyed.{IsNode}
use pyceli.Deploy.Levels.{
  Walk, Assigned, Queue, level_of, set_level, is_root, roots, improves, offer, round, walk, start,
  traverse_graph, sort_levels, members, is_nil,
}
use pyceli.Deploy.Levels.Loop.{
  level_of-set_level, Band, Bound, Steady, Band-append, Steady-pop, offer_all_keeps, walk_done,
  walk_on,
}

-- The nodes with dependencies that have no level yet
abbrev pending : Nodes → Assigned → ℕ
pending [] xs = 0
pending (n ∷ nodes) xs = if is_root n then pending nodes xs else elim (level_of (node_id n) xs) [
  | none ↦ suc (pending nodes xs)
  | some l ↦ pending nodes xs
]

pending-set_level :
    (nodes : Nodes) (id : Identifier) (l : ℕ) (xs : Assigned)
    → pending nodes (set_level id l xs) ≤ pending nodes xs
pending-set_level [] id l xs = omega arith
pending-set_level (n ∷ nodes) id l xs =
    ground (arith, pending-set_level nodes id l xs, level_of-set_level id (node_id n) l xs)

pending-lt :
    (nodes : Nodes) (n : ObjectNode) (l : ℕ) (xs : Assigned)
    → IsNode n nodes
    → is_root n ≡ false
    → level_of (node_id n) xs ≡ none
    → pending nodes (set_level (node_id n) l xs) < pending nodes xs
pending-lt [] n l xs listed inner new = absurd listed
pending-lt (m ∷ nodes) n l xs (inl same) inner new = rw same (
    ground (
      arith,
      pending-set_level nodes (node_id n) l xs,
      level_of-set_level (node_id n) (node_id n) l xs,
      id_eq_self (node_id n),
    ))
pending-lt (m ∷ nodes) n l xs (inr listed) inner new = ground (
  arith,
  pending-lt nodes n l xs listed inner new,
  level_of-set_level (node_id n) (node_id m) l xs,
)

pub Bound-set_level :
    (k l : ℕ) (id : Identifier) (xs : Assigned)
    → l ≤ suc k
    → Bound k xs
    → Bound k (set_level id l xs)
Bound-set_level k l id xs le h j i e = ground (arith, level_of-set_level id j l xs, h j i)

pub root-has_id :
    (n : ObjectNode) (id : Identifier) → has_id id n.dependencies ≡ true → is_root n ≡ false
unfolding has_id
root-has_id n id h = not_nil n.dependencies h
  where
    not_nil : (xs : List Identifier) → has_id id xs ≡ true → is_nil xs ≡ false
    not_nil [] listed = sym listed
    not_nil (x ∷ xs) listed = refl

module _ (nodes : Nodes) where
  -- The rounds that are left are at most the entries of the queue and the nodes that have no level.
  abbrev Measured : ℕ → ℕ → Walk → Type 0
  Measured level m w =
      Band level w.queue × Bound level w.assigned × (length w.queue + pending nodes w.assigned ≤ m)

  -- A node that is offered a level has none yet.
  pub improves_new :
      (level : ℕ) (o : Option ℕ)
      → ((l : ℕ) → o ≡ some l → l ≤ suc level)
      → improves (suc level) o ≡ true
      → o ≡ none
  improves_new level none h e = refl
  improves_new level (some l) h e = absurd (ground (arith, h l refl))

  offer-Measured :
      (current : Identifier) (level m : ℕ) (n : ObjectNode)
      → IsNode n nodes
      → (w : Walk) → Measured level m w
      → Measured level m (offer current (suc level) n w)
  unfolding offer
  offer-Measured current level m n listed w (band, bound, le) =
      elim (Bool-cases
        (has_id current n.dependencies && improves (suc level) (level_of (node_id n) w.assigned))) [
          | inr refused ↦ rw refused (band, bound, le)
          | inl taken ↦
              let new =
                improves_new level (level_of (node_id n) w.assigned) (bound (node_id n))
                  (ground arith) in
              let less =
                pending-lt nodes n (suc level) w.assigned listed
                  (root-has_id n current (ground arith)) new in
              rw taken (
                Band-append level w.queue (node_id n) band,
                Bound-set_level level (suc level) (node_id n) w.assigned (omega arith) bound,
                omega (arith, less, length-append w.queue ((node_id n, suc level) ∷ [])),
              )
        ]

  round-Measured :
      (current : Identifier) (level m : ℕ) (rest : Queue) (w : Walk)
      → (w.queue ≡ (current, level) ∷ rest)
      → Steady w
      → length w.queue + pending nodes w.assigned ≤ suc m
      → Measured level m (round nodes current level rest w)
  unfolding round
  round-Measured current level m rest w front steady le =
      let (band, bound) = Steady-pop w current level rest front steady in
      offer_all_keeps (Measured level m) current (suc level) nodes _
        (offer-Measured current level m)
        (
          band,
          Bound-set_level level level current w.assigned (omega arith) bound,
          omega (arith, pending-set_level nodes current level w.assigned, ap length front),
        )

  walk-returns :
      (n : ℕ) (w : Walk)
      → Steady w
      → length w.queue + pending nodes w.assigned < n
      → (v : Walk) × (walk nodes n w ≡ some v)
  unfolding walk
  walk-returns zero w steady le = absurd (omega arith)
  walk-returns (suc n) w steady le = elim (List-cases w.queue) [
    | inl empty ↦ (w, walk_done nodes n w empty)
    | inr ((current, level), rest, front) ↦
        let (band, bound, less) =
          round-Measured current level (length rest + pending nodes w.assigned) rest w front steady
            (omega (arith, ap length front)) in
        let (v, e) =
          walk-returns n (round nodes current level rest w) (level, band, bound)
            (omega (arith, ap length front)) in
        (v, walk_on nodes n w current level rest front ∙ e)
  ]

roots-Band : (nodes : Nodes) → Band 0 (roots nodes)
unfolding roots
roots-Band [] = tt
roots-Band (n ∷ nodes) = elim (Bool-cases (is_root n)) [
  | inl root ↦ rw root (inl (refl, roots-Band nodes))
  | inr inner ↦ rw inner (roots-Band nodes)
]

pub start-Steady : (nodes : Nodes) → Steady (start nodes)
unfolding level_of
start-Steady nodes = (0, roots-Band nodes, λ id l e. absurd (ground arith))

start-measure : (nodes : Nodes) → length (roots nodes) + pending nodes [] ≡ length nodes
unfolding roots level_of
start-measure [] = refl
start-measure (n ∷ nodes) = ground (arith, start-measure nodes)

-- `traverse_graph` ends on every graph, cycles included.
pub traverse_graph-returns :
    (nodes : Nodes) → (levels : List (List Identifier)) × (traverse_graph nodes ≡ some levels)
unfolding traverse_graph
traverse_graph-returns nodes =
    let (w, e) =
      walk-returns nodes (suc (length nodes)) (start nodes) (start-Steady nodes)
        (omega (arith, start-measure nodes)) in
    (
      members (sort_levels w.levels),
      ap (λ o. elim o [ none ↦ none | some v ↦ some (members (sort_levels v.levels)) ]) e,
    )
