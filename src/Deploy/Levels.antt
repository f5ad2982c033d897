-- ===== src/Deploy/Levels.antt =====
-- piceli/k8s/ops/deploy/deployment_graph.py: `traverse_graph`, the levels that are deployed one after
-- the other. A node stands for itself by its identifier.
pub mod Loop
pub mod Ends
pub mod Steps
pub mod Settled
pub mod Rounds
pub mod Keys
pub mod Offers
pub mod Walks
pub mod Shortest
pub mod Complete
use pyceli.Base.{
  ℕ, zero, suc, ◌+◌, ltb, leb, ◌==◌, Bool, true, false, not, ◌&&◌, ◌||◌, List, [], ◌∷◌, ◌++◌, map,
  length, Option, none, some, if◌then◌else◌,
}
use pyceli.Objects.{Identifier, id_eq, has_id}
use pyceli.Deploy.Graph.{ObjectNode, Nodes, node_id}

-- `levels_dict`, a defaultdict of lists, in the order of its keys
abbrev pub Levels : Type 0 → Type 0
Levels A = List (ℕ × List A)

-- The entries of the deque
abbrev pub Queue : Type 0
Queue = List (Identifier × ℕ)

-- `node_to_level`
abbrev pub Assigned : Type 0
Assigned = List (Identifier × ℕ)

pub record Walk : Type 0 where
  pub levels : Levels Identifier
  pub assigned : Assigned
  pub queue : Queue

-- `node_to_level.get(id)`
unfoldable pub level_of : Identifier → Assigned → Option ℕ
level_of id [] = none
level_of id ((x, l) ∷ xs) = if id_eq x id then some l else level_of id xs

-- `node_to_level[id] = level`
unfoldable pub set_level : Identifier → ℕ → Assigned → Assigned
set_level id l [] = (id, l) ∷ []
set_level id l ((x, k) ∷ xs) = if id_eq x id then (x, l) ∷ xs else (x, k) ∷ set_level id l xs

-- `levels_dict[level].append(node)`
unfoldable pub append_level : {A : Type 0} → ℕ → A → Levels A → Levels A
append_level l a [] = (l, a ∷ []) ∷ []
append_level l a ((k, xs) ∷ ls) =
    if k == l then (k, xs ++ a ∷ []) ∷ ls else (k, xs) ∷ append_level l a ls

-- `levels_dict[level]`
unfoldable pub at_level : {A : Type 0} → ℕ → Levels A → List A
at_level l [] = []
at_level l ((k, xs) ∷ ls) = if k == l then xs else at_level l ls

abbrev pub is_nil {ℓ} : {A : Type ℓ} → List A → Bool
is_nil [] = true
is_nil (x ∷ xs) = false

-- `not node.dependencies`
abbrev pub is_root : ObjectNode → Bool
is_root n = is_nil n.dependencies

-- `deque([(node, 0) for node in nodes if not node.dependencies])`
unfoldable pub roots : Nodes → Queue
roots [] = []
roots (n ∷ ns) = if is_root n then (node_id n, 0) ∷ roots ns else roots ns

-- `node_id not in node_to_level or node_to_level[node_id] > new_level`
abbrev pub improves : ℕ → Option ℕ → Bool
improves new none = true
improves new (some old) = ltb new old

-- The body of the inner loop, for the node that was popped and the level behind its own
unfoldable pub offer : Identifier → ℕ → ObjectNode → Walk → Walk
offer current new n w =
    if has_id current n.dependencies && improves new (level_of (node_id n) w.assigned)
    then record w {
      assigned = set_level (node_id n) new w.assigned;
      queue = w.queue ++ (node_id n, new) ∷ [];
    }
    else w

unfoldable pub offer_all : Identifier → ℕ → Nodes → Walk → Walk
unfolding offer
offer_all current new [] w = w
offer_all current new (n ∷ ns) w = offer_all current new ns (offer current new n w)

-- One round of the `while` loop, after `(current, level)` left the queue
unfoldable pub round : Nodes → Identifier → ℕ → Queue → Walk → Walk
unfolding offer_all append_level set_level level_of
round nodes current level rest w = offer_all current (suc level) nodes (record {
  levels = append_level level current w.levels;
  assigned = set_level current level w.assigned;
  queue = rest;
})

-- The `while` loop on fuel; `none` says that the fuel ran out.
unfoldable pub walk : Nodes → ℕ → Walk → Option Walk
walk nodes zero w = none
walk nodes (suc n) w = elim w.queue [
  | [] ↦ some w
  | (current, level) ∷ rest ↦ walk nodes n (round nodes current level rest w)
]

-- `[levels_dict[level] for level in sorted(levels_dict)]`, by insertion
unfoldable pub insert_level : {A : Type 0} → ℕ × List A → Levels A → Levels A
insert_level (l, xs) [] = (l, xs) ∷ []
insert_level (l, xs) ((k, ys) ∷ ls) =
    if leb l k then (l, xs) ∷ (k, ys) ∷ ls else (k, ys) ∷ insert_level (l, xs) ls

unfoldable pub sort_levels : {A : Type 0} → Levels A → Levels A
unfolding insert_level
sort_levels [] = []
sort_levels (l ∷ ls) = insert_level l (sort_levels ls)

abbrev pub members : {A : Type 0} → Levels A → List (List A)
members [] = []
members ((l, xs) ∷ ls) = xs ∷ members ls

abbrev pub start : Nodes → Walk
start nodes = record { levels = []; assigned = []; queue = roots nodes }

-- `traverse_graph`: no node enters the queue twice, so the number of nodes bounds the rounds.
unfoldable pub traverse_graph : Nodes → Option (List (List Identifier))
unfolding walk round roots sort_levels
traverse_graph nodes = elim (walk nodes (suc (length nodes)) (start nodes)) [
  | none ↦ none
  | some w ↦ some (members (sort_levels w.levels))
]
