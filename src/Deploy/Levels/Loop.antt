-- ===== src/Deploy/Levels/Loop.antt =====
-- The `while` loop of `traverse_graph`: what one round does, and that the loop ends.
use pyceli.Base.{
  ℕ, zero, suc, ◌≤◌, ◌≡◌, refl, sym, ◌∙◌, ap, subst, ◌⊎◌, inl, inr, [], ◌∷◌, ◌++◌, some, arith,
  if◌then◌else◌, All, All-append, List-cases,
}
use pyceli.Objects.{Identifier, id_eq, id_eq_iff}
use pyceli.Deploy.Graph.{ObjectNode, Nodes}
use pyceli.Deploy.Graph.Keyed.{IsNode}
use pyceli.Deploy.Levels.{Walk, Assigned, Queue, level_of, set_level, offer, offer_all, round, walk}

pub level_of-set_level :
    (id j : Identifier) (l : ℕ) (xs : Assigned)
    → level_of j (set_level id l xs) ≡ (if id_eq id j then some l else level_of j xs)
unfolding level_of set_level
level_of-set_level id j l [] = refl
level_of-set_level id j l ((x, k) ∷ xs) =
    ground (arith, level_of-set_level id j l xs, id_eq_iff x id, id_eq_iff x j, id_eq_iff id j)

-- The queue holds nodes of level `k`, then nodes of the next level.
abbrev pub Band : ℕ → Queue → Type 0
Band k [] = Unit
Band k ((id, j) ∷ q) = ((j ≡ k) × Band k q) ⊎ ((j ≡ suc k) × All (λ e. e.1 ≡ suc k) q)

abbrev pub Bound : ℕ → Assigned → Type 0
Bound k xs = (id : Identifier) (l : ℕ) → level_of id xs ≡ some l → l ≤ suc k

-- What holds before each round
abbrev pub Steady : Walk → Type 0
Steady w = (k : ℕ) × Band k w.queue × Bound k w.assigned

Band-flat : (k : ℕ) (q : Queue) → All (λ e. e.1 ≡ k) q → Band k q
Band-flat k [] h = tt
Band-flat k ((id, j) ∷ q) h = inl (h.0, Band-flat k q h.1)

pub Band-append : (k : ℕ) (q : Queue) (id : Identifier) → Band k q → Band k (q ++ (id, suc k) ∷ [])
Band-append k [] id h = inr (refl, tt)
Band-append k ((x, j) ∷ q) id (inl h) = inl (h.0, Band-append k q id h.1)
Band-append k ((x, j) ∷ q) id (inr h) = inr (h.0, All-append (λ e. e.1 ≡ suc k) q _ h.1 (refl, tt))

-- Behind the first entry of the queue no entry is lower, and none is more than one level higher.
pub Steady-pop :
    (w : Walk) (current : Identifier) (level : ℕ) (rest : Queue)
    → (w.queue ≡ (current, level) ∷ rest)
    → Steady w
    → Band level rest × Bound level w.assigned
Steady-pop w current level rest e (k, band, bound) = elim (subst (Band k) e band) [
  | inl (same, b) ↦
      (subst (λ l. Band l rest) (sym same) b, subst (λ l. Bound l w.assigned) (sym same) bound)
  | inr (next, b) ↦ (
    subst (λ l. Band l rest) (sym next) (Band-flat (suc k) rest b),
    λ id l h. ground (arith, bound id l h),
  )
]

-- The rules for the inner loop and for the outer one
pub offer_all_keeps :
    (P : Walk → Type 0) (current : Identifier) (new : ℕ) (nodes : Nodes) (w : Walk)
    → ((n : ObjectNode) → IsNode n nodes → (v : Walk) → P v → P (offer current new n v))
    → P w
    → P (offer_all current new nodes w)
unfolding offer_all
offer_all_keeps P current new [] w h p = p
offer_all_keeps P current new (n ∷ nodes) w h p =
    offer_all_keeps P current new nodes (offer current new n w) (λ m listed. h m (inr listed))
      (h n (inl refl) w p)

pub walk_done : (nodes : Nodes) (n : ℕ) (w : Walk) → w.queue ≡ [] → walk nodes (suc n) w ≡ some w
unfolding walk
walk_done nodes n w e =
    subst
      (λ q.
        (elim q [
          | [] ↦ some w
          | (current, level) ∷ rest ↦ walk nodes n (round nodes current level rest w)
        ])
        ≡ some w)
      (sym e) refl

pub walk_on :
    (nodes : Nodes) (n : ℕ) (w : Walk) (current : Identifier) (level : ℕ) (rest : Queue)
    → (w.queue ≡ (current, level) ∷ rest)
    → walk nodes (suc n) w ≡ walk nodes n (round nodes current level rest w)
unfolding walk
walk_on nodes n w current level rest e =
    ap {A = Queue}
      (λ q. elim q [
        | [] ↦ some w
        | (current, level) ∷ rest ↦ walk nodes n (round nodes current level rest w)
      ])
      e

pub walk_keeps :
    (P : Walk → Type 0) (nodes : Nodes) (n : ℕ) (w v : Walk)
    → ((u : Walk) (current : Identifier) (level : ℕ) (rest : Queue)
        → (u.queue ≡ (current, level) ∷ rest)
        → P u
        → P (round nodes current level rest u))
    → P w
    → walk nodes n w ≡ some v
    → P v × (v.queue ≡ [])
unfolding walk
walk_keeps P nodes zero w v h p e = absurd (ground arith)
walk_keeps P nodes (suc n) w v h p e = elim (List-cases w.queue) [
  | inl empty ↦
      let done = walk_done nodes n w empty in
      let same : w ≡ v = cc in (subst P same p, subst (λ u. u.queue ≡ []) same empty)
  | inr ((current, level), rest, front) ↦
      walk_keeps P nodes n (round nodes current level rest w) v h (h w current level rest front p)
        (sym (walk_on nodes n w current level rest front) ∙ e)
]
