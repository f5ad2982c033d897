-- ===== src/Deploy/Levels/Steps.antt =====
-- Chains of dependencies down to a node without any, and the lists that `traverse_graph` keeps.
use pyceli.Base.{
  ℕ, suc, ◌≡◌, refl, ◌⊎◌, inl, inr, true, ◌||◌, ◌↔◌, List, [], ◌∷◌, ◌++◌, arith, if◌then◌else◌, Any,
  ◌==◌,
}
use pyceli.Objects.{Identifier, id_eq, id_eq_iff, has_id}
use pyceli.Deploy.Graph.{ObjectNode, Nodes, node_id}
use pyceli.Deploy.Graph.Keyed.{IsNode}
use pyceli.Deploy.Levels.{Levels, Queue, is_root, append_level, at_level}

-- A chain of `l` dependencies leads from the node to one that has none.
pub data Steps (nodes : Nodes) : Identifier → ℕ → Type 0 where
  root : (n : ObjectNode) → IsNode n nodes → is_root n ≡ true → Steps nodes (node_id n) 0
  above :
      (n : ObjectNode) {d : Identifier} {l : ℕ}
      → IsNode n nodes
      → has_id d n.dependencies ≡ true
      → Steps nodes d l
      → Steps nodes (node_id n) (suc l)

abbrev pub InQueue : Identifier → ℕ → Queue → Type 0
InQueue id l q = Any (λ e. (e.0 ≡ id) × (e.1 ≡ l)) q

abbrev pub Placed : Identifier → ℕ → Levels Identifier → Type 0
Placed id l ls = has_id id (at_level l ls) ≡ true

pub Steps-zero :
    {nodes : Nodes} {id : Identifier} {l : ℕ}
    → Steps nodes id l
    → (l ≡ 0)
    → (n : ObjectNode) × IsNode n nodes × (is_root n ≡ true) × (node_id n ≡ id)
Steps-zero (root n listed r) e = (n, listed, r, refl)
Steps-zero (above n listed h p) e = absurd (omega arith)

pub InQueue-last : (q : Queue) (id : Identifier) (l : ℕ) → InQueue id l (q ++ (id, l) ∷ [])
InQueue-last [] id l = inl (refl, refl)
InQueue-last (e ∷ q) id l = inr (InQueue-last q id l)

pub InQueue-more : (q r : Queue) (id : Identifier) (l : ℕ) → InQueue id l q → InQueue id l (q ++ r)
InQueue-more [] r id l h = absurd h
InQueue-more (e ∷ q) r id l (inl h) = inl h
InQueue-more (e ∷ q) r id l (inr h) = inr (InQueue-more q r id l h)

pub InQueue-append :
    (q : Queue) (x id : Identifier) (k l : ℕ)
    → InQueue id l (q ++ (x, k) ∷ [])
    → InQueue id l q ⊎ ((x ≡ id) × (k ≡ l))
InQueue-append [] x id k l (inl h) = inr h
InQueue-append [] x id k l (inr h) = absurd h
InQueue-append (e ∷ q) x id k l (inl h) = inl (inl h)
InQueue-append (e ∷ q) x id k l (inr h) = elim (InQueue-append q x id k l h) [
  | inl a ↦ inl (inr a)
  | inr b ↦ inr b
]

pub has_id-append :
    (xs : List Identifier) (x id : Identifier)
    → has_id id (xs ++ x ∷ []) ≡ (has_id id xs || id_eq x id)
unfolding has_id
has_id-append [] x id = ground arith
has_id-append (y ∷ xs) x id = ground (arith, has_id-append xs x id)

at_level-append_level :
    (l k : ℕ) (id : Identifier) (ls : Levels Identifier)
    → at_level k (append_level l id ls)
      ≡ (if l == k then at_level k ls ++ id ∷ [] else at_level k ls)
unfolding at_level append_level
at_level-append_level l k id [] = ground arith
at_level-append_level l k id ((j, xs) ∷ ls) = ground (arith, at_level-append_level l k id ls)

pub Placed-append_level :
    (l k : ℕ) (id x : Identifier) (ls : Levels Identifier)
    → Placed x k (append_level l id ls) ↔ (Placed x k ls ⊎ ((id ≡ x) × (l ≡ k)))
unfolding has_id
Placed-append_level l k id x ls =
    rw (at_level-append_level l k id ls)
      (ground (arith, has_id-append (at_level k ls) id x, id_eq_iff id x))
