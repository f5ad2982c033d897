-- ===== src/Deploy/Levels/Keys.antt =====
-- The keys of `levels_dict`: they are in order when they are sorted, so that the sort keeps them.
use pyceli.Base.{
  ℕ, zero, suc, ◌+◌, ◌≤◌, ◌<◌, ◌≡◌, refl, inl, inr, Bool-cases, length, List, [], ◌∷◌, arith, ◌==◌,
}
use pyceli.Deploy.Levels.{Levels, append_level, insert_level, sort_levels, members, at_level}

-- The keys of `levels_dict` are the numbers from `k` on.
abbrev pub Counted : {A : Type 0} → ℕ → Levels A → Type 0
Counted k [] = Unit
Counted k ((l, xs) ∷ ls) = (l ≡ k) × Counted (suc k) ls

pub Counted-append_level :
    {A : Type 0} (k l : ℕ) (a : A) (ls : Levels A)
    → Counted k ls
    → k ≤ l
    → l ≤ k + length ls
    → Counted k (append_level l a ls)
      × (length ls ≤ length (append_level l a ls))
      × (l < k + length (append_level l a ls))
unfolding append_level
Counted-append_level k l a [] c low high = ((omega arith, tt), omega arith, omega arith)
Counted-append_level k l a ((j, xs) ∷ ls) c low high = elim (Bool-cases (j == l)) [
  | inl same ↦ rw same ((c.0, c.1), omega arith, ground arith)
  | inr other ↦
      let (c', le, lt) = Counted-append_level (suc k) l a ls c.1 (ground arith) (omega arith) in
      rw other ((c.0, c'), omega arith, omega arith)
]

pub sort_levels-Counted : {A : Type 0} (k : ℕ) (ls : Levels A) → Counted k ls → sort_levels ls ≡ ls
unfolding sort_levels insert_level
sort_levels-Counted k [] c = refl
sort_levels-Counted {A = A} k ((l, xs) ∷ ls) c =
    rw (sort_levels-Counted (suc k) ls c.1) (in_front ls c.1)
  where
    in_front : (ls : Levels A) → Counted (suc k) ls → insert_level (l, xs) ls ≡ (l, xs) ∷ ls
    in_front [] h = refl
    in_front ((j, ys) ∷ ls) h = ground (arith, c.0, h.0)

-- `levels[i]`
abbrev pub nth_level : {A : Type 0} → ℕ → List (List A) → List A
nth_level i [] = []
nth_level zero (xs ∷ xss) = xs
nth_level (suc i) (xs ∷ xss) = nth_level i xss

pub nth_level-members :
    {A : Type 0} (k i : ℕ) (ls : Levels A)
    → Counted k ls
    → nth_level i (members ls) ≡ at_level (k + i) ls
unfolding at_level
nth_level-members k i [] c = refl
nth_level-members k zero ((l, xs) ∷ ls) c = ground (arith, c.0)
nth_level-members k (suc i) ((l, xs) ∷ ls) c =
    ground (arith, c.0, nth_level-members (suc k) i ls c.1)
