-- ===== src/Deploy/Strategy/Sorted.antt =====
-- `sorted(classified_objects)`: the keys rise, and the classes stay what they are.
use pyceli.Base.{
  ℕ, suc, ◌<◌, ◌≤◌, leb, ltb, ◌==◌, ◌≡◌, ◌≢◌, refl, inl, inr, Bool-cases, ◌||◌, List, [], ◌∷◌, map,
  arith, if◌then◌else◌, All, Any,
}
use pyceli.Objects.{Identifier, has_id, K8sObject, identifier}
use pyceli.Deploy.Levels.{Levels, insert_level, sort_levels, members}
use pyceli.Deploy.Strategy.Built.{in_levels}
use pyceli.Deploy.Strategy.Classes.{Differs, KeysDiffer, Rises}

All-insert_level :
    (P : ℕ × List K8sObject → Type 0) (e : ℕ × List K8sObject) (ls : Levels K8sObject)
    → P e
    → All P ls
    → All P (insert_level e ls)
unfolding insert_level
All-insert_level P (l, os) [] p h = (p, tt)
All-insert_level P (l, os) ((j, ps) ∷ ls) p h = elim (Bool-cases (leb l j)) [
  | inl le ↦ rw le (p, h)
  | inr gt ↦ rw gt (h.0, All-insert_level P (l, os) ls p h.1)
]

pub All-sort_levels :
    (P : ℕ × List K8sObject → Type 0) (ls : Levels K8sObject) → All P ls → All P (sort_levels ls)
unfolding sort_levels
All-sort_levels P [] h = tt
All-sort_levels P (e ∷ ls) h = All-insert_level P e (sort_levels ls) h.0 (All-sort_levels P ls h.1)

Rises-insert_level :
    (low l : ℕ) (os : List K8sObject) (ls : Levels K8sObject)
    → low ≤ l
    → Differs l ls
    → Rises low ls
    → Rises low (insert_level (l, os) ls)
unfolding insert_level
Rises-insert_level low l os [] le d r = (le, tt)
Rises-insert_level low l os ((j, ps) ∷ ls) le d r = elim (Bool-cases (leb l j)) [
  | inl before ↦
      let above : suc l ≤ j = elim (Bool-cases (l == j)) [
        | inl same ↦ absurd (d.0 (ground arith))
        | inr other ↦ ground arith
      ] in
      rw before (le, (above, r.1))
  | inr behind ↦ rw behind (r.0, Rises-insert_level (suc j) l os ls (ground arith) d.1 r.1)
]

pub Rises-sort_levels : (ls : Levels K8sObject) → KeysDiffer ls → Rises 0 (sort_levels ls)
unfolding sort_levels
Rises-sort_levels [] d = tt
Rises-sort_levels ((l, os) ∷ ls) d =
    Rises-insert_level 0 l os (sort_levels ls) (omega arith) (All-sort_levels (λ e. e.0 ≢ l) ls d.0)
      (Rises-sort_levels ls d.1)

in_levels-insert_level :
    (l : ℕ) (os : List K8sObject) (ls : Levels K8sObject) (id : Identifier)
    → in_levels id (members (insert_level (l, os) ls))
      ≡ (has_id id (map identifier os) || in_levels id (members ls))
unfolding insert_level
in_levels-insert_level l os [] id = refl
in_levels-insert_level l os ((j, ps) ∷ ls) id = ground (arith, in_levels-insert_level l os ls id)

pub in_levels-sort_levels :
    (ls : Levels K8sObject) (id : Identifier)
    → in_levels id (members (sort_levels ls)) ≡ in_levels id (members ls)
unfolding sort_levels
in_levels-sort_levels [] id = refl
in_levels-sort_levels ((l, os) ∷ ls) id =
    ground (arith, in_levels-insert_level l os (sort_levels ls) id, in_levels-sort_levels ls id)

-- How many keys are below the level
abbrev pub keys_below : ℕ → Levels K8sObject → ℕ
keys_below l [] = 0
keys_below l ((j, os) ∷ ls) = if ltb j l then suc (keys_below l ls) else keys_below l ls

pub keys_below_mono : (ls : Levels K8sObject) (i j : ℕ) → i ≤ j → keys_below i ls ≤ keys_below j ls
keys_below_mono [] i j le = omega arith
keys_below_mono ((l, os) ∷ ls) i j le = ground (arith, keys_below_mono ls i j le)

pub keys_below-lt :
    (ls : Levels K8sObject) (i j : ℕ)
    → Any (λ e. e.0 ≡ i) ls
    → i < j
    → keys_below i ls < keys_below j ls
keys_below-lt [] i j h lt = absurd h
keys_below-lt ((l, os) ∷ ls) i j (inl e) lt = ground (arith, keys_below_mono ls i j (omega arith))
keys_below-lt ((l, os) ∷ ls) i j (inr h) lt = ground (arith, keys_below-lt ls i j h lt)

-- No key of a list whose keys rise from `low` on is below `low`.
pub keys_below-Rises :
    (low l : ℕ) (ls : Levels K8sObject) → l ≤ low → Rises low ls → keys_below l ls ≡ 0
keys_below-Rises low l [] le r = refl
keys_below-Rises low l ((j, os) ∷ ls) le r =
    ground (arith, r.0, keys_below-Rises (suc j) l ls (omega (arith, r.0)) r.1)
