-- ===== src/Compare/Action/Decision.antt =====
-- Which action `determine_update_action` decides on.
use pyceli.Base.{
  String, ◌≡◌, ◌≢◌, refl, ◌↔◌, inl, inr, Bool, true, false, List, [], ◌∷◌, arith, subst, All, Any,
}
use pyceli.Compare.Value.{Fields}
use pyceli.Compare.Comparer.{
  UpdateAction, equals, needs_patch, needs_replacement, PathComparison, ok, QuantityLib,
}
use pyceli.Compare.Comparer.Fuel.{bind_returns}
use pyceli.Compare.Comparer.Sound.{ok-injective}
use pyceli.Compare.Action.{
  requires_replacement, any_requires, filter_spec, CompareResult, action_for, find_differences,
  determine_update_action,
}

-- The action agrees with the considered differences of the result.
pub record IsDecided (kind : String) (r : CompareResult) : Type 0 where
  pub equal : (r.update_action ≡ equals) ↔ (r.differences.considered ≡ [])
  pub replace :
      (r.update_action ≡ needs_replacement)
      ↔ Any (λ diff. requires_replacement kind diff ≡ ok true) r.differences.considered
  pub patch : (r.update_action ≡ needs_patch) ↔ (
      (r.differences.considered ≢ [])
      × All (λ diff. requires_replacement kind diff ≡ ok false) r.differences.considered)

any_requires-true :
    (kind : String) (diffs : List PathComparison)
    → any_requires kind diffs ≡ ok true
    → Any (λ diff. requires_replacement kind diff ≡ ok true) diffs
unfolding any_requires
any_requires-true kind [] h = ground arith
any_requires-true kind (diff ∷ diffs) h = ground (arith, any_requires-true kind diffs)

any_requires-false :
    (kind : String) (diffs : List PathComparison)
    → any_requires kind diffs ≡ ok false
    → All (λ diff. requires_replacement kind diff ≡ ok false) diffs
unfolding any_requires
any_requires-false kind [] h = tt
any_requires-false kind (diff ∷ diffs) h = ground (arith, any_requires-false kind diffs)

not-Any-All :
    (kind : String) (diffs : List PathComparison)
    → All (λ diff. requires_replacement kind diff ≡ ok false) diffs
    → ¬ Any (λ diff. requires_replacement kind diff ≡ ok true) diffs
not-Any-All kind [] h a = a
not-Any-All kind (diff ∷ diffs) h (inl a) = cc
not-Any-All kind (diff ∷ diffs) h (inr a) = not-Any-All kind diffs h.1 a

-- What `IsDecided` says of the two fields that it reads
Decides : String → UpdateAction → List PathComparison → Type 0
Decides kind action considered =
    ((action ≡ equals) ↔ (considered ≡ []))
    × ((action ≡ needs_replacement)
        ↔ Any (λ diff. requires_replacement kind diff ≡ ok true) considered)
    × ((action ≡ needs_patch)
        ↔ ((considered ≢ []) × All (λ diff. requires_replacement kind diff ≡ ok false) considered))

action_for-Decides :
    (kind : String) (required : Bool) (cs : List PathComparison)
    → any_requires kind cs ≡ ok required
    → Decides kind (action_for required cs) cs
unfolding Decides
action_for-Decides kind true [] e = unfold any_requires in absurd (ground arith)
action_for-Decides kind true (c ∷ cs) e =
    let found = any_requires-true kind (c ∷ cs) e in
    (
      (λ h. cc, λ h. cc),
      (λ h. found, λ h. refl),
      (λ h. cc, λ (some_diff, all). absurd (not-Any-All kind (c ∷ cs) all found)),
    )
action_for-Decides kind false [] e =
    ((λ h. refl, λ h. refl), (λ h. cc, λ h. absurd h), (λ h. cc, λ h. absurd (h.0 refl)))
action_for-Decides kind false (c ∷ cs) e =
    let all = any_requires-false kind (c ∷ cs) e in
    (
      (λ h. cc, λ h. cc),
      (λ h. cc, λ h. absurd (not-Any-All kind (c ∷ cs) all h)),
      (λ h. (λ empty. cc, all), λ h. refl),
    )

-- If `determine_update_action` returns, its action is `equals` exactly if no difference is considered,
-- `needs_replacement` exactly if some considered difference requires replacement, and `needs_patch`
-- exactly if there are considered differences and none of them requires replacement.
pub determine_update_action-IsDecided :
    (lib : QuantityLib) (kind : String) (desired existing : Fields) (r : CompareResult)
    → determine_update_action lib kind desired existing ≡ ok r
    → IsDecided kind r
unfolding determine_update_action Decides
determine_update_action-IsDecided lib kind desired existing r e =
    let (d, e₁, rest) =
      bind_returns (find_differences lib (filter_spec desired) (filter_spec existing)) _ e in
    let (required, e₂, last) = bind_returns (any_requires kind d.considered) _ rest in
    let (equal, replace, patch) = action_for-Decides kind required d.considered e₂ in
    subst (IsDecided kind) (ok-injective last)
      (record { equal = equal; replace = replace; patch = patch })
