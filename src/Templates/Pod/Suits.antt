-- ===== src/Templates/Pod/Suits.antt =====
-- When the claims of a container can be added to those that are there.
use pyceli.Base.{
  String, str_eq, Bool-cases, List, [], ◌∷◌, All, Any, All-both, some, Option-cases, ◌≡◌, ◌∙◌, ◌↔◌,
  ◌⊎◌, refl, sym, subst, ap, inl, inr, true, arith, eq_iff,
}
use pyceli.Manager.Client.{ok}
use pyceli.Templates.Raise.{bind_returns, ok-injective}
use pyceli.Templates.Dict.{set_item, get_item, get_item-set_item}
use pyceli.Templates.Volume.{VolumeMount, PodVolume}
use pyceli.Templates.Container.{claim_of}
use pyceli.Templates.Pod.{Claims, ModelLib, add_claim, add_claims}
use pyceli.Templates.Pod.Fits.{Returns, Returns-bind, Agree, Pairwise}

-- What the claims have under the name of a volume is that volume.
abbrev pub Suits : Claims → PodVolume → Type 0
Suits claims v = (w : PodVolume) → get_item v.name claims ≡ some w → w ≡ v

abbrev pub SuitsMount : Claims → String × VolumeMount → Type 0
SuitsMount claims nv = (v : PodVolume) → claim_of nv ≡ ok v → Suits claims v

set_item-origin :
    (claims : Claims) (v : PodVolume) (name : String) (w : PodVolume)
    → get_item name (set_item v.name v claims) ≡ some w
    → (get_item name claims ≡ some w) ⊎ ((v ≡ w) × (w.name ≡ name))
set_item-origin claims v name w there =
    let step = get_item-set_item {A = PodVolume} name v.name v claims in
    elim (Bool-cases (str_eq v.name name)) [
      | inl e ↦
          let found : some v ≡ some w = sym (rw e at step) ∙ there in
          let same : v ≡ w = ground (arith, found) in
          inr (same, ap (λ x. x.name) (sym same) ∙ (eq_iff v.name name).0 e)
      | inr e ↦ inl (sym (rw e at step) ∙ there)
    ]

set_item-Suits :
    (claims : Claims) (v u : PodVolume)
    → Suits claims u
    → Agree v u
    → Suits (set_item v.name v claims) u
set_item-Suits claims v u h agree w there = elim (set_item-origin claims v u.name w there) [
  | inl old ↦ h w old
  | inr (same, named) ↦ sym same ∙ agree (ap (λ x. x.name) same ∙ named)
]

module _ (lib : ModelLib)
    (same_iff : (a b : PodVolume) → (lib.same_volume a b ≡ true) ↔ (a ≡ b)) where
  -- The claims behind the step are those before it, or those with the volume set.
  add_claim-cases :
      (claims : Claims) (v : PodVolume) (after : Claims)
      → add_claim lib claims v ≡ ok after
      → (claims ≡ after) ⊎ (set_item v.name v claims ≡ after)
  unfolding add_claim
  add_claim-cases claims v after h = elim (Option-cases (get_item v.name claims)) [
    | inl e ↦ inr (ok-injective (rw (add_claim, e) at h))
    | inr (there, e) ↦ elim (Bool-cases (lib.same_volume there v)) [
      | inl s ↦ inl (ok-injective (rw (add_claim, e, s) at h))
      | inr s ↦ absurd (ground (arith, h, e, s))
    ]
  ]

  add_claim-Returns :
      (claims : Claims) (v : PodVolume) → Suits claims v → Returns (add_claim lib claims v)
  unfolding add_claim
  add_claim-Returns claims v h = elim (Option-cases (get_item v.name claims)) [
    | inl e ↦ (set_item v.name v claims, rw (add_claim, e) refl)
    | inr (there, e) ↦ (claims, rw (add_claim, e, (same_iff there v).1 (h there e)) refl)
  ]

  pub add_claims-Returns :
      (claims : Claims) (vs : List PodVolume)
      → All (Suits claims) vs
      → Pairwise Agree vs
      → Returns (add_claims lib claims vs)
  unfolding add_claims
  add_claims-Returns claims [] h k = (claims, refl)
  add_claims-Returns claims (v ∷ more) h k =
      Returns-bind (add_claim lib claims v) _ (add_claim-Returns claims v h.0) (λ after e.
        add_claims-Returns after more
          (elim (add_claim-cases claims v after e) [
            | inl kept ↦ subst (λ d. All (Suits d) more) kept h.1
            | inr set ↦
                subst (λ d. All (Suits d) more) set
                  (All-both more (set_item-Suits claims v) h.1 k.0)
          ])
          k.1)

  pub add_claims-origin :
      (claims : Claims) (vs : List PodVolume) (after : Claims) (name : String) (w : PodVolume)
      → add_claims lib claims vs ≡ ok after
      → get_item name after ≡ some w
      → (get_item name claims ≡ some w) ⊎ (Any (λ v. v ≡ w) vs × (w.name ≡ name))
  unfolding add_claims
  add_claims-origin claims [] after name w h there =
      inl (subst (λ d. get_item name d ≡ some w) (sym (ok-injective h)) there)
  add_claims-origin claims (v ∷ more) after name w h there =
      let (mid, first, rest) = bind_returns (add_claim lib claims v) _ h in
      elim (add_claims-origin mid more after name w rest there) [
        | inr (listed, named) ↦ inr (inr listed, named)
        | inl before ↦ elim (add_claim-cases claims v mid first) [
          | inl kept ↦ inl (subst (λ d. get_item name d ≡ some w) (sym kept) before)
          | inr set ↦
              elim (set_item-origin claims v name w
                (subst (λ d. get_item name d ≡ some w) (sym set) before)) [
                  | inl old ↦ inl old
                  | inr (new, named) ↦ inr (inl new, named)
                ]
        ]
      ]
