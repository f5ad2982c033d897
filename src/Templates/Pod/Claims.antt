-- ===== src/Templates/Pod/Claims.antt =====
-- How the claims of a pod grow.
use pyceli.Base.{
  String, Bool-cases, List, [], ◌∷◌, All, some, Option-cases, ◌≡◌, ◌∙◌, subst, ap, inl, inr, true,
  arith, eq_iff,
}
use pyceli.Manager.Client.{ok}
use pyceli.Templates.Raise.{bind_returns, ok-injective}
use pyceli.Templates.Dict.{
  set_item, get_item, keys, Distinct, Named, get_item-set_item, set_item-Distinct, set_item-Named,
  set_item-get_item,
}
use pyceli.Templates.Volume.{PodVolume}
use pyceli.Templates.Pod.{Claims, ModelLib, add_claim, add_claims}

abbrev pub volume_name_of : PodVolume → String
volume_name_of v = v.name

-- Each volume stands under its name, and no name is there twice.
abbrev pub IsNamed : Claims → Type 0
IsNamed claims = Distinct (keys claims) × Named volume_name_of claims

-- Each volume that was there is there still.
abbrev pub Extends : Claims → Claims → Type 0
Extends before after =
    (name : String) (w : PodVolume) → get_item name before ≡ some w → get_item name after ≡ some w

-- The step from the first claims to the second
pub record Grows (before after : Claims) : Type 0 where
  pub extends : Extends before after
  pub named : IsNamed before → IsNamed after

pub Grows-refl : (claims : Claims) → Grows claims claims
Grows-refl claims = record { extends = λ name w e. e; named = λ h. h }

pub Grows-trans : {a b c : Claims} → Grows a b → Grows b c → Grows a c
Grows-trans g h = record {
  extends = λ name w e. h.extends name w (g.extends name w e);
  named = λ n. h.named (g.named n);
}

module _ (lib : ModelLib)
    (same_sound : (a b : PodVolume) → lib.same_volume a b ≡ true → a ≡ b) where
  add_claim-Grows :
      (claims : Claims) (v : PodVolume) (after : Claims)
      → add_claim lib claims v ≡ ok after
      → Grows claims after × (get_item v.name after ≡ some v)
  unfolding add_claim
  add_claim-Grows claims v after h = elim (Option-cases (get_item v.name claims)) [
    | inl e ↦
        let set : set_item v.name v claims ≡ after = ok-injective (rw (add_claim, e) at h) in
        subst (λ d. Grows claims d × (get_item v.name d ≡ some v)) set
          (
            record {
              extends = λ name w there.
                  get_item-set_item name v.name v claims ∙ ground (arith, eq_iff v.name name);
              named = λ n. (
                set_item-Distinct v.name v claims n.0,
                set_item-Named volume_name_of v claims n.1,
              );
            },
            set_item-get_item v.name v claims,
          )
    | inr (there, e) ↦ elim (Bool-cases (lib.same_volume there v)) [
      | inl s ↦
          let kept : claims ≡ after = ok-injective (rw (add_claim, e, s) at h) in
          subst (λ d. Grows claims d × (get_item v.name d ≡ some v)) kept
            (Grows-refl claims, e ∙ ap some (same_sound there v s))
      | inr s ↦ absurd (ground (arith, h, e, s))
    ]
  ]

  pub add_claims-Grows :
      (claims : Claims) (vs : List PodVolume) (after : Claims)
      → add_claims lib claims vs ≡ ok after
      → Grows claims after × All (λ v. get_item v.name after ≡ some v) vs
  unfolding add_claims
  add_claims-Grows claims [] after h =
      (subst (Grows claims) (ok-injective h) (Grows-refl claims), tt)
  add_claims-Grows claims (v ∷ more) after h =
      let (mid, first, rest) = bind_returns (add_claim lib claims v) _ h in
      let (g, there) = add_claim-Grows claims v mid first in
      let (gs, all) = add_claims-Grows mid more after rest in
      (Grows-trans g gs, (gs.extends v.name v there, all))
