-- ===== src/Templates/Pod/Pairs.antt =====
-- Pairs of volumes that containers list, and pairs of their claims.
use pyceli.Base.{
  String, List, [], ◌∷◌, ◌++◌, All, All-Any, All-append, All-fill, All-both, All-map,
  append-All_left, append-All_right, some, ◌≡◌, ◌∙◌, sym, subst, ap, arith,
}
use pyceli.Manager.Client.{ok}
use pyceli.Templates.Raise.{bind_returns, ok-injective}
use pyceli.Templates.Dict.{get_item}
use pyceli.Templates.Volume.{VolumeMount, PodVolume}
use pyceli.Templates.Container.{Container, collect, claim_of, named_volumes}
use pyceli.Templates.Container.Mounts.{collect-Any}
use pyceli.Templates.Pod.{Claims}
use pyceli.Templates.Pod.Made.{IsClaimed}
use pyceli.Templates.Pod.Suits.{Suits, SuitsMount}
use pyceli.Templates.Pod.Fits.{Agree, ClaimsAgree, Pairwise, all_volumes}

module _ {A : Type 0} (R : A → A → Type 0) where
  pub Pairwise-append_cross :
      (xs ys : List A) → Pairwise R (xs ++ ys) → All (λ y. All (λ x. R x y) xs) ys
  Pairwise-append_cross [] ys h = All-fill ys (λ y. tt)
  Pairwise-append_cross (x ∷ xs) ys h =
      All-both ys (λ y a b. (a, b)) (append-All_right (R x) xs ys h.0)
        (Pairwise-append_cross xs ys h.1)

  pub Pairwise-append_left : (xs ys : List A) → Pairwise R (xs ++ ys) → Pairwise R xs
  Pairwise-append_left [] ys h = tt
  Pairwise-append_left (x ∷ xs) ys h =
      (append-All_left (R x) xs ys h.0, Pairwise-append_left xs ys h.1)

  pub Pairwise-append_right : (xs ys : List A) → Pairwise R (xs ++ ys) → Pairwise R ys
  Pairwise-append_right [] ys h = h
  Pairwise-append_right (x ∷ xs) ys h = Pairwise-append_right xs ys h.1

pub collect-Suits :
    (claims : Claims) (nvs : List (String × VolumeMount)) (ws : List PodVolume)
    → collect claim_of nvs ≡ ok ws
    → All (SuitsMount claims) nvs
    → All (Suits claims) ws
collect-Suits claims nvs ws e h =
    All-map ws (λ w listed. All-Any nvs h listed (λ nv suits claimed. suits w claimed))
      (collect-Any claim_of nvs ws e)

pub collect-Agree :
    (nvs : List (String × VolumeMount)) (ws : List PodVolume)
    → collect claim_of nvs ≡ ok ws
    → Pairwise ClaimsAgree nvs
    → Pairwise Agree ws
unfolding collect
collect-Agree [] ws e h = subst (Pairwise Agree) (ok-injective e) tt
collect-Agree (nv ∷ nvs) ws e h =
    let (w, first, r) = bind_returns (claim_of nv) _ e in
    let (zs, rest, last) = bind_returns (collect claim_of nvs) _ r in
    subst (Pairwise Agree) (ok-injective last) (
      All-map zs
          (λ z listed. All-Any nvs h.0 listed (λ other agree claimed. agree w z first claimed))
          (collect-Any claim_of nvs zs rest),
      collect-Agree nvs zs rest h.1,
    )

pub all_volumes-All :
    (P : String × VolumeMount → Type 0) (cs : List Container)
    → All (λ c. All P (named_volumes c)) cs
    → All P (all_volumes cs)
all_volumes-All P [] h = tt
all_volumes-All P (c ∷ more) h =
    All-append P (named_volumes c) (all_volumes more) h.0 (all_volumes-All P more h.1)

pub IsClaimed-ClaimsAgree :
    (claims : Claims) (nvs : List (String × VolumeMount))
    → All (IsClaimed claims) nvs
    → Pairwise ClaimsAgree nvs
IsClaimed-ClaimsAgree claims [] h = tt
IsClaimed-ClaimsAgree claims (nv ∷ nvs) ((u, m, e, f, n, there), h) = (
  All-map nvs
      (λ other (u₂, m₂, e₂, f₂, n₂, there₂) v w d d₂ same.
        let v_is : u ≡ v = ok-injective (sym e ∙ d) in
        let w_is : u₂ ≡ w = ok-injective (sym e₂ ∙ d₂) in
        let v_there : get_item v.name claims ≡ some v =
          subst (λ x. get_item x.name claims ≡ some x) v_is there in
        let w_there : get_item w.name claims ≡ some w =
          subst (λ x. get_item x.name claims ≡ some x) w_is there₂ in
        let equal : some v ≡ some w = sym v_there ∙ ap (λ k. get_item k claims) same ∙ w_there in
        ground (arith, equal))
      h,
  IsClaimed-ClaimsAgree claims nvs h,
)
