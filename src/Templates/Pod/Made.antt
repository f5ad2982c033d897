-- ===== src/Templates/Pod/Made.antt =====
-- The claims that the loops over the containers gather, and what the containers mount.
use pyceli.Base.{
  String, List, [], ◌∷◌, All, Any, All-Any, All-map, Option, none, some, Option-cases, ◌≡◌, ◌∙◌,
  sym, subst, ap, inl, inr, true,
}
use pyceli.Manager.Client.{ok}
use pyceli.Templates.Raise.{bind_returns, ok-injective}
use pyceli.Templates.Dict.{get_item}
use pyceli.Templates.Volume.{VolumeMount, PodVolume, Mount}
use pyceli.Templates.Container.{
  Container, claim_of, mount_of, named_volumes, get_volume_claims, get_volume_mounts, or_empty,
}
use pyceli.Templates.Container.Spec.{
  ContainerSpec, get_container_spec, container_env, container_mounts, filled,
}
use pyceli.Templates.Container.Mounts.{collect-All, collect-Any, volume_claim-volume_mount}
use pyceli.Templates.Pod.Claims.{Extends, Grows, Grows-refl, Grows-trans, add_claims-Grows}
use pyceli.Templates.Pod.{Claims, ModelLib, add_claims, spec_and_claims, specs_and_claims}

-- Each volume that the container lists has a claim and a mount of one name, and the claim is there.
abbrev pub IsClaimed : Claims → String × VolumeMount → Type 0
IsClaimed claims nv =
    (w : PodVolume) × (m : Mount) × (claim_of nv ≡ ok w)
    × (mount_of nv ≡ ok m)
    × (m.name ≡ w.name)
    × (get_item w.name claims ≡ some w)

abbrev pub NamesClaims : Claims → ContainerSpec → Type 0
NamesClaims claims c =
    All (λ m. (w : PodVolume) × (w.name ≡ m.name) × (get_item w.name claims ≡ some w))
      (or_empty c.volume_mounts)

abbrev pub IsMade : Claims → Container → Type 0
IsMade claims c = All (IsClaimed claims) (named_volumes c)

pub IsMade-Extends : (a b : Claims) → Extends a b → (c : Container) → IsMade a c → IsMade b c
IsMade-Extends a b g c h =
    All-map (named_volumes c) (λ nv (w, m, e, f, n, there). (w, m, e, f, n, g w.name w there)) h

pub NamesClaims-Extends :
    (a b : Claims) → Extends a b → (c : ContainerSpec) → NamesClaims a c → NamesClaims b c
NamesClaims-Extends a b g c h =
    All-map (or_empty c.volume_mounts) (λ m (w, n, there). (w, n, g w.name w there)) h

-- The mounts of the spec are those of the volumes that the container lists.
container_mounts-Any :
    (c : Container) (mounts : Option (List Mount))
    → container_mounts c ≡ ok mounts
    → All (λ m. Any (λ nv. mount_of nv ≡ ok m) (named_volumes c)) (or_empty mounts)
unfolding container_mounts get_volume_mounts
container_mounts-Any c mounts h = elim (Option-cases (filled c.volumes)) [
  | inl e ↦
      let nothing : none ≡ mounts = ok-injective (rw (container_mounts, e) at h) in
      subst (λ ms. All (λ m. Any (λ nv. mount_of nv ≡ ok m) (named_volumes c)) (or_empty ms))
        nothing tt
  | inr (volumes, e) ↦
      let (found, collected, last) =
        bind_returns (get_volume_mounts c) _ (rw (container_mounts, e) at h) in
      subst (λ ms. All (λ m. Any (λ nv. mount_of nv ≡ ok m) (named_volumes c)) (or_empty ms))
        (ok-injective last) (collect-Any mount_of (named_volumes c) found collected)
]

get_container_spec-mounts :
    (c : Container) (spec : ContainerSpec)
    → get_container_spec c ≡ ok spec
    → container_mounts c ≡ ok spec.volume_mounts
unfolding get_container_spec
get_container_spec-mounts c spec h =
    let (env, first, rest) = bind_returns (container_env c) _ h in
    let (mounts, second, last) = bind_returns (container_mounts c) _ rest in
    second ∙ ap (λ s. ok s.volume_mounts) (ok-injective last)

claims-IsMade :
    (c : Container) (volumes : List PodVolume) (last : Claims)
    → get_volume_claims c ≡ ok volumes
    → All (λ v. get_item v.name last ≡ some v) volumes
    → IsMade last c
unfolding get_volume_claims
claims-IsMade c volumes last h there =
    All-map (named_volumes c)
      (λ (name, v) (w, e, listed).
        let (m, f, same) = volume_claim-volume_mount name v w e in
        (
          w,
          m,
          e,
          f,
          same,
          All-Any volumes there listed
              (λ u found equal. ap (λ x. get_item x.name last) (sym equal) ∙ found ∙ ap some equal),
        ))
      (collect-All claim_of (named_volumes c) volumes h)

IsMade-NamesClaims :
    (c : Container) (spec : ContainerSpec) (last : Claims)
    → get_container_spec c ≡ ok spec
    → IsMade last c
    → NamesClaims last spec
IsMade-NamesClaims c spec last h made =
    All-map (or_empty spec.volume_mounts)
      (λ m mounted. All-Any (named_volumes c) made mounted (λ nv (w, n, e, f, same, there) g.
        let equal : n ≡ m = ok-injective (sym f ∙ g) in
        (w, sym same ∙ ap (λ x. x.name) equal, there)))
      (container_mounts-Any c spec.volume_mounts (get_container_spec-mounts c spec h))

module _ (lib : ModelLib)
    (same_sound : (a b : PodVolume) → lib.same_volume a b ≡ true → a ≡ b) where
  spec_and_claims-IsMade :
      (claims : Claims) (c : Container) (spec : ContainerSpec) (after : Claims)
      → spec_and_claims lib claims c ≡ ok (spec, after)
      → Grows claims after × IsMade after c × NamesClaims after spec
  unfolding spec_and_claims get_volume_claims
  spec_and_claims-IsMade claims c spec after h =
      let (made, e₁, r₁) = bind_returns (get_container_spec c) _ h in
      let (volumes, e₂, r₂) = bind_returns (get_volume_claims c) _ r₁ in
      let (last, e₃, r₃) = bind_returns (add_claims lib claims volumes) _ r₂ in
      let (grows, there) = add_claims-Grows lib same_sound claims volumes last e₃ in
      let is_made = claims-IsMade c volumes last e₂ there in
      let names = IsMade-NamesClaims c made last e₁ is_made in
      subst (λ p. Grows claims p.1 × IsMade p.1 c × NamesClaims p.1 p.0) (ok-injective r₃)
        (grows, is_made, names)

  pub specs_and_claims-IsMade :
      (claims : Claims) (cs : List Container) (specs : List ContainerSpec) (after : Claims)
      → specs_and_claims lib claims cs ≡ ok (specs, after)
      → Grows claims after × All (IsMade after) cs × All (NamesClaims after) specs
  unfolding specs_and_claims
  specs_and_claims-IsMade claims [] specs after h =
      subst (λ p. Grows claims p.1 × All (IsMade p.1) [] × All (NamesClaims p.1) p.0)
        (ok-injective h) (Grows-refl claims, tt, tt)
  specs_and_claims-IsMade claims (c ∷ more) specs after h =
      let ((spec, mid), e₁, r₁) = bind_returns (spec_and_claims lib claims c) _ h in
      let ((others, last), e₂, r₂) = bind_returns (specs_and_claims lib mid more) _ r₁ in
      let (g, made, names) = spec_and_claims-IsMade claims c spec mid e₁ in
      let (gs, mades, all) = specs_and_claims-IsMade mid more others last e₂ in
      subst (λ p. Grows claims p.1 × All (IsMade p.1) (c ∷ more) × All (NamesClaims p.1) p.0)
        (ok-injective r₂)
        (
          Grows-trans g gs,
          (IsMade-Extends mid last gs.extends c made, mades),
          (NamesClaims-Extends mid last gs.extends spec names, all),
        )
