-- ===== src/Templates/Pod/Volumes.antt =====
-- The volumes of a pod, and what its containers mount.
use pyceli.Base.{
  String, List, [], ◌∷◌, ◌++◌, All-append, map, All, Any, Any-map, All-map, ◌≡◌, ◌∙◌, refl, sym,
  subst, ap, ap₂, true,
}
use pyceli.Manager.Client.{ok}
use pyceli.Templates.Raise.{bind_returns, ok-injective}
use pyceli.Templates.Dict.{values, Distinct, map-values, get_item-Any}
use pyceli.Templates.Volume.{VolumeMount, PodVolume, Mount}
use pyceli.Templates.Container.{Container, claim_of, mount_of, named_volumes, or_empty}
use pyceli.Templates.Container.Spec.{ContainerSpec, or_none}
use pyceli.Templates.Pod.Claims.{volume_name_of, IsNamed}
use pyceli.Templates.Pod.Made.{
  NamesClaims, IsMade, IsMade-Extends, NamesClaims-Extends, specs_and_claims-IsMade,
}
use pyceli.Templates.Pod.{Pod, PodTemplate, Claims, ModelLib, specs_and_claims, get_pod_spec}

-- What a generated pod must have for the volume that a container lists under a name
abbrev pub Mounted : List PodVolume → String × VolumeMount → Type 0
Mounted volumes nv =
    (w : PodVolume) × (m : Mount) × (claim_of nv ≡ ok w)
    × (mount_of nv ≡ ok m)
    × (m.name ≡ w.name)
    × Any (λ v. v ≡ w) volumes

-- Each mount of the container names a volume.
abbrev pub NamesVolumes : List PodVolume → ContainerSpec → Type 0
NamesVolumes volumes c = All (λ m. Any (λ v. v.name ≡ m.name) volumes) (or_empty c.volume_mounts)

IsMade-Mounted :
    (claims : Claims) (c : Container)
    → IsMade claims c
    → All (Mounted (values claims)) (named_volumes c)
IsMade-Mounted claims c h =
    All-map (named_volumes c)
      (λ nv (w, m, e, f, n, there). (w, m, e, f, n, get_item-Any w.name w claims there)) h

NamesClaims-NamesVolumes :
    (claims : Claims) (c : ContainerSpec) → NamesClaims claims c → NamesVolumes (values claims) c
NamesClaims-NamesVolumes claims c h =
    All-map (or_empty c.volume_mounts)
      (λ m (w, n, there).
        Any-map (values claims) (λ v e. ap (λ x. x.name) e ∙ n)
          (get_item-Any w.name w claims there))
      h

or_none-or_empty : {A : Type 0} (xs : List A) → or_empty (or_none xs) ≡ xs
or_none-or_empty [] = refl
or_none-or_empty (x ∷ xs) = refl

-- What is asked of the containers of a template, as listed and as generated, and of its volumes
pub record MountsVolumes (listed : List Container) (specs : List ContainerSpec)
    (volumes : List PodVolume) : Type 0 where
  pub distinct : Distinct (map volume_name_of volumes)
  pub mounted : All (λ c. All (Mounted volumes) (named_volumes c)) listed
  pub named : All (NamesVolumes volumes) specs

claims-MountsVolumes :
    (claims : Claims) (listed : List Container) (specs : List ContainerSpec)
    → IsNamed claims
    → All (IsMade claims) listed
    → All (NamesClaims claims) specs
    → MountsVolumes listed specs (values claims)
claims-MountsVolumes claims listed specs (distinct, named) made names = record {
  distinct = subst Distinct (sym (map-values volume_name_of claims named)) distinct;
  mounted = All-map listed (IsMade-Mounted claims) made;
  named = All-map specs (NamesClaims-NamesVolumes claims) names;
}

-- When get_pod_spec returns a template, and volumes that the client library takes for equal are equal: the
-- names of its volumes are distinct; each volume that a container or an init container lists has a claim
-- and a mount of one name, and that claim is a volume of the template; each mount in the generated
-- containers names a volume of the template.
pub get_pod_spec-MountsVolumes :
    (lib : ModelLib)
    → ((a b : PodVolume) → lib.same_volume a b ≡ true → a ≡ b)
    → (p : Pod) (t : PodTemplate) → get_pod_spec lib p ≡ ok t
    → MountsVolumes
        (p.containers ++ p.init_containers)
        (t.containers ++ or_empty t.init_containers)
        (or_empty t.volumes)
unfolding get_pod_spec
get_pod_spec-MountsVolumes lib same_sound p t h =
    let ((specs, claims), e₁, r₁) = bind_returns (specs_and_claims lib [] p.containers) _ h in
    let ((inits, all), e₂, r₂) =
      bind_returns (specs_and_claims lib claims p.init_containers) _ r₁ in
    let (g₁, made₁, names₁) =
      specs_and_claims-IsMade lib same_sound [] p.containers specs claims e₁ in
    let (g₂, made₂, names₂) =
      specs_and_claims-IsMade lib same_sound claims p.init_containers inits all e₂ in
    let kept = All-map p.containers (λ c. IsMade-Extends claims all g₂.extends c) made₁ in
    let named = All-map specs (λ c. NamesClaims-Extends claims all g₂.extends c) names₁ in
    subst
      (λ u.
        MountsVolumes (p.containers ++ p.init_containers)
          (u.containers ++ or_empty u.init_containers) (or_empty u.volumes))
      (ok-injective r₂)
      (subst
        (λ (q : List ContainerSpec × List PodVolume).
          MountsVolumes (p.containers ++ p.init_containers) (specs ++ q.0) q.1)
        (ap₂ (λ is vs. (is, vs)) (sym (or_none-or_empty inits))
          (sym (or_none-or_empty (values all))))
        (claims-MountsVolumes all (p.containers ++ p.init_containers) (specs ++ inits)
          (g₂.named (g₁.named (tt, tt)))
          (All-append (IsMade all) p.containers p.init_containers kept made₂)
          (All-append (NamesClaims all) specs inits named names₂)))
