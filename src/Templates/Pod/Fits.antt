-- ===== src/Templates/Pod/Fits.antt =====
-- For which containers piceli/k8s/templates/auxiliary/pod.py and container.py generate a template.
use pyceli.Base.{
  String, List, [], ◌∷◌, ◌++◌, All, All-map, Option, none, some, Option-cases, ◌≡◌, ◌≢◌, ◌↔◌, ◌⊎◌,
  refl, sym, subst, inl, inr, arith,
}
use pyceli.Manager.Client.{Outcome, ok}
use pyceli.Templates.Raise.{◌>>=◌, bind_returns}
use pyceli.Templates.EnvVars.{
  EnvVar, EnvSource, from_config_map, from_secret, unexpected, get_env_from_source,
}
use pyceli.Templates.Volume.{
  VolumeMount, pvc, pvc_template, config_map, secret, empty_dir, unsupported, PodVolume,
  secret_keys,
}
use pyceli.Templates.Container.{
  Container, ContainerValue, collect, claim_of, mount_of, named_volumes, get_volume_mounts,
}
use pyceli.Templates.Container.Spec.{
  ContainerSpec, own_env, container_env, container_mounts, get_container_spec, filled,
}
use pyceli.Templates.Container.Mounts.{volume_claim-volume_mount}

abbrev pub Returns : {A : Type 0} → Outcome A → Type 0
Returns {A = A} o = (a : A) × (o ≡ ok a)

-- `r` returns, and so does what follows.
pub Returns-bind :
    {A B : Type 0} (r : Outcome A) (k : A → Outcome B)
    → Returns r
    → ((a : A) → r ≡ ok a → Returns (k a))
    → Returns (r >>= k)
Returns-bind r k (a, e) f = subst (λ o. Returns (o >>= k)) (sym e) (f a e)

-- Each source of variables is a ConfigMap or a Secret.
abbrev pub HasSources : Container → Type 0
HasSources c = All (λ s. s ≢ unexpected) c.env_sources

-- There is an entry.
abbrev pub IsFilled {ℓ} : {A : Type ℓ} → Option (List A) → Type 0
IsFilled none = ⊥
IsFilled (some []) = ⊥
IsFilled (some (item ∷ more)) = Unit

-- The volume is of a class that is supported, and a secret has an entry in one of its two dictionaries.
abbrev pub IsMountable : VolumeMount → Type 0
IsMountable (pvc path c sub) = Unit
IsMountable (pvc_template path t sub) = Unit
IsMountable (config_map path c mode) = Unit
IsMountable (secret path s mode) = IsFilled s.encoded ⊎ IsFilled s.string_data
IsMountable (empty_dir path name) = Unit
IsMountable (unsupported path) = ⊥

-- The volume that is listed under a name can be mounted.
abbrev pub IsClaimable : String × VolumeMount → Type 0
IsClaimable (name, v) = IsMountable v

-- Two claims of one name are the same.
abbrev pub Agree : PodVolume → PodVolume → Type 0
Agree v w = v.name ≡ w.name → v ≡ w

abbrev pub ClaimsAgree : String × VolumeMount → String × VolumeMount → Type 0
ClaimsAgree nv other = (v w : PodVolume) → claim_of nv ≡ ok v → claim_of other ≡ ok w → Agree v w

abbrev pub Pairwise {ℓ} : {A : Type ℓ} → (A → A → Type 0) → List A → Type 0
Pairwise R [] = Unit
Pairwise R (x ∷ xs) = All (R x) xs × Pairwise R xs

-- The volumes that the containers list
abbrev pub all_volumes : List Container → List (String × VolumeMount)
all_volumes [] = []
all_volumes (c ∷ more) = named_volumes c ++ all_volumes more

secret_keys-Returns :
    (name : String) (plain encoded : Option (List (String × String)))
    → (IsFilled encoded ⊎ IsFilled plain)
      ↔ Returns (secret_keys (record { name = name; string_data = plain; encoded = encoded }))
secret_keys-Returns name plain (some (item ∷ more)) = (λ h. (_, refl), λ h. inl tt)
secret_keys-Returns name (some (item ∷ more)) none = (λ h. (_, refl), λ h. inr tt)
secret_keys-Returns name (some (item ∷ more)) (some []) = (λ h. (_, refl), λ h. inr tt)
secret_keys-Returns name none none = (λ h. ground (arith, h), λ (found, e). absurd (ground arith))
secret_keys-Returns name none (some []) =
    (λ h. ground (arith, h), λ (found, e). absurd (ground arith))
secret_keys-Returns name (some []) none =
    (λ h. ground (arith, h), λ (found, e). absurd (ground arith))
secret_keys-Returns name (some []) (some []) =
    (λ h. ground (arith, h), λ (found, e). absurd (ground arith))

-- A volume can be mounted exactly if its claim is made.
pub claim_of-Returns : (nv : String × VolumeMount) → IsClaimable nv ↔ Returns (claim_of nv)
claim_of-Returns (name, pvc path c sub) = (λ h. (_, refl), λ h. tt)
claim_of-Returns (name, pvc_template path t sub) = (λ h. (_, refl), λ h. tt)
claim_of-Returns (name, config_map path c mode) = (λ h. (_, refl), λ h. tt)
claim_of-Returns (name, empty_dir path own) = (λ h. (_, refl), λ h. tt)
claim_of-Returns (name, unsupported path) = (λ h. absurd h, λ (w, e). absurd (ground arith))
claim_of-Returns (name, secret path s mode) =
    let (there, back) = secret_keys-Returns s.name s.string_data s.encoded in
    (
      λ h. Returns-bind (secret_keys s) _ (there h) (λ found e. (_, refl)),
      λ (w, e). let (found, d, last) = bind_returns (secret_keys s) _ e in back (found, d),
    )

get_env_from_source-Returns :
    (ss : List EnvSource) → All (λ s. s ≢ unexpected) ss ↔ Returns (get_env_from_source ss)
unfolding get_env_from_source
get_env_from_source-Returns [] = (λ h. ([], refl), λ h. tt)
get_env_from_source-Returns (from_config_map c ∷ more) =
    let (there, back) = get_env_from_source-Returns more in
    (
      λ h. Returns-bind (get_env_from_source more) _ (there h.1) (λ after e. (_, refl)),
      λ (envs, e).
          let (after, d, rest) = bind_returns (get_env_from_source more) _ e in
          (λ q. ground arith, back (after, d)),
    )
get_env_from_source-Returns (from_secret c ∷ more) =
    let (there, back) = get_env_from_source-Returns more in
    (
      λ h. Returns-bind (get_env_from_source more) _ (there h.1) (λ after e. (_, refl)),
      λ (envs, e).
          let (after, d, rest) = bind_returns (get_env_from_source more) _ e in
          (λ q. ground arith, back (after, d)),
    )
get_env_from_source-Returns (unexpected ∷ more) =
    (λ h. absurd (h.0 refl), λ (envs, e). absurd (ground arith))

pub collect-Returns :
    {A B : Type 0} (f : A → Outcome B) (xs : List A)
    → All (λ x. Returns (f x)) xs
    → Returns (collect f xs)
unfolding collect
collect-Returns f [] h = ([], refl)
collect-Returns f (x ∷ xs) h =
    Returns-bind (f x) _ h.0
      (λ y e. Returns-bind (collect f xs) _ (collect-Returns f xs h.1) (λ ys d. (y ∷ ys, refl)))

own_env-Returns :
    (env : List EnvVar) (own : Option (List (String × ContainerValue))) → Returns (own_env env own)
unfolding own_env
own_env-Returns env none = (env, refl)
own_env-Returns env (some own) = (_, refl)

container_mounts-Returns :
    (c : Container)
    → All (λ nv. Returns (mount_of nv)) (named_volumes c)
    → Returns (container_mounts c)
unfolding container_mounts get_volume_mounts
container_mounts-Returns c h = elim (Option-cases (filled c.volumes)) [
  | inl e ↦ (none, rw (container_mounts, e) refl)
  | inr (volumes, e) ↦
      let (mounts, d) = collect-Returns mount_of (named_volumes c) h in
      (some mounts, rw (container_mounts, e, get_volume_mounts, d) refl)
]

-- A container has a spec if its sources are known and its volumes can be claimed.
pub get_container_spec-Returns :
    (c : Container)
    → HasSources c
    → All IsClaimable (named_volumes c)
    → Returns (get_container_spec c)
unfolding get_container_spec container_env
get_container_spec-Returns c h k =
    Returns-bind (container_env c) _
      (Returns-bind (get_env_from_source c.env_sources) _
        ((get_env_from_source-Returns c.env_sources).0 h)
        (λ env e. own_env-Returns env (filled c.env)))
      (λ env e.
        Returns-bind (container_mounts c) _
          (container_mounts-Returns c (
            All-map (named_volumes c)
              (λ (name, v) claimable.
                let (w, claimed) = (claim_of-Returns (name, v)).0 claimable in
                let (m, mounted, same) = volume_claim-volume_mount name v w claimed in (m, mounted))
              k))
          (λ mounts d. (_, refl)))

pub get_container_spec-HasSources :
    (c : Container) (spec : ContainerSpec) → get_container_spec c ≡ ok spec → HasSources c
unfolding get_container_spec container_env
get_container_spec-HasSources c spec h =
    let (env, e, rest) = bind_returns (container_env c) _ h in
    let (found, d, last) = bind_returns (get_env_from_source c.env_sources) _ e in
    (get_env_from_source-Returns c.env_sources).1 (found, d)
