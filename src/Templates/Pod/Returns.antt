-- ===== src/Templates/Pod/Returns.antt =====
-- A template is generated exactly for the pods that fit.
use pyceli.Base.{
  String, List, [], ◌∷◌, ◌++◌, All, All-Any, All-append, All-fill, All-both, All-map,
  append-All_left, append-All_right, ◌≡◌, ◌∙◌, ◌↔◌, refl, sym, ap, inl, inr, true, arith,
}
use pyceli.Manager.Client.{ok}
use pyceli.Templates.Raise.{bind_returns, bind_ok, ok-injective}
use pyceli.Templates.Dict.{get_item}
use pyceli.Templates.Volume.{VolumeMount, PodVolume}
use pyceli.Templates.Container.{Container, collect, claim_of, named_volumes, get_volume_claims}
use pyceli.Templates.Container.Spec.{ContainerSpec, get_container_spec}
use pyceli.Templates.Container.Mounts.{collect-Any}
use pyceli.Templates.Pod.{
  Pod, PodTemplate, Claims, ModelLib, add_claims, spec_and_claims, specs_and_claims, get_pod_spec,
}
use pyceli.Templates.Pod.Made.{IsClaimed, IsMade, IsMade-Extends, specs_and_claims-IsMade}
use pyceli.Templates.Pod.Suits.{SuitsMount, add_claims-Returns, add_claims-origin}
use pyceli.Templates.Pod.Pairs.{
  Pairwise-append_cross, Pairwise-append_left, Pairwise-append_right, collect-Suits, collect-Agree,
  all_volumes-All, IsClaimed-ClaimsAgree,
}
use pyceli.Templates.Pod.Fits.{
  Returns, Returns-bind, HasSources, IsClaimable, ClaimsAgree, Pairwise, all_volumes,
  claim_of-Returns, collect-Returns, get_container_spec-Returns, get_container_spec-HasSources,
}

-- For which containers a pod has a template
pub record Fits (cs : List Container) : Type 0 where
  pub sources : All HasSources cs
  pub claimable : All IsClaimable (all_volumes cs)
  pub agree : Pairwise ClaimsAgree (all_volumes cs)

claims-Fits :
    (claims : Claims) (cs : List Container) → All HasSources cs → All (IsMade claims) cs → Fits cs
claims-Fits claims cs sources made =
    let claimed = all_volumes-All (IsClaimed claims) cs made in
    record {
      sources = sources;
      claimable =
          All-map (all_volumes cs) (λ nv (w, m, e, f, n, there). (claim_of-Returns nv).1 (w, e))
            claimed;
      agree = IsClaimed-ClaimsAgree claims (all_volumes cs) claimed;
    }

module _ (lib : ModelLib)
    (same_iff : (a b : PodVolume) → (lib.same_volume a b ≡ true) ↔ (a ≡ b)) where
  -- Behind a container the claims still suit what the later containers list.
  add_claims-SuitsMount :
      (claims : Claims) (nvs later : List (String × VolumeMount)) (vs : List PodVolume)
      (after : Claims)
      → collect claim_of nvs ≡ ok vs
      → add_claims lib claims vs ≡ ok after
      → Pairwise ClaimsAgree (nvs ++ later)
      → All (SuitsMount claims) later
      → All (SuitsMount after) later
  add_claims-SuitsMount claims nvs later vs after e h agree suits =
      All-both later
        (λ nv old cross v claimed w there.
          elim (add_claims-origin lib same_iff claims vs after v.name w h there) [
            | inl before ↦ old v claimed w before
            | inr (listed, named) ↦
                All-Any vs (collect-Any claim_of nvs vs e) listed (λ u source same.
                  All-Any {P = λ other. ClaimsAgree other nv} nvs cross source
                    (λ other agrees found.
                      sym same ∙ agrees u v found claimed (ap (λ x. x.name) same ∙ named)))
          ])
        suits (Pairwise-append_cross ClaimsAgree nvs later agree)

  spec_and_claims-claims :
      (claims : Claims) (c : Container) (spec : ContainerSpec) (after : Claims)
      → spec_and_claims lib claims c ≡ ok (spec, after)
      → (get_container_spec c ≡ ok spec)
        × ((vs : List PodVolume) × (collect claim_of (named_volumes c) ≡ ok vs)
            × (add_claims lib claims vs ≡ ok after))
  unfolding spec_and_claims get_volume_claims
  spec_and_claims-claims claims c spec after h =
      let (made, e₁, r₁) = bind_returns (get_container_spec c) _ h in
      let (vs, e₂, r₂) = bind_returns (get_volume_claims c) _ r₁ in
      let (last, e₃, r₃) = bind_returns (add_claims lib claims vs) _ r₂ in
      let same = ok-injective r₃ in
      (e₁ ∙ ap (λ p. ok p.0) same, (vs, e₂, e₃ ∙ ap (λ p. ok p.1) same))

  specs_and_claims-Returns :
      (claims : Claims) (cs : List Container)
      → Fits cs
      → All (SuitsMount claims) (all_volumes cs)
      → Returns (specs_and_claims lib claims cs)
  unfolding specs_and_claims spec_and_claims get_volume_claims
  specs_and_claims-Returns claims [] fits suits = (_, refl)
  specs_and_claims-Returns claims (c ∷ more) fits suits =
      let nvs = named_volumes c in
      let later = all_volumes more in
      let ours = append-All_left IsClaimable nvs later fits.claimable in
      let claimed = All-map nvs (λ nv h. (claim_of-Returns nv).0 h) ours in
      let suit = append-All_left (SuitsMount claims) nvs later suits in
      let agree = Pairwise-append_left ClaimsAgree nvs later fits.agree in
      Returns-bind (spec_and_claims lib claims c) _
        (Returns-bind (get_container_spec c) _ (get_container_spec-Returns c fits.sources.0 ours)
          (λ spec made.
            Returns-bind (get_volume_claims c) _ (collect-Returns claim_of nvs claimed) (λ vs e.
              Returns-bind (add_claims lib claims vs) _
                (add_claims-Returns lib same_iff claims vs (collect-Suits claims nvs vs e suit)
                  (collect-Agree nvs vs e agree))
                (λ after d. (_, refl)))))
        (λ (spec, after) made.
          let (specced, (vs, e, d)) = spec_and_claims-claims claims c spec after made in
          let rest : Fits more = record {
            sources = fits.sources.1;
            claimable = append-All_right IsClaimable nvs later fits.claimable;
            agree = Pairwise-append_right ClaimsAgree nvs later fits.agree;
          } in
          Returns-bind (specs_and_claims lib after more) _
            (specs_and_claims-Returns after more rest (
              add_claims-SuitsMount claims nvs later vs after e d fits.agree
                (append-All_right (SuitsMount claims) nvs later suits)))
            (λ r d. (_, refl)))

  specs_and_claims-append :
      (claims : Claims) (xs ys : List Container)
      → Returns (specs_and_claims lib claims (xs ++ ys))
      → (r : List ContainerSpec × Claims) × (specs_and_claims lib claims xs ≡ ok r)
        × Returns (specs_and_claims lib r.1 ys)
  unfolding specs_and_claims
  specs_and_claims-append claims [] ys h = (([], claims), refl, h)
  specs_and_claims-append claims (c ∷ xs) ys (last, h) =
      let ((spec, mid), e, rest) = bind_returns (spec_and_claims lib claims c) _ h in
      let (others, d, r) = bind_returns (specs_and_claims lib mid (xs ++ ys)) _ rest in
      let ((specs, after), f, more) = specs_and_claims-append mid xs ys (others, d) in
      ((spec ∷ specs, after), bind_ok _ _ e (bind_ok _ _ f refl), more)

  specs_and_claims-HasSources :
      (claims : Claims) (cs : List Container) (r : List ContainerSpec × Claims)
      → specs_and_claims lib claims cs ≡ ok r
      → All HasSources cs
  unfolding specs_and_claims
  specs_and_claims-HasSources claims [] r h = tt
  specs_and_claims-HasSources claims (c ∷ more) r h =
      let ((spec, mid), e, rest) = bind_returns (spec_and_claims lib claims c) _ h in
      let (others, d, last) = bind_returns (specs_and_claims lib mid more) _ rest in
      (
        get_container_spec-HasSources c spec (spec_and_claims-claims claims c spec mid e).0,
        specs_and_claims-HasSources mid more others d,
      )

  get_pod_spec-Fits :
      (p : Pod) (t : PodTemplate)
      → get_pod_spec lib p ≡ ok t
      → Fits (p.containers ++ p.init_containers)
  unfolding get_pod_spec
  get_pod_spec-Fits p t h =
      let sound : (a b : PodVolume) → lib.same_volume a b ≡ true → a ≡ b =
        λ a b. (same_iff a b).0 in
      let ((specs, claims), e₁, r₁) = bind_returns (specs_and_claims lib [] p.containers) _ h in
      let ((inits, all), e₂, r₂) =
        bind_returns (specs_and_claims lib claims p.init_containers) _ r₁ in
      let (g₁, made₁, names₁) = specs_and_claims-IsMade lib sound [] p.containers specs claims e₁ in
      let (g₂, made₂, names₂) =
        specs_and_claims-IsMade lib sound claims p.init_containers inits all e₂ in
      let kept = All-map p.containers (λ c. IsMade-Extends claims all g₂.extends c) made₁ in
      claims-Fits all (p.containers ++ p.init_containers)
        (All-append HasSources p.containers p.init_containers
          (specs_and_claims-HasSources [] p.containers (specs, claims) e₁)
          (specs_and_claims-HasSources claims p.init_containers (inits, all) e₂))
        (All-append (IsMade all) p.containers p.init_containers kept made₂)

  -- Where two volumes are equal to the client library exactly if they are the same, get_pod_spec returns
  -- exactly if each environment source of its containers and init containers is a ConfigMap or a Secret,
  -- each volume that they list is a claim, a claim template, a ConfigMap, an empty directory, or a secret
  -- with an entry in its data or its string data, and any two claims of one name are the same.
  pub get_pod_spec-Fits_iff :
      (p : Pod) → Returns (get_pod_spec lib p) ↔ Fits (p.containers ++ p.init_containers)
  unfolding get_pod_spec get_item
  get_pod_spec-Fits_iff p = (
    λ (t, h). get_pod_spec-Fits p t h,
    λ fits.
        let every = specs_and_claims-Returns [] (p.containers ++ p.init_containers) fits (
          All-fill (all_volumes (p.containers ++ p.init_containers))
            (λ nv v e w there. absurd (ground (arith, there)))) in
        let ((specs, claims), first, second) =
          specs_and_claims-append [] p.containers p.init_containers every in
        let ((inits, all), third) = second in (_, bind_ok _ _ first (bind_ok _ _ third refl)),
  )
