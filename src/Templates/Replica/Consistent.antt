-- ===== src/Templates/Replica/Consistent.antt =====
-- What belongs together among the objects of a manager.
use pyceli.Base.{
  String, List, [], ◌∷◌, ◌++◌, map, All, All-append, Option, none, some, ◌≡◌, ◌∙◌, ◌⊎◌, refl, subst,
  ap, ap₂, inl, inr, arith,
}
use pyceli.Manager.Client.{ok}
use pyceli.Templates.Raise.{bind_returns, ok-injective}
use pyceli.Templates.Pod.{PodTemplate, ModelLib, get_pod_spec}
use pyceli.Templates.Replica.{
  FieldLib, Hpa, Vpa, ReplicaClass, deployment, stateful_set, ReplicaManager, ReplicaObject,
  replica_object, get_replica_manager, target_kind, make_hpa, make_vpa,
}
use pyceli.Templates.Replica.Objects.{ReplicaItem, service_items, hpa_items, vpa_items, get_objects}
use pyceli.Templates.Replica.GoesWith.{
  item_kind, asked_kinds, GoesWith, get_replica_manager-template, service_items-GoesWith,
  hpa_items-GoesWith, vpa_items-GoesWith,
}

-- Only the object of a deployment has a kind that an autoscaler can name.
abbrev pub IsScalable : ReplicaManager → Type 0
IsScalable r = (r.replica_class ≡ deployment) ⊎ ((r.hpa ≡ none) × (r.vpa ≡ none))

pub record Consistent (r : ReplicaManager) (o : ReplicaObject) (items : List ReplicaItem)
    : Type 0 where
  pub kinds : map item_kind items ≡ asked_kinds r
  pub together : All (GoesWith r o) items
  pub selected : o.match_labels ≡ o.template.labels
  pub scalable : IsScalable r

kinds-append :
    (xs ys : List ReplicaItem) → map item_kind (xs ++ ys) ≡ map item_kind xs ++ map item_kind ys
kinds-append [] ys = refl
kinds-append (x ∷ xs) ys = ap (λ ks. item_kind x ∷ ks) (kinds-append xs ys)

module _ (lib : ModelLib) (fields : FieldLib)
    (required_some : (A : Type 0) (o : Option A) (a : A)
      → fields.required o ≡ ok a
      → o ≡ some a) where
  -- The object of a stateful set has no kind.
  unkinded :
      (r : ReplicaManager) (c : ReplicaClass) (t : PodTemplate) (kind : String)
      → (replica_object lib r c t).kind ≡ some kind
      → c ≡ deployment
  unkinded r deployment t kind h = refl
  unkinded r stateful_set t kind h = absurd (ground arith)

  target_kind-deployment :
      (r : ReplicaManager) (kind : String)
      → target_kind lib fields r ≡ ok kind
      → r.replica_class ≡ deployment
  unfolding target_kind get_replica_manager
  target_kind-deployment r kind h =
      let (o, made, needed) = bind_returns (get_replica_manager lib r) _ h in
      let (t, spec, last) = bind_returns (get_pod_spec lib r.pod) _ made in
      unkinded r r.replica_class t kind
        (ap (λ x. x.kind) (ok-injective last) ∙ required_some String o.kind kind needed)

  items-IsScalable :
      (r : ReplicaManager) (hpa : Option Hpa) (vpa : Option Vpa) (hpas vpas : List ReplicaItem)
      → hpa_items lib fields r hpa ≡ ok hpas
      → vpa_items lib fields r vpa ≡ ok vpas
      → (r.replica_class ≡ deployment) ⊎ ((hpa ≡ none) × (vpa ≡ none))
  unfolding hpa_items vpa_items make_hpa make_vpa
  items-IsScalable r none none hpas vpas h k = inr (refl, refl)
  items-IsScalable r (some a) vpa hpas vpas h k =
      let (m, made, last) = bind_returns (make_hpa lib fields r a) _ h in
      let (kind, targeted, same) = bind_returns (target_kind lib fields r) _ made in
      inl (target_kind-deployment r kind targeted)
  items-IsScalable r none (some a) hpas vpas h k =
      let (m, made, last) = bind_returns (make_vpa lib fields r a) _ k in
      let (kind, targeted, same) = bind_returns (target_kind lib fields r) _ made in
      inl (target_kind-deployment r kind targeted)

  -- When get of a replica manager returns, where a field that must have a value takes a value only: the
  -- objects are that of the manager, then a service, a horizontal and a vertical autoscaler, each exactly
  -- if it was asked for; the selector of the service, and that of the object, are the labels of the
  -- template, and its ports those of the containers; each autoscaler names the kind and the name of the
  -- object; and no autoscaler was asked for unless the manager is a deployment.
  pub get_objects-Consistent :
      (r : ReplicaManager) (items : List ReplicaItem)
      → get_objects lib fields r ≡ ok items
      → (o : ReplicaObject) × (get_replica_manager lib r ≡ ok o) × Consistent r o items
  unfolding get_objects
  get_objects-Consistent r items h =
      let (o, made, e₁) = bind_returns (get_replica_manager lib r) _ h in
      let (services, served, e₂) =
        bind_returns (service_items lib fields r r.create_service) _ e₁ in
      let (hpas, scaled, e₃) = bind_returns (hpa_items lib fields r r.hpa) _ e₂ in
      let (vpas, sized, last) = bind_returns (vpa_items lib fields r r.vpa) _ e₃ in
      let (all₁, kinds₁) =
        service_items-GoesWith lib fields required_some r o r.create_service services made served in
      let (all₂, kinds₂) = hpa_items-GoesWith lib fields required_some r o r.hpa hpas made scaled in
      let (all₃, kinds₃) = vpa_items-GoesWith lib fields required_some r o r.vpa vpas made sized in
      let (spec, name, selected) = get_replica_manager-template lib fields required_some r o made in
      (
        o,
        made,
        subst (Consistent r o) (ok-injective last) (record {
          kinds =
              ap (λ ks. "manager" ∷ ks)
                (kinds-append services (hpas ++ vpas)
                  ∙ ap₂ (λ ks js. ks ++ js) kinds₁
                      (kinds-append hpas vpas ∙ ap₂ (λ ks js. ks ++ js) kinds₂ kinds₃));
          together = (
            refl,
            All-append (GoesWith r o) services (hpas ++ vpas) all₁
                (All-append (GoesWith r o) hpas vpas all₂ all₃),
          );
          selected = selected;
          scalable = items-IsScalable r r.hpa r.vpa hpas vpas scaled sized;
        }),
      )
