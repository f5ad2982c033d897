-- ===== src/Templates/Replica/GoesWith.antt =====
-- Each object that a manager makes goes with the object of the manager.
use pyceli.Base.{
  String, Bool, true, false, List, [], ◌∷◌, ◌++◌, map, All, Option, none, some, ◌≡◌, ◌∙◌, refl, sym,
  subst, ap, arith,
}
use pyceli.Manager.Client.{ok}
use pyceli.Templates.Raise.{bind_returns, ok-injective}
use pyceli.Templates.Pod.{PodTemplate, ModelLib, get_pod_spec}
use pyceli.Templates.Replica.{
  FieldLib, ServicePort, Service, Hpa, Vpa, ReplicaClass, deployment, stateful_set, ReplicaManager,
  ReplicaObject, replica_object, container_ports, service_for, get_replica_manager, get_service,
  target_kind, make_hpa, make_vpa,
}
use pyceli.Templates.Replica.Objects.{
  service_object, hpa_object, vpa_object, controlled, ReplicaItem, replica_item, service_item,
  hpa_item, vpa_item, service_items, hpa_items, vpa_items,
}

-- The kind of each object, as it is asked for
abbrev pub item_kind : ReplicaItem → String
item_kind (replica_item o) = "manager"
item_kind (service_item s) = "Service"
item_kind (hpa_item h) = "HorizontalPodAutoscaler"
item_kind (vpa_item v) = "VerticalPodAutoscaler"

abbrev pub when : Bool → String → List String
when true kind = kind ∷ []
when false kind = []

abbrev pub when_some {ℓ} : {A : Type ℓ} → Option A → String → List String
when_some none kind = []
when_some (some x) kind = kind ∷ []

abbrev pub asked_kinds : ReplicaManager → List String
asked_kinds r =
    "manager" ∷ when r.create_service "Service"
    ++ (when_some r.hpa "HorizontalPodAutoscaler" ++ when_some r.vpa "VerticalPodAutoscaler")

-- The object goes with that of the manager: a service selects the pods of the template, under the ports of the
-- containers, and an autoscaler scales the object.
abbrev pub GoesWith : ReplicaManager → ReplicaObject → ReplicaItem → Type 0
GoesWith r o (replica_item other) = other ≡ o
GoesWith r o (service_item s) =
    (o.template.labels ≡ some s.selector)
    × (s.name ≡ o.name)
    × (s.ports ≡ container_ports r.pod.containers)
GoesWith r o (hpa_item h) = (o.kind ≡ some h.target_kind) × (h.target_name ≡ o.name)
GoesWith r o (vpa_item v) = (o.kind ≡ some v.target_kind) × (v.target_name ≡ o.name)

module _ (lib : ModelLib) (fields : FieldLib)
    (required_some : (A : Type 0) (o : Option A) (a : A)
      → fields.required o ≡ ok a
      → o ≡ some a) where
  replica_object-name :
      (r : ReplicaManager) (c : ReplicaClass) (t : PodTemplate)
      → ((replica_object lib r c t).name ≡ r.pod.name)
        × ((replica_object lib r c t).template ≡ t)
        × ((replica_object lib r c t).match_labels ≡ t.labels)
  replica_object-name r deployment t = (refl, refl, refl)
  replica_object-name r stateful_set t = (refl, refl, refl)

  -- The object of the manager, with the template it is made of
  pub get_replica_manager-template :
      (r : ReplicaManager) (o : ReplicaObject)
      → get_replica_manager lib r ≡ ok o
      → (get_pod_spec lib r.pod ≡ ok o.template)
        × (o.name ≡ r.pod.name)
        × (o.match_labels ≡ o.template.labels)
  unfolding get_replica_manager
  get_replica_manager-template r o h =
      let (t, spec, last) = bind_returns (get_pod_spec lib r.pod) _ h in
      let (name, template, labels) = replica_object-name r r.replica_class t in
      subst
        (λ u.
          (get_pod_spec lib r.pod ≡ ok u.template)
          × (u.name ≡ r.pod.name)
          × (u.match_labels ≡ u.template.labels))
        (ok-injective last)
        (spec ∙ ap ok (sym template), name, labels ∙ ap (λ x. x.labels) (sym template))

  target_kind-kind :
      (r : ReplicaManager) (o : ReplicaObject) (kind : String)
      → get_replica_manager lib r ≡ ok o
      → target_kind lib fields r ≡ ok kind
      → o.kind ≡ some kind
  unfolding target_kind
  target_kind-kind r o kind h e =
      let (u, made, needed) = bind_returns (get_replica_manager lib r) _ e in
      let same : u ≡ o = ok-injective (sym made ∙ h) in
      subst (λ x. x.kind ≡ some kind) same (required_some String u.kind kind needed)

  service_for-labels :
      (r : ReplicaManager) (ps : List ServicePort) (s : Service)
      → service_for lib fields r ps ≡ ok s
      → ((t : PodTemplate) × (get_pod_spec lib r.pod ≡ ok t) × (t.labels ≡ some s.selector))
        × (s.name ≡ r.pod.name)
        × (s.ports ≡ ps)
  service_for-labels r [] s h = absurd (ground arith)
  service_for-labels r (p ∷ more) s h =
      let (t, spec, e) = bind_returns (get_pod_spec lib r.pod) _ h in
      let (selector, needed, last) = bind_returns (fields.required t.labels) _ e in
      subst
        (λ u.
          ((t : PodTemplate) × (get_pod_spec lib r.pod ≡ ok t) × (t.labels ≡ some u.selector))
          × (u.name ≡ r.pod.name)
          × (u.ports ≡ p ∷ more))
        (ok-injective last)
        ((t, spec, required_some (List (String × String)) t.labels selector needed), refl, refl)

  pub service_items-GoesWith :
      (r : ReplicaManager) (o : ReplicaObject) (b : Bool) (items : List ReplicaItem)
      → get_replica_manager lib r ≡ ok o
      → service_items lib fields r b ≡ ok items
      → All (GoesWith r o) items × (map item_kind items ≡ when b "Service")
  unfolding service_items get_service
  service_items-GoesWith r o false items h e =
      subst (λ is. All (GoesWith r o) is × (map item_kind is ≡ [])) (ok-injective e) (tt, refl)
  service_items-GoesWith r o true items h e =
      let (s, served, last) = bind_returns (get_service lib fields r) _ e in
      let ((t, spec, labels), name, ports) =
        service_for-labels r (container_ports r.pod.containers) s served in
      let (made, named, selected) = get_replica_manager-template r o h in
      let same : t ≡ o.template = ok-injective (sym spec ∙ made) in
      let goes : GoesWith r o (service_item (service_object s)) =
        (ap (λ x. x.labels) (sym same) ∙ labels, name ∙ sym named, ports) in
      subst (λ is. All (GoesWith r o) is × (map item_kind is ≡ "Service" ∷ [])) (ok-injective last)
        ((goes, tt), refl)

  pub hpa_items-GoesWith :
      (r : ReplicaManager) (o : ReplicaObject) (a : Option Hpa) (items : List ReplicaItem)
      → get_replica_manager lib r ≡ ok o
      → hpa_items lib fields r a ≡ ok items
      → All (GoesWith r o) items × (map item_kind items ≡ when_some a "HorizontalPodAutoscaler")
  unfolding hpa_items make_hpa
  hpa_items-GoesWith r o none items h e =
      subst (λ is. All (GoesWith r o) is × (map item_kind is ≡ [])) (ok-injective e) (tt, refl)
  hpa_items-GoesWith r o (some a) items h e =
      let (m, made, last) = bind_returns (make_hpa lib fields r a) _ e in
      let (kind, targeted, same) = bind_returns (target_kind lib fields r) _ made in
      let (spec, name, labels) = get_replica_manager-template r o h in
      let goes : GoesWith r o (hpa_item (hpa_object m)) =
        subst (λ x. GoesWith r o (hpa_item (hpa_object x))) (ok-injective same)
          (target_kind-kind r o kind h targeted, sym name) in
      subst (λ is. All (GoesWith r o) is × (map item_kind is ≡ "HorizontalPodAutoscaler" ∷ []))
        (ok-injective last) ((goes, tt), refl)

  pub vpa_items-GoesWith :
      (r : ReplicaManager) (o : ReplicaObject) (a : Option Vpa) (items : List ReplicaItem)
      → get_replica_manager lib r ≡ ok o
      → vpa_items lib fields r a ≡ ok items
      → All (GoesWith r o) items × (map item_kind items ≡ when_some a "VerticalPodAutoscaler")
  unfolding vpa_items make_vpa vpa_object
  vpa_items-GoesWith r o none items h e =
      subst (λ is. All (GoesWith r o) is × (map item_kind is ≡ [])) (ok-injective e) (tt, refl)
  vpa_items-GoesWith r o (some a) items h e =
      let (m, made, f) = bind_returns (make_vpa lib fields r a) _ e in
      let (object, built, last) = bind_returns (vpa_object m) _ f in
      let (kind, targeted, same) = bind_returns (target_kind lib fields r) _ made in
      let (resources, chosen, equal) =
        bind_returns (controlled m.control_cpu m.control_memory) _ built in
      let (spec, name, labels) = get_replica_manager-template r o h in
      let of_made : (o.kind ≡ some m.target_kind) × (m.target_name ≡ o.name) =
        subst (λ x. (o.kind ≡ some x.target_kind) × (x.target_name ≡ o.name)) (ok-injective same)
          (target_kind-kind r o kind h targeted, sym name) in
      let goes : GoesWith r o (vpa_item object) =
        subst (λ x. GoesWith r o (vpa_item x)) (ok-injective equal) of_made in
      subst (λ is. All (GoesWith r o) is × (map item_kind is ≡ "VerticalPodAutoscaler" ∷ []))
        (ok-injective last) ((goes, tt), refl)
