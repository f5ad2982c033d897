-- ===== src/Deploy/Strategy/Classes.antt =====
-- The levels that the objects are put in: their keys in order, and what each holds.
use pyceli.Base.{
  ℕ, suc, ◌≤◌, ◌==◌, ◌≡◌, ◌≢◌, refl, ◌∙◌, ap, subst, ◌⊎◌, inl, inr, Bool-cases, true, false, ◌||◌,
  List, [], ◌∷◌, ◌++◌, map, Option, Option-cases, none, some, arith, All, All-append, Any,
}
use pyceli.Objects.{Identifier, id_eq, id_eq_self, has_id, K8sObject, identifier}
use pyceli.Deploy.Levels.{Levels, append_level, members, is_nil}
use pyceli.Deploy.Strategy.{
  level_of_kind, classify_one, classify_from, classify_k8s_objects_by_deployment_level,
}
use pyceli.Deploy.Strategy.Built.{in_levels}

-- A level with its key holds objects, all of a kind of that level.
abbrev pub IsClass : ℕ × List K8sObject → Type 0
IsClass (l, os) = (is_nil os ≡ false) × All (λ o. level_of_kind o.kind ≡ some l) os

abbrev pub Differs : ℕ → Levels K8sObject → Type 0
Differs l ls = All (λ e. e.0 ≢ l) ls

abbrev pub KeysDiffer : Levels K8sObject → Type 0
KeysDiffer [] = Unit
KeysDiffer ((l, os) ∷ ls) = Differs l ls × KeysDiffer ls

-- The keys rise from `low` on.
abbrev pub Rises : ℕ → Levels K8sObject → Type 0
Rises low [] = Unit
Rises low ((l, os) ∷ ls) = (low ≤ l) × Rises (suc l) ls

Differs-append_level :
    (k l : ℕ) (o : K8sObject) (ls : Levels K8sObject)
    → l ≢ k
    → Differs k ls
    → Differs k (append_level l o ls)
unfolding append_level
Differs-append_level k l o [] e d = (e, tt)
Differs-append_level k l o ((j, os) ∷ ls) e d = elim (Bool-cases (j == l)) [
  | inl same ↦ rw same d
  | inr other ↦ rw other (d.0, Differs-append_level k l o ls e d.1)
]

KeysDiffer-append_level :
    (l : ℕ) (o : K8sObject) (ls : Levels K8sObject)
    → KeysDiffer ls
    → KeysDiffer (append_level l o ls)
unfolding append_level
KeysDiffer-append_level l o [] d = (tt, tt)
KeysDiffer-append_level l o ((j, os) ∷ ls) d = elim (Bool-cases (j == l)) [
  | inl same ↦ rw same d
  | inr other ↦ rw other (
    Differs-append_level j l o ls (λ e. absurd (ground arith)) d.0,
    KeysDiffer-append_level l o ls d.1,
  )
]

is_nil-append : (os : List K8sObject) (o : K8sObject) → is_nil (os ++ o ∷ []) ≡ false
is_nil-append [] o = refl
is_nil-append (x ∷ os) o = refl

IsClass-append_level :
    (l : ℕ) (o : K8sObject) (ls : Levels K8sObject)
    → level_of_kind o.kind ≡ some l
    → All IsClass ls
    → All IsClass (append_level l o ls)
unfolding append_level
IsClass-append_level l o [] e h = ((refl, (e, tt)), tt)
IsClass-append_level l o ((j, os) ∷ ls) e h = elim (Bool-cases (j == l)) [
  | inl same ↦
      let j_l : l ≡ j = ground arith in
      rw same (
        (
          is_nil-append os o,
          All-append (λ x. level_of_kind x.kind ≡ some j) os (o ∷ []) h.0.1 (e ∙ ap some j_l, tt),
        ),
        h.1,
      )
  | inr other ↦ rw other (h.0, IsClass-append_level l o ls e h.1)
]

has_id-map-append :
    (os : List K8sObject) (o : K8sObject) (id : Identifier)
    → has_id id (map identifier (os ++ o ∷ []))
      ≡ (has_id id (map identifier os) || id_eq (identifier o) id)
unfolding has_id
has_id-map-append [] o id = ground arith
has_id-map-append (x ∷ os) o id = ground (arith, has_id-map-append os o id)

in_levels-append_level :
    (l : ℕ) (o : K8sObject) (ls : Levels K8sObject) (id : Identifier)
    → in_levels id (members (append_level l o ls))
      ≡ (in_levels id (members ls) || id_eq (identifier o) id)
unfolding append_level has_id
in_levels-append_level l o [] id = ground arith
in_levels-append_level l o ((j, os) ∷ ls) id =
    ground (arith, has_id-map-append os o id, in_levels-append_level l o ls id)

-- What `classify_k8s_objects_by_deployment_level` returns
pub record Classified (objects : List K8sObject) (ls : Levels K8sObject) : Type 0 where
  pub differ : KeysDiffer ls
  pub classes : All IsClass ls
  pub kept :
      (o : K8sObject) (l : ℕ)
      → Any (λ x. x ≡ o) objects
      → level_of_kind o.kind ≡ some l
      → in_levels (identifier o) (members ls) ≡ true

classify_one-cases :
    (o : K8sObject) (ls : Levels K8sObject)
    → ((level_of_kind o.kind ≡ none) × (classify_one o ls ≡ ls))
      ⊎ ((l : ℕ) × (level_of_kind o.kind ≡ some l) × (classify_one o ls ≡ append_level l o ls))
unfolding classify_one
classify_one-cases o ls = elim (Option-cases (level_of_kind o.kind)) [
  | inl e ↦ inl (e, ap {A = Option ℕ} (λ r. elim r [ none ↦ ls | some l ↦ append_level l o ls ]) e)
  | inr (l, e) ↦
      inr (l, e, ap {A = Option ℕ} (λ r. elim r [ none ↦ ls | some l ↦ append_level l o ls ]) e)
]

in_levels-classify_one :
    (o : K8sObject) (ls : Levels K8sObject) (id : Identifier)
    → in_levels id (members ls) ≡ true
    → in_levels id (members (classify_one o ls)) ≡ true
in_levels-classify_one o ls id h = elim (classify_one-cases o ls) [
  | inl (_, e) ↦ rw e h
  | inr (l, _, e) ↦ rw e (ground (arith, in_levels-append_level l o ls id))
]

in_levels-classify_from :
    (objects : List K8sObject) (ls : Levels K8sObject) (id : Identifier)
    → in_levels id (members ls) ≡ true
    → in_levels id (members (classify_from objects ls)) ≡ true
unfolding classify_from
in_levels-classify_from [] ls id h = h
in_levels-classify_from (o ∷ objects) ls id h =
    in_levels-classify_from objects (classify_one o ls) id (in_levels-classify_one o ls id h)

classify_one-kept :
    (o : K8sObject) (ls : Levels K8sObject) (l : ℕ)
    → level_of_kind o.kind ≡ some l
    → in_levels (identifier o) (members (classify_one o ls)) ≡ true
classify_one-kept o ls l known = elim (classify_one-cases o ls) [
  | inl (unknown, _) ↦ absurd (ground (arith, known))
  | inr (k, _, e) ↦
      rw e (ground (arith, in_levels-append_level k o ls (identifier o), id_eq_self (identifier o)))
]

classify_one-classes :
    (o : K8sObject) (ls : Levels K8sObject)
    → KeysDiffer ls × All IsClass ls
    → KeysDiffer (classify_one o ls) × All IsClass (classify_one o ls)
classify_one-classes o ls (d, c) = elim (classify_one-cases o ls) [
  | inl (_, e) ↦ rw e (d, c)
  | inr (l, known, e) ↦ rw e (KeysDiffer-append_level l o ls d, IsClass-append_level l o ls known c)
]

classify_from-Classified :
    (objects : List K8sObject) (ls : Levels K8sObject)
    → KeysDiffer ls × All IsClass ls
    → Classified objects (classify_from objects ls)
unfolding classify_from
classify_from-Classified [] ls (d, c) = record {
  differ = d;
  classes = c;
  kept = λ o l h e. absurd h;
}
classify_from-Classified (x ∷ objects) ls h =
    let c = classify_from-Classified objects (classify_one x ls) (classify_one-classes x ls h) in
    record {
      differ = c.differ;
      classes = c.classes;
      kept = λ o l listed e. elim listed [
        | inr later ↦ c.kept o l later e
        | inl same ↦ in_levels-classify_from objects (classify_one x ls) (identifier o) (
            subst (λ y. in_levels (identifier y) (members (classify_one x ls)) ≡ true) same
              (classify_one-kept x ls l (ap (λ y. level_of_kind y.kind) same ∙ e)))
      ];
    }

pub classify-Classified :
    (objects : List K8sObject)
    → Classified objects (classify_k8s_objects_by_deployment_level objects)
unfolding classify_k8s_objects_by_deployment_level
classify-Classified objects = classify_from-Classified objects [] (tt, tt)
