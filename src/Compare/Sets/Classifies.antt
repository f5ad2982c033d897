-- ===== src/Compare/Sets/Classifies.antt =====
-- What the comparison of two sets of objects reports, for the objects of one namespace.
use pyceli.Base.{
  ◌≡◌, refl, sym, ◌∙◌, ap, subst, ◌↔◌, inl, inr, Bool-cases, false, List, [], ◌∷◌, Option,
  Option-cases, none, some, arith, if◌then◌else◌, Any,
}
use pyceli.Objects.{Identifier, id_eq, id_eq_iff, id_eq_self, K8sObject}
use pyceli.Compare.Comparer.{ok, ◌>>=◌, QuantityLib}
use pyceli.Compare.Action.{CompareResult, determine_update_action, no_action_needed}
use pyceli.Compare.Comparer.Fuel.{bind_returns}
use pyceli.Compare.Comparer.Sound.{ok-injective}
use pyceli.Compare.Sets.{
  Dict, put_object, find_object, by_id, ModifiedObjects, ObjectDifferences, not_in, modify,
  modified_from, compare_namespace,
}
use pyceli.Compare.Sets.Dict.{
  find_object-put_object, HasKeys, IsEntry, find_object-IsEntry, by_id_from-HasKeys,
}

-- The object of the key is in the one dict, and the key is not in the other.
abbrev pub OnlyIn : Dict K8sObject → Dict K8sObject → K8sObject → Type 0
OnlyIn these those o =
    (id : Identifier) × (find_object id these ≡ some o) × (find_object id those ≡ none)

not_in-entries :
    (those these : Dict K8sObject) (o : K8sObject)
    → Any (λ x. x ≡ o) (not_in those these)
      ↔ ((id : Identifier) × IsEntry id o these × (find_object id those ≡ none))
unfolding not_in
not_in-entries those [] o = (λ h. absurd h, λ (id, h, _). absurd h)
not_in-entries those ((x, a) ∷ these) o = elim (Option-cases (find_object x those)) [
  | inl missing ↦
      let (there, back) = not_in-entries those these o in
      rw missing (
        λ h. elim h [
          | inl same ↦ (x, inl (refl, same), missing)
          | inr more ↦ let (id, i, e) = there more in (id, inr i, e)
        ],
        λ (id, h, e). elim h [ inl (_, same) ↦ inl same | inr more ↦ inr (back (id, more, e)) ],
      )
  | inr (b, found) ↦
      let (there, back) = not_in-entries those these o in
      rw found (
        λ h. let (id, i, e) = there h in (id, inr i, e),
        λ (id, h, e). elim h [
          | inl (key, _) ↦
              absurd (ground (arith, found, e, subst (λ y. find_object y those ≡ some b) key found))
          | inr more ↦ back (id, more, e)
        ],
      )
]

not_in-OnlyIn :
    (those these : Dict K8sObject) (o : K8sObject)
    → HasKeys these
    → Any (λ x. x ≡ o) (not_in those these) ↔ OnlyIn these those o
not_in-OnlyIn those these o keys =
    let (there, back) = not_in-entries those these o in
    (
      λ h. let (id, i, e) = there h in (id, (find_object-IsEntry id o these keys).1 i, e),
      λ (id, f, e). back (id, (find_object-IsEntry id o these keys).0 f, e),
    )

module _ (lib : QuantityLib) where
  -- What the loop over the shared ids makes of the entry of one id
  abbrev pub Entry :
      Option K8sObject → Option K8sObject → Option ModifiedObjects → Option ModifiedObjects → Type 0
  Entry (some before) (some after) old new =
      (r : CompareResult) × (determine_update_action lib after.kind after.spec before.spec ≡ ok r)
      × (new ≡ (
          if no_action_needed r
          then old
          else some (record { before = before; after = after; compare_result = r })))
  Entry _ _ old new = new ≡ old

  modified_from_gone :
      (after_set before_set : Dict K8sObject) (x : Identifier) (b : K8sObject)
      (d : Dict ModifiedObjects)
      → find_object x after_set ≡ none
      → modified_from lib after_set ((x, b) ∷ before_set) d
        ≡ modified_from lib after_set before_set d
  unfolding modified_from
  modified_from_gone after_set before_set x b d e =
      ap {A = Option K8sObject}
        (λ o. elim o [
          | none ↦ modified_from lib after_set before_set d
          | some after ↦ (modify lib x b after d >>= modified_from lib after_set before_set)
        ])
        e

  modified_from_found :
      (after_set before_set : Dict K8sObject) (x : Identifier) (b a : K8sObject)
      (d : Dict ModifiedObjects)
      → find_object x after_set ≡ some a
      → modified_from lib after_set ((x, b) ∷ before_set) d
        ≡ (modify lib x b a d >>= modified_from lib after_set before_set)
  unfolding modified_from
  modified_from_found after_set before_set x b a d e =
      ap {A = Option K8sObject}
        (λ o. elim o [
          | none ↦ modified_from lib after_set before_set d
          | some after ↦ (modify lib x b after d >>= modified_from lib after_set before_set)
        ])
        e

  modify-Entry :
      (id : Identifier) (before after : K8sObject) (d e : Dict ModifiedObjects)
      → modify lib id before after d ≡ ok e
      → Entry (some before) (some after) (find_object id d) (find_object id e)
        × ((x : Identifier) → id_eq id x ≡ false → find_object x e ≡ find_object x d)
  unfolding modify
  modify-Entry id before after d e h =
      let (r, found, rest) =
        bind_returns (determine_update_action lib after.kind after.spec before.spec) _ h in
      elim (Bool-cases (no_action_needed r)) [
        | inl equal ↦
            let same : d ≡ e = ok-injective (rw equal at rest) in
            subst
              (λ x.
                Entry (some before) (some after) (find_object id d) (find_object id x)
                × ((y : Identifier) → id_eq id y ≡ false → find_object y x ≡ find_object y d))
              same ((r, found, rw equal refl), λ y other. refl)
        | inr changed ↦
            let m : ModifiedObjects = record {
              before = before;
              after = after;
              compare_result = r;
            } in
            let same : put_object id m d ≡ e = ok-injective (rw changed at rest) in
            subst
              (λ x.
                Entry (some before) (some after) (find_object id d) (find_object id x)
                × ((y : Identifier) → id_eq id y ≡ false → find_object y x ≡ find_object y d))
              same
              (
                (
                  r,
                  found,
                  rw changed (rw (find_object-put_object id id m d) (rw (id_eq_self id) refl)),
                ),
                λ y other. rw (find_object-put_object id y m d) (rw other refl),
              )
      ]

  modified_from-Entry :
      (after_set before_set : Dict K8sObject) (d r : Dict ModifiedObjects)
      → HasKeys before_set
      → modified_from lib after_set before_set d ≡ ok r
      → (id : Identifier)
      → Entry
          (find_object id before_set)
          (find_object id after_set)
          (find_object id d)
          (find_object id r)
  unfolding modified_from find_object
  modified_from-Entry after_set [] d r keys e id = ap (find_object id) (sym (ok-injective e))
  modified_from-Entry after_set ((x, b) ∷ before_set) d r keys e id =
      elim (Option-cases (find_object x after_set)) [
        | inl gone ↦
            let rest =
              modified_from-Entry after_set before_set d r keys.1
                (sym (modified_from_gone after_set before_set x b d gone) ∙ e) in
            elim (Bool-cases (id_eq x id)) [
              | inr other ↦ rw other (rest id)
              | inl same ↦
                  let at_x : Entry none none (find_object x d) (find_object x r) =
                    rw (keys.0) at (rest x) in
                  subst
                    (λ i.
                      Entry (find_object i ((x, b) ∷ before_set)) (find_object i after_set)
                        (find_object i d) (find_object i r))
                    ((id_eq_iff x id).0 same) (rw (id_eq_self x, gone) at_x)
            ]
        | inr (a, found) ↦
            let (d', e₁, rest) =
              bind_returns (modify lib x b a d) _
                (sym (modified_from_found after_set before_set x b a d found) ∙ e) in
            let (own, others) = modify-Entry x b a d d' e₁ in
            let more = modified_from-Entry after_set before_set d' r keys.1 rest in
            elim (Bool-cases (id_eq x id)) [
              | inr other ↦ rw other (
                  subst
                    (λ old.
                      Entry (find_object id before_set) (find_object id after_set) old
                        (find_object id r))
                    (others id other) (more id))
              | inl same ↦
                  let at_x : find_object x r ≡ find_object x d' = rw (keys.0) at (more x) in
                  subst
                    (λ i.
                      Entry (find_object i ((x, b) ∷ before_set)) (find_object i after_set)
                        (find_object i d) (find_object i r))
                    ((id_eq_iff x id).0 same) (rw (id_eq_self x, found, at_x) own)
            ]
      ]

  -- What `compare_namespace` says of the objects before and after
  pub record Classifies (before after : List K8sObject) (d : ObjectDifferences) : Type 0 where
    pub added : (o : K8sObject) → Any (λ x. x ≡ o) d.added ↔ OnlyIn (by_id after) (by_id before) o
    pub removed :
        (o : K8sObject) → Any (λ x. x ≡ o) d.removed ↔ OnlyIn (by_id before) (by_id after) o
    pub modified :
        (id : Identifier)
        → Entry
            (find_object id (by_id before))
            (find_object id (by_id after))
            none
            (find_object id d.modified)

  by_id-HasKeys : (objects : List K8sObject) → HasKeys (by_id objects)
  by_id-HasKeys objects = by_id_from-HasKeys objects [] tt

  -- If the comparison of the objects of a namespace returns, it lists as added just the objects whose
  -- id is new, as removed those whose id is gone, and as modified, under each shared id, the two
  -- objects with their result if it is not that they are equal.
  pub compare_namespace-Classifies :
      (before after : List K8sObject) (d : ObjectDifferences)
      → compare_namespace lib before after ≡ ok d
      → Classifies before after d
  unfolding compare_namespace find_object
  compare_namespace-Classifies before after d e =
      let (m, e₁, rest) = bind_returns (modified_from lib (by_id after) (by_id before) []) _ e in
      subst (Classifies before after) (ok-injective rest) (record {
        added = λ o. not_in-OnlyIn (by_id before) (by_id after) o (by_id-HasKeys after);
        removed = λ o. not_in-OnlyIn (by_id after) (by_id before) o (by_id-HasKeys before);
        modified = modified_from-Entry (by_id after) (by_id before) [] m (by_id-HasKeys before) e₁;
      })
