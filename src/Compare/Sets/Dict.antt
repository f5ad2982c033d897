-- ===== src/Compare/Sets/Dict.antt =====
-- Dicts with identifiers as keys: what is put in is found, and each key stands once.
use pyceli.Base.{
  ◌≡◌, refl, ap, subst, ◌↔◌, inl, inr, Bool-cases, List, [], ◌∷◌, none, some, arith, if◌then◌else◌,
  Any,
}
use pyceli.Objects.{Identifier, id_eq, id_eq_iff, K8sObject}
use pyceli.Compare.Sets.{Dict, put_object, find_object, by_id_from}

module _ {A : Type 0} where
  pub find_object-put_object :
      (id x : Identifier) (a : A) (d : Dict A)
      → find_object x (put_object id a d) ≡ (if id_eq id x then some a else find_object x d)
  unfolding find_object put_object
  find_object-put_object id x a [] = refl
  find_object-put_object id x a ((y, b) ∷ d) =
      ground (arith, find_object-put_object id x a d, id_eq_iff y id, id_eq_iff y x, id_eq_iff id x)

  -- No key of the dict stands twice.
  abbrev pub HasKeys : Dict A → Type 0
  HasKeys [] = Unit
  HasKeys ((id, a) ∷ d) = (find_object id d ≡ none) × HasKeys d

  pub put_object-HasKeys :
      (id : Identifier) (a : A) (d : Dict A) → HasKeys d → HasKeys (put_object id a d)
  unfolding put_object find_object
  put_object-HasKeys id a [] h = (refl, tt)
  put_object-HasKeys id a ((x, b) ∷ d) h = elim (Bool-cases (id_eq x id)) [
    | inl same ↦ rw same h
    | inr other ↦ rw other (
      ground (arith, h.0, find_object-put_object id x a d, id_eq_iff id x, id_eq_iff x id),
      put_object-HasKeys id a d h.1,
    )
  ]

  -- The entry of the key in the dict
  abbrev pub IsEntry : Identifier → A → Dict A → Type 0
  IsEntry id a d = Any (λ e. (e.0 ≡ id) × (e.1 ≡ a)) d

  pub find_object-IsEntry :
      (id : Identifier) (a : A) (d : Dict A)
      → HasKeys d
      → (find_object id d ≡ some a) ↔ IsEntry id a d
  unfolding find_object
  find_object-IsEntry id a [] h = ground arith
  find_object-IsEntry id a ((x, b) ∷ d) h = elim (Bool-cases (id_eq x id)) [
    | inl same ↦
        let key = (id_eq_iff x id).0 same in
        rw same (
          λ e. inl (key, (let e' : some b ≡ some a = e in cc)),
          λ i. elim i [
            | inl (_, e) ↦ ap some e
            | inr more ↦ absurd (
                ground (
                  arith,
                  (find_object-IsEntry id a d h.1).1 more,
                  subst (λ y. find_object y d ≡ none) key h.0,
                ))
          ],
        )
    | inr other ↦ rw other (
      λ e. inr ((find_object-IsEntry id a d h.1).0 e),
      λ i. elim i [
        | inl (e, _) ↦ absurd (ground (arith, id_eq_iff x id, e))
        | inr more ↦ (find_object-IsEntry id a d h.1).1 more
      ],
    )
  ]

pub by_id_from-HasKeys :
    (objects : List K8sObject) (d : Dict K8sObject) → HasKeys d → HasKeys (by_id_from objects d)
unfolding by_id_from
by_id_from-HasKeys [] d h = h
by_id_from-HasKeys (o ∷ objects) d h = by_id_from-HasKeys objects _ (put_object-HasKeys _ o d h)
