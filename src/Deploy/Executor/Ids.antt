-- ===== src/Deploy/Executor/Ids.antt =====
-- Sets of identifiers, as lists: what is taken out of them, and what is left.
use pyceli.Base.{
  ◌≡◌, refl, sym, ◌∙◌, subst, ◌⊎◌, inl, inr, Bool-cases, true, false, or-true, List, [], ◌∷◌, arith,
}
use pyceli.Objects.{Identifier, id_eq, id_eq_iff, has_id}
use pyceli.Deploy.Graph.{remove_id}
use pyceli.Deploy.Levels.{is_nil}
use pyceli.Deploy.Executor.{missing_from}

pub missing_from-split :
    (d : Identifier) (xs known : List Identifier)
    → has_id d xs ≡ true
    → (has_id d known ≡ true) ⊎ (has_id d (missing_from xs known) ≡ true)
unfolding has_id missing_from
missing_from-split d [] known h = absurd (ground arith)
missing_from-split d (x ∷ xs) known h = elim (or-true (id_eq x d) (has_id d xs) h) [
  | inl same ↦ elim (Bool-cases (has_id x known)) [
    | inl listed ↦ inl (subst (λ i. has_id i known ≡ true) ((id_eq_iff x d).0 same) listed)
    | inr left ↦ inr (rw left (ground arith))
  ]
  | inr later ↦ elim (missing_from-split d xs known later) [
    | inl listed ↦ inl listed
    | inr left ↦ elim (Bool-cases (has_id x known)) [
      | inl listed ↦ inr (rw listed left)
      | inr out ↦ inr (rw out (ground arith))
    ]
  ]
]

pub nil_has_id : (d : Identifier) (xs : List Identifier) → is_nil xs ≡ true → has_id d xs ≡ false
unfolding has_id
nil_has_id d [] h = refl
nil_has_id d (x ∷ xs) h = absurd (ground arith)

pub remove_id-split :
    (id d : Identifier) (xs : List Identifier)
    → has_id d xs ≡ true
    → (d ≡ id) ⊎ (has_id d (remove_id id xs) ≡ true)
unfolding has_id
remove_id-split id d [] h = absurd (ground arith)
remove_id-split id d (x ∷ xs) h = elim (Bool-cases (id_eq x id)) [
  | inl first ↦ elim (or-true (id_eq x d) (has_id d xs) h) [
    | inl same ↦ inl (sym ((id_eq_iff x d).0 same) ∙ (id_eq_iff x id).0 first)
    | inr later ↦ inr (rw first later)
  ]
  | inr other ↦ elim (or-true (id_eq x d) (has_id d xs) h) [
    | inl same ↦ inr (rw other (ground arith))
    | inr later ↦ elim (remove_id-split id d xs later) [
      | inl it ↦ inl it
      | inr left ↦ inr (rw other (ground arith))
    ]
  ]
]
