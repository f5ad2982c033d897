-- ===== src/Base/Lists.antt =====
-- Lists measured and indexed by native numbers, under the library's names.
use Prim.Native.Nat.{ℕ, zero, suc, ◌+◌}
use mathlib.Core.Path.{◌≡◌, refl}
use mathlib.Core.Logic.{◌⊎◌, inl, inr, ◌↔◌, ⊎_map}
use mathlib.Core.Bool.{Bool, true, false, ◌||◌}
use mathlib.Core.List.{List, [], ◌∷◌, ◌++◌}
use native.Mathlib.Omega.{arith}

module _ {ℓ} {A : Type ℓ} where
  abbrev pub length : List A → ℕ
  length [] = 0
  length (x ∷ xs) = suc (length xs)

  abbrev pub take : ℕ → List A → List A
  take zero xs = []
  take (suc n) [] = []
  take (suc n) (x ∷ xs) = x ∷ take n xs

  abbrev pub any : (A → Bool) → List A → Bool
  any p [] = false
  any p (x ∷ xs) = p x || any p xs

  pub length-append : (xs ys : List A) → length (xs ++ ys) ≡ length xs + length ys
  length-append [] ys = omega arith
  length-append (x ∷ xs) ys = omega (arith, length-append xs ys)

-- The predicate holds of every element.
abbrev pub All {ℓ κ} : {A : Type ℓ} → (A → Type κ) → List A → Type κ
All P [] = Unit
All P (x ∷ xs) = P x × All P xs

pub All-append {ℓ κ} :
    {A : Type ℓ} (P : A → Type κ) (xs ys : List A) → All P xs → All P ys → All P (xs ++ ys)
All-append P [] ys h k = k
All-append P (x ∷ xs) ys h k = (h.0, All-append P xs ys h.1 k)

pub append-All_left {ℓ κ} :
    {A : Type ℓ} (P : A → Type κ) (xs ys : List A) → All P (xs ++ ys) → All P xs
append-All_left P [] ys h = tt
append-All_left P (x ∷ xs) ys h = (h.0, append-All_left P xs ys h.1)

pub append-All_right {ℓ κ} :
    {A : Type ℓ} (P : A → Type κ) (xs ys : List A) → All P (xs ++ ys) → All P ys
append-All_right P [] ys h = h
append-All_right P (x ∷ xs) ys h = append-All_right P xs ys h.1

pub All-map {ℓ κ μ} :
    {A : Type ℓ} {P : A → Type κ} {Q : A → Type μ} (xs : List A)
    → ((x : A) → P x → Q x)
    → All P xs
    → All Q xs
All-map [] f h = tt
All-map (x ∷ xs) f h = (f x h.0, All-map xs f h.1)

pub All-both {ℓ κ} :
    {A : Type ℓ} {P Q R : A → Type κ} (xs : List A)
    → ((x : A) → P x → Q x → R x)
    → All P xs
    → All Q xs
    → All R xs
All-both [] f h k = tt
All-both (x ∷ xs) f h k = (f x h.0 k.0, All-both xs f h.1 k.1)

-- The predicate holds of some element.
abbrev pub Any {ℓ} : {A : Type ℓ} → (A → Type 0) → List A → Type 0
Any P [] = ⊥
Any P (x ∷ xs) = P x ⊎ Any P xs

pub Any-map {ℓ} :
    {A : Type ℓ} {P Q : A → Type 0} (xs : List A) → ((x : A) → P x → Q x) → Any P xs → Any Q xs
Any-map [] f h = absurd h
Any-map (x ∷ xs) f (inl p) = inl (f x p)
Any-map (x ∷ xs) f (inr more) = inr (Any-map xs f more)

-- What holds of every element holds of the one that is meant.
pub All-Any {ℓ} :
    {A : Type ℓ} {P Q : A → Type 0} {R : Type 0} (xs : List A)
    → All P xs
    → Any Q xs
    → ((x : A) → P x → Q x → R)
    → R
All-Any [] h q f = absurd q
All-Any (x ∷ xs) h (inl q) f = f x h.0 q
All-Any (x ∷ xs) h (inr more) f = All-Any xs h.1 more f

-- Two predicates that agree where a third holds
pub Any-iff {ℓ} :
    {A : Type ℓ} (C P Q : A → Type 0) (xs : List A)
    → All C xs
    → ((x : A) → C x → P x ↔ Q x)
    → Any P xs ↔ Any Q xs
Any-iff C P Q [] c h = (λ a. a, λ a. a)
Any-iff C P Q (x ∷ xs) c h =
    let (there, back) = h x c.0 in
    let (on, off) = Any-iff C P Q xs c.1 h in (⊎_map there on, ⊎_map back off)

pub any_iff {ℓ} :
    {A : Type ℓ} (p : A → Bool) (xs : List A) → (any p xs ≡ true) ↔ Any (λ x. p x ≡ true) xs
any_iff p [] = ground arith
any_iff p (x ∷ xs) = ground (arith, any_iff p xs)

pub All-fill {ℓ κ} : {A : Type ℓ} {P : A → Type κ} (xs : List A) → ((x : A) → P x) → All P xs
All-fill [] f = tt
All-fill (x ∷ xs) f = (f x, All-fill xs f)

pub take-prefix {ℓ} :
    {A : Type ℓ} (p xs : List A) → (take (length p) xs ≡ p) ↔ ((more : List A) × (xs ≡ p ++ more))
take-prefix [] xs = (λ _. (xs, refl), λ _. refl)
take-prefix (x ∷ p) [] = (λ h. absurd (ground arith), λ h. absurd (ground arith))
take-prefix (x ∷ p) (y ∷ xs) =
    let (there, back) = take-prefix p xs in
    (
      λ h. let (more, e) = there (ground arith) in (more, ground arith),
      λ (more, e). let tail : take (length p) xs ≡ p = back (more, ground arith) in ground arith,
    )

pub List-cases {ℓ} :
    {A : Type ℓ} (xs : List A) → (xs ≡ []) ⊎ ((x : A) × (rest : List A) × (xs ≡ x ∷ rest))
List-cases [] = inl refl
List-cases (x ∷ xs) = inr (x, xs, refl)
