-- ===== src/Compare/KeyPath/Helper.antt =====
-- The clauses that the two `match_helper`s of path.py share, and that they decide `Glob` whichever
-- of the two sequences holds the pattern.
use pyceli.Base.{
  ℕ, zero, suc, ◌+◌, ◌<◌, ◌≡◌, refl, ◌∙◌, subst, Bool, true, false, ◌&&◌, [], ◌∷◌, length, arith,
}
use pyceli.Compare.KeyPath.{
  PathElem, dict_key, list_elem_id, wildcard, is_wildcard, elem_eq, KeyPath, any_suffix,
  match_helper, contains_helper,
}
use pyceli.Compare.KeyPath.Glob.{
  IsConcrete, Glob, end, rest, same, elem_eq_iff, elem_eq_comm, any_suffix→Glob, Glob→any_suffix,
}

-- `open_end` is the answer when the first sequence has ended and the second has not.
pub record IsHelper (open_end : Bool) (h : ℕ → KeyPath → KeyPath → Bool) : Type 0 where
  pub both_ended : (n : ℕ) → h (suc n) [] [] ≡ true
  pub first_ended : (n : ℕ) (y : PathElem) (ys : KeyPath) → h (suc n) [] (y ∷ ys) ≡ open_end
  pub second_ended : (n : ℕ) (x : PathElem) (xs : KeyPath) → h (suc n) (x ∷ xs) [] ≡ false
  pub wild_first :
      (n : ℕ) (xs : KeyPath) (y : PathElem) (ys : KeyPath)
      → h (suc n) (wildcard ∷ xs) (y ∷ ys) ≡ any_suffix (h n xs) (y ∷ ys)
  pub wild_second :
      (n : ℕ) (x : PathElem) (xs ys : KeyPath)
      → is_wildcard x ≡ false
      → h (suc n) (x ∷ xs) (wildcard ∷ ys) ≡ any_suffix (λ zs. h n zs ys) (x ∷ xs)
  pub both_plain :
      (n : ℕ) (x y : PathElem) (xs ys : KeyPath)
      → is_wildcard x ≡ false
      → is_wildcard y ≡ false
      → h (suc n) (x ∷ xs) (y ∷ ys) ≡ (elem_eq x y && h n xs ys)

match_helper-wild_second :
    (n : ℕ) (x : PathElem) (xs ys : KeyPath)
    → is_wildcard x ≡ false
    → match_helper (suc n) (x ∷ xs) (wildcard ∷ ys)
      ≡ any_suffix (λ zs. match_helper n zs ys) (x ∷ xs)
unfolding match_helper
match_helper-wild_second n wildcard xs ys e = ground arith
match_helper-wild_second n _ xs ys e = refl

match_helper-both_plain :
    (n : ℕ) (x y : PathElem) (xs ys : KeyPath)
    → is_wildcard x ≡ false
    → is_wildcard y ≡ false
    → match_helper (suc n) (x ∷ xs) (y ∷ ys) ≡ (elem_eq x y && match_helper n xs ys)
unfolding match_helper
match_helper-both_plain n wildcard y xs ys e d = ground arith
match_helper-both_plain n (dict_key k) wildcard xs ys e d = ground arith
match_helper-both_plain n (list_elem_id f v) wildcard xs ys e d = ground arith
match_helper-both_plain n _ _ xs ys e d = refl

contains_helper-wild_second :
    (n : ℕ) (x : PathElem) (xs ys : KeyPath)
    → is_wildcard x ≡ false
    → contains_helper (suc n) (x ∷ xs) (wildcard ∷ ys)
      ≡ any_suffix (λ zs. contains_helper n zs ys) (x ∷ xs)
unfolding contains_helper
contains_helper-wild_second n wildcard xs ys e = ground arith
contains_helper-wild_second n _ xs ys e = refl

contains_helper-both_plain :
    (n : ℕ) (x y : PathElem) (xs ys : KeyPath)
    → is_wildcard x ≡ false
    → is_wildcard y ≡ false
    → contains_helper (suc n) (x ∷ xs) (y ∷ ys) ≡ (elem_eq x y && contains_helper n xs ys)
unfolding contains_helper
contains_helper-both_plain n wildcard y xs ys e d = ground arith
contains_helper-both_plain n (dict_key k) wildcard xs ys e d = ground arith
contains_helper-both_plain n (list_elem_id f v) wildcard xs ys e d = ground arith
contains_helper-both_plain n _ _ xs ys e d = refl

pub match_helper-IsHelper : IsHelper false match_helper
unfolding match_helper
match_helper-IsHelper = record {
  both_ended = λ n. refl;
  first_ended = λ n y ys. refl;
  second_ended = λ n x xs. refl;
  wild_first = λ n xs y ys. refl;
  wild_second = match_helper-wild_second;
  both_plain = match_helper-both_plain;
}

pub contains_helper-IsHelper : IsHelper true contains_helper
unfolding contains_helper
contains_helper-IsHelper = record {
  both_ended = λ n. refl;
  first_ended = λ n y ys. refl;
  second_ended = λ n x xs. refl;
  wild_first = λ n xs y ys. refl;
  wild_second = contains_helper-wild_second;
  both_plain = contains_helper-both_plain;
}

-- Two plain elements are equal to the code exactly if they are the same.
same_of_eq :
    {open_end : Bool} {x y : PathElem} {p s : KeyPath}
    → is_wildcard x ≡ false
    → is_wildcard y ≡ false
    → elem_eq x y ≡ true
    → Glob open_end p s
    → Glob open_end (x ∷ p) (y ∷ s)
same_of_eq {open_end} {x} {y} {p} {s} hx hy e g =
    subst (λ z. Glob open_end (x ∷ p) (z ∷ s)) ((elem_eq_iff x y hx hy).0 e) (same hx g)

and-true : (a b : Bool) → (a && b) ≡ true → (a ≡ true) × (b ≡ true)
and-true a b h = ground arith

module _ {open_end : Bool} (h : ℕ → KeyPath → KeyPath → Bool) (is : IsHelper open_end h) where
  -- The pattern first
  pub helper→Glob :
      (n : ℕ) (p s : KeyPath)
      → length p + length s < n
      → IsConcrete s
      → h n p s ≡ true
      → Glob open_end p s
  helper→Glob zero p s lt c e = absurd (omega arith)
  helper→Glob (suc n) [] [] lt c e = end
  helper→Glob (suc n) [] (y ∷ s) lt c e = rest (cc (is.first_ended n y s))
  helper→Glob (suc n) (x ∷ p) [] lt c e = cc (is.second_ended n x p)
  helper→Glob (suc n) (wildcard ∷ p) (y ∷ s) lt c e =
      any_suffix→Glob (h n p) p y s c (λ zs cz le. helper→Glob n p zs (omega arith) cz)
        (rw (is.wild_first n p y s) at e)
  helper→Glob (suc n) (x ∷ p) (y ∷ s) lt c e =
      let (head, tail) = and-true _ _ (rw (is.both_plain n x y p s refl c.0) at e) in
      same_of_eq refl c.0 head (helper→Glob n p s (omega arith) c.1 tail)

  pub Glob→helper :
      (n : ℕ) (p s : KeyPath)
      → length p + length s < n
      → IsConcrete s
      → Glob open_end p s
      → h n p s ≡ true
  Glob→helper zero p s lt c g = absurd (omega arith)
  Glob→helper (suc n) [] [] lt c g = is.both_ended n
  Glob→helper (suc n) [] (y ∷ s) lt c (rest e) = is.first_ended n y s ∙ e
  Glob→helper (suc n) (wildcard ∷ p) [] lt c g = elim g [ ]
  Glob→helper (suc n) (wildcard ∷ p) (y ∷ s) lt c g =
      rw (is.wild_first n p y s)
        (Glob→any_suffix (h n p) p (y ∷ s) c (λ zs cz le. Glob→helper n p zs (omega arith) cz) g)
  Glob→helper (suc n) (x ∷ p) (y ∷ s) lt c (same hx g) =
      rw (is.both_plain n x x p s hx hx)
        (ground (arith, (elem_eq_iff x x hx hx).1 refl, Glob→helper n p s (omega arith) c.1 g))
  Glob→helper (suc n) (x ∷ p) [] lt c g = elim g [ ]

module _ (h : ℕ → KeyPath → KeyPath → Bool) (is : IsHelper false h) where
  -- The pattern second
  pub flipped→Glob :
      (n : ℕ) (p s : KeyPath)
      → length s + length p < n
      → IsConcrete s
      → h n s p ≡ true
      → Glob false p s
  flipped→Glob zero p s lt c e = absurd (omega arith)
  flipped→Glob (suc n) [] [] lt c e = end
  flipped→Glob (suc n) (x ∷ p) [] lt c e = cc (is.first_ended n x p)
  flipped→Glob (suc n) [] (y ∷ s) lt c e = cc (is.second_ended n y s)
  flipped→Glob (suc n) (wildcard ∷ p) (y ∷ s) lt c e =
      any_suffix→Glob (λ zs. h n zs p) p y s c (λ zs cz le. flipped→Glob n p zs (omega arith) cz)
        (rw (is.wild_second n y s p c.0) at e)
  flipped→Glob (suc n) (x ∷ p) (y ∷ s) lt c e =
      let (head, tail) = and-true _ _ (rw (is.both_plain n y x s p c.0 refl) at e) in
      same_of_eq refl c.0 (elem_eq_comm x y refl c.0 ∙ head)
        (flipped→Glob n p s (omega arith) c.1 tail)

  pub Glob→flipped :
      (n : ℕ) (p s : KeyPath)
      → length s + length p < n
      → IsConcrete s
      → Glob false p s
      → h n s p ≡ true
  Glob→flipped zero p s lt c g = absurd (omega arith)
  Glob→flipped (suc n) [] [] lt c g = is.both_ended n
  Glob→flipped (suc n) [] (y ∷ s) lt c (rest e) = cc
  Glob→flipped (suc n) (wildcard ∷ p) [] lt c g = elim g [ ]
  Glob→flipped (suc n) (wildcard ∷ p) (y ∷ s) lt c g = rw (is.wild_second n y s p c.0) (
      Glob→any_suffix (λ zs. h n zs p) p (y ∷ s) c
        (λ zs cz le. Glob→flipped n p zs (omega arith) cz) g)
  Glob→flipped (suc n) (x ∷ p) (y ∷ s) lt c (same hx g) =
      rw (is.both_plain n x x s p hx hx)
        (ground (arith, (elem_eq_iff x x hx hx).1 refl, Glob→flipped n p s (omega arith) c.1 g))
  Glob→flipped (suc n) (x ∷ p) [] lt c g = elim g [ ]
