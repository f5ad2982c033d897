-- ===== src/Compare/KeyPath/Glob.antt =====
-- What it means for a pattern with wildcards to cover a path that has none, and the proof that the
-- two helpers of path.py decide it. `IsHelper` collects the clauses that they share.
use pyceli.Base.{
  ◌≤◌, ◌≡◌, ◌↔◌, inl, inr, Bool, true, false, [], ◌∷◌, length, arith, eq_iff, or-true,
  or-true_right,
}
use pyceli.Compare.KeyPath.{
  PathElem, dict_key, list_elem_id, wildcard, is_wildcard, elem_eq, KeyPath, any_suffix,
}

-- No element is a wildcard.
abbrev pub IsConcrete : KeyPath → Type 0
IsConcrete [] = Unit
IsConcrete (x ∷ xs) = (is_wildcard x ≡ false) × IsConcrete xs

-- A wildcard covers any run of elements, but it stands for an element where the path has ended.
-- With `open`, what follows the covered elements is free.
pub data Glob (open_end : Bool) : KeyPath → KeyPath → Type 0 where
  end : Glob open_end [] []
  rest : {s : KeyPath} → open_end ≡ true → Glob open_end [] s
  same :
      {x : PathElem} {p s : KeyPath}
      → is_wildcard x ≡ false
      → Glob open_end p s
      → Glob open_end (x ∷ p) (x ∷ s)
  no_run :
      {y : PathElem} {p s : KeyPath}
      → Glob open_end p (y ∷ s)
      → Glob open_end (wildcard ∷ p) (y ∷ s)
  end_run :
      {y : PathElem} {p s : KeyPath} → Glob open_end p s → Glob open_end (wildcard ∷ p) (y ∷ s)
  longer_run :
      {y : PathElem} {p s : KeyPath}
      → Glob open_end (wildcard ∷ p) s
      → Glob open_end (wildcard ∷ p) (y ∷ s)

pub elem_eq_iff :
    (x y : PathElem)
    → is_wildcard x ≡ false
    → is_wildcard y ≡ false
    → (elem_eq x y ≡ true) ↔ (x ≡ y)
unfolding elem_eq
elem_eq_iff (dict_key k) (dict_key j) hx hy = ground (arith, eq_iff k j)
elem_eq_iff (list_elem_id f v) (list_elem_id g w) hx hy = ground (arith, eq_iff f g, eq_iff v w)
elem_eq_iff _ _ hx hy = ground arith

pub elem_eq_comm :
    (x y : PathElem) → is_wildcard x ≡ false → is_wildcard y ≡ false → elem_eq x y ≡ elem_eq y x
unfolding elem_eq
elem_eq_comm (dict_key k) (dict_key j) hx hy = ground (arith, eq_iff k j, eq_iff j k)
elem_eq_comm (list_elem_id f v) (list_elem_id g w) hx hy =
    ground (arith, eq_iff f g, eq_iff v w, eq_iff g f, eq_iff w v)
elem_eq_comm _ _ hx hy = ground arith

pub head-any_suffix : (f : KeyPath → Bool) (s : KeyPath) → f s ≡ true → any_suffix f s ≡ true
head-any_suffix f [] h = h
head-any_suffix f (y ∷ s) h = rw h

module _ {open_end : Bool} (f : KeyPath → Bool) (p : KeyPath) where
  pub any_suffix→Glob :
      (y : PathElem) (s : KeyPath)
      → IsConcrete (y ∷ s)
      → ((zs : KeyPath)
          → IsConcrete zs
          → length zs ≤ length (y ∷ s)
          → f zs ≡ true
          → Glob open_end p zs)
      → any_suffix f (y ∷ s) ≡ true
      → Glob open_end (wildcard ∷ p) (y ∷ s)
  any_suffix→Glob y [] c sound h = elim (or-true (f (y ∷ [])) (f []) h) [
    | inl now ↦ no_run (sound (y ∷ []) c (omega arith) now)
    | inr later ↦ end_run (sound [] tt (omega arith) later)
  ]
  any_suffix→Glob y (z ∷ s) c sound h = elim (or-true (f (y ∷ z ∷ s)) (any_suffix f (z ∷ s)) h) [
    | inl now ↦ no_run (sound (y ∷ z ∷ s) c (omega arith) now)
    | inr later ↦ longer_run (any_suffix→Glob z s c.1 (λ zs cz le. sound zs cz (omega arith)) later)
  ]

  pub Glob→any_suffix :
      (s : KeyPath)
      → IsConcrete s
      → ((zs : KeyPath) → IsConcrete zs → length zs ≤ length s → Glob open_end p zs → f zs ≡ true)
      → Glob open_end (wildcard ∷ p) s
      → any_suffix f s ≡ true
  Glob→any_suffix [] c full g = elim g [ ]
  Glob→any_suffix (y ∷ s) c full (same h g) = ground arith
  Glob→any_suffix (y ∷ s) c full (no_run g) =
      head-any_suffix f (y ∷ s) (full (y ∷ s) c (omega arith) g)
  Glob→any_suffix (y ∷ s) c full (end_run g) =
      or-true_right _ _ (head-any_suffix f s (full s c.1 (omega arith) g))
  Glob→any_suffix (y ∷ s) c full (longer_run g) =
      or-true_right _ _ (Glob→any_suffix s c.1 (λ zs cz le. full zs cz (omega arith)) g)
