-- ===== src/Compare/KeyPath.antt =====
-- piceli/k8s/ops/compare/path.py: the elements of a path and the matching with wildcards.
pub mod Glob
mod Helper
pub mod Matching
pub mod Text
use pyceli.Base.{
  ℕ, zero, suc, ◌+◌, String, Bool, true, false, ◌&&◌, ◌||◌, List, [], ◌∷◌, length, any, str_eq,
  Option, none, some, if◌then◌else◌,
}

-- `DictKey`, `ListElemId` and `Wildcard`
pub data PathElem : Type 0 where
  dict_key : (key : String) → PathElem
  list_elem_id : (id_field id_value : String) → PathElem
  wildcard : PathElem

abbrev pub is_wildcard : PathElem → Bool
is_wildcard wildcard = true
is_wildcard _ = false

-- `DictKey.__eq__`, `ListElemId.__eq__` and `Wildcard.__eq__` on two elements: only a wildcard on
-- the left equals the elements of the other classes.
unfoldable pub elem_eq : PathElem → PathElem → Bool
elem_eq (dict_key k) (dict_key j) = str_eq k j
elem_eq (dict_key k) _ = false
elem_eq (list_elem_id f v) (list_elem_id g w) = str_eq f g && str_eq v w
elem_eq (list_elem_id f v) _ = false
elem_eq wildcard _ = true

-- `Path`: its elements
abbrev pub KeyPath : Type 0
KeyPath = List PathElem

-- `any(p(j) for j in range(index, len(seq) + 1))`, with an index for the suffix that begins there
abbrev pub any_suffix : (KeyPath → Bool) → KeyPath → Bool
any_suffix p [] = p []
any_suffix p (x ∷ xs) = p (x ∷ xs) || any_suffix p xs

-- The inner `match_helper` of `match_sequences`. The two indices are the suffixes that begin there.
-- Each call shortens one of the two, so the fuel of `match_sequences` is enough.
pub match_helper : ℕ → KeyPath → KeyPath → Bool
match_helper zero _ _ = false
match_helper (suc n) [] [] = true
match_helper (suc n) [] (y ∷ ys) = false
match_helper (suc n) (x ∷ xs) [] = false
match_helper (suc n) (wildcard ∷ xs) (y ∷ ys) = any_suffix (match_helper n xs) (y ∷ ys)
match_helper (suc n) (x ∷ xs) (wildcard ∷ ys) = any_suffix (λ zs. match_helper n zs ys) (x ∷ xs)
match_helper (suc n) (x ∷ xs) (y ∷ ys) = elem_eq x y && match_helper n xs ys

-- `match_sequences`, which is also `wildcard_match_paths` and `Path.__eq__`
unfoldable pub match_sequences : KeyPath → KeyPath → Bool
unfolding match_helper elem_eq
match_sequences xs ys = match_helper (suc (length xs + length ys)) xs ys

-- The inner `match_helper` of `wildcard_contains`
pub contains_helper : ℕ → KeyPath → KeyPath → Bool
contains_helper zero _ _ = false
contains_helper (suc n) [] ys = true
contains_helper (suc n) (x ∷ xs) [] = false
contains_helper (suc n) (wildcard ∷ xs) (y ∷ ys) = any_suffix (contains_helper n xs) (y ∷ ys)
contains_helper (suc n) (x ∷ xs) (wildcard ∷ ys) =
    any_suffix (λ zs. contains_helper n zs ys) (x ∷ xs)
contains_helper (suc n) (x ∷ xs) (y ∷ ys) = elem_eq x y && contains_helper n xs ys

-- `wildcard_contains`: `seq1` is contained in `seq2`, from the beginning, or from any position if
-- one of the two begins with a wildcard. `none` is the `IndexError` of `seq1[0]` or `seq2[0]`.
unfoldable pub wildcard_contains : KeyPath → KeyPath → Option Bool
unfolding contains_helper elem_eq
wildcard_contains [] ys = none
wildcard_contains (wildcard ∷ xs) [] =
    some (any_suffix (contains_helper (suc (length (wildcard ∷ xs))) (wildcard ∷ xs)) [])
wildcard_contains (x ∷ xs) [] = none
wildcard_contains (x ∷ xs) (y ∷ ys) =
    let helper = contains_helper (suc (length (x ∷ xs) + length (y ∷ ys))) (x ∷ xs) in
    some (if is_wildcard x || is_wildcard y then any_suffix helper (y ∷ ys) else helper (y ∷ ys))

-- `path_matches_any_with_wildcard`
unfoldable pub path_matches_any_with_wildcard : KeyPath → List KeyPath → Bool
path_matches_any_with_wildcard path paths = any (match_sequences path) paths
