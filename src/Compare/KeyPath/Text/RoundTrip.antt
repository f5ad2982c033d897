-- ===== src/Compare/KeyPath/Text/RoundTrip.antt =====
-- A path that is printed reads back as itself.
use Prim.Native.Char.{Char, code}
use text.Mathlib.TextLemmas.{nil-append, cons-append}
use pyceli.Base.{
  ℕ, String, ◌≡◌, refl, true, false, ◌||◌, Bool-cases, inl, inr, [], ◌∷◌, map, some, arith, str_eq,
  eq_iff, ap, ◌∙◌,
}
use pyceli.Compare.KeyPath.{PathElem, dict_key, list_elem_id, wildcard, KeyPath}
use pyceli.Compare.KeyPath.Text.{
  ◌+++◌, has_char, split, join, elem_id, path_to_string, elem_of_part, from_list, from_string,
  IsReadable, AreReadable,
}

split_whole : (sep : ℕ) (w : String) → has_char sep w ≡ false → split sep w ≡ w ∷ []
unfolding split
split_whole sep String.[] h = refl
split_whole sep (String.◌∷◌ c w) h = ground (arith, split_whole sep w)

split-append_sep :
    (sep : ℕ) (c : Char) (w s : String)
    → code c ≡ sep
    → has_char sep w ≡ false
    → split sep (w +++ String.◌∷◌ c s) ≡ w ∷ split sep s
unfolding split
split-append_sep sep c String.[] s e h = rw nil-append (ground arith)
split-append_sep sep c (String.◌∷◌ d w) s e h =
    rw cons-append (ground (arith, split-append_sep sep c w s e))

has_char-append :
    (sep : ℕ) (s t : String) → has_char sep (s +++ t) ≡ (has_char sep s || has_char sep t)
has_char-append sep String.[] t = rw nil-append
has_char-append sep (String.◌∷◌ c s) t = rw cons-append (ground (arith, has_char-append sep s t))

elem_id-no_comma : (x : PathElem) → IsReadable x → has_char b',' (elem_id x) ≡ false
unfolding elem_id
elem_id-no_comma (dict_key k) r = r.0
elem_id-no_comma (list_elem_id f v) r =
    has_char-append b',' f (":" +++ v) ∙ ground (arith, has_char-append b',' ":" v)
elem_id-no_comma wildcard r = refl

-- What stands in an element's text is told apart by the colon.
has_colon : (f v : String) → has_char b':' (f +++ ":" +++ v) ≡ true
has_colon f v = has_char-append b':' f (":" +++ v) ∙ ground (arith, has_char-append b':' ":" v)

has_colon-not_star : (part : String) → has_char b':' part ≡ true → str_eq "*" part ≡ false
has_colon-not_star part h = elim (Bool-cases (str_eq "*" part)) [
  | inl e ↦ cc (ap (has_char b':') ((eq_iff "*" part).0 e))
  | inr e ↦ e
]

elem_of_part-pair :
    (part f v : String)
    → has_char b':' part ≡ true
    → split b':' part ≡ f ∷ v ∷ []
    → elem_of_part part ≡ some (list_elem_id f v)
unfolding elem_of_part
elem_of_part-pair part f v h e = rw (has_colon-not_star part h, h, e)

sep-append : (c : Char) (s : String) → String.◌∷◌ c String.[] +++ s ≡ String.◌∷◌ c s
sep-append c s = rw cons-append (rw nil-append)

split-pair :
    (f v : String)
    → has_char b':' f ≡ false
    → has_char b':' v ≡ false
    → split b':' (f +++ ":" +++ v) ≡ f ∷ v ∷ []
split-pair f v hf hv =
    ap (λ t. split b':' (f +++ t)) (sep-append ":" v)
    ∙ split-append_sep b':' ":" f v refl hf
    ∙ ap (λ t. f ∷ t) (split_whole b':' v hv)

elem_of_part-elem_id : (x : PathElem) → IsReadable x → elem_of_part (elem_id x) ≡ some x
unfolding elem_of_part elem_id
elem_of_part-elem_id (dict_key k) r = rw (r.2, r.1)
elem_of_part-elem_id (list_elem_id f v) r =
    elem_of_part-pair (f +++ ":" +++ v) f v (has_colon f v) (split-pair f v r.1 r.3)
elem_of_part-elem_id wildcard r = refl

split-join :
    (x : PathElem) (xs : KeyPath)
    → AreReadable (x ∷ xs)
    → split b',' (path_to_string (x ∷ xs)) ≡ map elem_id (x ∷ xs)
unfolding path_to_string
split-join x [] r = split_whole b',' (elem_id x) (elem_id-no_comma x r.0)
split-join x (y ∷ xs) r =
    ap (λ t. split b',' (elem_id x +++ t)) (sep-append "," (join "," (map elem_id (y ∷ xs))))
    ∙ split-append_sep b',' "," (elem_id x) _ refl (elem_id-no_comma x r.0)
    ∙ ap (λ t. elem_id x ∷ t) (split-join y xs r.1)

from_list-map : (xs : KeyPath) → AreReadable xs → from_list (map elem_id xs) ≡ some xs
unfolding from_list
from_list-map [] r = refl
from_list-map (x ∷ xs) r = rw (elem_of_part-elem_id x r.0) (rw (from_list-map xs r.1))

-- The text of a path with at least one element reads back as that path, if its keys hold neither a
-- comma nor a colon and no key is `*`.
pub from_string-path_to_string :
    (x : PathElem) (xs : KeyPath)
    → AreReadable (x ∷ xs)
    → from_string (path_to_string (x ∷ xs)) ≡ some (x ∷ xs)
unfolding from_string
from_string-path_to_string x xs r = rw (split-join x xs r) (from_list-map (x ∷ xs) r)
