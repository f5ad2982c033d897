-- ===== src/Compare/KeyPath/Text.antt =====
-- Paths as text: `Path.__str__`, `Path.from_string` and `Path.from_list` of path.py, with the
-- parts of `str.split`, `str.join` and `in` that they use.
pub mod RoundTrip
use Prim.Native.Char.{Char, code}
use Prim.Native.String.{◌++◌ as str_append}
use pyceli.Base.{
  ℕ, String, ◌≡◌, Bool, false, ◌||◌, List, [], ◌∷◌, map, Option, none, some, ◌==◌, str_eq,
  if◌then◌else◌,
}
use pyceli.Compare.KeyPath.{PathElem, dict_key, list_elem_id, wildcard, KeyPath}

infixr 65 ◌+++◌
abbrev pub ◌+++◌ : String → String → String
s +++ t = str_append s t

-- `sep in s`, for a text of one character
abbrev pub has_char : ℕ → String → Bool
has_char sep String.[] = false
has_char sep (String.◌∷◌ c s) = code c == sep || has_char sep s

abbrev grow : Char → List String → List String
grow c [] = String.◌∷◌ c String.[] ∷ []
grow c (w ∷ ws) = String.◌∷◌ c w ∷ ws

-- `s.split(sep)`
unfoldable pub split : ℕ → String → List String
split sep String.[] = String.[] ∷ []
split sep (String.◌∷◌ c s) =
    let parts = split sep s in if code c == sep then String.[] ∷ parts else grow c parts

-- `sep.join(parts)`
unfoldable pub join : String → List String → String
join sep [] = String.[]
join sep (w ∷ []) = w
join sep (w ∷ v ∷ ws) = w +++ sep +++ join sep (v ∷ ws)

-- `PathElem.id`
unfoldable pub elem_id : PathElem → String
elem_id (dict_key key) = key
elem_id (list_elem_id id_field id_value) = id_field +++ ":" +++ id_value
elem_id wildcard = "*"

-- `Path.__str__`
unfoldable pub path_to_string : KeyPath → String
unfolding join elem_id
path_to_string path = join "," (map elem_id path)

-- `key, value = part.split(":")`; `none` is the `ValueError` of too many values.
abbrev unpack_pair : List String → Option PathElem
unpack_pair (key ∷ value ∷ []) = some (list_elem_id key value)
unpack_pair _ = none

-- The body of the loop of `from_list`
unfoldable pub elem_of_part : String → Option PathElem
unfolding split
elem_of_part part =
    if str_eq "*" part
    then some wildcard
    else if has_char b':' part
    then unpack_pair (split b':' part)
    else some (dict_key part)

infixl 5 ◌>>=◌
abbrev ◌>>=◌ : {A B : Type 0} → Option A → (A → Option B) → Option B
none >>= f = none
some a >>= f = f a

-- `Path.from_list`
unfoldable pub from_list : List String → Option KeyPath
unfolding elem_of_part
from_list [] = some []
from_list (part ∷ parts) = do elem ← elem_of_part part; path ← from_list parts; some (elem ∷ path)

-- `Path.from_string`
unfoldable pub from_string : String → Option KeyPath
unfolding from_list split
from_string path = from_list (split b',' path)

-- An element whose text reads back: no separator in it, and no key that is the wildcard's text.
abbrev pub IsReadable : PathElem → Type 0
IsReadable (dict_key key) =
    (has_char b',' key ≡ false) × (has_char b':' key ≡ false) × (str_eq "*" key ≡ false)
IsReadable (list_elem_id id_field id_value) =
    (has_char b',' id_field ≡ false)
    × (has_char b':' id_field ≡ false)
    × (has_char b',' id_value ≡ false)
    × (has_char b':' id_value ≡ false)
IsReadable wildcard = Unit

abbrev pub AreReadable : KeyPath → Type 0
AreReadable [] = Unit
AreReadable (x ∷ xs) = IsReadable x × AreReadable xs
