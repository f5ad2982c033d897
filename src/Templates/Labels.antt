-- ===== src/Templates/Labels.antt =====
-- piceli/k8s/templates/auxiliary/labels.py: the checks of labels. A regular expression for the whole text is a
-- test of its first, its last and all its characters.
pub mod Accepts
use pyceli.Base.{
  ℕ, suc, ltb, leb, ◌==◌, String, str_eq, Bool, true, false, not, ◌&&◌, ◌||◌, List, [], ◌∷◌, any,
  if◌then◌else◌,
}
use Prim.Native.Char.{code}

-- `len(text)`
unfoldable pub count_chars : String → ℕ
count_chars String.[] = 0
count_chars (String.◌∷◌ c s) = suc (count_chars s)

abbrev pub between : ℕ → ℕ → ℕ → Bool
between low high c = leb low c && leb c high

-- `[a-z]`, `[0-9]`, `[A-Z]`
abbrev pub is_lower : ℕ → Bool
is_lower c = between 97 122 c

abbrev pub is_digit : ℕ → Bool
is_digit c = between 48 57 c

abbrev pub is_upper : ℕ → Bool
is_upper c = between 65 90 c

-- `[-_a-z0-9]`
abbrev pub is_cluster_char : ℕ → Bool
is_cluster_char c = c == 45 || (c == 95 || (is_lower c || is_digit c))

-- `[a-z0-9A-Z]`
abbrev pub is_alphanumeric : ℕ → Bool
is_alphanumeric c = is_lower c || (is_digit c || is_upper c)

-- `[-_.]`
abbrev pub is_separator : ℕ → Bool
is_separator c = c == 45 || (c == 95 || c == 46)

-- `[-_.a-z0-9A-Z]`
abbrev pub is_label_char : ℕ → Bool
is_label_char c = is_separator c || is_alphanumeric c

-- `[class]*` up to the end
unfoldable pub all_chars : (ℕ → Bool) → String → Bool
all_chars p String.[] = true
all_chars p (String.◌∷◌ c s) = p (code c) && all_chars p s

-- `[first][rest]*`, for the whole text
unfoldable pub full_match : (ℕ → Bool) → (ℕ → Bool) → String → Bool
unfolding all_chars
full_match first rest String.[] = false
full_match first rest (String.◌∷◌ c s) = first (code c) && all_chars rest s

-- `(?<![-_.])` at the end, behind the character that was read last
unfoldable pub ends_well : ℕ → String → Bool
ends_well last String.[] = not (is_separator last)
ends_well last (String.◌∷◌ c s) = ends_well (code c) s

unfoldable pub key_match : String → Bool
unfolding full_match ends_well
key_match String.[] = false
key_match (String.◌∷◌ c s) =
    full_match is_alphanumeric is_label_char (String.◌∷◌ c s) && ends_well (code c) s

-- The `ValueError`s
pub data LabelError : Type 0 where
  bad_length bad_characters value_too_long bad_value : LabelError

pub data Checked : Type 0 where
  valid : Checked
  invalid : LabelError → Checked

-- The first failure counts.
infixr 20 ◌then_check◌
unfoldable pub ◌then_check◌ : Checked → Checked → Checked
◌then_check◌ valid after = after
◌then_check◌ (invalid e) after = invalid e

-- `not text or not 0 < len(text) < 64`
unfoldable pub is_bad_length : String → Bool
unfolding count_chars
is_bad_length s = not (ltb 0 (count_chars s) && ltb (count_chars s) 64)

-- `validate_cluster_label`
unfoldable pub validate_cluster_label : String → Checked
unfolding is_bad_length full_match
validate_cluster_label value =
    if is_bad_length value
    then invalid bad_length
    else if full_match is_lower is_cluster_char value
    then valid
    else invalid bad_characters

-- The test of the value in `validate_label`
unfoldable pub validate_value : String → Checked
unfolding count_chars full_match
validate_value value =
    if str_eq value ""
    then valid
    else if ltb 63 (count_chars value)
    then invalid value_too_long
    else if full_match is_alphanumeric is_label_char value
    then valid
    else invalid bad_value

-- `validate_label`
unfoldable pub validate_label : String → String → Checked
unfolding is_bad_length key_match validate_value
validate_label key value =
    if is_bad_length key
    then invalid bad_length
    else if key_match key
    then validate_value value
    else invalid bad_characters

-- `key in CLUSTER_LABELS`
abbrev pub is_cluster_label : String → Bool
is_cluster_label key = any (str_eq key) ("team" ∷ "component" ∷ "state" ∷ [])

-- One round of `check_labels`
unfoldable pub check_label : String → String → Checked
unfolding validate_cluster_label validate_label
check_label key value =
    if is_cluster_label key then validate_cluster_label value else validate_label key value

-- `check_labels`, for the items of the dict in order
unfoldable pub check_labels : List (String × String) → Checked
unfolding ◌then_check◌ check_label
check_labels [] = valid
check_labels ((key, value) ∷ more) = check_label key value then_check check_labels more
