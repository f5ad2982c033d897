-- ===== src/Templates/Labels/Accepts.antt =====
-- Which labels are accepted.
use pyceli.Base.{
  ℕ, ◌≤◌, ◌<◌, String, ◌≡◌, refl, ◌↔◌, ◌⊎◌, Bool, true, false, not, ◌&&◌, List, [], ◌∷◌, All, arith,
  eq_iff,
}
use Prim.Native.Char.{Char, code}
use pyceli.Templates.Labels.{
  count_chars, is_lower, is_cluster_char, is_alphanumeric, is_label_char, is_separator, all_chars,
  full_match, ends_well, key_match, valid, is_bad_length, validate_cluster_label, validate_value,
  validate_label, is_cluster_label, ◌then_check◌, check_label, check_labels,
}

-- The codes of the characters
abbrev pub codes : String → List ℕ
codes String.[] = []
codes (String.◌∷◌ c s) = code c ∷ codes s

abbrev pub Starts : (ℕ → Bool) → List ℕ → Type 0
Starts p [] = ⊥
Starts p (c ∷ cs) = p c ≡ true

abbrev pub Ends : (ℕ → Bool) → List ℕ → Type 0
Ends p [] = ⊥
Ends p (c ∷ []) = p c ≡ true
Ends p (c ∷ d ∷ cs) = Ends p (d ∷ cs)

abbrev pub Short : String → Type 0
Short s = (0 < count_chars s) × (count_chars s ≤ 63)

-- A value of a label of the cluster
abbrev pub IsClusterValue : String → Type 0
IsClusterValue s =
    Short s × Starts is_lower (codes s) × All (λ c. is_cluster_char c ≡ true) (codes s)

-- A key, and a value, of any other label
abbrev pub IsKey : String → Type 0
IsKey s =
    Short s
    × Starts is_alphanumeric (codes s)
    × All (λ c. is_label_char c ≡ true) (codes s)
    × Ends is_alphanumeric (codes s)

abbrev pub IsValue : String → Type 0
IsValue s =
    (s ≡ "")
    ⊎ ((count_chars s ≤ 63)
        × Starts is_alphanumeric (codes s)
        × All (λ c. is_label_char c ≡ true) (codes s))

abbrev pub IsLabel : String × String → Type 0
IsLabel (key, value) =
    ((is_cluster_label key ≡ true) × IsClusterValue value)
    ⊎ ((is_cluster_label key ≡ false) × IsKey key × IsValue value)

all_chars_iff :
    (p : ℕ → Bool) (s : String) → (all_chars p s ≡ true) ↔ All (λ c. p c ≡ true) (codes s)
unfolding all_chars
all_chars_iff p String.[] = (λ h. tt, λ h. refl)
all_chars_iff p (String.◌∷◌ c s) = ground (arith, all_chars_iff p s)

-- A character that a label may have, and that is not a separator, is a letter or a digit; and back.
alphanumeric-separator :
    (c : ℕ) → is_label_char c ≡ true → (not (is_separator c) ≡ true) ↔ (is_alphanumeric c ≡ true)
alphanumeric-separator c h = ground arith

ends_well_iff :
    (c : Char) (s : String)
    → All (λ d. is_label_char d ≡ true) (code c ∷ codes s)
    → (ends_well (code c) s ≡ true) ↔ Ends is_alphanumeric (code c ∷ codes s)
unfolding ends_well
ends_well_iff c String.[] h = alphanumeric-separator (code c) h.0
ends_well_iff c (String.◌∷◌ d s) h = ends_well_iff d s h.1

is_bad_length_iff : (s : String) → (is_bad_length s ≡ false) ↔ Short s
unfolding is_bad_length
is_bad_length_iff s = ground arith

full_match_iff :
    (p q : ℕ → Bool) (s : String)
    → ((c : ℕ) → p c ≡ true → q c ≡ true)
    → (full_match p q s ≡ true) ↔ (Starts p (codes s) × All (λ c. q c ≡ true) (codes s))
unfolding full_match
full_match_iff p q String.[] h = (λ e. absurd (ground arith), λ e. absurd e.0)
full_match_iff p q (String.◌∷◌ c s) h = ground (arith, all_chars_iff q s, h (code c))

lower-cluster_char : (c : ℕ) → is_lower c ≡ true → is_cluster_char c ≡ true
lower-cluster_char c h = ground arith

alphanumeric-label_char : (c : ℕ) → is_alphanumeric c ≡ true → is_label_char c ≡ true
alphanumeric-label_char c h = ground arith

validate_cluster_label_iff : (s : String) → (validate_cluster_label s ≡ valid) ↔ IsClusterValue s
unfolding validate_cluster_label
validate_cluster_label_iff s =
    ground
      (arith, is_bad_length_iff s, full_match_iff is_lower is_cluster_char s lower-cluster_char)

both_true : (a b : Bool) → (a && b) ≡ true → (a ≡ true) × (b ≡ true)
both_true a b h = ground arith

both_true_back : (a b : Bool) → a ≡ true → b ≡ true → (a && b) ≡ true
both_true_back a b h k = ground arith

key_match_iff :
    (s : String)
    → (key_match s ≡ true) ↔ (
        Starts is_alphanumeric (codes s)
        × All (λ c. is_label_char c ≡ true) (codes s)
        × Ends is_alphanumeric (codes s))
unfolding key_match
key_match_iff String.[] = (λ e. absurd (ground arith), λ e. absurd e.0)
key_match_iff (String.◌∷◌ c s) =
    let matched =
      full_match_iff is_alphanumeric is_label_char (String.◌∷◌ c s) alphanumeric-label_char in
    (
      λ e.
          let (m, w) = both_true _ _ e in
          let (start, all) = matched.0 m in (start, all, (ends_well_iff c s all).0 w),
      λ (start, all, end).
          both_true_back _ _ (matched.1 (start, all)) ((ends_well_iff c s all).1 end),
    )

validate_value_iff : (s : String) → (validate_value s ≡ valid) ↔ IsValue s
unfolding validate_value
validate_value_iff s =
    ground
      (arith, full_match_iff is_alphanumeric is_label_char s alphanumeric-label_char, eq_iff s "")

validate_label_iff :
    (key value : String) → (validate_label key value ≡ valid) ↔ (IsKey key × IsValue value)
unfolding validate_label
validate_label_iff key value =
    ground (arith, is_bad_length_iff key, key_match_iff key, validate_value_iff value)

check_label_iff : (key value : String) → (check_label key value ≡ valid) ↔ IsLabel (key, value)
unfolding check_label
check_label_iff key value =
    ground (arith, validate_cluster_label_iff value, validate_label_iff key value)

-- check_labels returns exactly if every item is a label: under team, component or state a value of 1 to 63
-- lower-case letters, digits, dashes and underscores that starts with a letter; under any other key, the
-- key has 1 to 63 letters, digits, dashes, underscores and dots with a letter or a digit at both ends, and
-- the value is empty or has at most 63 of these and starts with a letter or a digit.
pub check_labels-IsLabel :
    (items : List (String × String)) → (check_labels items ≡ valid) ↔ All IsLabel items
unfolding check_labels ◌then_check◌
check_labels-IsLabel [] = (λ e. tt, λ e. refl)
check_labels-IsLabel ((key, value) ∷ more) =
    ground (arith, check_label_iff key value, check_labels-IsLabel more)
