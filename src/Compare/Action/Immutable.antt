-- ===== src/Compare/Action/Immutable.antt =====
-- Which differences cannot be patched.
use pyceli.Base.{
  zero, suc, ◌≡◌, ◌↔◌, true, [], ◌∷◌, ◌++◌, arith, All, Any, Any-iff, any_iff, take, length,
  take-prefix,
}
use pyceli.Compare.KeyPath.{KeyPath, match_sequences}
use pyceli.Compare.KeyPath.Glob.{IsConcrete}
use pyceli.Compare.KeyPath.Matching.{match_sequences_concrete}
use pyceli.Compare.Comparer.Tables.{immutable_fields}
use pyceli.Compare.Action.{is_immutable_path}

IsConcrete-take : (n : _) (path : KeyPath) → IsConcrete path → IsConcrete (take n path)
IsConcrete-take zero path c = tt
IsConcrete-take (suc n) [] c = tt
IsConcrete-take (suc n) (x ∷ path) c = (c.0, IsConcrete-take n path c.1)

immutable_fields-IsConcrete : All IsConcrete immutable_fields
unfolding immutable_fields
immutable_fields-IsConcrete = ground arith

starts_with_iff :
    (path f : KeyPath)
    → IsConcrete path
    → IsConcrete f
    → (match_sequences (take (length f) path) f ≡ true) ↔ ((more : KeyPath) × (path ≡ f ++ more))
starts_with_iff path f cp cf =
    let (there, back) =
      match_sequences_concrete (take (length f) path) f (IsConcrete-take (length f) path cp) cf in
    let (to, from) = take-prefix f path in (λ h. to (there h), λ h. back (from h))

-- A path without wildcards is immutable exactly if one of the immutable fields is a prefix of it.
pub is_immutable_path_iff :
    (path : KeyPath)
    → IsConcrete path
    → (is_immutable_path path ≡ true)
      ↔ Any (λ f. (more : KeyPath) × (path ≡ f ++ more)) immutable_fields
unfolding is_immutable_path
is_immutable_path_iff path c =
    let (found, given) = any_iff (λ f. match_sequences (take (length f) path) f) immutable_fields in
    let (there, back) =
      Any-iff IsConcrete (λ f. match_sequences (take (length f) path) f ≡ true)
        (λ f. (more : KeyPath) × (path ≡ f ++ more)) immutable_fields immutable_fields-IsConcrete
        (λ f. starts_with_iff path f c) in
    (λ h. there (found h), λ h. given (back h))
