-- ===== src/Compare/Comparer/Covers.antt =====
-- Which paths are ignored or defaulted.
use mathlib.Core.Logic.{⊎_elim}
use pyceli.Base.{
  ◌≡◌, ◌≢◌, refl, ◌↔◌, inl, inr, Bool, Bool-cases, true, false, not, ◌&&◌, List, [], ◌∷◌, ◌++◌,
  arith, All, Any, All-fill, any, Any-iff, any_iff,
}
use pyceli.Compare.KeyPath.{PathElem, KeyPath, match_sequences, path_matches_any_with_wildcard}
use pyceli.Compare.KeyPath.Glob.{IsConcrete, Glob}
use pyceli.Compare.KeyPath.Matching.{match_sequences_iff, wildcard_contains_concrete}
use pyceli.Compare.Value.{Value, null}
use pyceli.Compare.Comparer.{
  PathComparison, Result, ok, contains_any, is_path_ignored, is_path_defaulted, is_none,
}
use pyceli.Compare.Comparer.Tables.{ignored_paths, defaulted_paths}

-- The answer of a call that raises no exception and decides `P`
abbrev pub Decides : Result Bool → Type 0 → Type 0
Decides r P = (b : Bool) × (r ≡ ok b) × ((b ≡ true) ↔ P)

abbrev HasPrefix : KeyPath → KeyPath → Type 0
HasPrefix path p = (more : KeyPath) × (path ≡ p ++ more)

-- A path that a table can hold
abbrev IsEntry : KeyPath → Type 0
IsEntry [] = ⊥
IsEntry (x ∷ p) = IsConcrete (x ∷ p)

miss : {b : Bool} → b ≡ true → ¬ (b ≡ false)
miss h k = cc

contains_any-Decides :
    (ps : List KeyPath) (y : PathElem) (s : KeyPath)
    → All IsEntry ps
    → IsConcrete (y ∷ s)
    → Decides (contains_any ps (y ∷ s)) (Any (HasPrefix (y ∷ s)) ps)
unfolding contains_any
contains_any-Decides [] y s c cs = (false, refl, (λ h. cc, λ h. absurd h))
contains_any-Decides ([] ∷ ps) y s c cs = absurd c.0
contains_any-Decides ((x ∷ p) ∷ ps) y s c cs =
    let (b, e, (there, back)) = wildcard_contains_concrete x y p s c.0 cs in
    let (more, e', (found, given)) = contains_any-Decides ps y s c.1 cs in
    elim (Bool-cases b) [
      | inl i ↦ (true, rw (e, i), (λ _. inl (there i), λ _. refl))
      | inr i ↦ (
        more,
        rw (e, i) e',
        (λ h. inr (found h), λ h. ⊎_elim (λ p. absurd (miss (back p) i)) given h),
      )
    ]

ignored_paths-entries : All IsEntry ignored_paths
unfolding ignored_paths
ignored_paths-entries = ground arith

-- For a path that is not empty and has no wildcards `is_path_ignored` returns, and answers true
-- exactly if an ignored path is a prefix of the path.
pub is_path_ignored-Decides :
    (y : PathElem) (s : KeyPath) (existing desired : Value)
    → IsConcrete (y ∷ s)
    → Decides
        (is_path_ignored (record { path = y ∷ s; existing = existing; desired = desired }))
        (Any (λ p. (more : KeyPath) × (y ∷ s ≡ p ++ more)) ignored_paths)
unfolding is_path_ignored
is_path_ignored-Decides y s existing desired c =
    contains_any-Decides ignored_paths y s ignored_paths-entries c

is_none_iff : (v : Value) → (is_none v ≡ true) ↔ (v ≡ null)
is_none_iff null = (λ _. refl, λ _. refl)
is_none_iff _ = ground arith

and3_iff : (a b c : Bool) → ((a && (b && not c)) ≡ true) ↔ ((a ≡ true) × (b ≡ true) × (c ≡ false))
and3_iff a b c = ground arith

not-true : (b : Bool) → ¬ (b ≡ true) → b ≡ false
not-true b h = ground arith

-- A difference whose path has no wildcards is a default exactly if the pattern of a defaulted path
-- covers its path, the desired spec has no value there and the existing one has.
pub is_path_defaulted_iff :
    (pc : PathComparison)
    → IsConcrete pc.path
    → (is_path_defaulted pc ≡ true) ↔ (
        Any (λ p. Glob false p pc.path) defaulted_paths
        × (pc.desired ≡ null)
        × (pc.existing ≢ null))
unfolding is_path_defaulted path_matches_any_with_wildcard
is_path_defaulted_iff pc c =
    let (found, given) = any_iff (match_sequences pc.path) defaulted_paths in
    let (there, back) =
      Any-iff (λ _. Unit) (λ p. match_sequences pc.path p ≡ true) (λ p. Glob false p pc.path)
        defaulted_paths (All-fill defaulted_paths (λ _. tt))
        (λ p _. (match_sequences_iff p pc.path c).1) in
    let (absent, missing) = is_none_iff pc.desired in
    let (present, has) = is_none_iff pc.existing in
    let (split, join) =
      and3_iff (any (match_sequences pc.path) defaulted_paths) (is_none pc.desired)
        (is_none pc.existing) in
    (
      λ h. let (a, b, d) = split h in (there (found a), absent b, λ e. miss (has e) d),
      λ (a, b, d). join (given (back a), missing b, not-true _ (λ e. d (present e))),
    )
