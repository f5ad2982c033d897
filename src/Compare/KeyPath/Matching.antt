-- ===== src/Compare/KeyPath/Matching.antt =====
-- What the matching functions of path.py decide about a pattern and a path without wildcards.
use pyceli.Base.{
  suc, ◌+◌, ◌≡◌, refl, ◌↔◌, ap, Bool, true, false, [], ◌∷◌, ◌++◌, length, Option, some, arith,
}
use pyceli.Compare.KeyPath.{
  PathElem, wildcard, KeyPath, match_helper, match_sequences, contains_helper, wildcard_contains,
  any_suffix,
}
use pyceli.Compare.KeyPath.Glob.{
  IsConcrete, Glob, end, rest, same, no_run, end_run, longer_run, any_suffix→Glob, head-any_suffix,
}
use pyceli.Compare.KeyPath.Helper.{
  match_helper-IsHelper, contains_helper-IsHelper, helper→Glob, Glob→helper, flipped→Glob,
  Glob→flipped,
}

-- On a path without wildcards `match_sequences` answers true exactly if the pattern covers the
-- path, whichever of the two arguments is the pattern.
pub match_sequences_iff :
    (pattern_path path : KeyPath)
    → IsConcrete path
    → ((match_sequences pattern_path path ≡ true) ↔ Glob false pattern_path path)
      × ((match_sequences path pattern_path ≡ true) ↔ Glob false pattern_path path)
unfolding match_sequences
match_sequences_iff p s c =
    let is = match_helper-IsHelper in
    (
      (
        helper→Glob match_helper is (suc (length p + length s)) p s (omega arith) c,
        Glob→helper match_helper is (suc (length p + length s)) p s (omega arith) c,
      ),
      (
        flipped→Glob match_helper is (suc (length s + length p)) p s (omega arith) c,
        Glob→flipped match_helper is (suc (length s + length p)) p s (omega arith) c,
      ),
    )

-- A second wildcard adds nothing.
Glob-two_wildcards :
    {open_end : Bool} {p s : KeyPath}
    → Glob open_end (wildcard ∷ wildcard ∷ p) s
    → Glob open_end (wildcard ∷ p) s
Glob-two_wildcards (same h g) = ground arith
Glob-two_wildcards (no_run g) = g
Glob-two_wildcards (end_run g) = longer_run g
Glob-two_wildcards (longer_run g) = longer_run (Glob-two_wildcards g)

-- The answer of a call that raises no error and decides `P`
abbrev pub Answers : Option Bool → Type 0 → Type 0
Answers r P = (b : Bool) × (r ≡ some b) × ((b ≡ true) ↔ P)

-- For a pattern and a path that are not empty, where the path has no wildcards, `wildcard_contains`
-- returns, and the answer says whether the pattern covers a beginning of the path.
pub wildcard_contains_answers :
    (x y : PathElem) (p s : KeyPath)
    → IsConcrete (y ∷ s)
    → Answers (wildcard_contains (x ∷ p) (y ∷ s)) (Glob true (x ∷ p) (y ∷ s))
unfolding wildcard_contains
wildcard_contains_answers wildcard y p s c =
    let n = suc (length (wildcard ∷ p) + length (y ∷ s)) in
    let f = contains_helper n (wildcard ∷ p) in
    let is = contains_helper-IsHelper in
    (
      any_suffix f (y ∷ s),
      refl,
      (
        λ h. Glob-two_wildcards (
            any_suffix→Glob f (wildcard ∷ p) y s c
              (λ zs cz le. helper→Glob contains_helper is n (wildcard ∷ p) zs (omega arith) cz) h),
        λ g.
            head-any_suffix f (y ∷ s)
              (Glob→helper contains_helper is n (wildcard ∷ p) (y ∷ s) (omega arith) c g),
      ),
    )
wildcard_contains_answers x y p s c =
    let n = suc (length (x ∷ p) + length (y ∷ s)) in
    let is = contains_helper-IsHelper in
    (
      contains_helper n (x ∷ p) (y ∷ s),
      rw c.0,
      (
        helper→Glob contains_helper is n (x ∷ p) (y ∷ s) (omega arith) c,
        Glob→helper contains_helper is n (x ∷ p) (y ∷ s) (omega arith) c,
      ),
    )

Glob→eq : (p s : KeyPath) → IsConcrete p → Glob false p s → p ≡ s
Glob→eq [] s c end = refl
Glob→eq [] s c (rest e) = cc
Glob→eq (x ∷ p) s c (same h g) = ap (λ t. x ∷ t) (Glob→eq p _ c.1 g)
Glob→eq (wildcard ∷ p) s c (no_run g) = ground arith
Glob→eq (wildcard ∷ p) s c (end_run g) = ground arith
Glob→eq (wildcard ∷ p) s c (longer_run g) = ground arith

Glob-self : (open_end : Bool) (s : KeyPath) → IsConcrete s → Glob open_end s s
Glob-self open_end [] c = end
Glob-self open_end (x ∷ s) c = same c.0 (Glob-self open_end s c.1)

Glob→prefix : (p s : KeyPath) → IsConcrete p → Glob true p s → (more : KeyPath) × (s ≡ p ++ more)
Glob→prefix [] s c end = ([], refl)
Glob→prefix [] s c (rest e) = (s, refl)
Glob→prefix (x ∷ p) s c (same h g) =
    let (more, e) = Glob→prefix p _ c.1 g in (more, ap (λ t. x ∷ t) e)
Glob→prefix (wildcard ∷ p) s c (no_run g) = absurd (ground arith)
Glob→prefix (wildcard ∷ p) s c (end_run g) = absurd (ground arith)
Glob→prefix (wildcard ∷ p) s c (longer_run g) = absurd (ground arith)

prefix→Glob : (p more : KeyPath) → IsConcrete p → Glob true p (p ++ more)
prefix→Glob [] more c = rest refl
prefix→Glob (x ∷ p) more c = same c.0 (prefix→Glob p more c.1)

-- Two paths without wildcards are equal to `Path.__eq__` exactly if they have the same elements.
pub match_sequences_concrete :
    (path other : KeyPath)
    → IsConcrete path
    → IsConcrete other
    → (match_sequences path other ≡ true) ↔ (path ≡ other)
match_sequences_concrete p s cp cs =
    let (sound, full) = (match_sequences_iff p s cs).0 in
    (λ h. Glob→eq p s cp (sound h), λ e. full (rw (← e) (Glob-self false p cp)))

-- For an ignored path without wildcards, such as all of `IGNORED_PATHS`, `wildcard_contains` says
-- whether it is a prefix of the path.
pub wildcard_contains_concrete :
    (x y : PathElem) (p s : KeyPath)
    → IsConcrete (x ∷ p)
    → IsConcrete (y ∷ s)
    → Answers (wildcard_contains (x ∷ p) (y ∷ s)) ((more : KeyPath) × (y ∷ s ≡ x ∷ p ++ more))
wildcard_contains_concrete x y p s cp cs =
    let (b, e, (sound, full)) = wildcard_contains_answers x y p s cs in
    (
      b,
      e,
      (
        λ h. Glob→prefix (x ∷ p) (y ∷ s) cp (sound h),
        λ (more, split). full (rw split (prefix→Glob (x ∷ p) more cp)),
      ),
    )
