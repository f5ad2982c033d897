-- ===== src/Compare/Action/Report.antt =====
-- What `find_differences` reports of two specs.
use pyceli.Base.{suc, max, ◌≡◌, refl, sym, ◌∙◌, ap, [], ◌∷◌, ◌++◌}
use pyceli.Compare.KeyPath.{PathElem, KeyPath}
use pyceli.Compare.Value.{Value, dict, Fields, fields_depth}
use pyceli.Compare.Value.Lookup.{part, at, at-append}
use pyceli.Compare.Comparer.{
  PathComparison, Differences, ok, QuantityLib, compare_values, find_differences_with, union_keys,
}
use pyceli.Compare.Comparer.Sound.{part_of, Reports, compare_values-Reports, collect-Ensures}
use pyceli.Compare.Action.{find_differences}

-- The path has no wildcards, and the two values are those of the two specs at the path.
pub record IsFound (desired existing : Fields) (pc : PathComparison) : Type 0 where
  pub desired_at : pc.desired ≡ at pc.path (dict desired)
  pub existing_at : pc.existing ≡ at pc.path (dict existing)

at-snoc : (p : KeyPath) (x : PathElem) (u v : Value) → u ≡ at p v → part x u ≡ at (p ++ x ∷ []) v
at-snoc p x u v e = ap (part x) e ∙ sym (at-append p (x ∷ []) v)

module _ (desired existing : Fields) where
  IsFound-part :
      (x : PathElem) (pc : PathComparison)
      → IsFound desired existing pc
      → IsFound desired existing (part_of x pc)
  IsFound-part x pc h = record {
    desired_at = at-snoc pc.path x pc.desired (dict desired) h.desired_at;
    existing_at = at-snoc pc.path x pc.existing (dict existing) h.existing_at;
  }

  -- Every difference that `find_differences` reports is read from the two specs at its path, the two
  -- values are not equal, and it stands in its class: among the ignored ones if its path is ignored,
  -- else among the defaults if it is a default that the desired spec leaves out, else among the
  -- considered ones.
  pub find_differences-Reports :
      (lib : QuantityLib) (d : Differences)
      → find_differences lib desired existing ≡ ok d
      → Reports lib (IsFound desired existing) d
  unfolding find_differences find_differences_with
  find_differences-Reports lib d e =
      let n = suc (max (fields_depth desired) (fields_depth existing)) in
      collect-Ensures lib (IsFound desired existing) (compare_values lib n) _
        (union_keys desired existing)
        (λ key r.
          compare_values-Reports lib (IsFound desired existing) IsFound-part n _ r
            (record { desired_at = refl; existing_at = refl }))
        d e
