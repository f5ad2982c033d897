-- ===== src/Compare/Comparer/Sound.antt =====
-- What the comparison reports: a rule that follows the recursion of `compare_values`, and from it
-- that every reported difference is one of the two specs, and in the right class.
use pyceli.Base.{
  ℕ, zero, suc, String, ◌≡◌, refl, ap, Bool-cases, Option-cases, inl, inr, true, false, ◌&&◌, List,
  [], ◌∷◌, ◌++◌, map, str_eq, if◌then◌else◌, arith, All, All-append, subst, sym, ◌∙◌,
}
use pyceli.Compare.KeyPath.{PathElem, dict_key, list_elem_id}
use pyceli.Compare.Value.{Value, null, array, dict, Items, nil, cons, Fields, end, get, put}
use pyceli.Compare.Value.Lookup.{has_text_id, elem_with_id, part, get-put}
use pyceli.Compare.Comparer.{
  PathComparison, Differences, no_differences, extend, Result, ok, QuantityLib, is_path_ignored,
  are_values_equal, index_by_id, id_of, as_items, as_fields, collect, find_id_list_differences,
  find_differences_with, compare_parts, compare_different, compare_values, union_keys,
  is_path_defaulted, is_none_or_dict, id_list_field,
}
use pyceli.Compare.Comparer.Tables.{path_with_id_list}
use pyceli.Compare.Comparer.Fuel.{bind_returns}

-- The comparison of two parts
abbrev pub part_of : PathElem → PathComparison → PathComparison
part_of x pc = record {
  path = pc.path ++ x ∷ [];
  existing = part x pc.existing;
  desired = part x pc.desired;
}

id_of-has_text_id :
    (id_field id s : String) (x : Value)
    → id_of id_field x ≡ ok s
    → has_text_id id_field id x ≡ str_eq s id
id_of-has_text_id id_field id s (dict fs) e = ground arith
id_of-has_text_id id_field id s null e = ground arith
id_of-has_text_id id_field id s _ e = ground arith

get-index_by_id :
    (id_field id : String) (xs : Items) (acc fs : Fields)
    → index_by_id id_field xs acc ≡ ok fs
    → get id fs ≡ elem_with_id id_field id xs (get id acc)
unfolding index_by_id
get-index_by_id id_field id nil acc fs e = ground arith
get-index_by_id id_field id (cons x xs) acc fs e =
    let (s, named, rest) =
      bind_returns (id_of id_field x) (λ s. index_by_id id_field xs (put s x acc)) e in
    get-index_by_id id_field id xs (put s x acc) fs rest
    ∙ ap (elem_with_id id_field id xs) (
        get-put s id x acc
        ∙ ap (λ b. if b then x else get id acc) (sym (id_of-has_text_id id_field id s x named)))

as_items-elem :
    (id_field id : String) (v : Value) (xs : Items)
    → as_items v ≡ ok xs
    → elem_with_id id_field id xs null ≡ part (list_elem_id id_field id) v
as_items-elem id_field id (array ys) xs e = ground arith
as_items-elem id_field id null xs e = ground arith
as_items-elem id_field id _ xs e = ground arith

as_fields-get : (key : String) (v : Value) → get key (as_fields v) ≡ part (dict_key key) v
as_fields-get key (dict fs) = refl
as_fields-get key null = refl
as_fields-get key _ = refl

pub ok-injective : {A : Type 0} {a b : A} → ok a ≡ ok b → a ≡ b
ok-injective h = cc

-- `P` holds of all that is reported, and each report is in its class.
module _ (lib : QuantityLib) (P : PathComparison → Type 0) where
  pub record Considered (pc : PathComparison) : Type 0 where
    pub holds : P pc
    pub differs : are_values_equal lib pc ≡ ok false
    pub not_ignored : is_path_ignored pc ≡ ok false
    pub not_defaulted : is_path_defaulted pc ≡ false

  pub record Ignored (pc : PathComparison) : Type 0 where
    pub holds : P pc
    pub differs : are_values_equal lib pc ≡ ok false
    pub ignored : is_path_ignored pc ≡ ok true

  pub record Defaulted (pc : PathComparison) : Type 0 where
    pub holds : P pc
    pub differs : are_values_equal lib pc ≡ ok false
    pub not_ignored : is_path_ignored pc ≡ ok false
    pub defaulted : is_path_defaulted pc ≡ true

  pub record Reports (d : Differences) : Type 0 where
    pub considered : All Considered d.considered
    pub ignored : All Ignored d.ignored
    pub defaults : All Defaulted d.defaults

  Reports-none : Reports no_differences
  Reports-none = record { considered = tt; ignored = tt; defaults = tt }

  Reports-extend : (d e : Differences) → Reports d → Reports e → Reports (extend d e)
  Reports-extend d e h k = record {
    considered = All-append Considered d.considered e.considered h.considered k.considered;
    ignored = All-append Ignored d.ignored e.ignored h.ignored k.ignored;
    defaults = All-append Defaulted d.defaults e.defaults h.defaults k.defaults;
  }

  -- What a comparison returns, if it returns
  abbrev pub Ensures : Result Differences → Type 0
  Ensures r = (d : Differences) → r ≡ ok d → Reports d

  pub collect-Ensures :
      (f : PathComparison → Result Differences) (child : String → PathComparison) (ks : List String)
      → ((key : String) → Ensures (f (child key)))
      → Ensures (collect f (map child ks))
  unfolding collect
  collect-Ensures f child [] h d e = subst Reports (cc) Reports-none
  collect-Ensures f child (k ∷ ks) h d e =
      let (here, e₁, more) = bind_returns (f (child k)) _ e in
      let (rest, e₂, last) = bind_returns (collect f (map child ks)) _ more in
      subst Reports (cc)
        (Reports-extend here rest (h k here e₁) (collect-Ensures f child ks h rest e₂))

  module _ (stable : (x : PathElem) (pc : PathComparison) → P pc → P (part_of x pc)) where
    key-holds :
        (pc : PathComparison) (key : String)
        → P pc
        → P (record {
          path = pc.path ++ dict_key key ∷ [];
          existing = get key (as_fields pc.existing);
          desired = get key (as_fields pc.desired);
        })
    key-holds pc key h =
        rw (as_fields-get key pc.existing)
          (rw (as_fields-get key pc.desired) (stable (dict_key key) pc h))

    id-holds :
        (pc : PathComparison) (id_field key : String) (ds es : Items) (dm em : Fields)
        → as_items pc.desired ≡ ok ds
        → as_items pc.existing ≡ ok es
        → index_by_id id_field ds end ≡ ok dm
        → index_by_id id_field es end ≡ ok em
        → P pc
        → P (record {
          path = pc.path ++ list_elem_id id_field key ∷ [];
          existing = get key em;
          desired = get key dm;
        })
    id-holds pc id_field key ds es dm em ed ee im ie h =
        rw
          (get-index_by_id id_field key es end em ie ∙ as_items-elem id_field key pc.existing es ee)
          (rw
            (get-index_by_id id_field key ds end dm im
              ∙ as_items-elem id_field key pc.desired ds ed)
            (stable (list_elem_id id_field key) pc h))

    module _ (f : PathComparison → Result Differences)
        (recur : (pc : PathComparison) → P pc → Ensures (f pc)) where
      find_id_list-Ensures :
          (pc : PathComparison) (id_field : String)
          → P pc
          → Ensures (find_id_list_differences lib f id_field pc.desired pc.existing pc.path)
      unfolding find_id_list_differences
      find_id_list-Ensures pc id_field h d e =
          let (ds, ed, e₁) = bind_returns (as_items pc.desired) _ e in
          let (dm, im, e₂) = bind_returns (index_by_id id_field ds end) _ e₁ in
          let (es, ee, e₃) = bind_returns (as_items pc.existing) _ e₂ in
          let (em, ie, e₄) = bind_returns (index_by_id id_field es end) _ e₃ in
          collect-Ensures f _ (union_keys dm em)
            (λ key. recur _ (id-holds pc id_field key ds es dm em ed ee im ie h)) d e₄

      compare_parts-Ensures :
          (pc : PathComparison) → Considered pc → Ensures (compare_parts lib f pc)
      unfolding compare_parts find_differences_with
      compare_parts-Ensures pc c d e =
          elim (Bool-cases (is_none_or_dict pc.desired && is_none_or_dict pc.existing)) [
            | inl dicts ↦
                collect-Ensures f _ (union_keys (as_fields pc.desired) (as_fields pc.existing))
                  (λ key. recur _ (key-holds pc key c.holds)) d (rw dicts at e)
            | inr others ↦ elim (Option-cases (id_list_field path_with_id_list pc.path)) [
              | inl plain ↦
                  subst Reports (ok-injective (rw (others, plain) at e))
                    (record { considered = (c, tt); ignored = tt; defaults = tt })
              | inr (id_field, listed) ↦
                  find_id_list-Ensures pc id_field c.holds d (rw (others, listed) at e)
            ]
          ]

      not_ignored :
          (pc : PathComparison)
          → P pc
          → are_values_equal lib pc ≡ ok false
          → is_path_ignored pc ≡ ok false
          → Ensures (
              if is_path_defaulted pc
              then ok (record no_differences { defaults = pc ∷ [] })
              else compare_parts lib f pc)
      not_ignored pc h differs kept d e = elim (Bool-cases (is_path_defaulted pc)) [
        | inl default ↦ subst Reports (ok-injective (rw default at e)) (record {
          considered = tt;
          ignored = tt;
          defaults = (
            record { holds = h; differs = differs; not_ignored = kept; defaulted = default },
            tt,
          );
        })
        | inr own ↦
            compare_parts-Ensures pc
              (record { holds = h; differs = differs; not_ignored = kept; not_defaulted = own }) d
              (rw own at e)
      ]

      compare_different-Ensures :
          (pc : PathComparison)
          → P pc
          → are_values_equal lib pc ≡ ok false
          → Ensures (compare_different lib f pc)
      unfolding compare_different
      compare_different-Ensures pc h differs d e =
          let (ignored, ei, rest) = bind_returns (is_path_ignored pc) _ e in
          elim (Bool-cases ignored) [
            | inl i ↦ subst Reports (ok-injective (rw i at rest)) (record {
              considered = tt;
              ignored = (record { holds = h; differs = differs; ignored = rw i at ei }, tt);
              defaults = tt;
            })
            | inr i ↦ not_ignored pc h differs (rw i at ei) d (rw i at rest)
          ]

    -- The rule: what holds of a comparison and passes on to its parts holds of all that is reported.
    pub compare_values-Reports :
        (n : ℕ) (pc : PathComparison) (d : Differences)
        → P pc
        → compare_values lib n pc ≡ ok d
        → Reports d
    unfolding compare_values
    compare_values-Reports zero pc d h e = cc
    compare_values-Reports (suc n) pc d h e =
        let (same, es, rest) = bind_returns (are_values_equal lib pc) _ e in
        elim (Bool-cases same) [
          | inl i ↦ subst Reports (ok-injective (rw i at rest)) Reports-none
          | inr i ↦
              compare_different-Ensures (compare_values lib n)
                (λ q hq r. compare_values-Reports n q r hq) pc h (rw i at es) d (rw i at rest)
        ]
