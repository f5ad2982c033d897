-- ===== src/Compare/Comparer/Fuel.antt =====
-- The fuel of `compare_values` is enough: a comparison returns, or ends in a Python exception.
use pyceli.Base.{
  ℕ, zero, suc, max, ◌≤◌, ◌<◌, String, ◌≡◌, refl, ◌≢◌, Bool-cases, inl, inr, ◌⊎◌, List, [], ◌∷◌,
  map, arith, ap, Option-cases, ◌&&◌,
}
use pyceli.Compare.KeyPath.{PathElem, KeyPath, dict_key, list_elem_id}
use pyceli.Compare.Value.{
  Value, null, array, dict, Items, nil, cons, Fields, end, field, get, put, depth, items_depth,
  fields_depth,
}
use pyceli.Compare.Comparer.{
  PathComparison, Differences, Result, ok, err, out_of_fuel, ◌>>=◌, QuantityLib, contains_any,
  is_path_ignored, are_values_equal, index_by_id, id_of, as_items, as_fields, collect,
  find_id_list_differences, find_differences_with, compare_parts, compare_different, compare_values,
  children, union_keys, is_none_or_dict, id_list_field,
}
use pyceli.Compare.Comparer.Tables.{ignored_paths, path_with_id_list}

-- The deeper of the two values
abbrev pub pc_depth : PathComparison → ℕ
pc_depth pc = max (depth pc.existing) (depth pc.desired)

-- A step that is no loop on fuel does not run out of it.
abbrev pub HasFuel : {A : Type 0} → Result A → Type 0
HasFuel r = r ≢ err out_of_fuel

pub bind-HasFuel :
    {A B : Type 0} (m : Result A) (f : A → Result B)
    → HasFuel m
    → ((a : A) → m ≡ ok a → HasFuel (f a))
    → HasFuel (m >>= f)
bind-HasFuel (ok a) f hm hf = hf a refl
bind-HasFuel (err e) f hm hf = λ h. hm (cc)

get-depth : (key : String) (fs : Fields) → depth (get key fs) ≤ fields_depth fs
unfolding depth
get-depth key end = omega arith
get-depth key (field k v fs) = ground (arith, get-depth key fs)

put-depth :
    (key : String) (v : Value) (fs : Fields)
    → fields_depth (put key v fs) ≤ max (depth v) (fields_depth fs)
unfolding depth
put-depth key v end = omega arith
put-depth key v (field k w fs) = ground (arith, put-depth key v fs)

contains_any-HasFuel : (ps : List KeyPath) (path : KeyPath) → HasFuel (contains_any ps path)
unfolding contains_any
contains_any-HasFuel [] path = ground arith
contains_any-HasFuel (p ∷ ps) path = ground (arith, contains_any-HasFuel ps path)

-- A bind that returns has an intermediate value.
pub bind_returns :
    {A B : Type 0} (step : Result A) (next : A → Result B) {out : B}
    → (step >>= next) ≡ ok out
    → (mid : A) × (step ≡ ok mid) × (next mid ≡ ok out)
bind_returns (ok mid) next e = (mid, refl, e)
bind_returns (err x) next e = cc

id_of-HasFuel : (id_field : String) (x : Value) → HasFuel (id_of id_field x)
id_of-HasFuel id_field (dict fs) = ground arith
id_of-HasFuel id_field null = ground arith
id_of-HasFuel id_field _ = ground arith

index_by_id-HasFuel :
    (id_field : String) (xs : Items) (acc : Fields) → HasFuel (index_by_id id_field xs acc)
unfolding index_by_id
index_by_id-HasFuel id_field nil acc = ground arith
index_by_id-HasFuel id_field (cons x xs) acc =
    bind-HasFuel (id_of id_field x) _ (id_of-HasFuel id_field x)
      λ id _. index_by_id-HasFuel id_field xs (put id x acc)

index_by_id-depth :
    (id_field : String) (xs : Items) (acc fs : Fields)
    → index_by_id id_field xs acc ≡ ok fs
    → fields_depth fs ≤ max (items_depth xs) (fields_depth acc)
unfolding index_by_id depth
index_by_id-depth id_field nil acc fs e = ground arith
index_by_id-depth id_field (cons x xs) acc fs e =
    let (id, _, rest) =
      bind_returns (id_of id_field x) (λ id. index_by_id id_field xs (put id x acc)) e in
    omega (arith, index_by_id-depth id_field xs (put id x acc) fs rest, put-depth id x acc)

index_by_id-nil :
    (id_field : String) (xs : Items) (fs : Fields)
    → xs ≡ nil
    → index_by_id id_field xs end ≡ ok fs
    → fs ≡ end
unfolding index_by_id
index_by_id-nil id_field xs fs p e = cc (ap (λ t. index_by_id id_field t end) p)

as_items-HasFuel : (v : Value) → HasFuel (as_items v)
as_items-HasFuel (array xs) = ground arith
as_items-HasFuel null = ground arith
as_items-HasFuel _ = ground arith

as_items-depth :
    (v : Value) (xs : Items) → as_items v ≡ ok xs → (xs ≡ nil) ⊎ (items_depth xs < depth v)
unfolding depth
as_items-depth (array ys) xs e = ground arith
as_items-depth null xs e = ground arith
as_items-depth _ xs e = ground arith

module _ (f : PathComparison → Result Differences) where
  collect-HasFuel :
      (child : String → PathComparison) (ks : List String)
      → ((key : String) → HasFuel (f (child key)))
      → HasFuel (collect f (map child ks))
  unfolding collect
  collect-HasFuel child [] h = ground arith
  collect-HasFuel child (k ∷ ks) h = bind-HasFuel (f (child k)) _ (h k) λ d _.
      bind-HasFuel (collect f (map child ks)) _ (collect-HasFuel child ks h) λ r _. ground arith

  pub children-HasFuel :
      (elem : String → PathElem) (prefix : KeyPath) (desired existing : Fields) (n : ℕ)
      → max (fields_depth desired) (fields_depth existing) < n
      → ((pc : PathComparison) → pc_depth pc < n → HasFuel (f pc))
      → HasFuel (collect f (children elem prefix desired existing))
  children-HasFuel elem prefix desired existing n lt h =
      collect-HasFuel _ (union_keys desired existing)
        λ key. h _ (omega (arith, get-depth key desired, get-depth key existing))

  fields-HasFuel :
      (prefix : KeyPath) (desired existing : Value) (n : ℕ)
      → max (depth desired) (depth existing) < suc n
      → ((pc : PathComparison) → pc_depth pc < n → HasFuel (f pc))
      → HasFuel (collect f (children dict_key prefix (as_fields desired) (as_fields existing)))
  unfolding depth
  fields-HasFuel prefix (dict ds) existing n lt h =
      children-HasFuel dict_key prefix ds (as_fields existing) n (fits existing lt) h
    where
      fits :
          (v : Value)
          → max (suc (fields_depth ds)) (depth v) < suc n
          → max (fields_depth ds) (fields_depth (as_fields v)) < n
      fits (dict es) q = omega arith
      fits _ q = omega arith
  fields-HasFuel prefix desired (dict es) n lt h =
      children-HasFuel dict_key prefix end es n (omega arith) h
  fields-HasFuel prefix desired existing n lt h = unfold collect in ground arith

  no_keys-HasFuel :
      (elem : String → PathElem) (prefix : KeyPath) (desired existing : Fields)
      → desired ≡ end
      → existing ≡ end
      → HasFuel (collect f (children elem prefix desired existing))
  unfolding collect
  no_keys-HasFuel elem prefix desired existing p q = rw (p, q) (ground arith)

  -- Two lists, indexed by the ids of their elements
  items-HasFuel :
      (id_field : String) (prefix : KeyPath) (desired existing : Value) (ds es : Items)
      (dm em : Fields) (n : ℕ)
      → max (depth desired) (depth existing) < suc n
      → as_items desired ≡ ok ds
      → as_items existing ≡ ok es
      → index_by_id id_field ds end ≡ ok dm
      → index_by_id id_field es end ≡ ok em
      → ((pc : PathComparison) → pc_depth pc < n → HasFuel (f pc))
      → HasFuel (collect f (children (list_elem_id id_field) prefix dm em))
  unfolding depth
  items-HasFuel id_field prefix desired existing ds es dm em n lt ed ee im ie h =
      let below_dm = index_by_id-depth id_field ds end dm im in
      let below_em = index_by_id-depth id_field es end em ie in
      let some_keys = λ (fits : max (fields_depth dm) (fields_depth em) < n).
        children-HasFuel (list_elem_id id_field) prefix dm em n fits h in
      elim (as_items-depth desired ds ed) [
        | inl none_desired ↦ elim (as_items-depth existing es ee) [
          | inl none_existing ↦
              no_keys-HasFuel (list_elem_id id_field) prefix dm em
                (index_by_id-nil id_field ds dm none_desired im)
                (index_by_id-nil id_field es em none_existing ie)
          | inr deeper ↦ some_keys (omega (arith, ap items_depth none_desired))
        ]
        | inr deeper ↦ elim (as_items-depth existing es ee) [
          | inl none_existing ↦ some_keys (omega (arith, ap items_depth none_existing))
          | inr deeper_too ↦ some_keys (omega arith)
        ]
      ]

module _ (lib : QuantityLib) where
  are_values_equal-HasFuel : (pc : PathComparison) → HasFuel (are_values_equal lib pc)
  unfolding are_values_equal
  are_values_equal-HasFuel pc = ground arith

  find_id_list-HasFuel :
      (f : PathComparison → Result Differences) (id_field : String) (desired existing : Value)
      (prefix : KeyPath) (n : ℕ)
      → max (depth desired) (depth existing) < suc n
      → ((pc : PathComparison) → pc_depth pc < n → HasFuel (f pc))
      → HasFuel (find_id_list_differences lib f id_field desired existing prefix)
  unfolding find_id_list_differences
  find_id_list-HasFuel f id_field desired existing prefix n lt h =
      bind-HasFuel (as_items desired) _ (as_items-HasFuel desired) λ ds ed.
        bind-HasFuel (index_by_id id_field ds end) _ (index_by_id-HasFuel id_field ds end) λ dm im.
          bind-HasFuel (as_items existing) _ (as_items-HasFuel existing) λ es ee.
            bind-HasFuel (index_by_id id_field es end) _ (index_by_id-HasFuel id_field es end)
              λ em ie.
                items-HasFuel f id_field prefix desired existing ds es dm em n lt ed ee im ie h

  compare_parts-HasFuel :
      (f : PathComparison → Result Differences) (pc : PathComparison) (n : ℕ)
      → pc_depth pc < suc n
      → ((pc' : PathComparison) → pc_depth pc' < n → HasFuel (f pc'))
      → HasFuel (compare_parts lib f pc)
  unfolding compare_parts find_differences_with find_id_list_differences
  compare_parts-HasFuel f pc n lt h =
      elim (Bool-cases (is_none_or_dict pc.desired && is_none_or_dict pc.existing)) [
        | inl dicts ↦ rw dicts (fields-HasFuel f pc.path pc.desired pc.existing n (omega arith) h)
        | inr others ↦ elim (Option-cases (id_list_field path_with_id_list pc.path)) [
          | inl plain ↦ rw (others, plain) (ground arith)
          | inr (id_field, listed) ↦
              rw (others, listed)
                (find_id_list-HasFuel f id_field pc.desired pc.existing pc.path n (omega arith) h)
        ]
      ]

  compare_different-HasFuel :
      (f : PathComparison → Result Differences) (pc : PathComparison) (n : ℕ)
      → pc_depth pc < suc n
      → ((pc' : PathComparison) → pc_depth pc' < n → HasFuel (f pc'))
      → HasFuel (compare_different lib f pc)
  unfolding compare_different is_path_ignored
  compare_different-HasFuel f pc n lt h =
      bind-HasFuel (contains_any ignored_paths pc.path) _
        (contains_any-HasFuel ignored_paths pc.path)
        λ ignored _. ground (arith, compare_parts-HasFuel f pc n lt h)

  -- `compare_values` ends with differences or a Python exception, and never for want of fuel, if its
  -- fuel is above the depth of the two values.
  pub compare_values-HasFuel :
      (n : ℕ) (pc : PathComparison) → pc_depth pc < n → compare_values lib n pc ≢ err out_of_fuel
  unfolding compare_values
  compare_values-HasFuel zero pc lt = absurd (omega arith)
  compare_values-HasFuel (suc n) pc lt =
      bind-HasFuel (are_values_equal lib pc) _ (are_values_equal-HasFuel pc) λ same _.
        ground (
          arith,
          compare_different-HasFuel (compare_values lib n) pc n lt (compare_values-HasFuel n),
        )
