-- ===== src/Templates/EnvVars/Merge.antt =====
-- What a merged environment says of each name.
use pyceli.Base.{
  String, str_eq, List, [], ◌∷◌, ◌++◌, map, All, Option, none, some, ◌≡◌, ◌∙◌, refl, sym, ap, subst,
  ◌≢◌, inl, inr, Bool-cases, arith, eq_iff, if◌then◌else◌,
}
use pyceli.Templates.Dict.{
  Named, set_item-Named, map-values, set_item, get_item, keys, values, Distinct, set_item-Distinct,
  get_item-set_item,
}
use pyceli.Templates.EnvVars.{EnvVar, put_env, upsert_envvars}

abbrev pub env_name : EnvVar → String
env_name e = e.name

abbrev pub first_some : Option EnvVar → Option EnvVar → Option EnvVar
first_some (some e) after = some e
first_some none after = after

-- The last variable of a name: the one that counts for Kubernetes
unfoldable pub last_named : String → List EnvVar → Option EnvVar
last_named name [] = none
last_named name (e ∷ more) =
    first_some (last_named name more) (if str_eq e.name name then some e else none)

put_env-Named :
    (d : List (String × EnvVar)) (es : List EnvVar)
    → Named env_name d
    → Named env_name (put_env d es)
unfolding put_env
put_env-Named d [] h = h
put_env-Named d (e ∷ more) h =
    put_env-Named (set_item e.name e d) more (set_item-Named env_name e d h)

put_env-Distinct :
    (d : List (String × EnvVar)) (es : List EnvVar)
    → Distinct (keys d)
    → Distinct (keys (put_env d es))
unfolding put_env
put_env-Distinct d [] h = h
put_env-Distinct d (e ∷ more) h =
    put_env-Distinct (set_item e.name e d) more (set_item-Distinct e.name e d h)

put_env-get_item :
    (name : String) (d : List (String × EnvVar)) (es : List EnvVar)
    → get_item name (put_env d es) ≡ first_some (last_named name es) (get_item name d)
unfolding put_env last_named
put_env-get_item name d [] = refl
put_env-get_item name d (e ∷ more) =
    ground
      (arith, put_env-get_item name (set_item e.name e d) more, get_item-set_item name e.name e d)

-- No variable of these has the name.
last_named-none :
    (name : String) (d : List (String × EnvVar))
    → Named env_name d
    → All (λ y. name ≢ y) (keys d)
    → last_named name (values d) ≡ none
unfolding last_named
last_named-none name [] h k = refl
last_named-none name ((j, e) ∷ more) h k =
    ground (arith, last_named-none name more h.1 k.1, eq_iff e.name name)

last_named-values :
    (name : String) (d : List (String × EnvVar))
    → Named env_name d
    → Distinct (keys d)
    → last_named name (values d) ≡ get_item name d
unfolding last_named get_item
last_named-values name [] h k = refl
last_named-values name ((j, e) ∷ more) h k = elim (Bool-cases (str_eq j name)) [
  | inl q ↦
      let same : j ≡ name = (eq_iff j name).0 q in
      let rest =
        last_named-none name more h.1 (subst (λ x. All (λ y. x ≢ y) (keys more)) same k.0) in
      ground (arith, rest, eq_iff j name, eq_iff e.name name, h.0)
  | inr q ↦
      ground (arith, last_named-values name more h.1 k.1, eq_iff j name, eq_iff e.name name, h.0)
]

last_named-append :
    (name : String) (xs ys : List EnvVar)
    → last_named name (xs ++ ys) ≡ first_some (last_named name ys) (last_named name xs)
unfolding last_named
last_named-append name [] ys = ground arith
last_named-append name (x ∷ xs) ys = ground (arith, last_named-append name xs ys)

-- The merged environment has no name twice, and the last variable of each name in it is the last of that
-- name in the base followed by the new variables.
pub upsert_envvars-last_named :
    (base_env new_env : List EnvVar)
    → Distinct (map env_name (upsert_envvars base_env new_env))
      × ((name : String)
          → last_named name (upsert_envvars base_env new_env)
            ≡ last_named name (base_env ++ new_env))
unfolding upsert_envvars get_item
upsert_envvars-last_named base_env new_env =
    let env_map = put_env [] base_env in
    let merged = put_env env_map new_env in
    let named = put_env-Named env_map new_env (put_env-Named [] base_env tt) in
    let distinct = put_env-Distinct env_map new_env (put_env-Distinct [] base_env tt) in
    (
      subst Distinct (sym (map-values env_name merged named)) distinct,
      λ name.
          last_named-values name merged named distinct
          ∙ put_env-get_item name env_map new_env
          ∙ ap (first_some (last_named name new_env)) (put_env-get_item name [] base_env)
          ∙ ground (arith, last_named-append name base_env new_env),
    )
