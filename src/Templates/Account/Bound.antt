-- ===== src/Templates/Account/Bound.antt =====
-- piceli/k8s/templates/deployable/service_account.py: the objects of an account, and when it has none.
use pyceli.Base.{
  ◌+◌, ◌≤◌, ◌<◌, ltb, String, Bool-cases, List, [], ◌∷◌, ◌++◌, All, All-map, Any, ◌≡◌, ◌∙◌, ◌⊎◌,
  refl, ap, inl, inr, false, arith, none, some,
}
use pyceli.Manager.Client.{value_error, ok, err}
use pyceli.Templates.Raise.{bind_ok}
use pyceli.Templates.Labels.{count_chars}
use pyceli.Templates.Account.{
  K8sRole, RoleObject, role_kind, get_role, service_account, RoleBinding, BindingObject,
  get_role_binding, ServiceAccount, long_name, short_name, account_role_binding, AccountObject,
  account_object, role_object, binding_object, binding_kind, role_objects, get_account,
  account_subjects, binding_of, role_binding_named,
}
use Prim.Native.String.{◌++◌ as append}
use Prim.Native.String.append.{nil, cons}

-- A name for the binding of the role can be made in 63 characters.
abbrev pub HasRoom : ServiceAccount → K8sRole → Type 0
HasRoom a r = count_chars a.name + 1 + count_chars r.name ≤ 63

-- The binding gives the account the role, which is of the class that the binding refers to.
abbrev pub Binds : ServiceAccount → K8sRole → RoleObject → BindingObject → Type 0
Binds a r role b =
    (b.subjects ≡ service_account a.name ∷ [])
    × (b.ref_kind ≡ role.kind)
    × (b.ref_name ≡ role.name)
    × (role.name ≡ r.name)
    × (role.kind ≡ role_kind r.role_class)
    × (count_chars b.name ≤ 63)

abbrev pub Grants : ServiceAccount → List AccountObject → K8sRole → Type 0
Grants a objects r =
    (role : RoleObject) × (b : BindingObject) × Binds a r role b
    × Any (λ o. o ≡ role_object role) objects
    × Any (λ o. o ≡ binding_object b) objects

count_chars-append : (s t : String) → count_chars (append s t) ≡ count_chars s + count_chars t
unfolding count_chars
count_chars-append String.[] t = ap count_chars (nil t) ∙ omega arith
count_chars-append (String.◌∷◌ c s) t =
    ap count_chars (cons c s t) ∙ omega (arith, count_chars-append s t)

short_name_count :
    (a : ServiceAccount) (r : K8sRole)
    → count_chars (short_name a r) ≡ count_chars a.name + 1 + count_chars r.name
unfolding count_chars
short_name_count a r =
    omega (arith, count_chars-append a.name (append "-" r.name), count_chars-append "-" r.name)

-- The name of the binding, and what it is made with
NamedBinding : ServiceAccount → K8sRole → RoleBinding → Type 0
NamedBinding a r b = (name : String) × (b ≡ role_binding_named a r name) × (count_chars name ≤ 63)

long_name-HasRoom :
    (a : ServiceAccount) (r : K8sRole) → count_chars (long_name a r) ≤ 63 → HasRoom a r
unfolding count_chars
long_name-HasRoom a r h = omega (
  arith,
  count_chars-append "sa-" (append a.name (append "-role-" r.name)),
  count_chars-append a.name (append "-role-" r.name),
  count_chars-append "-role-" r.name,
)

account_role_binding-HasRoom :
    (a : ServiceAccount) (r : K8sRole)
    → HasRoom a r
    → (b : RoleBinding) × (account_role_binding a r ≡ ok b) × NamedBinding a r b
unfolding account_role_binding NamedBinding
account_role_binding-HasRoom a r h = elim (Bool-cases (ltb 63 (count_chars (long_name a r)))) [
  | inl e ↦
      let room : count_chars (short_name a r) ≤ 63 = omega (arith, short_name_count a r) in
      let short : ltb 63 (count_chars (short_name a r)) ≡ false = ground (arith, room) in
      (
        role_binding_named a r (short_name a r),
        rw (account_role_binding, e, short) refl,
        (short_name a r, refl, room),
      )
  | inr e ↦ (
    role_binding_named a r (long_name a r),
    rw (account_role_binding, e) refl,
    (long_name a r, refl, ground arith),
  )
]

-- Without room for the short name there is none for the long one either.
account_role_binding_raises :
    (a : ServiceAccount) (r : K8sRole) → ¬ HasRoom a r → account_role_binding a r ≡ err value_error
unfolding account_role_binding
account_role_binding_raises a r h = elim (Bool-cases (ltb 63 (count_chars (short_name a r)))) [
  | inl short ↦ elim (Bool-cases (ltb 63 (count_chars (long_name a r)))) [
    | inl long ↦ rw (account_role_binding, long, short) refl
    | inr fits ↦ absurd (h (long_name-HasRoom a r (ground arith)))
  ]
  | inr short ↦ absurd (h (ground (arith, short_name_count a r, short)))
]

-- What the binding becomes
abbrev made : ServiceAccount → K8sRole → String → BindingObject
made a r name = record {
  kind = binding_kind r.role_class;
  name = name;
  labels = none;
  subjects = service_account a.name ∷ [];
  ref_kind = role_kind r.role_class;
  ref_name = r.name;
}

account_subjects-some :
    (name : String)
    → 0 < count_chars name
    → account_subjects (some name) ≡ service_account name ∷ []
unfolding count_chars
account_subjects-some String.[] h = absurd (omega arith)
account_subjects-some (String.◌∷◌ c s) h = refl

get_role_binding-made :
    (a : ServiceAccount) (r : K8sRole) (name : String)
    → 0 < count_chars a.name
    → get_role_binding (role_binding_named a r name) ≡ ok (made a r name)
unfolding get_role_binding
get_role_binding-made a r name h =
    ap (λ ss. binding_of (role_binding_named a r name) (ss ++ [])) (account_subjects-some a.name h)

-- More objects grant no less.
Grants-more :
    (a : ServiceAccount) (o u : AccountObject) (objects : List AccountObject) (r : K8sRole)
    → Grants a objects r
    → Grants a (o ∷ u ∷ objects) r
Grants-more a o u objects r (role, b, binds, i, j) = (role, b, binds, inr (inr i), inr (inr j))

role_objects-Grants :
    (a : ServiceAccount) (rs : List K8sRole)
    → 0 < count_chars a.name
    → All (HasRoom a) rs
    → (objects : List AccountObject) × (role_objects a rs ≡ ok objects) × All (Grants a objects) rs
unfolding role_objects NamedBinding get_role
role_objects-Grants a [] h k = ([], refl, tt)
role_objects-Grants a (r ∷ more) h k =
    let (b, first, (name, named, room)) = account_role_binding-HasRoom a r k.0 in
    let bound : get_role_binding b ≡ ok (made a r name) =
      ap get_role_binding named ∙ get_role_binding-made a r name h in
    let (objects, rest, grants) = role_objects-Grants a more h k.1 in
    (
      role_object (get_role r) ∷ binding_object (made a r name) ∷ objects,
      bind_ok _ _ first (bind_ok _ _ bound (bind_ok _ _ rest refl)),
      (
        (get_role r, made a r name, (refl, refl, refl, refl, refl, room), inl refl, inr (inl refl)),
        All-map more (λ q. Grants-more a _ _ objects q) grants,
      ),
    )

All-HasRoom-cases :
    (a : ServiceAccount) (rs : List K8sRole) → All (HasRoom a) rs ⊎ Any (λ r. ¬ HasRoom a r) rs
All-HasRoom-cases a [] = inl tt
All-HasRoom-cases a (r ∷ more) =
    elim (Bool-cases (ltb 63 (count_chars a.name + 1 + count_chars r.name))) [
      | inl e ↦ inr (inl (λ room. ground (arith, e, room)))
      | inr e ↦ elim (All-HasRoom-cases a more) [
        | inl rest ↦ inl (ground (arith, e), rest)
        | inr rest ↦ inr (inr rest)
      ]
    ]

-- A role without room ends the loop, wherever it stands.
role_objects_raises :
    (a : ServiceAccount) (rs : List K8sRole)
    → 0 < count_chars a.name
    → Any (λ r. ¬ HasRoom a r) rs
    → role_objects a rs ≡ err value_error
unfolding role_objects NamedBinding
role_objects_raises a [] named missing = absurd missing
role_objects_raises a (r ∷ more) named missing = elim (All-HasRoom-cases a (r ∷ [])) [
  | inr (inl none_left) ↦ rw (account_role_binding_raises a r none_left) refl
  | inr (inr impossible) ↦ absurd impossible
  | inl (room, rest) ↦
      let (b, first, (name, same, short)) = account_role_binding-HasRoom a r room in
      let bound : get_role_binding b ≡ ok (made a r name) =
        ap get_role_binding same ∙ get_role_binding-made a r name named in
      elim missing [
        | inl none_left ↦ absurd (none_left room)
        | inr later ↦
            bind_ok _ _ first (bind_ok _ _ bound (rw (role_objects_raises a more named later) refl))
      ]
]

-- For an account with a name: if for each of its roles the name of the account, a dash and the name of the
-- role have at most 63 characters together, its get returns objects that hold for each role the role, of
-- its class and name, and a binding with a name of at most 63 characters that refers to that class and name
-- and whose one subject is the account; if for some role they have more, its get raises ValueError.
pub get_account-Grants :
    (a : ServiceAccount)
    → 0 < count_chars a.name
    → (All (HasRoom a) a.roles
        × ((objects : List AccountObject) × (get_account a ≡ ok objects)
            × All (Grants a objects) a.roles))
      ⊎ (Any (λ r. ¬ HasRoom a r) a.roles × (get_account a ≡ err value_error))
unfolding get_account
get_account-Grants a h = elim (All-HasRoom-cases a a.roles) [
  | inl room ↦
      let (objects, e, grants) = role_objects-Grants a a.roles h room in
      inl (
        room,
        (
          account_object a.name a.labels a.annotations ∷ objects,
          bind_ok _ _ e refl,
          All-map a.roles (λ r (role, b, binds, i, j). (role, b, binds, inr i, inr j)) grants,
        ),
      )
  | inr missing ↦ inr (missing, rw (role_objects_raises a a.roles h missing) refl)
]
