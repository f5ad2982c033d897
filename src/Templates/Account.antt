-- ===== src/Templates/Account.antt =====
-- piceli/k8s/templates/deployable: service_account.py, role.py and role_binding.py, with constants/verbs.py. The
-- roles that are made of another template (get_template_auth_roles) are left out.
pub mod Bound
mod Tests
use pyceli.Base.{
  ℕ, ltb, String, str_eq, Bool, true, false, List, [], ◌∷◌, ◌++◌, map, Option, none, some,
  if◌then◌else◌,
}
use pyceli.Manager.Client.{value_error, Outcome, ok, err}
use pyceli.Templates.Raise.{◌>>=◌}
use pyceli.Templates.Labels.{count_chars}
use pyceli.Templates.Volume.{Labels}
use pyceli.Templates.Container.{or_empty}
use pyceli.Templates.Container.Spec.{or_none}
use Prim.Native.String.{◌++◌ as append}

pub data ApiRequestVerb : Type 0 where
  get_verb list_verb create_verb update_verb patch_verb watch_verb delete_verb
        delete_collection_verb :
      ApiRequestVerb

-- `APIRequestVerb.value`
abbrev pub verb_value : ApiRequestVerb → String
verb_value get_verb = "get"
verb_value list_verb = "list"
verb_value create_verb = "create"
verb_value update_verb = "update"
verb_value patch_verb = "patch"
verb_value watch_verb = "watch"
verb_value delete_verb = "delete"
verb_value delete_collection_verb = "deletecollection"

abbrev pub get_read_only : List ApiRequestVerb
get_read_only = get_verb ∷ list_verb ∷ watch_verb ∷ []

abbrev pub get_all_exc_delete_collection : List ApiRequestVerb
get_all_exc_delete_collection =
    get_verb ∷ list_verb ∷ create_verb ∷ update_verb ∷ patch_verb ∷ watch_verb ∷ delete_verb ∷ []

-- The class of a role: `Role` or `ClusterRole`
pub data RoleClass : Type 0 where
  namespaced cluster : RoleClass

-- `Role` and `ClusterRole`, which have the same fields
pub record K8sRole : Type 0 where
  pub role_class : RoleClass
  pub name : String
  pub api_group : String
  pub resource : String
  pub verbs : List ApiRequestVerb
  pub resource_names : List String
  pub labels : Labels

-- `V1Role` and `V1ClusterRole`, with the one rule of theirs
pub record RoleObject : Type 0 where
  pub kind : String
  pub name : String
  pub labels : Labels
  pub api_groups : List String
  pub resources : List String
  pub resource_names : Option (List String)
  pub verbs : List String

abbrev pub role_kind : RoleClass → String
role_kind namespaced = "Role"
role_kind cluster = "ClusterRole"

-- `get_role`, and the `get` of both classes
unfoldable pub get_role : K8sRole → RoleObject
get_role r = record {
  kind = role_kind r.role_class;
  name = r.name;
  labels = r.labels;
  api_groups = (if str_eq r.api_group "core" then "" else r.api_group) ∷ [];
  resources = r.resource ∷ [];
  resource_names = or_none r.resource_names;
  verbs = map verb_value r.verbs;
}

-- `RbacV1Subject`
pub data Subject : Type 0 where
  service_account user : (name : String) → Subject

-- `RoleBinding` and `ClusterRoleBinding`, less the resource names, which are not used
pub record RoleBinding : Type 0 where
  pub binding_class : RoleClass
  pub name : String
  pub role_name : String
  pub service_account_name : Option String
  pub users : List String
  pub labels : Labels

-- `V1RoleBinding` and `V1ClusterRoleBinding`
pub record BindingObject : Type 0 where
  pub kind : String
  pub name : String
  pub labels : Labels
  pub subjects : List Subject
  pub ref_kind : String
  pub ref_name : String

abbrev pub binding_kind : RoleClass → String
binding_kind namespaced = "RoleBinding"
binding_kind cluster = "ClusterRoleBinding"

-- `if service_account_name`: an empty name counts as none.
abbrev pub account_subjects : Option String → List Subject
account_subjects none = []
account_subjects (some String.[]) = []
account_subjects (some (String.◌∷◌ c s)) = service_account (String.◌∷◌ c s) ∷ []

abbrev pub binding_of : RoleBinding → List Subject → Outcome BindingObject
binding_of b [] = err value_error
binding_of b (s ∷ more) = ok (record {
  kind = binding_kind b.binding_class;
  name = b.name;
  labels = b.labels;
  subjects = s ∷ more;
  ref_kind = role_kind b.binding_class;
  ref_name = b.role_name;
})

-- `get_role_binding` of role_binding.py, and the `get` of both classes
unfoldable pub get_role_binding : RoleBinding → Outcome BindingObject
get_role_binding b = binding_of b (account_subjects b.service_account_name ++ map user b.users)

pub record ServiceAccount : Type 0 where
  pub name : String
  pub roles : List K8sRole
  pub annotations : Option (List (String × String))
  pub labels : Labels

abbrev pub long_name : ServiceAccount → K8sRole → String
long_name a r = append "sa-" (append a.name (append "-role-" r.name))

abbrev pub short_name : ServiceAccount → K8sRole → String
short_name a r = append a.name (append "-" r.name)

abbrev pub role_binding_named : ServiceAccount → K8sRole → String → RoleBinding
role_binding_named a r name = record {
  binding_class = r.role_class;
  name = name;
  role_name = r.name;
  service_account_name = some a.name;
  users = [];
  labels = none;
}

-- `ServiceAccount.get_role_binding`
unfoldable pub account_role_binding : ServiceAccount → K8sRole → Outcome RoleBinding
unfolding count_chars
account_role_binding a r =
    if ltb 63 (count_chars (long_name a r))
    then (if ltb 63 (count_chars (short_name a r))
        then err value_error
        else ok (role_binding_named a r (short_name a r)))
    else ok (role_binding_named a r (long_name a r))

-- The objects of an account
pub data AccountObject : Type 0 where
  account_object :
      (name : String)
      → (labels : Labels) → (annotations : Option (List (String × String))) → AccountObject
  role_object : RoleObject → AccountObject
  binding_object : BindingObject → AccountObject

-- The loop over the roles
unfoldable pub role_objects : ServiceAccount → List K8sRole → Outcome (List AccountObject)
unfolding account_role_binding get_role_binding
role_objects a [] = ok []
role_objects a (r ∷ more) = do
  binding ← account_role_binding a r
  bound ← get_role_binding binding
  rest ← role_objects a more
  ok (role_object (get_role r) ∷ binding_object bound ∷ rest)

-- `ServiceAccount.get`
unfoldable pub get_account : ServiceAccount → Outcome (List AccountObject)
unfolding role_objects
get_account a = do
  objects ← role_objects a a.roles
  ok (account_object a.name a.labels a.annotations ∷ objects)
