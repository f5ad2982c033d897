-- ===== src/Templates/Account/Tests.antt =====
-- An account with a role and a cluster role, and the theorem on its objects there.
use pyceli.Base.{◌<◌, ◌≡◌, ◌⊎◌, refl, arith, String, List, [], ◌∷◌, All, Any, none}
use pyceli.Manager.Client.{ok, err, value_error}
use pyceli.Templates.Labels.{count_chars}
use pyceli.Templates.Account.{
  K8sRole, RoleClass, namespaced, cluster, get_role, service_account, ServiceAccount, AccountObject,
  account_object, role_object, binding_object, get_account, get_read_only, account_role_binding,
}
use pyceli.Templates.Account.Bound.{HasRoom, Grants, get_account-Grants}

abbrev reader : RoleClass → String → K8sRole
reader role_class name = record {
  role_class = role_class;
  name = name;
  api_group = "core";
  resource = "pods";
  verbs = get_read_only;
  resource_names = [];
  labels = none;
}

abbrev account : List K8sRole → ServiceAccount
account roles = record { name = "runner"; roles = roles; annotations = none; labels = none }

abbrev two_roles : ServiceAccount
two_roles = account (
    reader namespaced "pods"
    ∷ reader cluster "pods-of-all-namespaces-of-the-whole-cluster-of-ours"
    ∷ [])

-- The second name is too long with its prefix, and fits without.
two_roles_objects :
    get_account two_roles
    ≡ ok (
        account_object "runner" none none
        ∷ role_object (get_role (reader namespaced "pods"))
        ∷ binding_object (record {
          kind = "RoleBinding";
          name = "sa-runner-role-pods";
          labels = none;
          subjects = service_account "runner" ∷ [];
          ref_kind = "Role";
          ref_name = "pods";
        })
        ∷ role_object
            (get_role (reader cluster "pods-of-all-namespaces-of-the-whole-cluster-of-ours"))
        ∷ binding_object (record {
          kind = "ClusterRoleBinding";
          name = "runner-pods-of-all-namespaces-of-the-whole-cluster-of-ours";
          labels = none;
          subjects = service_account "runner" ∷ [];
          ref_kind = "ClusterRole";
          ref_name = "pods-of-all-namespaces-of-the-whole-cluster-of-ours";
        })
        ∷ [])
unfolding get_account
two_roles_objects = refl

name_too_long :
    account_role_binding two_roles
      (reader namespaced "a-role-with-a-name-that-leaves-no-room-for-that-of-the-account")
    ≡ err value_error
unfolding account_role_binding
name_too_long = refl

runner_named : 0 < count_chars two_roles.name
unfolding count_chars
runner_named = ground arith

get_account-Grants_example :
    (All (HasRoom two_roles) two_roles.roles
      × ((objects : List AccountObject) × (get_account two_roles ≡ ok objects)
          × All (Grants two_roles objects) two_roles.roles))
    ⊎ (Any (λ r. ¬ HasRoom two_roles r) two_roles.roles × (get_account two_roles ≡ err value_error))
get_account-Grants_example = get_account-Grants two_roles runner_named
