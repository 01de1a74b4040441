-- ===== src/Rbac/V1/Made.antt =====
-- About one resource of pkg/istio/rbac/v1/provider.go: what it grants, and to whom.
use k8s_athenz_istio_auth.Prelude.{
  ◌≡◌, refl, subst, Bool, List, [], ◌∷◌, ◌++◌, Option, none, some, All, inl, inr, Bool-cases,
}
use k8s_athenz_istio_auth.Prelude.Outcome.{Result, ok, err, returns, bind-eq_returns}
use k8s_athenz_istio_auth.Prelude.Text.{Text, codes}
use k8s_athenz_istio_auth.Prelude.Keyed.{lookup}
use k8s_athenz_istio_auth.Athenz.Zms.{Assertion, RoleMember}
use k8s_athenz_istio_auth.Athenz.Model.{Model}
use k8s_athenz_istio_auth.Rbac.Config.{Config}
use k8s_athenz_istio_auth.Rbac.Spec.{
  Spec, ServiceRole, ServiceRoleBinding, Subject, service_role, service_role_binding,
}
use k8s_athenz_istio_auth.Rbac.Istio.{Collections, Validation, new_config}
use k8s_athenz_istio_auth.Rbac.ServiceRole.{
  get_service_role_spec, convert_athenz_role_name_to_k8s_name,
}
use k8s_athenz_istio_auth.Rbac.ServiceRole.Grants.{IsGranted, get_service_role_spec-IsGranted}
use k8s_athenz_istio_auth.Rbac.Binding.{get_service_role_binding_spec}
use k8s_athenz_istio_auth.Rbac.Binding.Subjects.{
  IsOfSomeMember, IsLetIn, get_service_role_binding_spec_sound,
}
use k8s_athenz_istio_auth.Rbac.V1.{binding_list, member_configs}

-- The configuration is the service role of a role, and each of its rules is granted by an assertion
-- that the model has for the role.
pub record IsRoleOf (m : Model) (role role_name : Text) (c : Config Spec) : Type 0 where
  pub spec : ServiceRole
  pub assertions : List (Option Assertion)
  pub is_spec : c.spec ≡ service_role spec
  pub is_named : c.meta.name ≡ convert_athenz_role_name_to_k8s_name role_name
  pub is_placed : c.meta.namespace ≡ m.namespace
  pub has_assertions : lookup m.rules role ≡ some assertions
  pub is_granted : All (IsGranted m.name role_name assertions) spec.rules

-- The configuration is the binding of a role. It refers to the service role of its own name, and
-- lets in the members that the model has for the role, and the certificate of the role.
pub record IsBindingOf (jwt : Bool) (m : Model) (role role_name : Text) (c : Config Spec)
    : Type 0 where
  pub spec : ServiceRoleBinding
  pub members : List (Option RoleMember)
  pub front : List Subject
  pub is_spec : c.spec ≡ service_role_binding spec
  pub is_named : c.meta.name ≡ convert_athenz_role_name_to_k8s_name role_name
  pub is_placed : c.meta.namespace ≡ m.namespace
  pub refers : spec.role_ref.name ≡ convert_athenz_role_name_to_k8s_name role_name
  pub has_members : lookup m.members role ≡ some members
  pub lets_in :
      spec.subjects
      ≡ front ++ (record { user = m.name ++ (codes "/ra/" ++ role_name); properties = [] } ∷ [])
  pub are_members : All (IsOfSomeMember jwt members) front
  pub are_let_in : All (IsLetIn jwt spec.subjects) members

module _ (collections : Collections) (validation : Validation) (jwt : Bool) (m : Model) where
  IsBindingOf-spec :
      (role role_name : Text) (members : List (Option RoleMember)) (srb : ServiceRoleBinding)
      → lookup m.members role ≡ some members
      → get_service_role_binding_spec m.name role_name
          (convert_athenz_role_name_to_k8s_name role_name)
          members
          jwt
        ≡ returns (ok srb)
      → IsBindingOf jwt m role role_name (
          new_config collections.service_role_bindings m.namespace
            (convert_athenz_role_name_to_k8s_name role_name)
            (service_role_binding srb))
  unfolding new_config
  IsBindingOf-spec role role_name members srb e h =
      let (front, lets, are, all, refers, _, _) =
        get_service_role_binding_spec_sound jwt m.name role_name
          (convert_athenz_role_name_to_k8s_name role_name) members srb h in
      record {
        spec = srb;
        members = members;
        front = front;
        is_spec = refl;
        is_named = refl;
        is_placed = refl;
        refers = refers;
        has_members = e;
        lets_in = lets;
        are_members = are;
        are_let_in = all;
      }

  pub IsRoleOf-spec :
      (role role_name : Text) (assertions : List (Option Assertion)) (sr : ServiceRole)
      → lookup m.rules role ≡ some assertions
      → get_service_role_spec m.name role_name assertions ≡ returns (ok sr)
      → IsRoleOf m role role_name (
          new_config collections.service_roles m.namespace
            (convert_athenz_role_name_to_k8s_name role_name)
            (service_role sr))
  unfolding new_config
  IsRoleOf-spec role role_name assertions sr e h = record {
    spec = sr;
    assertions = assertions;
    is_spec = refl;
    is_named = refl;
    is_placed = refl;
    has_assertions = e;
    is_granted = (get_service_role_spec-IsGranted m.name role_name assertions sr h).0;
  }

  binding_list-IsBindingOf :
      (role role_name : Text) (members : List (Option RoleMember)) (r : Result ServiceRoleBinding)
      → lookup m.members role ≡ some members
      → get_service_role_binding_spec m.name role_name
          (convert_athenz_role_name_to_k8s_name role_name)
          members
          jwt
        ≡ returns r
      → All
          (IsBindingOf jwt m role role_name)
          (binding_list collections validation jwt m role_name r)
  unfolding binding_list
  binding_list-IsBindingOf role role_name members (err e) hm h = tt
  binding_list-IsBindingOf role role_name members (ok srb) hm h =
      elim (Bool-cases (validation.validate_service_role_binding role_name m.namespace srb)) [
        | inl v ↦ rw v (IsBindingOf-spec role role_name members srb hm h, tt)
        | inr v ↦ rw v tt
      ]

  pub member_configs-IsBindingOf :
      (role role_name : Text) (o : Option (List (Option RoleMember))) (cs : List (Config Spec))
      → lookup m.members role ≡ o
      → member_configs collections validation jwt m role_name o ≡ returns cs
      → All (IsBindingOf jwt m role role_name) cs
  unfolding member_configs
  member_configs-IsBindingOf role role_name none cs hm h =
      let nil : [] ≡ cs = cc in subst (All (IsBindingOf jwt m role role_name)) nil tt
  member_configs-IsBindingOf role role_name (some members) cs hm h =
      let (r, er, h1) =
        bind-eq_returns
          (get_service_role_binding_spec m.name role_name
            (convert_athenz_role_name_to_k8s_name role_name) members jwt)
          _ h in
      let made : binding_list collections validation jwt m role_name r ≡ cs = cc h1 in
      subst (All (IsBindingOf jwt m role role_name)) made
        (binding_list-IsBindingOf role role_name members r hm er)
