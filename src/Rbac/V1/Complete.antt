-- ===== src/Rbac/V1/Complete.antt =====
-- About the service roles and bindings of pkg/istio/rbac/v1/provider.go, for a role of the model.
use k8s_athenz_istio_auth.Prelude.{
  ◌≡◌, refl, sym, subst, ap, ◌∙◌, Bool, true, List, [], ◌∷◌, ◌++◌, Option, some, In,
  In-append_right, inl, inr,
}
use k8s_athenz_istio_auth.Prelude.Outcome.{ok, returns, bind-eq_returns, returns_injective}
use k8s_athenz_istio_auth.Prelude.Text.{Text}
use k8s_athenz_istio_auth.Prelude.Keyed.{lookup}
use k8s_athenz_istio_auth.Athenz.Zms.{Assertion, RoleMember}
use k8s_athenz_istio_auth.Athenz.Model.{Model}
use k8s_athenz_istio_auth.Rbac.Config.{Config}
use k8s_athenz_istio_auth.Rbac.Spec.{
  Spec, ServiceRole, ServiceRoleBinding, service_role, service_role_binding,
}
use k8s_athenz_istio_auth.Rbac.Istio.{Collections, Validation, new_config}
use k8s_athenz_istio_auth.Rbac.Assertion.{parse_role_fqdn}
use k8s_athenz_istio_auth.Rbac.ServiceRole.{
  get_service_role_spec, convert_athenz_role_name_to_k8s_name,
}
use k8s_athenz_istio_auth.Rbac.Binding.{get_service_role_binding_spec}
use k8s_athenz_istio_auth.Rbac.V1.{
  binding_list, member_configs, service_role_configs, named_configs, assertion_configs,
  roles_configs, convert_athenz_model_into_istio_rbac,
}

module _ (collections : Collections) (validation : Validation) (jwt : Bool) (m : Model)
    (role role_name : Text) (assertions : List (Option Assertion))
    (members : List (Option RoleMember)) (sr : ServiceRole) (srb : ServiceRoleBinding)
    (has_assertions : lookup m.rules role ≡ some assertions)
    (is_named : parse_role_fqdn m.name role ≡ ok role_name)
    (has_spec : get_service_role_spec m.name role_name assertions ≡ returns (ok sr))
    (is_valid : validation.validate_service_role role_name m.namespace sr ≡ true)
    (has_members : lookup m.members role ≡ some members)
    (has_binding : get_service_role_binding_spec m.name role_name
        (convert_athenz_role_name_to_k8s_name role_name)
        members
        jwt
      ≡ returns (ok srb))
    (is_valid_binding : validation.validate_service_role_binding role_name m.namespace srb
      ≡ true) where
  made_role : Config Spec
  made_role =
      new_config collections.service_roles m.namespace
        (convert_athenz_role_name_to_k8s_name role_name) (service_role sr)

  made_binding : Config Spec
  made_binding =
      new_config collections.service_role_bindings m.namespace
        (convert_athenz_role_name_to_k8s_name role_name) (service_role_binding srb)

  binding_list-made :
      binding_list collections validation jwt m role_name (ok srb) ≡ made_binding ∷ []
  unfolding binding_list made_binding
  binding_list-made = rw (is_valid_binding) refl

  member_configs-made :
      member_configs collections validation jwt m role_name (lookup m.members role)
      ≡ returns (made_binding ∷ [])
  unfolding member_configs
  member_configs-made = rw (has_members, member_configs, has_binding, binding_list-made) refl

  service_role_configs-made :
      service_role_configs collections validation jwt m role role_name (ok sr)
      ≡ returns (made_role ∷ made_binding ∷ [])
  unfolding service_role_configs made_role
  service_role_configs-made = rw (is_valid, member_configs-made) refl

  assertion_configs-made :
      assertion_configs collections validation jwt m role (lookup m.rules role)
      ≡ returns (made_role ∷ made_binding ∷ [])
  unfolding assertion_configs named_configs
  assertion_configs-made =
      rw (has_assertions, assertion_configs, is_named, named_configs, has_spec)
        service_role_configs-made

  round_made :
      (r : Text) (first : List (Config Spec))
      → role ≡ r
      → assertion_configs collections validation jwt m r (lookup m.rules r) ≡ returns first
      → made_role ∷ made_binding ∷ [] ≡ first
  round_made r first here h = returns_injective (
      sym assertion_configs-made
      ∙ ap (λ x. assertion_configs collections validation jwt m x (lookup m.rules x)) here
      ∙ h)

  roles_configs-made :
      (roles : List Text) (out : List (Config Spec))
      → In role roles
      → roles_configs collections validation jwt m roles ≡ returns out
      → In made_role out × In made_binding out
  unfolding roles_configs
  roles_configs-made [] out i h = absurd i
  roles_configs-made (r ∷ roles) out i h =
      let (first, ef, h1) =
        bind-eq_returns (assertion_configs collections validation jwt m r (lookup m.rules r)) _ h in
      let (rest, er, h2) =
        bind-eq_returns (roles_configs collections validation jwt m roles) _ h1 in
      let found : In made_role (first ++ rest) × In made_binding (first ++ rest) = elim i [
        | inl here ↦
            subst (λ cs. In made_role (cs ++ rest) × In made_binding (cs ++ rest))
              (round_made r first here ef) (inl refl, inr (inl refl))
        | inr later ↦
            let (a, b) = roles_configs-made roles rest later er in
            (In-append_right made_role first rest a, In-append_right made_binding first rest b)
      ] in
      subst (λ cs. In made_role cs × In made_binding cs) (returns_injective h2) found

  -- If the model has rules and members for one of its roles, the name of the role is parsed, and the
  -- specifications that are made of the rules and the members pass the validation, then the
  -- resources have the service role of these rules and the binding of these members.
  pub convert_athenz_model_into_istio_rbac_complete :
      (out : List (Config Spec))
      → In role m.roles
      → convert_athenz_model_into_istio_rbac collections validation jwt m ≡ returns out
      → In
          (new_config collections.service_roles m.namespace
            (convert_athenz_role_name_to_k8s_name role_name)
            (service_role sr))
          out
        × In
            (new_config collections.service_role_bindings m.namespace
              (convert_athenz_role_name_to_k8s_name role_name)
              (service_role_binding srb))
            out
  unfolding convert_athenz_model_into_istio_rbac made_role made_binding
  convert_athenz_model_into_istio_rbac_complete out i h = roles_configs-made m.roles out i h
