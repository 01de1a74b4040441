-- ===== src/Rbac/V1.antt =====
-- pkg/istio/rbac/v1/provider.go: the service roles and their bindings for a model.
pub mod Made
pub mod Produced
pub mod Complete
pub mod Total
use k8s_athenz_istio_auth.Prelude.{
  Bool, not, List, [], ◌∷◌, ◌++◌, Option, none, some, if◌then◌else◌,
}
use k8s_athenz_istio_auth.Prelude.Outcome.{Result, ok, err, Outcome, returns, bind}
use k8s_athenz_istio_auth.Prelude.Text.{Text}
use k8s_athenz_istio_auth.Prelude.Keyed.{lookup}
use k8s_athenz_istio_auth.Athenz.Zms.{Assertion, RoleMember}
use k8s_athenz_istio_auth.Athenz.Model.{Model}
use k8s_athenz_istio_auth.Rbac.Config.{Config}
use k8s_athenz_istio_auth.Rbac.Spec.{
  Spec, ServiceRole, ServiceRoleBinding, service_role, service_role_binding,
}
use k8s_athenz_istio_auth.Rbac.Istio.{Collections, Validation, ConfigStoreCache, new_config}
use k8s_athenz_istio_auth.Rbac.Assertion.{parse_role_fqdn}
use k8s_athenz_istio_auth.Rbac.ServiceRole.{
  get_service_role_spec, convert_athenz_role_name_to_k8s_name,
}
use k8s_athenz_istio_auth.Rbac.Binding.{get_service_role_binding_spec}

module _ (collections : Collections) (validation : Validation)
    (enable_origin_jwt_subject : Bool) where
  -- The binding of a specification that passes the validation.
  pub binding_list : Model → Text → Result ServiceRoleBinding → List (Config Spec)
  binding_list m role_name (err e) = []
  binding_list m role_name (ok srb_spec) =
      if not (validation.validate_service_role_binding role_name m.namespace srb_spec)
      then []
      else new_config collections.service_role_bindings m.namespace
          (convert_athenz_role_name_to_k8s_name role_name) (service_role_binding srb_spec)
        ∷ []

  -- The binding for the members of the role, if the model has them.
  pub member_configs :
      Model → Text → Option (List (Option RoleMember)) → Outcome (List (Config Spec))
  unfolding binding_list
  member_configs m role_name none = returns []
  member_configs m role_name (some role_members) =
      bind
        (get_service_role_binding_spec m.name role_name
          (convert_athenz_role_name_to_k8s_name role_name) role_members enable_origin_jwt_subject)
        λ srb. returns (binding_list m role_name srb)

  -- A round from the specification of the service role on.
  pub service_role_configs : Model → Text → Text → Result ServiceRole → Outcome (List (Config Spec))
  unfolding member_configs
  service_role_configs m role_fqdn role_name (err e) = returns []
  service_role_configs m role_fqdn role_name (ok sr_spec) =
      if not (validation.validate_service_role role_name m.namespace sr_spec)
      then returns []
      else bind (member_configs m role_name (lookup m.members role_fqdn)) λ bindings. returns (
          new_config collections.service_roles m.namespace
            (convert_athenz_role_name_to_k8s_name role_name) (service_role sr_spec)
          ∷ bindings)

  -- A round from the name of the role on.
  pub named_configs :
      Model → Text → List (Option Assertion) → Result Text → Outcome (List (Config Spec))
  unfolding service_role_configs
  named_configs m role_fqdn assertions (err e) = returns []
  named_configs m role_fqdn assertions (ok role_name) =
      bind (get_service_role_spec m.name role_name assertions)
        λ sr. service_role_configs m role_fqdn role_name sr

  -- A round from the assertions of the role on, if the model has them.
  pub assertion_configs :
      Model → Text → Option (List (Option Assertion)) → Outcome (List (Config Spec))
  unfolding named_configs
  assertion_configs m role_fqdn none = returns []
  assertion_configs m role_fqdn (some assertions) =
      named_configs m role_fqdn assertions (parse_role_fqdn m.name role_fqdn)

  -- The loop over the roles.
  pub roles_configs : Model → List Text → Outcome (List (Config Spec))
  unfolding assertion_configs
  roles_configs m [] = returns []
  roles_configs m (role ∷ roles) =
      bind (assertion_configs m role (lookup m.rules role))
        λ first. bind (roles_configs m roles) λ rest. returns (first ++ rest)

  -- `ConvertAthenzModelIntoIstioRbac`
  unfoldable pub convert_athenz_model_into_istio_rbac : Model → Outcome (List (Config Spec))
  unfolding roles_configs
  convert_athenz_model_into_istio_rbac m = roles_configs m m.roles

-- `GetCurrentIstioRbac`
unfoldable pub get_current_istio_rbac : Collections → Model → ConfigStoreCache → List (Config Spec)
get_current_istio_rbac collections m csc =
    csc.list_configs collections.service_roles m.namespace
    ++ csc.list_configs collections.service_role_bindings m.namespace
