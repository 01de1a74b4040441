-- ===== src/Rbac/V1/Total.antt =====
-- About which models the v1 provider, pkg/istio/rbac/v1/provider.go, returns for.
use k8s_athenz_istio_auth.Prelude.{
  ◌≡◌, ◌≢◌, refl, ◌∙◌, Bool, List, [], ◌∷◌, ◌++◌, Option, none, some, All, inl, inr, Bool-cases,
}
use k8s_athenz_istio_auth.Prelude.Outcome.{Result, ok, err, Outcome, returns, bind-returns}
use k8s_athenz_istio_auth.Prelude.Text.{Text}
use k8s_athenz_istio_auth.Prelude.Keyed.{lookup}
use k8s_athenz_istio_auth.Athenz.Zms.{Assertion, RoleMember}
use k8s_athenz_istio_auth.Athenz.Model.{Model}
use k8s_athenz_istio_auth.Rbac.Config.{Config}
use k8s_athenz_istio_auth.Rbac.Spec.{Spec, ServiceRole}
use k8s_athenz_istio_auth.Rbac.Istio.{Collections, Validation}
use k8s_athenz_istio_auth.Rbac.Assertion.{parse_role_fqdn}
use k8s_athenz_istio_auth.Rbac.ServiceRole.{convert_athenz_role_name_to_k8s_name}
use k8s_athenz_istio_auth.Rbac.ServiceRole.Total.{get_service_role_spec_total}
use k8s_athenz_istio_auth.Rbac.Binding.Total.{get_service_role_binding_spec_total}
use k8s_athenz_istio_auth.Rbac.V1.{
  member_configs, service_role_configs, named_configs, assertion_configs, roles_configs,
  convert_athenz_model_into_istio_rbac,
}

-- No list of assertions or of members of the model has a nil pointer.
pub record HasNoNil (m : Model) : Type 0 where
  pub assertions :
      (role : Text) (list : List (Option Assertion))
      → lookup m.rules role ≡ some list
      → All (λ a. a ≢ none) list
  pub members :
      (role : Text) (ms : List (Option RoleMember))
      → lookup m.members role ≡ some ms
      → All (λ r. r ≢ none) ms

module _ (collections : Collections) (validation : Validation) (jwt : Bool) (m : Model)
    (no_nil : HasNoNil m) where
  abbrev Returns : Outcome (List (Config Spec)) → Type 0
  Returns o = (cs : List (Config Spec)) × (o ≡ returns cs)

  member_configs_total :
      (role role_name : Text) (o : Option (List (Option RoleMember)))
      → lookup m.members role ≡ o
      → Returns (member_configs collections validation jwt m role_name o)
  unfolding member_configs
  member_configs_total role role_name none e = (_, refl)
  member_configs_total role role_name (some ms) e =
      let (r, h) =
        get_service_role_binding_spec_total m.name role_name
          (convert_athenz_role_name_to_k8s_name role_name) jwt ms (no_nil.members role ms e) in
      (_, bind-returns _ _ h)

  service_role_configs_total :
      (role role_name : Text) (r : Result ServiceRole)
      → Returns (service_role_configs collections validation jwt m role role_name r)
  unfolding service_role_configs
  service_role_configs_total role role_name (err e) = (_, refl)
  service_role_configs_total role role_name (ok sr) =
      elim (Bool-cases (validation.validate_service_role role_name m.namespace sr)) [
        | inl v ↦
            let (bindings, h) = member_configs_total role role_name (lookup m.members role) refl in
            rw (v) (_, bind-returns _ _ h)
        | inr v ↦ rw (v) ([], refl)
      ]

  named_configs_total :
      (role : Text) (assertions : List (Option Assertion)) (r : Result Text)
      → All (λ a. a ≢ none) assertions
      → Returns (named_configs collections validation jwt m role assertions r)
  unfolding named_configs
  named_configs_total role assertions (err e) h = (_, refl)
  named_configs_total role assertions (ok role_name) h =
      let (r, hr) = get_service_role_spec_total m.name role_name assertions h in
      let (cs, hc) = service_role_configs_total role role_name r in (cs, bind-returns _ _ hr ∙ hc)

  assertion_configs_total :
      (role : Text) (o : Option (List (Option Assertion)))
      → lookup m.rules role ≡ o
      → Returns (assertion_configs collections validation jwt m role o)
  unfolding assertion_configs
  assertion_configs_total role none e = (_, refl)
  assertion_configs_total role (some assertions) e =
      named_configs_total role assertions (parse_role_fqdn m.name role)
        (no_nil.assertions role assertions e)

  roles_configs_total :
      (roles : List Text) → Returns (roles_configs collections validation jwt m roles)
  unfolding roles_configs
  roles_configs_total [] = (_, refl)
  roles_configs_total (role ∷ roles) =
      let (first, hf) = assertion_configs_total role (lookup m.rules role) refl in
      let (rest, hr) = roles_configs_total roles in
      (first ++ rest, bind-returns _ _ hf ∙ bind-returns _ _ hr)

  -- For a model whose lists of assertions and members have no nil pointer, the provider returns.
  pub convert_athenz_model_into_istio_rbac_total :
      (out : List (Config Spec)) × (convert_athenz_model_into_istio_rbac collections validation jwt
          m
        ≡ returns out)
  unfolding convert_athenz_model_into_istio_rbac
  convert_athenz_model_into_istio_rbac_total = roles_configs_total m.roles
