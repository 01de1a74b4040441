-- ===== src/Athenz/Model/Placed.antt =====
-- The name and the namespace of the model of a domain, in pkg/athenz/model.go.
use k8s_athenz_istio_auth.Prelude.{◌≡◌, sym, ap, Option}
use k8s_athenz_istio_auth.Prelude.Outcome.{returns, bind-eq_returns, returns_injective}
use k8s_athenz_istio_auth.Prelude.Text.{Text}
use k8s_athenz_istio_auth.Athenz.Names.{domain_to_namespace}
use k8s_athenz_istio_auth.Athenz.Zms.{DomainData}
use k8s_athenz_istio_auth.Athenz.Trust.{Cached}
use k8s_athenz_istio_auth.Athenz.Model.{
  Model, domain_name_of, get_rules_for_domain, get_members_for_role,
  convert_athenz_policies_into_rbac_model,
}

module _ (domain : Option DomainData) (cr_cache : Option (Text → Option Cached)) (m : Model)
    (converts : convert_athenz_policies_into_rbac_model domain cr_cache ≡ returns m) where
  pub model-placed :
      (m.name ≡ domain_name_of domain) × (m.namespace ≡ domain_to_namespace (domain_name_of domain))
  unfolding convert_athenz_policies_into_rbac_model
  model-placed =
      let (rules, er, h1) = bind-eq_returns (get_rules_for_domain domain) _ converts in
      let (members, em, h2) = bind-eq_returns (get_members_for_role domain cr_cache) _ h1 in
      (
        ap (λ (x : Model). x.name) (sym (returns_injective h2)),
        ap (λ (x : Model). x.namespace) (sym (returns_injective h2)),
      )
