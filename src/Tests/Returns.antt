-- ===== src/Tests/Returns.antt =====
-- Examples about which runs of the providers of pkg/istio/rbac return.
use k8s_athenz_istio_auth.Prelude.{◌≡◌, refl, true, [], ◌∷◌, some, In, inl, any}
use k8s_athenz_istio_auth.Prelude.Outcome.{ok, returns}
use k8s_athenz_istio_auth.Prelude.Text.{
  codes, same, contains, trim_prefix, cut_prefix, to_upper, replace,
}
use k8s_athenz_istio_auth.Prelude.Keyed.{lookup}
use k8s_athenz_istio_auth.Rbac.Spec.{service_role, service_role_binding}
use k8s_athenz_istio_auth.Rbac.Istio.{new_config}
use k8s_athenz_istio_auth.Rbac.Assertion.{
  parse_role_fqdn, parse_assertion_resource, match_resource, parse_assertion_effect,
  parse_assertion_action,
}
use k8s_athenz_istio_auth.Rbac.ServiceRole.{
  get_service_role_spec, access_rule, convert_athenz_role_name_to_k8s_name,
}
use k8s_athenz_istio_auth.Rbac.V1.Complete.{convert_athenz_model_into_istio_rbac_complete}
use k8s_athenz_istio_auth.Tests.Provider.{
  collections, validation, amy, assertion, home_model, home_configs, home-configs, reader_binding,
  reader-binding,
}

named : parse_role_fqdn (codes "home") (codes "home:role.reader") ≡ ok (codes "reader")
unfolding parse_role_fqdn contains trim_prefix cut_prefix
named = refl

spec :
    get_service_role_spec (codes "home") (codes "reader") (some assertion ∷ [])
    ≡ returns (ok (record { rules = access_rule (codes "web") (codes "/api") (codes "GET") ∷ [] }))
unfolding get_service_role_spec parse_assertion_resource match_resource parse_assertion_effect
    to_upper parse_assertion_action parse_role_fqdn contains trim_prefix cut_prefix same any
spec = refl

V1_complete_example :
    In
      (new_config collections.service_roles
        (codes "home")
        (convert_athenz_role_name_to_k8s_name (codes "reader"))
        (service_role
          (record { rules = access_rule (codes "web") (codes "/api") (codes "GET") ∷ [] })))
      home_configs
    × In
        (new_config collections.service_role_bindings
          (codes "home")
          (convert_athenz_role_name_to_k8s_name (codes "reader"))
          (service_role_binding reader_binding))
        home_configs
unfolding lookup same convert_athenz_role_name_to_k8s_name replace
V1_complete_example =
    convert_athenz_model_into_istio_rbac_complete collections validation true home_model
      (codes "home:role.reader") (codes "reader") (some assertion ∷ []) (some amy ∷ [])
      (record { rules = access_rule (codes "web") (codes "/api") (codes "GET") ∷ [] })
      reader_binding refl named spec refl refl reader-binding refl home_configs (inl refl)
      home-configs
