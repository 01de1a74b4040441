-- ===== src/Tests/Events.antt =====
-- Examples about where the events on the resources of a domain lead.
use k8s_athenz_istio_auth.Prelude.{◌≡◌, refl, [], ◌∷◌, some, arith, any, inl, inr}
use k8s_athenz_istio_auth.Prelude.Outcome.{returns}
use k8s_athenz_istio_auth.Prelude.Text.{
  codes, same, cut_prefix, contains, to_upper, has_prefix, has_suffix, replace, upper, last_index,
  trim_prefix, split,
}
use k8s_athenz_istio_auth.Prelude.Keyed.{lookup, insert}
use k8s_athenz_istio_auth.Prelude.Sort.{sort_strings, insert_sorted, text_leb}
use k8s_athenz_istio_auth.Athenz.Names.{domain_to_namespace}
use k8s_athenz_istio_auth.Athenz.Model.{convert_athenz_policies_into_rbac_model}
use k8s_athenz_istio_auth.Rbac.Config.{Config}
use k8s_athenz_istio_auth.Rbac.Spec.{Spec, service_role_binding}
use k8s_athenz_istio_auth.Rbac.Istio.{new_config}
use k8s_athenz_istio_auth.Rbac.Assertion.{
  parse_assertion_resource, match_resource, parse_assertion_effect, parse_assertion_action,
  parse_role_fqdn,
}
use k8s_athenz_istio_auth.Rbac.Member.{
  check_athenz_member_expiry, check_athenz_system_disabled,
  check_if_member_is_all_users_from_domain, all_users_namespace, get_member_name, member_to_spiffe,
  member_to_origin_jwt_subject, role_to_spiffe, principal_to_spiffe,
}
use k8s_athenz_istio_auth.Rbac.V2.{keys, drop_query, convert_athenz_model_into_istio_rbac}
use k8s_athenz_istio_auth.Domains.{process_config_event}
use k8s_athenz_istio_auth.Domains.Home.{process_config_event-desired}
use k8s_athenz_istio_auth.Policies.{parse_key, event_handler_key}
use k8s_athenz_istio_auth.Policies.Home.{parse_key-event_handler_key}
use k8s_athenz_istio_auth.Tests.Provider.{
  collections, home_model, home_configs, home-configs, reader_binding,
}
use k8s_athenz_istio_auth.Tests.Processing.{home_domain, home-model}
use k8s_athenz_istio_auth.Tests.Processing as Processing
use k8s_athenz_istio_auth.Tests.Policies.{made_policy}
use k8s_athenz_istio_auth.Tests.Policies as Policies

abbrev binding : Config Spec
binding =
    new_config collections.service_role_bindings (codes "home") (codes "reader")
      (service_role_binding reader_binding)

process_config_event-desired_example :
    process_config_event (codes "sports" ∷ []) binding ≡ codes "sports" ∷ codes "home" ∷ []
process_config_event-desired_example =
    process_config_event-desired Processing.env (some home_domain) home_model home_configs binding
      (codes "sports" ∷ []) (omega arith) home-model home-configs (inr (inl refl))

model :
    convert_athenz_policies_into_rbac_model (some home_domain) (some Policies.env.domain_by_key)
    ≡ returns home_model
unfolding convert_athenz_policies_into_rbac_model domain_to_namespace insert replace lookup
model = refl

policy :
    convert_athenz_model_into_istio_rbac Policies.env.enable_origin_jwt_subject Policies.env.now
      Policies.env.match_string Policies.env.collections home_model
      (codes "web")
      (codes "web")
      (codes "web")
    ≡ returns (made_policy ∷ [])
unfolding convert_athenz_model_into_istio_rbac sort_strings insert_sorted text_leb lookup same
    parse_assertion_resource match_resource cut_prefix contains parse_assertion_effect to_upper
    parse_assertion_action any check_athenz_member_expiry check_athenz_system_disabled
    check_if_member_is_all_users_from_domain has_prefix domain_to_namespace has_suffix replace upper
    all_users_namespace get_member_name keys member_to_spiffe member_to_origin_jwt_subject
    role_to_spiffe principal_to_spiffe last_index parse_role_fqdn trim_prefix drop_query split
policy = refl

parse_key-event_handler_key_example :
    parse_key (event_handler_key made_policy) ≡ (codes "home", codes "web")
parse_key-event_handler_key_example =
    parse_key-event_handler_key Policies.env (some home_domain) home_model (codes "web")
      (codes "web") (codes "web") (made_policy ∷ []) made_policy (omega arith) (omega arith)
      (omega arith) model policy (inl refl)
