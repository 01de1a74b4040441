-- ===== src/Policies/Home.antt =====
-- Where the events on the policy of a service lead: `EventHandler` and the keys of `sync` of
-- pkg/istio/authorizationpolicy/controller.go.
use k8s_athenz_istio_auth.Prelude.{
  ◌≡◌, ap, subst, List, [], ◌∷◌, ◌++◌, Option, some, In, inl, inr, arith,
}
use k8s_athenz_istio_auth.Prelude.Outcome.{returns}
use k8s_athenz_istio_auth.Prelude.Text.{
  Text, replace, Lacks, split-Lacks, split-append, replace-Lacks,
}
use k8s_athenz_istio_auth.Athenz.Names.{domain_to_namespace, IsDotted, to_domain-to_namespace_iff}
use k8s_athenz_istio_auth.Athenz.Zms.{DomainData}
use k8s_athenz_istio_auth.Athenz.Model.{
  Model, domain_name_of, convert_athenz_policies_into_rbac_model,
}
use k8s_athenz_istio_auth.Athenz.Model.Placed.{model-placed}
use k8s_athenz_istio_auth.Rbac.Config.{Config}
use k8s_athenz_istio_auth.Rbac.Spec.{Spec}
use k8s_athenz_istio_auth.Rbac.V2.{convert_athenz_model_into_istio_rbac}
use k8s_athenz_istio_auth.Rbac.V2.Granted.{convert_athenz_model_into_istio_rbac-IsGrantedRule}
use k8s_athenz_istio_auth.Policies.{Environment, parse_key, event_handler_key}

namespace-Lacks : (domain : Text) → Lacks b'/' domain → Lacks b'/' (domain_to_namespace domain)
unfolding domain_to_namespace
namespace-Lacks domain h =
    replace-Lacks (replace domain b'-' _) b'.' b'/' _
      (replace-Lacks domain b'-' b'/' _ h (omega arith, (omega arith, tt))) (omega arith, tt)

-- The key of a service in the namespace of a domain is read back as the domain and the service.
pub parse_key-append :
    (domain service : Text)
    → IsDotted domain
    → Lacks b'/' domain
    → Lacks b'/' service
    → parse_key (domain_to_namespace domain ++ (b'/' ∷ service)) ≡ (domain, service)
unfolding parse_key
parse_key-append domain service dotted no_slash service_no_slash =
    rw
      (
        split-append (domain_to_namespace domain) b'/' service (namespace-Lacks domain no_slash),
        split-Lacks service b'/' service_no_slash,
      )
      (ap (λ d. (d, service)) ((to_domain-to_namespace_iff domain).1 dotted))

-- The key that an event on the policy of a service puts on the queue is read back, by the sync, as
-- the domain that the policy was made for and the service, if neither has a slash and no dot of the
-- domain stands directly before a dot or a dash.
pub parse_key-event_handler_key :
    (env : Environment) (domain : Option DomainData) (m : Model)
    (service_name svc_label app_label : Text) (out : List (Config Spec)) (c : Config Spec)
    → IsDotted (domain_name_of domain)
    → Lacks b'/' (domain_name_of domain)
    → Lacks b'/' service_name
    → convert_athenz_policies_into_rbac_model domain (some env.domain_by_key) ≡ returns m
    → convert_athenz_model_into_istio_rbac env.enable_origin_jwt_subject env.now env.match_string
        env.collections m service_name svc_label app_label
      ≡ returns out
    → In c out
    → parse_key (event_handler_key c) ≡ (domain_name_of domain, service_name)
unfolding event_handler_key
parse_key-event_handler_key env domain m service_name svc_label app_label out c dotted no_slash
      service_no_slash hm ho i =
    let (d, rules, is_one, is_named, is_placed, _, _) =
      convert_athenz_model_into_istio_rbac-IsGrantedRule env.enable_origin_jwt_subject env.now
        env.match_string env.collections m service_name svc_label app_label out ho in
    let i' : In c (d ∷ []) = subst (λ cs. In c cs) is_one i in
    let same_config : c ≡ d = elim i' [ inl e ↦ e | inr other ↦ absurd other ] in
    rw (same_config, is_named, is_placed, (model-placed domain (some env.domain_by_key) m hm).1)
      (parse_key-append (domain_name_of domain) service_name dotted no_slash service_no_slash)
