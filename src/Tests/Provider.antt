-- ===== src/Tests/Provider.antt =====
-- Examples about pkg/istio/rbac/v1.
use k8s_athenz_istio_auth.Rbac.Assertion.{
  parse_role_fqdn, parse_assertion_resource, match_resource, parse_assertion_effect,
  parse_assertion_action,
}
use k8s_athenz_istio_auth.Prelude.Keyed.{lookup}
use k8s_athenz_istio_auth.Rbac.Member.{principal_to_spiffe, role_to_spiffe}
use k8s_athenz_istio_auth.Prelude.{◌≡◌, ◌≢◌, refl, true, List, [], ◌∷◌, ◌++◌, none, some, All, any}
use k8s_athenz_istio_auth.Prelude.Outcome.{returns, ok}
use k8s_athenz_istio_auth.Prelude.Text.{
  Text, codes, same, last_index, contains, trim_prefix, cut_prefix, to_upper, upper, replace,
}
use k8s_athenz_istio_auth.Athenz.Zms.{RoleMember, Assertion, allow}
use k8s_athenz_istio_auth.Athenz.Model.{Model}
use k8s_athenz_istio_auth.Rbac.Config.{Config}
use k8s_athenz_istio_auth.Rbac.Spec.{
  Spec, ServiceRoleBinding, Subject, service_role, service_role_binding,
}
use k8s_athenz_istio_auth.Rbac.Istio.{Schema, Collections, Validation, new_config}
use k8s_athenz_istio_auth.Rbac.ServiceRole.{
  access_rule, get_service_role_spec, convert_athenz_role_name_to_k8s_name,
}
use k8s_athenz_istio_auth.Rbac.Binding.{spiffe_subject, jwt_subject, get_service_role_binding_spec}
use k8s_athenz_istio_auth.Rbac.Binding.Subjects.{
  IsOfSomeMember, IsLetIn, get_service_role_binding_spec_sound,
}
use k8s_athenz_istio_auth.Rbac.V1.{convert_athenz_model_into_istio_rbac}
use k8s_athenz_istio_auth.Rbac.V1.Produced.{IsRounds, convert_athenz_model_into_istio_rbac-IsRounds}

abbrev pub amy : RoleMember
amy = record { member_name = codes "user.amy"; expiration = none; system_disabled = none }

abbrev pub reader_binding : ServiceRoleBinding
reader_binding = record {
  role_ref = record { kind = codes "ServiceRole"; name = codes "reader" };
  subjects =
      spiffe_subject (codes "user/sa/amy")
      ∷ jwt_subject (codes "athenz/user.amy")
      ∷ spiffe_subject (codes "home/ra/reader")
      ∷ [];
}

pub reader-binding :
    get_service_role_binding_spec
      (codes "home")
      (codes "reader")
      (codes "reader")
      (some amy ∷ [])
      true
    ≡ returns (ok reader_binding)
unfolding get_service_role_binding_spec same principal_to_spiffe last_index role_to_spiffe
reader-binding = refl

get_service_role_binding_spec_sound_example :
    (front : List Subject) × (reader_binding.subjects
      ≡ front ++ (spiffe_subject (codes "home" ++ (codes "/ra/" ++ codes "reader")) ∷ []))
    × All (IsOfSomeMember true (some amy ∷ [])) front
    × All (IsLetIn true reader_binding.subjects) (some amy ∷ [])
    × (reader_binding.role_ref.name ≡ codes "reader")
    × (codes "home" ≢ [])
    × (codes "reader" ≢ [])
get_service_role_binding_spec_sound_example =
    get_service_role_binding_spec_sound true (codes "home") (codes "reader") (codes "reader")
      (some amy ∷ []) reader_binding reader-binding

abbrev pub schema : Text → Schema
schema kind = record { kind = kind; group = codes "rbac.istio.io"; version = codes "v1alpha1" }

abbrev pub collections : Collections
collections = record {
  service_roles = schema (codes "ServiceRole");
  service_role_bindings = schema (codes "ServiceRoleBinding");
  cluster_rbac_configs = schema (codes "ClusterRbacConfig");
  authorization_policies = schema (codes "AuthorizationPolicy");
}

abbrev pub validation : Validation
validation = record {
  validate_service_role = λ name ns spec. true;
  validate_service_role_binding = λ name ns spec. true;
}

abbrev pub assertion : Assertion
assertion = record {
  role = codes "home:role.reader";
  resource = codes "home:svc.web:/api";
  action = codes "get";
  effect = some allow;
}

abbrev pub home_model : Model
home_model = record {
  name = codes "home";
  namespace = codes "home";
  roles = codes "home:role.reader" ∷ [];
  rules = (codes "home:role.reader", some assertion ∷ []) ∷ [];
  members = (codes "home:role.reader", some amy ∷ []) ∷ [];
  group_members = [];
}

abbrev pub home_configs : List (Config Spec)
home_configs =
    new_config collections.service_roles (codes "home") (codes "reader") (
      service_role (record { rules = access_rule (codes "web") (codes "/api") (codes "GET") ∷ [] }))
    ∷ new_config collections.service_role_bindings (codes "home") (codes "reader")
        (service_role_binding reader_binding)
    ∷ []

pub home-configs :
    convert_athenz_model_into_istio_rbac collections validation true home_model
    ≡ returns home_configs
unfolding convert_athenz_model_into_istio_rbac lookup same parse_role_fqdn contains trim_prefix
    cut_prefix get_service_role_spec parse_assertion_resource match_resource parse_assertion_effect
    to_upper parse_assertion_action any get_service_role_binding_spec principal_to_spiffe last_index
    role_to_spiffe upper convert_athenz_role_name_to_k8s_name replace
home-configs = refl

convert_athenz_model_into_istio_rbac-IsRounds_example :
    IsRounds collections validation true home_model home_model.roles home_configs
convert_athenz_model_into_istio_rbac-IsRounds_example =
    convert_athenz_model_into_istio_rbac-IsRounds collections validation true home_model
      home_configs home-configs
