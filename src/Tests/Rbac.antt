-- ===== src/Tests/Rbac.antt =====
-- Examples about pkg/istio/rbac.
use k8s_athenz_istio_auth.Prelude.{
  ◌≡◌, ◌≢◌, refl, true, [], ◌∷◌, ◌++◌, none, some, arith, any, All, In, ◌⊎◌, ◌↔◌, inl, inr,
}
use k8s_athenz_istio_auth.Prelude.Outcome.{returns, panics, ok}
use k8s_athenz_istio_auth.Prelude.Text.{
  Text, codes, same, Lacks, cut_prefix, contains, to_upper, trim_prefix,
}
use k8s_athenz_istio_auth.Athenz.Zms.{RoleMember, Assertion, allow}
use k8s_athenz_istio_auth.Rbac.Spec.{AccessRule, ServiceRole}
use k8s_athenz_istio_auth.Rbac.Member.{
  role_member, group_member, principal_to_spiffe, member_to_spiffe, member_to_origin_jwt_subject,
  get_member_name, check_if_member_is_all_users_from_domain, check_athenz_member_expiry,
  check_athenz_system_disabled, wild_card_all, all_users,
}
use k8s_athenz_istio_auth.Rbac.Member.Spiffe.{principal_to_spiffe_iff, member_to_spiffe-wild_iff}
use k8s_athenz_istio_auth.Rbac.Member.Validity.{
  IsUnexpired, IsNotDisabled, role_member-valid_iff, nil_pointer-panics,
}
use k8s_athenz_istio_auth.Rbac.Assertion.{
  supported_methods, parse_assertion_resource, parse_role_fqdn, match_resource,
  parse_assertion_effect, parse_assertion_action,
}
use k8s_athenz_istio_auth.Rbac.Assertion.RoleName.{parse_role_fqdn-append, parse_role_fqdn_sound}
use k8s_athenz_istio_auth.Rbac.Assertion.Resource.{
  IsMatch, parse_assertion_resource_sound, parse_assertion_resource-append,
}
use k8s_athenz_istio_auth.Rbac.ServiceRole.{access_rule, get_service_role_spec}
use k8s_athenz_istio_auth.Rbac.ServiceRole.Grants.{
  IsGranted, IsAccessRule, get_service_role_spec-IsGranted,
}
use k8s_athenz_istio_auth.Rbac.ServiceRole.Complete.{get_service_role_spec_complete}

principal_to_spiffe_iff_example :
    (principal_to_spiffe (codes "home.a.svc") ≡ ok (codes "home.a/sa/svc")) ↔ (
      (domain : Text) × (service : Text) × (codes "home.a.svc" ≡ domain ++ (b'.' ∷ service))
      × Lacks b'.' service
      × (codes "home.a/sa/svc" ≡ domain ++ (codes "/sa/" ++ service)))
principal_to_spiffe_iff_example =
    principal_to_spiffe_iff (codes "home.a.svc") (codes "home.a/sa/svc")

abbrev amy : RoleMember
amy = record { member_name = codes "user.amy"; expiration = some 9; system_disabled = none }

member_to_spiffe-wild_iff_example :
    (member_to_spiffe (role_member (some amy)) ≡ returns (ok wild_card_all))
    ↔ (get_member_name (role_member (some amy)) ≡ returns all_users)
member_to_spiffe-wild_iff_example = member_to_spiffe-wild_iff (role_member (some amy))

role_member-valid_iff_example :
    ((check_athenz_member_expiry 5 (role_member (some amy)) ≡ returns (ok true))
      × (check_athenz_system_disabled (role_member (some amy)) ≡ returns (ok true)))
    ↔ (IsUnexpired 5 amy.expiration × IsNotDisabled amy.system_disabled)
role_member-valid_iff_example = role_member-valid_iff 5 amy

nil_pointer-panics_example :
    (member_to_spiffe (group_member none) ≡ panics)
    × (member_to_origin_jwt_subject (group_member none) ≡ panics)
    × (check_if_member_is_all_users_from_domain (group_member none) (codes "home") ≡ panics)
    × (check_athenz_member_expiry 5 (group_member none) ≡ panics)
    × (check_athenz_system_disabled (group_member none) ≡ panics)
nil_pointer-panics_example = nil_pointer-panics 5 (codes "home") (group_member none) (inr refl)

reader-Lacks : Lacks b':' (codes "reader")
reader-Lacks = ground arith

reader-name :
    parse_role_fqdn (codes "home") (codes "home" ++ (codes ":role." ++ codes "reader"))
    ≡ ok (codes "reader")
reader-name = parse_role_fqdn-append (codes "home") (codes "reader") reader-Lacks

parse_role_fqdn_sound_example :
    Lacks b':' (codes "reader")
    × ((codes "home:role.reader" ≡ (codes "home" ++ codes ":role.") ++ codes "reader")
        ⊎ ((codes "home:role.reader" ≡ codes "reader")
            × (cut_prefix (codes "home:role.reader") (codes "home" ++ codes ":role.") ≡ none)))
parse_role_fqdn_sound_example =
    parse_role_fqdn_sound (codes "home") (codes "home:role.reader") (codes "reader") reader-name

abbrev assertion : Assertion
assertion = record {
  role = codes "home:role.reader";
  resource = codes "home:svc.web:/api";
  action = codes "get";
  effect = some allow;
}

parse-resource :
    parse_assertion_resource (codes "home") (some assertion) ≡ ok (codes "web", codes "/api")
unfolding parse_assertion_resource match_resource cut_prefix contains same
parse-resource = refl

parse_assertion_resource_sound_example :
    (codes "web" ≢ []) × IsMatch assertion.resource (codes "home") (codes "web") (codes "/api")
parse_assertion_resource_sound_example =
    parse_assertion_resource_sound (codes "home") assertion (codes "web") (codes "/api")
      parse-resource

parse_assertion_resource-append_example :
    parse_assertion_resource (codes "home") (some assertion) ≡ ok (codes "web", codes "/api")
unfolding cut_prefix
parse_assertion_resource-append_example =
    parse_assertion_resource-append assertion (codes "home") (codes "web") (codes "/api") refl
      (ground arith) (λ h. cc) (ground arith) (ground arith)
      (refl, (refl, (refl, (refl, (refl, tt)))))

abbrev reader_spec : ServiceRole
reader_spec = record { rules = access_rule (codes "web") (codes "/api") (codes "GET") ∷ [] }

reader-spec :
    get_service_role_spec (codes "home") (codes "reader") (some assertion ∷ [])
    ≡ returns (ok reader_spec)
unfolding get_service_role_spec parse_role_fqdn contains trim_prefix cut_prefix same
    parse_assertion_resource match_resource parse_assertion_effect to_upper parse_assertion_action
    any
reader-spec = refl

get_service_role_spec-IsGranted_example :
    All (IsGranted (codes "home") (codes "reader") (some assertion ∷ [])) reader_spec.rules
    × (reader_spec.rules ≢ [])
get_service_role_spec-IsGranted_example =
    get_service_role_spec-IsGranted (codes "home") (codes "reader") (some assertion ∷ [])
      reader_spec reader-spec

get-supported : any (same (to_upper (codes "get"))) supported_methods ≡ true
unfolding same to_upper any
get-supported = refl

allow-upper : to_upper allow ≡ allow
unfolding to_upper
allow-upper = refl

get_service_role_spec_complete_example :
    (rule : AccessRule) × In rule reader_spec.rules
    × IsAccessRule (codes "web") (codes "/api") (to_upper (codes "get")) rule
get_service_role_spec_complete_example =
    get_service_role_spec_complete (codes "home") (codes "reader") (some assertion ∷ []) reader_spec
      assertion (codes "web") (codes "/api") allow reader-spec (inl refl) reader-name parse-resource
      refl allow-upper get-supported
