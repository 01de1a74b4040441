-- ===== src/Tests/Admitted.antt =====
-- Examples about whom the policies of pkg/istio/rbac/v2 let in.
use k8s_athenz_istio_auth.Prelude.{◌≡◌, refl, true, [], ◌∷◌, none, some, any, In, inl, inr, arith}
use k8s_athenz_istio_auth.Prelude.Outcome.{ok}
use k8s_athenz_istio_auth.Prelude.Text.{
  Text, codes, same, to_upper, upper, cut_prefix, contains, replace, has_prefix, has_suffix,
  last_index, trim_prefix,
}
use k8s_athenz_istio_auth.Prelude.Keyed.{lookup}
use k8s_athenz_istio_auth.Athenz.Zms.{RoleMember, GroupMember, Assertion, allow}
use k8s_athenz_istio_auth.Athenz.Model.{or_empty}
use k8s_athenz_istio_auth.Rbac.Config.{Config}
use k8s_athenz_istio_auth.Rbac.Spec.{
  Operation, Spec, Rule, AuthorizationPolicy, authorization_policy,
}
use k8s_athenz_istio_auth.Rbac.Assertion.{
  supported_methods, parse_assertion_resource, match_resource, parse_role_fqdn,
}
use k8s_athenz_istio_auth.Rbac.Member.{
  group_member, check_if_member_is_all_users_from_domain, all_users_namespace, get_member_name,
  member_to_spiffe, role_to_spiffe, principal_to_spiffe,
}
use k8s_athenz_istio_auth.Rbac.Principals.Members.{Stands}
use k8s_athenz_istio_auth.Rbac.Principals.Entries.{principal, Enters}
use k8s_athenz_istio_auth.Rbac.V2.{svc_pattern}
use k8s_athenz_istio_auth.Rbac.V2.Operations.{IsWithoutQuery, IsOperation}
use k8s_athenz_istio_auth.Rbac.V2.Entries.{LetsIn}
use k8s_athenz_istio_auth.Rbac.V2.Complete.{convert_athenz_model_into_istio_rbac-LetsIn}
use k8s_athenz_istio_auth.Tests.Provider.{collections}
use k8s_athenz_istio_auth.Tests.Policy.{
  match_string, d_model, policy, d_model-policy, read_rules, group_members,
}

abbrev amy : GroupMember
amy = record { member_name = codes "user.amy"; expiration = some 9; system_disabled = none }

abbrev read_assertion : Assertion
read_assertion = record {
  role = codes "d:role.r";
  resource = codes "d:svc.web:/a?b=1";
  action = codes "get";
  effect = some allow;
}

abbrev group : RoleMember
group = record { member_name = codes "d:group.g"; expiration = none; system_disabled = none }

has_rules : lookup d_model.rules (codes "d:role.r") ≡ some read_rules
unfolding lookup same
has_rules = refl

is_parsed :
    parse_assertion_resource d_model.name (some read_assertion) ≡ ok (codes "web", codes "/a?b=1")
unfolding parse_assertion_resource match_resource cut_prefix contains same trim_prefix last_index
is_parsed = refl

matches : match_string (svc_pattern (codes "web")) (codes "web") ≡ some true
unfolding same
matches = refl

allows : to_upper allow ≡ allow
unfolding to_upper upper
allows = refl

supported : any (same (to_upper read_assertion.action)) supported_methods ≡ true
unfolding to_upper upper same any
supported = refl

is_named : parse_role_fqdn d_model.name (codes "d:role.r") ≡ ok (codes "r")
unfolding parse_role_fqdn has_prefix trim_prefix cut_prefix contains
is_named = refl

has_spiffe : role_to_spiffe d_model.name (codes "r") ≡ ok (codes "d/ra/r")
unfolding role_to_spiffe
has_spiffe = refl

-- The member of the group, of which the group is a member of the role.
amy-Stands :
    Stands true 5 d_model
      (or_empty (lookup d_model.members (codes "d:role.r")))
      (group_member (some amy))
unfolding lookup same
amy-Stands = (
  group,
  inr (inr (inl refl)),
  (tt, tt),
  inr (group_members, amy, refl, inl refl, (omega arith, tt), refl),
)

amy-Enters : Enters true 5 d_model (group_member (some amy)) (principal (codes "user/sa/amy"))
unfolding check_if_member_is_all_users_from_domain has_suffix all_users_namespace get_member_name
    member_to_spiffe principal_to_spiffe last_index same replace has_prefix cut_prefix
amy-Enters = (refl, refl)

V2-LetsIn_example :
    (config : Config Spec) × (made : AuthorizationPolicy) × (rule : Rule) × (front : Text)
    × (operation : Operation) × (policy ∷ [] ≡ config ∷ [])
    × (config.spec ≡ authorization_policy made)
    × In rule made.rules
    × IsWithoutQuery (codes "/a?b=1") front
    × IsOperation front (to_upper (codes "get")) operation
    × LetsIn operation (principal (codes "user/sa/amy")) rule
V2-LetsIn_example =
    convert_athenz_model_into_istio_rbac-LetsIn true 5 match_string d_model (codes "web")
      (codes "d:role.r") (codes "r") (codes "d/ra/r") (codes "web") (codes "/a?b=1") allow
      read_rules read_assertion (group_member (some amy)) (principal (codes "user/sa/amy"))
      has_rules (inl refl) is_parsed matches refl allows supported is_named has_spiffe amy-Stands
      amy-Enters collections (codes "web") (codes "web") (policy ∷ []) d_model-policy
