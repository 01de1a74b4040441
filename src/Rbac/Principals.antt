-- ===== src/Rbac/Principals.antt =====
-- The sources of pkg/istio/rbac/v2/provider.go: whom the members of a role stand for.
pub mod Members
pub mod Sources
pub mod Rules
pub mod Entries
pub mod Complete
pub mod Total
use k8s_athenz_istio_auth.Prelude.{
  ℕ, Bool, true, false, not, ◌&&◌, List, [], ◌∷◌, ◌++◌, Option, none, some, if◌then◌else◌,
}
use k8s_athenz_istio_auth.Prelude.Outcome.{Result, ok, err, Outcome, returns, panics, bind}
use k8s_athenz_istio_auth.Prelude.Round.{◌>>=◌}
use k8s_athenz_istio_auth.Prelude.Text.{Text, codes, same, is_empty, contains, split}
use k8s_athenz_istio_auth.Prelude.Sort.{sort_strings}
use k8s_athenz_istio_auth.Prelude.Keyed.{Keyed, lookup}
use k8s_athenz_istio_auth.Athenz.Zms.{Assertion, RoleMember, GroupMember}
use k8s_athenz_istio_auth.Athenz.Model.{Model, or_empty}
use k8s_athenz_istio_auth.Rbac.Config.{Config}
use k8s_athenz_istio_auth.Rbac.Spec.{
  Spec, Operation, Source, Rule, AuthorizationPolicy, authorization_policy,
}
use k8s_athenz_istio_auth.Rbac.Istio.{Collections, ConfigStoreCache}
use k8s_athenz_istio_auth.Rbac.Components.{ComponentEnabled, is_enabled}
use k8s_athenz_istio_auth.Rbac.Assertion.{
  parse_assertion_resource, parse_assertion_effect, parse_assertion_action, parse_role_fqdn,
}
use k8s_athenz_istio_auth.Rbac.Member.{
  Member, role_member, group_member, check_athenz_member_expiry, check_athenz_system_disabled,
  check_if_member_is_all_users_from_domain, member_to_spiffe, member_to_origin_jwt_subject,
  role_to_spiffe,
}

abbrev pub no_source : Source
no_source = record { principals = []; request_principals = []; namespaces = [] }

-- What two members append to the three sources.
abbrev pub join_sources : Source → Source → Source
join_sources a b = record {
  principals = a.principals ++ b.principals;
  request_principals = a.request_principals ++ b.request_principals;
  namespaces = a.namespaces ++ b.namespaces;
}

abbrev pub passed : Result Bool → Bool
passed (ok res) = res
passed (err e) = false

abbrev pub jwt_names : Result Text → List Text
jwt_names (ok name) = name ∷ []
jwt_names (err e) = []

-- The check of the disabled flag, if the check of the expiry has passed.
pub disabled_pass : Member → Bool → Outcome Bool
disabled_pass member false = returns false
disabled_pass member true =
    bind (check_athenz_system_disabled member) λ disabled. returns (passed disabled)

-- The checks of expiry and of the disabled flag, in this order, at an instant.
pub passes : ℕ → Member → Outcome Bool
unfolding disabled_pass
passes now member =
    bind (check_athenz_member_expiry now member) λ expiry. disabled_pass member (passed expiry)

-- The parameters: whether JWT subjects are enabled, and the instant.
module _ (enable_origin_jwt_subject : Bool) (now : ℕ) where
  -- A round of the loop over the members, from the SPIFFE name on.
  pub spiffe_source : Member → Result Text → Outcome Source
  spiffe_source member (err e) = returns no_source
  spiffe_source member (ok spiffe_name) =
      if not enable_origin_jwt_subject
      then returns (record no_source { principals = spiffe_name ∷ [] })
      else bind (member_to_origin_jwt_subject member) λ jwt. returns (record {
        principals = spiffe_name ∷ [];
        request_principals = jwt_names jwt;
        namespaces = [];
      })

  -- A round, from the namespace of a `<domain>.*` member on.
  pub namespace_source : Member → Result Text → Outcome Source
  unfolding spiffe_source
  namespace_source member (err e) = returns no_source
  namespace_source member (ok namespace) =
      if not (is_empty namespace)
      then returns (record no_source { namespaces = namespace ∷ [] })
      else bind (member_to_spiffe member) λ spiffe. spiffe_source member spiffe

  -- A round, from the checks on.
  pub member_source : Text → Member → Outcome Source
  unfolding namespace_source
  member_source domain_name member =
      bind (check_if_member_is_all_users_from_domain member domain_name)
        λ namespace. namespace_source member namespace

  -- A round for a member of a group, from the result of its checks on.
  pub passed_source : Text → Member → Bool → Outcome Source
  unfolding member_source
  passed_source domain_name member false = returns no_source
  passed_source domain_name member true = member_source domain_name member

  -- The loop over the members of a group, each of which is checked.
  pub group_source : Text → List (Option GroupMember) → Outcome Source
  unfolding passes passed_source
  group_source domain_name [] = returns no_source
  group_source domain_name (g ∷ group_members) = bind (passes now (group_member g)) λ pass.
      bind (passed_source domain_name (group_member g) pass) λ first.
        bind (group_source domain_name group_members) λ rest. returns (join_sources first rest)

  -- What a member of a role stands for: a group for its members.
  pub expanded_source : Model → RoleMember → Option (List (Option GroupMember)) → Outcome Source
  unfolding group_source
  expanded_source m r none = member_source m.name (role_member (some r))
  expanded_source m r (some group_members) = group_source m.name group_members

  -- A round of that loop, from the result of the checks on.
  pub passed_role_source : Model → RoleMember → Bool → Outcome Source
  unfolding expanded_source
  passed_role_source m r false = returns no_source
  passed_role_source m r true = expanded_source m r (lookup m.group_members r.member_name)

  -- A round of that loop; a nil member is dereferenced.
  pub role_member_source : Model → Option RoleMember → Outcome Source
  unfolding passes passed_role_source
  role_member_source m none = panics
  role_member_source m (some r) =
      bind (passes now (role_member (some r))) λ pass. passed_role_source m r pass

  -- The loop over the members of a role.
  unfoldable pub members_source : Model → List (Option RoleMember) → Outcome Source
  unfolding role_member_source
  members_source m [] = returns no_source
  members_source m (r ∷ role_members) =
      bind (role_member_source m r)
        λ first. bind (members_source m role_members) λ rest. returns (join_sources first rest)
