-- ===== src/Tests/Policy.antt =====
-- Examples about pkg/istio/rbac/v2.
use k8s_athenz_istio_auth.Athenz.Names.{domain_to_namespace}
use k8s_athenz_istio_auth.Rbac.Member.{
  check_athenz_member_expiry, check_athenz_system_disabled,
  check_if_member_is_all_users_from_domain, all_users_namespace, get_member_name, member_to_spiffe,
  member_to_origin_jwt_subject, role_to_spiffe, principal_to_spiffe,
}
use k8s_athenz_istio_auth.Rbac.Assertion.{
  parse_assertion_resource, match_resource, parse_assertion_effect, parse_assertion_action,
  parse_role_fqdn,
}
use k8s_athenz_istio_auth.Prelude.Sort.{sort_strings, insert_sorted, text_leb}
use k8s_athenz_istio_auth.Prelude.{
  ℕ, ◌≡◌, refl, Bool, true, List, [], ◌∷◌, Option, none, some, All, arith, any,
}
use k8s_athenz_istio_auth.Prelude.Outcome.{returns}
use k8s_athenz_istio_auth.Prelude.Text.{
  Text, codes, same, cut_prefix, contains, to_upper, has_prefix, has_suffix, replace, upper,
  last_index, trim_prefix, split,
}
use k8s_athenz_istio_auth.Prelude.Keyed.{lookup}
use mathlib.Core.List.{Permᴰ}
use k8s_athenz_istio_auth.Athenz.Zms.{RoleMember, GroupMember, Assertion, allow}
use k8s_athenz_istio_auth.Athenz.Model.{Model, RoleAssertions}
use k8s_athenz_istio_auth.Rbac.Config.{Config}
use k8s_athenz_istio_auth.Rbac.Spec.{Spec, Rule, Source, authorization_policy}
use k8s_athenz_istio_auth.Rbac.V2.{keys, convert_athenz_model_into_istio_rbac, drop_query}
use k8s_athenz_istio_auth.Rbac.Principals.Rules.{with_rules}
use k8s_athenz_istio_auth.Rbac.V2.Order.{convert_athenz_model_into_istio_rbac-Permᴰ}
use k8s_athenz_istio_auth.Rbac.V2.Granted.{
  IsGrantedRule, convert_athenz_model_into_istio_rbac-IsGrantedRule,
}
use k8s_athenz_istio_auth.Tests.Provider.{collections}

-- A match of the whole label.
abbrev pub match_string : Text → Text → Option Bool
match_string pattern label = some (same pattern label)

abbrev role_member_named : Text → Option ℕ → Option RoleMember
role_member_named name expiration =
    some (record { member_name = name; expiration = expiration; system_disabled = none })

abbrev assertion : Text → Text → Text → Option Assertion
assertion role resource action =
    some (record { role = role; resource = resource; action = action; effect = some allow })

abbrev pub read_rules : List (Option Assertion)
read_rules = assertion (codes "d:role.r") (codes "d:svc.web:/a?b=1") (codes "get") ∷ []

abbrev write_rules : List (Option Assertion)
write_rules =
    assertion (codes "d:role.w") (codes "d:svc.web") (codes "put")
    ∷ assertion (codes "d:role.w") (codes "d:svc.db") (codes "put")
    ∷ []

abbrev rules : RoleAssertions
rules = (codes "d:role.w", write_rules) ∷ (codes "d:role.r", read_rules) ∷ []

abbrev rules' : RoleAssertions
rules' = (codes "d:role.r", read_rules) ∷ (codes "d:role.w", write_rules) ∷ []

abbrev pub group_members : List (Option GroupMember)
group_members =
    some (record { member_name = codes "user.amy"; expiration = some 9; system_disabled = none })
    ∷ some (record { member_name = codes "user.bob"; expiration = none; system_disabled = some 1 })
    ∷ []

-- A reader that has expired, a namespace, and a group with a member that is disabled.
abbrev pub d_model : Model
d_model = record {
  name = codes "d";
  namespace = codes "d";
  roles = codes "d:role.w" ∷ codes "d:role.r" ∷ [];
  rules = rules;
  members =
      (
        codes "d:role.r",
        role_member_named (codes "user.old") (some 1)
            ∷ role_member_named (codes "e.f.*") none
            ∷ role_member_named (codes "d:group.g") none
            ∷ [],
      )
      ∷ [];
  group_members = (codes "d:group.g", group_members) ∷ [];
}

abbrev source : List Text → List Text → List Text → Source
source principals request_principals namespaces = record {
  principals = principals;
  request_principals = request_principals;
  namespaces = namespaces;
}

abbrev policy_rules : List Rule
policy_rules =
    record {
      from =
          source (codes "user/sa/amy" ∷ codes "d/ra/r" ∷ []) [] []
          ∷ source [] [] (codes "e-f" ∷ [])
          ∷ source [] (codes "athenz/user.amy" ∷ []) []
          ∷ [];
      to = record { methods = codes "GET" ∷ []; paths = codes "/a" ∷ [] } ∷ [];
    }
    ∷ record {
      from = source (codes "d/ra/w" ∷ []) [] [] ∷ [];
      to = record { methods = codes "PUT" ∷ []; paths = [] } ∷ [];
    }
    ∷ []

abbrev pub policy : Config Spec
policy = record {
  meta = record {
    type = codes "AuthorizationPolicy";
    group = codes "rbac.istio.io";
    version = codes "v1alpha1";
    namespace = codes "d";
    name = codes "web";
    resource_version = [];
    annotations = [];
  };
  spec =
      authorization_policy
        (record { match_labels = (codes "app", codes "web") ∷ []; rules = policy_rules });
}

pub d_model-policy :
    convert_athenz_model_into_istio_rbac true 5 match_string collections d_model
      (codes "web")
      (codes "web")
      (codes "web")
    ≡ returns (policy ∷ [])
unfolding convert_athenz_model_into_istio_rbac sort_strings insert_sorted text_leb lookup same
    parse_assertion_resource match_resource cut_prefix contains parse_assertion_effect to_upper
    parse_assertion_action any check_athenz_member_expiry check_athenz_system_disabled
    check_if_member_is_all_users_from_domain has_prefix domain_to_namespace has_suffix replace upper
    all_users_namespace get_member_name keys member_to_spiffe member_to_origin_jwt_subject
    role_to_spiffe principal_to_spiffe last_index parse_role_fqdn trim_prefix drop_query split
d_model-policy = refl

V2-IsGrantedRule_example :
    (c : Config Spec) × (granted : List Rule) × (policy ∷ [] ≡ c ∷ [])
    × (c.meta.name ≡ codes "web")
    × (c.meta.namespace ≡ codes "d")
    × (c.spec
        ≡ authorization_policy
            (record { match_labels = (codes "app", codes "web") ∷ []; rules = granted }))
    × All (IsGrantedRule true 5 match_string d_model (codes "web")) granted
V2-IsGrantedRule_example =
    convert_athenz_model_into_istio_rbac-IsGrantedRule true 5 match_string collections d_model
      (codes "web") (codes "web") (codes "web") (policy ∷ []) d_model-policy

swapped : Permᴰ (keys rules) (keys rules')
unfolding keys
swapped = Permᴰ.swap refl refl

same_lookups : (k : Text) → lookup rules k ≡ lookup rules' k
unfolding lookup same
same_lookups k = ground arith

V2-Permᴰ_example :
    convert_athenz_model_into_istio_rbac true 5 match_string collections
      (with_rules d_model rules)
      (codes "web")
      (codes "web")
      (codes "web")
    ≡ convert_athenz_model_into_istio_rbac true 5 match_string collections
        (with_rules d_model rules')
        (codes "web")
        (codes "web")
        (codes "web")
V2-Permᴰ_example =
    convert_athenz_model_into_istio_rbac-Permᴰ true 5 match_string collections d_model rules rules'
      (codes "web") (codes "web") (codes "web") swapped same_lookups
