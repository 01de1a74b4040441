-- ===== src/Tests/Athenz.antt =====
-- Examples about pkg/athenz.
use k8s_athenz_istio_auth.Prelude.{
  ◌≡◌, ◌≢◌, refl, true, List, [], ◌∷◌, Option, none, some, arith, ◌⊎◌, ◌↔◌,
}
use k8s_athenz_istio_auth.Prelude.Outcome.{returns, ok}
use k8s_athenz_istio_auth.Prelude.Text.{Text, codes, same, contains, replace, replace_pair}
use k8s_athenz_istio_auth.Prelude.Keyed.{lookup, insert}
use k8s_athenz_istio_auth.Prelude.Regexp.{match_whole}
use k8s_athenz_istio_auth.Athenz.Names.{
  domain_to_namespace, namespace_to_domain, IsDotted, to_domain-to_namespace_iff,
}
use k8s_athenz_istio_auth.Athenz.Zms.{RoleMember, Assertion, Policy, DomainData}
use k8s_athenz_istio_auth.Athenz.Trust.{Cached, athenz_domain, role_replacer, process_trust_domain}
use k8s_athenz_istio_auth.Athenz.Trust.Glob.{Fits, match_whole-role_replacer_iff}
use k8s_athenz_istio_auth.Athenz.Trust.Delegates.{IsTrusted, process_trust_domain_sound}
use k8s_athenz_istio_auth.Athenz.Model.{get_rules_for_domain, RoleAssertions, or_empty}
use k8s_athenz_istio_auth.Athenz.Model.Grouping.{
  assertions_for, all_assertions, get_rules_for_domain-assertions_for,
}

home_ns : domain_to_namespace (codes "home.domain-a") ≡ codes "home-domain--a"
unfolding domain_to_namespace replace
home_ns = refl

-- A dot before a dash is not restored.
dot_dash : namespace_to_domain (domain_to_namespace (codes "a.-b")) ≡ codes "a-.b"
unfolding domain_to_namespace namespace_to_domain replace replace_pair
dot_dash = refl

abbrev home : Text
home = codes "home.a"

abbrev away : Text
away = codes "home.b-c"

home-IsDotted : IsDotted home
home-IsDotted = ground arith

away-IsDotted : IsDotted away
away-IsDotted = ground arith

to_domain-to_namespace_iff_example :
    (namespace_to_domain (domain_to_namespace home) ≡ home) ↔ IsDotted home
to_domain-to_namespace_iff_example = to_domain-to_namespace_iff home

match_whole-role_replacer_iff_example :
    (match_whole (role_replacer (codes "home:role.*")) (codes "home:role.a") ≢ none)
    × ((match_whole (role_replacer (codes "home:role.*")) (codes "home:role.a") ≡ some true)
        ↔ Fits (codes "home:role.*") (codes "home:role.a"))
match_whole-role_replacer_iff_example =
    match_whole-role_replacer_iff (codes "home:role.*") (codes "home:role.a")

abbrev member : RoleMember
member = record { member_name = codes "user.amy"; expiration = none; system_disabled = none }

abbrev read_assertion : Assertion
read_assertion = record {
  role = codes "home:role.a";
  resource = codes "home:svc.s";
  action = codes "get";
  effect = some (codes "ALLOW");
}

abbrev assume_assertion : Assertion
assume_assertion = record {
  role = codes "away:role.b";
  resource = codes "home:role.*";
  action = codes "assume_role";
  effect = some (codes "ALLOW");
}

abbrev read_policies : List (Option Policy)
read_policies = some (record { assertions = some read_assertion ∷ [] }) ∷ []

abbrev home_domain : DomainData
home_domain = record {
  name = codes "home";
  roles = [];
  policies = some (some read_policies);
  groups = [];
}

abbrev away_domain : DomainData
away_domain = record {
  name = codes "away";
  roles = record { name = codes "away:role.b"; trust = []; role_members = some member ∷ [] } ∷ [];
  policies = some (some (some (record { assertions = some assume_assertion ∷ [] }) ∷ []));
  groups = [];
}

abbrev store : Text → Option Cached
store key = some (athenz_domain (some away_domain))

away-trusted :
    process_trust_domain (some store) (codes "away") (codes "home:role.a")
    ≡ returns (ok (some member ∷ []))
unfolding process_trust_domain match_whole role_replacer same contains
away-trusted = refl

process_trust_domain_sound_example :
    (some member ∷ [] ≡ [])
    ⊎ IsTrusted (store (codes "away")) (codes "home:role.a") (some member ∷ [])
process_trust_domain_sound_example =
    process_trust_domain_sound store (codes "away") (codes "home:role.a") (some member ∷ [])
      away-trusted

abbrev home_rules : RoleAssertions
home_rules = (codes "home:role.a", some read_assertion ∷ []) ∷ []

home-rules : get_rules_for_domain (some home_domain) ≡ returns home_rules
unfolding get_rules_for_domain same lookup insert
home-rules = refl

get_rules_for_domain-assertions_for_example :
    or_empty (lookup home_rules (codes "home:role.a"))
    ≡ assertions_for (codes "home:role.a") (all_assertions read_policies)
get_rules_for_domain-assertions_for_example =
    get_rules_for_domain-assertions_for home_domain read_policies home_rules (codes "home:role.a")
      refl home-rules
