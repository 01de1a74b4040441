-- ===== src/Rbac/ServiceRole.antt =====
-- pkg/istio/rbac/common/servicerole.go
pub mod Grants
pub mod Complete
pub mod Total
use k8s_athenz_istio_auth.Prelude.{Bool, not, List, [], ◌∷◌, Option, none, some, if◌then◌else◌}
use k8s_athenz_istio_auth.Prelude.Outcome.{
  Result, ok, err, Outcome, returns, panics, bind, no_rules,
}
use k8s_athenz_istio_auth.Prelude.Round.{◌>>=◌}
use k8s_athenz_istio_auth.Prelude.Text.{Text, codes, same, is_empty, replace}
use k8s_athenz_istio_auth.Athenz.Zms.{Assertion}
use k8s_athenz_istio_auth.Rbac.Assertion.{
  parse_role_fqdn, parse_assertion_resource, parse_assertion_effect, parse_assertion_action,
}
use k8s_athenz_istio_auth.Rbac.Spec.{Constraint, AccessRule, ServiceRole}

-- `ConvertAthenzRoleNameToK8sName`
unfoldable pub convert_athenz_role_name_to_k8s_name : Text → Text
convert_athenz_role_name_to_k8s_name role_name = replace role_name b'_' (codes "--")

abbrev pub constraint_svc_key : Text
constraint_svc_key = codes "destination.labels[svc]"

-- The rule that a round builds.
abbrev pub access_rule : Text → Text → Text → AccessRule
access_rule svc path method = record {
  constraints = record { key = constraint_svc_key; values = svc ∷ [] } ∷ [];
  methods = method ∷ [];
  services = codes "*" ∷ [];
  paths = if is_empty path then [] else path ∷ [];
}

-- One round of the loop, from the parsing of the resource on.
pub allowed_rule : Text → Assertion → Option AccessRule
allowed_rule domain_name assertion = do
  (svc, path) ← parse_assertion_resource domain_name (some assertion)
  _ ← parse_assertion_effect (some assertion)
  method ← parse_assertion_action (some assertion)
  some (access_rule svc path method)

-- One round of the loop over the assertions.
pub assertion_rule : Text → Text → Assertion → Option AccessRule
unfolding allowed_rule
assertion_rule domain_name role_name assertion = do
  assertion_role ← parse_role_fqdn domain_name assertion.role
  if not (same assertion_role role_name) then none else allowed_rule domain_name assertion

-- `append(rules, rule)`, or `continue`
abbrev pub keep : Option AccessRule → List AccessRule → List AccessRule
keep none rules = rules
keep (some rule) rules = rule ∷ rules

-- The loop; a nil assertion is dereferenced.
pub assertion_rules : Text → Text → List (Option Assertion) → Outcome (List AccessRule)
assertion_rules domain_name role_name [] = returns []
assertion_rules domain_name role_name (none ∷ assertions) = panics
assertion_rules domain_name role_name (some a ∷ assertions) =
    bind (assertion_rules domain_name role_name assertions)
      λ rules. returns (keep (assertion_rule domain_name role_name a) rules)

abbrev pub service_role_of : List AccessRule → Result ServiceRole
service_role_of [] = err no_rules
service_role_of (rule ∷ rules) = ok (record { rules = rule ∷ rules })

-- `GetServiceRoleSpec`
unfoldable pub get_service_role_spec :
    Text → Text → List (Option Assertion) → Outcome (Result ServiceRole)
unfolding assertion_rules assertion_rule
get_service_role_spec domain_name role_name assertions =
    bind (assertion_rules domain_name role_name assertions) λ rules. returns (service_role_of rules)
