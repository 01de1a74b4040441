-- ===== src/Rbac/V2.antt =====
-- pkg/istio/rbac/v2/provider.go: the authorization policy of a service.
pub mod Order
pub mod Operations
pub mod Sources
pub mod Granted
pub mod Entries
pub mod Complete
pub mod Total
use k8s_athenz_istio_auth.Prelude.{
  ℕ, Bool, true, false, not, ◌&&◌, List, [], ◌∷◌, ◌++◌, Option, none, some, if◌then◌else◌,
}
use k8s_athenz_istio_auth.Prelude.Outcome.{Result, ok, err, Outcome, returns, panics, bind}
use k8s_athenz_istio_auth.Prelude.Round.{◌>>=◌}
use k8s_athenz_istio_auth.Prelude.Text.{Text, codes, same, is_empty, contains, split}
use k8s_athenz_istio_auth.Prelude.Sort.{sort_strings}
use k8s_athenz_istio_auth.Prelude.Keyed.{Keyed, lookup}
use k8s_athenz_istio_auth.Athenz.Zms.{Assertion, RoleMember, GroupMember}
use k8s_athenz_istio_auth.Athenz.Model.{Model, or_empty}
use k8s_athenz_istio_auth.Rbac.Config.{Config}
use k8s_athenz_istio_auth.Rbac.Spec.{
  Spec, Operation, Source, Rule, AuthorizationPolicy, authorization_policy,
}
use k8s_athenz_istio_auth.Rbac.Istio.{Collections, ConfigStoreCache}
use k8s_athenz_istio_auth.Rbac.Components.{ComponentEnabled, is_enabled}
use k8s_athenz_istio_auth.Rbac.Assertion.{
  parse_assertion_resource, parse_assertion_effect, parse_assertion_action, parse_role_fqdn,
}
use k8s_athenz_istio_auth.Rbac.Principals.{no_source, members_source}
use k8s_athenz_istio_auth.Rbac.Member.{
  Member, role_member, group_member, check_athenz_member_expiry, check_athenz_system_disabled,
  check_if_member_is_all_users_from_domain, member_to_spiffe, member_to_origin_jwt_subject,
  role_to_spiffe,
}

-- The service of an assertion as a regular expression.
abbrev pub svc_pattern : Text → Text
svc_pattern svc = if same svc (codes "*") then codes ".*" else svc

abbrev pub first_part : List Text → Text
first_part [] = []
first_part (part ∷ parts) = part

-- The path without what follows a question mark. `queryRegex` finds a question mark anywhere.
unfoldable pub drop_query : Text → Text
drop_query path = if contains path b'?' then first_part (split path b'?') else path

-- Whether `regexp.MatchString` compiled the expression and found a match.
abbrev pub is_found : Option Bool → Bool
is_found none = false
is_found (some res) = res

-- `Rule_To` of an assertion
abbrev pub operation_of : Text → Text → Operation
operation_of path method = record {
  methods = method ∷ [];
  paths = if is_empty path then [] else path ∷ [];
}

-- The keys of a map
unfoldable pub keys : {V : Type 0} → Keyed V → List Text
keys [] = []
keys ((k, v) ∷ m) = k ∷ keys m

-- The parameters: whether JWT subjects are enabled, the instant, and `regexp.MatchString`, of which
-- an error is no answer.
module _ (enable_origin_jwt_subject : Bool) (now : ℕ)
    (match_string : Text → Text → Option Bool) where
  -- A round of the loop over the assertions, from the parsing of the effect on.
  pub granted_operation : Option Assertion → Text → Option Operation
  granted_operation assertion path = do
    _ ← parse_assertion_effect assertion
    method ← parse_assertion_action assertion
    some (operation_of path method)

  -- A round of the loop over the assertions, from the answer of the match on.
  pub matched_operation : Option Assertion → Text → Bool → Option Operation
  unfolding granted_operation
  matched_operation assertion path false = none
  matched_operation assertion path true = granted_operation assertion (drop_query path)

  -- A round of the loop over the assertions.
  pub assertion_operation : Text → Text → Option Assertion → Option Operation
  unfolding matched_operation
  assertion_operation domain_name svc_label assertion = do
    (svc, path) ← parse_assertion_resource domain_name assertion
    matched_operation assertion path (is_found (match_string (svc_pattern svc) svc_label))

  abbrev pub append_operation : Option Operation → List Operation → List Operation
  append_operation none operations = operations
  append_operation (some operation) operations = operation ∷ operations

  -- `rule.To`
  pub rule_to : Text → Text → List (Option Assertion) → List Operation
  unfolding assertion_operation
  rule_to domain_name svc_label [] = []
  rule_to domain_name svc_label (a ∷ assertions) =
      append_operation (assertion_operation domain_name svc_label a)
        (rule_to domain_name svc_label assertions)

  abbrev pub from_namespaces : List Text → List Source
  from_namespaces [] = []
  from_namespaces (n ∷ namespaces) = record no_source { namespaces = n ∷ namespaces } ∷ []

  abbrev pub from_request_principals : List Text → List Source
  from_request_principals [] = []
  from_request_principals (p ∷ principals) =
      record no_source { request_principals = p ∷ principals } ∷ []

  -- `rule.From`, with the SPIFFE name of the role certificate behind the principals
  pub rule_from : Source → Text → List Source
  rule_from source role_spiffe_name =
      record no_source { principals = source.principals ++ (role_spiffe_name ∷ []) }
      ∷ (from_namespaces source.namespaces
          ++ (if enable_origin_jwt_subject
              then from_request_principals source.request_principals
              else []))

  -- The end of a round of the loop over the roles.
  pub named_rule : Text → Text → Source → List Operation → Option Rule
  unfolding rule_from
  named_rule domain_name role source to = do
    role_name ← parse_role_fqdn domain_name role
    role_spiffe_name ← role_to_spiffe domain_name role_name
    some (record { from = rule_from source role_spiffe_name; to = to })

  -- A round of the loop over the roles, from `rule.To` on.
  pub rule_of : Model → Text → List Operation → Outcome (Option Rule)
  unfolding members_source named_rule
  rule_of m role [] = returns none
  rule_of m role (operation ∷ to) =
      bind (members_source enable_origin_jwt_subject now m (or_empty (lookup m.members role)))
        λ source. returns (named_rule m.name role source (operation ∷ to))

  abbrev pub append_rule : Option Rule → List Rule → List Rule
  append_rule none rules = rules
  append_rule (some rule) rules = rule ∷ rules

  -- The loop over the roles.
  pub roles_rules : Model → Text → List Text → Outcome (List Rule)
  unfolding rule_to rule_of
  roles_rules m svc_label [] = returns []
  roles_rules m svc_label (role ∷ roles) =
      bind (rule_of m role (rule_to m.name svc_label (or_empty (lookup m.rules role))))
        λ rule. bind (roles_rules m svc_label roles) λ rules. returns (append_rule rule rules)

  -- `ConvertAthenzModelIntoIstioRbac`
  unfoldable pub convert_athenz_model_into_istio_rbac :
      Collections → Model → Text → Text → Text → Outcome (List (Config Spec))
  unfolding roles_rules keys
  convert_athenz_model_into_istio_rbac collections m service_name svc_label app_label =
      bind (roles_rules m svc_label (sort_strings (keys m.rules))) λ rules. returns (
        record {
          meta = record {
            type = collections.authorization_policies.kind;
            group = collections.authorization_policies.group;
            version = collections.authorization_policies.version;
            namespace = m.namespace;
            name = service_name;
            resource_version = [];
            annotations = [];
          };
          spec =
              authorization_policy
                (record { match_labels = (codes "app", app_label) ∷ []; rules = rules });
        }
        ∷ [])

-- The directory of dry runs: what `ReadDirectoryConvertToModelConfig` returns for a namespace, the
-- error of which is dropped, and what `ReadConvertToModelConfig` returns for a service.
pub record DryRunFiles : Type 0 where
  pub read_directory : Text → List (Config Spec)
  pub read_config : Text → Text → Option (Config Spec)

abbrev pub one_or_none : Option (Config Spec) → List (Config Spec)
one_or_none none = []
one_or_none (some config) = config ∷ []

-- `GetCurrentIstioRbac`
unfoldable pub get_current_istio_rbac :
    ComponentEnabled
    → DryRunFiles
    → Collections
    → Model
    → ConfigStoreCache
    → Text
    → List (Config Spec)
get_current_istio_rbac enabled files collections m csc service_name =
    if is_empty service_name
    then (if is_enabled enabled service_name m.namespace
        then csc.list_configs collections.authorization_policies m.namespace
        else csc.list_configs collections.authorization_policies m.namespace
          ++ files.read_directory m.namespace)
    else if not (is_enabled enabled service_name m.namespace)
    then one_or_none (files.read_config service_name m.namespace)
    else one_or_none (csc.get_config collections.authorization_policies service_name m.namespace)
