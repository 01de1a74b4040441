-- ===== src/Rbac/Assertion.antt =====
-- Assertions and role names: the parsers of pkg/istio/rbac/common/util.go.
pub mod Resource
pub mod RoleName
use k8s_athenz_istio_auth.Prelude.{
  ℕ, Bool, true, false, not, ◌||◌, List, [], ◌∷◌, ◌++◌, Option, none, some, any, ◌==◌,
  if◌then◌else◌,
}
use k8s_athenz_istio_auth.Prelude.Outcome.{
  Result, ok, err, assertion_nil, effect_nil, effect_unsupported, method_unsupported,
  resource_foreign, resource_no_service, role_foreign,
}
use k8s_athenz_istio_auth.Prelude.Text.{
  Text, codes, same, is_empty, contains, cut_prefix, trim_prefix, to_upper,
}
use k8s_athenz_istio_auth.Athenz.Zms.{Assertion, allow}

-- The keys of `supportedMethods`
abbrev pub supported_methods : List Text
supported_methods =
    codes "GET"
    ∷ codes "HEAD"
    ∷ codes "POST"
    ∷ codes "PUT"
    ∷ codes "PATCH"
    ∷ codes "DELETE"
    ∷ codes "CONNECT"
    ∷ codes "OPTIONS"
    ∷ codes "TRACE"
    ∷ codes "*"
    ∷ []

-- `ParseAssertionEffect`
unfoldable pub parse_assertion_effect : Option Assertion → Result Text
parse_assertion_effect none = err assertion_nil
parse_assertion_effect (some assertion) = elim assertion.effect [
  | none ↦ err effect_nil
  | some effect ↦ if not (same (to_upper effect) allow) then err effect_unsupported else ok allow
]

-- `ParseAssertionAction`
unfoldable pub parse_assertion_action : Option Assertion → Result Text
parse_assertion_action none = err assertion_nil
parse_assertion_action (some assertion) =
    let method = to_upper assertion.action in
    if not (any (same method) supported_methods) then err method_unsupported else ok method

-- The groups that `resourceRegex` captures.
pub record ResourceParts : Type 0 where
  pub domain : Text
  pub svc : Text
  pub path : Text

-- What `[^:]*` takes, and what it leaves.
pub until_colon : Text → Text × Text
until_colon [] = ([], [])
until_colon (c ∷ s) =
    let (taken, left) = until_colon s in if c == b':' then ([], c ∷ s) else (c ∷ taken, left)

-- What `[:]?` leaves.
pub skip_colon : Text → Text
skip_colon [] = []
skip_colon (c ∷ s) = if c == b':' then s else c ∷ s

-- `(?P<svc>[^:]*)[:]?(?P<path>.*)\z`, in which a dot takes no line feed. A shorter service would
-- leave a line feed in the path too, so the longest one decides.
pub match_svc : Text → Option ResourceParts
unfolding until_colon skip_colon
match_svc s =
    let (svc, left) = until_colon s in
    let path = skip_colon left in
    if contains path b'\n' then none else some (record { domain = []; svc = svc; path = path })

-- `:svc.` and the groups behind it; the dot takes any character but a line feed.
pub match_mark : Text → Option ResourceParts
unfolding match_svc
match_mark s = elim (cut_prefix s (codes ":svc")) [
  | none ↦ none
  | some [] ↦ none
  | some (c ∷ rest) ↦ if c == b'\n' then none else match_svc rest
]

-- `resourceRegex.FindStringSubmatch`: `(?P<domain>.*)` takes as much as it can, so a match that
-- starts the rest later comes first.
unfoldable pub match_resource : Text → Option ResourceParts
unfolding match_mark
match_resource [] = none
match_resource (c ∷ s) = elim (if c == b'\n' then none else match_resource s) [
  | some parts ↦ some (record parts { domain = c ∷ parts.domain })
  | none ↦ match_mark (c ∷ s)
]

-- `ParseAssertionResource`. With no match there are no groups, and the service is missing; the
-- order in which the groups are visited makes no difference.
unfoldable pub parse_assertion_resource : Text → Option Assertion → Result (Text × Text)
parse_assertion_resource domain_name none = err assertion_nil
parse_assertion_resource domain_name (some assertion) = elim (match_resource assertion.resource) [
  | none ↦ err resource_no_service
  | some parts ↦
      if not (same parts.domain domain_name)
      then err resource_foreign
      else if is_empty parts.svc
      then err resource_no_service
      else ok (parts.svc, parts.path)
]

-- `ParseRoleFQDN`
unfoldable pub parse_role_fqdn : Text → Text → Result Text
parse_role_fqdn domain_name role_fqdn =
    let role_name = trim_prefix role_fqdn (domain_name ++ codes ":role.") in
    if contains role_name b':' then err role_foreign else ok role_name
