-- ===== src/Rbac/ServiceRole/Grants.antt =====
-- What the rules of a service role grant.
use k8s_athenz_istio_auth.Prelude.{
  ◌≡◌, ◌≢◌, refl, sym, ap, subst, ◌∙◌, true, List, [], ◌∷◌, Option, none, some, arith, inl, inr,
  All, All-weaken, In, any, Option-cases,
}
use k8s_athenz_istio_auth.Prelude.Outcome.{ok, returns, returns_injective, bind-eq_returns}
use k8s_athenz_istio_auth.Prelude.Round.{>>=-eq_some}
use k8s_athenz_istio_auth.Prelude.Text.{Text, codes, same, same_iff, to_upper}
use k8s_athenz_istio_auth.Athenz.Zms.{Assertion, allow}
use k8s_athenz_istio_auth.Rbac.Assertion.{
  supported_methods, parse_role_fqdn, parse_assertion_resource, parse_assertion_effect,
  parse_assertion_action,
}
use k8s_athenz_istio_auth.Rbac.Assertion.Resource.{IsMatch, parse_assertion_resource_sound}
use k8s_athenz_istio_auth.Rbac.Spec.{AccessRule, ServiceRole}
use k8s_athenz_istio_auth.Rbac.ServiceRole.{
  keep, service_role_of, access_rule, allowed_rule, assertion_rule, assertion_rules,
  get_service_role_spec,
}

-- The paths are none for the empty path, and that one path otherwise.
abbrev pub HasPath : Text → List Text → Type 0
HasPath [] paths = paths ≡ []
HasPath (c ∷ path) paths = paths ≡ (c ∷ path) ∷ []

-- The rule is for the pods of any name with the label of the service, and has one method and the
-- path, if there is one.
pub record IsAccessRule (svc path method : Text) (rule : AccessRule) : Type 0 where
  pub constrains :
      rule.constraints ≡ record { key = codes "destination.labels[svc]"; values = svc ∷ [] } ∷ []
  pub has_method : rule.methods ≡ method ∷ []
  pub any_service : rule.services ≡ codes "*" ∷ []
  pub has_path : HasPath path rule.paths

access_rule-HasPath : (svc path method : Text) → HasPath path (access_rule svc path method).paths
access_rule-HasPath svc [] method = refl
access_rule-HasPath svc (c ∷ path) method = refl

pub access_rule-IsAccessRule :
    (svc path method : Text) → IsAccessRule svc path method (access_rule svc path method)
access_rule-IsAccessRule svc path method = record {
  constrains = refl;
  has_method = refl;
  any_service = refl;
  has_path = access_rule-HasPath svc path method;
}

-- The assertion is of the role and allows the rule: its effect is ALLOW in some spelling, its action
-- a supported method in some spelling, and its resource the service and the path of the rule.
pub record Grants (domain role : Text) (a : Assertion) (rule : AccessRule) : Type 0 where
  pub svc : Text
  pub path : Text
  pub effect : Text
  pub of_role : parse_role_fqdn domain a.role ≡ ok role
  pub names_service : svc ≢ []
  pub resource : IsMatch a.resource domain svc path
  pub has_effect : a.effect ≡ some effect
  pub allows : to_upper effect ≡ allow
  pub supports : any (same (to_upper a.action)) supported_methods ≡ true
  pub built : IsAccessRule svc path (to_upper a.action) rule

pub effect_sound :
    (a : Assertion) (e : Text)
    → parse_assertion_effect (some a) ≡ ok e
    → (t : Text) × (a.effect ≡ some t) × (to_upper t ≡ allow)
unfolding parse_assertion_effect
effect_sound a e h = elim (Option-cases a.effect) [
  | inl n ↦ absurd (ground (arith, n))
  | inr (t, s) ↦ (t, s, ground (arith, s, same_iff (to_upper t) allow))
]

pub action_sound :
    (a : Assertion) (m : Text)
    → parse_assertion_action (some a) ≡ ok m
    → (any (same (to_upper a.action)) supported_methods ≡ true) × (m ≡ to_upper a.action)
unfolding parse_assertion_action
action_sound a m h = ground arith

-- What the round finds out before it comes to the role.
record Allows (domain : Text) (a : Assertion) (rule : AccessRule) : Type 0 where
  svc : Text
  path : Text
  effect : Text
  names_service : svc ≢ []
  resource : IsMatch a.resource domain svc path
  has_effect : a.effect ≡ some effect
  allows : to_upper effect ≡ allow
  supports : any (same (to_upper a.action)) supported_methods ≡ true
  built : IsAccessRule svc path (to_upper a.action) rule

Allows-of_parsed :
    (domain : Text) (a : Assertion) (rule : AccessRule) (svc path e m : Text)
    → parse_assertion_resource domain (some a) ≡ ok (svc, path)
    → parse_assertion_effect (some a) ≡ ok e
    → parse_assertion_action (some a) ≡ ok m
    → access_rule svc path m ≡ rule
    → Allows domain a rule
Allows-of_parsed domain a rule svc path e m hr he hm hb =
    let (named, found) = parse_assertion_resource_sound domain a svc path hr in
    let (t, ht, ha) = effect_sound a e he in
    let (hs, hu) = action_sound a m hm in
    record {
      svc = svc;
      path = path;
      effect = t;
      names_service = named;
      resource = found;
      has_effect = ht;
      allows = ha;
      supports = hs;
      built =
          subst (IsAccessRule svc path (to_upper a.action))
            (ap (access_rule svc path) (sym hu) ∙ hb)
            (access_rule-IsAccessRule svc path (to_upper a.action));
    }

allowed_rule-Allows :
    (domain : Text) (a : Assertion) (rule : AccessRule)
    → allowed_rule domain a ≡ some rule
    → Allows domain a rule
unfolding allowed_rule
allowed_rule-Allows domain a rule h =
    let (p, hr, h1) = >>=-eq_some (parse_assertion_resource domain (some a)) _ h in
    let (e, he, h2) = >>=-eq_some (parse_assertion_effect (some a)) _ h1 in
    let (m, hm, h3) = >>=-eq_some (parse_assertion_action (some a)) _ h2 in
    Allows-of_parsed domain a rule p.0 p.1 e m hr he hm (cc h3)

assertion_rule-Grants :
    (domain role : Text) (a : Assertion) (rule : AccessRule)
    → assertion_rule domain role a ≡ some rule
    → Grants domain role a rule
unfolding assertion_rule
assertion_rule-Grants domain role a rule h =
    let (r, hr, h1) = >>=-eq_some (parse_role_fqdn domain a.role) _ h in
    let same_role : r ≡ role = ground (arith, h1, same_iff r role) in
    let allowed : Allows domain a rule = allowed_rule-Allows domain a rule (ground (arith, h1)) in
    record {
      svc = allowed.svc;
      path = allowed.path;
      effect = allowed.effect;
      of_role = rw same_role at hr;
      names_service = allowed.names_service;
      resource = allowed.resource;
      has_effect = allowed.has_effect;
      allows = allowed.allows;
      supports = allowed.supports;
      built = allowed.built;
    }

-- The rule is granted by an assertion of the list.
abbrev pub IsGranted : Text → Text → List (Option Assertion) → AccessRule → Type 0
IsGranted domain role assertions rule =
    (a : Assertion) × In (some a) assertions × Grants domain role a rule

IsGranted-cons :
    (domain role : Text) (o : Option Assertion) (assertions : List (Option Assertion))
    (rule : AccessRule)
    → IsGranted domain role assertions rule
    → IsGranted domain role (o ∷ assertions) rule
IsGranted-cons domain role o assertions rule (a, member, grants) = (a, inr member, grants)

keep-IsGranted :
    (domain role : Text) (a : Assertion) (assertions : List (Option Assertion))
    (o : Option AccessRule) (rules : List AccessRule)
    → assertion_rule domain role a ≡ o
    → All (IsGranted domain role assertions) rules
    → All (IsGranted domain role (some a ∷ assertions)) (keep o rules)
keep-IsGranted domain role a assertions none rules e h =
    All-weaken _ _ rules (IsGranted-cons domain role (some a) assertions) h
keep-IsGranted domain role a assertions (some rule) rules e h = (
  (a, inl refl, assertion_rule-Grants domain role a rule e),
  All-weaken _ _ rules (IsGranted-cons domain role (some a) assertions) h,
)

assertion_rules-IsGranted :
    (domain role : Text) (assertions : List (Option Assertion)) (rules : List AccessRule)
    → assertion_rules domain role assertions ≡ returns rules
    → All (IsGranted domain role assertions) rules
unfolding assertion_rules
assertion_rules-IsGranted domain role [] rules h = rw (← returns_injective h) tt
assertion_rules-IsGranted domain role (none ∷ assertions) rules h = cc
assertion_rules-IsGranted domain role (some a ∷ assertions) rules h =
    let (rest, e, h1) = bind-eq_returns (assertion_rules domain role assertions) _ h in
    rw (returns_injective h1) at (
      keep-IsGranted domain role a assertions (assertion_rule domain role a) rest refl
        (assertion_rules-IsGranted domain role assertions rest e))

pub service_role_of-eq_ok :
    (rules : List AccessRule) (spec : ServiceRole)
    → service_role_of rules ≡ ok spec
    → (rules ≡ spec.rules) × (spec.rules ≢ [])
service_role_of-eq_ok [] spec h = cc
service_role_of-eq_ok (r ∷ rules) spec h = ground arith

-- There is a rule, and each rule of the service role of a role is granted by an assertion of that
-- role, whose effect spells ALLOW, whose action spells a supported method and whose resource is of
-- the domain: the rule has that method alone, is for the pods with the label of the resource's
-- service, and has the resource's path, if it has one.
pub get_service_role_spec-IsGranted :
    (domain role : Text) (assertions : List (Option Assertion)) (spec : ServiceRole)
    → get_service_role_spec domain role assertions ≡ returns (ok spec)
    → All (IsGranted domain role assertions) spec.rules × (spec.rules ≢ [])
unfolding get_service_role_spec
get_service_role_spec-IsGranted domain role assertions spec h =
    let (rules, e, h1) = bind-eq_returns (assertion_rules domain role assertions) _ h in
    let (same_rules, nonempty) = service_role_of-eq_ok rules spec (returns_injective h1) in
    (rw same_rules at (assertion_rules-IsGranted domain role assertions rules e), nonempty)
