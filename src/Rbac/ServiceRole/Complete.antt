-- ===== src/Rbac/ServiceRole/Complete.antt =====
-- Which assertions have a rule in the service role.
use k8s_athenz_istio_auth.Prelude.{
  subst, ◌≡◌, refl, sym, ap, ◌∙◌, true, List, [], ◌∷◌, Option, none, some, arith, inl, inr, In, any,
}
use k8s_athenz_istio_auth.Prelude.Outcome.{ok, returns, returns_injective, bind-eq_returns}
use k8s_athenz_istio_auth.Prelude.Text.{Text, same, same_iff, same_refl, to_upper}
use k8s_athenz_istio_auth.Athenz.Zms.{Assertion, allow}
use k8s_athenz_istio_auth.Rbac.Assertion.{
  supported_methods, parse_role_fqdn, parse_assertion_resource, parse_assertion_effect,
  parse_assertion_action,
}
use k8s_athenz_istio_auth.Rbac.Spec.{AccessRule, ServiceRole}
use k8s_athenz_istio_auth.Rbac.ServiceRole.{
  keep, access_rule, allowed_rule, assertion_rule, assertion_rules, get_service_role_spec,
}
use k8s_athenz_istio_auth.Rbac.ServiceRole.Grants.{
  service_role_of-eq_ok, IsAccessRule, access_rule-IsAccessRule,
}

pub effect_accepted :
    (a : Assertion) (t : Text)
    → a.effect ≡ some t
    → to_upper t ≡ allow
    → parse_assertion_effect (some a) ≡ ok allow
unfolding parse_assertion_effect
effect_accepted a t h u = ground (arith, same_iff (to_upper t) allow)

pub action_accepted :
    (a : Assertion)
    → any (same (to_upper a.action)) supported_methods ≡ true
    → parse_assertion_action (some a) ≡ ok (to_upper a.action)
unfolding parse_assertion_action
action_accepted a h = ground arith

In-keep :
    (rule : AccessRule) (o : Option AccessRule) (rules : List AccessRule)
    → In rule rules
    → In rule (keep o rules)
In-keep rule none rules h = h
In-keep rule (some r) rules h = inr h

In-keep_here :
    (rule : AccessRule) (a b : Assertion) (rules : List AccessRule) (domain role : Text)
    → a ≡ b
    → assertion_rule domain role a ≡ some rule
    → In rule (keep (assertion_rule domain role b) rules)
In-keep_here rule a b rules domain role same_assertion found =
    subst (λ o. In rule (keep o rules))
      (sym (ap (assertion_rule domain role) (sym same_assertion) ∙ found)) (inl refl)

assertion_rules_complete :
    (domain role : Text) (assertions : List (Option Assertion)) (rules : List AccessRule)
    (a : Assertion) (rule : AccessRule)
    → assertion_rules domain role assertions ≡ returns rules
    → In (some a) assertions
    → assertion_rule domain role a ≡ some rule
    → In rule rules
unfolding assertion_rules
assertion_rules_complete domain role [] rules a rule h member found = absurd member
assertion_rules_complete domain role (none ∷ assertions) rules a rule h member found = cc
assertion_rules_complete domain role (some b ∷ assertions) rules a rule h member found =
    let (rest, e, h1) = bind-eq_returns (assertion_rules domain role assertions) _ h in
    let found' : In rule (keep (assertion_rule domain role b) rest) = elim member [
      | inl here ↦ In-keep_here rule a b rest domain role (cc here) found
      | inr later ↦
          In-keep rule (assertion_rule domain role b) rest
            (assertion_rules_complete domain role assertions rest a rule e later found)
    ] in
    rw (returns_injective h1) at found'

-- An assertion of the role with a resource of the domain, an effect that spells ALLOW and an action
-- that spells a supported method has its rule in the service role: it has that method alone, is for
-- the pods with the label of the resource's service, and has the resource's path, if it has one.
pub get_service_role_spec_complete :
    (domain role : Text) (assertions : List (Option Assertion)) (spec : ServiceRole) (a : Assertion)
    (svc path effect : Text)
    → get_service_role_spec domain role assertions ≡ returns (ok spec)
    → In (some a) assertions
    → parse_role_fqdn domain a.role ≡ ok role
    → parse_assertion_resource domain (some a) ≡ ok (svc, path)
    → a.effect ≡ some effect
    → to_upper effect ≡ allow
    → any (same (to_upper a.action)) supported_methods ≡ true
    → (rule : AccessRule) × In rule spec.rules × IsAccessRule svc path (to_upper a.action) rule
unfolding get_service_role_spec
get_service_role_spec_complete domain role assertions spec a svc path effect h member hr hp he hu
      hs =
    let (rules, e, h1) = bind-eq_returns (assertion_rules domain role assertions) _ h in
    let (same_rules, nonempty) = service_role_of-eq_ok rules spec (returns_injective h1) in
    let found = rw same_rules at (
      assertion_rules_complete domain role assertions rules a
        (access_rule svc path (to_upper a.action)) e member
        (unfold assertion_rule allowed_rule in
          rw (hr, same_refl role, hp, effect_accepted a effect he hu, action_accepted a hs))) in
    (
      access_rule svc path (to_upper a.action),
      found,
      access_rule-IsAccessRule svc path (to_upper a.action),
    )
