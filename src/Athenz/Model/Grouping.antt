-- ===== src/Athenz/Model/Grouping.antt =====
-- The assertions of a domain, grouped by role.
use k8s_athenz_istio_auth.Prelude.{
  ◌≡◌, refl, sym, ap, ◌∙◌, ◌≢◌, List, [], ◌∷◌, ◌++◌, append-nil, append_assoc, Option, none, some,
  arith, All, if◌then◌else◌,
}
use k8s_athenz_istio_auth.Prelude.Outcome.{returns, bind-eq_returns}
use k8s_athenz_istio_auth.Prelude.Text.{Text, same, same_iff}
use k8s_athenz_istio_auth.Prelude.Keyed.{lookup, lookup-insert}
use k8s_athenz_istio_auth.Athenz.Zms.{Assertion, Policy, DomainData}
use k8s_athenz_istio_auth.Athenz.Trust.Whole.{IsPresent}
use k8s_athenz_istio_auth.Athenz.Model.{
  RoleAssertions, or_empty, add_assertion, add_assertions, add_policies, rules_of,
  get_rules_for_domain,
}

-- The assertions of a role, in order.
unfoldable pub assertions_for : Text → List (Option Assertion) → List (Option Assertion)
assertions_for role [] = []
assertions_for role (none ∷ xs) = assertions_for role xs
assertions_for role (some a ∷ xs) =
    let rest = assertions_for role xs in if same a.role role then some a ∷ rest else rest

-- The assertions of all policies, one policy behind the other.
unfoldable pub all_assertions : List (Option Policy) → List (Option Assertion)
all_assertions [] = []
all_assertions (none ∷ ps) = all_assertions ps
all_assertions (some p ∷ ps) = p.assertions ++ all_assertions ps

assertions_for-append :
    (role : Text) (xs ys : List (Option Assertion))
    → assertions_for role (xs ++ ys) ≡ assertions_for role xs ++ assertions_for role ys
unfolding assertions_for
assertions_for-append role [] ys = refl
assertions_for-append role (none ∷ xs) ys = assertions_for-append role xs ys
assertions_for-append role (some a ∷ xs) ys = ground (arith, assertions_for-append role xs ys)

lookup-add_assertion :
    (rules : RoleAssertions) (a : Assertion) (role : Text)
    → or_empty (lookup (add_assertion rules a) role)
      ≡ or_empty (lookup rules role) ++ assertions_for role (some a ∷ [])
unfolding add_assertion assertions_for
lookup-add_assertion rules a role = ground (
  arith,
  lookup-insert rules a.role role (or_empty (lookup rules a.role) ++ (some a ∷ [])),
  same_iff a.role role,
  append-nil (or_empty (lookup rules role)),
)

lookup-add_assertions :
    (rules rules' : RoleAssertions) (xs : List (Option Assertion)) (role : Text)
    → add_assertions rules xs ≡ returns rules'
    → or_empty (lookup rules' role) ≡ or_empty (lookup rules role) ++ assertions_for role xs
unfolding add_assertions assertions_for
lookup-add_assertions rules rules' [] role h =
    let e : rules ≡ rules' = cc in rw e (sym (append-nil (or_empty (lookup rules' role))))
lookup-add_assertions rules rules' (none ∷ xs) role h = cc
lookup-add_assertions rules rules' (some a ∷ xs) role h =
    lookup-add_assertions (add_assertion rules a) rules' xs role h
    ∙ ap (λ t. t ++ assertions_for role xs) (lookup-add_assertion rules a role)
    ∙ append_assoc (or_empty (lookup rules role)) (assertions_for role (some a ∷ []))
        (assertions_for role xs)
    ∙ ap (λ t. or_empty (lookup rules role) ++ t)
        (sym (assertions_for-append role (some a ∷ []) xs))

lookup-add_policies :
    (rules rules' : RoleAssertions) (ps : List (Option Policy)) (role : Text)
    → add_policies rules ps ≡ returns rules'
    → or_empty (lookup rules' role)
      ≡ or_empty (lookup rules role) ++ assertions_for role (all_assertions ps)
unfolding add_policies all_assertions
lookup-add_policies rules rules' [] role h =
    let e : rules ≡ rules' = cc in
    unfold assertions_for in rw e (sym (append-nil (or_empty (lookup rules' role))))
lookup-add_policies rules rules' (none ∷ ps) role h = cc
lookup-add_policies rules rules' (some p ∷ ps) role h =
    let (mid, e, h1) = bind-eq_returns (add_assertions rules p.assertions) _ h in
    lookup-add_policies mid rules' ps role h1
    ∙ ap (λ t. t ++ assertions_for role (all_assertions ps))
        (lookup-add_assertions rules mid p.assertions role e)
    ∙ append_assoc (or_empty (lookup rules role)) (assertions_for role p.assertions)
        (assertions_for role (all_assertions ps))
    ∙ ap (λ t. or_empty (lookup rules role) ++ t)
        (sym (assertions_for-append role p.assertions (all_assertions ps)))

-- Where the rules of a domain are returned, each role has exactly the assertions of the domain's
-- policies that name it, in the order of the policies.
pub get_rules_for_domain-assertions_for :
    (domain : DomainData) (policies : List (Option Policy)) (rules : RoleAssertions) (role : Text)
    → domain.policies ≡ some (some policies)
    → get_rules_for_domain (some domain) ≡ returns rules
    → or_empty (lookup rules role) ≡ assertions_for role (all_assertions policies)
unfolding get_rules_for_domain rules_of
get_rules_for_domain-assertions_for domain policies rules role e h =
    unfold lookup in lookup-add_policies [] rules policies role (ground arith)

add_assertions_total :
    (rules : RoleAssertions) (xs : List (Option Assertion))
    → All (λ a. a ≢ none) xs
    → (rules' : RoleAssertions) × (add_assertions rules xs ≡ returns rules')
unfolding add_assertions assertions_for
add_assertions_total rules [] h = (rules, refl)
add_assertions_total rules (none ∷ xs) h = absurd (h.0 refl)
add_assertions_total rules (some a ∷ xs) h = add_assertions_total (add_assertion rules a) xs h.1

add_policies_total :
    (rules : RoleAssertions) (ps : List (Option Policy))
    → All IsPresent ps
    → (rules' : RoleAssertions) × (add_policies rules ps ≡ returns rules')
unfolding add_policies
add_policies_total rules [] h = (rules, refl)
add_policies_total rules (none ∷ ps) h = absurd h.0
add_policies_total rules (some p ∷ ps) h =
    let (mid, e) = add_assertions_total rules p.assertions h.0 in
    let (end, f) = add_policies_total mid ps h.1 in (end, rw e f)

-- If no policy and no assertion is a nil pointer, the rules of the domain are returned.
pub get_rules_for_domain_total :
    (domain : DomainData) (policies : List (Option Policy))
    → domain.policies ≡ some (some policies)
    → All IsPresent policies
    → (rules : RoleAssertions) × (get_rules_for_domain (some domain) ≡ returns rules)
unfolding get_rules_for_domain rules_of
get_rules_for_domain_total domain policies e h =
    let (rules, f) = add_policies_total [] policies h in (rules, ground (arith, f))
