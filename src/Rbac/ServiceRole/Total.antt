-- ===== src/Rbac/ServiceRole/Total.antt =====
-- About the returns of pkg/istio/rbac/common/servicerole.go.
use k8s_athenz_istio_auth.Prelude.{◌≡◌, ◌≢◌, refl, List, [], ◌∷◌, Option, none, some, All}
use k8s_athenz_istio_auth.Prelude.Outcome.{Result, returns, bind-returns}
use k8s_athenz_istio_auth.Prelude.Text.{Text}
use k8s_athenz_istio_auth.Athenz.Zms.{Assertion}
use k8s_athenz_istio_auth.Rbac.Spec.{AccessRule, ServiceRole}
use k8s_athenz_istio_auth.Rbac.ServiceRole.{assertion_rules, get_service_role_spec}

assertion_rules_total :
    (domain role : Text) (assertions : List (Option Assertion))
    → All (λ a. a ≢ none) assertions
    → (rules : List AccessRule) × (assertion_rules domain role assertions ≡ returns rules)
unfolding assertion_rules
assertion_rules_total domain role [] h = (_, refl)
assertion_rules_total domain role (none ∷ assertions) h = absurd (h.0 refl)
assertion_rules_total domain role (some a ∷ assertions) h =
    let (rules, e) = assertion_rules_total domain role assertions h.1 in (_, bind-returns _ _ e)

pub get_service_role_spec_total :
    (domain role : Text) (assertions : List (Option Assertion))
    → All (λ a. a ≢ none) assertions
    → (r : Result ServiceRole) × (get_service_role_spec domain role assertions ≡ returns r)
unfolding get_service_role_spec
get_service_role_spec_total domain role assertions h =
    let (rules, e) = assertion_rules_total domain role assertions h in (_, bind-returns _ _ e)
