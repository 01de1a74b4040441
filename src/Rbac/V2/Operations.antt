-- ===== src/Rbac/V2/Operations.antt =====
-- Which operations the rules of a policy permit.
use k8s_athenz_istio_auth.Prelude.{
  ℕ, ◌≡◌, ◌⊎◌, refl, ap, subst, ◌++◌, Bool-cases, Bool, true, false, List, [], ◌∷◌, Option, none,
  some, any, All, All-weaken, In, inl, inr,
}
use k8s_athenz_istio_auth.Prelude.Outcome.{ok}
use k8s_athenz_istio_auth.Prelude.Round.{>>=-eq_some}
use k8s_athenz_istio_auth.Prelude.Text.{
  Text, same, to_upper, contains, contains-Lacks, Lacks, split-cons, split-first,
}
use k8s_athenz_istio_auth.Athenz.Zms.{Assertion, allow}
use k8s_athenz_istio_auth.Rbac.Spec.{Operation}
use k8s_athenz_istio_auth.Rbac.Assertion.{
  supported_methods, parse_assertion_resource, parse_assertion_effect, parse_assertion_action,
}
use k8s_athenz_istio_auth.Rbac.Assertion.Resource.{IsMatch, parse_assertion_resource_sound}
use k8s_athenz_istio_auth.Rbac.ServiceRole.Grants.{HasPath, effect_sound, action_sound}
use k8s_athenz_istio_auth.Rbac.V2.{
  svc_pattern, drop_query, is_found, operation_of, granted_operation, matched_operation,
  assertion_operation, append_operation, rule_to,
}

-- The text is the path, up to its first question mark if it has one.
abbrev pub IsWithoutQuery : Text → Text → Type 0
IsWithoutQuery path text =
    Lacks b'?' text × ((path ≡ text) ⊎ ((query : Text) × (path ≡ text ++ (b'?' ∷ query))))

pub drop_query-IsWithoutQuery : (path : Text) → IsWithoutQuery path (drop_query path)
unfolding drop_query
drop_query-IsWithoutQuery path = elim (Bool-cases (contains path b'?')) [
  | inl e ↦
      let (p, ps, h) = split-cons path b'?' in
      let found : IsWithoutQuery path p = split-first path b'?' p ps h in rw (e, h) found
  | inr e ↦
      let found : IsWithoutQuery path path = (contains-Lacks path b'?' e, inl refl) in rw e found
]

-- The operation has the method alone, and the path, if there is one.
abbrev pub IsOperation : Text → Text → Operation → Type 0
IsOperation path method o = (o.methods ≡ method ∷ []) × HasPath path o.paths

pub operation_of-IsOperation :
    (path method : Text) → IsOperation path method (operation_of path method)
operation_of-IsOperation [] method = (refl, refl)
operation_of-IsOperation (c ∷ path) method = (refl, refl)

module _ (jwt : Bool) (now : ℕ) (match_string : Text → Text → Option Bool) where
  -- The assertion permits the operation for services of the label: its resource is of the domain, its
  -- service as a regular expression is found in the label, its effect spells ALLOW, its action a
  -- supported method, and the operation has that method and the path without its query.
  pub record Permits (domain svc_label : Text) (a : Assertion) (o : Operation) : Type 0 where
    pub svc : Text
    pub path : Text
    pub effect : Text
    pub of_domain : IsMatch a.resource domain svc path
    pub matches : match_string (svc_pattern svc) svc_label ≡ some true
    pub has_effect : a.effect ≡ some effect
    pub allows : to_upper effect ≡ allow
    pub supported : any (same (to_upper a.action)) supported_methods ≡ true
    pub front : Text
    pub without_query : IsWithoutQuery path front
    pub built : IsOperation front (to_upper a.action) o

  abbrev pub IsPermitted : Text → Text → List (Option Assertion) → Operation → Type 0
  IsPermitted domain svc_label assertions o =
      (a : Assertion) × In (some a) assertions × Permits domain svc_label a o

  is_found-true : (o : Option Bool) → is_found o ≡ true → o ≡ some true
  is_found-true none h = cc
  is_found-true (some b) h = ap some h

  matched_operation-Permits :
      (domain svc_label svc path : Text) (a : Assertion) (found : Bool) (o : Operation)
      → parse_assertion_resource domain (some a) ≡ ok (svc, path)
      → is_found (match_string (svc_pattern svc) svc_label) ≡ found
      → matched_operation jwt now match_string (some a) path found ≡ some o
      → Permits domain svc_label a o
  unfolding matched_operation granted_operation
  matched_operation-Permits domain svc_label svc path a false o hr hf h = cc
  matched_operation-Permits domain svc_label svc path a true o hr hf h =
      let (e, he, h1) = >>=-eq_some (parse_assertion_effect (some a)) _ h in
      let (method, hm, h2) = >>=-eq_some (parse_assertion_action (some a)) _ h1 in
      let (t, has, upper) = effect_sound a e he in
      let (supported, is_method) = action_sound a method hm in
      record {
        svc = svc;
        path = path;
        effect = t;
        of_domain = (parse_assertion_resource_sound domain a svc path hr).1;
        matches = is_found-true (match_string (svc_pattern svc) svc_label) hf;
        has_effect = has;
        allows = upper;
        supported = supported;
        front = drop_query path;
        without_query = drop_query-IsWithoutQuery path;
        built =
            let made : operation_of (drop_query path) (to_upper a.action) ≡ o =
              cc (h2, is_method) in
            subst (IsOperation (drop_query path) (to_upper a.action)) made
              (operation_of-IsOperation (drop_query path) (to_upper a.action));
      }

  assertion_operation-Permits :
      (domain svc_label : Text) (a : Assertion) (o : Operation)
      → assertion_operation jwt now match_string domain svc_label (some a) ≡ some o
      → Permits domain svc_label a o
  unfolding assertion_operation
  assertion_operation-Permits domain svc_label a o h =
      let ((svc, path), hr, h1) = >>=-eq_some (parse_assertion_resource domain (some a)) _ h in
      matched_operation-Permits domain svc_label svc path a
        (is_found (match_string (svc_pattern svc) svc_label)) o hr refl h1

  nil_assertion-skipped :
      (domain svc_label : Text)
      → assertion_operation jwt now match_string domain svc_label none ≡ none
  unfolding assertion_operation parse_assertion_resource
  nil_assertion-skipped domain svc_label = refl

  append_operation-IsPermitted :
      (domain svc_label : Text) (a : Assertion) (assertions : List (Option Assertion))
      (o : Option Operation) (os : List Operation)
      → assertion_operation jwt now match_string domain svc_label (some a) ≡ o
      → All (IsPermitted domain svc_label assertions) os
      → All
          (IsPermitted domain svc_label (some a ∷ assertions))
          (append_operation jwt now match_string o os)
  append_operation-IsPermitted domain svc_label a assertions none os h hs =
      All-weaken (IsPermitted domain svc_label assertions)
        (IsPermitted domain svc_label (some a ∷ assertions)) os (λ o (b, i, p). (b, inr i, p)) hs
  append_operation-IsPermitted domain svc_label a assertions (some o) os h hs = (
    (a, inl refl, assertion_operation-Permits domain svc_label a o h),
    All-weaken (IsPermitted domain svc_label assertions)
        (IsPermitted domain svc_label (some a ∷ assertions)) os (λ o (b, i, p). (b, inr i, p)) hs,
  )

  pub rule_to-IsPermitted :
      (domain svc_label : Text) (assertions : List (Option Assertion))
      → All
          (IsPermitted domain svc_label assertions)
          (rule_to jwt now match_string domain svc_label assertions)
  unfolding rule_to
  rule_to-IsPermitted domain svc_label [] = tt
  rule_to-IsPermitted domain svc_label (none ∷ assertions) =
      rw (nil_assertion-skipped domain svc_label) (
        All-weaken (IsPermitted domain svc_label assertions)
          (IsPermitted domain svc_label (none ∷ assertions)) _ (λ o (b, i, p). (b, inr i, p))
          (rule_to-IsPermitted domain svc_label assertions))
  rule_to-IsPermitted domain svc_label (some a ∷ assertions) =
      append_operation-IsPermitted domain svc_label a assertions
        (assertion_operation jwt now match_string domain svc_label (some a)) _ refl
        (rule_to-IsPermitted domain svc_label assertions)
