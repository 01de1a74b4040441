-- ===== src/Rbac/V2/Complete.antt =====
-- Which operations and members the authorization policies have rules for.
use k8s_athenz_istio_auth.Prelude.{
  ℕ, ◌≡◌, refl, sym, subst, ap, ◌∙◌, Bool, true, List, [], ◌∷◌, Option, none, some, any, In, inl,
  inr,
}
use k8s_athenz_istio_auth.Prelude.Outcome.{Outcome, ok, returns, bind-eq_returns, returns_injective}
use k8s_athenz_istio_auth.Prelude.Text.{Text, same, to_upper}
use k8s_athenz_istio_auth.Prelude.Sort.{sort_strings, sort_strings-In}
use k8s_athenz_istio_auth.Prelude.Keyed.{lookup}
use k8s_athenz_istio_auth.Athenz.Zms.{Assertion, allow}
use k8s_athenz_istio_auth.Athenz.Model.{Model, or_empty}
use k8s_athenz_istio_auth.Rbac.Config.{Config}
use k8s_athenz_istio_auth.Rbac.Spec.{
  Spec, Operation, Source, Rule, AuthorizationPolicy, authorization_policy,
}
use k8s_athenz_istio_auth.Rbac.Istio.{Collections}
use k8s_athenz_istio_auth.Rbac.Assertion.{
  supported_methods, parse_assertion_resource, parse_role_fqdn,
}
use k8s_athenz_istio_auth.Rbac.Member.{Member, role_to_spiffe}
use k8s_athenz_istio_auth.Rbac.Principals.{members_source}
use k8s_athenz_istio_auth.Rbac.Principals.Members.{Stands}
use k8s_athenz_istio_auth.Rbac.Principals.Entries.{Entry, Enters}
use k8s_athenz_istio_auth.Rbac.Principals.Complete.{members_source-Holds}
use k8s_athenz_istio_auth.Rbac.V2.{
  svc_pattern, drop_query, operation_of, rule_to, rule_from, named_rule, rule_of, append_rule,
  roles_rules, keys, convert_athenz_model_into_istio_rbac,
}
use k8s_athenz_istio_auth.Rbac.V2.Operations.{
  IsWithoutQuery, drop_query-IsWithoutQuery, IsOperation, operation_of-IsOperation,
}
use k8s_athenz_istio_auth.Rbac.V2.Entries.{
  lookup-In_keys, assertion_operation-made, rule_to-In, LetsIn, rule_from-HoldsOne,
}

module _ (jwt : Bool) (now : ℕ) (match_string : Text → Text → Option Bool) where
  In-append_rule :
      (rule : Rule) (first : Option Rule) (rules : List Rule)
      → In rule rules
      → In rule (append_rule jwt now match_string first rules)
  In-append_rule rule none rules i = i
  In-append_rule rule (some first) rules i = inr i

  module _ (m : Model) (svc_label role role_name spiffe svc path effect : Text)
      (assertions : List (Option Assertion)) (a : Assertion) (member : Member) (entry : Entry)
      (has_rules : lookup m.rules role ≡ some assertions) (in_rules : In (some a) assertions)
      (is_parsed : parse_assertion_resource m.name (some a) ≡ ok (svc, path))
      (matches : match_string (svc_pattern svc) svc_label ≡ some true)
      (has_effect : a.effect ≡ some effect) (allows : to_upper effect ≡ allow)
      (supported : any (same (to_upper a.action)) supported_methods ≡ true)
      (is_named : parse_role_fqdn m.name role ≡ ok role_name)
      (has_spiffe : role_to_spiffe m.name role_name ≡ ok spiffe)
      (stands : Stands jwt now m (or_empty (lookup m.members role)) member)
      (enters : Enters jwt now m member entry) where
    abbrev granted : Operation
    granted = operation_of (drop_query path) (to_upper a.action)

    named_rule-made :
        (source : Source) (to : List Operation)
        → named_rule jwt now match_string m.name role source to
          ≡ some (record { from = rule_from jwt now match_string source spiffe; to = to })
    unfolding named_rule
    named_rule-made source to = rw (is_named, has_spiffe) refl

    rule_of-LetsIn :
        (to : List Operation) (rule : Option Rule)
        → In granted to
        → rule_of jwt now match_string m role to ≡ returns rule
        → (made : Rule) × (rule ≡ some made) × LetsIn granted entry made
    unfolding rule_of
    rule_of-LetsIn [] rule i h = absurd i
    rule_of-LetsIn (o ∷ to) rule i h =
        let (source, hs, h1) =
          bind-eq_returns (members_source jwt now m (or_empty (lookup m.members role))) _ h in
        let held =
          members_source-Holds jwt now m (or_empty (lookup m.members role))
            (or_empty (lookup m.members role)) member entry stands source stands.1 enters hs in
        (
          record { from = rule_from jwt now match_string source spiffe; to = o ∷ to },
          sym (returns_injective h1) ∙ named_rule-made source (o ∷ to),
          (i, rule_from-HoldsOne jwt now match_string m member entry source spiffe enters held),
        )

    operations-In :
        In granted (rule_to jwt now match_string m.name svc_label (or_empty (lookup m.rules role)))
    operations-In =
        let made = rule_to-In jwt now match_string m.name svc_label a granted assertions in_rules (
          assertion_operation-made jwt now match_string m.name svc_label svc path effect a is_parsed
            matches has_effect allows supported) in
        rw has_rules made

    abbrev round_of : Text → Outcome (Option Rule)
    round_of r =
        rule_of jwt now match_string m r
          (rule_to jwt now match_string m.name svc_label (or_empty (lookup m.rules r)))

    roles_rules-LetsIn :
        (roles : List Text) (rules : List Rule)
        → In role roles
        → roles_rules jwt now match_string m svc_label roles ≡ returns rules
        → (rule : Rule) × In rule rules × LetsIn granted entry rule
    unfolding roles_rules
    roles_rules-LetsIn [] rules i h = absurd i
    roles_rules-LetsIn (r ∷ roles) rules i h =
        let (first, hf, h1) =
          bind-eq_returns
            (rule_of jwt now match_string m r
              (rule_to jwt now match_string m.name svc_label (or_empty (lookup m.rules r))))
            _ h in
        let (rest, hr, h2) =
          bind-eq_returns (roles_rules jwt now match_string m svc_label roles) _ h1 in
        let found : (rule : Rule) × In rule (append_rule jwt now match_string first rest)
            × LetsIn granted entry rule =
          elim i [
            | inl here ↦
                let (made, e, lets) =
                  rule_of-LetsIn
                    (rule_to jwt now match_string m.name svc_label (or_empty (lookup m.rules role)))
                    first operations-In (ap round_of here ∙ hf) in
                (
                  made,
                  subst (λ f. In made (append_rule jwt now match_string f rest)) (sym e) (inl refl),
                  lets,
                )
            | inr later ↦
                let (rule, j, lets) = roles_rules-LetsIn roles rest later hr in
                (rule, In-append_rule rule first rest j, lets)
          ] in
        subst (λ rs. (rule : Rule) × In rule rs × LetsIn granted entry rule) (returns_injective h2)
          found

    -- Take an assertion of a role of the model whose resource is of the domain, whose service is found
    -- as a regular expression in the label of the service, whose effect spells ALLOW and whose action
    -- spells a supported method, and a valid member of that role, itself or in a group, that enters a
    -- namespace, a principal or, with JWT subjects, a request principal. If the role has a name and a
    -- SPIFFE name, and the provider returns, then it returns one policy, which has a rule with the
    -- entry of the member and with an operation that has the method of the assertion and its path, if
    -- there is one, up to the first question mark.
    pub convert_athenz_model_into_istio_rbac-LetsIn :
        (collections : Collections) (service_name app_label : Text) (out : List (Config Spec))
        → convert_athenz_model_into_istio_rbac jwt now match_string collections m service_name
            svc_label app_label
          ≡ returns out
        → (config : Config Spec) × (policy : AuthorizationPolicy) × (rule : Rule) × (front : Text)
          × (operation : Operation) × (out ≡ config ∷ [])
          × (config.spec ≡ authorization_policy policy)
          × In rule policy.rules
          × IsWithoutQuery path front
          × IsOperation front (to_upper a.action) operation
          × LetsIn operation entry rule
    unfolding convert_athenz_model_into_istio_rbac
    convert_athenz_model_into_istio_rbac-LetsIn collections service_name app_label out h =
        let (rules, hr, h1) =
          bind-eq_returns
            (roles_rules jwt now match_string m svc_label (sort_strings (keys m.rules))) _ h in
        let (rule, i, lets) =
          roles_rules-LetsIn (sort_strings (keys m.rules)) rules
            (sort_strings-In role (keys m.rules) (lookup-In_keys m.rules role assertions has_rules))
            hr in
        (
          _,
          _,
          rule,
          drop_query path,
          granted,
          sym (returns_injective h1),
          refl,
          i,
          drop_query-IsWithoutQuery path,
          operation_of-IsOperation (drop_query path) (to_upper a.action),
          lets,
        )
