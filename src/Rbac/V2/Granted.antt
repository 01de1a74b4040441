-- ===== src/Rbac/V2/Granted.antt =====
-- What the rules of an authorization policy grant, and to whom.
use k8s_athenz_istio_auth.Prelude.{
  ℕ, ◌≡◌, ◌≢◌, refl, sym, subst, Bool, List, [], ◌∷◌, ◌++◌, Option, none, some, arith, All, In, inl,
  inr,
}
use k8s_athenz_istio_auth.Prelude.Outcome.{ok, returns, bind-eq_returns, returns_injective}
use k8s_athenz_istio_auth.Prelude.Round.{>>=-eq_some}
use k8s_athenz_istio_auth.Prelude.Text.{Text, codes}
use k8s_athenz_istio_auth.Prelude.Sort.{sort_strings, In-sort_strings}
use k8s_athenz_istio_auth.Prelude.Keyed.{lookup}
use k8s_athenz_istio_auth.Athenz.Model.{Model, or_empty}
use k8s_athenz_istio_auth.Rbac.Config.{Config}
use k8s_athenz_istio_auth.Rbac.Spec.{Spec, Operation, Source, Rule, authorization_policy}
use k8s_athenz_istio_auth.Rbac.Istio.{Collections}
use k8s_athenz_istio_auth.Rbac.Assertion.{parse_role_fqdn}
use k8s_athenz_istio_auth.Rbac.Member.{role_to_spiffe}
use k8s_athenz_istio_auth.Rbac.V2.{
  rule_to, rule_from, named_rule, rule_of, append_rule, roles_rules, keys,
  convert_athenz_model_into_istio_rbac,
}
use k8s_athenz_istio_auth.Rbac.Principals.{members_source}
use k8s_athenz_istio_auth.Rbac.Principals.Members.{IsAllowed}
use k8s_athenz_istio_auth.Rbac.Principals.Sources.{members_source-IsAllowed}
use k8s_athenz_istio_auth.Rbac.V2.Operations.{IsPermitted, rule_to-IsPermitted}
use k8s_athenz_istio_auth.Rbac.V2.Sources.{IsSourceOf, rule_from-IsSourceOf, rule_from-certificate}

module _ (jwt : Bool) (now : ℕ) (match_string : Text → Text → Option Bool) where
  -- The rule of a role of the model: its operations are permitted by assertions of the role, and its
  -- sources stand for members of the role, and for the certificate of the role.
  pub record IsRuleOf (m : Model) (svc_label role : Text) (rule : Rule) : Type 0 where
    pub role_name : Text
    pub is_named : parse_role_fqdn m.name role ≡ ok role_name
    pub has_operations : rule.to ≢ []
    pub are_permitted :
        All
          (IsPermitted jwt now match_string m.name svc_label (or_empty (lookup m.rules role)))
          rule.to
    pub are_sources :
        All
          (IsSourceOf jwt now match_string m
            (or_empty (lookup m.members role))
            (m.name ++ (codes "/ra/" ++ role_name)))
          rule.from
    pub has_certificate :
        (s : Source) × In s rule.from × In (m.name ++ (codes "/ra/" ++ role_name)) s.principals

  -- The rule of some role with rules in the model.
  abbrev pub IsGrantedRule : Model → Text → Rule → Type 0
  IsGrantedRule m svc_label rule =
      (role : Text) × In role (keys m.rules) × IsRuleOf m svc_label role rule

  some_injective : {a b : Rule} → some a ≡ some b → a ≡ b
  some_injective h = cc

  role_to_spiffe_sound :
      (domain role name : Text)
      → role_to_spiffe domain role ≡ ok name
      → name ≡ domain ++ (codes "/ra/" ++ role)
  unfolding role_to_spiffe
  role_to_spiffe_sound domain role name h = ground arith

  named_rule-IsRuleOf :
      (m : Model) (svc_label role : Text) (source : Source) (o : Operation) (to : List Operation)
      (rule : Rule)
      → All
          (IsPermitted jwt now match_string m.name svc_label (or_empty (lookup m.rules role)))
          (o ∷ to)
      → IsAllowed jwt now m (or_empty (lookup m.members role)) source
      → named_rule jwt now match_string m.name role source (o ∷ to) ≡ some rule
      → IsRuleOf m svc_label role rule
  unfolding named_rule
  named_rule-IsRuleOf m svc_label role source o to rule permitted allowed h =
      let (role_name, hr, h1) = >>=-eq_some (parse_role_fqdn m.name role) _ h in
      let (spiffe, hs, h2) = >>=-eq_some (role_to_spiffe m.name role_name) _ h1 in
      subst (IsRuleOf m svc_label role) (some_injective h2) (record {
        role_name = role_name;
        is_named = hr;
        has_operations = λ e. cc;
        are_permitted = permitted;
        are_sources =
            subst
              (λ certificate.
                All
                  (IsSourceOf jwt now match_string m (or_empty (lookup m.members role)) certificate)
                  (rule_from jwt now match_string source spiffe))
              (role_to_spiffe_sound m.name role_name spiffe hs)
              (rule_from-IsSourceOf jwt now match_string m (or_empty (lookup m.members role)) spiffe
                source allowed);
        has_certificate =
            subst
              (λ certificate.
                (s : Source) × In s (rule_from jwt now match_string source spiffe)
                × In certificate s.principals)
              (role_to_spiffe_sound m.name role_name spiffe hs)
              (rule_from-certificate jwt now match_string source spiffe);
      })

  rule_of-IsRuleOf :
      (m : Model) (svc_label role : Text) (to : List Operation) (rule : Rule)
      → All (IsPermitted jwt now match_string m.name svc_label (or_empty (lookup m.rules role))) to
      → rule_of jwt now match_string m role to ≡ returns (some rule)
      → IsRuleOf m svc_label role rule
  unfolding rule_of
  rule_of-IsRuleOf m svc_label role [] rule permitted h = cc
  rule_of-IsRuleOf m svc_label role (o ∷ to) rule permitted h =
      let (source, hs, h1) =
        bind-eq_returns (members_source jwt now m (or_empty (lookup m.members role))) _ h in
      named_rule-IsRuleOf m svc_label role source o to rule permitted
        (members_source-IsAllowed jwt now m (or_empty (lookup m.members role))
          (or_empty (lookup m.members role)) source (λ r i. i) hs)
        (returns_injective h1)

  append_rule-IsGrantedRule :
      (m : Model) (svc_label role : Text) (rule : Option Rule) (rules : List Rule)
      → In role (keys m.rules)
      → rule_of jwt now match_string m role
          (rule_to jwt now match_string m.name svc_label (or_empty (lookup m.rules role)))
        ≡ returns rule
      → All (IsGrantedRule m svc_label) rules
      → All (IsGrantedRule m svc_label) (append_rule jwt now match_string rule rules)
  append_rule-IsGrantedRule m svc_label role none rules i h hs = hs
  append_rule-IsGrantedRule m svc_label role (some rule) rules i h hs = (
    (
      role,
      i,
      rule_of-IsRuleOf m svc_label role _ rule
          (rule_to-IsPermitted jwt now match_string m.name svc_label
            (or_empty (lookup m.rules role)))
          h,
    ),
    hs,
  )

  roles_rules-IsGrantedRule :
      (m : Model) (svc_label : Text) (roles : List Text) (rules : List Rule)
      → ((role : Text) → In role roles → In role (keys m.rules))
      → roles_rules jwt now match_string m svc_label roles ≡ returns rules
      → All (IsGrantedRule m svc_label) rules
  unfolding roles_rules
  roles_rules-IsGrantedRule m svc_label [] rules sub h = rw (← returns_injective h) tt
  roles_rules-IsGrantedRule m svc_label (role ∷ roles) rules sub h =
      let (rule, hr, h1) =
        bind-eq_returns
          (rule_of jwt now match_string m role
            (rule_to jwt now match_string m.name svc_label (or_empty (lookup m.rules role))))
          _ h in
      let (rest, hs, h2) =
        bind-eq_returns (roles_rules jwt now match_string m svc_label roles) _ h1 in
      subst (All (IsGrantedRule m svc_label)) (returns_injective h2) (
        append_rule-IsGrantedRule m svc_label role rule rest (sub role (inl refl)) hr
          (roles_rules-IsGrantedRule m svc_label roles rest (λ r i. sub r (inr i)) hs))

  -- The result is one policy, under the service's name in the model's namespace, for the pods with
  -- the label. Each of its rules is that of a role with rules in the model. It has operations, each
  -- permitted for the service by an assertion of that role, with the method of the assertion alone
  -- and its path up to the first question mark. It has a source with the certificate of the role,
  -- none of its sources is empty, and what they let in otherwise are the principals and namespaces
  -- of valid members of that role, or of valid members of groups that are valid members of it, and
  -- their JWT names where these are enabled.
  pub convert_athenz_model_into_istio_rbac-IsGrantedRule :
      (collections : Collections) (m : Model) (service_name svc_label app_label : Text)
      (out : List (Config Spec))
      → convert_athenz_model_into_istio_rbac jwt now match_string collections m service_name
          svc_label app_label
        ≡ returns out
      → (c : Config Spec) × (rules : List Rule) × (out ≡ c ∷ [])
        × (c.meta.name ≡ service_name)
        × (c.meta.namespace ≡ m.namespace)
        × (c.spec
            ≡ authorization_policy
                (record { match_labels = (codes "app", app_label) ∷ []; rules = rules }))
        × All (IsGrantedRule m svc_label) rules
  unfolding convert_athenz_model_into_istio_rbac
  convert_athenz_model_into_istio_rbac-IsGrantedRule collections m service_name svc_label app_label
        out h =
      let (rules, hr, h1) =
        bind-eq_returns (roles_rules jwt now match_string m svc_label (sort_strings (keys m.rules)))
          _ h in
      (
        _,
        rules,
        sym (returns_injective h1),
        refl,
        refl,
        refl,
        roles_rules-IsGrantedRule m svc_label (sort_strings (keys m.rules)) rules
            (λ role i. In-sort_strings role (keys m.rules) i) hr,
      )
