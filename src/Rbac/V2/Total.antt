-- ===== src/Rbac/V2/Total.antt =====
-- About which models the v2 provider, pkg/istio/rbac/v2/provider.go, returns for.
use k8s_athenz_istio_auth.Prelude.{
  ℕ, ◌≡◌, ◌≢◌, refl, ◌∙◌, Bool, List, [], ◌∷◌, Option, none, some, All,
}
use k8s_athenz_istio_auth.Prelude.Outcome.{returns, bind-returns}
use k8s_athenz_istio_auth.Prelude.Text.{Text}
use k8s_athenz_istio_auth.Prelude.Sort.{sort_strings}
use k8s_athenz_istio_auth.Prelude.Keyed.{lookup}
use k8s_athenz_istio_auth.Athenz.Zms.{RoleMember}
use k8s_athenz_istio_auth.Athenz.Model.{Model, or_empty}
use k8s_athenz_istio_auth.Rbac.Config.{Config}
use k8s_athenz_istio_auth.Rbac.Spec.{Spec, Operation, Rule}
use k8s_athenz_istio_auth.Rbac.Istio.{Collections}
use k8s_athenz_istio_auth.Rbac.Principals.Total.{HasNoNilMember, members_source_total}
use k8s_athenz_istio_auth.Rbac.V2.{
  rule_to, rule_of, roles_rules, keys, convert_athenz_model_into_istio_rbac,
}

module _ (jwt : Bool) (now : ℕ) (match_string : Text → Text → Option Bool) (m : Model)
    (no_nil : HasNoNilMember m) where
  members_present :
      (role : Text) (o : Option (List (Option RoleMember)))
      → lookup m.members role ≡ o
      → All (λ r. r ≢ none) (or_empty o)
  members_present role none e = tt
  members_present role (some list) e = no_nil.members role list e

  rule_of_total :
      (role : Text) (to : List Operation)
      → (r : Option Rule) × (rule_of jwt now match_string m role to ≡ returns r)
  unfolding rule_of
  rule_of_total role [] = (_, refl)
  rule_of_total role (o ∷ to) =
      let (s, h) =
        members_source_total jwt now m no_nil (or_empty (lookup m.members role))
          (members_present role (lookup m.members role) refl) in
      (_, bind-returns _ _ h)

  roles_rules_total :
      (svc_label : Text) (roles : List Text)
      → (rules : List Rule) × (roles_rules jwt now match_string m svc_label roles ≡ returns rules)
  unfolding roles_rules
  roles_rules_total svc_label [] = (_, refl)
  roles_rules_total svc_label (role ∷ roles) =
      let (r, h) =
        rule_of_total role
          (rule_to jwt now match_string m.name svc_label (or_empty (lookup m.rules role))) in
      let (rest, k) = roles_rules_total svc_label roles in
      (_, bind-returns _ _ h ∙ bind-returns _ _ k)

  -- For a model whose lists of members, of roles and of groups, have no nil pointer, the provider
  -- returns.
  pub convert_athenz_model_into_istio_rbac_returns :
      (collections : Collections) (service_name svc_label app_label : Text)
      → (out : List (Config Spec)) × (convert_athenz_model_into_istio_rbac jwt now match_string
            collections m service_name svc_label app_label
          ≡ returns out)
  unfolding convert_athenz_model_into_istio_rbac
  convert_athenz_model_into_istio_rbac_returns collections service_name svc_label app_label =
      let (rules, h) = roles_rules_total svc_label (sort_strings (keys m.rules)) in
      (_, bind-returns _ _ h)
