-- ===== src/Rbac/V2/Order.antt =====
-- The policy does not depend on the order in which the map of the rules is gone through.
use k8s_athenz_istio_auth.Prelude.{ℕ, ◌≡◌, refl, Bool, List, [], ◌∷◌, Option}
use k8s_athenz_istio_auth.Prelude.Text.{Text}
use k8s_athenz_istio_auth.Prelude.Sort.{sort_strings, sort_strings-Permᴰ}
use k8s_athenz_istio_auth.Prelude.Keyed.{lookup}
use mathlib.Core.List.{Permᴰ}
use k8s_athenz_istio_auth.Athenz.Model.{Model, RoleAssertions, or_empty}
use k8s_athenz_istio_auth.Rbac.Spec.{Operation}
use k8s_athenz_istio_auth.Rbac.Istio.{Collections}
use k8s_athenz_istio_auth.Rbac.V2.{
  rule_to, rule_of, keys, roles_rules, convert_athenz_model_into_istio_rbac,
}
use k8s_athenz_istio_auth.Rbac.Principals.Rules.{with_rules, members_source-rules}

module _ (jwt : Bool) (now : ℕ) (match_string : Text → Text → Option Bool) where
  rule_of-rules :
      (m : Model) (rules rules' : RoleAssertions) (role : Text) (to : List Operation)
      → rule_of jwt now match_string (with_rules m rules) role to
        ≡ rule_of jwt now match_string (with_rules m rules') role to
  unfolding rule_of
  rule_of-rules m rules rules' role [] = refl
  rule_of-rules m rules rules' role (o ∷ to) =
      rw (members_source-rules jwt now m rules rules' (or_empty (lookup m.members role))) refl

  -- Only the lookups of the rules are read.
  roles_rules-lookup :
      (m : Model) (rules rules' : RoleAssertions) (svc_label : Text) (roles : List Text)
      → ((k : Text) → lookup rules k ≡ lookup rules' k)
      → roles_rules jwt now match_string (with_rules m rules) svc_label roles
        ≡ roles_rules jwt now match_string (with_rules m rules') svc_label roles
  unfolding roles_rules
  roles_rules-lookup m rules rules' svc_label [] h = refl
  roles_rules-lookup m rules rules' svc_label (role ∷ roles) h =
      rw
        (
          h role,
          rule_of-rules m rules rules' role
              (rule_to jwt now match_string m.name svc_label (or_empty (lookup rules' role))),
          roles_rules-lookup m rules rules' svc_label roles h,
        )
        refl

  -- If two maps of rules have the same keys, whatever their order, and the same assertions at each
  -- key, the policies that are made of them are the same.
  pub convert_athenz_model_into_istio_rbac-Permᴰ :
      (collections : Collections) (m : Model) (rules rules' : RoleAssertions)
      (service_name svc_label app_label : Text)
      → Permᴰ (keys rules) (keys rules')
      → ((k : Text) → lookup rules k ≡ lookup rules' k)
      → convert_athenz_model_into_istio_rbac jwt now match_string collections
          (with_rules m rules)
          service_name
          svc_label
          app_label
        ≡ convert_athenz_model_into_istio_rbac jwt now match_string collections
            (with_rules m rules')
            service_name
            svc_label
            app_label
  unfolding convert_athenz_model_into_istio_rbac
  convert_athenz_model_into_istio_rbac-Permᴰ collections m rules rules' service_name svc_label
        app_label p h =
      rw
        (
          sort_strings-Permᴰ p,
          roles_rules-lookup m rules rules' svc_label (sort_strings (keys rules')) h,
        )
        refl
