-- ===== src/Rbac/V1/Produced.antt =====
-- About the resources of pkg/istio/rbac/v1/provider.go: what they grant, and to whom.
use k8s_athenz_istio_auth.Prelude.{
  ◌≡◌, refl, subst, Bool, List, [], ◌∷◌, ◌++◌, Option, none, some, arith, All, inl, inr, Bool-cases,
}
use k8s_athenz_istio_auth.Prelude.Outcome.{Result, ok, err, returns, bind, bind-eq_returns}
use k8s_athenz_istio_auth.Prelude.Text.{Text}
use k8s_athenz_istio_auth.Prelude.Keyed.{lookup}
use k8s_athenz_istio_auth.Athenz.Zms.{Assertion}
use k8s_athenz_istio_auth.Athenz.Model.{Model}
use k8s_athenz_istio_auth.Rbac.Config.{Config}
use k8s_athenz_istio_auth.Rbac.Spec.{Spec, ServiceRole, service_role}
use k8s_athenz_istio_auth.Rbac.Istio.{Collections, Validation, new_config}
use k8s_athenz_istio_auth.Rbac.Assertion.{parse_role_fqdn}
use k8s_athenz_istio_auth.Rbac.ServiceRole.{
  get_service_role_spec, convert_athenz_role_name_to_k8s_name,
}
use k8s_athenz_istio_auth.Rbac.V1.{
  member_configs, service_role_configs, named_configs, assertion_configs, roles_configs,
  convert_athenz_model_into_istio_rbac,
}
use k8s_athenz_istio_auth.Rbac.V1.Made.{
  IsRoleOf, IsBindingOf, IsRoleOf-spec, member_configs-IsBindingOf,
}

module _ (collections : Collections) (validation : Validation) (jwt : Bool) (m : Model) where
  -- The resources of one role: none, or its service role and then at most bindings of it.
  abbrev pub IsRound : Text → List (Config Spec) → Type 0
  IsRound role [] = Unit
  IsRound role (c ∷ cs) =
      (role_name : Text) × (parse_role_fqdn m.name role ≡ ok role_name)
      × IsRoleOf m role role_name c
      × All (IsBindingOf jwt m role role_name) cs

  service_role_configs-IsRound :
      (role role_name : Text) (assertions : List (Option Assertion)) (r : Result ServiceRole)
      (cs : List (Config Spec))
      → lookup m.rules role ≡ some assertions
      → parse_role_fqdn m.name role ≡ ok role_name
      → get_service_role_spec m.name role_name assertions ≡ returns r
      → service_role_configs collections validation jwt m role role_name r ≡ returns cs
      → IsRound role cs
  unfolding service_role_configs
  service_role_configs-IsRound role role_name assertions (err e) cs ha hn hs h =
      let nil : [] ≡ cs = cc in subst (IsRound role) nil tt
  service_role_configs-IsRound role role_name assertions (ok sr) cs ha hn hs h =
      elim (Bool-cases (validation.validate_service_role role_name m.namespace sr)) [
        | inr v ↦ let nil : [] ≡ cs = ground (arith, v) in subst (IsRound role) nil tt
        | inl v ↦
            let sr_config =
              new_config collections.service_roles m.namespace
                (convert_athenz_role_name_to_k8s_name role_name) (service_role sr) in
            let h' : bind
                  (member_configs collections validation jwt m role_name (lookup m.members role))
                  (λ bindings. returns (sr_config ∷ bindings))
                ≡ returns cs =
              ground (arith, v) in
            let (bindings, eb, h1) =
              bind-eq_returns
                (member_configs collections validation jwt m role_name (lookup m.members role)) _
                h' in
            let made : sr_config ∷ bindings ≡ cs = cc h1 in
            subst (IsRound role) made (
              role_name,
              hn,
              IsRoleOf-spec collections validation jwt m role role_name assertions sr ha hs,
              member_configs-IsBindingOf collections validation jwt m role role_name
                  (lookup m.members role) bindings refl eb,
            )
      ]

  named_configs-IsRound :
      (role : Text) (assertions : List (Option Assertion)) (r : Result Text)
      (cs : List (Config Spec))
      → lookup m.rules role ≡ some assertions
      → parse_role_fqdn m.name role ≡ r
      → named_configs collections validation jwt m role assertions r ≡ returns cs
      → IsRound role cs
  unfolding named_configs
  named_configs-IsRound role assertions (err e) cs ha hn h =
      let nil : [] ≡ cs = cc in subst (IsRound role) nil tt
  named_configs-IsRound role assertions (ok role_name) cs ha hn h =
      let (r, er, h1) = bind-eq_returns (get_service_role_spec m.name role_name assertions) _ h in
      service_role_configs-IsRound role role_name assertions r cs ha hn er h1

  assertion_configs-IsRound :
      (role : Text) (o : Option (List (Option Assertion))) (cs : List (Config Spec))
      → lookup m.rules role ≡ o
      → assertion_configs collections validation jwt m role o ≡ returns cs
      → IsRound role cs
  unfolding assertion_configs
  assertion_configs-IsRound role none cs ha h =
      let nil : [] ≡ cs = cc in subst (IsRound role) nil tt
  assertion_configs-IsRound role (some assertions) cs ha h =
      named_configs-IsRound role assertions (parse_role_fqdn m.name role) cs ha refl h

  -- The rounds of the roles, one behind the other.
  abbrev pub IsRounds : List Text → List (Config Spec) → Type 0
  IsRounds [] out = out ≡ []
  IsRounds (role ∷ roles) out =
      (first : List (Config Spec)) × (rest : List (Config Spec)) × (out ≡ first ++ rest)
      × IsRound role first
      × IsRounds roles rest

  roles_configs-IsRounds :
      (roles : List Text) (out : List (Config Spec))
      → roles_configs collections validation jwt m roles ≡ returns out
      → IsRounds roles out
  unfolding roles_configs
  roles_configs-IsRounds [] out h = cc
  roles_configs-IsRounds (role ∷ roles) out h =
      let (first, ef, h1) =
        bind-eq_returns (assertion_configs collections validation jwt m role (lookup m.rules role))
          _ h in
      let (rest, er, h2) =
        bind-eq_returns (roles_configs collections validation jwt m roles) _ h1 in
      (
        first,
        rest,
        cc h2,
        assertion_configs-IsRound role (lookup m.rules role) first refl ef,
        roles_configs-IsRounds roles rest er,
      )

  -- The resources are, for each role of the model in order, none, or its service role followed by
  -- bindings of it. The rules of the service role are granted by the assertions that the model has
  -- for the role, each with the method, the service and the path of its assertion. A binding refers
  -- to the service role of its name; its subjects are those of members that the model has for the
  -- role, and the certificate of the role, and each of these members whose name converts is among
  -- them.
  pub convert_athenz_model_into_istio_rbac-IsRounds :
      (out : List (Config Spec))
      → convert_athenz_model_into_istio_rbac collections validation jwt m ≡ returns out
      → IsRounds m.roles out
  unfolding convert_athenz_model_into_istio_rbac
  convert_athenz_model_into_istio_rbac-IsRounds out h = roles_configs-IsRounds m.roles out h
