-- ===== src/Policies/Total.antt =====
-- About the change lists of pkg/istio/authorizationpolicy/controller.go, which no nil pointer of the
-- cached domains prevents.
use k8s_athenz_istio_auth.Prelude.{
  ◌≡◌, refl, List, [], ◌∷◌, Option, none, some, inl, inr, Bool-cases,
}
use k8s_athenz_istio_auth.Prelude.Outcome.{Outcome, Yields, bind-Yields}
use k8s_athenz_istio_auth.Prelude.Text.{Text, codes}
use k8s_athenz_istio_auth.Prelude.Keyed.{lookup}
use k8s_athenz_istio_auth.Athenz.Trust.{Cached, athenz_domain, other_object}
use k8s_athenz_istio_auth.Athenz.Trust.Whole.{IsWholeObject, IsWholeCache}
use k8s_athenz_istio_auth.Athenz.Model.{Model, or_empty, convert_athenz_policies_into_rbac_model}
use k8s_athenz_istio_auth.Athenz.Model.Total.{
  IsWholeModel, convert_athenz_policies_into_rbac_model-Yields,
}
use k8s_athenz_istio_auth.Onboarding.Services.{Service, is_onboarded}
use k8s_athenz_istio_auth.Rbac.V2.Total.{convert_athenz_model_into_istio_rbac_returns}
use k8s_athenz_istio_auth.Policies.{
  Environment, Fetched, fetched, fetch_fails, parse_key, service_list, desired_configs,
  fetched_changes, cached_changes, sync_changes,
}

module _ (env : Environment) (whole : IsWholeCache env.domain_by_key) where
  abbrev pub Returns : {A : Type 0} → Outcome A → Type 0
  Returns {A = A} o = Yields (λ _. Unit) o

  desired_configs_total :
      (m : Model) (services : List Service)
      → IsWholeModel m
      → Returns (desired_configs env m services)
  unfolding desired_configs
  desired_configs_total m [] there = ([], refl, tt)
  desired_configs_total m (service ∷ services) there =
      let rest = desired_configs_total m services there in
      elim (Bool-cases (is_onboarded service)) [
        | inl e ↦
            let (out, h) =
              convert_athenz_model_into_istio_rbac_returns env.enable_origin_jwt_subject env.now
                env.match_string m
                (record { members = there.members; group_members = there.group_members })
                env.collections service.name (or_empty (lookup service.labels (codes "svc")))
                (or_empty (lookup service.labels (codes "app"))) in
            rw e (
              bind-Yields (λ _. Unit) (λ _. Unit) _ _ (out, h, tt)
                λ desired t.
                  bind-Yields (λ _. Unit) (λ _. Unit) (desired_configs env m services) _ rest
                    λ more t'. (_, refl, tt))
        | inr e ↦ rw e rest
      ]

  fetched_changes_total :
      (key : Text) (m : Model) (service_name : Text) (services : Fetched (List Service))
      → IsWholeModel m
      → Returns (fetched_changes env key m service_name services)
  unfolding fetched_changes
  fetched_changes_total key m service_name fetch_fails there = (_, refl, tt)
  fetched_changes_total key m service_name (fetched services) there =
      bind-Yields (λ _. Unit) (λ _. Unit) (desired_configs env m services) _
        (desired_configs_total m services there) λ desired t. (_, refl, tt)

  cached_changes_total :
      (key domain_name service_name : Text) (found : Option Cached)
      → ((object : Cached) → found ≡ some object → IsWholeObject object)
      → Returns (cached_changes env key domain_name service_name found)
  unfolding cached_changes
  cached_changes_total key domain_name service_name none there = (_, refl, tt)
  cached_changes_total key domain_name service_name (some other_object) there = (_, refl, tt)
  cached_changes_total key domain_name service_name (some (athenz_domain none)) there =
      absurd (there _ refl)
  cached_changes_total key domain_name service_name (some (athenz_domain (some domain))) there =
      bind-Yields IsWholeModel (λ _. Unit)
        (convert_athenz_policies_into_rbac_model (some domain) (some env.domain_by_key)) _
        (convert_athenz_policies_into_rbac_model-Yields domain env.domain_by_key (there _ refl)
          whole)
        λ m there'.
          fetched_changes_total key m service_name (service_list env domain_name service_name)
            there'

  pub sync_changes_total : (key : Text) → Returns (sync_changes env key)
  unfolding sync_changes
  sync_changes_total key = elim (Bool-cases (env.domain_fails (parse_key key).0)) [
    | inl e ↦ rw e (fetch_fails, refl, tt)
    | inr e ↦
        let found =
          cached_changes_total key (parse_key key).0 (parse_key key).1
            (env.domain_by_key (parse_key key).0) (whole (parse_key key).0) in
        rw e found
  ]
