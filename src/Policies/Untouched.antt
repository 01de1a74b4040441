-- ===== src/Policies/Untouched.antt =====
-- Which policies a sync changes.
use k8s_athenz_istio_auth.Prelude.{
  ◌≡◌, ◌⊎◌, refl, ap, ◌∙◌, subst, true, List, [], ◌∷◌, Option, none, some, arith, All, All-append,
  All-weaken, In, inl, inr, Bool-cases, Option-cases,
}
use k8s_athenz_istio_auth.Prelude.Outcome.{returns, bind-eq_returns, returns_injective}
use k8s_athenz_istio_auth.Prelude.Text.{Text, codes, same, same_iff}
use k8s_athenz_istio_auth.Prelude.Keyed.{lookup}
use k8s_athenz_istio_auth.Athenz.Zms.{DomainData}
use k8s_athenz_istio_auth.Athenz.Trust.{Cached, athenz_domain, other_object}
use k8s_athenz_istio_auth.Athenz.Model.{Model, or_empty, convert_athenz_policies_into_rbac_model}
use k8s_athenz_istio_auth.Onboarding.Services.{Service, is_onboarded}
use k8s_athenz_istio_auth.Rbac.Config.{
  Config, ConfigApi, Item, event_add, OnComplete, policy_callback,
}
use k8s_athenz_istio_auth.Rbac.Spec.{Spec}
use k8s_athenz_istio_auth.Rbac.ChangeList.Justified.{
  IsJustified, adds, updates, removes, compute_change_list-IsJustified,
}
use k8s_athenz_istio_auth.Rbac.ChangeList.{checked}
use k8s_athenz_istio_auth.Rbac.V2.{convert_athenz_model_into_istio_rbac}
use k8s_athenz_istio_auth.Policies.Stale.{IsOverridden, check_override_annotation-false}
use k8s_athenz_istio_auth.Policies.{
  Environment, Fetched, fetched, fetch_fails, check_override_annotation, parse_key, service_list,
  desired_configs, current_configs, change_list, fetched_changes, cached_changes, sync_changes,
}

-- The configuration is one that the provider makes of the model for a service of the list that has
-- the annotation.
abbrev pub IsDesired : Environment → Model → List Service → Config Spec → Type 0
IsDesired env m services d =
    (service : Service) × (out : List (Config Spec)) × In service services
    × (lookup service.annotations (codes "authz.istio.io/enabled") ≡ some (codes "true"))
    × (convert_athenz_model_into_istio_rbac env.enable_origin_jwt_subject env.now env.match_string
          env.collections m service.name (or_empty (lookup service.labels (codes "svc")))
          (or_empty (lookup service.labels (codes "app")))
        ≡ returns out)
    × In d out

-- The item adds a policy, or it is about a current one that its annotation does not override.
abbrev pub SparesOverridden : List (Config Spec) → Item Spec → Type 0
SparesOverridden current item =
    (item.operation ≡ event_add)
    ⊎ ((c : Config Spec) × In c current × ((item.resource).meta ≡ c.meta) × ¬ (IsOverridden c))

-- The items are justified by the policies that exist for the key and those that are desired for the
-- services of a model of its domain.
pub record HasReasons (env : Environment) (key : Text) (items : List (Item Spec)) : Type 0 where
  pub domain : Option DomainData
  pub m : Model
  pub services : List Service
  pub desired : List (Config Spec)
  pub is_cached : env.domain_by_key (parse_key key).0 ≡ some (athenz_domain domain)
  pub is_model : convert_athenz_policies_into_rbac_model domain (some env.domain_by_key) ≡ returns m
  pub are_services : service_list env (parse_key key).0 (parse_key key).1 ≡ fetched services
  pub are_desired : desired_configs env m services ≡ returns desired
  pub are_made : All (IsDesired env m services) desired
  pub spare_overridden : All (SparesOverridden (current_configs env m (parse_key key).1)) items
  pub are_justified :
      All
        (IsJustified env.api
          (some (policy_callback key))
          (some check_override_annotation)
          (current_configs env m (parse_key key).1)
          desired)
        items

pub fetched_injective : {A : Type 0} {a b : A} → fetched a ≡ fetched b → a ≡ b
fetched_injective h = cc

is_onboarded_sound :
    (service : Service)
    → is_onboarded service ≡ true
    → lookup service.annotations (codes "authz.istio.io/enabled") ≡ some (codes "true")
unfolding is_onboarded
is_onboarded_sound service h =
    elim (Option-cases (lookup service.annotations (codes "authz.istio.io/enabled"))) [
      | inl e ↦ absurd (ground (arith, e))
      | inr (t, e) ↦
          let same_text : same t (codes "true") ≡ true = ground (arith, e) in
          e ∙ ap some ((same_iff t (codes "true")).0 same_text)
    ]

IsJustified-SparesOverridden :
    (api : ConfigApi Spec) (callback : Option OnComplete) (current desired : List (Config Spec))
    (item : Item Spec)
    → IsJustified api callback (some check_override_annotation) current desired item
    → SparesOverridden current item
unfolding checked
IsJustified-SparesOverridden api callback current desired item (adds d i h) = inl refl
IsJustified-SparesOverridden api callback current desired item (updates c d i j h e k) =
    inr (c, i, refl, check_override_annotation-false c k)
IsJustified-SparesOverridden api callback current desired item (removes c i h k) =
    inr (c, i, refl, check_override_annotation-false c k)

module _ (env : Environment) (m : Model) where
  IsDesired-cons :
      (service : Service) (services : List Service) (d : Config Spec)
      → IsDesired env m services d
      → IsDesired env m (service ∷ services) d
  IsDesired-cons service services d (s, out, i, a, h, j) = (s, out, inr i, a, h, j)

  made-IsDesired :
      (service : Service) (services : List Service) (out ds : List (Config Spec))
      → is_onboarded service ≡ true
      → convert_athenz_model_into_istio_rbac env.enable_origin_jwt_subject env.now env.match_string
          env.collections m service.name
          (or_empty (lookup service.labels (codes "svc")))
          (or_empty (lookup service.labels (codes "app")))
        ≡ returns out
      → ((d : Config Spec) → In d ds → In d out)
      → All (IsDesired env m (service ∷ services)) ds
  made-IsDesired service services out [] on e sub = tt
  made-IsDesired service services out (d ∷ ds) on e sub = (
    (service, out, inl refl, is_onboarded_sound service on, e, sub d (inl refl)),
    made-IsDesired service services out ds on e (λ d' i. sub d' (inr i)),
  )

  desired_configs-IsDesired :
      (services : List Service) (desired : List (Config Spec))
      → desired_configs env m services ≡ returns desired
      → All (IsDesired env m services) desired
  unfolding desired_configs
  desired_configs-IsDesired [] desired h = subst (All (IsDesired env m [])) (returns_injective h) tt
  desired_configs-IsDesired (service ∷ services) desired h =
      elim (Bool-cases (is_onboarded service)) [
        | inr e ↦
            All-weaken (IsDesired env m services) (IsDesired env m (service ∷ services)) desired
              (IsDesired-cons service services)
              (desired_configs-IsDesired services desired (rw e at h))
        | inl e ↦
            let (out, ho, h1) =
              bind-eq_returns
                (convert_athenz_model_into_istio_rbac env.enable_origin_jwt_subject env.now
                  env.match_string env.collections m service.name
                  (or_empty (lookup service.labels (codes "svc")))
                  (or_empty (lookup service.labels (codes "app"))))
                _ (rw e at h) in
            let (rest, hr, h2) = bind-eq_returns (desired_configs env m services) _ h1 in
            subst (All (IsDesired env m (service ∷ services))) (returns_injective h2) (
              All-append (IsDesired env m (service ∷ services)) out rest
                (made-IsDesired service services out out e ho (λ d i. i))
                (All-weaken (IsDesired env m services) (IsDesired env m (service ∷ services)) rest
                  (IsDesired-cons service services) (desired_configs-IsDesired services rest hr)))
      ]

module _ (env : Environment) (key : Text) where
  fetched_changes-HasReasons :
      (domain : Option DomainData) (m : Model) (services : Fetched (List Service))
      (items : List (Item Spec))
      → env.domain_by_key (parse_key key).0 ≡ some (athenz_domain domain)
      → convert_athenz_policies_into_rbac_model domain (some env.domain_by_key) ≡ returns m
      → service_list env (parse_key key).0 (parse_key key).1 ≡ services
      → fetched_changes env key m (parse_key key).1 services ≡ returns (fetched items)
      → HasReasons env key items
  unfolding fetched_changes change_list
  fetched_changes-HasReasons domain m fetch_fails items hd hm hs h = cc
  fetched_changes-HasReasons domain m (fetched services) items hd hm hs h =
      let (desired, hr, h1) = bind-eq_returns (desired_configs env m services) _ h in
      let justified =
        subst
          (All (
            IsJustified env.api (some (policy_callback key)) (some check_override_annotation)
              (current_configs env m (parse_key key).1) desired))
          (fetched_injective (returns_injective h1))
          (compute_change_list-IsJustified env.api (some (policy_callback key))
            (some check_override_annotation) (current_configs env m (parse_key key).1) desired) in
      record {
        domain = domain;
        m = m;
        services = services;
        desired = desired;
        is_cached = hd;
        is_model = hm;
        are_services = hs;
        are_desired = hr;
        are_made = desired_configs-IsDesired env m services desired hr;
        spare_overridden =
            All-weaken
              (IsJustified env.api (some (policy_callback key)) (some check_override_annotation)
                (current_configs env m (parse_key key).1) desired)
              (SparesOverridden (current_configs env m (parse_key key).1)) items
              (IsJustified-SparesOverridden env.api (some (policy_callback key))
                (current_configs env m (parse_key key).1) desired)
              justified;
        are_justified = justified;
      }

  cached_changes-HasReasons :
      (cached : Option Cached) (items : List (Item Spec))
      → env.domain_by_key (parse_key key).0 ≡ cached
      → cached_changes env key (parse_key key).0 (parse_key key).1 cached ≡ returns (fetched items)
      → HasReasons env key items
  unfolding cached_changes
  cached_changes-HasReasons none items hd h = cc
  cached_changes-HasReasons (some other_object) items hd h = cc
  cached_changes-HasReasons (some (athenz_domain domain)) items hd h =
      let (m, hm, h1) =
        bind-eq_returns (convert_athenz_policies_into_rbac_model domain (some env.domain_by_key)) _
          h in
      fetched_changes-HasReasons domain m (service_list env (parse_key key).0 (parse_key key).1)
        items hd hm refl h1

  -- The changes that a sync makes are justified by the policies that exist for the key and by those
  -- that the provider makes, of the model of the key's cached domain, for the services that the
  -- sync lists and that have the annotation: it adds what is desired and missing, updates what
  -- differs, and deletes what is not desired. What it updates or deletes is a current policy that
  -- does not have the annotation `overrideAuthzPolicy` with the value `true`.
  pub sync_changes-HasReasons :
      (items : List (Item Spec))
      → sync_changes env key ≡ returns (fetched items)
      → HasReasons env key items
  unfolding sync_changes
  sync_changes-HasReasons items h = elim (Bool-cases (env.domain_fails (parse_key key).0)) [
    | inl e ↦ absurd (ground (arith, e, h))
    | inr e ↦
        cached_changes-HasReasons (env.domain_by_key (parse_key key).0) items refl (rw (e) at h)
  ]
