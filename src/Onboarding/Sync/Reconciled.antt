-- ===== src/Onboarding/Sync/Reconciled.antt =====
-- The item that a sync hands to the processor, applied to the cluster, leaves exactly the onboarded
-- services in its configuration.
use k8s_athenz_istio_auth.Prelude.{
  ◌≡◌, ◌≢◌, refl, sym, ap, subst, List, [], ◌∷◌, Option, none, some, arith, inl, inr, ◌↔◌, ◌⊎◌,
}
use k8s_athenz_istio_auth.Prelude.Outcome.{Outcome, returns}
use k8s_athenz_istio_auth.Prelude.Text.{Text}
use k8s_athenz_istio_auth.Rbac.Config.{ConfigMeta, Config, event_add, event_update, event_delete}
use k8s_athenz_istio_auth.Rbac.Spec.{
  Spec, cluster_rbac_config, service_role, service_role_binding, authorization_policy, foreign_spec,
  RbacConfig, Mode, on_with_inclusion, off, on, on_with_exclusion,
}
use k8s_athenz_istio_auth.Rbac.Istio.{Collections}
use k8s_athenz_istio_auth.Onboarding.Services.{
  Service, get_onboarded_service_list, compare_service_lists, add_services, delete_services,
}
use k8s_athenz_istio_auth.Onboarding.Services.Counting.{count, count-append}
use k8s_athenz_istio_auth.Onboarding.Services.Reconcile.{
  add_services_lem, delete_services_lem, compare_service_lists_lem,
}
use k8s_athenz_istio_auth.Onboarding.Sync.{
  Effect, forgets, processes, fails, Synced, with_services, services_effect, new_cluster_rbac_spec,
  new_cluster_rbac_config, sync_services, sync_config, sync_spec, sync_list, sync,
}

-- The cluster after the processor has done the item of an effect.
unfoldable pub cluster_after : Option (Config Spec) → Effect → Option (Config Spec)
cluster_after stored forgets = stored
cluster_after stored fails = stored
cluster_after stored (processes item) = elim item.operation [
  | event_add ↦ some item.resource
  | event_update ↦ some item.resource
  | event_delete ↦ none
]

-- Two lists have the same members.
unfoldable pub HasSameServices : List Text → List Text → Type 0
HasSameServices a b = (x : Text) → (count x a ≡ 0) ↔ (count x b ≡ 0)

-- A specification that turns the checks on for a list of services and no others.
unfoldable pub IncludesExactly : List Text → Spec → Type 0
IncludesExactly onboarded spec =
    (services : List Text) × (spec ≡ new_cluster_rbac_spec services)
    × HasSameServices services onboarded

-- There is no configuration and nothing is onboarded, or it includes what is.
unfoldable pub IsReconciled : List Text → Option (Config Spec) → Type 0
IsReconciled onboarded none = onboarded ≡ []
IsReconciled onboarded (some config) = IncludesExactly onboarded config.spec

-- The specification is no `RbacConfig`.
pub IsForeign : Option (Config Spec) → Type 0
IsForeign none = ⊥
IsForeign (some config) = (c : RbacConfig) → config.spec ≢ cluster_rbac_config c

-- After the additions and deletions, the members are the onboarded services.
pub reconciled_services :
    (onboarded current : List Text)
    → (s : List Text) × (delete_services
          (compare_service_lists
            (add_services (compare_service_lists onboarded current) current)
            onboarded)
          (add_services (compare_service_lists onboarded current) current)
        ≡ returns s)
      × HasSameServices s onboarded
unfolding HasSameServices
reconciled_services onboarded current =
    let added = add_services (compare_service_lists onboarded current) current in
    let (s, run, law) = delete_services_lem (compare_service_lists added onboarded) added in
    (
      s,
      run,
      λ x. ground (
        arith,
        law x,
        compare_service_lists_lem added onboarded x,
        ap (count x) (add_services_lem (compare_service_lists onboarded current) current),
        count-append x current (compare_service_lists onboarded current),
        compare_service_lists_lem onboarded current x,
      ),
    )

-- Where nothing is to be added or deleted, the members are the onboarded services already.
settled_services :
    (onboarded current : List Text)
    → compare_service_lists onboarded current ≡ []
    → compare_service_lists
        (add_services (compare_service_lists onboarded current) current)
        onboarded
      ≡ []
    → HasSameServices current onboarded
unfolding HasSameServices count
settled_services onboarded current none_new none_old x = ground (
  arith,
  compare_service_lists_lem onboarded current x,
  ap (count x) none_new,
  compare_service_lists_lem (add_services (compare_service_lists onboarded current) current)
      onboarded x,
  ap (count x) none_old,
  ap (count x) (add_services_lem (compare_service_lists onboarded current) current),
  count-append x current (compare_service_lists onboarded current),
)

HasSameServices-refl : (xs : List Text) → HasSameServices xs xs
unfolding HasSameServices
HasSameServices-refl xs x = ground arith

-- The effect of a sync to which the store answers the object `stored`.
unfoldable pub Settles : List Text → Option (Config Spec) → Outcome Synced → Type 0
Settles onboarded stored run =
    (s : Synced) × (run ≡ returns s)
    × (((s.effect ≡ fails) × IsForeign stored)
        ⊎ IsReconciled onboarded (cluster_after stored s.effect))

services_effect-Settles :
    (onboarded : List Text) (meta : ConfigMeta) (current new_services old_services s : List Text)
    → (new_services ≡ [] → old_services ≡ [] → HasSameServices current onboarded)
    → HasSameServices s onboarded
    → IsReconciled onboarded (
        cluster_after
          (some (with_services meta current))
          (services_effect new_services old_services (with_services meta s)))
unfolding services_effect IsReconciled IncludesExactly cluster_after
services_effect-Settles onboarded meta current [] [] s settled law =
    (current, refl, settled refl refl)
services_effect-Settles onboarded meta current [] (x ∷ old_services) s settled law = (s, refl, law)
services_effect-Settles onboarded meta current (x ∷ new_services) old_services s settled law =
    (s, refl, law)

sync_services-Settles :
    (onboarded : List Text) (meta : ConfigMeta) (current : List Text)
    → Settles onboarded (some (with_services meta current)) (sync_services onboarded meta current)
unfolding sync_services Settles
sync_services-Settles onboarded meta current =
    let (s, run, law) = reconciled_services onboarded current in
    let new_services = compare_service_lists onboarded current in
    let old_services = compare_service_lists (add_services new_services current) onboarded in
    (
      record {
        object = some (with_services meta s);
        effect = services_effect new_services old_services (with_services meta s);
      },
      rw (run) refl,
      inr (
          services_effect-Settles onboarded meta current new_services old_services s
            (settled_services onboarded current) law),
    )

sync_config-Settles :
    (onboarded : List Text) (meta : ConfigMeta) (config : RbacConfig) (mode : Mode)
    (inclusion : Option (List Text))
    → config ≡ record { mode = mode; inclusion = inclusion }
    → Settles onboarded
        (some (record { meta = meta; spec = cluster_rbac_config config }))
        (sync_config onboarded meta config mode inclusion)
unfolding sync_config Settles IsReconciled IncludesExactly cluster_after new_cluster_rbac_spec
sync_config-Settles onboarded meta config on_with_inclusion (some current) e =
    subst
      (λ c.
        Settles onboarded (some (record { meta = meta; spec = cluster_rbac_config c }))
          (sync_services onboarded meta current))
      (sym e) (sync_services-Settles onboarded meta current)
sync_config-Settles onboarded meta config on_with_inclusion none e =
    (_, refl, inr (onboarded, refl, HasSameServices-refl onboarded))
sync_config-Settles onboarded meta config off inclusion e =
    (_, refl, inr (onboarded, refl, HasSameServices-refl onboarded))
sync_config-Settles onboarded meta config on inclusion e =
    (_, refl, inr (onboarded, refl, HasSameServices-refl onboarded))
sync_config-Settles onboarded meta config on_with_exclusion inclusion e =
    (_, refl, inr (onboarded, refl, HasSameServices-refl onboarded))

sync_spec-Settles :
    (onboarded : List Text) (meta : ConfigMeta) (spec : Spec)
    → Settles onboarded (some (record { meta = meta; spec = spec })) (sync_spec onboarded meta spec)
unfolding sync_spec Settles IsForeign
sync_spec-Settles onboarded meta (cluster_rbac_config config) =
    sync_config-Settles onboarded meta config config.mode config.inclusion refl
sync_spec-Settles onboarded meta (service_role r) = (_, refl, inl (refl, λ c e. cc))
sync_spec-Settles onboarded meta (service_role_binding r) = (_, refl, inl (refl, λ c e. cc))
sync_spec-Settles onboarded meta (authorization_policy r) = (_, refl, inl (refl, λ c e. cc))
sync_spec-Settles onboarded meta foreign_spec = (_, refl, inl (refl, λ c e. cc))

pub sync_list-Settles :
    (collections : Collections) (onboarded : List Text) (stored : Option (Config Spec))
    → Settles onboarded stored (sync_list collections onboarded stored)
unfolding sync_list new_cluster_rbac_config Settles IsReconciled IncludesExactly cluster_after
sync_list-Settles collections [] none = (_, refl, inr refl)
sync_list-Settles collections (s ∷ onboarded) none =
    (_, refl, inr (s ∷ onboarded, refl, HasSameServices-refl (s ∷ onboarded)))
sync_list-Settles collections [] (some config) = (_, refl, inr refl)
sync_list-Settles collections (s ∷ onboarded) (some config) =
    sync_spec-Settles (s ∷ onboarded) config.meta config.spec

-- `sync` returns for every object that the store may answer, without a panic. It fails only where the object is no
-- `RbacConfig`; otherwise, once the processor has done the item which it hands over, there is no
-- configuration where no service is onboarded, and else one in the mode with inclusion which
-- includes the services that are onboarded and no other.
pub sync-IsReconciled :
    (collections : Collections) (dns_suffix : Text) (indexed : List (Option Service))
    (stored : Option (Config Spec))
    → (s : Synced) × (sync collections dns_suffix indexed stored ≡ returns s)
      × (((s.effect ≡ fails) × IsForeign stored)
          ⊎ IsReconciled
              (get_onboarded_service_list dns_suffix indexed)
              (cluster_after stored s.effect))
unfolding sync Settles
sync-IsReconciled collections dns_suffix indexed stored =
    sync_list-Settles collections (get_onboarded_service_list dns_suffix indexed) stored
