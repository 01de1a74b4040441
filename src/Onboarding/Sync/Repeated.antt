-- ===== src/Onboarding/Sync/Repeated.antt =====
-- A sync of pkg/istio/onboarding/controller.go that runs again, once the item of the first has been
-- carried out.
use k8s_athenz_istio_auth.Prelude.{
  ◌≡◌, ◌⊎◌, inl, inr, refl, List, [], ◌∷◌, Option, none, some, arith,
}
use k8s_athenz_istio_auth.Prelude.Outcome.{Outcome, returns}
use k8s_athenz_istio_auth.Prelude.Text.{Text, same_refl}
use k8s_athenz_istio_auth.Rbac.Config.{Config, ConfigMeta}
use k8s_athenz_istio_auth.Rbac.Spec.{Spec}
use k8s_athenz_istio_auth.Rbac.Istio.{Collections}
use k8s_athenz_istio_auth.Onboarding.Services.{
  Service, get_onboarded_service_list, compare_service_lists, add_services, delete_services,
}
use k8s_athenz_istio_auth.Onboarding.Services.Counting.{count}
use k8s_athenz_istio_auth.Onboarding.Services.Reconcile.{compare_service_lists_lem}
use k8s_athenz_istio_auth.Onboarding.Sync.{
  forgets, fails, Synced, with_services, services_effect, new_cluster_rbac_spec, sync_services,
  sync_config, sync_spec, sync_list, sync,
}
use k8s_athenz_istio_auth.Onboarding.Sync.Reconciled.{
  HasSameServices, IncludesExactly, IsReconciled, IsForeign, cluster_after, Settles,
  sync_list-Settles,
}

empty-of_count : (xs : List Text) → ((x : Text) → count x xs ≡ 0) → xs ≡ []
unfolding count
empty-of_count [] h = refl
empty-of_count (y ∷ xs) h = absurd (ground (arith, h y, same_refl y))

compare-same : (a b : List Text) → HasSameServices a b → compare_service_lists a b ≡ []
unfolding HasSameServices
compare-same a b h =
    empty-of_count (compare_service_lists a b)
      (λ x. ground (arith, h x, compare_service_lists_lem a b x))

HasSameServices-sym : (a b : List Text) → HasSameServices a b → HasSameServices b a
unfolding HasSameServices
HasSameServices-sym a b h x = ground (arith, h x)

-- With the members right, a sync forgets and leaves the list as it is.
sync_services-same :
    (onboarded : List Text) (meta : ConfigMeta) (current : List Text)
    → HasSameServices current onboarded
    → sync_services onboarded meta current
      ≡ returns (record { object = some (with_services meta current); effect = forgets })
unfolding sync_services services_effect add_services delete_services
sync_services-same onboarded meta current h =
    rw
      (
        compare-same onboarded current (HasSameServices-sym current onboarded h),
        compare-same current onboarded h,
      )
      refl

-- On a configuration that includes exactly the onboarded services, a sync forgets the key.
abbrev Forgets : Outcome Synced → Type 0
Forgets run = (second : Synced) × (run ≡ returns second) × (second.effect ≡ forgets)

IncludesExactly-Forgets :
    (collections : Collections) (o : Text) (onboarded : List Text) (config : Config Spec)
    → IncludesExactly (o ∷ onboarded) config.spec
    → Forgets (sync_list collections (o ∷ onboarded) (some config))
unfolding sync_list sync_spec sync_config new_cluster_rbac_spec IncludesExactly
IncludesExactly-Forgets collections o onboarded config (services, e, law) =
    let quiet = sync_services-same (o ∷ onboarded) config.meta services law in rw e (_, quiet, refl)

IsReconciled-Forgets :
    (collections : Collections) (o : Text) (onboarded : List Text) (stored : Option (Config Spec))
    → IsReconciled (o ∷ onboarded) stored
    → Forgets (sync_list collections (o ∷ onboarded) stored)
unfolding IsReconciled
IsReconciled-Forgets collections o onboarded none h = cc
IsReconciled-Forgets collections o onboarded (some config) h =
    IncludesExactly-Forgets collections o onboarded config h

-- What the sync after a sync does, when the item of the first has been carried out.
SettlesThen : Collections → List Text → Option (Config Spec) → Type 0
SettlesThen collections onboarded stored =
    (first : Synced) × (sync_list collections onboarded stored ≡ returns first)
    × (((first.effect ≡ fails) × IsForeign stored)
        ⊎ Forgets (sync_list collections onboarded (cluster_after stored first.effect)))

sync_list-SettlesThen :
    (collections : Collections) (onboarded : List Text) (stored : Option (Config Spec))
    → SettlesThen collections onboarded stored
unfolding SettlesThen Settles sync_list cluster_after
sync_list-SettlesThen collections [] none = (_, refl, inr (_, refl, refl))
sync_list-SettlesThen collections [] (some config) = (_, refl, inr (_, refl, refl))
sync_list-SettlesThen collections (o ∷ onboarded) stored =
    let (first, run, law) = sync_list-Settles collections (o ∷ onboarded) stored in
    (
      first,
      run,
      elim law [
        | inl foreign ↦ inl foreign
        | inr reconciled ↦ inr (
            IsReconciled-Forgets collections o onboarded (cluster_after stored first.effect)
              reconciled)
      ],
    )

-- `sync` fails only where the object that the store answers is no `RbacConfig`. Otherwise, once the
-- processor has carried out the item that it hands over, if any, a sync on the object of the
-- cluster, with the same services indexed, hands over nothing and forgets the key.
pub sync-sync :
    (collections : Collections) (dns_suffix : Text) (indexed : List (Option Service))
    (stored : Option (Config Spec))
    → (first : Synced) × (sync collections dns_suffix indexed stored ≡ returns first)
      × (((first.effect ≡ fails) × IsForeign stored)
          ⊎ ((second : Synced) × (sync collections dns_suffix indexed
                  (cluster_after stored first.effect)
                ≡ returns second)
              × (second.effect ≡ forgets)))
unfolding sync SettlesThen
sync-sync collections dns_suffix indexed stored =
    sync_list-SettlesThen collections (get_onboarded_service_list dns_suffix indexed) stored
