-- ===== src/Tests/Onboarding.antt =====
-- Examples about pkg/istio/onboarding.
use k8s_athenz_istio_auth.Prelude.Keyed.{lookup}
use k8s_athenz_istio_auth.Prelude.{◌≡◌, refl, List, [], ◌∷◌, Option, none, some, ◌⊎◌}
use k8s_athenz_istio_auth.Prelude.Outcome.{Outcome, returns}
use k8s_athenz_istio_auth.Prelude.Text.{Text, codes, same}
use k8s_athenz_istio_auth.Rbac.Config.{ConfigMeta}
use k8s_athenz_istio_auth.Rbac.Istio.{Schema, Collections}
use k8s_athenz_istio_auth.Onboarding.Services.{
  Service, authz_enabled, authz_enabled_annotation, get_onboarded_service_list,
  remove_index_element,
}
use k8s_athenz_istio_auth.Onboarding.Sync.{forgets, fails, Synced, with_services, sync}
use k8s_athenz_istio_auth.Onboarding.Sync.Reconciled.{
  IsForeign, IsReconciled, cluster_after, sync-IsReconciled,
}
use k8s_athenz_istio_auth.Onboarding.Sync.Repeated.{sync-sync}

abbrev schema : Text → Schema
schema kind = record { kind = kind; group = codes "rbac.istio.io"; version = codes "v1alpha1" }

abbrev collections : Collections
collections = record {
  service_roles = schema (codes "ServiceRole");
  service_role_bindings = schema (codes "ServiceRoleBinding");
  cluster_rbac_configs = schema (codes "ClusterRbacConfig");
  authorization_policies = schema (codes "AuthorizationPolicy");
}

abbrev service : Text → Text → Service
service name enabled = record {
  name = name;
  namespace = codes "ns";
  annotations = (authz_enabled_annotation, enabled) ∷ [];
  labels = [];
}

-- Two services that are onboarded, one that is not, and an object that is no service.
abbrev indexed : List (Option Service)
indexed =
    some (service (codes "a") authz_enabled)
    ∷ some (service (codes "b") (codes "false"))
    ∷ none
    ∷ some (service (codes "c") authz_enabled)
    ∷ []

abbrev stored_meta : ConfigMeta
stored_meta = record {
  type = codes "ClusterRbacConfig";
  group = [];
  version = [];
  namespace = [];
  name = codes "default";
  resource_version = codes "7";
  annotations = [];
}

abbrev stored_services : List Text
stored_services = codes "old.ns.local" ∷ codes "a.ns.local" ∷ codes "old.ns.local" ∷ []

onboarded-indexed :
    get_onboarded_service_list (codes "local") indexed
    ≡ codes "a.ns.local" ∷ codes "c.ns.local" ∷ []
unfolding get_onboarded_service_list lookup same
onboarded-indexed = refl

-- The index of the length is not refused, and is out of range.
remove_at_length : remove_index_element (codes "a" ∷ []) 1 ≡ Outcome.panics
unfolding remove_index_element
remove_at_length = refl

sync-IsReconciled_example :
    (s : Synced) × (sync collections
        (codes "local")
        indexed
        (some (with_services stored_meta stored_services))
      ≡ returns s)
    × (((s.effect ≡ fails) × IsForeign (some (with_services stored_meta stored_services)))
        ⊎ IsReconciled
            (get_onboarded_service_list (codes "local") indexed)
            (cluster_after (some (with_services stored_meta stored_services)) s.effect))
sync-IsReconciled_example =
    sync-IsReconciled collections (codes "local") indexed
      (some (with_services stored_meta stored_services))

sync-sync_example :
    (first : Synced) × (sync collections
        (codes "local")
        indexed
        (some (with_services stored_meta stored_services))
      ≡ returns first)
    × (((first.effect ≡ fails) × IsForeign (some (with_services stored_meta stored_services)))
        ⊎ ((second : Synced) × (sync collections
                (codes "local")
                indexed
                (cluster_after (some (with_services stored_meta stored_services)) first.effect)
              ≡ returns second)
            × (second.effect ≡ forgets)))
sync-sync_example =
    sync-sync collections (codes "local") indexed (some (with_services stored_meta stored_services))
