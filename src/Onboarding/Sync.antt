-- ===== src/Onboarding/Sync.antt =====
-- The onboarding controller of pkg/istio/onboarding/controller.go: its sync, its callback and its
-- retries.
pub mod Reconciled
pub mod Repeated
use k8s_athenz_istio_auth.Prelude.{
  ℕ, Bool, true, false, ◌||◌, List, [], ◌∷◌, Option, none, some, ltb, if◌then◌else◌, length,
}
use k8s_athenz_istio_auth.Prelude.Outcome.{Outcome, returns, panics, bind}
use k8s_athenz_istio_auth.Prelude.Text.{Text, codes}
use k8s_athenz_istio_auth.Rbac.Config.{
  ConfigMeta, Config, Event, event_add, event_update, event_delete, OnComplete, onboarding_callback,
  Item, Retry, done, repeats_item, requeues_key, ApiError, not_found, already_exists, conflict,
  other_error,
}
use k8s_athenz_istio_auth.Rbac.Spec.{
  Spec, cluster_rbac_config, service_role, service_role_binding, authorization_policy, foreign_spec,
  RbacConfig, Mode, on_with_inclusion, off, on, on_with_exclusion,
}
use k8s_athenz_istio_auth.Rbac.Istio.{Collections}
use k8s_athenz_istio_auth.Onboarding.Services.{
  Service, get_onboarded_service_list, compare_service_lists, add_services, delete_services,
}

abbrev pub queue_num_retries : ℕ
queue_num_retries = 3

-- `constants.DefaultRbacConfigName`
abbrev pub default_rbac_config_name : Text
default_rbac_config_name = codes "default"

-- `newClusterRbacSpec`
unfoldable pub new_cluster_rbac_spec : List Text → Spec
new_cluster_rbac_spec services =
    cluster_rbac_config (record { mode = on_with_inclusion; inclusion = some services })

-- `newClusterRbacConfig`
unfoldable pub new_cluster_rbac_config : Collections → List Text → Config Spec
new_cluster_rbac_config collections services = record {
  meta = record {
    type = collections.cluster_rbac_configs.kind;
    group = collections.cluster_rbac_configs.group;
    version = collections.cluster_rbac_configs.version;
    namespace = [];
    name = default_rbac_config_name;
    resource_version = [];
    annotations = [];
  };
  spec = new_cluster_rbac_spec services;
}

-- What a sync does: it forgets the key in the queue, hands an item to the processor, or returns
-- an error.
pub data Effect : Type 0 where
  forgets : Effect
  processes : Item Spec → Effect
  fails : Effect

-- The effect, and the object that the store answered, as the sync leaves it: it writes into the
-- specification behind the pointer that it was given. Whether the store itself holds that pointer
-- is not said.
pub record Synced : Type 0 where
  pub object : Option (Config Spec)
  pub effect : Effect

abbrev pub item_of : Event → Config Spec → Effect
item_of event config =
    processes
      (record { operation = event; resource = config; callback_handler = some onboarding_callback })

-- The object with other services in its specification.
abbrev pub with_services : ConfigMeta → List Text → Config Spec
with_services meta services = record { meta = meta; spec = new_cluster_rbac_spec services }

-- The item with the changed services is made where there is something to add or to delete.
unfoldable pub services_effect : List Text → List Text → Config Spec → Effect
services_effect [] [] config = forgets
services_effect new_services old_services config = item_of event_update config

-- The end of `sync`, where an inclusion exists. The additions and deletions are written into the
-- object, whether an item is made of it or not.
unfoldable pub sync_services : List Text → ConfigMeta → List Text → Outcome Synced
unfolding services_effect
sync_services onboarded meta current =
    let new_services = compare_service_lists onboarded current in
    let added = add_services new_services current in
    let old_services = compare_service_lists added onboarded in
    bind (delete_services old_services added) λ services. returns (record {
      object = some (with_services meta services);
      effect = services_effect new_services old_services (with_services meta services);
    })

-- `sync` where the specification is a `RbacConfig`, whose two fields are tested
unfoldable pub sync_config :
    List Text → ConfigMeta → RbacConfig → Mode → Option (List Text) → Outcome Synced
unfolding sync_services
sync_config onboarded meta config on_with_inclusion (some current) =
    sync_services onboarded meta current
sync_config onboarded meta config mode inclusion = returns (record {
  object = some (record { meta = meta; spec = cluster_rbac_config config });
  effect = item_of event_update (with_services meta onboarded);
})

-- `sync` from the cast of the specification on
unfoldable pub sync_spec : List Text → ConfigMeta → Spec → Outcome Synced
unfolding sync_config
sync_spec onboarded meta (cluster_rbac_config config) =
    sync_config onboarded meta config config.mode config.inclusion
sync_spec onboarded meta spec =
    returns (record { object = some (record { meta = meta; spec = spec }); effect = fails })

-- `sync`, on the list of onboarded services and the object which the store has under the default
-- name
unfoldable pub sync_list : Collections → List Text → Option (Config Spec) → Outcome Synced
unfolding sync_spec
sync_list collections [] none = returns (record { object = none; effect = forgets })
sync_list collections (s ∷ onboarded) none = returns (record {
  object = none;
  effect = item_of event_add (new_cluster_rbac_config collections (s ∷ onboarded));
})
sync_list collections [] (some config) = returns (record {
  object = some config;
  effect = item_of event_delete (new_cluster_rbac_config collections []);
})
sync_list collections (s ∷ onboarded) (some config) =
    sync_spec (s ∷ onboarded) config.meta config.spec

-- `sync`
unfoldable pub sync :
    Collections → Text → List (Option Service) → Option (Config Spec) → Outcome Synced
unfolding sync_list
sync collections dns_suffix indexed stored =
    sync_list collections (get_onboarded_service_list dns_suffix indexed) stored

-- `callbackHandler`, with the number of times that the queue had the key again. A nil item is
-- dereferenced for the log where the error is no conflict.
unfoldable pub callback_handler : ℕ → Option ApiError → Option (Item Spec) → Outcome Retry
callback_handler requeues none item = returns done
callback_handler requeues (some not_found) item = returns done
callback_handler requeues (some already_exists) item = returns done
callback_handler requeues (some other_error) none = panics
callback_handler requeues (some other_error) (some item) = returns repeats_item
callback_handler requeues (some conflict) item =
    if ltb requeues queue_num_retries then returns requeues_key else returns done
