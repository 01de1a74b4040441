-- ===== src/Policies/Handlers.antt =====
-- `ApiHandler` of pkg/istio/rbac/common/util.go, and `processConfigChange` and its loop, of
-- pkg/istio/authorizationpolicy/controller.go.
pub mod DryRun
pub mod Panics
use k8s_athenz_istio_auth.Prelude.{Bool, List, [], ◌∷◌, Option, none, some, if◌then◌else◌}
use k8s_athenz_istio_auth.Prelude.Outcome.{Outcome, returns, panics, bind}
use k8s_athenz_istio_auth.Prelude.Text.{Text}
use k8s_athenz_istio_auth.Rbac.Config.{
  Config, Item, event_add, event_update, event_delete, ApiError,
}
use k8s_athenz_istio_auth.Rbac.Spec.{Spec}
use k8s_athenz_istio_auth.Rbac.Components.{ComponentEnabled, is_enabled}

-- The store and the error of a call.
abbrev pub Answer : Type 0 → Type 0
Answer St = St × Option ApiError

-- The calls of `model.ConfigStoreCache` on authorization policies, which take the name and the
-- namespace, and the files of dry runs, as one store that the calls change.
pub record PolicyStore (St : Type 0) : Type 0 where
  pub create : St → Config Spec → Answer St
  pub update : St → Config Spec → Answer St
  pub delete : St → Text → Text → Answer St
  pub get : St → Text → Text → Option (Config Spec)
  pub write_file : St → Config Spec → Answer St
  pub remove_file : St → Config Spec → Answer St

module _ (components : ComponentEnabled) {St : Type 0} (handlers : PolicyStore St) where
  -- `ApiHandler.Add`
  pub api_add : St → Item Spec → Answer St
  api_add store item = handlers.create store item.resource

  -- `ApiHandler.Update` from the policy in the cache on, whose resource version is taken; a missing
  -- one is dereferenced.
  pub update_with : St → Config Spec → Option (Config Spec) → Outcome (Answer St)
  update_with store resource none = panics
  update_with store resource (some existing) = returns (
      handlers.update store (record resource {
        meta = record resource.meta { resource_version = (existing.meta).resource_version };
      }))

  -- `ApiHandler.Update`
  pub api_update : St → Item Spec → Outcome (Answer St)
  unfolding update_with
  api_update store item =
      update_with store item.resource
        (handlers.get store ((item.resource).meta).name ((item.resource).meta).namespace)

  -- `ApiHandler.Delete`
  unfoldable pub api_delete : St → Item Spec → Answer St
  api_delete store item =
      handlers.delete store ((item.resource).meta).name ((item.resource).meta).namespace

  pub api_handler : St → Item Spec → Outcome (Answer St)
  unfolding api_add api_update api_delete
  api_handler store item = elim item.operation [
    | event_add ↦ returns (api_add store item)
    | event_update ↦ api_update store item
    | event_delete ↦ returns (api_delete store item)
  ]

  -- `DryRunHandler`
  unfoldable pub dry_run_handler : St → Item Spec → Answer St
  dry_run_handler store item = elim item.operation [
    | event_add ↦ handlers.write_file store item.resource
    | event_update ↦ handlers.write_file store item.resource
    | event_delete ↦ handlers.remove_file store item.resource
  ]

  -- `processConfigChange`
  unfoldable pub process_config_change : St → Item Spec → Outcome (Answer St)
  unfolding api_handler dry_run_handler
  process_config_change store item =
      if is_enabled components ((item.resource).meta).name ((item.resource).meta).namespace
      then api_handler store item
      else returns (dry_run_handler store item)

  -- The loop over the change list, which the first error ends.
  unfoldable pub process_config_changes : St → List (Item Spec) → Outcome (Answer St)
  unfolding process_config_change
  process_config_changes store [] = returns (store, none)
  process_config_changes store (item ∷ items) =
      bind (process_config_change store item) λ (store', error). elim error [
        | some e ↦ returns (store', some e)
        | none ↦ process_config_changes store' items
      ]
