-- ===== src/Policies/Handlers/DryRun.antt =====
-- Dry runs leave the cluster alone, and the one way in which a change can panic.
use k8s_athenz_istio_auth.Prelude.{
  ◌≡◌, ◌↔◌, refl, ◌∙◌, Bool, true, false, List, [], ◌∷◌, Option, none, some, All, Bool-cases, inl,
  inr,
}
use k8s_athenz_istio_auth.Prelude.Outcome.{returns, panics}
use k8s_athenz_istio_auth.Rbac.Config.{
  Config, Item, Event, event_add, event_update, event_delete, OnComplete, ApiError,
}
use k8s_athenz_istio_auth.Rbac.Spec.{Spec}
use k8s_athenz_istio_auth.Rbac.Components.{ComponentEnabled, is_enabled}
use k8s_athenz_istio_auth.Policies.Handlers.{
  Answer, PolicyStore, update_with, api_update, api_handler, dry_run_handler, process_config_change,
  process_config_changes,
}

module _ (components : ComponentEnabled) {St : Type 0} (handlers : PolicyStore St) where
  -- The policy of the item is enabled for its service.
  abbrev pub enabled : Item Spec → Bool
  enabled item = is_enabled components ((item.resource).meta).name ((item.resource).meta).namespace

  abbrev cached : St → Config Spec → Option (Config Spec)
  cached store c = handlers.get store (c.meta).name (c.meta).namespace

  update_with-panics_iff :
      (store : St) (c : Config Spec) (existing : Option (Config Spec))
      → (update_with components handlers store c existing ≡ panics) ↔ (existing ≡ none)
  unfolding update_with
  update_with-panics_iff store c none = (λ _. refl, λ _. refl)
  update_with-panics_iff store c (some e) = (λ h. cc, λ h. cc)

  api_handler-panics_iff :
      (store : St) (operation : Event) (c : Config Spec) (handler : Option OnComplete)
      → (api_handler components handlers store
            (record { operation = operation; resource = c; callback_handler = handler })
          ≡ panics)
        ↔ ((operation ≡ event_update) × (cached store c ≡ none))
  unfolding api_handler api_update
  api_handler-panics_iff store event_add c handler = (λ h. cc, λ h. cc)
  api_handler-panics_iff store event_delete c handler = (λ h. cc, λ h. cc)
  api_handler-panics_iff store event_update c handler =
      let p = update_with-panics_iff store c (cached store c) in (λ h. (refl, p.0 h), λ h. p.1 h.1)

  -- A change panics exactly when it is an update of an enabled policy which the cache does not have.
  pub process_config_change-panics_iff :
      (store : St) (item : Item Spec)
      → (process_config_change components handlers store item ≡ panics) ↔ (
          (enabled item ≡ true)
          × (item.operation ≡ event_update)
          × (handlers.get store ((item.resource).meta).name ((item.resource).meta).namespace
              ≡ none))
  unfolding process_config_change
  process_config_change-panics_iff store item =
      let p = api_handler-panics_iff store item.operation item.resource item.callback_handler in
      elim (Bool-cases (enabled item)) [
        | inl e ↦ rw (e) (λ h. (refl, (p.0 h).0, (p.0 h).1), λ h. p.1 (h.1, h.2))
        | inr e ↦ rw (e) (λ h. cc, λ h. cc)
      ]

  module _ {A : Type 0} (view : St → A)
      (writes : (store : St) (c : Config Spec) → view (handlers.write_file store c).0 ≡ view store)
      (removes : (store : St) (c : Config Spec)
        → view (handlers.remove_file store c).0 ≡ view store) where
    view-dry_run_handler :
        (store : St) (operation : Event) (c : Config Spec) (handler : Option OnComplete)
        → view
            (dry_run_handler components handlers store
              (record { operation = operation; resource = c; callback_handler = handler })).0
          ≡ view store
    unfolding dry_run_handler
    view-dry_run_handler store event_add c handler = writes store c
    view-dry_run_handler store event_update c handler = writes store c
    view-dry_run_handler store event_delete c handler = removes store c

    dry_run_change :
        (store : St) (item : Item Spec)
        → enabled item ≡ false
        → process_config_change components handlers store item
          ≡ returns (dry_run_handler components handlers store item)
    unfolding process_config_change
    dry_run_change store item h = rw (h) refl

    go_on-view :
        (store store' : St) (items : List (Item Spec)) (error : Option ApiError)
        → view store' ≡ view store
        → ((answer : Answer St) × (process_config_changes components handlers store' items
              ≡ returns answer)
            × (view answer.0 ≡ view store'))
        → (answer : Answer St) × ((elim error [
          | some e ↦ returns (store', some e)
          | none ↦ process_config_changes components handlers store' items
        ])
            ≡ returns answer)
          × (view answer.0 ≡ view store)
    go_on-view store store' items none here (answer, run, kept) = (answer, run, kept ∙ here)
    go_on-view store store' items (some e) here rest = ((store', some e), refl, here)

    -- If writing and removing files leaves a view of the store alone, then changes of policies that
    -- are not enabled return without a panic, and leave the view alone.
    pub view-process_config_changes :
        (store : St) (items : List (Item Spec))
        → All (λ item. enabled item ≡ false) items
        → (answer : Answer St) × (process_config_changes components handlers store items
            ≡ returns answer)
          × (view answer.0 ≡ view store)
    unfolding process_config_changes
    view-process_config_changes store [] h = ((store, none), refl, refl)
    view-process_config_changes store (item ∷ items) (off, h) =
        let here : view (dry_run_handler components handlers store item).0 ≡ view store =
          view-dry_run_handler store item.operation item.resource item.callback_handler in
        let (answer, run, kept) =
          go_on-view store (dry_run_handler components handlers store item).0 items
            (dry_run_handler components handlers store item).1 here
            (view-process_config_changes (dry_run_handler components handlers store item).0 items
              h) in
        (answer, rw (dry_run_change store item off) run, kept)
