-- ===== src/Processor.antt =====
-- pkg/istio/processor/controller.go: the queue of items that are carried out on the API server.
pub mod Drains
pub mod Applies
use k8s_athenz_istio_auth.Prelude.{
  ℕ, zero, suc, ◌+◌, List, [], ◌∷◌, ◌++◌, Option, none, some, ltb, if◌then◌else◌,
}
use k8s_athenz_istio_auth.Rbac.Config.{
  ConfigMeta, Config, Item, Event, event_add, event_update, event_delete, OnComplete, ApiError,
  Retry, done, repeats_item, requeues_key,
}
use k8s_athenz_istio_auth.Rbac.Spec.{Spec}

abbrev pub queue_num_retries : ℕ
queue_num_retries = 3

-- Writing through `model.ConfigStoreCache`: each call changes the cluster and may answer an error.
pub record ApiStore (St : Type 0) : Type 0 where
  pub create : St → Config Spec → St × Option ApiError
  pub update : St → Config Spec → St × Option ApiError
  pub delete : St → ConfigMeta → St × Option ApiError

-- What the queue holds: an item or, if it is none, another object, with the number of times that the
-- rate limiter has counted for it.
pub record Entry : Type 0 where
  pub item : Option (Item Spec)
  pub requeues : ℕ

-- The processor, the cluster, and the callbacks that have put a key on their controller's queue
-- again.
pub record Processor (St : Type 0) : Type 0 where
  pub queue : List Entry
  pub store : St
  pub requeued : List OnComplete

module _ {St : Type 0} (api : ApiStore St)
    (callback : OnComplete → Option ApiError → Item Spec → Retry) where
  -- `ProcessConfigChange`
  unfoldable pub process_config_change : Processor St → Item Spec → Processor St
  process_config_change p item = record p {
    queue = p.queue ++ (record { item = some item; requeues = 0 } ∷ []);
  }

  -- The loop by which the controllers hand over a change list.
  unfoldable pub process_config_changes : Processor St → List (Item Spec) → Processor St
  unfolding process_config_change
  process_config_changes p [] = p
  process_config_changes p (item ∷ items) =
      process_config_changes (process_config_change p item) items

  -- `sync`
  unfoldable pub sync : St → Item Spec → St × Option ApiError
  sync store item = elim item.operation [
    | event_add ↦ api.create store item.resource
    | event_update ↦ api.update store item.resource
    | event_delete ↦ api.delete store (item.resource).meta
  ]

  -- The end of `processNextItem`, where the callback has returned an error: the item is put on the
  -- queue again if the limiter has not yet counted it so often.
  pub retry_item : List Entry → Item Spec → ℕ → List Entry
  retry_item queue item requeues =
      if ltb requeues queue_num_retries
      then queue ++ (record { item = some item; requeues = suc requeues } ∷ [])
      else queue

  -- `processNextItem` from the result of the callback on
  pub after_callback : Processor St → OnComplete → Item Spec → ℕ → Retry → Processor St
  unfolding retry_item
  after_callback p handler item requeues done = p
  after_callback p handler item requeues repeats_item = record p {
    queue = retry_item p.queue item requeues;
  }
  after_callback p handler item requeues requeues_key = record p {
    requeued = p.requeued ++ (handler ∷ []);
  }

  -- `processNextItem` from the result of `sync` on
  pub after_sync : Processor St → Item Spec → ℕ → Option ApiError → Option OnComplete → Processor St
  unfolding after_callback
  after_sync p item requeues error none = p
  after_sync p item requeues error (some handler) =
      after_callback p handler item requeues (callback handler error item)

  pub process_entry : Processor St → Option (Item Spec) → ℕ → Processor St
  unfolding sync after_sync
  process_entry p none requeues = p
  process_entry p (some item) requeues =
      let (store, error) = sync p.store item in
      after_sync (record p { store = store }) item requeues error item.callback_handler

  -- `processNextItem`; an empty queue blocks.
  unfoldable pub process_next_item : Processor St → Processor St
  unfolding process_entry
  process_next_item p = elim p.queue [
    | [] ↦ p
    | e ∷ queue ↦ process_entry (record p { queue = queue }) e.item e.requeues
  ]

  -- `runWorker`, for a number of rounds
  unfoldable pub run_worker : ℕ → Processor St → Processor St
  unfolding process_next_item
  run_worker zero p = p
  run_worker (suc n) p = run_worker n (process_next_item p)
