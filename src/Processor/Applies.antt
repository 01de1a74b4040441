-- ===== src/Processor/Applies.antt =====
-- With an API server that accepts every call, the processor carries out a list in its order.
use k8s_athenz_istio_auth.Prelude.{
  ◌≡◌, refl, sym, ap, ◌∙◌, List, [], ◌∷◌, ◌++◌, append_assoc, append-nil, Option, none, some,
  length,
}
use k8s_athenz_istio_auth.Prelude.Keyed.{Keyed, insert, delete}
use k8s_athenz_istio_auth.Rbac.Config.{
  Config, ConfigApi, Item, Event, event_add, event_update, event_delete, OnComplete, ApiError,
  Retry, done,
}
use k8s_athenz_istio_auth.Rbac.Spec.{Spec}
use k8s_athenz_istio_auth.Rbac.ChangeList.Settle.{apply, apply_all}
use k8s_athenz_istio_auth.Processor.{
  ApiStore, Entry, Processor, process_config_change, process_config_changes, sync, after_callback,
  after_sync, process_entry, process_next_item, run_worker,
}

-- The server that accepts every call, on configurations by key.
abbrev pub accepting : ConfigApi Spec → ApiStore (Keyed (Config Spec))
accepting api = record {
  create = λ store c. (insert store (api.key c.meta) c, none);
  update = λ store c. (insert store (api.key c.meta) c, none);
  delete = λ store meta. (delete store (api.key meta), none);
}

unfoldable pub entries : List (Item Spec) → List Entry
entries [] = []
entries (item ∷ items) = record { item = some item; requeues = 0 } ∷ entries items

module _ (api : ConfigApi Spec) (callback : OnComplete → Option ApiError → Item Spec → Retry)
    (succeeds : (handler : OnComplete) (item : Item Spec) → callback handler none item ≡ done) where
  sync-accepting :
      (operation : Event) (resource : Config Spec) (handler : Option OnComplete)
      (store : Keyed (Config Spec))
      → let item : Item Spec = record {
        operation = operation;
        resource = resource;
        callback_handler = handler;
      } in
        sync (accepting api) callback store item ≡ (apply api store item, none)
  unfolding sync apply
  sync-accepting event_add resource handler store = refl
  sync-accepting event_update resource handler store = refl
  sync-accepting event_delete resource handler store = refl

  after_sync-accepting :
      (p : Processor (Keyed (Config Spec))) (item : Item Spec) (handler : Option OnComplete)
      → after_sync (accepting api) callback p item 0 none handler ≡ p
  unfolding after_sync after_callback
  after_sync-accepting p item none = refl
  after_sync-accepting p item (some handler) = rw (succeeds handler item) refl

  process_next_item-accepting :
      (store : Keyed (Config Spec)) (requeued : List OnComplete) (item : Item Spec)
      (queue : List Entry)
      → process_next_item (accepting api) callback (record {
        queue = record { item = some item; requeues = 0 } ∷ queue;
        store = store;
        requeued = requeued;
      })
        ≡ record { queue = queue; store = apply api store item; requeued = requeued }
  unfolding process_next_item process_entry
  process_next_item-accepting store requeued item queue =
      rw (sync-accepting item.operation item.resource item.callback_handler store) (
        after_sync-accepting
          (record { queue = queue; store = apply api store item; requeued = requeued }) item
          item.callback_handler)

  run_worker-entries :
      (store : Keyed (Config Spec)) (requeued : List OnComplete) (items : List (Item Spec))
      → run_worker
          (accepting api)
          callback
          (length items)
          (record { queue = entries items; store = store; requeued = requeued })
        ≡ record { queue = []; store = apply_all api store items; requeued = requeued }
  unfolding run_worker entries apply_all
  run_worker-entries store requeued [] = refl
  run_worker-entries store requeued (item ∷ items) =
      ap (run_worker (accepting api) callback (length items))
        (process_next_item-accepting store requeued item (entries items))
      ∙ run_worker-entries (apply api store item) requeued items

  queue-process_config_changes :
      (p : Processor (Keyed (Config Spec))) (items : List (Item Spec))
      → process_config_changes (accepting api) callback p items
        ≡ record p { queue = p.queue ++ entries items }
  unfolding process_config_changes entries
  queue-process_config_changes p [] = ap (λ q. record p { queue = q }) (sym (append-nil p.queue))
  queue-process_config_changes p (item ∷ items) =
      queue-process_config_changes (process_config_change (accepting api) callback p item) items
      ∙ ap (λ q. record p { queue = q })
          (append_assoc p.queue (record { item = some item; requeues = 0 } ∷ []) (entries items))

  -- If the callbacks leave nothing to do after a success, a change list handed to a processor with an
  -- empty queue is carried out in its order, in one round an item.
  pub run_worker-process_config_changes :
      (store : Keyed (Config Spec)) (requeued : List OnComplete) (items : List (Item Spec))
      → run_worker (accepting api) callback (length items) (
          process_config_changes
            (accepting api)
            callback
            (record { queue = []; store = store; requeued = requeued })
            items)
        ≡ record { queue = []; store = apply_all api store items; requeued = requeued }
  run_worker-process_config_changes store requeued items =
      ap (run_worker (accepting api) callback (length items)) (
        queue-process_config_changes (record { queue = []; store = store; requeued = requeued })
          items)
      ∙ run_worker-entries store requeued items
