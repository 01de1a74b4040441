-- ===== src/Domains/Delivered.antt =====
-- From an event on a domain to the resources in the cluster.
use k8s_athenz_istio_auth.Prelude.{
  ◌≡◌, refl, ap, ◌∙◌, true, false, List, [], Option, none, some, length,
}
use k8s_athenz_istio_auth.Prelude.Outcome.{returns, bind, bind-returns}
use k8s_athenz_istio_auth.Prelude.Text.{Text}
use k8s_athenz_istio_auth.Prelude.Keyed.{Keyed, lookup}
use k8s_athenz_istio_auth.Queue.{string_key, Workqueue}
use k8s_athenz_istio_auth.Athenz.Zms.{DomainData}
use k8s_athenz_istio_auth.Athenz.Trust.{athenz_domain}
use k8s_athenz_istio_auth.Athenz.Model.{Model, convert_athenz_policies_into_rbac_model}
use k8s_athenz_istio_auth.Rbac.Config.{
  Config, Item, OnComplete, domain_callback, ApiError, Retry, done, convert_slice_to_keyed_map,
}
use k8s_athenz_istio_auth.Rbac.Config.Keys.{find, HasDistinctKeys}
use k8s_athenz_istio_auth.Rbac.Spec.{Spec}
use k8s_athenz_istio_auth.Rbac.ChangeList.Settle.{settled}
use k8s_athenz_istio_auth.Processor.{process_config_changes, run_worker}
use k8s_athenz_istio_auth.Processor.Applies.{accepting}
use k8s_athenz_istio_auth.Domains.{
  DomainEffect, up_to_date, changes, fails, Environment, current_configs, desired_configs, sync,
}
use k8s_athenz_istio_auth.Domains.Converge.{items_of, store_after, sync-settled}
use k8s_athenz_istio_auth.Domains.Worker.{
  DomainController, after_sync, process_got, process_key, process_next_item,
}

-- The cluster after the processor has carried out the items which the controller has handed over,
-- with an API server that accepts every call.
pub cluster_after :
    {Q : Type 0}
    → Environment
    → (OnComplete → Option ApiError → Item Spec → Retry)
    → Keyed (Config Spec)
    → DomainController Q
    → Keyed (Config Spec)
cluster_after env callback cluster c =
    (run_worker (accepting env.api) callback (length c.handed) (
      process_config_changes (accepting env.api) callback
        (record { queue = []; store = cluster; requeued = [] }) c.handed)).store

module _ (env : Environment) {Q : Type 0} (wq : Workqueue Q)
    (callback : OnComplete → Option ApiError → Item Spec → Retry)
    (succeeds : (handler : OnComplete) (item : Item Spec) → callback handler none item ≡ done)
    (key : Text) (domain : Option DomainData) (m : Model) (desired : List (Config Spec))
    (is_found : env.lookup_fails key ≡ false)
    (is_cached : env.get_by_key key ≡ some (athenz_domain domain))
    (has_model : convert_athenz_policies_into_rbac_model domain (some env.get_by_key) ≡ returns m)
    (has_desired : desired_configs env m ≡ returns desired) (queue before : Q)
    (is_next : wq.get queue ≡ some (string_key key, before)) where
  round :
      (effect : DomainEffect)
      → sync env key ≡ returns effect
      → process_next_item env wq (record { queue = queue; handed = [] })
        ≡ returns (true, after_sync env wq (record { queue = before; handed = [] }) key effect)
  unfolding process_next_item process_got process_key
  round effect h = rw (is_next) (ap (λ o. bind o (λ c'. returns (true, c'))) (bind-returns _ _ h))

  handed-after_sync :
      (effect : DomainEffect)
      → (after_sync env wq (record { queue = before; handed = [] }) key effect).handed
        ≡ items_of effect
  handed-after_sync up_to_date = refl
  handed-after_sync (changes items) = refl
  handed-after_sync fails = refl

  cluster_after-store_after :
      (c : DomainController Q) (effect : DomainEffect)
      → c.handed ≡ items_of effect
      → cluster_after env callback (convert_slice_to_keyed_map env.api (current_configs env m)) c
        ≡ store_after env callback m effect
  unfolding cluster_after store_after
  cluster_after-store_after c effect h = rw h refl

  -- If the next key on the queue is that of a cached domain which is converted without a panic, the
  -- current and the desired resources have distinct keys, and the callbacks leave nothing to do
  -- after a success, then a round of the worker returns, and when the processor has carried out the
  -- items of the round on an API server that accepts every call, the cluster holds at each key the
  -- desired resource, with the metadata that it had where the key was there, and no other of the
  -- current resources.
  pub process_next_item-settled :
      HasDistinctKeys env.api (current_configs env m)
      → HasDistinctKeys env.api desired
      → (c : DomainController Q) × (process_next_item env wq (record { queue = queue; handed = [] })
          ≡ returns (true, c))
        × ((k : Text)
            → lookup
                (cluster_after env callback
                  (convert_slice_to_keyed_map env.api (current_configs env m))
                  c)
                k
              ≡ settled env.api
                  (some (domain_callback key))
                  none
                  (find env.api (current_configs env m) k)
                  (find env.api desired k))
  process_next_item-settled hc hd =
      let (effect, es, settles) =
        sync-settled env callback succeeds key domain m desired is_found is_cached has_model
          has_desired hc hd in
      let c = after_sync env wq (record { queue = before; handed = [] }) key effect in
      (
        c,
        round effect es,
        λ k.
            ap (λ s. lookup s k) (cluster_after-store_after c effect (handed-after_sync effect))
            ∙ settles k,
      )
