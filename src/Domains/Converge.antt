-- ===== src/Domains/Converge.antt =====
-- A sync of a domain, carried out, leaves the resources that the domain should have.
use k8s_athenz_istio_auth.Prelude.{
  ◌≡◌, refl, ap, ◌∙◌, false, List, [], ◌∷◌, Option, none, some, length,
}
use k8s_athenz_istio_auth.Prelude.Outcome.{returns}
use k8s_athenz_istio_auth.Prelude.Text.{Text}
use k8s_athenz_istio_auth.Prelude.Keyed.{Keyed, lookup}
use k8s_athenz_istio_auth.Athenz.Zms.{DomainData}
use k8s_athenz_istio_auth.Athenz.Trust.{athenz_domain}
use k8s_athenz_istio_auth.Athenz.Model.{Model, convert_athenz_policies_into_rbac_model}
use k8s_athenz_istio_auth.Rbac.Config.{
  Config, Item, OnComplete, domain_callback, ApiError, Retry, done, convert_slice_to_keyed_map,
}
use k8s_athenz_istio_auth.Rbac.Config.Keys.{find, HasDistinctKeys}
use k8s_athenz_istio_auth.Rbac.Spec.{Spec}
use k8s_athenz_istio_auth.Rbac.ChangeList.{compute_change_list}
use k8s_athenz_istio_auth.Rbac.ChangeList.Settle.{apply_all, settled, lookup-compute_change_list}
use k8s_athenz_istio_auth.Processor.{process_config_changes, run_worker}
use k8s_athenz_istio_auth.Processor.Applies.{accepting, run_worker-process_config_changes}
use k8s_athenz_istio_auth.Domains.{
  DomainEffect, up_to_date, changes, fails, effect_of, Environment, current_configs,
  desired_configs, sync_domain, sync_cached, sync,
}

-- The items that a sync hands over.
abbrev pub items_of : DomainEffect → List (Item Spec)
items_of up_to_date = []
items_of (changes items) = items
items_of fails = []

items_of-effect_of : (items : List (Item Spec)) → items_of (effect_of items) ≡ items
items_of-effect_of [] = refl
items_of-effect_of (item ∷ items) = refl

-- The store of the cluster after the processor has carried out the items of an effect on the current
-- resources of the model, with an API server that accepts every call.
unfoldable pub store_after :
    Environment
    → (OnComplete → Option ApiError → Item Spec → Retry)
    → Model
    → DomainEffect
    → Keyed (Config Spec)
store_after env callback m effect =
    (run_worker (accepting env.api) callback (length (items_of effect)) (
      process_config_changes (accepting env.api) callback
        (record {
          queue = [];
          store = convert_slice_to_keyed_map env.api (current_configs env m);
          requeued = [];
        })
        (items_of effect))).store

module _ (env : Environment) (callback : OnComplete → Option ApiError → Item Spec → Retry)
    (succeeds : (handler : OnComplete) (item : Item Spec) → callback handler none item ≡ done)
    (key : Text) (domain : Option DomainData) (m : Model) (desired : List (Config Spec))
    (is_found : env.lookup_fails key ≡ false)
    (is_cached : env.get_by_key key ≡ some (athenz_domain domain))
    (has_model : convert_athenz_policies_into_rbac_model domain (some env.get_by_key) ≡ returns m)
    (has_desired : desired_configs env m ≡ returns desired) where
  change_list : List (Item Spec)
  change_list =
      compute_change_list env.api (current_configs env m) desired (some (domain_callback key)) none

  sync-effect_of : sync env key ≡ returns (effect_of change_list)
  unfolding sync sync_cached sync_domain change_list
  sync-effect_of = rw (is_found, is_cached, has_model, has_desired) refl

  store_after-apply_all :
      (effect : DomainEffect)
      → store_after env callback m effect
        ≡ apply_all env.api
            (convert_slice_to_keyed_map env.api (current_configs env m))
            (items_of effect)
  unfolding store_after
  store_after-apply_all effect =
      ap (λ p. p.store)
        (run_worker-process_config_changes env.api callback succeeds
          (convert_slice_to_keyed_map env.api (current_configs env m)) [] (items_of effect))

  -- For a cached domain that is converted without a panic: if the current and the desired resources
  -- have distinct keys and the callbacks leave nothing to do after a success, a sync returns, and
  -- when the processor has carried out its items on an API server that accepts every call, the
  -- cluster holds at each key the desired resource, with the metadata that it had where the key was
  -- there, and no other of the current resources.
  pub sync-settled :
      HasDistinctKeys env.api (current_configs env m)
      → HasDistinctKeys env.api desired
      → (effect : DomainEffect) × (sync env key ≡ returns effect)
        × ((k : Text)
            → lookup (store_after env callback m effect) k
              ≡ settled env.api
                  (some (domain_callback key))
                  none
                  (find env.api (current_configs env m) k)
                  (find env.api desired k))
  sync-settled hc hd = (
    effect_of change_list,
    sync-effect_of,
    λ k.
        ap (λ s. lookup s k) (store_after-apply_all (effect_of change_list))
        ∙ ap
            (λ items.
              lookup
                (apply_all env.api (convert_slice_to_keyed_map env.api (current_configs env m))
                  items)
                k)
            (items_of-effect_of change_list)
        ∙ (unfold change_list in
            lookup-compute_change_list env.api (some (domain_callback key)) none
              (current_configs env m) desired k hc hd),
  )
