-- ===== src/Domains.antt =====
-- pkg/controller/controller.go: the controller that keeps the resources of a domain in line with it.
pub mod Converge
pub mod Worker
pub mod Bounded
pub mod Home
pub mod Delivered
pub mod Total
use k8s_athenz_istio_auth.Prelude.{
  ℕ, Bool, true, false, List, [], ◌∷◌, ◌++◌, Option, none, some, ltb, if◌then◌else◌,
}
use k8s_athenz_istio_auth.Prelude.Outcome.{Outcome, returns, panics, bind}
use k8s_athenz_istio_auth.Prelude.Text.{Text}
use k8s_athenz_istio_auth.Athenz.Names.{namespace_to_domain}
use k8s_athenz_istio_auth.Athenz.Zms.{DomainData}
use k8s_athenz_istio_auth.Athenz.Trust.{Cached, athenz_domain, other_object}
use k8s_athenz_istio_auth.Athenz.Model.{Model, convert_athenz_policies_into_rbac_model}
use k8s_athenz_istio_auth.Rbac.Config.{
  Config, ConfigApi, Item, OnComplete, domain_callback, ApiError, not_found, already_exists,
  conflict, other_error, Retry, done, repeats_item, requeues_key,
}
use k8s_athenz_istio_auth.Rbac.Spec.{Spec}
use k8s_athenz_istio_auth.Rbac.Istio.{Collections, Validation, ConfigStoreCache}
use k8s_athenz_istio_auth.Rbac.ChangeList.{compute_change_list}
use k8s_athenz_istio_auth.Rbac.V1.{convert_athenz_model_into_istio_rbac, get_current_istio_rbac}

abbrev pub queue_num_retries : ℕ
queue_num_retries = 3

-- The function that `getCallbackHandler` returns, with the number of times that the queue had the
-- key again. A nil item is dereferenced for the log where the error is no conflict.
unfoldable pub get_callback_handler : ℕ → Option ApiError → Option (Item Spec) → Outcome Retry
get_callback_handler requeues none item = returns done
get_callback_handler requeues (some not_found) item = returns done
get_callback_handler requeues (some already_exists) item = returns done
get_callback_handler requeues (some other_error) none = panics
get_callback_handler requeues (some other_error) (some item) = returns repeats_item
get_callback_handler requeues (some conflict) item =
    if ltb requeues queue_num_retries then returns requeues_key else returns done

-- What a sync does: it forgets the key in the queue, hands items to the processor, or returns an
-- error.
pub data DomainEffect : Type 0 where
  up_to_date : DomainEffect
  changes : List (Item Spec) → DomainEffect
  fails : DomainEffect

-- The end of `sync`, from the change list on.
abbrev pub effect_of : List (Item Spec) → DomainEffect
effect_of [] = up_to_date
effect_of (item ∷ items) = changes (item ∷ items)

-- What the controller is connected to: Istio, the informer of the domains, of which a lookup may
-- return an error, and the setting for JWT subjects.
pub record Environment : Type 0 where
  pub api : ConfigApi Spec
  pub collections : Collections
  pub validation : Validation
  pub config_store_cache : ConfigStoreCache
  pub lookup_fails : Text → Bool
  pub get_by_key : Text → Option Cached
  pub enable_origin_jwt_subject : Bool

module _ (env : Environment) where
  -- The current resources of a model.
  abbrev pub current_configs : Model → List (Config Spec)
  current_configs m = get_current_istio_rbac env.collections m env.config_store_cache

  -- The resources that a model should have.
  abbrev pub desired_configs : Model → Outcome (List (Config Spec))
  desired_configs m =
      convert_athenz_model_into_istio_rbac env.collections env.validation
        env.enable_origin_jwt_subject m

  -- `sync` from the domain on
  unfoldable pub sync_domain : Text → Option DomainData → Outcome DomainEffect
  sync_domain key domain =
      bind (convert_athenz_policies_into_rbac_model domain (some env.get_by_key)) λ m.
        bind (desired_configs m) λ desired. returns (
          effect_of (
            compute_change_list env.api (current_configs m) desired (some (domain_callback key))
              none))

  -- `sync` from the object of the cache on
  unfoldable pub sync_cached : Text → Option Cached → Outcome DomainEffect
  unfolding sync_domain
  sync_cached key none = returns fails
  sync_cached key (some other_object) = returns fails
  sync_cached key (some (athenz_domain domain)) = sync_domain key domain

  -- `sync`
  unfoldable pub sync : Text → Outcome DomainEffect
  unfolding sync_cached
  sync key = if env.lookup_fails key then returns fails else sync_cached key (env.get_by_key key)

-- `processEvent`: the queue after an event on an object whose key function gives a key or an error.
pub process_event : List Text → Option Text → List Text
process_event queue none = queue
process_event queue (some key) = queue ++ (key ∷ [])

-- `processConfigEvent`
unfoldable pub process_config_event : List Text → Config Spec → List Text
process_config_event queue config = queue ++ (namespace_to_domain (config.meta).namespace ∷ [])

-- Whether `processNextItem` puts the key on the queue again after a sync.
unfoldable pub retries_key : DomainEffect → ℕ → Bool
retries_key fails requeues = ltb requeues queue_num_retries
retries_key up_to_date requeues = false
retries_key (changes items) requeues = false

-- A tick of `resync`: the keys of the listed domains are put on the queue.
pub resync : List Text → List (Option Text) → List Text
unfolding process_event
resync queue [] = queue
resync queue (key ∷ keys) = resync (process_event queue key) keys
