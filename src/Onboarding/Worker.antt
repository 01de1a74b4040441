-- ===== src/Onboarding/Worker.antt =====
-- The worker of pkg/istio/onboarding/controller.go, and the events that put its key on its queue.
use k8s_athenz_istio_auth.Prelude.{
  ℕ, Bool, true, false, List, [], ◌∷◌, ◌++◌, Option, none, some, ltb, if◌then◌else◌,
}
use k8s_athenz_istio_auth.Prelude.Outcome.{Outcome, returns, bind}
use k8s_athenz_istio_auth.Prelude.Text.{Text, codes}
use k8s_athenz_istio_auth.Queue.{Queued, string_key, Workqueue}
use k8s_athenz_istio_auth.Rbac.Config.{Config, Item}
use k8s_athenz_istio_auth.Rbac.Spec.{Spec}
use k8s_athenz_istio_auth.Rbac.Istio.{Collections}
use k8s_athenz_istio_auth.Onboarding.Services.{Service}
use k8s_athenz_istio_auth.Onboarding.Sync.{
  Effect, forgets, processes, fails, sync, queue_num_retries,
}

-- `queueKey`: the default namespace and the default name.
abbrev pub queue_key : Queued
queue_key = string_key (codes "default/default")

-- The queue of the controller, and the items that it has handed to the processor.
pub record OnboardingController (Q : Type 0) : Type 0 where
  pub queue : Q
  pub handed : List (Item Spec)

-- Whether `processNextItem` puts the key on the queue again after a sync.
unfoldable pub retries_key : Effect → ℕ → Bool
retries_key fails requeues = ltb requeues queue_num_retries
retries_key forgets requeues = false
retries_key (processes item) requeues = false

module _ {Q : Type 0} (wq : Workqueue Q) where
  -- `EventHandler`, the handlers of the service informer, and a tick of `resync`
  unfoldable pub event_handler : Q → Q
  event_handler q = wq.add q queue_key

  -- What `sync` does to the queue and the processor.
  abbrev pub apply_effect : OnboardingController Q → Effect → OnboardingController Q
  apply_effect c forgets = record c { queue = wq.forget c.queue queue_key }
  apply_effect c (processes item) = record c { handed = c.handed ++ (item ∷ []) }
  apply_effect c fails = c

  -- The queue after a sync of the key, which may be put on it again.
  abbrev pub requeue : Q → Queued → Effect → Q
  requeue q key effect =
      if retries_key effect (wq.num_requeues q key) then wq.add_rate_limited q key else q

  module _ (collections : Collections) (dns_suffix : Text) where
    -- `processNextItem` from the answer of the queue on, with what the service indexer and the store
    -- answer to the sync
    unfoldable pub process_got :
        List (Option Service)
        → Option (Config Spec)
        → OnboardingController Q
        → Option (Queued × Q)
        → Outcome (Bool × OnboardingController Q)
    process_got indexed stored c none = returns (false, c)
    process_got indexed stored c (some (key, q)) =
        bind (sync collections dns_suffix indexed stored) λ synced.
          let applied = apply_effect (record c { queue = q }) synced.effect in
          returns (
            true,
            record applied { queue = wq.finish (requeue applied.queue key synced.effect) key },
          )

    -- `processNextItem`, with the answer whether the worker goes on
    unfoldable pub process_next_item :
        List (Option Service)
        → Option (Config Spec)
        → OnboardingController Q
        → Outcome (Bool × OnboardingController Q)
    unfolding process_got
    process_next_item indexed stored c = process_got indexed stored c (wq.get c.queue)

    -- `runWorker`, for the rounds with the given answers of the indexer and the store
    unfoldable pub run_worker :
        List (List (Option Service) × Option (Config Spec))
        → OnboardingController Q
        → Outcome (OnboardingController Q)
    unfolding process_next_item
    run_worker [] c = returns c
    run_worker ((indexed, stored) ∷ answers) c =
        bind (process_next_item indexed stored c)
          λ (goes_on, c'). elim goes_on [ true ↦ run_worker answers c' | false ↦ returns c' ]
