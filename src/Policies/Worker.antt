-- ===== src/Policies/Worker.antt =====
-- The worker of pkg/istio/authorizationpolicy/controller.go, its callback, and the events that put
-- keys on its queue.
use k8s_athenz_istio_auth.Prelude.{
  ℕ, zero, suc, Bool, true, false, List, [], ◌∷◌, Option, none, some, ltb, if◌then◌else◌,
}
use k8s_athenz_istio_auth.Prelude.Outcome.{Outcome, returns, panics, bind}
use k8s_athenz_istio_auth.Prelude.Text.{Text}
use k8s_athenz_istio_auth.Queue.{Queued, string_key, foreign_key, Workqueue}
use k8s_athenz_istio_auth.Rbac.Config.{
  Config, Item, ApiError, not_found, already_exists, conflict, other_error, Retry, done,
  repeats_item, requeues_key,
}
use k8s_athenz_istio_auth.Rbac.Spec.{Spec}
use k8s_athenz_istio_auth.Policies.{
  Environment, Fetched, fetched, fetch_fails, clean_up_stale_ap, PolicyEffect, up_to_date, changed,
  fails, sync, retries_key, event_handler_key,
}
use k8s_athenz_istio_auth.Policies.Handlers.{Answer, PolicyStore}

abbrev pub queue_num_retries : ℕ
queue_num_retries = 3

-- The function that `getCallbackHandler` returns, with the number of times that the queue had the
-- key again. A nil item is dereferenced for the log where the error is no conflict.
unfoldable pub get_callback_handler : ℕ → Option ApiError → Option (Item Spec) → Outcome Retry
get_callback_handler requeues none item = returns done
get_callback_handler requeues (some not_found) item = returns done
get_callback_handler requeues (some already_exists) item = returns done
get_callback_handler requeues (some other_error) none = panics
get_callback_handler requeues (some other_error) (some item) = returns repeats_item
get_callback_handler requeues (some conflict) item =
    if ltb requeues queue_num_retries then returns requeues_key else returns done

-- The queue of the controller, and the store that its syncs change.
pub record PolicyController (Q St : Type 0) : Type 0 where
  pub queue : Q
  pub store : St

module _ {Q : Type 0} (wq : Workqueue Q) where
  -- `EventHandler`
  unfoldable pub event_handler : Q → Config Spec → Q
  unfolding event_handler_key
  event_handler q config = wq.add q (string_key (event_handler_key config))

  -- `processEvent`, with the answer of the key function
  unfoldable pub process_event : Q → Option Text → Q
  process_event q none = q
  process_event q (some key) = wq.add q (string_key key)

  -- A tick of `resync`, with the keys of the listed domains.
  unfoldable pub resync : Q → List (Option Text) → Q
  unfolding process_event
  resync q [] = q
  resync q (key ∷ keys) = resync (process_event q key) keys

  -- The queue after a sync.
  abbrev pub after_effect : Q → Text → PolicyEffect → Q
  after_effect q key up_to_date = wq.forget q (string_key key)
  after_effect q key changed = q
  after_effect q key fails =
      if retries_key fails (wq.num_requeues q (string_key key))
      then wq.add_rate_limited q (string_key key)
      else q

  module _ (env : Environment) {St : Type 0} (handlers : PolicyStore St) where
    -- `processNextItem` from the cast of the key on
    unfoldable pub process_key : PolicyController Q St → Queued → Outcome (PolicyController Q St)
    process_key c foreign_key =
        returns (record c { queue = wq.finish (wq.forget c.queue foreign_key) foreign_key })
    process_key c (string_key key) = bind (sync env handlers c.store key) λ (store, effect).
        returns (record {
          queue = wq.finish (after_effect c.queue key effect) (string_key key);
          store = store;
        })

    -- `processNextItem` from the answer of the queue on
    unfoldable pub process_got :
        PolicyController Q St → Option (Queued × Q) → Outcome (Bool × PolicyController Q St)
    unfolding process_key
    process_got c none = returns (false, c)
    process_got c (some (key, q)) =
        bind (process_key (record c { queue = q }) key) λ c'. returns (true, c')

    -- `processNextItem`, with the answer whether the worker goes on
    unfoldable pub process_next_item :
        PolicyController Q St → Outcome (Bool × PolicyController Q St)
    unfolding process_got
    process_next_item c = process_got c (wq.get c.queue)

    -- `runWorker`, for a number of rounds
    unfoldable pub run_worker : ℕ → PolicyController Q St → Outcome (PolicyController Q St)
    unfolding process_next_item
    run_worker zero c = returns c
    run_worker (suc n) c =
        bind (process_next_item c)
          λ (goes_on, c'). elim goes_on [ true ↦ run_worker n c' | false ↦ returns c' ]

    run_cleaned : ℕ → Q → Answer St → Outcome (PolicyController Q St)
    run_cleaned n q (store, some error) = panics
    run_cleaned n q (store, none) = run_worker n (record { queue = q; store = store })

    -- `Run` after the wait for the caches, with the answer of the listing of all policies: the stale
    -- ones are deleted before the worker starts, and an error stops the process.
    unfoldable pub run :
        Fetched (List (Config Spec)) → ℕ → PolicyController Q St → Outcome (PolicyController Q St)
    unfolding run_cleaned
    run fetch_fails n c = panics
    run (fetched listed) n c = run_cleaned n c.queue (clean_up_stale_ap env handlers c.store listed)
