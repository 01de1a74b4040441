-- ===== src/Domains/Worker.antt =====
-- The worker of pkg/controller/controller.go: `processNextItem` and `runWorker`, on the queue of the
-- controller and the items that it hands to the processor.
use k8s_athenz_istio_auth.Prelude.{
  ℕ, zero, suc, ◌<◌, ◌≡◌, Bool, true, false, List, ◌++◌, Option, none, some, arith, if◌then◌else◌,
}
use k8s_athenz_istio_auth.Prelude.Outcome.{Outcome, returns, bind}
use k8s_athenz_istio_auth.Prelude.Text.{Text}
use k8s_athenz_istio_auth.Queue.{Queued, string_key, foreign_key, Workqueue}
use k8s_athenz_istio_auth.Rbac.Config.{
  Item, ApiError, requeues_key, not_found, already_exists, conflict, other_error,
}
use k8s_athenz_istio_auth.Rbac.Spec.{Spec}
use k8s_athenz_istio_auth.Domains.{
  DomainEffect, up_to_date, changes, fails, Environment, sync, retries_key, get_callback_handler,
  queue_num_retries,
}

-- The queue of the controller, and the items that it has handed to the processor.
pub record DomainController (Q : Type 0) : Type 0 where
  pub queue : Q
  pub handed : List (Item Spec)

module _ (env : Environment) {Q : Type 0} (wq : Workqueue Q) where
  -- What `sync` does to the queue and to the processor.
  abbrev pub apply_effect : DomainController Q → Text → DomainEffect → DomainController Q
  apply_effect c key up_to_date = record c { queue = wq.forget c.queue (string_key key) }
  apply_effect c key (changes items) = record c { handed = c.handed ++ items }
  apply_effect c key fails = c

  -- The queue after a sync, where the key may be put on it again.
  abbrev pub requeue : Q → Text → DomainEffect → Q
  requeue q key effect =
      if retries_key effect (wq.num_requeues q (string_key key))
      then wq.add_rate_limited q (string_key key)
      else q

  abbrev pub after_sync : DomainController Q → Text → DomainEffect → DomainController Q
  after_sync c key effect =
      let synced = apply_effect c key effect in
      record synced { queue = wq.finish (requeue synced.queue key effect) (string_key key) }

  -- `processNextItem` from the cast of the key on
  unfoldable pub process_key : DomainController Q → Queued → Outcome (DomainController Q)
  process_key c foreign_key =
      returns (record c { queue = wq.finish (wq.forget c.queue foreign_key) foreign_key })
  process_key c (string_key key) = bind (sync env key) λ effect. returns (after_sync c key effect)

  -- `processNextItem` from the answer of the queue on.
  unfoldable pub process_got :
      DomainController Q → Option (Queued × Q) → Outcome (Bool × DomainController Q)
  unfolding process_key
  process_got c none = returns (false, c)
  process_got c (some (key, q)) =
      bind (process_key (record c { queue = q }) key) λ c'. returns (true, c')

  -- `processNextItem`, with the answer whether the worker goes on.
  unfoldable pub process_next_item : DomainController Q → Outcome (Bool × DomainController Q)
  unfolding process_got
  process_next_item c = process_got c (wq.get c.queue)

  -- `runWorker`, for a number of rounds.
  unfoldable pub run_worker : ℕ → DomainController Q → Outcome (DomainController Q)
  unfolding process_next_item
  run_worker zero c = returns c
  run_worker (suc n) c =
      bind (process_next_item c)
        λ (goes_on, c'). elim goes_on [ true ↦ run_worker n c' | false ↦ returns c' ]

-- The checks of the two threads, as the code makes them.
abbrev pub WorkerCheck : ℕ → Type 0
WorkerCheck n = (effect : DomainEffect) × (retries_key effect n ≡ true)

abbrev pub CallbackCheck : ℕ → Type 0
CallbackCheck n =
    (error : Option ApiError) × (item : Option (Item Spec)) × (get_callback_handler n error item
      ≡ returns requeues_key)

pub WorkerCheck-lt : (n : ℕ) → WorkerCheck n → n < queue_num_retries
unfolding retries_key
WorkerCheck-lt n (up_to_date, h) = cc
WorkerCheck-lt n (changes items, h) = cc
WorkerCheck-lt n (fails, h) = ground arith

pub CallbackCheck-lt : (n : ℕ) → CallbackCheck n → n < queue_num_retries
unfolding get_callback_handler
CallbackCheck-lt n (none, item, h) = cc
CallbackCheck-lt n (some not_found, item, h) = cc
CallbackCheck-lt n (some already_exists, item, h) = cc
CallbackCheck-lt n (some other_error, none, h) = cc
CallbackCheck-lt n (some other_error, some item, h) = cc
CallbackCheck-lt n (some conflict, item, h) = ground arith
