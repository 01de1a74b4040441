-- ===== src/Processor/Drains.antt =====
-- The retries are bounded, so the queue runs empty.
use k8s_athenz_istio_auth.Prelude.{
  ℕ, zero, suc, ◌+◌, ◌-◌, ◌≤◌, ◌<◌, ◌≡◌, refl, List, [], ◌∷◌, ◌++◌, Option, none, some, arith, All,
  All-append, ltb, Bool-cases, inl, inr,
}
use k8s_athenz_istio_auth.Rbac.Config.{
  Item, OnComplete, ApiError, Retry, done, repeats_item, requeues_key,
}
use k8s_athenz_istio_auth.Rbac.Spec.{Spec}
use k8s_athenz_istio_auth.Processor.{
  ApiStore, Entry, Processor, queue_num_retries, retry_item, after_callback, after_sync, sync,
  process_entry, process_next_item, run_worker,
}

-- How often the entries can still be taken off the queue, if each was counted three times at most.
unfoldable pub rounds : List Entry → ℕ
rounds [] = 0
rounds (e ∷ es) = (suc queue_num_retries - e.requeues) + rounds es

abbrev pub IsCounted : Entry → Type 0
IsCounted e = e.requeues ≤ queue_num_retries

rounds-append : (xs ys : List Entry) → rounds (xs ++ ys) ≡ rounds xs + rounds ys
unfolding rounds
rounds-append [] ys = omega arith
rounds-append (x ∷ xs) ys = omega (arith, rounds-append xs ys)

module _ {St : Type 0} (api : ApiStore St)
    (callback : OnComplete → Option ApiError → Item Spec → Retry) where
  -- Fewer rounds are left than with an entry of that count before the queue.
  IsShorter : List Entry → ℕ → Processor St → Type 0
  IsShorter queue requeues p =
      All IsCounted p.queue
      × (rounds p.queue + 1 ≤ (suc queue_num_retries - requeues) + rounds queue)

  retry_item-IsShorter :
      (p : Processor St) (item : Item Spec) (requeues : ℕ)
      → requeues ≤ queue_num_retries
      → All IsCounted p.queue
      → All IsCounted (retry_item api callback p.queue item requeues)
        × (rounds (retry_item api callback p.queue item requeues) + 1
            ≤ (suc queue_num_retries - requeues) + rounds p.queue)
  unfolding retry_item rounds
  retry_item-IsShorter p item requeues bound h =
      elim (Bool-cases (ltb requeues queue_num_retries)) [
        | inl e ↦
            let again : Entry = record { item = some item; requeues = suc requeues } in
            let below : requeues < queue_num_retries = ground (arith, e) in
            rw (e) (
              All-append IsCounted p.queue (again ∷ []) h (omega arith, tt),
              omega (arith, rounds-append p.queue (again ∷ [])),
            )
        | inr e ↦ rw (e) (h, omega arith)
      ]

  after_callback-IsShorter :
      (p : Processor St) (handler : OnComplete) (item : Item Spec) (requeues : ℕ) (r : Retry)
      → requeues ≤ queue_num_retries
      → All IsCounted p.queue
      → IsShorter p.queue requeues (after_callback api callback p handler item requeues r)
  unfolding after_callback IsShorter
  after_callback-IsShorter p handler item requeues done bound h = (h, omega arith)
  after_callback-IsShorter p handler item requeues requeues_key bound h = (h, omega arith)
  after_callback-IsShorter p handler item requeues repeats_item bound h =
      retry_item-IsShorter p item requeues bound h

  after_sync-IsShorter :
      (p : Processor St) (item : Item Spec) (requeues : ℕ) (error : Option ApiError)
      (handler : Option OnComplete)
      → requeues ≤ queue_num_retries
      → All IsCounted p.queue
      → IsShorter p.queue requeues (after_sync api callback p item requeues error handler)
  unfolding after_sync IsShorter
  after_sync-IsShorter p item requeues error none bound h = (h, omega arith)
  after_sync-IsShorter p item requeues error (some handler) bound h =
      after_callback-IsShorter p handler item requeues (callback handler error item) bound h

  process_entry-IsShorter :
      (p : Processor St) (item : Option (Item Spec)) (requeues : ℕ)
      → requeues ≤ queue_num_retries
      → All IsCounted p.queue
      → IsShorter p.queue requeues (process_entry api callback p item requeues)
  unfolding process_entry IsShorter
  process_entry-IsShorter p none requeues bound h = (h, omega arith)
  process_entry-IsShorter p (some item) requeues bound h =
      after_sync-IsShorter (record p { store = (sync api callback p.store item).0 }) item requeues
        (sync api callback p.store item).1 item.callback_handler bound h

  -- A round leaves an empty queue empty, and takes off a round of a queue that is not.
  process_next_item-IsShorter :
      (store : St) (requeued : List OnComplete) (queue : List Entry)
      → All IsCounted queue
      → let p : Processor St =
          process_next_item api callback
            (record { queue = queue; store = store; requeued = requeued }) in
        All IsCounted p.queue × (rounds p.queue ≤ rounds queue - 1)
  unfolding process_next_item rounds IsShorter
  process_next_item-IsShorter store requeued [] h = (tt, omega arith)
  process_next_item-IsShorter store requeued (e ∷ queue) h =
      let (counted, fewer) =
        process_entry-IsShorter (record { queue = queue; store = store; requeued = requeued })
          e.item e.requeues h.0 h.1 in
      (counted, omega arith)

  rounds-nil : (es : List Entry) → All IsCounted es → rounds es ≡ 0 → es ≡ []
  unfolding rounds
  rounds-nil [] h e = refl
  rounds-nil (x ∷ es) h e = absurd (omega (arith, h.0))

  -- If no entry has been counted more than three times, the queue is empty after as many rounds as
  -- its entries can be taken off, four for a new one, whatever the API server and the callbacks
  -- answer.
  pub run_worker-drains :
      (n : ℕ) (p : Processor St)
      → All IsCounted p.queue
      → rounds p.queue ≤ n
      → (run_worker api callback n p).queue ≡ []
  unfolding run_worker
  run_worker-drains zero p h bound = rounds-nil p.queue h (omega arith)
  run_worker-drains (suc n) p h bound =
      let (counted, fewer) = process_next_item-IsShorter p.store p.requeued p.queue h in
      run_worker-drains n (process_next_item api callback p) counted (omega arith)
