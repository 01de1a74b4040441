-- ===== src/Queue/Race.antt =====
-- The two threads that put keys back on the queue of a controller: its own worker, after a sync that
-- failed, and the worker of the processor, in the callback of an item. Each reads the count of a key
-- before it adds the key, and the other may run in between.
use k8s_athenz_istio_auth.Prelude.{
  ℕ, ◌+◌, ◌≤◌, ◌<◌, ◌≡◌, Option, none, some, arith, ap, if◌then◌else◌,
}
use k8s_athenz_istio_auth.Prelude.Text.{Text, same, same_iff}
use k8s_athenz_istio_auth.Queue.{Queued, string_key, Workqueue, CountsRequeues}

-- The queue, and for each thread the key that it has found below the limit and will add.
pub record Threads (Q : Type 0) : Type 0 where
  pub queue : Q
  pub worker : Option Text
  pub callback : Option Text

module _ {Q : Type 0} (wq : Workqueue Q) (worker_check callback_check : ℕ → Type 0) where
  -- One step of one thread, or of an informer that adds a key. The worker takes a key, forgets it,
  -- finishes it, or reads a count that passes its check and then adds the key; the processor's
  -- worker reads a count in a callback and then adds the key.
  pub data Step : Threads Q → Threads Q → Type 0 where
    event : (t : Threads Q) (k : Text) → Step t (record t { queue = wq.add t.queue (string_key k) })
    takes :
        (t : Threads Q) (j : Queued) (q : Q)
        → wq.get t.queue ≡ some (j, q)
        → Step t (record t { queue = q })
    forgets : (t : Threads Q) (j : Queued) → Step t (record t { queue = wq.forget t.queue j })
    finishes : (t : Threads Q) (j : Queued) → Step t (record t { queue = wq.finish t.queue j })
    worker_reads :
        (t : Threads Q) (k : Text)
        → t.worker ≡ none
        → worker_check (wq.num_requeues t.queue (string_key k))
        → Step t (record t { worker = some k })
    worker_adds :
        (t : Threads Q) (k : Text)
        → t.worker ≡ some k
        → Step t (record t { queue = wq.add_rate_limited t.queue (string_key k); worker = none })
    callback_reads :
        (t : Threads Q) (k : Text)
        → t.callback ≡ none
        → callback_check (wq.num_requeues t.queue (string_key k))
        → Step t (record t { callback = some k })
    callback_adds :
        (t : Threads Q) (k : Text)
        → t.callback ≡ some k
        → Step t (record t { queue = wq.add_rate_limited t.queue (string_key k); callback = none })

  pub data Reach (s : Threads Q) : Threads Q → Type 0 where
    start : Reach s s
    later : {t u : Threads Q} → Reach s t → Step t u → Reach s u

  -- Whether a thread is about to add the key.
  abbrev pending : Option Text → Text → ℕ
  pending none k = 0
  pending (some j) k = if same j k then 1 else 0

  module _ (laws : CountsRequeues wq) (limit : ℕ)
      (worker_below : (n : ℕ) → worker_check n → n < limit)
      (callback_below : (n : ℕ) → callback_check n → n < limit) where
    abbrev Bounded : Text → Threads Q → Type 0
    Bounded k t =
        wq.num_requeues t.queue (string_key k) + pending t.worker k + pending t.callback k
        ≤ limit + 1

    pending-le : (o : Option Text) (k : Text) → pending o k ≤ 1
    pending-le none k = omega arith
    pending-le (some j) k = ground arith

    Step-Bounded : (k : Text) {t u : Threads Q} → Step t u → Bounded k t → Bounded k u
    Step-Bounded k (event t j) b =
        omega (arith, laws.add_keeps t.queue (string_key j) (string_key k))
    Step-Bounded k (takes t j q e) b = omega (arith, laws.get_keeps t.queue q j (string_key k) e)
    Step-Bounded k (forgets t j) b = ground (arith, laws.forgets t.queue j (string_key k))
    Step-Bounded k (finishes t j) b = omega (arith, laws.finish_keeps t.queue j (string_key k))
    Step-Bounded k (worker_reads t j e c) b = ground (
      arith,
      same_iff j k,
      pending-le t.callback k,
      worker_below (wq.num_requeues t.queue (string_key j)) c,
    )
    Step-Bounded k (worker_adds t j e) b =
        ground (arith, laws.counts t.queue (string_key j) (string_key k), ap (λ o. pending o k) e)
    Step-Bounded k (callback_reads t j e c) b = ground (
      arith,
      same_iff j k,
      pending-le t.worker k,
      callback_below (wq.num_requeues t.queue (string_key j)) c,
    )
    Step-Bounded k (callback_adds t j e) b =
        ground (arith, laws.counts t.queue (string_key j) (string_key k), ap (λ o. pending o k) e)

    Reach-Bounded : (k : Text) {s t : Threads Q} → Reach s t → Bounded k s → Bounded k t
    Reach-Bounded k start b = b
    Reach-Bounded k (later r st) b = Step-Bounded k st (Reach-Bounded k r b)

    -- The bound from a start in which nothing is pending.
    pub num_requeues-le :
        (k : Text) (q : Q) (t : Threads Q)
        → wq.num_requeues q (string_key k) ≤ limit + 1
        → Reach (record { queue = q; worker = none; callback = none }) t
        → wq.num_requeues t.queue (string_key k) ≤ limit + 1
    num_requeues-le k q t few r = omega (arith, Reach-Bounded k r (omega (arith, few)))
