-- ===== src/Domains/Bounded.antt =====
-- How often a key of the domain controller is counted, whatever its worker and the processor's do in
-- between.
use k8s_athenz_istio_auth.Prelude.{
  ◌+◌, ◌≤◌, ◌≡◌, refl, Bool, true, false, Option, none, some, inl, inr, Bool-cases, subst, ap,
}
use k8s_athenz_istio_auth.Prelude.Outcome.{returns, bind-eq_returns, returns_injective}
use k8s_athenz_istio_auth.Prelude.Text.{Text}
use k8s_athenz_istio_auth.Queue.{Queued, string_key, foreign_key, Workqueue, CountsRequeues}
use k8s_athenz_istio_auth.Queue.Race.{
  Threads, Reach, start, later, takes, forgets, finishes, worker_reads, worker_adds,
  num_requeues-le,
}
use k8s_athenz_istio_auth.Domains.{
  DomainEffect, up_to_date, changes, fails, Environment, sync, retries_key, queue_num_retries,
}
use k8s_athenz_istio_auth.Domains.Worker.{
  DomainController, apply_effect, requeue, process_key, process_got, process_next_item, WorkerCheck,
  CallbackCheck, WorkerCheck-lt, CallbackCheck-lt,
}

module _ (env : Environment) {Q : Type 0} (wq : Workqueue Q) where
  -- The steps of the two threads, with the checks of the domain controller.
  abbrev pub Runs : Threads Q → Threads Q → Type 0
  Runs = Reach wq WorkerCheck CallbackCheck

  -- The threads with the worker between two keys.
  abbrev pub between : Q → Option Text → Threads Q
  between q callback = record { queue = q; worker = none; callback = callback }

  Runs-requeue :
      (s : Threads Q) (q : Q) (p : Option Text) (key : Text) (effect : DomainEffect)
      → Runs s (between q p)
      → Runs s (between (requeue env wq q key effect) p)
  Runs-requeue s q p key effect r =
      elim (Bool-cases (retries_key effect (wq.num_requeues q (string_key key)))) [
        | inl e ↦
            rw e (later (later r (worker_reads _ key refl (effect, e))) (worker_adds _ key refl))
        | inr e ↦ rw e r
      ]

  Runs-apply_effect :
      (s : Threads Q) (c : DomainController Q) (p : Option Text) (key : Text)
      (effect : DomainEffect)
      → Runs s (between c.queue p)
      → Runs s (between (apply_effect env wq c key effect).queue p)
  Runs-apply_effect s c p key up_to_date r = later r (forgets _ (string_key key))
  Runs-apply_effect s c p key (changes items) r = r
  Runs-apply_effect s c p key fails r = r

  Runs-process_key :
      (s : Threads Q) (c c' : DomainController Q) (p : Option Text) (k : Queued)
      → process_key env wq c k ≡ returns c'
      → Runs s (between c.queue p)
      → Runs s (between c'.queue p)
  unfolding process_key
  Runs-process_key s c c' p foreign_key h r =
      subst (λ (d : DomainController Q). Runs s (between d.queue p)) (returns_injective h)
        (later (later r (forgets _ foreign_key)) (finishes _ foreign_key))
  Runs-process_key s c c' p (string_key key) h r =
      let (effect, es, h1) = bind-eq_returns (sync env key) _ h in
      subst (λ (d : DomainController Q). Runs s (between d.queue p)) (returns_injective h1)
        (later
          (Runs-requeue s (apply_effect env wq c key effect).queue p key effect
            (Runs-apply_effect s c p key effect r))
          (finishes _ (string_key key)))

  Runs-process_got :
      (c c' : DomainController Q) (p : Option Text) (goes_on : Bool) (o : Option (Queued × Q))
      → wq.get c.queue ≡ o
      → process_got env wq c o ≡ returns (goes_on, c')
      → Runs (between c.queue p) (between c'.queue p)
  unfolding process_got
  Runs-process_got c c' p goes_on none e h =
      let stays : (false, c) ≡ (goes_on, c') = returns_injective h in
      subst (λ (d : DomainController Q). Runs (between c.queue p) (between d.queue p))
        (ap (λ a. a.1) stays) start
  Runs-process_got c c' p goes_on (some (key, q)) e h =
      let (d, ed, h1) = bind-eq_returns (process_key env wq (record c { queue = q }) key) _ h in
      let done : (true, d) ≡ (goes_on, c') = returns_injective h1 in
      subst (λ (d : DomainController Q). Runs (between c.queue p) (between d.queue p))
        (ap (λ a. a.1) done)
        (Runs-process_key (between c.queue p) (record c { queue = q }) d p key ed
          (later start (takes (between c.queue p) key q e)))

  -- A round of the worker is a run of the threads in which the processor's worker stands still.
  pub Runs-process_next_item :
      (c c' : DomainController Q) (p : Option Text) (goes_on : Bool)
      → process_next_item env wq c ≡ returns (goes_on, c')
      → Runs (between c.queue p) (between c'.queue p)
  unfolding process_next_item
  Runs-process_next_item c c' p goes_on h = Runs-process_got c c' p goes_on (wq.get c.queue) refl h

  Runs-trans : (s t u : Threads Q) → Runs s t → Runs t u → Runs s u
  Runs-trans s t u r start = r
  Runs-trans s t u r (later r' st) = later (Runs-trans s _ _ r r') st

  -- With the documented counting of the queue, no key is counted more often than one time above the
  -- limit of retries, in whatever order the worker, the callbacks and the events run before a round
  -- of the worker.
  pub process_next_item-le_limit :
      CountsRequeues wq
      → (key : Text) (q : Q) (c c' : DomainController Q) (p : Option Text) (goes_on : Bool)
      → wq.num_requeues q (string_key key) ≤ queue_num_retries + 1
      → Runs (between q none) (between c.queue p)
      → process_next_item env wq c ≡ returns (goes_on, c')
      → wq.num_requeues c'.queue (string_key key) ≤ queue_num_retries + 1
  process_next_item-le_limit laws key q c c' p goes_on few r h =
      num_requeues-le wq WorkerCheck CallbackCheck laws queue_num_retries WorkerCheck-lt
        CallbackCheck-lt key q (between c'.queue p) few
        (Runs-trans (between q none) (between c.queue p) (between c'.queue p) r
          (Runs-process_next_item c c' p goes_on h))
