-- ===== src/Tests/Workers.antt =====
-- Examples about the workers of the controllers.
use k8s_athenz_istio_auth.Prelude.{ℕ, ◌+◌, ◌≤◌, ◌≡◌, refl, true, [], ◌∷◌, none, some, arith}
use k8s_athenz_istio_auth.Prelude.Outcome.{returns}
use k8s_athenz_istio_auth.Prelude.Text.{Text, codes, same}
use k8s_athenz_istio_auth.Prelude.Keyed.{lookup, insert}
use k8s_athenz_istio_auth.Queue.{string_key}
use k8s_athenz_istio_auth.Queue.Race.{
  start, later, takes, finishes, worker_reads, worker_adds, callback_reads, callback_adds,
}
use k8s_athenz_istio_auth.Rbac.Config.{conflict, domain_callback, convert_slice_to_keyed_map}
use k8s_athenz_istio_auth.Domains
use k8s_athenz_istio_auth.Domains.{Environment, queue_num_retries}
use k8s_athenz_istio_auth.Domains.Worker.{DomainController, process_next_item}
use k8s_athenz_istio_auth.Domains.Bounded.{Runs, between, process_next_item-le_limit}
use k8s_athenz_istio_auth.Domains.{current_configs}
use k8s_athenz_istio_auth.Domains.Delivered.{cluster_after, process_next_item-settled}
use k8s_athenz_istio_auth.Rbac.Config.Keys.{find}
use k8s_athenz_istio_auth.Rbac.ChangeList.Settle.{settled}
use k8s_athenz_istio_auth.Tests.Provider.{home_model, home_configs, home-configs}
use k8s_athenz_istio_auth.Tests.Processing.{
  env, home_domain, home-model, callback, answers_success, current-HasDistinctKeys,
  desired-HasDistinctKeys,
}
use k8s_athenz_istio_auth.Tests.Workqueue.{Listed, listed, listed-CountsRequeues}

-- A cache of domains of which every lookup fails.
abbrev failing : Environment
failing = record env { lookup_fails = λ key. true }

-- A key that has been put back twice, three times, and four times.
abbrev counted : ℕ → Listed
counted n = record {
  waiting = string_key (codes "home") ∷ [];
  counts = (codes "home", n) ∷ [];
  foreign = 0;
}

abbrev over : Listed
over = record {
  waiting = string_key (codes "home") ∷ string_key (codes "home") ∷ [];
  counts = (codes "home", 4) ∷ [];
  foreign = 0;
}

-- A callback reads the count 2; the worker reads it too and adds the key; the callback adds it as
-- well.
race :
    Runs failing listed (between failing listed (counted 2) none) (between failing listed over none)
unfolding Domains.retries_key Domains.get_callback_handler lookup same insert
race =
    later
      (later
        (later
          (later
            (later (later start (callback_reads _ (codes "home") refl (some conflict, none, refl)))
              (takes _ (string_key (codes "home")) _ refl))
            (worker_reads _ (codes "home") refl (Domains.fails, refl)))
          (worker_adds _ (codes "home") refl))
        (finishes _ (string_key (codes "home"))))
      (callback_adds _ (codes "home") refl)

abbrev over_controller : DomainController Listed
over_controller = record { queue = over; handed = [] }

abbrev dropped : DomainController Listed
dropped = record { queue = record over { waiting = string_key (codes "home") ∷ [] }; handed = [] }

-- A key that stands above the limit is dropped.
over-dropped : process_next_item failing listed over_controller ≡ returns (true, dropped)
unfolding process_next_item Domains.sync Domains.retries_key lookup same insert
over-dropped = refl

process_next_item-le_limit_example :
    listed.num_requeues dropped.queue (string_key (codes "home")) ≤ queue_num_retries + 1
unfolding lookup same
process_next_item-le_limit_example =
    process_next_item-le_limit failing listed listed-CountsRequeues (codes "home") (counted 2)
      over_controller dropped none true (omega arith) race over-dropped

-- A round of the worker on the key of a cached domain.
process_next_item-settled_example :
    (c : DomainController Listed) × (process_next_item env listed
        (record { queue = counted 0; handed = [] })
      ≡ returns (true, c))
    × ((k : Text)
        → lookup
            (cluster_after env callback
              (convert_slice_to_keyed_map env.api (current_configs env home_model))
              c)
            k
          ≡ settled env.api
              (some (domain_callback (codes "home")))
              none
              (find env.api (current_configs env home_model) k)
              (find env.api home_configs k))
process_next_item-settled_example =
    process_next_item-settled env listed callback answers_success (codes "home") (some home_domain)
      home_model home_configs refl refl home-model home-configs (counted 0)
      (record (counted 0) { waiting = [] }) refl current-HasDistinctKeys desired-HasDistinctKeys
