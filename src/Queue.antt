-- ===== src/Queue.antt =====
-- The rate-limited work queue of client-go (package workqueue), which the controllers take keys from
-- and put keys back on.
pub mod Race
use k8s_athenz_istio_auth.Prelude.{ℕ, suc, ◌≡◌, Bool, true, false, Option, some, if◌then◌else◌}
use k8s_athenz_istio_auth.Prelude.Text.{Text, same}

-- What a controller finds on its queue: a key, or another object.
pub data Queued : Type 0 where
  string_key : Text → Queued
  foreign_key : Queued

abbrev pub same_queued : Queued → Queued → Bool
same_queued (string_key j) (string_key k) = same j k
same_queued foreign_key foreign_key = true
same_queued _ _ = false

-- The calls of `workqueue.RateLimitingInterface`. Each answers the queue after it; `get` answers
-- nothing where the queue has been shut down.
pub record Workqueue (Q : Type 0) : Type 0 where
  pub add : Q → Queued → Q
  pub get : Q → Option (Queued × Q)
  pub finish : Q → Queued → Q
  pub forget : Q → Queued → Q
  pub add_rate_limited : Q → Queued → Q
  pub num_requeues : Q → Queued → ℕ

-- What its documentation says of `NumRequeues`: `AddRateLimited` counts, `Forget` sets back to
-- zero, and `Add`, `Get` and `Done` (here `finish`) leave the count alone.
pub record CountsRequeues {Q : Type 0} (wq : Workqueue Q) : Type 0 where
  pub add_keeps : (q : Q) (j k : Queued) → wq.num_requeues (wq.add q j) k ≡ wq.num_requeues q k
  pub get_keeps :
      (q q' : Q) (j k : Queued)
      → wq.get q ≡ some (j, q')
      → wq.num_requeues q' k ≡ wq.num_requeues q k
  pub finish_keeps :
      (q : Q) (j k : Queued) → wq.num_requeues (wq.finish q j) k ≡ wq.num_requeues q k
  pub forgets :
      (q : Q) (j k : Queued)
      → wq.num_requeues (wq.forget q j) k ≡ (if same_queued j k then 0 else wq.num_requeues q k)
  pub counts :
      (q : Q) (j k : Queued)
      → wq.num_requeues (wq.add_rate_limited q j) k
        ≡ (if same_queued j k then suc (wq.num_requeues q k) else wq.num_requeues q k)
