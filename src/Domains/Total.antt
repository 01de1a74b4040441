-- ===== src/Domains/Total.antt =====
-- About the runs of the worker of pkg/controller/controller.go that no nil pointer stops.
use k8s_athenz_istio_auth.Prelude.{
  ℕ, zero, suc, ◌≡◌, refl, Bool, true, false, Option, none, some, inl, inr, Bool-cases,
}
use k8s_athenz_istio_auth.Prelude.Outcome.{Outcome, returns, bind, Yields, bind-Yields}
use k8s_athenz_istio_auth.Prelude.Text.{Text}
use k8s_athenz_istio_auth.Queue.{Queued, string_key, foreign_key, Workqueue}
use k8s_athenz_istio_auth.Athenz.Trust.{Cached, athenz_domain, other_object}
use k8s_athenz_istio_auth.Athenz.Trust.Whole.{IsWholeObject, IsWholeCache}
use k8s_athenz_istio_auth.Athenz.Model.{Model, convert_athenz_policies_into_rbac_model}
use k8s_athenz_istio_auth.Athenz.Model.Total.{
  IsWholeModel, convert_athenz_policies_into_rbac_model-Yields,
}
use k8s_athenz_istio_auth.Rbac.V1.Total.{convert_athenz_model_into_istio_rbac_total}
use k8s_athenz_istio_auth.Domains.{
  fails, Environment, desired_configs, sync_domain, sync_cached, sync,
}
use k8s_athenz_istio_auth.Domains.Worker.{
  DomainController, process_key, process_got, process_next_item, run_worker,
}

-- The computation returns a value.
abbrev Returns : {A : Type 0} → Outcome A → Type 0
Returns {A = A} o = Yields (λ _. Unit) o

bind-Returns :
    {A B : Type 0} (m : Outcome A) (f : A → Outcome B)
    → Returns m
    → ((a : A) → Returns (f a))
    → Returns (bind m f)
bind-Returns m f there next = bind-Yields (λ _. Unit) (λ _. Unit) m f there λ a t. next a

module _ (env : Environment) (whole : IsWholeCache env.get_by_key) where
  desired_configs_total : (m : Model) → IsWholeModel m → Returns (desired_configs env m)
  desired_configs_total m there =
      let (out, e) =
        convert_athenz_model_into_istio_rbac_total env.collections env.validation
          env.enable_origin_jwt_subject m
          (record { assertions = there.rules; members = there.members }) in
      (out, e, tt)

  sync_cached_total :
      (key : Text) (found : Option Cached)
      → ((object : Cached) → found ≡ some object → IsWholeObject object)
      → Returns (sync_cached env key found)
  unfolding sync_cached sync_domain
  sync_cached_total key none there = (fails, refl, tt)
  sync_cached_total key (some other_object) there = (fails, refl, tt)
  sync_cached_total key (some (athenz_domain none)) there = absurd (there _ refl)
  sync_cached_total key (some (athenz_domain (some domain))) there =
      bind-Yields IsWholeModel (λ _. Unit)
        (convert_athenz_policies_into_rbac_model (some domain) (some env.get_by_key)) _
        (convert_athenz_policies_into_rbac_model-Yields domain env.get_by_key (there _ refl) whole)
        λ m there'.
          bind-Returns (desired_configs env m) _ (desired_configs_total m there')
            λ desired. (_, refl, tt)

  sync_total : (key : Text) → Returns (sync env key)
  unfolding sync
  sync_total key = elim (Bool-cases (env.lookup_fails key)) [
    | inl e ↦ rw e (fails, refl, tt)
    | inr e ↦ let found = sync_cached_total key (env.get_by_key key) (whole key) in rw e found
  ]

  module _ {Q : Type 0} (wq : Workqueue Q) where
    process_key_total : (c : DomainController Q) (key : Queued) → Returns (process_key env wq c key)
    unfolding process_key
    process_key_total c foreign_key = (_, refl, tt)
    process_key_total c (string_key key) =
        bind-Returns (sync env key) _ (sync_total key) λ effect. (_, refl, tt)

    process_got_total :
        (c : DomainController Q) (got : Option (Queued × Q)) → Returns (process_got env wq c got)
    unfolding process_got
    process_got_total c none = (_, refl, tt)
    process_got_total c (some (key, q)) =
        bind-Returns (process_key env wq (record c { queue = q }) key) _
          (process_key_total (record c { queue = q }) key) λ c'. (_, refl, tt)

    process_next_item_total : (c : DomainController Q) → Returns (process_next_item env wq c)
    unfolding process_next_item
    process_next_item_total c = process_got_total c (wq.get c.queue)

    goes_on_total :
        (n : ℕ) (goes_on : Bool) (c : DomainController Q)
        → Returns (run_worker env wq n c)
        → Returns (elim goes_on [ true ↦ run_worker env wq n c | false ↦ returns c ])
    goes_on_total n true c rest = rest
    goes_on_total n false c rest = (c, refl, tt)

    rounds_total : (n : ℕ) (c : DomainController Q) → Returns (run_worker env wq n c)
    unfolding run_worker
    rounds_total zero c = (c, refl, tt)
    rounds_total (suc n) c =
        bind-Returns (process_next_item env wq c) _ (process_next_item_total c)
          λ (goes_on, c'). goes_on_total n goes_on c' (rounds_total n c')

    -- Roles and groups are taken as present. Where every domain of the cache has policies and no nil
    -- pointer among them, their assertions and the members of its roles and groups, no run of the
    -- worker panics, from whatever state of the controller and for whatever number of rounds.
    pub run_worker_total :
        (n : ℕ) (c : DomainController Q)
        → (c' : DomainController Q) × (run_worker env wq n c ≡ returns c')
    run_worker_total n c = let (c', e, t) = rounds_total n c in (c', e)
