-- ===== src/Tests/Safe.antt =====
-- Examples about the runs that no nil pointer stops.
use k8s_athenz_istio_auth.Prelude.{◌≡◌, ◌≢◌, ◌↔◌, subst, true, List, [], ◌∷◌, none, some}
use k8s_athenz_istio_auth.Prelude.Outcome.{returns, panics, Yields}
use k8s_athenz_istio_auth.Prelude.Text.{codes}
use k8s_athenz_istio_auth.Queue.{string_key}
use k8s_athenz_istio_auth.Athenz.Trust.{Cached, athenz_domain}
use k8s_athenz_istio_auth.Athenz.Trust.Whole.{IsWhole, IsWholeObject, IsWholeCache}
use k8s_athenz_istio_auth.Athenz.Model.{convert_athenz_policies_into_rbac_model}
use k8s_athenz_istio_auth.Athenz.Model.Total.{
  IsWholeModel, convert_athenz_policies_into_rbac_model-Yields,
}
use k8s_athenz_istio_auth.Rbac.Config.{Item}
use k8s_athenz_istio_auth.Rbac.Spec.{Spec}
use k8s_athenz_istio_auth.Domains.Worker.{DomainController, run_worker}
use k8s_athenz_istio_auth.Domains.Total.{run_worker_total}
use k8s_athenz_istio_auth.Policies.{Environment, fetched, sync_changes, sync}
use k8s_athenz_istio_auth.Policies.Handlers.Panics.{MeetsMissing}
use k8s_athenz_istio_auth.Policies.Panics.{sync-panics_iff}
use k8s_athenz_istio_auth.Tests.Processing as Processing
use k8s_athenz_istio_auth.Tests.Policies as Policies
use k8s_athenz_istio_auth.Tests.Workqueue.{Listed, listed}

some-there : {A : Type 0} (a : A) → some a ≢ none
some-there a h = cc

home_domain-IsWhole : IsWhole Processing.home_domain
home_domain-IsWhole = record {
  policies = ((some-there _, tt), tt);
  role_members = ((some-there _, tt), tt);
  group_members = tt;
}

same_object : (a b : Cached) → some a ≡ some b → a ≡ b
same_object a b h = cc

-- A cache that holds the domain under every key.
one_domain-IsWholeCache : IsWholeCache (λ key. some (athenz_domain (some Processing.home_domain)))
one_domain-IsWholeCache key object h =
    subst IsWholeObject (same_object (athenz_domain (some Processing.home_domain)) object h)
      home_domain-IsWhole

abbrev waiting : DomainController Listed
waiting = record {
  queue = record { waiting = string_key (codes "home") ∷ []; counts = []; foreign = 0 };
  handed = [];
}

run_worker_total_example :
    (c' : DomainController Listed) × (run_worker Processing.env listed 2 waiting ≡ returns c')
run_worker_total_example = run_worker_total Processing.env one_domain-IsWholeCache listed 2 waiting

-- The policy of the service exists, without its rules, in the cache of the first look, and no longer
-- in the second.
abbrev vanishing : Environment
vanishing = record Policies.env {
  components = record { service_map = []; namespace_map = []; cluster = true };
  config_store_cache = record {
    list_configs = λ schema namespace. [];
    get_config = λ schema name namespace. some (Policies.config (codes "home") (codes "web"));
  };
}

sync-panics_iff_example :
    (sync vanishing Policies.handlers ([], []) (codes "home/web") ≡ panics) ↔ (
      (items : List (Item Spec)) × (sync_changes vanishing (codes "home/web")
        ≡ returns (fetched items))
      × MeetsMissing vanishing.components Policies.handlers ([], []) items)
sync-panics_iff_example =
    sync-panics_iff vanishing Policies.handlers ([], []) (codes "home/web") one_domain-IsWholeCache

convert_athenz_policies_into_rbac_model-Yields_example : Yields IsWholeModel (
    convert_athenz_policies_into_rbac_model
      (some Processing.home_domain)
      (some Processing.env.get_by_key))
convert_athenz_policies_into_rbac_model-Yields_example =
    convert_athenz_policies_into_rbac_model-Yields Processing.home_domain Processing.env.get_by_key
      home_domain-IsWhole one_domain-IsWholeCache
