-- ===== src/Tests/Processing.antt =====
-- Examples about pkg/istio/processor and pkg/controller.
use k8s_athenz_istio_auth.Athenz.Names.{domain_to_namespace}
use k8s_athenz_istio_auth.Prelude.{
  ◌≡◌, refl, true, false, List, [], ◌∷◌, ◌++◌, Option, none, some, All, arith, if◌then◌else◌,
}
use k8s_athenz_istio_auth.Prelude.Outcome.{returns}
use k8s_athenz_istio_auth.Prelude.Text.{Text, codes, same, replace}
use k8s_athenz_istio_auth.Prelude.Keyed.{lookup, insert}
use k8s_athenz_istio_auth.Athenz.Zms.{DomainData}
use k8s_athenz_istio_auth.Athenz.Trust.{athenz_domain}
use k8s_athenz_istio_auth.Athenz.Model.{convert_athenz_policies_into_rbac_model}
use k8s_athenz_istio_auth.Rbac.Config.{
  Config, ConfigApi, Item, event_add, OnComplete, domain_callback, ApiError, conflict, other_error,
  not_found, already_exists, Retry, done, repeats_item, requeues_key,
}
use k8s_athenz_istio_auth.Rbac.Config.Keys.{find, HasDistinctKeys}
use k8s_athenz_istio_auth.Rbac.Spec.{Spec, foreign_spec}
use k8s_athenz_istio_auth.Rbac.Istio.{new_config}
use k8s_athenz_istio_auth.Rbac.V1.{get_current_istio_rbac}
use k8s_athenz_istio_auth.Rbac.ChangeList.Settle.{apply_all}
use k8s_athenz_istio_auth.Processor.{ApiStore, Processor, process_config_changes, run_worker}
use k8s_athenz_istio_auth.Processor.Drains.{IsCounted, rounds, run_worker-drains}
use k8s_athenz_istio_auth.Processor.Applies.{accepting, run_worker-process_config_changes}
use k8s_athenz_istio_auth.Domains.{Environment, current_configs}
use k8s_athenz_istio_auth.Tests.Provider.{
  collections, validation, amy, assertion, home_model, home_configs,
}

-- An API server that refuses every call, and the callbacks' answers to its errors.
abbrev refusing : ApiStore (List Text)
refusing = record {
  create = λ store c. (store, some other_error);
  update = λ store c. (store, some conflict);
  delete = λ store meta. (store, some not_found);
}

abbrev answer : Option ApiError → Retry
answer none = done
answer (some not_found) = done
answer (some already_exists) = done
answer (some conflict) = requeues_key
answer (some other_error) = repeats_item

abbrev pub callback : OnComplete → Option ApiError → Item Spec → Retry
callback handler error item = answer error

abbrev config : Text → Config Spec
config name = record {
  meta = record {
    type = [];
    group = [];
    version = [];
    namespace = [];
    name = name;
    resource_version = [];
    annotations = [];
  };
  spec = foreign_spec;
}

abbrev adds : Text → Item Spec
adds name = record {
  operation = event_add;
  resource = config name;
  callback_handler = some (domain_callback (codes "d"));
}

abbrev busy : Processor (List Text)
busy = record {
  queue =
      record { item = some (adds (codes "a")); requeues = 1 }
      ∷ record { item = none; requeues = 0 }
      ∷ [];
  store = [];
  requeued = [];
}

busy-IsCounted : All IsCounted busy.queue
busy-IsCounted = (omega arith, (omega arith, tt))

-- The refused item is tried three times in all, and given up.
busy-rounds : rounds busy.queue ≡ 7
unfolding rounds
busy-rounds = refl

run_worker-drains_example : (run_worker refusing callback 7 busy).queue ≡ []
run_worker-drains_example =
    run_worker-drains refusing callback 7 busy busy-IsCounted (omega (arith, busy-rounds))

abbrev pub api : ConfigApi Spec
api = record { key = λ meta. meta.type ++ meta.name; spec_equal = λ a b. false }

pub answers_success : (handler : OnComplete) (item : Item Spec) → callback handler none item ≡ done
answers_success handler item = refl

abbrev two_items : List (Item Spec)
two_items = adds (codes "a") ∷ adds (codes "b") ∷ []

run_worker-process_config_changes_example :
    run_worker (accepting api) callback 2 (
      process_config_changes
        (accepting api)
        callback
        (record { queue = []; store = []; requeued = [] })
        two_items)
    ≡ record { queue = []; store = apply_all api [] two_items; requeued = [] }
run_worker-process_config_changes_example =
    run_worker-process_config_changes api callback answers_success [] [] two_items

abbrev pub home_domain : DomainData
home_domain = record {
  name = codes "home";
  roles = record { name = codes "home:role.reader"; trust = []; role_members = some amy ∷ [] } ∷ [];
  policies = some (some (some (record { assertions = some assertion ∷ [] }) ∷ []));
  groups = [];
}

-- A cluster with a resource that the domain no longer has.
abbrev pub env : Environment
env = record {
  api = api;
  collections = collections;
  validation = validation;
  config_store_cache = record {
    list_configs = λ schema namespace.
        if same schema.kind (codes "ServiceRole") then config (codes "old") ∷ [] else [];
    get_config = λ schema namespace name. none;
  };
  lookup_fails = λ key. false;
  get_by_key = λ key. some (athenz_domain (some home_domain));
  enable_origin_jwt_subject = true;
}

pub home-model :
    convert_athenz_policies_into_rbac_model (some home_domain) (some env.get_by_key)
    ≡ returns home_model
unfolding convert_athenz_policies_into_rbac_model domain_to_namespace insert replace lookup
home-model = refl

pub current-HasDistinctKeys : HasDistinctKeys api (current_configs env home_model)
unfolding get_current_istio_rbac same find
current-HasDistinctKeys = (refl, tt)

pub desired-HasDistinctKeys : HasDistinctKeys api home_configs
unfolding find same new_config
desired-HasDistinctKeys = (refl, (refl, tt))
