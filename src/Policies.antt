-- ===== src/Policies.antt =====
-- pkg/istio/authorizationpolicy/controller.go, and the handler of pkg/istio/rbac/common/util.go that
-- writes its changes to the API server.
pub mod Handlers
pub mod Untouched
pub mod Stale
pub mod Worker
pub mod Home
pub mod Files
pub mod Panics
pub mod Total
use k8s_athenz_istio_auth.Prelude.{
  ℕ, Bool, true, false, not, ◌&&◌, List, [], ◌∷◌, ◌++◌, Option, none, some, ltb, if◌then◌else◌,
}
use k8s_athenz_istio_auth.Prelude.Outcome.{Outcome, returns, panics, bind}
use k8s_athenz_istio_auth.Prelude.Text.{Text, codes, same, is_empty, split}
use k8s_athenz_istio_auth.Prelude.Keyed.{lookup}
use k8s_athenz_istio_auth.Athenz.Names.{domain_to_namespace, namespace_to_domain}
use k8s_athenz_istio_auth.Athenz.Zms.{DomainData}
use k8s_athenz_istio_auth.Athenz.Trust.{Cached, athenz_domain, other_object}
use k8s_athenz_istio_auth.Athenz.Model.{Model, or_empty, convert_athenz_policies_into_rbac_model}
use k8s_athenz_istio_auth.Onboarding.Services.{Service, is_onboarded}
use k8s_athenz_istio_auth.Rbac.Config.{
  Config, ConfigApi, Item, event_delete, policy_callback, ApiError,
}
use k8s_athenz_istio_auth.Rbac.Spec.{Spec}
use k8s_athenz_istio_auth.Rbac.Istio.{Collections, ConfigStoreCache}
use k8s_athenz_istio_auth.Rbac.ChangeList.{compute_change_list}
use k8s_athenz_istio_auth.Rbac.Components.{ComponentEnabled, is_enabled}
use k8s_athenz_istio_auth.Rbac.V2.{
  DryRunFiles, convert_athenz_model_into_istio_rbac, get_current_istio_rbac,
}
use k8s_athenz_istio_auth.Policies.Handlers.{
  PolicyStore, process_config_change, process_config_changes, api_delete, Answer,
}

-- What the store of the service informer holds under a key.
pub data ServiceObject : Type 0 where
  service_object : Service → ServiceObject
  other_service : ServiceObject

-- What the controller is connected to. A lookup in an informer may return an error.
pub record Environment : Type 0 where
  pub api : ConfigApi Spec
  pub collections : Collections
  pub config_store_cache : ConfigStoreCache
  pub components : ComponentEnabled
  pub files : DryRunFiles
  pub match_string : Text → Text → Option Bool
  pub enable_origin_jwt_subject : Bool
  pub now : ℕ
  pub domain_fails : Text → Bool
  pub domain_by_key : Text → Option Cached
  pub service_fails : Text → Bool
  pub service_by_key : Text → Option ServiceObject
  pub service_keys : List Text

-- An error, or a value.
pub data Fetched (A : Type 0) : Type 0 where
  fetched : A → Fetched A
  fetch_fails : Fetched A

abbrev pub override_annotation : Text
override_annotation = codes "overrideAuthzPolicy"

-- `checkOverrideAnnotation`
unfoldable pub check_override_annotation : Config Spec → Bool
check_override_annotation c = elim (lookup (c.meta).annotations override_annotation) [
  | some res ↦ same res (codes "true")
  | none ↦ false
]

-- The domain and the service of a key; the service is empty where the key is that of a domain.
pub parse_key_list : Text → List Text → Text × Text
parse_key_list key (ns ∷ service ∷ rest) = (namespace_to_domain ns, service)
parse_key_list key _ = (key, [])

pub parse_key : Text → Text × Text
unfolding parse_key_list
parse_key key = parse_key_list key (split key b'/')

abbrev pub in_front : Option Service → List Service → List Service
in_front none services = services
in_front (some service) services = service ∷ services

abbrev pub first_part : List Text → Text
first_part [] = []
first_part (part ∷ parts) = part

module _ (env : Environment) where
  pub service_of : Option ServiceObject → Fetched (Option Service)
  service_of none = fetched none
  service_of (some other_service) = fetch_fails
  service_of (some (service_object service)) = fetched (some service)

  -- `getSvcObj`
  unfoldable pub get_svc_obj : Text → Fetched (Option Service)
  unfolding service_of
  get_svc_obj key =
      if env.service_fails key then fetch_fails else service_of (env.service_by_key key)

  pub keep_fetched : Fetched (Option Service) → Fetched (List Service) → Fetched (List Service)
  keep_fetched fetch_fails rest = fetch_fails
  keep_fetched (fetched service) fetch_fails = fetch_fails
  keep_fetched (fetched service) (fetched services) = fetched (in_front service services)

  -- The loop over the keys of the services, of which those of the namespace are taken.
  pub services_in : Text → List Text → Fetched (List Service)
  unfolding get_svc_obj keep_fetched
  services_in ns [] = fetched []
  services_in ns (key ∷ keys) =
      let rest = services_in ns keys in
      if same (first_part (split key b'/')) ns then keep_fetched (get_svc_obj key) rest else rest

  -- `serviceList`
  pub service_list : Text → Text → Fetched (List Service)
  unfolding services_in
  service_list domain_name service_name =
      if not (is_empty service_name)
      then keep_fetched
          (get_svc_obj (domain_to_namespace domain_name ++ (codes "/" ++ service_name)))
          (fetched [])
      else services_in (domain_to_namespace domain_name) env.service_keys

  -- The policies of the services with the annotation.
  pub desired_configs : Model → List Service → Outcome (List (Config Spec))
  unfolding is_onboarded
  desired_configs m [] = returns []
  desired_configs m (service ∷ services) =
      if not (is_onboarded service)
      then desired_configs m services
      else bind
          (convert_athenz_model_into_istio_rbac env.enable_origin_jwt_subject env.now
            env.match_string env.collections m service.name
            (or_empty (lookup service.labels (codes "svc")))
            (or_empty (lookup service.labels (codes "app"))))
          λ desired. bind (desired_configs m services) λ rest. returns (desired ++ rest)

  abbrev pub current_configs : Model → Text → List (Config Spec)
  current_configs m service_name =
      get_current_istio_rbac env.components env.files env.collections m env.config_store_cache
        service_name

  -- The change list of a key, for a model and its services.
  unfoldable pub change_list : Text → Model → Text → List (Config Spec) → List (Item Spec)
  change_list key m service_name desired =
      compute_change_list env.api (current_configs m service_name) desired
        (some (policy_callback key)) (some check_override_annotation)

  -- The changes that a sync of a key makes, or an error.
  pub fetched_changes :
      Text → Model → Text → Fetched (List Service) → Outcome (Fetched (List (Item Spec)))
  unfolding desired_configs change_list
  fetched_changes key m service_name fetch_fails = returns fetch_fails
  fetched_changes key m service_name (fetched services) =
      bind (desired_configs m services)
        λ desired. returns (fetched (change_list key m service_name desired))

  pub cached_changes : Text → Text → Text → Option Cached → Outcome (Fetched (List (Item Spec)))
  unfolding fetched_changes service_list
  cached_changes key domain_name service_name none = returns fetch_fails
  cached_changes key domain_name service_name (some other_object) = returns fetch_fails
  cached_changes key domain_name service_name (some (athenz_domain domain)) =
      bind (convert_athenz_policies_into_rbac_model domain (some env.domain_by_key))
        λ m. fetched_changes key m service_name (service_list domain_name service_name)

  -- `sync` up to the change list
  unfoldable pub sync_changes : Text → Outcome (Fetched (List (Item Spec)))
  unfolding cached_changes parse_key
  sync_changes key =
      let (domain_name, service_name) = parse_key key in
      if env.domain_fails domain_name
      then returns fetch_fails
      else cached_changes key domain_name service_name (env.domain_by_key domain_name)

-- What a sync does after it has changed the cluster: it forgets the key, leaves it, or returns an
-- error.
pub data PolicyEffect : Type 0 where
  up_to_date changed fails : PolicyEffect

abbrev pub effect_of : Option ApiError → PolicyEffect
effect_of none = changed
effect_of (some error) = fails

module _ (env : Environment) {St : Type 0} (handlers : PolicyStore St) where
  -- The end of `sync`, from the change list on: the changes are made in order, up to the first error.
  pub carry_out : St → Fetched (List (Item Spec)) → Outcome (St × PolicyEffect)
  unfolding process_config_changes
  carry_out store fetch_fails = returns (store, fails)
  carry_out store (fetched []) = returns (store, up_to_date)
  carry_out store (fetched (item ∷ items)) =
      bind (process_config_changes env.components handlers store (item ∷ items))
        λ (store', error). returns (store', effect_of error)

  -- `sync`
  unfoldable pub sync : St → Text → Outcome (St × PolicyEffect)
  unfolding carry_out
  sync store key = bind (sync_changes env key) λ changes. carry_out store changes

  -- Whether `cleanUpStaleAP` deletes a policy.
  abbrev pub is_stale : Config Spec → Bool
  is_stale c =
      not (is_enabled env.components (c.meta).name (c.meta).namespace)
      && not (check_override_annotation c)

  abbrev pub deletes : Config Spec → Item Spec
  deletes c = record {
    operation = event_delete;
    resource = c;
    callback_handler = some (policy_callback ((c.meta).namespace ++ (codes "/" ++ (c.meta).name)));
  }

  -- `cleanUpStaleAP`, on the policies that the store lists, up to the first error
  pub clean_up_stale_ap : St → List (Config Spec) → Answer St
  clean_up_stale_ap store [] = (store, none)
  clean_up_stale_ap store (c ∷ cs) = elim (is_stale c) [
    | false ↦ clean_up_stale_ap store cs
    | true ↦
        let (store', error) = api_delete env.components handlers store (deletes c) in
        elim error [ some e ↦ (store', some e) | none ↦ clean_up_stale_ap store' cs ]
  ]

-- The key that `EventHandler` puts on the queue for a policy.
pub event_handler_key : Config Spec → Text
event_handler_key c = (c.meta).namespace ++ (codes "/" ++ (c.meta).name)

-- Whether `processNextItem` puts the key on the queue again after a sync.
pub retries_key : PolicyEffect → ℕ → Bool
retries_key fails requeues = ltb requeues 3
retries_key changed requeues = false
retries_key up_to_date requeues = false
