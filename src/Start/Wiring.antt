-- ===== src/Start/Wiring.antt =====
-- `NewController` of the controllers: which events put which keys on which queues.
use k8s_athenz_istio_auth.Prelude.{Bool, true, false, Option, none, some}
use k8s_athenz_istio_auth.Prelude.Text.{Text}
use k8s_athenz_istio_auth.Queue.{string_key, Workqueue}
use k8s_athenz_istio_auth.Athenz.Names.{namespace_to_domain}
use k8s_athenz_istio_auth.Rbac.Config.{Config}
use k8s_athenz_istio_auth.Rbac.Spec.{Spec}
use k8s_athenz_istio_auth.Onboarding.Worker as Onboarding
use k8s_athenz_istio_auth.Policies.Worker as Policies

-- The queues of the three controllers; that of policies is there where its controller is enabled.
pub record Queues (Q : Type 0) : Type 0 where
  pub domains : Q
  pub onboarding : Q
  pub policies : Option Q

-- What an informer tells of an object.
pub data Change : Type 0 where
  added updated deleted : Change

-- The collections of Istio whose events the controllers handle.
pub data Watched : Type 0 where
  service_roles service_role_bindings cluster_rbac_configs authorization_policies : Watched

-- An event: on a service or a domain, of the informers, or on a configuration, of the store's cache.
pub data Notice (Object : Type 0) : Type 0 where
  service_notice : Change → Object → Notice Object
  domain_notice : Change → Object → Notice Object
  config_notice : Watched → Config Spec → Notice Object

-- The key functions of client-go's package cache; an error is no key.
pub record KeyFunctions (Object : Type 0) : Type 0 where
  pub meta_namespace_key : Object → Option Text
  pub deletion_handling_key : Object → Option Text

module _ {Q Object : Type 0} (wq : Workqueue Q) (keys : KeyFunctions Object) where
  -- The key function that the handler of a change calls.
  abbrev pub key_of : Change → Object → Option Text
  key_of added obj = keys.meta_namespace_key obj
  key_of updated obj = keys.meta_namespace_key obj
  key_of deleted obj = keys.deletion_handling_key obj

  -- `processEvent` of the domain controller
  unfoldable pub process_event : Q → Option Text → Q
  process_event q none = q
  process_event q (some key) = wq.add q (string_key key)

  -- `processConfigEvent`
  unfoldable pub process_config_event : Q → Config Spec → Q
  process_config_event q config =
      wq.add q (string_key (namespace_to_domain (config.meta).namespace))

  abbrev pub on_policies : (Q → Q) → Option Q → Option Q
  on_policies f none = none
  on_policies f (some q) = some (f q)

  -- The queues after an event, as the handlers that `NewController` registers leave them.
  unfoldable pub notify : Queues Q → Notice Object → Queues Q
  unfolding process_event process_config_event
  notify qs (service_notice change obj) = record qs {
    onboarding = Onboarding.event_handler wq qs.onboarding;
    policies = on_policies (λ q. Policies.process_event wq q (key_of change obj)) qs.policies;
  }
  notify qs (domain_notice change obj) = record qs {
    domains = process_event qs.domains (key_of change obj);
    policies = on_policies (λ q. Policies.process_event wq q (key_of change obj)) qs.policies;
  }
  notify qs (config_notice service_roles c) = record qs {
    domains = process_config_event qs.domains c;
  }
  notify qs (config_notice service_role_bindings c) = record qs {
    domains = process_config_event qs.domains c;
  }
  notify qs (config_notice cluster_rbac_configs c) = record qs {
    onboarding = Onboarding.event_handler wq qs.onboarding;
  }
  notify qs (config_notice authorization_policies c) = record qs {
    policies = on_policies (λ q. Policies.event_handler wq q c) qs.policies;
  }

  -- The queues of the controllers that `NewController` makes, where `empty` is a new queue.
  unfoldable pub new_controller : Q → Bool → Queues Q
  new_controller empty false = record { domains = empty; onboarding = empty; policies = none }
  new_controller empty true = record { domains = empty; onboarding = empty; policies = some empty }
