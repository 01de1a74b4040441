-- ===== src/Tests/Policies.antt =====
-- Examples about pkg/istio/authorizationpolicy.
use k8s_athenz_istio_auth.Athenz.Model.{convert_athenz_policies_into_rbac_model}
use k8s_athenz_istio_auth.Athenz.Names.{domain_to_namespace, namespace_to_domain}
use k8s_athenz_istio_auth.Rbac.Member.{
  check_athenz_member_expiry, check_athenz_system_disabled,
  check_if_member_is_all_users_from_domain, all_users_namespace, get_member_name, member_to_spiffe,
  member_to_origin_jwt_subject, role_to_spiffe, principal_to_spiffe,
}
use k8s_athenz_istio_auth.Rbac.Assertion.{
  parse_assertion_resource, match_resource, parse_assertion_effect, parse_assertion_action,
  parse_role_fqdn,
}
use k8s_athenz_istio_auth.Prelude.Keyed.{lookup, insert}
use k8s_athenz_istio_auth.Prelude.Sort.{sort_strings, insert_sorted, text_leb}
use k8s_athenz_istio_auth.Rbac.V2.{
  convert_athenz_model_into_istio_rbac, keys, drop_query, get_current_istio_rbac,
}
use k8s_athenz_istio_auth.Prelude.{
  ◌≡◌, refl, true, false, List, [], ◌∷◌, ◌++◌, none, some, All, any,
}
use k8s_athenz_istio_auth.Prelude.Outcome.{returns}
use k8s_athenz_istio_auth.Prelude.Text.{
  Text, codes, same, cut_prefix, contains, to_upper, has_prefix, has_suffix, replace, upper,
  last_index, trim_prefix, split, replace_pair,
}
use k8s_athenz_istio_auth.Athenz.Trust.{athenz_domain}
use k8s_athenz_istio_auth.Onboarding.Services.{authz_enabled, authz_enabled_annotation}
use k8s_athenz_istio_auth.Rbac.Config.{
  Config, ConfigApi, Item, Event, event_add, event_delete, policy_callback,
  convert_slice_to_keyed_map,
}
use k8s_athenz_istio_auth.Rbac.Spec.{Spec, foreign_spec, authorization_policy}
use k8s_athenz_istio_auth.Rbac.Components.{ComponentEnabled, is_enabled}
use k8s_athenz_istio_auth.Rbac.ChangeList.{compute_change_list}
use k8s_athenz_istio_auth.Rbac.ChangeList.Justified.{IsJustified, compute_change_list-IsJustified}
use k8s_athenz_istio_auth.Policies.{
  Environment, fetched, service_object, sync_changes, clean_up_stale_ap,
}
use k8s_athenz_istio_auth.Policies.Handlers.{PolicyStore}
use k8s_athenz_istio_auth.Policies.Handlers.DryRun.{enabled}
use k8s_athenz_istio_auth.Policies.Stale.{StaleOf, delete_all, clean_up_stale_ap-delete_all}
use k8s_athenz_istio_auth.Policies.Untouched.{HasReasons, sync_changes-HasReasons}
use k8s_athenz_istio_auth.Tests.Provider.{collections}
use k8s_athenz_istio_auth.Tests.Processing.{home_domain}
use k8s_athenz_istio_auth.Tests.Changes as Changes

compute_change_list-IsJustified_example :
    All
      (IsJustified Changes.api Changes.callback none Changes.current Changes.desired)
      (compute_change_list Changes.api Changes.current Changes.desired Changes.callback none)
compute_change_list-IsJustified_example =
    compute_change_list-IsJustified Changes.api Changes.callback none Changes.current
      Changes.desired

-- The namespace on is enabled.
abbrev pub components : ComponentEnabled
components = record { service_map = []; namespace_map = (codes "on", true) ∷ []; cluster = false }

-- The names of the policies that were written to the cluster, and of the files.
abbrev pub Names : Type 0
Names = List Text × List Text

abbrev pub handlers : PolicyStore Names
handlers = record {
  create = λ (cluster, files) c. (((c.meta).name ∷ cluster, files), none);
  update = λ (cluster, files) c. (((c.meta).name ∷ cluster, files), none);
  delete = λ (cluster, files) name ns. ((name ∷ cluster, files), none);
  get = λ (cluster, files) name ns. none;
  write_file = λ (cluster, files) c. ((cluster, (c.meta).name ∷ files), none);
  remove_file = λ (cluster, files) c. ((cluster, (c.meta).name ∷ files), none);
}

abbrev pub config : Text → Text → Config Spec
config ns name = record {
  meta = record {
    type = [];
    group = [];
    version = [];
    namespace = ns;
    name = name;
    resource_version = [];
    annotations = [];
  };
  spec = foreign_spec;
}

abbrev change : Event → Text → Text → Item Spec
change event ns name = record {
  operation = event;
  resource = config ns name;
  callback_handler = none;
}

abbrev dry_items : List (Item Spec)
dry_items =
    change event_add (codes "off") (codes "a") ∷ change event_delete (codes "off") (codes "b") ∷ []

dry_items-off : All (λ item. enabled components handlers item ≡ false) dry_items
unfolding is_enabled lookup same
dry_items-off = (refl, (refl, tt))

abbrev api : ConfigApi Spec
api = record { key = λ meta. meta.namespace ++ meta.name; spec_equal = λ a b. false }

abbrev pub env : Environment
env = record {
  api = api;
  collections = collections;
  config_store_cache = record {
    list_configs = λ schema namespace. [];
    get_config = λ schema name namespace. none;
  };
  components = components;
  files = record { read_directory = λ namespace. []; read_config = λ name namespace. none };
  match_string = λ pattern label. some (same pattern label);
  enable_origin_jwt_subject = true;
  now = 5;
  domain_fails = λ key. false;
  domain_by_key = λ key. some (athenz_domain (some home_domain));
  service_fails = λ key. false;
  service_by_key = λ key. some (
      service_object (record {
        name = codes "web";
        namespace = codes "home";
        annotations = (authz_enabled_annotation, authz_enabled) ∷ [];
        labels = (codes "svc", codes "web") ∷ (codes "app", codes "web") ∷ [];
      }));
  service_keys = codes "home/web" ∷ [];
}

-- One that is enabled, one that is not, and one that is overridden.
abbrev listed : List (Config Spec)
listed =
    config (codes "on") (codes "a")
    ∷ config (codes "off") (codes "b")
    ∷ record {
      meta = record (config (codes "off") (codes "c")).meta {
        annotations = (codes "overrideAuthzPolicy", codes "true") ∷ [];
      };
      spec = foreign_spec;
    }
    ∷ []

clean_up_stale_ap-delete_all_example :
    (found : List (Config Spec)) × StaleOf env handlers listed found
    × (clean_up_stale_ap env handlers ([], []) listed
        ≡ (delete_all env handlers ([], []) found, none))
clean_up_stale_ap-delete_all_example =
    clean_up_stale_ap-delete_all env handlers (λ store name ns. refl) ([], []) listed

-- The policy that the service of the domain should have.
abbrev pub made_policy : Config Spec
made_policy = record {
  meta = record {
    type = codes "AuthorizationPolicy";
    group = codes "rbac.istio.io";
    version = codes "v1alpha1";
    namespace = codes "home";
    name = codes "web";
    resource_version = [];
    annotations = [];
  };
  spec = authorization_policy (record {
    match_labels = (codes "app", codes "web") ∷ [];
    rules =
        record {
          from =
              record {
                principals = codes "user/sa/amy" ∷ codes "home/ra/reader" ∷ [];
                request_principals = [];
                namespaces = [];
              }
              ∷ record {
                principals = [];
                request_principals = codes "athenz/user.amy" ∷ [];
                namespaces = [];
              }
              ∷ [];
          to = record { methods = codes "GET" ∷ []; paths = codes "/api" ∷ [] } ∷ [];
        }
        ∷ [];
  });
}

-- It is missing.
abbrev made : List (Item Spec)
made =
    record {
      operation = event_add;
      resource = made_policy;
      callback_handler = some (policy_callback (codes "home/web"));
    }
    ∷ []

made-changes : sync_changes env (codes "home/web") ≡ returns (fetched made)
unfolding convert_athenz_model_into_istio_rbac sort_strings insert_sorted text_leb lookup same
    parse_assertion_resource match_resource cut_prefix contains parse_assertion_effect to_upper
    parse_assertion_action any check_athenz_member_expiry check_athenz_system_disabled
    check_if_member_is_all_users_from_domain has_prefix domain_to_namespace has_suffix replace upper
    all_users_namespace get_member_name keys member_to_spiffe member_to_origin_jwt_subject
    role_to_spiffe principal_to_spiffe last_index parse_role_fqdn trim_prefix drop_query split
    sync_changes convert_athenz_policies_into_rbac_model compute_change_list get_current_istio_rbac
    insert is_enabled namespace_to_domain replace_pair convert_slice_to_keyed_map
made-changes = refl

sync_changes-HasReasons_example : HasReasons env (codes "home/web") made
sync_changes-HasReasons_example = sync_changes-HasReasons env (codes "home/web") made made-changes
