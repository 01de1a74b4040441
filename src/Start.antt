-- ===== src/Start.antt =====
-- src/main.go: what the process does with its flags before the controllers run, and what stops it.
pub mod Wiring
pub mod Succeeds
use k8s_athenz_istio_auth.Prelude.{
  Bool, true, false, List, [], ◌∷◌, ◌++◌, Option, none, some, if◌then◌else◌,
}
use k8s_athenz_istio_auth.Prelude.Outcome.{Result, ok, err, Outcome, returns, panics, bind}
use k8s_athenz_istio_auth.Prelude.Text.{Text, codes, is_empty}
use k8s_athenz_istio_auth.Rbac.Components.{ComponentEnabled, parse_components_enabled_authz_policy}
use k8s_athenz_istio_auth.Rbac.DryRun.{FileStat, file_present, file_missing, stat_error}

-- The flags of the command line.
pub record Flags : Type 0 where
  pub dns_suffix : Text
  pub kubeconfig : Text
  pub ad_resync_interval : Text
  pub crc_resync_interval : Text
  pub ap_resync_interval : Text
  pub enable_origin_jwt_subject : Bool
  pub log_file : Text
  pub log_level : Text
  pub enable_authz_policy_controller : Bool
  pub authz_policy_enabled_list : Text

-- The flags that are not given.
abbrev pub default_flags : Flags
default_flags = record {
  dns_suffix = codes "svc.cluster.local";
  kubeconfig = [];
  ad_resync_interval = codes "1h";
  crc_resync_interval = codes "1h";
  ap_resync_interval = codes "1h";
  enable_origin_jwt_subject = true;
  log_file = codes "/var/log/k8s-athenz-istio-auth/k8s-athenz-istio-auth.log";
  log_level = codes "info";
  enable_authz_policy_controller = true;
  authz_policy_enabled_list = [];
}

-- What the process finds: the directory of dry runs and whether it can be removed and made, the
-- configuration file in the home directory, and the clients, each of which may fail. `Client` and
-- `Rest` are Istio's client and the configuration of the others, `Duration` is `time.Duration`.
pub record Host (Client Rest Duration : Type 0) : Type 0 where
  pub stat_directory : FileStat
  pub remove_fails : Bool
  pub mkdir_fails : Bool
  pub home_config : Text
  pub has_home_config : Bool
  pub new_client : Text → Text → Option Client
  pub build_config : Text → Option Rest
  pub k8s_client_fails : Rest → Bool
  pub ad_client_fails : Rest → Bool
  pub parse_duration : Text → Option Duration

-- What the controllers are made with.
pub record Started (Client Duration : Type 0) : Type 0 where
  pub dns_suffix : Text
  pub istio_client : Client
  pub ad_resync_interval : Duration
  pub crc_resync_interval : Duration
  pub ap_resync_interval : Duration
  pub enable_origin_jwt_subject : Bool
  pub enable_authz_policy_controller : Bool
  pub components_enabled : Option ComponentEnabled

-- `log.Panicf` on an error
abbrev pub require : {A : Type 0} → Option A → Outcome A
require none = panics
require (some a) = returns a

abbrev pub require_not : Bool → Outcome (Unit {0})
require_not true = panics
require_not false = returns tt

abbrev pub require_ok : {A : Type 0} → Result A → Outcome A
require_ok (err e) = panics
require_ok (ok a) = returns a

module _ {Client Rest Duration : Type 0} (host : Host Client Rest Duration) where
  -- The stale directory is removed; another error than that there is none stops the process.
  abbrev pub remove_directory : FileStat → Outcome (Unit {0})
  remove_directory file_present = require_not host.remove_fails
  remove_directory file_missing = returns tt
  remove_directory stat_error = panics

  -- The directory of dry runs
  unfoldable pub prepare_directory : Bool → Outcome (Unit {0})
  prepare_directory false = returns tt
  prepare_directory true =
      bind (remove_directory host.stat_directory) λ _. require_not host.mkdir_fails

  -- The kubeconfig, which is that of the home directory where the flag is empty and the file exists.
  unfoldable pub kubeconfig_of : Text → Text
  kubeconfig_of kubeconfig =
      if is_empty kubeconfig
      then (if host.has_home_config then host.home_config else kubeconfig)
      else kubeconfig

  -- The list of enabled components, which is read where the controller of policies is enabled.
  unfoldable pub components_of : Bool → Text → Outcome (Option ComponentEnabled)
  components_of false components_list = returns none
  components_of true components_list =
      bind (require_ok (parse_components_enabled_authz_policy components_list))
        λ c. returns (some c)

  -- The clients. The error of the last one, Istio's set of clients, is not tested.
  unfoldable pub make_clients : Flags → Outcome Client
  unfolding kubeconfig_of
  make_clients flags =
      let kubeconfig = kubeconfig_of flags.kubeconfig in
      bind (require (host.new_client kubeconfig flags.dns_suffix)) λ client.
        bind (require (host.build_config kubeconfig)) λ rest.
          bind (require_not (host.k8s_client_fails rest))
            λ _. bind (require_not (host.ad_client_fails rest)) λ _. returns client

  -- `main` up to `NewController`
  unfoldable pub start_up : Flags → Outcome (Started Client Duration)
  unfolding prepare_directory make_clients components_of
  start_up flags = bind (prepare_directory flags.enable_authz_policy_controller) λ _.
      bind (make_clients flags) λ client.
        bind (require (host.parse_duration flags.ad_resync_interval)) λ ad.
          bind (require (host.parse_duration flags.crc_resync_interval)) λ crc.
            bind (require (host.parse_duration flags.ap_resync_interval)) λ ap.
              bind
                (components_of flags.enable_authz_policy_controller flags.authz_policy_enabled_list)
                λ components. returns (record {
                  dns_suffix = flags.dns_suffix;
                  istio_client = client;
                  ad_resync_interval = ad;
                  crc_resync_interval = crc;
                  ap_resync_interval = ap;
                  enable_origin_jwt_subject = flags.enable_origin_jwt_subject;
                  enable_authz_policy_controller = flags.enable_authz_policy_controller;
                  components_enabled = components;
                })
