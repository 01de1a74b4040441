-- ===== src/Start/Succeeds.antt =====
-- When the process starts, and with which services enabled.
use k8s_athenz_istio_auth.Prelude.{
  ◌≡◌, ◌≢◌, ◌↔◌, refl, Bool, true, false, Option, none, some, arith,
}
use k8s_athenz_istio_auth.Prelude.Outcome.{Result, ok, err, returns, bind-eq_returns}
use k8s_athenz_istio_auth.Prelude.Text.{Text}
use k8s_athenz_istio_auth.Rbac.Components.{ComponentEnabled, parse_components_enabled_authz_policy}
use k8s_athenz_istio_auth.Rbac.DryRun.{FileStat, file_present, file_missing, stat_error}
use k8s_athenz_istio_auth.Start.{
  Flags, Host, Started, require, require_not, require_ok, remove_directory, prepare_directory,
  kubeconfig_of, components_of, make_clients, start_up,
}

module _ {Client Rest Duration : Type 0} (host : Host Client Rest Duration) (flags : Flags) where
  -- The directory of dry runs can be made: its state is known, what stands there can be removed.
  pub record HasDirectory : Type 0 where
    pub is_known : host.stat_directory ≢ stat_error
    pub is_removed : host.stat_directory ≡ file_present → host.remove_fails ≡ false
    pub is_made : host.mkdir_fails ≡ false

  -- What the process needs to start.
  pub record CanStart : Type 0 where
    pub client : Client
    pub rest : Rest
    pub ad : Duration
    pub crc : Duration
    pub ap : Duration
    pub directory : flags.enable_authz_policy_controller ≡ true → HasDirectory
    pub has_client :
        host.new_client (kubeconfig_of host flags.kubeconfig) flags.dns_suffix ≡ some client
    pub has_rest : host.build_config (kubeconfig_of host flags.kubeconfig) ≡ some rest
    pub has_k8s : host.k8s_client_fails rest ≡ false
    pub has_ad_client : host.ad_client_fails rest ≡ false
    pub has_ad : host.parse_duration flags.ad_resync_interval ≡ some ad
    pub has_crc : host.parse_duration flags.crc_resync_interval ≡ some crc
    pub has_ap : host.parse_duration flags.ap_resync_interval ≡ some ap
    pub components :
        flags.enable_authz_policy_controller ≡ true
        → (c : ComponentEnabled) × (parse_components_enabled_authz_policy
              flags.authz_policy_enabled_list
            ≡ ok c)

  require_sound : {A : Type 0} (o : Option A) (a : A) → require o ≡ returns a → o ≡ some a
  require_sound none a h = cc
  require_sound (some b) a h = cc

  require_not_sound : (b : Bool) (u : Unit {0}) → require_not b ≡ returns u → b ≡ false
  require_not_sound true u h = cc
  require_not_sound false u h = refl

  remove_directory_sound :
      (s : FileStat) (u : Unit {0})
      → remove_directory host s ≡ returns u
      → (s ≢ stat_error) × (s ≡ file_present → host.remove_fails ≡ false)
  remove_directory_sound file_present u h =
      (λ e. ground arith, λ e. require_not_sound host.remove_fails u h)
  remove_directory_sound file_missing u h = (λ e. ground arith, λ e. ground arith)
  remove_directory_sound stat_error u h = cc

  prepare_directory_sound :
      (enabled : Bool) (u : Unit {0})
      → prepare_directory host enabled ≡ returns u
      → enabled ≡ true
      → HasDirectory
  unfolding prepare_directory
  prepare_directory_sound false u h e = ground arith
  prepare_directory_sound true u h e =
      let (v, h1, h2) = bind-eq_returns (remove_directory host host.stat_directory) _ h in
      let (known, removed) = remove_directory_sound host.stat_directory v h1 in
      record {
        is_known = known;
        is_removed = removed;
        is_made = require_not_sound host.mkdir_fails u h2;
      }

  components_of_sound :
      (enabled : Bool) (components_list : Text) (o : Option ComponentEnabled)
      → components_of host enabled components_list ≡ returns o
      → enabled ≡ true
      → (c : ComponentEnabled) × (parse_components_enabled_authz_policy components_list ≡ ok c)
  unfolding components_of
  components_of_sound false components_list o h e = ground arith
  components_of_sound true components_list o h e =
      let (c, h1, h2) =
        bind-eq_returns (require_ok (parse_components_enabled_authz_policy components_list)) _ h in
      (c, ok_sound (parse_components_enabled_authz_policy components_list) c h1)
    where
      ok_sound :
          (r : Result ComponentEnabled) (c : ComponentEnabled) → require_ok r ≡ returns c → r ≡ ok c
      ok_sound (ok d) c h = cc
      ok_sound (err e) c h = cc

  starts_sound : (s : Started Client Duration) → start_up host flags ≡ returns s → CanStart
  unfolding start_up make_clients
  starts_sound s h =
      let (u, hd, h1) =
        bind-eq_returns (prepare_directory host flags.enable_authz_policy_controller) _ h in
      let (client, hc, h2) = bind-eq_returns (make_clients host flags) _ h1 in
      let kubeconfig = kubeconfig_of host flags.kubeconfig in
      let (client', hn, c1) =
        bind-eq_returns (require (host.new_client kubeconfig flags.dns_suffix)) _ hc in
      let (rest, hr, c2) = bind-eq_returns (require (host.build_config kubeconfig)) _ c1 in
      let (k, hk, c3) = bind-eq_returns (require_not (host.k8s_client_fails rest)) _ c2 in
      let (a, ha, c4) = bind-eq_returns (require_not (host.ad_client_fails rest)) _ c3 in
      let (ad, had, h3) =
        bind-eq_returns (require (host.parse_duration flags.ad_resync_interval)) _ h2 in
      let (crc, hcrc, h4) =
        bind-eq_returns (require (host.parse_duration flags.crc_resync_interval)) _ h3 in
      let (ap', hap, h5) =
        bind-eq_returns (require (host.parse_duration flags.ap_resync_interval)) _ h4 in
      let (cs, hcs, h6) =
        bind-eq_returns
          (components_of host flags.enable_authz_policy_controller flags.authz_policy_enabled_list)
          _ h5 in
      record {
        client = client';
        rest = rest;
        ad = ad;
        crc = crc;
        ap = ap';
        directory = prepare_directory_sound flags.enable_authz_policy_controller u hd;
        has_client = require_sound (host.new_client kubeconfig flags.dns_suffix) client' hn;
        has_rest = require_sound (host.build_config kubeconfig) rest hr;
        has_k8s = require_not_sound (host.k8s_client_fails rest) k hk;
        has_ad_client = require_not_sound (host.ad_client_fails rest) a ha;
        has_ad = require_sound (host.parse_duration flags.ad_resync_interval) ad had;
        has_crc = require_sound (host.parse_duration flags.crc_resync_interval) crc hcrc;
        has_ap = require_sound (host.parse_duration flags.ap_resync_interval) ap' hap;
        components =
            components_of_sound flags.enable_authz_policy_controller flags.authz_policy_enabled_list
              cs hcs;
      }

  remove_directory_total :
      (s : FileStat)
      → s ≢ stat_error
      → (s ≡ file_present → host.remove_fails ≡ false)
      → remove_directory host s ≡ returns tt
  remove_directory_total file_present known removed = rw (removed refl) refl
  remove_directory_total file_missing known removed = refl
  remove_directory_total stat_error known removed = absurd (known refl)

  prepare_directory_total :
      (enabled : Bool)
      → (enabled ≡ true → HasDirectory)
      → prepare_directory host enabled ≡ returns tt
  unfolding prepare_directory
  prepare_directory_total false has = refl
  prepare_directory_total true has =
      let d = has refl in
      rw (remove_directory_total host.stat_directory d.is_known d.is_removed, d.is_made) refl

  components_of_total :
      (enabled : Bool) (components_list : Text)
      → (enabled ≡ true
          → (c : ComponentEnabled) × (parse_components_enabled_authz_policy components_list ≡ ok c))
      → (o : Option ComponentEnabled) × (components_of host enabled components_list ≡ returns o)
  unfolding components_of
  components_of_total false components_list has = (none, refl)
  components_of_total true components_list has = let (c, h) = has refl in (some c, rw h refl)

  make_clients_total : (c : CanStart) → make_clients host flags ≡ returns c.client
  unfolding make_clients
  make_clients_total c = rw (c.has_client, c.has_rest, c.has_k8s, c.has_ad_client) refl

  starts_total : CanStart → (s : Started Client Duration) × (start_up host flags ≡ returns s)
  unfolding start_up
  starts_total c =
      let (o, ho) =
        components_of_total flags.enable_authz_policy_controller flags.authz_policy_enabled_list
          c.components in
      let started : Started Client Duration = record {
        dns_suffix = flags.dns_suffix;
        istio_client = c.client;
        ad_resync_interval = c.ad;
        crc_resync_interval = c.crc;
        ap_resync_interval = c.ap;
        enable_origin_jwt_subject = flags.enable_origin_jwt_subject;
        enable_authz_policy_controller = flags.enable_authz_policy_controller;
        components_enabled = o;
      } in
      (
        started,
        rw
            (
              prepare_directory_total flags.enable_authz_policy_controller c.directory,
              make_clients_total c,
              c.has_ad,
              c.has_crc,
              c.has_ap,
              ho,
            )
            refl,
      )

  -- The process gets as far as its controllers exactly when the clients can be made and the three
  -- intervals are durations and, where the controller of policies is enabled, the directory of dry
  -- runs can be made anew and the list of enabled components is accepted. In every other case it
  -- panics.
  pub start_up-returns_iff :
      ((s : Started Client Duration) × (start_up host flags ≡ returns s)) ↔ CanStart
  start_up-returns_iff = (λ h. starts_sound h.0 h.1, starts_total)
