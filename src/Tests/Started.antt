-- ===== src/Tests/Started.antt =====
-- Examples about the logger and the start of the process.
use k8s_athenz_istio_auth.Prelude.{ℕ, ◌≡◌, ◌↔◌, refl, true, false, some, arith}
use k8s_athenz_istio_auth.Prelude.Outcome.{returns}
use k8s_athenz_istio_auth.Prelude.Text.{Text, codes, same, split, last_index}
use k8s_athenz_istio_auth.Prelude.Keyed.{insert}
use k8s_athenz_istio_auth.Rbac.Components.{parse_components_enabled_authz_policy}
use k8s_athenz_istio_auth.Rbac.DryRun.{file_present}
use k8s_athenz_istio_auth.Log.{file_of, prefix_of, get_caller_info}
use k8s_athenz_istio_auth.Log.Caller.{runtime_name, get_caller_info-runtime_name}
use k8s_athenz_istio_auth.Start.{Flags, default_flags, Host, Started, start_up}
use k8s_athenz_istio_auth.Start.Succeeds.{CanStart, start_up-returns_iff}

get_caller_info-runtime_name_example :
    get_caller_info (
      some (
        codes "/src/pkg/istio/processor/controller.go",
        runtime_name (codes "istio/processor") (some (codes "*Controller")) (codes "sync"),
      ))
    ≡ returns (
        prefix_of
          (codes "istio/processor")
          (file_of (codes "/src/pkg/istio/processor/controller.go"))
          (codes "sync"))
get_caller_info-runtime_name_example =
    get_caller_info-runtime_name (codes "/src/pkg/istio/processor/controller.go")
      (codes "istio/processor") (some (codes "*Controller")) (codes "sync") (omega arith)
      (omega arith) (omega arith)

-- The text of a message's prefix.
prefix_text :
    prefix_of
      (codes "istio/processor")
      (file_of (codes "/src/pkg/istio/processor/controller.go"))
      (codes "sync")
    ≡ codes "[istio/processor/controller.go] [sync]"
unfolding file_of last_index
prefix_text = refl

-- A host on which a stale directory stands, and every client can be made.
abbrev host : Host ℕ ℕ Text
host = record {
  stat_directory = file_present;
  remove_fails = false;
  mkdir_fails = false;
  home_config = codes "/root/.kube/config";
  has_home_config = true;
  new_client = λ kubeconfig dns_suffix. some 1;
  build_config = λ kubeconfig. some 2;
  k8s_client_fails = λ rest. false;
  ad_client_fails = λ rest. false;
  parse_duration = λ text. some text;
}

abbrev flags : Flags
flags = record default_flags { authz_policy_enabled_list = codes "home/web,sports/*" }

start_up-returns_iff_example :
    ((s : Started ℕ Text) × (start_up host flags ≡ returns s)) ↔ CanStart host flags
start_up-returns_iff_example = start_up-returns_iff host flags

-- With these flags the process starts.
starts : (s : Started ℕ Text) × (start_up host flags ≡ returns s)
unfolding start_up parse_components_enabled_authz_policy split same insert
starts = (_, refl)
