-- ===== src/Tests/DryRun.antt =====
-- Runs of dry-run changes on files, and where the events on the resources of a domain lead.
use k8s_athenz_istio_auth.Prelude.{
  ◌≡◌, ℕ, refl, sym, subst, ◌∙◌, ◌&&◌, Bool, true, false, List, [], ◌∷◌, ◌++◌, none, some, arith,
}
use k8s_athenz_istio_auth.Prelude.Outcome.{returns}
use k8s_athenz_istio_auth.Prelude.Text.{Text, codes, same, same_refl, contains, split}
use k8s_athenz_istio_auth.Prelude.Keyed.{Keyed, lookup, insert, delete}
use k8s_athenz_istio_auth.Rbac.Config.{
  Config, ConfigMeta, equal, convert_slice_to_keyed_map, Item, event_add, event_delete,
}
use k8s_athenz_istio_auth.Rbac.ChangeList.{compute_change_list}
use k8s_athenz_istio_auth.Rbac.V2.{get_current_istio_rbac}
use k8s_athenz_istio_auth.Rbac.Spec.{Spec, authorization_policy}
use k8s_athenz_istio_auth.Rbac.Components.{ComponentEnabled, is_enabled}
use k8s_athenz_istio_auth.Rbac.DryRun.{
  dry_run_stored_files_directory, create_dryrun_resource, find_delete_dryrun_resource,
  read_convert_to_model_config,
}
use k8s_athenz_istio_auth.Rbac.DryRun.RoundTrip.{IsPolicyMeta}
use k8s_athenz_istio_auth.Policies.{Environment, change_list, check_override_annotation}
use k8s_athenz_istio_auth.Policies.Handlers.{process_config_changes}
use k8s_athenz_istio_auth.Policies.Files.{ClusterCalls, policy_store, policies_in, change_all}
use k8s_athenz_istio_auth.Policies.Files.Refines.{process_config_changes-change_all}
use k8s_athenz_istio_auth.Policies.Files.Settles.{on_files, change_list-settles}
use k8s_athenz_istio_auth.Tests.Files.{
  map_files, map_files-ReadsBack, labelled, label_codec, label_codec-ConvertsBack, join,
}
use k8s_athenz_istio_auth.Tests.Provider.{home_model, collections}
use k8s_athenz_istio_auth.Tests.Policies as Policies

-- A cluster that is never called.
abbrev silent : ClusterCalls ℕ
silent = record {
  create = λ cl c. (cl, none);
  update = λ cl c. (cl, none);
  delete = λ cl name ns. (cl, none);
  get = λ cl name ns. none;
}

abbrev nothing_enabled : ComponentEnabled
nothing_enabled = record { service_map = []; namespace_map = []; cluster = false }

-- The policy of a service, for the pods with a label.
abbrev policy : Text → Text → Config Spec
policy name label = labelled (codes "home", name) (codes "app", label)

abbrev change : Bool → Text → Item Spec
change adds name = record {
  operation = elim adds [ true ↦ event_add | false ↦ event_delete ];
  resource = policy name (codes "web");
  callback_handler = none;
}

-- One policy is written and another is deleted.
abbrev items : List (Item Spec)
items = change true (codes "web") ∷ change false (codes "old") ∷ []

abbrev before : Keyed Text
before = (codes "/root/authzpolicy/home/old.yaml", codes "home/old/app/web") ∷ []

abbrev after : Keyed Text
after = (codes "/root/authzpolicy/home/web.yaml", codes "home/web/app/web") ∷ []

items-run :
    process_config_changes nothing_enabled
      (policy_store silent map_files label_codec dry_run_stored_files_directory)
      (7, before)
      items
    ≡ returns ((7, after), none)
unfolding process_config_changes is_enabled lookup create_dryrun_resource contains same
    find_delete_dryrun_resource insert delete join
items-run = refl

process_config_changes-change_all_example :
    (◌≡◌ {A = ℕ} 7 7)
    × (policies_in silent map_files label_codec dry_run_stored_files_directory after
          (codes "home")
          (codes "old")
        ≡ change_all
            (policies_in silent map_files label_codec dry_run_stored_files_directory before)
            items
            (codes "home")
            (codes "old"))
unfolding is_enabled lookup
process_config_changes-change_all_example =
    process_config_changes-change_all nothing_enabled silent map_files label_codec
      dry_run_stored_files_directory collections.authorization_policies map_files-ReadsBack
      label_codec-ConvertsBack 7 before (7, after) items (codes "home") (codes "old")
      (
        (refl, omega arith, (refl, refl, refl, λ e. cc)),
        ((refl, omega arith, (refl, refl, refl, λ e. cc)), tt),
      )
      (omega arith) items-run

-- Specifications are told apart by the labels of their pods.
abbrev labels_of : Spec → Keyed Text
labels_of (authorization_policy p) = p.match_labels
labels_of _ = []

same_labels : Keyed Text → Keyed Text → Bool
same_labels [] [] = true
same_labels [] (q ∷ qs) = false
same_labels (p ∷ ps) [] = false
same_labels ((k, v) ∷ ps) ((l, w) ∷ qs) = same k l && (same v w && same_labels ps qs)

same_labels_refl : (labels : Keyed Text) → same_labels labels labels ≡ true
unfolding same_labels
same_labels_refl [] = refl
same_labels_refl ((k, v) ∷ labels) = rw (same_refl k, same_refl v, same_labels_refl labels) refl

-- The controller, when nothing is enabled.
abbrev env : Environment
env = record Policies.env {
  api = record {
    key = λ meta. meta.namespace ++ meta.name;
    spec_equal = λ a b. same_labels (labels_of a) (labels_of b);
  };
  components = nothing_enabled;
}

-- The file holds a policy for other pods than those that it is desired for, and is written anew.
abbrev outdated : Keyed Text
outdated = (codes "/root/authzpolicy/home/web.yaml", codes "home/web/app/old") ∷ []

outdated-held :
    policies_in silent map_files label_codec dry_run_stored_files_directory outdated
      (codes "home")
      (codes "web")
    ≡ some (policy (codes "web") (codes "old"))
unfolding read_convert_to_model_config lookup same split
outdated-held = refl

first-run :
    process_config_changes nothing_enabled
      (policy_store silent map_files label_codec dry_run_stored_files_directory)
      (7, outdated)
      (change_list
        (on_files env silent map_files label_codec dry_run_stored_files_directory outdated)
        (codes "home/web")
        home_model
        (codes "web")
        (policy (codes "web") (codes "web") ∷ []))
    ≡ returns ((7, after), none)
unfolding process_config_changes change_list is_enabled lookup create_dryrun_resource contains same
    insert compute_change_list convert_slice_to_keyed_map get_current_istio_rbac
    read_convert_to_model_config split join same_labels equal check_override_annotation
first-run = refl

inside : {A : Type 0} {a b : A} → some a ≡ some b → a ≡ b
inside h = cc

abbrev IsWeb : ConfigMeta → Type 0
IsWeb meta =
    (meta.namespace ≡ codes "home")
    × (meta.name ≡ codes "web")
    × IsPolicyMeta collections.authorization_policies meta

policy-IsWeb : (label : Text) → IsWeb (policy (codes "web") label).meta
policy-IsWeb label = (refl, refl, (refl, refl, refl, λ e. cc))

some-IsWeb :
    (label : Text) (c : Config Spec) → some (policy (codes "web") label) ≡ some c → IsWeb c.meta
some-IsWeb label c h = subst (λ (x : Config Spec). IsWeb x.meta) (inside h) (policy-IsWeb label)

change_list-settles_example :
    change_list
      (on_files env silent map_files label_codec dry_run_stored_files_directory after)
      (codes "home/web")
      home_model
      (codes "web")
      (policy (codes "web") (codes "web") ∷ [])
    ≡ []
unfolding is_enabled lookup
change_list-settles_example =
    change_list-settles env silent map_files label_codec dry_run_stored_files_directory
      map_files-ReadsBack label_codec-ConvertsBack home_model (codes "web") (codes "home/web")
      (some (policy (codes "web") (codes "web"))) refl refl (omega arith)
      (λ x. same_labels_refl (labels_of x)) outdated
      (λ c d h e.
        let (ns, name, _) = some-IsWeb (codes "old") c (sym outdated-held ∙ h) in
        let (ns', name', _) = some-IsWeb (codes "web") d e in rw (ns, name, ns', name') refl)
      (λ c h. some-IsWeb (codes "old") c (sym outdated-held ∙ h))
      (λ d h. some-IsWeb (codes "web") d h) 7 (7, after) first-run
