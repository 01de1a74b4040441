-- ===== src/Policies/Files.antt =====
-- The store of the authorization policy controller: the cluster's calls and the files of dry runs,
-- which `DryRunHandler` of pkg/istio/rbac/common/util.go writes and `GetCurrentIstioRbac` of
-- pkg/istio/rbac/v2/provider.go reads.
pub mod Refines
pub mod Settles
use k8s_athenz_istio_auth.Prelude.{
  Bool, true, false, ◌&&◌, List, [], ◌∷◌, Option, none, some, if◌then◌else◌,
}
use k8s_athenz_istio_auth.Prelude.Text.{Text, same}
use k8s_athenz_istio_auth.Rbac.Config.{
  Config, Item, event_add, event_update, event_delete, ApiError,
}
use k8s_athenz_istio_auth.Rbac.ChangeList.Single.{left_by}
use k8s_athenz_istio_auth.Rbac.Spec.{Spec}
use k8s_athenz_istio_auth.Rbac.DryRun.{
  FileSystem, ObjectCodec, Written, create_dryrun_resource, find_delete_dryrun_resource,
  read_convert_to_model_config, read_directory_convert_to_model_config,
}
use k8s_athenz_istio_auth.Rbac.V2.{DryRunFiles}
use k8s_athenz_istio_auth.Policies.Handlers.{Answer, PolicyStore}

-- The calls of `model.ConfigStoreCache` on authorization policies.
pub record ClusterCalls (Cl : Type 0) : Type 0 where
  pub create : Cl → Config Spec → Answer Cl
  pub update : Cl → Config Spec → Answer Cl
  pub delete : Cl → Text → Text → Answer Cl
  pub get : Cl → Text → Text → Option (Config Spec)

-- The policies by namespace and service.
abbrev pub Policies : Type 0
Policies = Text → Text → Option (Config Spec)

-- A change of the policies: that of its resource's namespace and name is replaced or taken away.
abbrev pub is_of : Config Spec → Text → Text → Bool
is_of c ns name = same (c.meta).namespace ns && same (c.meta).name name

unfoldable pub change_policies : Policies → Item Spec → Policies
change_policies policies item ns name =
    if is_of item.resource ns name then left_by item else policies ns name

unfoldable pub change_all : Policies → List (Item Spec) → Policies
unfolding change_policies
change_all policies [] = policies
change_all policies (item ∷ items) = change_all (change_policies policies item) items

module _ {Cl Fs Object : Type 0} (cluster : ClusterCalls Cl) (files : FileSystem Fs)
    (codec : ObjectCodec Object) (dir : Text) where
  abbrev in_cluster : Fs → Answer Cl → Answer (Cl × Fs)
  in_cluster fs (cl, error) = ((cl, fs), error)

  abbrev in_files : Cl → Written Fs → Answer (Cl × Fs)
  in_files cl (fs, error) = ((cl, fs), error)

  -- The store on which `ApiHandler` and `DryRunHandler` work.
  abbrev pub policy_store : PolicyStore (Cl × Fs)
  policy_store = record {
    create = λ store c. in_cluster store.1 (cluster.create store.0 c);
    update = λ store c. in_cluster store.1 (cluster.update store.0 c);
    delete = λ store name ns. in_cluster store.1 (cluster.delete store.0 name ns);
    get = λ store name ns. cluster.get store.0 name ns;
    write_file = λ store c. in_files store.0 (create_dryrun_resource files codec dir store.1 c);
    remove_file =
        λ store c. in_files store.0 (find_delete_dryrun_resource files codec dir store.1 c);
  }

  -- What the provider reads in the directory.
  abbrev pub dry_run_files : Fs → DryRunFiles
  dry_run_files fs = record {
    read_directory = λ ns. (read_directory_convert_to_model_config files codec dir fs ns).0;
    read_config = λ name ns. read_convert_to_model_config files codec dir fs name ns;
  }

  -- The policies in the files.
  abbrev pub policies_in : Fs → Policies
  policies_in fs ns name = read_convert_to_model_config files codec dir fs name ns
