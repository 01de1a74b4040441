-- ===== src/Rbac/DryRun.antt =====
-- The files of dry runs, of pkg/istio/rbac/common/util.go: what `DryRunHandler` writes and removes,
-- and how the policies are read back.
pub mod Paths
pub mod RoundTrip
use k8s_athenz_istio_auth.Prelude.{Bool, true, false, List, [], ◌∷◌, ◌++◌, Option, none, some}
use k8s_athenz_istio_auth.Prelude.Text.{Text, codes, trim_suffix}
use k8s_athenz_istio_auth.Rbac.Config.{Config, Item, ApiError, other_error}
use k8s_athenz_istio_auth.Rbac.Spec.{Spec}

-- `os.Stat`: the file is there, it does not exist, or another error.
pub data FileStat : Type 0 where
  file_present file_missing stat_error : FileStat

-- The calls of packages os and ioutil. A call that writes answers the files after it, and whether it
-- failed; a call that reads answers nothing where it failed.
pub record FileSystem (Fs : Type 0) : Type 0 where
  pub stat : Fs → Text → FileStat
  pub mkdir_all : Fs → Text → Fs × Bool
  pub write_file : Fs → Text → Text → Fs × Bool
  pub remove : Fs → Text → Fs × Bool
  pub read_file : Fs → Text → Option Text
  pub read_dir : Fs → Text → Option (List Text)

-- Istio's `crd.ConvertConfig` and `crd.ConvertObject` for the schema of authorization policies, and
-- `yaml.Marshal` and `yaml.Unmarshal` of its objects; an error is no answer.
pub record ObjectCodec (Object : Type 0) : Type 0 where
  pub convert_config : Config Spec → Option Object
  pub convert_object : Object → Option (Config Spec)
  pub marshal : Object → Option Text
  pub unmarshal : Text → Option Object

-- `DryRunStoredFilesDirectory`
abbrev pub dry_run_stored_files_directory : Text
dry_run_stored_files_directory = codes "/root/authzpolicy/"

-- The path of the file of a policy, below the directory.
pub yaml_path : Text → Text → Text
yaml_path ns name = ns ++ (codes "/" ++ (name ++ codes ".yaml"))

-- The files, and the error that a handler returns.
abbrev pub Written : Type 0 → Type 0
Written Fs = Fs × Option ApiError

abbrev pub written : {Fs : Type 0} → Fs × Bool → Written Fs
written (fs, failed) = (fs, elim failed [ true ↦ some other_error | false ↦ none ])

module _ {Fs Object : Type 0} (files : FileSystem Fs) (codec : ObjectCodec Object)
    (local_dir_path : Text) where
  -- The conversion of a policy to an object and then to the text of its file.
  pub marshal_object : Option Object → Option Text
  marshal_object none = none
  marshal_object (some object) = codec.marshal object

  -- `createDryrunResource` where the directory is there.
  pub write_under : Fs × Bool → Text → Text → Written Fs
  write_under (fs, true) path bytes = (fs, some other_error)
  write_under (fs, false) path bytes = written (files.write_file fs path bytes)

  -- The directory of a namespace, which is made if it does not exist.
  pub ensure_directory : Fs → Text → FileStat → Fs × Bool
  ensure_directory fs dir file_missing = files.mkdir_all fs dir
  ensure_directory fs dir file_present = (fs, false)
  ensure_directory fs dir stat_error = (fs, false)

  -- `createDryrunResource` from the bytes of the file on
  pub write_config : Fs → Config Spec → Option Text → Written Fs
  unfolding write_under ensure_directory yaml_path
  write_config fs c none = (fs, some other_error)
  write_config fs c (some bytes) =
      write_under
        (ensure_directory fs (local_dir_path ++ (c.meta).namespace)
          (files.stat fs (local_dir_path ++ (c.meta).namespace)))
        (local_dir_path ++ yaml_path (c.meta).namespace (c.meta).name) bytes

  -- `createDryrunResource`
  unfoldable pub create_dryrun_resource : Fs → Config Spec → Written Fs
  unfolding write_config marshal_object
  create_dryrun_resource fs c = write_config fs c (marshal_object (codec.convert_config c))

  -- `findDeleteDryrunResource` from the answer of `os.Stat` on
  pub remove_found : Fs → Text → FileStat → Written Fs
  remove_found fs path file_missing = (fs, none)
  remove_found fs path stat_error = (fs, some other_error)
  remove_found fs path file_present = written (files.remove fs path)

  -- `findDeleteDryrunResource`
  unfoldable pub find_delete_dryrun_resource : Fs → Config Spec → Written Fs
  unfolding remove_found yaml_path
  find_delete_dryrun_resource fs c =
      let path = local_dir_path ++ yaml_path (c.meta).namespace (c.meta).name in
      remove_found fs path (files.stat fs path)

  pub config_of_object : Option Object → Option (Config Spec)
  config_of_object none = none
  config_of_object (some object) = codec.convert_object object

  pub config_of_bytes : Option Text → Option (Config Spec)
  unfolding config_of_object
  config_of_bytes none = none
  config_of_bytes (some bytes) = config_of_object (codec.unmarshal bytes)

  -- `ReadConvertToModelConfig`
  unfoldable pub read_convert_to_model_config : Fs → Text → Text → Option (Config Spec)
  unfolding config_of_bytes yaml_path
  read_convert_to_model_config fs service_name ns =
      config_of_bytes (files.read_file fs (local_dir_path ++ yaml_path ns service_name))

  -- The loop of `ReadDirectoryConvertToModelConfig`, which the first error ends: the policies so
  -- far, and whether there was an error.
  pub read_configs : Fs → Text → List Text → List (Config Spec) × Bool
  unfolding read_convert_to_model_config
  read_configs fs ns [] = ([], false)
  read_configs fs ns (name ∷ names) =
      let rest = read_configs fs ns names in
      elim (read_convert_to_model_config fs (trim_suffix name (codes ".yaml")) ns) [
        | none ↦ ([], true)
        | some config ↦ (config ∷ rest.0, rest.1)
      ]

  -- `ReadDirectoryConvertToModelConfig` from the listing of the directory on
  pub read_listed : Fs → Text → Option (List Text) → List (Config Spec) × Bool
  unfolding read_configs
  read_listed fs ns none = ([], true)
  read_listed fs ns (some names) = read_configs fs ns names

  -- `ReadDirectoryConvertToModelConfig`
  unfoldable pub read_directory_convert_to_model_config : Fs → Text → List (Config Spec) × Bool
  unfolding read_listed
  read_directory_convert_to_model_config fs ns =
      read_listed fs ns (files.read_dir fs (local_dir_path ++ (ns ++ codes "/")))
