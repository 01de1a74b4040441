-- ===== src/Rbac/DryRun/RoundTrip.antt =====
-- What the files hold after `createDryrunResource` and `findDeleteDryrunResource`.
use k8s_athenz_istio_auth.Prelude.{
  ◌≡◌, ◌≢◌, refl, [], Bool, true, false, ◌&&◌, ◌++◌, Option, none, some, arith, inl, inr,
  Bool-cases, if◌then◌else◌,
}
use k8s_athenz_istio_auth.Prelude.Text.{Text, same, same_iff, Lacks}
use k8s_athenz_istio_auth.Rbac.Config.{Config, ConfigMeta}
use k8s_athenz_istio_auth.Rbac.Istio.{Schema}
use k8s_athenz_istio_auth.Rbac.Spec.{Spec}
use k8s_athenz_istio_auth.Rbac.DryRun.{
  FileStat, file_present, file_missing, stat_error, FileSystem, ObjectCodec, written, yaml_path,
  marshal_object, write_under, ensure_directory, write_config, create_dryrun_resource, remove_found,
  find_delete_dryrun_resource, config_of_object, config_of_bytes, read_convert_to_model_config,
}
use k8s_athenz_istio_auth.Rbac.DryRun.Paths.{yaml_path_injective}

-- What the program relies on of the file system: a file that has been written or removed without an
-- error is read so, other files are left alone, making a directory changes no file, and a file that
-- does not exist is not read.
pub record ReadsBack {Fs : Type 0} (files : FileSystem Fs) : Type 0 where
  pub writes :
      (fs fs' : Fs) (path bytes q : Text)
      → files.write_file fs path bytes ≡ (fs', false)
      → files.read_file fs' q ≡ (if same path q then some bytes else files.read_file fs q)
  pub makes :
      (fs : Fs) (dir q : Text) → files.read_file (files.mkdir_all fs dir).0 q ≡ files.read_file fs q
  pub removes :
      (fs fs' : Fs) (path q : Text)
      → files.remove fs path ≡ (fs', false)
      → files.read_file fs' q ≡ (if same path q then none else files.read_file fs q)
  pub missing :
      (fs : Fs) (path : Text) → files.stat fs path ≡ file_missing → files.read_file fs path ≡ none

-- The metadata of a policy: the type, group and version of the schema, and a namespace.
abbrev pub IsPolicyMeta : Schema → ConfigMeta → Type 0
IsPolicyMeta schema meta =
    (meta.type ≡ schema.kind)
    × (meta.group ≡ schema.group)
    × (meta.version ≡ schema.version)
    × (meta.namespace ≢ [])

-- What it relies on of the conversions: the object of a policy with such metadata is converted back
-- into the policy, and the text of an object is read back as the object.
pub record ConvertsBack (schema : Schema) {Object : Type 0} (codec : ObjectCodec Object)
    : Type 0 where
  pub objects :
      (c : Config Spec) (object : Object)
      → IsPolicyMeta schema c.meta
      → codec.convert_config c ≡ some object
      → codec.convert_object object ≡ some c
  pub texts :
      (object : Object) (bytes : Text)
      → codec.marshal object ≡ some bytes
      → codec.unmarshal bytes ≡ some object

module _ {Fs Object : Type 0} (files : FileSystem Fs) (codec : ObjectCodec Object) (dir : Text)
    (schema : Schema) (reads : ReadsBack files) (converts : ConvertsBack schema codec) where
  read_marshalled :
      (c : Config Spec) (o : Option Object) (bytes : Text)
      → IsPolicyMeta schema c.meta
      → codec.convert_config c ≡ o
      → marshal_object files codec dir o ≡ some bytes
      → config_of_bytes files codec dir (some bytes) ≡ some c
  unfolding marshal_object config_of_bytes config_of_object
  read_marshalled c none bytes p e h = cc
  read_marshalled c (some object) bytes p e h =
      rw (converts.texts object bytes h) (converts.objects c object p e)

  ensure_directory_keeps :
      (fs : Fs) (d : Text) (found : FileStat) (q : Text)
      → files.read_file (ensure_directory files codec dir fs d found).0 q ≡ files.read_file fs q
  unfolding ensure_directory
  ensure_directory_keeps fs d file_missing q = reads.makes fs d q
  ensure_directory_keeps fs d file_present q = refl
  ensure_directory_keeps fs d stat_error q = refl

  written_sound : {fs' : Fs} (w : Fs × Bool) → written w ≡ (fs', none) → w ≡ (fs', false)
  written_sound (fs, true) h = ground arith
  written_sound (fs, false) h = ground arith

  write_under_reads :
      (made : Fs × Bool) (fs' : Fs) (path bytes q : Text)
      → write_under files codec dir made path bytes ≡ (fs', none)
      → files.read_file fs' q ≡ (if same path q then some bytes else files.read_file made.0 q)
  unfolding write_under
  write_under_reads (fs, true) fs' path bytes q h = ground arith
  write_under_reads (fs, false) fs' path bytes q h =
      reads.writes fs fs' path bytes q (written_sound (files.write_file fs path bytes) h)

  module _ (fs fs' : Fs) (c : Config Spec) (ns name : Text)
      (no_slash : Lacks b'/' (c.meta).namespace) (no_slash' : Lacks b'/' ns) where
    -- Whether the file of a service is that of the policy.
    abbrev pub is_file_of : Bool
    is_file_of = same (c.meta).namespace ns && same (c.meta).name name

    same_path :
        same (dir ++ yaml_path (c.meta).namespace (c.meta).name) (dir ++ yaml_path ns name)
        ≡ is_file_of
    same_path = ground (
      arith,
      same_iff (dir ++ yaml_path (c.meta).namespace (c.meta).name) (dir ++ yaml_path ns name),
      same_iff (c.meta).namespace ns,
      same_iff (c.meta).name name,
      yaml_path_injective dir (c.meta).namespace ns (c.meta).name name no_slash no_slash',
    )

    write_config_reads :
        (o : Option Text)
        → IsPolicyMeta schema c.meta
        → marshal_object files codec dir (codec.convert_config c) ≡ o
        → write_config files codec dir fs c o ≡ (fs', none)
        → read_convert_to_model_config files codec dir fs' name ns
          ≡ (if is_file_of then some c else read_convert_to_model_config files codec dir fs name ns)
    unfolding write_config read_convert_to_model_config
    write_config_reads none p e h = ground arith
    write_config_reads (some bytes) p e h =
        let path = dir ++ yaml_path (c.meta).namespace (c.meta).name in
        let made =
          ensure_directory files codec dir fs (dir ++ (c.meta).namespace)
            (files.stat fs (dir ++ (c.meta).namespace)) in
        let found = write_under_reads made fs' path bytes (dir ++ yaml_path ns name) h in
        let kept =
          ensure_directory_keeps fs (dir ++ (c.meta).namespace)
            (files.stat fs (dir ++ (c.meta).namespace)) (dir ++ yaml_path ns name) in
        rw (found, kept, same_path)
          (elim (Bool-cases is_file_of) [
            | inl is_file ↦ rw is_file (read_marshalled c (codec.convert_config c) bytes p refl e)
            | inr other ↦ rw other refl
          ])

    -- A policy that has been written without an error is read back for its service, and the files
    -- of other services are read as before.
    pub read-create :
        IsPolicyMeta schema c.meta
        → create_dryrun_resource files codec dir fs c ≡ (fs', none)
        → read_convert_to_model_config files codec dir fs' name ns
          ≡ (if is_file_of then some c else read_convert_to_model_config files codec dir fs name ns)
    unfolding create_dryrun_resource
    read-create p h =
        write_config_reads (marshal_object files codec dir (codec.convert_config c)) p refl h

    remove_found_reads :
        (found : FileStat)
        → files.stat fs (dir ++ yaml_path (c.meta).namespace (c.meta).name) ≡ found
        → remove_found files codec dir fs (dir ++ yaml_path (c.meta).namespace (c.meta).name) found
          ≡ (fs', none)
        → (q : Text)
        → files.read_file fs' q ≡ (
            if same (dir ++ yaml_path (c.meta).namespace (c.meta).name) q
            then none
            else files.read_file fs q)
    unfolding remove_found
    remove_found_reads file_present e h q =
        let path = dir ++ yaml_path (c.meta).namespace (c.meta).name in
        reads.removes fs fs' path q (written_sound (files.remove fs path) h)
    remove_found_reads stat_error e h q = ground arith
    remove_found_reads file_missing e h q =
        let path = dir ++ yaml_path (c.meta).namespace (c.meta).name in
        ground (arith, reads.missing fs path e, same_iff path q)

    -- The file of a policy that has been deleted without an error is no longer read, and the files
    -- of other services are read as before.
    pub read-delete :
        find_delete_dryrun_resource files codec dir fs c ≡ (fs', none)
        → read_convert_to_model_config files codec dir fs' name ns
          ≡ (if is_file_of then none else read_convert_to_model_config files codec dir fs name ns)
    unfolding find_delete_dryrun_resource read_convert_to_model_config config_of_bytes
    read-delete h =
        let path = dir ++ yaml_path (c.meta).namespace (c.meta).name in
        let found = remove_found_reads (files.stat fs path) refl h (dir ++ yaml_path ns name) in
        rw (found, same_path)
          (elim (Bool-cases is_file_of) [
            | inl is_file ↦ rw is_file refl
            | inr other ↦ rw other refl
          ])
