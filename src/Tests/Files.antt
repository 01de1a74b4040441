-- ===== src/Tests/Files.antt =====
-- Examples about the files of dry runs: a file system and a format for which what the program relies
-- on holds, and runs of the handlers on them.
use k8s_athenz_istio_auth.Prelude.{
  ◌≡◌, refl, sym, ap, ◌∙◌, Bool, true, false, List, [], ◌∷◌, ◌++◌, Option, none, some, arith, inl,
  inr, Bool-cases, Option-cases,
}
use k8s_athenz_istio_auth.Prelude.Text.{
  Text, codes, contains, split, split-append, split-Lacks, contains-Lacks,
}
use k8s_athenz_istio_auth.Prelude.Keyed.{
  Keyed, lookup, insert, delete, lookup-insert, lookup-delete,
}
use k8s_athenz_istio_auth.Rbac.Config.{Config}
use k8s_athenz_istio_auth.Rbac.Spec.{
  Spec, Rule, authorization_policy, service_role, service_role_binding, cluster_rbac_config,
  foreign_spec,
}
use k8s_athenz_istio_auth.Rbac.DryRun.{
  FileStat, file_present, file_missing, FileSystem, ObjectCodec,
}
use k8s_athenz_istio_auth.Rbac.DryRun.RoundTrip.{IsPolicyMeta, ReadsBack, ConvertsBack}
use k8s_athenz_istio_auth.Tests.Provider.{collections}

-- Files as a map from paths to texts. Directories need not be made.
abbrev stat_of : Option Text → FileStat
stat_of none = file_missing
stat_of (some bytes) = file_present

abbrev pub map_files : FileSystem (Keyed Text)
map_files = record {
  stat = λ fs path. stat_of (lookup fs path);
  mkdir_all = λ fs path. (fs, false);
  write_file = λ fs path bytes. (insert fs path bytes, false);
  remove = λ fs path. (delete fs path, false);
  read_file = lookup;
  read_dir = λ fs path. some [];
}

stat_missing : (o : Option Text) → stat_of o ≡ file_missing → o ≡ none
stat_missing none h = refl
stat_missing (some bytes) h = ground arith

pub map_files-ReadsBack : ReadsBack map_files
map_files-ReadsBack = record {
  writes = λ fs fs' path bytes q h.
      ap (λ (w : Keyed Text × Bool). lookup w.0 q) (sym h) ∙ lookup-insert fs path q bytes;
  makes = λ fs path q. refl;
  removes = λ fs fs' path q h.
      ap (λ (w : Keyed Text × Bool). lookup w.0 q) (sym h) ∙ lookup-delete fs path q;
  missing = λ fs path h. stat_missing (lookup fs path) h;
}

-- A format for policies without rules, resource version and annotations, which select pods by one
-- label: the namespace, the name and the label, with slashes between them.
abbrev one_label : Keyed Text → List Rule → Option (Text × Text)
one_label ((k, l) ∷ []) [] = some (k, l)
one_label _ _ = none

abbrev label_in : Spec → Option (Text × Text)
label_in (authorization_policy p) = one_label p.match_labels p.rules
label_in _ = none

abbrev Parts : Type 0
Parts = (Text × Text) × (Text × Text)

abbrev parts_of : Text → Keyed Text → Text → Text → Option (Text × Text) → Option Parts
parts_of [] [] ns name (some label) = some ((ns, name), label)
parts_of _ _ ns name _ = none

abbrev pub labelled : Text × Text → Text × Text → Config Spec
labelled (ns, name) (k, l) = record {
  meta = record {
    type = codes "AuthorizationPolicy";
    group = codes "rbac.istio.io";
    version = codes "v1alpha1";
    namespace = ns;
    name = name;
    resource_version = [];
    annotations = [];
  };
  spec = authorization_policy (record { match_labels = (k, l) ∷ []; rules = [] });
}

abbrev onto : Bool → Text → Option Text → Option Text
onto true part rest = none
onto false part none = none
onto false part (some rest) = some (part ++ (b'/' ∷ rest))

abbrev last_part : Bool → Text → Option Text
last_part true part = none
last_part false part = some part

-- The parts with slashes between them, if none has one.
unfoldable pub join : Text → List Text → Option Text
join part [] = last_part (contains part b'/') part
join part (next ∷ parts) = onto (contains part b'/') part (join next parts)

abbrev parts_in : List Text → Option Parts
parts_in (ns ∷ name ∷ k ∷ l ∷ []) = some ((ns, name), (k, l))
parts_in _ = none

abbrev pub label_codec : ObjectCodec Parts
label_codec = record {
  convert_config = λ c.
      parts_of (c.meta).resource_version (c.meta).annotations (c.meta).namespace (c.meta).name
        (label_in c.spec);
  convert_object = λ parts. some (labelled parts.0 parts.1);
  marshal = λ ((ns, name), (k, l)). join ns (name ∷ k ∷ l ∷ []);
  unmarshal = λ bytes. parts_in (split bytes b'/');
}

inside : {A : Type 0} {a b : A} → some a ≡ some b → a ≡ b
inside h = cc

one_label_sound :
    (labels : Keyed Text) (rules : List Rule) (label : Text × Text)
    → one_label labels rules ≡ some label
    → (labels ≡ label ∷ []) × (rules ≡ [])
one_label_sound ((k, l) ∷ []) [] label h = (ap (λ p. p ∷ []) (inside h), refl)
one_label_sound [] rules label h = cc
one_label_sound (p ∷ q ∷ labels) rules label h = cc
one_label_sound (p ∷ []) (r ∷ rules) label h = cc

label_in_sound :
    (spec : Spec) (label : Text × Text)
    → label_in spec ≡ some label
    → authorization_policy (record { match_labels = label ∷ []; rules = [] }) ≡ spec
label_in_sound (authorization_policy p) label h =
    let (e, f) = one_label_sound p.match_labels p.rules label h in cc (e, f)
label_in_sound (service_role r) label h = cc
label_in_sound (service_role_binding r) label h = cc
label_in_sound (cluster_rbac_config r) label h = cc
label_in_sound foreign_spec label h = cc

parts_of_sound :
    (rv : Text) (annotations : Keyed Text) (ns name : Text) (o : Option (Text × Text))
    (parts : Parts)
    → parts_of rv annotations ns name o ≡ some parts
    → (rv ≡ []) × (annotations ≡ []) × (parts.0 ≡ (ns, name)) × (o ≡ some parts.1)
parts_of_sound [] [] ns name (some label) parts h =
    (refl, refl, ap (λ (p : Parts). p.0) (sym (inside h)), ap (λ (p : Parts). some p.1) (inside h))
parts_of_sound (c ∷ rv) annotations ns name o parts h = cc
parts_of_sound [] (a ∷ annotations) ns name o parts h = cc
parts_of_sound [] [] ns name none parts h = cc

labelled_sound :
    (c : Config Spec) (parts : Parts)
    → IsPolicyMeta collections.authorization_policies c.meta
    → label_codec.convert_config c ≡ some parts
    → labelled parts.0 parts.1 ≡ c
labelled_sound c parts (type, group, version, nonempty) h =
    let (rv, annotations, place, label) =
      parts_of_sound (c.meta).resource_version (c.meta).annotations (c.meta).namespace (c.meta).name
        (label_in c.spec) parts h in
    let spec = label_in_sound c.spec parts.1 label in
    cc (type, group, version, rv, annotations, place, spec)

join-split :
    (part : Text) (parts : List Text) (bytes : Text)
    → join part parts ≡ some bytes
    → split bytes b'/' ≡ part ∷ parts
unfolding join
join-split part [] bytes h = elim (Bool-cases (contains part b'/')) [
  | inl e ↦ ground (arith, e)
  | inr e ↦
      let made : part ≡ bytes = ground (arith, e, h) in
      rw (← made) (split-Lacks part b'/' (contains-Lacks part b'/' e))
]
join-split part (next ∷ parts) bytes h = elim (Bool-cases (contains part b'/')) [
  | inl e ↦ ground (arith, e)
  | inr e ↦ elim (Option-cases (join next parts)) [
    | inl n ↦ ground (arith, e, n)
    | inr (rest, n) ↦
        let made : part ++ (b'/' ∷ rest) ≡ bytes = ground (arith, e, n, h) in
        rw (← made) (
          split-append part b'/' rest (contains-Lacks part b'/' e)
          ∙ ap (λ ps. part ∷ ps) (join-split next parts rest n))
  ]
]

pub label_codec-ConvertsBack : ConvertsBack collections.authorization_policies label_codec
label_codec-ConvertsBack = record {
  objects = λ c parts p h. ap (λ (x : Config Spec). some x) (labelled_sound c parts p h);
  texts = λ ((ns, name), (k, l)) bytes h. ap parts_in (join-split ns (name ∷ k ∷ l ∷ []) bytes h);
}
