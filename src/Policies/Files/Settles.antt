-- ===== src/Policies/Files/Settles.antt =====
-- A sync of a service whose policy is not enabled, carried out on the files, leaves nothing for the
-- next sync to do.
use k8s_athenz_istio_auth.Prelude.{
  ◌≡◌, refl, sym, ap, subst, ◌∙◌, true, false, List, [], ◌∷◌, Option, none, some,
}
use k8s_athenz_istio_auth.Prelude.Outcome.{returns, returns_injective}
use k8s_athenz_istio_auth.Prelude.Text.{Text, is_empty, same_refl, Lacks}
use k8s_athenz_istio_auth.Athenz.Model.{Model}
use k8s_athenz_istio_auth.Rbac.Components.{is_enabled}
use k8s_athenz_istio_auth.Rbac.Config.{Config, ConfigMeta, Item, config_key, policy_callback}
use k8s_athenz_istio_auth.Rbac.ChangeList.{emit}
use k8s_athenz_istio_auth.Rbac.ChangeList.Single.{
  one_or_none, left_by, single_change, compute_change_list-single, single_change-LeavesQuiet,
}
use k8s_athenz_istio_auth.Rbac.Spec.{Spec}
use k8s_athenz_istio_auth.Rbac.DryRun.{FileSystem, ObjectCodec}
use k8s_athenz_istio_auth.Rbac.DryRun.RoundTrip.{IsPolicyMeta, ReadsBack, ConvertsBack}
use k8s_athenz_istio_auth.Rbac.V2
use k8s_athenz_istio_auth.Rbac.V2.{get_current_istio_rbac}
use k8s_athenz_istio_auth.Policies.{Environment, change_list, check_override_annotation}
use k8s_athenz_istio_auth.Policies.Handlers.{Answer, process_config_changes}
use k8s_athenz_istio_auth.Policies.Files.{
  ClusterCalls, change_policies, change_all, policy_store, dry_run_files, policies_in,
}
use k8s_athenz_istio_auth.Policies.Files.Refines.{IsDryRun, process_config_changes-change_all}

-- The controller when the files are so.
abbrev pub on_files :
    Environment
    → {Cl Fs Object : Type 0} → ClusterCalls Cl
    → FileSystem Fs
    → ObjectCodec Object
    → Text
    → Fs
    → Environment
on_files env cluster files codec dir fs = record env {
  files = dry_run_files cluster files codec dir fs;
}

module _ (env : Environment) {Cl Fs Object : Type 0} (cluster : ClusterCalls Cl)
    (files : FileSystem Fs) (codec : ObjectCodec Object) (dir : Text) (reads : ReadsBack files)
    (converts : ConvertsBack env.collections.authorization_policies codec) where
  module _ (m : Model) (service_name key : Text) (desired : Option (Config Spec))
      (is_service : is_empty service_name ≡ false)
      (not_enabled : is_enabled env.components service_name m.namespace ≡ false)
      (no_slash : Lacks b'/' m.namespace) where
    -- The policy stands at the place of the service, with the metadata of a policy.
    abbrev pub IsPlaced : ConfigMeta → Type 0
    IsPlaced meta =
        (meta.namespace ≡ m.namespace)
        × (meta.name ≡ service_name)
        × IsPolicyMeta env.collections.authorization_policies meta

    abbrev held : Fs → Option (Config Spec)
    held fs = policies_in cluster files codec dir fs m.namespace service_name

    abbrev changes_on : Fs → List (Item Spec)
    changes_on fs =
        change_list (on_files env cluster files codec dir fs) key m service_name
          (one_or_none desired)

    abbrev only_change : Option (Config Spec) → Option (Item Spec)
    only_change current =
        single_change env.api (some (policy_callback key)) (some check_override_annotation) current
          desired

    same_list : (o : Option (Config Spec)) → V2.one_or_none o ≡ one_or_none o
    same_list none = refl
    same_list (some c) = refl

    changes_on-single :
        (fs : Fs)
        → ((c d : Config Spec)
            → held fs ≡ some c
            → desired ≡ some d
            → config_key env.api c ≡ config_key env.api d)
        → changes_on fs ≡ emit (only_change (held fs)) []
    unfolding change_list get_current_istio_rbac
    changes_on-single fs keyed =
        rw (is_service, not_enabled, same_list (held fs))
          (compute_change_list-single env.api (some (policy_callback key))
            (some check_override_annotation) (held fs) desired keyed)

    -- The change is one of a dry run.
    IsDryRun-change :
        (item : Item Spec)
        → IsPlaced (item.resource).meta
        → IsDryRun env.collections.authorization_policies env.components item
    IsDryRun-change item (ns, name, policy) =
        (rw (ns, name) not_enabled, subst (Lacks b'/') (sym ns) no_slash, policy)

    left_at_place :
        (fs : Fs) (item : Item Spec)
        → IsPlaced (item.resource).meta
        → change_all (policies_in cluster files codec dir fs) (item ∷ []) m.namespace service_name
          ≡ left_by item
    unfolding change_all change_policies
    left_at_place fs item (ns, name, policy) =
        rw (ns, name, same_refl m.namespace, same_refl service_name) refl

    module _ (spec_equal_refl : (x : Spec) → env.api.spec_equal x x ≡ true) (fs : Fs)
        (keyed : (c d : Config Spec)
          → held fs ≡ some c
          → desired ≡ some d
          → config_key env.api c ≡ config_key env.api d)
        (held-IsPlaced : (c : Config Spec) → held fs ≡ some c → IsPlaced c.meta)
        (desired-IsPlaced : (d : Config Spec) → desired ≡ some d → IsPlaced d.meta) where
      after_change :
          (cl : Cl) (store' : Cl × Fs) (change : Option (Item Spec))
          → only_change (held fs) ≡ change
          → process_config_changes env.components
              (policy_store cluster files codec dir)
              (cl, fs)
              (emit change [])
            ≡ returns (store', none)
          → changes_on store'.1 ≡ []
      unfolding emit process_config_changes
      after_change cl store' none e h =
          let stays : ((cl, fs), none) ≡ (store', none) = returns_injective h in
          ap (λ (a : Answer (Cl × Fs)). changes_on a.0.1) (sym stays)
          ∙ changes_on-single fs keyed
          ∙ ap (λ change. emit change []) e
      after_change cl store' (some item) e h =
          let (placed, quiet, keyed') =
            single_change-LeavesQuiet env.api (some (policy_callback key))
              (some check_override_annotation) spec_equal_refl IsPlaced (held fs) desired item keyed
              held-IsPlaced desired-IsPlaced e in
          let (_, after) =
            process_config_changes-change_all env.components cluster files codec dir
              env.collections.authorization_policies reads converts cl fs store' (item ∷ [])
              m.namespace service_name (IsDryRun-change item placed, tt) no_slash h in
          let left = after ∙ left_at_place fs item placed in
          changes_on-single store'.1 (λ c d hc hd. keyed' c d (sym left ∙ hc) hd)
          ∙ ap (λ o. emit (only_change o) []) left
          ∙ ap (λ change. emit change []) quiet

      -- Take a service whose policy is not enabled, in a namespace without a slash; the policy that its
      -- file holds and the one that is desired for it, as far as they are there, have the same key, and
      -- the namespace and name of the service, the type, group and version of the schema, and so a
      -- namespace that is not empty. Where every specification equals itself, the file system reads back
      -- what is written, and the conversions of policies with such metadata are read back, then the
      -- changes of a sync, if no error ends them, leave files for which the change list of the same key
      -- and the same desired policy is empty: a second sync has nothing to do.
      pub change_list-settles :
          (cl : Cl) (store' : Cl × Fs)
          → process_config_changes env.components
              (policy_store cluster files codec dir)
              (cl, fs)
              (changes_on fs)
            ≡ returns (store', none)
          → changes_on store'.1 ≡ []
      change_list-settles cl store' h = after_change cl store' (only_change (held fs)) refl (
          sym (
            ap
              (λ items.
                process_config_changes env.components (policy_store cluster files codec dir)
                  (cl, fs) items)
              (changes_on-single fs keyed))
          ∙ h)
