-- ===== src/Policies/Files/Refines.antt =====
-- Changes of policies that are not enabled, carried out on the files.
use k8s_athenz_istio_auth.Prelude.{
  ◌≡◌, refl, sym, ap, ◌∙◌, false, List, [], ◌∷◌, Option, none, some, All, arith, if◌then◌else◌,
}
use k8s_athenz_istio_auth.Prelude.Outcome.{returns, bind-eq_returns, returns_injective}
use k8s_athenz_istio_auth.Prelude.Text.{Text, Lacks}
use k8s_athenz_istio_auth.Rbac.Components.{ComponentEnabled, is_enabled}
use k8s_athenz_istio_auth.Rbac.Config.{
  Config, Item, Event, OnComplete, event_add, event_update, event_delete, ApiError,
}
use k8s_athenz_istio_auth.Rbac.ChangeList.Single.{left_by}
use k8s_athenz_istio_auth.Rbac.Spec.{Spec}
use k8s_athenz_istio_auth.Rbac.DryRun.{FileSystem, ObjectCodec}
use k8s_athenz_istio_auth.Rbac.DryRun.RoundTrip.{
  IsPolicyMeta, ReadsBack, ConvertsBack, read-create, read-delete,
}
use k8s_athenz_istio_auth.Rbac.Istio.{Schema}
use k8s_athenz_istio_auth.Policies.Handlers.{
  Answer, dry_run_handler, process_config_change, process_config_changes,
}
use k8s_athenz_istio_auth.Policies.Files.{
  ClusterCalls, Policies, is_of, change_policies, change_all, policy_store, policies_in,
}

-- The item is of a service whose policy is not enabled, in a namespace without a slash, and has the
-- metadata of a policy.
abbrev pub IsDryRun : Schema → ComponentEnabled → Item Spec → Type 0
IsDryRun schema components item =
    (is_enabled components ((item.resource).meta).name ((item.resource).meta).namespace ≡ false)
    × Lacks b'/' ((item.resource).meta).namespace
    × IsPolicyMeta schema (item.resource).meta

module _ {Cl Fs Object : Type 0} (components : ComponentEnabled) (cluster : ClusterCalls Cl)
    (files : FileSystem Fs) (codec : ObjectCodec Object) (dir : Text) (schema : Schema)
    (reads : ReadsBack files) (converts : ConvertsBack schema codec) where
  abbrev Store : Type 0
  Store = Cl × Fs

  dry_run_handler-change_policies :
      (cl : Cl) (fs : Fs) (store' : Store) (operation : Event) (c : Config Spec)
      (handler : Option OnComplete) (ns name : Text)
      → IsPolicyMeta schema c.meta
      → Lacks b'/' (c.meta).namespace
      → Lacks b'/' ns
      → dry_run_handler components
          (policy_store cluster files codec dir)
          (cl, fs)
          (record { operation = operation; resource = c; callback_handler = handler })
        ≡ (store', none)
      → (store'.0 ≡ cl)
        × (policies_in cluster files codec dir store'.1 ns name
            ≡ change_policies
                (policies_in cluster files codec dir fs)
                (record { operation = operation; resource = c; callback_handler = handler })
                ns
                name)
  unfolding dry_run_handler change_policies
  dry_run_handler-change_policies cl fs store' event_add c handler ns name pm lc ln h = (
    ap (λ (a : Answer Store). a.0.0) (sym h),
    read-create files codec dir schema reads converts fs store'.1 c ns name lc ln pm
        (ap (λ (a : Answer Store). (a.0.1, a.1)) h),
  )
  dry_run_handler-change_policies cl fs store' event_update c handler ns name pm lc ln h = (
    ap (λ (a : Answer Store). a.0.0) (sym h),
    read-create files codec dir schema reads converts fs store'.1 c ns name lc ln pm
        (ap (λ (a : Answer Store). (a.0.1, a.1)) h),
  )
  dry_run_handler-change_policies cl fs store' event_delete c handler ns name pm lc ln h = (
    ap (λ (a : Answer Store). a.0.0) (sym h),
    read-delete files codec dir schema reads converts fs store'.1 c ns name lc ln
        (ap (λ (a : Answer Store). (a.0.1, a.1)) h),
  )

  change_all-congr :
      (p q : Policies) (items : List (Item Spec)) (ns name : Text)
      → ((ns' name' : Text) → Lacks b'/' ns' → p ns' name' ≡ q ns' name')
      → Lacks b'/' ns
      → change_all p items ns name ≡ change_all q items ns name
  unfolding change_all change_policies
  change_all-congr p q [] ns name same_there ln = same_there ns name ln
  change_all-congr p q (item ∷ items) ns name same_there ln =
      change_all-congr (change_policies p item) (change_policies q item) items ns name
        (λ ns' name' ln'.
          ap
            (λ (o : Option (Config Spec)).
              if is_of item.resource ns' name' then left_by item else o)
            (same_there ns' name' ln'))
        ln

  process_config_change-dry_run :
      (store : Store) (item : Item Spec)
      → IsDryRun schema components item
      → process_config_change components (policy_store cluster files codec dir) store item
        ≡ returns (dry_run_handler components (policy_store cluster files codec dir) store item)
  unfolding process_config_change
  process_config_change-dry_run store item dry = rw (dry.0) refl

  -- A loop that ends without an error had none in the first round.
  first_ends :
      (store store' : Store) (items : List (Item Spec)) (error : Option ApiError)
      → (elim error [
        | some e ↦ returns (store, some e)
        | none ↦
            process_config_changes components (policy_store cluster files codec dir) store items
      ])
        ≡ returns (store', none)
      → (error ≡ none)
        × (process_config_changes components (policy_store cluster files codec dir) store items
            ≡ returns (store', none))
  first_ends store store' items none h = (refl, h)
  first_ends store store' items (some e) h = ground arith

  -- Take changes of policies that are not enabled, whose metadata is that of the schema with a
  -- namespace without a slash. Where the file system reads back what is written, and the conversions
  -- of such policies are read back too, the changes, when they end without an error, leave the
  -- cluster as it was, and the files hold for every service in a namespace without a slash what the
  -- changes, made one after the other, leave of what the files held before.
  pub process_config_changes-change_all :
      (cl : Cl) (fs : Fs) (store' : Store) (items : List (Item Spec)) (ns name : Text)
      → All (IsDryRun schema components) items
      → Lacks b'/' ns
      → process_config_changes components (policy_store cluster files codec dir) (cl, fs) items
        ≡ returns (store', none)
      → (store'.0 ≡ cl)
        × (policies_in cluster files codec dir store'.1 ns name
            ≡ change_all (policies_in cluster files codec dir fs) items ns name)
  unfolding process_config_changes change_all
  process_config_changes-change_all cl fs store' [] ns name dry ln h =
      let stays : ((cl, fs), none) ≡ (store', none) = returns_injective h in
      (
        ap (λ (a : Answer Store). a.0.0) (sym stays),
        ap (λ (a : Answer Store). policies_in cluster files codec dir a.0.1 ns name) (sym stays),
      )
  process_config_changes-change_all cl fs store' (item ∷ items) ns name (d, dry) ln h =
      let (answer, ea, h1) =
        bind-eq_returns
          (process_config_change components (policy_store cluster files codec dir) (cl, fs) item) _
          h in
      let (quiet, rest) = first_ends answer.0 store' items answer.1 h1 in
      let handled : dry_run_handler components (policy_store cluster files codec dir) (cl, fs) item
          ≡ (answer.0, none) =
        returns_injective (sym (process_config_change-dry_run (cl, fs) item d) ∙ ea)
        ∙ ap (λ e. (answer.0, e)) quiet in
      let (same_cluster, after) =
        process_config_changes-change_all answer.0.0 answer.0.1 store' items ns name dry ln rest in
      (
        same_cluster
            ∙ (dry_run_handler-change_policies cl fs answer.0 item.operation item.resource
                item.callback_handler ns name d.2 d.1 ln handled).0,
        after
            ∙ change_all-congr (policies_in cluster files codec dir answer.0.1)
                (change_policies (policies_in cluster files codec dir fs) item) items ns name
                (λ ns' name' ln'.
                  (dry_run_handler-change_policies cl fs answer.0 item.operation item.resource
                    item.callback_handler ns' name' d.2 d.1 ln' handled).1)
                ln,
      )
