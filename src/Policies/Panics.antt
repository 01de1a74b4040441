-- ===== src/Policies/Panics.antt =====
-- When a sync of pkg/istio/authorizationpolicy/controller.go panics.
use k8s_athenz_istio_auth.Prelude.{◌≡◌, ◌↔◌, refl, sym, subst, ◌∙◌, List, [], ◌∷◌, inl, inr}
use k8s_athenz_istio_auth.Prelude.Outcome.{returns, panics, Outcome-cases, returns_injective}
use k8s_athenz_istio_auth.Prelude.Text.{Text}
use k8s_athenz_istio_auth.Athenz.Trust.Whole.{IsWholeCache}
use k8s_athenz_istio_auth.Rbac.Config.{Item}
use k8s_athenz_istio_auth.Rbac.Spec.{Spec}
use k8s_athenz_istio_auth.Policies.{
  Environment, Fetched, fetched, fetch_fails, sync_changes, carry_out, sync, fails,
}
use k8s_athenz_istio_auth.Policies.Handlers.{PolicyStore, process_config_changes}
use k8s_athenz_istio_auth.Policies.Handlers.Panics.{
  MeetsMissing, make_none, process_config_changes-panics_iff,
}
use k8s_athenz_istio_auth.Policies.Total.{sync_changes_total}
use k8s_athenz_istio_auth.Policies.Untouched.{fetched_injective}

module _ (env : Environment) {St : Type 0} (handlers : PolicyStore St) where
  carry_out-panics_iff :
      (store : St) (items : List (Item Spec))
      → (carry_out env handlers store (fetched items) ≡ panics)
        ↔ (process_config_changes env.components handlers store items ≡ panics)
  unfolding carry_out
  carry_out-panics_iff store [] =
      let e = make_none env.components handlers store in (λ h. cc, λ h. cc)
  carry_out-panics_iff store (item ∷ items) =
      elim (Outcome-cases (process_config_changes env.components handlers store (item ∷ items))) [
        | inr e ↦ rw e (λ h. refl, λ h. refl)
        | inl ((store', error), e) ↦ rw e (λ h. cc, λ h. cc)
      ]

  sync-carry_out :
      (store : St) (key : Text) (changes : Fetched (List (Item Spec)))
      → sync_changes env key ≡ returns changes
      → sync env handlers store key ≡ carry_out env handlers store changes
  unfolding sync
  sync-carry_out store key changes e = rw e refl

  carry_out-fails : (store : St) → carry_out env handlers store fetch_fails ≡ returns (store, fails)
  unfolding carry_out
  carry_out-fails store = refl

  same_items :
      (key : Text) (items items' : List (Item Spec))
      → sync_changes env key ≡ returns (fetched items)
      → sync_changes env key ≡ returns (fetched items')
      → items' ≡ items
  same_items key items items' e f = fetched_injective (returns_injective (sym f ∙ e))

  changes-panics_iff :
      (store : St) (key : Text) (changes : Fetched (List (Item Spec)))
      → sync_changes env key ≡ returns changes
      → (sync env handlers store key ≡ panics) ↔ (
          (items : List (Item Spec)) × (sync_changes env key ≡ returns (fetched items))
          × MeetsMissing env.components handlers store items)
  changes-panics_iff store key fetch_fails e =
      let ends = sync-carry_out store key fetch_fails e ∙ carry_out-fails store in
      (λ h. cc, λ (items, f, m). cc)
  changes-panics_iff store key (fetched items) e =
      let runs = sync-carry_out store key (fetched items) e in
      let carries = carry_out-panics_iff store items in
      let meets = process_config_changes-panics_iff env.components handlers store items in
      (
        λ h. (items, e, meets.0 (carries.0 (sym runs ∙ h))),
        λ (items', f, m).
            runs
            ∙ carries.1 (
                meets.1 (
                  subst (MeetsMissing env.components handlers store)
                    (same_items key items items' e f) m)),
      )

  -- Roles and groups are taken as present. Where every domain of the cache has policies and no nil
  -- pointer among them, their assertions and the members of its roles and groups, a sync of a key
  -- panics exactly when it has a change list whose changes, made in order, come without an error to an
  -- update of a policy that is enabled and that the store does not have by then.
  pub sync-panics_iff :
      (store : St) (key : Text)
      → IsWholeCache env.domain_by_key
      → (sync env handlers store key ≡ panics) ↔ (
          (items : List (Item Spec)) × (sync_changes env key ≡ returns (fetched items))
          × MeetsMissing env.components handlers store items)
  sync-panics_iff store key whole =
      let (changes, e, t) = sync_changes_total env whole key in
      changes-panics_iff store key changes e
