-- ===== src/Policies/Handlers/Panics.antt =====
-- Which change lists panic when pkg/istio/authorizationpolicy/controller.go makes their changes.
use k8s_athenz_istio_auth.Prelude.{
  ◌≡◌, ◌↔◌, refl, sym, ap, ◌∙◌, true, List, [], ◌∷◌, ◌++◌, none, some, inl, inr, arith,
}
use k8s_athenz_istio_auth.Prelude.Outcome.{
  Outcome, returns, panics, Outcome-cases, returns_injective,
}
use k8s_athenz_istio_auth.Rbac.Config.{Item, event_update, ApiError}
use k8s_athenz_istio_auth.Rbac.Spec.{Spec}
use k8s_athenz_istio_auth.Rbac.Components.{ComponentEnabled}
use k8s_athenz_istio_auth.Policies.Handlers.{
  Answer, PolicyStore, process_config_change, process_config_changes,
}
use k8s_athenz_istio_auth.Policies.Handlers.DryRun.{enabled, process_config_change-panics_iff}

-- The changes of a list, made in order from a store, come to an update of a policy which is enabled
-- and which the store, as the changes before it left it, does not have.
pub record MeetsMissing (components : ComponentEnabled) {St : Type 0} (handlers : PolicyStore St)
    (store : St) (items : List (Item Spec)) : Type 0 where
  pub before : List (Item Spec)
  pub item : Item Spec
  pub after : List (Item Spec)
  pub reached : St
  pub parts : items ≡ before ++ (item ∷ after)
  pub made : process_config_changes components handlers store before ≡ returns (reached, none)
  pub is_enabled : enabled components handlers item ≡ true
  pub is_update : item.operation ≡ event_update
  pub is_missing :
      handlers.get reached ((item.resource).meta).name ((item.resource).meta).namespace ≡ none

module _ (components : ComponentEnabled) {St : Type 0} (handlers : PolicyStore St) where
  abbrev make_all : St → List (Item Spec) → Outcome (Answer St)
  make_all store items = process_config_changes components handlers store items

  make_first :
      (store store' : St) (item : Item Spec) (items : List (Item Spec))
      → process_config_change components handlers store item ≡ returns (store', none)
      → make_all store (item ∷ items) ≡ make_all store' items
  unfolding process_config_changes
  make_first store store' item items e = rw e refl

  meets_later :
      (store store' : St) (item : Item Spec) (items : List (Item Spec))
      → process_config_change components handlers store item ≡ returns (store', none)
      → MeetsMissing components handlers store' items
      → MeetsMissing components handlers store (item ∷ items)
  meets_later store store' item items e m = record {
    before = item ∷ m.before;
    item = m.item;
    after = m.after;
    reached = m.reached;
    parts = ap (λ is. item ∷ is) m.parts;
    made = make_first store store' item m.before e ∙ m.made;
    is_enabled = m.is_enabled;
    is_update = m.is_update;
    is_missing = m.is_missing;
  }

  panics_first :
      (store : St) (item : Item Spec) (items : List (Item Spec))
      → process_config_change components handlers store item ≡ panics
      → make_all store (item ∷ items) ≡ panics
  unfolding process_config_changes
  panics_first store item items e = rw e refl

  error_first :
      (store store' : St) (item : Item Spec) (items : List (Item Spec)) (error : ApiError)
      → process_config_change components handlers store item ≡ returns (store', some error)
      → make_all store (item ∷ items) ≡ returns (store', some error)
  unfolding process_config_changes
  error_first store store' item items error e = rw e refl

  pub make_none : (store : St) → make_all store [] ≡ returns (store, none)
  unfolding process_config_changes
  make_none store = refl

  meets_here :
      (store : St) (item : Item Spec) (items : List (Item Spec))
      → process_config_change components handlers store item ≡ panics
      → MeetsMissing components handlers store (item ∷ items)
  meets_here store item items e =
      let (on, updates, missing) =
        (process_config_change-panics_iff components handlers store item).0 e in
      record {
        before = [];
        item = item;
        after = items;
        reached = store;
        parts = refl;
        made = make_none store;
        is_enabled = on;
        is_update = updates;
        is_missing = missing;
      }

  panics-MeetsMissing :
      (store : St) (items : List (Item Spec))
      → make_all store items ≡ panics
      → MeetsMissing components handlers store items
  panics-MeetsMissing store [] h = let e = make_none store in cc
  panics-MeetsMissing store (item ∷ items) h =
      elim (Outcome-cases (process_config_change components handlers store item)) [
        | inr e ↦ meets_here store item items e
        | inl ((store', some error), e) ↦
            let ends = error_first store store' item items error e in cc
        | inl ((store', none), e) ↦
            meets_later store store' item items e
              (panics-MeetsMissing store' items (sym (make_first store store' item items e) ∙ h))
      ]

  panics_after :
      (store reached : St) (before : List (Item Spec)) (item : Item Spec) (after : List (Item Spec))
      → make_all store before ≡ returns (reached, none)
      → process_config_change components handlers reached item ≡ panics
      → make_all store (before ++ (item ∷ after)) ≡ panics
  panics_after store reached [] item after h e =
      let here : (store, none) ≡ (reached, none) = returns_injective (sym (make_none store) ∙ h) in
      panics_first store item after
        (ap (λ (a : Answer St). process_config_change components handlers a.0 item) here ∙ e)
  panics_after store reached (b ∷ before) item after h e =
      elim (Outcome-cases (process_config_change components handlers store b)) [
        | inr p ↦ let ends = panics_first store b before p in cc
        | inl ((store', some error), p) ↦
            let ends = error_first store store' b before error p in
            let same_answer : (store', some error) ≡ (reached, none) =
              returns_injective (sym ends ∙ h) in
            absurd (ground (arith, ap (λ (a : Answer St). a.1) same_answer))
        | inl ((store', none), p) ↦
            make_first store store' b (before ++ (item ∷ after)) p
            ∙ panics_after store' reached before item after
                (sym (make_first store store' b before p) ∙ h) e
      ]

  pub process_config_changes-panics_iff :
      (store : St) (items : List (Item Spec))
      → (make_all store items ≡ panics) ↔ MeetsMissing components handlers store items
  process_config_changes-panics_iff store items = (
    panics-MeetsMissing store items,
    λ m.
        ap (λ is. make_all store is) m.parts
        ∙ panics_after store m.reached m.before m.item m.after m.made (
            (process_config_change-panics_iff components handlers m.reached m.item).1
              (m.is_enabled, m.is_update, m.is_missing)),
  )
