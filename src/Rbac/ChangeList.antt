-- ===== src/Rbac/ChangeList.antt =====
-- `ComputeChangeList` of pkg/istio/rbac/common/util.go.
pub mod Settle
pub mod Quiet
pub mod Justified
pub mod Single
use k8s_athenz_istio_auth.Prelude.{
  Bool, false, List, [], ◌∷◌, ◌++◌, Option, none, some, if◌then◌else◌,
}
use k8s_athenz_istio_auth.Prelude.Keyed.{Keyed, lookup}
use k8s_athenz_istio_auth.Rbac.Config.{
  Config, ConfigApi, Item, OnComplete, event_add, event_update, event_delete, config_key, equal,
  convert_slice_to_keyed_map,
}

module _ {S : Type 0} where
  -- `checkFn != nil && checkFn(c)`
  unfoldable pub checked : Option (Config S → Bool) → Config S → Bool
  checked none c = false
  checked (some check) c = check c

  -- `append(changeList, &item)`, or `continue`
  unfoldable pub emit : Option (Item S) → List (Item S) → List (Item S)
  emit none items = items
  emit (some item) items = item ∷ items

module _ {S : Type 0} (api : ConfigApi S) (callback : Option OnComplete)
    (check : Option (Config S → Bool)) where
  -- One round of the loop over the desired configurations; the first argument is what the current
  -- map holds at the key.
  pub desired_change : Option (Config S) → Config S → Option (Item S)
  unfolding checked
  desired_change none desired =
      some (record { operation = event_add; resource = desired; callback_handler = callback })
  desired_change (some existing) desired =
      if equal api existing desired
      then none
      else if checked check existing
      then none
      else some (record {
        operation = event_update;
        resource = record desired { meta = existing.meta };
        callback_handler = callback;
      })

  -- One round of the loop over the current configurations; the first argument is what the desired
  -- map holds at the key.
  pub current_change : Option (Config S) → Config S → Option (Item S)
  unfolding checked
  current_change desired current = if checked check current then none else elim desired [
    | some _ ↦ none
    | none ↦
        some (record { operation = event_delete; resource = current; callback_handler = callback })
  ]

  pub desired_changes : Keyed (Config S) → List (Config S) → List (Item S)
  unfolding emit desired_change
  desired_changes current [] = []
  desired_changes current (d ∷ ds) =
      emit (desired_change (lookup current (config_key api d)) d) (desired_changes current ds)

  pub current_changes : Keyed (Config S) → List (Config S) → List (Item S)
  unfolding emit current_change
  current_changes desired [] = []
  current_changes desired (c ∷ cs) =
      emit (current_change (lookup desired (config_key api c)) c) (current_changes desired cs)

-- `ComputeChangeList`
unfoldable pub compute_change_list :
    {S : Type 0} (api : ConfigApi S)
    → List (Config S)
    → List (Config S)
    → Option OnComplete
    → Option (Config S → Bool)
    → List (Item S)
unfolding desired_changes current_changes
compute_change_list api current desired callback check =
    desired_changes api callback check (convert_slice_to_keyed_map api current) desired
    ++ current_changes api callback check (convert_slice_to_keyed_map api desired) current
