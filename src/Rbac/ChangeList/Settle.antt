-- ===== src/Rbac/ChangeList/Settle.antt =====
-- What the change list does to a store: carried out on the current configurations, it leaves at
-- each key what the desired configurations ask for.
use k8s_athenz_istio_auth.Prelude.{
  ◌≡◌, refl, Bool, ◌||◌, List, [], ◌∷◌, ◌++◌, Option, none, some, arith, if◌then◌else◌,
  Option-cases, inl, inr,
}
use k8s_athenz_istio_auth.Prelude.Text.{Text, same, same_iff}
use k8s_athenz_istio_auth.Prelude.Keyed.{
  Keyed, lookup, insert, delete, lookup-insert, lookup-delete,
}
use k8s_athenz_istio_auth.Rbac.Config.{
  Config, ConfigApi, Item, OnComplete, event_add, event_update, event_delete, config_key, equal,
  convert_slice_to_keyed_map,
}
use k8s_athenz_istio_auth.Rbac.Config.Keys.{find, HasDistinctKeys, find-key, lookup-convert}
use k8s_athenz_istio_auth.Rbac.ChangeList.{
  checked, emit, desired_change, current_change, desired_changes, current_changes,
  compute_change_list,
}

module _ {S : Type 0} (api : ConfigApi S) where
  -- What the API server does with an item of the list.
  unfoldable pub apply : Keyed (Config S) → Item S → Keyed (Config S)
  apply store item = elim item.operation [
    | event_add ↦ insert store (config_key api item.resource) item.resource
    | event_update ↦ insert store (config_key api item.resource) item.resource
    | event_delete ↦ delete store (config_key api item.resource)
  ]

  unfoldable pub apply_all : Keyed (Config S) → List (Item S) → Keyed (Config S)
  apply_all store [] = store
  apply_all store (i ∷ is) = apply_all (apply store i) is

  apply_all-append :
      (store : Keyed (Config S)) (is js : List (Item S))
      → apply_all store (is ++ js) ≡ apply_all (apply_all store is) js
  unfolding apply_all
  apply_all-append store [] js = refl
  apply_all-append store (i ∷ is) js = apply_all-append (apply store i) is js

  apply_option : Keyed (Config S) → Option (Item S) → Keyed (Config S)
  apply_option store none = store
  apply_option store (some i) = apply store i

  apply_all-emit :
      (store : Keyed (Config S)) (o : Option (Item S)) (is : List (Item S))
      → apply_all store (emit o is) ≡ apply_all (apply_option store o) is
  unfolding apply_all apply_option emit
  apply_all-emit store none is = refl
  apply_all-emit store (some i) is = refl

  -- What stands at a key after a round of the loop over the desired configurations.
  rewritten : Option (Item S) → Option (Config S) → Option (Config S)
  rewritten none before = before
  rewritten (some i) before = some i.resource

  module _ (callback : Option OnComplete) (check : Option (Config S → Bool)) where
    lookup-desired_change :
        (store current : Keyed (Config S)) (d : Config S) (k : Text)
        → ((e : Config S)
            → lookup current (config_key api d) ≡ some e
            → config_key api e ≡ config_key api d)
        → lookup
            (apply_option store
              (desired_change api callback check (lookup current (config_key api d)) d))
            k
          ≡ (if same (config_key api d) k
              then rewritten
                  (desired_change api callback check (lookup current (config_key api d)) d)
                  (lookup store k)
              else lookup store k)
    unfolding apply_option apply desired_change rewritten
    lookup-desired_change store current d k keyed =
        elim (Option-cases (lookup current (config_key api d))) [
          | inl h ↦ rw h (ground (arith, lookup-insert store (config_key api d) k d))
          | inr (e, h) ↦ rw h (
              ground (
                arith,
                keyed e h,
                lookup-insert store (config_key api e) k (record d { meta = e.meta }),
              ))
        ]

    -- What the round of a key's desired configuration makes of the key.
    wanted : Option (Config S) → Option (Config S) → Option (Config S) → Option (Config S)
    wanted none current before = before
    wanted (some d) current before = rewritten (desired_change api callback check current d) before

    lookup-desired_changes :
        (store current : Keyed (Config S)) (ds : List (Config S)) (k : Text)
        → ((j : Text) (e : Config S) → lookup current j ≡ some e → config_key api e ≡ j)
        → HasDistinctKeys api ds
        → lookup (apply_all store (desired_changes api callback check current ds)) k
          ≡ wanted (find api ds k) (lookup current k) (lookup store k)
    unfolding desired_changes wanted find
    lookup-desired_changes store current [] k keyed h = unfold apply_all in refl
    lookup-desired_changes store current (d ∷ ds) k keyed h =
        let change = desired_change api callback check (lookup current (config_key api d)) d in
        let ih = lookup-desired_changes (apply_option store change) current ds k keyed h.1 in
        rw (apply_all-emit store change (desired_changes api callback check current ds), ih)
          (ground (
            arith,
            lookup-desired_change store current d k (keyed (config_key api d)),
            same_iff (config_key api d) k,
          ))

    removed : Option (Item S) → Option (Config S) → Option (Config S)
    removed none before = before
    removed (some i) before = none

    lookup-current_change :
        (store : Keyed (Config S)) (desired : Option (Config S)) (c : Config S) (k : Text)
        → lookup (apply_option store (current_change api callback check desired c)) k ≡ (
            if same (config_key api c) k
            then removed (current_change api callback check desired c) (lookup store k)
            else lookup store k)
    unfolding apply_option apply current_change removed
    lookup-current_change store desired c k =
        ground (arith, lookup-delete store (config_key api c) k)

    -- What the round of a key's current configuration makes of the key.
    remaining : Option (Config S) → Option (Config S) → Option (Config S) → Option (Config S)
    remaining none desired before = before
    remaining (some c) desired before = removed (current_change api callback check desired c) before

    lookup-current_changes :
        (store desired : Keyed (Config S)) (cs : List (Config S)) (k : Text)
        → HasDistinctKeys api cs
        → lookup (apply_all store (current_changes api callback check desired cs)) k
          ≡ remaining (find api cs k) (lookup desired k) (lookup store k)
    unfolding current_changes remaining find
    lookup-current_changes store desired [] k h = unfold apply_all in refl
    lookup-current_changes store desired (c ∷ cs) k h =
        let change = current_change api callback check (lookup desired (config_key api c)) c in
        let ih = lookup-current_changes (apply_option store change) desired cs k h.1 in
        rw (apply_all-emit store change (current_changes api callback check desired cs), ih)
          (ground (
            arith,
            lookup-current_change store (lookup desired (config_key api c)) c k,
            same_iff (config_key api c) k,
          ))

    -- What each key should hold in the end: nothing is touched that the check protects, what is
    -- equal stays, and a changed specification keeps the metadata that the cluster has.
    unfoldable pub settled : Option (Config S) → Option (Config S) → Option (Config S)
    settled none desired = desired
    settled (some e) none = if checked check e then some e else none
    settled (some e) (some d) =
        if equal api e d || checked check e then some e else some (record d { meta = e.meta })

    remaining-wanted :
        (current desired : Option (Config S))
        → remaining current desired (wanted desired current current) ≡ settled current desired
    unfolding remaining wanted removed rewritten settled desired_change current_change
    remaining-wanted none none = refl
    remaining-wanted none (some d) = refl
    remaining-wanted (some e) none = ground arith
    remaining-wanted (some e) (some d) = ground arith

    -- If neither the current nor the desired configurations hold a key twice, carrying out the
    -- change list on the keyed map of the current ones leaves at each key what should stand there.
    pub lookup-compute_change_list :
        (current desired : List (Config S)) (k : Text)
        → HasDistinctKeys api current
        → HasDistinctKeys api desired
        → lookup
            (apply_all
              (convert_slice_to_keyed_map api current)
              (compute_change_list api current desired callback check))
            k
          ≡ settled (find api current k) (find api desired k)
    unfolding compute_change_list
    lookup-compute_change_list current desired k hc hd =
        let cur = convert_slice_to_keyed_map api current in
        let des = convert_slice_to_keyed_map api desired in
        rw
          (
            apply_all-append cur (desired_changes api callback check cur desired),
            lookup-current_changes _ des current k hc,
            lookup-desired_changes cur cur desired k
                (λ j e h. find-key api current j e (rw (lookup-convert api current j hc) at h)) hd,
            lookup-convert api current k hc,
            lookup-convert api desired k hd,
          )
          (remaining-wanted (find api current k) (find api desired k))
