-- ===== src/Rbac/ChangeList/Single.antt =====
-- The change list between at most one current and at most one desired configuration.
use k8s_athenz_istio_auth.Prelude.{
  ◌≡◌, refl, subst, Bool, true, Bool-cases, inl, inr, List, [], ◌∷◌, Option, none, some, arith,
}
use k8s_athenz_istio_auth.Prelude.Text.{same_iff, same_refl}
use k8s_athenz_istio_auth.Prelude.Keyed.{lookup, insert}
use k8s_athenz_istio_auth.Rbac.Config.{
  Config, ConfigMeta, ConfigApi, event_add, event_update, event_delete, equal, Item, OnComplete,
  config_key, convert_slice_to_keyed_map,
}
use k8s_athenz_istio_auth.Rbac.ChangeList.{
  checked, emit, desired_change, current_change, compute_change_list,
}

-- What a change leaves at the key of its resource.
abbrev pub left_by : {S : Type 0} → Item S → Option (Config S)
left_by item = elim item.operation [
  | event_add ↦ some item.resource
  | event_update ↦ some item.resource
  | event_delete ↦ none
]

abbrev pub one_or_none : {A : Type 0} → Option A → List A
one_or_none none = []
one_or_none (some a) = a ∷ []

some_injective : {A : Type 0} {a b : A} → some a ≡ some b → a ≡ b
some_injective h = cc

module _ {S : Type 0} (api : ConfigApi S) (callback : Option OnComplete)
    (check : Option (Config S → Bool)) where
  -- The one change that there may be.
  abbrev pub single_change : Option (Config S) → Option (Config S) → Option (Item S)
  single_change none none = none
  single_change none (some d) = desired_change api callback check none d
  single_change (some c) (some d) = desired_change api callback check (some c) d
  single_change (some c) none = current_change api callback check none c

  pub compute_change_list-single :
      (current desired : Option (Config S))
      → ((c d : Config S)
          → current ≡ some c
          → desired ≡ some d
          → config_key api c ≡ config_key api d)
      → compute_change_list api (one_or_none current) (one_or_none desired) callback check
        ≡ emit (single_change current desired) []
  unfolding compute_change_list convert_slice_to_keyed_map lookup insert current_change emit
  compute_change_list-single none none keyed = refl
  compute_change_list-single none (some d) keyed = refl
  compute_change_list-single (some c) none keyed = ground arith
  compute_change_list-single (some c) (some d) keyed =
      ground (arith, keyed c d refl refl, same_refl (config_key api d))

  -- The change is at the place of the current or of the desired configuration, and after it there
  -- is nothing left to change.
  abbrev pub LeavesQuiet : (ConfigMeta → Type 0) → Option (Config S) → Item S → Type 0
  LeavesQuiet P desired item =
      P (item.resource).meta
      × (single_change (left_by item) desired ≡ none)
      × ((c d : Config S)
          → left_by item ≡ some c
          → desired ≡ some d
          → config_key api c ≡ config_key api d)

  keyed_to :
      (a b : Config S)
      → config_key api a ≡ config_key api b
      → (c d : Config S) → some a ≡ some c
      → some b ≡ some d
      → config_key api c ≡ config_key api d
  keyed_to a b k c d e e' = cc

  module _ (eq : (x : S) → api.spec_equal x x ≡ true) (P : ConfigMeta → Type 0) where
    add-LeavesQuiet :
        (d : Config S)
        → P d.meta
        → LeavesQuiet P
            (some d)
            (record { operation = event_add; resource = d; callback_handler = callback })
    unfolding desired_change equal
    add-LeavesQuiet d pd =
        (pd, ground (arith, eq d.spec, same_refl (config_key api d)), keyed_to d d refl)

    update-LeavesQuiet :
        (c d : Config S)
        → P c.meta
        → config_key api c ≡ config_key api d
        → LeavesQuiet P (some d) (record {
          operation = event_update;
          resource = record d { meta = c.meta };
          callback_handler = callback;
        })
    unfolding desired_change equal
    update-LeavesQuiet c d pc keyed = (
      pc,
      ground (arith, eq d.spec, same_iff (config_key api c) (config_key api d), keyed),
      keyed_to (record d { meta = c.meta }) d keyed,
    )

    delete-LeavesQuiet :
        (c : Config S)
        → P c.meta
        → LeavesQuiet P none
            (record { operation = event_delete; resource = c; callback_handler = callback })
    delete-LeavesQuiet c pc = (pc, refl, λ a b ea eb. cc)

    pub single_change-LeavesQuiet :
        (current desired : Option (Config S)) (item : Item S)
        → ((c d : Config S)
            → current ≡ some c
            → desired ≡ some d
            → config_key api c ≡ config_key api d)
        → ((c : Config S) → current ≡ some c → P c.meta)
        → ((d : Config S) → desired ≡ some d → P d.meta)
        → single_change current desired ≡ some item
        → LeavesQuiet P desired item
    unfolding desired_change current_change
    single_change-LeavesQuiet none none item keyed pc pd h = ground arith
    single_change-LeavesQuiet none (some d) item keyed pc pd h =
        subst (LeavesQuiet P (some d)) (some_injective h) (add-LeavesQuiet d (pd d refl))
    single_change-LeavesQuiet (some c) none item keyed pc pd h =
        elim (Bool-cases (checked check c)) [
          | inl e ↦ ground (arith, e)
          | inr e ↦
              let made : record {
                operation = event_delete;
                resource = c;
                callback_handler = callback;
              }
                  ≡ item =
                ground (arith, e, h) in
              subst (LeavesQuiet P none) made (delete-LeavesQuiet c (pc c refl))
        ]
    single_change-LeavesQuiet (some c) (some d) item keyed pc pd h =
        elim (Bool-cases (equal api c d)) [
          | inl e ↦ ground (arith, e)
          | inr e ↦ elim (Bool-cases (checked check c)) [
            | inl e' ↦ ground (arith, e, e')
            | inr e' ↦
                let made : record {
                  operation = event_update;
                  resource = record d { meta = c.meta };
                  callback_handler = callback;
                }
                    ≡ item =
                  ground (arith, e, e', h) in
                subst (LeavesQuiet P (some d)) made
                  (update-LeavesQuiet c d (pc c refl) (keyed c d refl refl))
          ]
        ]
