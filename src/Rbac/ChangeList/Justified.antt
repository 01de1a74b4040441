-- ===== src/Rbac/ChangeList/Justified.antt =====
-- Why each item of a change list is there.
use k8s_athenz_istio_auth.Prelude.{
  ◌≡◌, refl, subst, Bool, false, List, [], ◌∷◌, Option, none, some, arith, All, All-append, In, inl,
  inr, Bool-cases,
}
use k8s_athenz_istio_auth.Prelude.Keyed.{lookup}
use k8s_athenz_istio_auth.Rbac.Config.{
  Config, ConfigApi, Item, event_add, event_update, event_delete, OnComplete, config_key, equal,
  convert_slice_to_keyed_map,
}
use k8s_athenz_istio_auth.Rbac.Config.Keys.{In-convert}
use k8s_athenz_istio_auth.Rbac.ChangeList.{
  checked, emit, desired_change, current_change, desired_changes, current_changes,
  compute_change_list,
}

some_injective : {A : Type 0} {a b : A} → some a ≡ some b → a ≡ b
some_injective h = cc

module _ {S : Type 0} (api : ConfigApi S) (callback : Option OnComplete)
    (check : Option (Config S → Bool)) where
  -- The item adds a desired resource whose key no current one has; or it gives an unequal
  -- specification to a current resource which the check does not protect, and keeps its metadata; or
  -- it deletes a current resource which the check does not protect and whose key none is desired at.
  pub data IsJustified (current desired : List (Config S)) : Item S → Type 0 where
    adds :
        (d : Config S)
        → In d desired
        → lookup (convert_slice_to_keyed_map api current) (config_key api d) ≡ none
        → IsJustified current desired
            (record { operation = event_add; resource = d; callback_handler = callback })
    updates :
        (c d : Config S)
        → In c current
        → In d desired
        → lookup (convert_slice_to_keyed_map api current) (config_key api d) ≡ some c
        → equal api c d ≡ false
        → checked check c ≡ false
        → IsJustified current desired (record {
          operation = event_update;
          resource = record d { meta = c.meta };
          callback_handler = callback;
        })
    removes :
        (c : Config S)
        → In c current
        → lookup (convert_slice_to_keyed_map api desired) (config_key api c) ≡ none
        → checked check c ≡ false
        → IsJustified current desired
            (record { operation = event_delete; resource = c; callback_handler = callback })

  module _ (current desired : List (Config S)) where
    emit-IsJustified :
        (o : Option (Item S)) (items : List (Item S))
        → ((i : Item S) → o ≡ some i → IsJustified current desired i)
        → All (IsJustified current desired) items
        → All (IsJustified current desired) (emit o items)
    unfolding emit
    emit-IsJustified none items h hs = hs
    emit-IsJustified (some i) items h hs = (h i refl, hs)

    desired_change-IsJustified :
        (d : Config S) (e : Option (Config S)) (i : Item S)
        → In d desired
        → lookup (convert_slice_to_keyed_map api current) (config_key api d) ≡ e
        → desired_change api callback check e d ≡ some i
        → IsJustified current desired i
    unfolding desired_change
    desired_change-IsJustified d none i hd hl h =
        subst (IsJustified current desired) (some_injective h) (adds d hd hl)
    desired_change-IsJustified d (some c) i hd hl h = elim (Bool-cases (equal api c d)) [
      | inl e ↦ absurd (ground (arith, e, h))
      | inr e ↦ elim (Bool-cases (checked check c)) [
        | inl k ↦ absurd (ground (arith, e, k, h))
        | inr k ↦
            subst (IsJustified current desired) (some_injective (rw (e, k) at h))
              (updates c d (In-convert api current (config_key api d) c hl) hd hl e k)
      ]
    ]

    unprotected-IsJustified :
        (c : Config S) (e : Option (Config S)) (i : Item S)
        → In c current
        → lookup (convert_slice_to_keyed_map api desired) (config_key api c) ≡ e
        → checked check c ≡ false
        → current_change api callback check e c ≡ some i
        → IsJustified current desired i
    unfolding current_change
    unprotected-IsJustified c none i hc hl k h =
        subst (IsJustified current desired) (some_injective (rw (k) at h)) (removes c hc hl k)
    unprotected-IsJustified c (some d) i hc hl k h = absurd (ground (arith, k, h))

    current_change-IsJustified :
        (c : Config S) (e : Option (Config S)) (i : Item S)
        → In c current
        → lookup (convert_slice_to_keyed_map api desired) (config_key api c) ≡ e
        → current_change api callback check e c ≡ some i
        → IsJustified current desired i
    unfolding current_change
    current_change-IsJustified c e i hc hl h = elim (Bool-cases (checked check c)) [
      | inl k ↦ absurd (ground (arith, k, h))
      | inr k ↦ unprotected-IsJustified c e i hc hl k h
    ]

    desired_changes-IsJustified :
        (ds : List (Config S))
        → ((d : Config S) → In d ds → In d desired)
        → All
            (IsJustified current desired)
            (desired_changes api callback check (convert_slice_to_keyed_map api current) ds)
    unfolding desired_changes
    desired_changes-IsJustified [] sub = tt
    desired_changes-IsJustified (d ∷ ds) sub =
        emit-IsJustified _ _
          (λ i h.
            desired_change-IsJustified d
              (lookup (convert_slice_to_keyed_map api current) (config_key api d)) i
              (sub d (inl refl)) refl h)
          (desired_changes-IsJustified ds (λ d i. sub d (inr i)))

    current_changes-IsJustified :
        (cs : List (Config S))
        → ((c : Config S) → In c cs → In c current)
        → All
            (IsJustified current desired)
            (current_changes api callback check (convert_slice_to_keyed_map api desired) cs)
    unfolding current_changes
    current_changes-IsJustified [] sub = tt
    current_changes-IsJustified (c ∷ cs) sub =
        emit-IsJustified _ _
          (λ i h.
            current_change-IsJustified c
              (lookup (convert_slice_to_keyed_map api desired) (config_key api c)) i
              (sub c (inl refl)) refl h)
          (current_changes-IsJustified cs (λ c i. sub c (inr i)))

    -- Every item of a change list is justified by the current and the desired resources, even where
    -- two of them have one key: no resource that the check protects is changed or deleted.
    pub compute_change_list-IsJustified :
        All (IsJustified current desired) (compute_change_list api current desired callback check)
    unfolding compute_change_list
    compute_change_list-IsJustified =
        All-append (IsJustified current desired) _ _
          (desired_changes-IsJustified desired (λ d i. i))
          (current_changes-IsJustified current (λ c i. i))
