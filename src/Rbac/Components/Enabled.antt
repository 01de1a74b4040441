-- ===== src/Rbac/Components/Enabled.antt =====
-- What an accepted component list enables.
use k8s_athenz_istio_auth.Prelude.{
  ◌≡◌, ◌∙◌, refl, Bool, true, false, ◌||◌, ◌&&◌, List, [], ◌∷◌, ◌++◌, arith, any, Bool-cases, inl,
  inr,
}
use k8s_athenz_istio_auth.Prelude.Outcome.{Result-cases, ok}
use k8s_athenz_istio_auth.Prelude.Text.{
  Text, codes, same, same_iff, split, split-two, split-one, same-split-two,
}
use k8s_athenz_istio_auth.Prelude.Keyed.{Keyed, lookup, insert, lookup-insert}
use k8s_athenz_istio_auth.Rbac.Components.{
  ComponentEnabled, add_component, add_components, nothing_enabled, only_star, exists_key,
  parse_components_enabled_authz_policy, is_enabled,
}

only_star-parts :
    (s : Text) (parts : List Text) → split s b',' ≡ parts → only_star parts ≡ true → s ≡ codes "*"
only_star-parts s [] e h = cc
only_star-parts s (p ∷ q ∷ ps) e h = cc
only_star-parts s (p ∷ []) e h = (split-one s b',' p e).0 ∙ (same_iff p (codes "*")).0 h

only_star-star : (s : Text) → s ≡ codes "*" → only_star (split s b',') ≡ true
unfolding split same
only_star-star s h = rw h

module _ (service ns : Text) where
  -- The item names the namespace as a whole, or the service.
  unfoldable pub names : Text → Bool
  names item = same item (ns ++ codes "/*") || same item (ns ++ (codes "/" ++ service))

  exists_key-insert :
      (m : Keyed Bool) (k j : Text) → exists_key (insert m k true) j ≡ (same k j || exists_key m j)
  unfolding exists_key
  exists_key-insert m k j = ground (arith, lookup-insert m k j true)

  is_enabled-add_namespace :
      (c : ComponentEnabled) (a : Text)
      → is_enabled (record c { namespace_map = insert c.namespace_map a true }) service ns
        ≡ (is_enabled c service ns || same a ns)
  unfolding is_enabled
  is_enabled-add_namespace c a = ground (arith, exists_key-insert c.namespace_map a ns)

  is_enabled-add_service :
      (c : ComponentEnabled) (k : Text)
      → is_enabled (record c { service_map = insert c.service_map k true }) service ns
        ≡ (is_enabled c service ns || same k (ns ++ (codes "/" ++ service)))
  unfolding is_enabled
  is_enabled-add_service c k =
      ground (arith, exists_key-insert c.service_map k (ns ++ (codes "/" ++ service)))

  is_enabled-parts :
      (c c' : ComponentEnabled) (item : Text) (parts : List Text)
      → split item b'/' ≡ parts
      → add_component c parts ≡ ok c'
      → is_enabled c' service ns ≡ (is_enabled c service ns || names item)
  unfolding add_component names
  is_enabled-parts c c' item [] e h = cc
  is_enabled-parts c c' item (a ∷ []) e h = cc
  is_enabled-parts c c' item (a ∷ b ∷ d ∷ parts) e h = cc
  is_enabled-parts c c' item (a ∷ b ∷ []) e h =
      let both : item ≡ a ++ (b'/' ∷ b) = (split-two item b'/' a b e).0 in
      let star : same item (ns ++ codes "/*") ≡ (same a ns && same b (codes "*")) =
        same-split-two item b'/' a b ns (codes "*") e in
      let one : same item (ns ++ (codes "/" ++ service)) ≡ (same a ns && same b service) =
        same-split-two item b'/' a b ns service e in
      elim (Bool-cases (same b (codes "*"))) [
        | inl all ↦ ground (arith, all, is_enabled-add_namespace c a)
        | inr single ↦ ground (arith, single, is_enabled-add_service c (a ++ (b'/' ∷ b)))
      ]

  names-nil : names [] ≡ false
  unfolding names same
  names-nil = go ns
    where
      go : (u : Text) → (same [] (u ++ codes "/*") || same [] (u ++ (codes "/" ++ service))) ≡ false
      go [] = refl
      go (x ∷ u) = refl

  is_enabled-add_components :
      (c c' : ComponentEnabled) (items : List Text)
      → add_components c items ≡ ok c'
      → is_enabled c' service ns ≡ (is_enabled c service ns || any names items)
  unfolding add_components any
  is_enabled-add_components c c' [] h = ground arith
  is_enabled-add_components c c' ([] ∷ items) h =
      ground (arith, names-nil, is_enabled-add_components c c' items h)
  is_enabled-add_components c c' ((x ∷ s) ∷ items) h =
      elim (Result-cases (add_component c (split (x ∷ s) b'/'))) [
        | inl (d, e) ↦ ground (
          arith,
          e,
          is_enabled-parts c d (x ∷ s) (split (x ∷ s) b'/') refl e,
          is_enabled-add_components d c' items,
        )
        | inr (d, e) ↦ ground (arith, e)
      ]

  is_enabled-nothing : is_enabled nothing_enabled service ns ≡ false
  unfolding is_enabled exists_key lookup
  is_enabled-nothing = refl

  -- If the list is accepted, a service is enabled exactly when the list is a star, or has an item
  -- `namespace/*` or `namespace/service`.
  pub is_enabled-parse_components :
      (components_list : Text) (c : ComponentEnabled)
      → parse_components_enabled_authz_policy components_list ≡ ok c
      → is_enabled c service ns
        ≡ (same components_list (codes "*") || any names (split components_list b','))
  unfolding parse_components_enabled_authz_policy any
  is_enabled-parse_components [] c h =
      unfold is_enabled exists_key lookup split same in ground (arith, names-nil)
  is_enabled-parse_components (x ∷ s) c h =
      let list : Text = x ∷ s in
      elim (Bool-cases (only_star (split list b','))) [
        | inl star ↦
            unfold is_enabled in
            ground (
              arith,
              star,
              same_iff list (codes "*"),
              only_star-parts list (split list b',') refl star,
            )
        | inr plain ↦ ground (
          arith,
          plain,
          same_iff list (codes "*"),
          only_star-star list,
          is_enabled-nothing,
          is_enabled-add_components nothing_enabled c (split list b','),
        )
      ]
