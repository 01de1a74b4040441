-- ===== src/Policies/Stale.antt =====
-- Which policies `cleanUpStaleAP` deletes.
use k8s_athenz_istio_auth.Prelude.{
  ◌≡◌, ◌↔◌, ◌⊎◌, refl, ap, ◌∙◌, Bool, true, false, List, [], ◌∷◌, Option, some, none, arith,
  Bool-cases, inl, inr,
}
use k8s_athenz_istio_auth.Prelude.Text.{Text, codes, same, same_iff}
use k8s_athenz_istio_auth.Prelude.Keyed.{lookup}
use k8s_athenz_istio_auth.Rbac.Config.{Config}
use k8s_athenz_istio_auth.Rbac.Spec.{Spec}
use k8s_athenz_istio_auth.Rbac.Components.{is_enabled}
use k8s_athenz_istio_auth.Policies.Handlers.{PolicyStore, api_delete}
use k8s_athenz_istio_auth.Policies.{
  Environment, check_override_annotation, is_stale, clean_up_stale_ap,
}

-- The annotation `overrideAuthzPolicy` of the policy is there and is `true`.
abbrev pub IsOverridden : Config Spec → Type 0
IsOverridden c = lookup (c.meta).annotations (codes "overrideAuthzPolicy") ≡ some (codes "true")

some_injective : {A : Type 0} {a b : A} → some a ≡ some b → a ≡ b
some_injective h = cc

override_iff :
    (o : Option Text)
    → (elim o [ some res ↦ same res (codes "true") | none ↦ false ] ≡ true)
      ↔ (o ≡ some (codes "true"))
override_iff none = (λ h. cc, λ h. cc)
override_iff (some res) =
    let p = same_iff res (codes "true") in (λ h. ap some (p.0 h), λ h. p.1 (some_injective h))

pub check_override_annotation_iff :
    (c : Config Spec) → (check_override_annotation c ≡ true) ↔ IsOverridden c
unfolding check_override_annotation
check_override_annotation_iff c =
    override_iff (lookup (c.meta).annotations (codes "overrideAuthzPolicy"))

not_both : {b : Bool} → b ≡ true → b ≡ false → ⊥
not_both h k = cc

pub check_override_annotation-false :
    (c : Config Spec) → check_override_annotation c ≡ false → ¬ (IsOverridden c)
check_override_annotation-false c h o = not_both ((check_override_annotation_iff c).1 o) h

module _ (env : Environment) {St : Type 0} (handlers : PolicyStore St) where
  -- The policy is enabled for its service.
  abbrev pub IsEnabled : Config Spec → Type 0
  IsEnabled c = is_enabled env.components (c.meta).name (c.meta).namespace ≡ true

  -- The second list has, in order, the policies of the first that are neither enabled nor
  -- overridden.
  pub data StaleOf : List (Config Spec) → List (Config Spec) → Type 0 where
    ends : StaleOf [] []
    stays :
        {c : Config Spec} {cs found : List (Config Spec)}
        → IsEnabled c ⊎ IsOverridden c
        → StaleOf cs found
        → StaleOf (c ∷ cs) found
    goes :
        {c : Config Spec} {cs found : List (Config Spec)}
        → ¬ (IsEnabled c)
        → ¬ (IsOverridden c)
        → StaleOf cs found
        → StaleOf (c ∷ cs) (c ∷ found)

  -- The store after the deletion of each of these policies.
  unfoldable pub delete_all : St → List (Config Spec) → St
  delete_all store [] = store
  delete_all store (c ∷ cs) =
      delete_all (handlers.delete store (c.meta).name (c.meta).namespace).0 cs

  stale-goes :
      (c : Config Spec) → is_stale env handlers c ≡ true → ¬ (IsEnabled c) × ¬ (IsOverridden c)
  stale-goes c e =
      (λ h. ground (arith, e, h), check_override_annotation-false c (ground (arith, e)))

  fresh-stays : (c : Config Spec) → is_stale env handlers c ≡ false → IsEnabled c ⊎ IsOverridden c
  fresh-stays c e = elim (Bool-cases (is_enabled env.components (c.meta).name (c.meta).namespace)) [
    | inl h ↦ inl h
    | inr h ↦ inr ((check_override_annotation_iff c).0 (ground (arith, e, h)))
  ]

  clean_up-stale :
      ((store : St) (name ns : Text) → (handlers.delete store name ns).1 ≡ none)
      → (store : St) (c : Config Spec) (cs : List (Config Spec)) → is_stale env handlers c ≡ true
      → clean_up_stale_ap env handlers store (c ∷ cs)
        ≡ clean_up_stale_ap env handlers
            (handlers.delete store (c.meta).name (c.meta).namespace).0
            cs
  unfolding clean_up_stale_ap api_delete
  clean_up-stale accepted store c cs e =
      ground (arith, e, accepted store (c.meta).name (c.meta).namespace)

  clean_up-fresh :
      (store : St) (c : Config Spec) (cs : List (Config Spec))
      → is_stale env handlers c ≡ false
      → clean_up_stale_ap env handlers store (c ∷ cs) ≡ clean_up_stale_ap env handlers store cs
  unfolding clean_up_stale_ap
  clean_up-fresh store c cs e = ground (arith, e)

  -- If no deletion answers an error, the clean-up ends without one, and has deleted, in the order of
  -- the list, the policies that are not enabled for their services and do not have the annotation
  -- `overrideAuthzPolicy` with the value `true`, and no other.
  pub clean_up_stale_ap-delete_all :
      ((store : St) (name ns : Text) → (handlers.delete store name ns).1 ≡ none)
      → (store : St) (cs : List (Config Spec))
      → (found : List (Config Spec)) × StaleOf cs found
        × (clean_up_stale_ap env handlers store cs ≡ (delete_all store found, none))
  unfolding clean_up_stale_ap delete_all
  clean_up_stale_ap-delete_all accepted store [] = ([], ends, refl)
  clean_up_stale_ap-delete_all accepted store (c ∷ cs) =
      elim (Bool-cases (is_stale env handlers c)) [
        | inl e ↦
            let (found, of, run) =
              clean_up_stale_ap-delete_all accepted
                (handlers.delete store (c.meta).name (c.meta).namespace).0 cs in
            let (off, plain) = stale-goes c e in
            (c ∷ found, goes off plain of, clean_up-stale accepted store c cs e ∙ run)
        | inr e ↦
            let (found, of, run) = clean_up_stale_ap-delete_all accepted store cs in
            (found, stays (fresh-stays c e) of, clean_up-fresh store c cs e ∙ run)
      ]
