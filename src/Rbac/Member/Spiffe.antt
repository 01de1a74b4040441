-- ===== src/Rbac/Member/Spiffe.antt =====
-- Member names as principals and namespaces.
use k8s_athenz_istio_auth.Prelude.{
  suc, ◌≡◌, ◌↔◌, refl, false, [], ◌∷◌, ◌++◌, none, some, arith, take, drop, if◌then◌else◌,
  Option-cases, Bool-cases, inl, inr,
}
use k8s_athenz_istio_auth.Prelude.Outcome.{ok, returns}
use k8s_athenz_istio_auth.Prelude.Text.{
  Text, codes, same, is_empty, Lacks, take-append, drop-append_suc, take_before, has_suffix-append,
  has_prefix, same_iff, last_index, last_index-append, last_index-eq_some,
}
use k8s_athenz_istio_auth.Rbac.Member.{
  Member, nil_interface, role_member, group_member, other_value, get_member_name, member_to_spiffe,
  principal_to_spiffe, wild_card_all, all_users, all_users_namespace,
}
use k8s_athenz_istio_auth.Athenz.Names.{domain_to_namespace}

nonempty : (d s : Text) → is_empty (d ++ (b'.' ∷ s)) ≡ false
nonempty [] s = refl
nonempty (x ∷ d) s = refl

principal_to_spiffe-append :
    (d s : Text)
    → Lacks b'.' s
    → principal_to_spiffe (d ++ (b'.' ∷ s)) ≡ ok (d ++ (codes "/sa/" ++ s))
unfolding principal_to_spiffe
principal_to_spiffe-append d s lacks = rw (
  nonempty d s,
  last_index-append d s b'.' lacks,
  take-append d (b'.' ∷ s),
  drop-append_suc d b'.' s,
)

principal_to_spiffe_sound :
    (p t : Text)
    → principal_to_spiffe p ≡ ok t
    → (domain : Text) × (service : Text) × (p ≡ domain ++ (b'.' ∷ service))
      × Lacks b'.' service
      × (t ≡ domain ++ (codes "/sa/" ++ service))
unfolding principal_to_spiffe
principal_to_spiffe_sound [] t h = cc
principal_to_spiffe_sound (x ∷ s) t h = elim (Option-cases (last_index (x ∷ s) b'.')) [
  | inl e ↦ absurd (ground (arith, e))
  | inr (i, e) ↦
      let (split, lacks) = last_index-eq_some (x ∷ s) b'.' i e in
      (take i (x ∷ s), drop (suc i) (x ∷ s), split, lacks, ground (arith, e))
]

-- A principal has a SPIFFE name exactly when it has a dot; the name is then the part before the
-- last dot, `/sa/` and the part behind it.
pub principal_to_spiffe_iff :
    (principal spiffe : Text)
    → (principal_to_spiffe principal ≡ ok spiffe) ↔ (
        (domain : Text) × (service : Text) × (principal ≡ domain ++ (b'.' ∷ service))
        × Lacks b'.' service
        × (spiffe ≡ domain ++ (codes "/sa/" ++ service)))
principal_to_spiffe_iff principal spiffe = (
  principal_to_spiffe_sound principal spiffe,
  λ (d, s, e, lacks, f). rw (e, f) (principal_to_spiffe-append d s lacks),
)

long-wild : (d s : Text) → ¬ (codes "*" ≡ d ++ (codes "/sa/" ++ s))
long-wild [] s h = cc
long-wild (x ∷ []) s h = cc
long-wild (x ∷ y ∷ d) s h = cc

principal_to_spiffe-ne-wild : (p : Text) → ¬ (principal_to_spiffe p ≡ ok wild_card_all)
principal_to_spiffe-ne-wild p h =
    let (d, s, _, _, e) = principal_to_spiffe_sound p wild_card_all h in long-wild d s e

wild_iff :
    (name : Text)
    → ((if same name all_users then ok wild_card_all else principal_to_spiffe name)
        ≡ ok wild_card_all)
      ↔ (name ≡ all_users)
wild_iff name = elim (Bool-cases (same name all_users)) [
  | inl e ↦ rw e (λ _. (same_iff name all_users).0 e, λ _. refl)
  | inr e ↦ rw e (
    λ h. absurd (principal_to_spiffe-ne-wild name h),
    λ h. ground (arith, e, same_iff name all_users),
  )
]

returned_iff :
    (name : Text)
    → (returns (if same name all_users then ok wild_card_all else principal_to_spiffe name)
        ≡ returns (ok wild_card_all))
      ↔ (returns name ≡ returns all_users)
returned_iff name = (λ h. cc ((wild_iff name).0 (cc)), λ h. cc ((wild_iff name).1 (cc)))

-- A member stands for every principal exactly when it is a member named `user.*`.
pub member_to_spiffe-wild_iff :
    (m : Member)
    → (member_to_spiffe m ≡ returns (ok wild_card_all)) ↔ (get_member_name m ≡ returns all_users)
unfolding member_to_spiffe
member_to_spiffe-wild_iff nil_interface = (λ h. cc, λ h. cc)
member_to_spiffe-wild_iff other_value = returned_iff []
member_to_spiffe-wild_iff (role_member none) = (λ h. cc, λ h. cc)
member_to_spiffe-wild_iff (role_member (some m)) = returned_iff m.member_name
member_to_spiffe-wild_iff (group_member none) = (λ h. cc, λ h. cc)
member_to_spiffe-wild_iff (group_member (some m)) = returned_iff m.member_name

-- A member named `domain.*` outside the domains `user` and `unix` stands for the namespace of its domain.
pub all_users_namespace-append :
    (domain : Text)
    → has_prefix (domain ++ codes ".*") (codes "unix.") ≡ false
    → has_prefix (domain ++ codes ".*") (codes "user.") ≡ false
    → all_users_namespace (domain ++ codes ".*") ≡ domain_to_namespace domain
unfolding all_users_namespace
all_users_namespace-append domain hx hu =
    rw (hx, hu, has_suffix-append domain (codes ".*"), take_before domain (codes ".*"))
