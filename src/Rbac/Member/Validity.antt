-- ===== src/Rbac/Member/Validity.antt =====
-- Which members take part, and what the nil tests are worth.
use k8s_athenz_istio_auth.Prelude.{ℕ, ◌≡◌, ◌↔◌, ◌⊎◌, ◌≤◌, refl, true, Option, none, some, arith}
use k8s_athenz_istio_auth.Prelude.Outcome.{ok, returns, panics}
use k8s_athenz_istio_auth.Prelude.Text.{Text}
use k8s_athenz_istio_auth.Athenz.Zms.{RoleMember}
use k8s_athenz_istio_auth.Rbac.Member.{
  Member, role_member, group_member, check_athenz_member_expiry, check_athenz_system_disabled,
  member_to_spiffe, member_to_origin_jwt_subject, check_if_member_is_all_users_from_domain,
}

-- Not past the expiration, if there is one.
abbrev pub IsUnexpired : ℕ → Option ℕ → Type 0
IsUnexpired now none = Unit
IsUnexpired now (some at) = now ≤ at

-- Not disabled: no flag, or a flag of zero.
abbrev pub IsNotDisabled : Option ℕ → Type 0
IsNotDisabled none = Unit
IsNotDisabled (some bits) = bits ≡ 0

expiry_iff :
    (now : ℕ) (name : Text) (expiration disabled : Option ℕ)
    → (check_athenz_member_expiry now (
          role_member (
            some
              (record { member_name = name; expiration = expiration; system_disabled = disabled })))
        ≡ returns (ok true))
      ↔ IsUnexpired now expiration
unfolding check_athenz_member_expiry
expiry_iff now name none disabled = (λ _. tt, λ _. refl)
expiry_iff now name (some at) disabled = ground arith

disabled_iff :
    (name : Text) (expiration disabled : Option ℕ)
    → (check_athenz_system_disabled (
          role_member (
            some
              (record { member_name = name; expiration = expiration; system_disabled = disabled })))
        ≡ returns (ok true))
      ↔ IsNotDisabled disabled
unfolding check_athenz_system_disabled
disabled_iff name expiration none = (λ _. tt, λ _. refl)
disabled_iff name expiration (some bits) = ground arith

-- A present role member passes both checks exactly when it is not past its expiration and its
-- disabled flag is absent or zero.
pub role_member-valid_iff :
    (now : ℕ) (m : RoleMember)
    → ((check_athenz_member_expiry now (role_member (some m)) ≡ returns (ok true))
        × (check_athenz_system_disabled (role_member (some m)) ≡ returns (ok true)))
      ↔ (IsUnexpired now m.expiration × IsNotDisabled m.system_disabled)
role_member-valid_iff now m =
    let e : (check_athenz_member_expiry now (role_member (some m)) ≡ returns (ok true))
        ↔ IsUnexpired now m.expiration =
      expiry_iff now m.member_name m.expiration m.system_disabled in
    let d : (check_athenz_system_disabled (role_member (some m)) ≡ returns (ok true))
        ↔ IsNotDisabled m.system_disabled =
      disabled_iff m.member_name m.expiration m.system_disabled in
    (λ (h, k). (e.0 h, d.0 k), λ (h, k). (e.1 h, d.1 k))

-- The test for nil never catches a nil pointer to a member: each function that makes the test
-- panics on it.
pub nil_pointer-panics :
    (now : ℕ) (domain : Text) (m : Member)
    → (m ≡ role_member none) ⊎ (m ≡ group_member none)
    → (member_to_spiffe m ≡ panics)
      × (member_to_origin_jwt_subject m ≡ panics)
      × (check_if_member_is_all_users_from_domain m domain ≡ panics)
      × (check_athenz_member_expiry now m ≡ panics)
      × (check_athenz_system_disabled m ≡ panics)
unfolding member_to_spiffe member_to_origin_jwt_subject check_if_member_is_all_users_from_domain
    check_athenz_member_expiry check_athenz_system_disabled
nil_pointer-panics now domain m h = ground arith
