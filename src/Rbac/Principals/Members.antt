-- ===== src/Rbac/Principals/Members.antt =====
-- Whom the sources of a rule stand for.
use k8s_athenz_istio_auth.Prelude.{
  ℕ, ◌≡◌, ◌≢◌, ◌⊎◌, refl, subst, ap, ◌∙◌, Bool, true, false, List, [], ◌∷◌, Option, none, some,
  arith, All, All-append, In, inl, inr, Bool-cases,
}
use k8s_athenz_istio_auth.Prelude.Outcome.{
  Result, ok, err, returns, panics, bind, bind-eq_returns, returns_injective,
}
use k8s_athenz_istio_auth.Prelude.Text.{Text}
use k8s_athenz_istio_auth.Prelude.Keyed.{lookup}
use k8s_athenz_istio_auth.Athenz.Zms.{RoleMember, GroupMember}
use k8s_athenz_istio_auth.Athenz.Model.{Model}
use k8s_athenz_istio_auth.Rbac.Spec.{Source}
use k8s_athenz_istio_auth.Rbac.Member.{
  Member, role_member, group_member, check_athenz_member_expiry, check_athenz_system_disabled,
  check_if_member_is_all_users_from_domain, member_to_spiffe, member_to_origin_jwt_subject,
}
use k8s_athenz_istio_auth.Rbac.Member.Validity.{IsUnexpired, IsNotDisabled, role_member-valid_iff}
use k8s_athenz_istio_auth.Rbac.Principals.{
  disabled_pass, no_source, join_sources, jwt_names, passed, passes, spiffe_source,
  namespace_source, member_source,
}

-- Not past its expiration, and not disabled.
abbrev pub IsValid : ℕ → RoleMember → Type 0
IsValid now r = IsUnexpired now r.expiration × IsNotDisabled r.system_disabled

abbrev pub as_role_member : GroupMember → RoleMember
as_role_member g = record {
  member_name = g.member_name;
  expiration = g.expiration;
  system_disabled = g.system_disabled;
}

passed-true : (d : Result Bool) → passed d ≡ true → d ≡ ok true
passed-true (ok true) h = refl
passed-true (ok false) h = cc
passed-true (err e) h = cc

disabled_pass_sound :
    (member : Member) (e : Result Bool)
    → disabled_pass member (passed e) ≡ returns true
    → (e ≡ ok true) × (check_athenz_system_disabled member ≡ returns (ok true))
unfolding disabled_pass
disabled_pass_sound member (err x) h = cc
disabled_pass_sound member (ok false) h = cc
disabled_pass_sound member (ok true) h =
    let (d, hd, h1) =
      bind-eq_returns (check_athenz_system_disabled member) (λ disabled. returns (passed disabled))
        h in
    (refl, hd ∙ ap returns (passed-true d (returns_injective h1)))

passes_sound :
    (now : ℕ) (member : Member)
    → passes now member ≡ returns true
    → (check_athenz_member_expiry now member ≡ returns (ok true))
      × (check_athenz_system_disabled member ≡ returns (ok true))
unfolding passes
passes_sound now member h =
    let (e, he, h1) =
      bind-eq_returns (check_athenz_member_expiry now member)
        (λ expiry. disabled_pass member (passed expiry)) h in
    let (is_ok, hd) = disabled_pass_sound member e h1 in (he ∙ ap returns is_ok, hd)

pub passes-IsValid :
    (now : ℕ) (r : RoleMember) → passes now (role_member (some r)) ≡ returns true → IsValid now r
passes-IsValid now r h = (role_member-valid_iff now r).0 (passes_sound now (role_member (some r)) h)

-- A group member is checked like a role member.
pub passes-as_role_member :
    (now : ℕ) (g : GroupMember)
    → passes now (group_member (some g)) ≡ passes now (role_member (some (as_role_member g)))
unfolding passes check_athenz_member_expiry check_athenz_system_disabled
passes-as_role_member now g = refl

pub nil_member-passes : (now : ℕ) → passes now (group_member none) ≡ panics
unfolding passes check_athenz_member_expiry
nil_member-passes now = refl

module _ (enable_origin_jwt_subject : Bool) (now : ℕ) (m : Model)
    (rs : List (Option RoleMember)) where
  -- A valid member of the role that is no group, or a valid member of a group that is itself a valid
  -- member of the role.
  abbrev pub Stands : Member → Type 0
  Stands member =
      (r : RoleMember) × In (some r) rs
      × IsValid now r
      × (((lookup m.group_members r.member_name ≡ none) × (member ≡ role_member (some r)))
          ⊎ ((gs : List (Option GroupMember)) × (g : GroupMember) × (lookup m.group_members
                  r.member_name
                ≡ some gs)
              × In (some g) gs
              × IsValid now (as_role_member g)
              × (member ≡ group_member (some g))))

  abbrev pub IsPrincipal : Text → Type 0
  IsPrincipal p = (member : Member) × Stands member × (member_to_spiffe member ≡ returns (ok p))

  abbrev pub IsRequestPrincipal : Text → Type 0
  IsRequestPrincipal p =
      (enable_origin_jwt_subject ≡ true)
      × (member : Member) × Stands member
      × (member_to_origin_jwt_subject member ≡ returns (ok p))

  abbrev pub IsNamespace : Text → Type 0
  IsNamespace ns =
      (ns ≢ [])
      × (member : Member) × Stands member
      × (check_if_member_is_all_users_from_domain member m.name ≡ returns (ok ns))

  -- Each entry of the source comes from a member that stands for itself.
  abbrev pub IsAllowed : Source → Type 0
  IsAllowed s =
      All IsPrincipal s.principals
      × All IsRequestPrincipal s.request_principals
      × All IsNamespace s.namespaces

  pub no_source-IsAllowed : IsAllowed no_source
  no_source-IsAllowed = (tt, tt, tt)

  pub join_sources-IsAllowed :
      (a b : Source) → IsAllowed a → IsAllowed b → IsAllowed (join_sources a b)
  join_sources-IsAllowed a b (p, r, n) (p', r', n') = (
    All-append IsPrincipal a.principals b.principals p p',
    All-append IsRequestPrincipal a.request_principals b.request_principals r r',
    All-append IsNamespace a.namespaces b.namespaces n n',
  )

  jwt_names-IsRequestPrincipal :
      (member : Member) (j : Result Text)
      → enable_origin_jwt_subject ≡ true
      → Stands member
      → member_to_origin_jwt_subject member ≡ returns j
      → All IsRequestPrincipal (jwt_names j)
  jwt_names-IsRequestPrincipal member (err e) jwt stands h = tt
  jwt_names-IsRequestPrincipal member (ok p) jwt stands h = ((jwt, member, stands, h), tt)

  spiffe_source-IsAllowed :
      (member : Member) (spiffe : Result Text) (s : Source)
      → Stands member
      → member_to_spiffe member ≡ returns spiffe
      → spiffe_source enable_origin_jwt_subject now member spiffe ≡ returns s
      → IsAllowed s
  unfolding spiffe_source
  spiffe_source-IsAllowed member (err e) s stands found h =
      subst IsAllowed (returns_injective h) no_source-IsAllowed
  spiffe_source-IsAllowed member (ok name) s stands found h =
      elim (Bool-cases enable_origin_jwt_subject) [
        | inl jwt ↦
            let h' : (bind (member_to_origin_jwt_subject member) λ j. returns (record {
              principals = name ∷ [];
              request_principals = jwt_names j;
              namespaces = [];
            }))
                ≡ returns s =
              ground (arith, jwt, h) in
            let (j, hj, hs) =
              bind-eq_returns (member_to_origin_jwt_subject member)
                (λ j. returns (record {
                  principals = name ∷ [];
                  request_principals = jwt_names j;
                  namespaces = [];
                }))
                h' in
            subst IsAllowed (returns_injective hs) (
              ((member, stands, found), tt),
              jwt_names-IsRequestPrincipal member j jwt stands hj,
              tt,
            )
        | inr no_jwt ↦
            let hs : record no_source { principals = name ∷ [] } ≡ s = ground (arith, no_jwt, h) in
            subst IsAllowed hs (((member, stands, found), tt), tt, tt)
      ]

  namespace_source-IsAllowed :
      (member : Member) (namespace : Result Text) (s : Source)
      → Stands member
      → check_if_member_is_all_users_from_domain member m.name ≡ returns namespace
      → namespace_source enable_origin_jwt_subject now member namespace ≡ returns s
      → IsAllowed s
  unfolding namespace_source
  namespace_source-IsAllowed member (err e) s stands found h =
      subst IsAllowed (returns_injective h) no_source-IsAllowed
  namespace_source-IsAllowed member (ok []) s stands found h =
      let (spiffe, hm, hs) =
        bind-eq_returns (member_to_spiffe member)
          (λ spiffe. spiffe_source enable_origin_jwt_subject now member spiffe) h in
      spiffe_source-IsAllowed member spiffe s stands hm hs
  namespace_source-IsAllowed member (ok (c ∷ ns)) s stands found h =
      subst IsAllowed (returns_injective h) (tt, tt, (((λ e. cc), member, stands, found), tt))

  pub member_source-IsAllowed :
      (member : Member) (s : Source)
      → Stands member
      → member_source enable_origin_jwt_subject now m.name member ≡ returns s
      → IsAllowed s
  unfolding member_source
  member_source-IsAllowed member s stands h =
      let (namespace, hn, hs) =
        bind-eq_returns (check_if_member_is_all_users_from_domain member m.name)
          (λ namespace. namespace_source enable_origin_jwt_subject now member namespace) h in
      namespace_source-IsAllowed member namespace s stands hn hs
