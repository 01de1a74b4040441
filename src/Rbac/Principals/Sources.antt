-- ===== src/Rbac/Principals/Sources.antt =====
-- The sources of a rule stand for members of its role.
use k8s_athenz_istio_auth.Prelude.{
  ℕ, ◌≡◌, refl, sym, subst, ◌∙◌, Bool, true, false, List, [], ◌∷◌, Option, none, some, arith, In,
  inl, inr, Option-cases,
}
use k8s_athenz_istio_auth.Prelude.Outcome.{returns, bind-eq_returns, returns_injective}
use k8s_athenz_istio_auth.Prelude.Keyed.{lookup}
use k8s_athenz_istio_auth.Athenz.Zms.{RoleMember, GroupMember}
use k8s_athenz_istio_auth.Athenz.Model.{Model}
use k8s_athenz_istio_auth.Rbac.Spec.{Source}
use k8s_athenz_istio_auth.Rbac.Member.{role_member, group_member}
use k8s_athenz_istio_auth.Rbac.Principals.{
  passes, group_source, expanded_source, role_member_source, members_source,
}
use k8s_athenz_istio_auth.Rbac.Principals.{passed_source, passed_role_source}
use k8s_athenz_istio_auth.Rbac.Principals.Members.{
  as_role_member, IsValid, passes-IsValid, passes-as_role_member, nil_member-passes, IsAllowed,
  no_source-IsAllowed, join_sources-IsAllowed, member_source-IsAllowed,
}

module _ (jwt : Bool) (now : ℕ) (m : Model) (rs : List (Option RoleMember)) where
  passed_source-IsAllowed :
      (r : RoleMember) (gs : List (Option GroupMember)) (g : GroupMember) (pass : Bool) (s : Source)
      → In (some r) rs
      → IsValid now r
      → lookup m.group_members r.member_name ≡ some gs
      → In (some g) gs
      → passes now (group_member (some g)) ≡ returns pass
      → passed_source jwt now m.name (group_member (some g)) pass ≡ returns s
      → IsAllowed jwt now m rs s
  unfolding passed_source
  passed_source-IsAllowed r gs g false s member valid group in_group hp h =
      subst (IsAllowed jwt now m rs) (returns_injective h) (no_source-IsAllowed jwt now m rs)
  passed_source-IsAllowed r gs g true s member valid group in_group hp h =
      let valid' : IsValid now (as_role_member g) =
        passes-IsValid now (as_role_member g) (sym (passes-as_role_member now g) ∙ hp) in
      member_source-IsAllowed jwt now m rs (group_member (some g)) s
        (r, member, valid, inr (gs, g, group, in_group, valid', refl)) h

  -- The loop over the rest `gs'` of the members of the group `gs`, whose role member is `r`.
  group_source-IsAllowed :
      (r : RoleMember) (gs gs' : List (Option GroupMember)) (s : Source)
      → In (some r) rs
      → IsValid now r
      → lookup m.group_members r.member_name ≡ some gs
      → ((g : GroupMember) → In (some g) gs' → In (some g) gs)
      → group_source jwt now m.name gs' ≡ returns s
      → IsAllowed jwt now m rs s
  unfolding group_source
  group_source-IsAllowed r gs [] s member valid group sub h =
      subst (IsAllowed jwt now m rs) (returns_injective h) (no_source-IsAllowed jwt now m rs)
  group_source-IsAllowed r gs (none ∷ gs') s member valid group sub h =
      absurd (ground (arith, nil_member-passes now, h))
  group_source-IsAllowed r gs (some g ∷ gs') s member valid group sub h =
      let (pass, hp, h1) = bind-eq_returns (passes now (group_member (some g))) _ h in
      let (first, hf, h2) =
        bind-eq_returns (passed_source jwt now m.name (group_member (some g)) pass) _ h1 in
      let (rest, hr, h3) = bind-eq_returns (group_source jwt now m.name gs') _ h2 in
      subst (IsAllowed jwt now m rs) (returns_injective h3) (
        join_sources-IsAllowed jwt now m rs first rest
          (passed_source-IsAllowed r gs g pass first member valid group (sub g (inl refl)) hp hf)
          (group_source-IsAllowed r gs gs' rest member valid group (λ g' i. sub g' (inr i)) hr))

  expanded_source-IsAllowed :
      (r : RoleMember) (s : Source)
      → In (some r) rs
      → IsValid now r
      → expanded_source jwt now m r (lookup m.group_members r.member_name) ≡ returns s
      → IsAllowed jwt now m rs s
  unfolding expanded_source
  expanded_source-IsAllowed r s member valid h =
      elim (Option-cases (lookup m.group_members r.member_name)) [
        | inl e ↦
            member_source-IsAllowed jwt now m rs (role_member (some r)) s
              (r, member, valid, inl (e, refl)) (rw (e, expanded_source) at h)
        | inr (gs, e) ↦
            group_source-IsAllowed r gs gs s member valid e (λ g h. h)
              (rw (e, expanded_source) at h)
      ]

  passed_role_source-IsAllowed :
      (r : RoleMember) (pass : Bool) (s : Source)
      → In (some r) rs
      → passes now (role_member (some r)) ≡ returns pass
      → passed_role_source jwt now m r pass ≡ returns s
      → IsAllowed jwt now m rs s
  unfolding passed_role_source
  passed_role_source-IsAllowed r false s member hp h =
      subst (IsAllowed jwt now m rs) (returns_injective h) (no_source-IsAllowed jwt now m rs)
  passed_role_source-IsAllowed r true s member hp h =
      expanded_source-IsAllowed r s member (passes-IsValid now r hp) h

  -- The loop over the rest `rs'` of the members.
  pub members_source-IsAllowed :
      (rs' : List (Option RoleMember)) (s : Source)
      → ((r : RoleMember) → In (some r) rs' → In (some r) rs)
      → members_source jwt now m rs' ≡ returns s
      → IsAllowed jwt now m rs s
  unfolding members_source role_member_source
  members_source-IsAllowed [] s sub h =
      subst (IsAllowed jwt now m rs) (returns_injective h) (no_source-IsAllowed jwt now m rs)
  members_source-IsAllowed (none ∷ rs') s sub h = cc
  members_source-IsAllowed (some r ∷ rs') s sub h =
      let (first, hf, h2) = bind-eq_returns (role_member_source jwt now m (some r)) _ h in
      let (pass, hp, h1) = bind-eq_returns (passes now (role_member (some r))) _ hf in
      let (rest, hr, h3) = bind-eq_returns (members_source jwt now m rs') _ h2 in
      subst (IsAllowed jwt now m rs) (returns_injective h3) (
        join_sources-IsAllowed jwt now m rs first rest
          (passed_role_source-IsAllowed r pass first (sub r (inl refl)) hp h1)
          (members_source-IsAllowed rs' rest (λ r' i. sub r' (inr i)) hr))
