-- ===== src/Rbac/Principals/Complete.antt =====
-- Which members of a role are among the sources of its rule.
use k8s_athenz_istio_auth.Prelude.{
  ℕ, ◌≡◌, refl, sym, subst, ap, ◌∙◌, Bool, true, List, [], ◌∷◌, Option, some, In, inl, inr,
}
use k8s_athenz_istio_auth.Prelude.Outcome.{returns, bind-eq_returns, returns_injective}
use k8s_athenz_istio_auth.Prelude.Keyed.{lookup}
use k8s_athenz_istio_auth.Athenz.Zms.{RoleMember, GroupMember}
use k8s_athenz_istio_auth.Athenz.Model.{Model}
use k8s_athenz_istio_auth.Rbac.Spec.{Source}
use k8s_athenz_istio_auth.Rbac.Member.{Member, role_member, group_member}
use k8s_athenz_istio_auth.Rbac.Member.Validity.{role_member-valid_iff}
use k8s_athenz_istio_auth.Rbac.Principals.{
  disabled_pass, passes, passed_source, group_source, expanded_source, passed_role_source,
  role_member_source, members_source,
}
use k8s_athenz_istio_auth.Rbac.Principals.Members.{
  IsValid, as_role_member, passes-as_role_member, Stands,
}
use k8s_athenz_istio_auth.Rbac.Principals.Entries.{
  Entry, Holds, join_sources-Holds_left, join_sources-Holds_right, Enters, member_source-Holds,
}

valid-passes :
    (now : ℕ) (r : RoleMember) → IsValid now r → passes now (role_member (some r)) ≡ returns true
unfolding passes disabled_pass
valid-passes now r valid =
    let (unexpired, not_disabled) = (role_member-valid_iff now r).1 valid in
    rw (unexpired, not_disabled) refl

module _ (jwt : Bool) (now : ℕ) (m : Model) where
  passed_source-Holds :
      (g : GroupMember) (g' : Option GroupMember) (pass : Bool) (entry : Entry) (s : Source)
      → some g ≡ g'
      → IsValid now (as_role_member g)
      → Enters jwt now m (group_member (some g)) entry
      → passes now (group_member g') ≡ returns pass
      → passed_source jwt now m.name (group_member g') pass ≡ returns s
      → Holds s entry
  unfolding passed_source
  passed_source-Holds g g' pass entry s here valid enters hp h =
      let passing : returns true ≡ returns pass =
        sym (passes-as_role_member now g ∙ valid-passes now (as_role_member g) valid)
        ∙ ap (λ o. passes now (group_member o)) here
        ∙ hp in
      let known : passed_source jwt now m.name (group_member (some g)) true ≡ returns s =
        ap (λ o. passed_source jwt now m.name (group_member o) true) here
        ∙ ap (passed_source jwt now m.name (group_member g')) (returns_injective passing)
        ∙ h in
      member_source-Holds jwt now m (group_member (some g)) entry s enters known

  -- A valid member of a group enters the source of the group.
  group_source-Holds :
      (g : GroupMember) (gs : List (Option GroupMember)) (entry : Entry) (s : Source)
      → In (some g) gs
      → IsValid now (as_role_member g)
      → Enters jwt now m (group_member (some g)) entry
      → group_source jwt now m.name gs ≡ returns s
      → Holds s entry
  unfolding group_source
  group_source-Holds g [] entry s i valid enters h = absurd i
  group_source-Holds g (g' ∷ gs) entry s i valid enters h =
      let (pass, hp, h1) = bind-eq_returns (passes now (group_member g')) _ h in
      let (first, hf, h2) =
        bind-eq_returns (passed_source jwt now m.name (group_member g') pass) _ h1 in
      let (rest, hr, h3) = bind-eq_returns (group_source jwt now m.name gs) _ h2 in
      subst (λ x. Holds x entry) (returns_injective h3)
        (elim i [
          | inl here ↦
              join_sources-Holds_left first rest entry
                (passed_source-Holds g g' pass entry first here valid enters hp hf)
          | inr later ↦
              join_sources-Holds_right first rest entry
                (group_source-Holds g gs entry rest later valid enters hr)
        ])

  Stands-Holds_expanded :
      (rs : List (Option RoleMember)) (member : Member) (entry : Entry)
      (stands : Stands jwt now m rs member) (s : Source)
      → Enters jwt now m member entry
      → expanded_source jwt now m stands.0 (lookup m.group_members (stands.0).member_name)
        ≡ returns s
      → Holds s entry
  unfolding expanded_source
  Stands-Holds_expanded rs member entry (r, i, valid, inl (no_group, e)) s enters h =
      member_source-Holds jwt now m (role_member (some r)) entry s
        (subst (λ x. Enters jwt now m x entry) e enters) (rw no_group at h)
  Stands-Holds_expanded rs member entry (r, i, valid, inr (gs, g, group, in_group, valid', e)) s
        enters h =
      group_source-Holds g gs entry s in_group valid'
        (subst (λ x. Enters jwt now m x entry) e enters) (rw group at h)

  Stands-Holds :
      (rs : List (Option RoleMember)) (member : Member) (entry : Entry)
      (stands : Stands jwt now m rs member) (s : Source)
      → Enters jwt now m member entry
      → role_member_source jwt now m (some stands.0) ≡ returns s
      → Holds s entry
  unfolding role_member_source passed_role_source
  Stands-Holds rs member entry (r, i, valid, way) s enters h =
      Stands-Holds_expanded rs member entry (r, i, valid, way) s enters
        (rw (valid-passes now r valid) at h)

  -- The loop over the rest `rs'` of the members, of which the one that the member stands for is.
  pub members_source-Holds :
      (rs rs' : List (Option RoleMember)) (member : Member) (entry : Entry)
      (stands : Stands jwt now m rs member) (s : Source)
      → In (some stands.0) rs'
      → Enters jwt now m member entry
      → members_source jwt now m rs' ≡ returns s
      → Holds s entry
  unfolding members_source
  members_source-Holds rs [] member entry stands s i enters h = absurd i
  members_source-Holds rs (r ∷ rs') member entry stands s i enters h =
      let (first, hf, h1) = bind-eq_returns (role_member_source jwt now m r) _ h in
      let (rest, hr, h2) = bind-eq_returns (members_source jwt now m rs') _ h1 in
      subst (λ x. Holds x entry) (returns_injective h2)
        (elim i [
          | inl here ↦ join_sources-Holds_left first rest entry (
              Stands-Holds rs member entry stands first enters
                (ap (role_member_source jwt now m) here ∙ hf))
          | inr later ↦
              join_sources-Holds_right first rest entry
                (members_source-Holds rs rs' member entry stands rest later enters hr)
        ])
