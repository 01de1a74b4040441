-- ===== src/Rbac/Principals/Total.antt =====
-- About the returns of the members of a role in pkg/istio/rbac/v2/provider.go.
use k8s_athenz_istio_auth.Prelude.{
  ℕ, ◌≡◌, ◌≢◌, refl, ◌∙◌, Bool, true, false, List, [], ◌∷◌, Option, none, some, All,
}
use k8s_athenz_istio_auth.Prelude.Outcome.{Result, ok, err, Outcome, returns, bind-returns}
use k8s_athenz_istio_auth.Prelude.Text.{Text}
use k8s_athenz_istio_auth.Prelude.Keyed.{lookup}
use k8s_athenz_istio_auth.Athenz.Zms.{RoleMember, GroupMember}
use k8s_athenz_istio_auth.Athenz.Model.{Model}
use k8s_athenz_istio_auth.Rbac.Spec.{Source}
use k8s_athenz_istio_auth.Rbac.Member.{
  Member, role_member, group_member, nil_interface, other_value, check_athenz_member_expiry,
  check_athenz_system_disabled, check_if_member_is_all_users_from_domain, member_to_spiffe,
  member_to_origin_jwt_subject,
}
use k8s_athenz_istio_auth.Rbac.Principals.{
  passed, disabled_pass, passes, spiffe_source, namespace_source, member_source, passed_source,
  group_source, expanded_source, passed_role_source, role_member_source, members_source,
}

-- The member is a pointer that is not nil.
data IsThere : Member → Type 0 where
  role_there : (r : RoleMember) → IsThere (role_member (some r))
  group_there : (g : GroupMember) → IsThere (group_member (some g))

abbrev Returns : {A : Type 0} → Outcome A → Type 0
Returns {A = A} o = (a : A) × (o ≡ returns a)

option_returns :
    {A : Type 0} (o : Option ℕ) (a : A) (f : ℕ → A)
    → Returns (elim o [ none ↦ returns a | some n ↦ returns (f n) ])
option_returns none a f = (_, refl)
option_returns (some n) a f = (_, refl)

expiry_total :
    (now : ℕ) (member : Member) → IsThere member → Returns (check_athenz_member_expiry now member)
unfolding check_athenz_member_expiry
expiry_total now (role_member (some r)) (role_there r') = option_returns r.expiration _ _
expiry_total now (group_member (some g)) (group_there g') = option_returns g.expiration _ _
expiry_total now nil_interface x = elim x [ ]
expiry_total now (role_member none) x = elim x [ ]
expiry_total now (group_member none) x = elim x [ ]
expiry_total now other_value x = elim x [ ]

disabled_total : (member : Member) → IsThere member → Returns (check_athenz_system_disabled member)
unfolding check_athenz_system_disabled
disabled_total (role_member (some r)) (role_there r') = option_returns r.system_disabled _ _
disabled_total (group_member (some g)) (group_there g') = option_returns g.system_disabled _ _
disabled_total nil_interface x = elim x [ ]
disabled_total (role_member none) x = elim x [ ]
disabled_total (group_member none) x = elim x [ ]
disabled_total other_value x = elim x [ ]

disabled_pass_total :
    (member : Member) (pass : Bool) → IsThere member → Returns (disabled_pass member pass)
unfolding disabled_pass
disabled_pass_total member false there = (_, refl)
disabled_pass_total member true there =
    let (d, h) = disabled_total member there in (_, bind-returns _ _ h)

passes_total : (now : ℕ) (member : Member) → IsThere member → Returns (passes now member)
unfolding passes
passes_total now member there =
    let (e, h) = expiry_total now member there in
    let (p, k) = disabled_pass_total member (passed e) there in (p, bind-returns _ _ h ∙ k)

all_users_total :
    (member : Member) (domain : Text)
    → IsThere member
    → Returns (check_if_member_is_all_users_from_domain member domain)
unfolding check_if_member_is_all_users_from_domain
all_users_total (role_member (some r)) domain (role_there r') = (_, refl)
all_users_total (group_member (some g)) domain (group_there g') = (_, refl)
all_users_total nil_interface domain x = elim x [ ]
all_users_total (role_member none) domain x = elim x [ ]
all_users_total (group_member none) domain x = elim x [ ]
all_users_total other_value domain x = elim x [ ]

spiffe_total : (member : Member) → IsThere member → Returns (member_to_spiffe member)
unfolding member_to_spiffe
spiffe_total (role_member (some r)) (role_there r') = (_, refl)
spiffe_total (group_member (some g)) (group_there g') = (_, refl)
spiffe_total nil_interface x = elim x [ ]
spiffe_total (role_member none) x = elim x [ ]
spiffe_total (group_member none) x = elim x [ ]
spiffe_total other_value x = elim x [ ]

jwt_total : (member : Member) → IsThere member → Returns (member_to_origin_jwt_subject member)
unfolding member_to_origin_jwt_subject
jwt_total (role_member (some r)) (role_there r') = (_, refl)
jwt_total (group_member (some g)) (group_there g') = (_, refl)
jwt_total nil_interface x = elim x [ ]
jwt_total (role_member none) x = elim x [ ]
jwt_total (group_member none) x = elim x [ ]
jwt_total other_value x = elim x [ ]

-- No list of members of the model has a nil pointer.
pub record HasNoNilMember (m : Model) : Type 0 where
  pub members :
      (role : Text) (list : List (Option RoleMember))
      → lookup m.members role ≡ some list
      → All (λ r. r ≢ none) list
  pub group_members :
      (group : Text) (list : List (Option GroupMember))
      → lookup m.group_members group ≡ some list
      → All (λ g. g ≢ none) list

spiffe_source_total :
    (jwt : Bool) (now : ℕ) (member : Member) (r : Result Text)
    → IsThere member
    → Returns (spiffe_source jwt now member r)
unfolding spiffe_source
spiffe_source_total jwt now member (err e) there = (_, refl)
spiffe_source_total false now member (ok name) there = (_, refl)
spiffe_source_total true now member (ok name) there =
    let (j, h) = jwt_total member there in (_, bind-returns _ _ h)

module _ (jwt : Bool) (now : ℕ) where
  namespace_source_total :
      (member : Member) (r : Result Text)
      → IsThere member
      → Returns (namespace_source jwt now member r)
  unfolding namespace_source
  namespace_source_total member (err e) there = (_, refl)
  namespace_source_total member (ok (c ∷ ns)) there = (_, refl)
  namespace_source_total member (ok []) there =
      let (s, h) = spiffe_total member there in
      let (a, k) = spiffe_source_total jwt now member s there in (a, bind-returns _ _ h ∙ k)

  member_source_total :
      (domain : Text) (member : Member)
      → IsThere member
      → Returns (member_source jwt now domain member)
  unfolding member_source
  member_source_total domain member there =
      let (n, h) = all_users_total member domain there in
      let (a, k) = namespace_source_total member n there in (a, bind-returns _ _ h ∙ k)

  passed_source_total :
      (domain : Text) (member : Member) (pass : Bool)
      → IsThere member
      → Returns (passed_source jwt now domain member pass)
  unfolding passed_source
  passed_source_total domain member false there = (_, refl)
  passed_source_total domain member true there = member_source_total domain member there

  group_source_total :
      (domain : Text) (gs : List (Option GroupMember))
      → All (λ g. g ≢ none) gs
      → Returns (group_source jwt now domain gs)
  unfolding group_source
  group_source_total domain [] h = (_, refl)
  group_source_total domain (none ∷ gs) h = absurd (h.0 refl)
  group_source_total domain (some g ∷ gs) h =
      let (p, hp) = passes_total now (group_member (some g)) (group_there g) in
      let (first, hf) = passed_source_total domain (group_member (some g)) p (group_there g) in
      let (rest, hr) = group_source_total domain gs h.1 in
      (_, bind-returns _ _ hp ∙ bind-returns _ _ hf ∙ bind-returns _ _ hr)

  module _ (m : Model) (no_nil : HasNoNilMember m) where
    expanded_source_total :
        (r : RoleMember) (o : Option (List (Option GroupMember)))
        → lookup m.group_members r.member_name ≡ o
        → Returns (expanded_source jwt now m r o)
    unfolding expanded_source
    expanded_source_total r none e =
        member_source_total m.name (role_member (some r)) (role_there r)
    expanded_source_total r (some gs) e =
        group_source_total m.name gs (no_nil.group_members r.member_name gs e)

    passed_role_source_total :
        (r : RoleMember) (pass : Bool) → Returns (passed_role_source jwt now m r pass)
    unfolding passed_role_source
    passed_role_source_total r false = (_, refl)
    passed_role_source_total r true =
        expanded_source_total r (lookup m.group_members r.member_name) refl

    pub members_source_total :
        (rs : List (Option RoleMember))
        → All (λ r. r ≢ none) rs
        → (s : Source) × (members_source jwt now m rs ≡ returns s)
    unfolding members_source role_member_source
    members_source_total [] h = (_, refl)
    members_source_total (none ∷ rs) h = absurd (h.0 refl)
    members_source_total (some r ∷ rs) h =
        let (p, hp) = passes_total now (role_member (some r)) (role_there r) in
        let (first, hf) = passed_role_source_total r p in
        let (rest, hr) = members_source_total rs h.1 in
        (_, bind-returns _ _ (bind-returns _ _ hp ∙ hf) ∙ bind-returns _ _ hr)
