-- ===== src/Athenz/Model/Total.antt =====
-- About the domains that pkg/athenz/model.go converts without a dereference of nil.
use k8s_athenz_istio_auth.Prelude.{
  ◌≢◌, refl, List, [], ◌∷◌, ◌++◌, Option, none, some, All, All-append, inl, inr, Bool-cases,
  Option-cases,
}
use k8s_athenz_istio_auth.Prelude.Outcome.{Result, ok, err, Yields, bind-Yields}
use k8s_athenz_istio_auth.Prelude.Text.{Text, is_empty}
use k8s_athenz_istio_auth.Prelude.Keyed.{lookup, insert, Values, Values-nil, Values-insert}
use k8s_athenz_istio_auth.Athenz.Zms.{RoleMember, Assertion, Policy, Role, Group, DomainData}
use k8s_athenz_istio_auth.Athenz.Trust.{Cached}
use k8s_athenz_istio_auth.Athenz.Model.{
  RoleAssertions, RoleMembers, GroupMembers, Model, or_empty, add_assertion, add_assertions,
  add_policies, rules_of, get_rules_for_domain, role_members_of, add_role_members,
  get_members_for_role, add_group_members, get_members_for_group,
  convert_athenz_policies_into_rbac_model,
}
use k8s_athenz_istio_auth.Athenz.Trust.Whole.{
  NoNil, IsPresent, HasPolicies, IsWhole, IsWholeCache, HasMembers, NoNilResult,
  process_trust_domain-Yields,
}

or_empty-NoNil :
    (rules : RoleAssertions) (role : Text)
    → Values NoNil rules
    → NoNil (or_empty (lookup rules role))
or_empty-NoNil rules role all = elim (Option-cases (lookup rules role)) [
  | inl e ↦ rw e tt
  | inr (list, e) ↦ let there = all role list e in rw e there
]

add_assertions-Values :
    (rules : RoleAssertions) (assertions : List (Option Assertion))
    → Values NoNil rules
    → NoNil assertions
    → Yields (Values NoNil) (add_assertions rules assertions)
unfolding add_assertions add_assertion
add_assertions-Values rules [] all there = (rules, refl, all)
add_assertions-Values rules (none ∷ assertions) all there = absurd (there.0 refl)
add_assertions-Values rules (some a ∷ assertions) all there =
    add_assertions-Values (insert rules a.role (or_empty (lookup rules a.role) ++ (some a ∷ [])))
      assertions
      (Values-insert NoNil rules a.role (or_empty (lookup rules a.role) ++ (some a ∷ [])) all (
        All-append (λ p. p ≢ none) (or_empty (lookup rules a.role)) (some a ∷ [])
          (or_empty-NoNil rules a.role all) (there.0, tt)))
      there.1

add_policies-Values :
    (rules : RoleAssertions) (policies : List (Option Policy))
    → Values NoNil rules
    → All IsPresent policies
    → Yields (Values NoNil) (add_policies rules policies)
unfolding add_policies
add_policies-Values rules [] all there = (rules, refl, all)
add_policies-Values rules (none ∷ policies) all there = absurd there.0
add_policies-Values rules (some policy ∷ policies) all there =
    bind-Yields (Values NoNil) (Values NoNil) (add_assertions rules policy.assertions) _
      (add_assertions-Values rules policy.assertions all there.0)
      λ rules' all'. add_policies-Values rules' policies all' there.1

rules_of-Values :
    (policies : Option (Option (List (Option Policy))))
    → HasPolicies policies
    → Yields (Values NoNil) (rules_of policies)
unfolding rules_of
rules_of-Values none there = absurd there
rules_of-Values (some none) there = absurd there
rules_of-Values (some (some policies)) there =
    add_policies-Values [] policies (Values-nil NoNil) there

get_rules_for_domain-Values :
    (domain : DomainData)
    → IsWhole domain
    → Yields (Values NoNil) (get_rules_for_domain (some domain))
unfolding get_rules_for_domain
get_rules_for_domain-Values domain whole = rules_of-Values domain.policies whole.policies

module _ (get_by_key : Text → Option Cached) (whole : IsWholeCache get_by_key) where
  role_members_of-Yields :
      (role : Role) → HasMembers role → Yields NoNilResult (role_members_of (some get_by_key) role)
  unfolding role_members_of
  role_members_of-Yields role there = elim (Bool-cases (is_empty role.trust)) [
    | inl e ↦ rw e (ok role.role_members, refl, there)
    | inr e ↦
        let trusted = process_trust_domain-Yields get_by_key role.trust role.name whole in
        rw e trusted
  ]

  answered-Values :
      (out : RoleMembers) (role : Role) (roles : List Role)
      → Values NoNil out
      → ((out' : RoleMembers)
          → Values NoNil out'
          → Yields (Values NoNil) (add_role_members (some get_by_key) out' roles))
      → (answer : Result (List (Option RoleMember))) → NoNilResult answer
      → Yields (Values NoNil) (elim answer [
        | err e ↦ add_role_members (some get_by_key) out roles
        | ok members ↦ add_role_members (some get_by_key) (insert out role.name members) roles
      ])
  answered-Values out role roles all next (err e) h = next out all
  answered-Values out role roles all next (ok members) h =
      next (insert out role.name members) (Values-insert NoNil out role.name members all h)

  add_role_members-Values :
      (out : RoleMembers) (roles : List Role)
      → Values NoNil out
      → All HasMembers roles
      → Yields (Values NoNil) (add_role_members (some get_by_key) out roles)
  unfolding add_role_members
  add_role_members-Values out [] all there = (out, refl, all)
  add_role_members-Values out (role ∷ roles) all there =
      bind-Yields NoNilResult (Values NoNil) (role_members_of (some get_by_key) role) _
        (role_members_of-Yields role there.0)
        (answered-Values out role roles all
          λ out' all'. add_role_members-Values out' roles all' there.1)

  get_members_for_role-Values :
      (domain : DomainData)
      → IsWhole domain
      → Yields (Values NoNil) (get_members_for_role (some domain) (some get_by_key))
  unfolding get_members_for_role
  get_members_for_role-Values domain there =
      add_role_members-Values [] domain.roles (Values-nil NoNil) there.role_members

add_group_members-Values :
    (out : GroupMembers) (groups : List Group)
    → Values NoNil out
    → All (λ (group : Group). NoNil group.group_members) groups
    → Values NoNil (add_group_members out groups)
unfolding add_group_members
add_group_members-Values out [] all there = all
add_group_members-Values out (group ∷ groups) all there =
    add_group_members-Values (insert out group.name group.group_members) groups
      (Values-insert NoNil out group.name group.group_members all there.0) there.1

-- No list of assertions, of role members or of group members of the model has a nil pointer.
pub record IsWholeModel (m : Model) : Type 0 where
  pub rules : Values NoNil m.rules
  pub members : Values NoNil m.members
  pub group_members : Values NoNil m.group_members

-- Roles and groups are taken as present. Where the domain, and every domain of the cache, has policies
-- and no nil pointer among them, their assertions and the members of its roles and groups, the domain
-- is converted into a model, and no list of that model has a nil pointer.
pub convert_athenz_policies_into_rbac_model-Yields :
    (domain : DomainData) (get_by_key : Text → Option Cached)
    → IsWhole domain
    → IsWholeCache get_by_key
    → Yields IsWholeModel (convert_athenz_policies_into_rbac_model (some domain) (some get_by_key))
unfolding convert_athenz_policies_into_rbac_model get_members_for_group
convert_athenz_policies_into_rbac_model-Yields domain get_by_key there whole =
    bind-Yields (Values NoNil) IsWholeModel (get_rules_for_domain (some domain)) _
      (get_rules_for_domain-Values domain there)
      λ rules all_rules.
        bind-Yields (Values NoNil) IsWholeModel
          (get_members_for_role (some domain) (some get_by_key)) _
          (get_members_for_role-Values get_by_key whole domain there)
          λ members all_members. (
            _,
            refl,
            record {
              rules = all_rules;
              members = all_members;
              group_members =
                  add_group_members-Values [] domain.groups (Values-nil NoNil) there.group_members;
            },
          )
