-- ===== src/Athenz/Model.antt =====
-- pkg/athenz/model.go: an Athenz domain as roles with their assertions and members.
pub mod Grouping
pub mod Placed
pub mod Total
use k8s_athenz_istio_auth.Prelude.{List, [], ◌∷◌, ◌++◌, Option, none, some, if◌then◌else◌}
use k8s_athenz_istio_auth.Prelude.Outcome.{Result, ok, err, Outcome, returns, panics, bind}
use k8s_athenz_istio_auth.Prelude.Text.{Text, is_empty}
use k8s_athenz_istio_auth.Prelude.Keyed.{Keyed, lookup, insert}
use k8s_athenz_istio_auth.Athenz.Names.{domain_to_namespace}
use k8s_athenz_istio_auth.Athenz.Zms.{
  RoleMember, GroupMember, Assertion, Policy, Role, Group, DomainData,
}
use k8s_athenz_istio_auth.Athenz.Trust.{Cached, process_trust_domain}

abbrev pub RoleAssertions : Type 0
RoleAssertions = Keyed (List (Option Assertion))

abbrev pub RoleMembers : Type 0
RoleMembers = Keyed (List (Option RoleMember))

abbrev pub GroupMembers : Type 0
GroupMembers = Keyed (List (Option GroupMember))

-- `Model`
pub record Model : Type 0 where
  pub name : Text
  pub namespace : Text
  pub roles : List Text
  pub rules : RoleAssertions
  pub members : RoleMembers
  pub group_members : GroupMembers

pub role_names : List Role → List Text
role_names [] = []
role_names (role ∷ roles) = role.name ∷ role_names roles

-- `getRolesForDomain`
pub get_roles_for_domain : Option DomainData → List Text
unfolding role_names
get_roles_for_domain none = []
get_roles_for_domain (some domain) = role_names domain.roles

abbrev pub or_empty {ℓ} : {A : Type ℓ} → Option (List A) → List A
or_empty none = []
or_empty (some xs) = xs

-- One round of the inner loop: the assertion goes behind those of its role.
pub add_assertion : RoleAssertions → Assertion → RoleAssertions
add_assertion rules a = insert rules a.role (or_empty (lookup rules a.role) ++ (some a ∷ []))

-- The loop over the assertions of a policy; a nil assertion is dereferenced.
pub add_assertions : RoleAssertions → List (Option Assertion) → Outcome RoleAssertions
unfolding add_assertion
add_assertions rules [] = returns rules
add_assertions rules (none ∷ assertions) = panics
add_assertions rules (some a ∷ assertions) = add_assertions (add_assertion rules a) assertions

-- The loop over the policies; a nil policy is dereferenced.
pub add_policies : RoleAssertions → List (Option Policy) → Outcome RoleAssertions
unfolding add_assertions
add_policies rules [] = returns rules
add_policies rules (none ∷ policies) = panics
add_policies rules (some policy ∷ policies) =
    bind (add_assertions rules policy.assertions) λ rules'. add_policies rules' policies

pub rules_of : Option (Option (List (Option Policy))) → Outcome RoleAssertions
unfolding add_policies
rules_of (some (some policies)) = add_policies [] policies
rules_of _ = returns []

-- `getRulesForDomain`
unfoldable pub get_rules_for_domain : Option DomainData → Outcome RoleAssertions
unfolding rules_of
get_rules_for_domain none = returns []
get_rules_for_domain (some domain) = rules_of domain.policies

-- The members of a role: its own, or those that the trusted domain gives. The answer is also
-- written into the cached role, where nothing reads it before it is written again.
pub role_members_of :
    Option (Text → Option Cached) → Role → Outcome (Result (List (Option RoleMember)))
unfolding process_trust_domain
role_members_of cr_cache role =
    if is_empty role.trust
    then returns (ok role.role_members)
    else process_trust_domain cr_cache role.trust role.name

-- The loop over the roles; a role whose trusted domain fails is left out.
pub add_role_members : Option (Text → Option Cached) → RoleMembers → List Role → Outcome RoleMembers
unfolding role_members_of
add_role_members cr_cache out [] = returns out
add_role_members cr_cache out (role ∷ roles) = bind (role_members_of cr_cache role) λ answer.
    elim answer [
      | err e ↦ add_role_members cr_cache out roles
      | ok members ↦ add_role_members cr_cache (insert out role.name members) roles
    ]

-- `getMembersForRole`
pub get_members_for_role : Option DomainData → Option (Text → Option Cached) → Outcome RoleMembers
unfolding add_role_members
get_members_for_role none cr_cache = returns []
get_members_for_role (some domain) cr_cache = add_role_members cr_cache [] domain.roles

pub add_group_members : GroupMembers → List Group → GroupMembers
add_group_members out [] = out
add_group_members out (group ∷ groups) =
    add_group_members (insert out group.name group.group_members) groups

-- `getMembersForGroup`
pub get_members_for_group : Option DomainData → GroupMembers
unfolding add_group_members
get_members_for_group none = []
get_members_for_group (some domain) = add_group_members [] domain.groups

abbrev pub domain_name_of : Option DomainData → Text
domain_name_of none = []
domain_name_of (some domain) = domain.name

-- `ConvertAthenzPoliciesIntoRbacModel`
unfoldable pub convert_athenz_policies_into_rbac_model :
    Option DomainData → Option (Text → Option Cached) → Outcome Model
unfolding get_roles_for_domain get_rules_for_domain get_members_for_role get_members_for_group
convert_athenz_policies_into_rbac_model domain cr_cache =
    bind (get_rules_for_domain domain) λ rules.
      bind (get_members_for_role domain cr_cache) λ members. returns (record {
        name = domain_name_of domain;
        namespace = domain_to_namespace (domain_name_of domain);
        roles = get_roles_for_domain domain;
        rules = rules;
        members = members;
        group_members = get_members_for_group domain;
      })
