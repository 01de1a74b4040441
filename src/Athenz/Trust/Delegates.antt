-- ===== src/Athenz/Trust/Delegates.antt =====
-- Whose members a delegated role gets.
use k8s_athenz_istio_auth.Prelude.{
  ◌≡◌, ◌⊎◌, refl, true, List, [], ◌∷◌, Option, none, some, arith, Bool-cases, Option-cases, inl,
  inr, In,
}
use k8s_athenz_istio_auth.Prelude.Outcome.{ok, returns, bind-eq_returns}
use k8s_athenz_istio_auth.Prelude.Text.{Text, codes, same, same_iff, is_empty}
use k8s_athenz_istio_auth.Prelude.Regexp.{match_whole}
use k8s_athenz_istio_auth.Athenz.Zms.{RoleMember, Assertion, Policy, Role, DomainData}
use k8s_athenz_istio_auth.Athenz.Trust.{
  role_replacer, Cached, athenz_domain, other_object, delegated_members, assume_role,
  assume_in_assertions, assume_in_policies, policies_of, trust_answer, process_trust_domain,
}
use k8s_athenz_istio_auth.Athenz.Trust.Glob.{Fits, match_whole-role_replacer_iff}

is_empty-nil : (s : Text) → is_empty s ≡ true → s ≡ []
is_empty-nil [] h = refl
is_empty-nil (c ∷ s) h = cc

-- The assertion lets its role assume the named role, and the members are those of its role, which
-- the domain does not delegate again.
pub record Delegates (roles : List Role) (role_name : Text) (a : Assertion)
    (members : List (Option RoleMember)) : Type 0 where
  pub role : Role
  pub assumes : a.action ≡ codes "assume_role"
  pub fits : Fits a.resource role_name
  pub member : In role roles
  pub named : role.name ≡ a.role
  pub own : role.trust ≡ []
  pub answer : members ≡ role.role_members

delegated_members_sound :
    (name : Text) (roles : List Role) (members : List (Option RoleMember))
    → delegated_members name roles ≡ some members
    → (members ≡ [])
      ⊎ ((role : Role) × In role roles
          × (role.name ≡ name)
          × (role.trust ≡ [])
          × (members ≡ role.role_members))
unfolding delegated_members
delegated_members_sound name [] members h = cc
delegated_members_sound name (role ∷ roles) members h = elim (Bool-cases (same role.name name)) [
  | inl e ↦ elim (Bool-cases (is_empty role.trust)) [
    | inl t ↦ inr (
      role,
      inl refl,
      (same_iff role.name name).0 e,
      is_empty-nil role.trust t,
      ground (arith, e, t),
    )
    | inr t ↦ inl (ground (arith, e, t))
  ]
  | inr e ↦ elim (delegated_members_sound name roles members (ground (arith, e))) [
    | inl k ↦ inl k
    | inr (r, i, n, t, k) ↦ inr (r, inr i, n, t, k)
  ]
]

-- The whole of what a role name may be answered.
abbrev pub IsAnswer : List Role → Text → Assertion → List (Option RoleMember) → Type 0
IsAnswer roles role_name a members = (members ≡ []) ⊎ Delegates roles role_name a members

assume_role_sound :
    (roles : List Role) (role_name : Text) (a : Assertion) (members : List (Option RoleMember))
    → assume_role roles role_name a ≡ some members
    → IsAnswer roles role_name a members
unfolding assume_role
assume_role_sound roles role_name a members h =
    let assumes : a.action ≡ codes "assume_role" =
      ground (arith, same_iff a.action (codes "assume_role")) in
    let matched : match_whole (role_replacer a.resource) role_name ≡ some true = ground arith in
    elim (delegated_members_sound a.role roles members (ground arith)) [
      | inl k ↦ inl k
      | inr (r, i, n, t, k) ↦ inr (record {
        role = r;
        assumes = assumes;
        fits = (match_whole-role_replacer_iff a.resource role_name).1.0 matched;
        member = i;
        named = n;
        own = t;
        answer = k;
      })
    ]

assume_in_assertions_sound :
    (roles : List Role) (role_name : Text) (assertions : List (Option Assertion))
    (members : List (Option RoleMember))
    → assume_in_assertions roles role_name assertions ≡ returns (some members)
    → (a : Assertion) × In (some a) assertions × IsAnswer roles role_name a members
unfolding assume_in_assertions
assume_in_assertions_sound roles role_name [] members h = cc
assume_in_assertions_sound roles role_name (none ∷ assertions) members h = cc
assume_in_assertions_sound roles role_name (some a ∷ assertions) members h =
    elim (Option-cases (assume_role roles role_name a)) [
      | inl e ↦
          let (b, i, k) =
            assume_in_assertions_sound roles role_name assertions members (ground (arith, e)) in
          (b, inr i, k)
      | inr (ms, e) ↦
          let same_members : ms ≡ members = ground (arith, e) in
          (a, inl refl, assume_role_sound roles role_name a members (rw same_members at e))
    ]

-- An assertion of a policy of the list answers.
abbrev pub IsAnsweredBy :
    List Role → Text → List (Option Policy) → List (Option RoleMember) → Type 0
IsAnsweredBy roles role_name policies members =
    (policy : Policy) × (a : Assertion) × In (some policy) policies
    × In (some a) policy.assertions
    × IsAnswer roles role_name a members

assume_in_policies_sound :
    (roles : List Role) (role_name : Text) (policies : List (Option Policy))
    (members : List (Option RoleMember))
    → assume_in_policies roles role_name policies ≡ returns members
    → (members ≡ []) ⊎ IsAnsweredBy roles role_name policies members
unfolding assume_in_policies
assume_in_policies_sound roles role_name [] members h = inl (cc)
assume_in_policies_sound roles role_name (none ∷ policies) members h =
    elim (assume_in_policies_sound roles role_name policies members h) [
      | inl k ↦ inl k
      | inr (p, a, i, j, k) ↦ inr (p, a, inr i, j, k)
    ]
assume_in_policies_sound roles role_name (some policy ∷ policies) members h =
    let (answer, e, h1) =
      bind-eq_returns (assume_in_assertions roles role_name policy.assertions) _ h in
    elim (Option-cases answer) [
      | inl n ↦
          elim (assume_in_policies_sound roles role_name policies members (ground (arith, n, h1))) [
            | inl k ↦ inl k
            | inr (p, a, i, j, k) ↦ inr (p, a, inr i, j, k)
          ]
      | inr (ms, s) ↦
          let same_answer : answer ≡ some members = ground (arith, s, h1) in
          let (a, i, k) =
            assume_in_assertions_sound roles role_name policy.assertions members
              (rw same_answer at e) in
          inr (policy, a, inl refl, i, k)
    ]

policies_of-eq_returns :
    (o : Option (Option (List (Option Policy)))) (policies : List (Option Policy))
    → policies_of o ≡ returns policies
    → o ≡ some (some policies)
unfolding policies_of
policies_of-eq_returns none policies h = cc
policies_of-eq_returns (some none) policies h = cc
policies_of-eq_returns (some (some ps)) policies h = cc

-- The cached object is a domain whose policies answer.
abbrev pub IsTrusted : Option Cached → Text → List (Option RoleMember) → Type 0
IsTrusted found role_name members =
    (domain : DomainData) × (policies : List (Option Policy)) × (found
      ≡ some (athenz_domain (some domain)))
    × (domain.policies ≡ some (some policies))
    × IsAnsweredBy domain.roles role_name policies members

trust_answer_sound :
    (found : Option Cached) (role_name : Text) (members : List (Option RoleMember))
    → trust_answer role_name found ≡ returns (ok members)
    → (members ≡ []) ⊎ IsTrusted found role_name members
unfolding trust_answer
trust_answer_sound none role_name members h = cc
trust_answer_sound (some other_object) role_name members h = cc
trust_answer_sound (some (athenz_domain none)) role_name members h = cc
trust_answer_sound (some (athenz_domain (some domain))) role_name members h =
    let (policies, e, h1) = bind-eq_returns (policies_of domain.policies) _ h in
    let (ms, e2, h2) = bind-eq_returns (assume_in_policies domain.roles role_name policies) _ h1 in
    let same_members : ms ≡ members = cc h2 in
    elim (assume_in_policies_sound domain.roles role_name policies members
      (rw same_members at e2)) [
        | inl k ↦ inl k
        | inr k ↦ inr (domain, policies, refl, policies_of-eq_returns domain.policies policies e, k)
      ]

-- With an informer, a delegated role gets no members, or those of a role that the trusted domain
-- owns itself and lets assume it: an `assume_role` assertion of that domain names that role, and
-- has the delegated role's name among those that fit its resource.
pub process_trust_domain_sound :
    (get_by_key : Text → Option Cached) (trust role_name : Text)
    (members : List (Option RoleMember))
    → process_trust_domain (some get_by_key) trust role_name ≡ returns (ok members)
    → (members ≡ []) ⊎ IsTrusted (get_by_key trust) role_name members
unfolding process_trust_domain
process_trust_domain_sound get_by_key trust role_name members h =
    trust_answer_sound (get_by_key trust) role_name members h
