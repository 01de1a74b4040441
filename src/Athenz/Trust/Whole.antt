-- ===== src/Athenz/Trust/Whole.antt =====
-- The Athenz domains without nil pointers, and the answers that `processTrustDomain` of
-- pkg/athenz/model.go makes from them.
use k8s_athenz_istio_auth.Prelude.{
  ◌≡◌, ◌≢◌, refl, Bool, true, false, List, [], ◌∷◌, Option, none, some, All, inl, inr, Bool-cases,
  if◌then◌else◌,
}
use k8s_athenz_istio_auth.Prelude.Outcome.{Result, ok, err, Outcome, returns, Yields, bind-Yields}
use k8s_athenz_istio_auth.Prelude.Text.{Text, same, is_empty, codes}
use k8s_athenz_istio_auth.Prelude.Regexp.{match_whole}
use k8s_athenz_istio_auth.Athenz.Zms.{RoleMember, Assertion, Policy, Role, Group, DomainData}
use k8s_athenz_istio_auth.Athenz.Trust.{
  role_replacer, Cached, athenz_domain, other_object, delegated_members, assume_role,
  assume_in_assertions, assume_in_policies, policies_of, trust_answer, process_trust_domain,
}

-- No pointer of the list is nil.
abbrev pub NoNil : {A : Type 0} → List (Option A) → Type 0
NoNil list = All (λ p. p ≢ none) list

-- Every pointer of the list is present, and so is every assertion of its policies.
abbrev pub IsPresent : Option Policy → Type 0
IsPresent none = ⊥
IsPresent (some p) = All (λ a. a ≢ none) p.assertions

-- The policies are there, and no pointer below them is nil.
abbrev pub HasPolicies : Option (Option (List (Option Policy))) → Type 0
HasPolicies (some (some policies)) = All IsPresent policies
HasPolicies _ = ⊥

-- The domain has policies, and no policy, assertion, member of a role or member of a group is a nil
-- pointer.
pub record IsWhole (domain : DomainData) : Type 0 where
  pub policies : HasPolicies domain.policies
  pub role_members : All (λ (role : Role). NoNil role.role_members) domain.roles
  pub group_members : All (λ (group : Group). NoNil group.group_members) domain.groups

-- An object of the cache that is a domain is a whole one.
abbrev pub IsWholeObject : Cached → Type 0
IsWholeObject other_object = Unit
IsWholeObject (athenz_domain none) = ⊥
IsWholeObject (athenz_domain (some domain)) = IsWhole domain

-- Every domain of the cache is whole.
abbrev pub IsWholeCache : (Text → Option Cached) → Type 0
IsWholeCache get_by_key =
    (key : Text) (object : Cached) → get_by_key key ≡ some object → IsWholeObject object

-- The pointers of the answer, where there is one, are not nil.
abbrev NoNilAnswer : {A : Type 0} → Option (List (Option A)) → Type 0
NoNilAnswer none = Unit
NoNilAnswer (some list) = NoNil list

abbrev pub NoNilResult : {A : Type 0} → Result (List (Option A)) → Type 0
NoNilResult (err e) = Unit
NoNilResult (ok list) = NoNil list

abbrev pub HasMembers : Role → Type 0
HasMembers role = NoNil role.role_members

delegated_members-NoNil :
    (name : Text) (roles : List Role)
    → All HasMembers roles
    → NoNilAnswer (delegated_members name roles)
unfolding delegated_members
delegated_members-NoNil name [] there = tt
delegated_members-NoNil name (role ∷ roles) there = elim (Bool-cases (same role.name name)) [
  | inl e ↦ elim (Bool-cases (is_empty role.trust)) [
    | inl t ↦ let own = there.0 in rw (e, t) own
    | inr t ↦ rw (e, t) tt
  ]
  | inr e ↦ let rest = delegated_members-NoNil name roles there.1 in rw e rest
]

matched-NoNil :
    (o : Option Bool) (delegated : Option (List (Option RoleMember)))
    → NoNilAnswer delegated
    → NoNilAnswer (elim o [ none ↦ none | some matched ↦ if matched then delegated else none ])
matched-NoNil none delegated there = tt
matched-NoNil (some true) delegated there = there
matched-NoNil (some false) delegated there = tt

assume_role-NoNil :
    (roles : List Role) (role_name : Text) (a : Assertion)
    → All HasMembers roles
    → NoNilAnswer (assume_role roles role_name a)
unfolding assume_role
assume_role-NoNil roles role_name a there =
    elim (Bool-cases (same a.action (codes "assume_role"))) [
      | inl e ↦
          let delegated = delegated_members-NoNil a.role roles there in
          let matched =
            matched-NoNil (match_whole (role_replacer a.resource) role_name) _ delegated in
          rw e matched
      | inr e ↦ rw e tt
    ]

module _ (roles : List Role) (role_name : Text) (there : All HasMembers roles) where
  answered-Yields :
      (answer : Option (List (Option RoleMember)))
      (rest : Outcome (Option (List (Option RoleMember))))
      → NoNilAnswer answer
      → Yields NoNilAnswer rest
      → Yields NoNilAnswer (elim answer [ some members ↦ returns (some members) | none ↦ rest ])
  answered-Yields none rest all later = later
  answered-Yields (some members) rest all later = (some members, refl, all)

  assume_in_assertions-Yields :
      (assertions : List (Option Assertion))
      → NoNil assertions
      → Yields NoNilAnswer (assume_in_assertions roles role_name assertions)
  unfolding assume_in_assertions
  assume_in_assertions-Yields [] present = (none, refl, tt)
  assume_in_assertions-Yields (none ∷ assertions) present = absurd (present.0 refl)
  assume_in_assertions-Yields (some a ∷ assertions) present =
      answered-Yields (assume_role roles role_name a) _ (assume_role-NoNil roles role_name a there)
        (assume_in_assertions-Yields assertions present.1)

  first_answer-Yields :
      (answer : Option (List (Option RoleMember))) (rest : Outcome (List (Option RoleMember)))
      → NoNilAnswer answer
      → Yields NoNil rest
      → Yields NoNil (elim answer [ some members ↦ returns members | none ↦ rest ])
  first_answer-Yields none rest all later = later
  first_answer-Yields (some members) rest all later = (members, refl, all)

  assume_in_policies-Yields :
      (policies : List (Option Policy))
      → All IsPresent policies
      → Yields NoNil (assume_in_policies roles role_name policies)
  unfolding assume_in_policies
  assume_in_policies-Yields [] present = ([], refl, tt)
  assume_in_policies-Yields (none ∷ policies) present = absurd present.0
  assume_in_policies-Yields (some policy ∷ policies) present =
      bind-Yields NoNilAnswer NoNil (assume_in_assertions roles role_name policy.assertions) _
        (assume_in_assertions-Yields policy.assertions present.0)
        λ answer all.
          first_answer-Yields answer _ all (assume_in_policies-Yields policies present.1)

policies_of-Yields :
    (policies : Option (Option (List (Option Policy))))
    → HasPolicies policies
    → Yields (All IsPresent) (policies_of policies)
unfolding policies_of
policies_of-Yields none there = absurd there
policies_of-Yields (some none) there = absurd there
policies_of-Yields (some (some policies)) there = (policies, refl, there)

trust_answer-Yields :
    (role_name : Text) (found : Option Cached)
    → ((object : Cached) → found ≡ some object → IsWholeObject object)
    → Yields NoNilResult (trust_answer role_name found)
unfolding trust_answer
trust_answer-Yields role_name none whole = (_, refl, tt)
trust_answer-Yields role_name (some other_object) whole = (_, refl, tt)
trust_answer-Yields role_name (some (athenz_domain none)) whole = absurd (whole _ refl)
trust_answer-Yields role_name (some (athenz_domain (some domain))) whole =
    let there = whole _ refl in
    bind-Yields (All IsPresent) NoNilResult (policies_of domain.policies) _
      (policies_of-Yields domain.policies there.policies)
      λ policies present.
        bind-Yields NoNil NoNilResult (assume_in_policies domain.roles role_name policies) _
          (assume_in_policies-Yields domain.roles role_name there.role_members policies present)
          λ members all. (ok members, refl, all)

-- With a cache of whole domains, a trusted domain answers an error, or members of which none is a
-- nil pointer.
pub process_trust_domain-Yields :
    (get_by_key : Text → Option Cached) (trust role_name : Text)
    → IsWholeCache get_by_key
    → Yields NoNilResult (process_trust_domain (some get_by_key) trust role_name)
unfolding process_trust_domain
process_trust_domain-Yields get_by_key trust role_name whole =
    trust_answer-Yields role_name (get_by_key trust) (whole trust)
