-- ===== src/Athenz/Trust.antt =====
-- `processTrustDomain` of pkg/athenz/model.go: the members of a role that another domain holds.
pub mod Glob
pub mod Delegates
pub mod Whole
use k8s_athenz_istio_auth.Prelude.{
  Bool, not, List, [], ◌∷◌, ◌++◌, Option, none, some, ◌==◌, if◌then◌else◌, ℕ,
}
use k8s_athenz_istio_auth.Prelude.Outcome.{
  Result, ok, err, Outcome, returns, panics, bind, trust_domain_missing, trust_domain_cast,
}
use k8s_athenz_istio_auth.Prelude.Text.{Text, codes, same, is_empty}
use k8s_athenz_istio_auth.Prelude.Regexp.{match_whole}
use k8s_athenz_istio_auth.Athenz.Zms.{RoleMember, Assertion, Policy, Role, DomainData}

-- The replacement of one character by `roleReplacer`.
pub replace_char : ℕ → Text
replace_char c =
    if c == b'*'
    then codes ".*"
    else if c == b'?'
    then codes "."
    else if c == b'^'
    then codes "\\^"
    else if c == b'$'
    then codes "\\$"
    else if c == b'.'
    then codes "\\."
    else if c == b'|'
    then codes "\\|"
    else if c == b'['
    then codes "\\["
    else if c == b'+'
    then codes "\\+"
    else if c == b'\\'
    then codes "\\\\"
    else if c == b'('
    then codes "\\("
    else if c == b')'
    then codes "\\)"
    else if c == b'{'
    then codes "\\{"
    else c ∷ []

-- `roleReplacer.Replace`
unfoldable pub role_replacer : Text → Text
unfolding replace_char
role_replacer [] = []
role_replacer (c ∷ s) = replace_char c ++ role_replacer s

-- What the store of the informer holds under a key: an Athenz domain, whose data may be nil, or
-- another object.
pub data Cached : Type 0 where
  athenz_domain : Option DomainData → Cached
  other_object : Cached

-- The answer of the first role of that name, if there is one: nothing if it is delegated again.
pub delegated_members : Text → List Role → Option (List (Option RoleMember))
delegated_members delegated_role [] = none
delegated_members delegated_role (role ∷ roles) =
    let rest = delegated_members delegated_role roles in
    if same role.name delegated_role
    then (if not (is_empty role.trust) then some [] else some role.role_members)
    else rest

-- What an assertion answers, if it does: it is about assuming roles, and its resource matches.
pub assume_role : List Role → Text → Assertion → Option (List (Option RoleMember))
unfolding delegated_members
assume_role roles role_name assertion =
    if same assertion.action (codes "assume_role")
    then elim (match_whole (role_replacer assertion.resource) role_name) [
      | none ↦ none
      | some matched ↦ if matched then delegated_members assertion.role roles else none
    ]
    else none

-- The loop over the assertions of a policy; a nil assertion is dereferenced.
pub assume_in_assertions :
    List Role → Text → List (Option Assertion) → Outcome (Option (List (Option RoleMember)))
unfolding assume_role
assume_in_assertions roles role_name [] = returns none
assume_in_assertions roles role_name (none ∷ assertions) = panics
assume_in_assertions roles role_name (some a ∷ assertions) = elim (assume_role roles role_name a) [
  | some members ↦ returns (some members)
  | none ↦ assume_in_assertions roles role_name assertions
]

-- The loop over the policies; nil policies are skipped.
pub assume_in_policies :
    List Role → Text → List (Option Policy) → Outcome (List (Option RoleMember))
unfolding assume_in_assertions
assume_in_policies roles role_name [] = returns []
assume_in_policies roles role_name (none ∷ policies) = assume_in_policies roles role_name policies
assume_in_policies roles role_name (some policy ∷ policies) =
    bind (assume_in_assertions roles role_name policy.assertions) λ answer. elim answer [
      | some members ↦ returns members
      | none ↦ assume_in_policies roles role_name policies
    ]

-- The policies behind `SignedDomain.Domain.Policies.Contents.Policies`, each step of which may be
-- nil.
pub policies_of : Option (Option (List (Option Policy))) → Outcome (List (Option Policy))
policies_of none = panics
policies_of (some none) = panics
policies_of (some (some policies)) = returns policies

-- What the object that the store holds answers.
pub trust_answer : Text → Option Cached → Outcome (Result (List (Option RoleMember)))
unfolding assume_in_policies policies_of
trust_answer role_name none = returns (err trust_domain_missing)
trust_answer role_name (some other_object) = returns (err trust_domain_cast)
trust_answer role_name (some (athenz_domain none)) = panics
trust_answer role_name (some (athenz_domain (some domain))) =
    bind (policies_of domain.policies) λ policies.
      bind (assume_in_policies domain.roles role_name policies) λ members. returns (ok members)

-- `processTrustDomain`. The informer may be missing; otherwise its store is looked up.
unfoldable pub process_trust_domain :
    Option (Text → Option Cached) → Text → Text → Outcome (Result (List (Option RoleMember)))
unfolding trust_answer
process_trust_domain none trust role_name = returns (ok [])
process_trust_domain (some get_by_key) trust role_name = trust_answer role_name (get_by_key trust)
