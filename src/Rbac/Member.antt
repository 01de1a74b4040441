-- ===== src/Rbac/Member.antt =====
-- Role and group members as Istio principals: pkg/istio/rbac/common/util.go.
pub mod Spiffe
pub mod Validity
use k8s_athenz_istio_auth.Prelude.{
  ℕ, suc, ◌-◌, Bool, true, false, not, ◌||◌, List, [], ◌∷◌, ◌++◌, Option, none, some, length, take,
  drop, ◌==◌, ltb, if◌then◌else◌,
}
use k8s_athenz_istio_auth.Prelude.Outcome.{
  Result, ok, err, Outcome, returns, panics, bind, member_nil, not_a_principal, principal_empty,
  domain_empty, role_empty, system_disabled, expired,
}
use k8s_athenz_istio_auth.Prelude.Text.{
  Text, codes, same, is_empty, has_prefix, has_suffix, last_index,
}
use k8s_athenz_istio_auth.Athenz.Names.{domain_to_namespace}
use k8s_athenz_istio_auth.Athenz.Zms.{RoleMember, GroupMember}

-- The `interface{}` that holds a member: the nil interface, a pointer to a role or a group member,
-- which may itself be nil, or a value of another type.
pub data Member : Type 0 where
  nil_interface : Member
  role_member : Option RoleMember → Member
  group_member : Option GroupMember → Member
  other_value : Member

-- `GetMemberName`
unfoldable pub get_member_name : Member → Outcome Text
get_member_name (group_member (some m)) = returns m.member_name
get_member_name (group_member none) = panics
get_member_name (role_member (some m)) = returns m.member_name
get_member_name (role_member none) = panics
get_member_name _ = returns []

-- `getMemberExpiry`
pub get_member_expiry : Member → Outcome (Option ℕ)
get_member_expiry (group_member (some m)) = returns m.expiration
get_member_expiry (group_member none) = panics
get_member_expiry (role_member (some m)) = returns m.expiration
get_member_expiry (role_member none) = panics
get_member_expiry _ = returns none

-- `getMemberSystemDisabled`
pub get_member_system_disabled : Member → Outcome (Option ℕ)
get_member_system_disabled (group_member (some m)) = returns m.system_disabled
get_member_system_disabled (group_member none) = panics
get_member_system_disabled (role_member (some m)) = returns m.system_disabled
get_member_system_disabled (role_member none) = panics
get_member_system_disabled _ = returns none

-- `member == nil`
abbrev pub is_nil : Member → Bool
is_nil nil_interface = true
is_nil _ = false

abbrev pub all_users : Text
all_users = codes "user.*"

abbrev pub wild_card_all : Text
wild_card_all = codes "*"

-- `PrincipalToSpiffe`
unfoldable pub principal_to_spiffe : Text → Result Text
principal_to_spiffe principal =
    if is_empty principal then err principal_empty else elim (last_index principal b'.') [
      | none ↦ err not_a_principal
      | some i ↦ ok (take i principal ++ (codes "/sa/" ++ drop (suc i) principal))
    ]

-- `RoleToSpiffe`
unfoldable pub role_to_spiffe : Text → Text → Result Text
role_to_spiffe athenz_domain_name role_name =
    if is_empty athenz_domain_name
    then err domain_empty
    else if is_empty role_name
    then err role_empty
    else ok (athenz_domain_name ++ (codes "/ra/" ++ role_name))

-- The namespace for a member name, from the test of `CheckIfMemberIsAllUsersFromDomain` on.
unfoldable pub all_users_namespace : Text → Text
all_users_namespace name =
    if has_prefix name (codes "unix.")
      || has_prefix name (codes "user.")
      || not (has_suffix name (codes ".*"))
    then []
    else domain_to_namespace (take (length name - 2) name)

-- `CheckIfMemberIsAllUsersFromDomain`
unfoldable pub check_if_member_is_all_users_from_domain : Member → Text → Outcome (Result Text)
unfolding get_member_name all_users_namespace
check_if_member_is_all_users_from_domain member domain_name =
    if is_nil member
    then returns (err member_nil)
    else bind (get_member_name member) λ name. returns (ok (all_users_namespace name))

-- `MemberToSpiffe`
unfoldable pub member_to_spiffe : Member → Outcome (Result Text)
unfolding get_member_name
member_to_spiffe member =
    if is_nil member
    then returns (err member_nil)
    else bind (get_member_name member)
        λ name. returns (if same name all_users then ok wild_card_all else principal_to_spiffe name)

-- `MemberToOriginJwtSubject`
unfoldable pub member_to_origin_jwt_subject : Member → Outcome (Result Text)
unfolding get_member_name
member_to_origin_jwt_subject member =
    if is_nil member
    then returns (err member_nil)
    else bind (get_member_name member) λ name.
      returns (ok (if same name all_users then wild_card_all else codes "athenz/" ++ name))

-- `CheckAthenzSystemDisabled`
unfoldable pub check_athenz_system_disabled : Member → Outcome (Result Bool)
unfolding get_member_system_disabled
check_athenz_system_disabled member =
    if is_nil member
    then returns (err member_nil)
    else bind (get_member_system_disabled member) λ disabled. elim disabled [
      | none ↦ returns (ok true)
      | some bits ↦ returns (if not (bits == 0) then err system_disabled else ok true)
    ]

-- `CheckAthenzMemberExpiry`; the first argument is `time.Now()`.
unfoldable pub check_athenz_member_expiry : ℕ → Member → Outcome (Result Bool)
unfolding get_member_expiry
check_athenz_member_expiry now member =
    if is_nil member
    then returns (err member_nil)
    else bind (get_member_expiry member) λ expiration. elim expiration [
      | none ↦ returns (ok true)
      | some at ↦ returns (if ltb at now then err expired else ok true)
    ]
