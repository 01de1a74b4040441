-- ===== src/Athenz/Zms.antt =====
-- The fields of the Athenz structures (package zms) that the program reads. A pointer that may be
-- nil is an `Option`; elements of a list that are pointers are so too, except roles and groups,
-- which the program dereferences at once and which are taken as present.
use k8s_athenz_istio_auth.Prelude.{ℕ, List, Option}
use k8s_athenz_istio_auth.Prelude.Text.{Text, codes}

-- `zms.RoleMember`. An instant is a number, and an int32 its bit pattern.
pub record RoleMember : Type 0 where
  pub member_name : Text
  pub expiration : Option ℕ
  pub system_disabled : Option ℕ

-- `zms.GroupMember`
pub record GroupMember : Type 0 where
  pub member_name : Text
  pub expiration : Option ℕ
  pub system_disabled : Option ℕ

-- `zms.Assertion`; an effect is the text that its method `String` gives.
pub record Assertion : Type 0 where
  pub role : Text
  pub resource : Text
  pub action : Text
  pub effect : Option Text

-- `zms.ALLOW.String()`
abbrev pub allow : Text
allow = codes "ALLOW"

-- `zms.Policy`
pub record Policy : Type 0 where
  pub assertions : List (Option Assertion)

-- `zms.Role`
pub record Role : Type 0 where
  pub name : Text
  pub trust : Text
  pub role_members : List (Option RoleMember)

-- `zms.Group`
pub record Group : Type 0 where
  pub name : Text
  pub group_members : List (Option GroupMember)

-- `zms.DomainData`: the policies stand behind `Policies.Contents`, of which either may be nil.
pub record DomainData : Type 0 where
  pub name : Text
  pub roles : List Role
  pub policies : Option (Option (List (Option Policy)))
  pub groups : List Group
