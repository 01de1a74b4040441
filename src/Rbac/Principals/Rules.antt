-- ===== src/Rbac/Principals/Rules.antt =====
-- The sources of a role do not depend on the rules of the model.
use k8s_athenz_istio_auth.Prelude.{ℕ, ◌≡◌, refl, Bool, List, [], ◌∷◌, Option, none, some}
use k8s_athenz_istio_auth.Athenz.Model.{Model, RoleAssertions}
use k8s_athenz_istio_auth.Athenz.Zms.{RoleMember}
use k8s_athenz_istio_auth.Rbac.Principals.{role_member_source, members_source}

abbrev pub with_rules : Model → RoleAssertions → Model
with_rules m rules = record m { rules = rules }

module _ (jwt : Bool) (now : ℕ) where
  role_member_source-rules :
      (m : Model) (rules rules' : RoleAssertions) (r : Option RoleMember)
      → role_member_source jwt now (with_rules m rules) r
        ≡ role_member_source jwt now (with_rules m rules') r
  unfolding role_member_source
  role_member_source-rules m rules rules' none = refl
  role_member_source-rules m rules rules' (some r) = refl

  pub members_source-rules :
      (m : Model) (rules rules' : RoleAssertions) (rs : List (Option RoleMember))
      → members_source jwt now (with_rules m rules) rs
        ≡ members_source jwt now (with_rules m rules') rs
  unfolding members_source
  members_source-rules m rules rules' [] = refl
  members_source-rules m rules rules' (r ∷ rs) =
      rw (role_member_source-rules m rules rules' r, members_source-rules m rules rules' rs) refl
