-- ===== src/Rbac/Binding.antt =====
-- pkg/istio/rbac/common/servicerolebinding.go
pub mod Subjects
pub mod Total
use k8s_athenz_istio_auth.Prelude.{
  Bool, not, List, [], ◌∷◌, ◌++◌, Option, none, some, if◌then◌else◌,
}
use k8s_athenz_istio_auth.Prelude.Outcome.{Result, ok, err, Outcome, returns, panics, bind}
use k8s_athenz_istio_auth.Prelude.Text.{Text, codes}
use k8s_athenz_istio_auth.Athenz.Zms.{RoleMember}
use k8s_athenz_istio_auth.Rbac.Member.{
  role_member, member_to_spiffe, member_to_origin_jwt_subject, role_to_spiffe,
}
use k8s_athenz_istio_auth.Rbac.Spec.{Subject, ServiceRoleBinding}

abbrev pub request_auth_principal_property : Text
request_auth_principal_property = codes "request.auth.principal"

abbrev pub spiffe_subject : Text → Subject
spiffe_subject name = record { user = name; properties = [] }

abbrev pub jwt_subject : Text → Subject
jwt_subject name = record { user = []; properties = (request_auth_principal_property, name) ∷ [] }

-- The JWT subject of a round, or `continue`.
pub jwt_subjects : Result Text → List Subject
jwt_subjects (err e) = []
jwt_subjects (ok name) = jwt_subject name ∷ []

-- What a round appends, from the SPIFFE name on.
pub spiffe_round : Bool → Option RoleMember → Result Text → Outcome (List Subject)
unfolding jwt_subjects
spiffe_round enable_origin_jwt_subject member (err e) = returns []
spiffe_round enable_origin_jwt_subject member (ok name) =
    if not enable_origin_jwt_subject
    then returns (spiffe_subject name ∷ [])
    else bind (member_to_origin_jwt_subject (role_member member))
        λ jwt. returns (spiffe_subject name ∷ jwt_subjects jwt)

-- What one round of the loop over the members appends.
pub member_subjects : Bool → Option RoleMember → Outcome (List Subject)
unfolding member_to_spiffe member_to_origin_jwt_subject spiffe_round
member_subjects enable_origin_jwt_subject member =
    bind (member_to_spiffe (role_member member))
      λ spiffe. spiffe_round enable_origin_jwt_subject member spiffe

-- The loop over the members.
pub members_subjects : Bool → List (Option RoleMember) → Outcome (List Subject)
unfolding member_subjects
members_subjects jwt [] = returns []
members_subjects jwt (m ∷ ms) =
    bind (member_subjects jwt m)
      λ first. bind (members_subjects jwt ms) λ rest. returns (first ++ rest)

-- `GetServiceRoleBindingSpec`
unfoldable pub get_service_role_binding_spec :
    Text → Text → Text → List (Option RoleMember) → Bool → Outcome (Result ServiceRoleBinding)
unfolding members_subjects
get_service_role_binding_spec athenz_domain_name role_name k8s_role_name members
      enable_origin_jwt_subject =
    bind (members_subjects enable_origin_jwt_subject members) λ subjects.
      elim (role_to_spiffe athenz_domain_name role_name) [
        | err e ↦ returns (err e)
        | ok role_spiffe_name ↦ returns (
            ok (record {
              role_ref = record { kind = codes "ServiceRole"; name = k8s_role_name };
              subjects = subjects ++ (spiffe_subject role_spiffe_name ∷ []);
            }))
      ]
