-- ===== src/Rbac/Binding/Total.antt =====
-- About the returns of pkg/istio/rbac/common/servicerolebinding.go.
use k8s_athenz_istio_auth.Prelude.{
  ◌≡◌, ◌≢◌, refl, ◌∙◌, Bool, true, false, List, [], ◌∷◌, ◌++◌, Option, none, some, All,
}
use k8s_athenz_istio_auth.Prelude.Outcome.{Result, ok, err, returns, bind-returns}
use k8s_athenz_istio_auth.Prelude.Text.{Text, codes}
use k8s_athenz_istio_auth.Athenz.Zms.{RoleMember}
use k8s_athenz_istio_auth.Rbac.Member.{
  role_to_spiffe, member_to_spiffe, member_to_origin_jwt_subject,
}
use k8s_athenz_istio_auth.Rbac.Spec.{Subject, ServiceRoleBinding}
use k8s_athenz_istio_auth.Rbac.Binding.{
  spiffe_subject, spiffe_round, member_subjects, members_subjects, get_service_role_binding_spec,
}

spiffe_round_total :
    (jwt : Bool) (r : RoleMember) (spiffe : Result Text)
    → (subjects : List Subject) × (spiffe_round jwt (some r) spiffe ≡ returns subjects)
unfolding spiffe_round member_to_origin_jwt_subject
spiffe_round_total jwt r (err e) = (_, refl)
spiffe_round_total true r (ok name) = (_, refl)
spiffe_round_total false r (ok name) = (_, refl)

member_subjects_total :
    (jwt : Bool) (r : RoleMember)
    → (subjects : List Subject) × (member_subjects jwt (some r) ≡ returns subjects)
unfolding member_subjects member_to_spiffe
member_subjects_total jwt r = spiffe_round_total jwt r _

members_subjects_total :
    (jwt : Bool) (members : List (Option RoleMember))
    → All (λ r. r ≢ none) members
    → (subjects : List Subject) × (members_subjects jwt members ≡ returns subjects)
unfolding members_subjects
members_subjects_total jwt [] h = (_, refl)
members_subjects_total jwt (none ∷ members) h = absurd (h.0 refl)
members_subjects_total jwt (some r ∷ members) h =
    let (first, e) = member_subjects_total jwt r in
    let (rest, f) = members_subjects_total jwt members h.1 in
    (first ++ rest, bind-returns _ _ e ∙ bind-returns _ _ f)

with_role_total :
    (k8s_role : Text) (subjects : List Subject) (spiffe : Result Text)
    → (r : Result ServiceRoleBinding) × ((elim spiffe [
      | err e ↦ returns (err e)
      | ok role_spiffe_name ↦ returns (
          ok (record {
            role_ref = record { kind = codes "ServiceRole"; name = k8s_role };
            subjects = subjects ++ (spiffe_subject role_spiffe_name ∷ []);
          }))
    ])
        ≡ returns r)
with_role_total k8s_role subjects (err e) = (_, refl)
with_role_total k8s_role subjects (ok name) = (_, refl)

pub get_service_role_binding_spec_total :
    (domain role k8s_role : Text) (jwt : Bool) (members : List (Option RoleMember))
    → All (λ r. r ≢ none) members
    → (r : Result ServiceRoleBinding) × (get_service_role_binding_spec domain role k8s_role members
          jwt
        ≡ returns r)
unfolding get_service_role_binding_spec
get_service_role_binding_spec_total domain role k8s_role jwt members h =
    let (subjects, e) = members_subjects_total jwt members h in
    let (r, f) = with_role_total k8s_role subjects (role_to_spiffe domain role) in
    (r, bind-returns _ _ e ∙ f)
