-- ===== src/Rbac/Assertion/RoleName.antt =====
-- Role names with and without their domain.
use k8s_athenz_istio_auth.Prelude.{
  ◌≡◌, sym, append_assoc, ◌++◌, none, arith, ◌⊎◌, inl, inr, Option-cases,
}
use k8s_athenz_istio_auth.Prelude.Outcome.{ok}
use k8s_athenz_istio_auth.Prelude.Text.{
  Text, codes, cut_prefix, trim_prefix-append, cut_prefix_sound, trim_prefix, Lacks, contains-Lacks,
  contains-of_Lacks,
}
use k8s_athenz_istio_auth.Rbac.Assertion.{parse_role_fqdn}

-- The name behind `domain:role.` is what the parser returns, if it has no colon.
pub parse_role_fqdn-append :
    (domain role : Text)
    → Lacks b':' role
    → parse_role_fqdn domain (domain ++ (codes ":role." ++ role)) ≡ ok role
unfolding parse_role_fqdn
parse_role_fqdn-append domain role lacks = rw (
  sym (append_assoc domain (codes ":role.") role),
  trim_prefix-append (domain ++ codes ":role.") role,
  contains-of_Lacks role b':' lacks,
)

-- A name that the parser takes has no colon, and is the full name without `domain:role.`, or is a
-- full name that does not begin so.
pub parse_role_fqdn_sound :
    (domain full role : Text)
    → parse_role_fqdn domain full ≡ ok role
    → Lacks b':' role
      × ((full ≡ (domain ++ codes ":role.") ++ role)
          ⊎ ((full ≡ role) × (cut_prefix full (domain ++ codes ":role.") ≡ none)))
unfolding parse_role_fqdn trim_prefix
parse_role_fqdn_sound domain full role h =
    elim (Option-cases (cut_prefix full (domain ++ codes ":role."))) [
      | inl e ↦ (contains-Lacks role b':' (ground (arith, e)), inr (ground (arith, e), e))
      | inr (r, e) ↦
          let same_role : r ≡ role = ground (arith, e) in
          (
            contains-Lacks role b':' (ground (arith, e)),
            inl (cut_prefix_sound full (domain ++ codes ":role.") role (rw same_role at e)),
          )
    ]
