-- ===== src/Rbac/V2/Sources.antt =====
-- Whom the sources of a rule let in.
use k8s_athenz_istio_auth.Prelude.{
  ℕ, ◌≡◌, ◌≢◌, ◌⊎◌, if◌then◌else◌, true, false, In-append_right, All-append, All-weaken, refl, Bool,
  List, [], ◌∷◌, ◌++◌, Option, All, In, inl, inr,
}
use k8s_athenz_istio_auth.Prelude.Text.{Text}
use k8s_athenz_istio_auth.Athenz.Zms.{RoleMember}
use k8s_athenz_istio_auth.Athenz.Model.{Model}
use k8s_athenz_istio_auth.Rbac.Spec.{Source}
use k8s_athenz_istio_auth.Rbac.V2.{from_namespaces, from_request_principals, rule_from}
use k8s_athenz_istio_auth.Rbac.Principals.Members.{
  IsPrincipal, IsRequestPrincipal, IsNamespace, IsAllowed,
}

module _ (jwt : Bool) (now : ℕ) (match_string : Text → Text → Option Bool) where
  -- The source stands for members of the role and for the certificate, and for no one else; it is
  -- not the empty source, which would let everyone in.
  abbrev pub IsSourceOf : Model → List (Option RoleMember) → Text → Source → Type 0
  IsSourceOf m members certificate s =
      All (λ p. (p ≡ certificate) ⊎ IsPrincipal jwt now m members p) s.principals
      × All (IsRequestPrincipal jwt now m members) s.request_principals
      × All (IsNamespace jwt now m members) s.namespaces
      × ((s.principals ≢ []) ⊎ ((s.request_principals ≢ []) ⊎ (s.namespaces ≢ [])))

  append_nonempty : (ps : List Text) (p : Text) → ps ++ (p ∷ []) ≢ []
  append_nonempty [] p h = cc
  append_nonempty (q ∷ ps) p h = cc

  module _ (m : Model) (members : List (Option RoleMember)) (certificate : Text) where
    from_namespaces-IsSourceOf :
        (namespaces : List Text)
        → All (IsNamespace jwt now m members) namespaces
        → All (IsSourceOf m members certificate) (from_namespaces jwt now match_string namespaces)
    from_namespaces-IsSourceOf [] h = tt
    from_namespaces-IsSourceOf (n ∷ namespaces) h = ((tt, tt, h, inr (inr (λ e. cc))), tt)

    from_request_principals-IsSourceOf :
        (principals : List Text)
        → All (IsRequestPrincipal jwt now m members) principals
        → All
            (IsSourceOf m members certificate)
            (from_request_principals jwt now match_string principals)
    from_request_principals-IsSourceOf [] h = tt
    from_request_principals-IsSourceOf (p ∷ principals) h = ((tt, h, tt, inr (inl (λ e. cc))), tt)

    if_all :
        (b : Bool) (ss : List Source)
        → All (IsSourceOf m members certificate) ss
        → All (IsSourceOf m members certificate) (if b then ss else [])
    if_all true ss h = h
    if_all false ss h = tt

    pub rule_from-IsSourceOf :
        (source : Source)
        → IsAllowed jwt now m members source
        → All (IsSourceOf m members certificate) (rule_from jwt now match_string source certificate)
    unfolding rule_from
    rule_from-IsSourceOf source (p, r, n) = (
      (
        All-append (λ q. (q ≡ certificate) ⊎ IsPrincipal jwt now m members q) source.principals
            (certificate ∷ [])
            (All-weaken (IsPrincipal jwt now m members)
              (λ q. (q ≡ certificate) ⊎ IsPrincipal jwt now m members q) source.principals
              (λ q h. inr h) p)
            (inl refl, tt),
        tt,
        tt,
        inl (append_nonempty source.principals certificate),
      ),
      All-append (IsSourceOf m members certificate)
          (from_namespaces jwt now match_string source.namespaces) _
          (from_namespaces-IsSourceOf source.namespaces n)
          (if_all jwt (from_request_principals jwt now match_string source.request_principals)
            (from_request_principals-IsSourceOf source.request_principals r)),
    )

  pub rule_from-certificate :
      (source : Source) (certificate : Text)
      → (s : Source) × In s (rule_from jwt now match_string source certificate)
        × In certificate s.principals
  unfolding rule_from
  rule_from-certificate source certificate =
      (_, inl refl, In-append_right certificate source.principals (certificate ∷ []) (inl refl))
