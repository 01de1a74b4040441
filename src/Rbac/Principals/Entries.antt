-- ===== src/Rbac/Principals/Entries.antt =====
-- What a member enters into the sources of a rule.
use k8s_athenz_istio_auth.Prelude.{
  ℕ, ◌≡◌, ◌≢◌, refl, sym, subst, ◌∙◌, Bool, true, [], ◌∷◌, arith, In, In-append_left,
  In-append_right, inl, inr, Bool-cases,
}
use k8s_athenz_istio_auth.Prelude.Outcome.{ok, returns, bind, bind-eq_returns, returns_injective}
use k8s_athenz_istio_auth.Prelude.Text.{Text}
use k8s_athenz_istio_auth.Athenz.Model.{Model}
use k8s_athenz_istio_auth.Rbac.Spec.{Source}
use k8s_athenz_istio_auth.Rbac.Member.{
  Member, check_if_member_is_all_users_from_domain, member_to_spiffe, member_to_origin_jwt_subject,
}
use k8s_athenz_istio_auth.Rbac.Principals.{
  no_source, join_sources, jwt_names, spiffe_source, namespace_source, member_source,
}

-- An entry of one of the three lists of a source.
pub data Entry : Type 0 where
  principal request_principal namespace : Text → Entry

-- The entry stands in its list of the source.
abbrev pub Holds : Source → Entry → Type 0
Holds s (principal p) = In p s.principals
Holds s (request_principal p) = In p s.request_principals
Holds s (namespace ns) = In ns s.namespaces

pub join_sources-Holds_left : (a b : Source) (e : Entry) → Holds a e → Holds (join_sources a b) e
join_sources-Holds_left a b (principal p) h = In-append_left p a.principals b.principals h
join_sources-Holds_left a b (request_principal p) h =
    In-append_left p a.request_principals b.request_principals h
join_sources-Holds_left a b (namespace ns) h = In-append_left ns a.namespaces b.namespaces h

pub join_sources-Holds_right : (a b : Source) (e : Entry) → Holds b e → Holds (join_sources a b) e
join_sources-Holds_right a b (principal p) h = In-append_right p a.principals b.principals h
join_sources-Holds_right a b (request_principal p) h =
    In-append_right p a.request_principals b.request_principals h
join_sources-Holds_right a b (namespace ns) h = In-append_right ns a.namespaces b.namespaces h

module _ (jwt : Bool) (now : ℕ) (m : Model) where
  -- What a member enters: its namespace if it is all users of a domain, and its principal otherwise,
  -- with its request principal where JWT subjects are enabled.
  abbrev pub Enters : Member → Entry → Type 0
  Enters member (principal p) =
      (check_if_member_is_all_users_from_domain member m.name ≡ returns (ok []))
      × (member_to_spiffe member ≡ returns (ok p))
  Enters member (request_principal p) =
      (jwt ≡ true)
      × (check_if_member_is_all_users_from_domain member m.name ≡ returns (ok []))
      × ((q : Text) × (member_to_spiffe member ≡ returns (ok q)))
      × (member_to_origin_jwt_subject member ≡ returns (ok p))
  Enters member (namespace ns) =
      (ns ≢ []) × (check_if_member_is_all_users_from_domain member m.name ≡ returns (ok ns))

  spiffe_source-principal :
      (member : Member) (p : Text) (s : Source)
      → spiffe_source jwt now member (ok p) ≡ returns s
      → In p s.principals
  unfolding spiffe_source
  spiffe_source-principal member p s h = elim (Bool-cases jwt) [
    | inl e ↦
        let h' : (bind (member_to_origin_jwt_subject member) λ j.
          returns
            (record { principals = p ∷ []; request_principals = jwt_names j; namespaces = [] }))
            ≡ returns s =
          ground (arith, e, h) in
        let (j, hj, hs) =
          bind-eq_returns (member_to_origin_jwt_subject member)
            (λ j.
              returns
                (record { principals = p ∷ []; request_principals = jwt_names j; namespaces = [] }))
            h' in
        subst (λ (x : Source). In p x.principals) (returns_injective hs) (inl refl)
    | inr e ↦
        let hs : record no_source { principals = p ∷ [] } ≡ s = ground (arith, e, h) in
        subst (λ (x : Source). In p x.principals) hs (inl refl)
  ]

  spiffe_source-request_principal :
      (member : Member) (p q : Text) (s : Source)
      → jwt ≡ true
      → member_to_origin_jwt_subject member ≡ returns (ok p)
      → spiffe_source jwt now member (ok q) ≡ returns s
      → In p s.request_principals
  unfolding spiffe_source
  spiffe_source-request_principal member p q s e hp h =
      let made : Source = record {
        principals = q ∷ [];
        request_principals = p ∷ [];
        namespaces = [];
      } in
      let hs : made ≡ s = returns_injective (rw (e, hp) at h) in
      subst (λ (x : Source). In p x.request_principals) hs (inl refl)

  namespace_source-namespace :
      (member : Member) (ns : Text) (s : Source)
      → ns ≢ []
      → namespace_source jwt now member (ok ns) ≡ returns s
      → In ns s.namespaces
  unfolding namespace_source
  namespace_source-namespace member [] s nonempty h = absurd (nonempty refl)
  namespace_source-namespace member (c ∷ ns) s nonempty h =
      subst (λ (x : Source). In (c ∷ ns) x.namespaces) (returns_injective h) (inl refl)

  -- The source of a member with its namespace and its SPIFFE name known.
  member_source-namespace :
      (member : Member) (ns : Text)
      → check_if_member_is_all_users_from_domain member m.name ≡ returns (ok ns)
      → member_source jwt now m.name member ≡ namespace_source jwt now member (ok ns)
  unfolding member_source
  member_source-namespace member ns e = rw e refl

  member_source-spiffe :
      (member : Member) (q : Text)
      → check_if_member_is_all_users_from_domain member m.name ≡ returns (ok [])
      → member_to_spiffe member ≡ returns (ok q)
      → member_source jwt now m.name member ≡ spiffe_source jwt now member (ok q)
  unfolding member_source namespace_source
  member_source-spiffe member q e f = rw (e, f) refl

  pub member_source-Holds :
      (member : Member) (entry : Entry) (s : Source)
      → Enters member entry
      → member_source jwt now m.name member ≡ returns s
      → Holds s entry
  member_source-Holds member (principal p) s (e, f) h =
      spiffe_source-principal member p s (sym (member_source-spiffe member p e f) ∙ h)
  member_source-Holds member (request_principal p) s (on, e, (q, f), g) h =
      spiffe_source-request_principal member p q s on g
        (sym (member_source-spiffe member q e f) ∙ h)
  member_source-Holds member (namespace ns) s (nonempty, e) h =
      namespace_source-namespace member ns s nonempty
        (sym (member_source-namespace member ns e) ∙ h)
