-- ===== src/Rbac/Binding/Subjects.antt =====
-- Who a service role binding lets in.
use k8s_athenz_istio_auth.Prelude.{
  ◌≡◌, ◌≢◌, ◌⊎◌, refl, subst, Bool, true, false, List, [], ◌∷◌, ◌++◌, Option, arith, inl, inr, All,
  All-append, All-weaken, In, In-append_left, In-append_right, Bool-cases,
}
use k8s_athenz_istio_auth.Prelude.Outcome.{
  Error, Result-cases, Result, ok, err, returns, bind, bind-eq_returns,
}
use k8s_athenz_istio_auth.Prelude.Text.{Text, codes}
use k8s_athenz_istio_auth.Athenz.Zms.{RoleMember}
use k8s_athenz_istio_auth.Rbac.Member.{
  role_member, member_to_spiffe, member_to_origin_jwt_subject, role_to_spiffe,
}
use k8s_athenz_istio_auth.Rbac.Spec.{Subject, ServiceRoleBinding}
use k8s_athenz_istio_auth.Rbac.Binding.{
  spiffe_subject, jwt_subjects, spiffe_round, member_subjects, members_subjects,
  get_service_role_binding_spec,
}

role_to_spiffe-eq_ok :
    (domain role name : Text)
    → role_to_spiffe domain role ≡ ok name
    → (name ≡ domain ++ (codes "/ra/" ++ role)) × (domain ≢ []) × (role ≢ [])
unfolding role_to_spiffe
role_to_spiffe-eq_ok [] role name h = cc
role_to_spiffe-eq_ok (x ∷ d) [] name h = cc
role_to_spiffe-eq_ok (x ∷ d) (y ∷ r) name h = (cc, λ e. cc, λ e. cc)

module _ (jwt : Bool) where
  -- The subject is the SPIFFE name of a member, or with JWT subjects enabled its JWT name.
  abbrev pub IsOfMember : Option RoleMember → Subject → Type 0
  IsOfMember m s =
      ((name : Text) × (member_to_spiffe (role_member m) ≡ returns (ok name))
        × (s ≡ record { user = name; properties = [] }))
      ⊎ ((jwt ≡ true)
          × (name : Text) × (member_to_origin_jwt_subject (role_member m) ≡ returns (ok name))
          × (s ≡ record { user = []; properties = (codes "request.auth.principal", name) ∷ [] }))

  jwt_subjects-IsOfMember :
      (m : Option RoleMember) (r : Result Text)
      → jwt ≡ true
      → member_to_origin_jwt_subject (role_member m) ≡ returns r
      → All (IsOfMember m) (jwt_subjects r)
  unfolding jwt_subjects
  jwt_subjects-IsOfMember m (err e) enabled h = tt
  jwt_subjects-IsOfMember m (ok name) enabled h = (inr (enabled, name, h, refl), tt)

  spiffe_round-IsOfMember :
      (m : Option RoleMember) (r : Result Text) (subjects : List Subject)
      → member_to_spiffe (role_member m) ≡ returns r
      → spiffe_round jwt m r ≡ returns subjects
      → All (IsOfMember m) subjects
  unfolding spiffe_round
  spiffe_round-IsOfMember m (err e) subjects hs h =
      let none_added : [] ≡ subjects = cc in subst (All (IsOfMember m)) none_added tt
  spiffe_round-IsOfMember m (ok name) subjects hs h = elim (Bool-cases jwt) [
    | inl enabled ↦
        let h' : bind (member_to_origin_jwt_subject (role_member m))
              (λ r. returns (spiffe_subject name ∷ jwt_subjects r))
            ≡ returns subjects =
          ground (arith, enabled) in
        let (r, e, h1) = bind-eq_returns (member_to_origin_jwt_subject (role_member m)) _ h' in
        let added : spiffe_subject name ∷ jwt_subjects r ≡ subjects = cc in
        subst (All (IsOfMember m)) added
          (inl (name, hs, refl), jwt_subjects-IsOfMember m r enabled e)
    | inr disabled ↦
        let added : spiffe_subject name ∷ [] ≡ subjects = ground (arith, disabled) in
        subst (All (IsOfMember m)) added (inl (name, hs, refl), tt)
  ]

  member_subjects-IsOfMember :
      (m : Option RoleMember) (subjects : List Subject)
      → member_subjects jwt m ≡ returns subjects
      → All (IsOfMember m) subjects
  unfolding member_subjects
  member_subjects-IsOfMember m subjects h =
      let (r, e, h1) = bind-eq_returns (member_to_spiffe (role_member m)) _ h in
      spiffe_round-IsOfMember m r subjects e h1

  -- The subject is one of a member of the list.
  abbrev pub IsOfSomeMember : List (Option RoleMember) → Subject → Type 0
  IsOfSomeMember members s = (m : Option RoleMember) × In m members × IsOfMember m s

  members_subjects-IsOfSomeMember :
      (members : List (Option RoleMember)) (subjects : List Subject)
      → members_subjects jwt members ≡ returns subjects
      → All (IsOfSomeMember members) subjects
  unfolding members_subjects
  members_subjects-IsOfSomeMember [] subjects h =
      let e : [] ≡ subjects = cc in subst (All (IsOfSomeMember [])) e tt
  members_subjects-IsOfSomeMember (m ∷ ms) subjects h =
      let (first, ef, h1) = bind-eq_returns (member_subjects jwt m) _ h in
      let (rest, er, h2) = bind-eq_returns (members_subjects jwt ms) _ h1 in
      let e : first ++ rest ≡ subjects = cc h2 in
      rw e at (
        All-append (IsOfSomeMember (m ∷ ms)) first rest
          (All-weaken (IsOfMember m) _ first (λ s k. (m, inl refl, k))
            (member_subjects-IsOfMember m first ef))
          (All-weaken (IsOfSomeMember ms) _ rest (λ s (n, i, k). (n, inr i, k))
            (members_subjects-IsOfSomeMember ms rest er)))

  -- Among the subjects are the SPIFFE name of the member, unless there is an error instead, and then,
  -- where JWT subjects are enabled, its JWT name, unless there is an error instead.
  abbrev pub HasJwtName : Option RoleMember → List Subject → Type 0
  HasJwtName m subjects =
      (jwt ≡ false)
      ⊎ ((e : Error) × (member_to_origin_jwt_subject (role_member m) ≡ returns (err e)))
      ⊎ ((name : Text) × (member_to_origin_jwt_subject (role_member m) ≡ returns (ok name))
          × In (record { user = []; properties = (codes "request.auth.principal", name) ∷ [] })
              subjects)

  abbrev pub IsLetIn : List Subject → Option RoleMember → Type 0
  IsLetIn subjects m =
      ((e : Error) × (member_to_spiffe (role_member m) ≡ returns (err e)))
      ⊎ ((name : Text) × (member_to_spiffe (role_member m) ≡ returns (ok name))
          × In (record { user = name; properties = [] }) subjects
          × HasJwtName m subjects)

  IsLetIn-sub :
      (subjects subjects' : List Subject) (m : Option RoleMember)
      → ((s : Subject) → In s subjects → In s subjects')
      → IsLetIn subjects m
      → IsLetIn subjects' m
  IsLetIn-sub subjects subjects' m sub (inl h) = inl h
  IsLetIn-sub subjects subjects' m sub (inr (name, h, i, inl off)) = inr (name, h, sub _ i, inl off)
  IsLetIn-sub subjects subjects' m sub (inr (name, h, i, inr (inl e))) =
      inr (name, h, sub _ i, inr (inl e))
  IsLetIn-sub subjects subjects' m sub (inr (name, h, i, inr (inr (n, k, j)))) =
      inr (name, h, sub _ i, inr (inr (n, k, sub _ j)))

  jwt_subjects-HasJwtName :
      (m : Option RoleMember) (first : Subject) (r : Result Text)
      → member_to_origin_jwt_subject (role_member m) ≡ returns r
      → HasJwtName m (first ∷ jwt_subjects r)
  unfolding jwt_subjects
  jwt_subjects-HasJwtName m first (err e) h = inr (inl (e, h))
  jwt_subjects-HasJwtName m first (ok name) h = inr (inr (name, h, inr (inl refl)))

  spiffe_round-IsLetIn :
      (m : Option RoleMember) (r : Result Text) (subjects : List Subject)
      → member_to_spiffe (role_member m) ≡ returns r
      → spiffe_round jwt m r ≡ returns subjects
      → IsLetIn subjects m
  unfolding spiffe_round
  spiffe_round-IsLetIn m (err e) subjects hs h = inl (e, hs)
  spiffe_round-IsLetIn m (ok name) subjects hs h = elim (Bool-cases jwt) [
    | inl enabled ↦
        let h' : bind (member_to_origin_jwt_subject (role_member m))
              (λ r. returns (spiffe_subject name ∷ jwt_subjects r))
            ≡ returns subjects =
          ground (arith, enabled) in
        let (r, e, h1) = bind-eq_returns (member_to_origin_jwt_subject (role_member m)) _ h' in
        let added : spiffe_subject name ∷ jwt_subjects r ≡ subjects = cc in
        subst (λ s. IsLetIn s m) added
          (inr (name, hs, inl refl, jwt_subjects-HasJwtName m (spiffe_subject name) r e))
    | inr disabled ↦
        let added : spiffe_subject name ∷ [] ≡ subjects = ground (arith, disabled) in
        subst (λ s. IsLetIn s m) added (inr (name, hs, inl refl, inl disabled))
  ]

  member_subjects-IsLetIn :
      (m : Option RoleMember) (subjects : List Subject)
      → member_subjects jwt m ≡ returns subjects
      → IsLetIn subjects m
  unfolding member_subjects
  member_subjects-IsLetIn m subjects h =
      let (r, e, h1) = bind-eq_returns (member_to_spiffe (role_member m)) _ h in
      spiffe_round-IsLetIn m r subjects e h1

  members_subjects-IsLetIn :
      (members : List (Option RoleMember)) (subjects : List Subject)
      → members_subjects jwt members ≡ returns subjects
      → All (IsLetIn subjects) members
  unfolding members_subjects
  members_subjects-IsLetIn [] subjects h = tt
  members_subjects-IsLetIn (m ∷ ms) subjects h =
      let (first, ef, h1) = bind-eq_returns (member_subjects jwt m) _ h in
      let (rest, er, h2) = bind-eq_returns (members_subjects jwt ms) _ h1 in
      let e : first ++ rest ≡ subjects = cc h2 in
      subst (λ s. All (IsLetIn s) (m ∷ ms)) e
        (
          IsLetIn-sub first (first ++ rest) m (λ s i. In-append_left s first rest i)
              (member_subjects-IsLetIn m first ef),
          All-weaken (IsLetIn rest) (IsLetIn (first ++ rest)) ms
              (λ m'. IsLetIn-sub rest (first ++ rest) m' (λ s i. In-append_right s first rest i))
              (members_subjects-IsLetIn ms rest er),
        )

  -- A binding names the given role. Its subjects are those of members and, last, the certificate of
  -- the role itself, and no other; the JWT names of members are there only where they are enabled.
  -- Each member whose name converts is among them, with its JWT name where these are enabled and it
  -- converts too.
  pub get_service_role_binding_spec_sound :
      (domain role k8s_role : Text) (members : List (Option RoleMember)) (spec : ServiceRoleBinding)
      → get_service_role_binding_spec domain role k8s_role members jwt ≡ returns (ok spec)
      → (front : List Subject) × (spec.subjects
          ≡ front ++ (record { user = domain ++ (codes "/ra/" ++ role); properties = [] } ∷ []))
        × All (IsOfSomeMember members) front
        × All (IsLetIn spec.subjects) members
        × (spec.role_ref.name ≡ k8s_role)
        × (domain ≢ [])
        × (role ≢ [])
  unfolding get_service_role_binding_spec
  get_service_role_binding_spec_sound domain role k8s_role members spec h =
      let (front, e, h1) = bind-eq_returns (members_subjects jwt members) _ h in
      elim (Result-cases (role_to_spiffe domain role)) [
        | inr (x, er) ↦ absurd (ground (arith, er, h1))
        | inl (name, er) ↦
            let (en, hd, hr) = role_to_spiffe-eq_ok domain role name er in
            (
              front,
              ground (arith, er, h1, en),
              members_subjects-IsOfSomeMember members front e,
              let all : front ++ (spiffe_subject name ∷ []) ≡ spec.subjects =
                    ground (arith, er, h1) in
                  All-weaken (IsLetIn front) (IsLetIn spec.subjects) members
                    (λ m. IsLetIn-sub front spec.subjects m (λ s i.
                      subst (In s) all (In-append_left s front (spiffe_subject name ∷ []) i)))
                    (members_subjects-IsLetIn members front e),
              ground (arith, er, h1),
              hd,
              hr,
            )
      ]
