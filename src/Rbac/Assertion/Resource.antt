-- ===== src/Rbac/Assertion/Resource.antt =====
-- The service and the path of a resource, as the regular expression cuts them out.
use k8s_athenz_istio_auth.Prelude.{
  ℕ, ap, ◌≡◌, ◌≢◌, refl, sym, subst, ◌∙◌, append-nil, [], ◌∷◌, ◌++◌, none, some, arith, ◌==◌, ◌⊎◌,
  inl, inr, Option-cases, Bool-cases, if◌then◌else◌,
}
use k8s_athenz_istio_auth.Prelude.Outcome.{ok}
use k8s_athenz_istio_auth.Prelude.Text.{
  Text, codes, same_iff, same_refl, cut_prefix, cut_prefix_sound, Lacks, contains-of_Lacks,
}
use k8s_athenz_istio_auth.Athenz.Zms.{Assertion}
use k8s_athenz_istio_auth.Rbac.Assertion.{
  ResourceParts, until_colon, skip_colon, match_svc, match_mark, match_resource,
  parse_assertion_resource,
}

-- `:svc` stands nowhere in the text.
abbrev pub HasNoMark : Text → Type 0
HasNoMark [] = Unit
HasNoMark (c ∷ s) = (cut_prefix (c ∷ s) (codes ":svc") ≡ none) × HasNoMark s

match_resource-none : (s : Text) → HasNoMark s → match_resource s ≡ none
unfolding match_resource match_mark
match_resource-none [] h = refl
match_resource-none (c ∷ s) h = ground (arith, h.0, match_resource-none s h.1)

until_colon-append :
    (svc rest : Text) → Lacks b':' svc → until_colon (svc ++ (b':' ∷ rest)) ≡ (svc, b':' ∷ rest)
unfolding until_colon
until_colon-append [] rest h = refl
until_colon-append (c ∷ svc) rest h = ground (arith, until_colon-append svc rest h.1)

until_colon_all : (svc : Text) → Lacks b':' svc → until_colon svc ≡ (svc, [])
unfolding until_colon
until_colon_all [] h = refl
until_colon_all (c ∷ svc) h = ground (arith, until_colon_all svc h.1)

-- The text that `until_colon` cuts, and where it cuts.
until_colon_sound :
    (s : Text)
    → (s ≡ (until_colon s).0 ++ (until_colon s).1)
      × Lacks b':' (until_colon s).0
      × (((until_colon s).1 ≡ []) ⊎ ((until_colon s).1 ≡ b':' ∷ skip_colon (until_colon s).1))
unfolding until_colon skip_colon
until_colon_sound [] = (refl, tt, inl refl)
until_colon_sound (c ∷ s) = elim (Bool-cases (c == b':')) [
  | inl e ↦ rw e (refl, tt, inr (ground (arith, e)))
  | inr e ↦
      let (cut, lacks, left) = until_colon_sound s in
      rw e (ap (λ t. c ∷ t) cut, (ground (arith, e), lacks), left)
]

-- The text behind `:svc` and one more character, cut into the service, and the path behind a colon.
abbrev pub IsCut : Text → Text → Text → Type 0
IsCut rest svc path =
    Lacks b':' svc × (((rest ≡ svc) × (path ≡ [])) ⊎ (rest ≡ svc ++ (b':' ∷ path)))

match_svc_sound :
    (s : Text) (p : ResourceParts) → match_svc s ≡ some p → (p.domain ≡ []) × IsCut s p.svc p.path
unfolding match_svc
match_svc_sound s p h =
    let (cut, lacks, left) = until_colon_sound s in
    let es : (until_colon s).0 ≡ p.svc = ground arith in
    let ep : skip_colon (until_colon s).1 ≡ p.path = ground arith in
    (
      ground arith,
      (
        rw es at lacks,
        elim left [
          | inl e ↦
              inl (cut ∙ rw (e, es) (append-nil p.svc), sym ep ∙ rw e (unfold skip_colon in refl))
          | inr e ↦ inr (cut ∙ rw (e, ep, es) refl)
        ],
      ),
    )

-- The text is the domain, `:svc` and one more character, and a text that is cut so.
abbrev pub IsMatch : Text → Text → Text → Text → Type 0
IsMatch s domain svc path =
    (c : ℕ) × (rest : Text) × (s ≡ domain ++ (codes ":svc" ++ (c ∷ rest))) × IsCut rest svc path

IsMatch-cons :
    (x : ℕ) (s domain svc path : Text)
    → IsMatch s domain svc path
    → IsMatch (x ∷ s) (x ∷ domain) svc path
IsMatch-cons x s domain svc path (c, rest, found, cut) = (c, rest, ap (λ t. x ∷ t) found, cut)

match_mark_sound :
    (s : Text) (p : ResourceParts) → match_mark s ≡ some p → IsMatch s p.domain p.svc p.path
unfolding match_mark
match_mark_sound s p h = elim (Option-cases (cut_prefix s (codes ":svc"))) [
  | inl e ↦ absurd (ground (arith, e))
  | inr ([], e) ↦ absurd (ground (arith, e))
  | inr (c ∷ rest, e) ↦
      let (d, cut) = match_svc_sound rest p (ground (arith, e)) in
      (c, rest, cut_prefix_sound s (codes ":svc") (c ∷ rest) e ∙ rw d refl, cut)
]

match_resource_sound :
    (s : Text) (p : ResourceParts) → match_resource s ≡ some p → IsMatch s p.domain p.svc p.path
unfolding match_resource
match_resource_sound [] p h = cc
match_resource_sound (x ∷ s) p h =
    elim (Option-cases (if x == b'\n' then none else match_resource s)) [
      | inl e ↦ match_mark_sound (x ∷ s) p (ground (arith, e))
      | inr (q, e) ↦
          let same_parts : record q { domain = x ∷ q.domain } ≡ p = ground (arith, e) in
          subst (λ r. IsMatch (x ∷ s) r.domain r.svc r.path) same_parts
            (IsMatch-cons x s q.domain q.svc q.path (match_resource_sound s q (ground (arith, e))))
    ]

-- An accepted resource of the domain is the domain, `:svc` with one more character, and a non-empty
-- service with no colon, and behind that either nothing, with an empty path, or a colon and the path.
pub parse_assertion_resource_sound :
    (domain : Text) (a : Assertion) (svc path : Text)
    → parse_assertion_resource domain (some a) ≡ ok (svc, path)
    → (svc ≢ []) × IsMatch a.resource domain svc path
unfolding parse_assertion_resource
parse_assertion_resource_sound domain a svc path h =
    elim (Option-cases (match_resource a.resource)) [
      | inl e ↦ absurd (ground (arith, e))
      | inr (p, e) ↦
          let ed : p.domain ≡ domain = ground (arith, e, same_iff p.domain domain) in
          let es : p.svc ≡ svc = ground (arith, e) in
          let ep : p.path ≡ path = ground (arith, e) in
          (ground (arith, e), rw ed at (rw es at (rw ep at (match_resource_sound a.resource p e))))
    ]

no_mark_before : (svc rest : Text) → Lacks b':' svc → HasNoMark rest → HasNoMark (svc ++ rest)
unfolding cut_prefix
no_mark_before [] rest h n = n
no_mark_before (c ∷ svc) rest h n = (ground arith, no_mark_before svc rest h.1 n)

match_resource-append :
    (domain s : Text) (p : ResourceParts)
    → Lacks b'\n' domain
    → match_resource s ≡ some p
    → match_resource (domain ++ s) ≡ some (record p { domain = domain ++ p.domain })
unfolding match_resource
match_resource-append [] s p h e = e
match_resource-append (c ∷ domain) s p h e = ground (arith, match_resource-append domain s p h.1 e)

match_mark-append :
    (svc path : Text)
    → Lacks b':' svc
    → Lacks b'\n' path
    → match_mark (codes ":svc." ++ (svc ++ (b':' ∷ path)))
      ≡ some (record { domain = []; svc = svc; path = path })
unfolding match_mark match_svc skip_colon cut_prefix
match_mark-append svc path hc hp =
    rw (until_colon-append svc path hc, contains-of_Lacks path b'\n' hp)

match_resource_here :
    (svc path : Text)
    → Lacks b':' svc
    → Lacks b'\n' path
    → HasNoMark (b':' ∷ path)
    → match_resource (codes ":svc." ++ (svc ++ (b':' ∷ path)))
      ≡ some (record { domain = []; svc = svc; path = path })
unfolding match_resource
match_resource_here svc path hc hp hm =
    let later : HasNoMark (codes "svc." ++ (svc ++ (b':' ∷ path))) =
      no_mark_before (codes "svc.") (svc ++ (b':' ∷ path)) (omega arith)
        (no_mark_before svc (b':' ∷ path) hc hm) in
    rw (match_resource-none (codes "svc." ++ (svc ++ (b':' ∷ path))) later, match_resource)
      (match_mark-append svc path hc hp)

-- A resource `domain:svc.service:path` of a domain with no line feed is taken apart into its
-- service and path, if the service is non-empty and has no colon, the path has no line feed, and
-- `:svc` does not stand in the path or across the colon before it.
pub parse_assertion_resource-append :
    (a : Assertion) (domain svc path : Text)
    → a.resource ≡ domain ++ (codes ":svc." ++ (svc ++ (b':' ∷ path)))
    → Lacks b'\n' domain
    → svc ≢ []
    → Lacks b':' svc
    → Lacks b'\n' path
    → HasNoMark (b':' ∷ path)
    → parse_assertion_resource domain (some a) ≡ ok (svc, path)
unfolding parse_assertion_resource
parse_assertion_resource-append a domain svc path e hd hs hc hp hm =
    let found : match_resource a.resource
        ≡ some (record { domain = domain ++ []; svc = svc; path = path }) =
      rw e (match_resource-append domain _ _ hd (match_resource_here svc path hc hp hm)) in
    rw (found, parse_assertion_resource) (ground (arith, append-nil domain, same_refl domain))
