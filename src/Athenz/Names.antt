-- ===== src/Athenz/Names.antt =====
-- pkg/athenz/util.go: domain names as Kubernetes namespaces, and back.
use k8s_athenz_istio_auth.Prelude.{
  ℕ, ◌≡◌, ◌≢◌, ◌↔◌, refl, sym, ◌∙◌, ap, [], ◌∷◌, arith, ◌==◌, ==_iff, Bool-cases, inl, inr,
  if◌then◌else◌,
}
use k8s_athenz_istio_auth.Prelude.Text.{Text, codes, replace, replace_pair}

-- `DomainToNamespace`
unfoldable pub domain_to_namespace : Text → Text
domain_to_namespace domain = replace (replace domain b'-' (codes "--")) b'.' (codes "-")

-- `NamespaceToDomain`
unfoldable pub namespace_to_domain : Text → Text
namespace_to_domain ns = replace_pair (replace ns b'-' (codes ".")) b'.' b'-'

-- No dot stands directly before a dot or a dash, as in every Athenz domain name, whose parts begin
-- with a letter, a digit or an underscore.
abbrev pub FollowsDot : Text → Type 0
FollowsDot [] = Unit
FollowsDot (c ∷ s) = (c ≢ b'.') × (c ≢ b'-')

abbrev pub IsDotted : Text → Type 0
IsDotted [] = Unit
IsDotted (c ∷ s) = (c ≡ b'.' → FollowsDot s) × IsDotted s

-- The dots that the dashes and dots of a name become.
dotted : Text → Text
dotted [] = []
dotted (c ∷ s) = if c == b'-' then b'.' ∷ b'.' ∷ dotted s else c ∷ dotted s

replace-namespace : (s : Text) → replace (domain_to_namespace s) b'-' (codes ".") ≡ dotted s
unfolding domain_to_namespace replace dotted
replace-namespace [] = refl
replace-namespace (c ∷ s) = ground (arith, replace-namespace s)

replace_pair_ne :
    (c : ℕ) (s : Text) → c ≢ b'.' → replace_pair (c ∷ s) b'.' b'-' ≡ c ∷ replace_pair s b'.' b'-'
unfolding replace_pair
replace_pair_ne c [] h = refl
replace_pair_ne c (d ∷ s) h = ground arith

restored : Text → Text
restored s = replace_pair (dotted s) b'.' b'-'

restored_other : (c : ℕ) (s : Text) → c ≢ b'.' → restored (c ∷ s) ≡ c ∷ restored s
unfolding restored dotted replace_pair
restored_other c s h = ground (arith, replace_pair_ne c (dotted s))

replace_pair_keep :
    (c d : ℕ) (s : Text)
    → d ≢ b'.'
    → replace_pair (c ∷ d ∷ s) b'.' b'-' ≡ c ∷ replace_pair (d ∷ s) b'.' b'-'
unfolding replace_pair
replace_pair_keep c d s h = ground arith

dotted_other : (c : ℕ) (s : Text) → c ≢ b'-' → dotted (c ∷ s) ≡ c ∷ dotted s
unfolding dotted
dotted_other c s h = ground arith

restored_dot : (s : Text) → FollowsDot s → restored (b'.' ∷ s) ≡ b'.' ∷ restored s
restored_dot [] h = unfold restored dotted replace_pair in refl
restored_dot (d ∷ s) h =
    unfold restored in
    rw (dotted_other b'.' (d ∷ s) (omega arith), dotted_other d s h.1)
      (replace_pair_keep b'.' d (dotted s) h.0)

-- A dot that meets another dot is read back as a dash.
restored_clash : (s : Text) → restored (b'.' ∷ s) ≡ b'.' ∷ s → FollowsDot s
unfolding restored dotted replace_pair
restored_clash [] h = tt
restored_clash (d ∷ s) h = ground arith

back : (s : Text) → IsDotted s → restored s ≡ s
back [] h = unfold restored dotted replace_pair in refl
back (c ∷ s) h = elim (Bool-cases (c == b'.')) [
  | inl e ↦
      let dot : c ≡ b'.' = (==_iff c b'.').0 e in
      rw dot (restored_dot s (h.0 dot) ∙ ap (λ t. b'.' ∷ t) (back s h.1))
  | inr e ↦ ground (arith, restored_other c s, back s h.1)
]

back-IsDotted : (s : Text) → restored s ≡ s → IsDotted s
back-IsDotted [] h = tt
back-IsDotted (c ∷ s) h = elim (Bool-cases (c == b'.')) [
  | inl e ↦
      let dot : c ≡ b'.' = (==_iff c b'.').0 e in
      let h' : restored (b'.' ∷ s) ≡ b'.' ∷ s = rw dot at h in
      let f : FollowsDot s = restored_clash s h' in
      (λ _. f, back-IsDotted s (cc (restored_dot s f)))
  | inr e ↦
      let other : c ≢ b'.' = ground arith in
      (λ dot. absurd (other dot), back-IsDotted s (cc (restored_other c s other)))
]

-- The namespace of a domain leads back to the domain exactly when no dot of the domain stands
-- directly before a dot or a dash.
pub to_domain-to_namespace_iff :
    (domain : Text) → (namespace_to_domain (domain_to_namespace domain) ≡ domain) ↔ IsDotted domain
unfolding namespace_to_domain restored
to_domain-to_namespace_iff domain = rw replace-namespace (back-IsDotted domain, back domain)

-- Two domains in which no dot stands directly before a dot or a dash have different namespaces.
pub to_namespace_injective :
    (d e : Text) → IsDotted d → IsDotted e → domain_to_namespace d ≡ domain_to_namespace e → d ≡ e
to_namespace_injective d e hd he h =
    sym ((to_domain-to_namespace_iff d).1 hd)
    ∙ ap namespace_to_domain h
    ∙ (to_domain-to_namespace_iff e).1 he
