-- ===== src/Prelude/Outcome.antt =====
-- What a Go call may do: return a value with an error (`Result`), or dereference nil and panic
-- (`Outcome`).
use mathlib.Core.Path.{◌≡◌, refl, ap, ◌∙◌}
use mathlib.Core.Logic.{◌⊎◌, inl, inr}

-- The classes of errors which the program makes or tells apart; the message texts, which are only
-- logged, are left out.
pub data Error : Type 0 where
  -- errors of pkg/istio/rbac/common
  member_nil not_a_principal principal_empty domain_empty role_empty : Error
  assertion_nil effect_nil effect_unsupported method_unsupported : Error
  resource_foreign resource_no_service role_foreign no_rules : Error
  system_disabled expired bad_component_item : Error
  -- errors of pkg/athenz
  trust_domain_missing trust_domain_cast : Error

-- A pair `(value, error)` of which the callers read one half.
pub data Result {ℓ} (A : Type ℓ) : Type ℓ where
  ok : A → Result A
  err : Error → Result A

infixl 10 ◌>>=◌
abbrev pub ◌>>=◌ {ℓ κ} : {A : Type ℓ} {B : Type κ} → Result A → (A → Result B) → Result B
ok a >>= f = f a
err e >>= f = err e

pub Result-cases {ℓ} :
    {A : Type ℓ} (r : Result A) → ((a : A) × (r ≡ ok a)) ⊎ ((e : Error) × (r ≡ err e))
Result-cases (ok a) = inl (a, refl)
Result-cases (err e) = inr (e, refl)

-- A computation that may stop the process by a nil dereference or an index out of range.
pub data Outcome {ℓ} (A : Type ℓ) : Type ℓ where
  returns : A → Outcome A
  panics : Outcome A

abbrev pub bind {ℓ κ} : {A : Type ℓ} {B : Type κ} → Outcome A → (A → Outcome B) → Outcome B
bind (returns a) f = f a
bind panics f = panics

pub Outcome-cases {ℓ} : {A : Type ℓ} (o : Outcome A) → ((a : A) × (o ≡ returns a)) ⊎ (o ≡ panics)
Outcome-cases (returns a) = inl (a, refl)
Outcome-cases panics = inr refl

pub returns_injective {ℓ} : {A : Type ℓ} {a b : A} → returns a ≡ returns b → a ≡ b
returns_injective h = cc

-- A bind that returns a value had one from its first half.
pub bind-eq_returns {ℓ κ} :
    {A : Type ℓ} {B : Type κ} (m : Outcome A) (f : A → Outcome B) {b : B}
    → bind m f ≡ returns b
    → (a : A) × (m ≡ returns a) × (f a ≡ returns b)
bind-eq_returns (returns a) f h = (a, refl, h)
bind-eq_returns panics f h = cc

pub bind-returns {ℓ κ} :
    {A : Type ℓ} {B : Type κ} (m : Outcome A) (f : A → Outcome B) {a : A}
    → m ≡ returns a
    → bind m f ≡ f a
bind-returns m f h = ap (λ o. bind o f) h

-- The computation returns a value of which the predicate holds.
abbrev pub Yields {ℓ κ} : {A : Type ℓ} → (A → Type κ) → Outcome A → Type (ℓ ⊔ κ)
Yields {A = A} P o = (a : A) × (o ≡ returns a) × P a

pub bind-Yields {ℓ κ} :
    {A B : Type ℓ} (P : A → Type κ) (Q : B → Type κ) (m : Outcome A) (f : A → Outcome B)
    → Yields P m
    → ((a : A) → P a → Yields Q (f a))
    → Yields Q (bind m f)
bind-Yields P Q m f (a, e, p) next = let (b, h, q) = next a p in (b, bind-returns m f e ∙ h, q)
