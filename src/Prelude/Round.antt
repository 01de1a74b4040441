-- ===== src/Prelude/Round.antt =====
-- One round of a loop in which an error, or a test, goes on to the next round: `none` is
-- `continue`.
use mathlib.Core.Path.{◌≡◌, refl}
use mathlib.Core.Option.{Option, none, some}
use k8s_athenz_istio_auth.Prelude.Outcome.{Result, ok, err}

infixl 10 ◌>>=◌
abbrev pub ◌>>=◌ {ℓ κ} : {A : Type ℓ} {B : Type κ} → Result A → (A → Option B) → Option B
ok a >>= f = f a
err e >>= f = none

-- A round that yields a value had no error on its way.
pub >>=-eq_some {ℓ κ} :
    {A : Type ℓ} {B : Type κ} (r : Result A) (f : A → Option B) {b : B}
    → (r >>= f) ≡ some b
    → (a : A) × (r ≡ ok a) × (f a ≡ some b)
>>=-eq_some (ok a) f h = (a, refl, h)
>>=-eq_some (err e) f h = cc
