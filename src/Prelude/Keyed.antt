-- ===== src/Prelude/Keyed.antt =====
-- Go maps keyed by text, as association lists in which a key stands once. `none` is the second
-- value `false` of a lookup.
use mathlib.Core.Path.{◌≡◌, refl}
use mathlib.Core.Logic.{inl, inr}
use mathlib.Core.Option.{Option, none, some}
use mathlib.Core.List.{List, [], ◌∷◌}
use native.Mathlib.Omega.{arith}
use k8s_athenz_istio_auth.Prelude.Tests.{if◌then◌else◌, Bool-cases}
use k8s_athenz_istio_auth.Prelude.Text.{Text, same, same_iff}

abbrev pub Keyed {ℓ} : Type ℓ → Type ℓ
Keyed V = List (Text × V)

module _ {ℓ} {V : Type ℓ} where
  -- `m[k]`
  unfoldable pub lookup : Keyed V → Text → Option V
  lookup [] k = none
  lookup ((j, v) ∷ m) k = if same j k then some v else lookup m k

  -- `m[k] = v`
  unfoldable pub insert : Keyed V → Text → V → Keyed V
  insert [] k v = (k, v) ∷ []
  insert ((j, w) ∷ m) k v = if same j k then (k, v) ∷ m else (j, w) ∷ insert m k v

  -- `delete(m, k)`
  unfoldable pub delete : Keyed V → Text → Keyed V
  delete [] k = []
  delete ((j, w) ∷ m) k = let rest = delete m k in if same j k then rest else (j, w) ∷ rest

  pub lookup-insert :
      (m : Keyed V) (k j : Text) (v : V)
      → lookup (insert m k v) j ≡ (if same k j then some v else lookup m j)
  unfolding lookup insert
  lookup-insert [] k j v = refl
  lookup-insert ((i, w) ∷ m) k j v =
      ground (arith, same_iff k j, same_iff i k, same_iff i j, lookup-insert m k j v)

  pub lookup-delete :
      (m : Keyed V) (k j : Text) → lookup (delete m k) j ≡ (if same k j then none else lookup m j)
  unfolding lookup delete
  lookup-delete [] k j = ground arith
  lookup-delete ((i, w) ∷ m) k j =
      ground (arith, same_iff k j, same_iff i k, same_iff i j, lookup-delete m k j)

-- The predicate holds of every value that the map answers.
abbrev pub Values {ℓ κ} : {V : Type ℓ} → (V → Type κ) → Keyed V → Type (ℓ ⊔ κ)
Values {V = V} P m = (k : Text) (v : V) → lookup m k ≡ some v → P v

pub Values-nil {ℓ κ} : {V : Type ℓ} (P : V → Type κ) → Values P []
unfolding lookup
Values-nil P k v h = cc

pub Values-insert {ℓ κ} :
    {V : Type ℓ} (P : V → Type κ) (m : Keyed V) (j : Text) (w : V)
    → Values P m
    → P w
    → Values P (insert m j w)
Values-insert P m j w all here k v h = elim (Bool-cases (same j k)) [
  | inl e ↦ let found : w ≡ v = ground (arith, lookup-insert m j k w) in rw found at here
  | inr e ↦ all k v (ground (arith, lookup-insert m j k w))
]
