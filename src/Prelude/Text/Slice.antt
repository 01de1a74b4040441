-- ===== src/Prelude/Text/Slice.antt =====
-- Slices of a concatenation.
use Prim.Native.Nat.{ℕ, suc, ◌-◌}
use mathlib.Core.Path.{◌≡◌, refl}
use mathlib.Core.Bool.{true}
use mathlib.Core.List.{[], ◌∷◌, ◌++◌}
use native.Mathlib.Omega.{arith}
use k8s_athenz_istio_auth.Prelude.Tests.{if◌then◌else◌}
use k8s_athenz_istio_auth.Prelude.Lists.{length, take, drop, length-append}
use k8s_athenz_istio_auth.Prelude.Text.Equality.{Text, same_refl}
use k8s_athenz_istio_auth.Prelude.Text.Search.{has_suffix}

pub take-append : (s t : Text) → take (length s) (s ++ t) ≡ s
take-append [] [] = refl
take-append [] (x ∷ t) = refl
take-append (x ∷ s) t = rw (take-append s t)

pub drop-append : (s t : Text) → drop (length s) (s ++ t) ≡ t
drop-append [] t = refl
drop-append (x ∷ s) t = drop-append s t

pub drop-append_suc : (s : Text) (c : ℕ) (t : Text) → drop (suc (length s)) (s ++ (c ∷ t)) ≡ t
drop-append_suc [] c t = refl
drop-append_suc (x ∷ s) c t = drop-append_suc s c t

length_before : (s t : Text) → length (s ++ t) - length t ≡ length s
length_before s t = omega (arith, length-append s t)

-- The part before a suffix.
pub take_before : (s t : Text) → take (length (s ++ t) - length t) (s ++ t) ≡ s
take_before s t = rw (length_before s t) (take-append s t)

pub has_suffix-append : (s t : Text) → has_suffix (s ++ t) t ≡ true
unfolding has_suffix
has_suffix-append s t =
    rw (length_before s t, drop-append s t, same_refl t) (ground (arith, length-append s t))

-- `strings.TrimSuffix`
unfoldable pub trim_suffix : Text → Text → Text
trim_suffix s p = if has_suffix s p then take (length s - length p) s else s

pub trim_suffix-append : (s t : Text) → trim_suffix (s ++ t) t ≡ s
unfolding trim_suffix
trim_suffix-append s t = rw (has_suffix-append s t) (take_before s t)
