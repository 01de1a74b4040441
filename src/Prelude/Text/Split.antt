-- ===== src/Prelude/Text/Split.antt =====
-- Laws of `strings.Split`.
use Prim.Native.Nat.{ℕ}
use mathlib.Core.Path.{◌≡◌, refl, ap}
use mathlib.Core.Logic.{◌≢◌, ◌⊎◌, inl, inr}
use mathlib.Core.Bool.{false, ◌&&◌}
use mathlib.Core.List.{List, [], ◌∷◌, ◌++◌}
use native.Mathlib.Omega.{arith}
use k8s_athenz_istio_auth.Prelude.Tests.{◌==◌, Bool-cases}
use k8s_athenz_istio_auth.Prelude.Text.Equality.{Text, same}
use k8s_athenz_istio_auth.Prelude.Text.Search.{split, replace, Lacks}
use k8s_athenz_istio_auth.Prelude.Lists.{All-append}

-- A split has a first part.
pub split-cons : (s : Text) (c : ℕ) → (p : Text) × (ps : List Text) × (split s c ≡ p ∷ ps)
unfolding split
split-cons [] c = ([], [], refl)
split-cons (x ∷ s) c = elim (Bool-cases (x == c)) [
  | inl e ↦ ([], split s c, rw e)
  | inr e ↦ let (p, ps, h) = split-cons s c in (x ∷ p, ps, rw (e, h))
]

-- A text with one part is that part, and has no separator.
pub split-one : (s : Text) (c : ℕ) (p : Text) → split s c ≡ p ∷ [] → (s ≡ p) × Lacks c s
unfolding split
split-one [] c p h = (ground arith, tt)
split-one (x ∷ s) c p h =
    let (q, qs, e) = split-cons s c in
    let ih : split s c ≡ q ∷ [] → (s ≡ q) × Lacks c s = split-one s c q in ground (arith, e, ih)

-- A text with two parts is those parts with the separator between them.
pub split-two :
    (s : Text) (c : ℕ) (a b : Text) → split s c ≡ a ∷ b ∷ [] → (s ≡ a ++ (c ∷ b)) × Lacks c b
unfolding split
split-two [] c a b h = cc
split-two (x ∷ s) c a b h =
    let (q, qs, e) = split-cons s c in
    let one : split s c ≡ b ∷ [] → (s ≡ b) × Lacks c s = split-one s c b in
    let ih : split s c ≡ q ∷ b ∷ [] → (s ≡ q ++ (c ∷ b)) × Lacks c b = split-two s c q b in
    ground (arith, e, one, ih)

-- A text with no separator is no text with one.
pub same-Lacks : (s u t : Text) (c : ℕ) → Lacks c s → same s (u ++ (c ∷ t)) ≡ false
unfolding same
same-Lacks [] [] t c h = refl
same-Lacks [] (y ∷ u) t c h = refl
same-Lacks (x ∷ s) [] t c h = ground arith
same-Lacks (x ∷ s) (y ∷ u) t c h = ground (arith, same-Lacks s u t c h.1)

-- A text with two parts is compared part by part.
pub same-split-two :
    (s : Text) (c : ℕ) (a b u t : Text)
    → split s c ≡ a ∷ b ∷ []
    → same s (u ++ (c ∷ t)) ≡ (same a u && same b t)
unfolding same split
same-split-two [] c a b u t h = cc
same-split-two (x ∷ s) c a b [] t h =
    let (q, qs, e) = split-cons s c in
    let one : split s c ≡ b ∷ [] → (s ≡ b) × Lacks c s = split-one s c b in ground (arith, e, one)
same-split-two (x ∷ s) c a b (y ∷ u) t h =
    let (q, qs, e) = split-cons s c in
    let one : split s c ≡ b ∷ [] → (s ≡ b) × Lacks c s = split-one s c b in
    let none : Lacks c s → same s (u ++ (c ∷ t)) ≡ false = same-Lacks s u t c in
    let ih : split s c ≡ q ∷ b ∷ [] → same s (u ++ (c ∷ t)) ≡ (same q u && same b t) =
      same-split-two s c q b u t in
    ground (arith, e, one, none, ih)

-- A text without the separator is one part.
pub split-Lacks : (s : Text) (c : ℕ) → Lacks c s → split s c ≡ s ∷ []
unfolding split
split-Lacks [] c h = refl
split-Lacks (x ∷ s) c h = ground (arith, split-Lacks s c h.1)

-- The first part ends at the first separator.
pub split-append :
    (a : Text) (c : ℕ) (b : Text) → Lacks c a → split (a ++ (c ∷ b)) c ≡ a ∷ split b c
unfolding split
split-append [] c b h = ground arith
split-append (x ∷ a) c b h = ground (arith, split-append a c b h.1)

pub replace-Lacks :
    (s : Text) (x c : ℕ) (by : Text) → Lacks c s → Lacks c by → Lacks c (replace s x by)
unfolding replace
replace-Lacks [] x c by hs hb = tt
replace-Lacks (y ∷ s) x c by hs hb = elim (Bool-cases (y == x)) [
  | inl e ↦ rw e (All-append (λ z. z ≢ c) by (replace s x by) hb (replace-Lacks s x c by hs.1 hb))
  | inr e ↦ rw e (hs.0, replace-Lacks s x c by hs.1 hb)
]

-- The first part is what stands in front of the first separator, if there is one.
pub split-first :
    (s : Text) (c : ℕ) (p : Text) (ps : List Text)
    → split s c ≡ p ∷ ps
    → Lacks c p × ((s ≡ p) ⊎ ((rest : Text) × (s ≡ p ++ (c ∷ rest))))
unfolding split
split-first [] c p ps h = let e : [] ≡ p = ground arith in rw (← e) (tt, inl refl)
split-first (x ∷ s) c p ps h = elim (Bool-cases (x == c)) [
  | inl e ↦
      let nil : [] ≡ p = ground (arith, e, h) in
      let same_char : x ≡ c = ground (arith, e) in rw (← nil, same_char) (tt, inr (s, refl))
  | inr e ↦
      let (q, qs, hq) = split-cons s c in
      let (lacks, parts) = split-first s c q qs hq in
      let made : x ∷ q ≡ p = ground (arith, e, hq, h) in
      rw (← made) (
        (ground (arith, e), lacks),
        elim parts [
          | inl k ↦ inl (ap (λ t. x ∷ t) k)
          | inr (rest, k) ↦ inr (rest, ap (λ t. x ∷ t) k)
        ],
      )
]
