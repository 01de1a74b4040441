-- ===== src/Prelude/Text/Search.antt =====
-- Prefixes, suffixes, positions, splitting and replacing, as Go's package strings does them.
use Prim.Native.Nat.{ℕ, zero, suc, ◌-◌}
use mathlib.Core.Path.{◌≡◌, refl}
use mathlib.Core.Logic.{◌≢◌, inl, inr}
use mathlib.Core.Bool.{Bool, true, false, ◌&&◌, ◌||◌}
use mathlib.Core.Option.{Option, none, some}
use mathlib.Core.List.{List, [], ◌∷◌, ◌++◌}
use native.Mathlib.Omega.{arith}
use k8s_athenz_istio_auth.Prelude.Tests.{◌==◌, leb, if◌then◌else◌, Option-cases}
use k8s_athenz_istio_auth.Prelude.Lists.{length, take, drop, All}
use k8s_athenz_istio_auth.Prelude.Text.Equality.{Text, same}

-- `strings.Contains(s, c)` for a text `c` of one character
unfoldable pub contains : Text → ℕ → Bool
contains [] c = false
contains (x ∷ s) c = x == c || contains s c

-- `s` with the prefix taken off, if it has that prefix
unfoldable pub cut_prefix : Text → Text → Option Text
cut_prefix s [] = some s
cut_prefix [] (p ∷ ps) = none
cut_prefix (x ∷ s) (p ∷ ps) = let rest = cut_prefix s ps in if x == p then rest else none

-- `strings.HasPrefix`
unfoldable pub has_prefix : Text → Text → Bool
has_prefix s p = elim (cut_prefix s p) [ none ↦ false | some _ ↦ true ]

-- `strings.TrimPrefix`
unfoldable pub trim_prefix : Text → Text → Text
trim_prefix s p = elim (cut_prefix s p) [ none ↦ s | some rest ↦ rest ]

-- `strings.HasSuffix`
unfoldable pub has_suffix : Text → Text → Bool
has_suffix s p = leb (length p) (length s) && same (drop (length s - length p) s) p

-- `strings.LastIndex(s, c)` for a text `c` of one character; `none` is -1
unfoldable pub last_index : Text → ℕ → Option ℕ
last_index [] c = none
last_index (x ∷ s) c = elim (last_index s c) [
  | some i ↦ some (suc i)
  | none ↦ if x == c then some 0 else none
]

-- One more character before the first part.
abbrev pub onto_head : ℕ → List Text → List Text
onto_head c [] = (c ∷ []) ∷ []
onto_head c (p ∷ ps) = (c ∷ p) ∷ ps

-- `strings.Split(s, c)` for a text `c` of one character
unfoldable pub split : Text → ℕ → List Text
split [] c = [] ∷ []
split (x ∷ s) c = let rest = split s c in if x == c then [] ∷ rest else onto_head x rest

-- `strings.Replace(s, c, by, -1)` for a text `c` of one character
unfoldable pub replace : Text → ℕ → Text → Text
replace [] c by = []
replace (x ∷ s) c by = (if x == c then by else x ∷ []) ++ replace s c by

-- `strings.Replace(s, cc, by, -1)` for a text of one character twice: the occurrences are taken
-- from the left and do not overlap
unfoldable pub replace_pair : Text → ℕ → ℕ → Text
replace_pair [] c by = []
replace_pair (x ∷ []) c by = x ∷ []
replace_pair (x ∷ y ∷ s) c by =
    let both = by ∷ replace_pair s c by in
    let one = x ∷ replace_pair (y ∷ s) c by in if (x == c) && (y == c) then both else one

-- `strings.ToUpper`, exact on what has an ASCII capital: the small letters and the two letters
-- U+0131 and U+017F. The other letters that have a capital have one outside ASCII, which no text
-- that the program compares with holds, and are left as they are.
unfoldable pub upper : ℕ → ℕ
upper c =
    if leb b'a' c && leb c b'z'
    then c - 32
    else if c == 0x131
    then b'I'
    else if c == 0x17f
    then b'S'
    else c

unfoldable pub to_upper : Text → Text
unfolding upper
to_upper [] = []
to_upper (c ∷ s) = upper c ∷ to_upper s

-- No character of the text is `c`.
abbrev pub Lacks : ℕ → Text → Type 0
Lacks c = All (λ x. x ≢ c)

pub contains-Lacks : (s : Text) (c : ℕ) → contains s c ≡ false → Lacks c s
unfolding contains
contains-Lacks [] c h = tt
contains-Lacks (x ∷ s) c h = (ground arith, contains-Lacks s c (ground arith))

pub contains-of_Lacks : (s : Text) (c : ℕ) → Lacks c s → contains s c ≡ false
unfolding contains
contains-of_Lacks [] c h = refl
contains-of_Lacks (x ∷ s) c h = ground (arith, contains-of_Lacks s c h.1)

pub cut_prefix-append : (p s : Text) → cut_prefix (p ++ s) p ≡ some s
unfolding cut_prefix
cut_prefix-append [] s = refl
cut_prefix-append (x ∷ p) s = ground (arith, cut_prefix-append p s)

pub trim_prefix-append : (p s : Text) → trim_prefix (p ++ s) p ≡ s
unfolding trim_prefix
trim_prefix-append p s = ground (arith, cut_prefix-append p s)

pub cut_prefix_sound : (s p r : Text) → cut_prefix s p ≡ some r → s ≡ p ++ r
unfolding cut_prefix
cut_prefix_sound s [] r h = ground arith
cut_prefix_sound [] (y ∷ p) r h = cc
cut_prefix_sound (x ∷ s) (y ∷ p) r h = ground (arith, cut_prefix_sound s p r)

-- What stands before and behind the last occurrence.
pub last_index-none : (s : Text) (c : ℕ) → Lacks c s → last_index s c ≡ none
unfolding last_index
last_index-none [] c h = refl
last_index-none (x ∷ s) c h = ground (arith, last_index-none s c h.1)

pub last_index-append :
    (s t : Text) (c : ℕ) → Lacks c t → last_index (s ++ c ∷ t) c ≡ some (length s)
unfolding last_index
last_index-append [] t c h = ground (arith, last_index-none t c h)
last_index-append (x ∷ s) t c h = ground (arith, last_index-append s t c h)

pub last_index-eq_none : (s : Text) (c : ℕ) → last_index s c ≡ none → Lacks c s
unfolding last_index
last_index-eq_none [] c h = tt
last_index-eq_none (x ∷ s) c h = (ground arith, last_index-eq_none s c (ground arith))

pub last_index-eq_some :
    (s : Text) (c i : ℕ)
    → last_index s c ≡ some i
    → (s ≡ take i s ++ (c ∷ drop (suc i) s)) × Lacks c (drop (suc i) s)
unfolding last_index
last_index-eq_some [] c i h = cc
last_index-eq_some (x ∷ s) c zero h = elim (Option-cases (last_index s c)) [
  | inl e ↦ (ground arith, last_index-eq_none s c e)
  | inr (j, e) ↦ ground (arith, e)
]
last_index-eq_some (x ∷ s) c (suc i) h = ground (arith, last_index-eq_some s c i)
