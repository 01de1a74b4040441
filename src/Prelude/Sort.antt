-- ===== src/Prelude/Sort.antt =====
-- `sort.Strings`: texts in the order of their characters, and that the order of the input does not
-- matter.
use mathlib.Core.Path.{◌≡◌, refl, ◌∙◌}
use mathlib.Core.Logic.{◌⊎◌, inl, inr}
use mathlib.Core.Bool.{Bool, true, false, ◌&&◌, ◌||◌}
use mathlib.Core.List.{List, [], ◌∷◌, Permᴰ}
use native.Mathlib.Omega.{arith}
use k8s_athenz_istio_auth.Prelude.Tests.{◌==◌, ltb, if◌then◌else◌, Bool-cases}
use k8s_athenz_istio_auth.Prelude.Lists.{In}
use k8s_athenz_istio_auth.Prelude.Text.{Text}

-- `s <= t` on Go strings
unfoldable pub text_leb : Text → Text → Bool
text_leb [] t = true
text_leb (a ∷ s) [] = false
text_leb (a ∷ s) (b ∷ t) = ltb a b || (a == b && text_leb s t)

unfoldable pub insert_sorted : Text → List Text → List Text
insert_sorted x [] = x ∷ []
insert_sorted x (y ∷ ys) =
    let rest = insert_sorted x ys in if text_leb x y then x ∷ y ∷ ys else y ∷ rest

-- `sort.Strings`
unfoldable pub sort_strings : List Text → List Text
sort_strings [] = []
sort_strings (x ∷ xs) = insert_sorted x (sort_strings xs)

text_leb_total : (s t : Text) → (text_leb s t || text_leb t s) ≡ true
unfolding text_leb
text_leb_total [] t = refl
text_leb_total (a ∷ s) [] = refl
text_leb_total (a ∷ s) (b ∷ t) = ground (arith, text_leb_total s t)

text_leb_antisym : (s t : Text) → text_leb s t ≡ true → text_leb t s ≡ true → s ≡ t
unfolding text_leb
text_leb_antisym [] [] h k = refl
text_leb_antisym [] (b ∷ t) h k = cc
text_leb_antisym (a ∷ s) [] h k = cc
text_leb_antisym (a ∷ s) (b ∷ t) h k = ground (arith, text_leb_antisym s t)

text_leb_trans : (s t u : Text) → text_leb s t ≡ true → text_leb t u ≡ true → text_leb s u ≡ true
unfolding text_leb
text_leb_trans [] t u h k = refl
text_leb_trans (a ∷ s) [] u h k = cc
text_leb_trans (a ∷ s) (b ∷ t) [] h k = cc
text_leb_trans (a ∷ s) (b ∷ t) (c ∷ u) h k = ground (arith, text_leb_trans s t u)

insert-swap :
    (a b : Text) (l : List Text)
    → insert_sorted a (insert_sorted b l) ≡ insert_sorted b (insert_sorted a l)
unfolding insert_sorted
insert-swap a b [] = ground (arith, text_leb_total a b, text_leb_antisym a b)
insert-swap a b (y ∷ l) = ground (
  arith,
  insert-swap a b l,
  text_leb_total a b,
  text_leb_antisym a b,
  text_leb_trans a b y,
  text_leb_trans b a y,
)

-- Lists that are permutations of each other are sorted into the same list.
pub sort_strings-Permᴰ : {xs ys : List Text} → Permᴰ xs ys → sort_strings xs ≡ sort_strings ys
unfolding sort_strings
sort_strings-Permᴰ Permᴰ.nil = refl
sort_strings-Permᴰ (Permᴰ.cons e r) = cc (e, sort_strings-Permᴰ r)
sort_strings-Permᴰ (Permᴰ.swap {a = a} {b = b} {l = l} e₁ e₂) =
    cc (e₁, e₂, insert-swap a b (sort_strings l))
sort_strings-Permᴰ (Permᴰ.trans r s) = sort_strings-Permᴰ r ∙ sort_strings-Permᴰ s

In-insert_sorted : (x y : Text) (ys : List Text) → In x (insert_sorted y ys) → (x ≡ y) ⊎ In x ys
unfolding insert_sorted
In-insert_sorted x y [] h = h
In-insert_sorted x y (z ∷ ys) h = elim (Bool-cases (text_leb y z)) [
  | inl e ↦ rw (e) at h
  | inr e ↦ elim (rw (e) at h) [
    | inl i ↦ inr (inl i)
    | inr i ↦ elim (In-insert_sorted x y ys i) [ inl j ↦ inl j | inr j ↦ inr (inr j) ]
  ]
]

pub In-sort_strings : (x : Text) (xs : List Text) → In x (sort_strings xs) → In x xs
unfolding sort_strings
In-sort_strings x [] h = h
In-sort_strings x (y ∷ xs) h = elim (In-insert_sorted x y (sort_strings xs) h) [
  | inl e ↦ inl e
  | inr i ↦ inr (In-sort_strings x xs i)
]

insert_sorted-In : (x y : Text) (ys : List Text) → (x ≡ y) ⊎ In x ys → In x (insert_sorted y ys)
unfolding insert_sorted
insert_sorted-In x y [] h = h
insert_sorted-In x y (z ∷ ys) h = elim (Bool-cases (text_leb y z)) [
  | inl e ↦ rw e h
  | inr e ↦
      let found : In x (z ∷ insert_sorted y ys) = elim h [
        | inl i ↦ inr (insert_sorted-In x y ys (inl i))
        | inr (inl i) ↦ inl i
        | inr (inr i) ↦ inr (insert_sorted-In x y ys (inr i))
      ] in
      rw e found
]

pub sort_strings-In : (x : Text) (xs : List Text) → In x xs → In x (sort_strings xs)
unfolding sort_strings
sort_strings-In x [] h = h
sort_strings-In x (y ∷ xs) (inl e) = insert_sorted-In x y (sort_strings xs) (inl e)
sort_strings-In x (y ∷ xs) (inr i) =
    insert_sorted-In x y (sort_strings xs) (inr (sort_strings-In x xs i))
