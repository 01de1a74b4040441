-- ===== src/Onboarding/Services/Counting.antt =====
-- How often a service stands in the lists.
use k8s_athenz_istio_auth.Prelude.{
  ℕ, zero, suc, ◌+◌, ◌-◌, ◌<◌, ◌≡◌, refl, List, [], ◌∷◌, ◌++◌, some, arith, length, take, ◌==◌,
  if◌then◌else◌, Option-cases, inl, inr,
}
use k8s_athenz_istio_auth.Prelude.Outcome.{returns}
use k8s_athenz_istio_auth.Prelude.Text.{Text, same, same_iff}
use k8s_athenz_istio_auth.Onboarding.Services.{index_of, read_at, write_at, remove_index_element}

abbrev pub is_at : Text → Text → ℕ
is_at x y = if same y x then 1 else 0

unfoldable pub count : Text → List Text → ℕ
count x [] = 0
count x (y ∷ ys) = is_at x y + count x ys

pub count-append : (x : Text) (xs ys : List Text) → count x (xs ++ ys) ≡ count x xs + count x ys
unfolding count
count-append x [] ys = omega arith
count-append x (z ∷ xs) ys = omega (arith, count-append x xs ys)

pub read_in_range : (s : List Text) (i : ℕ) → i < length s → (v : Text) × (read_at s i ≡ returns v)
unfolding read_at
read_in_range [] i h = absurd (omega arith)
read_in_range (x ∷ s) zero h = (x, refl)
read_in_range (x ∷ s) (suc i) h = read_in_range s i (omega arith)

count-write_at :
    (x : Text) (s : List Text) (i : ℕ) (u v : Text)
    → read_at s i ≡ returns u
    → count x (write_at s i v) + is_at x u ≡ count x s + is_at x v
unfolding count read_at write_at
count-write_at x [] i u v h = cc
count-write_at x (y ∷ s) zero u v h = ground arith
count-write_at x (y ∷ s) (suc i) u v h = omega (arith, count-write_at x s i u v h)

read_at-write_at :
    (s : List Text) (i j : ℕ) (u v : Text)
    → read_at s j ≡ returns u
    → read_at (write_at s j v) i ≡ (if i == j then returns v else read_at s i)
unfolding read_at write_at
read_at-write_at [] i j u v h = cc
read_at-write_at (y ∷ s) zero zero u v h = ground arith
read_at-write_at (y ∷ s) (suc i) zero u v h = ground arith
read_at-write_at (y ∷ s) zero (suc j) u v h = ground arith
read_at-write_at (y ∷ s) (suc i) (suc j) u v h = ground (arith, read_at-write_at s i j u v h)

length-write_at : (s : List Text) (i : ℕ) (v : Text) → length (write_at s i v) ≡ length s
unfolding write_at
length-write_at [] i v = refl
length-write_at (y ∷ s) zero v = refl
length-write_at (y ∷ s) (suc i) v = omega (arith, length-write_at s i v)

count-take :
    (x : Text) (s : List Text) (n : ℕ) (u : Text)
    → length s ≡ suc n
    → read_at s n ≡ returns u
    → count x (take n s) + is_at x u ≡ count x s
unfolding count read_at
count-take x [] n u hl hr = cc
count-take x (y ∷ []) zero u hl hr = ground arith
count-take x (y ∷ z ∷ s) zero u hl hr = absurd (omega arith)
count-take x (y ∷ s) (suc n) u hl hr = omega (arith, count-take x s n u (omega arith) hr)

pub read_at-index_of :
    (service : Text) (s : List Text) (i : ℕ)
    → index_of service s ≡ some i
    → (read_at s i ≡ returns service)
unfolding read_at index_of
read_at-index_of service [] i h = cc
read_at-index_of service (y ∷ s) zero h = elim (Option-cases (index_of service s)) [
  | inl e ↦ ground (arith, e, same_iff y service)
  | inr (j, e) ↦ ground (arith, e, same_iff y service)
]
read_at-index_of service (y ∷ s) (suc i) h = ground (arith, read_at-index_of service s i)

read_at_bound : (s : List Text) (i : ℕ) (v : Text) → read_at s i ≡ returns v → i < length s
unfolding read_at
read_at_bound [] i v h = cc
read_at_bound (y ∷ s) zero v h = omega arith
read_at_bound (y ∷ s) (suc i) v h = omega (arith, read_at_bound s i v h)

-- The last two writes exchange the elements, so the last one is then the one to remove.
exchange-last :
    (s : List Text) (i n : ℕ) (u last : Text)
    → read_at s i ≡ returns u
    → read_at s n ≡ returns last
    → read_at (write_at s n u) i ≡ returns u
exchange-last s i n u last h hl = ground (arith, read_at-write_at s i n last u hl)

last-exchanged :
    (s : List Text) (i n : ℕ) (u last : Text)
    → read_at s i ≡ returns u
    → read_at s n ≡ returns last
    → read_at (write_at (write_at s n u) i last) n ≡ returns u
last-exchanged s i n u last h hl = ground (
  arith,
  read_at-write_at s n n last u hl,
  read_at-write_at (write_at s n u) n i u last (exchange-last s i n u last h hl),
  exchange-last s i n u last h hl,
)

remove_at_last :
    (s : List Text) (i n : ℕ) (u last : Text)
    → length s ≡ suc n
    → read_at s i ≡ returns u
    → read_at s n ≡ returns last
    → (s' : List Text) × (s' ≡ take n (write_at (write_at s n u) i last))
      × ((x : Text) → count x s' + is_at x u ≡ count x s)
remove_at_last s i n u last e h hl = (
  take n (write_at (write_at s n u) i last),
  refl,
  λ x. omega (
    arith,
    count-take x (write_at (write_at s n u) i last) n u
        (omega (arith, length-write_at (write_at s n u) i last, length-write_at s n u))
        (last-exchanged s i n u last h hl),
    count-write_at x (write_at s n u) i u last (exchange-last s i n u last h hl),
    count-write_at x s n last u hl,
  ),
)

-- Removing at an index in range returns, and takes out one occurrence of what stood there.
pub remove_index_element_lem :
    (s : List Text) (i : ℕ) (u : Text)
    → read_at s i ≡ returns u
    → (s' : List Text) × (remove_index_element s i ≡ returns s')
      × ((x : Text) → count x s' + is_at x u ≡ count x s)
unfolding remove_index_element
remove_index_element_lem s i u h =
    let bound : i < length s = read_at_bound s i u h in
    let (last, hl) = read_in_range s (length s - 1) (omega arith) in
    let (s', e, law) = remove_at_last s i (length s - 1) u last (omega arith) h hl in
    (s', ground (arith, e, h, hl, bound), law)
