-- ===== src/Onboarding/Services/Reconcile.antt =====
-- What the three list operations leave, by how often each service stands there.
use k8s_athenz_istio_auth.Prelude.{
  ℕ, ◌-◌, ◌≡◌, refl, sym, Bool, true, List, [], ◌∷◌, ◌++◌, none, some, arith, ◌==◌, if◌then◌else◌,
  Option-cases, inl, inr, ◌∙◌, append_assoc, append-nil, ◌↔◌,
}
use k8s_athenz_istio_auth.Prelude.Outcome.{returns}
use k8s_athenz_istio_auth.Prelude.Text.{Text, same_iff}
use k8s_athenz_istio_auth.Prelude.Keyed.{Keyed, lookup, insert, lookup-insert}
use k8s_athenz_istio_auth.Onboarding.Services.{
  service_map, missing_from, compare_service_lists, add_services, index_of, remove_index_element,
  delete_services,
}
use k8s_athenz_istio_auth.Onboarding.Services.Counting.{
  count, read_at-index_of, remove_index_element_lem,
}

pub add_services_lem : (more services : List Text) → add_services more services ≡ services ++ more
unfolding add_services
add_services_lem [] services = sym (append-nil services)
add_services_lem (d ∷ more) services =
    cc (add_services_lem more (services ++ (d ∷ [])), append_assoc services (d ∷ []) more)

count-none : (x : Text) (s : List Text) → index_of x s ≡ none → count x s ≡ 0
unfolding count index_of
count-none x [] h = refl
count-none x (y ∷ s) h = elim (Option-cases (index_of x s)) [
  | inl e ↦ ground (arith, e, h, count-none x s e)
  | inr (i, e) ↦ ground (arith, e, h)
]

delete-step :
    (d : Text) (more services : List Text) (i : ℕ) (s1 : List Text)
    → index_of d services ≡ some i
    → remove_index_element services i ≡ returns s1
    → delete_services (d ∷ more) services ≡ delete_services more s1
unfolding delete_services
delete-step d more services i s1 e run = cc

-- Deleting never panics, and takes out as many occurrences as the list names, if they are there.
pub delete_services_lem :
    (more services : List Text)
    → (s' : List Text) × (delete_services more services ≡ returns s')
      × ((x : Text) → count x s' ≡ count x services - count x more)
unfolding delete_services count
delete_services_lem [] services = (services, refl, λ x. omega arith)
delete_services_lem (d ∷ more) services = elim (Option-cases (index_of d services)) [
  | inl e ↦
      let (s', run, law) = delete_services_lem more services in
      (s', cc (e, run), λ x. ground (arith, law x, count-none d services e, same_iff d x))
  | inr (i, e) ↦
      let (s1, run1, law1) =
        remove_index_element_lem services i d (read_at-index_of d services i e) in
      let (s', run, law) = delete_services_lem more s1 in
      (s', delete-step d more services i s1 e run1 ∙ run, λ x. omega (arith, law x, law1 x))
]

-- The map has the keys of the list.
lookup-service_map :
    (m : Keyed Bool) (b : List Text) (x : Text)
    → (lookup (service_map m b) x ≡ none) ↔ ((lookup m x ≡ none) × (count x b ≡ 0))
unfolding service_map count
lookup-service_map m [] x = ground arith
lookup-service_map m (y ∷ b) x =
    ground (arith, lookup-service_map (insert m y true) b x, lookup-insert m y x true)

count-missing_from :
    (m : Keyed Bool) (a : List Text) (x : Text)
    → count x (missing_from m a) ≡ elim (lookup m x) [ none ↦ count x a | some _ ↦ 0 ]
unfolding count missing_from
count-missing_from m [] x = elim (Option-cases (lookup m x)) [
  | inl e ↦ ground (arith, e)
  | inr (v, e) ↦ ground (arith, e)
]
count-missing_from m (y ∷ a) x = elim (Option-cases (lookup m x)) [
  | inl e ↦ elim (Option-cases (lookup m y)) [
    | inl f ↦ ground (arith, e, f, same_iff y x, count-missing_from m a x)
    | inr (w, f) ↦ ground (arith, e, f, same_iff y x, count-missing_from m a x)
  ]
  | inr (v, e) ↦ elim (Option-cases (lookup m y)) [
    | inl f ↦ ground (arith, e, f, same_iff y x, count-missing_from m a x)
    | inr (w, f) ↦ ground (arith, e, f, same_iff y x, count-missing_from m a x)
  ]
]

pub compare_service_lists_lem :
    (a b : List Text) (x : Text)
    → count x (compare_service_lists a b) ≡ (if count x b == 0 then count x a else 0)
unfolding compare_service_lists lookup
compare_service_lists_lem a b x = elim (Option-cases (lookup (service_map [] b) x)) [
  | inl e ↦ ground (arith, e, lookup-service_map [] b x, count-missing_from (service_map [] b) a x)
  | inr (v, e) ↦
      ground (arith, e, lookup-service_map [] b x, count-missing_from (service_map [] b) a x)
]
