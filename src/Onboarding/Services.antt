-- ===== src/Onboarding/Services.antt =====
-- The lists of services: what is onboarded, what is added and what is taken out.
pub mod Counting
pub mod Reconcile
use k8s_athenz_istio_auth.Prelude.{
  ℕ, zero, suc, ◌-◌, Bool, true, false, not, ◌&&◌, ◌||◌, List, [], ◌∷◌, ◌++◌, Option, none, some,
  length, take, ltb, if◌then◌else◌,
}
use k8s_athenz_istio_auth.Prelude.Outcome.{Outcome, returns, panics, bind}
use k8s_athenz_istio_auth.Prelude.Text.{Text, codes, same}
use k8s_athenz_istio_auth.Prelude.Keyed.{Keyed, lookup, insert}

-- The fields of Kubernetes' `v1.Service` that the program reads.
pub record Service : Type 0 where
  pub name : Text
  pub namespace : Text
  pub annotations : Keyed Text
  pub labels : Keyed Text

abbrev pub authz_enabled : Text
authz_enabled = codes "true"

abbrev pub authz_enabled_annotation : Text
authz_enabled_annotation = codes "authz.istio.io/enabled"

-- The object of the indexer is a service with the annotation set.
unfoldable pub is_onboarded : Service → Bool
is_onboarded svc = elim (lookup svc.annotations authz_enabled_annotation) [
  | none ↦ false
  | some key ↦ same key authz_enabled
]

-- `getOnboardedServiceList`; an object of the indexer that is no service is `none`.
unfoldable pub get_onboarded_service_list : Text → List (Option Service) → List Text
unfolding is_onboarded
get_onboarded_service_list dns_suffix [] = []
get_onboarded_service_list dns_suffix (none ∷ services) =
    get_onboarded_service_list dns_suffix services
get_onboarded_service_list dns_suffix (some svc ∷ services) =
    let rest = get_onboarded_service_list dns_suffix services in
    if is_onboarded svc
    then (svc.name ++ (codes "." ++ (svc.namespace ++ (codes "." ++ dns_suffix)))) ∷ rest
    else rest

-- The map that `compareServiceLists` makes of a list.
pub service_map : Keyed Bool → List Text → Keyed Bool
service_map m [] = m
service_map m (item ∷ items) = service_map (insert m item true) items

-- The items that are no key of the map.
pub missing_from : Keyed Bool → List Text → List Text
missing_from m [] = []
missing_from m (item ∷ items) =
    let rest = missing_from m items in elim (lookup m item) [ some _ ↦ rest | none ↦ item ∷ rest ]

-- `compareServiceLists`
pub compare_service_lists : List Text → List Text → List Text
unfolding service_map missing_from
compare_service_lists a b = missing_from (service_map [] b) a

-- `addServices`, on the services of the inclusion
unfoldable pub add_services : List Text → List Text → List Text
add_services [] services = services
add_services (service ∷ more) services = add_services more (services ++ (service ∷ []))

-- The index of the first occurrence, or -1.
pub index_of : Text → List Text → Option ℕ
index_of service [] = none
index_of service (svc ∷ services) =
    let rest = index_of service services in
    if same svc service then some 0 else elim rest [ none ↦ none | some i ↦ some (suc i) ]

-- A read, which panics out of range.
pub read_at : List Text → ℕ → Outcome Text
read_at [] i = panics
read_at (x ∷ xs) zero = returns x
read_at (x ∷ xs) (suc i) = read_at xs i

-- A write in range.
pub write_at : List Text → ℕ → Text → List Text
write_at [] i v = []
write_at (x ∷ xs) zero v = v ∷ xs
write_at (x ∷ xs) (suc i) v = x ∷ write_at xs i v

-- `removeIndexElement`: the element changes places with the last one, which is cut off. An index
-- beyond the length leaves the list alone, and the index of the length itself is out of range.
unfoldable pub remove_index_element : List Text → ℕ → Outcome (List Text)
unfolding read_at write_at
remove_index_element services index =
    if ltb (length services) index
    then returns services
    else bind (read_at services index) λ removed.
      bind (read_at services (length services - 1)) λ last. returns (
        take (length services - 1)
          (write_at (write_at services (length services - 1) removed) index last))

-- `deleteServices`, on the services of the inclusion
unfoldable pub delete_services : List Text → List Text → Outcome (List Text)
unfolding index_of remove_index_element
delete_services [] services = returns services
delete_services (service ∷ more) services = elim (index_of service services) [
  | none ↦ delete_services more services
  | some i ↦ bind (remove_index_element services i) λ services'. delete_services more services'
]
