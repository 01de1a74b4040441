-- ===== src/Rbac/Components.antt =====
-- `ComponentEnabled` of pkg/istio/rbac/common/util.go: which services have authorization policies.
pub mod Enabled
use k8s_athenz_istio_auth.Prelude.{
  Bool, true, false, List, [], ◌∷◌, ◌++◌, none, some, if◌then◌else◌,
}
use k8s_athenz_istio_auth.Prelude.Outcome.{Result, ok, err, bad_component_item}
use k8s_athenz_istio_auth.Prelude.Text.{Text, codes, same, is_empty, split}
use k8s_athenz_istio_auth.Prelude.Keyed.{Keyed, lookup, insert}

-- `ComponentEnabled`; a nil map is an empty one.
pub record ComponentEnabled : Type 0 where
  pub service_map : Keyed Bool
  pub namespace_map : Keyed Bool
  pub cluster : Bool

-- `len(list) == 1 && list[0] == "*"`
abbrev pub only_star : List Text → Bool
only_star (item ∷ []) = same item (codes "*")
only_star _ = false

-- What one item of the list adds, from its parts between the slashes.
pub add_component : ComponentEnabled → List Text → Result ComponentEnabled
add_component c (ns ∷ service ∷ []) =
    if same service (codes "*")
    then ok (record c { namespace_map = insert c.namespace_map ns true })
    else ok (record c { service_map = insert c.service_map (ns ++ (codes "/" ++ service)) true })
add_component c _ = err bad_component_item

-- The loop over the items.
pub add_components : ComponentEnabled → List Text → Result ComponentEnabled
unfolding add_component
add_components c [] = ok c
add_components c (item ∷ items) =
    if is_empty item then add_components c items else elim (add_component c (split item b'/')) [
      | ok c' ↦ add_components c' items
      | err e ↦ err e
    ]

abbrev pub nothing_enabled : ComponentEnabled
nothing_enabled = record { service_map = []; namespace_map = []; cluster = false }

-- `ParseComponentsEnabledAuthzPolicy`
unfoldable pub parse_components_enabled_authz_policy : Text → Result ComponentEnabled
unfolding add_components
parse_components_enabled_authz_policy components_list =
    if is_empty components_list
    then ok nothing_enabled
    else if only_star (split components_list b',')
    then ok (record nothing_enabled { cluster = true })
    else add_components nothing_enabled (split components_list b',')

-- `_, exists := m[k]`
pub exists_key : Keyed Bool → Text → Bool
exists_key m k = elim (lookup m k) [ none ↦ false | some _ ↦ true ]

-- `containsService`
pub contains_service : ComponentEnabled → Text → Text → Bool
unfolding exists_key
contains_service c service ns = exists_key c.service_map (ns ++ (codes "/" ++ service))

-- `containsNamespace`
pub contains_namespace : ComponentEnabled → Text → Bool
unfolding exists_key
contains_namespace c ns = exists_key c.namespace_map ns

-- `IsEnabled`
unfoldable pub is_enabled : ComponentEnabled → Text → Text → Bool
unfolding contains_service contains_namespace
is_enabled c service ns =
    if c.cluster
    then true
    else if contains_namespace c ns
    then true
    else if contains_service c service ns
    then true
    else false
