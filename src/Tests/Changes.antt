-- ===== src/Tests/Changes.antt =====
-- Examples about `ComputeChangeList` and `ComponentEnabled`.
use k8s_athenz_istio_auth.Prelude.{
  ◌≡◌, refl, true, false, ◌||◌, List, [], ◌∷◌, Option, none, some, arith, any,
}
use k8s_athenz_istio_auth.Prelude.Outcome.{ok}
use k8s_athenz_istio_auth.Prelude.Text.{Text, codes, same, same_refl, split}
use k8s_athenz_istio_auth.Prelude.Keyed.{lookup, insert}
use k8s_athenz_istio_auth.Rbac.Config.{
  Config, ConfigApi, OnComplete, domain_callback, equal, convert_slice_to_keyed_map,
}
use k8s_athenz_istio_auth.Rbac.Config.Keys.{find, HasDistinctKeys}
use k8s_athenz_istio_auth.Rbac.ChangeList.{checked, compute_change_list}
use k8s_athenz_istio_auth.Rbac.ChangeList.Settle.{apply_all, settled, lookup-compute_change_list}
use k8s_athenz_istio_auth.Rbac.ChangeList.Quiet.{compute_change_list-settled}
use k8s_athenz_istio_auth.Rbac.Components.{
  ComponentEnabled, parse_components_enabled_authz_policy, is_enabled,
}
use k8s_athenz_istio_auth.Rbac.Components.Enabled.{names, is_enabled-parse_components}

-- Configurations whose specifications are texts, and whose keys are their names.
abbrev pub api : ConfigApi Text
api = record { key = λ meta. meta.name; spec_equal = same }

abbrev config : Text → Text → Config Text
config name spec = record {
  meta = record {
    type = [];
    group = [];
    version = [];
    namespace = [];
    name = name;
    resource_version = [];
    annotations = [];
  };
  spec = spec;
}

abbrev pub current : List (Config Text)
current = config (codes "a") (codes "1") ∷ config (codes "b") (codes "2") ∷ []

abbrev pub desired : List (Config Text)
desired = config (codes "a") (codes "3") ∷ config (codes "c") (codes "4") ∷ []

abbrev pub callback : Option OnComplete
callback = some (domain_callback (codes "a"))

current-HasDistinctKeys : HasDistinctKeys api current
unfolding find same
current-HasDistinctKeys = (refl, (refl, tt))

desired-HasDistinctKeys : HasDistinctKeys api desired
unfolding find same
desired-HasDistinctKeys = (refl, (refl, tt))

settled-a :
    settled api callback none (find api current (codes "a")) (find api desired (codes "a"))
    ≡ some (config (codes "a") (codes "3"))
unfolding settled find same equal checked
settled-a = refl

lookup-compute_change_list_example :
    lookup
      (apply_all api
        (convert_slice_to_keyed_map api current)
        (compute_change_list api current desired callback none))
      (codes "b")
    ≡ settled api callback none (find api current (codes "b")) (find api desired (codes "b"))
lookup-compute_change_list_example =
    lookup-compute_change_list api callback none current desired (codes "b") current-HasDistinctKeys
      desired-HasDistinctKeys

converged :
    (k : Text)
    → find api desired k ≡ settled api callback none (find api current k) (find api desired k)
unfolding settled find equal same checked
converged k = ground arith

compute_change_list-settled_example : compute_change_list api desired desired callback none ≡ []
compute_change_list-settled_example =
    compute_change_list-settled api callback none current desired desired (λ x. same_refl x)
      current-HasDistinctKeys desired-HasDistinctKeys desired-HasDistinctKeys converged

abbrev components_text : Text
components_text = codes "one/*,two/s"

abbrev components : ComponentEnabled
components = record {
  service_map = (codes "two/s", true) ∷ [];
  namespace_map = (codes "one", true) ∷ [];
  cluster = false;
}

parse-components : parse_components_enabled_authz_policy components_text ≡ ok components
unfolding parse_components_enabled_authz_policy same split insert
parse-components = refl

is_enabled-parse_components_example : is_enabled components (codes "s") (codes "two") ≡ (
    same components_text (codes "*")
    || any (names (codes "s") (codes "two")) (split components_text b','))
is_enabled-parse_components_example =
    is_enabled-parse_components (codes "s") (codes "two") components_text components
      parse-components
