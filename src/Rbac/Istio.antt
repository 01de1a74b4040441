-- ===== src/Rbac/Istio.antt =====
-- What the providers take from Istio: the schemas of its collections, the validation of
-- specifications, and the cache of the configurations in the cluster. `NewConfig` of
-- pkg/istio/rbac/common/util.go.
use k8s_athenz_istio_auth.Prelude.{Bool, List, [], Option}
use k8s_athenz_istio_auth.Prelude.Text.{Text}
use k8s_athenz_istio_auth.Rbac.Config.{Config}
use k8s_athenz_istio_auth.Rbac.Spec.{Spec, ServiceRole, ServiceRoleBinding}

-- The kind, group and version of a `collection.Schema`.
pub record Schema : Type 0 where
  pub kind : Text
  pub group : Text
  pub version : Text

-- The schemas of package collections that the program names.
pub record Collections : Type 0 where
  pub service_roles : Schema
  pub service_role_bindings : Schema
  pub cluster_rbac_configs : Schema
  pub authorization_policies : Schema

-- Istio's package validation: whether the role name, the namespace and the specification pass.
pub record Validation : Type 0 where
  pub validate_service_role : Text → Text → ServiceRole → Bool
  pub validate_service_role_binding : Text → Text → ServiceRoleBinding → Bool

-- Reading `model.ConfigStoreCache`: by schema and namespace, and by schema, name and namespace.
-- The error of a listing is only logged, and the list is then what came with it.
pub record ConfigStoreCache : Type 0 where
  pub list_configs : Schema → Text → List (Config Spec)
  pub get_config : Schema → Text → Text → Option (Config Spec)

-- `NewConfig`
unfoldable pub new_config : Schema → Text → Text → Spec → Config Spec
new_config schema namespace name spec = record {
  meta = record {
    type = schema.kind;
    group = schema.group;
    version = schema.version;
    namespace = namespace;
    name = name;
    resource_version = [];
    annotations = [];
  };
  spec = spec;
}
