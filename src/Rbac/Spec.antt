-- ===== src/Rbac/Spec.antt =====
-- The Istio specifications that the program builds: the fields that it sets or reads.
use k8s_athenz_istio_auth.Prelude.{List, Option}
use k8s_athenz_istio_auth.Prelude.Text.{Text}
use k8s_athenz_istio_auth.Prelude.Keyed.{Keyed}

-- `v1alpha1.AccessRule_Constraint`
pub record Constraint : Type 0 where
  pub key : Text
  pub values : List Text

-- `v1alpha1.AccessRule`
pub record AccessRule : Type 0 where
  pub constraints : List Constraint
  pub methods : List Text
  pub services : List Text
  pub paths : List Text

-- `v1alpha1.ServiceRole`
pub record ServiceRole : Type 0 where
  pub rules : List AccessRule

-- `v1alpha1.Subject`
pub record Subject : Type 0 where
  pub user : Text
  pub properties : Keyed Text

-- `v1alpha1.RoleRef`
pub record RoleRef : Type 0 where
  pub kind : Text
  pub name : Text

-- `v1alpha1.ServiceRoleBinding`
pub record ServiceRoleBinding : Type 0 where
  pub role_ref : RoleRef
  pub subjects : List Subject

-- `v1alpha1.RbacConfig_Mode`
pub data Mode : Type 0 where
  off on on_with_inclusion on_with_exclusion : Mode

-- `v1alpha1.RbacConfig`: the mode and the services of `Inclusion`, which may be nil. `Exclusion` and
-- `EnforcementMode`, which the program neither reads nor sets, are left out.
pub record RbacConfig : Type 0 where
  pub mode : Mode
  pub inclusion : Option (List Text)

-- `v1beta1.Operation` of a `Rule_To`
pub record Operation : Type 0 where
  pub methods : List Text
  pub paths : List Text

-- `v1beta1.Source` of a `Rule_From`
pub record Source : Type 0 where
  pub principals : List Text
  pub request_principals : List Text
  pub namespaces : List Text

-- `v1beta1.Rule`
pub record Rule : Type 0 where
  pub from : List Source
  pub to : List Operation

-- `v1beta1.AuthorizationPolicy`
pub record AuthorizationPolicy : Type 0 where
  pub match_labels : Keyed Text
  pub rules : List Rule

-- The specification of a configuration is one of these.
pub data Spec : Type 0 where
  service_role : ServiceRole → Spec
  service_role_binding : ServiceRoleBinding → Spec
  cluster_rbac_config : RbacConfig → Spec
  authorization_policy : AuthorizationPolicy → Spec
  foreign_spec : Spec
