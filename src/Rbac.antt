-- ===== src/Rbac.antt =====
-- pkg/istio/rbac: the shared part of the providers, and the providers.
pub mod Config
pub mod ChangeList
pub mod Components
pub mod Member
pub mod Assertion
pub mod Spec
pub mod ServiceRole
pub mod Binding
pub mod Istio
pub mod V1
pub mod Principals
pub mod DryRun
pub mod V2
