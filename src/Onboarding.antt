-- ===== src/Onboarding.antt =====
-- pkg/istio/onboarding/controller.go: the cluster RBAC configuration that lists the services which
-- take part.
pub mod Services
pub mod Sync
pub mod Worker
