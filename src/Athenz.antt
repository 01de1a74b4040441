-- ===== src/Athenz.antt =====
-- pkg/athenz: the names of domains and namespaces, and the role-centric view of a domain.
pub mod Names
pub mod Zms
pub mod Trust
pub mod Model
