-- ===== src/Service.antt =====
-- packages/service: the use cases over the verifiers, the builders of artifacts, and a repository.
pub mod Workflows
pub mod Identity
pub mod Issuer
