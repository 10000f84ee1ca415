-- ===== src/Core.antt =====
-- packages/core: the verifiers.
pub mod Result
pub mod Run
pub mod Values
pub mod Verify
pub mod Identity
pub mod Artifacts
pub mod Delegation
