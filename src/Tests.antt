-- ===== src/Tests.antt =====
-- The verifiers on concrete inputs, and the theorems applied to them.
mod Samples
mod Computes
mod Verify
mod Delegation
mod Identity
mod Wire
mod Agreement
mod Storage
mod Online
mod Service
mod Builders
