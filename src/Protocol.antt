-- ===== src/Protocol.antt =====
-- packages/protocol: the wire format, its canonical form, identifiers and validation.
pub mod Regex
pub mod Base64url
pub mod Canonical
pub mod Ids
pub mod Timestamp
pub mod Coerce
pub mod Validate
